-- ===== src/Channel/Owned.antt =====
-- The invariant of a channel: its owner is seated, and `member_count` is the number of its members.
-- Creation establishes it.
use fenxin.Prelude.{
  ◌≡◌, refl, ◌∙◌, subst, inl, inr, true, false, some, List, [], ◌∷◌, ◌++◌, arith, is_some, All,
  All-append, IsDistinct, find_one, exists_where, count_where, Bool-cases, find_one-append,
  find_one-absent, find_one-head,
}
use fenxin.Entities.{
  Uuid, Date, Conversation, ConversationMember, owner, Db, is_channel_type, conversation_is,
  member_is, in_conversation,
}
use fenxin.Result.{Result, ok, err, Done}
use fenxin.Group.{new_member, save_members}
use fenxin.Group.Owned.{HasRole, ids_in, count-append, exists-append}
use fenxin.Group.Saved.{save_members-eq-ok, save_members-IsDistinct}
use fenxin.Group.Created.{others-roles, count-absent, absent-ids_in}
use fenxin.Channel.{
  ChannelProfile, ChannelParams, is_channel_of, new_channel, with_owner, insert_channel,
  create_channel,
}

-- The live channel `c` of owner `o`. The rows with the role of an owner are the owner's, the
-- owner is a member, nobody has two rows, and `member_count` is the number of member rows.
pub record IsChannel (db : Db) (c o : Uuid) : Type 0 where
  pub conv : Conversation
  pub stored : find_one (conversation_is c) db.conversations ≡ some conv
  pub channelled : is_channel_type conv.type ≡ true
  pub live : is_some conv.dissolved_at ≡ false
  pub owned : conv.owner_id ≡ some o
  pub roles : All (HasRole c o) db.members
  pub seated : exists_where (member_is c o) db.members ≡ true
  pub unique : IsDistinct (ids_in c db.members)
  pub counted : conv.member_count ≡ count_where (in_conversation c) db.members

pub with_owner-eq-ok :
    (id : Uuid) (p : ChannelParams) (row : Conversation) (db : Db)
    (r : Result (List ConversationMember)) (d : Done ChannelProfile)
    → (with_owner id p row db r).outcome ≡ ok d
    → (ms : List ConversationMember) × (r ≡ ok ms) × (record db { members = ms } ≡ d.db)
unfolding with_owner
with_owner-eq-ok id p row db (ok ms) d h = (ms, refl, ground arith)
with_owner-eq-ok id p row db (err e) d h = cc

-- A creation that succeeds has found no live channel of the owner, and stores the row and its
-- owner.
pub create_channel-eq-ok :
    (uuid : Uuid) (db : Db) (now : Date) (p : ChannelParams) (d : Done ChannelProfile)
    → (create_channel uuid db now p).outcome ≡ ok d
    → (is_some (find_one (is_channel_of p.owner_id) db.conversations) ≡ false)
      × (ms : List ConversationMember) × (save_members db.members
            (new_member now uuid owner p.owner_id ∷ [])
          ≡ ok ms)
      × (record db { members = ms; conversations = db.conversations ++ new_channel uuid now p ∷ [] }
          ≡ d.db)
unfolding create_channel insert_channel
create_channel-eq-ok uuid db now p d h =
    let row = new_channel uuid now p in
    elim (Bool-cases (is_some (find_one (is_channel_of p.owner_id) db.conversations))) [
      | inl e ↦ absurd (ground arith)
      | inr e ↦
          let k : (insert_channel uuid db now p).outcome ≡ ok d = rw e at h in
          let (ms, saved, same) =
            with_owner-eq-ok uuid p row (record db { conversations = db.conversations ++ row ∷ [] })
              (save_members db.members (new_member now uuid owner p.owner_id ∷ [])) d k in
          (e, ms, saved, same)
    ]

-- With a new id, a creation that succeeds stores a channel of the creator, who is its one member.
pub create_channel-IsChannel :
    (uuid : Uuid) (db : Db) (now : Date) (p : ChannelParams) (d : Done ChannelProfile)
    → exists_where (conversation_is uuid) db.conversations ≡ false
    → exists_where (in_conversation uuid) db.members ≡ false
    → (create_channel uuid db now p).outcome ≡ ok d
    → IsChannel d.db uuid p.owner_id
unfolding new_channel exists_where count_where
create_channel-IsChannel uuid db now p d new alone h =
    let row = new_channel uuid now p in
    let first = new_member now uuid owner p.owner_id in
    let (none_before, ms, e, same) = create_channel-eq-ok uuid db now p d h in
    let saved = save_members-eq-ok db.members (first ∷ []) ms e in
    subst (λ (x : Db). IsChannel x uuid p.owner_id) same
      (record {
        conv = row;
        stored =
            find_one-append (conversation_is uuid) db.conversations (row ∷ [])
              (find_one-absent (conversation_is uuid) db.conversations new)
            ∙ find_one-head (conversation_is uuid) row (ground arith);
        channelled = refl;
        live = refl;
        owned = refl;
        roles = rw saved (
            All-append (HasRole uuid p.owner_id) db.members (first ∷ [])
              (others-roles uuid p.owner_id db.members alone) (ground arith, tt));
        seated =
            rw (saved, exists-append (member_is uuid p.owner_id) db.members (first ∷ []))
              (ground arith);
        unique =
            save_members-IsDistinct uuid db.members (first ∷ []) ms e
              (rw (absent-ids_in uuid db.members alone) tt);
        counted =
            rw
              (
                saved,
                count-append (in_conversation uuid) db.members (first ∷ []),
                count-absent (in_conversation uuid) db.members alone,
              )
              (ground arith);
      })
