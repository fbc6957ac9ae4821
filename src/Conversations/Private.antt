-- ===== src/Conversations/Private.antt =====
-- A private conversation is created once.
use fenxin.Prelude.{
  has-select_and, ◌≡◌, refl, ◌∙◌, sym, ap, subst, inl, inr, Bool, true, false, ◌&&◌, Option, none,
  some, List, [], ◌∷◌, ◌++◌, map, arith, has, find_one, exists_where, select_where, update_where,
  Bool-cases, ==_refl,
}
use fenxin.Entities.{
  Uuid, Date, Conversation, ConversationMember, member, Db, is_private, conversation_is, member_is,
  user_is,
}
use fenxin.Result.{Result, ok, err, Done}
use fenxin.Group.{new_member, save_members}
use fenxin.Group.Owned.{exists-append}
use fenxin.Group.Saved.{save_members-eq-ok}
use fenxin.Group.Members.{set_member_count}
use fenxin.Conversations.{
  new_private, of_member, conversation_ids, common_ids, common_private, with_pair, create_private,
  found_or, is_active_user, get_or_create_private,
}

pub has-conversation_ids :
    (c u : Uuid) (ms : List ConversationMember)
    → has c (map (λ (m : ConversationMember). m.conversation_id) (select_where (of_member u) ms))
      ≡ exists_where (member_is c u) ms
unfolding has select_where exists_where
has-conversation_ids c u [] = refl
has-conversation_ids c u (m ∷ ms) = ground (arith, has-conversation_ids c u ms)

-- The conversation has a row of each of the two users.
abbrev pub joins : List ConversationMember → Uuid → Uuid → Conversation → Bool
joins ms u v c =
    (exists_where (member_is c.id u) ms && exists_where (member_is c.id v) ms) && is_private c.type

has-common_ids :
    (db : Db) (u v c : Uuid)
    → has c (common_ids db u v)
      ≡ (exists_where (member_is c u) db.members && exists_where (member_is c v) db.members)
unfolding common_ids conversation_ids
has-common_ids db u v c =
    rw
      (
        has-select_and c (λ id. has id (conversation_ids db v)) (conversation_ids db u),
        has-conversation_ids c u db.members,
        has-conversation_ids c v db.members,
      )
      refl

find_one-same :
    {A : Type 0} (p q : A → Bool) (xs : List A)
    → ((a : A) → p a ≡ q a)
    → find_one p xs ≡ find_one q xs
unfolding find_one
find_one-same p q [] h = refl
find_one-same p q (x ∷ xs) h = ground (arith, h x, find_one-same p q xs h)

common_private-joins :
    (db : Db) (u v : Uuid)
    → common_private db u v ≡ find_one (joins db.members u v) db.conversations
unfolding common_private
common_private-joins db u v =
    find_one-same (λ c. has c.id (common_ids db u v) && is_private c.type) (joins db.members u v)
      db.conversations (λ c. ap (λ b. b && is_private c.type) (has-common_ids db u v c.id))

common_private_symmetric : (db : Db) (u v : Uuid) → common_private db u v ≡ common_private db v u
common_private_symmetric db u v =
    common_private-joins db u v
    ∙ find_one-same (joins db.members u v) (joins db.members v u) db.conversations
        (λ c. ground arith)
    ∙ sym (common_private-joins db v u)

find_one-created :
    (test test' : Conversation → Bool) (f : Conversation → Conversation) (uuid : Uuid)
    (row : Conversation) (convs : List Conversation)
    → ((x : Conversation) → conversation_is uuid x ≡ false → test' x ≡ test x)
    → exists_where (conversation_is uuid) convs ≡ false
    → find_one test convs ≡ none
    → conversation_is uuid row ≡ true
    → test' (f row) ≡ true
    → find_one test' (update_where (conversation_is uuid) f (convs ++ row ∷ [])) ≡ some (f row)
unfolding find_one update_where exists_where
find_one-created test test' f uuid row [] h fresh e k t = rw (k, t) refl
find_one-created test test' f uuid row (x ∷ convs) h fresh e k t =
    ground (arith, h x, k, t, find_one-created test test' f uuid row convs h)

-- The outcome by the result of saving the two members.
with_pair-eq-ok :
    (uuid u v : Uuid) (row : Conversation) (db : Db) (r : Result (List ConversationMember))
    (d : Done Conversation)
    → (with_pair uuid u v row db r).outcome ≡ ok d
    → (ms : List ConversationMember) × (r ≡ ok ms)
      × (record db { members = ms; conversations = set_member_count uuid 2 db.conversations }
          ≡ d.db)
      × (row ≡ d.value)
with_pair-eq-ok uuid u v row db (ok ms) d h = (ms, refl, ground arith, ground arith)
with_pair-eq-ok uuid u v row db (err e) d h = cc

create_private-found :
    (uuid : Uuid) (db : Db) (now : Date) (u v : Uuid) (d : Done Conversation)
    → exists_where (conversation_is uuid) db.conversations ≡ false
    → common_private db u v ≡ none
    → (create_private uuid db now u v).outcome ≡ ok d
    → (conv : Conversation) × (common_private d.db u v ≡ some conv) × (conv.id ≡ d.value.id)
unfolding create_private set_member_count new_private exists_where
create_private-found uuid db now u v d fresh alone h =
    let row = new_private uuid now in
    let rows = new_member now uuid member u ∷ new_member now uuid member v ∷ [] in
    let base = record db { conversations = db.conversations ++ row ∷ [] } in
    let (ms, e, same, value) =
      with_pair-eq-ok uuid u v row base (save_members db.members rows) d h in
    let saved = save_members-eq-ok db.members rows ms e in
    let f = λ (c : Conversation). record c { member_count = 2 } in
    let none_before : find_one (joins db.members u v) db.conversations ≡ none =
      sym (common_private-joins db u v) ∙ alone in
    let other : (x : Conversation)
        → conversation_is uuid x ≡ false
        → joins (db.members ++ rows) u v x ≡ joins db.members u v x =
      λ x away. ground (
        arith,
        away,
        exists-append (member_is x.id u) db.members rows,
        exists-append (member_is x.id v) db.members rows,
      ) in
    let here : joins (db.members ++ rows) u v (f row) ≡ true = ground (
      arith,
      exists-append (member_is uuid u) db.members rows,
      exists-append (member_is uuid v) db.members rows,
      ==_refl uuid,
      ==_refl u,
      ==_refl v,
    ) in
    let after : Db = record db {
      members = ms;
      conversations = set_member_count uuid 2 base.conversations;
    } in
    let found =
      find_one-created (joins db.members u v) (joins (db.members ++ rows) u v) f uuid row
        db.conversations other fresh none_before (ground arith) here in
    (
      f row,
      subst (λ (x : Db). common_private x u v ≡ some (f row)) same
          (common_private-joins after u v ∙ rw saved found),
      ap (λ (c : Conversation). c.id) value,
    )

found_or-again :
    (uuid : Uuid) (db : Db) (now : Date) (u v : Uuid) (d : Done Conversation)
    (found : Option Conversation)
    → exists_where (conversation_is uuid) db.conversations ≡ false
    → common_private db u v ≡ found
    → (found_or db found (create_private uuid db now u v)).outcome ≡ ok d
    → (conv : Conversation) × (common_private d.db u v ≡ some conv) × (conv.id ≡ d.value.id)
found_or-again uuid db now u v d none fresh e h = create_private-found uuid db now u v d fresh e h
found_or-again uuid db now u v d (some conv) fresh e h =
    let same : db ≡ d.db = ground arith in
    let value : conv ≡ d.value = ground arith in
    (
      conv,
      subst (λ (x : Db). common_private x u v ≡ some conv) same e,
      ap (λ (c : Conversation). c.id) value,
    )

get-found :
    (uuid : Uuid) (db : Db) (now : Date) (u v : Uuid) (conv : Conversation)
    → is_active_user (find_one (user_is v) db.users) ≡ true
    → common_private db u v ≡ some conv
    → (get_or_create_private uuid db now u v).outcome
      ≡ ok (record { value = conv; db = db; effects = [] })
unfolding get_or_create_private
get-found uuid db now u v conv active e = rw (active, e) refl

get-users :
    (uuid : Uuid) (db : Db) (now : Date) (u v : Uuid) (d : Done Conversation)
    (found : Option Conversation)
    → (found_or db found (create_private uuid db now u v)).outcome ≡ ok d
    → d.db.users ≡ db.users
unfolding create_private
get-users uuid db now u v d (some conv) h = ground arith
get-users uuid db now u v d none h =
    let row = new_private uuid now in
    let rows = new_member now uuid member u ∷ new_member now uuid member v ∷ [] in
    let base = record db { conversations = db.conversations ++ row ∷ [] } in
    let (ms, e, same, value) =
      with_pair-eq-ok uuid u v row base (save_members db.members rows) d h in
    sym (ap (λ (x : Db). x.users) same)

-- A private conversation is opened once: when it has been found or created for two active users,
-- either of them who opens it again gets the same conversation, and nothing is written or sent.
pub get_or_create_private-again :
    (uuid : Uuid) (db : Db) (now : Date) (u v : Uuid) (d : Done Conversation) (uuid' : Uuid)
    (later : Date)
    → exists_where (conversation_is uuid) db.conversations ≡ false
    → is_active_user (find_one (user_is u) db.users) ≡ true
    → (get_or_create_private uuid db now u v).outcome ≡ ok d
    → (conv : Conversation) × (conv.id ≡ d.value.id)
      × ((get_or_create_private uuid' d.db later u v).outcome
          ≡ ok (record { value = conv; db = d.db; effects = [] }))
      × ((get_or_create_private uuid' d.db later v u).outcome
          ≡ ok (record { value = conv; db = d.db; effects = [] }))
unfolding get_or_create_private
get_or_create_private-again uuid db now u v d uuid' later fresh active_u h =
    elim (Bool-cases (is_active_user (find_one (user_is v) db.users))) [
      | inr t ↦ absurd (ground arith)
      | inl t ↦
          let k : (found_or db (common_private db u v) (create_private uuid db now u v)).outcome
              ≡ ok d =
            rw t at h in
          let (conv, found, same) =
            found_or-again uuid db now u v d (common_private db u v) fresh refl k in
          let users = get-users uuid db now u v d (common_private db u v) k in
          (
            conv,
            same,
            get-found uuid' d.db later u v conv (rw users t) found,
            get-found uuid' d.db later v u conv (rw users active_u)
                (common_private_symmetric d.db v u ∙ found),
          )
    ]
