-- ===== src/Group/Created.antt =====
-- A new group satisfies the invariant, and what a creation that fails leaves behind.
use fenxin.Prelude.{
  ◌≡◌, refl, ◌∙◌, sym, subst, inl, inr, Bool, true, false, not, ◌||◌, some, List, [], ◌∷◌, ◌++◌,
  arith, ◌==◌, if◌then◌else◌, All, length, map, find_one, exists_where, count_where, select_where,
  All-append, IsDistinct, has, ==_refl, Bool-cases, find_one-append, find_one-absent, find_one-head,
}
use fenxin.Entities.{
  Uuid, Date, Conversation, ConversationMember, member, owner, Db, conversation_is, member_is,
  in_conversation,
}
use fenxin.Result.{Error, Result, ok, err, internal, duplicate_key, Done}
use fenxin.Group.{new_member, save_members}
use fenxin.Group.Members.{
  GroupParams, new_group, all_member_ids, initial_members, set_member_count, with_members,
  create_group,
}
use fenxin.Group.Owned.{HasRole, ids_in, IsGroup, count-append, exists-append, counted-stored}
use fenxin.Group.Saved.{save_members-eq-ok, save_members-IsDistinct}

pub others-roles :
    (c o : Uuid) (ms : List ConversationMember)
    → exists_where (in_conversation c) ms ≡ false
    → All (HasRole c o) ms
unfolding exists_where
others-roles c o [] h = tt
others-roles c o (m ∷ ms) h = (ground arith, others-roles c o ms (ground arith))

pub count-absent :
    {A : Type 0} (p : A → Bool) (xs : List A) → exists_where p xs ≡ false → count_where p xs ≡ 0
unfolding count_where exists_where
count-absent p [] h = refl
count-absent p (x ∷ xs) h = ground (arith, count-absent p xs)

pub absent-ids_in :
    (c : Uuid) (ms : List ConversationMember)
    → exists_where (in_conversation c) ms ≡ false
    → ids_in c ms ≡ []
unfolding exists_where select_where
absent-ids_in c [] h = refl
absent-ids_in c (m ∷ ms) h = ground (arith, absent-ids_in c ms)

-- The row of a user in a new group of owner `o`.
abbrev first_row : Date → Uuid → Uuid → Uuid → ConversationMember
first_row now c o u = new_member now c (if u == o then owner else member) u

first_rows-roles :
    (now : Date) (c o : Uuid) (ids : List Uuid) → All (HasRole c o) (map (first_row now c o) ids)
first_rows-roles now c o [] = tt
first_rows-roles now c o (u ∷ ids) = (ground arith, first_rows-roles now c o ids)

first_rows-count :
    (now : Date) (c o : Uuid) (ids : List Uuid)
    → count_where (in_conversation c) (map (first_row now c o) ids) ≡ length ids
unfolding count_where
first_rows-count now c o [] = refl
first_rows-count now c o (u ∷ ids) = ground (arith, first_rows-count now c o ids)

first_rows-seated :
    (now : Date) (c o : Uuid) (ids : List Uuid)
    → exists_where (member_is c o) (map (first_row now c o) (o ∷ ids)) ≡ true
unfolding exists_where
first_rows-seated now c o ids = ground arith

or_true : (b : Bool) → (b || true) ≡ true
or_true true = refl
or_true false = refl

-- The outcome by the result of saving the members.
with_members-ok :
    (c : Uuid) (p : GroupParams) (row : Conversation) (db : Db)
    (r : Result (List ConversationMember)) (d : Done Conversation)
    → (with_members c p row db r).outcome ≡ ok d
    → (ms : List ConversationMember) × (r ≡ ok ms)
      × (record db {
        members = ms;
        conversations = set_member_count c (length (all_member_ids p)) db.conversations;
      }
          ≡ d.db)
with_members-ok c p row db (ok ms) d h = (ms, refl, ground arith)
with_members-ok c p row db (err e) d h = cc

with_members-err :
    (c : Uuid) (p : GroupParams) (row : Conversation) (db : Db)
    (r : Result (List ConversationMember)) (e : Error)
    → (with_members c p row db r).outcome ≡ err e
    → (r ≡ err e) × ((with_members c p row db r).left ≡ db)
with_members-err c p row db (ok ms) e h = cc
with_members-err c p row db (err x) e h = (ground arith, refl)

-- With a new id, a creation that succeeds gives a group of the creator: the only owner and a
-- member, with the right number of members.
pub create_group-IsGroup :
    (uuid : Uuid) (db : Db) (now : Date) (p : GroupParams) (d : Done Conversation)
    → exists_where (conversation_is uuid) db.conversations ≡ false
    → exists_where (in_conversation uuid) db.members ≡ false
    → (create_group uuid db now p).outcome ≡ ok d
    → IsGroup d.db uuid p.owner_id
unfolding create_group new_group initial_members all_member_ids set_member_count
create_group-IsGroup uuid db now p d new alone h =
    let row = new_group uuid now p in
    let rows = initial_members uuid now p in
    let n = length (all_member_ids p) in
    let (ms, e, same) =
      with_members-ok uuid p row (record db { conversations = db.conversations ++ row ∷ [] })
        (save_members db.members rows) d h in
    let saved = save_members-eq-ok db.members rows ms e in
    let stored : find_one (conversation_is uuid) (db.conversations ++ row ∷ []) ≡ some row =
      find_one-append (conversation_is uuid) db.conversations (row ∷ [])
        (find_one-absent (conversation_is uuid) db.conversations new)
      ∙ find_one-head (conversation_is uuid) row (ground arith) in
    subst (λ x. IsGroup x uuid p.owner_id) same
      (record {
        conv = record row { member_count = n };
        stored = counted-stored uuid n (db.conversations ++ row ∷ []) row stored;
        grouped = refl;
        owned = refl;
        roles = rw saved (
            All-append (HasRole uuid p.owner_id) db.members rows
              (others-roles uuid p.owner_id db.members alone)
              (first_rows-roles now uuid p.owner_id (all_member_ids p)));
        seated =
            rw
              (
                saved,
                exists-append (member_is uuid p.owner_id) db.members rows,
                first_rows-seated now uuid p.owner_id
                    (select_where (λ id. not (id == p.owner_id)) p.member_ids),
              )
              (or_true (exists_where (member_is uuid p.owner_id) db.members));
        unique =
            save_members-IsDistinct uuid db.members rows ms e
              (rw (absent-ids_in uuid db.members alone) tt);
        counted =
            rw
              (
                saved,
                count-append (in_conversation uuid) db.members rows,
                count-absent (in_conversation uuid) db.members alone,
                first_rows-count now uuid p.owner_id (all_member_ids p),
              )
              (omega arith);
      })

err_injective : {x y : Error} → ◌≡◌ {A = Result (List ConversationMember)} (err x) (err y) → x ≡ y
err_injective h = cc

save_members-err :
    (ms rows : List ConversationMember) (e : Error)
    → save_members ms rows ≡ err e
    → e ≡ internal duplicate_key
unfolding save_members
save_members-err ms [] e h = cc
save_members-err ms (r ∷ rows) e h =
    elim (Bool-cases (exists_where (member_is r.conversation_id r.user_id) ms)) [
      | inl t ↦ let k : err (internal duplicate_key) ≡ err e = rw t at h in sym (err_injective k)
      | inr t ↦
          let k : save_members (ms ++ r ∷ []) rows ≡ err e = rw t at h in
          save_members-err (ms ++ r ∷ []) rows e k
    ]

member-other :
    (now : Date) (c o u v : Uuid) (ms : List ConversationMember)
    → exists_where (member_is c v) ms ≡ false
    → (v == u) ≡ false
    → exists_where (member_is c v) (ms ++ first_row now c o u ∷ []) ≡ false
unfolding exists_where
member-other now c o u v [] h n = ground (arith, n)
member-other now c o u v (m ∷ ms) h n =
    ground (arith, member-other now c o u v ms (ground (arith, h)) n)

-- Members that are new and do not repeat are saved.
save_members-saved :
    (now : Date) (c o : Uuid) (ids : List Uuid) (ms : List ConversationMember)
    → IsDistinct ids
    → ((u : Uuid) → has u ids ≡ true → exists_where (member_is c u) ms ≡ false)
    → (ms' : List ConversationMember) × (save_members ms (map (first_row now c o) ids) ≡ ok ms')
unfolding save_members has
save_members-saved now c o [] ms d h = (ms, refl)
save_members-saved now c o (u ∷ ids) ms d h =
    let fresh : exists_where (member_is c u) ms ≡ false = h u (ground (arith, ==_refl u)) in
    let (ms', e) = save_members-saved now c o ids (ms ++ first_row now c o u ∷ []) d.1 (λ v t.
      elim (Bool-cases (v == u)) [
        | inl same ↦
            let here : has u ids ≡ true = subst (λ x. has x ids ≡ true) (ground arith) t in
            absurd (ground (arith, here, d.0))
        | inr n ↦ member-other now c o u v ms (h v (ground (arith, t))) n
      ]) in
    (ms', rw fresh e)

absent-member :
    (c u : Uuid) (ms : List ConversationMember)
    → exists_where (in_conversation c) ms ≡ false
    → exists_where (member_is c u) ms ≡ false
unfolding exists_where
absent-member c u [] h = refl
absent-member c u (m ∷ ms) h = ground (arith, absent-member c u ms)

-- With a new id, a creation fails only if the owner and the other members repeat somebody, with the
-- error of the unique key; it then leaves the group's row, which has no member.
pub create_group-fails :
    (uuid : Uuid) (db : Db) (now : Date) (p : GroupParams) (e : Error)
    → exists_where (conversation_is uuid) db.conversations ≡ false
    → exists_where (in_conversation uuid) db.members ≡ false
    → (create_group uuid db now p).outcome ≡ err e
    → (¬ IsDistinct (all_member_ids p))
      × (e ≡ internal duplicate_key)
      × (find_one (conversation_is uuid) (create_group uuid db now p).left.conversations
          ≡ some (new_group uuid now p))
      × (exists_where (in_conversation uuid) (create_group uuid db now p).left.members ≡ false)
unfolding create_group new_group initial_members
create_group-fails uuid db now p e new alone h =
    let row = new_group uuid now p in
    let base = record db { conversations = db.conversations ++ row ∷ [] } in
    let rows = initial_members uuid now p in
    let (r, same) = with_members-err uuid p row base (save_members db.members rows) e h in
    (
      λ d.
          (let (ms, saved) =
              save_members-saved now uuid p.owner_id (all_member_ids p) db.members d
                (λ u _. absent-member uuid u db.members alone) in
            cc (saved, r)),
      save_members-err db.members rows e r,
      rw same (
          find_one-append (conversation_is uuid) db.conversations (row ∷ [])
            (find_one-absent (conversation_is uuid) db.conversations new)
          ∙ find_one-head (conversation_is uuid) row (ground arith)),
      rw same alone,
    )
