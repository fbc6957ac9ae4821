-- ===== src/Group/Transfer.antt =====
-- A transfer gives the group exactly one new owner.
use fenxin.Prelude.{
  ◌≡◌, ◌≢◌, refl, ap, ◌∙◌, sym, subst, inl, inr, Bool, true, false, ◌&&◌, some, List, [], ◌∷◌,
  arith, All, find_one, exists_where, count_where, update_where, delete_where, delete-update,
  Option-cases, find_one-passes, find_one-update_found,
}
use fenxin.Entities.{
  Uuid, Conversation, ConversationMember, MemberRole, member, owner, Db, is_owner, is_group,
  conversation_is, member_is, in_conversation,
}
use fenxin.Result.{Error, ok, >>=-eq-ok, Done}
use fenxin.Send.{get_member_user_ids, members_of}
use fenxin.Group.{get_membership, is_owned_by, group_is}
use fenxin.Group.Ownership.{
  live_group, check_transfer, update_some, set_role, set_owner, swap_owner, transfer_ownership,
}
use fenxin.Group.Owned.{
  HasRole, ids_in, IsGroup, count_update, exists-update, find_one-narrow, All-update_to,
  ids_in-update,
}

-- No member row of the conversation has the role of an owner.
abbrev HasNoRole : Uuid → ConversationMember → Type 0
HasNoRole c m = (in_conversation c m && is_owner m.role) ≡ false

demoted-roles :
    (c o : Uuid) (ms : List ConversationMember)
    → All (HasRole c o) ms
    → All (HasNoRole c) (update_where (member_is c o) (set_role member) ms)
demoted-roles c o ms h =
    All-update_to (HasRole c o) (HasNoRole c) (member_is c o) (set_role member) ms
      (λ a t r. ground arith) (λ a t r. ground arith) h

promoted-roles :
    (c n : Uuid) (ms : List ConversationMember)
    → All (HasNoRole c) ms
    → All (HasRole c n) (update_where (member_is c n) (set_role owner) ms)
promoted-roles c n ms h =
    All-update_to (HasNoRole c) (HasRole c n) (member_is c n) (set_role owner) ms
      (λ a t r. ground arith) (λ a t r. ground arith) h

pub update_some-eq-ok :
    {A : Type 0} (p : A → Bool) (f : A → A) (e : Error) (xs ys : List A)
    → update_some p f e xs ≡ ok ys
    → ys ≡ update_where p f xs
update_some-eq-ok p f e xs ys h = ground arith

set_role-seated :
    (c u v : Uuid) (r : MemberRole) (ms : List ConversationMember)
    → exists_where (member_is c u) (update_where (member_is c v) (set_role r) ms)
      ≡ exists_where (member_is c u) ms
set_role-seated c u v r ms =
    exists-update (member_is c u) (member_is c v) (set_role r) ms (λ a. refl)

set_role-count :
    (c v : Uuid) (r : MemberRole) (ms : List ConversationMember)
    → count_where (in_conversation c) (update_where (member_is c v) (set_role r) ms)
      ≡ count_where (in_conversation c) ms
set_role-count c v r ms =
    count_update (in_conversation c) (member_is c v) (set_role r) ms (λ a. refl)

set_role-ids :
    (c v : Uuid) (r : MemberRole) (ms : List ConversationMember)
    → ids_in c (update_where (member_is c v) (set_role r) ms) ≡ ids_in c ms
set_role-ids c v r ms = ids_in-update c (member_is c v) (set_role r) ms (λ a. (refl, refl))

-- The tables after the transaction.
pub swap_owner-eq-ok :
    (db : Db) (c o n : Uuid) (db' : Db)
    → swap_owner db c o n ≡ ok db'
    → record db {
      conversations =
          update_where
            (λ x. conversation_is c x && is_owned_by x.owner_id o)
            (set_owner n)
            db.conversations;
      members =
          update_where
            (member_is c n)
            (set_role owner)
            (update_where (member_is c o) (set_role member) db.members);
    }
      ≡ db'
unfolding swap_owner
swap_owner-eq-ok db c o n db' h =
    let (cs, e, h1) = >>=-eq-ok (update_some _ _ _ db.conversations) _ h in
    let (m1, e1, h2) = >>=-eq-ok (update_some _ _ _ db.members) _ h1 in
    let (m2, e2, h3) = >>=-eq-ok (update_some _ _ _ m1) _ h2 in
    let a = update_some-eq-ok _ _ _ db.conversations cs e in
    let a1 = update_some-eq-ok _ _ _ db.members m1 e1 in
    let a2 = update_some-eq-ok _ _ _ m1 m2 e2 in
    let members = a2 ∙ ap (update_where (member_is c n) (set_role owner)) a1 in
    let swapped : record db { conversations = cs; members = m2 } ≡ db' = ground arith in
    rw (sym a, sym members) swapped

swap_owner-IsGroup :
    (db : Db) (c o n : Uuid) (db' : Db)
    → IsGroup db c o
    → exists_where (member_is c n) db.members ≡ true
    → swap_owner db c o n ≡ ok db'
    → IsGroup db' c n
unfolding swap_owner is_owned_by
swap_owner-IsGroup db c o n db' g joined h =
    let test = λ (x : Conversation). conversation_is c x && is_owned_by x.owner_id o in
    let convs = update_where test (set_owner n) db.conversations in
    let ms = update_where (member_is c o) (set_role member) db.members in
    let key = find_one-passes (conversation_is c) db.conversations g.conv g.stored in
    let owned : test g.conv ≡ true = ground (arith, key, g.owned) in
    let found : find_one (conversation_is c) convs ≡ some (set_owner n g.conv) =
      find_one-update_found (conversation_is c) test (set_owner n) db.conversations g.conv
        (λ x. refl) g.stored owned in
    let same = swap_owner-eq-ok db c o n db' h in
    subst (λ x. IsGroup x c n) same
      (record {
        conv = set_owner n g.conv;
        stored = found;
        grouped = g.grouped;
        owned = refl;
        roles = promoted-roles c n ms (demoted-roles c o db.members g.roles);
        seated = set_role-seated c n n owner ms ∙ set_role-seated c n o member db.members ∙ joined;
        unique = rw (set_role-ids c n owner ms, set_role-ids c o member db.members) g.unique;
        counted = rw (set_role-count c n owner ms, set_role-count c o member db.members) g.counted;
      })

-- The group has the same members, and the other rows are untouched.
abbrev IsSameElsewhere : Db → Uuid → Db → Type 0
IsSameElsewhere db c x =
    (get_member_user_ids x c ≡ get_member_user_ids db c)
    × (delete_where (in_conversation c) x.members ≡ delete_where (in_conversation c) db.members)
    × (delete_where (conversation_is c) x.conversations
        ≡ delete_where (conversation_is c) db.conversations)

swap_owner-IsSameElsewhere :
    (db : Db) (c o n : Uuid) (db' : Db) → swap_owner db c o n ≡ ok db' → IsSameElsewhere db c db'
unfolding get_member_user_ids members_of
swap_owner-IsSameElsewhere db c o n db' h =
    let ms = update_where (member_is c o) (set_role member) db.members in
    subst (IsSameElsewhere db c) (swap_owner-eq-ok db c o n db' h) (
      set_role-ids c n owner ms ∙ set_role-ids c o member db.members,
      delete-update (in_conversation c) (member_is c n) (set_role owner) ms (λ x t. ground arith)
            (λ x. refl)
          ∙ delete-update (in_conversation c) (member_is c o) (set_role member) db.members
              (λ x t. ground arith) (λ x. refl),
      delete-update (conversation_is c)
          (λ (x : Conversation). conversation_is c x && is_owned_by x.owner_id o) (set_owner n)
          db.conversations (λ x t. ground arith) (λ x. refl),
    )

find-exists_back :
    {A : Type 0} (p : A → Bool) (xs : List A) (a : A)
    → find_one p xs ≡ some a
    → exists_where p xs ≡ true
unfolding find_one exists_where
find-exists_back p [] a e = absurd (ground arith)
find-exists_back p (x ∷ xs) a e = ground (arith, find-exists_back p xs a)

-- The group's row is the one that the search with the type finds.
pub group-stored :
    (db : Db) (c o : Uuid) (g : IsGroup db c o)
    → find_one (group_is c) db.conversations ≡ some g.conv
group-stored db c o g =
    find_one-narrow (conversation_is c) (λ (x : Conversation). is_group x.type) db.conversations
      g.conv g.stored g.grouped

check_transfer_sound :
    (db : Db) (c o current_owner_id new_owner_id : Uuid) (conv : Conversation)
    → IsGroup db c o
    → check_transfer db c current_owner_id new_owner_id ≡ ok conv
    → (current_owner_id ≡ o)
      × (new_owner_id ≢ o)
      × (exists_where (member_is c new_owner_id) db.members ≡ true)
unfolding check_transfer live_group is_owned_by get_membership
check_transfer_sound db c o current_owner_id new_owner_id conv g h =
    let stored = group-stored db c o g in
    let current : current_owner_id ≡ o = ground (arith, stored, g.owned) in
    (
      current,
      λ e. ground (arith, current, e),
      elim (Option-cases (find_one (member_is c new_owner_id) db.members)) [
        | inl e ↦ absurd (ground (arith, stored, e))
        | inr (m, e) ↦ find-exists_back (member_is c new_owner_id) db.members m e
      ],
    )

-- Only the owner of a group transfers it, to another member; the group then has that member as its
-- only owner, and the same members in the same order, and no other conversation or member row
-- changes.
pub transfer_ownership-IsGroup :
    (db : Db) (c o current_owner_id new_owner_id : Uuid) (d : Done (Unit {0}))
    → IsGroup db c o
    → transfer_ownership db c current_owner_id new_owner_id ≡ ok d
    → (current_owner_id ≡ o)
      × (new_owner_id ≢ o)
      × IsGroup d.db c new_owner_id
      × (get_member_user_ids d.db c ≡ get_member_user_ids db c)
      × (delete_where (in_conversation c) d.db.members
          ≡ delete_where (in_conversation c) db.members)
      × (delete_where (conversation_is c) d.db.conversations
          ≡ delete_where (conversation_is c) db.conversations)
unfolding transfer_ownership
transfer_ownership-IsGroup db c o current_owner_id new_owner_id d g h =
    let (conv, e, f) = >>=-eq-ok (check_transfer db c current_owner_id new_owner_id) _ h in
    let (current, other, joined) =
      check_transfer_sound db c o current_owner_id new_owner_id conv g e in
    let (db', k, l) = >>=-eq-ok (swap_owner db c current_owner_id new_owner_id) _ f in
    let swapped : swap_owner db c o new_owner_id ≡ ok db' =
      subst (λ x. swap_owner db c x new_owner_id ≡ ok db') current k in
    let same : db' ≡ d.db = ground arith in
    let (members, rows, convs) =
      subst (IsSameElsewhere db c) same
        (swap_owner-IsSameElsewhere db c o new_owner_id db' swapped) in
    (
      current,
      other,
      subst (λ x. IsGroup x c new_owner_id) same
          (swap_owner-IsGroup db c o new_owner_id db' g joined swapped),
      members,
      rows,
      convs,
    )
