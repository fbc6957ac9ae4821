-- ===== src/Group/Membership.antt =====
-- Creating a group establishes the group invariant, and adding, removing and renaming keep it.
use fenxin.Prelude.{
  ℕ, ◌+◌, ◌≡◌, ◌≢◌, refl, ap, ◌∙◌, sym, subst, inl, inr, Bool, true, false, not, Option, none, List,
  [], ◌∷◌, arith, ◌==◌, All, length, map, has, distinct_same, find_one, exists_where, count_where,
  select_where, update_where, delete_where, All-append, All-delete, All-find, Option-cases,
  Bool-cases, find_one-delete, find_one-passes, find_one-update_found,
}
use fenxin.Entities.{
  Uuid, Date, Conversation, ConversationMember, member, UserRole, Db, conversation_is, member_is,
  in_conversation,
}
use fenxin.Result.{ok, >>=-eq-ok, Done}
use fenxin.Send.{get_member_user_ids, members_of}
use fenxin.Group.{get_membership, is_owner_member, assert_owner, new_member, save_members}
use fenxin.Group.Members.{
  set_member_count, existing_ids, new_member_ids, insert_members, add_members, check_remove,
  remove_member, GroupUpdates, apply_updates, update_group_info,
}
use fenxin.Group.Owned.{
  HasRole, ids_in, IsGroup, count-append, exists-append, counted-stored, length-ids_in, has-ids_in,
  ids_in-delete, exists-delete_other, find-exists,
}
use fenxin.Group.Saved.{save_members-eq-ok, save_members-IsDistinct}

All-plain :
    (now : Date) (c o : Uuid) (ids : List Uuid)
    → has o ids ≡ false
    → All (HasRole c o) (map (new_member now c member) ids)
unfolding has
All-plain now c o [] h = tt
All-plain now c o (i ∷ ids) h = (ground arith, All-plain now c o ids (ground arith))

count_new :
    (now : Date) (c : Uuid) (ids : List Uuid)
    → count_where (in_conversation c) (map (new_member now c member) ids) ≡ length ids
unfolding count_where
count_new now c [] = refl
count_new now c (i ∷ ids) = ground (arith, count_new now c ids)

has-select_fails :
    (a : ℕ) (p : ℕ → Bool) (xs : List ℕ) → p a ≡ false → has a (select_where p xs) ≡ false
unfolding has select_where
has-select_fails a p [] h = refl
has-select_fails a p (x ∷ xs) h = elim (Bool-cases (a == x)) [
  | inl e ↦
      let same : a ≡ x = ground arith in
      let fails : p x ≡ false = ap p (sym same) ∙ h in rw fails (has-select_fails a p xs h)
  | inr e ↦ ground (arith, has-select_fails a p xs h)
]

-- Under the invariant exactly the owner passes the owner's check.
pub owner_member_sound :
    (db : Db) (c o u : Uuid)
    → All (HasRole c o) db.members
    → is_owner_member (get_membership db c u) ≡ true
    → u ≡ o
unfolding is_owner_member get_membership
owner_member_sound db c o u roles h = elim (Option-cases (find_one (member_is c u) db.members)) [
  | inl e ↦ absurd (ground arith)
  | inr (m, e) ↦
      let role = All-find (HasRole c o) (member_is c u) db.members m roles e in
      let key = find_one-passes (member_is c u) db.members m e in ground arith
]

pub owner_member_complete :
    (db : Db) (c o : Uuid)
    → All (HasRole c o) db.members
    → exists_where (member_is c o) db.members ≡ true
    → is_owner_member (get_membership db c o) ≡ true
unfolding is_owner_member get_membership
owner_member_complete db c o roles seated =
    let (m, e) = find-exists (member_is c o) db.members seated in
    let role = All-find (HasRole c o) (member_is c o) db.members m roles e in
    let key = find_one-passes (member_is c o) db.members m e in ground arith

insert_members-IsGroup :
    (db : Db) (now : Date) (c o : Uuid) (ids : List Uuid) (d : Done (Unit {0}))
    → IsGroup db c o
    → has o ids ≡ false
    → insert_members db now c ids ≡ ok d
    → IsGroup d.db c o
unfolding insert_members set_member_count existing_ids get_member_user_ids
insert_members-IsGroup db now c o ids d g away h =
    let rows = map (new_member now c member) ids in
    let (ms, e, f) = >>=-eq-ok (save_members db.members rows) _ h in
    let n = length (existing_ids db c) + length ids in
    let saved = save_members-eq-ok db.members rows ms e in
    let same : record db { members = ms; conversations = set_member_count c n db.conversations }
        ≡ d.db =
      ground arith in
    subst (λ x. IsGroup x c o) same
      (record {
        conv = record g.conv { member_count = n };
        stored = counted-stored c n db.conversations g.conv g.stored;
        grouped = g.grouped;
        owned = g.owned;
        roles =
            rw saved
              (All-append (HasRole c o) db.members rows g.roles (All-plain now c o ids away));
        seated = rw (saved, exists-append (member_is c o) db.members rows, g.seated) refl;
        unique = save_members-IsDistinct c db.members rows ms e g.unique;
        counted =
            rw
              (
                saved,
                count-append (in_conversation c) db.members rows,
                count_new now c ids,
                distinct_same (ids_in c db.members) g.unique,
                length-ids_in c db.members,
              )
              refl;
      })

-- Only the owner of a group adds members, and the group keeps its owner and its number of members.
pub add_members-IsGroup :
    (db : Db) (now : Date) (c o : Uuid) (member_ids : List Uuid) (operator_id : Uuid)
    (d : Done (Unit {0}))
    → IsGroup db c o
    → add_members db now c member_ids operator_id ≡ ok d
    → (operator_id ≡ o) × IsGroup d.db c o
unfolding add_members assert_owner new_member_ids existing_ids get_member_user_ids
add_members-IsGroup db now c o member_ids operator_id d g h =
    let ids = new_member_ids db c member_ids in
    let listed : has o (existing_ids db c) ≡ true =
      rw (distinct_same (ids_in c db.members) g.unique) (has-ids_in c o db.members ∙ g.seated) in
    let away : has o ids ≡ false =
      has-select_fails o (λ id. not (has id (existing_ids db c))) member_ids (ap not listed) in
    (
      owner_member_sound db c o operator_id g.roles (ground arith),
      elim (Bool-cases (length ids == 0)) [
        | inl e ↦ (let same : db ≡ d.db = ground arith in subst (λ x. IsGroup x c o) same g)
        | inr e ↦ insert_members-IsGroup db now c o ids d g away (ground arith)
      ],
    )

remove-ids :
    (c target : Uuid) (ms : List ConversationMember)
    → map
        (λ (m : ConversationMember). m.user_id)
        (select_where (in_conversation c) (delete_where (member_is c target) ms))
      ≡ delete_where
          (λ u. u == target)
          (map (λ (m : ConversationMember). m.user_id) (select_where (in_conversation c) ms))
unfolding select_where delete_where
remove-ids c target [] = refl
remove-ids c target (m ∷ ms) = ground (arith, remove-ids c target ms)

remove-others :
    (c target : Uuid) (ms : List ConversationMember)
    → delete_where (in_conversation c) (delete_where (member_is c target) ms)
      ≡ delete_where (in_conversation c) ms
unfolding delete_where
remove-others c target [] = refl
remove-others c target (m ∷ ms) = ground (arith, remove-others c target ms)

-- A removal never removes the owner. The group keeps its owner, its member ids are those before
-- but the target's, in the same order, its member count is their number, and no member row of
-- another conversation changes.
pub remove_member-IsGroup :
    (db : Db) (c o target operator_id : Uuid) (role : Option UserRole) (d : Done (Unit {0}))
    → IsGroup db c o
    → remove_member db c target operator_id role ≡ ok d
    → (target ≢ o)
      × (get_membership d.db c target ≡ none)
      × IsGroup d.db c o
      × (get_member_user_ids d.db c ≡ delete_where (λ u. u == target) (get_member_user_ids db c))
      × (delete_where (in_conversation c) d.db.members
          ≡ delete_where (in_conversation c) db.members)
unfolding remove_member get_membership set_member_count get_member_user_ids members_of
remove_member-IsGroup db c o target operator_id role d g h =
    let ms = delete_where (member_is c target) db.members in
    let n = count_where (in_conversation c) ms in
    let (u, a, f) = >>=-eq-ok (check_remove db c target operator_id role) _ h in
    let kept : is_owner_member (get_membership db c target) ≡ false = ground arith in
    let away : target ≢ o = λ e.
      (let no : is_owner_member (get_membership db c o) ≡ false =
          subst (λ x. is_owner_member (get_membership db c x) ≡ false) e kept in
        cc (no, owner_member_complete db c o g.roles g.seated)) in
    let same : record db { members = ms; conversations = set_member_count c n db.conversations }
        ≡ d.db =
      ground arith in
    subst
      (λ (x : Db).
        (target ≢ o)
        × (get_membership x c target ≡ none)
        × IsGroup x c o
        × (get_member_user_ids x c ≡ delete_where (λ u. u == target) (get_member_user_ids db c))
        × (delete_where (in_conversation c) x.members
            ≡ delete_where (in_conversation c) db.members))
      same
      (
        away,
        find_one-delete (member_is c target) db.members,
        record {
          conv = record g.conv { member_count = n };
          stored = counted-stored c n db.conversations g.conv g.stored;
          grouped = g.grouped;
          owned = g.owned;
          roles = All-delete (HasRole c o) (member_is c target) db.members g.roles;
          seated =
              exists-delete_other (member_is c o) (member_is c target) db.members
                (λ a t. ground (arith, away))
              ∙ g.seated;
          unique = ids_in-delete c (member_is c target) db.members g.unique;
          counted = refl;
        },
        remove-ids c target db.members,
        remove-others c target db.members,
      )

-- Renaming keeps the group, and only its owner does it.
pub update_group_info-IsGroup :
    (db : Db) (c o : Uuid) (updates : GroupUpdates) (operator_id : Uuid) (d : Done Conversation)
    → IsGroup db c o
    → update_group_info db c updates operator_id ≡ ok d
    → (operator_id ≡ o) × IsGroup d.db c o
unfolding update_group_info assert_owner apply_updates
update_group_info-IsGroup db c o updates operator_id d g h =
    let change = apply_updates updates in
    let found =
      find_one-update_found (conversation_is c) (conversation_is c) change db.conversations g.conv
        (λ x. refl) g.stored
        (find_one-passes (conversation_is c) db.conversations g.conv g.stored) in
    let same : record db {
      conversations = update_where (conversation_is c) change db.conversations;
    }
        ≡ d.db =
      ground (arith, found) in
    (
      owner_member_sound db c o operator_id g.roles (ground arith),
      subst (λ x. IsGroup x c o) same
          (record {
            conv = change g.conv;
            stored = found;
            grouped = g.grouped;
            owned = g.owned;
            roles = g.roles;
            seated = g.seated;
            unique = g.unique;
            counted = g.counted;
          }),
    )
