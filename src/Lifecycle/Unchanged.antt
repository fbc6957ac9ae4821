-- ===== src/Lifecycle/Unchanged.antt =====
-- Reading and the changes of groups leave the messages as they are, or only set their deadlines.
use fenxin.Prelude.{
  if◌then◌else◌, ℕ, ◌≡◌, refl, ap, ◌∙◌, sym, subst, not, ◌&&◌, Option, some, List, [], ◌∷◌, ◌++◌,
  length, arith, ◌==◌, ltb, if◌then◌else◌, All-update, has, if_cases, Bool-cases, inl, inr,
  select_where, count_where,
}
use fenxin.Entities.{Uuid, Date, UserRole, Message, Conversation, ConversationMember, Db}
use fenxin.Result.{Result, ok, err, >>=-eq-ok, Done}
use fenxin.Send.{assert_member}
use fenxin.Read.{
  mark_receipts, advance_to, mark_as_read, mark_messages_read, check_ids, is_marked_by_ids,
  is_marked_by_read, up_to_created_at, newest, is_within,
}
use fenxin.Read.Marks.{advance_to-tables}
use fenxin.Group.{save_members}
use fenxin.Group.Members.{
  GroupParams, with_members, initial_members, new_group, create_group, new_member_ids,
  insert_members, add_members, remove_member, check_remove, GroupUpdates, update_group_info,
}
use fenxin.Group.Ownership.{
  live_group, dissolve_group, burn_group, dissolve_group_by_owner, check_transfer, swap_owner,
  transfer_ownership, GroupRun, is_committed, dissolve_each, is_owned_group,
  dissolve_groups_on_account_delete,
}
use fenxin.Group.Transfer.{swap_owner-eq-ok}
use fenxin.Lifecycle.Rows.{IsNotLive, IsDead}

advance_to-messages :
    (db : Db) (c u : Uuid) (o : Option Message) → (advance_to db c u o).messages ≡ db.messages
advance_to-messages db c u o = ap (λ (x : Db). x.messages) (advance_to-tables db c u o)

pub mark_as_read-messages :
    (db : Db) (now : Date) (c u : Uuid) (up_to : Option Uuid) (d : Done (Unit {0}))
    → mark_as_read db now c u up_to ≡ ok d
    → d.db.messages ≡ db.messages
unfolding mark_as_read mark_receipts
mark_as_read-messages db now c u up_to d h =
    let (m, a, f) = >>=-eq-ok (assert_member db c u) _ h in
    let bound = up_to_created_at db c up_to in
    let db' = mark_receipts (is_marked_by_read db c u bound) now db in
    let last = newest (λ m. m.conversation_id == c && is_within bound m) db.messages in
    let same : (advance_to db' c u last).messages ≡ d.db.messages = ground arith in
    sym same ∙ advance_to-messages db' c u last

pub mark_messages_read-messages :
    (db : Db) (now : Date) (c u : Uuid) (message_ids : List (Option Uuid)) (d : Done ℕ)
    → mark_messages_read db now c u message_ids ≡ ok d
    → d.db.messages ≡ db.messages
unfolding mark_messages_read mark_receipts
mark_messages_read-messages db now c u message_ids d h =
    let (ids, a, f) = >>=-eq-ok (check_ids db c u message_ids) _ h in
    let marks = is_marked_by_ids db c u ids in
    let db' = mark_receipts marks now db in
    let latest = newest (λ m. has m.id ids && m.conversation_id == c) db.messages in
    let after = if ltb 0 (count_where marks db.receipts) then advance_to db' c u latest else db' in
    let same : after ≡ d.db = ground arith in
    ap (λ (x : Db). x.messages) (sym same)
    ∙ if_cases (λ (x : Db). x.messages ≡ db.messages) (ltb 0 (count_where marks db.receipts))
        (advance_to db' c u latest) db' (λ _. advance_to-messages db' c u latest) (λ _. refl)

with_members-messages :
    (c : Uuid) (p : GroupParams) (row : Conversation) (db : Db)
    (r : Result (List ConversationMember))
    → (with_members c p row db r).left.messages ≡ db.messages
with_members-messages c p row db (err e) = refl
with_members-messages c p row db (ok ms) = refl

pub create_group-messages :
    (uuid : Uuid) (db : Db) (now : Date) (p : GroupParams)
    → (create_group uuid db now p).left.messages ≡ db.messages
unfolding create_group
create_group-messages uuid db now p =
    let row = new_group uuid now p in
    with_members-messages uuid p row (record db { conversations = db.conversations ++ row ∷ [] })
      (save_members db.members (initial_members uuid now p))

insert_members-messages :
    (db : Db) (now : Date) (c : Uuid) (ids : List Uuid) (d : Done (Unit {0}))
    → insert_members db now c ids ≡ ok d
    → d.db.messages ≡ db.messages
unfolding insert_members
insert_members-messages db now c ids d h = ground arith

pub add_members-messages :
    (db : Db) (now : Date) (c : Uuid) (ids : List Uuid) (operator_id : Uuid) (d : Done (Unit {0}))
    → add_members db now c ids operator_id ≡ ok d
    → d.db.messages ≡ db.messages
unfolding add_members
add_members-messages db now c ids operator_id d h =
    elim (Bool-cases (length (new_member_ids db c ids) == 0)) [
      | inl e ↦ ground arith
      | inr e ↦ insert_members-messages db now c (new_member_ids db c ids) d (ground arith)
    ]

pub remove_member-messages :
    (db : Db) (c target operator_id : Uuid) (role : Option UserRole) (d : Done (Unit {0}))
    → remove_member db c target operator_id role ≡ ok d
    → d.db.messages ≡ db.messages
unfolding remove_member
remove_member-messages db c target operator_id role d h =
    let (u, a, f) = >>=-eq-ok (check_remove db c target operator_id role) _ h in ground arith

pub update_group_info-messages :
    (db : Db) (c : Uuid) (updates : GroupUpdates) (operator_id : Uuid) (d : Done Conversation)
    → update_group_info db c updates operator_id ≡ ok d
    → d.db.messages ≡ db.messages
unfolding update_group_info
update_group_info-messages db c updates operator_id d h = ground arith

pub dissolve_group-messages :
    (db : Db) (now : Date) (c operator_id : Uuid) (d : Done (Unit {0}))
    → dissolve_group db now c operator_id ≡ ok d
    → d.db.messages ≡ db.messages
unfolding dissolve_group
dissolve_group-messages db now c operator_id d h =
    let (conv, a, f) = >>=-eq-ok (live_group db c) _ h in ground arith

pub transfer_ownership-messages :
    (db : Db) (c o n : Uuid) (d : Done (Unit {0}))
    → transfer_ownership db c o n ≡ ok d
    → d.db.messages ≡ db.messages
unfolding transfer_ownership
transfer_ownership-messages db c o n d h =
    let (conv, a, f) = >>=-eq-ok (check_transfer db c o n) _ h in
    let (db', k, l) = >>=-eq-ok (swap_owner db c o n) _ f in
    let same : db' ≡ d.db = ground arith in
    ap (λ (x : Db). x.messages) (sym same)
    ∙ ap (λ (x : Db). x.messages) (sym (swap_owner-eq-ok db c o n db' k))

burn_group-IsDead :
    (db : Db) (now : Date) (c operator_id id : Uuid)
    → IsDead id db.messages
    → IsDead id (burn_group db now c operator_id).messages
unfolding burn_group
burn_group-IsDead db now c operator_id id dead =
    All-update (IsNotLive id) (λ x. x.conversation_id == c && not x.is_destroyed)
      (λ x. record x { destroy_at = some now }) db.messages (λ x t k. k) dead

pub dissolve_group_by_owner-IsDead :
    (db : Db) (now : Date) (c operator_id : Uuid) (d : Done (Unit {0})) (id : Uuid)
    → dissolve_group_by_owner db now c operator_id ≡ ok d
    → IsDead id db.messages
    → IsDead id d.db.messages
unfolding dissolve_group_by_owner
dissolve_group_by_owner-IsDead db now c operator_id d id h dead =
    let (conv, a, f) = >>=-eq-ok (live_group db c) _ h in
    let same : burn_group db now c operator_id ≡ d.db = ground arith in
    subst (λ (x : Db). IsDead id x.messages) same (burn_group-IsDead db now c operator_id id dead)

dissolve_each-IsDead :
    (run : Uuid → GroupRun) (now : Date) (operator_id : Uuid) (cs : List Conversation) (db : Db)
    (id : Uuid)
    → IsDead id db.messages
    → IsDead id (dissolve_each run now operator_id cs db).0.messages
unfolding dissolve_each
dissolve_each-IsDead run now operator_id [] db id dead = dead
dissolve_each-IsDead run now operator_id (c ∷ cs) db id dead =
    dissolve_each-IsDead run now operator_id cs
      (if is_committed (run c.id) then burn_group db now c.id operator_id else db) id
      (if_cases (λ (x : Db). IsDead id x.messages) (is_committed (run c.id))
        (burn_group db now c.id operator_id) db
        (λ _. burn_group-IsDead db now c.id operator_id id dead) (λ _. dead))

pub dissolve_groups_on_account_delete-IsDead :
    (run : Uuid → GroupRun) (db : Db) (now : Date) (owner_id operator_id id : Uuid)
    → IsDead id db.messages
    → IsDead id (dissolve_groups_on_account_delete run db now owner_id operator_id).db.messages
unfolding dissolve_groups_on_account_delete
dissolve_groups_on_account_delete-IsDead run db now owner_id operator_id id dead =
    dissolve_each-IsDead run now operator_id
      (select_where (is_owned_group owner_id) db.conversations) db id dead
