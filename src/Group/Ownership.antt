-- ===== src/Group/Ownership.antt =====
-- `dissolveGroup`, `dissolveGroupByOwner`, `transferOwnership` and `dissolveGroupsOnAccountDelete`
-- of src/modules/group/group.service.ts. A transaction that throws keeps the database.
use fenxin.Prelude.{
  ℕ, ◌+◌, Bool, true, false, not, ◌&&◌, some, List, [], ◌∷◌, ◌++◌, length, ◌==◌, if◌then◌else◌,
  is_some, find_one, select_where, update_where, count_where,
}
use fenxin.Entities.{
  Uuid, Date, Conversation, ConversationMember, MemberRole, member, owner, Db, is_group,
  conversation_is, member_is,
}
use fenxin.Result.{
  Result, ok, err, Error, bad_request, forbidden, not_found, conflict, internal, group_missing,
  group_dissolved, not_owner, transfer_to_self, target_not_member, owner_changed, corrupt_members,
  ◌>>=◌, ◌>>◌, require, reject, or_throw, by_dissolved, by_owner_changed, Effect, audit,
  AuditAction, dissolve_group_on_account_delete, Done, Outcome,
}
use fenxin.Result
use fenxin.Send.{get_member_user_ids}
use fenxin.Group.{get_membership, is_owned_by, group_is, updated_event}

-- The group, if it is there and not dissolved.
unfoldable pub live_group : Db → Uuid → Result Conversation
unfolding find_one
live_group db conversation_id = do
  conv ← or_throw (find_one (group_is conversation_id) db.conversations) (not_found group_missing)
  reject (is_some conv.dissolved_at) (bad_request group_dissolved)
  ok conv

-- The event to all members, then the audit record.
unfoldable pub dissolved_effects : Db → Uuid → Uuid → AuditAction → List Effect
unfolding get_member_user_ids
dissolved_effects db conversation_id operator_id action =
    updated_event (get_member_user_ids db conversation_id) conversation_id by_dissolved
    ∷ audit operator_id action conversation_id
    ∷ []

-- An administrator's dissolution keeps the messages.
unfoldable pub dissolve_group : Db → Date → Uuid → Uuid → Outcome (Unit {0})
unfolding live_group dissolved_effects update_where
dissolve_group db now conversation_id operator_id = do
  conv ← live_group db conversation_id
  ok (record {
    value = tt;
    db = record db {
      conversations =
          update_where (conversation_is conversation_id) (λ c. record c { dissolved_at = some now })
            db.conversations;
    };
    effects = dissolved_effects db conversation_id operator_id Result.dissolve_group;
  })

-- The transaction that dissolves a group and lets its live messages expire at once.
unfoldable pub burn_group : Db → Date → Uuid → Uuid → Db
unfolding update_where
burn_group db now conversation_id operator_id = record db {
  conversations =
      update_where (conversation_is conversation_id)
        (λ c. record c { dissolved_at = some now; dissolved_by = some operator_id })
        db.conversations;
  messages =
      update_where (λ m. m.conversation_id == conversation_id && not m.is_destroyed)
        (λ m. record m { destroy_at = some now }) db.messages;
}

unfoldable pub dissolve_group_by_owner : Db → Date → Uuid → Uuid → Outcome (Unit {0})
unfolding live_group is_owned_by burn_group dissolved_effects
dissolve_group_by_owner db now conversation_id operator_id = do
  conv ← live_group db conversation_id
  require (is_owned_by conv.owner_id operator_id) (forbidden not_owner)
  ok (record {
    value = tt;
    db = burn_group db now conversation_id operator_id;
    effects = dissolved_effects db conversation_id operator_id Result.dissolve_group_by_owner;
  })

unfoldable pub check_transfer : Db → Uuid → Uuid → Uuid → Result Conversation
unfolding live_group is_owned_by get_membership
check_transfer db conversation_id current_owner_id new_owner_id = do
  reject (current_owner_id == new_owner_id) (bad_request transfer_to_self)
  conv ← live_group db conversation_id
  require (is_owned_by conv.owner_id current_owner_id) (forbidden not_owner)
  membership ←
      or_throw (get_membership db conversation_id new_owner_id) (bad_request target_not_member)
  ok conv

-- An UPDATE that throws the error when it affects no row.
abbrev pub update_some {ℓ} : {A : Type ℓ} → (A → Bool) → (A → A) → Error → List A → Result (List A)
update_some test change error rows =
    if count_where test rows == 0 then err error else ok (update_where test change rows)

abbrev pub set_role : MemberRole → ConversationMember → ConversationMember
set_role role m = record m { role = role }

abbrev pub set_owner : Uuid → Conversation → Conversation
set_owner owner_id c = record c { owner_id = some owner_id }

-- The transaction: the conversation under its old owner, then the two members.
unfoldable pub swap_owner : Db → Uuid → Uuid → Uuid → Result Db
unfolding is_owned_by update_where count_where
swap_owner db conversation_id current_owner_id new_owner_id = do
  conversations ←
      update_some
        (λ c. conversation_is conversation_id c && is_owned_by c.owner_id current_owner_id)
        (set_owner new_owner_id) (conflict owner_changed) db.conversations
  demoted ←
      update_some (member_is conversation_id current_owner_id) (set_role member)
        (internal corrupt_members) db.members
  promoted ←
      update_some (member_is conversation_id new_owner_id) (set_role owner)
        (internal corrupt_members) demoted
  ok (record db { conversations = conversations; members = promoted })

unfoldable pub transfer_ownership : Db → Uuid → Uuid → Uuid → Outcome (Unit {0})
unfolding check_transfer swap_owner get_member_user_ids
transfer_ownership db conversation_id current_owner_id new_owner_id = do
  conv ← check_transfer db conversation_id current_owner_id new_owner_id
  db' ← swap_owner db conversation_id current_owner_id new_owner_id
  ok (record {
    value = tt;
    db = db';
    effects =
        updated_event (get_member_user_ids db' conversation_id) conversation_id
          (by_owner_changed new_owner_id)
        ∷ audit current_owner_id Result.transfer_ownership conversation_id
        ∷ [];
  })

-- `{ owner_id, type: 'group', dissolved_at: IsNull() }`
unfoldable pub is_owned_group : Uuid → Conversation → Bool
unfolding is_owned_by
is_owned_group owner_id c =
    is_owned_by c.owner_id owner_id && is_group c.type && not (is_some c.dissolved_at)

pub record Cascade : Type 0 where
  pub total : ℕ
  pub dissolved : ℕ

-- How the loop's `try` ends for a group: to its end, with the transaction rolled back, or with the
-- members not read after the transaction has been committed. The audit service catches its own
-- failures.
pub data GroupRun : Type 0 where
  completes rolled_back members_unread : GroupRun

abbrev pub is_complete : GroupRun → Bool
is_complete completes = true
is_complete rolled_back = false
is_complete members_unread = false

abbrev pub is_committed : GroupRun → Bool
is_committed completes = true
is_committed rolled_back = false
is_committed members_unread = true

-- The loop over the groups, where the database decides by `run` how each group's `try` ends: a
-- failure is caught, and the loop goes on. The number counts the groups that completed.
unfoldable pub dissolve_each :
    (Uuid → GroupRun) → Date → Uuid → List Conversation → Db → Db × List Effect × ℕ
unfolding burn_group dissolved_effects
dissolve_each run now operator_id [] db = (db, [], 0)
dissolve_each run now operator_id (conv ∷ convs) db =
    let burnt = burn_group db now conv.id operator_id in
    let next = if is_committed (run conv.id) then burnt else db in
    let (db', effects, dissolved) = dissolve_each run now operator_id convs next in
    let announced =
      dissolved_effects db conv.id operator_id Result.dissolve_group_on_account_delete in
    (
      db',
      (if is_complete (run conv.id) then announced else []) ++ effects,
      (if is_complete (run conv.id) then 1 else 0) + dissolved,
    )

unfoldable pub dissolve_groups_on_account_delete :
    (Uuid → GroupRun) → Db → Date → Uuid → Uuid → Done Cascade
unfolding is_owned_group select_where dissolve_each
dissolve_groups_on_account_delete run db now owner_id operator_id =
    let owned = select_where (is_owned_group owner_id) db.conversations in
    let (db', effects, dissolved) = dissolve_each run now operator_id owned db in
    record {
      value = record { total = length owned; dissolved = dissolved };
      db = db';
      effects = effects;
    }
