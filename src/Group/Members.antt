-- ===== src/Group/Members.antt =====
-- `createGroup`, `addMembers`, `removeMember` and `updateGroupInfo` of
-- src/modules/group/group.service.ts.
use fenxin.Prelude.{
  ℕ, ◌+◌, Bool, false, not, Option, none, some, List, [], ◌∷◌, ◌++◌, map, length, ◌==◌,
  if◌then◌else◌, get_or, has, distinct, find_one, select_where, update_where, delete_where,
  count_where,
}
use fenxin.Entities.{
  Uuid, Date, Text, group, visible, Conversation, ConversationMember, member, owner, UserRole,
  is_admin, is_owner, Db, conversation_is, member_is, in_conversation,
}
use fenxin.Result.{
  Result, ok, err, forbidden, not_found, group_missing, not_in_group, owner_leaves, owner_removed,
  ◌>>=◌, ◌>>◌, reject, or_throw, by_created, by_members, by_info, Outcome,
}
use fenxin.Send.{get_member_user_ids}
use fenxin.Group.{
  get_membership, is_owner_member, assert_owner, new_member, save_members, updated_event,
}

pub record GroupParams : Type 0 where
  pub name : Text
  pub description : Option Text
  pub avatar_url : Option Text
  pub member_ids : List Uuid
  pub owner_id : Uuid
  pub is_channel : Option Bool

-- The row that `save` stores, with the columns' defaults.
unfoldable pub new_group : Uuid → Date → GroupParams → Conversation
new_group id now p = record {
  id = id;
  type = group;
  name = some p.name;
  description = p.description;
  avatar_url = p.avatar_url;
  owner_id = some p.owner_id;
  is_channel = get_or p.is_channel false;
  visibility = visible;
  member_count = 0;
  last_message_at = none;
  dissolved_at = none;
  dissolved_by = none;
  created_at = now;
}

-- `allMemberIds`
unfoldable pub all_member_ids : GroupParams → List Uuid
unfolding select_where
all_member_ids p = p.owner_id ∷ select_where (λ id. not (id == p.owner_id)) p.member_ids

unfoldable pub initial_members : Uuid → Date → GroupParams → List ConversationMember
unfolding all_member_ids
initial_members id now p =
    map (λ u. new_member now id (if u == p.owner_id then owner else member) u) (all_member_ids p)

unfoldable pub set_member_count : Uuid → ℕ → List Conversation → List Conversation
unfolding update_where
set_member_count id n = update_where (conversation_is id) (λ c. record c { member_count = n })

-- A call that may fail after a write: the database that it leaves, and its outcome.
pub record Attempt (A : Type 0) : Type 0 where
  pub left : Db
  pub outcome : Outcome A

abbrev pub with_members :
    Uuid → GroupParams → Conversation → Db → Result (List ConversationMember) → Attempt Conversation
with_members id p row db (err e) = record { left = db; outcome = err e }
with_members id p row db (ok members) =
    let db' = record db {
      members = members;
      conversations = set_member_count id (length (all_member_ids p)) db.conversations;
    } in
    record {
      left = db';
      outcome = ok (record {
        value = row;
        db = db';
        effects = updated_event (all_member_ids p) id by_created ∷ [];
      });
    }

-- The two tables are saved one after the other, without a transaction. `uuid` is the new row's id.
unfoldable pub create_group : Uuid → Db → Date → GroupParams → Attempt Conversation
unfolding new_group initial_members save_members set_member_count all_member_ids
create_group uuid db now p =
    let row = new_group uuid now p in
    with_members uuid p row (record db { conversations = db.conversations ++ row ∷ [] })
      (save_members db.members (initial_members uuid now p))

-- `existingIds`
unfoldable pub existing_ids : Db → Uuid → List Uuid
unfolding get_member_user_ids distinct
existing_ids db conversation_id = distinct (get_member_user_ids db conversation_id)

unfoldable pub new_member_ids : Db → Uuid → List Uuid → List Uuid
unfolding existing_ids has select_where
new_member_ids db conversation_id member_ids =
    select_where (λ id. not (has id (existing_ids db conversation_id))) member_ids

unfoldable pub insert_members : Db → Date → Uuid → List Uuid → Outcome (Unit {0})
unfolding save_members set_member_count existing_ids
insert_members db now conversation_id ids = do
  members ← save_members db.members (map (new_member now conversation_id member) ids)
  let existing = existing_ids db conversation_id
  ok (record {
    value = tt;
    db = record db {
      members = members;
      conversations =
          set_member_count conversation_id (length existing + length ids) db.conversations;
    };
    effects = updated_event (existing ++ ids) conversation_id by_members ∷ [];
  })

unfoldable pub add_members : Db → Date → Uuid → List Uuid → Uuid → Outcome (Unit {0})
unfolding assert_owner new_member_ids insert_members
add_members db now conversation_id member_ids operator_id = do
  assert_owner db conversation_id operator_id
  let ids = new_member_ids db conversation_id member_ids
  let inserted = insert_members db now conversation_id ids
  if length ids == 0 then ok (record { value = tt; db = db; effects = [] }) else inserted

-- Who may remove: a member that is not the owner may leave; an administrator, or the owner.
unfoldable pub check_remove : Db → Uuid → Uuid → Uuid → Option UserRole → Result (Unit {0})
unfolding get_membership assert_owner
check_remove db conversation_id target_user_id operator_id operator_role =
    let leave =
      or_throw (get_membership db conversation_id operator_id) (not_found not_in_group)
      >>= (λ membership. reject (is_owner membership.role) (forbidden owner_leaves)) in
    let by_other =
      if elim operator_role [ none ↦ false | some r ↦ is_admin r ]
      then ok tt
      else assert_owner db conversation_id operator_id in
    if target_user_id == operator_id then leave else by_other

unfoldable pub remove_member : Db → Uuid → Uuid → Uuid → Option UserRole → Outcome (Unit {0})
unfolding check_remove delete_where count_where set_member_count is_owner_member get_member_user_ids
remove_member db conversation_id target_user_id operator_id operator_role = do
  check_remove db conversation_id target_user_id operator_id operator_role
  reject (is_owner_member (get_membership db conversation_id target_user_id))
      (forbidden owner_removed)
  let members = delete_where (member_is conversation_id target_user_id) db.members
  let remaining = count_where (in_conversation conversation_id) members
  let db' = record db {
    members = members;
    conversations = set_member_count conversation_id remaining db.conversations;
  }
  ok (record {
    value = tt;
    db = db';
    effects =
        updated_event (target_user_id ∷ get_member_user_ids db' conversation_id) conversation_id
          by_members
        ∷ [];
  })

pub record GroupUpdates : Type 0 where
  pub name : Option Text
  pub description : Option Text
  pub avatar_url : Option Text

-- A field that is given replaces the column's value.
abbrev pub replaced : Option Text → Option Text → Option Text
replaced none old = old
replaced (some t) old = some t

unfoldable pub apply_updates : GroupUpdates → Conversation → Conversation
apply_updates u c = record c {
  name = replaced u.name c.name;
  description = replaced u.description c.description;
  avatar_url = replaced u.avatar_url c.avatar_url;
}

unfoldable pub update_group_info : Db → Uuid → GroupUpdates → Uuid → Outcome Conversation
unfolding assert_owner apply_updates update_where find_one
update_group_info db conversation_id updates operator_id = do
  assert_owner db conversation_id operator_id
  let conversations =
      update_where (conversation_is conversation_id) (apply_updates updates) db.conversations
  updated ←
      or_throw (find_one (conversation_is conversation_id) conversations) (not_found group_missing)
  ok (record {
    value = updated;
    db = record db { conversations = conversations };
    effects = updated_event (get_member_user_ids db conversation_id) conversation_id by_info ∷ [];
  })
