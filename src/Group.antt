-- ===== src/Group.antt =====
-- src/modules/group/group.service.ts: groups, their members and their owner. The audit log's detail
-- text and address are left out.
pub mod Members
pub mod Ownership
pub mod Listing
pub mod Owned
pub mod Saved
pub mod Membership
pub mod Transfer
pub mod Created
pub mod Dissolved
pub mod Cascade
mod Tests
use fenxin.Prelude.{
  ℕ, ◌≡◌, Bool, true, false, not, ◌&&◌, ◌||◌, Option, none, some, List, [], ◌∷◌, ◌++◌, map, ◌==◌,
  if◌then◌else◌, find_one, select_where, exists_where,
}
use fenxin.Entities.{
  Uuid, Date, Conversation, ConversationMember, MemberRole, member, Db, is_owner, is_group,
  is_private, member_is,
}
use fenxin.Result.{
  Result, ok, err, Error, bad_request, forbidden, not_found, internal, not_owner, duplicate_key,
  ◌>>=◌, ◌>>◌, require, or_throw, UpdateReason, conversation_updated, Effect, emit,
}

unfoldable pub get_membership : Db → Uuid → Uuid → Option ConversationMember
unfolding find_one
get_membership db conversation_id user_id = find_one (member_is conversation_id user_id) db.members

unfoldable pub is_owner_member : Option ConversationMember → Bool
is_owner_member none = false
is_owner_member (some m) = is_owner m.role

unfoldable pub assert_owner : Db → Uuid → Uuid → Result (Unit {0})
unfolding get_membership is_owner_member
assert_owner db conversation_id user_id =
    require (is_owner_member (get_membership db conversation_id user_id)) (forbidden not_owner)

-- `owner_id === userId`
unfoldable pub is_owned_by : Option Uuid → Uuid → Bool
is_owned_by none user_id = false
is_owned_by (some o) user_id = o == user_id

-- `findOne({ where: { id, type: 'group' } })`
abbrev pub group_is : Uuid → Conversation → Bool
group_is id c = c.id == id && is_group c.type

abbrev pub new_member : Date → Uuid → MemberRole → Uuid → ConversationMember
new_member now conversation_id role user_id = record {
  conversation_id = conversation_id;
  user_id = user_id;
  role = role;
  last_read_message_id = none;
  joined_at = now;
}

-- `memberRepo.save(rows)`: the unique key (conversation_id, user_id) refuses a row that is there.
unfoldable pub save_members :
    List ConversationMember → List ConversationMember → Result (List ConversationMember)
unfolding exists_where
save_members members [] = ok members
save_members members (row ∷ rows) =
    let rest = save_members (members ++ row ∷ []) rows in
    if exists_where (member_is row.conversation_id row.user_id) members
    then err (internal duplicate_key)
    else rest

abbrev pub updated_event : List Uuid → Uuid → UpdateReason → Effect
updated_event user_ids conversation_id reason =
    emit user_ids (conversation_updated conversation_id reason)
