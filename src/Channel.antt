-- ===== src/Channel.antt =====
-- src/modules/channel/channel.service.ts: personal channels, one for each owner, to which users
-- subscribe. The audit log's detail text is left out. `member_count` is a signed column; the number
-- here stops at 0.
pub mod Owned
pub mod Members
pub mod Single
pub mod Dissolved
pub mod Discover
mod Tests
use fenxin.Prelude.{
  ℕ, ◌+◌, ◌-◌, ◌==◌, ◌&&◌, Bool, true, false, not, Option, none, some, List, [], ◌∷◌, ◌++◌,
  if◌then◌else◌, is_some, get_or, find_one, update_where, delete_where,
}
use fenxin.Entities.{
  Uuid, Date, Text, AppUser, channel, ChannelVisibility, visible, Conversation, ConversationMember,
  member, owner, Db, user_is, is_channel_type, conversation_is, member_is,
}
use fenxin.Result.{
  Result, ok, err, Error, bad_request, forbidden, not_found, conflict, not_owner, channel_missing,
  channel_exists, channel_dissolved, hidden_channel, owner_unsubscribes, ◌>>=◌, ◌>>◌, reject,
  require, or_throw, by_created, by_updated, by_subscribed, by_unsubscribed, audit,
  dissolve_channel_by_owner, Done, Outcome,
}
use fenxin.Send.{get_member_user_ids}
use fenxin.Group.{get_membership, is_owned_by, new_member, save_members, updated_event}
use fenxin.Group.Members.{replaced, Attempt}
use fenxin.Group.Ownership.{burn_group, dissolved_effects}

pub record OwnerInfo : Type 0 where
  pub id : Uuid
  pub display_name : Text
  pub avatar_url : Option Text

-- `toOwnerInfo`: only the fields that others may see.
unfoldable pub to_owner_info : Option AppUser → Option OwnerInfo
to_owner_info none = none
to_owner_info (some u) =
    some (record { id = u.id; display_name = u.display_name; avatar_url = u.avatar_url })

-- A channel with the reader's relation to it.
pub record ChannelProfile : Type 0 where
  pub conv : Conversation
  pub is_owner : Bool
  pub is_subscribed : Bool
  pub owner : Option OwnerInfo

-- `{ id, type: 'channel', dissolved_at: IsNull() }`
abbrev pub is_live_channel : Uuid → Conversation → Bool
is_live_channel id c = c.id == id && is_channel_type c.type && not (is_some c.dissolved_at)

-- `{ type: 'channel', owner_id, dissolved_at: IsNull() }`
unfoldable pub is_channel_of : Uuid → Conversation → Bool
unfolding is_owned_by
is_channel_of owner_id c =
    is_channel_type c.type && is_owned_by c.owner_id owner_id && not (is_some c.dissolved_at)

-- `getChannelOr404`
unfoldable pub get_channel : Db → Uuid → Result Conversation
unfolding find_one
get_channel db channel_id =
    or_throw (find_one (is_live_channel channel_id) db.conversations) (not_found channel_missing)

unfoldable pub own_profile : Db → Uuid → Conversation → ChannelProfile
unfolding find_one to_owner_info
own_profile db user_id conv = record {
  conv = conv;
  is_owner = true;
  is_subscribed = true;
  owner = to_owner_info (find_one (user_is user_id) db.users);
}

pub record ChannelParams : Type 0 where
  pub name : Text
  pub description : Option Text
  pub avatar_url : Option Text
  pub owner_id : Uuid

-- The row that `save` stores, with the columns' defaults.
unfoldable pub new_channel : Uuid → Date → ChannelParams → Conversation
new_channel id now p = record {
  id = id;
  type = channel;
  name = some p.name;
  description = p.description;
  avatar_url = p.avatar_url;
  owner_id = some p.owner_id;
  is_channel = false;
  visibility = visible;
  member_count = 1;
  last_message_at = none;
  dissolved_at = none;
  dissolved_by = none;
  created_at = now;
}

unfoldable pub with_owner :
    Uuid
    → ChannelParams
    → Conversation
    → Db
    → Result (List ConversationMember)
    → Attempt ChannelProfile
unfolding own_profile
with_owner id p row db (err e) = record { left = db; outcome = err e }
with_owner id p row db (ok members) =
    let db' = record db { members = members } in
    record {
      left = db';
      outcome = ok (record {
        value = own_profile db' p.owner_id row;
        db = db';
        effects = updated_event (p.owner_id ∷ []) id by_created ∷ [];
      });
    }

-- The writes of a creation, one after the other, without a transaction.
unfoldable pub insert_channel : Uuid → Db → Date → ChannelParams → Attempt ChannelProfile
unfolding new_channel with_owner save_members
insert_channel uuid db now p =
    let row = new_channel uuid now p in
    with_owner uuid p row (record db { conversations = db.conversations ++ row ∷ [] })
      (save_members db.members (new_member now uuid owner p.owner_id ∷ []))

unfoldable pub create_channel : Uuid → Db → Date → ChannelParams → Attempt ChannelProfile
unfolding find_one is_channel_of insert_channel
create_channel uuid db now p =
    let inserted = insert_channel uuid db now p in
    if is_some (find_one (is_channel_of p.owner_id) db.conversations)
    then record { left = db; outcome = err (conflict channel_exists) }
    else inserted

unfoldable pub get_my_channel : Db → Uuid → Result ChannelProfile
unfolding find_one is_channel_of own_profile
get_my_channel db user_id = do
  conv ← or_throw (find_one (is_channel_of user_id) db.conversations) (not_found channel_missing)
  ok (own_profile db user_id conv)

pub record ChannelPatch : Type 0 where
  pub name : Option Text
  pub description : Option Text
  pub avatar_url : Option Text
  pub visibility : Option ChannelVisibility

-- `merge`: a field that is given replaces the column's value.
unfoldable pub apply_patch : ChannelPatch → Conversation → Conversation
apply_patch p c = record c {
  name = replaced p.name c.name;
  description = replaced p.description c.description;
  avatar_url = replaced p.avatar_url c.avatar_url;
  visibility = get_or p.visibility c.visibility;
}

unfoldable pub update_channel : Db → Uuid → Uuid → ChannelPatch → Outcome ChannelProfile
unfolding get_channel is_owned_by apply_patch update_where get_member_user_ids own_profile
update_channel db channel_id user_id patch = do
  conv ← get_channel db channel_id
  require (is_owned_by conv.owner_id user_id) (forbidden not_owner)
  let db' = record db {
    conversations = update_where (conversation_is channel_id) (apply_patch patch) db.conversations;
  }
  ok (record {
    value = own_profile db' user_id (apply_patch patch conv);
    db = db';
    effects = updated_event (get_member_user_ids db' channel_id) channel_id by_updated ∷ [];
  })

pub record Subscription : Type 0 where
  pub conversation_id : Uuid
  pub subscribed : Bool

abbrev pub reply : Uuid → Bool → Subscription
reply channel_id subscribed = record { conversation_id = channel_id; subscribed = subscribed }

abbrev pub is_visible : ChannelVisibility → Bool
is_visible visible = true
is_visible _ = false

-- `increment` and `decrement` of `member_count`.
abbrev pub add_one : Conversation → Conversation
add_one c = record c { member_count = c.member_count + 1 }

abbrev pub drop_one : Conversation → Conversation
drop_one c = record c { member_count = c.member_count - 1 }

unfoldable pub subscribed_db : Db → Date → Uuid → Uuid → Db
unfolding update_where
subscribed_db db now channel_id user_id = record db {
  members = db.members ++ new_member now channel_id member user_id ∷ [];
  conversations = update_where (conversation_is channel_id) add_one db.conversations;
}

unfoldable pub subscribe : Db → Date → Uuid → Uuid → Outcome Subscription
unfolding get_channel get_membership subscribed_db
subscribe db now channel_id user_id = do
  conv ← get_channel db channel_id
  require (is_visible conv.visibility) (forbidden hidden_channel)
  ok (
      if is_some (get_membership db channel_id user_id)
      then record { value = reply channel_id true; db = db; effects = [] }
      else record {
        value = reply channel_id true;
        db = subscribed_db db now channel_id user_id;
        effects = updated_event (user_id ∷ []) channel_id by_subscribed ∷ [];
      })

unfoldable pub unsubscribed_db : Db → Uuid → Uuid → Db
unfolding update_where delete_where
unsubscribed_db db channel_id user_id = record db {
  members = delete_where (member_is channel_id user_id) db.members;
  conversations = update_where (conversation_is channel_id) drop_one db.conversations;
}

unfoldable pub unsubscribe : Db → Uuid → Uuid → Outcome Subscription
unfolding get_channel is_owned_by get_membership unsubscribed_db
unsubscribe db channel_id user_id = do
  conv ← get_channel db channel_id
  reject (is_owned_by conv.owner_id user_id) (bad_request owner_unsubscribes)
  ok (
      if is_some (get_membership db channel_id user_id)
      then record {
        value = reply channel_id false;
        db = unsubscribed_db db channel_id user_id;
        effects = updated_event (user_id ∷ []) channel_id by_unsubscribed ∷ [];
      }
      else record { value = reply channel_id false; db = db; effects = [] })

-- `{ id, type: 'channel' }`
abbrev pub channel_is : Uuid → Conversation → Bool
channel_is id c = c.id == id && is_channel_type c.type

-- The transaction is the one of a group's dissolution by its owner.
unfoldable pub dissolve_channel : Db → Date → Uuid → Uuid → Outcome (Unit {0})
unfolding find_one is_owned_by burn_group dissolved_effects
dissolve_channel db now channel_id operator_id = do
  conv ← or_throw (find_one (channel_is channel_id) db.conversations) (not_found channel_missing)
  reject (is_some conv.dissolved_at) (bad_request channel_dissolved)
  require (is_owned_by conv.owner_id operator_id) (forbidden not_owner)
  let db' = burn_group db now channel_id operator_id
  ok (record {
    value = tt;
    db = db';
    effects = dissolved_effects db' channel_id operator_id dissolve_channel_by_owner;
  })
