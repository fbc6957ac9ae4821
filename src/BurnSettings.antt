-- ===== src/BurnSettings.antt =====
-- src/modules/burn-setting/burn-setting.service.ts: how long the messages of a user live once they
-- are opened, set for a partner or a conversation; here the table and its writes. The table is the
-- argument `settings`; the ttl is a natural number, since the dto admits integers from 1 only.
pub mod Resolve
pub mod Rows
pub mod Isolation
pub mod Sent
mod Tests
use fenxin.Prelude.{
  ℕ, ◌-◌, ◌*◌, ◌==◌, Bool, true, false, not, ◌&&◌, ◌||◌, Option, none, some, List, [], ◌∷◌, ◌++◌,
  map, ltb, leb, length, take, drop, is_some, if◌then◌else◌, find_one, select_where, update_where,
  delete_where, order_by,
}
use fenxin.Entities.{
  Uuid, Date, Text, AppUser, Conversation, ConversationType, ConversationMember, Message, Db,
  is_private, conversation_is, in_conversation, member_is, user_is,
}
use fenxin.Result.{
  Result, ok, err, bad_request, forbidden, not_found, account_missing, access_denied,
  conversation_missing, own_burn_ttl, ttl_out_of_range, private_burn_ttl, ◌>>=◌, ◌>>◌, reject,
  or_throw, Outcome,
}
use fenxin.Env.{Env}
use fenxin.Burn.{Number, finite}
use fenxin.Send.{SendParams, assert_member, send_message}

pub data BurnScopeType : Type 0 where
  user_scope conversation_scope : BurnScopeType

pub record BurnSetting : Type 0 where
  pub id : Uuid
  pub owner_id : Uuid
  pub scope_type : BurnScopeType
  pub scope_id : Uuid
  pub ttl_seconds : ℕ
  pub created_at : Date
  pub updated_at : Date

abbrev pub burn_ttl_min_seconds : ℕ
burn_ttl_min_seconds = 1

abbrev pub burn_ttl_max_seconds : ℕ
burn_ttl_max_seconds = 30 * 24 * 3600

abbrev pub same_scope : BurnScopeType → BurnScopeType → Bool
same_scope user_scope user_scope = true
same_scope conversation_scope conversation_scope = true
same_scope user_scope conversation_scope = false
same_scope conversation_scope user_scope = false

-- The unique key of the table.
unfoldable pub setting_of : Uuid → BurnScopeType → Uuid → BurnSetting → Bool
setting_of owner_id scope_type scope_id s =
    s.owner_id == owner_id && same_scope scope_type s.scope_type && s.scope_id == scope_id

unfoldable pub find_own : List BurnSetting → Uuid → BurnScopeType → Uuid → Option BurnSetting
unfolding find_one setting_of
find_own settings owner_id scope_type scope_id =
    find_one (setting_of owner_id scope_type scope_id) settings

abbrev pub set_ttl : ℕ → Date → BurnSetting → BurnSetting
set_ttl ttl_seconds now s = record s { ttl_seconds = ttl_seconds; updated_at = now }

abbrev pub new_setting : Uuid → Date → Uuid → BurnScopeType → Uuid → ℕ → BurnSetting
new_setting id now owner_id scope_type scope_id ttl_seconds = record {
  id = id;
  owner_id = owner_id;
  scope_type = scope_type;
  scope_id = scope_id;
  ttl_seconds = ttl_seconds;
  created_at = now;
  updated_at = now;
}

abbrev pub setting_is : Uuid → BurnSetting → Bool
setting_is id s = s.id == id

abbrev pub upsert_found :
    List BurnSetting → Date → BurnSetting → Option BurnSetting → List BurnSetting
upsert_found settings now row none = settings ++ row ∷ []
upsert_found settings now row (some existing) =
    update_where (setting_is existing.id) (set_ttl row.ttl_seconds now) settings

-- `uuid` is the id of a new row.
unfoldable pub upsert :
    Uuid → List BurnSetting → Date → Uuid → BurnScopeType → Uuid → ℕ → List BurnSetting
unfolding find_own update_where
upsert uuid settings now owner_id scope_type scope_id ttl_seconds =
    upsert_found settings now (new_setting uuid now owner_id scope_type scope_id ttl_seconds)
      (find_own settings owner_id scope_type scope_id)

unfoldable pub assert_ttl_range : ℕ → Result (Unit {0})
assert_ttl_range ttl_seconds =
    reject (ltb ttl_seconds burn_ttl_min_seconds || ltb burn_ttl_max_seconds ttl_seconds)
      (bad_request ttl_out_of_range)

unfoldable pub set_for_user :
    Uuid → List BurnSetting → Db → Date → Uuid → Uuid → ℕ → Result (List BurnSetting)
unfolding assert_ttl_range find_one upsert
set_for_user uuid settings db now owner_id target_user_id ttl_seconds = do
  reject (owner_id == target_user_id) (bad_request own_burn_ttl)
  assert_ttl_range ttl_seconds
  target ← or_throw (find_one (user_is target_user_id) db.users) (not_found account_missing)
  reject (is_some target.deleted_at) (not_found account_missing)
  ok (upsert uuid settings now owner_id user_scope target_user_id ttl_seconds)

unfoldable pub set_for_conversation :
    Uuid → List BurnSetting → Db → Date → Uuid → Uuid → ℕ → Result (List BurnSetting)
unfolding assert_ttl_range find_one assert_member upsert
set_for_conversation uuid settings db now owner_id conversation_id ttl_seconds = do
  assert_ttl_range ttl_seconds
  conv ←
      or_throw (find_one (conversation_is conversation_id) db.conversations)
        (not_found conversation_missing)
  reject (is_private conv.type) (bad_request private_burn_ttl)
  membership ← assert_member db conversation_id owner_id
  ok (upsert uuid settings now owner_id conversation_scope conversation_id ttl_seconds)

unfoldable pub clear_for_user : List BurnSetting → Uuid → Uuid → List BurnSetting
unfolding delete_where setting_of
clear_for_user settings owner_id target_user_id =
    delete_where (setting_of owner_id user_scope target_user_id) settings

unfoldable pub clear_for_conversation : List BurnSetting → Uuid → Uuid → List BurnSetting
unfolding delete_where setting_of
clear_for_conversation settings owner_id conversation_id =
    delete_where (setting_of owner_id conversation_scope conversation_id) settings
