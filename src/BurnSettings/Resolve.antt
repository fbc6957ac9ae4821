-- ===== src/BurnSettings/Resolve.antt =====
-- What the settings give: the resolution for a conversation, the list of the user's settings, and
-- `send` of src/modules/message/message.controller.ts, which takes the ttl from here.
use fenxin.Prelude.{
  ℕ, ◌-◌, ◌*◌, ◌==◌, Bool, false, not, ◌&&◌, ◌||◌, Option, none, some, List, map, ltb, leb, length,
  take, drop, is_some, if◌then◌else◌, find_one, select_where, order_by,
}
use fenxin.Entities.{
  Uuid, Date, Text, AppUser, Conversation, ConversationType, ConversationMember, Message, Db,
  is_private, conversation_is, in_conversation, user_is,
}
use fenxin.Result.{Result, ok, not_found, conversation_missing, ◌>>=◌, or_throw, Outcome}
use fenxin.Env.{Env}
use fenxin.Burn.{Number, finite}
use fenxin.Send.{SendParams, assert_member, send_message}
use fenxin.BurnSettings.{user_scope, conversation_scope, BurnSetting, same_scope, find_own}

abbrev positive_ttl : Option ℕ → Option ℕ
positive_ttl none = none
positive_ttl (some v) = if ltb 0 v then some v else none

abbrev pub default_of : Option AppUser → Option ℕ
default_of none = none
default_of (some u) = positive_ttl u.default_burn_ttl_seconds

unfoldable pub get_global_default : Db → Uuid → Option ℕ
unfolding find_one
get_global_default db owner_id = default_of (find_one (user_is owner_id) db.users)

pub record Counterpart : Type 0 where
  pub user_id : Uuid
  pub display_name : Option Text

abbrev pub name_of : Option AppUser → Option Text
name_of none = none
name_of (some u) = some u.display_name

abbrev counterpart_of : Db → Option ConversationMember → Option Counterpart
counterpart_of db none = none
counterpart_of db (some m) =
    some (record {
      user_id = m.user_id;
      display_name = name_of (find_one (user_is m.user_id) db.users);
    })

-- The first member that is not the owner, with the name of the left join.
unfoldable pub find_counterpart : Db → Uuid → Uuid → Option Counterpart
unfolding find_one
find_counterpart db conversation_id owner_id =
    counterpart_of db
      (find_one (λ m. in_conversation conversation_id m && not (m.user_id == owner_id)) db.members)

pub data BurnTtlSource : Type 0 where
  contact_setting conversation_setting global_default no_setting : BurnTtlSource

pub record BurnSettingResolution : Type 0 where
  pub conversation_id : Uuid
  pub conversation_type : ConversationType
  pub global_default_seconds : Option ℕ
  pub counterpart : Option Counterpart
  pub effective_ttl_seconds : Option ℕ
  pub source : BurnTtlSource
  pub my_setting : Option (ℕ × Date)

abbrev pub fallback_source : Option ℕ → BurnTtlSource
fallback_source none = no_setting
fallback_source (some t) = global_default

-- The setting that was found, or the global default.
abbrev pub resolution :
    Conversation
    → Option ℕ
    → Option Counterpart
    → BurnTtlSource
    → Option BurnSetting
    → BurnSettingResolution
resolution conv default_seconds counterpart own_source none = record {
  conversation_id = conv.id;
  conversation_type = conv.type;
  global_default_seconds = default_seconds;
  counterpart = counterpart;
  effective_ttl_seconds = default_seconds;
  source = fallback_source default_seconds;
  my_setting = none;
}
resolution conv default_seconds counterpart own_source (some mine) = record {
  conversation_id = conv.id;
  conversation_type = conv.type;
  global_default_seconds = default_seconds;
  counterpart = counterpart;
  effective_ttl_seconds = some mine.ttl_seconds;
  source = own_source;
  my_setting = some (mine.ttl_seconds, mine.updated_at);
}

abbrev pub own_for : List BurnSetting → Uuid → Option Counterpart → Option BurnSetting
own_for settings owner_id none = none
own_for settings owner_id (some c) = find_own settings owner_id user_scope c.user_id

unfoldable pub resolve_member : List BurnSetting → Db → Uuid → Conversation → BurnSettingResolution
unfolding get_global_default find_counterpart find_own
resolve_member settings db owner_id conv =
    if is_private conv.type
    then resolution conv (get_global_default db owner_id) (find_counterpart db conv.id owner_id)
        contact_setting (own_for settings owner_id (find_counterpart db conv.id owner_id))
    else resolution conv (get_global_default db owner_id) none conversation_setting
        (find_own settings owner_id conversation_scope conv.id)

unfoldable pub resolve_for_conversation :
    List BurnSetting → Db → Uuid → Uuid → Result BurnSettingResolution
unfolding find_one assert_member resolve_member
resolve_for_conversation settings db owner_id conversation_id = do
  conv ←
      or_throw (find_one (conversation_is conversation_id) db.conversations)
        (not_found conversation_missing)
  membership ← assert_member db conversation_id owner_id
  ok (resolve_member settings db owner_id conv)

unfoldable pub resolve_ttl_for_send : List BurnSetting → Db → Uuid → Uuid → Result (Option ℕ)
unfolding resolve_for_conversation
resolve_ttl_for_send settings db owner_id conversation_id = do
  r ← resolve_for_conversation settings db owner_id conversation_id
  ok r.effective_ttl_seconds

pub record BurnSettingListItem : Type 0 where
  pub target_user_id : Uuid
  pub display_name : Option Text
  pub avatar_url : Option Text
  pub ttl_seconds : ℕ
  pub updated_at : Date

abbrev avatar_of : Option AppUser → Option Text
avatar_of none = none
avatar_of (some u) = u.avatar_url

abbrev pub list_item : Db → BurnSetting → BurnSettingListItem
list_item db s =
    let u = find_one (user_is s.scope_id) db.users in
    record {
      target_user_id = s.scope_id;
      display_name = name_of u;
      avatar_url = avatar_of u;
      ttl_seconds = s.ttl_seconds;
      updated_at = s.updated_at;
    }

abbrev pub is_user_setting : Uuid → BurnSetting → Bool
is_user_setting owner_id s = s.owner_id == owner_id && same_scope user_scope s.scope_type

-- The page and the number of settings over all pages.
unfoldable pub list_user_settings :
    List BurnSetting → Db → Uuid → (page page_size : ℕ) → List BurnSettingListItem × ℕ
unfolding find_one select_where order_by
list_user_settings settings db owner_id page page_size =
    let rows = select_where (is_user_setting owner_id) settings in
    (
      map (list_item db) (
          take page_size
            (drop ((page - 1) * page_size) (order_by (λ x y. leb y.updated_at x.updated_at) rows))),
      length rows,
    )

-- A ttl of the settings as a JavaScript number.
abbrev pub as_number : Option ℕ → Option Number
as_number none = none
as_number (some t) = some (finite false t 0)

abbrev pub with_ttl : SendParams → Option ℕ → SendParams
with_ttl p ttl_seconds = record p { burn_ttl_seconds = as_number ttl_seconds }

-- `send` of the controller: a message without a ttl and without a deadline takes the ttl of the
-- settings. `p.sender_id` is the user of the request.
unfoldable pub post_message :
    Env → (ℕ → Uuid) → List BurnSetting → Db → Date → SendParams → Outcome Message
unfolding resolve_ttl_for_send send_message
post_message env uuid settings db now p =
    if is_some p.burn_ttl_seconds || is_some p.destroy_at
    then send_message env uuid db now p
    else (do
      resolved_ttl ← resolve_ttl_for_send settings db p.sender_id p.conversation_id
      send_message env uuid db now (with_ttl p resolved_ttl))
