-- ===== src/Entities.antt =====
-- src/entities/*.entity.ts: the rows of the tables that the modelled services read and write, and
-- the database as the record of its tables. An id (a UUID) is a number: the code only compares it.
-- A date is its `getTime()` in milliseconds. A text is the list of its UTF-16 code units.
-- `updated_at` is the ORM's own and is left out; the table of burn settings is in BurnSettings.
use fenxin.Prelude.{ℕ, zero, suc, ◌==◌, ◌&&◌, Bool, true, false, Option, none, some, List, [], ◌∷◌}

abbrev pub Uuid : Type 0
Uuid = ℕ

abbrev pub Date : Type 0
Date = ℕ

abbrev pub Text : Type 0
Text = List ℕ

-- A text in a condition: `undefined`, `null` and '' are false.
abbrev pub is_truthy : Option Text → Bool
is_truthy none = false
is_truthy (some []) = false
is_truthy (some (c ∷ s)) = true

unfoldable pub same_text : Text → Text → Bool
same_text [] [] = true
same_text (c ∷ s) (d ∷ t) = let rest = same_text s t in c == d && rest
same_text _ _ = false

-- A number in a condition: 0, `undefined` and `null` are false.
abbrev pub is_nonzero : Option ℕ → Bool
is_nonzero none = false
is_nonzero (some zero) = false
is_nonzero (some (suc n)) = true

pub data MessageType : Type 0 where
  text image voice video file : MessageType

pub data DestroyReason : Type 0 where
  fallback_expired all_read owner_dissolve admin_dissolve manual : DestroyReason

pub record Message : Type 0 where
  pub id : Uuid
  pub conversation_id : Uuid
  pub sender_id : Uuid
  pub type : MessageType
  pub content : Option Text
  pub file_url : Option Text
  pub file_name : Option Text
  pub file_size : Option ℕ
  pub file_original_url : Option Text
  pub media_duration : Option ℕ
  pub reply_to_id : Option Uuid
  pub is_edited : Bool
  pub is_recalled : Bool
  pub is_destroyed : Bool
  pub destroyed_at : Option Date
  pub destroy_reason : Option DestroyReason
  pub destroy_at : Option Date
  pub burn_ttl_seconds : Option ℕ
  pub is_encrypted : Bool
  pub cipher_nonce : Option Text
  pub cipher_text : Option Text
  pub sender_ephemeral_pubkey : Option Text
  pub mentions : Option (List Uuid)
  pub created_at : Date

pub record MessageReceipt : Type 0 where
  pub id : Uuid
  pub message_id : Uuid
  pub user_id : Uuid
  pub is_read : Bool
  pub read_at : Option Date
  pub revealed_at : Option Date
  pub burn_at : Option Date

pub record MessageTombstone : Type 0 where
  pub id : Uuid
  pub conversation_id : Uuid
  pub sender_id : Uuid
  pub type : MessageType
  pub created_at : Date
  pub destroyed_at : Date
  pub destroy_reason : DestroyReason

pub record MessageDestroyAck : Type 0 where
  pub message_id : Uuid
  pub user_id : Uuid
  pub device_id : Option Uuid
  pub acked_at : Date

pub data ConversationType : Type 0 where
  private group channel : ConversationType

pub data ChannelVisibility : Type 0 where
  visible hidden : ChannelVisibility

pub record Conversation : Type 0 where
  pub id : Uuid
  pub type : ConversationType
  pub name : Option Text
  pub description : Option Text
  pub avatar_url : Option Text
  pub owner_id : Option Uuid
  pub is_channel : Bool
  pub visibility : ChannelVisibility
  pub member_count : ℕ
  pub last_message_at : Option Date
  pub dissolved_at : Option Date
  pub dissolved_by : Option Uuid
  pub created_at : Date

pub data MemberRole : Type 0 where
  owner member : MemberRole

pub record ConversationMember : Type 0 where
  pub conversation_id : Uuid
  pub user_id : Uuid
  pub role : MemberRole
  pub last_read_message_id : Option Uuid
  pub joined_at : Date

pub data UserStatus : Type 0 where
  active disabled : UserStatus

pub data UserRole : Type 0 where
  user admin : UserRole

pub record AppUser : Type 0 where
  pub id : Uuid
  pub phone : Text
  pub password_hash : Text
  pub display_name : Text
  pub avatar_url : Option Text
  pub signature : Option Text
  pub topic : Text
  pub default_burn_ttl_seconds : Option ℕ
  pub department : Option Text
  pub role : UserRole
  pub status : UserStatus
  pub force_change_pwd : Bool
  pub login_fail_count : ℕ
  pub locked_until : Option Date
  pub deleted_at : Option Date
  pub created_at : Date

pub record Device : Type 0 where
  pub id : Uuid
  pub user_id : Uuid
  pub device_name : Text
  pub device_type : Text
  pub device_id : Text
  pub is_online : Bool
  pub socket_count : ℕ
  pub online_at : Option Date
  pub offline_at : Option Date
  pub last_active_at : Option Date
  pub created_at : Date

pub record Db : Type 0 where
  pub users : List AppUser
  pub devices : List Device
  pub conversations : List Conversation
  pub members : List ConversationMember
  pub messages : List Message
  pub receipts : List MessageReceipt
  pub tombstones : List MessageTombstone
  pub acks : List MessageDestroyAck

abbrev pub is_text : MessageType → Bool
is_text text = true
is_text _ = false

abbrev pub is_private : ConversationType → Bool
is_private private = true
is_private _ = false

abbrev pub is_group : ConversationType → Bool
is_group group = true
is_group _ = false

abbrev pub is_channel_type : ConversationType → Bool
is_channel_type channel = true
is_channel_type _ = false

abbrev pub is_owner : MemberRole → Bool
is_owner owner = true
is_owner _ = false

abbrev pub is_active : UserStatus → Bool
is_active active = true
is_active _ = false

abbrev pub is_admin : UserRole → Bool
is_admin admin = true
is_admin _ = false

-- The `where` objects of the repositories' calls, as tests on a row.
abbrev pub message_is : Uuid → Message → Bool
message_is id m = m.id == id

abbrev pub conversation_is : Uuid → Conversation → Bool
conversation_is id c = c.id == id

abbrev pub member_is : Uuid → Uuid → ConversationMember → Bool
member_is conversation_id user_id m = m.conversation_id == conversation_id && m.user_id == user_id

abbrev pub in_conversation : Uuid → ConversationMember → Bool
in_conversation conversation_id m = m.conversation_id == conversation_id

abbrev pub receipt_of : Uuid → Uuid → MessageReceipt → Bool
receipt_of message_id user_id r = r.message_id == message_id && r.user_id == user_id

abbrev pub receipt_is : Uuid → MessageReceipt → Bool
receipt_is id r = r.id == id

abbrev pub user_is : Uuid → AppUser → Bool
user_is id u = u.id == id

abbrev pub device_is : Uuid → Device → Bool
device_is id d = d.id == id

abbrev pub device_of : Uuid → Uuid → Device → Bool
device_of id user_id d = d.id == id && d.user_id == user_id

abbrev pub is_device_of : Uuid → Device → Bool
is_device_of user_id d = d.user_id == user_id

-- `.filter(Boolean)`; an empty id is `none`.
unfoldable pub present : List (Option Uuid) → List Uuid
present [] = []
present (none ∷ xs) = present xs
present (some id ∷ xs) = id ∷ present xs
