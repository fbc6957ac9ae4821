-- ===== src/Fixtures.antt =====
-- Rows that the tests share: a private conversation of users 1 and 2.
use fenxin.Prelude.{ℕ, ◌+◌, true, false, none, some, [], ◌∷◌}
use fenxin.Entities.{
  AppUser, user, active, Uuid, private, visible, member, voice, text, all_read, Db, Conversation,
  ConversationMember, Message, MessageReceipt,
}
use fenxin.Env.{Env}
use fenxin.Send.{SendParams}

abbrev pub default_env : Env
default_env = record {
  burn_fallback_ttl_hours = none;
  burn_media_buffer_seconds = none;
  burn_media_default_window_seconds = none;
  purge_ack_threshold = none;
  ack_fallback_days = none;
  auth_cache_ttl_ms = none;
  online_ttl_seconds = none;
  session_policy = none;
  max_devices_per_user = none;
}

abbrev pub chat_row : Conversation
chat_row = record {
  id = 50;
  type = private;
  name = none;
  description = none;
  avatar_url = none;
  owner_id = none;
  is_channel = false;
  visibility = visible;
  member_count = 2;
  last_message_at = none;
  dissolved_at = none;
  dissolved_by = none;
  created_at = 0;
}

abbrev pub chat_member : Uuid → ConversationMember
chat_member u = record {
  conversation_id = 50;
  user_id = u;
  role = member;
  last_read_message_id = none;
  joined_at = 0;
}

abbrev pub chat_db : Db
chat_db = record {
  users = [];
  devices = [];
  conversations = chat_row ∷ [];
  members = chat_member 1 ∷ chat_member 2 ∷ [];
  messages = [];
  receipts = [];
  tombstones = [];
  acks = [];
}

-- User 1 has sent a voice message that burns ten seconds after it is opened.
abbrev pub burn_row : Message
burn_row = record {
  id = 7;
  conversation_id = 50;
  sender_id = 1;
  type = voice;
  content = none;
  file_url = some (b'/' ∷ b'u' ∷ b'/' ∷ b'a' ∷ []);
  file_name = none;
  file_size = none;
  file_original_url = none;
  media_duration = some 20;
  reply_to_id = none;
  is_edited = false;
  is_recalled = false;
  is_destroyed = false;
  destroyed_at = none;
  destroy_reason = none;
  destroy_at = some 86401000;
  burn_ttl_seconds = some 10;
  is_encrypted = false;
  cipher_nonce = none;
  cipher_text = none;
  sender_ephemeral_pubkey = none;
  mentions = some [];
  created_at = 1000;
}

abbrev pub burn_receipt : Uuid → Uuid → MessageReceipt
burn_receipt id user_id = record {
  id = id;
  message_id = 7;
  user_id = user_id;
  is_read = false;
  read_at = none;
  revealed_at = none;
  burn_at = none;
}

abbrev pub burn_db : Db
burn_db = record chat_db {
  messages = burn_row ∷ [];
  receipts = burn_receipt 11 1 ∷ burn_receipt 12 2 ∷ [];
}

-- User 2 has opened it at 2000.
abbrev pub opened_row : MessageReceipt
opened_row = record (burn_receipt 12 2) {
  is_read = true;
  read_at = some 2000;
  revealed_at = some 2000;
  burn_at = some 52000;
}

abbrev pub opened_db : Db
opened_db = record burn_db { receipts = burn_receipt 11 1 ∷ opened_row ∷ [] }

-- The message is marked as destroyed, and another one answers it.
abbrev pub destroyed_row : Message
destroyed_row = record burn_row {
  is_destroyed = true;
  destroyed_at = some 60000;
  destroy_reason = some all_read;
}

abbrev pub reply_row : Message
reply_row = record burn_row {
  id = 8;
  type = text;
  content = some (b'o' ∷ b'k' ∷ []);
  file_url = none;
  media_duration = none;
  reply_to_id = some 7;
  destroy_at = none;
  burn_ttl_seconds = none;
}

abbrev pub destroyed_db : Db
destroyed_db = record opened_db { messages = destroyed_row ∷ reply_row ∷ [] }

-- A text of user 1.
abbrev pub note_to : Uuid → SendParams
note_to c = record {
  conversation_id = c;
  sender_id = 1;
  type = text;
  content = some (b'n' ∷ []);
  file_url = none;
  file_name = none;
  file_size = none;
  media_duration_seconds = none;
  file_original_url = none;
  reply_to_id = none;
  burn_ttl_seconds = none;
  destroy_at = none;
  sender_ephemeral_pubkey = none;
  cipher_nonce = none;
  cipher_text = none;
  mentions = none;
}

abbrev pub ids_from : ℕ → Uuid
ids_from i = 100 + i

abbrev pub account : Uuid → AppUser
account id = record {
  id = id;
  phone = id ∷ [];
  password_hash = b'h' ∷ [];
  display_name = b'A' ∷ [];
  avatar_url = none;
  signature = none;
  topic = [];
  default_burn_ttl_seconds = none;
  department = none;
  role = user;
  status = active;
  force_change_pwd = false;
  login_fail_count = 0;
  locked_until = none;
  deleted_at = none;
  created_at = 0;
}
