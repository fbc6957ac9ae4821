-- ===== src/Send.antt =====
-- `sendMessage` of src/modules/message/message.service.ts. The ids of the new rows come from the
-- ORM: `uuid 0` is the message's, `uuid (i + 1)` that of the receipt of member i. The present is
-- read several times in the source and once here.
pub mod Checks
pub mod Stored
pub mod Receipts
mod Tests
use fenxin.Prelude.{
  ℕ, zero, suc, ◌+◌, ◌*◌, max, ◌≡◌, Bool, true, false, not, ◌&&◌, ◌||◌, Option, none, some, List,
  [], ◌∷◌, ◌++◌, map, if◌then◌else◌, ◌==◌, get_or, is_some, has, distinct, find_one, select_where,
  update_where,
}
use fenxin.Entities.{
  is_nonzero, Uuid, Date, Text, is_truthy, MessageType, Message, MessageReceipt, Conversation,
  ConversationMember, Db, is_text, is_channel_type, is_owner, conversation_is, member_is,
  in_conversation,
}
use fenxin.Result.{
  Result, ok, err, Error, bad_request, forbidden, not_found, access_denied, conversation_missing,
  conversation_dissolved, broadcast_only, partial_encryption, content_empty, file_url_empty, ◌>>=◌,
  ◌>>◌, reject, or_throw, MessageView, plain, blurred, message_new, conversation_updated,
  by_message, Effect, emit, push_new_message, Done, Outcome,
}
use fenxin.Env.{Env, burn_fallback_ttl_ms}
use fenxin.Burn.{Number, ParsedDate, normalize_burn_ttl}
use fenxin.View.{mask_burn_message}

pub record SendParams : Type 0 where
  pub conversation_id : Uuid
  pub sender_id : Uuid
  pub type : MessageType
  pub content : Option Text
  pub file_url : Option Text
  pub file_name : Option Text
  pub file_size : Option ℕ
  pub media_duration_seconds : Option ℕ
  pub file_original_url : Option Text
  pub reply_to_id : Option Uuid
  pub burn_ttl_seconds : Option Number
  pub destroy_at : Option ParsedDate
  pub sender_ephemeral_pubkey : Option Text
  pub cipher_nonce : Option Text
  pub cipher_text : Option Text
  pub mentions : Option (List Uuid)

unfoldable pub assert_member : Db → Uuid → Uuid → Result ConversationMember
assert_member db conversation_id user_id =
    or_throw (find_one (member_is conversation_id user_id) db.members) (forbidden access_denied)

unfoldable pub members_of : Db → Uuid → List ConversationMember
members_of db conversation_id = select_where (in_conversation conversation_id) db.members

-- `getMemberUserIds`
unfoldable pub get_member_user_ids : Db → Uuid → List Uuid
unfolding members_of
get_member_user_ids db conversation_id = map (λ m. m.user_id) (members_of db conversation_id)

-- `encFields.every(…)` and `encFields.some(…)`
abbrev pub is_encrypted : SendParams → Bool
is_encrypted p =
    is_truthy p.sender_ephemeral_pubkey && is_truthy p.cipher_nonce && is_truthy p.cipher_text

abbrev pub has_cipher_field : SendParams → Bool
has_cipher_field p =
    is_truthy p.sender_ephemeral_pubkey || is_truthy p.cipher_nonce || is_truthy p.cipher_text

-- The checks before the first write; the result is the conversation's members.
unfoldable pub check_send : Db → SendParams → Result (List ConversationMember)
unfolding assert_member members_of
check_send db p = do
  membership ← assert_member db p.conversation_id p.sender_id
  conv ←
      or_throw (find_one (conversation_is p.conversation_id) db.conversations)
        (not_found conversation_missing)
  reject (is_some conv.dissolved_at) (forbidden conversation_dissolved)
  reject (is_channel_type conv.type && not (is_owner membership.role)) (forbidden broadcast_only)
  reject (not (is_encrypted p) && has_cipher_field p) (bad_request partial_encryption)
  reject (is_text p.type && not (is_truthy p.content) && not (is_encrypted p))
      (bad_request content_empty)
  reject (not (is_text p.type) && not (is_truthy p.file_url)) (bad_request file_url_empty)
  ok (members_of db p.conversation_id)

-- '[加密消息]'
abbrev pub cipher_placeholder : Text
cipher_placeholder = b'[' ∷ 0x52a0 ∷ 0x5bc6 ∷ 0x6d88 ∷ 0x606f ∷ b']' ∷ []

-- Only uids of members, each once.
unfoldable pub valid_mentions : SendParams → List ConversationMember → List Uuid
valid_mentions p members =
    select_where (λ uid. has uid (map (λ m. m.user_id) members)) (distinct (get_or p.mentions []))

abbrev pub when : Bool → Option Text → Option Text
when true o = o
when false o = none

-- `burnTtl ? new Date(Date.now() + Math.max(fallbackMs, burnTtl * 1000)) : null`
unfoldable pub initial_deadline : Env → Date → Option ℕ → Option Date
initial_deadline env now none = none
initial_deadline env now (some zero) = none
initial_deadline env now (some (suc t)) = some (now + max (burn_fallback_ttl_ms env) (suc t * 1000))

unfoldable pub new_message :
    Env → Uuid → Date → SendParams → List ConversationMember → Option ℕ → Message
unfolding valid_mentions initial_deadline
new_message env id now p members burn_ttl = record {
  id = id;
  conversation_id = p.conversation_id;
  sender_id = p.sender_id;
  type = p.type;
  content = if is_encrypted p then some cipher_placeholder else p.content;
  file_url = p.file_url;
  file_name = p.file_name;
  file_size = p.file_size;
  file_original_url = p.file_original_url;
  media_duration = p.media_duration_seconds;
  reply_to_id = p.reply_to_id;
  is_edited = false;
  is_recalled = false;
  is_destroyed = false;
  destroyed_at = none;
  destroy_reason = none;
  destroy_at = initial_deadline env now burn_ttl;
  burn_ttl_seconds = burn_ttl;
  is_encrypted = is_encrypted p;
  cipher_nonce = when (is_encrypted p) p.cipher_nonce;
  cipher_text = when (is_encrypted p) p.cipher_text;
  sender_ephemeral_pubkey = when (is_encrypted p) p.sender_ephemeral_pubkey;
  mentions = some (valid_mentions p members);
  created_at = now;
}

-- One receipt for each member; the sender's is read.
unfoldable pub new_receipts :
    (ℕ → Uuid) → ℕ → Message → Date → List ConversationMember → List MessageReceipt
new_receipts uuid i message now [] = []
new_receipts uuid i message now (m ∷ ms) =
    record {
      id = uuid (suc i);
      message_id = message.id;
      user_id = m.user_id;
      is_read = m.user_id == message.sender_id;
      read_at = if m.user_id == message.sender_id then some now else none;
      revealed_at = none;
      burn_at = none;
    }
    ∷ new_receipts uuid (suc i) message now ms

-- `savedMsg.burn_ttl_seconds ? this.maskBurnMessage(savedMsg) : savedMsg`
unfoldable pub pushed_view : Message → MessageView
unfolding mask_burn_message
pushed_view m = if is_nonzero m.burn_ttl_seconds then blurred (mask_burn_message m) else plain m

unfoldable pub commit_send :
    Env → (ℕ → Uuid) → Db → Date → SendParams → List ConversationMember → Done Message
unfolding new_message new_receipts pushed_view
commit_send env uuid db now p members =
    let burn_ttl = normalize_burn_ttl p.burn_ttl_seconds p.destroy_at now in
    let saved_msg = new_message env (uuid 0) now p members burn_ttl in
    let member_ids = map (λ (m : ConversationMember). m.user_id) members in
    record {
      value = saved_msg;
      db = record db {
        messages = db.messages ++ saved_msg ∷ [];
        conversations =
            update_where (conversation_is p.conversation_id)
              (λ c. record c { last_message_at = some now }) db.conversations;
        receipts = db.receipts ++ new_receipts uuid 0 saved_msg now members;
      };
      effects =
          emit member_ids (message_new p.conversation_id (pushed_view saved_msg))
          ∷ emit member_ids (conversation_updated p.conversation_id by_message)
          ∷ push_new_message saved_msg member_ids p.sender_id
          ∷ [];
    }

unfoldable pub send_message : Env → (ℕ → Uuid) → Db → Date → SendParams → Outcome Message
unfolding check_send commit_send
send_message env uuid db now p = do
  members ← check_send db p
  ok (commit_send env uuid db now p members)
