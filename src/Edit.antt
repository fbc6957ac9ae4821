-- ===== src/Edit.antt =====
-- `editMessage`, `recallMessage` and `updateOriginalFile` of
-- src/modules/message/message.service.ts: what a sender may change afterwards.
pub mod Rights
mod Tests
use fenxin.Prelude.{
  ℕ, ◌+◌, ◌*◌, ◌≡◌, Bool, true, false, not, ◌&&◌, ◌||◌, Option, none, some, List, [], ◌∷◌, ltb,
  ◌==◌, find_one, update_where,
}
use fenxin.Entities.{Uuid, Date, Text, is_truthy, is_nonzero, Message, Db, message_is}
use fenxin.Result.{
  Result, ok, err, bad_request, forbidden, not_found, message_missing, not_sender, recalled_edit,
  burn_edit, too_old, message_recalled, original_exists, ◌>>=◌, ◌>>◌, reject, require, or_throw,
  message_edited, Effect, emit, Done, Outcome,
}
use fenxin.Result
use fenxin.Send.{get_member_user_ids}

-- 48 hours in milliseconds.
abbrev pub edit_window : ℕ
edit_window = 48 * 3600000

unfoldable pub check_edit : Db → Date → Uuid → Uuid → Result Message
check_edit db now message_id user_id = do
  message ← or_throw (find_one (message_is message_id) db.messages) (not_found message_missing)
  reject message.is_destroyed (not_found message_missing)
  require (message.sender_id == user_id) (forbidden not_sender)
  reject message.is_recalled (bad_request recalled_edit)
  reject (is_nonzero message.burn_ttl_seconds) (bad_request burn_edit)
  reject (ltb (message.created_at + edit_window) now) (bad_request too_old)
  ok message

abbrev pub edited_effects : Db → Uuid → Option Message → List Effect
edited_effects db conversation_id none = []
edited_effects db conversation_id (some m) =
    emit (get_member_user_ids db conversation_id) (message_edited conversation_id m) ∷ []

unfoldable pub edit_message : Db → Date → Uuid → Uuid → Text → Outcome (Option Message)
unfolding check_edit
edit_message db now message_id user_id new_content = do
  message ← check_edit db now message_id user_id
  let messages =
      update_where (message_is message_id)
        (λ m. record m { content = some new_content; is_edited = true }) db.messages
  let updated = find_one (message_is message_id) messages
  ok (record {
    value = updated;
    db = record db { messages = messages };
    effects = edited_effects db message.conversation_id updated;
  })

unfoldable pub check_recall : Db → Date → Uuid → Uuid → Result Message
check_recall db now message_id user_id = do
  message ← or_throw (find_one (message_is message_id) db.messages) (not_found message_missing)
  reject message.is_destroyed (not_found message_missing)
  require (message.sender_id == user_id) (forbidden not_sender)
  reject (ltb (message.created_at + edit_window) now) (bad_request too_old)
  ok message

unfoldable pub recall_message : Db → Date → Uuid → Uuid → Outcome (Unit {0})
unfolding check_recall
recall_message db now message_id user_id = do
  message ← check_recall db now message_id user_id
  ok (record {
    value = tt;
    db = record db {
      messages =
          update_where (message_is message_id) (λ m. record m { is_recalled = true }) db.messages;
    };
    effects =
        emit (get_member_user_ids db message.conversation_id)
          (Result.message_recalled message.conversation_id message_id now)
        ∷ [];
  })

unfoldable pub check_original : Db → Uuid → Uuid → Result Message
check_original db message_id user_id = do
  msg ← or_throw (find_one (message_is message_id) db.messages) (not_found message_missing)
  require (msg.sender_id == user_id) (forbidden not_sender)
  reject (msg.is_recalled || msg.is_destroyed) (bad_request message_recalled)
  reject (is_truthy msg.file_original_url) (bad_request original_exists)
  ok msg

unfoldable pub update_original_file : Db → Uuid → Uuid → Text → Outcome (Option Message)
unfolding check_original
update_original_file db message_id user_id file_original_url = do
  msg ← check_original db message_id user_id
  let messages =
      update_where (message_is message_id)
        (λ m. record m { file_original_url = some file_original_url }) db.messages
  ok (record {
    value = find_one (message_is message_id) messages;
    db = record db { messages = messages };
    effects = [];
  })
