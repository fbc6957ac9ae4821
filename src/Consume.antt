-- ===== src/Consume.antt =====
-- `consumeMessage` of src/modules/message/message.service.ts: a member has played a voice or video
-- message to its end, and burns it early.
pub mod Effect
pub mod Frame
mod Tests
use fenxin.Prelude.{
  ℕ, ◌≡◌, Bool, true, false, not, ◌&&◌, Option, none, some, List, [], ◌∷◌, if◌then◌else◌, is_some,
  find_one, update_where, ◌==◌,
}
use fenxin.Entities.{
  Uuid, Date, is_nonzero, Message, MessageType, MessageReceipt, Db, message_is, receipt_of,
  receipt_is,
}
use fenxin.Result.{
  Result, ok, err, bad_request, not_burn_message, not_media_burn, message_recalled, not_revealed,
  ◌>>=◌, ◌>>◌, reject, or_throw, message_consumed, emit, Done, Outcome,
}
use fenxin.Burn.{is_media_burn_msg}
use fenxin.View.{is_due}
use fenxin.Send.{assert_member, get_member_user_ids}

-- The answer, `burned: true` in each case: the row is gone already, or the burned view without any
-- content and whether the member's time was up before.
pub data Consumed : Type 0 where
  gone : Consumed
  burned :
      (id conversation_id : Uuid)
      → MessageType
      → (burn_at : Option Date) → (already : Bool) → Consumed

-- The member's clock is set to the present.
unfoldable pub consume_now : Db → Date → Message → MessageReceipt → Uuid → Done Consumed
consume_now db now msg receipt user_id = record {
  value = burned msg.id msg.conversation_id msg.type (some now) false;
  db = record db {
    receipts =
        update_where (receipt_is receipt.id) (λ r. record r { burn_at = some now }) db.receipts;
  };
  effects =
      emit (get_member_user_ids db msg.conversation_id)
        (message_consumed msg.conversation_id msg.id user_id now)
      ∷ [];
}

-- `!receipt || !receipt.revealed_at` throws.
abbrev pub opened_receipt : Option MessageReceipt → Result MessageReceipt
opened_receipt none = err (bad_request not_revealed)
opened_receipt (some r) = if is_some r.revealed_at then ok r else err (bad_request not_revealed)

unfoldable pub consume_stored : Db → Date → Uuid → Message → Outcome Consumed
unfolding assert_member consume_now is_media_burn_msg
consume_stored db now user_id msg = do
  membership ← assert_member db msg.conversation_id user_id
  reject (not (is_nonzero msg.burn_ttl_seconds)) (bad_request not_burn_message)
  reject (not (is_media_burn_msg msg.type msg.file_name)) (bad_request not_media_burn)
  reject msg.is_recalled (bad_request message_recalled)
  receipt ← opened_receipt (find_one (receipt_of msg.id user_id) db.receipts)
  ok (
      if is_due receipt.burn_at now
      then record {
        value = burned msg.id msg.conversation_id msg.type receipt.burn_at true;
        db = db;
        effects = [];
      }
      else consume_now db now msg receipt user_id)

-- A row that was purged meanwhile counts as consumed.
abbrev pub consume_found : Db → Date → Uuid → Option Message → Outcome Consumed
consume_found db now user_id none = ok (record { value = gone; db = db; effects = [] })
consume_found db now user_id (some msg) = consume_stored db now user_id msg

unfoldable pub consume_message : Db → Date → Uuid → Uuid → Outcome Consumed
unfolding consume_stored
consume_message db now message_id user_id =
    consume_found db now user_id (find_one (message_is message_id) db.messages)
