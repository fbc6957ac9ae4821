-- ===== src/Reveal.antt =====
-- `revealMessage` of src/modules/message/message.service.ts: a member opens a burn message, which
-- starts that member's countdown. `uuid` is the id of a receipt that an old row lacks.
pub mod Checks
pub mod Countdown
pub mod Again
mod Tests
use fenxin.Prelude.{
  ℕ, zero, suc, ◌+◌, ◌*◌, ◌≡◌, Bool, true, false, not, ◌&&◌, ◌||◌, Option, none, some, List, [],
  ◌∷◌, ◌++◌, leb, ltb, ◌==◌, if◌then◌else◌, get_or, is_some, find_one, update_where,
}
use fenxin.Entities.{
  Uuid, Date, is_nonzero, Message, MessageReceipt, Db, message_is, receipt_of, receipt_is,
}
use fenxin.Result.{
  Result, ok, err, bad_request, not_found, message_missing, message_burned, not_burn_message,
  message_recalled, ◌>>=◌, ◌>>◌, reject, or_throw, receipt_read, Effect, emit, Done, Outcome,
}
use fenxin.Env.{Env}
use fenxin.Burn.{is_media_burn_msg, burn_media_window_seconds, effective_remain_seconds}
use fenxin.View.{is_due}
use fenxin.Send.{assert_member, get_member_user_ids}

-- The response: the whole message with the member's own deadline.
pub record Revealed : Type 0 where
  pub message : Message
  pub burn_at : Option Date
  pub remain_seconds : ℕ
  pub media_burn_pending : Bool
  pub consume_deadline : Option Date

unfoldable pub empty_receipt : Uuid → Uuid → Uuid → MessageReceipt
empty_receipt id message_id user_id = record {
  id = id;
  message_id = message_id;
  user_id = user_id;
  is_read = false;
  read_at = none;
  revealed_at = none;
  burn_at = none;
}

-- Old rows may lack the member's receipt, which is then added.
abbrev pub with_receipt : Option MessageReceipt → MessageReceipt → Db → MessageReceipt × Db
with_receipt (some r) fresh db = (r, db)
with_receipt none fresh db = (fresh, record db { receipts = db.receipts ++ fresh ∷ [] })

-- The seconds from opening to burning.
unfoldable pub burn_seconds : Env → Message → Option ℕ → ℕ
burn_seconds env msg media_duration_seconds =
    if is_media_burn_msg msg.type msg.file_name
    then burn_media_window_seconds env (get_or msg.burn_ttl_seconds 0)
        (if is_some msg.media_duration then msg.media_duration else media_duration_seconds)
    else get_or msg.burn_ttl_seconds 0

-- The receipt after the first opening.
unfoldable pub open_receipt : Date → Date → MessageReceipt → MessageReceipt
open_receipt now burn_at r = record r {
  revealed_at = some now;
  burn_at = some burn_at;
  is_read = true;
  read_at = some now;
}

-- The message's deadline is moved to the member's, if that is later.
unfoldable pub extend_deadline : Date → Message → Message
extend_deadline burn_at msg =
    if ltb (get_or msg.destroy_at 0) burn_at then record msg { destroy_at = some burn_at } else msg

abbrev pub response : Message → MessageReceipt → Date → Revealed
response msg r now = record {
  message = msg;
  burn_at = r.burn_at;
  remain_seconds = effective_remain_seconds r.burn_at msg.destroy_at now;
  media_burn_pending = is_media_burn_msg msg.type msg.file_name;
  consume_deadline = if is_media_burn_msg msg.type msg.file_name then r.burn_at else none;
}

-- The first opening.
unfoldable pub start_countdown :
    Env → Db → Date → Message → MessageReceipt → Uuid → Option ℕ → Done Revealed
unfolding open_receipt extend_deadline burn_seconds
start_countdown env db now msg receipt user_id media_duration_seconds =
    let burn_at = now + burn_seconds env msg media_duration_seconds * 1000 in
    record {
      value = response (extend_deadline burn_at msg) (open_receipt now burn_at receipt) now;
      db = record db {
        receipts = update_where (receipt_is receipt.id) (open_receipt now burn_at) db.receipts;
        messages =
            if ltb (get_or msg.destroy_at 0) burn_at
            then update_where (message_is msg.id) (λ m. record m { destroy_at = some burn_at })
                db.messages
            else db.messages;
      };
      effects =
          emit (get_member_user_ids db msg.conversation_id)
            (receipt_read msg.conversation_id user_id (some msg.id) now)
          ∷ [];
    }

-- The checks, up to the receipt: the message that may be opened.
unfoldable pub check_reveal : Db → Date → Uuid → Uuid → Result Message
unfolding assert_member
check_reveal db now message_id user_id = do
  msg ← or_throw (find_one (message_is message_id) db.messages) (not_found message_missing)
  reject msg.is_destroyed (not_found message_missing)
  membership ← assert_member db msg.conversation_id user_id
  reject (not (is_nonzero msg.burn_ttl_seconds)) (bad_request not_burn_message)
  reject msg.is_recalled (bad_request message_recalled)
  reject (is_due msg.destroy_at now) (not_found message_burned)
  ok msg

unfoldable pub reveal_with :
    Env → Db → Date → Message → MessageReceipt → Uuid → Option ℕ → Outcome Revealed
unfolding start_countdown
reveal_with env db now msg receipt user_id media_duration_seconds = do
  reject (is_due receipt.burn_at now) (not_found message_burned)
  ok (
      if is_some receipt.revealed_at
      then record { value = response msg receipt now; db = db; effects = [] }
      else start_countdown env db now msg receipt user_id media_duration_seconds)

unfoldable pub reveal_message : Env → Uuid → Db → Date → Uuid → Uuid → Option ℕ → Outcome Revealed
unfolding check_reveal reveal_with empty_receipt
reveal_message env uuid db now message_id user_id media_duration_seconds = do
  msg ← check_reveal db now message_id user_id
  let found = find_one (receipt_of message_id user_id) db.receipts
  let (receipt, db') = with_receipt found (empty_receipt uuid message_id user_id) db
  reveal_with env db' now msg receipt user_id media_duration_seconds
