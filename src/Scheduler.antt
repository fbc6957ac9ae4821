-- ===== src/Scheduler.antt =====
-- src/modules/message/burn.scheduler.ts, stage one: every minute the messages whose time is up are
-- marked as destroyed. Rows and files stay.
pub mod Rules
mod Tests
use fenxin.Prelude.{
  ℕ, ◌+◌, ◌≡◌, Bool, true, false, not, ◌&&◌, ◌||◌, Option, none, some, List, [], ◌∷◌, ◌++◌, map,
  length, take, leb, ltb, ◌==◌, if◌then◌else◌, is_some, has, distinct, find_one, select_where,
  update_where, exists_where, order_by,
}
use fenxin.Entities.{
  Uuid, Date, DestroyReason, fallback_expired, all_read, Message, MessageReceipt, Db,
}
use fenxin.Result.{Event, message_destroyed, Effect, emit, Done}
use fenxin.View.{is_due}
use fenxin.Send.{get_member_user_ids}

-- `BATCH`
abbrev pub batch : ℕ
batch = 500

-- R1: `destroy_at IS NOT NULL AND destroy_at <= now`.
unfoldable pub is_expired : Date → Message → Bool
is_expired now m = not m.is_destroyed && is_due m.destroy_at now

-- A receipt of somebody else than the sender.
abbrev pub of_reader : Message → MessageReceipt → Bool
of_reader m r = r.message_id == m.id && not (r.user_id == m.sender_id)

-- `revealed_at IS NULL OR burn_at IS NULL OR burn_at > now`
abbrev pub is_open : Date → MessageReceipt → Bool
is_open now r = not (is_some r.revealed_at) || not (is_due r.burn_at now)

-- R2: somebody else has a receipt, and every such receipt is opened and due.
unfoldable pub is_read_out : List MessageReceipt → Date → Message → Bool
is_read_out receipts now m =
    not m.is_destroyed
    && is_some m.burn_ttl_seconds
    && exists_where (of_reader m) receipts
    && not (exists_where (λ r. of_reader m r && is_open now r) receipts)

unfoldable pub mark : DestroyReason → Date → Message → Message
mark reason now m = record m {
  is_destroyed = true;
  destroyed_at = some now;
  destroy_reason = some reason;
}

abbrev created_before : Message → Message → Bool
created_before x y = leb x.created_at y.created_at

-- The oldest messages that the rule selects, `BATCH` at most.
unfoldable pub batch_rows : (Message → Bool) → List Message → List Message
unfolding order_by select_where
batch_rows rule messages = take batch (order_by created_before (select_where rule messages))

-- `byConv`: one event for each conversation of the batch.
unfoldable pub broadcasts : Db → DestroyReason → Date → List Message → List Effect
unfolding select_where
broadcasts db reason now rows = map event (distinct (map (λ (m : Message). m.conversation_id) rows))
  where
    event : Uuid → Effect
    event c = emit (get_member_user_ids db c) (
        message_destroyed c
          (map (λ (m : Message). m.id) (select_where (λ m. m.conversation_id == c) rows)) reason
          now)

-- The update is by id, and spares a row that is marked already.
unfoldable pub mark_batch : DestroyReason → (Message → Bool) → Db → Date → Done ℕ
unfolding batch_rows broadcasts mark update_where
mark_batch reason rule db now =
    let rows = batch_rows rule db.messages in
    let ids = map (λ (m : Message). m.id) rows in
    record {
      value = length rows;
      db = record db {
        messages =
            update_where (λ m. has m.id ids && not m.is_destroyed) (mark reason now) db.messages;
      };
      effects = broadcasts db reason now rows;
    }

-- The second rule reads what the first has left.
unfoldable pub mark_destroyed : Db → Date → Done ℕ
unfolding mark_batch is_expired is_read_out
mark_destroyed db now =
    let expired = mark_batch fallback_expired (is_expired now) db now in
    let read_out = mark_batch all_read (is_read_out expired.db.receipts now) expired.db now in
    record {
      value = expired.value + read_out.value;
      db = read_out.db;
      effects = expired.effects ++ read_out.effects;
    }
