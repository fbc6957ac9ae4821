-- ===== src/Destroy/Sweep.antt =====
-- `purgeConfirmedOrExpired` of src/modules/message/destroy.service.ts, and the hourly task
-- `purgeSweep` of src/modules/message/burn.scheduler.ts that calls it.
use fenxin.Prelude.{
  ℕ, ◌+◌, ◌-◌, ◌*◌, Bool, false, not, ◌&&◌, Option, none, some, List, [], ◌∷◌, ◌++◌, take, leb, ltb,
  if◌then◌else◌, ℤ, pos, negsuc, find_one, count_where, order_by,
}
use fenxin.Entities.{
  Uuid, Date, Message, Conversation, ConversationType, Db, is_private, conversation_is,
}
use fenxin.Result.{Done}
use fenxin.Env.{Env, ack_threshold, ack_fallback_days}
use fenxin.Destroy.{ack_of, destroyed_before, purge_if}

-- A row of the query: a destroyed message with its conversation's type.
pub record SweepRow : Type 0 where
  pub id : Uuid
  pub conv_type : ConversationType
  pub ack_count : ℕ
  pub destroyed_at : Option Date

abbrev pub joined : Db → Message → Option Conversation → List SweepRow → List SweepRow
joined db m none rows = rows
joined db m (some c) rows =
    record {
      id = m.id;
      conv_type = c.type;
      ack_count = count_where (ack_of m.id) db.acks;
      destroyed_at = m.destroyed_at;
    }
    ∷ rows

-- `messages JOIN conversations … WHERE is_destroyed = 1`
unfoldable pub sweep_join : Db → List Message → List SweepRow
sweep_join db [] = []
sweep_join db (m ∷ ms) =
    let rest = sweep_join db ms in
    if m.is_destroyed
    then joined db m (find_one (conversation_is m.conversation_id) db.conversations) rest
    else rest

-- `ORDER BY destroyed_at ASC LIMIT 200`
unfoldable pub sweep_rows : Db → List SweepRow
unfolding sweep_join
sweep_rows db =
    take 200
      (order_by (λ x y. destroyed_before x.destroyed_at y.destroyed_at) (sweep_join db db.messages))

-- A threshold of 0 is left to `ack`.
abbrev pub policy_met : Env → SweepRow → Bool
policy_met env r =
    if is_private r.conv_type
    then leb 1 r.ack_count
    else leb 1 (ack_threshold env) && leb (ack_threshold env) r.ack_count

-- `cutoff`: null if the fallback is switched off.
unfoldable pub cutoff : Env → Date → Option Date
cutoff env now = before_days (ack_fallback_days env)
  where
    before_days : ℤ → Option Date
    before_days (pos n) = if ltb 0 n then some (now - n * 86400000) else none
    before_days (negsuc n) = none

abbrev pub is_before : Option Date → Option Date → Bool
is_before none d = false
is_before (some c) none = false
is_before (some c) (some d) = ltb d c

pub record SweepResult : Type 0 where
  pub acked : ℕ
  pub expired : ℕ

-- The second purge is tried where the first did not delete.
unfoldable pub sweep_loop : Env → Date → List SweepRow → Db → Done SweepResult
sweep_loop env now [] db = record {
  value = record { acked = 0; expired = 0 };
  db = db;
  effects = [];
}
sweep_loop env now (r ∷ rs) db =
    let acked = purge_if (policy_met env r) db now r.id in
    let expired =
      purge_if (not acked.value && is_before (cutoff env now) r.destroyed_at) acked.db now r.id in
    let rest = sweep_loop env now rs expired.db in
    record {
      value = record {
        acked = (if acked.value then 1 else 0) + rest.value.acked;
        expired = (if expired.value then 1 else 0) + rest.value.expired;
      };
      db = rest.db;
      effects = acked.effects ++ expired.effects ++ rest.effects;
    }

unfoldable pub purge_confirmed_or_expired : Env → Db → Date → Done SweepResult
unfolding sweep_rows sweep_loop
purge_confirmed_or_expired env db now = sweep_loop env now (sweep_rows db) db
