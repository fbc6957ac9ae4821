-- ===== src/Reveal/Again.antt =====
-- Opening a burn message for the first time, and again: the countdown starts once, runs its whole
-- length and is not reset.
use fenxin.Prelude.{
  ◌⊎◌, inl, inr, Bool-cases, ℕ, ◌+◌, ◌*◌, ◌≤◌, ◌<◌, ◌≡◌, refl, Option, none, some, [], arith,
  find_one, leb, if◌then◌else◌, ◌∙◌,
}
use fenxin.Entities.{Uuid, Date, Message, MessageReceipt, Db, message_is, receipt_of}
use fenxin.Result.{ok, err, not_found, message_burned, Done}
use fenxin.Env.{Env}
use fenxin.Reveal.{
  Revealed, empty_receipt, with_receipt, burn_seconds, open_receipt, response, start_countdown,
  reveal_with, reveal_message,
}
use fenxin.Reveal.Checks.{IsOpenable, check_reveal-later, reveal_message-eq-ok}
use fenxin.Reveal.Countdown.{
  IsUnopened, HasStarted, with_receipt-found, start_countdown-HasStarted, effective_remain-full,
  extend_deadline-le, burn_seconds-pos,
}

with_receipt-IsOpenable :
    (o : Option MessageReceipt) (fresh : MessageReceipt) (db : Db) (now : Date)
    (message_id user_id : Uuid) (m : Message)
    → IsOpenable db now message_id user_id m
    → IsOpenable (with_receipt o fresh db).1 now message_id user_id m
with_receipt-IsOpenable none fresh db now message_id user_id m a = record {
  stored = a.stored;
  live = a.live;
  membership = a.membership;
  is_member = a.is_member;
  burns = a.burns;
  not_recalled = a.not_recalled;
  not_due = a.not_due;
}
with_receipt-IsOpenable (some r) fresh db now message_id user_id m a = a

with_receipt-unopened :
    (o : Option MessageReceipt) (uuid message_id user_id : Uuid) (db : Db)
    → IsUnopened o
    → (with_receipt o (empty_receipt uuid message_id user_id) db).0.revealed_at ≡ none
unfolding empty_receipt
with_receipt-unopened none uuid message_id user_id db h = refl
with_receipt-unopened (some r) uuid message_id user_id db h = h

reveal_with-first :
    (env : Env) (db : Db) (now : Date) (m : Message) (r : MessageReceipt) (user_id : Uuid)
    (n : Option ℕ) (d : Done Revealed)
    → r.revealed_at ≡ none
    → reveal_with env db now m r user_id n ≡ ok d
    → d ≡ start_countdown env db now m r user_id n
unfolding reveal_with
reveal_with-first env db now m r user_id n d u h = ground arith

start_countdown-remain :
    (env : Env) (db : Db) (now : Date) (m : Message) (r : MessageReceipt)
    (message_id user_id : Uuid) (n : Option ℕ)
    → IsOpenable db now message_id user_id m
    → (start_countdown env db now m r user_id n).value.remain_seconds ≡ burn_seconds env m n
unfolding start_countdown open_receipt
start_countdown-remain env db now m r message_id user_id n a =
    let pos = burn_seconds-pos env m n a.burns in
    let (e, has, le) = extend_deadline-le (now + burn_seconds env m n * 1000) m (omega arith) in
    rw has (effective_remain-full (burn_seconds env m n) now e le)

-- The first successful opening gives the member the whole burn time of the stored message, which
-- the response counts in full, and stores it in the member's receipt, which becomes read; the
-- message's own deadline is then no earlier than the member's.
pub reveal_message-first :
    (env : Env) (uuid : Uuid) (db : Db) (now : Date) (message_id user_id : Uuid) (n : Option ℕ)
    (d : Done Revealed)
    → reveal_message env uuid db now message_id user_id n ≡ ok d
    → IsUnopened (find_one (receipt_of message_id user_id) db.receipts)
    → (m : Message) × (find_one (message_is message_id) db.messages ≡ some m)
      × HasStarted message_id user_id now (now + burn_seconds env m n * 1000) d
      × (d.value.remain_seconds ≡ burn_seconds env m n)
reveal_message-first env uuid db now message_id user_id n d h u =
    let o = find_one (receipt_of message_id user_id) db.receipts in
    let fresh = empty_receipt uuid message_id user_id in
    let (m, a, f) = reveal_message-eq-ok env uuid db now message_id user_id n d h in
    let a' = with_receipt-IsOpenable o fresh db now message_id user_id m a in
    let e =
      reveal_with-first env (with_receipt o fresh db).1 now m (with_receipt o fresh db).0 user_id n
        d (with_receipt-unopened o uuid message_id user_id db u) f in
    (
      m,
      a.stored,
      rw e (
          start_countdown-HasStarted env _ now m _ message_id user_id n a'
            (with_receipt-found uuid db message_id user_id o refl)),
      rw e (start_countdown-remain env _ now m _ message_id user_id n a'),
    )

reveal_with-again :
    (env : Env) (db : Db) (later : Date) (m : Message) (r : MessageReceipt) (user_id : Uuid)
    (n : Option ℕ) {now b : Date}
    → r.revealed_at ≡ some now
    → r.burn_at ≡ some b
    → reveal_with env db later m r user_id n ≡ (
        if leb b later
        then err (not_found message_burned)
        else ok (record { value = response m r later; db = db; effects = [] }))
unfolding reveal_with
reveal_with-again env db later m r user_id n u t = ground arith

-- Every later call on what the first opening left, at any time and with any media length.
reveal_again :
    (env : Env) (uuid : Uuid) (now b later : Date) (message_id user_id : Uuid) (n : Option ℕ)
    (d : Done Revealed) (s : HasStarted message_id user_id now b d)
    → reveal_message env uuid d.db later message_id user_id n ≡ (
        if leb b later
        then err (not_found message_burned)
        else ok (record { value = response s.row s.receipt later; db = d.db; effects = [] }))
unfolding reveal_message
reveal_again env uuid now b later message_id user_id n d s = ground (
  arith,
  check_reveal-later d.db now later message_id user_id s.row s.openable,
  reveal_with-again env d.db later s.row s.receipt user_id n s.revealed_now s.timed,
)

-- After the first opening the countdown is never reset: before its end each further call succeeds,
-- reports the same deadline and changes nothing, and from its end on each call answers that the
-- message is burned.
pub reveal_message-again :
    (env env' : Env) (uuid uuid' : Uuid) (db : Db) (now : Date) (message_id user_id : Uuid)
    (n n' : Option ℕ) (d : Done Revealed) (later : Date)
    → reveal_message env uuid db now message_id user_id n ≡ ok d
    → IsUnopened (find_one (receipt_of message_id user_id) db.receipts)
    → (b : Date) × (d.value.burn_at ≡ some b)
      × (((later < b)
            × (d' : Done Revealed) × (reveal_message env' uuid' d.db later message_id user_id n'
                ≡ ok d')
            × (d'.value.burn_at ≡ some b)
            × (d'.db ≡ d.db)
            × (d'.effects ≡ []))
          ⊎ ((b ≤ later)
              × (reveal_message env' uuid' d.db later message_id user_id n'
                  ≡ err (not_found message_burned))))
reveal_message-again env env' uuid uuid' db now message_id user_id n n' d later h u =
    let (m, e, s, full) = reveal_message-first env uuid db now message_id user_id n d h u in
    let b = now + burn_seconds env m n * 1000 in
    let same = reveal_again env' uuid' now b later message_id user_id n' d s in
    (
      b,
      s.answered,
      elim (Bool-cases (leb b later)) [
        | inl t ↦ inr (ground arith, same ∙ rw t refl)
        | inr t ↦ inl (
          ground arith,
          record { value = response s.row s.receipt later; db = d.db; effects = [] },
          same ∙ rw t refl,
          s.timed,
          refl,
          refl,
        )
      ],
    )
