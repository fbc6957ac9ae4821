-- ===== src/Reveal/Countdown.antt =====
-- The countdown that the first opening starts, and what later openings do.
use fenxin.Prelude.{
  ℕ, zero, suc, ◌+◌, ◌*◌, ◌≤◌, ◌<◌, ◌≡◌, refl, inl, inr, true, Option, none, some, arith, find_one,
  ltb, if◌then◌else◌, get_or, Bool-cases, find_one-append, find_one-head, if_cases,
  find_one-update_found, ==_refl, ap, ◌∙◌,
}
use fenxin.Entities.{
  Uuid, Date, is_nonzero, Message, MessageReceipt, Db, message_is, receipt_of, receipt_is,
}
use fenxin.Result.{Done}
use fenxin.Env.{Env}
use fenxin.Burn.{effective_remain_seconds, is_media_burn_msg}
use fenxin.Burn.Bounds.{burn_media_window_bounds}
use fenxin.Reveal.{
  Revealed, empty_receipt, with_receipt, burn_seconds, open_receipt, extend_deadline,
  start_countdown,
}
use fenxin.Reveal.Checks.{IsOpenable}

pub with_receipt-found :
    (uuid : Uuid) (db : Db) (message_id user_id : Uuid) (o : Option MessageReceipt)
    → find_one (receipt_of message_id user_id) db.receipts ≡ o
    → find_one
        (receipt_of message_id user_id)
        (with_receipt o (empty_receipt uuid message_id user_id) db).1.receipts
      ≡ some (with_receipt o (empty_receipt uuid message_id user_id) db).0
unfolding empty_receipt
with_receipt-found uuid db message_id user_id (some r) e = e
with_receipt-found uuid db message_id user_id none e =
    rw (find_one-append _ db.receipts _ e) (find_one-head _ _ (ground arith))

pub with_receipt-tables :
    (o : Option MessageReceipt) (fresh : MessageReceipt) (db : Db)
    → ((with_receipt o fresh db).1.messages ≡ db.messages)
      × ((with_receipt o fresh db).1.members ≡ db.members)
with_receipt-tables none fresh db = (refl, refl)
with_receipt-tables (some r) fresh db = (refl, refl)

pub start_countdown-receipt :
    (env : Env) (db : Db) (now : Date) (m : Message) (r : MessageReceipt)
    (message_id user_id : Uuid) (n : Option ℕ)
    → find_one (receipt_of message_id user_id) db.receipts ≡ some r
    → find_one
        (receipt_of message_id user_id)
        (start_countdown env db now m r user_id n).db.receipts
      ≡ some (open_receipt now (now + burn_seconds env m n * 1000) r)
unfolding start_countdown open_receipt
start_countdown-receipt env db now m r message_id user_id n e =
    find_one-update_found _ (receipt_is r.id) _ db.receipts r (λ x. refl) e (==_refl r.id)

pub start_countdown-message :
    (env : Env) (db : Db) (now : Date) (m : Message) (r : MessageReceipt)
    (message_id user_id : Uuid) (n : Option ℕ)
    → find_one (message_is message_id) db.messages ≡ some m
    → find_one (message_is message_id) (start_countdown env db now m r user_id n).db.messages
      ≡ some (extend_deadline (now + burn_seconds env m n * 1000) m)
unfolding start_countdown extend_deadline
start_countdown-message env db now m r message_id user_id n e =
    elim (Bool-cases (ltb (get_or m.destroy_at 0) (now + burn_seconds env m n * 1000))) [
      | inl later ↦
          rw later
            (find_one-update_found _ (message_is m.id) _ db.messages m (λ x. refl) e (==_refl m.id))
      | inr not_later ↦ rw not_later e
    ]

nonzero-pos : (o : Option ℕ) → is_nonzero o ≡ true → 1 ≤ get_or o 0
nonzero-pos none h = absurd (ground arith)
nonzero-pos (some zero) h = absurd (ground arith)
nonzero-pos (some (suc n)) h = omega arith

pub burn_seconds-pos :
    (env : Env) (m : Message) (n : Option ℕ)
    → is_nonzero m.burn_ttl_seconds ≡ true
    → 1 ≤ burn_seconds env m n
unfolding burn_seconds
burn_seconds-pos env m n h =
    if_cases (λ s. 1 ≤ s) (is_media_burn_msg m.type m.file_name) _ _
      (λ _. (burn_media_window_bounds env (get_or m.burn_ttl_seconds 0) _).1)
      (λ _. nonzero-pos m.burn_ttl_seconds h)

-- The deadline after an opening is no earlier than the member's own.
pub extend_deadline-le :
    (b : Date) (m : Message)
    → 0 < b
    → (e : Date) × ((extend_deadline b m).destroy_at ≡ some e) × (b ≤ e)
unfolding extend_deadline
extend_deadline-le b m h = extended m.destroy_at refl
  where
    extended :
        (o : Option Date)
        → m.destroy_at ≡ o
        → (e : Date) × ((if ltb (get_or m.destroy_at 0) b
              then record m { destroy_at = some b }
              else m).destroy_at
            ≡ some e)
          × (b ≤ e)
    extended none e = (b, ground arith, omega arith)
    extended (some d) e = elim (Bool-cases (ltb d b)) [
      | inl t ↦ (b, ground arith, omega arith)
      | inr t ↦ (d, ground arith, ground arith)
    ]

extend_deadline-keeps :
    (b : Date) (m : Message)
    → let x = extend_deadline b m in
      (x.id ≡ m.id)
      × (x.conversation_id ≡ m.conversation_id)
      × (x.is_destroyed ≡ m.is_destroyed)
      × (x.is_recalled ≡ m.is_recalled)
      × (x.burn_ttl_seconds ≡ m.burn_ttl_seconds)
unfolding extend_deadline
extend_deadline-keeps b m = ground arith

pub effective_remain-full :
    (s : ℕ) (now e : Date)
    → now + s * 1000 ≤ e
    → effective_remain_seconds (some (now + s * 1000)) (some e) now ≡ s
unfolding effective_remain_seconds
effective_remain-full s now e h = omega arith

-- No receipt, or one that was never opened.
abbrev pub IsUnopened : Option MessageReceipt → Type 0
IsUnopened none = Unit
IsUnopened (some r) = r.revealed_at ≡ none

-- What the first opening leaves: the response, the receipt and the message's row, for the deadline
-- `b` of the member.
pub record HasStarted (message_id user_id : Uuid) (now b : Date) (d : Done Revealed) : Type 0 where
  pub receipt : MessageReceipt
  pub row : Message
  pub answered : d.value.burn_at ≡ some b
  pub stored_receipt : find_one (receipt_of message_id user_id) d.db.receipts ≡ some receipt
  pub revealed_now : receipt.revealed_at ≡ some now
  pub timed : receipt.burn_at ≡ some b
  pub read : receipt.is_read ≡ true
  pub openable : IsOpenable d.db now message_id user_id row
  pub deadline : Date
  pub has_deadline : row.destroy_at ≡ some deadline
  pub not_before : b ≤ deadline

start_countdown-IsOpenable :
    (env : Env) (db : Db) (now : Date) (m : Message) (r : MessageReceipt)
    (message_id user_id : Uuid) (n : Option ℕ)
    → IsOpenable db now message_id user_id m
    → IsOpenable
        (start_countdown env db now m r user_id n).db
        now
        message_id
        user_id
        (extend_deadline (now + burn_seconds env m n * 1000) m)
unfolding start_countdown
start_countdown-IsOpenable env db now m r message_id user_id n a =
    let b = now + burn_seconds env m n * 1000 in
    let (id_kept, conversation_kept, live, recalled, ttl) = extend_deadline-keeps b m in
    let pos = burn_seconds-pos env m n a.burns in
    let (e, has, le) = extend_deadline-le b m (omega arith) in
    record {
      stored = start_countdown-message env db now m r message_id user_id n a.stored;
      live = live ∙ a.live;
      membership = a.membership;
      is_member = rw conversation_kept a.is_member;
      burns = ap is_nonzero ttl ∙ a.burns;
      not_recalled = recalled ∙ a.not_recalled;
      not_due = rw has (ground arith);
    }

pub start_countdown-HasStarted :
    (env : Env) (db : Db) (now : Date) (m : Message) (r : MessageReceipt)
    (message_id user_id : Uuid) (n : Option ℕ)
    → IsOpenable db now message_id user_id m
    → find_one (receipt_of message_id user_id) db.receipts ≡ some r
    → HasStarted message_id user_id now
        (now + burn_seconds env m n * 1000)
        (start_countdown env db now m r user_id n)
start_countdown-HasStarted env db now m r message_id user_id n a e =
    let b = now + burn_seconds env m n * 1000 in
    let pos = burn_seconds-pos env m n a.burns in
    let (d, has, le) = extend_deadline-le b m (omega arith) in
    record {
      receipt = open_receipt now b r;
      row = extend_deadline b m;
      answered = unfold start_countdown open_receipt in refl;
      stored_receipt = start_countdown-receipt env db now m r message_id user_id n e;
      revealed_now = unfold open_receipt in refl;
      timed = unfold open_receipt in refl;
      read = unfold open_receipt in refl;
      openable = start_countdown-IsOpenable env db now m r message_id user_id n a;
      deadline = d;
      has_deadline = has;
      not_before = le;
    }
