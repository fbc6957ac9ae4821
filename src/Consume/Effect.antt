-- ===== src/Consume/Effect.antt =====
-- After a member has consumed a message it is burned for that member, and for no other.
use fenxin.Prelude.{
  ℕ, ◌≤◌, ◌≡◌, refl, inl, inr, true, Option, none, some, arith, find_one, ==_refl, Option-cases,
  Bool-cases, find_one-update_found, ◌≢◌, find_one-passes, subst, ◌⊎◌,
}
use fenxin.Entities.{Uuid, Date, Message, MessageReceipt, Db, message_is, receipt_of, receipt_is}
use fenxin.Result.{ok, err, not_found, message_burned, Done}
use fenxin.Env.{Env}
use fenxin.View.{is_due}
use fenxin.Send.{assert_member}
use fenxin.Reveal.{Revealed, reveal_message, reveal_with}
use fenxin.Reveal.Checks.{reveal_message-eq-ok}
use fenxin.Consume.{Consumed, consume_now, consume_stored, consume_message}

-- A receipt of the user whose countdown has ended by `now`.
abbrev pub IsBurnedFor : Db → Uuid → Uuid → Date → Type 0
IsBurnedFor db message_id user_id now =
    (r : MessageReceipt) × (find_one (receipt_of message_id user_id) db.receipts ≡ some r)
    × (is_due r.burn_at now ≡ true)

consume_stored-IsBurnedFor :
    (db : Db) (now : Date) (user_id : Uuid) (m : Message) (d : Done Consumed)
    → consume_stored db now user_id m ≡ ok d
    → IsBurnedFor d.db m.id user_id now
unfolding consume_stored assert_member consume_now
consume_stored-IsBurnedFor db now user_id m d h =
    elim (Option-cases (find_one (receipt_of m.id user_id) db.receipts)) [
      | inl e ↦ absurd (ground arith)
      | inr (r, e) ↦ elim (Bool-cases (is_due r.burn_at now)) [
        | inl due ↦ (r, ground arith, due)
        | inr pending ↦ (
          record r { burn_at = some now },
          ground (
            arith,
            find_one-update_found (receipt_of m.id user_id) (receipt_is r.id)
                (λ x. record x { burn_at = some now }) db.receipts r (λ x. refl) e (==_refl r.id),
          ),
          ground arith,
        )
      ]
    ]

-- Whoever is told that the message was there can no longer open it: from the present on, opening
-- does not succeed for that user.
pub message_is-id : (id : Uuid) (m : Message) → message_is id m ≡ true → m.id ≡ id
message_is-id id m h = ground arith

reveal_with-due :
    (env : Env) (db : Db) (later : Date) (m : Message) (r : MessageReceipt) (user_id : Uuid)
    (n : Option ℕ)
    → is_due r.burn_at later ≡ true
    → reveal_with env db later m r user_id n ≡ err (not_found message_burned)
unfolding reveal_with
reveal_with-due env db later m r user_id n h = ground arith

pub is_due_mono :
    (o : Option Date) (now later : Date) → is_due o now ≡ true → now ≤ later → is_due o later ≡ true
is_due_mono none now later h le = h
is_due_mono (some d) now later h le = ground arith

burned-not_openable :
    (env : Env) (uuid : Uuid) (db : Db) (now later : Date) (message_id user_id : Uuid)
    (n : Option ℕ) (d : Done Revealed)
    → IsBurnedFor db message_id user_id now
    → now ≤ later
    → reveal_message env uuid db later message_id user_id n ≢ ok d
burned-not_openable env uuid db now later message_id user_id n d (r, e, due) le h =
    let (m, a, f) = reveal_message-eq-ok env uuid db later message_id user_id n d h in
    let g = rw e at f in
    cc (g, reveal_with-due env db later m r user_id n (is_due_mono r.burn_at now later due le))

-- The database after a call: the user's receipt is due, or the message has no row.
consume_message-cases :
    (db : Db) (now : Date) (message_id user_id : Uuid) (d : Done Consumed)
    → consume_message db now message_id user_id ≡ ok d
    → (find_one (message_is message_id) d.db.messages ≡ none)
      ⊎ IsBurnedFor d.db message_id user_id now
unfolding consume_message
consume_message-cases db now message_id user_id d h =
    elim (Option-cases (find_one (message_is message_id) db.messages)) [
      | inl e ↦ inl (ground arith)
      | inr (m, e) ↦ inr (
          subst (λ i. IsBurnedFor d.db i user_id now) (message_is-id _ m (find_one-passes _ _ m e))
            (consume_stored-IsBurnedFor db now user_id m d (rw e at h)))
    ]

missing-not_openable :
    (env : Env) (uuid : Uuid) (db : Db) (later : Date) (message_id user_id : Uuid) (n : Option ℕ)
    (d : Done Revealed)
    → find_one (message_is message_id) db.messages ≡ none
    → reveal_message env uuid db later message_id user_id n ≢ ok d
missing-not_openable env uuid db later message_id user_id n d e h =
    let (m, a, f) = reveal_message-eq-ok env uuid db later message_id user_id n d h in
    cc (e, a.stored)

-- After a successful consumption the user cannot open the message any more, at any later time.
pub consume_message-final :
    (env : Env) (uuid : Uuid) (db : Db) (now later : Date) (message_id user_id : Uuid)
    (n : Option ℕ) (d : Done Consumed) (d' : Done Revealed)
    → consume_message db now message_id user_id ≡ ok d
    → now ≤ later
    → reveal_message env uuid d.db later message_id user_id n ≢ ok d'
consume_message-final env uuid db now later message_id user_id n d d' h le =
    elim (consume_message-cases db now message_id user_id d h) [
      | inl e ↦ missing-not_openable env uuid d.db later message_id user_id n d' e
      | inr b ↦ burned-not_openable env uuid d.db now later message_id user_id n d' b le
    ]
