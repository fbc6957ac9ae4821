-- ===== src/Consume/Frame.antt =====
-- What consuming leaves alone, and consuming twice.
use fenxin.Prelude.{
  ◌≤◌, ◌≡◌, refl, inl, inr, true, false, some, List, [], arith, find_one, update_where, ◌==◌,
  ==_refl, Option-cases, find_one-update_found, find_one-update, ◌≢◌, find_one-passes, ap, ◌∙◌, ◌⊎◌,
  map, IsDistinct, find_one-by_key, if_cases, le→leb,
}
use fenxin.Entities.{Uuid, Date, Message, MessageReceipt, Db, message_is, receipt_of, receipt_is}
use fenxin.Result.{ok, Done}
use fenxin.View.{is_due}
use fenxin.Send.{assert_member}
use fenxin.Consume.{
  Consumed, gone, burned, consume_now, consume_stored, consume_found, consume_message,
}
use fenxin.Consume.Effect.{message_is-id, is_due_mono}

-- The rows of receipts have distinct ids.
abbrev pub HasDistinctIds : List MessageReceipt → Type 0
HasDistinctIds rs = IsDistinct (map (λ (r : MessageReceipt). r.id) rs)

other_row :
    (message_id user_id other : Uuid) (r r' : MessageReceipt)
    → user_id ≢ other
    → receipt_of message_id user_id r ≡ true
    → receipt_of message_id other r' ≡ true
    → r' ≡ r
    → ⊥
other_row message_id user_id other r r' ne e f k = ne (ground arith)

other_receipt :
    (message_id user_id other : Uuid) (rs : List MessageReceipt) (r r' : MessageReceipt)
    (now : Date)
    → HasDistinctIds rs
    → user_id ≢ other
    → find_one (receipt_of message_id user_id) rs ≡ some r
    → find_one (receipt_of message_id other) rs ≡ some r'
    → find_one
        (receipt_of message_id other)
        (update_where (receipt_is r.id) (λ x. record x { burn_at = some now }) rs)
      ≡ some r'
other_receipt message_id user_id other rs r r' now distinct ne e f =
    rw
      (
        find_one-update (receipt_of message_id other) (receipt_is r.id)
            (λ x. record x { burn_at = some now }) rs (λ x. refl),
        f,
      )
      (if_cases (λ x. some x ≡ some r') (r'.id == r.id) _ _
        (λ t. absurd (
          other_row message_id user_id other r r' ne (find_one-passes _ rs r e)
            (find_one-passes _ rs r' f)
            (find_one-by_key (λ x. x.id) _ _ rs r' r distinct f e (ground arith))))
        (λ _. refl))

-- What a call on a stored message does, by whether the user's time was up before.
consume_stored-eq-ok :
    (db : Db) (now : Date) (user_id : Uuid) (m : Message) (d : Done Consumed)
    → consume_stored db now user_id m ≡ ok d
    → (r : MessageReceipt) × (find_one (receipt_of m.id user_id) db.receipts ≡ some r)
      × (((is_due r.burn_at now ≡ true)
            × (d ≡ record {
              value = burned m.id m.conversation_id m.type r.burn_at true;
              db = db;
              effects = [];
            }))
          ⊎ ((is_due r.burn_at now ≡ false) × (d ≡ consume_now db now m r user_id)))
unfolding consume_stored assert_member
consume_stored-eq-ok db now user_id m d h =
    elim (Option-cases (find_one (receipt_of m.id user_id) db.receipts)) [
      | inl e ↦ absurd (ground arith)
      | inr (r, e) ↦ (r, e, ground arith)
    ]

consume_stored-frame :
    (db : Db) (now : Date) (message_id user_id other : Uuid) (m : Message) (d : Done Consumed)
    (r' : MessageReceipt)
    → m.id ≡ message_id
    → consume_stored db now user_id m ≡ ok d
    → HasDistinctIds db.receipts
    → user_id ≢ other
    → find_one (receipt_of message_id other) db.receipts ≡ some r'
    → (d.db.messages ≡ db.messages)
      × (find_one (receipt_of message_id other) d.db.receipts ≡ some r')
unfolding consume_now
consume_stored-frame db now message_id user_id other m d r' k h distinct ne f =
    let (r, e, c) = consume_stored-eq-ok db now user_id m d h in
    elim c [
      | inl (due, result) ↦ rw result (refl, f)
      | inr (pending, result) ↦ rw result (
        refl,
        other_receipt message_id user_id other db.receipts r r' now distinct ne (rw k at e) f,
      )
    ]

consume_stored-messages :
    (db : Db) (now : Date) (user_id : Uuid) (m : Message) (d : Done Consumed)
    → consume_stored db now user_id m ≡ ok d
    → d.db.messages ≡ db.messages
unfolding consume_now
consume_stored-messages db now user_id m d h =
    let (r, e, c) = consume_stored-eq-ok db now user_id m d h in
    elim c [ inl (due, result) ↦ rw result refl | inr (pending, result) ↦ rw result refl ]

consume_stored-due :
    (db : Db) (later : Date) (user_id : Uuid) (m : Message) (r : MessageReceipt)
    → find_one (receipt_of m.id user_id) db.receipts ≡ some r
    → is_due r.burn_at later ≡ true
    → (db₀ : Db) (now : Date) (d : Done Consumed) → db₀.members ≡ db.members
    → (r₀ : MessageReceipt) → find_one (receipt_of m.id user_id) db₀.receipts ≡ some r₀
    → r₀.revealed_at ≡ r.revealed_at
    → consume_stored db₀ now user_id m ≡ ok d
    → consume_stored db later user_id m
      ≡ ok (record {
        value = burned m.id m.conversation_id m.type r.burn_at true;
        db = db;
        effects = [];
      })
unfolding consume_stored assert_member
consume_stored-due db later user_id m r e due db₀ now d same r₀ e₀ opened h = ground arith

consume_stored-twice :
    (db : Db) (now later : Date) (user_id : Uuid) (m : Message) (d : Done Consumed)
    → consume_stored db now user_id m ≡ ok d
    → now ≤ later
    → (v : Consumed) × (consume_stored d.db later user_id m
        ≡ ok (record { value = v; db = d.db; effects = [] }))
unfolding consume_now
consume_stored-twice db now later user_id m d h le =
    let (r, e, c) = consume_stored-eq-ok db now user_id m d h in
    elim c [
      | inl (due, result) ↦ (
        burned m.id m.conversation_id m.type r.burn_at true,
        rw result (
            consume_stored-due db later user_id m r e (is_due_mono r.burn_at now later due le) db
              now d refl r e refl h),
      )
      | inr (pending, result) ↦ (
        burned m.id m.conversation_id m.type (some now) true,
        rw result (
            consume_stored-due (consume_now db now m r user_id).db later user_id m
              (record r { burn_at = some now })
              (find_one-update_found _ (receipt_is r.id) _ db.receipts r (λ x. refl) e
                (==_refl r.id))
              (le→leb now later le) db now d refl r e refl h),
      )
    ]

-- Consuming leaves every message and, if the ids of the receipts are distinct, the receipt of every
-- other member as it was.
pub consume_message-frame :
    (db : Db) (now : Date) (message_id user_id other : Uuid) (d : Done Consumed)
    (r' : MessageReceipt)
    → consume_message db now message_id user_id ≡ ok d
    → HasDistinctIds db.receipts
    → user_id ≢ other
    → find_one (receipt_of message_id other) db.receipts ≡ some r'
    → (d.db.messages ≡ db.messages)
      × (find_one (receipt_of message_id other) d.db.receipts ≡ some r')
unfolding consume_message
consume_message-frame db now message_id user_id other d r' h distinct ne f =
    elim (Option-cases (find_one (message_is message_id) db.messages)) [
      | inl e ↦ ground arith
      | inr (m, e) ↦
          consume_stored-frame db now message_id user_id other m d r'
            (message_is-id _ m (find_one-passes _ _ m e)) (rw e at h) distinct ne f
    ]

-- A second consumption, at any later time, succeeds, changes nothing and tells nobody.
pub consume_message-twice :
    (db : Db) (now later : Date) (message_id user_id : Uuid) (d : Done Consumed)
    → consume_message db now message_id user_id ≡ ok d
    → now ≤ later
    → (v : Consumed) × (consume_message d.db later message_id user_id
        ≡ ok (record { value = v; db = d.db; effects = [] }))
unfolding consume_message
consume_message-twice db now later message_id user_id d h le =
    elim (Option-cases (find_one (message_is message_id) db.messages)) [
      | inl e ↦ (gone, ground arith)
      | inr (m, e) ↦
          let (v, again) = consume_stored-twice db now later user_id m d (rw e at h) le in
          (
            v,
            ap (λ ms. consume_found d.db later user_id (find_one (message_is message_id) ms))
                  (consume_stored-messages db now user_id m d (rw e at h))
                ∙ ap (consume_found d.db later user_id) e
                ∙ again,
          )
    ]
