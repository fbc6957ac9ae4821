-- ===== src/Scheduler/Rules.antt =====
-- Which messages a run of the scheduler marks, and that it changes nothing else.
use fenxin.Prelude.{
  ◌≤◌, ◌≡◌, refl, ◌⊎◌, inl, inr, subst, ap, ◌∙◌, sym, Bool, true, false, not, ◌&&◌, some, List, map,
  arith, length, has, In, IsDistinct, if◌then◌else◌, find_one, exists_where, select_where, order_by,
  if_cases, find_one-update, find_one-In, In-take, take_all, In-order_by, In-order_by_back,
  length-order_by, In-select, In-select_back, has-map, has-map_back, In-by_key, map-update_key,
  &&-eq-true,
}
use fenxin.Entities.{Uuid, Date, DestroyReason, fallback_expired, all_read, Message, Db, message_is}
use fenxin.View.{is_due}
use fenxin.Scheduler.{
  batch, is_expired, is_read_out, mark, created_before, of_reader, is_open, batch_rows, mark_batch,
  mark_destroyed,
}

abbrev pub message_ids : List Message → List Uuid
message_ids ms = map (λ (m : Message). m.id) ms

batch_rows_sound :
    (rule : Message → Bool) (ms : List Message) (m : Message)
    → IsDistinct (message_ids ms)
    → In m ms
    → has m.id (message_ids (batch_rows rule ms)) ≡ true
    → rule m ≡ true
unfolding batch_rows
batch_rows_sound rule ms m distinct stored h =
    let (x, within, same) = has-map_back (λ x. x.id) (batch_rows rule ms) m.id h in
    let selected =
      In-order_by_back created_before (select_where rule ms) x
        (In-take batch (order_by created_before (select_where rule ms)) x within) in
    let (listed, passes) = In-select_back rule ms x selected in
    subst (λ y. rule y ≡ true) (In-by_key (λ x. x.id) ms x m distinct listed stored same) passes

batch_rows_complete :
    (rule : Message → Bool) (ms : List Message) (m : Message)
    → length (select_where rule ms) ≤ batch
    → In m ms
    → rule m ≡ true
    → has m.id (message_ids (batch_rows rule ms)) ≡ true
unfolding batch_rows
batch_rows_complete rule ms m small stored passes =
    let selected = select_where rule ms in
    let all =
      take_all batch (order_by created_before selected)
        (subst (λ n. n ≤ batch) (sym (length-order_by created_before selected)) small) in
    has-map (λ x. x.id) (batch_rows rule ms) m
      (rw all (In-order_by created_before selected m (In-select rule ms m stored passes)))

-- The row after a batch: as it was, or marked, which only the rule allows.
abbrev pub MarkedBy : DestroyReason → Date → (Message → Bool) → Message → Message → Type 0
MarkedBy reason now rule m m' =
    (m' ≡ m) ⊎ ((rule m ≡ true) × (m.is_destroyed ≡ false) × (m' ≡ mark reason now m))

mark_batch-found :
    (reason : DestroyReason) (rule : Message → Bool) (db : Db) (now : Date) (id : Uuid)
    (m : Message)
    → find_one (message_is id) db.messages ≡ some m
    → find_one (message_is id) (mark_batch reason rule db now).db.messages
      ≡ some (
          if has m.id (message_ids (batch_rows rule db.messages)) && not m.is_destroyed
          then mark reason now m
          else m)
unfolding mark_batch mark
mark_batch-found reason rule db now id m e =
    rw (find_one-update (message_is id) _ (mark reason now) db.messages (λ x. refl), e) refl

pub mark_batch_sound :
    (reason : DestroyReason) (rule : Message → Bool) (db : Db) (now : Date) (id : Uuid)
    (m : Message)
    → IsDistinct (message_ids db.messages)
    → find_one (message_is id) db.messages ≡ some m
    → (m' : Message) × (find_one (message_is id) (mark_batch reason rule db now).db.messages
        ≡ some m')
      × MarkedBy reason now rule m m'
mark_batch_sound reason rule db now id m distinct e =
    let test = has m.id (message_ids (batch_rows rule db.messages)) && not m.is_destroyed in
    (
      (if test then mark reason now m else m),
      mark_batch-found reason rule db now id m e,
      if_cases (MarkedBy reason now rule m) test (mark reason now m) m
          (λ t.
            let (listed, live) = &&-eq-true _ _ t in
            inr (
              batch_rows_sound rule db.messages m distinct (find_one-In _ db.messages m e) listed,
              ground arith,
              refl,
            ))
          (λ _. inl refl),
    )

-- Where the rule selects no more rows than the limit of a batch, every live message that it
-- selects is marked in this run.
pub mark_batch_complete :
    (reason : DestroyReason) (rule : Message → Bool) (db : Db) (now : Date) (id : Uuid)
    (m : Message)
    → find_one (message_is id) db.messages ≡ some m
    → length (select_where rule db.messages) ≤ batch
    → rule m ≡ true
    → m.is_destroyed ≡ false
    → find_one (message_is id) (mark_batch reason rule db now).db.messages
      ≡ some (mark reason now m)
mark_batch_complete reason rule db now id m e small passes live =
    rw
      (
        mark_batch-found reason rule db now id m e,
        batch_rows_complete rule db.messages m small (find_one-In _ db.messages m e) passes,
        live,
      )
      refl

mark_batch-ids :
    (reason : DestroyReason) (rule : Message → Bool) (db : Db) (now : Date)
    → message_ids (mark_batch reason rule db now).db.messages ≡ message_ids db.messages
unfolding mark_batch mark
mark_batch-ids reason rule db now =
    map-update_key (λ x. x.id) _ (mark reason now) db.messages (λ x. refl)

-- A row after a run of the scheduler: as it was, or marked by one of the two rules.
abbrev pub IsMarking : Db → Date → Message → Message → Type 0
IsMarking db now m m' =
    (m' ≡ m)
    ⊎ ((is_expired now m ≡ true) × (m' ≡ mark fallback_expired now m))
    ⊎ ((is_read_out db.receipts now m ≡ true) × (m' ≡ mark all_read now m))

two_marks :
    (db : Db) (now : Date) (m x y : Message)
    → MarkedBy fallback_expired now (is_expired now) m x
    → MarkedBy all_read now (is_read_out db.receipts now) x y
    → IsMarking db now m y
unfolding mark
two_marks db now m x y (inl e) (inl f) = inl (f ∙ e)
two_marks db now m x y (inl e) (inr (r, live, f)) =
    inr (inr (subst (λ z. is_read_out db.receipts now z ≡ true) e r, f ∙ ap (mark all_read now) e))
two_marks db now m x y (inr (r, live, e)) (inl f) = inr (inl (r, f ∙ e))
two_marks db now m x y (inr (r, live, e)) (inr (s, live', f)) =
    let marked : x.is_destroyed ≡ true = ap (λ (z : Message). z.is_destroyed) e in
    cc (marked, live')

-- If the ids of the messages are distinct, a run keeps every row, and a row is changed only by
-- being marked: because its deadline has passed, or because somebody else than the sender has a
-- receipt and every such receipt is opened and due. No other table changes.
pub mark_destroyed-IsMarking :
    (db : Db) (now : Date) (id : Uuid) (m : Message)
    → IsDistinct (message_ids db.messages)
    → find_one (message_is id) db.messages ≡ some m
    → (m' : Message) × (find_one (message_is id) (mark_destroyed db now).db.messages ≡ some m')
      × IsMarking db now m m'
      × ((mark_destroyed db now).db ≡ record db { messages = (mark_destroyed db now).db.messages })
unfolding mark_destroyed
mark_destroyed-IsMarking db now id m distinct e =
    let first = mark_batch fallback_expired (is_expired now) db now in
    let (x, f, c) = mark_batch_sound fallback_expired (is_expired now) db now id m distinct e in
    let (y, g, d) =
      mark_batch_sound all_read (is_read_out first.db.receipts now) first.db now id x
        (subst IsDistinct (sym (mark_batch-ids fallback_expired (is_expired now) db now)) distinct)
        f in
    (y, g, two_marks db now m x y c d, refl)

-- While the message's deadline lies ahead and somebody else than the sender has a receipt that is
-- unopened or still running, a run leaves the message's row as it is (if the ids of the messages
-- are distinct).
pub mark_destroyed-spares :
    (db : Db) (now : Date) (id : Uuid) (m : Message)
    → IsDistinct (message_ids db.messages)
    → find_one (message_is id) db.messages ≡ some m
    → is_due m.destroy_at now ≡ false
    → exists_where (λ r. of_reader m r && is_open now r) db.receipts ≡ true
    → find_one (message_is id) (mark_destroyed db now).db.messages ≡ some m
unfolding is_expired is_read_out
mark_destroyed-spares db now id m distinct e pending running =
    let (y, g, c, same) = mark_destroyed-IsMarking db now id m distinct e in
    elim c [
      | inl f ↦ g ∙ ap some f
      | inr k ↦ elim k [ inl (r, f) ↦ absurd (ground arith) | inr (r, f) ↦ absurd (ground arith) ]
    ]
