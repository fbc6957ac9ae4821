-- ===== src/Read/Again.antt =====
-- Marking the same messages a second time does nothing.
use fenxin.Prelude.{
  subst, ℕ, ◌≡◌, refl, ap, inl, inr, Bool, false, ◌&&◌, Option, none, some, List, [], ◌∷◌, arith,
  ltb, ◌==◌, if◌then◌else◌, has, find_one, update_where, count_where, Option-cases, if_cases,
  find_one-update,
}
use fenxin.Entities.{
  Uuid, Date, Message, MessageReceipt, ConversationMember, Db, message_is, member_is,
}
use fenxin.Result.{ok, >>=-eq-ok, Done}
use fenxin.Send.{assert_member}
use fenxin.Read.{
  may_advance, advance_joined, advance_last_read, advance_to, set_read, mark_receipts,
  is_marked_by_ids, check_ids, mark_messages_read, newest,
}
use fenxin.Read.Marks.{advance_to-tables}

count-update :
    {A : Type 0} (p : A → Bool) (f : A → A) (xs : List A)
    → ((a : A) → p (f a) ≡ false)
    → count_where p (update_where p f xs) ≡ 0
unfolding count_where update_where
count-update p f [] h = refl
count-update p f (x ∷ xs) h = ground (arith, h x, count-update p f xs h)

update-count_zero :
    {A : Type 0} (p : A → Bool) (f : A → A) (xs : List A)
    → count_where p xs ≡ 0
    → update_where p f xs ≡ xs
unfolding count_where update_where
update-count_zero p f [] h = refl
update-count_zero p f (x ∷ xs) h = ground (arith, update-count_zero p f xs)

advance_joined-member :
    (db : Db) (c u k : Uuid) (o : Option Message) (cm : ConversationMember)
    → find_one (member_is c u) db.members ≡ some cm
    → (cm' : ConversationMember) × (find_one (member_is c u) (advance_joined db c u k o).members
        ≡ some cm')
unfolding advance_joined
advance_joined-member db c u k none cm e = (cm, e)
advance_joined-member db c u k (some m) cm e = (
  (if member_is c u cm && may_advance db m cm
      then record cm { last_read_message_id = some k }
      else cm),
  rw
      (
        find_one-update (member_is c u) (λ x. member_is c u x && may_advance db m x)
            (λ x. record x { last_read_message_id = some k }) db.members (λ x. refl),
        e,
      )
      refl,
)

advance_to-member :
    (db : Db) (c u : Uuid) (o : Option Message) (cm : ConversationMember)
    → find_one (member_is c u) db.members ≡ some cm
    → (cm' : ConversationMember) × (find_one (member_is c u) (advance_to db c u o).members
        ≡ some cm')
unfolding advance_last_read
advance_to-member db c u none cm e = (cm, e)
advance_to-member db c u (some m) cm e =
    advance_joined-member db c u m.id (find_one (message_is m.id) db.messages) cm e

check_ids-again :
    (db db' : Db) (c u : Uuid) (message_ids : List (Option Uuid)) (ids : List Uuid)
    (cm : ConversationMember)
    → check_ids db c u message_ids ≡ ok ids
    → find_one (member_is c u) db'.members ≡ some cm
    → db'.conversations ≡ db.conversations
    → check_ids db' c u message_ids ≡ ok ids
unfolding check_ids assert_member
check_ids-again db db' c u message_ids ids cm h e f = rw f (ground (arith, e))

check_ids-member :
    (db : Db) (c u : Uuid) (message_ids : List (Option Uuid)) (ids : List Uuid)
    → check_ids db c u message_ids ≡ ok ids
    → (cm : ConversationMember) × (find_one (member_is c u) db.members ≡ some cm)
unfolding check_ids assert_member
check_ids-member db c u message_ids ids h =
    elim (Option-cases (find_one (member_is c u) db.members)) [
      | inl e ↦ absurd (ground arith)
      | inr (cm, e) ↦ (cm, e)
    ]

-- What marking listed messages leaves behind.
record HasMarked (db : Db) (now : Date) (c u : Uuid) (ids : List Uuid) (db' : Db) : Type 0 where
  row : ConversationMember
  found : find_one (member_is c u) db'.members ≡ some row
  conversations : db'.conversations ≡ db.conversations
  messages : db'.messages ≡ db.messages
  receipts : db'.receipts ≡ update_where (is_marked_by_ids db c u ids) (set_read now) db.receipts

advanced-HasMarked :
    (db : Db) (now : Date) (c u : Uuid) (ids : List Uuid) (o : Option Message)
    (cm : ConversationMember)
    → find_one (member_is c u) db.members ≡ some cm
    → HasMarked db now c u ids
        (advance_to (mark_receipts (is_marked_by_ids db c u ids) now db) c u o)
unfolding mark_receipts
advanced-HasMarked db now c u ids o cm e =
    let db' = mark_receipts (is_marked_by_ids db c u ids) now db in
    let (row, found) = advance_to-member db' c u o cm e in
    let same = advance_to-tables db' c u o in
    record {
      row = row;
      found = found;
      conversations = ap (λ (x : Db). x.conversations) same;
      messages = ap (λ (x : Db). x.messages) same;
      receipts = ap (λ (x : Db). x.receipts) same;
    }

mark_messages_read-HasMarked :
    (db : Db) (now : Date) (c u : Uuid) (message_ids : List (Option Uuid)) (d : Done ℕ)
    → mark_messages_read db now c u message_ids ≡ ok d
    → (ids : List Uuid) × (check_ids db c u message_ids ≡ ok ids) × HasMarked db now c u ids d.db
unfolding mark_messages_read
mark_messages_read-HasMarked db now c u message_ids d h =
    let (ids, a, f) = >>=-eq-ok (check_ids db c u message_ids) _ h in
    let (cm, e) = check_ids-member db c u message_ids ids a in
    let marks = is_marked_by_ids db c u ids in
    let db' = mark_receipts marks now db in
    let latest = newest (λ m. has m.id ids && m.conversation_id == c) db.messages in
    let after = if ltb 0 (count_where marks db.receipts) then advance_to db' c u latest else db' in
    let same : after ≡ d.db = ground arith in
    (
      ids,
      a,
      subst (HasMarked db now c u ids) same (
          if_cases (HasMarked db now c u ids) (ltb 0 (count_where marks db.receipts))
            (advance_to db' c u latest) db' (λ _. advanced-HasMarked db now c u ids latest cm e)
            (λ _. advanced-HasMarked db now c u ids none cm e)),
    )

marks_none :
    (db : Db) (later : Date) (c u : Uuid) (message_ids : List (Option Uuid)) (ids : List Uuid)
    → check_ids db c u message_ids ≡ ok ids
    → count_where (is_marked_by_ids db c u ids) db.receipts ≡ 0
    → mark_messages_read db later c u message_ids ≡ ok (record { value = 0; db = db; effects = [] })
unfolding mark_messages_read mark_receipts
marks_none db later c u message_ids ids a z =
    let same = update-count_zero (is_marked_by_ids db c u ids) (set_read later) db.receipts z in
    ground (arith, a, z, same)

set_read-unmarked :
    (db : Db) (c u : Uuid) (ids : List Uuid) (now : Date) (r : MessageReceipt)
    → is_marked_by_ids db c u ids (set_read now r) ≡ false
unfolding is_marked_by_ids
set_read-unmarked db c u ids now r = ground arith

is_marked_by_ids-messages :
    (db db' : Db) (c u : Uuid) (ids : List Uuid)
    → db'.messages ≡ db.messages
    → is_marked_by_ids db' c u ids ≡ is_marked_by_ids db c u ids
unfolding is_marked_by_ids
is_marked_by_ids-messages db db' c u ids e =
    ap (λ (ms : List Message). is_marked_by_ids (record db { messages = ms }) c u ids) e

-- Marking the same messages again, at any time, succeeds, marks nothing, changes nothing and sends
-- nothing.
pub mark_messages_read-again :
    (db : Db) (now later : Date) (c u : Uuid) (message_ids : List (Option Uuid)) (d : Done ℕ)
    → mark_messages_read db now c u message_ids ≡ ok d
    → mark_messages_read d.db later c u message_ids
      ≡ ok (record { value = 0; db = d.db; effects = [] })
mark_messages_read-again db now later c u message_ids d h =
    let (ids, a, s) = mark_messages_read-HasMarked db now c u message_ids d h in
    let marks = is_marked_by_ids db c u ids in
    marks_none d.db later c u message_ids ids
      (check_ids-again db d.db c u message_ids ids s.row a s.found s.conversations)
      (rw (is_marked_by_ids-messages db d.db c u ids s.messages, s.receipts)
        (count-update marks (set_read now) db.receipts (set_read-unmarked db c u ids now)))
