-- ===== src/Read.antt =====
-- Reading, in src/modules/message/message.service.ts: `markAsRead`, `markMessagesRead`,
-- `advanceLastRead` and `getMessageReceipts`. An UPDATE with a JOIN is an update of the rows for
-- which a joined row exists.
pub mod Marks
pub mod Again
pub mod Watermark
mod Tests
use fenxin.Prelude.{
  ℕ, ◌≡◌, Bool, true, false, not, ◌&&◌, ◌||◌, Option, none, some, List, [], ◌∷◌, map, length, leb,
  ltb, ◌==◌, if◌then◌else◌, is_some, has, distinct, find_one, select_where, update_where,
  exists_where, count_where, order_by,
}
use fenxin.Entities.{
  present, Uuid, Date, Text, is_truthy, AppUser, Message, MessageReceipt, ConversationMember, Db,
  message_is, conversation_is, member_is,
}
use fenxin.Result.{
  Result, ok, err, bad_request, not_found, conversation_missing, message_missing, ids_empty,
  too_many_ids, ◌>>=◌, ◌>>◌, reject, or_throw, receipt_read, Effect, emit, Done, Outcome,
}
use fenxin.Send.{assert_member, get_member_user_ids}

abbrev pub newest_first : Message → Message → Bool
newest_first x y = leb y.created_at x.created_at

abbrev pub first_of : List Message → Option Message
first_of [] = none
first_of (m ∷ ms) = some m

-- `ORDER BY created_at DESC LIMIT 1`
unfoldable pub newest : (Message → Bool) → List Message → Option Message
unfolding order_by select_where
newest test messages = first_of (order_by newest_first (select_where test messages))

-- Whether the watermark of the member may move to the candidate: it has none, its message is gone,
-- or the candidate is not older.
unfoldable pub may_advance : Db → Message → ConversationMember → Bool
unfolding find_one
may_advance db m_new cm = elim cm.last_read_message_id [
  | none ↦ true
  | some id ↦ elim (find_one (message_is id) db.messages) [
    | none ↦ true
    | some m_old ↦ leb m_old.created_at m_new.created_at
  ]
]

-- `UPDATE conversation_members cm JOIN messages m_new …`, by the row that the join finds.
unfoldable pub advance_joined : Db → Uuid → Uuid → Uuid → Option Message → Db
unfolding may_advance update_where
advance_joined db conversation_id user_id candidate_message_id none = db
advance_joined db conversation_id user_id candidate_message_id (some m_new) = record db {
  members =
      update_where (λ cm. member_is conversation_id user_id cm && may_advance db m_new cm)
        (λ cm. record cm { last_read_message_id = some candidate_message_id }) db.members;
}

unfoldable pub advance_last_read : Db → Uuid → Uuid → Uuid → Db
unfolding advance_joined find_one
advance_last_read db conversation_id user_id candidate_message_id =
    advance_joined db conversation_id user_id candidate_message_id
      (find_one (message_is candidate_message_id) db.messages)

abbrev pub advance_to : Db → Uuid → Uuid → Option Message → Db
advance_to db conversation_id user_id none = db
advance_to db conversation_id user_id (some m) = advance_last_read db conversation_id user_id m.id

abbrev pub is_within : Option Date → Message → Bool
is_within none m = true
is_within (some up_to) m = leb m.created_at up_to

-- `upToCreatedAt`; an unknown message sets no bound.
unfoldable pub up_to_created_at : Db → Uuid → Option Uuid → Option Date
unfolding find_one
up_to_created_at db conversation_id none = none
up_to_created_at db conversation_id (some id) =
    elim (find_one (λ m. m.id == id && m.conversation_id == conversation_id) db.messages) [
      | none ↦ none
      | some m ↦ some m.created_at
    ]

-- The joined message of a receipt that reading the whole conversation may mark.
unfoldable pub is_readable : Uuid → Option Date → MessageReceipt → Message → Bool
is_readable conversation_id up_to r m =
    m.id == r.message_id
    && m.conversation_id == conversation_id
    && not m.is_destroyed
    && not m.is_encrypted
    && (not (is_some m.burn_ttl_seconds) || is_some r.revealed_at)
    && is_within up_to m

unfoldable pub is_marked_by_read : Db → Uuid → Uuid → Option Date → MessageReceipt → Bool
unfolding is_readable exists_where
is_marked_by_read db conversation_id user_id up_to r =
    r.user_id == user_id
    && not r.is_read
    && exists_where (is_readable conversation_id up_to r) db.messages

abbrev pub set_read : Date → MessageReceipt → MessageReceipt
set_read now r = record r { is_read = true; read_at = some now }

abbrev pub message_id_of : Option Message → Option Uuid
message_id_of none = none
message_id_of (some m) = some m.id

abbrev pub read_event : Db → Date → Uuid → Uuid → Option Message → List Effect
read_event db now conversation_id user_id latest =
    emit (get_member_user_ids db conversation_id)
      (receipt_read conversation_id user_id (message_id_of latest) now)
    ∷ []

-- The rows that the tests `marks` name become read; `value` is `affectedRows`.
unfoldable pub mark_receipts : (MessageReceipt → Bool) → Date → Db → Db
unfolding update_where
mark_receipts marks now db = record db { receipts = update_where marks (set_read now) db.receipts }

unfoldable pub mark_as_read : Db → Date → Uuid → Uuid → Option Uuid → Outcome (Unit {0})
unfolding assert_member up_to_created_at is_marked_by_read mark_receipts count_where newest
    advance_last_read
mark_as_read db now conversation_id user_id up_to_message_id = do
  membership ← assert_member db conversation_id user_id
  let up_to = up_to_created_at db conversation_id up_to_message_id
  let marks = is_marked_by_read db conversation_id user_id up_to
  let affected = count_where marks db.receipts
  let last_msg = newest (λ m. m.conversation_id == conversation_id && is_within up_to m) db.messages
  ok (record {
    value = tt;
    db = advance_to (mark_receipts marks now db) conversation_id user_id last_msg;
    effects = if ltb 0 affected then read_event db now conversation_id user_id last_msg else [];
  })

unfoldable pub is_marked_by_ids : Db → Uuid → Uuid → List Uuid → MessageReceipt → Bool
unfolding exists_where has
is_marked_by_ids db conversation_id user_id ids r =
    r.user_id == user_id
    && not r.is_read
    && has r.message_id ids
    && exists_where
        (λ m. m.id == r.message_id && m.conversation_id == conversation_id && not m.is_destroyed)
        db.messages

-- The checks; the result is `ids`.
unfoldable pub check_ids : Db → Uuid → Uuid → List (Option Uuid) → Result (List Uuid)
unfolding assert_member present distinct
check_ids db conversation_id user_id message_ids = do
  membership ← assert_member db conversation_id user_id
  conv ←
      or_throw (find_one (conversation_is conversation_id) db.conversations)
        (not_found conversation_missing)
  let ids = distinct (present message_ids)
  reject (length ids == 0) (bad_request ids_empty)
  reject (ltb 200 (length ids)) (bad_request too_many_ids)
  ok ids

unfoldable pub mark_messages_read : Db → Date → Uuid → Uuid → List (Option Uuid) → Outcome ℕ
unfolding check_ids is_marked_by_ids mark_receipts count_where newest advance_last_read has
mark_messages_read db now conversation_id user_id message_ids = do
  ids ← check_ids db conversation_id user_id message_ids
  let marks = is_marked_by_ids db conversation_id user_id ids
  let marked = count_where marks db.receipts
  let latest = newest (λ m. has m.id ids && m.conversation_id == conversation_id) db.messages
  let db' = mark_receipts marks now db
  ok (record {
    value = marked;
    db = if ltb 0 marked then advance_to db' conversation_id user_id latest else db';
    effects = if ltb 0 marked then read_event db now conversation_id user_id latest else [];
  })

-- One row of the response of `getMessageReceipts`.
pub record ReceiptView : Type 0 where
  pub id : Uuid
  pub message_id : Uuid
  pub user_id : Uuid
  pub user_display_name : Text
  pub is_sender : Bool
  pub is_read : Bool
  pub read_at : Option Date
  pub revealed_at : Option Date
  pub burn_at : Option Date

abbrev pub unknown_name : Text
unknown_name = b'U' ∷ b'n' ∷ b'k' ∷ b'n' ∷ b'o' ∷ b'w' ∷ b'n' ∷ []

-- `r.display_name || 'Unknown'`, after the LEFT JOIN.
abbrev pub display_name_of : Option AppUser → Text
display_name_of none = unknown_name
display_name_of (some u) = if is_truthy (some u.display_name) then u.display_name else unknown_name

unfoldable pub receipt_view : Db → Message → MessageReceipt → ReceiptView
unfolding find_one
receipt_view db message r = record {
  id = r.id;
  message_id = r.message_id;
  user_id = r.user_id;
  user_display_name = display_name_of (find_one (λ (u : AppUser). u.id == r.user_id) db.users);
  is_sender = r.user_id == message.sender_id;
  is_read = r.is_read;
  read_at = r.read_at;
  revealed_at = r.revealed_at;
  burn_at = r.burn_at;
}

abbrev by_user : MessageReceipt → MessageReceipt → Bool
by_user x y = leb x.user_id y.user_id

unfoldable pub get_message_receipts : Db → Uuid → Uuid → Result (List ReceiptView)
unfolding assert_member receipt_view select_where order_by
get_message_receipts db message_id user_id = do
  message ← or_throw (find_one (message_is message_id) db.messages) (not_found message_missing)
  reject message.is_destroyed (not_found message_missing)
  membership ← assert_member db message.conversation_id user_id
  ok (
      map (receipt_view db message)
        (order_by by_user (select_where (λ r. r.message_id == message_id) db.receipts)))
