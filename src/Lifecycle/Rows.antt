-- ===== src/Lifecycle/Rows.antt =====
-- What each operation does to the live rows of a message that has died: nothing.
use fenxin.Prelude.{
  ℕ, ◌+◌, ◌*◌, is_some, ◌≡◌, refl, sym, subst, Bool, true, false, not, ◌&&◌, Option, none, some,
  List, [], arith, ◌==◌, ltb, get_or, if◌then◌else◌, All, All-append, All-update, if_cases,
  find_one, update_where,
}
use fenxin.Entities.{
  DestroyReason, fallback_expired, all_read, receipt_of, Uuid, Date, Text, Message, MessageReceipt,
  Db, message_is,
}
use fenxin.Result.{ok, >>=-eq-ok, Done}
use fenxin.Env.{Env}
use fenxin.Send.{SendParams, send_message, commit_send, new_message, check_send}
use fenxin.Reveal.{
  Revealed, burn_seconds, response, with_receipt, empty_receipt, start_countdown, check_reveal,
  reveal_with, reveal_message,
}
use fenxin.Consume.{Consumed, consume_now, consume_stored, consume_message}
use fenxin.Edit.{
  edit_message, recall_message, update_original_file, check_edit, check_recall, check_original,
}
use fenxin.Scheduler.{is_expired, is_read_out, mark, mark_batch, mark_destroyed}

-- No row with the id is live.
abbrev pub IsNotLive : Uuid → Message → Type 0
IsNotLive id m = (m.id == id && not m.is_destroyed) ≡ false

abbrev pub IsDead : Uuid → List Message → Type 0
IsDead id ms = All (IsNotLive id) ms

pub send_message-IsDead :
    (env : Env) (uuid : ℕ → Uuid) (db : Db) (now : Date) (p : SendParams) (d : Done Message)
    (id : Uuid)
    → send_message env uuid db now p ≡ ok d
    → (uuid 0 == id) ≡ false
    → IsDead id db.messages
    → IsDead id d.db.messages
unfolding send_message commit_send new_message
send_message-IsDead env uuid db now p d id h fresh dead =
    let (members, a, f) = >>=-eq-ok (check_send db p) _ h in
    let same : commit_send env uuid db now p members ≡ d = ground arith in
    subst (λ (x : Done Message). IsDead id x.db.messages) same
      (All-append (IsNotLive id) db.messages _ dead (ground (arith, fresh), tt))

start_countdown-IsDead :
    (env : Env) (db : Db) (now : Date) (m : Message) (r : MessageReceipt) (u : Uuid) (n : Option ℕ)
    (id : Uuid)
    → IsDead id db.messages
    → IsDead id (start_countdown env db now m r u n).db.messages
unfolding start_countdown
start_countdown-IsDead env db now m r u n id dead =
    let burn_at = now + burn_seconds env m n * 1000 in
    let extend = λ (x : Message). record x { destroy_at = some burn_at } in
    if_cases (IsDead id) (ltb (get_or m.destroy_at 0) burn_at)
      (update_where (message_is m.id) extend db.messages) db.messages
      (λ _. All-update (IsNotLive id) (message_is m.id) extend db.messages (λ a t k. k) dead)
      (λ _. dead)

with_receipt-messages :
    (o : Option MessageReceipt) (r : MessageReceipt) (db : Db)
    → (with_receipt o r db).1.messages ≡ db.messages
with_receipt-messages none r db = refl
with_receipt-messages (some x) r db = refl

reveal_with-IsDead :
    (env : Env) (db : Db) (now : Date) (m : Message) (r : MessageReceipt) (u : Uuid) (n : Option ℕ)
    (d : Done Revealed) (id : Uuid)
    → reveal_with env db now m r u n ≡ ok d
    → IsDead id db.messages
    → IsDead id d.db.messages
unfolding reveal_with
reveal_with-IsDead env db now m r u n d id h dead =
    let again : Done Revealed = record { value = response m r now; db = db; effects = [] } in
    let first = start_countdown env db now m r u n in
    let same : (if is_some r.revealed_at then again else first) ≡ d = ground arith in
    subst (λ (x : Done Revealed). IsDead id x.db.messages) same
      (if_cases (λ (x : Done Revealed). IsDead id x.db.messages) (is_some r.revealed_at) again first
        (λ _. dead) (λ _. start_countdown-IsDead env db now m r u n id dead))

pub reveal_message-IsDead :
    (env : Env) (uuid : Uuid) (db : Db) (now : Date) (message_id u : Uuid) (n : Option ℕ)
    (d : Done Revealed) (id : Uuid)
    → reveal_message env uuid db now message_id u n ≡ ok d
    → IsDead id db.messages
    → IsDead id d.db.messages
unfolding reveal_message
reveal_message-IsDead env uuid db now message_id u n d id h dead =
    let (m, a, f) = >>=-eq-ok (check_reveal db now message_id u) _ h in
    let o = find_one (receipt_of message_id u) db.receipts in
    let fresh = empty_receipt uuid message_id u in
    let (receipt, db') = with_receipt o fresh db in
    reveal_with-IsDead env db' now m receipt u n d id f
      (subst (IsDead id) (sym (with_receipt-messages o fresh db)) dead)

pub consume_message-messages :
    (db : Db) (now : Date) (message_id u : Uuid) (d : Done Consumed)
    → consume_message db now message_id u ≡ ok d
    → d.db.messages ≡ db.messages
unfolding consume_message consume_stored consume_now
consume_message-messages db now message_id u d h = ground arith

pub edit_message-IsDead :
    (db : Db) (now : Date) (message_id u : Uuid) (content : Text) (d : Done (Option Message))
    (id : Uuid)
    → edit_message db now message_id u content ≡ ok d
    → IsDead id db.messages
    → IsDead id d.db.messages
unfolding edit_message
edit_message-IsDead db now message_id u content d id h dead =
    let (m, a, f) = >>=-eq-ok (check_edit db now message_id u) _ h in
    let edit = λ (x : Message). record x { content = some content; is_edited = true } in
    let same : update_where (message_is message_id) edit db.messages ≡ d.db.messages =
      ground arith in
    subst (IsDead id) same
      (All-update (IsNotLive id) (message_is message_id) edit db.messages (λ x t k. k) dead)

pub recall_message-IsDead :
    (db : Db) (now : Date) (message_id u : Uuid) (d : Done (Unit {0})) (id : Uuid)
    → recall_message db now message_id u ≡ ok d
    → IsDead id db.messages
    → IsDead id d.db.messages
unfolding recall_message
recall_message-IsDead db now message_id u d id h dead =
    let (m, a, f) = >>=-eq-ok (check_recall db now message_id u) _ h in
    let recall = λ (x : Message). record x { is_recalled = true } in
    let same : update_where (message_is message_id) recall db.messages ≡ d.db.messages =
      ground arith in
    subst (IsDead id) same
      (All-update (IsNotLive id) (message_is message_id) recall db.messages (λ x t k. k) dead)

pub update_original_file-IsDead :
    (db : Db) (message_id u : Uuid) (url : Text) (d : Done (Option Message)) (id : Uuid)
    → update_original_file db message_id u url ≡ ok d
    → IsDead id db.messages
    → IsDead id d.db.messages
unfolding update_original_file
update_original_file-IsDead db message_id u url d id h dead =
    let (m, a, f) = >>=-eq-ok (check_original db message_id u) _ h in
    let complete = λ (x : Message). record x { file_original_url = some url } in
    let same : update_where (message_is message_id) complete db.messages ≡ d.db.messages =
      ground arith in
    subst (IsDead id) same
      (All-update (IsNotLive id) (message_is message_id) complete db.messages (λ x t k. k) dead)

mark_batch-IsDead :
    (reason : DestroyReason) (rule : Message → Bool) (db : Db) (now : Date) (id : Uuid)
    → IsDead id db.messages
    → IsDead id (mark_batch reason rule db now).db.messages
unfolding mark_batch mark
mark_batch-IsDead reason rule db now id dead =
    All-update (IsNotLive id) _ (mark reason now) db.messages (λ x t k. ground arith) dead

pub mark_destroyed-IsDead :
    (db : Db) (now : Date) (id : Uuid)
    → IsDead id db.messages
    → IsDead id (mark_destroyed db now).db.messages
unfolding mark_destroyed
mark_destroyed-IsDead db now id dead =
    let first = mark_batch fallback_expired (is_expired now) db now in
    mark_batch-IsDead all_read (is_read_out first.db.receipts now) first.db now id
      (mark_batch-IsDead fallback_expired (is_expired now) db now id dead)
