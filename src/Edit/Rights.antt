-- ===== src/Edit/Rights.antt =====
-- Who may edit, recall and complete a message, and what a recall ends.
use fenxin.Prelude.{
  ℕ, ◌+◌, ◌≤◌, ◌≡◌, refl, ◌↔◌, ◌≢◌, true, false, Option, some, [], ◌∷◌, arith, find_one,
  update_where, find_one-passes, find_one-update_found,
}
use fenxin.Entities.{Uuid, Date, Text, is_truthy, is_nonzero, Message, Db, message_is}
use fenxin.Result.{ok, err, bad_request, original_exists, >>=-eq-ok, message_edited, emit, Done}
use fenxin.Env.{Env}
use fenxin.Send.{get_member_user_ids}
use fenxin.Reveal.{Revealed, reveal_message}
use fenxin.Reveal.Checks.{reveal_message-eq-ok}
use fenxin.Consume.{Consumed, consume_message}
use fenxin.Edit.{
  edit_window, check_edit, edit_message, check_recall, recall_message, check_original,
  update_original_file,
}

-- A live, plain message of the user, at most 48 hours old.
pub record IsEditable (db : Db) (now : Date) (message_id user_id : Uuid) (m : Message)
    : Type 0 where
  pub stored : find_one (message_is message_id) db.messages ≡ some m
  pub live : m.is_destroyed ≡ false
  pub own : m.sender_id ≡ user_id
  pub not_recalled : m.is_recalled ≡ false
  pub plain : is_nonzero m.burn_ttl_seconds ≡ false
  pub recent : now ≤ m.created_at + edit_window

check_edit_sound :
    (db : Db) (now : Date) (message_id user_id : Uuid) (m : Message)
    → check_edit db now message_id user_id ≡ ok m
    → IsEditable db now message_id user_id m
unfolding check_edit
check_edit_sound db now message_id user_id m h = record {
  stored = ground arith;
  live = ground arith;
  own = ground arith;
  not_recalled = ground arith;
  plain = ground arith;
  recent = ground arith;
}

check_edit_complete :
    (db : Db) (now : Date) (message_id user_id : Uuid) (m : Message)
    → IsEditable db now message_id user_id m
    → check_edit db now message_id user_id ≡ ok m
unfolding check_edit
check_edit_complete db now message_id user_id m a = ground arith

-- An edit of an editable message replaces the content of its row and marks it as edited, returns
-- that row and sends it to the members of the conversation; no other table changes.
pub edit_message-effect :
    (db : Db) (now : Date) (message_id user_id : Uuid) (text : Text) (m : Message)
    → IsEditable db now message_id user_id m
    → let row = record m { content = some text; is_edited = true } in
      (db' : Db) × (edit_message db now message_id user_id text
        ≡ ok (record {
          value = some row;
          db = db';
          effects =
              emit (get_member_user_ids db m.conversation_id) (message_edited m.conversation_id row)
              ∷ [];
        }))
      × (find_one (message_is message_id) db'.messages ≡ some row)
      × (db' ≡ record db { messages = db'.messages })
unfolding edit_message
edit_message-effect db now message_id user_id text m a =
    let edit = λ (x : Message). record x { content = some text; is_edited = true } in
    let messages = update_where (message_is message_id) edit db.messages in
    let found =
      find_one-update_found (message_is message_id) (message_is message_id) edit db.messages m
        (λ x. refl) a.stored (find_one-passes (message_is message_id) db.messages m a.stored) in
    (
      record db { messages = messages },
      ground (arith, check_edit_complete db now message_id user_id m a, found),
      found,
      refl,
    )

-- An edit succeeds exactly on an editable message: a live message of the user that is neither
-- recalled nor a burn message and is at most 48 hours old.
pub edit_message_iff :
    (db : Db) (now : Date) (message_id user_id : Uuid) (text : Text)
    → ((d : Done (Option Message)) × (edit_message db now message_id user_id text ≡ ok d))
      ↔ ((m : Message) × IsEditable db now message_id user_id m)
unfolding edit_message
edit_message_iff db now message_id user_id text = (
  λ (d, h).
      let (m, e, f) = >>=-eq-ok (check_edit db now message_id user_id) _ h in
      (m, check_edit_sound db now message_id user_id m e),
  λ (m, a). let (db', e, f, g) = edit_message-effect db now message_id user_id text m a in (_, e),
)

check_recall-stored :
    (db : Db) (now : Date) (message_id user_id : Uuid) (m : Message)
    → check_recall db now message_id user_id ≡ ok m
    → find_one (message_is message_id) db.messages ≡ some m
unfolding check_recall
check_recall-stored db now message_id user_id m h = ground arith

-- A stored message that is recalled.
abbrev pub IsRecalled : Db → Uuid → Type 0
IsRecalled db message_id =
    (m : Message) × (find_one (message_is message_id) db.messages ≡ some m) × (m.is_recalled ≡ true)

recall_message-IsRecalled :
    (db : Db) (now : Date) (message_id user_id : Uuid) (d : Done (Unit {0}))
    → recall_message db now message_id user_id ≡ ok d
    → IsRecalled d.db message_id
unfolding recall_message
recall_message-IsRecalled db now message_id user_id d h =
    let (m, e, f) = >>=-eq-ok (check_recall db now message_id user_id) _ h in
    let stored = check_recall-stored db now message_id user_id m e in
    let recall = λ (x : Message). record x { is_recalled = true } in
    let found =
      find_one-update_found (message_is message_id) (message_is message_id) recall db.messages m
        (λ x. refl) stored (find_one-passes (message_is message_id) db.messages m stored) in
    (recall m, ground (arith, found), refl)

recalled-not_edited :
    (db : Db) (now : Date) (message_id user_id : Uuid) (text : Text) (d : Done (Option Message))
    → IsRecalled db message_id
    → edit_message db now message_id user_id text ≢ ok d
unfolding edit_message check_edit
recalled-not_edited db now message_id user_id text d (m, e, r) h = ground arith

recalled-not_opened :
    (env : Env) (uuid : Uuid) (db : Db) (now : Date) (message_id user_id : Uuid) (n : Option ℕ)
    (d : Done Revealed)
    → IsRecalled db message_id
    → reveal_message env uuid db now message_id user_id n ≢ ok d
recalled-not_opened env uuid db now message_id user_id n d (m, e, r) h =
    let (x, a, f) = reveal_message-eq-ok env uuid db now message_id user_id n d h in
    cc (e, r, a.stored, a.not_recalled)

recalled-not_consumed :
    (db : Db) (now : Date) (message_id user_id : Uuid) (d : Done Consumed)
    → IsRecalled db message_id
    → consume_message db now message_id user_id ≢ ok d
unfolding consume_message
recalled-not_consumed db now message_id user_id d (m, e, r) h = ground arith

recalled-not_completed :
    (db : Db) (message_id user_id : Uuid) (url : Text) (d : Done (Option Message))
    → IsRecalled db message_id
    → update_original_file db message_id user_id url ≢ ok d
unfolding update_original_file check_original
recalled-not_completed db message_id user_id url d (m, e, r) h = ground arith

-- After a recall nobody can edit the message, open it, consume it or add its original file.
pub recall_message-final :
    (db : Db) (now : Date) (message_id user_id : Uuid) (d : Done (Unit {0}))
    → recall_message db now message_id user_id ≡ ok d
    → (later : Date) (u : Uuid)
    → ((text : Text) (r : Done (Option Message)) → edit_message d.db later message_id u text ≢ ok r)
      × ((env : Env) (uuid : Uuid) (n : Option ℕ) (r : Done Revealed)
          → reveal_message env uuid d.db later message_id u n ≢ ok r)
      × ((r : Done Consumed) → consume_message d.db later message_id u ≢ ok r)
      × ((url : Text) (r : Done (Option Message))
          → update_original_file d.db message_id u url ≢ ok r)
recall_message-final db now message_id user_id d h later u =
    let recalled = recall_message-IsRecalled db now message_id user_id d h in
    (
      λ text r. recalled-not_edited d.db later message_id u text r recalled,
      λ env uuid n r. recalled-not_opened env uuid d.db later message_id u n r recalled,
      λ r. recalled-not_consumed d.db later message_id u r recalled,
      λ url r. recalled-not_completed d.db message_id u url r recalled,
    )

check_original-stored :
    (db : Db) (message_id user_id : Uuid) (m : Message)
    → check_original db message_id user_id ≡ ok m
    → (find_one (message_is message_id) db.messages ≡ some m)
      × (m.sender_id ≡ user_id)
      × (m.is_recalled ≡ false)
      × (m.is_destroyed ≡ false)
unfolding check_original
check_original-stored db message_id user_id m h =
    (ground arith, ground arith, ground arith, ground arith)

-- The original file of a message is added once: after a success with a non-empty address each
-- further attempt of the sender is refused because the original is there.
pub update_original_file-once :
    (db : Db) (message_id user_id : Uuid) (url : Text) (d : Done (Option Message))
    → update_original_file db message_id user_id url ≡ ok d
    → is_truthy (some url) ≡ true
    → (url' : Text)
    → update_original_file d.db message_id user_id url' ≡ err (bad_request original_exists)
unfolding update_original_file check_original
update_original_file-once db message_id user_id url d h t url' =
    let (m, e, f) = >>=-eq-ok (check_original db message_id user_id) _ h in
    let (stored, own, live, kept) = check_original-stored db message_id user_id m e in
    let complete = λ (x : Message). record x { file_original_url = some url } in
    let found =
      find_one-update_found (message_is message_id) (message_is message_id) complete db.messages m
        (λ x. refl) stored (find_one-passes (message_is message_id) db.messages m stored) in
    ground (arith, found)
