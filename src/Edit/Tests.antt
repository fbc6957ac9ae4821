-- ===== src/Edit/Tests.antt =====
-- User 1 edits, recalls and completes the answer of the fixtures' chat, a plain text.
use fenxin.Prelude.{ℕ, ◌≡◌, refl, ◌≢◌, arith, true, Option, [], ◌∷◌, find_one, update_where}
use fenxin.Entities.{Uuid, Text, Message, Db, message_is}
use fenxin.Result.{ok, Done}
use fenxin.Env.{Env}
use fenxin.Fixtures.{reply_row, destroyed_db}
use fenxin.Reveal.{Revealed, reveal_message}
use fenxin.Consume.{Consumed, consume_message}
use fenxin.Edit.{edit_message, recall_message, update_original_file}
use fenxin.Edit.Rights.{IsEditable, recall_message-final}

abbrev new_text : Text
new_text = b'n' ∷ b'o' ∷ []

editable : IsEditable destroyed_db 5000 8 1 reply_row
unfolding find_one
editable = record {
  stored = refl;
  live = refl;
  own = refl;
  not_recalled = refl;
  plain = refl;
  recent = omega arith;
}

abbrev recalled_db : Db
recalled_db = record destroyed_db {
  messages =
      update_where (message_is 8) (λ m. record m { is_recalled = true }) destroyed_db.messages;
}

recalling : (d : Done (Unit {0})) × (recall_message destroyed_db 5000 8 1 ≡ ok d)
unfolding recall_message find_one
recalling = (_, refl)

recall_message-final_example :
    ((text : Text) (r : Done (Option Message)) → edit_message recalling.0.db 6000 8 1 text ≢ ok r)
    × ((env : Env) (uuid : Uuid) (n : Option ℕ) (r : Done Revealed)
        → reveal_message env uuid recalling.0.db 6000 8 1 n ≢ ok r)
    × ((r : Done Consumed) → consume_message recalling.0.db 6000 8 1 ≢ ok r)
    × ((url : Text) (r : Done (Option Message))
        → update_original_file recalling.0.db 8 1 url ≢ ok r)
recall_message-final_example =
    recall_message-final destroyed_db 5000 8 1 recalling.0 recalling.1 6000 1

completing : (d : Done (Option Message)) × (update_original_file destroyed_db 8 1 new_text ≡ ok d)
unfolding update_original_file find_one
completing = (_, refl)
