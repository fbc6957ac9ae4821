-- ===== src/Read/Tests.antt =====
-- Reading in the fixtures' chat: message 7 burns, message 8 is a plain answer by user 1.
use fenxin.Prelude.{ℕ, ◌≡◌, refl, ◌⊎◌, false, none, some, [], ◌∷◌, find_one, exists_where, has}
use fenxin.Entities.{MessageReceipt, Db, receipt_is}
use fenxin.Result.{ok, err, bad_request, ids_empty, Done}
use fenxin.Fixtures.{burn_row, burn_receipt, burn_db, reply_row}
use fenxin.Read.{set_read, mark_as_read, mark_messages_read}
use fenxin.Read.Marks.{IsReadable, mark_as_read-IsReadable}

abbrev reply_receipt : MessageReceipt
reply_receipt = record (burn_receipt 14 2) { message_id = 8 }

abbrev chat : Db
chat = record burn_db {
  messages = burn_row ∷ reply_row ∷ [];
  receipts = burn_receipt 11 1 ∷ burn_receipt 12 2 ∷ reply_receipt ∷ [];
}

reading : (d : Done (Unit {0})) × (mark_as_read chat 3000 50 2 none ≡ ok d)
unfolding mark_as_read find_one
reading = (_, refl)

reading-receipts :
    reading.0.db.receipts ≡ burn_receipt 11 1 ∷ burn_receipt 12 2 ∷ set_read 3000 reply_receipt ∷ []
unfolding reading mark_as_read find_one exists_where
reading-receipts = refl

marking : (d : Done ℕ) × (mark_messages_read chat 3000 50 2 (some 8 ∷ none ∷ some 8 ∷ []) ≡ ok d)
unfolding mark_messages_read find_one
marking = (_, refl)

marking-value : marking.0.value ≡ 1
unfolding marking mark_messages_read find_one exists_where has
marking-value = refl

no_ids : mark_messages_read chat 3000 50 2 (none ∷ []) ≡ err (bad_request ids_empty)
unfolding mark_messages_read find_one
no_ids = refl

mark_as_read-IsReadable_example :
    (r' : MessageReceipt) × (find_one (receipt_is 14) reading.0.db.receipts ≡ some r')
    × ((r' ≡ reply_receipt)
        ⊎ ((r' ≡ set_read 3000 reply_receipt)
            × (reply_receipt.user_id ≡ 2)
            × (reply_receipt.is_read ≡ false)
            × IsReadable chat 50 reply_receipt))
unfolding find_one
mark_as_read-IsReadable_example =
    mark_as_read-IsReadable chat 3000 50 2 none reading.0 14 reply_receipt reading.1 refl
