-- ===== src/Scheduler/Tests.antt =====
-- The scheduler on the fixtures' chat: user 2 has opened the message until 52000.
use fenxin.Prelude.{◌≡◌, refl, arith, some, [], ◌∷◌, has, find_one, select_where, exists_where}
use fenxin.Entities.{Message, message_is, all_read}
use fenxin.Fixtures.{burn_row, opened_db, destroyed_row}
use fenxin.Scheduler.{is_read_out, mark, mark_batch, mark_destroyed}
use fenxin.Scheduler.Rules.{
  IsMarking, mark_batch_complete, mark_destroyed-IsMarking, mark_destroyed-spares,
}

before_end : (mark_destroyed opened_db 51999).db ≡ opened_db
unfolding mark_destroyed find_one exists_where select_where has
before_end = refl

at_end : (mark_destroyed opened_db 60000).db.messages ≡ destroyed_row ∷ []
unfolding mark_destroyed find_one exists_where select_where has
at_end = refl

mark_destroyed-IsMarking_example :
    (m' : Message) × (find_one (message_is 7) (mark_destroyed opened_db 60000).db.messages
      ≡ some m')
    × IsMarking opened_db 60000 burn_row m'
    × ((mark_destroyed opened_db 60000).db
        ≡ record opened_db { messages = (mark_destroyed opened_db 60000).db.messages })
unfolding find_one has
mark_destroyed-IsMarking_example =
    mark_destroyed-IsMarking opened_db 60000 7 burn_row (refl, tt) refl

mark_destroyed-spares_example :
    find_one (message_is 7) (mark_destroyed opened_db 51999).db.messages ≡ some burn_row
unfolding find_one has exists_where
mark_destroyed-spares_example =
    mark_destroyed-spares opened_db 51999 7 burn_row (refl, tt) refl refl refl

mark_batch_complete_example :
    find_one
      (message_is 7)
      (mark_batch all_read (is_read_out opened_db.receipts 60000) opened_db 60000).db.messages
    ≡ some (mark all_read 60000 burn_row)
unfolding find_one exists_where select_where is_read_out
mark_batch_complete_example =
    mark_batch_complete all_read (is_read_out opened_db.receipts 60000) opened_db 60000 7 burn_row
      refl (omega arith) refl refl
