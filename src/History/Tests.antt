-- ===== src/History/Tests.antt =====
-- Pages of the fixtures' chat for user 2.
use fenxin.Prelude.{
  ◌≡◌, refl, Bool, true, false, none, some, [], ◌∷◌, inl, find_one, select_where, has,
}
use fenxin.Entities.{ConversationMember, member_is, Db, Message, voice, all_read}
use fenxin.Result.{ok, MessageView, plain, revealed, tombstone}
use fenxin.Burn.{effective_remain_seconds}
use fenxin.Fixtures.{burn_row, reply_row, opened_db, destroyed_db}
use fenxin.History.{ListParams, list_messages}
use fenxin.History.Safe.{IsSafe, list_messages-IsSafe}

abbrev query : Bool → ListParams
query include_destroyed = record {
  conversation_id = 50;
  user_id = 2;
  before = none;
  limit = none;
  include_destroyed = include_destroyed;
}

abbrev later_row : Message
later_row = record reply_row { created_at = 1500 }

abbrev chat : Db
chat = record opened_db { messages = burn_row ∷ later_row ∷ [] }

opened :
    list_messages chat 3000 (query false)
    ≡ ok (revealed burn_row (some 52000) 49 ∷ plain later_row ∷ [])
unfolding list_messages find_one select_where has effective_remain_seconds
opened = refl

abbrev gone : MessageView
gone = tombstone 7 50 1 voice 1000 (some 60000) (some all_read)

-- The row that is marked comes back as a tombstone, in both modes.
marked : list_messages destroyed_db 61000 (query false) ≡ ok (plain reply_row ∷ gone ∷ [])
unfolding list_messages find_one select_where has
marked = refl

included : list_messages destroyed_db 61000 (query true) ≡ ok (plain reply_row ∷ gone ∷ [])
unfolding list_messages find_one select_where has
included = refl

list_messages-IsSafe_example :
    ((m : ConversationMember) × (find_one (member_is 50 2) chat.members ≡ some m))
    × IsSafe chat 50 2 3000 (revealed burn_row (some 52000) 49)
list_messages-IsSafe_example =
    list_messages-IsSafe chat 3000 (query false)
      (revealed burn_row (some 52000) 49 ∷ plain later_row ∷ []) (revealed burn_row (some 52000) 49)
      opened (inl refl)
