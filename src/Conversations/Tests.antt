-- ===== src/Conversations/Tests.antt =====
-- Private conversations of users 1 and 3, and what their lists show.
use fenxin.Prelude.{◌≡◌, refl, true, Bool, none, [], ◌∷◌, find_one, exists_where, select_where, has}
use fenxin.Entities.{Text, Conversation, Db}
use fenxin.Result.{ok, err, internal, duplicate_key, Done}
use fenxin.Fixtures.{burn_db, chat_row, account}
use fenxin.Group.Members.{GroupParams, new_group}
use fenxin.Group.Ownership.{dissolve_group_by_owner}
use fenxin.Conversations.{
  get_or_create_private, ConversationView, list_my_conversations, unread_count, ContactQuery,
}
use fenxin.Conversations.Private.{get_or_create_private-again}

abbrev base : Db
base = record burn_db { users = account 1 ∷ account 2 ∷ account 3 ∷ [] }

opened : (d : Done Conversation) × ((get_or_create_private 80 base 1000 1 3).outcome ≡ ok d)
unfolding get_or_create_private find_one exists_where select_where has
opened = (_, refl)

get_or_create_private-again_example :
    (conv : Conversation) × (conv.id ≡ opened.0.value.id)
    × ((get_or_create_private 81 opened.0.db 2000 1 3).outcome
        ≡ ok (record { value = conv; db = opened.0.db; effects = [] }))
    × ((get_or_create_private 81 opened.0.db 2000 3 1).outcome
        ≡ ok (record { value = conv; db = opened.0.db; effects = [] }))
unfolding exists_where find_one
get_or_create_private-again_example =
    get_or_create_private-again 80 base 1000 1 3 opened.0 81 2000 refl refl opened.1

-- User 1 who asks for a conversation with user 1 gets the one with user 2, and user 3, who has
-- none, gets an error after the row has been stored.
self_gets_other :
    (get_or_create_private 80 base 1000 1 1).outcome
    ≡ ok (record { value = chat_row; db = base; effects = [] })
unfolding get_or_create_private find_one exists_where select_where has
self_gets_other = refl

self_fails : (get_or_create_private 80 base 1000 3 3).outcome ≡ err (internal duplicate_key)
unfolding get_or_create_private find_one exists_where select_where has
self_fails = refl

shown : (v : ConversationView) × (list_my_conversations base 1000 2 ≡ v ∷ [])
unfolding list_my_conversations find_one select_where has
shown = (_, refl)

abbrev plan : GroupParams
plan = record {
  name = b'G' ∷ [];
  description = none;
  avatar_url = none;
  member_ids = [];
  owner_id = 1;
  is_channel = none;
}

-- The fixtures' conversation as a group of user 1, with an unread message for user 2.
abbrev group_db : Db
group_db = record base { conversations = new_group 50 0 plan ∷ [] }

burning : (d : Done (Unit {0})) × (dissolve_group_by_owner group_db 3000 50 1 ≡ ok d)
unfolding dissolve_group_by_owner find_one select_where new_group
burning = (_, refl)

unread_before : unread_count group_db 2000 2 50 ≡ 1
unfolding unread_count find_one
unread_before = refl

abbrev query : ContactQuery
query = record { user_id = 1; keyword = none; department = none; page = none; page_size = none }

abbrev any_text : Text → Text → Bool
any_text p t = true
