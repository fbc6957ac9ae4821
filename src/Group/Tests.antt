-- ===== src/Group/Tests.antt =====
-- A group of user 1 with user 2, in the fixtures' database: creation, change and dissolution.
use fenxin.Prelude.{
  ◌≡◌, ◌≢◌, refl, ◌⊎◌, arith, false, not, ◌==◌, if◌then◌else◌, IsDistinct, delete_where, none, some,
  [], ◌∷◌, find_one, exists_where, count_where, select_where, has,
}
use fenxin.Entities.{
  Uuid, AppUser, admin, disabled, Message, Conversation, Db, conversation_is, message_is,
  in_conversation,
}
use fenxin.Result.{ok, err, internal, forbidden, duplicate_key, owner_leaves, Done}
use fenxin.Fixtures.{account, note_to, ids_from, default_env, chat_db, chat_member, reply_row}
use fenxin.Send.{get_member_user_ids, SendParams, send_message}
use fenxin.Reveal.{Revealed, reveal_message}
use fenxin.Group.{get_membership}
use fenxin.Group.Members.{
  GroupParams, all_member_ids, new_group, create_group, add_members, remove_member, GroupUpdates,
  update_group_info,
}
use fenxin.Group.Ownership.{
  is_owned_group, dissolve_group, dissolve_group_by_owner, transfer_ownership,
  dissolve_groups_on_account_delete, GroupRun, completes, rolled_back, is_complete, is_committed,
  Cascade,
}
use fenxin.Group.Listing.{GroupMember, get_group_members}
use fenxin.Group.Owned.{IsGroup}
use fenxin.Group.Membership.{remove_member-IsGroup}
use fenxin.Group.Transfer.{transfer_ownership-IsGroup}
use fenxin.Group.Created.{create_group-IsGroup, create_group-fails}
use fenxin.Group.Dissolved.{undated, is_spared, is_found_in, dissolve_group_by_owner-burns}
use fenxin.Group.Cascade.{
  conversation_ids, is_kept_group, is_left, dissolve_groups_on_account_delete-burns,
}

abbrev plan : GroupParams
plan = record {
  name = b'G' ∷ [];
  description = none;
  avatar_url = none;
  member_ids = 2 ∷ 1 ∷ [];
  owner_id = 1;
  is_channel = none;
}

creating : (d : Done Conversation) × ((create_group 60 chat_db 1000 plan).outcome ≡ ok d)
unfolding create_group select_where exists_where
creating = (_, refl)

creating-IsGroup : IsGroup creating.0.db 60 1
unfolding exists_where
creating-IsGroup = create_group-IsGroup 60 chat_db 1000 plan creating.0 refl refl creating.1

abbrev repeated : GroupParams
repeated = record plan { member_ids = 2 ∷ 2 ∷ [] }

create_group-fails_example :
    (¬ IsDistinct (all_member_ids repeated))
    × (internal duplicate_key ≡ internal duplicate_key)
    × (find_one (conversation_is 60) (create_group 60 chat_db 1000 repeated).left.conversations
        ≡ some (new_group 60 1000 repeated))
    × (exists_where (in_conversation 60) (create_group 60 chat_db 1000 repeated).left.members
        ≡ false)
unfolding create_group select_where exists_where
create_group-fails_example =
    create_group-fails 60 chat_db 1000 repeated (internal duplicate_key) refl refl refl

adding : (d : Done (Unit {0})) × (add_members creating.0.db 2000 60 (3 ∷ 2 ∷ []) 1 ≡ ok d)
unfolding creating create_group add_members find_one select_where exists_where has
adding = (_, refl)

leaving : (d : Done (Unit {0})) × (remove_member creating.0.db 60 2 2 none ≡ ok d)
unfolding creating create_group remove_member find_one select_where exists_where has
leaving = (_, refl)

owner_stays : remove_member creating.0.db 60 1 1 (some admin) ≡ err (forbidden owner_leaves)
unfolding creating create_group remove_member find_one select_where exists_where has
owner_stays = refl

remove_member-IsGroup_example :
    (◌≢◌ {A = Uuid} 2 1)
    × (get_membership leaving.0.db 60 2 ≡ none)
    × IsGroup leaving.0.db 60 1
    × (get_member_user_ids leaving.0.db 60
        ≡ delete_where (λ u. u == 2) (get_member_user_ids creating.0.db 60))
    × (delete_where (in_conversation 60) leaving.0.db.members
        ≡ delete_where (in_conversation 60) creating.0.db.members)
remove_member-IsGroup_example =
    remove_member-IsGroup creating.0.db 60 1 2 2 none leaving.0 creating-IsGroup leaving.1

abbrev renamed : GroupUpdates
renamed = record { name = some (b'H' ∷ []); description = none; avatar_url = none }

renaming : (d : Done Conversation) × (update_group_info creating.0.db 60 renamed 1 ≡ ok d)
unfolding creating create_group update_group_info find_one select_where exists_where has
renaming = (_, refl)

handing_over : (d : Done (Unit {0})) × (transfer_ownership creating.0.db 60 1 2 ≡ ok d)
unfolding creating create_group transfer_ownership find_one select_where exists_where count_where
    has
handing_over = (_, refl)

transfer_ownership-IsGroup_example :
    (◌≡◌ {A = Uuid} 1 1)
    × (◌≢◌ {A = Uuid} 2 1)
    × IsGroup handing_over.0.db 60 2
    × (get_member_user_ids handing_over.0.db 60 ≡ get_member_user_ids creating.0.db 60)
    × (delete_where (in_conversation 60) handing_over.0.db.members
        ≡ delete_where (in_conversation 60) creating.0.db.members)
    × (delete_where (conversation_is 60) handing_over.0.db.conversations
        ≡ delete_where (conversation_is 60) creating.0.db.conversations)
transfer_ownership-IsGroup_example =
    transfer_ownership-IsGroup creating.0.db 60 1 1 2 handing_over.0 creating-IsGroup handing_over.1

-- The group with a message, and what is sent to it.
abbrev group_row_7 : Message
group_row_7 = record reply_row { conversation_id = 60 }

abbrev with_message : Db → Db
with_message db = record db { messages = group_row_7 ∷ [] }

abbrev note_60 : SendParams
note_60 = note_to 60

sending : (d : Done Message) × (send_message default_env ids_from creating.0.db 1500 note_60 ≡ ok d)
unfolding creating create_group send_message find_one select_where exists_where has
sending = (_, refl)

closing : (d : Done (Unit {0})) × (dissolve_group (with_message creating.0.db) 3000 60 9 ≡ ok d)
unfolding creating create_group dissolve_group find_one select_where exists_where
closing = (_, refl)

burning :
    (d : Done (Unit {0})) × (dissolve_group_by_owner (with_message creating.0.db) 3000 60 1 ≡ ok d)
unfolding creating create_group dissolve_group_by_owner find_one select_where exists_where
burning = (_, refl)

abbrev no_opening : Done Revealed
no_opening = record {
  value = record {
    message = group_row_7;
    burn_at = none;
    remain_seconds = 0;
    media_burn_pending = false;
    consume_deadline = none;
  };
  db = chat_db;
  effects = [];
}

dissolve_group_by_owner-burns_example :
    (send_message default_env ids_from burning.0.db 4000 note_60 ≢ ok sending.0)
    × (exists_where (is_spared 60 4000) burning.0.db.messages ≡ false)
    × (undated burning.0.db.messages ≡ undated (with_message creating.0.db).messages)
    × ((is_found_in 60 (find_one (message_is 8) burning.0.db.messages) ≡ false)
        ⊎ (reveal_message default_env 99 burning.0.db 4000 8 2 none ≢ ok no_opening))
dissolve_group_by_owner-burns_example =
    dissolve_group_by_owner-burns (with_message creating.0.db) 3000 60 1 burning.0 4000 default_env
      ids_from note_60 sending.0 99 8 2 none no_opening burning.1 (omega arith) refl

abbrev owned_row : Conversation
owned_row = record (new_group 60 1000 plan) { member_count = 2 }

-- The second group's transaction is rolled back.
abbrev owned_db : Db
owned_db = record (with_message chat_db) {
  conversations = owned_row ∷ record owned_row { id = 61 } ∷ [];
}

abbrev one_fails : Uuid → GroupRun
one_fails id = if id == 61 then rolled_back else completes

abbrev cascading : Done Cascade
cascading = dissolve_groups_on_account_delete one_fails owned_db 3000 1 1

dissolve_groups_on_account_delete-burns_example :
    (exists_where (is_kept_group one_fails 1) cascading.db.conversations ≡ false)
    × (exists_where
          (is_left one_fails
            (conversation_ids (select_where (is_owned_group 1) owned_db.conversations))
            4000)
          cascading.db.messages
        ≡ false)
    × (undated cascading.db.messages ≡ undated owned_db.messages)
    × (select_where (λ c. not (is_committed (one_fails c.id))) cascading.db.conversations
        ≡ select_where (λ c. not (is_committed (one_fails c.id))) owned_db.conversations)
    × (select_where (λ m. not (is_committed (one_fails m.conversation_id))) cascading.db.messages
        ≡ select_where (λ m. not (is_committed (one_fails m.conversation_id))) owned_db.messages)
    × (cascading.value.dissolved
        ≡ count_where
            (λ c. is_complete (one_fails c.id))
            (select_where (is_owned_group 1) owned_db.conversations))
dissolve_groups_on_account_delete-burns_example =
    dissolve_groups_on_account_delete-burns one_fails owned_db 3000 1 1 4000 (omega arith)

one_of_two : cascading.value ≡ record { total = 2; dissolved = 1 }
unfolding dissolve_groups_on_account_delete select_where is_owned_group new_group
one_of_two = refl

abbrev left_user : AppUser
left_user = record (account 2) { status = disabled }

abbrev users_db : Db
users_db = record chat_db { users = account 1 ∷ left_user ∷ [] }

abbrev listed : GroupMember
listed = record { row = chat_member 1; user_display_name = b'A' ∷ []; user_avatar_url = none }

listing : get_group_members users_db 50 1 none ≡ ok (listed ∷ [])
unfolding get_group_members find_one select_where
listing = refl
