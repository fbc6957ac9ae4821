-- ===== src/Conversations.antt =====
-- src/modules/conversation/conversation.service.ts and src/modules/contact/contact.service.ts:
-- private conversations, the list of conversations with the unread messages, and the directory.
-- MySQL's LIKE is the parameter `like`, and its order of texts the parameter `text_before`.
pub mod Private
pub mod Listed
mod Tests
use fenxin.Prelude.{
  ℕ, ◌+◌, ◌-◌, ◌*◌, Bool, true, false, not, ◌&&◌, ◌||◌, Option, none, some, List, [], ◌∷◌, ◌++◌,
  map, ◌==◌, ltb, leb, length, take, or_default, drop, has, is_some, if◌then◌else◌, find_one,
  select_where, count_where, exists_where, order_by,
}
use fenxin.Entities.{
  Uuid, Date, Text, is_truthy, same_text, AppUser, is_active, private, visible, Conversation,
  ConversationMember, member, Message, MessageReceipt, Db, is_private, conversation_is, member_is,
  in_conversation, message_is, user_is,
}
use fenxin.Result.{
  Result, ok, err, forbidden, not_found, account_missing, access_denied, conversation_missing,
  ◌>>=◌, ◌>>◌, reject, require, or_throw, by_created, Done, Outcome,
}
use fenxin.Group.{new_member, save_members, updated_event}
use fenxin.Group.Members.{Attempt, set_member_count}
use fenxin.Auth.{SafeUser, sanitize_user}

-- The row that `save` stores, with the columns' defaults.
unfoldable pub new_private : Uuid → Date → Conversation
new_private id now = record {
  id = id;
  type = private;
  name = none;
  description = none;
  avatar_url = none;
  owner_id = none;
  is_channel = false;
  visibility = visible;
  member_count = 0;
  last_message_at = none;
  dissolved_at = none;
  dissolved_by = none;
  created_at = now;
}

abbrev pub of_member : Uuid → ConversationMember → Bool
of_member user_id m = m.user_id == user_id

unfoldable pub conversation_ids : Db → Uuid → List Uuid
unfolding select_where
conversation_ids db user_id =
    map (λ (m : ConversationMember). m.conversation_id)
      (select_where (of_member user_id) db.members)

unfoldable pub common_ids : Db → Uuid → Uuid → List Uuid
unfolding conversation_ids has select_where
common_ids db user_id_1 user_id_2 =
    select_where (λ id. has id (conversation_ids db user_id_2)) (conversation_ids db user_id_1)

unfoldable pub common_private : Db → Uuid → Uuid → Option Conversation
unfolding common_ids find_one has
common_private db user_id_1 user_id_2 =
    find_one (λ c. has c.id (common_ids db user_id_1 user_id_2) && is_private c.type)
      db.conversations

abbrev pub with_pair :
    Uuid → Uuid → Uuid → Conversation → Db → Result (List ConversationMember) → Attempt Conversation
with_pair id user_id_1 user_id_2 row db (err e) = record { left = db; outcome = err e }
with_pair id user_id_1 user_id_2 row db (ok members) =
    let db' = record db {
      members = members;
      conversations = set_member_count id 2 db.conversations;
    } in
    record {
      left = db';
      outcome = ok (record {
        value = row;
        db = db';
        effects = updated_event (user_id_1 ∷ user_id_2 ∷ []) id by_created ∷ [];
      });
    }

-- The writes one after the other, without a transaction.
unfoldable pub create_private : Uuid → Db → Date → Uuid → Uuid → Attempt Conversation
unfolding new_private save_members set_member_count
create_private uuid db now user_id_1 user_id_2 =
    let row = new_private uuid now in
    with_pair uuid user_id_1 user_id_2 row
      (record db { conversations = db.conversations ++ row ∷ [] })
      (save_members db.members
        (new_member now uuid member user_id_1 ∷ new_member now uuid member user_id_2 ∷ []))

abbrev pub found_or : Db → Option Conversation → Attempt Conversation → Attempt Conversation
found_or db none created = created
found_or db (some conv) created = record {
  left = db;
  outcome = ok (record { value = conv; db = db; effects = [] });
}

abbrev pub is_active_user : Option AppUser → Bool
is_active_user none = false
is_active_user (some u) = is_active u.status

-- `getOrCreatePrivateConversation`
unfoldable pub get_or_create_private : Uuid → Db → Date → Uuid → Uuid → Attempt Conversation
unfolding find_one common_private create_private
get_or_create_private uuid db now user_id_1 user_id_2 =
    let found =
      found_or db (common_private db user_id_1 user_id_2)
        (create_private uuid db now user_id_1 user_id_2) in
    if is_active_user (find_one (user_is user_id_2) db.users)
    then found
    else record { left = db; outcome = err (not_found account_missing) }

-- A message that a receipt counts for: live and not due.
abbrev pub is_alive : Date → Message → Bool
is_alive now m = not m.is_destroyed && not_due m.destroy_at
  where
    not_due : Option Date → Bool
    not_due none = true
    not_due (some t) = ltb now t

abbrev pub counts_for : Date → Uuid → Option Message → Bool
counts_for now conversation_id none = false
counts_for now conversation_id (some m) = is_alive now m && m.conversation_id == conversation_id

-- An unread receipt of the user for a message of the conversation; the join by the message's key.
unfoldable pub is_unread : Db → Date → Uuid → Uuid → MessageReceipt → Bool
unfolding find_one
is_unread db now user_id conversation_id r =
    r.user_id == user_id
    && not r.is_read
    && counts_for now conversation_id (find_one (message_is r.message_id) db.messages)

unfoldable pub unread_count : Db → Date → Uuid → Uuid → ℕ
unfolding count_where is_unread
unread_count db now user_id conversation_id =
    count_where (is_unread db now user_id conversation_id) db.receipts

pub record ConversationView : Type 0 where
  pub conv : Conversation
  pub unread_count : ℕ
  pub other_user : Option SafeUser

abbrev safe_of : Option AppUser → Option SafeUser
safe_of none = none
safe_of (some u) = some (sanitize_user u)

abbrev first_user : List AppUser → Option ConversationMember → Option SafeUser
first_user users none = none
first_user users (some m) = safe_of (find_one (user_is m.user_id) users)

-- The partner of a private conversation: the first member that is not the user.
unfoldable pub other_user : Db → Uuid → Conversation → Option SafeUser
unfolding find_one sanitize_user
other_user db user_id c =
    if is_private c.type
    then first_user db.users
        (find_one (λ m. in_conversation c.id m && not (m.user_id == user_id)) db.members)
    else none

-- `last_message_at IS NULL ASC, last_message_at DESC`
abbrev pub later_message : Conversation → Conversation → Bool
later_message x y = after x.last_message_at y.last_message_at
  where
    after : Option Date → Option Date → Bool
    after (some a) (some b) = leb b a
    after (some a) none = true
    after none (some b) = false
    after none none = true

abbrev pub is_listed : List Uuid → Conversation → Bool
is_listed ids c = has c.id ids && not (is_some c.dissolved_at)

unfoldable pub conversation_view : Db → Date → Uuid → Conversation → ConversationView
unfolding unread_count other_user
conversation_view db now user_id c = record {
  conv = c;
  unread_count = unread_count db now user_id c.id;
  other_user = other_user db user_id c;
}

unfoldable pub list_my_conversations : Db → Date → Uuid → List ConversationView
unfolding conversation_ids has select_where order_by conversation_view
list_my_conversations db now user_id = map (conversation_view db now user_id) (
    order_by later_message
      (select_where (is_listed (conversation_ids db user_id)) db.conversations))

unfoldable pub get_conversation : Db → Uuid → Uuid → Result Conversation
unfolding find_one
get_conversation db conversation_id user_id = do
  membership ←
      or_throw (find_one (member_is conversation_id user_id) db.members) (forbidden access_denied)
  or_throw (find_one (conversation_is conversation_id) db.conversations)
      (not_found conversation_missing)

pub record ContactQuery : Type 0 where
  pub user_id : Uuid
  pub keyword : Option Text
  pub department : Option Text
  pub page : Option ℕ
  pub page_size : Option ℕ

abbrev pub is_contact : Uuid → AppUser → Bool
is_contact user_id u = is_active u.status && not (is_some u.deleted_at) && not (u.id == user_id)

-- `phone = keyword OR display_name LIKE '%keyword%'`
unfoldable pub has_keyword : (Text → Text → Bool) → Text → AppUser → Bool
unfolding same_text
has_keyword like kw u = same_text u.phone kw || like (b'%' ∷ kw ++ b'%' ∷ []) u.display_name

abbrev in_department : Option Text → Text → Bool
in_department none d = false
in_department (some x) d = same_text x d

unfoldable pub is_queried_contact : (Text → Text → Bool) → ContactQuery → AppUser → Bool
unfolding has_keyword same_text
is_queried_contact like q u =
    is_contact q.user_id u
    && (not (is_truthy q.keyword)
        || elim q.keyword [ none ↦ true | some kw ↦ has_keyword like kw u ])
    && (not (is_truthy q.department)
        || elim q.department [ none ↦ true | some d ↦ in_department u.department d ])

-- The page and the number of contacts over all pages.
unfoldable pub list_contacts :
    (like text_before : Text → Text → Bool) → Db → ContactQuery → List SafeUser × ℕ
unfolding is_queried_contact select_where order_by sanitize_user
list_contacts like text_before db q =
    let page_size = or_default q.page_size 50 in
    let users = select_where (is_queried_contact like q) db.users in
    (
      map sanitize_user (
          take page_size (
            drop ((or_default q.page 1 - 1) * page_size)
              (order_by (λ x y. text_before x.display_name y.display_name) users))),
      length users,
    )

unfoldable pub search_contacts : (Text → Text → Bool) → Db → Uuid → Text → List SafeUser
unfolding has_keyword select_where sanitize_user
search_contacts like db user_id kw =
    map sanitize_user
      (take 20 (select_where (λ u. is_contact user_id u && has_keyword like kw u) db.users))
