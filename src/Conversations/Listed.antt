-- ===== src/Conversations/Listed.antt =====
-- What the list of conversations and the directory show.
use fenxin.Prelude.{
  ◌-◌, ◌*◌, ◌≤◌, ◌≡◌, refl, ◌∙◌, sym, subst, inl, inr, Bool, true, false, not, ◌&&◌, Option, none,
  some, List, [], ◌∷◌, map, arith, ◌==◌, if◌then◌else◌, is_some, is_some-eq-false, take, drop, In,
  In-take, In-drop, has, IsOrdered, order_by-IsOrdered, find_one, exists_where, select_where,
  update_where, count_where, order_by, Bool-cases, find_one-update, In-select_back,
  In-order_by_back, or_default,
}
use fenxin.Entities.{
  Uuid, Date, Text, AppUser, is_active, Message, Conversation, Db, member_is, message_is,
}
use fenxin.Result.{Done, ok}
use fenxin.Group.Ownership.{burn_group, dissolve_group_by_owner}
use fenxin.Channel.Discover.{In-map}
use fenxin.Auth.{SafeUser, sanitize_user}
use fenxin.Conversations.{
  conversation_ids, counts_for, is_unread, unread_count, ConversationView, conversation_view,
  later_message, is_listed, list_my_conversations, is_contact, ContactQuery, is_queried_contact,
  list_contacts,
}
use fenxin.Conversations.Private.{has-conversation_ids}
use mathlib.Core.Option

later_message_total : (x y : Conversation) → later_message x y ≡ false → later_message y x ≡ true
later_message_total x y h = ground arith

views-IsOrdered :
    (f : Conversation → ConversationView) (xs : List Conversation)
    → ((c : Conversation) → (f c).conv ≡ c)
    → IsOrdered later_message xs
    → IsOrdered (λ (x y : ConversationView). later_message x.conv y.conv) (map f xs)
views-IsOrdered f [] h k = tt
views-IsOrdered f (x ∷ []) h k = (tt, tt)
views-IsOrdered f (x ∷ y ∷ xs) h k = (rw (h x, h y) k.0, views-IsOrdered f (y ∷ xs) h k.1)

-- Every listed conversation is stored, not dissolved, and one of which the user is a member, shown
-- with its own number of unread messages; the list runs from the latest message to the oldest.
pub list_my_conversations_sound :
    (db : Db) (now : Date) (u : Uuid) (v : ConversationView)
    → In v (list_my_conversations db now u)
    → IsOrdered
        (λ (x y : ConversationView). later_message x.conv y.conv)
        (list_my_conversations db now u)
      × In v.conv db.conversations
      × (exists_where (member_is v.conv.id u) db.members ≡ true)
      × (v.conv.dissolved_at ≡ none)
      × (v.unread_count ≡ unread_count db now u v.conv.id)
unfolding list_my_conversations conversation_view conversation_ids
list_my_conversations_sound db now u v h =
    let rows = select_where (is_listed (conversation_ids db u)) db.conversations in
    let (c, m, e) = In-map (conversation_view db now u) (order_by later_message rows) v h in
    let (stored, passes) =
      In-select_back (is_listed (conversation_ids db u)) db.conversations c
        (In-order_by_back later_message rows c m) in
    let joined : has c.id (conversation_ids db u) ≡ true = ground arith in
    let live : is_some c.dissolved_at ≡ false = ground arith in
    let (a, b, c', d) =
      subst
        (λ (x : ConversationView).
          In x.conv db.conversations
          × (exists_where (member_is x.conv.id u) db.members ≡ true)
          × (x.conv.dissolved_at ≡ none)
          × (x.unread_count ≡ unread_count db now u x.conv.id))
        (sym e)
        (
          stored,
          sym (has-conversation_ids c.id u db.members) ∙ joined,
          is_some-eq-false c.dissolved_at live,
          refl,
        ) in
    (
      views-IsOrdered (conversation_view db now u) (order_by later_message rows) (λ x. refl)
          (order_by-IsOrdered later_message later_message_total rows),
      a,
      b,
      c',
      d,
    )

count-zero :
    {A : Type 0} (p : A → Bool) (xs : List A) → ((a : A) → p a ≡ false) → count_where p xs ≡ 0
unfolding count_where
count-zero p [] h = refl
count-zero p (x ∷ xs) h = rw (h x) (omega (arith, count-zero p xs h))

-- A message after the dissolution of its conversation counts for nothing there.
burnt-counts :
    (c : Uuid) (now later : Date) (found : Option Message)
    → now ≤ later
    → counts_for later c (
        Option.map
          (λ (m : Message).
            if m.conversation_id == c && not m.is_destroyed
            then record m { destroy_at = some now }
            else m)
          found)
      ≡ false
burnt-counts c now later none h = refl
burnt-counts c now later (some m) h =
    elim (Bool-cases (m.conversation_id == c && not m.is_destroyed)) [
      | inl t ↦ rw t (ground arith)
      | inr t ↦ rw t (ground arith)
    ]

-- From the moment a group is dissolved by its owner, no member has an unread message in it.
pub dissolve_group_by_owner-unread :
    (db : Db) (now : Date) (c operator_id : Uuid) (d : Done (Unit {0})) (later : Date) (u : Uuid)
    → dissolve_group_by_owner db now c operator_id ≡ ok d
    → now ≤ later
    → unread_count d.db later u c ≡ 0
unfolding dissolve_group_by_owner burn_group unread_count is_unread
dissolve_group_by_owner-unread db now c operator_id d later u h le =
    let same : burn_group db now c operator_id ≡ d.db = ground arith in
    let q = λ (m : Message). m.conversation_id == c && not m.is_destroyed in
    let f = λ (m : Message). record m { destroy_at = some now } in
    subst (λ (x : Db). unread_count x later u c ≡ 0) same
      (count-zero (is_unread (burn_group db now c operator_id) later u c) db.receipts (λ r.
        let found = find_one-update (message_is r.message_id) q f db.messages (λ x. refl) in
        let none_counted : counts_for later c
              (find_one (message_is r.message_id) (update_where q f db.messages))
            ≡ false =
          rw found (burnt-counts c now later (find_one (message_is r.message_id) db.messages) le) in
        ground (arith, none_counted)))

queried-contact :
    (like : Text → Text → Bool) (q : ContactQuery) (x : AppUser)
    → is_queried_contact like q x ≡ true
    → is_contact q.user_id x ≡ true
unfolding is_queried_contact
queried-contact like q x h = ground arith

-- A listed contact is a stored account that is active, not deleted, and not the user's own, and
-- only its safe fields are shown.
pub list_contacts_sound :
    (like text_before : Text → Text → Bool) (db : Db) (q : ContactQuery) (v : SafeUser)
    → In v (list_contacts like text_before db q).0
    → (x : AppUser) × In x db.users
      × (v ≡ sanitize_user x)
      × (is_active x.status ≡ true)
      × (x.deleted_at ≡ none)
      × ((x.id == q.user_id) ≡ false)
unfolding list_contacts
list_contacts_sound like text_before db q v h =
    let before = λ (x y : AppUser). text_before x.display_name y.display_name in
    let users = select_where (is_queried_contact like q) db.users in
    let page_size = or_default q.page_size 50 in
    let skipped = (or_default q.page 1 - 1) * page_size in
    let (x, m, e) =
      In-map sanitize_user (take page_size (drop skipped (order_by before users))) v h in
    let (stored, passes) = In-select_back (is_queried_contact like q) db.users x (
      In-order_by_back before users x (
        In-drop skipped (order_by before users) x
          (In-take page_size (drop skipped (order_by before users)) x m))) in
    let contact = queried-contact like q x passes in
    (x, stored, e, ground arith, is_some-eq-false x.deleted_at (ground arith), ground arith)
