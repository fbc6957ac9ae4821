-- ===== src/Channel/Discover.antt =====
-- `listDiscover` and `getChannelDetail`: what a user sees of the channels.
use fenxin.Prelude.{
  drop, In-drop, drop-IsOrdered, ℕ, IsOrdered, order_by-IsOrdered, take-IsOrdered, has-map,
  length-map, ◌-◌, ◌*◌, ◌≤◌, ◌≡◌, refl, ap, ◌∙◌, inl, inr, Bool, true, false, ◌&&◌, ◌||◌, not,
  Option, none, some, List, [], ◌∷◌, arith, ◌==◌, ltb, leb, is_some, map, take, length, In, has,
  find_one, select_where, order_by, exists_where, Bool-cases, In-take, In-order_by_back,
  In-select_back, length-take_le,
}
use fenxin.Entities.{
  user_is, Uuid, Date, Text, Conversation, ConversationMember, ChannelVisibility, Db,
  is_channel_type, member_is,
}
use fenxin.Result.{Result, ok, ◌>>=◌}
use fenxin.Group.{get_membership, is_owned_by}
use fenxin.Channel.{OwnerInfo, to_owner_info, is_visible, get_channel}

-- A channel as the listing and the detail page show it; the latter has the last two fields.
pub record ChannelCard : Type 0 where
  pub id : Uuid
  pub name : Option Text
  pub description : Option Text
  pub avatar_url : Option Text
  pub member_count : ℕ
  pub created_at : Date
  pub is_owner : Bool
  pub is_subscribed : Bool
  pub owner : Option OwnerInfo

pub record ChannelDetail : Type 0 where
  pub card : ChannelCard
  pub visibility : ChannelVisibility
  pub last_message_at : Option Date

-- `c.type = 'channel' AND c.visibility = 'public' AND c.dissolved_at IS NULL`
abbrev pub is_discoverable : Conversation → Bool
is_discoverable c =
    is_channel_type c.type && is_visible c.visibility && not (is_some c.dissolved_at)

-- `ORDER BY member_count DESC, created_at DESC`
abbrev pub is_hotter : Conversation → Conversation → Bool
is_hotter x y =
    ltb y.member_count x.member_count
    || (x.member_count == y.member_count && leb y.created_at x.created_at)

-- The users that `find({ id: In(ownerIds) })` returns, looked up by id.
unfoldable pub owner_info : Db → Option Uuid → Option OwnerInfo
unfolding find_one to_owner_info
owner_info db none = none
owner_info db (some id) = to_owner_info (find_one (user_is id) db.users)

-- `subSet`: the conversations among `ids` of which the user is a member.
unfoldable pub subscribed_ids : Db → Uuid → List Uuid → List Uuid
unfolding select_where has
subscribed_ids db user_id ids =
    map (λ m. m.conversation_id)
      (select_where (λ m. m.user_id == user_id && has m.conversation_id ids) db.members)

unfoldable pub channel_card : Db → Uuid → Bool → Conversation → ChannelCard
unfolding is_owned_by owner_info
channel_card db user_id subscribed c = record {
  id = c.id;
  name = c.name;
  description = c.description;
  avatar_url = c.avatar_url;
  member_count = c.member_count;
  created_at = c.created_at;
  is_owner = is_owned_by c.owner_id user_id;
  is_subscribed = subscribed;
  owner = owner_info db c.owner_id;
}

-- The channels of a page; the controller gives pages from 1.
unfoldable pub discover_page : Db → ℕ → ℕ → List Conversation
unfolding select_where order_by
discover_page db page page_size = take page_size (
    drop ((page - 1) * page_size)
      (order_by is_hotter (select_where is_discoverable db.conversations)))

-- The page's channels and the number of channels over all pages.
unfoldable pub list_discover : Db → Uuid → ℕ → ℕ → List ChannelCard × ℕ
unfolding discover_page subscribed_ids channel_card has select_where
list_discover db user_id page page_size =
    let channels = discover_page db page page_size in
    let subscribed = subscribed_ids db user_id (map (λ c. c.id) channels) in
    (
      map (λ c. channel_card db user_id (has c.id subscribed) c) channels,
      length (select_where is_discoverable db.conversations),
    )

unfoldable pub get_channel_detail : Db → Uuid → Uuid → Result ChannelDetail
unfolding get_channel get_membership channel_card
get_channel_detail db channel_id user_id = do
  conv ← get_channel db channel_id
  ok (record {
    card = channel_card db user_id (is_some (get_membership db channel_id user_id)) conv;
    visibility = conv.visibility;
    last_message_at = conv.last_message_at;
  })

has-subscribed_ids :
    (id u : Uuid) (ids : List Uuid) (ms : List ConversationMember)
    → has id (
        map
          (λ (m : ConversationMember). m.conversation_id)
          (select_where (λ m. m.user_id == u && has m.conversation_id ids) ms))
      ≡ (has id ids && exists_where (member_is id u) ms)
unfolding has select_where exists_where
has-subscribed_ids id u ids [] = ground arith
has-subscribed_ids id u ids (m ∷ ms) = elim (Bool-cases (m.conversation_id == id)) [
  | inl e ↦
      let same : m.conversation_id ≡ id = ground arith in
      let k : has m.conversation_id ids ≡ has id ids = ap (λ x. has x ids) same in
      ground (arith, k, e, has-subscribed_ids id u ids ms)
  | inr e ↦ ground (arith, e, has-subscribed_ids id u ids ms)
]

pub In-map :
    {A B : Type 0} (f : A → B) (xs : List A) (b : B)
    → In b (map f xs)
    → (a : A) × In a xs × (b ≡ f a)
In-map f [] b m = absurd m
In-map f (x ∷ xs) b (inl e) = (x, inl refl, e)
In-map f (x ∷ xs) b (inr m) = let (a, i, e) = In-map f xs b m in (a, inr i, e)

is_hotter_total : (x y : Conversation) → is_hotter x y ≡ false → is_hotter y x ≡ true
is_hotter_total x y h = ground arith

-- `x` has more subscribers than `y`, or as many.
abbrev pub is_popular : ChannelCard → ChannelCard → Bool
is_popular x y = leb y.member_count x.member_count

cards-IsOrdered :
    (f : Conversation → ChannelCard) (xs : List Conversation)
    → ((c : Conversation) → (f c).member_count ≡ c.member_count)
    → IsOrdered is_hotter xs
    → IsOrdered is_popular (map f xs)
cards-IsOrdered f [] h k = tt
cards-IsOrdered f (x ∷ []) h k = (tt, tt)
cards-IsOrdered f (x ∷ y ∷ xs) h k =
    (ground (arith, h x, h y, k.0), cards-IsOrdered f (y ∷ xs) h k.1)

-- A listed channel is a stored live public channel, shown with the flag of the reader's
-- subscription, which is that the reader is a member of it. The page is no longer than asked for,
-- and no channel of it has more subscribers than the one before it.
pub list_discover_sound :
    (db : Db) (u : Uuid) (page page_size : ℕ) (card : ChannelCard)
    → In card (list_discover db u page page_size).0
    → (length (list_discover db u page page_size).0 ≤ page_size)
      × IsOrdered is_popular (list_discover db u page page_size).0
      × (c : Conversation) × In c db.conversations
      × (is_discoverable c ≡ true)
      × (card ≡ channel_card db u (exists_where (member_is c.id u) db.members) c)
unfolding list_discover discover_page subscribed_ids channel_card
list_discover_sound db u page page_size card h =
    let channels = discover_page db page page_size in
    let ids = map (λ (c : Conversation). c.id) channels in
    let (c, here, e) =
      In-map (λ c. channel_card db u (has c.id (subscribed_ids db u ids)) c) channels card h in
    let hot = order_by is_hotter (select_where is_discoverable db.conversations) in
    let in_hot =
      In-drop ((page - 1) * page_size) hot c
        (In-take page_size (drop ((page - 1) * page_size) hot) c here) in
    let (stored, passes) =
      In-select_back is_discoverable db.conversations c
        (In-order_by_back is_hotter (select_where is_discoverable db.conversations) c in_hot) in
    let flag : has c.id (subscribed_ids db u ids) ≡ exists_where (member_is c.id u) db.members =
      ground (
        arith,
        has-subscribed_ids c.id u ids db.members,
        has-map (λ (x : Conversation). x.id) channels c here,
      ) in
    (
      rw (length-map (λ c. channel_card db u (has c.id (subscribed_ids db u ids)) c) channels)
          (length-take_le page_size (drop ((page - 1) * page_size) hot)),
      cards-IsOrdered (λ c. channel_card db u (has c.id (subscribed_ids db u ids)) c) channels
          (λ x. refl)
          (take-IsOrdered is_hotter page_size (drop ((page - 1) * page_size) hot) (
            drop-IsOrdered is_hotter ((page - 1) * page_size) hot (
              order_by-IsOrdered is_hotter is_hotter_total
                (select_where is_discoverable db.conversations)))),
      c,
      stored,
      passes,
      e ∙ ap (λ b. channel_card db u b c) flag,
    )
