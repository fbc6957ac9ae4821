-- ===== src/Channel/Members.antt =====
-- Subscribing and unsubscribing: who may, the number of members, and the way back.
use fenxin.Prelude.{
  ◌+◌, ◌≡◌, ◌≢◌, refl, ap, ◌∙◌, sym, subst, ◌⊎◌, inl, inr, Bool, true, false, none, some, List, [],
  ◌∷◌, ◌++◌, arith, ◌==◌, is_some, is_some-eq-true, is_some-eq-false, All-append, All-delete,
  IsDistinct, find_one, exists_where, count_where, update_where, delete_where, has, select_where,
  Bool-cases, Option-cases, find_one-append, find_one-head, find_one-passes, find_one-update_found,
  find_one-delete,
}
use fenxin.Entities.{
  Uuid, Date, Conversation, ConversationMember, member, Db, conversation_is, member_is,
  in_conversation,
}
use fenxin.Result.{ok, Done, by_subscribed, by_unsubscribed}
use fenxin.Group.{get_membership, is_owned_by, new_member, save_members, updated_event}
use fenxin.Group.Owned.{
  HasRole, ids_in, has-ids_in, ids_in-delete, count-append, exists-append, exists-delete_other,
}
use fenxin.Group.Saved.{save_members-IsDistinct}
use fenxin.Channel.{
  is_live_channel, get_channel, is_visible, add_one, drop_one, subscribed_db, Subscription,
  subscribe, unsubscribed_db, unsubscribe, reply,
}
use fenxin.Channel.Owned.{IsChannel}

pub find-absent :
    {A : Type 0} (p : A → Bool) (xs : List A) → find_one p xs ≡ none → exists_where p xs ≡ false
unfolding find_one exists_where
find-absent p [] e = refl
find-absent p (x ∷ xs) e = ground (arith, find-absent p xs)

find-present :
    {A : Type 0} (p : A → Bool) (xs : List A) (a : A)
    → find_one p xs ≡ some a
    → exists_where p xs ≡ true
unfolding find_one exists_where
find-present p [] a e = absurd (ground arith)
find-present p (x ∷ xs) a e = ground (arith, find-present p xs a)

-- The row of a live channel.
abbrev pub IsOpen : Db → Uuid → Conversation → Type 0
IsOpen db c conv = find_one (is_live_channel c) db.conversations ≡ some conv

pub subscribe-eq-ok :
    (db : Db) (now : Date) (c u : Uuid) (d : Done Subscription)
    → subscribe db now c u ≡ ok d
    → (conv : Conversation) × IsOpen db c conv
      × (is_visible conv.visibility ≡ true)
      × (((is_some (get_membership db c u) ≡ true) × (db ≡ d.db))
          ⊎ ((is_some (get_membership db c u) ≡ false) × (subscribed_db db now c u ≡ d.db)))
unfolding subscribe get_channel
subscribe-eq-ok db now c u d h =
    elim (Option-cases (find_one (is_live_channel c) db.conversations)) [
      | inl e ↦ absurd (ground arith)
      | inr (conv, e) ↦ (
        conv,
        e,
        ground arith,
        elim (Bool-cases (is_some (get_membership db c u))) [
          | inl t ↦ inl (t, ground arith)
          | inr t ↦ inr (t, ground arith)
        ],
      )
    ]

pub unsubscribe-eq-ok :
    (db : Db) (c u : Uuid) (d : Done Subscription)
    → unsubscribe db c u ≡ ok d
    → (conv : Conversation) × IsOpen db c conv
      × (is_owned_by conv.owner_id u ≡ false)
      × (((is_some (get_membership db c u) ≡ false) × (db ≡ d.db))
          ⊎ ((is_some (get_membership db c u) ≡ true) × (unsubscribed_db db c u ≡ d.db)))
unfolding unsubscribe get_channel
unsubscribe-eq-ok db c u d h = elim (Option-cases (find_one (is_live_channel c) db.conversations)) [
  | inl e ↦ absurd (ground arith)
  | inr (conv, e) ↦ (
    conv,
    e,
    ground arith,
    elim (Bool-cases (is_some (get_membership db c u))) [
      | inl t ↦ inr (t, ground arith)
      | inr t ↦ inl (t, ground arith)
    ],
  )
]

-- The row that the live test finds is the first row of the id, when that one is live.
live-first :
    (c : Uuid) (convs : List Conversation) (first : Conversation)
    → find_one (conversation_is c) convs ≡ some first
    → is_live_channel c first ≡ true
    → find_one (is_live_channel c) convs ≡ some first
unfolding find_one
live-first c [] first e t = absurd (ground arith)
live-first c (x ∷ xs) first e t = elim (Bool-cases (conversation_is c x)) [
  | inl k ↦ (let same : x ≡ first = ground arith in ground (arith, ap (is_live_channel c) same))
  | inr k ↦ ground (arith, k, live-first c xs first (ground arith) t)
]

plain-HasRole :
    (db : Db) (now : Date) (c o u : Uuid)
    → IsChannel db c o
    → get_membership db c u ≡ none
    → HasRole c o (new_member now c member u)
unfolding get_membership
plain-HasRole db now c o u g e = elim (Bool-cases (u == o)) [
  | inl t ↦
      let same : u ≡ o = ground arith in
      let away : exists_where (member_is c o) db.members ≡ false =
        subst (λ x. exists_where (member_is c x) db.members ≡ false) same
          (find-absent (member_is c u) db.members e) in
      cc (away, g.seated)
  | inr t ↦ ground arith
]

delete-absent :
    {A : Type 0} (p : A → Bool) (xs : List A) → exists_where p xs ≡ false → delete_where p xs ≡ xs
unfolding delete_where exists_where
delete-absent p [] h = refl
delete-absent p (x ∷ xs) h = ground (arith, delete-absent p xs)

delete-snoc :
    {A : Type 0} (p : A → Bool) (xs : List A) (a : A)
    → exists_where p xs ≡ false
    → p a ≡ true
    → delete_where p (xs ++ a ∷ []) ≡ xs
unfolding delete_where exists_where
delete-snoc p [] a h t = rw t refl
delete-snoc p (x ∷ xs) a h t = ground (arith, delete-snoc p xs a)

count-delete :
    (c u : Uuid) (ms : List ConversationMember)
    → IsDistinct (ids_in c ms)
    → exists_where (member_is c u) ms ≡ true
    → count_where (in_conversation c) ms
      ≡ count_where (in_conversation c) (delete_where (member_is c u) ms) + 1
unfolding count_where delete_where exists_where select_where
count-delete c u [] d h = absurd (ground arith)
count-delete c u (m ∷ ms) d h = elim (Bool-cases (in_conversation c m)) [
  | inl t ↦
      let k : IsDistinct (m.user_id ∷ ids_in c ms) = rw t at d in
      elim (Bool-cases (m.user_id == u)) [
        | inl e ↦
            let same : m.user_id ≡ u = ground arith in
            let gone : exists_where (member_is c u) ms ≡ false =
              sym (has-ids_in c u ms) ∙ subst (λ x. has x (ids_in c ms) ≡ false) same k.0 in
            ground (arith, t, e, delete-absent (member_is c u) ms gone)
        | inr e ↦ ground (arith, t, e, h, count-delete c u ms k.1)
      ]
  | inr t ↦
      let k : IsDistinct (ids_in c ms) = rw t at d in ground (arith, t, h, count-delete c u ms k)
]

update_back :
    {A : Type 0} (p : A → Bool) (f g : A → A) (xs : List A)
    → ((a : A) → p (f a) ≡ p a)
    → ((a : A) → g (f a) ≡ a)
    → update_where p g (update_where p f xs) ≡ xs
unfolding update_where
update_back p f g [] h k = refl
update_back p f g (x ∷ xs) h k = ground (arith, h x, k x, update_back p f g xs h k)

-- A user who may see a live channel, does not own it and is no member of it subscribes and
-- unsubscribes: both calls succeed, and the database is then as before.
pub subscribe-unsubscribe :
    (db : Db) (now : Date) (c u : Uuid) (conv : Conversation)
    → find_one (is_live_channel c) db.conversations ≡ some conv
    → is_visible conv.visibility ≡ true
    → is_owned_by conv.owner_id u ≡ false
    → get_membership db c u ≡ none
    → (d e : Done Subscription) × (subscribe db now c u ≡ ok d)
      × (unsubscribe d.db c u ≡ ok e)
      × (e.db ≡ db)
unfolding subscribe unsubscribe get_channel get_membership subscribed_db unsubscribed_db
subscribe-unsubscribe db now c u conv stored open_to stranger absent =
    let row = new_member now c member u in
    let away = find-absent (member_is c u) db.members absent in
    let live = find_one-passes (is_live_channel c) db.conversations conv stored in
    let key : conversation_is c conv ≡ true = ground arith in
    let found : find_one (is_live_channel c)
          (update_where (conversation_is c) add_one db.conversations)
        ≡ some (add_one conv) =
      find_one-update_found (is_live_channel c) (conversation_is c) add_one db.conversations conv
        (λ x. refl) stored key in
    let member_found : find_one (member_is c u) (db.members ++ row ∷ []) ≡ some row =
      find_one-append (member_is c u) db.members (row ∷ []) absent
      ∙ find_one-head (member_is c u) row (ground arith) in
    let convs_back =
      update_back (conversation_is c) add_one drop_one db.conversations (λ x. refl)
        (λ x. ap (λ n. record x { member_count = n }) (omega arith)) in
    let members_back = delete-snoc (member_is c u) db.members row away (ground arith) in
    let after = subscribed_db db now c u in
    (
      record {
        value = reply c true;
        db = after;
        effects = updated_event (u ∷ []) c by_subscribed ∷ [];
      },
      record {
        value = reply c false;
        db = unsubscribed_db after c u;
        effects = updated_event (u ∷ []) c by_unsubscribed ∷ [];
      },
      rw (stored, open_to, absent) refl,
      rw (found, stranger, member_found) refl,
      rw (members_back, convs_back) refl,
    )

-- Only a visible channel is subscribed to; the subscriber is then a member, and the channel keeps
-- its owner and its number of members.
pub subscribe-IsChannel :
    (db : Db) (now : Date) (c o u : Uuid) (d : Done Subscription)
    → IsChannel db c o
    → subscribe db now c u ≡ ok d
    → (exists_where (member_is c u) d.db.members ≡ true) × IsChannel d.db c o
unfolding subscribed_db get_membership count_where exists_where save_members
subscribe-IsChannel db now c o u d g h =
    let (conv, e, seen, cases) = subscribe-eq-ok db now c u d h in
    let row = new_member now c member u in
    elim cases [
      | inl (t, same) ↦
          let (m, f) = is_some-eq-true (get_membership db c u) t in
          subst (λ (x : Db). (exists_where (member_is c u) x.members ≡ true) × IsChannel x c o) same
            (find-present (member_is c u) db.members m f, g)
      | inr (t, same) ↦
          let absent = is_some-eq-false (get_membership db c u) t in
          let away = find-absent (member_is c u) db.members absent in
          let saved : save_members db.members (row ∷ []) ≡ ok (db.members ++ row ∷ []) =
            rw away refl in
          subst (λ (x : Db). (exists_where (member_is c u) x.members ≡ true) × IsChannel x c o) same
            (
              rw (exists-append (member_is c u) db.members (row ∷ [])) (ground arith),
              record {
                conv = add_one g.conv;
                stored =
                    find_one-update_found (conversation_is c) (conversation_is c) add_one
                      db.conversations g.conv (λ x. refl) g.stored
                      (find_one-passes (conversation_is c) db.conversations g.conv g.stored);
                channelled = g.channelled;
                live = g.live;
                owned = g.owned;
                roles =
                    All-append (HasRole c o) db.members (row ∷ []) g.roles
                      (plain-HasRole db now c o u g absent, tt);
                seated = rw (exists-append (member_is c o) db.members (row ∷ []), g.seated) refl;
                unique =
                    save_members-IsDistinct c db.members (row ∷ []) (db.members ++ row ∷ []) saved
                      g.unique;
                counted =
                    rw (count-append (in_conversation c) db.members (row ∷ []), g.counted)
                      (ground arith);
              },
            )
    ]

-- The owner never unsubscribes; whoever does is then no member, and the channel keeps its owner and
-- its number of members.
pub unsubscribe-IsChannel :
    (db : Db) (c o u : Uuid) (d : Done Subscription)
    → IsChannel db c o
    → unsubscribe db c u ≡ ok d
    → (u ≢ o) × (get_membership d.db c u ≡ none) × IsChannel d.db c o
unfolding unsubscribed_db get_membership is_owned_by
unsubscribe-IsChannel db c o u d g h =
    let (conv, e, stranger, cases) = unsubscribe-eq-ok db c u d h in
    let first =
      live-first c db.conversations g.conv g.stored
        (ground (arith, find_one-passes (conversation_is c) db.conversations g.conv g.stored)) in
    let same_row : conv ≡ g.conv = ground (arith, e, first) in
    let owner_is : conv.owner_id ≡ some o =
      ap (λ (x : Conversation). x.owner_id) same_row ∙ g.owned in
    let away : u ≢ o = ground arith in
    elim cases [
      | inl (t, same) ↦
          subst (λ (x : Db). (u ≢ o) × (get_membership x c u ≡ none) × IsChannel x c o) same
            (away, is_some-eq-false (get_membership db c u) t, g)
      | inr (t, same) ↦
          let (m, f) = is_some-eq-true (get_membership db c u) t in
          let present = find-present (member_is c u) db.members m f in
          subst (λ (x : Db). (u ≢ o) × (get_membership x c u ≡ none) × IsChannel x c o) same
            (
              away,
              find_one-delete (member_is c u) db.members,
              record {
                conv = drop_one g.conv;
                stored =
                    find_one-update_found (conversation_is c) (conversation_is c) drop_one
                      db.conversations g.conv (λ x. refl) g.stored
                      (find_one-passes (conversation_is c) db.conversations g.conv g.stored);
                channelled = g.channelled;
                live = g.live;
                owned = g.owned;
                roles = All-delete (HasRole c o) (member_is c u) db.members g.roles;
                seated =
                    exists-delete_other (member_is c o) (member_is c u) db.members
                      (λ x k. ground (arith, away))
                    ∙ g.seated;
                unique = ids_in-delete c (member_is c u) db.members g.unique;
                counted = omega (arith, g.counted, count-delete c u db.members g.unique present);
              },
            )
    ]
