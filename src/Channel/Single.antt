-- ===== src/Channel/Single.antt =====
-- One live channel for each owner: the operations of the channel service as the steps of one
-- relation, and the invariant that they keep.
use fenxin.Prelude.{
  ◌≤◌, ◌≡◌, ap, subst, inl, inr, Bool, true, some, List, [], ◌∷◌, arith, ◌==◌, find_one,
  count_where, update_where, Bool-cases, is_some-eq-false,
}
use fenxin.Entities.{Uuid, Date, Conversation, Db, conversation_is}
use fenxin.Result.{ok, Done}
use fenxin.Group.{is_owned_by}
use fenxin.Group.Owned.{count-append}
use fenxin.Group.Created.{count-absent}
use fenxin.Group.Ownership.{burn_group}
use fenxin.Channel.{
  ChannelProfile, ChannelParams, is_channel_of, new_channel, create_channel, ChannelPatch,
  apply_patch, update_channel, add_one, drop_one, subscribed_db, Subscription, subscribe,
  unsubscribed_db, unsubscribe, dissolve_channel,
}
use fenxin.Channel.Owned.{create_channel-eq-ok}
use fenxin.Channel.Members.{find-absent, subscribe-eq-ok, unsubscribe-eq-ok}

-- A call of the service that succeeds.
pub data ChannelStep (db : Db) : Db → Type 0 where
  creating :
      (uuid : Uuid) (now : Date) (p : ChannelParams) (d : Done ChannelProfile)
      → (create_channel uuid db now p).outcome ≡ ok d
      → ChannelStep db d.db
  patching :
      (c u : Uuid) (patch : ChannelPatch) (d : Done ChannelProfile)
      → update_channel db c u patch ≡ ok d
      → ChannelStep db d.db
  subscribing :
      (now : Date) (c u : Uuid) (d : Done Subscription)
      → subscribe db now c u ≡ ok d
      → ChannelStep db d.db
  unsubscribing :
      (c u : Uuid) (d : Done Subscription) → unsubscribe db c u ≡ ok d → ChannelStep db d.db
  dissolving :
      (now : Date) (c u : Uuid) (d : Done (Unit {0}))
      → dissolve_channel db now c u ≡ ok d
      → ChannelStep db d.db

-- Any number of calls.
pub data ChannelSteps : Db → Db → Type 0 where
  stay : {db : Db} → ChannelSteps db db
  then_call : {a b c : Db} → ChannelSteps a b → ChannelStep b c → ChannelSteps a c

-- Each owner has at most one live channel.
abbrev pub IsSingle : List Conversation → Type 0
IsSingle convs = (u : Uuid) → count_where (is_channel_of u) convs ≤ 1

pub count-update_le :
    {A : Type 0} (p q : A → Bool) (f : A → A) (xs : List A)
    → ((a : A) → p (f a) ≡ true → p a ≡ true)
    → count_where p (update_where q f xs) ≤ count_where p xs
unfolding count_where update_where
count-update_le p q f [] h = omega arith
count-update_le p q f (x ∷ xs) h = ground (arith, h x, count-update_le p q f xs h)

update-IsSingle :
    (q : Conversation → Bool) (f : Conversation → Conversation) (convs after : List Conversation)
    → ((u : Uuid) (a : Conversation) → is_channel_of u (f a) ≡ true → is_channel_of u a ≡ true)
    → update_where q f convs ≡ after
    → IsSingle convs
    → IsSingle after
update-IsSingle q f convs after h same single =
    subst IsSingle same
      (λ u. omega (arith, single u, count-update_le (is_channel_of u) q f convs (h u)))

create_channel-IsSingle :
    (uuid : Uuid) (db : Db) (now : Date) (p : ChannelParams) (d : Done ChannelProfile)
    → (create_channel uuid db now p).outcome ≡ ok d
    → IsSingle db.conversations
    → IsSingle d.db.conversations
unfolding new_channel count_where is_channel_of is_owned_by
create_channel-IsSingle uuid db now p d h single =
    let row = new_channel uuid now p in
    let (none_before, ms, e, same) = create_channel-eq-ok uuid db now p d h in
    let absent = count-absent (is_channel_of p.owner_id) db.conversations (
      find-absent (is_channel_of p.owner_id) db.conversations
        (is_some-eq-false (find_one (is_channel_of p.owner_id) db.conversations) none_before)) in
    subst (λ (x : Db). IsSingle x.conversations) same
      (λ u.
        rw (count-append (is_channel_of u) db.conversations (row ∷ []))
          (elim (Bool-cases (p.owner_id == u)) [
            | inl t ↦
                let k : p.owner_id ≡ u = ground arith in
                let gone : count_where (is_channel_of u) db.conversations ≡ 0 =
                  subst (λ x. count_where (is_channel_of x) db.conversations ≡ 0) k absent in
                rw gone (ground arith)
            | inr t ↦ ground (arith, t, single u)
          ]))

Step-IsSingle : (a b : Db) → ChannelStep a b → IsSingle a.conversations → IsSingle b.conversations
unfolding is_channel_of subscribed_db unsubscribed_db update_channel dissolve_channel burn_group
    apply_patch
Step-IsSingle a b (creating uuid now p d h) single = create_channel-IsSingle uuid a now p d h single
Step-IsSingle a b (patching c u patch d h) single =
    update-IsSingle (conversation_is c) (apply_patch patch) a.conversations d.db.conversations
      (λ u' x k. k) (ground arith) single
Step-IsSingle a b (subscribing now c u d h) single =
    let (conv, e, seen, cases) = subscribe-eq-ok a now c u d h in
    elim cases [
      | inl (t, same) ↦ subst (λ (x : Db). IsSingle x.conversations) same single
      | inr (t, same) ↦
          update-IsSingle (conversation_is c) add_one a.conversations d.db.conversations
            (λ u' x k. k) (ap (λ (x : Db). x.conversations) same) single
    ]
Step-IsSingle a b (unsubscribing c u d h) single =
    let (conv, e, stranger, cases) = unsubscribe-eq-ok a c u d h in
    elim cases [
      | inl (t, same) ↦ subst (λ (x : Db). IsSingle x.conversations) same single
      | inr (t, same) ↦
          update-IsSingle (conversation_is c) drop_one a.conversations d.db.conversations
            (λ u' x k. k) (ap (λ (x : Db). x.conversations) same) single
    ]
Step-IsSingle a b (dissolving now c u d h) single =
    update-IsSingle (conversation_is c)
      (λ x. record x { dissolved_at = some now; dissolved_by = some u }) a.conversations
      d.db.conversations (λ u' x k. absurd (ground arith)) (ground arith) single

-- However often the service's operations are called, each owner keeps at most one live channel.
pub ChannelSteps-IsSingle :
    (a b : Db) → ChannelSteps a b → IsSingle a.conversations → IsSingle b.conversations
ChannelSteps-IsSingle a b stay h = h
ChannelSteps-IsSingle a b (then_call before step) h =
    Step-IsSingle _ b step (ChannelSteps-IsSingle a _ before h)
