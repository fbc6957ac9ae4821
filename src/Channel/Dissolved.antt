-- ===== src/Channel/Dissolved.antt =====
-- The dissolution of a channel by its owner.
use fenxin.Prelude.{
  ℕ, ◌+◌, ◌≤◌, ◌≡◌, ◌≢◌, refl, sym, subst, inl, inr, Bool, true, false, none, some, List, [], ◌∷◌,
  arith, exists_where, find_one, count_where, update_where, Bool-cases, Option-cases,
  find_one-update_found, find_one-passes,
}
use fenxin.Entities.{Uuid, Date, Message, Conversation, Db, conversation_is}
use fenxin.Result.{ok, err, not_found, channel_missing, Done}
use fenxin.Env.{Env}
use fenxin.Send.{SendParams, send_message}
use fenxin.Group.{is_owned_by}
use fenxin.Group.Ownership.{burn_group}
use fenxin.Group.Dissolved.{IsDissolved, dissolved-not_sent, undated, is_spared, burn_group-expires}
use fenxin.Channel.{
  is_channel_of, is_live_channel, channel_is, get_channel, get_my_channel, dissolve_channel,
}
use fenxin.Channel.Single.{IsSingle, count-update_le}

abbrev close : Date → Uuid → Conversation → Conversation
close now u x = record x { dissolved_at = some now; dissolved_by = some u }

none-live :
    (now : Date) (c u : Uuid) (convs : List Conversation)
    → find_one (is_live_channel c) (update_where (conversation_is c) (close now u) convs) ≡ none
unfolding find_one update_where
none-live now c u [] = refl
none-live now c u (x ∷ xs) = ground (arith, none-live now c u xs)

-- The update takes a row out of the count.
count-update_lt :
    {A : Type 0} (p q r : A → Bool) (f : A → A) (xs : List A) (a : A)
    → ((x : A) → p (f x) ≡ false)
    → ((x : A) → r x ≡ true → q x ≡ true)
    → find_one r xs ≡ some a
    → p a ≡ true
    → count_where p (update_where q f xs) + 1 ≤ count_where p xs
unfolding find_one count_where update_where
count-update_lt p q r f [] a h k e t = absurd (ground arith)
count-update_lt p q r f (x ∷ xs) a h k e t = elim (Bool-cases (r x)) [
  | inl s ↦
      let same : x ≡ a = ground arith in
      let counts : p x ≡ true = subst (λ y. p y ≡ true) (sym same) t in
      ground
        (arith, counts, k x s, h x, count-update_le p q f xs (λ y z. absurd (ground (arith, h y))))
  | inr s ↦ ground (arith, h x, count-update_lt p q r f xs a h k (ground arith) t)
]

count-none : {A : Type 0} (p : A → Bool) (xs : List A) → count_where p xs ≡ 0 → find_one p xs ≡ none
unfolding find_one count_where
count-none p [] h = refl
count-none p (x ∷ xs) h = ground (arith, count-none p xs)

find-wider :
    {A : Type 0} (p q : A → Bool) (xs : List A) (a : A)
    → ((x : A) → p x ≡ true → q x ≡ true)
    → find_one p xs ≡ some a
    → (b : A) × (find_one q xs ≡ some b)
unfolding find_one
find-wider p q [] a h e = absurd (ground arith)
find-wider p q (x ∷ xs) a h e = elim (Bool-cases (q x)) [
  | inl t ↦ (x, rw t refl)
  | inr t ↦ let (b, f) = find-wider p q xs a h (ground (arith, h x)) in (b, rw t f)
]

burn-IsDissolved :
    (db : Db) (now : Date) (c u : Uuid) (conv : Conversation)
    → find_one (channel_is c) db.conversations ≡ some conv
    → IsDissolved (burn_group db now c u) c
unfolding burn_group
burn-IsDissolved db now c u conv e =
    let (x, found) =
      find-wider (channel_is c) (conversation_is c) db.conversations conv (λ y k. ground arith) e in
    (
      close now u x,
      find_one-update_found (conversation_is c) (conversation_is c) (close now u) db.conversations x
          (λ y. refl) found (find_one-passes (conversation_is c) db.conversations x found),
      refl,
    )

-- Dissolution by the owner, who has no other live channel: nobody finds the channel any more to
-- see, change, join or leave it, the owner has no live channel and so may create one again, nobody
-- sends to the channel, with or without messages, each live message of it is expired, and the
-- messages change in their deadlines only.
pub dissolve_channel-burns :
    (db : Db) (now : Date) (c operator_id : Uuid) (d : Done (Unit {0})) (later : Date) (env : Env)
    (uuid : ℕ → Uuid) (p : SendParams) (sent : Done Message)
    → IsSingle db.conversations
    → dissolve_channel db now c operator_id ≡ ok d
    → now ≤ later
    → p.conversation_id ≡ c
    → (get_channel d.db c ≡ err (not_found channel_missing))
      × (get_my_channel d.db operator_id ≡ err (not_found channel_missing))
      × (send_message env uuid d.db later p ≢ ok sent)
      × (exists_where (is_spared c later) d.db.messages ≡ false)
      × (undated d.db.messages ≡ undated db.messages)
unfolding dissolve_channel burn_group get_channel get_my_channel is_owned_by is_channel_of
    update_where
dissolve_channel-burns db now c operator_id d later env uuid p sent single h le to =
    elim (Option-cases (find_one (channel_is c) db.conversations)) [
      | inl e ↦ absurd (ground arith)
      | inr (conv, e) ↦
          let kind = find_one-passes (channel_is c) db.conversations conv e in
          let same : burn_group db now c operator_id ≡ d.db = ground arith in
          let count =
            count-update_lt (is_channel_of operator_id) (conversation_is c) (channel_is c)
              (close now operator_id) db.conversations conv (λ x. ground arith)
              (λ x k. ground arith) e (ground arith) in
          let gone =
            count-none (is_channel_of operator_id)
              (update_where (conversation_is c) (close now operator_id) db.conversations)
              (omega (arith, single operator_id, count)) in
          let (kept, burnt) = burn_group-expires db now c operator_id later le in
          subst
            (λ (x : Db).
              (get_channel x c ≡ err (not_found channel_missing))
              × (get_my_channel x operator_id ≡ err (not_found channel_missing))
              × (send_message env uuid x later p ≢ ok sent)
              × (exists_where (is_spared c later) x.messages ≡ false)
              × (undated x.messages ≡ undated db.messages))
            same
            (
              rw (none-live now c operator_id db.conversations) refl,
              rw gone refl,
              dissolved-not_sent env uuid (burn_group db now c operator_id) later p sent (
                  subst (IsDissolved (burn_group db now c operator_id)) (sym to)
                    (burn-IsDissolved db now c operator_id conv e)),
              burnt,
              kept,
            )
    ]
