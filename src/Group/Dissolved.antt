-- ===== src/Group/Dissolved.antt =====
-- Dissolution: nobody sends to the group any more, and after the owner's every message of it
-- expires.
use fenxin.Prelude.{
  ℕ, ◌≤◌, ◌≡◌, ◌≢◌, refl, sym, subst, inl, inr, true, false, not, ◌&&◌, Option, some, List, [], ◌∷◌,
  arith, map, ◌⊎◌, none, Bool, exists_where, map-update_same, exists-update_none, exists-find_fails,
  ◌==◌, is_some, find_one, update_where, Bool-cases, find_one-passes, find_one-update_found, le→leb,
}
use fenxin.Entities.{Uuid, Date, Message, Conversation, Db, conversation_is, message_is}
use fenxin.Result.{ok, >>=-eq-ok, Done}
use fenxin.Env.{Env}
use fenxin.Send.{SendParams, check_send, send_message}
use fenxin.Reveal.{Revealed, reveal_message}
use fenxin.Reveal.Checks.{reveal_message-eq-ok}
use fenxin.Scheduler.{is_expired}
use fenxin.Group.{group_is}
use fenxin.Group.Ownership.{live_group, burn_group, dissolve_group, dissolve_group_by_owner}

-- The first row of the conversation is dissolved.
abbrev pub IsDissolved : Db → Uuid → Type 0
IsDissolved db c =
    (conv : Conversation) × (find_one (conversation_is c) db.conversations ≡ some conv)
    × (is_some conv.dissolved_at ≡ true)

found-any :
    (c : Uuid) (convs : List Conversation) (conv : Conversation)
    → find_one (group_is c) convs ≡ some conv
    → (x : Conversation) × (find_one (conversation_is c) convs ≡ some x)
unfolding find_one
found-any c [] conv e = absurd (ground arith)
found-any c (x ∷ convs) conv e = elim (Bool-cases (conversation_is c x)) [
  | inl t ↦ (x, rw t refl)
  | inr t ↦ let (y, f) = found-any c convs conv (ground arith) in (y, rw t f)
]

dissolving-IsDissolved :
    (c : Uuid) (f : Conversation → Conversation) (db db' : Db) (conv : Conversation)
    → ((x : Conversation)
        → (conversation_is c (f x) ≡ conversation_is c x) × (is_some (f x).dissolved_at ≡ true))
    → live_group db c ≡ ok conv
    → db'.conversations ≡ update_where (conversation_is c) f db.conversations
    → IsDissolved db' c
unfolding live_group
dissolving-IsDissolved c f db db' conv k h e =
    let stored : find_one (group_is c) db.conversations ≡ some conv = ground arith in
    let (x, found) = found-any c db.conversations conv stored in
    (
      f x,
      rw e (
          find_one-update_found (conversation_is c) (conversation_is c) f db.conversations x
            (λ y. (k y).0) found (find_one-passes (conversation_is c) db.conversations x found)),
      (k x).1,
    )

pub dissolved-not_sent :
    (env : Env) (uuid : ℕ → Uuid) (db : Db) (now : Date) (p : SendParams) (d : Done Message)
    → IsDissolved db p.conversation_id
    → send_message env uuid db now p ≢ ok d
unfolding send_message check_send
dissolved-not_sent env uuid db now p d (conv, e, t) h =
    let (members, a, f) = >>=-eq-ok (check_send db p) _ h in ground arith

-- After an administrator's dissolution nobody sends to the group, and its messages are untouched.
pub dissolve_group-closes :
    (db : Db) (now : Date) (c operator_id : Uuid) (d : Done (Unit {0})) (env : Env)
    (uuid : ℕ → Uuid) (later : Date) (p : SendParams) (r : Done Message)
    → dissolve_group db now c operator_id ≡ ok d
    → p.conversation_id ≡ c
    → (send_message env uuid d.db later p ≢ ok r) × (d.db.messages ≡ db.messages)
unfolding dissolve_group
dissolve_group-closes db now c operator_id d env uuid later p r h e =
    let (conv, a, f) = >>=-eq-ok (live_group db c) _ h in
    let close = λ (x : Conversation). record x { dissolved_at = some now } in
    let closed = dissolving-IsDissolved c close db d.db conv (λ x. (refl, refl)) a (ground arith) in
    (
      dissolved-not_sent env uuid d.db later p r (subst (IsDissolved d.db) (sym e) closed),
      ground arith,
    )

burn_group-IsDissolved :
    (db : Db) (now : Date) (c u : Uuid) (conv : Conversation)
    → live_group db c ≡ ok conv
    → IsDissolved (burn_group db now c u) c
unfolding burn_group
burn_group-IsDissolved db now c u conv a =
    dissolving-IsDissolved c (λ x. record x { dissolved_at = some now; dissolved_by = some u }) db
      (burn_group db now c u) conv (λ x. (refl, refl)) a refl

-- The messages but for their deadlines.
abbrev pub undated : List Message → List Message
undated ms = map (λ (m : Message). record m { destroy_at = none }) ms

-- A live message of the conversation that has not expired.
abbrev pub is_spared : Uuid → Date → Message → Bool
is_spared c later m = m.conversation_id == c && not m.is_destroyed && not (is_expired later m)

abbrev pub is_found_in : Uuid → Option Message → Bool
is_found_in c none = false
is_found_in c (some m) = m.conversation_id == c

pub burn_group-expires :
    (db : Db) (now : Date) (c u : Uuid) (later : Date)
    → now ≤ later
    → (undated (burn_group db now c u).messages ≡ undated db.messages)
      × (exists_where (is_spared c later) (burn_group db now c u).messages ≡ false)
unfolding burn_group is_expired
burn_group-expires db now c u later le =
    let burn = λ (x : Message). record x { destroy_at = some now } in
    let test = λ (x : Message). x.conversation_id == c && not x.is_destroyed in
    let due = le→leb now later le in
    (
      map-update_same (λ (m : Message). record m { destroy_at = none }) test burn db.messages
          (λ x. refl),
      exists-update_none (is_spared c later) test burn db.messages (λ x t. ground (arith, due))
          (λ x t. ground arith),
    )

-- A message that is opened is not one of a conversation without spared messages.
pub unspared-not_opened :
    (env : Env) (fresh : Uuid) (db : Db) (later : Date) (id user_id : Uuid) (n : Option ℕ)
    (opened : Done Revealed) (c : Uuid)
    → exists_where (is_spared c later) db.messages ≡ false
    → (is_found_in c (find_one (message_is id) db.messages) ≡ false)
      ⊎ (reveal_message env fresh db later id user_id n ≢ ok opened)
unfolding is_expired
unspared-not_opened env fresh db later id user_id n opened c h =
    elim (Bool-cases (is_found_in c (find_one (message_is id) db.messages))) [
      | inl t ↦ inr (λ k.
          let (x, o, g) = reveal_message-eq-ok env fresh db later id user_id n opened k in
          let burnt =
            exists-find_fails (is_spared c later) (message_is id) db.messages x h o.stored in
          let here : is_found_in c (some x) ≡ true =
            subst (λ f. is_found_in c f ≡ true) o.stored t in
          absurd (ground (arith, burnt, here, o.live, o.not_due)))
      | inr t ↦ inl t
    ]

-- After the owner's dissolution nobody sends to the group, with or without messages. Each live
-- message of the group is then expired, so that nobody opens it, and the messages change in their
-- deadlines only.
pub dissolve_group_by_owner-burns :
    (db : Db) (now : Date) (c operator_id : Uuid) (d : Done (Unit {0})) (later : Date) (env : Env)
    (uuid : ℕ → Uuid) (p : SendParams) (sent : Done Message) (fresh id user_id : Uuid)
    (n : Option ℕ) (opened : Done Revealed)
    → dissolve_group_by_owner db now c operator_id ≡ ok d
    → now ≤ later
    → p.conversation_id ≡ c
    → (send_message env uuid d.db later p ≢ ok sent)
      × (exists_where (is_spared c later) d.db.messages ≡ false)
      × (undated d.db.messages ≡ undated db.messages)
      × ((is_found_in c (find_one (message_is id) d.db.messages) ≡ false)
          ⊎ (reveal_message env fresh d.db later id user_id n ≢ ok opened))
unfolding dissolve_group_by_owner
dissolve_group_by_owner-burns db now c operator_id d later env uuid p sent fresh id user_id n opened
      h le to =
    let (conv, a, f) = >>=-eq-ok (live_group db c) _ h in
    let same : burn_group db now c operator_id ≡ d.db = ground arith in
    let closed =
      subst (λ x. IsDissolved x c) same (burn_group-IsDissolved db now c operator_id conv a) in
    let (kept, burnt) =
      subst
        (λ (x : Db).
          (undated x.messages ≡ undated db.messages)
          × (exists_where (is_spared c later) x.messages ≡ false))
        same (burn_group-expires db now c operator_id later le) in
    (
      dissolved-not_sent env uuid d.db later p sent (subst (IsDissolved d.db) (sym to) closed),
      burnt,
      kept,
      unspared-not_opened env fresh d.db later id user_id n opened c burnt,
    )
