-- ===== src/Group/Cascade.antt =====
-- The deletion of an account dissolves the groups that the user owns, each for itself.
use fenxin.Prelude.{
  ◌+◌, ◌≤◌, ◌≡◌, refl, ◌∙◌, ap, inl, inr, Bool, true, false, not, ◌&&◌, none, some, List, [], ◌∷◌,
  map, arith, ◌==◌, if◌then◌else◌, if_cases, All, All-imply, In, has, has-map, In-select,
  exists_where, select_where, count_where, Bool-cases, map-update_same, select-update_other, le→leb,
}
use fenxin.Entities.{Uuid, Date, Message, Conversation, Db, conversation_is}
use fenxin.Scheduler.{is_expired}
use fenxin.Group.Owned.{All-update_to}
use fenxin.Group.Dissolved.{undated}
use fenxin.Group.Ownership.{
  GroupRun, is_complete, is_committed, is_owned_group, burn_group, dissolve_each,
  dissolve_groups_on_account_delete,
}

unfoldable pub conversation_ids : List Conversation → List Uuid
conversation_ids cs = map (λ (c : Conversation). c.id) cs

All-of : {A : Type 0} (P : A → Type 0) (xs : List A) → ((a : A) → In a xs → P a) → All P xs
All-of P [] h = tt
All-of P (x ∷ xs) h = (h x (inl refl), All-of P xs (λ a m. h a (inr m)))

none-passes :
    {A : Type 0} (p : A → Bool) (xs : List A)
    → All (λ a. p a ≡ false) xs
    → exists_where p xs ≡ false
unfolding exists_where
none-passes p [] h = refl
none-passes p (x ∷ xs) h = ground (arith, h.0, none-passes p xs h.1)

module _ (run : Uuid → GroupRun) where
  -- A group of the owner whose transaction is committed.
  abbrev pub is_kept_group : Uuid → Conversation → Bool
  is_kept_group owner_id c = is_owned_group owner_id c && is_committed (run c.id)

  -- Whoever the user still owns stands in the list.
  abbrev IsRemaining : Uuid → List Uuid → Conversation → Type 0
  IsRemaining owner_id ids c = (is_kept_group owner_id c && not (has c.id ids)) ≡ false

  -- A live message of the groups, whose transaction is committed, that has not expired.
  abbrev pub is_left : List Uuid → Date → Message → Bool
  is_left ids later m =
      has m.conversation_id ids
      && is_committed (run m.conversation_id)
      && not m.is_destroyed
      && not (is_expired later m)

  abbrev IsAwaiting : List Uuid → Date → List Uuid → Message → Type 0
  IsAwaiting all later ids m = (is_left all later m && not (has m.conversation_id ids)) ≡ false

  run-same : (k i : Uuid) → (i == k) ≡ true → is_committed (run i) ≡ is_committed (run k)
  run-same k i t = ap (λ x. is_committed (run x)) (ground arith)

  -- What a run leaves as it is: the messages but for their deadlines, and the rows of the groups
  -- whose transaction was rolled back.
  abbrev pub IsConfined : Db → Db → Type 0
  IsConfined db x =
      (undated x.messages ≡ undated db.messages)
      × (select_where (λ c. not (is_committed (run c.id))) x.conversations
          ≡ select_where (λ c. not (is_committed (run c.id))) db.conversations)
      × (select_where (λ m. not (is_committed (run m.conversation_id))) x.messages
          ≡ select_where (λ m. not (is_committed (run m.conversation_id))) db.messages)

  selected-IsRemaining :
      (owner_id : Uuid) (cs : List Conversation)
      → All (IsRemaining owner_id (conversation_ids (select_where (is_owned_group owner_id) cs))) cs
  unfolding conversation_ids
  selected-IsRemaining owner_id cs =
      let owned = select_where (is_owned_group owner_id) cs in
      All-of (IsRemaining owner_id (conversation_ids owned)) cs (λ c m.
        elim (Bool-cases (is_owned_group owner_id c)) [
          | inl t ↦
              let listed : has c.id (conversation_ids owned) ≡ true =
                has-map (λ (x : Conversation). x.id) owned c
                  (In-select (is_owned_group owner_id) cs c m t) in
              ground (arith, t, listed)
          | inr t ↦ ground (arith, t)
        ])

module _ (run : Uuid → GroupRun) (now : Date) (operator_id : Uuid) where
  dissolve_each-IsRemaining :
      (owner_id : Uuid) (cs : List Conversation) (db : Db)
      → All (IsRemaining run owner_id (conversation_ids cs)) db.conversations
      → All (IsRemaining run owner_id []) (dissolve_each run now operator_id cs db).0.conversations
  unfolding dissolve_each burn_group conversation_ids is_owned_group has
  dissolve_each-IsRemaining owner_id [] db h = h
  dissolve_each-IsRemaining owner_id (c ∷ cs) db h =
      dissolve_each-IsRemaining owner_id cs
        (if is_committed (run c.id) then burn_group db now c.id operator_id else db)
        (if_cases (λ (x : Db). All (IsRemaining run owner_id (conversation_ids cs)) x.conversations)
          (is_committed (run c.id)) (burn_group db now c.id operator_id) db
          (λ t.
            All-update_to (IsRemaining run owner_id (conversation_ids (c ∷ cs)))
              (IsRemaining run owner_id (conversation_ids cs)) (conversation_is c.id)
              (λ x. record x { dissolved_at = some now; dissolved_by = some operator_id })
              db.conversations (λ a k r. ground arith) (λ a k r. ground arith) h)
          (λ t.
            All-imply (IsRemaining run owner_id (conversation_ids (c ∷ cs)))
              (IsRemaining run owner_id (conversation_ids cs)) db.conversations
              (λ x r. elim (Bool-cases (x.id == c.id)) [
                | inl e ↦ ground (arith, t, run-same run c.id x.id e)
                | inr e ↦ ground (arith, e, r)
              ])
              h))

  dissolve_each-IsAwaiting :
      (all : List Uuid) (later : Date)
      → now ≤ later
      → (cs : List Conversation) (db : Db)
      → All (IsAwaiting run all later (conversation_ids cs)) db.messages
      → All (IsAwaiting run all later []) (dissolve_each run now operator_id cs db).0.messages
  unfolding dissolve_each burn_group conversation_ids is_expired has
  dissolve_each-IsAwaiting all later le [] db h = h
  dissolve_each-IsAwaiting all later le (c ∷ cs) db h =
      dissolve_each-IsAwaiting all later le cs
        (if is_committed (run c.id) then burn_group db now c.id operator_id else db)
        (if_cases (λ (x : Db). All (IsAwaiting run all later (conversation_ids cs)) x.messages)
          (is_committed (run c.id)) (burn_group db now c.id operator_id) db
          (λ t.
            All-update_to (IsAwaiting run all later (conversation_ids (c ∷ cs)))
              (IsAwaiting run all later (conversation_ids cs))
              (λ m. m.conversation_id == c.id && not m.is_destroyed)
              (λ m. record m { destroy_at = some now }) db.messages
              (λ a k r. ground (arith, le→leb now later le)) (λ a k r. ground arith) h)
          (λ t.
            All-imply (IsAwaiting run all later (conversation_ids (c ∷ cs)))
              (IsAwaiting run all later (conversation_ids cs)) db.messages
              (λ m r. elim (Bool-cases (m.conversation_id == c.id)) [
                | inl e ↦ ground (arith, t, run-same run c.id m.conversation_id e)
                | inr e ↦ ground (arith, e, r)
              ])
              h))

  burn_group-IsConfined :
      (db : Db) (k : Uuid)
      → is_committed (run k) ≡ true
      → IsConfined run db (burn_group db now k operator_id)
  unfolding burn_group
  burn_group-IsConfined db k t =
      let test = λ (m : Message). m.conversation_id == k && not m.is_destroyed in
      let burn = λ (m : Message). record m { destroy_at = some now } in
      (
        map-update_same (λ (m : Message). record m { destroy_at = none }) test burn db.messages
            (λ x. refl),
        select-update_other (λ c. not (is_committed (run c.id))) (conversation_is k)
            (λ c. record c { dissolved_at = some now; dissolved_by = some operator_id })
            db.conversations (λ c e. ground (arith, t, run-same run k c.id e)) (λ c. refl),
        select-update_other (λ m. not (is_committed (run m.conversation_id))) test burn db.messages
            (λ m e. ground (arith, t, e, run-same run k m.conversation_id (ground (arith, e))))
            (λ m. refl),
      )

  dissolve_each-IsConfined :
      (cs : List Conversation) (db : Db)
      → IsConfined run db (dissolve_each run now operator_id cs db).0
  unfolding dissolve_each
  dissolve_each-IsConfined [] db = (refl, refl, refl)
  dissolve_each-IsConfined (c ∷ cs) db =
      let next = if is_committed (run c.id) then burn_group db now c.id operator_id else db in
      let (a, b, d) =
        if_cases (IsConfined run db) (is_committed (run c.id)) (burn_group db now c.id operator_id)
          db (λ t. burn_group-IsConfined db c.id t) (λ t. (refl, refl, refl)) in
      let (a', b', d') = dissolve_each-IsConfined cs next in (a' ∙ a, b' ∙ b, d' ∙ d)

  dissolve_each-counts :
      (cs : List Conversation) (db : Db)
      → (dissolve_each run now operator_id cs db).2 ≡ count_where (λ c. is_complete (run c.id)) cs
  unfolding dissolve_each count_where
  dissolve_each-counts [] db = refl
  dissolve_each-counts (c ∷ cs) db =
      ap (λ n. (if is_complete (run c.id) then 1 else 0) + n)
        (dissolve_each-counts cs
          (if is_committed (run c.id) then burn_group db now c.id operator_id else db))

-- The deletion of a user's account, where some groups' transactions are rolled back and others are
-- committed: the user owns no group that is not dissolved but those rolled back, each live message
-- of the other groups that the user owned is expired, the messages change in their deadlines only,
-- the rows and messages of the groups rolled back do not change, and the count is that of the
-- groups that completed.
pub dissolve_groups_on_account_delete-burns :
    (run : Uuid → GroupRun) (db : Db) (now : Date) (owner_id operator_id : Uuid) (later : Date)
    → now ≤ later
    → let done = dissolve_groups_on_account_delete run db now owner_id operator_id in
      let owned = select_where (is_owned_group owner_id) db.conversations in
      (exists_where (is_kept_group run owner_id) done.db.conversations ≡ false)
      × (exists_where (is_left run (conversation_ids owned) later) done.db.messages ≡ false)
      × (undated done.db.messages ≡ undated db.messages)
      × (select_where (λ c. not (is_committed (run c.id))) done.db.conversations
          ≡ select_where (λ c. not (is_committed (run c.id))) db.conversations)
      × (select_where (λ m. not (is_committed (run m.conversation_id))) done.db.messages
          ≡ select_where (λ m. not (is_committed (run m.conversation_id))) db.messages)
      × (done.value.dissolved ≡ count_where (λ c. is_complete (run c.id)) owned)
unfolding dissolve_groups_on_account_delete has
dissolve_groups_on_account_delete-burns run db now owner_id operator_id later le =
    let owned = select_where (is_owned_group owner_id) db.conversations in
    let all = conversation_ids owned in
    let done = dissolve_each run now operator_id owned db in
    let (a, b, c) = dissolve_each-IsConfined run now operator_id owned db in
    let gone =
      dissolve_each-IsRemaining run now operator_id owner_id owned db
        (selected-IsRemaining run owner_id db.conversations) in
    let burnt =
      dissolve_each-IsAwaiting run now operator_id all later le owned db
        (All-of (IsAwaiting run all later all) db.messages (λ m i. ground arith)) in
    (
      none-passes (is_kept_group run owner_id) done.0.conversations (
          All-imply (IsRemaining run owner_id []) (λ x. is_kept_group run owner_id x ≡ false)
            done.0.conversations (λ x r. ground (arith, r)) gone),
      none-passes (is_left run all later) done.0.messages (
          All-imply (IsAwaiting run all later []) (λ x. is_left run all later x ≡ false)
            done.0.messages (λ x r. ground (arith, r)) burnt),
      a,
      b,
      c,
      dissolve_each-counts run now operator_id owned db,
    )
