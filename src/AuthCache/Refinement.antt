-- ===== src/AuthCache/Refinement.antt =====
-- The cache refines a partial function from pairs of ids to entries.
use fenxin.Prelude.{
  ℕ, ◌<◌, ◌≡◌, refl, ◌∙◌, sym, ap, subst, if_cases, inl, inr, true, false, ◌&&◌, Option, none, some,
  [], ◌∷◌, ◌++◌, arith, ◌==◌, ltb, lt→ltb, if◌then◌else◌, find_one, delete_where, exists_where,
  upsert_where, update_where, Bool-cases, find_one-upsert,
}
use fenxin.Entities.{Uuid, Date}
use fenxin.AuthCache.{
  AuthContext, Entry, Cache, entry_is, is_entry_of, lookup, is_stale, get_found, get, new_entry,
  set, invalidate,
}
use mathlib.Core.Path.{fun_ext}

-- The abstract view: what is stored for a user and a device.
abbrev pub Store : Type 0
Store = Uuid → Uuid → Option Entry

-- The store, changed at one pair, or at all pairs of a user.
abbrev pub update : Store → Uuid → Uuid → Option Entry → Store
update f u d value u' d' = if u' == u && d' == d then value else f u' d'

abbrev pub clear_user : Store → Uuid → Store
clear_user f u u' d' = if u' == u then none else f u' d'

-- What the abstract cache answers: an entry that is not stale.
abbrev pub fresh : ℕ → Date → Option Entry → Option AuthContext
fresh ttl now none = none
fresh ttl now (some e) = if is_stale ttl now e then none else some e.context

delete-others :
    (u d u' d' : Uuid) (cache : Cache)
    → lookup (delete_where (entry_is u d) cache) u' d' ≡ update (lookup cache) u d none u' d'
unfolding lookup delete_where find_one
delete-others u d u' d' [] = ground arith
delete-others u d u' d' (e ∷ cache) = ground (arith, delete-others u d u' d' cache)

delete-user :
    (u u' d' : Uuid) (cache : Cache)
    → lookup (delete_where (is_entry_of u) cache) u' d' ≡ clear_user (lookup cache) u u' d'
unfolding lookup delete_where find_one
delete-user u u' d' [] = ground arith
delete-user u u' d' (e ∷ cache) = ground (arith, delete-user u u' d' cache)

update-others :
    (u d u' d' : Uuid) (entry : Entry) (cache : Cache)
    → (u' == u && d' == d) ≡ false
    → entry_is u d entry ≡ true
    → lookup (update_where (entry_is u d) (λ _. entry) cache) u' d' ≡ lookup cache u' d'
unfolding lookup update_where find_one
update-others u d u' d' entry [] h k = refl
update-others u d u' d' entry (e ∷ cache) h k =
    ground (arith, h, k, update-others u d u' d' entry cache h k)

append-others :
    (u' d' : Uuid) (entry : Entry) (cache : Cache)
    → entry_is u' d' entry ≡ false
    → lookup (cache ++ entry ∷ []) u' d' ≡ lookup cache u' d'
unfolding lookup find_one
append-others u' d' entry [] h = rw h refl
append-others u' d' entry (e ∷ cache) h = ground (arith, append-others u' d' entry cache h)

set_store :
    (u d u' d' : Uuid) (entry : Entry) (cache : Cache)
    → entry_is u d entry ≡ true
    → lookup (upsert_where (entry_is u d) entry cache) u' d'
      ≡ update (lookup cache) u d (some entry) u' d'
unfolding lookup upsert_where
set_store u d u' d' entry cache k = elim (Bool-cases (u' == u && d' == d)) [
  | inl t ↦
      let users : u ≡ u' = ground arith in
      let devices : d ≡ d' = ground arith in
      let after = upsert_where (entry_is u d) entry cache in
      rw t (
        subst (λ x. lookup after x d' ≡ some entry) users
          (subst (λ y. lookup after u y ≡ some entry) devices
            (find_one-upsert (entry_is u d) entry cache k)))
  | inr t ↦
      let away : entry_is u' d' entry ≡ false = ground arith in
      rw t (
        if_cases (λ (x : Cache). lookup x u' d' ≡ lookup cache u' d')
          (exists_where (entry_is u d) cache) (update_where (entry_is u d) (λ _. entry) cache)
          (cache ++ entry ∷ []) (λ _. update-others u d u' d' entry cache t k)
          (λ _. append-others u' d' entry cache away))
]

lookup-empty : (u d : Uuid) → lookup [] u d ≡ none
unfolding lookup find_one
lookup-empty u d = refl

-- What `get` leaves of an entry: nothing once it is stale.
abbrev pub kept : ℕ → Date → Option Entry → Option Entry
kept ttl now none = none
kept ttl now (some e) = if is_stale ttl now e then none else some e

update_self :
    (cache : Cache) (u d u' d' : Uuid)
    → update (lookup cache) u d (lookup cache u d) u' d' ≡ lookup cache u' d'
update_self cache u d u' d' = elim (Bool-cases (u' == u && d' == d)) [
  | inl t ↦
      let users : u ≡ u' = ground arith in
      let devices : d ≡ d' = ground arith in
      rw t (ap (λ x. lookup cache x d) users ∙ ap (lookup cache u') devices)
  | inr t ↦ rw t refl
]

get_store :
    (ttl : ℕ) (now : Date) (cache : Cache) (u d u' d' : Uuid) (found : Option Entry)
    → lookup cache u d ≡ found
    → ((get_found ttl now cache u d found).0 ≡ fresh ttl now found)
      × (lookup (get_found ttl now cache u d found).1 u' d'
          ≡ update (lookup cache) u d (kept ttl now found) u' d')
unfolding get_found
get_store ttl now cache u d u' d' none e = (
  refl,
  sym (
      subst (λ x. update (lookup cache) u d x u' d' ≡ lookup cache u' d') e
        (update_self cache u d u' d')),
)
get_store ttl now cache u d u' d' (some x) e = elim (Bool-cases (is_stale ttl now x)) [
  | inl t ↦ rw t (refl, delete-others u d u' d' cache)
  | inr t ↦ rw t (
    refl,
    sym (
        subst (λ y. update (lookup cache) u d y u' d' ≡ lookup cache u' d') e
          (update_self cache u d u' d')),
  )
]

-- While the cache is on, its operations are those of a partial function: `get` answers with the
-- entry of the pair unless it is stale and forgets a stale one, `set` changes the function at one
-- pair, and `invalidate` clears one pair, all pairs of a user, or everything.
pub cache_refines :
    (ttl : ℕ) (now : Date) (cache : Cache) (u d : Uuid) (context : AuthContext)
    → 0 < ttl
    → ((get ttl now cache u d).0 ≡ fresh ttl now (lookup cache u d))
      × (lookup (get ttl now cache u d).1
          ≡ update (lookup cache) u d (kept ttl now (lookup cache u d)))
      × (lookup (set ttl now cache u d context)
          ≡ update (lookup cache) u d (some (new_entry now u d context)))
      × (lookup (invalidate cache (some u) (some d)).0 ≡ update (lookup cache) u d none)
      × (lookup (invalidate cache (some u) none).0 ≡ clear_user (lookup cache) u)
      × (lookup (invalidate cache none none).0 ≡ (λ _ _. none))
unfolding get set invalidate
cache_refines ttl now cache u d context h =
    let on : ltb 0 ttl ≡ true = lt→ltb 0 ttl h in
    let found = lookup cache u d in
    (
      rw on (get_store ttl now cache u d u d found refl).0,
      rw on (fun_ext λ u'. fun_ext λ d'. (get_store ttl now cache u d u' d' found refl).1),
      rw on (
          fun_ext λ u'.
            fun_ext λ d'. set_store u d u' d' (new_entry now u d context) cache (ground arith)),
      fun_ext λ u'. fun_ext λ d'. delete-others u d u' d' cache,
      fun_ext λ u'. fun_ext λ d'. delete-user u u' d' cache,
      fun_ext λ u'. fun_ext λ d'. lookup-empty u' d',
    )
