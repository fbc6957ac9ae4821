-- ===== src/Guard/Context.antt =====
-- A cache that agrees with the database is not seen: the guard answers as it does without it.
use fenxin.Prelude.{
  ◌⊎◌, Bool, true, false, ℕ, ◌≡◌, refl, sym, ap, subst, inl, inr, Option, none, some, [], ◌∷◌, ◌++◌,
  arith, if◌then◌else◌, All, All-append, All-delete, All-find, All-update, find_one-passes,
  exists_where, upsert_where, update_where, Bool-cases, if_cases,
}
use fenxin.Entities.{Uuid, Date, Text, Db}
use fenxin.Result.{Result, ok, err, ◌>>=◌}
use fenxin.AuthCache.{
  AuthContext, Entry, Cache, entry_is, lookup, is_stale, is_enabled, get_found, get, new_entry, set,
}
use fenxin.Guard.{
  AuthPayload, Request, Session, check_context, store_context, context_or, load_context, admit,
  read_token, authorize, can_activate,
}

-- The guard without a cache: the token, the two queries, and the test of the password's change.
unfoldable pub can_activate_directly :
    (verify : Date → Text → Option AuthPayload) → Date → Db → Request → Result (Option Session)
unfolding read_token check_context admit
can_activate_directly verify now db req =
    let checked = read_token verify now req.authorization >>= λ payload.
    check_context db payload.user_id payload.device_id >>= admit req payload in
    if req.is_public then ok none else checked

-- `forced` tells the devices that an administrator may have forced offline.
module _ (forced : Uuid → Bool) where
  -- An entry of a device that may have been forced offline, or one that the two queries would give
  -- again.
  abbrev pub IsCurrent : Db → Entry → Type 0
  IsCurrent db e =
      (forced e.device_id ≡ true) ⊎ (check_context db e.user_id e.device_id ≡ ok e.context)

  abbrev pub IsCoherent : Db → Cache → Type 0
  IsCoherent db cache = All (IsCurrent db) cache

  -- What `get` gives: a context of the database, and a coherent cache.
  abbrev IsHit : Db → Uuid → Uuid → Option AuthContext → Type 0
  IsHit db u d none = Unit
  IsHit db u d (some context) = (forced d ≡ true) ⊎ (check_context db u d ≡ ok context)

  found-IsCurrent :
      (db : Db) (cache : Cache) (u d : Uuid) (e : Entry)
      → IsCoherent db cache
      → lookup cache u d ≡ some e
      → IsHit db u d (some e.context)
  unfolding lookup
  found-IsCurrent db cache u d e h f =
      let current = All-find (IsCurrent db) (entry_is u d) cache e h f in
      let key = find_one-passes (entry_is u d) cache e f in
      let users : e.user_id ≡ u = ground arith in
      let devices : e.device_id ≡ d = ground arith in
      subst (λ x. IsHit db x d (some e.context)) users
        (subst (λ y. IsHit db e.user_id y (some e.context)) devices current)

  get_found-IsCoherent :
      (ttl : ℕ) (now : Date) (db : Db) (cache : Cache) (u d : Uuid) (found : Option Entry)
      → IsCoherent db cache
      → lookup cache u d ≡ found
      → IsHit db u d (get_found ttl now cache u d found).0
        × IsCoherent db (get_found ttl now cache u d found).1
  unfolding get_found
  get_found-IsCoherent ttl now db cache u d none h e = (tt, h)
  get_found-IsCoherent ttl now db cache u d (some x) h e = elim (Bool-cases (is_stale ttl now x)) [
    | inl t ↦ rw t (tt, All-delete (IsCurrent db) (entry_is u d) cache h)
    | inr t ↦ rw t (found-IsCurrent db cache u d x h e, h)
  ]

  get-IsCoherent :
      (ttl : ℕ) (now : Date) (db : Db) (cache : Cache) (u d : Uuid)
      → IsCoherent db cache
      → IsHit db u d (get ttl now cache u d).0 × IsCoherent db (get ttl now cache u d).1
  unfolding get
  get-IsCoherent ttl now db cache u d h = elim (Bool-cases (is_enabled ttl)) [
    | inl t ↦ rw t (get_found-IsCoherent ttl now db cache u d (lookup cache u d) h refl)
    | inr t ↦ rw t (tt, h)
  ]

  set-IsCoherent :
      (ttl : ℕ) (now : Date) (db : Db) (cache : Cache) (u d : Uuid) (context : AuthContext)
      → IsCoherent db cache
      → check_context db u d ≡ ok context
      → IsCoherent db (set ttl now cache u d context)
  unfolding set upsert_where
  set-IsCoherent ttl now db cache u d context h e =
      let entry = new_entry now u d context in
      let rows = update_where (entry_is u d) (λ _. entry) cache in
      let more = cache ++ entry ∷ [] in
      if_cases (IsCoherent db) (is_enabled ttl)
        (if exists_where (entry_is u d) cache then rows else more) cache
        (λ _.
          if_cases (IsCoherent db) (exists_where (entry_is u d) cache) rows more
            (λ _. All-update (IsCurrent db) (entry_is u d) (λ _. entry) cache (λ x t k. inr e) h)
            (λ _. All-append (IsCurrent db) cache (entry ∷ []) h (inr e, tt)))
        (λ _. h)

  store-IsCoherent :
      (ttl : ℕ) (now : Date) (db : Db) (cache : Cache) (u d : Uuid) (r : Result AuthContext)
      → IsCoherent db cache
      → check_context db u d ≡ r
      → ((store_context ttl now cache u d r).0 ≡ r)
        × IsCoherent db (store_context ttl now cache u d r).1
  store-IsCoherent ttl now db cache u d (err x) h e = (refl, h)
  store-IsCoherent ttl now db cache u d (ok context) h e =
      (refl, set-IsCoherent ttl now db cache u d context h e)

  context_or-IsCoherent :
      (ttl : ℕ) (now : Date) (db : Db) (u d : Uuid) (hit : Option AuthContext) (cache : Cache)
      → IsHit db u d hit
      → IsCoherent db cache
      → ((forced d ≡ true) ⊎ ((context_or ttl now db u d hit cache).0 ≡ check_context db u d))
        × IsCoherent db (context_or ttl now db u d hit cache).1
  context_or-IsCoherent ttl now db u d none cache e h =
      let (same, after) = store-IsCoherent ttl now db cache u d (check_context db u d) h refl in
      (inr same, after)
  context_or-IsCoherent ttl now db u d (some context) cache (inl f) h = (inl f, h)
  context_or-IsCoherent ttl now db u d (some context) cache (inr e) h = (inr (sym e), h)

  pub load_context-IsCoherent :
      (ttl : ℕ) (now : Date) (db : Db) (cache : Cache) (u d : Uuid)
      → IsCoherent db cache
      → ((forced d ≡ true) ⊎ ((load_context ttl now db cache u d).0 ≡ check_context db u d))
        × IsCoherent db (load_context ttl now db cache u d).1
  unfolding load_context
  load_context-IsCoherent ttl now db cache u d h =
      let (hit, after) = get-IsCoherent ttl now db cache u d h in
      context_or-IsCoherent ttl now db u d (get ttl now cache u d).0 (get ttl now cache u d).1 hit
        after

  -- The token is one of a device that may have been forced offline.
  abbrev pub is_forced : Result AuthPayload → Bool
  is_forced (err e) = false
  is_forced (ok payload) = forced payload.device_id

  authorize-IsCoherent :
      (ttl : ℕ) (now : Date) (db : Db) (cache : Cache) (req : Request) (r : Result AuthPayload)
      → IsCoherent db cache
      → ((is_forced r ≡ true)
          ⊎ ((authorize ttl now db cache req r).0 ≡ (
              r >>= λ payload.
              check_context db payload.user_id payload.device_id >>= admit req payload)))
        × IsCoherent db (authorize ttl now db cache req r).1
  authorize-IsCoherent ttl now db cache req (err e) h = (inr refl, h)
  authorize-IsCoherent ttl now db cache req (ok payload) h =
      let (same, after) =
        load_context-IsCoherent ttl now db cache payload.user_id payload.device_id h in
      (elim same [ inl f ↦ inl f | inr e ↦ inr (ap (λ x. x >>= admit req payload) e) ], after)

  -- With a coherent cache, whatever its lifetime, the guard's answer is the one without a cache,
  -- but for a token of a device that may have been forced offline, and the cache that it leaves is
  -- coherent.
  pub can_activate-IsCoherent :
      (verify : Date → Text → Option AuthPayload) (ttl : ℕ) (now : Date) (db : Db) (cache : Cache)
      (req : Request)
      → IsCoherent db cache
      → ((is_forced (read_token verify now req.authorization) ≡ true)
          ⊎ ((can_activate verify ttl now db cache req).0
              ≡ can_activate_directly verify now db req))
        × IsCoherent db (can_activate verify ttl now db cache req).1
  unfolding can_activate can_activate_directly
  can_activate-IsCoherent verify ttl now db cache req h = elim (Bool-cases req.is_public) [
    | inl t ↦ rw t (inr refl, h)
    | inr t ↦
        rw t (authorize-IsCoherent ttl now db cache req (read_token verify now req.authorization) h)
  ]
