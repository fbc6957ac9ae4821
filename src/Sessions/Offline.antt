-- ===== src/Sessions/Offline.antt =====
-- `forceOfflineDevice` deletes a device and does not tell the guard's cache: what the device may
-- still do, and for how long.
use fenxin.Prelude.{
  ℕ, ◌+◌, ◌-◌, ◌<◌, ◌≤◌, ◌≡◌, ◌≢◌, refl, ◌∙◌, sym, subst, inl, inr, true, false, ◌&&◌, Option, none,
  some, List, [], ◌∷◌, ◌++◌, arith, ◌==◌, lt→ltb, if◌then◌else◌, All, All-find, All-delete,
  All-update, All-append, find_one, exists_where, update_where, delete_where, upsert_where,
  Bool-cases, Option-cases, find_one-passes, find_one-delete, if_cases,
}
use fenxin.Entities.{Uuid, Date, Text, Device, Db, device_is, device_of}
use fenxin.Result.{Result, ok, err, ◌>>=◌, >>=-eq-ok}
use fenxin.Env.{Env, auth_cache_ttl}
use fenxin.AuthCache.{
  AuthContext, Entry, Cache, entry_is, lookup, is_stale, is_enabled, get_found, get, new_entry, set,
}
use fenxin.Guard.{
  AuthPayload, Request, Session, check_context, store_context, context_or, load_context, admit,
  read_token, authorize, can_activate,
}
use fenxin.Auth.{Server, Jwt}
use fenxin.Account.{force_offline_device}
use fenxin.Sessions.{serve}
use fenxin.Sessions.Stable.{check_context-found}

find_one-none :
    (u d : Uuid) (ds : List Device)
    → find_one (device_is d) ds ≡ none
    → find_one (device_of d u) ds ≡ none
unfolding find_one
find_one-none u d [] h = refl
find_one-none u d (x ∷ ds) h = ground (arith, find_one-none u d ds)

gone-device :
    (s : Server) (d operator_id : Uuid) (row : Device)
    → find_one (device_is d) s.db.devices ≡ some row
    → (find_one (device_is d) (force_offline_device s d operator_id).server.db.devices ≡ none)
      × ((force_offline_device s d operator_id).server.cache ≡ s.cache)
unfolding force_offline_device
gone-device s d operator_id row e = rw e (find_one-delete (device_is d) s.db.devices, refl)

-- While an entry for the device is not stale, a request with its token is admitted although the
-- device has been forced offline and the database no longer knows it.
pub force_offline_device-stale :
    (env : Env) (jwt : Jwt) (s : Server) (operator_id : Uuid) (row : Device) (now : Date)
    (req : Request) (payload : AuthPayload) (e : Entry) (context : AuthContext)
    → 0 < auth_cache_ttl env
    → find_one (device_is payload.device_id) s.db.devices ≡ some row
    → lookup s.cache payload.user_id payload.device_id ≡ some e
    → is_stale (auth_cache_ttl env) now e ≡ false
    → e.context.user.force_change_pwd ≡ false
    → req.is_public ≡ false
    → read_token jwt.verify_access now req.authorization ≡ ok payload
    → ((can_activate jwt.verify_access
          (auth_cache_ttl env)
          now
          (force_offline_device s payload.device_id operator_id).server.db
          (force_offline_device s payload.device_id operator_id).server.cache
          req).0
        ≡ ok (some (record { payload = payload; context = e.context })))
      × (check_context
            (force_offline_device s payload.device_id operator_id).server.db
            payload.user_id
            payload.device_id
          ≢ ok context)
unfolding can_activate load_context get get_found admit
force_offline_device-stale env jwt s operator_id row now req payload e context on stored cached
      young free guarded token =
    let t = (force_offline_device s payload.device_id operator_id).server in
    let (gone, kept) = gone-device s payload.device_id operator_id row stored in
    let enabled = lt→ltb 0 (auth_cache_ttl env) on in
    let found : lookup t.cache payload.user_id payload.device_id ≡ some e =
      subst (λ (c : Cache). lookup c payload.user_id payload.device_id ≡ some e) (sym kept)
        cached in
    (
      rw (guarded, token, enabled, found, young, free) refl,
      λ h.
          (let (x, y, a, b) =
              check_context-found t.db payload.user_id payload.device_id context h in
            cc (b, find_one-none payload.user_id payload.device_id t.db.devices gone)),
    )

-- An entry of the device is from the time `bound` or before.
abbrev pub IsOld : Uuid → Uuid → Date → Entry → Type 0
IsOld u d bound e = entry_is u d e ≡ true → e.cached_at ≤ bound

set-IsOld :
    (ttl : ℕ) (now : Date) (cache : Cache) (u d u' d' : Uuid) (bound : Date) (context : AuthContext)
    → (u' == u && d' == d) ≡ false
    → All (IsOld u d bound) cache
    → All (IsOld u d bound) (set ttl now cache u' d' context)
unfolding set upsert_where
set-IsOld ttl now cache u d u' d' bound context away old =
    let entry = new_entry now u' d' context in
    let other : IsOld u d bound entry = λ t. absurd (ground arith) in
    let rows = update_where (entry_is u' d') (λ _. entry) cache in
    let more = cache ++ entry ∷ [] in
    if_cases (λ (c : Cache). All (IsOld u d bound) c) (is_enabled ttl)
      (if exists_where (entry_is u' d') cache then rows else more) cache
      (λ _.
        if_cases (λ (c : Cache). All (IsOld u d bound) c) (exists_where (entry_is u' d') cache) rows
          more
          (λ _.
            All-update (IsOld u d bound) (entry_is u' d') (λ _. entry) cache (λ x t k. other) old)
          (λ _. All-append (IsOld u d bound) cache (entry ∷ []) old (other, tt)))
      (λ _. old)

store-IsOld :
    (ttl : ℕ) (now : Date) (db : Db) (cache : Cache) (u d u' d' : Uuid) (bound : Date)
    (r : Result AuthContext)
    → find_one (device_of d u) db.devices ≡ none
    → check_context db u' d' ≡ r
    → All (IsOld u d bound) cache
    → All (IsOld u d bound) (store_context ttl now cache u' d' r).1
store-IsOld ttl now db cache u d u' d' bound (err e) gone h old = old
store-IsOld ttl now db cache u d u' d' bound (ok context) gone h old =
    elim (Bool-cases (u' == u && d' == d)) [
      | inl t ↦
          let users : u' ≡ u = ground arith in
          let devices : d' ≡ d = ground arith in
          let (x, y, a, b) = check_context-found db u' d' context h in
          let found : find_one (device_of d u) db.devices ≡ some y =
            subst (λ k. find_one (device_of k u) db.devices ≡ some y) devices
              (subst (λ k. find_one (device_of d' k) db.devices ≡ some y) users b) in
          cc (found, gone)
      | inr t ↦ set-IsOld ttl now cache u d u' d' bound context t old
    ]

get-IsOld :
    (ttl : ℕ) (now : Date) (cache : Cache) (u d u' d' : Uuid) (bound : Date)
    → All (IsOld u d bound) cache
    → All (IsOld u d bound) (get ttl now cache u' d').1
unfolding get get_found
get-IsOld ttl now cache u d u' d' bound old =
    if_cases (λ (r : Option AuthContext × Cache). All (IsOld u d bound) r.1) (is_enabled ttl)
      (get_found ttl now cache u' d' (lookup cache u' d')) (none, cache)
      (λ _. elim (Option-cases (lookup cache u' d')) [
        | inl e ↦ rw e old
        | inr (x, e) ↦ rw e (
            if_cases (λ (r : Option AuthContext × Cache). All (IsOld u d bound) r.1)
              (is_stale ttl now x) (none, delete_where (entry_is u' d') cache)
              (some x.context, cache) (λ _. All-delete (IsOld u d bound) (entry_is u' d') cache old)
              (λ _. old))
      ])
      (λ _. old)

context_or-IsOld :
    (ttl : ℕ) (now : Date) (db : Db) (u d u' d' : Uuid) (bound : Date) (hit : Option AuthContext)
    (cache : Cache)
    → find_one (device_of d u) db.devices ≡ none
    → All (IsOld u d bound) cache
    → All (IsOld u d bound) (context_or ttl now db u' d' hit cache).1
context_or-IsOld ttl now db u d u' d' bound (some context) cache gone old = old
context_or-IsOld ttl now db u d u' d' bound none cache gone old =
    store-IsOld ttl now db cache u d u' d' bound (check_context db u' d') gone refl old

authorize-IsOld :
    (ttl : ℕ) (now : Date) (db : Db) (cache : Cache) (req : Request) (r : Result AuthPayload)
    (u d : Uuid) (bound : Date)
    → find_one (device_of d u) db.devices ≡ none
    → All (IsOld u d bound) cache
    → All (IsOld u d bound) (authorize ttl now db cache req r).1
unfolding load_context
authorize-IsOld ttl now db cache req (err e) u d bound gone old = old
authorize-IsOld ttl now db cache req (ok p) u d bound gone old =
    context_or-IsOld ttl now db u d p.user_id p.device_id bound
      (get ttl now cache p.user_id p.device_id).0 (get ttl now cache p.user_id p.device_id).1 gone
      (get-IsOld ttl now cache u d p.user_id p.device_id bound old)

serve-IsOld :
    (env : Env) (jwt : Jwt) (s : Server) (now : Date) (req : Request) (u d : Uuid) (bound : Date)
    → find_one (device_of d u) s.db.devices ≡ none
    → All (IsOld u d bound) s.cache
    → All (IsOld u d bound) (serve env jwt s now req).cache
unfolding serve can_activate
serve-IsOld env jwt s now req u d bound gone old =
    if_cases (λ (r : Result (Option Session) × Cache). All (IsOld u d bound) r.1) req.is_public
      (ok none, s.cache) _ (λ _. old)
      (λ _.
        authorize-IsOld (auth_cache_ttl env) now s.db s.cache req
          (read_token jwt.verify_access now req.authorization) u d bound gone old)

-- Requests, each with its time, one after the other.
unfoldable pub serve_all : Env → Jwt → List (Date × Request) → Server → Server
unfolding serve
serve_all env jwt [] s = s
serve_all env jwt ((now, req) ∷ reqs) s = serve_all env jwt reqs (serve env jwt s now req)

serve_all-IsOld :
    (env : Env) (jwt : Jwt) (reqs : List (Date × Request)) (s : Server) (u d : Uuid) (bound : Date)
    → find_one (device_of d u) s.db.devices ≡ none
    → All (IsOld u d bound) s.cache
    → ((serve_all env jwt reqs s).db ≡ s.db)
      × All (IsOld u d bound) (serve_all env jwt reqs s).cache
unfolding serve_all serve
serve_all-IsOld env jwt [] s u d bound gone old = (refl, old)
serve_all-IsOld env jwt ((now, req) ∷ reqs) s u d bound gone old =
    serve_all-IsOld env jwt reqs (serve env jwt s now req) u d bound gone
      (serve-IsOld env jwt s now req u d bound gone old)

get-old :
    (ttl : ℕ) (now : Date) (cache : Cache) (u d : Uuid) (bound : Date)
    → All (IsOld u d bound) cache
    → bound + ttl < now
    → (get ttl now cache u d).0 ≡ none
unfolding get get_found lookup
get-old ttl now cache u d bound old late =
    if_cases (λ (r : Option AuthContext × Cache). r.0 ≡ none) (is_enabled ttl)
      (get_found ttl now cache u d (lookup cache u d)) (none, cache)
      (λ _. elim (Option-cases (lookup cache u d)) [
        | inl e ↦ rw e refl
        | inr (x, e) ↦
            let past = All-find (IsOld u d bound) (entry_is u d) cache x old e in
            let at_most = past (find_one-passes (entry_is u d) cache x e) in
            let stale : is_stale ttl now x ≡ true = lt→ltb ttl (now - x.cached_at) (omega arith) in
            rw (e, stale) refl
      ])
      (λ _. refl)

store-same :
    (ttl : ℕ) (now : Date) (cache : Cache) (u d : Uuid) (r : Result AuthContext)
    → (store_context ttl now cache u d r).0 ≡ r
store-same ttl now cache u d (err e) = refl
store-same ttl now cache u d (ok context) = refl

load-missed :
    (ttl : ℕ) (now : Date) (db : Db) (cache : Cache) (u d : Uuid)
    → (get ttl now cache u d).0 ≡ none
    → (load_context ttl now db cache u d).0 ≡ check_context db u d
unfolding load_context
load-missed ttl now db cache u d e =
    rw e (store-same ttl now (get ttl now cache u d).1 u d (check_context db u d))

not_admitted :
    (verify : Date → Text → Option AuthPayload) (ttl : ℕ) (now : Date) (db : Db) (cache : Cache)
    (req : Request) (payload : AuthPayload) (session : Option Session)
    → req.is_public ≡ false
    → read_token verify now req.authorization ≡ ok payload
    → ((context : AuthContext)
        → (load_context ttl now db cache payload.user_id payload.device_id).0 ≢ ok context)
    → (can_activate verify ttl now db cache req).0 ≢ ok session
unfolding can_activate
not_admitted verify ttl now db cache req payload session guarded token missed h =
    let loaded = load_context ttl now db cache payload.user_id payload.device_id in
    let k : (loaded.0 >>= admit req payload) ≡ ok session = rw (guarded, token) at h in
    let (context, e, f) = >>=-eq-ok loaded.0 _ k in missed context e

-- Once a device has been forced offline at `now`, with no entry of the device from later than that,
-- then however many requests are served, a request with its token is refused when more
-- than the lifetime of the cache has passed.
pub force_offline_device-expires :
    (env : Env) (jwt : Jwt) (s : Server) (operator_id : Uuid) (row : Device) (now : Date)
    (reqs : List (Date × Request)) (later : Date) (req : Request) (payload : AuthPayload)
    (session : Option Session)
    → find_one (device_is payload.device_id) s.db.devices ≡ some row
    → All (IsOld payload.user_id payload.device_id now) s.cache
    → now + auth_cache_ttl env < later
    → req.is_public ≡ false
    → read_token jwt.verify_access later req.authorization ≡ ok payload
    → (can_activate jwt.verify_access
        (auth_cache_ttl env)
        later
        (serve_all env jwt reqs (force_offline_device s payload.device_id operator_id).server).db
        (serve_all env jwt reqs (force_offline_device s payload.device_id operator_id).server).cache
        req).0
      ≢ ok session
force_offline_device-expires env jwt s operator_id row now reqs later req payload session stored old
      late guarded token =
    let u = payload.user_id in
    let d = payload.device_id in
    let t = (force_offline_device s d operator_id).server in
    let (gone, kept) = gone-device s d operator_id row stored in
    let absent = find_one-none u d t.db.devices gone in
    let old_t : All (IsOld u d now) t.cache =
      subst (λ (c : Cache). All (IsOld u d now) c) (sym kept) old in
    let (same, old_end) = serve_all-IsOld env jwt reqs t u d now absent old_t in
    let end = serve_all env jwt reqs t in
    let absent_end : find_one (device_of d u) end.db.devices ≡ none =
      subst (λ (x : Db). find_one (device_of d u) x.devices ≡ none) (sym same) absent in
    not_admitted jwt.verify_access (auth_cache_ttl env) later end.db end.cache req payload session
      guarded token
      (λ context h.
        (let ok_there =
            sym (
              load-missed (auth_cache_ttl env) later end.db end.cache u d
                (get-old (auth_cache_ttl env) later end.cache u d now old_end late))
            ∙ h in
          let (x, y, a, b) = check_context-found end.db u d context ok_there in cc (b, absent_end)))
