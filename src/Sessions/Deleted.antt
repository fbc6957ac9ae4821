-- ===== src/Sessions/Deleted.antt =====
-- What the operations keep of an account that has been deleted: its mark stays, and the guard's
-- cache gets no entry of it.
pub mod Login
pub mod Steps
use fenxin.Prelude.{
  ℕ, ◌≡◌, refl, ◌∙◌, ap, subst, inl, inr, Bool, true, false, Option, none, some, List, [], ◌∷◌,
  ◌++◌, arith, is_some, if◌then◌else◌, All, All-find, All-delete, All-update, All-append, find_one,
  find_one-update, find_one-passes, exists_where, update_where, delete_where, upsert_where,
  Bool-cases, Option-cases, if_cases, ◌==◌,
}
use fenxin.Entities.{Uuid, Date, Text, AppUser, Db, user_is}
use fenxin.Result.{Result, ok, err, unauthorized, account_disabled}
use fenxin.Env.{Env, auth_cache_ttl}
use fenxin.AuthCache.{
  AuthContext, Entry, Cache, entry_is, is_entry_of, lookup, is_stale, is_enabled, get_found, get,
  new_entry, set, invalidate,
}
use fenxin.Guard.{
  AuthPayload, Request, Session, is_usable, check_context, store_context, context_or, load_context,
  admit, read_token, authorize, can_activate,
}
use fenxin.Auth.{Server, Jwt, update_user, forget_user}
use fenxin.Sessions.{with_db, serve}
use fenxin.Sessions.Stable.{find_one-longer}
use mathlib.Core.Option

-- The row of the id is marked as deleted.
abbrev pub IsGone : Uuid → List AppUser → Type 0
IsGone id users =
    (x : AppUser) × (find_one (user_is id) users ≡ some x) × (is_some x.deleted_at ≡ true)

-- No entry is one of the user.
abbrev pub IsAway : Uuid → Cache → Type 0
IsAway id cache = All (λ e. is_entry_of id e ≡ false) cache

pub record IsRevoked (id : Uuid) (s : Server) : Type 0 where
  pub gone : IsGone id s.db.users
  pub away : IsAway id s.cache

-- An update that keeps the mark.
pub update-IsGone :
    (id : Uuid) (q : AppUser → Bool) (f : AppUser → AppUser) (users : List AppUser)
    → ((x : AppUser) → (f x).id ≡ x.id)
    → ((x : AppUser) → is_some x.deleted_at ≡ true → is_some (f x).deleted_at ≡ true)
    → IsGone id users
    → IsGone id (update_where q f users)
update-IsGone id q f users h k (x, e, t) = (
  if q x then f x else x,
  find_one-update (user_is id) q f users (λ y. ap (λ i. i == id) (h y))
      ∙ ap (Option.map (λ y. if q y then f y else y)) e,
  if_cases (λ (y : AppUser). is_some y.deleted_at ≡ true) (q x) (f x) x (λ _. k x t) (λ _. t),
)

pub longer-IsGone :
    (id : Uuid) (users more : List AppUser) → IsGone id users → IsGone id (users ++ more)
longer-IsGone id users more (x, e, t) = (x, find_one-longer (user_is id) users more x e, t)

pub update_user-IsRevoked :
    (id : Uuid) (s : Server) (target : Uuid) (f : AppUser → AppUser)
    → ((x : AppUser) → (f x).id ≡ x.id)
    → ((x : AppUser) → is_some x.deleted_at ≡ true → is_some (f x).deleted_at ≡ true)
    → IsRevoked id s
    → IsRevoked id (with_db s (update_user target f s.db))
unfolding update_user
update_user-IsRevoked id s target f h k r = record {
  gone = update-IsGone id (user_is target) f s.db.users h k r.gone;
  away = r.away;
}

-- The users stay as they are.
pub users-IsRevoked :
    (id : Uuid) (s : Server) (db : Db)
    → s.db.users ≡ db.users
    → IsRevoked id s
    → IsRevoked id (with_db s db)
users-IsRevoked id s db same r = record { gone = subst (IsGone id) same r.gone; away = r.away }

pub forget_user-IsRevoked :
    (id : Uuid) (s : Server) (target : Uuid) → IsRevoked id s → IsRevoked id (forget_user target s)
unfolding invalidate
forget_user-IsRevoked id s target r = record {
  gone = r.gone;
  away = All-delete (λ e. is_entry_of id e ≡ false) (is_entry_of target) s.cache r.away;
}

-- The guard's query refuses the user.
pub gone-check_context :
    (id : Uuid) (db : Db) (d : Uuid)
    → IsGone id db.users
    → check_context db id d ≡ err (unauthorized account_disabled)
unfolding check_context
gone-check_context id db d (x, e, t) =
    let unusable : is_usable x ≡ false = ground (arith, t) in rw (e, unusable) refl

set-IsAway :
    (id : Uuid) (ttl : ℕ) (now : Date) (cache : Cache) (u d : Uuid) (context : AuthContext)
    → (u == id) ≡ false
    → IsAway id cache
    → IsAway id (set ttl now cache u d context)
unfolding set upsert_where
set-IsAway id ttl now cache u d context other away =
    let entry = new_entry now u d context in
    let rows = update_where (entry_is u d) (λ _. entry) cache in
    let more = cache ++ entry ∷ [] in
    let P = λ (e : Entry). is_entry_of id e ≡ false in
    if_cases (IsAway id) (is_enabled ttl) (if exists_where (entry_is u d) cache then rows else more)
      cache
      (λ _.
        if_cases (IsAway id) (exists_where (entry_is u d) cache) rows more
          (λ _. All-update P (entry_is u d) (λ _. entry) cache (λ x t k. other) away)
          (λ _. All-append P cache (entry ∷ []) away (other, tt)))
      (λ _. away)

store-IsAway :
    (id : Uuid) (ttl : ℕ) (now : Date) (db : Db) (cache : Cache) (u d : Uuid)
    (r : Result AuthContext)
    → IsGone id db.users
    → check_context db u d ≡ r
    → IsAway id cache
    → IsAway id (store_context ttl now cache u d r).1
store-IsAway id ttl now db cache u d (err e) gone h away = away
store-IsAway id ttl now db cache u d (ok context) gone h away = elim (Bool-cases (u == id)) [
  | inl t ↦
      let same : u ≡ id = ground (arith, t) in
      let given : check_context db id d ≡ ok context =
        subst (λ k. check_context db k d ≡ ok context) same h in
      cc (given, gone-check_context id db d gone)
  | inr t ↦ set-IsAway id ttl now cache u d context t away
]

get-IsAway :
    (id : Uuid) (ttl : ℕ) (now : Date) (cache : Cache) (u d : Uuid)
    → IsAway id cache
    → IsAway id (get ttl now cache u d).1
unfolding get get_found
get-IsAway id ttl now cache u d away =
    if_cases (λ (r : Option AuthContext × Cache). IsAway id r.1) (is_enabled ttl)
      (get_found ttl now cache u d (lookup cache u d)) (none, cache)
      (λ _. elim (Option-cases (lookup cache u d)) [
        | inl e ↦ rw e away
        | inr (x, e) ↦ rw e (
            if_cases (λ (r : Option AuthContext × Cache). IsAway id r.1) (is_stale ttl now x)
              (none, delete_where (entry_is u d) cache) (some x.context, cache)
              (λ _. All-delete (λ e. is_entry_of id e ≡ false) (entry_is u d) cache away)
              (λ _. away))
      ])
      (λ _. away)

-- The cache gives nothing for the user.
away-lookup : (id : Uuid) (cache : Cache) (d : Uuid) → IsAway id cache → lookup cache id d ≡ none
unfolding lookup
away-lookup id cache d away = elim (Option-cases (find_one (entry_is id d) cache)) [
  | inl e ↦ e
  | inr (x, e) ↦
      let key = find_one-passes (entry_is id d) cache x e in
      let other = All-find (λ e. is_entry_of id e ≡ false) (entry_is id d) cache x away e in
      absurd (ground (arith, key, other))
]

away-get :
    (id : Uuid) (ttl : ℕ) (now : Date) (cache : Cache) (d : Uuid)
    → IsAway id cache
    → get ttl now cache id d ≡ (none, cache)
unfolding get get_found
away-get id ttl now cache d away =
    let missing = away-lookup id cache d away in
    if_cases (λ (r : Option AuthContext × Cache). r ≡ (none, cache)) (is_enabled ttl)
      (get_found ttl now cache id d (lookup cache id d)) (none, cache) (λ _. rw missing refl)
      (λ _. refl)

context_or-IsAway :
    (id : Uuid) (ttl : ℕ) (now : Date) (db : Db) (u d : Uuid) (hit : Option AuthContext)
    (cache : Cache)
    → IsGone id db.users
    → IsAway id cache
    → IsAway id (context_or ttl now db u d hit cache).1
context_or-IsAway id ttl now db u d (some context) cache gone away = away
context_or-IsAway id ttl now db u d none cache gone away =
    store-IsAway id ttl now db cache u d (check_context db u d) gone refl away

authorize-IsAway :
    (id : Uuid) (ttl : ℕ) (now : Date) (db : Db) (cache : Cache) (req : Request)
    (r : Result AuthPayload)
    → IsGone id db.users
    → IsAway id cache
    → IsAway id (authorize ttl now db cache req r).1
unfolding load_context
authorize-IsAway id ttl now db cache req (err e) gone away = away
authorize-IsAway id ttl now db cache req (ok p) gone away =
    context_or-IsAway id ttl now db p.user_id p.device_id
      (get ttl now cache p.user_id p.device_id).0 (get ttl now cache p.user_id p.device_id).1 gone
      (get-IsAway id ttl now cache p.user_id p.device_id away)

pub serve-IsRevoked :
    (id : Uuid) (env : Env) (jwt : Jwt) (s : Server) (now : Date) (req : Request)
    → IsRevoked id s
    → IsRevoked id (serve env jwt s now req)
unfolding serve can_activate
serve-IsRevoked id env jwt s now req r = record {
  gone = r.gone;
  away =
      if_cases (λ (x : Result (Option Session) × Cache). IsAway id x.1) req.is_public
        (ok none, s.cache) _ (λ _. r.away)
        (λ _.
          authorize-IsAway id (auth_cache_ttl env) now s.db s.cache req
            (read_token jwt.verify_access now req.authorization) r.gone r.away);
}

-- Every request with a token of the user is refused.
pub revoked-refused :
    (id : Uuid) (verify : Date → Text → Option AuthPayload) (ttl : ℕ) (now : Date) (s : Server)
    (req : Request) (payload : AuthPayload)
    → IsRevoked id s
    → req.is_public ≡ false
    → read_token verify now req.authorization ≡ ok payload
    → payload.user_id ≡ id
    → (can_activate verify ttl now s.db s.cache req).0 ≡ err (unauthorized account_disabled)
unfolding can_activate load_context admit
revoked-refused id verify ttl now s req payload r guarded token own =
    let missed = away-get id ttl now s.cache payload.device_id r.away in
    let refused = gone-check_context id s.db payload.device_id r.gone in
    rw (guarded, token, own, missed, refused) refl
