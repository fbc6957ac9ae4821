-- ===== src/Sessions/Stable.antt =====
-- Which writes of users and devices leave what the guard's queries return.
use fenxin.Prelude.{
  ◌≡◌, refl, ◌∙◌, sym, ap, inl, inr, Bool, false, not, ◌&&◌, Option, none, some, List, [], ◌∷◌,
  ◌++◌, arith, ◌==◌, if◌then◌else◌, is_some, find_one, update_where, Option-cases, if_cases,
  find_one-update,
}
use fenxin.Entities.{Uuid, AppUser, is_active, Device, Db, user_is, device_of}
use fenxin.Result.{Result, ok, err, unauthorized, account_disabled, device_offline}
use fenxin.AuthCache.{CachedUser, CachedDevice, AuthContext}
use fenxin.Guard.{cached_user, cached_device, usable_from, check_context}
use mathlib.Core.Option

-- The context is a function of the columns that are cached.
abbrev of_device : CachedUser → Option CachedDevice → Result AuthContext
of_device c none = err (unauthorized device_offline)
of_device c (some d) = ok (record { user = c; device = d })

abbrev of_columns : Option CachedUser → Option CachedDevice → Result AuthContext
of_columns none d = err (unauthorized account_disabled)
of_columns (some c) d =
    if is_active c.status && not (is_some c.deleted_at)
    then of_device c d
    else err (unauthorized account_disabled)

usable_from-columns :
    (u : Option AppUser) (d : Option Device)
    → usable_from u d ≡ of_columns (Option.map cached_user u) (Option.map cached_device d)
usable_from-columns none d = refl
usable_from-columns (some u) none = refl
usable_from-columns (some u) (some d) = refl

map-kept :
    {A B : Type 0} (g : A → B) (f : A → A) (o : Option A)
    → ((x : A) → g (f x) ≡ g x)
    → Option.map g (Option.map f o) ≡ Option.map g o
map-kept g f none h = refl
map-kept g f (some x) h = ap some (h x)

-- Rows that give the same cached columns give the same context.
pub check_context-columns :
    (db db' : Db) (u d : Uuid)
    → Option.map cached_user (find_one (user_is u) db'.users)
      ≡ Option.map cached_user (find_one (user_is u) db.users)
    → Option.map cached_device (find_one (device_of d u) db'.devices)
      ≡ Option.map cached_device (find_one (device_of d u) db.devices)
    → check_context db' u d ≡ check_context db u d
unfolding check_context
check_context-columns db db' u d users devices =
    usable_from-columns (find_one (user_is u) db'.users) (find_one (device_of d u) db'.devices)
    ∙ ap (λ x. of_columns x (Option.map cached_device (find_one (device_of d u) db'.devices))) users
    ∙ ap (of_columns (Option.map cached_user (find_one (user_is u) db.users))) devices
    ∙ sym
        (usable_from-columns (find_one (user_is u) db.users) (find_one (device_of d u) db.devices))

-- An update that keeps the columns which the guard reads.
pub users-kept :
    (q : AppUser → Bool) (f : AppUser → AppUser) (users : List AppUser) (u : Uuid)
    → ((x : AppUser) → cached_user (f x) ≡ cached_user x)
    → Option.map cached_user (find_one (user_is u) (update_where q f users))
      ≡ Option.map cached_user (find_one (user_is u) users)
users-kept q f users u h =
    ap (Option.map cached_user)
      (find_one-update (user_is u) q f users (λ x. ap (λ (c : CachedUser). c.id == u) (h x)))
    ∙ map-kept cached_user (λ a. if q a then f a else a) (find_one (user_is u) users)
        (λ x.
          if_cases (λ (y : AppUser). cached_user y ≡ cached_user x) (q x) (f x) x (λ _. h x)
            (λ _. refl))

pub devices-kept :
    (q : Device → Bool) (f : Device → Device) (devices : List Device) (u d : Uuid)
    → ((x : Device) → cached_device (f x) ≡ cached_device x)
    → Option.map cached_device (find_one (device_of d u) (update_where q f devices))
      ≡ Option.map cached_device (find_one (device_of d u) devices)
devices-kept q f devices u d h =
    ap (Option.map cached_device) (
      find_one-update (device_of d u) q f devices
        (λ x. ap (λ (c : CachedDevice). c.id == d && c.user_id == u) (h x)))
    ∙ map-kept cached_device (λ a. if q a then f a else a) (find_one (device_of d u) devices)
        (λ x.
          if_cases (λ (y : Device). cached_device y ≡ cached_device x) (q x) (f x) x (λ _. h x)
            (λ _. refl))

-- A change of another user's row.
pub users-other :
    (id : Uuid) (f : AppUser → AppUser) (users : List AppUser) (u : Uuid)
    → ((x : AppUser) → (f x).id ≡ x.id)
    → (u == id) ≡ false
    → find_one (user_is u) (update_where (user_is id) f users) ≡ find_one (user_is u) users
unfolding find_one update_where
users-other id f [] u h away = refl
users-other id f (x ∷ users) u h away = ground (arith, h x, away, users-other id f users u h away)

-- A row that is found is found again in a longer table.
pub find_one-longer :
    {A : Type 0} (p : A → Bool) (xs ys : List A) (a : A)
    → find_one p xs ≡ some a
    → find_one p (xs ++ ys) ≡ some a
unfolding find_one
find_one-longer p [] ys a e = absurd (ground arith)
find_one-longer p (x ∷ xs) ys a e = ground (arith, find_one-longer p xs ys a)

-- A context that is given rests on a row of each table.
pub check_context-found :
    (db : Db) (u d : Uuid) (context : AuthContext)
    → check_context db u d ≡ ok context
    → (x : AppUser) × (y : Device) × (find_one (user_is u) db.users ≡ some x)
      × (find_one (device_of d u) db.devices ≡ some y)
unfolding check_context
check_context-found db u d context h = elim (Option-cases (find_one (user_is u) db.users)) [
  | inl e ↦ absurd (ground arith)
  | inr (x, e) ↦ elim (Option-cases (find_one (device_of d u) db.devices)) [
    | inl f ↦ absurd (ground arith)
    | inr (y, f) ↦ (x, y, e, f)
  ]
]
