-- ===== src/Auth/Lockout.antt =====
-- The lock of an account: how many passwords can be tried.
use fenxin.Prelude.{
  ℕ, ◌+◌, ◌-◌, ◌<◌, ◌≤◌, ◌≡◌, ◌⊎◌, refl, sym, ap, subst, inl, inr, Bool, true, false, some, List,
  [], ◌∷◌, arith, lt→ltb, leb, if◌then◌else◌, All, find_one, Bool-cases, find_one-update_found,
  if_cases, ==_refl,
}
use fenxin.Entities.{Uuid, Date, Text, AppUser, user_is, same_text}
use fenxin.Result.{Result, Error, account_disabled, ok, err, unauthorized, account_locked}
use fenxin.Env.{Env}
use fenxin.Guard.{is_usable}
use fenxin.Auth.{Server, refuse, Jwt, Passwords, update_user}
use fenxin.Auth.Login.{
  DeviceInfo, max_login_fails, lock_duration, phone_is, is_locked, check_login, record_failure,
  fail_login, login_checked, login,
}

-- A login at a time, with a password.
pub record Attempt : Type 0 where
  pub at : Date
  pub password : Text
  pub info : DeviceInfo
  pub uuid : Uuid
  pub random_id : Text

abbrev is_ok {κ} : {A : Type κ} → Result A → Bool
is_ok (ok a) = true
is_ok (err e) = false

-- Whether the login goes on to verify the password.
unfoldable pub is_verified : Server → Date → Text → Bool
unfolding check_login
is_verified s now phone = is_ok (check_login s.db now phone)

module _ (env : Env) (jwt : Jwt) (passwords : Passwords) (phone : Text) where
  abbrev pub attempt : Attempt → Server → Server
  attempt a s = (login env jwt passwords a.uuid a.random_id s a.at phone a.password a.info).server

  -- The logins one after the other: the number of passwords that are verified.
  unfoldable pub count_verified : List Attempt → Server → ℕ
  unfolding login is_verified
  count_verified [] s = 0
  count_verified (a ∷ rest) s =
      (if is_verified s a.at phone then 1 else 0) + count_verified rest (attempt a s)

  -- A wrong password, in the quarter of an hour from `start`.
  abbrev pub IsGuess : AppUser → Date → Attempt → Type 0
  IsGuess u start a =
      (passwords.matches u.password_hash a.password ≡ false)
      × (start ≤ a.at)
      × (a.at < start + lock_duration)

  failure-fields :
      (now : Date) (u x : AppUser)
      → ((record_failure now u x).phone ≡ x.phone)
        × ((record_failure now u x).password_hash ≡ x.password_hash)
        × ((record_failure now u x).id ≡ x.id)
  failure-fields now u x =
      if_cases
        (λ (y : AppUser). (y.phone ≡ x.phone) × (y.password_hash ≡ x.password_hash) × (y.id ≡ x.id))
        (leb max_login_fails (u.login_fail_count + 1))
        (record x { login_fail_count = 0; locked_until = some (now + lock_duration) })
        (record x { login_fail_count = u.login_fail_count + 1 }) (λ _. (refl, refl, refl))
        (λ _. (refl, refl, refl))

  quiet-attempt :
      (s : Server) (a : Attempt) (e : Error)
      → check_login s.db a.at phone ≡ err e
      → (is_verified s a.at phone ≡ false) × (attempt a s ≡ s)
  unfolding login is_verified
  quiet-attempt s a e h = (
    rw h refl,
    subst
        (λ r.
          (login_checked env jwt passwords a.uuid a.random_id s a.at a.password a.info r).server
          ≡ s)
        (sym h) refl,
  )

  wrong-attempt :
      (s : Server) (a : Attempt) (u : AppUser)
      → check_login s.db a.at phone ≡ ok u
      → passwords.matches u.password_hash a.password ≡ false
      → (is_verified s a.at phone ≡ true) × (attempt a s ≡ (fail_login s a.at u).server)
  unfolding login is_verified
  wrong-attempt s a u h wrong = (
    rw h refl,
    subst
        (λ r.
          (login_checked env jwt passwords a.uuid a.random_id s a.at a.password a.info r).server
          ≡ (fail_login s a.at u).server)
        (sym h) (rw wrong refl),
  )

  -- A guess is refused without a change, or recorded in the account's row.
  guess-cases :
      (s : Server) (u : AppUser) (a : Attempt)
      → find_one (phone_is phone) s.db.users ≡ some u
      → passwords.matches u.password_hash a.password ≡ false
      → ((is_verified s a.at phone ≡ false) × (attempt a s ≡ s))
        ⊎ ((is_verified s a.at phone ≡ true)
            × (is_locked a.at u.locked_until ≡ false)
            × (find_one (phone_is phone) (attempt a s).db.users ≡ some (record_failure a.at u u)))
  unfolding check_login fail_login update_user
  guess-cases s u a found wrong = elim (Bool-cases (is_locked a.at u.locked_until)) [
    | inl t ↦ inl (quiet-attempt s a (unauthorized account_locked) (rw (found, t) refl))
    | inr t ↦ elim (Bool-cases (is_usable u)) [
      | inl k ↦
          let (verified, same) = wrong-attempt s a u (rw (found, t, k) refl) wrong in
          inr (
            verified,
            t,
            subst
                (λ (x : Server).
                  find_one (phone_is phone) x.db.users ≡ some (record_failure a.at u u))
                (sym same)
                (find_one-update_found (phone_is phone) (user_is u.id) (record_failure a.at u)
                  s.db.users u (λ x. ap (λ p. same_text p phone) (failure-fields a.at u x).0) found
                  (==_refl u.id)),
          )
      | inr k ↦ inl (quiet-attempt s a (unauthorized account_disabled) (rw (found, t, k) refl))
    ]
  ]

  -- The account stays locked through the window.
  locked-none :
      (u : AppUser) (start : Date) (guesses : List Attempt) (s : Server)
      → find_one (phone_is phone) s.db.users ≡ some u
      → ((a : Attempt) → a.at < start + lock_duration → is_locked a.at u.locked_until ≡ true)
      → All (IsGuess u start) guesses
      → count_verified guesses s ≡ 0
  unfolding count_verified
  locked-none u start [] s found locked all = refl
  locked-none u start (a ∷ rest) s found locked all = elim (guess-cases s u a found all.0.0) [
    | inl (quiet, same) ↦
        rw (quiet, same) (omega (arith, locked-none u start rest s found locked all.1))
    | inr (verified, unlocked, after) ↦ cc (unlocked, locked a all.0.2)
  ]

  All-recorded :
      (now start : Date) (u : AppUser) (guesses : List Attempt)
      → All (IsGuess u start) guesses
      → All (IsGuess (record_failure now u u) start) guesses
  All-recorded now start u [] h = tt
  All-recorded now start u (a ∷ rest) h =
      ((rw ((failure-fields now u u).1) h.0.0, h.0.1, h.0.2), All-recorded now start u rest h.1)

  locked-until :
      (now start : Date) (u : AppUser) (at : Date)
      → leb max_login_fails (u.login_fail_count + 1) ≡ true
      → start ≤ now
      → at < start + lock_duration
      → is_locked at (record_failure now u u).locked_until ≡ true
  locked-until now start u at t h early = rw t (lt→ltb at (now + lock_duration) (omega arith))

  failure-count :
      (now : Date) (u : AppUser)
      → leb max_login_fails (u.login_fail_count + 1) ≡ false
      → (record_failure now u u).login_fail_count ≡ u.login_fail_count + 1
  failure-count now u t = rw t refl

  guesses-bounded :
      (n : ℕ) (u : AppUser) (start : Date) (guesses : List Attempt) (s : Server)
      → find_one (phone_is phone) s.db.users ≡ some u
      → max_login_fails ≤ u.login_fail_count + n
      → 0 < n
      → All (IsGuess u start) guesses
      → count_verified guesses s ≤ n
  unfolding count_verified
  guesses-bounded n u start [] s found enough more all = omega arith
  guesses-bounded n u start (a ∷ rest) s found enough more all =
      elim (guess-cases s u a found all.0.0) [
        | inl (quiet, same) ↦
            rw (quiet, same)
              (omega (arith, guesses-bounded n u start rest s found enough more all.1))
        | inr (verified, unlocked, after) ↦
            rw verified (elim (Bool-cases (leb max_login_fails (u.login_fail_count + 1))) [
              | inl t ↦
                  let quiet =
                    locked-none (record_failure a.at u u) start rest (attempt a s) after
                      (λ x early. locked-until a.at start u x.at t all.0.1 early)
                      (All-recorded a.at start u rest all.1) in
                  omega (arith, quiet, more)
              | inr t ↦
                  let few = failure-count a.at u t in
                  let under : u.login_fail_count + 1 < max_login_fails = ground arith in
                  let later =
                    guesses-bounded (n - 1) (record_failure a.at u u) start rest (attempt a s) after
                      (omega (arith, few, enough, under)) (omega (arith, enough, under))
                      (All-recorded a.at start u rest all.1) in
                  omega (arith, later, more)
            ])
      ]

-- However many wrong passwords are sent for an account within a quarter of an hour, at most five of
-- them are verified, whatever the account's row says at the start.
pub count_verified_bounded :
    (env : Env) (jwt : Jwt) (passwords : Passwords) (phone : Text) (s : Server) (u : AppUser)
    (start : Date) (guesses : List Attempt)
    → find_one (phone_is phone) s.db.users ≡ some u
    → All (IsGuess env jwt passwords phone u start) guesses
    → count_verified env jwt passwords phone guesses s ≤ max_login_fails
count_verified_bounded env jwt passwords phone s u start guesses found all =
    guesses-bounded env jwt passwords phone max_login_fails u start guesses s found (omega arith)
      (omega arith) all

-- While an account is locked, a login is refused even with the right password, and it changes
-- nothing.
pub login-locked :
    (env : Env) (jwt : Jwt) (passwords : Passwords) (uuid : Uuid) (random_id : Text) (s : Server)
    (now until : Date) (phone password : Text) (info : DeviceInfo) (u : AppUser)
    → find_one (phone_is phone) s.db.users ≡ some u
    → u.locked_until ≡ some until
    → now < until
    → login env jwt passwords uuid random_id s now phone password info
      ≡ refuse s (unauthorized account_locked)
unfolding login check_login
login-locked env jwt passwords uuid random_id s now until phone password info u found locked h =
    let t : is_locked now u.locked_until ≡ true = ground (arith, lt→ltb now until h) in
    rw (found, t) refl
