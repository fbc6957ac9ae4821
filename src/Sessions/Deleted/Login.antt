-- ===== src/Sessions/Deleted/Login.antt =====
-- A login keeps a deleted account deleted and out of the guard's cache.
use fenxin.Prelude.{
  ◌+◌, ◌≡◌, refl, inl, inr, true, false, Option, none, some, List, [], ◌∷◌, leb, is_some,
  exists_where, All-delete, Bool-cases, if_cases,
}
use fenxin.Entities.{Uuid, Date, Text, AppUser, Device, Db}
use fenxin.Result.{Result, ok, err, Effect}
use fenxin.Env.{Env, max_devices_per_user}
use fenxin.AuthCache.{entry_is, is_entry_of, invalidate}
use fenxin.Auth.{Server, Response, Jwt, Passwords, update_user}
use fenxin.Auth.Login.{
  DeviceInfo, Seat, LoginReply, clear_failures, record_failure, max_login_fails, known_device,
  new_device, insert_device, seat_device, start_session, accept_login, fail_login, login_checked,
  is_known,
}
use fenxin.Auth.Policy.{
  session_policy, other_devices, evict, evict_all, excess_devices, limit_devices, is_single,
  apply_session_policy,
}
use fenxin.Sessions.{with_db}
use fenxin.Sessions.Deleted.{IsRevoked, update_user-IsRevoked, users-IsRevoked}

module _ (id : Uuid) where
  evict_all-IsRevoked :
      (user_id : Uuid) (ds : List Device) (s : Server)
      → IsRevoked id s
      → IsRevoked id (evict_all user_id ds s)
  unfolding evict_all evict invalidate
  evict_all-IsRevoked user_id [] s r = r
  evict_all-IsRevoked user_id (d ∷ ds) s r =
      evict_all-IsRevoked user_id ds (evict user_id s d) (record {
        gone = r.gone;
        away = All-delete (λ e. is_entry_of id e ≡ false) (entry_is user_id d.id) s.cache r.away;
      })

  limit_devices-IsRevoked :
      (user_id : Uuid) (ds : List Device) (s : Server)
      → IsRevoked id s
      → IsRevoked id (limit_devices user_id ds s).0
  unfolding limit_devices
  limit_devices-IsRevoked user_id [] s r = r
  limit_devices-IsRevoked user_id (d ∷ ds) s r = evict_all-IsRevoked user_id (d ∷ ds) s r

  policy-IsRevoked :
      (env : Env) (user_id : Uuid) (current : Device) (s : Server)
      → IsRevoked id s
      → IsRevoked id (apply_session_policy env user_id current s).0
  unfolding apply_session_policy
  policy-IsRevoked env user_id current s r =
      let others = other_devices s.db user_id current.id in
      if_cases (λ (x : Server × List Effect). IsRevoked id x.0)
        (is_single (session_policy env) others) _ _ (λ _. evict_all-IsRevoked user_id others s r)
        (λ _.
          limit_devices-IsRevoked user_id (excess_devices (max_devices_per_user env) others) s r)

  -- A new session writes devices only.
  abbrev SeatUsers : Db → Result Seat → Type 0
  SeatUsers db (err e) = Unit
  SeatUsers db (ok seat) = db.users ≡ seat.db.users

  seat-users :
      (uuid : Uuid) (random_id : Text) (now : Date) (user_id : Uuid) (info : DeviceInfo) (db : Db)
      (found : Option Device)
      → SeatUsers db (seat_device uuid random_id now user_id info db found)
  unfolding seat_device insert_device
  seat-users uuid random_id now user_id info db none =
      let d = new_device uuid random_id now user_id info in
      elim (Bool-cases (exists_where (is_known d.user_id d.device_id) db.devices)) [
        | inl t ↦ rw t tt
        | inr t ↦ rw t refl
      ]
  seat-users uuid random_id now user_id info db (some d) = refl

  start-IsRevoked :
      (env : Env) (jwt : Jwt) (now : Date) (u : AppUser) (s : Server) (seat : Result Seat)
      → SeatUsers s.db seat
      → IsRevoked id s
      → IsRevoked id (start_session env jwt now u s seat).server
  start-IsRevoked env jwt now u s (err e) same r = r
  start-IsRevoked env jwt now u s (ok seat) same r =
      policy-IsRevoked env u.id seat.device (with_db s seat.db)
        (users-IsRevoked id s seat.db same r)

  accept-IsRevoked :
      (env : Env) (jwt : Jwt) (uuid : Uuid) (random_id : Text) (s : Server) (now : Date)
      (info : DeviceInfo) (u : AppUser)
      → IsRevoked id s
      → IsRevoked id (accept_login env jwt uuid random_id s now info u).server
  unfolding accept_login
  accept-IsRevoked env jwt uuid random_id s now info u r =
      let db = update_user u.id clear_failures s.db in
      let found = known_device db u.id info.device_id in
      start-IsRevoked env jwt now u (with_db s db)
        (seat_device uuid random_id now u.id info db found)
        (seat-users uuid random_id now u.id info db found)
        (update_user-IsRevoked id s u.id clear_failures (λ x. refl) (λ x t. t) r)

  fail-IsRevoked :
      (s : Server) (now : Date) (u : AppUser)
      → IsRevoked id s
      → IsRevoked id (fail_login s now u).server
  unfolding fail_login
  fail-IsRevoked s now u r =
      update_user-IsRevoked id s u.id (record_failure now u)
        (λ x. if_cases (λ (y : AppUser). y.id ≡ x.id) _ _ _ (λ _. refl) (λ _. refl))
        (λ x t.
          if_cases (λ (y : AppUser). is_some y.deleted_at ≡ true)
            (leb max_login_fails (u.login_fail_count + 1)) _ _ (λ _. t) (λ _. t))
        r

  pub login_checked-IsRevoked :
      (env : Env) (jwt : Jwt) (passwords : Passwords) (uuid : Uuid) (random_id : Text) (s : Server)
      (now : Date) (password : Text) (info : DeviceInfo) (found : Result AppUser)
      → IsRevoked id s
      → IsRevoked id
          (login_checked env jwt passwords uuid random_id s now password info found).server
  login_checked-IsRevoked env jwt passwords uuid random_id s now password info (err e) r = r
  login_checked-IsRevoked env jwt passwords uuid random_id s now password info (ok u) r =
      if_cases (λ (x : Response LoginReply). IsRevoked id x.server)
        (passwords.matches u.password_hash password) _ _
        (λ _. accept-IsRevoked env jwt uuid random_id s now info u r)
        (λ _. fail-IsRevoked s now u r)
