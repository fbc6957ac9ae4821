-- ===== src/Sessions/Limit.antt =====
-- The limit on the number of devices: what `applySessionPolicy` leaves of them.
use fenxin.Prelude.{
  ℕ, zero, suc, ◌+◌, ◌-◌, ◌≤◌, ◌≡◌, refl, subst, sym, inl, inr, arith, ◌==◌, ltb, true, false, not,
  ◌&&◌, exists_where, Option, none, some, List, [], ◌∷◌, map, length, drop, In, IsDistinct,
  select_where, order_by, count_where, if_cases, delete-IsDistinct, In-select_back,
  In-order_by_back, In-drop, has-map, In-delete, count-delete_lt, length-select, count-order_by,
  count-select_split, count_key_le, length-drop_le, select_keyed, order_by_keyed, drop_keyed,
  if◌then◌else◌,
}
use fenxin.Entities.{AppUser, Date, Text, Uuid, Device, Db, device_is, is_device_of}
use fenxin.Result.{Result, ok, err, Effect}
use fenxin.Env.{Env, max_devices_per_user}
use fenxin.Auth.{Server, Response, Jwt, Passwords, sanitize_user_with_prefs, update_user}
use fenxin.Auth.Login.{
  DeviceInfo, Seat, LoginReply, is_known, new_device, refresh_device, known_device, seat_device,
  start_session, accept_login, fail_login, login_checked, login, clear_failures, check_login,
}
use fenxin.Sessions.Keep.{ids_of, append-IsKeyed, ids-update}
use fenxin.Auth.Policy.{
  SessionPolicy, single, notify, allow, later_active, other_devices, evict, evict_all,
  excess_devices, limit_devices, is_single, session_policy, apply_session_policy,
}

abbrev key : Device → Uuid
key d = d.id

-- How many devices a user has.
abbrev pub device_count : Uuid → Db → ℕ
device_count user_id db = count_where (is_device_of user_id) db.devices

-- Each evicted row of the user counts.
evict_all-count :
    (u : Uuid) (ds : List Device) (s : Server)
    → IsDistinct (map key s.db.devices)
    → IsDistinct (map key ds)
    → ((d : Device) → In d ds → In d s.db.devices × (is_device_of u d ≡ true))
    → device_count u (evict_all u ds s).db + length ds ≤ device_count u s.db
unfolding evict_all evict
evict_all-count u [] s k j h = omega arith
evict_all-count u (d ∷ ds) s k j h =
    let (here, mine) = h d (inl refl) in
    let less =
      count-delete_lt (is_device_of u) (device_is d.id) s.db.devices d here mine (ground arith) in
    let rest =
      evict_all-count u ds (evict u s d) (delete-IsDistinct key (device_is d.id) s.db.devices k) j.1
        (λ e m.
          let (i, t) = h e (inr m) in
          (
            In-delete (device_is d.id) s.db.devices e i (ground (arith, j.0, has-map key ds e m)),
            t,
          )) in
    omega (arith, less, rest)

-- The other devices and the present one are all.
other_devices-count :
    (db : Db) (u c : Uuid)
    → IsDistinct (map key db.devices)
    → device_count u db ≤ length (other_devices db u c) + 1
unfolding other_devices
other_devices-count db u c k =
    let mine = select_where (is_device_of u) db.devices in
    let others = length-select (λ (d : Device). not (d.id == c)) (order_by later_active mine) in
    let sorted = count-order_by (λ (d : Device). not (d.id == c)) later_active mine in
    let split = count-select_split (is_device_of u) (λ (d : Device). d.id == c) db.devices in
    let one = count_key_le key c mine (select_keyed key (is_device_of u) db.devices k) in
    omega (arith, others, sorted, split, one)

other_devices-In :
    (db : Db) (u c : Uuid) (d : Device)
    → In d (other_devices db u c)
    → In d db.devices × (is_device_of u d ≡ true)
unfolding other_devices
other_devices-In db u c d m =
    let mine = select_where (is_device_of u) db.devices in
    let (i, t) =
      In-select_back (λ (d : Device). not (d.id == c)) (order_by later_active mine) d m in
    In-select_back (is_device_of u) db.devices d (In-order_by_back later_active mine d i)

other_devices_keyed :
    (db : Db) (u c : Uuid)
    → IsDistinct (map key db.devices)
    → IsDistinct (map key (other_devices db u c))
unfolding other_devices
other_devices_keyed db u c k =
    let mine = select_where (is_device_of u) db.devices in
    select_keyed key (λ (d : Device). not (d.id == c)) (order_by later_active mine)
      (order_by_keyed key later_active mine (select_keyed key (is_device_of u) db.devices k))

-- All but `n` of the other devices are evicted.
evict_drop_bounded :
    (n : ℕ) (s : Server) (u c : Uuid)
    → IsDistinct (map key s.db.devices)
    → device_count u (evict_all u (drop n (other_devices s.db u c)) s).db ≤ n + 1
evict_drop_bounded n s u c k =
    let others = other_devices s.db u c in
    let left =
      evict_all-count u (drop n others) s k
        (drop_keyed key n others (other_devices_keyed s.db u c k))
        (λ d m. other_devices-In s.db u c d (In-drop n others d m)) in
    omega (arith, left, other_devices-count s.db u c k, length-drop_le n others)

limit_devices-db :
    (u : Uuid) (ds : List Device) (s : Server) → (limit_devices u ds s).0 ≡ evict_all u ds s
unfolding limit_devices evict_all
limit_devices-db u [] s = refl
limit_devices-db u (d ∷ ds) s = refl

few :
    (max : ℕ) (s : Server) (u : Uuid) (others : List Device)
    → 1 ≤ max
    → (ltb 0 max && ltb max (length others + 1)) ≡ false
    → device_count u s.db ≤ length others + 1
    → device_count u (evict_all u [] s).db ≤ max
unfolding evict_all
few max s u others h t k =
    let small : length others + 1 ≤ max = ground (arith, h, t) in omega (arith, small, k)

limited_bounded :
    (max : ℕ) (s : Server) (u c : Uuid)
    → 1 ≤ max
    → IsDistinct (map key s.db.devices)
    → device_count u (limit_devices u (excess_devices max (other_devices s.db u c)) s).0.db ≤ max
unfolding excess_devices
limited_bounded max s u c h k =
    let others = other_devices s.db u c in
    if_cases (λ ds. device_count u (limit_devices u ds s).0.db ≤ max)
      (ltb 0 max && ltb max (length others + 1)) (drop (max - 1) others) []
      (λ _.
        subst (λ (x : Server). device_count u x.db ≤ max)
          (sym (limit_devices-db u (drop (max - 1) others) s))
          (omega (arith, h, evict_drop_bounded (max - 1) s u c k)))
      (λ t.
        subst (λ (x : Server). device_count u x.db ≤ max) (sym (limit_devices-db u [] s))
          (few max s u others h t (other_devices-count s.db u c k)))

-- How many devices the policy leaves a user.
abbrev pub allowed_devices : SessionPolicy → ℕ → ℕ
allowed_devices single max = 1
allowed_devices notify max = max
allowed_devices allow max = max

-- With no other device there is nothing to evict.
alone_bounded :
    (max : ℕ) (s : Server) (u : Uuid) (others : List Device)
    → others ≡ []
    → device_count u s.db ≤ length others + 1
    → device_count u (limit_devices u (excess_devices max others) s).0.db ≤ 1
unfolding excess_devices limit_devices
alone_bounded max s u [] e k =
    if_cases (λ ds. device_count u (limit_devices u ds s).0.db ≤ 1) (ltb 0 max && ltb max (0 + 1))
      (drop (max - 1) []) [] (λ _. nothing (max - 1)) (λ _. k)
  where
    nothing : (n : ℕ) → device_count u (limit_devices u (drop n []) s).0.db ≤ 1
    nothing zero = k
    nothing (suc n) = k
alone_bounded max s u (d ∷ ds) e k = cc e

abbrev chosen :
    SessionPolicy
    → ℕ
    → Server
    → Uuid
    → List Device
    → List Effect
    → List Effect
    → Server × List Effect
chosen policy max s u others told kicked =
    if is_single policy others
    then (evict_all u others s, kicked)
    else ((limit_devices u (excess_devices max others) s).0, told)

policy_bounded :
    (policy : SessionPolicy) (max : ℕ) (s : Server) (u c : Uuid) (others : List Device)
    (told kicked : List Effect)
    → others ≡ other_devices s.db u c
    → 1 ≤ max
    → IsDistinct (map key s.db.devices)
    → device_count u (chosen policy max s u others told kicked).0.db ≤ allowed_devices policy max
policy_bounded single max s u c [] told kicked e h k = alone_bounded max s u [] refl (
    subst (λ (o : List Device). device_count u s.db ≤ length o + 1) (sym e)
      (other_devices-count s.db u c k))
policy_bounded single max s u c (d ∷ ds) told kicked e h k =
    subst (λ (o : List Device). device_count u (evict_all u o s).db ≤ 1) (sym e)
      (evict_drop_bounded 0 s u c k)
policy_bounded notify max s u c others told kicked e h k =
    subst
      (λ (o : List Device). device_count u (limit_devices u (excess_devices max o) s).0.db ≤ max)
      (sym e) (limited_bounded max s u c h k)
policy_bounded allow max s u c others told kicked e h k =
    subst
      (λ (o : List Device). device_count u (limit_devices u (excess_devices max o) s).0.db ≤ max)
      (sym e) (limited_bounded max s u c h k)

apply_session_policy_bounded :
    (env : Env) (u : Uuid) (current : Device) (s : Server)
    → IsDistinct (map key s.db.devices)
    → 1 ≤ max_devices_per_user env
    → device_count u (apply_session_policy env u current s).0.db
      ≤ allowed_devices (session_policy env) (max_devices_per_user env)
unfolding apply_session_policy
apply_session_policy_bounded env u current s k h =
    policy_bounded (session_policy env) (max_devices_per_user env) s u current.id
      (other_devices s.db u current.id) _ _ refl h k

-- A device's row, found or created, keeps the ids of the devices distinct.
abbrev SeatKeyed : Result Seat → Type 0
SeatKeyed (err e) = Unit
SeatKeyed (ok seat) = IsDistinct (ids_of seat.db.devices)

seat_device-SeatKeyed :
    (uuid : Uuid) (random_id : Text) (now : Date) (user_id : Uuid) (info : DeviceInfo) (db : Db)
    (found : Option Device)
    → exists_where (device_is uuid) db.devices ≡ false
    → IsDistinct (ids_of db.devices)
    → SeatKeyed (seat_device uuid random_id now user_id info db found)
unfolding seat_device
seat_device-SeatKeyed uuid random_id now user_id info db none fresh k =
    let d = new_device uuid random_id now user_id info in
    if_cases SeatKeyed (exists_where (is_known d.user_id d.device_id) db.devices) _ _ (λ _. tt)
      (λ _. append-IsKeyed db.devices d fresh k)
seat_device-SeatKeyed uuid random_id now user_id info db (some d) fresh k =
    subst IsDistinct
      (sym (ids-update (device_is d.id) (refresh_device now info d) db.devices (λ _. refl))) k

-- The devices of the user that a login has answered.
abbrev HasLimit : Env → Response LoginReply → LoginReply → Type 0
HasLimit env r reply =
    device_count reply.user.safe.id r.server.db
    ≤ allowed_devices (session_policy env) (max_devices_per_user env)

start_session-HasLimit :
    (env : Env) (jwt : Jwt) (now : Date) (u : AppUser) (s : Server) (seat : Result Seat)
    (reply : LoginReply)
    → (start_session env jwt now u s seat).outcome ≡ ok reply
    → 1 ≤ max_devices_per_user env
    → SeatKeyed seat
    → HasLimit env (start_session env jwt now u s seat) reply
unfolding sanitize_user_with_prefs
start_session-HasLimit env jwt now u s (err e) reply h k seated = cc h
start_session-HasLimit env jwt now u s (ok seat) reply h k seated =
    let same : u.id ≡ reply.user.safe.id = ground (arith, h) in
    subst
      (λ i.
        device_count i (start_session env jwt now u s (ok seat)).server.db
        ≤ allowed_devices (session_policy env) (max_devices_per_user env))
      same (apply_session_policy_bounded env u.id seat.device (record s { db = seat.db }) seated k)

login_checked-HasLimit :
    (env : Env) (jwt : Jwt) (passwords : Passwords) (uuid : Uuid) (random_id : Text) (s : Server)
    (now : Date) (password : Text) (info : DeviceInfo) (r : Result AppUser) (reply : LoginReply)
    → (login_checked env jwt passwords uuid random_id s now password info r).outcome ≡ ok reply
    → 1 ≤ max_devices_per_user env
    → exists_where (device_is uuid) s.db.devices ≡ false
    → IsDistinct (ids_of s.db.devices)
    → HasLimit env (login_checked env jwt passwords uuid random_id s now password info r) reply
unfolding accept_login fail_login update_user
login_checked-HasLimit env jwt passwords uuid random_id s now password info (err e) reply h k fresh
      d =
    cc h
login_checked-HasLimit env jwt passwords uuid random_id s now password info (ok u) reply h k fresh
      d =
    let db = update_user u.id clear_failures s.db in
    let found = known_device db u.id info.device_id in
    if_cases (λ (r : Response LoginReply). r.outcome ≡ ok reply → HasLimit env r reply)
      (passwords.matches u.password_hash password)
      (accept_login env jwt uuid random_id s now info u) (fail_login s now u)
      (λ _ e.
        start_session-HasLimit env jwt now u (record s { db = db })
          (seat_device uuid random_id now u.id info db found) reply e k
          (seat_device-SeatKeyed uuid random_id now u.id info db found fresh d))
      (λ _ e. cc e) h

-- Under a limit that is positive, a login that succeeds leaves the user no more devices than the
-- limit, and one device at most under the policy of a single session, if the ids of the devices are
-- distinct and the id of the login's device is new.
pub login_bounded :
    (env : Env) (jwt : Jwt) (passwords : Passwords) (uuid : Uuid) (random_id : Text) (s : Server)
    (now : Date) (phone password : Text) (info : DeviceInfo) (reply : LoginReply)
    → (login env jwt passwords uuid random_id s now phone password info).outcome ≡ ok reply
    → 1 ≤ max_devices_per_user env
    → exists_where (device_is uuid) s.db.devices ≡ false
    → IsDistinct (ids_of s.db.devices)
    → device_count reply.user.safe.id
        (login env jwt passwords uuid random_id s now phone password info).server.db
      ≤ allowed_devices (session_policy env) (max_devices_per_user env)
unfolding login
login_bounded env jwt passwords uuid random_id s now phone password info reply h k fresh d =
    login_checked-HasLimit env jwt passwords uuid random_id s now password info
      (check_login s.db now phone) reply h k fresh d
