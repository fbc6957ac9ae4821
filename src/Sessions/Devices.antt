-- ===== src/Sessions/Devices.antt =====
-- A login keeps the invariant of the cache: the devices that it evicts are the user's own.
use fenxin.Prelude.{
  ℕ, ◌+◌, ◌-◌, ◌≡◌, refl, ◌∙◌, sym, ap, subst, inl, inr, Bool, true, false, not, ◌&&◌, Option, none,
  some, List, [], ◌∷◌, ◌++◌, arith, ◌==◌, ltb, leb, length, All, All-imply, All-find, All-delete,
  In, In-drop, drop, has, has-map, In-select_back, In-order_by_back, IsDistinct, exists_where,
  select_where, order_by, delete_where, Bool-cases, find_one-passes, find_one-delete_other,
  if_cases,
}
use fenxin.Entities.{Uuid, Date, Text, AppUser, Device, Db, device_is, device_of, is_device_of}
use fenxin.Result.{Result, ok, err, Effect}
use fenxin.Env.{Env, max_devices_per_user}
use fenxin.Guard.{cached_user, cached_device}
use fenxin.Auth.{Server, Response, Jwt, Passwords, update_user}
use fenxin.Auth.Login.{
  DeviceInfo, check_login, record_failure, clear_failures, known_device, new_device, Seat,
  insert_device, seat_device, start_session, accept_login, fail_login, max_login_fails,
  lock_duration, login_checked, login, LoginReply, is_known, refresh_device,
}
use fenxin.Auth.Policy.{
  session_policy, later_active, other_devices, evict, evict_all, excess_devices, limit_devices,
  is_single, apply_session_policy,
}
use fenxin.Sessions.{with_db}
use fenxin.Sessions.Stable.{check_context-columns, check_context-found, find_one-longer}
use fenxin.Sessions.Keep.{
  ids_of, IsSound, write-IsSound, forget_device-IsSound, delete-IsKeyed, append-IsKeyed,
  update_user-IsSound, update_devices-IsSound,
}
use mathlib.Core.Option

-- A device of the id is the user's.
abbrev IsOwned : Uuid → Uuid → Device → Type 0
IsOwned user_id id x = (x.id == id) ≡ true → x.user_id ≡ user_id

evict-IsSound :
    {forced : Uuid → Bool} (user_id : Uuid) (s : Server) (d : Device)
    → All (IsOwned user_id d.id) s.db.devices
    → IsSound forced s
    → IsSound forced (evict user_id s d)
unfolding evict
evict-IsSound user_id s d owned sound =
    let db = record s.db { devices = delete_where (device_is d.id) s.db.devices } in
    forget_device-IsSound s user_id d.id db
      (λ u i context away h.
        (let (x, y, e, f) = check_context-found s.db u i context h in
          let key = find_one-passes (device_of i u) s.db.devices y f in
          let own = All-find (IsOwned user_id d.id) (device_of i u) s.db.devices y owned f in
          let other : (i == d.id) ≡ false = elim (Bool-cases (i == d.id)) [
            | inl t ↦ absurd (ground (arith, own))
            | inr t ↦ t
          ] in
          check_context-columns s.db db u i refl (
            ap (Option.map _) (
              find_one-delete_other (device_of i u) (device_is d.id) s.db.devices
                (λ z k. ground arith)))
          ∙ h))
      (delete-IsKeyed (device_is d.id) s.db.devices sound.keyed) sound

All-from : {A : Type 0} (P : A → Type 0) (xs : List A) → ((a : A) → In a xs → P a) → All P xs
All-from P [] h = tt
All-from P (x ∷ xs) h = (h x (inl refl), All-from P xs (λ a m. h a (inr m)))

evict_all-IsSound :
    {forced : Uuid → Bool} (user_id : Uuid) (ds : List Device) (s : Server)
    → All (λ d. All (IsOwned user_id d.id) s.db.devices) ds
    → IsSound forced s
    → IsSound forced (evict_all user_id ds s)
unfolding evict_all
evict_all-IsSound user_id [] s owned sound = sound
evict_all-IsSound user_id (d ∷ ds) s owned sound =
    evict_all-IsSound user_id ds (evict user_id s d)
      (All-imply (λ (x : Device). All (IsOwned user_id x.id) s.db.devices)
        (λ (x : Device). All (IsOwned user_id x.id) (delete_where (device_is d.id) s.db.devices)) ds
        (λ x k. All-delete (IsOwned user_id x.id) (device_is d.id) s.db.devices k) owned.1)
      (evict-IsSound user_id s d owned.0 sound)

others-away :
    (x : Device) (ds : List Device)
    → has x.id (ids_of ds) ≡ false
    → All (λ (y : Device). (y.id == x.id) ≡ false) ds
unfolding has
others-away x [] h = tt
others-away x (y ∷ ds) h = (ground arith, others-away x ds (ground arith))

-- Under the key, the id of a stored device of the user is the user's only.
own-IsOwned :
    (user_id : Uuid) (ds : List Device) (d : Device)
    → IsDistinct (ids_of ds)
    → In d ds
    → (d.user_id == user_id) ≡ true
    → All (IsOwned user_id d.id) ds
own-IsOwned user_id [] d keyed m h = absurd m
own-IsOwned user_id (x ∷ ds) d keyed (inl e) h = (
  λ t. (let same = ap (λ (z : Device). z.user_id) e in ground arith),
  All-imply (λ (y : Device). (y.id == x.id) ≡ false) (IsOwned user_id d.id) ds
      (λ y k t. (let same = ap (λ (z : Device). z.id) e in absurd (ground arith)))
      (others-away x ds keyed.0),
)
own-IsOwned user_id (x ∷ ds) d keyed (inr m) h = (
  λ t.
      (let here = has-map (λ (z : Device). z.id) ds d m in
        let same : x.id ≡ d.id = ground arith in
        let gone : has d.id (ids_of ds) ≡ false =
          subst (λ k. has k (ids_of ds) ≡ false) same keyed.0 in
        cc (gone, here)),
  own-IsOwned user_id ds d keyed.1 m h,
)

others-IsOwned :
    (db : Db) (user_id current_id : Uuid)
    → IsDistinct (ids_of db.devices)
    → (d : Device) → In d (other_devices db user_id current_id)
    → All (IsOwned user_id d.id) db.devices
unfolding other_devices
others-IsOwned db user_id current_id keyed d m =
    let own = select_where (is_device_of user_id) db.devices in
    let (ordered, away) =
      In-select_back (λ d. not (d.id == current_id)) (order_by later_active own) d m in
    let (stored, is_own) =
      In-select_back (is_device_of user_id) db.devices d
        (In-order_by_back later_active own d ordered) in
    own-IsOwned user_id db.devices d keyed stored is_own

excess-In :
    (max : ℕ) (others : List Device) (d : Device) → In d (excess_devices max others) → In d others
unfolding excess_devices
excess-In max others d m =
    if_cases (λ (xs : List Device). In d xs → In d others)
      (ltb 0 max && ltb max (length others + 1)) (drop (max - 1) others) []
      (λ _ k. In-drop (max - 1) others d k) (λ _ k. absurd k) m

limit_devices-IsSound :
    {forced : Uuid → Bool} (user_id : Uuid) (ds : List Device) (s : Server)
    → All (λ d. All (IsOwned user_id d.id) s.db.devices) ds
    → IsSound forced s
    → IsSound forced (limit_devices user_id ds s).0
unfolding limit_devices
limit_devices-IsSound user_id [] s owned sound = sound
limit_devices-IsSound user_id (d ∷ ds) s owned sound =
    evict_all-IsSound user_id (d ∷ ds) s owned sound

apply_session_policy-IsSound :
    {forced : Uuid → Bool} (env : Env) (user_id : Uuid) (current : Device) (s : Server)
    → IsSound forced s
    → IsSound forced (apply_session_policy env user_id current s).0
unfolding apply_session_policy
apply_session_policy-IsSound {forced} env user_id current s sound =
    let others = other_devices s.db user_id current.id in
    let excess = excess_devices (max_devices_per_user env) others in
    let owned =
      All-from (λ (d : Device). All (IsOwned user_id d.id) s.db.devices) others
        (others-IsOwned s.db user_id current.id sound.keyed) in
    let owned_excess =
      All-from (λ (d : Device). All (IsOwned user_id d.id) s.db.devices) excess
        (λ d m.
          others-IsOwned s.db user_id current.id sound.keyed d
            (excess-In (max_devices_per_user env) others d m)) in
    if_cases (λ (r : Server × List Effect). IsSound forced r.0)
      (is_single (session_policy env) others) _ _
      (λ _. evict_all-IsSound user_id others s owned sound)
      (λ _. limit_devices-IsSound user_id excess s owned_excess sound)

abbrev SeatSound : (Uuid → Bool) → Server → Result Seat → Type 0
SeatSound forced s (err e) = Unit
SeatSound forced s (ok seat) = IsSound forced (with_db s seat.db)

insert_device-IsSound :
    {forced : Uuid → Bool} (s : Server) (d : Device)
    → exists_where (device_is d.id) s.db.devices ≡ false
    → IsSound forced s
    → SeatSound forced s (insert_device s.db d)
unfolding insert_device
insert_device-IsSound {forced} s d fresh sound =
    let db = record s.db { devices = s.db.devices ++ d ∷ [] } in
    if_cases (SeatSound forced s) (exists_where (is_known d.user_id d.device_id) s.db.devices) _ _
      (λ _. tt)
      (λ _.
        write-IsSound s db
          (λ u i context h.
            let (x, y, e, f) = check_context-found s.db u i context h in
            check_context-columns s.db db u i refl (
              ap (Option.map cached_device)
                (find_one-longer (device_of i u) s.db.devices (d ∷ []) y f ∙ sym f))
            ∙ h)
          (append-IsKeyed s.db.devices d fresh sound.keyed) sound)

seat_device-IsSound :
    {forced : Uuid → Bool} (uuid : Uuid) (random_id : Text) (now : Date) (user_id : Uuid)
    (info : DeviceInfo) (s : Server) (found : Option Device)
    → exists_where (device_is uuid) s.db.devices ≡ false
    → IsSound forced s
    → SeatSound forced s (seat_device uuid random_id now user_id info s.db found)
unfolding seat_device
seat_device-IsSound uuid random_id now user_id info s none fresh sound =
    insert_device-IsSound s (new_device uuid random_id now user_id info) fresh sound
seat_device-IsSound uuid random_id now user_id info s (some d) fresh sound =
    update_devices-IsSound s (device_is d.id) (refresh_device now info d) (λ x. refl) sound

start_session-IsSound :
    {forced : Uuid → Bool} (env : Env) (jwt : Jwt) (now : Date) (u : AppUser) (s : Server)
    (seat : Result Seat)
    → IsSound forced s
    → SeatSound forced s seat
    → IsSound forced (start_session env jwt now u s seat).server
start_session-IsSound env jwt now u s (err e) sound seated = sound
start_session-IsSound env jwt now u s (ok seat) sound seated =
    apply_session_policy-IsSound env u.id seat.device (with_db s seat.db) seated

failure-kept :
    (now : Date) (found x : AppUser) → cached_user (record_failure now found x) ≡ cached_user x
failure-kept now found x =
    if_cases (λ (y : AppUser). cached_user y ≡ cached_user x)
      (leb max_login_fails (found.login_fail_count + 1))
      (record x { login_fail_count = 0; locked_until = some (now + lock_duration) })
      (record x { login_fail_count = found.login_fail_count + 1 }) (λ _. refl) (λ _. refl)

login_checked-IsSound :
    {forced : Uuid → Bool} (env : Env) (jwt : Jwt) (passwords : Passwords) (uuid : Uuid)
    (random_id : Text) (s : Server) (now : Date) (password : Text) (info : DeviceInfo)
    (r : Result AppUser)
    → exists_where (device_is uuid) s.db.devices ≡ false
    → IsSound forced s
    → IsSound forced (login_checked env jwt passwords uuid random_id s now password info r).server
unfolding accept_login fail_login update_user
login_checked-IsSound env jwt passwords uuid random_id s now password info (err e) fresh sound =
    sound
login_checked-IsSound {forced} env jwt passwords uuid random_id s now password info (ok u) fresh
      sound =
    let db = update_user u.id clear_failures s.db in
    let cleared = update_user-IsSound s u.id clear_failures (λ x. refl) sound in
    if_cases (λ (r : Response LoginReply). IsSound forced r.server)
      (passwords.matches u.password_hash password)
      (accept_login env jwt uuid random_id s now info u) (fail_login s now u)
      (λ _.
        start_session-IsSound env jwt now u (with_db s db)
          (seat_device uuid random_id now u.id info db (known_device db u.id info.device_id))
          cleared
          (seat_device-IsSound uuid random_id now u.id info (with_db s db)
            (known_device db u.id info.device_id) fresh cleared))
      (λ _. update_user-IsSound s u.id (record_failure now u) (failure-kept now u) sound)

-- A login keeps the invariant, whatever its outcome.
pub login-IsSound :
    {forced : Uuid → Bool} (env : Env) (jwt : Jwt) (passwords : Passwords) (uuid : Uuid)
    (random_id : Text) (s : Server) (now : Date) (phone password : Text) (info : DeviceInfo)
    → exists_where (device_is uuid) s.db.devices ≡ false
    → IsSound forced s
    → IsSound forced (login env jwt passwords uuid random_id s now phone password info).server
unfolding login
login-IsSound env jwt passwords uuid random_id s now phone password info =
    login_checked-IsSound env jwt passwords uuid random_id s now password info
      (check_login s.db now phone)
