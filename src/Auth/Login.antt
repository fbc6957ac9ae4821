-- ===== src/Auth/Login.antt =====
-- `AuthService.login` but for its session policy. `uuid` is the id of a new device row, `random_id`
-- the identifier of a device that sends none.
use fenxin.Prelude.{
  ℕ, ◌+◌, ◌*◌, Bool, true, false, ◌&&◌, Option, none, some, List, [], ◌∷◌, ◌++◌, ◌==◌, ltb, leb,
  get_or, if◌then◌else◌, find_one, update_where, exists_where, count_where,
}
use fenxin.Entities.{Uuid, Date, Text, same_text, AppUser, Device, Db, device_is, is_device_of}
use fenxin.Result.{
  Result, ok, err, Error, unauthorized, internal, bad_credentials, account_locked, account_disabled,
  duplicate_key, ◌>>=◌, ◌>>◌, reject, require, or_throw, device_added, device_removed,
  session_conflict, kicked_by_new_login, new_device_login, Effect, emit, emit_to_devices, audit_own,
  session_kicked, device_limit_exceeded,
}
use fenxin.Result
use fenxin.Env.{Env}
use fenxin.Guard.{is_usable}
use fenxin.Auth.{
  Server, Response, refuse, Jwt, Passwords, TokenPair, issue_token_pair, Profile,
  sanitize_user_with_prefs, update_user, payload_of,
}
use fenxin.Auth.Policy.{apply_session_policy}

abbrev pub max_login_fails : ℕ
max_login_fails = 5

-- 15 minutes
abbrev pub lock_duration : ℕ
lock_duration = 15 * 60 * 1000

pub record DeviceInfo : Type 0 where
  pub device_name : Text
  pub device_type : Text
  pub device_id : Option Text

abbrev pub phone_is : Text → AppUser → Bool
phone_is phone u = same_text u.phone phone

abbrev pub is_locked : Date → Option Date → Bool
is_locked now none = false
is_locked now (some t) = ltb now t

-- The checks before the password.
unfoldable pub check_login : Db → Date → Text → Result AppUser
unfolding find_one same_text
check_login db now phone = do
  u ← or_throw (find_one (phone_is phone) db.users) (unauthorized bad_credentials)
  reject (is_locked now u.locked_until) (unauthorized account_locked)
  require (is_usable u) (unauthorized account_disabled)
  ok u

-- The update after a wrong password: `found` is the row that was read.
abbrev pub record_failure : Date → AppUser → AppUser → AppUser
record_failure now found u =
    if leb max_login_fails (found.login_fail_count + 1)
    then record u { login_fail_count = 0; locked_until = some (now + lock_duration) }
    else record u { login_fail_count = found.login_fail_count + 1 }

abbrev pub clear_failures : AppUser → AppUser
clear_failures u = record u { login_fail_count = 0; locked_until = none }

abbrev pub is_known : Uuid → Text → Device → Bool
is_known user_id id d = d.user_id == user_id && same_text d.device_id id

-- An identifier that is sent, and not empty, is looked up.
unfoldable pub known_device : Db → Uuid → Option Text → Option Device
unfolding find_one same_text
known_device db user_id none = none
known_device db user_id (some []) = none
known_device db user_id (some (c ∷ s)) = find_one (is_known user_id (c ∷ s)) db.devices

-- `save` writes the columns; `found` is the row that was read.
abbrev pub refresh_device : Date → DeviceInfo → Device → Device → Device
refresh_device now info found d = record d {
  device_name = info.device_name;
  device_type = info.device_type;
  is_online = true;
  online_at = some (get_or found.online_at now);
  offline_at = none;
  last_active_at = some now;
}

abbrev pub new_device : Uuid → Text → Date → Uuid → DeviceInfo → Device
new_device uuid random_id now user_id info = record {
  id = uuid;
  user_id = user_id;
  device_name = info.device_name;
  device_type = info.device_type;
  device_id = get_or info.device_id random_id;
  is_online = true;
  socket_count = 0;
  online_at = some now;
  offline_at = none;
  last_active_at = some now;
  created_at = now;
}

-- The device of the login, the database with it, and the event about a new one.
pub record Seat : Type 0 where
  pub device : Device
  pub db : Db
  pub effects : List Effect

-- The unique key (user_id, device_id) refuses a second row.
unfoldable pub insert_device : Db → Device → Result Seat
unfolding exists_where count_where same_text
insert_device db d =
    let db' = record db { devices = db.devices ++ d ∷ [] } in
    if exists_where (is_known d.user_id d.device_id) db.devices
    then err (internal duplicate_key)
    else ok (record {
      device = d;
      db = db';
      effects =
          if ltb 1 (count_where (is_device_of d.user_id) db'.devices)
          then emit (d.user_id ∷ []) (device_added d.id) ∷ []
          else [];
    })

unfoldable pub seat_device :
    Uuid → Text → Date → Uuid → DeviceInfo → Db → Option Device → Result Seat
unfolding update_where insert_device
seat_device uuid random_id now user_id info db none =
    insert_device db (new_device uuid random_id now user_id info)
seat_device uuid random_id now user_id info db (some d) = ok (record {
  device = refresh_device now info d d;
  db = record db { devices = update_where (device_is d.id) (refresh_device now info d) db.devices };
  effects = [];
})

pub record LoginReply : Type 0 where
  pub user : Profile
  pub tokens : TokenPair
  pub device : Device
  pub force_change_pwd : Bool

-- The rest of a login, once the device has its row.
abbrev pub start_session : Env → Jwt → Date → AppUser → Server → Result Seat → Response LoginReply
start_session env jwt now u s (err e) = refuse s e
start_session env jwt now u s (ok seat) =
    let (s', effects) = apply_session_policy env u.id seat.device (record s { db = seat.db }) in
    record {
      server = s';
      outcome = ok (record {
        user = sanitize_user_with_prefs u;
        tokens = issue_token_pair jwt now (payload_of u seat.device.id);
        device = seat.device;
        force_change_pwd = u.force_change_pwd;
      });
      effects = seat.effects ++ effects ++ audit_own u.id Result.login ∷ [];
    }

-- The right password: the failures are cleared and the device is found or created.
unfoldable pub accept_login :
    Env → Jwt → Uuid → Text → Server → Date → DeviceInfo → AppUser → Response LoginReply
unfolding update_user known_device seat_device apply_session_policy sanitize_user_with_prefs
    issue_token_pair
accept_login env jwt uuid random_id s now info u =
    let db' = update_user u.id clear_failures s.db in
    start_session env jwt now u (record s { db = db' })
      (seat_device uuid random_id now u.id info db' (known_device db' u.id info.device_id))

unfoldable pub fail_login : Server → Date → AppUser → Response LoginReply
unfolding update_user
fail_login s now u = record {
  server = record s { db = update_user u.id (record_failure now u) s.db };
  outcome = err (unauthorized bad_credentials);
  effects = [];
}

abbrev pub login_checked :
    Env
    → Jwt
    → Passwords
    → Uuid
    → Text
    → Server
    → Date
    → Text
    → DeviceInfo
    → Result AppUser
    → Response LoginReply
login_checked env jwt passwords uuid random_id s now password info (err e) = refuse s e
login_checked env jwt passwords uuid random_id s now password info (ok u) =
    let accepted = accept_login env jwt uuid random_id s now info u in
    let failed = fail_login s now u in
    if passwords.matches u.password_hash password then accepted else failed

unfoldable pub login :
    Env
    → Jwt
    → Passwords
    → Uuid
    → Text
    → Server
    → Date
    → (phone password : Text) → DeviceInfo
    → Response LoginReply
unfolding check_login accept_login fail_login
login env jwt passwords uuid random_id s now phone password info =
    login_checked env jwt passwords uuid random_id s now password info (check_login s.db now phone)
