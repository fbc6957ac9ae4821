-- ===== src/Auth.antt =====
-- src/modules/auth: the token service and `AuthService` but for the login, with `sanitizeUser` of
-- src/entities/app-user.entity.ts. The JWT and Argon2 libraries are the parameters `Jwt` and
-- `Passwords`. A handler may write before it throws, so it returns the state that it leaves next to
-- its outcome; the state is the database and the guard's cache. Addresses and user agents of the
-- audit log are left out.
pub mod Policy
pub mod Login
pub mod Lockout
use fenxin.Prelude.{
  ℕ, Bool, true, false, not, ◌&&◌, Option, none, some, List, [], ◌∷◌, ◌==◌, ltb, leb, is_some,
  get_or, if◌then◌else◌, find_one, select_where, update_where, delete_where, order_by,
}
use fenxin.Entities.{
  Uuid, Date, Text, is_nonzero, UserRole, UserStatus, AppUser, Device, Db, user_is, device_is,
  device_of, is_device_of,
}
use fenxin.Result.{
  Result, ok, err, Error, bad_request, unauthorized, not_found, account_missing, wrong_password,
  invalid_token, device_offline, account_disabled, ◌>>=◌, ◌>>◌, reject, require, or_throw,
  device_removed, Effect, emit, audit, audit_own,
}
use fenxin.Result
use fenxin.Env.{Env, online_ttl_seconds}
use fenxin.AuthCache.{Cache, invalidate}
use fenxin.Guard.{AuthPayload, is_usable}

pub record Server : Type 0 where
  pub db : Db
  pub cache : Cache

-- The state that a call leaves, its outcome, and the calls of other services in their order.
pub record Response (A : Type 0) : Type 0 where
  pub server : Server
  pub outcome : Result A
  pub effects : List Effect

-- `jwt.sign` and `jwt.verify` under the secrets of the two kinds of tokens. A verified token is its
-- payload, for a refresh token with the test whether its `type` is 'refresh'.
pub record Jwt : Type 0 where
  pub sign_access : Date → AuthPayload → Text
  pub sign_refresh : Date → AuthPayload → Text
  pub verify_access : Date → Text → Option AuthPayload
  pub verify_refresh : Date → Text → Option (AuthPayload × Bool)

-- `argon2.verify(hash, password)`, false where it throws, and `argon2.hash`.
pub record Passwords : Type 0 where
  pub matches : Text → Text → Bool
  pub hash : Text → Text

pub record TokenPair : Type 0 where
  pub access_token : Text
  pub refresh_token : Text

unfoldable pub issue_token_pair : Jwt → Date → AuthPayload → TokenPair
issue_token_pair jwt now p = record {
  access_token = jwt.sign_access now p;
  refresh_token = jwt.sign_refresh now p;
}

unfoldable pub verify_refresh_token : Jwt → Date → Text → Option AuthPayload
verify_refresh_token jwt now token = elim (jwt.verify_refresh now token) [
  | none ↦ none
  | some (payload, is_refresh) ↦ if is_refresh then some payload else none
]

-- `SAFE_USER_FIELDS`: what any interface may return of a user.
pub record SafeUser : Type 0 where
  pub id : Uuid
  pub phone : Text
  pub display_name : Text
  pub avatar_url : Option Text
  pub signature : Option Text
  pub department : Option Text
  pub role : UserRole
  pub status : UserStatus
  pub force_change_pwd : Bool
  pub deleted_at : Option Date
  pub created_at : Date

unfoldable pub sanitize_user : AppUser → SafeUser
sanitize_user u = record {
  id = u.id;
  phone = u.phone;
  display_name = u.display_name;
  avatar_url = u.avatar_url;
  signature = u.signature;
  department = u.department;
  role = u.role;
  status = u.status;
  force_change_pwd = u.force_change_pwd;
  deleted_at = u.deleted_at;
  created_at = u.created_at;
}

-- `sanitizeUserWithPrefs`: a profile, with the user's own preferences.
pub record Profile : Type 0 where
  pub safe : SafeUser
  pub topic : Text
  pub default_burn_ttl_seconds : Option ℕ

unfoldable pub sanitize_user_with_prefs : AppUser → Profile
unfolding sanitize_user
sanitize_user_with_prefs u = record {
  safe = sanitize_user u;
  topic = u.topic;
  default_burn_ttl_seconds =
      if is_nonzero u.default_burn_ttl_seconds then u.default_burn_ttl_seconds else none;
}

abbrev pub refuse : {A : Type 0} → Server → Error → Response A
refuse server error = record { server = server; outcome = err error; effects = [] }

-- `userRepo.update(id, …)`
unfoldable pub update_user : Uuid → (AppUser → AppUser) → Db → Db
unfolding update_where
update_user id change db = record db { users = update_where (user_is id) change db.users }

unfoldable pub update_device : Uuid → (Device → Device) → Db → Db
unfolding update_where
update_device id change db = record db { devices = update_where (device_is id) change db.devices }

abbrev pub forget_user : Uuid → Server → Server
forget_user user_id s = record s { cache = (invalidate s.cache (some user_id) none).0 }

abbrev pub set_password : Text → Bool → AppUser → AppUser
set_password hash force u = record u { password_hash = hash; force_change_pwd = force }

abbrev change_found :
    Passwords
    → Server
    → Uuid
    → (old_password new_password : Text) → Option AppUser
    → Response (Unit {0})
change_found passwords s user_id old_password new_password none =
    refuse s (not_found account_missing)
change_found passwords s user_id old_password new_password (some u) =
    if passwords.matches u.password_hash old_password
    then record {
      server = forget_user user_id (record s {
        db = update_user user_id (set_password (passwords.hash new_password) false) s.db;
      });
      outcome = ok tt;
      effects = audit_own user_id Result.change_password ∷ [];
    }
    else refuse s (bad_request wrong_password)

unfoldable pub change_password :
    Passwords → Server → Uuid → (old_password new_password : Text) → Response (Unit {0})
unfolding find_one update_user invalidate
change_password passwords s user_id old_password new_password =
    change_found passwords s user_id old_password new_password
      (find_one (user_is user_id) s.db.users)

abbrev pub payload_of : AppUser → Uuid → AuthPayload
payload_of u device_id = record {
  user_id = u.id;
  phone = u.phone;
  role = u.role;
  device_id = device_id;
}

-- `refresh`: nothing is written.
unfoldable pub refresh : Jwt → Db → Date → Text → Result TokenPair
unfolding verify_refresh_token find_one issue_token_pair
refresh jwt db now token = do
  payload ← or_throw (verify_refresh_token jwt now token) (unauthorized invalid_token)
  device ←
      or_throw (find_one (device_of payload.device_id payload.user_id) db.devices)
        (unauthorized device_offline)
  u ← or_throw (find_one (user_is payload.user_id) db.users) (unauthorized account_disabled)
  require (is_usable u) (unauthorized account_disabled)
  ok (issue_token_pair jwt now (payload_of u device.id))

unfoldable pub get_profile : Db → Uuid → Result Profile
unfolding find_one sanitize_user_with_prefs
get_profile db user_id = do
  u ← or_throw (find_one (user_is user_id) db.users) (not_found account_missing)
  ok (sanitize_user_with_prefs u)

-- A field that is absent is kept; the burn time is kept, cleared or set.
pub record ProfileUpdates : Type 0 where
  pub display_name : Option Text
  pub signature : Option Text
  pub avatar_url : Option Text
  pub topic : Option Text
  pub default_burn_ttl_seconds : Option (Option ℕ)

abbrev or_kept : Option Text → Option Text → Option Text
or_kept none old = old
or_kept (some t) old = some t

unfoldable pub apply_profile : ProfileUpdates → AppUser → AppUser
apply_profile p u = record u {
  display_name = get_or p.display_name u.display_name;
  signature = or_kept p.signature u.signature;
  avatar_url = or_kept p.avatar_url u.avatar_url;
  topic = get_or p.topic u.topic;
  default_burn_ttl_seconds = get_or p.default_burn_ttl_seconds u.default_burn_ttl_seconds;
}

abbrev profile_of : Option AppUser → Option Profile
profile_of none = none
profile_of (some u) = some (sanitize_user_with_prefs u)

unfoldable pub update_profile : Server → Uuid → ProfileUpdates → Response (Option Profile)
unfolding update_user apply_profile find_one sanitize_user_with_prefs
update_profile s user_id updates =
    let db' = update_user user_id (apply_profile updates) s.db in
    record {
      server = record s { db = db' };
      outcome = ok (profile_of (find_one (user_is user_id) db'.users));
      effects = [];
    }

abbrev newer_device : Device → Device → Bool
newer_device x y = leb y.created_at x.created_at

unfoldable pub get_devices : Db → Uuid → List Device
unfolding select_where order_by
get_devices db user_id = order_by newer_device (select_where (is_device_of user_id) db.devices)

-- A device that is deleted is forgotten by the cache.
unfoldable pub remove_device : Server → Uuid → Uuid → Response (Unit {0})
unfolding delete_where invalidate
remove_device s user_id device_id = record {
  server = record {
    db = record s.db { devices = delete_where (device_of device_id user_id) s.db.devices };
    cache = (invalidate s.cache (some user_id) (some device_id)).0;
  };
  outcome = ok tt;
  effects =
      emit (user_id ∷ []) (device_removed device_id)
      ∷ audit user_id Result.remove_device device_id
      ∷ [];
}

pub record Heartbeat : Type 0 where
  pub server_time : Date
  pub online_ttl : ℕ

abbrev pub beat : Date → Device → Device → Device
beat now found d = record d {
  last_active_at = some now;
  is_online = true;
  online_at = some (get_or found.online_at now);
  offline_at = none;
}

abbrev beat_found : Env → Server → Date → Uuid → Option Device → Response Heartbeat
beat_found env s now device_id none = refuse s (not_found device_offline)
beat_found env s now device_id (some found) = record {
  server = record s { db = update_device device_id (beat now found) s.db };
  outcome = ok (record { server_time = now; online_ttl = online_ttl_seconds env });
  effects = [];
}

unfoldable pub heartbeat : Env → Server → Date → Uuid → Uuid → Response Heartbeat
unfolding find_one update_device online_ttl_seconds
heartbeat env s now user_id device_id =
    beat_found env s now device_id (find_one (device_of device_id user_id) s.db.devices)
