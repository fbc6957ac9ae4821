-- ===== src/Sessions/Tests.antt =====
-- An account with a device: requests, an eviction, a deletion and the lock.
use fenxin.Prelude.{
  ◌≤◌, ◌≡◌, ◌≢◌, refl, arith, ◌==◌, Bool, true, false, Option, none, some, List, [], ◌∷◌,
  IsDistinct, All, find_one, has, exists_where,
}
use fenxin.Entities.{Uuid, Date, Text, same_text, user, admin, AppUser, Device}
use fenxin.Result.{ok, err, unauthorized, account_disabled}
use fenxin.Env.{Env, auth_cache_ttl, max_devices_per_user}
use fenxin.Fixtures.{default_env, chat_db, account}
use fenxin.AuthCache.{AuthContext, Entry, lookup, new_entry, get, set, invalidate}
use fenxin.AuthCache.Refinement.{fresh, kept, update, clear_user, cache_refines}
use fenxin.Guard.{
  AuthPayload, Request, cached_user, cached_device, check_context, read_token, can_activate,
}
use fenxin.Guard.Context.{can_activate_directly}
use fenxin.Auth.{Server, Response, Jwt, Passwords}
use fenxin.Auth.Login.{DeviceInfo, LoginReply, login, max_login_fails}
use fenxin.Auth.Policy.{session_policy}
use fenxin.Sessions.Limit.{device_count, allowed_devices, login_bounded}
use fenxin.Auth.Lockout.{Attempt, IsGuess, count_verified, count_verified_bounded}
use fenxin.Group.Ownership.{GroupRun, completes}
use fenxin.Account.{soft_delete_account, force_offline_device}
use fenxin.Sessions.{serve, SessionSteps, stay, then_step, serving, forcing_offline}
use fenxin.Sessions.Keep.{ids_of}
use fenxin.Sessions.Coherent.{Steps-can_activate}
use fenxin.Sessions.Revoked.{soft_delete_account-revokes}
use fenxin.Sessions.Offline.{
  IsOld, serve_all, force_offline_device-stale, force_offline_device-expires,
}

-- Tokens that spell out the two ids, and passwords that are their own hashes.
abbrev payload_1 : AuthPayload
payload_1 = record { user_id = 1; phone = 1 ∷ []; role = user; device_id = 21 }

abbrev spell : AuthPayload → Text
spell p = p.user_id ∷ p.device_id ∷ []

abbrev read : Text → Option AuthPayload
read (u ∷ d ∷ []) = some (record { user_id = u; phone = u ∷ []; role = user; device_id = d })
read _ = none

abbrev plain_jwt : Jwt
plain_jwt = record {
  sign_access = λ _ p. spell p;
  sign_refresh = λ _ p. spell p;
  verify_access = λ _ t. read t;
  verify_refresh = λ _ t. none;
}

abbrev plain_passwords : Passwords
plain_passwords = record { matches = same_text; hash = λ p. p }

abbrev phone_device : Device
phone_device = record {
  id = 21;
  user_id = 1;
  device_name = b'P' ∷ [];
  device_type = b'm' ∷ [];
  device_id = b'x' ∷ [];
  is_online = true;
  socket_count = 0;
  online_at = some 0;
  offline_at = none;
  last_active_at = some 0;
  created_at = 0;
}

abbrev start : Server
start = record {
  db = record chat_db {
    users = account 1 ∷ account 2 ∷ record (account 9) { role = admin } ∷ [];
    devices = phone_device ∷ [];
  };
  cache = [];
}

abbrev bearer_1 : Text
bearer_1 = b'B' ∷ b'e' ∷ b'a' ∷ b'r' ∷ b'e' ∷ b'r' ∷ b' ' ∷ 1 ∷ 21 ∷ []

abbrev request : Request
request = record {
  is_public = false;
  authorization = some bearer_1;
  method = b'G' ∷ b'E' ∷ b'T' ∷ [];
  path = b'/' ∷ [];
}

abbrev served : Server
served = serve default_env plain_jwt start 1000 request

abbrev forced_22 : Uuid → Bool
forced_22 d = d == 22

abbrev steps : SessionSteps forced_22 default_env plain_jwt plain_passwords start served
steps = then_step stay (serving 1000 request)

keyed : IsDistinct (ids_of start.db.devices)
unfolding has
keyed = (refl, tt)

Steps-can_activate_example :
    (can_activate plain_jwt.verify_access
      (auth_cache_ttl default_env)
      2000
      served.db
      served.cache
      request).0
    ≡ can_activate_directly plain_jwt.verify_access 2000 served.db request
unfolding read_token
Steps-can_activate_example =
    Steps-can_activate forced_22 default_env plain_jwt plain_passwords start served 2000 request
      refl keyed steps refl

admitted :
    can_activate_directly plain_jwt.verify_access 2000 served.db request
    ≡ ok (
        some (record {
          payload = payload_1;
          context = record { user = cached_user (account 1); device = cached_device phone_device };
        }))
unfolding can_activate_directly serve
admitted = refl

abbrev committed : Uuid → GroupRun
committed _ = completes

abbrev removed : Response (Unit {0})
removed = soft_delete_account committed served 3000 1 9

deleted : removed.outcome ≡ ok tt
unfolding soft_delete_account serve
deleted = refl

-- After the deletion a device is forced offline, and the token is tried once more.
abbrev afterwards : Server
afterwards =
    serve default_env plain_jwt (force_offline_device removed.server 22 9).server 3001 request

soft_delete_account-revokes_example :
    (can_activate plain_jwt.verify_access
      (auth_cache_ttl default_env)
      4000
      afterwards.db
      afterwards.cache
      request).0
    ≡ err (unauthorized account_disabled)
unfolding read_token
soft_delete_account-revokes_example =
    soft_delete_account-revokes forced_22 default_env plain_jwt plain_passwords committed served
      3000 1 9 afterwards 4000 request payload_1 deleted
      (then_step (then_step stay (forcing_offline 22 9 refl)) (serving 3001 request)) refl refl refl

abbrev context_1 : AuthContext
context_1 = record { user = cached_user (account 1); device = cached_device phone_device }

abbrev entry_1 : Entry
entry_1 = new_entry 1000 1 21 context_1

cached : lookup served.cache 1 21 ≡ some entry_1
unfolding serve lookup
cached = refl

force_offline_device-stale_example :
    ((can_activate plain_jwt.verify_access
        (auth_cache_ttl default_env)
        2000
        (force_offline_device served 21 9).server.db
        (force_offline_device served 21 9).server.cache
        request).0
      ≡ ok (some (record { payload = payload_1; context = context_1 })))
    × (check_context (force_offline_device served 21 9).server.db 1 21 ≢ ok context_1)
unfolding read_token serve auth_cache_ttl find_one
force_offline_device-stale_example =
    force_offline_device-stale default_env plain_jwt served 9 phone_device 2000 request payload_1
      entry_1 context_1 (omega arith) refl cached refl refl refl refl

served-IsOld : All (IsOld 1 21 2000) served.cache
unfolding serve
served-IsOld = ((λ _. omega arith), tt)

force_offline_device-expires_example :
    (can_activate plain_jwt.verify_access
      (auth_cache_ttl default_env)
      40000
      (serve_all default_env plain_jwt
        ((3000, request) ∷ [])
        (force_offline_device served 21 9).server).db
      (serve_all default_env plain_jwt
        ((3000, request) ∷ [])
        (force_offline_device served 21 9).server).cache
      request).0
    ≢ ok none
unfolding read_token serve auth_cache_ttl find_one
force_offline_device-expires_example =
    force_offline_device-expires default_env plain_jwt served 9 phone_device 2000
      ((3000, request) ∷ []) 40000 request payload_1 none refl served-IsOld (omega arith) refl refl

cache_refines_example :
    ((get 30000 2000 (entry_1 ∷ []) 1 21).0 ≡ fresh 30000 2000 (lookup (entry_1 ∷ []) 1 21))
    × (lookup (get 30000 2000 (entry_1 ∷ []) 1 21).1
        ≡ update (lookup (entry_1 ∷ [])) 1 21 (kept 30000 2000 (lookup (entry_1 ∷ []) 1 21)))
    × (lookup (set 30000 2000 (entry_1 ∷ []) 1 21 context_1)
        ≡ update (lookup (entry_1 ∷ [])) 1 21 (some (new_entry 2000 1 21 context_1)))
    × (lookup (invalidate (entry_1 ∷ []) (some 1) (some 21)).0
        ≡ update (lookup (entry_1 ∷ [])) 1 21 none)
    × (lookup (invalidate (entry_1 ∷ []) (some 1) none).0 ≡ clear_user (lookup (entry_1 ∷ [])) 1)
    × (lookup (invalidate (entry_1 ∷ []) none none).0 ≡ (λ _ _. none))
cache_refines_example = cache_refines 30000 2000 (entry_1 ∷ []) 1 21 context_1 (omega arith)

abbrev laptop : DeviceInfo
laptop = record { device_name = b'L' ∷ []; device_type = b'w' ∷ []; device_id = none }

abbrev guess : Date → Attempt
guess now = record {
  at = now;
  password = b'z' ∷ [];
  info = laptop;
  uuid = 31;
  random_id = b'r' ∷ [];
}

abbrev guesses : List Attempt
guesses = guess 1 ∷ guess 2 ∷ guess 3 ∷ guess 4 ∷ guess 5 ∷ guess 6 ∷ guess 7 ∷ []

wrong : All (IsGuess default_env plain_jwt plain_passwords (1 ∷ []) (account 1) 1) guesses
unfolding same_text
wrong = (
  (refl, omega arith, omega arith),
  (
    (refl, omega arith, omega arith),
    (
      (refl, omega arith, omega arith),
      (
        (refl, omega arith, omega arith),
        (
          (refl, omega arith, omega arith),
          ((refl, omega arith, omega arith), ((refl, omega arith, omega arith), tt)),
        ),
      ),
    ),
  ),
)

count_verified_bounded_example :
    count_verified default_env plain_jwt plain_passwords (1 ∷ []) guesses start ≤ max_login_fails
unfolding find_one same_text
count_verified_bounded_example =
    count_verified_bounded default_env plain_jwt plain_passwords (1 ∷ []) start (account 1) 1
      guesses refl wrong

five_verified : count_verified default_env plain_jwt plain_passwords (1 ∷ []) guesses start ≡ 5
unfolding count_verified
five_verified = refl

abbrev locked_account : AppUser
locked_account = record (account 1) { locked_until = some 900000 }

abbrev locked_server : Server
locked_server = record start { db = record start.db { users = locked_account ∷ [] } }

-- One device per user: the login on the laptop evicts the phone.
abbrev one_device : Env
one_device = record default_env { max_devices_per_user = some (b'1' ∷ []) }

abbrev on_laptop : Response LoginReply
on_laptop =
    login one_device plain_jwt plain_passwords 31 (b'r' ∷ []) start 1000 (1 ∷ []) (b'h' ∷ []) laptop

logged_in : (reply : LoginReply) × (on_laptop.outcome ≡ ok reply)
unfolding login find_one same_text
logged_in = (_, refl)

login_bounded_example :
    device_count logged_in.0.user.safe.id on_laptop.server.db
    ≤ allowed_devices (session_policy one_device) (max_devices_per_user one_device)
unfolding exists_where max_devices_per_user
login_bounded_example =
    login_bounded one_device plain_jwt plain_passwords 31 (b'r' ∷ []) start 1000 (1 ∷ [])
      (b'h' ∷ []) laptop logged_in.0 logged_in.1 (omega arith) refl keyed
