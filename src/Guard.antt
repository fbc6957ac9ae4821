-- ===== src/Guard.antt =====
-- src/common/guards: `JwtAuthGuard.canActivate` and `RolesGuard.canActivate`. The verification of
-- an access token by the JWT library is the parameter `verify`, which maps a token, at the present,
-- to its payload or to nothing. A request's method is upper-cased letter by letter.
pub mod Context
use fenxin.Prelude.{
  ℕ, ◌-◌, Bool, true, false, not, ◌&&◌, ◌||◌, Option, none, some, List, [], ◌∷◌, ◌==◌, leb, is_some,
  if◌then◌else◌, find_one,
}
use fenxin.Entities.{
  Uuid, Date, Text, same_text, UserRole, user, admin, is_admin, AppUser, is_active, Device, Db,
  user_is, device_of,
}
use fenxin.Result.{
  Result, ok, err, Error, unauthorized, forbidden, no_bearer, invalid_token, account_disabled,
  device_offline, must_change_password, role_required, ◌>>=◌, ◌>>◌, reject, require, or_throw,
}
use fenxin.AuthCache.{CachedUser, CachedDevice, AuthContext, Cache, get, set}

pub record AuthPayload : Type 0 where
  pub user_id : Uuid
  pub phone : Text
  pub role : UserRole
  pub device_id : Uuid

pub record Request : Type 0 where
  pub is_public : Bool
  pub authorization : Option Text
  pub method : Text
  pub path : Text

-- The rest of a text after a prefix.
unfoldable pub strip_prefix : Text → Text → Option Text
strip_prefix [] s = some s
strip_prefix (c ∷ p) [] = none
strip_prefix (c ∷ p) (d ∷ s) = let rest = strip_prefix p s in if c == d then rest else none

abbrev pub upper_case : ℕ → ℕ
upper_case c = if leb b'a' c && leb c b'z' then c - 32 else c

unfoldable pub to_upper : Text → Text
to_upper [] = []
to_upper (c ∷ s) = upper_case c ∷ to_upper s

-- A segment without a slash, of one unit at least, and then the text: /^[^/]+…$/
unfoldable pub is_segment_then : Bool → Text → Text → Bool
unfolding same_text
is_segment_then begun tail [] = false
is_segment_then begun tail (c ∷ s) =
    let rest = is_segment_then true tail s in
    if c == b'/' then begun && same_text (c ∷ s) tail else rest

abbrev api : Text
api = b'/' ∷ b'a' ∷ b'p' ∷ b'i' ∷ b'/' ∷ b'v' ∷ b'1' ∷ []

abbrev auth_path : Text
auth_path = b'/' ∷ b'a' ∷ b'u' ∷ b't' ∷ b'h' ∷ b'/' ∷ []

abbrev get_word : Text
get_word = b'G' ∷ b'E' ∷ b'T' ∷ []

abbrev put_word : Text
put_word = b'P' ∷ b'U' ∷ b'T' ∷ []

abbrev post_word : Text
post_word = b'P' ∷ b'O' ∷ b'S' ∷ b'T' ∷ []

abbrev change_password_word : Text
change_password_word =
    b'c' ∷ b'h' ∷ b'a' ∷ b'n' ∷ b'g' ∷ b'e' ∷ b'-' ∷ b'p' ∷ b'a' ∷ b's' ∷ b's' ∷ b'w' ∷ b'o' ∷ b'r'
    ∷ b'd' ∷ []

abbrev profile_word : Text
profile_word = b'p' ∷ b'r' ∷ b'o' ∷ b'f' ∷ b'i' ∷ b'l' ∷ b'e' ∷ []

abbrev devices_word : Text
devices_word = b'd' ∷ b'e' ∷ b'v' ∷ b'i' ∷ b'c' ∷ b'e' ∷ b's' ∷ []

abbrev offline_tail : Text
offline_tail = b'/' ∷ b'o' ∷ b'f' ∷ b'f' ∷ b'l' ∷ b'i' ∷ b'n' ∷ b'e' ∷ []

-- The tests on the path behind '/api/v1/auth/'.
unfoldable pub is_open_auth_path : Text → Text → Bool
unfolding same_text strip_prefix is_segment_then
is_open_auth_path method rest =
    (same_text method post_word && same_text rest change_password_word)
    || (same_text method get_word && same_text rest profile_word)
    || (same_text method put_word && same_text rest profile_word)
    || (same_text method get_word && same_text rest devices_word)
    || (same_text method post_word && elim (strip_prefix devices_word rest) [
      | some (c ∷ s) ↦ c == b'/' && is_segment_then false offline_tail s
      | _ ↦ false
    ])

-- `FORCE_CHANGE_PWD_WHITELIST.some(…)`
unfoldable pub is_whitelisted : Text → Text → Bool
unfolding same_text strip_prefix is_open_auth_path
is_whitelisted method path = elim (strip_prefix api path) [
  | none ↦ false
  | some rest ↦
      elim (strip_prefix auth_path rest) [ none ↦ false | some r ↦ is_open_auth_path method r ]
      || (same_text method get_word && (same_text rest [] || same_text rest (b'/' ∷ [])))
]

abbrev pub cached_user : AppUser → CachedUser
cached_user u = record {
  id = u.id;
  phone = u.phone;
  role = u.role;
  status = u.status;
  force_change_pwd = u.force_change_pwd;
  deleted_at = u.deleted_at;
}

abbrev pub cached_device : Device → CachedDevice
cached_device d = record { id = d.id; user_id = d.user_id }

abbrev pub is_usable : AppUser → Bool
is_usable u = is_active u.status && not (is_some u.deleted_at)

abbrev pub context_from : Option Device → AppUser → Result AuthContext
context_from none u = err (unauthorized device_offline)
context_from (some d) u = ok (record { user = cached_user u; device = cached_device d })

abbrev pub usable_from : Option AppUser → Option Device → Result AuthContext
usable_from none device = err (unauthorized account_disabled)
usable_from (some u) device =
    if is_usable u then context_from device u else err (unauthorized account_disabled)

-- The two queries on a cache miss. The second has no effect, so it may stand before the first test.
unfoldable pub check_context : Db → Uuid → Uuid → Result AuthContext
unfolding find_one
check_context db user_id device_id =
    usable_from (find_one (user_is user_id) db.users)
      (find_one (device_of device_id user_id) db.devices)

-- The context from the cache or from the database, and the cache that is left.
abbrev pub store_context :
    ℕ → Date → Cache → Uuid → Uuid → Result AuthContext → Result AuthContext × Cache
store_context ttl now cache user_id device_id (err e) = (err e, cache)
store_context ttl now cache user_id device_id (ok context) =
    (ok context, set ttl now cache user_id device_id context)

abbrev pub context_or :
    ℕ → Date → Db → Uuid → Uuid → Option AuthContext → Cache → Result AuthContext × Cache
context_or ttl now db user_id device_id (some context) cache = (ok context, cache)
context_or ttl now db user_id device_id none cache =
    store_context ttl now cache user_id device_id (check_context db user_id device_id)

unfoldable pub load_context : ℕ → Date → Db → Cache → Uuid → Uuid → Result AuthContext × Cache
unfolding get set check_context
load_context ttl now db cache user_id device_id =
    let (hit, cache') = get ttl now cache user_id device_id in
    context_or ttl now db user_id device_id hit cache'

-- `(req.method || 'GET').toUpperCase()`
abbrev pub method_of : Text → Text
method_of [] = get_word
method_of (c ∷ s) = to_upper (c ∷ s)

-- What the guard hangs on the request: `user`, `authUser` and `authDevice`.
pub record Session : Type 0 where
  pub payload : AuthPayload
  pub context : AuthContext

unfoldable pub admit : Request → AuthPayload → AuthContext → Result (Option Session)
unfolding is_whitelisted to_upper
admit req payload context = do
  reject (context.user.force_change_pwd && not (is_whitelisted (method_of req.method) req.path))
      (forbidden must_change_password)
  ok (some (record { payload = payload; context = context }))

abbrev bearer : Text
bearer = b'B' ∷ b'e' ∷ b'a' ∷ b'r' ∷ b'e' ∷ b'r' ∷ b' ' ∷ []

-- The payload of the request's token.
unfoldable pub read_token :
    (verify : Date → Text → Option AuthPayload) → Date → Option Text → Result AuthPayload
unfolding strip_prefix
read_token verify now none = err (unauthorized no_bearer)
read_token verify now (some header) = do
  token ← or_throw (strip_prefix bearer header) (unauthorized no_bearer)
  or_throw (verify now token) (unauthorized invalid_token)

abbrev pub admit_loaded :
    Request → AuthPayload → Result AuthContext × Cache → Result (Option Session) × Cache
admit_loaded req payload (loaded, cache) = (loaded >>= admit req payload, cache)

abbrev pub authorize :
    ℕ → Date → Db → Cache → Request → Result AuthPayload → Result (Option Session) × Cache
authorize ttl now db cache req (err e) = (err e, cache)
authorize ttl now db cache req (ok payload) =
    admit_loaded req payload (load_context ttl now db cache payload.user_id payload.device_id)

-- `canActivate`: the session, none on a public route, and the cache that is left.
unfoldable pub can_activate :
    (verify : Date → Text → Option AuthPayload)
    → ℕ
    → Date
    → Db
    → Cache
    → Request
    → Result (Option Session) × Cache
unfolding read_token load_context admit
can_activate verify ttl now db cache req =
    let guarded = authorize ttl now db cache req (read_token verify now req.authorization) in
    if req.is_public then (ok none, cache) else guarded

abbrev has_role : UserRole → List UserRole → Bool
has_role r [] = false
has_role user (user ∷ rs) = true
has_role admin (admin ∷ rs) = true
has_role user (admin ∷ rs) = has_role user rs
has_role admin (user ∷ rs) = has_role admin rs

-- `RolesGuard`: the roles of the route against the role of the token's payload.
unfoldable pub check_roles : List UserRole → Option Session → Result (Unit {0})
check_roles [] session = ok tt
check_roles (r ∷ rs) none = err (forbidden role_required)
check_roles (r ∷ rs) (some session) =
    require (has_role session.payload.role (r ∷ rs)) (forbidden role_required)
