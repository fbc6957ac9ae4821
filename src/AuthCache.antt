-- ===== src/AuthCache.antt =====
-- src/common/cache/auth-cache.service.ts: the guard's cache of users and devices. The key
-- `${userId}:${deviceId}` is the pair of the two ids, which hold no colon; the map is the list of
-- its entries. `ttl` is `ttlMs`, 0 where the cache is off. Logging is left out.
pub mod Refinement
use fenxin.Prelude.{
  ℕ, ◌-◌, Bool, true, false, not, ◌&&◌, Option, none, some, List, [], ◌==◌, ltb, length,
  if◌then◌else◌, find_one, delete_where, count_where, exists_where, upsert_where,
}
use fenxin.Entities.{Uuid, Date, Text, UserRole, UserStatus}

pub record CachedUser : Type 0 where
  pub id : Uuid
  pub phone : Text
  pub role : UserRole
  pub status : UserStatus
  pub force_change_pwd : Bool
  pub deleted_at : Option Date

pub record CachedDevice : Type 0 where
  pub id : Uuid
  pub user_id : Uuid

pub record AuthContext : Type 0 where
  pub user : CachedUser
  pub device : CachedDevice

pub record Entry : Type 0 where
  pub user_id : Uuid
  pub device_id : Uuid
  pub context : AuthContext
  pub cached_at : Date

abbrev pub Cache : Type 0
Cache = List Entry

abbrev pub entry_is : Uuid → Uuid → Entry → Bool
entry_is user_id device_id e = e.user_id == user_id && e.device_id == device_id

-- `k.startsWith(userId + ':')`
abbrev pub is_entry_of : Uuid → Entry → Bool
is_entry_of user_id e = e.user_id == user_id

-- `this.cache.get(key)`
unfoldable pub lookup : Cache → Uuid → Uuid → Option Entry
unfolding find_one
lookup cache user_id device_id = find_one (entry_is user_id device_id) cache

abbrev pub is_enabled : ℕ → Bool
is_enabled ttl = ltb 0 ttl

abbrev pub is_stale : ℕ → Date → Entry → Bool
is_stale ttl now e = ltb ttl (now - e.cached_at)

unfoldable pub get_found :
    ℕ → Date → Cache → Uuid → Uuid → Option Entry → Option AuthContext × Cache
unfolding delete_where
get_found ttl now cache user_id device_id none = (none, cache)
get_found ttl now cache user_id device_id (some e) =
    if is_stale ttl now e
    then (none, delete_where (entry_is user_id device_id) cache)
    else (some e.context, cache)

-- `get`: a stale entry is deleted and not returned.
unfoldable pub get : ℕ → Date → Cache → Uuid → Uuid → Option AuthContext × Cache
unfolding lookup get_found
get ttl now cache user_id device_id =
    if is_enabled ttl
    then get_found ttl now cache user_id device_id (lookup cache user_id device_id)
    else (none, cache)

abbrev pub new_entry : Date → Uuid → Uuid → AuthContext → Entry
new_entry now user_id device_id context = record {
  user_id = user_id;
  device_id = device_id;
  context = context;
  cached_at = now;
}

unfoldable pub set : ℕ → Date → Cache → Uuid → Uuid → AuthContext → Cache
unfolding upsert_where
set ttl now cache user_id device_id context =
    if is_enabled ttl
    then upsert_where (entry_is user_id device_id) (new_entry now user_id device_id context) cache
    else cache

-- `invalidate`: the cache that is left and the number of entries that were removed.
unfoldable pub invalidate : Cache → Option Uuid → Option Uuid → Cache × ℕ
unfolding delete_where count_where exists_where
invalidate cache (some user_id) (some device_id) = (
  delete_where (entry_is user_id device_id) cache,
  if exists_where (entry_is user_id device_id) cache then 1 else 0,
)
invalidate cache (some user_id) none =
    (delete_where (is_entry_of user_id) cache, count_where (is_entry_of user_id) cache)
invalidate cache none device_id = ([], length cache)
