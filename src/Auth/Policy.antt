-- ===== src/Auth/Policy.antt =====
-- The session policy of `AuthService.login`: which of the user's other devices a login evicts, and
-- what they are told.
use fenxin.Prelude.{
  drop, ℕ, ◌+◌, ◌-◌, Bool, true, false, not, ◌&&◌, Option, none, some, List, [], ◌∷◌, ◌++◌, ◌==◌,
  ltb, leb, if◌then◌else◌, length, map, select_where, delete_where, order_by,
}
use fenxin.Entities.{Uuid, Date, Device, Db, device_is, is_device_of}
use fenxin.Result.{
  device_removed, session_conflict, kicked_by_new_login, new_device_login, Effect, emit_to_devices,
  audit_own, session_kicked, device_limit_exceeded,
}
use fenxin.Env.{Env, env_or, max_devices_per_user}
use fenxin.Burn.{same_letters}
use fenxin.AuthCache.{invalidate}
use fenxin.Auth.{Server}

pub data SessionPolicy : Type 0 where
  allow notify single : SessionPolicy

-- `sessionPolicy`
unfoldable pub session_policy : Env → SessionPolicy
session_policy env =
    let value = env_or env.session_policy (b'n' ∷ []) in
    if same_letters value (b'a' ∷ b'l' ∷ b'l' ∷ b'o' ∷ b'w' ∷ [])
    then allow
    else if same_letters value (b's' ∷ b'i' ∷ b'n' ∷ b'g' ∷ b'l' ∷ b'e' ∷ [])
    then single
    else notify

-- `ORDER BY last_active_at DESC`: NULL stands last.
abbrev pub later_active : Device → Device → Bool
later_active x y = after x.last_active_at y.last_active_at
  where
    after : Option Date → Option Date → Bool
    after (some a) (some b) = leb b a
    after (some a) none = true
    after none (some b) = false
    after none none = true

-- The user's other devices, the last active first.
unfoldable pub other_devices : Db → Uuid → Uuid → List Device
unfolding select_where order_by
other_devices db user_id current_id =
    select_where (λ d. not (d.id == current_id))
      (order_by later_active (select_where (is_device_of user_id) db.devices))

-- A device's row and its entry of the cache are deleted.
unfoldable pub evict : Uuid → Server → Device → Server
unfolding delete_where invalidate
evict user_id s d = record {
  db = record s.db { devices = delete_where (device_is d.id) s.db.devices };
  cache = (invalidate s.cache (some user_id) (some d.id)).0;
}

unfoldable pub evict_all : Uuid → List Device → Server → Server
unfolding evict
evict_all user_id [] s = s
evict_all user_id (d ∷ ds) s = evict_all user_id ds (evict user_id s d)

abbrev pub device_ids : List Device → List Uuid
device_ids ds = map (λ (d : Device). d.id) ds

abbrev kicked_effects : Uuid → List Device → List Effect
kicked_effects new_id ds =
    map (λ (d : Device). emit_to_devices (d.id ∷ []) (session_conflict kicked_by_new_login new_id))
      ds

abbrev removed_effects : List Device → List Effect
removed_effects ds = map (λ (d : Device). emit_to_devices (d.id ∷ []) (device_removed d.id)) ds

abbrev notify_effects : SessionPolicy → Uuid → List Device → List Effect
notify_effects notify new_id (d ∷ ds) =
    emit_to_devices (device_ids (d ∷ ds)) (session_conflict new_device_login new_id) ∷ []
notify_effects policy new_id ds = []

-- The devices beyond the limit; `max` is 0 where there is none.
unfoldable pub excess_devices : ℕ → List Device → List Device
excess_devices max others =
    if ltb 0 max && ltb max (length others + 1) then drop (max - 1) others else []

-- The limit on the number of devices.
unfoldable pub limit_devices : Uuid → List Device → Server → Server × List Effect
unfolding evict_all
limit_devices user_id [] s = (s, [])
limit_devices user_id (d ∷ ds) s = (
  evict_all user_id (d ∷ ds) s,
  removed_effects (d ∷ ds) ++ audit_own user_id device_limit_exceeded ∷ [],
)

abbrev pub is_single : SessionPolicy → List Device → Bool
is_single single (d ∷ ds) = true
is_single policy ds = false

-- `applySessionPolicy`
unfoldable pub apply_session_policy : Env → Uuid → Device → Server → Server × List Effect
unfolding session_policy other_devices evict_all excess_devices limit_devices max_devices_per_user
apply_session_policy env user_id current s =
    let others = other_devices s.db user_id current.id in
    let policy = session_policy env in
    let (limited, effects) =
      limit_devices user_id (excess_devices (max_devices_per_user env) others) s in
    if is_single policy others
    then (
      evict_all user_id others s,
      kicked_effects current.id others ++ audit_own user_id session_kicked ∷ [],
    )
    else (limited, notify_effects policy current.id others ++ effects)
