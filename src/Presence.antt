-- ===== src/Presence.antt =====
-- Who is online: `handleConnection` and `handleDisconnect` of src/modules/events/events.gateway.ts,
-- and `sweepOffline` of src/modules/auth/presence.scheduler.ts. Sockets and rooms are socket.io's;
-- the two updates of a disconnection run one after the other. Where more than 500 devices are
-- stale, the rows of a sweep are the first ones.
pub mod Honest
mod Tests
use fenxin.Prelude.{
  ℕ, ◌+◌, ◌-◌, ◌*◌, Bool, true, false, ◌&&◌, Option, none, some, List, [], ◌∷◌, ◌++◌, map, ◌==◌,
  ltb, take, has, distinct, if◌then◌else◌, select_where, update_where, exists_where,
}
use fenxin.Entities.{Uuid, Date, Text, Device, Db}
use fenxin.Result.{Result, ok, err, device_online, device_offline_at, Effect, emit}
use fenxin.Env.{Env, online_ttl_seconds}
use fenxin.Guard.{AuthPayload, check_context}
use fenxin.Auth.{update_device}

pub record Presence : Type 0 where
  pub db : Db
  pub effects : List Effect

-- `increment`, then the update.
abbrev pub open_socket : Date → Device → Device
open_socket now d = record d {
  socket_count = d.socket_count + 1;
  is_online = true;
  online_at = some now;
  last_active_at = some now;
}

abbrev pub connect_checked : Db → Date → AuthPayload → Bool → Option Presence
connect_checked db now payload false = none
connect_checked db now payload true = some (record {
  db = update_device payload.device_id (open_socket now) db;
  effects = emit (payload.user_id ∷ []) (device_online payload.device_id now) ∷ [];
})

abbrev pub is_ok {κ} : {A : Type κ} → Result A → Bool
is_ok (ok a) = true
is_ok (err e) = false

abbrev pub connect_payload : Db → Date → Option AuthPayload → Option Presence
connect_payload db now none = none
connect_payload db now (some payload) =
    connect_checked db now payload (is_ok (check_context db payload.user_id payload.device_id))

abbrev pub verify_token :
    (Date → Text → Option AuthPayload) → Date → Option Text → Option AuthPayload
verify_token verify now none = none
verify_token verify now (some token) = verify now token

-- A connection with the token of its handshake; none where it is closed at once.
unfoldable pub handle_connection :
    (verify : Date → Text → Option AuthPayload) → Db → Date → Option Text → Option Presence
unfolding update_device check_context
handle_connection verify db now token = connect_payload db now (verify_token verify now token)

-- `GREATEST(socket_count - 1, 0)`
abbrev pub close_socket : Date → Device → Device
close_socket now d = record d { socket_count = d.socket_count - 1; last_active_at = some now }

abbrev pub go_offline : Date → Device → Device
go_offline now d = record d { is_online = false; offline_at = some now }

abbrev pub is_left : Uuid → Device → Bool
is_left id d = d.id == id && d.socket_count == 0 && d.is_online

-- A socket of a device of the user closes.
unfoldable pub handle_disconnect : Db → Date → Uuid → Uuid → Presence
unfolding update_device update_where exists_where
handle_disconnect db now user_id device_id =
    let db' = update_device device_id (close_socket now) db in
    record {
      db = record db' { devices = update_where (is_left device_id) (go_offline now) db'.devices };
      effects =
          if exists_where (is_left device_id) db'.devices
          then emit (user_id ∷ []) (device_offline_at device_id now) ∷ []
          else [];
    }

-- `last_active_at IS NULL OR last_active_at < cutoff`
abbrev pub is_inactive : ℕ → Date → Option Date → Bool
is_inactive ttl now none = true
is_inactive ttl now (some t) = ltb (t + ttl * 1000) now

unfoldable pub is_stale_device : ℕ → Date → Device → Bool
is_stale_device ttl now d =
    d.is_online && d.socket_count == 0 && is_inactive ttl now d.last_active_at

abbrev pub sweep_size : ℕ
sweep_size = 500

-- `byUser`: for each user, in the order of the first device, an event for each device.
unfoldable pub offline_events : Date → List Device → List Uuid → List Effect
unfolding select_where
offline_events now stale [] = []
offline_events now stale (u ∷ us) =
    map (λ (d : Device). emit (u ∷ []) (device_offline_at d.id now))
      (select_where (λ (d : Device). d.user_id == u) stale)
    ++ offline_events now stale us

unfoldable pub stale_devices : Env → Db → Date → List Device
unfolding select_where is_stale_device online_ttl_seconds
stale_devices env db now =
    take sweep_size (select_where (is_stale_device (online_ttl_seconds env) now) db.devices)

-- The minute task.
unfoldable pub sweep_offline : Env → Db → Date → Presence
unfolding stale_devices update_where has distinct offline_events
sweep_offline env db now =
    let stale = stale_devices env db now in
    let ids = map (λ (d : Device). d.id) stale in
    record {
      db = record db { devices = update_where (λ d. has d.id ids) (go_offline now) db.devices };
      effects = offline_events now stale (distinct (map (λ (d : Device). d.user_id) stale));
    }
