-- ===== src/Presence/Tests.antt =====
-- A device of user 1 connects twice, and one of its sockets closes.
use fenxin.Prelude.{◌≡◌, refl, inl, false, Option, none, some, [], ◌∷◌, has, find_one, update_where}
use fenxin.Entities.{Db, Device, user, Date, Text}
use fenxin.Fixtures.{burn_db, account, default_env}
use fenxin.Guard.{AuthPayload, check_context}
use fenxin.Auth.{update_device}
use fenxin.Presence.{Presence, handle_connection, handle_disconnect, sweep_offline}
use fenxin.Presence.Honest.{
  Live, open_count, close_one, PresenceSteps, IsPresence, stop, go, connect, disconnect, sweep,
  PresenceSteps-IsPresence,
}

abbrev idle_device : Device
idle_device = record {
  id = 21;
  user_id = 1;
  device_name = [];
  device_type = [];
  device_id = [];
  is_online = false;
  socket_count = 0;
  online_at = none;
  offline_at = none;
  last_active_at = none;
  created_at = 0;
}

abbrev base : Db
base = record burn_db { users = account 1 ∷ []; devices = idle_device ∷ [] }

abbrev payload : AuthPayload
payload = record { user_id = 1; phone = 1 ∷ []; role = user; device_id = 21 }

abbrev read : Date → Text → Option AuthPayload
read now token = some payload

joined : (r : Presence) × (handle_connection read base 1000 (some []) ≡ some r)
unfolding handle_connection check_context find_one
joined = (_, refl)

again : (r : Presence) × (handle_connection read joined.0.db 2000 (some []) ≡ some r)
unfolding joined handle_connection check_context find_one update_where update_device
again = (_, refl)

abbrev live : Live
live = record { db = base; sockets = [] }

abbrev twice : Live
twice = record { db = again.0.db; sockets = 21 ∷ 21 ∷ [] }

-- One of the two sockets is closed, and a sweep comes later.
abbrev after : Live
after = record {
  db = (sweep_offline default_env (handle_disconnect twice.db 3000 1 21).db 900000).db;
  sockets = close_one 21 twice.sockets;
}

steps : PresenceSteps live after
unfolding has
steps = go live _ _ (connect read 1000 (some []) payload joined.0 refl joined.1) (
    go _ twice _ (connect read 2000 (some []) payload again.0 refl again.1)
      (go twice _ _ (disconnect 3000 1 21 refl) (go _ _ _ (sweep default_env 900000) (stop after))))

live-IsPresence : IsPresence live
unfolding open_count
live-IsPresence = ((refl, inl refl), tt)

PresenceSteps-IsPresence_example : IsPresence after
PresenceSteps-IsPresence_example = PresenceSteps-IsPresence live after steps live-IsPresence

-- The other socket is still open.
still_open : open_count 21 after.sockets ≡ 1
unfolding open_count close_one
still_open = refl
