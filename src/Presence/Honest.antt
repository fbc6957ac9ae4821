-- ===== src/Presence/Honest.antt =====
-- A device with an open socket is shown online, through connections, disconnections, heartbeats and
-- the sweeps of the minute task. The open sockets, which are socket.io's, are a list beside the
-- database.
use fenxin.Prelude.{
  ℕ, ◌+◌, ◌-◌, ◌≡◌, refl, ◌∙◌, subst, sym, ◌⊎◌, inl, inr, arith, Bool, true, false, Option, some,
  List, [], ◌∷◌, map, ◌==◌, if◌then◌else◌, has, All, All-In, In, select_where, update_where,
  find_one, Bool-cases, has-map_back, In-take, In-select_back, Option-cases,
}
use fenxin.Entities.{Uuid, Date, Text, Device, Db, device_is, device_of}
use fenxin.Env.{Env, online_ttl_seconds}
use fenxin.AuthCache.{Cache}
use fenxin.Guard.{AuthPayload, check_context}
use fenxin.Auth.{update_device, beat, heartbeat}
use fenxin.Presence.{
  Presence, open_socket, close_socket, go_offline, is_left, is_stale_device, stale_devices,
  sweep_size, connect_payload, verify_token, is_ok, handle_connection, handle_disconnect,
  sweep_offline,
}

abbrev ids_of : List Device → List Uuid
ids_of ds = map (λ (d : Device). d.id) ds

-- The database, and the devices of the open sockets, one for each socket.
pub record Live : Type 0 where
  pub db : Db
  pub sockets : List Uuid

unfoldable pub open_count : Uuid → List Uuid → ℕ
open_count id [] = 0
open_count id (x ∷ sockets) = let rest = open_count id sockets in if x == id then rest + 1 else rest

-- One socket of the device is closed.
unfoldable pub close_one : Uuid → List Uuid → List Uuid
close_one id [] = []
close_one id (x ∷ sockets) =
    let rest = close_one id sockets in if x == id then sockets else x ∷ rest

-- The counter is the number of the device's open sockets, and with one it is shown online.
abbrev pub IsHonest : List Uuid → Device → Type 0
IsHonest sockets d =
    (d.socket_count ≡ open_count d.id sockets)
    × ((open_count d.id sockets ≡ 0) ⊎ (d.is_online ≡ true))

abbrev pub IsPresence : Live → Type 0
IsPresence live = All (IsHonest live.sockets) live.db.devices

-- What changes the presence of the devices: a connection with a good token opens a socket, and only
-- an open socket is closed.
pub data PresenceStep (live : Live) : Live → Type 0 where
  connect :
      (verify : Date → Text → Option AuthPayload) (now : Date) (token : Option Text)
      (payload : AuthPayload) (r : Presence)
      → verify_token verify now token ≡ some payload
      → handle_connection verify live.db now token ≡ some r
      → PresenceStep live (record { db = r.db; sockets = payload.device_id ∷ live.sockets })
  disconnect :
      (now : Date) (user_id device_id : Uuid)
      → has device_id live.sockets ≡ true
      → PresenceStep live (record {
        db = (handle_disconnect live.db now user_id device_id).db;
        sockets = close_one device_id live.sockets;
      })
  beat_once :
      (env : Env) (cache : Cache) (now : Date) (user_id device_id : Uuid)
      → PresenceStep live (record live {
        db =
            (heartbeat env
              (record { db = live.db; cache = cache })
              now
              user_id
              device_id).server.db;
      })
  sweep :
      (env : Env) (now : Date)
      → PresenceStep live (record live { db = (sweep_offline env live.db now).db })

pub data PresenceSteps : Live → Live → Type 0 where
  stop : (x : Live) → PresenceSteps x x
  go : (x y z : Live) → PresenceStep x y → PresenceSteps y z → PresenceSteps x z

-- An update that turns a property of all rows into another.
All-update_In :
    {A : Type 0} (P Q : A → Type 0) (p : A → Bool) (f : A → A) (xs : List A)
    → ((a : A) → In a xs → p a ≡ true → P a → Q (f a))
    → ((a : A) → p a ≡ false → P a → Q a)
    → All P xs
    → All Q (update_where p f xs)
unfolding update_where
All-update_In P Q p f [] h g k = tt
All-update_In P Q p f (x ∷ xs) h g k = elim (Bool-cases (p x)) [
  | inl e ↦ rw e (h x (inl refl) e k.0, All-update_In P Q p f xs (λ a i. h a (inr i)) g k.1)
  | inr e ↦ rw e (g x e k.0, All-update_In P Q p f xs (λ a i. h a (inr i)) g k.1)
]

open_count_some :
    (i j : Uuid) (sockets : List Uuid)
    → (j == i) ≡ true
    → has i sockets ≡ true
    → open_count j sockets ≡ (open_count j sockets - 1) + 1
unfolding open_count has
open_count_some i j [] t h = absurd (ground arith)
open_count_some i j (x ∷ sockets) t h = ground (arith, t, open_count_some i j sockets t)

open_count_same :
    (i j : Uuid) (sockets : List Uuid)
    → (j == i) ≡ true
    → has i sockets ≡ true
    → open_count j (close_one i sockets) ≡ open_count j sockets - 1
unfolding open_count close_one has
open_count_same i j [] t h = refl
open_count_same i j (x ∷ sockets) t h =
    ground (arith, t, open_count_same i j sockets t, open_count_some i j sockets t)

open_count_other :
    (i j : Uuid) (sockets : List Uuid)
    → (j == i) ≡ false
    → open_count j (close_one i sockets) ≡ open_count j sockets
unfolding open_count close_one
open_count_other i j [] t = refl
open_count_other i j (x ∷ sockets) t = ground (arith, t, open_count_other i j sockets t)

connected-IsPresence :
    (live : Live) (now : Date) (i : Uuid)
    → IsPresence live
    → All (IsHonest (i ∷ live.sockets)) (update_device i (open_socket now) live.db).devices
unfolding update_device open_count
connected-IsPresence live now i k =
    All-update_In (IsHonest live.sockets) (IsHonest (i ∷ live.sockets)) (device_is i)
      (open_socket now) live.db.devices (λ d _ t h. (ground (arith, t, h.0), inr refl))
      (λ d t h.
        (ground (arith, t, h.0), elim h.1 [ inl z ↦ inl (ground (arith, t, z)) | inr o ↦ inr o ]))
      k

connect-IsPresence :
    (live : Live) (now : Date) (payload : AuthPayload) (r : Presence)
    → connect_payload live.db now (some payload) ≡ some r
    → IsPresence live
    → All (IsHonest (payload.device_id ∷ live.sockets)) r.db.devices
connect-IsPresence live now payload r h k =
    let db = live.db in
    let checked = is_ok (check_context db payload.user_id payload.device_id) in
    elim (Bool-cases checked) [
      | inl t ↦
          let same : update_device payload.device_id (open_socket now) db ≡ r.db =
            ground (arith, t, h) in
          subst (λ (x : Db). All (IsHonest (payload.device_id ∷ live.sockets)) x.devices) same
            (connected-IsPresence live now payload.device_id k)
      | inr t ↦ absurd (ground (arith, t, h))
    ]

-- After the first update the counter of the device is right; the second one is of rows at 0.
left-IsHonest :
    (sockets : List Uuid) (now : Date) (i : Uuid) (d : Device)
    → is_left i d ≡ true
    → IsHonest sockets d
    → IsHonest sockets (go_offline now d)
left-IsHonest sockets now i d t h = (h.0, inl (ground (arith, t, h.0)))

disconnect-IsPresence :
    (live : Live) (now : Date) (u i : Uuid)
    → has i live.sockets ≡ true
    → IsPresence live
    → All (IsHonest (close_one i live.sockets)) (handle_disconnect live.db now u i).db.devices
unfolding handle_disconnect update_device
disconnect-IsPresence live now u i was_open k =
    let sockets = close_one i live.sockets in
    let closed =
      All-update_In (IsHonest live.sockets) (IsHonest sockets) (device_is i) (close_socket now)
        live.db.devices
        (λ d _ t h.
          (let same = open_count_same i d.id live.sockets t was_open in
            (
              omega (arith, h.0, same),
              elim h.1 [ inl z ↦ inl (omega (arith, z, same)) | inr o ↦ inr o ],
            )))
        (λ d t h.
          (let same = open_count_other i d.id live.sockets t in
            (h.0 ∙ sym same, elim h.1 [ inl z ↦ inl (same ∙ z) | inr o ↦ inr o ])))
        k in
    All-update_In (IsHonest sockets) (IsHonest sockets) (is_left i) (go_offline now)
      (update_where (device_is i) (close_socket now) live.db.devices)
      (λ d _ t h. left-IsHonest sockets now i d t h) (λ d _ h. h) closed

-- A device that the sweep marks has no open socket.
stale-idle :
    (env : Env) (live : Live) (now : Date) (d : Device)
    → IsPresence live
    → has d.id (ids_of (stale_devices env live.db now)) ≡ true
    → open_count d.id live.sockets ≡ 0
unfolding stale_devices is_stale_device
stale-idle env live now d k h =
    let db = live.db in
    let test = is_stale_device (online_ttl_seconds env) now in
    let (s, i, e) = has-map_back (λ (d : Device). d.id) (stale_devices env db now) d.id h in
    let (j, t) =
      In-select_back test db.devices s (In-take sweep_size (select_where test db.devices) s i) in
    let honest = All-In (IsHonest live.sockets) db.devices s k j in
    let idle : s.socket_count ≡ 0 = ground (arith, t) in
    subst (λ x. open_count x live.sockets ≡ 0) e (sym honest.0 ∙ idle)

sweep-IsPresence :
    (env : Env) (live : Live) (now : Date)
    → IsPresence live
    → All (IsHonest live.sockets) (sweep_offline env live.db now).db.devices
unfolding sweep_offline
sweep-IsPresence env live now k =
    All-update_In (IsHonest live.sockets) (IsHonest live.sockets)
      (λ d. has d.id (ids_of (stale_devices env live.db now))) (go_offline now) live.db.devices
      (λ d _ t h. (h.0, inl (stale-idle env live now d k t))) (λ d _ h. h) k

heartbeat-IsPresence :
    (env : Env) (cache : Cache) (live : Live) (now : Date) (u i : Uuid)
    → IsPresence live
    → All
        (IsHonest live.sockets)
        (heartbeat env (record { db = live.db; cache = cache }) now u i).server.db.devices
unfolding heartbeat update_device
heartbeat-IsPresence env cache live now u i k =
    elim (Option-cases (find_one (device_of i u) live.db.devices)) [
      | inl e ↦ rw e k
      | inr (d, e) ↦ rw e (
          All-update_In (IsHonest live.sockets) (IsHonest live.sockets) (device_is i) (beat now d)
            live.db.devices (λ x _ _ h. (h.0, inr refl)) (λ x _ h. h) k)
    ]

PresenceStep-IsPresence : (x y : Live) → PresenceStep x y → IsPresence x → IsPresence y
unfolding handle_connection
PresenceStep-IsPresence x _ (connect verify now token payload r read h) k =
    let joined : connect_payload x.db now (some payload) ≡ some r =
      subst (λ o. connect_payload x.db now o ≡ some r) read h in
    connect-IsPresence x now payload r joined k
PresenceStep-IsPresence x _ (disconnect now u i was_open) k =
    disconnect-IsPresence x now u i was_open k
PresenceStep-IsPresence x _ (beat_once env cache now u i) k =
    heartbeat-IsPresence env cache x now u i k
PresenceStep-IsPresence x _ (sweep env now) k = sweep-IsPresence env x now k

-- If the counter of every device is the number of its open sockets, and the devices with an open
-- socket are shown online, then both stay so through any connections, disconnections of open
-- sockets, heartbeats and sweeps.
pub PresenceSteps-IsPresence : (x y : Live) → PresenceSteps x y → IsPresence x → IsPresence y
PresenceSteps-IsPresence x y (stop _) k = k
PresenceSteps-IsPresence x z (go _ y _ s ss) k =
    PresenceSteps-IsPresence y z ss (PresenceStep-IsPresence x y s k)
