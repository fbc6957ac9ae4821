-- ===== src/Sessions/Coherent.antt =====
-- Every operation keeps the invariant of the cache, so the guard answers as it would without one.
use fenxin.Prelude.{
  ◌≡◌, refl, ◌∙◌, sym, ap, subst, inl, inr, Bool, true, false, Option, none, some, [], arith, ◌==◌,
  Bool-cases, All-imply, IsDistinct, find_one, delete_where, find_one-delete_other, has,
}
use fenxin.Entities.{Uuid, Date, Device, Db, device_is, device_of}
use fenxin.Env.{Env, auth_cache_ttl}
use fenxin.Guard.{AuthPayload, Request, cached_device, check_context, read_token, can_activate}
use fenxin.Guard.Context.{
  IsCurrent, is_forced, IsCoherent, can_activate_directly, can_activate-IsCoherent,
}
use fenxin.Auth.{Server, Jwt, Passwords, apply_profile, update_profile, update_device}
use fenxin.Account.{batch_create_accounts, force_found, force_offline_device}
use fenxin.Presence.{
  Presence, connect_checked, connect_payload, is_ok, verify_token, open_socket, close_socket,
  go_offline, is_left, stale_devices, handle_connection, handle_disconnect, sweep_offline,
}
use fenxin.Sessions.{
  with_db, serve, SessionStep, serving, logging_in, changing_password, updating_profile,
  removing_device, beating, creating_account, creating_accounts, resetting_password, toggling,
  forcing_offline, deleting_account, connecting, disconnecting, minute, elsewhere, SessionSteps,
  stay, then_step,
}
use fenxin.Sessions.Stable.{check_context-columns}
use fenxin.Sessions.Keep.{
  ids_of, IsSound, delete-IsKeyed, update_user-IsSound, update_devices-IsSound,
}
use fenxin.Sessions.Devices.{login-IsSound}
use mathlib.Core.Option
use fenxin.Sessions.Accounts.{
  change_password-IsSound, remove_device-IsSound, heartbeat-IsSound, create_account-IsSound,
  create_each-IsSound, reset_password-IsSound, toggle-IsSound, elsewhere-IsSound,
  soft_delete-IsSound,
}

connect_checked-IsSound :
    {forced : Uuid → Bool} (s : Server) (now : Date) (payload : AuthPayload) (passed : Bool)
    (p : Presence)
    → connect_checked s.db now payload passed ≡ some p
    → IsSound forced s
    → IsSound forced (with_db s p.db)
unfolding update_device
connect_checked-IsSound s now payload false p h sound = cc
connect_checked-IsSound {forced} s now payload true p h sound =
    let db = update_device payload.device_id (open_socket now) s.db in
    let same : db ≡ p.db = ground arith in
    subst (λ (x : Db). IsSound forced (with_db s x)) same
      (update_devices-IsSound s (device_is payload.device_id) (open_socket now) (λ x. refl) sound)

connect-IsSound :
    {forced : Uuid → Bool} (s : Server) (now : Date) (payload : Option AuthPayload) (p : Presence)
    → connect_payload s.db now payload ≡ some p
    → IsSound forced s
    → IsSound forced (with_db s p.db)
connect-IsSound s now none p h sound = cc
connect-IsSound s now (some payload) p h sound =
    connect_checked-IsSound s now payload
      (is_ok (check_context s.db payload.user_id payload.device_id)) p h sound

disconnect-IsSound :
    {forced : Uuid → Bool} (s : Server) (now : Date) (user_id device_id : Uuid)
    → IsSound forced s
    → IsSound forced (with_db s (handle_disconnect s.db now user_id device_id).db)
unfolding handle_disconnect update_device
disconnect-IsSound s now user_id device_id sound =
    let db = update_device device_id (close_socket now) s.db in
    update_devices-IsSound (with_db s db) (is_left device_id) (go_offline now) (λ x. refl)
      (update_devices-IsSound s (device_is device_id) (close_socket now) (λ x. refl) sound)

sweep-IsSound :
    {forced : Uuid → Bool} (env : Env) (s : Server) (now : Date)
    → IsSound forced s
    → IsSound forced (with_db s (sweep_offline env s.db now).db)
unfolding sweep_offline
sweep-IsSound env s now sound =
    update_devices-IsSound s (λ d. has d.id (ids_of (stale_devices env s.db now))) (go_offline now)
      (λ x. refl) sound

serve-IsSound :
    {forced : Uuid → Bool} (env : Env) (jwt : Jwt) (s : Server) (now : Date) (req : Request)
    → IsSound forced s
    → IsSound forced (serve env jwt s now req)
unfolding serve
serve-IsSound {forced} env jwt s now req sound = record {
  coherent =
      (can_activate-IsCoherent forced jwt.verify_access (auth_cache_ttl env) now s.db s.cache req
        sound.coherent).1;
  keyed = sound.keyed;
}

-- A forced logout leaves the entries of the devices that may be forced.
force_found-IsSound :
    {forced : Uuid → Bool} (s : Server) (device_id operator_id : Uuid) (found : Option Device)
    → forced device_id ≡ true
    → IsSound forced s
    → IsSound forced (force_found s device_id operator_id found).server
force_found-IsSound s device_id operator_id none may sound = sound
force_found-IsSound {forced} s device_id operator_id (some d) may sound =
    let db = record s.db { devices = delete_where (device_is device_id) s.db.devices } in
    record {
      coherent =
          All-imply (IsCurrent forced s.db) (IsCurrent forced db) s.cache
            (λ e k. elim (Bool-cases (e.device_id == device_id)) [
              | inl t ↦
                  (let same : device_id ≡ e.device_id = ground (arith, t) in
                    inl (subst (λ x. forced x ≡ true) same may))
              | inr t ↦ elim k [
                | inl f ↦ inl f
                | inr c ↦ inr (
                    check_context-columns s.db db e.user_id e.device_id refl (
                      ap (Option.map cached_device) (
                        find_one-delete_other (device_of e.device_id e.user_id)
                          (device_is device_id) s.db.devices (λ x k. ground arith)))
                    ∙ c)
              ]
            ])
            sound.coherent;
      keyed = delete-IsKeyed (device_is device_id) s.db.devices sound.keyed;
    }

force_offline_device-IsSound :
    {forced : Uuid → Bool} (s : Server) (device_id operator_id : Uuid)
    → forced device_id ≡ true
    → IsSound forced s
    → IsSound forced (force_offline_device s device_id operator_id).server
unfolding force_offline_device
force_offline_device-IsSound s device_id operator_id may sound =
    force_found-IsSound s device_id operator_id (find_one (device_is device_id) s.db.devices) may
      sound

module _ (forced : Uuid → Bool) (env : Env) (jwt : Jwt) (passwords : Passwords) where
  Step-IsSound :
      (s t : Server)
      → SessionStep forced env jwt passwords s t
      → IsSound forced s
      → IsSound forced t
  unfolding batch_create_accounts update_profile handle_connection
  Step-IsSound s t (serving now req) sound = serve-IsSound env jwt s now req sound
  Step-IsSound s t (logging_in uuid random_id now phone password info fresh) sound =
      login-IsSound env jwt passwords uuid random_id s now phone password info fresh sound
  Step-IsSound s t (changing_password id old_password new_password) sound =
      change_password-IsSound passwords s id old_password new_password sound
  Step-IsSound s t (updating_profile id updates) sound =
      update_user-IsSound s id (apply_profile updates) (λ x. refl) sound
  Step-IsSound s t (removing_device user_id device_id) sound =
      remove_device-IsSound s user_id device_id sound
  Step-IsSound s t (beating now user_id device_id) sound =
      heartbeat-IsSound env s now user_id device_id sound
  Step-IsSound s t (creating_account uuid random now p) sound =
      create_account-IsSound passwords uuid random s now p sound
  Step-IsSound s t (creating_accounts uuid random now rows operator_id) sound =
      create_each-IsSound passwords uuid random 0 operator_id now rows s sound
  Step-IsSound s t (resetting_password random id operator_id new_password) sound =
      reset_password-IsSound passwords random s id operator_id new_password sound
  Step-IsSound s t (toggling id status operator_id) sound =
      toggle-IsSound s id status operator_id sound
  Step-IsSound s t (deleting_account run now id operator_id) sound =
      soft_delete-IsSound run s now id operator_id sound
  Step-IsSound s t (forcing_offline device_id operator_id may) sound =
      force_offline_device-IsSound s device_id operator_id may sound
  Step-IsSound s t (connecting now token p h) sound =
      connect-IsSound s now (verify_token jwt.verify_access now token) p h sound
  Step-IsSound s t (disconnecting now user_id device_id) sound =
      disconnect-IsSound s now user_id device_id sound
  Step-IsSound s t (minute now) sound = sweep-IsSound env s now sound
  Step-IsSound s t (elsewhere db users devices) sound = elsewhere-IsSound s db users devices sound

  pub Steps-IsSound :
      (s t : Server)
      → SessionSteps forced env jwt passwords s t
      → IsSound forced s
      → IsSound forced t
  Steps-IsSound s t stay sound = sound
  Steps-IsSound s t (then_step before step) sound =
      Step-IsSound _ t step (Steps-IsSound s _ before sound)

-- From an empty cache and distinct ids of devices on, through any number of the operations on
-- accounts and devices, forced logouts included, the guard with its cache answers every request as
-- the guard without a cache, but for a token of a device that an administrator may have forced
-- offline.
pub Steps-can_activate :
    (forced : Uuid → Bool) (env : Env) (jwt : Jwt) (passwords : Passwords) (s t : Server)
    (now : Date) (req : Request)
    → s.cache ≡ []
    → IsDistinct (ids_of s.db.devices)
    → SessionSteps forced env jwt passwords s t
    → is_forced forced (read_token jwt.verify_access now req.authorization) ≡ false
    → (can_activate jwt.verify_access (auth_cache_ttl env) now t.db t.cache req).0
      ≡ can_activate_directly jwt.verify_access now t.db req
Steps-can_activate forced env jwt passwords s t now req empty keyed steps spared =
    let start : IsSound forced s = record {
      coherent = subst (IsCoherent forced s.db) (sym empty) tt;
      keyed = keyed;
    } in
    elim (can_activate-IsCoherent forced jwt.verify_access (auth_cache_ttl env) now t.db t.cache req
      (Steps-IsSound forced env jwt passwords s t steps start).coherent).0 [
        | inl may ↦ cc (may, spared)
        | inr same ↦ same
      ]
