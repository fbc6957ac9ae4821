-- ===== src/Sessions/Deleted/Steps.antt =====
-- Every operation keeps a deleted account deleted and out of the guard's cache.
use fenxin.Prelude.{
  ℕ, ◌+◌, ◌≡◌, refl, sym, inl, inr, Bool, true, false, Option, none, some, List, [], ◌∷◌, arith,
  is_some, find_one, select_where, All-delete, Option-cases, if_cases,
}
use fenxin.Entities.{
  Uuid, Date, Text, AppUser, UserStatus, active, disabled, user_is, device_is, device_of,
}
use fenxin.Result.{Result, ok, err}
use fenxin.Env.{Env}
use fenxin.AuthCache.{entry_is, is_entry_of, invalidate}
use fenxin.Guard.{AuthPayload}
use fenxin.Group.Ownership.{GroupRun, is_owned_group, dissolve_groups_on_account_delete}
use fenxin.Auth.{
  Server, Response, Jwt, Passwords, update_user, update_device, forget_user, set_password,
  change_password, apply_profile, update_profile, remove_device, heartbeat,
}
use fenxin.Auth.Login.{phone_is, check_login, login}
use fenxin.Account.{
  NewAccount, AccountParams, new_account, create_account, AccountRow, params_of, create_each,
  batch_create_accounts, reset_password, set_status, mark_deleted, delete_devices, toggled,
  toggle_account_status, soft_deleted, check_deletion, delete_checked, soft_delete_account,
  password_or, force_offline_device,
}
use fenxin.Presence.{
  Presence, connect_payload, verify_token, handle_connection, handle_disconnect, sweep_offline,
}
use fenxin.Sessions.{
  with_db, SessionStep, serving, logging_in, changing_password, updating_profile, removing_device,
  beating, creating_account, creating_accounts, resetting_password, toggling, deleting_account,
  forcing_offline, connecting, disconnecting, minute, elsewhere, SessionSteps, stay, then_step,
}
use fenxin.Sessions.Accounts.{dissolve_each-rows}
use fenxin.Sessions.Deleted.{
  IsRevoked, longer-IsGone, update_user-IsRevoked, users-IsRevoked, forget_user-IsRevoked,
  serve-IsRevoked,
}
use fenxin.Sessions.Deleted.Login.{login_checked-IsRevoked}

module _ (id : Uuid) where
  -- A row changes, keeps its mark, and the user's entries are forgotten.
  change-IsRevoked :
      (s : Server) (target : Uuid) (f : AppUser → AppUser)
      → ((x : AppUser) → (f x).id ≡ x.id)
      → ((x : AppUser) → is_some x.deleted_at ≡ true → is_some (f x).deleted_at ≡ true)
      → IsRevoked id s
      → IsRevoked id (forget_user target (with_db s (update_user target f s.db)))
  change-IsRevoked s target f h k r =
      forget_user-IsRevoked id (with_db s (update_user target f s.db)) target
        (update_user-IsRevoked id s target f h k r)

  change_devices-IsRevoked :
      (s : Server) (target : Uuid) (f : AppUser → AppUser)
      → ((x : AppUser) → (f x).id ≡ x.id)
      → ((x : AppUser) → is_some x.deleted_at ≡ true → is_some (f x).deleted_at ≡ true)
      → IsRevoked id s
      → IsRevoked id
          (forget_user target (with_db s (delete_devices target (update_user target f s.db))))
  unfolding delete_devices
  change_devices-IsRevoked s target f h k r =
      let db = update_user target f s.db in
      forget_user-IsRevoked id (with_db s (delete_devices target db)) target (
        users-IsRevoked id (with_db s db) (delete_devices target db) refl
          (update_user-IsRevoked id s target f h k r))

  change_password-IsRevoked :
      (passwords : Passwords) (s : Server) (target : Uuid) (old_password new_password : Text)
      → IsRevoked id s
      → IsRevoked id (change_password passwords s target old_password new_password).server
  unfolding change_password
  change_password-IsRevoked passwords s target old_password new_password r =
      elim (Option-cases (find_one (user_is target) s.db.users)) [
        | inl e ↦ rw e r
        | inr (u, e) ↦ rw e (
            if_cases (λ (x : Response (Unit {0})). IsRevoked id x.server)
              (passwords.matches u.password_hash old_password) _ _
              (λ _.
                change-IsRevoked s target (set_password (passwords.hash new_password) false)
                  (λ x. refl) (λ x t. t) r)
              (λ _. r))
      ]

  reset_password-IsRevoked :
      (passwords : Passwords) (random : Text) (s : Server) (target operator_id : Uuid)
      (new_password : Option Text)
      → IsRevoked id s
      → IsRevoked id (reset_password passwords random s target operator_id new_password).server
  unfolding reset_password
  reset_password-IsRevoked passwords random s target operator_id new_password r =
      elim (Option-cases (find_one (user_is target) s.db.users)) [
        | inl e ↦ rw e r
        | inr (u, e) ↦ rw e (
            change-IsRevoked s target
              (set_password (passwords.hash (password_or new_password random)) true) (λ x. refl)
              (λ x t. t) r)
      ]

  remove_device-IsRevoked :
      (s : Server) (user_id device_id : Uuid)
      → IsRevoked id s
      → IsRevoked id (remove_device s user_id device_id).server
  unfolding remove_device invalidate
  remove_device-IsRevoked s user_id device_id r = record {
    gone = r.gone;
    away = All-delete (λ e. is_entry_of id e ≡ false) (entry_is user_id device_id) s.cache r.away;
  }

  heartbeat-IsRevoked :
      (env : Env) (s : Server) (now : Date) (user_id device_id : Uuid)
      → IsRevoked id s
      → IsRevoked id (heartbeat env s now user_id device_id).server
  unfolding heartbeat update_device
  heartbeat-IsRevoked env s now user_id device_id r =
      elim (Option-cases (find_one (device_of device_id user_id) s.db.devices)) [
        | inl e ↦ rw e r
        | inr (d, e) ↦ rw e (record { gone = r.gone; away = r.away })
      ]

  create_account-IsRevoked :
      (passwords : Passwords) (uuid : Uuid) (random : Text) (s : Server) (now : Date)
      (p : AccountParams)
      → IsRevoked id s
      → IsRevoked id (create_account passwords uuid random s now p).server
  unfolding create_account
  create_account-IsRevoked passwords uuid random s now p r =
      let row = new_account uuid now (passwords.hash (password_or p.password random)) p in
      if_cases (λ (x : Response NewAccount). IsRevoked id x.server)
        (is_some (find_one (phone_is p.phone) s.db.users)) _ _ (λ _. r)
        (λ _. record { gone = longer-IsGone id s.db.users (row ∷ []) r.gone; away = r.away })

  create_each-IsRevoked :
      (passwords : Passwords) (uuid : ℕ → Uuid) (random : ℕ → Text) (i : ℕ) (operator_id : Uuid)
      (now : Date) (rows : List AccountRow) (s : Server)
      → IsRevoked id s
      → IsRevoked id (create_each passwords uuid random i operator_id now rows s).server
  unfolding create_each
  create_each-IsRevoked passwords uuid random i operator_id now [] s r = r
  create_each-IsRevoked passwords uuid random i operator_id now (row ∷ rows) s r =
      let p = params_of operator_id row in
      create_each-IsRevoked passwords uuid random (i + 1) operator_id now rows
        (create_account passwords (uuid i) (random i) s now p).server
        (create_account-IsRevoked passwords (uuid i) (random i) s now p r)

  toggled-IsRevoked :
      (s : Server) (target : Uuid) (status : UserStatus)
      → IsRevoked id s
      → IsRevoked id (toggled s target status)
  unfolding toggled
  toggled-IsRevoked s target active r =
      change-IsRevoked s target (set_status active) (λ x. refl) (λ x t. t) r
  toggled-IsRevoked s target disabled r =
      change_devices-IsRevoked s target (set_status disabled) (λ x. refl) (λ x t. t) r

  toggle-IsRevoked :
      (s : Server) (target : Uuid) (status : UserStatus) (operator_id : Uuid)
      → IsRevoked id s
      → IsRevoked id (toggle_account_status s target status operator_id).server
  unfolding toggle_account_status
  toggle-IsRevoked s target status operator_id r =
      elim (Option-cases (find_one (user_is target) s.db.users)) [
        | inl e ↦ rw e r
        | inr (u, e) ↦ rw e (
            if_cases (λ (x : Response (Unit {0})). IsRevoked id x.server) (is_some u.deleted_at) _ _
              (λ _. r) (λ _. toggled-IsRevoked s target status r))
      ]

  delete_checked-IsRevoked :
      (run : Uuid → GroupRun) (s : Server) (now : Date) (target operator_id : Uuid)
      (found : Result AppUser)
      → IsRevoked id s
      → IsRevoked id (delete_checked run s now target operator_id found).server
  unfolding soft_deleted dissolve_groups_on_account_delete
  delete_checked-IsRevoked run s now target operator_id (err e) r = r
  delete_checked-IsRevoked run s now target operator_id (ok u) r =
      let db = delete_devices target (update_user target (mark_deleted now) s.db) in
      let convs = select_where (is_owned_group target) db.conversations in
      users-IsRevoked id (forget_user target (with_db s db)) _
        (sym (dissolve_each-rows run now operator_id convs db).0)
        (change_devices-IsRevoked s target (mark_deleted now) (λ x. refl) (λ x t. refl) r)

  force_offline-IsRevoked :
      (s : Server) (device_id operator_id : Uuid)
      → IsRevoked id s
      → IsRevoked id (force_offline_device s device_id operator_id).server
  unfolding force_offline_device
  force_offline-IsRevoked s device_id operator_id r =
      elim (Option-cases (find_one (device_is device_id) s.db.devices)) [
        | inl e ↦ rw e r
        | inr (d, e) ↦ rw e (record { gone = r.gone; away = r.away })
      ]

  connect-IsRevoked :
      (s : Server) (now : Date) (payload : Option AuthPayload) (p : Presence)
      → connect_payload s.db now payload ≡ some p
      → IsRevoked id s
      → IsRevoked id (with_db s p.db)
  unfolding update_device
  connect-IsRevoked s now none p h r = cc
  connect-IsRevoked s now (some payload) p h r =
      let same : s.db.users ≡ p.db.users = ground (arith, h) in users-IsRevoked id s p.db same r

  module _ (forced : Uuid → Bool) (env : Env) (jwt : Jwt) (passwords : Passwords) where
    Step-IsRevoked :
        (s t : Server) → SessionStep forced env jwt passwords s t → IsRevoked id s → IsRevoked id t
    unfolding batch_create_accounts update_profile handle_connection soft_delete_account login
        handle_disconnect update_device sweep_offline
    Step-IsRevoked s t (serving now req) r = serve-IsRevoked id env jwt s now req r
    Step-IsRevoked s t (logging_in uuid random_id now phone password info fresh) r =
        login_checked-IsRevoked id env jwt passwords uuid random_id s now password info
          (check_login s.db now phone) r
    Step-IsRevoked s t (changing_password target old_password new_password) r =
        change_password-IsRevoked passwords s target old_password new_password r
    Step-IsRevoked s t (updating_profile target updates) r =
        update_user-IsRevoked id s target (apply_profile updates) (λ x. refl) (λ x k. k) r
    Step-IsRevoked s t (removing_device user_id device_id) r =
        remove_device-IsRevoked s user_id device_id r
    Step-IsRevoked s t (beating now user_id device_id) r =
        heartbeat-IsRevoked env s now user_id device_id r
    Step-IsRevoked s t (creating_account uuid random now p) r =
        create_account-IsRevoked passwords uuid random s now p r
    Step-IsRevoked s t (creating_accounts uuid random now rows operator_id) r =
        create_each-IsRevoked passwords uuid random 0 operator_id now rows s r
    Step-IsRevoked s t (resetting_password random target operator_id new_password) r =
        reset_password-IsRevoked passwords random s target operator_id new_password r
    Step-IsRevoked s t (toggling target status operator_id) r =
        toggle-IsRevoked s target status operator_id r
    Step-IsRevoked s t (deleting_account run now target operator_id) r =
        delete_checked-IsRevoked run s now target operator_id
          (check_deletion s.db target operator_id) r
    Step-IsRevoked s t (forcing_offline device_id operator_id may) r =
        force_offline-IsRevoked s device_id operator_id r
    Step-IsRevoked s t (connecting now token p h) r =
        connect-IsRevoked s now (verify_token jwt.verify_access now token) p h r
    Step-IsRevoked s t (disconnecting now user_id device_id) r =
        users-IsRevoked id s (handle_disconnect s.db now user_id device_id).db refl r
    Step-IsRevoked s t (minute now) r = users-IsRevoked id s (sweep_offline env s.db now).db refl r
    Step-IsRevoked s t (elsewhere db users devices) r = users-IsRevoked id s db (sym users) r

    pub Steps-IsRevoked :
        (s t : Server) → SessionSteps forced env jwt passwords s t → IsRevoked id s → IsRevoked id t
    Steps-IsRevoked s t stay r = r
    Steps-IsRevoked s t (then_step before step) r =
        Step-IsRevoked _ t step (Steps-IsRevoked s _ before r)
