-- ===== src/Sessions/Accounts.antt =====
-- The operations on the accounts keep the invariant of the cache.
use fenxin.Prelude.{
  ℕ, ◌+◌, ◌≡◌, refl, ◌∙◌, sym, ap, subst, inl, inr, Bool, true, false, Option, List, [], ◌∷◌, ◌++◌,
  arith, is_some, if◌then◌else◌, IsDistinct, find_one, delete_where, Option-cases,
  find_one-delete_other, if_cases, select_where,
}
use fenxin.Entities.{
  Uuid, Date, Text, AppUser, Conversation, UserStatus, active, disabled, Db, user_is, device_is,
  device_of, is_device_of,
}
use fenxin.Result.{Result, ok, err}
use fenxin.Env.{Env}
use fenxin.Guard.{cached_user, cached_device}
use fenxin.Group.Ownership.{
  dissolve_each, burn_group, dissolve_groups_on_account_delete, is_owned_group, GroupRun,
  is_committed,
}
use fenxin.Auth.{
  Server, Response, Passwords, update_user, forget_user, set_password, change_password,
  remove_device, heartbeat, beat, update_device,
}
use fenxin.Auth.Login.{phone_is}
use fenxin.Account.{
  NewAccount, AccountParams, new_account, create_account, AccountRow, params_of, create_each,
  reset_password, set_status, mark_deleted, delete_devices, toggled, toggle_account_status,
  soft_deleted, check_deletion, delete_checked, soft_delete_account, password_or,
}
use fenxin.Sessions.{with_db}
use fenxin.Sessions.Stable.{
  check_context-columns, check_context-found, users-other, find_one-longer,
}
use fenxin.Sessions.Keep.{
  ids_of, IsSound, write-IsSound, forget_user-IsSound, forget_device-IsSound, delete-IsKeyed,
  update_devices-IsSound,
}
use mathlib.Core.Option

-- The row of one user changes, and the user's entries are forgotten.
forget_change-IsSound :
    {forced : Uuid → Bool} (s : Server) (id : Uuid) (f : AppUser → AppUser)
    → ((x : AppUser) → (f x).id ≡ x.id)
    → IsSound forced s
    → IsSound forced (forget_user id (with_db s (update_user id f s.db)))
unfolding update_user
forget_change-IsSound s id f h sound =
    let db = update_user id f s.db in
    forget_user-IsSound s id db
      (λ u d away.
        check_context-columns s.db db u d
          (ap (Option.map cached_user) (users-other id f s.db.users u h away)) refl)
      sound.keyed sound

-- The same, with the user's devices deleted.
forget_devices-IsSound :
    {forced : Uuid → Bool} (s : Server) (id : Uuid) (f : AppUser → AppUser)
    → ((x : AppUser) → (f x).id ≡ x.id)
    → IsSound forced s
    → IsSound forced (forget_user id (with_db s (delete_devices id (update_user id f s.db))))
unfolding update_user delete_devices
forget_devices-IsSound s id f h sound =
    let db = delete_devices id (update_user id f s.db) in
    forget_user-IsSound s id db
      (λ u d away.
        check_context-columns s.db db u d
          (ap (Option.map cached_user) (users-other id f s.db.users u h away))
          (ap (Option.map cached_device) (
            find_one-delete_other (device_of d u) (is_device_of id) s.db.devices
              (λ x k. ground arith))))
      (delete-IsKeyed (is_device_of id) s.db.devices sound.keyed) sound

pub change_password-IsSound :
    {forced : Uuid → Bool} (passwords : Passwords) (s : Server) (id : Uuid)
    (old_password new_password : Text)
    → IsSound forced s
    → IsSound forced (change_password passwords s id old_password new_password).server
unfolding change_password
change_password-IsSound {forced} passwords s id old_password new_password sound =
    elim (Option-cases (find_one (user_is id) s.db.users)) [
      | inl e ↦ rw e sound
      | inr (u, e) ↦ rw e (
          if_cases (λ (r : Response (Unit {0})). IsSound forced r.server)
            (passwords.matches u.password_hash old_password) _ _
            (λ _.
              forget_change-IsSound s id (set_password (passwords.hash new_password) false)
                (λ x. refl) sound)
            (λ _. sound))
    ]

pub remove_device-IsSound :
    {forced : Uuid → Bool} (s : Server) (user_id device_id : Uuid)
    → IsSound forced s
    → IsSound forced (remove_device s user_id device_id).server
unfolding remove_device
remove_device-IsSound s user_id device_id sound =
    let test = device_of device_id user_id in
    let db = record s.db { devices = delete_where test s.db.devices } in
    forget_device-IsSound s user_id device_id db
      (λ u d context away h.
        check_context-columns s.db db u d refl (
          ap (Option.map cached_device)
            (find_one-delete_other (device_of d u) test s.db.devices (λ x k. ground arith)))
        ∙ h)
      (delete-IsKeyed test s.db.devices sound.keyed) sound

pub heartbeat-IsSound :
    {forced : Uuid → Bool} (env : Env) (s : Server) (now : Date) (user_id device_id : Uuid)
    → IsSound forced s
    → IsSound forced (heartbeat env s now user_id device_id).server
unfolding heartbeat update_device
heartbeat-IsSound env s now user_id device_id sound =
    elim (Option-cases (find_one (device_of device_id user_id) s.db.devices)) [
      | inl e ↦ rw e sound
      | inr (d, e) ↦
          rw e (update_devices-IsSound s (device_is device_id) (beat now d) (λ x. refl) sound)
    ]

pub create_account-IsSound :
    {forced : Uuid → Bool} (passwords : Passwords) (uuid : Uuid) (random : Text) (s : Server)
    (now : Date) (p : AccountParams)
    → IsSound forced s
    → IsSound forced (create_account passwords uuid random s now p).server
unfolding create_account
create_account-IsSound {forced} passwords uuid random s now p sound =
    let row = new_account uuid now (passwords.hash (password_or p.password random)) p in
    let db = record s.db { users = s.db.users ++ row ∷ [] } in
    if_cases (λ (r : Response NewAccount). IsSound forced r.server)
      (is_some (find_one (phone_is p.phone) s.db.users)) _ _ (λ _. sound)
      (λ _.
        write-IsSound s db
          (λ u d context h.
            let (x, y, e, f) = check_context-found s.db u d context h in
            check_context-columns s.db db u d
              (ap (Option.map cached_user)
                (find_one-longer (user_is u) s.db.users (row ∷ []) x e ∙ sym e))
              refl
            ∙ h)
          sound.keyed sound)

pub create_each-IsSound :
    {forced : Uuid → Bool} (passwords : Passwords) (uuid : ℕ → Uuid) (random : ℕ → Text) (i : ℕ)
    (operator_id : Uuid) (now : Date) (rows : List AccountRow) (s : Server)
    → IsSound forced s
    → IsSound forced (create_each passwords uuid random i operator_id now rows s).server
unfolding create_each
create_each-IsSound passwords uuid random i operator_id now [] s sound = sound
create_each-IsSound passwords uuid random i operator_id now (row ∷ rows) s sound =
    create_each-IsSound passwords uuid random (i + 1) operator_id now rows
      (create_account passwords (uuid i) (random i) s now (params_of operator_id row)).server
      (create_account-IsSound passwords (uuid i) (random i) s now (params_of operator_id row) sound)

pub reset_password-IsSound :
    {forced : Uuid → Bool} (passwords : Passwords) (random : Text) (s : Server)
    (id operator_id : Uuid) (new_password : Option Text)
    → IsSound forced s
    → IsSound forced (reset_password passwords random s id operator_id new_password).server
unfolding reset_password
reset_password-IsSound passwords random s id operator_id new_password sound =
    elim (Option-cases (find_one (user_is id) s.db.users)) [
      | inl e ↦ rw e sound
      | inr (u, e) ↦ rw e (
          forget_change-IsSound s id
            (set_password (passwords.hash (password_or new_password random)) true) (λ x. refl)
            sound)
    ]

toggled-IsSound :
    {forced : Uuid → Bool} (s : Server) (id : Uuid) (status : UserStatus)
    → IsSound forced s
    → IsSound forced (toggled s id status)
unfolding toggled
toggled-IsSound s id active sound = forget_change-IsSound s id (set_status active) (λ x. refl) sound
toggled-IsSound s id disabled sound =
    forget_devices-IsSound s id (set_status disabled) (λ x. refl) sound

pub toggle-IsSound :
    {forced : Uuid → Bool} (s : Server) (id : Uuid) (status : UserStatus) (operator_id : Uuid)
    → IsSound forced s
    → IsSound forced (toggle_account_status s id status operator_id).server
unfolding toggle_account_status
toggle-IsSound {forced} s id status operator_id sound =
    elim (Option-cases (find_one (user_is id) s.db.users)) [
      | inl e ↦ rw e sound
      | inr (u, e) ↦ rw e (
          if_cases (λ (r : Response (Unit {0})). IsSound forced r.server) (is_some u.deleted_at) _ _
            (λ _. sound) (λ _. toggled-IsSound s id status sound))
    ]

-- The cascade of groups leaves users and devices.
pub dissolve_each-rows :
    (run : Uuid → GroupRun) (now : Date) (operator_id : Uuid) (convs : List Conversation) (db : Db)
    → ((dissolve_each run now operator_id convs db).0.users ≡ db.users)
      × ((dissolve_each run now operator_id convs db).0.devices ≡ db.devices)
unfolding dissolve_each burn_group
dissolve_each-rows run now operator_id [] db = (refl, refl)
dissolve_each-rows run now operator_id (c ∷ convs) db =
    let db' = if is_committed (run c.id) then burn_group db now c.id operator_id else db in
    let (users, devices) = dissolve_each-rows run now operator_id convs db' in
    if_cases
      (λ (x : Db).
        x ≡ db'
        → ((dissolve_each run now operator_id (c ∷ convs) db).0.users ≡ db.users)
          × ((dissolve_each run now operator_id (c ∷ convs) db).0.devices ≡ db.devices))
      (is_committed (run c.id)) (burn_group db now c.id operator_id) db
      (λ _ e. (users ∙ ap Db.users (sym e), devices ∙ ap Db.devices (sym e)))
      (λ _ e. (users ∙ ap Db.users (sym e), devices ∙ ap Db.devices (sym e))) refl

pub elsewhere-IsSound :
    {forced : Uuid → Bool} (s : Server) (db : Db)
    → db.users ≡ s.db.users
    → db.devices ≡ s.db.devices
    → IsSound forced s
    → IsSound forced (with_db s db)
elsewhere-IsSound s db users devices sound =
    write-IsSound s db
      (λ u d context h.
        check_context-columns s.db db u d
          (ap (λ x. Option.map cached_user (find_one (user_is u) x)) users)
          (ap (λ x. Option.map cached_device (find_one (device_of d u) x)) devices)
        ∙ h)
      (subst (λ x. IsDistinct (ids_of x)) (sym devices) sound.keyed) sound

delete_checked-IsSound :
    {forced : Uuid → Bool} (run : Uuid → GroupRun) (s : Server) (now : Date) (id operator_id : Uuid)
    (r : Result AppUser)
    → IsSound forced s
    → IsSound forced (delete_checked run s now id operator_id r).server
unfolding soft_deleted dissolve_groups_on_account_delete
delete_checked-IsSound run s now id operator_id (err e) sound = sound
delete_checked-IsSound run s now id operator_id (ok u) sound =
    let db = delete_devices id (update_user id (mark_deleted now) s.db) in
    let s' = forget_user id (with_db s db) in
    let convs = select_where (is_owned_group id) db.conversations in
    let (users, devices) = dissolve_each-rows run now operator_id convs db in
    elsewhere-IsSound s' (dissolve_each run now operator_id convs db).0 users devices
      (forget_devices-IsSound s id (mark_deleted now) (λ x. refl) sound)

pub soft_delete-IsSound :
    {forced : Uuid → Bool} (run : Uuid → GroupRun) (s : Server) (now : Date) (id operator_id : Uuid)
    → IsSound forced s
    → IsSound forced (soft_delete_account run s now id operator_id).server
unfolding soft_delete_account
soft_delete-IsSound run s now id operator_id =
    delete_checked-IsSound run s now id operator_id (check_deletion s.db id operator_id)
