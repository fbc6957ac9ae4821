-- ===== src/Sessions.antt =====
-- The life of the guard's cache: the operations that read or write users, devices or the cache as
-- the steps of one relation. The operations of the other services leave all three, and are one
-- step, `elsewhere`. A new device's id (a UUID of the ORM) is that of no stored device. The seed of
-- src/database runs before the server and is no step.
pub mod Limit
pub mod Stable
pub mod Keep
pub mod Devices
pub mod Accounts
pub mod Coherent
pub mod Deleted
pub mod Revoked
pub mod Offline
mod Tests
use fenxin.Prelude.{ℕ, ◌≡◌, Bool, true, false, Option, none, some, List, exists_where}
use fenxin.Entities.{Uuid, Date, Text, UserStatus, Db, device_is}
use fenxin.Env.{Env, auth_cache_ttl}
use fenxin.Guard.{Request, can_activate}
use fenxin.Group.Ownership.{GroupRun}
use fenxin.Auth.{
  Server, Response, Jwt, Passwords, change_password, ProfileUpdates, update_profile, remove_device,
  heartbeat,
}
use fenxin.Auth.Login.{DeviceInfo, login}
use fenxin.Account.{
  AccountParams, create_account, AccountRow, batch_create_accounts, reset_password,
  toggle_account_status, soft_delete_account, force_offline_device,
}
use fenxin.Presence.{Presence, handle_connection, handle_disconnect, sweep_offline}

abbrev pub with_db : Server → Db → Server
with_db s db = record s { db = db }

-- A request that the guard serves.
unfoldable pub serve : Env → Jwt → Server → Date → Request → Server
unfolding can_activate auth_cache_ttl
serve env jwt s now req = record s {
  cache = (can_activate jwt.verify_access (auth_cache_ttl env) now s.db s.cache req).1;
}

-- `forced` tells the devices that administrators may force offline during the run.
pub data SessionStep (forced : Uuid → Bool) (env : Env) (jwt : Jwt) (passwords : Passwords)
    (s : Server) : Server → Type 0 where
  serving :
      (now : Date) (req : Request)
      → SessionStep forced env jwt passwords s (serve env jwt s now req)
  logging_in :
      (uuid : Uuid) (random_id : Text) (now : Date) (phone password : Text) (info : DeviceInfo)
      → exists_where (device_is uuid) s.db.devices ≡ false
      → SessionStep forced env jwt passwords s
          (login env jwt passwords uuid random_id s now phone password info).server
  changing_password :
      (user_id : Uuid) (old_password new_password : Text)
      → SessionStep forced env jwt passwords s
          (change_password passwords s user_id old_password new_password).server
  updating_profile :
      (user_id : Uuid) (updates : ProfileUpdates)
      → SessionStep forced env jwt passwords s (update_profile s user_id updates).server
  removing_device :
      (user_id device_id : Uuid)
      → SessionStep forced env jwt passwords s (remove_device s user_id device_id).server
  beating :
      (now : Date) (user_id device_id : Uuid)
      → SessionStep forced env jwt passwords s (heartbeat env s now user_id device_id).server
  creating_account :
      (uuid : Uuid) (random : Text) (now : Date) (p : AccountParams)
      → SessionStep forced env jwt passwords s (create_account passwords uuid random s now p).server
  creating_accounts :
      (uuid : ℕ → Uuid) (random : ℕ → Text) (now : Date) (rows : List AccountRow)
      (operator_id : Uuid)
      → SessionStep forced env jwt passwords s
          (batch_create_accounts passwords uuid random s now rows operator_id).server
  resetting_password :
      (random : Text) (target_id operator_id : Uuid) (new_password : Option Text)
      → SessionStep forced env jwt passwords s
          (reset_password passwords random s target_id operator_id new_password).server
  toggling :
      (target_id : Uuid) (status : UserStatus) (operator_id : Uuid)
      → SessionStep forced env jwt passwords s
          (toggle_account_status s target_id status operator_id).server
  deleting_account :
      (run : Uuid → GroupRun) (now : Date) (target_id operator_id : Uuid)
      → SessionStep forced env jwt passwords s
          (soft_delete_account run s now target_id operator_id).server
  forcing_offline :
      (device_id operator_id : Uuid)
      → forced device_id ≡ true
      → SessionStep forced env jwt passwords s (force_offline_device s device_id operator_id).server
  connecting :
      (now : Date) (token : Option Text) (p : Presence)
      → handle_connection jwt.verify_access s.db now token ≡ some p
      → SessionStep forced env jwt passwords s (with_db s p.db)
  disconnecting :
      (now : Date) (user_id device_id : Uuid)
      → SessionStep forced env jwt passwords s
          (with_db s (handle_disconnect s.db now user_id device_id).db)
  minute :
      (now : Date)
      → SessionStep forced env jwt passwords s (with_db s (sweep_offline env s.db now).db)
  elsewhere :
      (db : Db)
      → db.users ≡ s.db.users
      → db.devices ≡ s.db.devices
      → SessionStep forced env jwt passwords s (with_db s db)

-- Any number of steps.
pub data SessionSteps (forced : Uuid → Bool) (env : Env) (jwt : Jwt) (passwords : Passwords)
    : Server → Server → Type 0 where
  stay : {s : Server} → SessionSteps forced env jwt passwords s s
  then_step :
      {s t u : Server}
      → SessionSteps forced env jwt passwords s t
      → SessionStep forced env jwt passwords t u
      → SessionSteps forced env jwt passwords s u
