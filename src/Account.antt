-- ===== src/Account.antt =====
-- src/modules/account/account.service.ts: the administration of accounts, and `forceOfflineDevice`
-- of src/modules/admin/admin-message.service.ts. Random passwords and row ids are parameters,
-- MySQL's LIKE is the parameter `like`. The audit log's detail texts and addresses are left out;
-- parsing a spreadsheet is the XLSX library's, so `importFromExcel` is left out but for
-- `batch_create_accounts`, which it ends with.
pub mod Listing
use fenxin.Prelude.{
  or_default, drop, ℕ, ◌+◌, ◌-◌, ◌*◌, Bool, true, false, not, ◌&&◌, ◌||◌, Option, none, some, List,
  [], ◌∷◌, ◌++◌, map, ◌==◌, leb, length, take, is_some, if◌then◌else◌, find_one, select_where,
  delete_where, order_by,
}
use fenxin.Entities.{
  Uuid, Date, Text, is_truthy, same_text, user, is_admin, UserStatus, active, disabled, is_active,
  AppUser, Device, Db, user_is, device_is, is_device_of,
}
use fenxin.Result.{
  Result, ok, err, Error, bad_request, not_found, conflict, phone_taken, account_missing,
  account_deleted, self_deletion, admin_deletion, device_missing, ids_empty, ◌>>=◌, ◌>>◌, reject,
  require, or_throw, Effect, emit, device_removed, audit, audit_own, batch_import_accounts,
  enable_account, disable_account, delete_account,
}
use fenxin.Result
use fenxin.Group.Ownership.{GroupRun, dissolve_groups_on_account_delete}
use fenxin.AuthCache.{invalidate}
use fenxin.Auth.{
  Server, Response, refuse, Passwords, SafeUser, sanitize_user, update_user, set_password,
  forget_user,
}
use fenxin.Auth.Login.{phone_is}

pub record AccountParams : Type 0 where
  pub phone : Text
  pub display_name : Text
  pub department : Option Text
  pub password : Option Text
  pub operator_id : Uuid

pub record NewAccount : Type 0 where
  pub user : SafeUser
  pub initial_password : Text

-- The row that `save` stores, with the columns' defaults; `default` is the default topic.
abbrev pub default_topic : Text
default_topic = b'd' ∷ b'e' ∷ b'f' ∷ b'a' ∷ b'u' ∷ b'l' ∷ b't' ∷ []

unfoldable pub new_account : Uuid → Date → Text → AccountParams → AppUser
new_account uuid now hash p = record {
  id = uuid;
  phone = p.phone;
  password_hash = hash;
  display_name = p.display_name;
  avatar_url = none;
  signature = none;
  topic = default_topic;
  default_burn_ttl_seconds = none;
  department = p.department;
  role = user;
  status = active;
  force_change_pwd = true;
  login_fail_count = 0;
  locked_until = none;
  deleted_at = none;
  created_at = now;
}

-- `password || random`
abbrev pub password_or : Option Text → Text → Text
password_or none random = random
password_or (some []) random = random
password_or (some (c ∷ s)) random = c ∷ s

unfoldable pub create_account :
    Passwords → Uuid → Text → Server → Date → AccountParams → Response NewAccount
unfolding find_one same_text new_account sanitize_user
create_account passwords uuid random s now p =
    let password = password_or p.password random in
    let row = new_account uuid now (passwords.hash password) p in
    let created : Response NewAccount = record {
      server = record s { db = record s.db { users = s.db.users ++ row ∷ [] } };
      outcome = ok (record { user = sanitize_user row; initial_password = password });
      effects = audit p.operator_id Result.create_account uuid ∷ [];
    } in
    if is_some (find_one (phone_is p.phone) s.db.users)
    then refuse s (conflict phone_taken)
    else created

pub record AccountRow : Type 0 where
  pub phone : Text
  pub display_name : Text
  pub department : Option Text

-- The outcome of one row; the error's message is left out.
pub record BatchResult : Type 0 where
  pub phone : Text
  pub display_name : Text
  pub password : Text
  pub success : Bool

abbrev pub params_of : Uuid → AccountRow → AccountParams
params_of operator_id row = record {
  phone = row.phone;
  display_name = row.display_name;
  department = row.department;
  password = none;
  operator_id = operator_id;
}

abbrev pub batch_result : AccountRow → Result NewAccount → BatchResult
batch_result row (ok a) = record {
  phone = row.phone;
  display_name = row.display_name;
  password = a.initial_password;
  success = true;
}
batch_result row (err e) = record {
  phone = row.phone;
  display_name = row.display_name;
  password = [];
  success = false;
}

pub record Batch : Type 0 where
  pub server : Server
  pub results : List BatchResult
  pub effects : List Effect

abbrev pub and_then : Response NewAccount → AccountRow → Batch → Batch
and_then r row rest = record {
  server = rest.server;
  results = batch_result row r.outcome ∷ rest.results;
  effects = r.effects ++ rest.effects;
}

-- The loop of `batchCreateAccounts`: a row that fails is reported, and the next one follows. Row
-- `i` has the id `uuid i` and the random password `random i`.
unfoldable pub create_each :
    Passwords → (ℕ → Uuid) → (ℕ → Text) → ℕ → Uuid → Date → List AccountRow → Server → Batch
unfolding create_account
create_each passwords uuid random i operator_id now [] s = record {
  server = s;
  results = [];
  effects = [];
}
create_each passwords uuid random i operator_id now (row ∷ rows) s =
    let r = create_account passwords (uuid i) (random i) s now (params_of operator_id row) in
    and_then r row (create_each passwords uuid random (i + 1) operator_id now rows r.server)

unfoldable pub batch_create_accounts :
    Passwords
    → (ℕ → Uuid)
    → (ℕ → Text)
    → Server
    → Date
    → List AccountRow
    → Uuid
    → Response (List BatchResult)
unfolding create_each
batch_create_accounts passwords uuid random s now rows operator_id =
    let batch = create_each passwords uuid random 0 operator_id now rows s in
    record {
      server = batch.server;
      outcome = ok batch.results;
      effects = batch.effects ++ audit_own operator_id batch_import_accounts ∷ [];
    }

abbrev reset_found :
    Passwords → Text → Server → Uuid → Uuid → Option Text → Option AppUser → Response Text
reset_found passwords random s target_id operator_id new_password none =
    refuse s (not_found account_missing)
reset_found passwords random s target_id operator_id new_password (some u) =
    let password = password_or new_password random in
    record {
      server = forget_user target_id (record s {
        db = update_user target_id (set_password (passwords.hash password) true) s.db;
      });
      outcome = ok password;
      effects = audit operator_id Result.reset_password target_id ∷ [];
    }

unfoldable pub reset_password :
    Passwords → Text → Server → Uuid → Uuid → Option Text → Response Text
unfolding find_one update_user invalidate
reset_password passwords random s target_id operator_id new_password =
    reset_found passwords random s target_id operator_id new_password
      (find_one (user_is target_id) s.db.users)

abbrev pub set_status : UserStatus → AppUser → AppUser
set_status status u = record u { status = status }

unfoldable pub delete_devices : Uuid → Db → Db
unfolding delete_where
delete_devices user_id db = record db { devices = delete_where (is_device_of user_id) db.devices }

unfoldable pub toggled : Server → Uuid → UserStatus → Server
unfolding update_user delete_devices invalidate
toggled s target_id status =
    let db' = update_user target_id (set_status status) s.db in
    forget_user target_id
      (record s { db = if is_active status then db' else delete_devices target_id db' })

abbrev toggle_found : Server → Uuid → UserStatus → Uuid → Option AppUser → Response (Unit {0})
toggle_found s target_id status operator_id none = refuse s (not_found account_missing)
toggle_found s target_id status operator_id (some u) =
    if is_some u.deleted_at then refuse s (bad_request account_deleted) else record {
      server = toggled s target_id status;
      outcome = ok tt;
      effects =
          audit operator_id (if is_active status then enable_account else disable_account) target_id
          ∷ [];
    }

unfoldable pub toggle_account_status : Server → Uuid → UserStatus → Uuid → Response (Unit {0})
unfolding find_one toggled
toggle_account_status s target_id status operator_id =
    toggle_found s target_id status operator_id (find_one (user_is target_id) s.db.users)

abbrev pub mark_deleted : Date → AppUser → AppUser
mark_deleted now u = record u { deleted_at = some now; status = disabled }

-- The account is marked, its devices and cache entries go, and the groups that it owns are
-- dissolved.
unfoldable pub soft_deleted : (Uuid → GroupRun) → Server → Date → Uuid → Uuid → Server × List Effect
unfolding update_user delete_devices invalidate dissolve_groups_on_account_delete
soft_deleted run s now target_id operator_id =
    let db' = delete_devices target_id (update_user target_id (mark_deleted now) s.db) in
    let s' = forget_user target_id (record s { db = db' }) in
    let cascade = dissolve_groups_on_account_delete run s'.db now target_id operator_id in
    (
      record s' { db = cascade.db },
      cascade.effects ++ audit operator_id delete_account target_id ∷ [],
    )

unfoldable pub check_deletion : Db → Uuid → Uuid → Result AppUser
unfolding find_one
check_deletion db target_id operator_id = do
  u ← or_throw (find_one (user_is target_id) db.users) (not_found account_missing)
  reject (is_some u.deleted_at) (not_found account_missing)
  reject (target_id == operator_id) (bad_request self_deletion)
  reject (is_admin u.role) (bad_request admin_deletion)
  ok u

abbrev pub delete_checked :
    (Uuid → GroupRun) → Server → Date → Uuid → Uuid → Result AppUser → Response (Unit {0})
delete_checked run s now target_id operator_id (err e) = refuse s e
delete_checked run s now target_id operator_id (ok u) =
    let (s', effects) = soft_deleted run s now target_id operator_id in
    record { server = s'; outcome = ok tt; effects = effects }

unfoldable pub soft_delete_account :
    (Uuid → GroupRun) → Server → Date → Uuid → Uuid → Response (Unit {0})
unfolding check_deletion soft_deleted
soft_delete_account run s now target_id operator_id =
    delete_checked run s now target_id operator_id (check_deletion s.db target_id operator_id)

abbrev pub force_found : Server → Uuid → Uuid → Option Device → Response (Unit {0})
force_found s device_id operator_id none = refuse s (not_found device_missing)
force_found s device_id operator_id (some d) = record {
  server = record s {
    db = record s.db { devices = delete_where (device_is device_id) s.db.devices };
  };
  outcome = ok tt;
  effects =
      emit (d.user_id ∷ []) (device_removed device_id)
      ∷ audit operator_id Result.force_offline_device device_id
      ∷ [];
}

-- The row is deleted; the guard's cache is left as it is.
unfoldable pub force_offline_device : Server → Uuid → Uuid → Response (Unit {0})
unfolding find_one delete_where
force_offline_device s device_id operator_id =
    force_found s device_id operator_id (find_one (device_is device_id) s.db.devices)
