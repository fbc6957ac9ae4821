-- ===== src/Sessions/Revoked.antt =====
-- Revocation: the tokens of a deleted account.
use fenxin.Prelude.{
  ◌≡◌, refl, sym, subst, inl, inr, Bool, false, some, arith, none, [], ◌∷◌, find_one, select_where,
  delete_where, Bool-cases, Option-cases, find_one-passes, find_one-update_found,
}
use fenxin.Entities.{Uuid, Date, AppUser, Db, user_is}
use fenxin.Result.{Result, ok, err, unauthorized, account_disabled}
use fenxin.Env.{Env, auth_cache_ttl}
use fenxin.AuthCache.{Cache, is_entry_of, invalidate}
use fenxin.Guard.{AuthPayload, Request, read_token, can_activate}
use fenxin.Group.Ownership.{GroupRun, is_owned_group, dissolve_groups_on_account_delete}
use fenxin.Auth.{Server, Jwt, Passwords, update_user}
use fenxin.Account.{
  mark_deleted, delete_devices, soft_deleted, check_deletion, delete_checked, soft_delete_account,
}
use fenxin.Sessions.{SessionSteps}
use fenxin.Sessions.Accounts.{dissolve_each-rows}
use fenxin.Sessions.Deleted.{IsGone, IsAway, IsRevoked, revoked-refused}
use fenxin.Sessions.Deleted.Steps.{Steps-IsRevoked}

check_deletion-eq-ok :
    (db : Db) (id operator_id : Uuid) (u : AppUser)
    → check_deletion db id operator_id ≡ ok u
    → find_one (user_is id) db.users ≡ some u
unfolding check_deletion
check_deletion-eq-ok db id operator_id u h = elim (Option-cases (find_one (user_is id) db.users)) [
  | inl e ↦ absurd (ground arith)
  | inr (x, e) ↦ ground arith
]

forgotten-IsAway : (id : Uuid) (cache : Cache) → IsAway id (invalidate cache (some id) none).0
unfolding invalidate delete_where
forgotten-IsAway id [] = tt
forgotten-IsAway id (e ∷ cache) = elim (Bool-cases (is_entry_of id e)) [
  | inl t ↦ rw t (forgotten-IsAway id cache)
  | inr t ↦ rw t (t, forgotten-IsAway id cache)
]

delete_checked-revokes :
    (run : Uuid → GroupRun) (s : Server) (now : Date) (id operator_id : Uuid)
    (found : Result AppUser)
    → check_deletion s.db id operator_id ≡ found
    → (delete_checked run s now id operator_id found).outcome ≡ ok tt
    → IsRevoked id (delete_checked run s now id operator_id found).server
unfolding soft_deleted dissolve_groups_on_account_delete update_user delete_devices
delete_checked-revokes run s now id operator_id (err e) checked h = cc
delete_checked-revokes run s now id operator_id (ok u) checked h =
    let db = delete_devices id (update_user id (mark_deleted now) s.db) in
    let convs = select_where (is_owned_group id) db.conversations in
    let stored = check_deletion-eq-ok s.db id operator_id u checked in
    let found : find_one (user_is id) db.users ≡ some (mark_deleted now u) =
      find_one-update_found (user_is id) (user_is id) (mark_deleted now) s.db.users u (λ x. refl)
        stored (find_one-passes (user_is id) s.db.users u stored) in
    record {
      gone =
          subst (IsGone id) (sym (dissolve_each-rows run now operator_id convs db).0)
            (mark_deleted now u, found, refl);
      away = forgotten-IsAway id s.cache;
    }

-- Once the deletion of an account has succeeded, whatever the state before, and after any number of
-- the session operations, forced logouts among them, every request of a guarded route with a token
-- of the account is refused as one of a disabled account, however long the token and the cache
-- would last.
pub soft_delete_account-revokes :
    (forced : Uuid → Bool) (env : Env) (jwt : Jwt) (passwords : Passwords) (run : Uuid → GroupRun)
    (s : Server) (now : Date) (id operator_id : Uuid) (t : Server) (later : Date) (req : Request)
    (payload : AuthPayload)
    → (soft_delete_account run s now id operator_id).outcome ≡ ok tt
    → SessionSteps forced env jwt passwords (soft_delete_account run s now id operator_id).server t
    → req.is_public ≡ false
    → read_token jwt.verify_access later req.authorization ≡ ok payload
    → payload.user_id ≡ id
    → (can_activate jwt.verify_access (auth_cache_ttl env) later t.db t.cache req).0
      ≡ err (unauthorized account_disabled)
unfolding soft_delete_account
soft_delete_account-revokes forced env jwt passwords run s now id operator_id t later req payload
      done steps guarded token own =
    let start =
      delete_checked-revokes run s now id operator_id (check_deletion s.db id operator_id) refl
        done in
    revoked-refused id jwt.verify_access (auth_cache_ttl env) later t req payload
      (Steps-IsRevoked id forced env jwt passwords
        (soft_delete_account run s now id operator_id).server t steps start)
      guarded token own
