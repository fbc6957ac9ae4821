-- ===== src/Account/Listing.antt =====
-- `listAccounts` and `getAccount` of src/modules/account/account.service.ts. MySQL's LIKE is the
-- parameter `like`.
use fenxin.Prelude.{
  or_default, drop, ℕ, ◌-◌, ◌*◌, Bool, true, false, not, ◌&&◌, ◌||◌, Option, none, some, List, [],
  ◌∷◌, ◌++◌, map, leb, length, take, is_some, if◌then◌else◌, find_one, select_where, order_by,
}
use fenxin.Entities.{
  Uuid, Text, is_truthy, same_text, UserStatus, active, disabled, AppUser, Db, user_is,
}
use fenxin.Result.{Result, ok, not_found, account_missing, ◌>>=◌, ◌>>◌, reject, or_throw}
use fenxin.Auth.{SafeUser, sanitize_user}

pub record AccountQuery : Type 0 where
  pub page : Option ℕ
  pub page_size : Option ℕ
  pub keyword : Option Text
  pub department : Option Text
  pub status : Option UserStatus
  pub show_deleted : Bool

abbrev pub matches_keyword : (Text → Text → Bool) → Option Text → AppUser → Bool
matches_keyword like none u = true
matches_keyword like (some kw) u =
    not (is_truthy (some kw))
    || same_text u.phone kw
    || like (b'%' ∷ kw ++ b'%' ∷ []) u.display_name

abbrev in_department : Option Text → Option Text → Bool
in_department none d = true
in_department (some []) d = true
in_department (some (c ∷ s)) none = false
in_department (some (c ∷ s)) (some d) = same_text d (c ∷ s)

abbrev same_status : UserStatus → UserStatus → Bool
same_status active active = true
same_status disabled disabled = true
same_status _ _ = false

abbrev has_status : Option UserStatus → UserStatus → Bool
has_status none s = true
has_status (some t) s = same_status s t

unfoldable pub is_queried_account : (Text → Text → Bool) → AccountQuery → AppUser → Bool
unfolding same_text
is_queried_account like q u =
    matches_keyword like q.keyword u
    && in_department q.department u.department
    && has_status q.status u.status
    && (if q.show_deleted then is_some u.deleted_at else not (is_some u.deleted_at))

abbrev newest_account : AppUser → AppUser → Bool
newest_account x y = leb y.created_at x.created_at

-- The page and the number of accounts over all pages.
unfoldable pub list_accounts : (Text → Text → Bool) → Db → AccountQuery → List SafeUser × ℕ
unfolding is_queried_account select_where order_by sanitize_user
list_accounts like db q =
    let page_size = or_default q.page_size 20 in
    let users = select_where (is_queried_account like q) db.users in
    (
      map sanitize_user (
          take page_size
            (drop ((or_default q.page 1 - 1) * page_size) (order_by newest_account users))),
      length users,
    )

unfoldable pub get_account : Db → Uuid → Result SafeUser
unfolding find_one sanitize_user
get_account db user_id = do
  u ← or_throw (find_one (user_is user_id) db.users) (not_found account_missing)
  reject (is_some u.deleted_at) (not_found account_missing)
  ok (sanitize_user u)
