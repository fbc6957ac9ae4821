-- ===== src/BurnSettings/Tests.antt =====
-- Users 1 and 2 set ttls for each other.
use fenxin.Prelude.{◌≡◌, refl, some, [], ◌∷◌, has, find_one, update_where}
use fenxin.Entities.{Db, Message}
use fenxin.Result.{ok, err, forbidden, bad_request, access_denied, own_burn_ttl, Done}
use fenxin.Fixtures.{default_env, burn_db, chat_row, account, note_to, ids_from}
use fenxin.Send.{send_message}
use fenxin.Burn.{normalize_burn_ttl}
use fenxin.BurnSettings.{
  BurnSetting, new_setting, user_scope, set_for_user, clear_for_user, set_ttl,
}
use fenxin.BurnSettings.Resolve.{
  resolve_for_conversation, BurnSettingResolution, find_counterpart, post_message, with_ttl,
  get_global_default,
}
use fenxin.BurnSettings.Rows.{IsSettings, for_user, Writes, stop, step, Writes-IsSettings}
use fenxin.BurnSettings.Isolation.{
  OthersWrites, OthersWrites-resolve, IsEffective, resolve_for_conversation-IsEffective,
}
use fenxin.BurnSettings.Isolation
use fenxin.BurnSettings.Sent.{StoresTtl, set_for_user-post}

abbrev base : Db
base = record burn_db { users = account 1 ∷ account 2 ∷ account 3 ∷ [] }

-- User 1 has set a minute for user 2; then user 2 sets an hour for user 1.
abbrev first : BurnSetting
first = new_setting 90 1000 1 user_scope 2 60

abbrev second : BurnSetting
second = new_setting 91 2000 2 user_scope 1 3600

first_set : set_for_user 90 [] base 1000 1 2 60 ≡ ok (first ∷ [])
unfolding set_for_user find_one
first_set = refl

second_set : set_for_user 91 (first ∷ []) base 2000 2 1 3600 ≡ ok (first ∷ second ∷ [])
unfolding set_for_user find_one
second_set = refl

set_again :
    set_for_user 92 (first ∷ second ∷ []) base 3000 1 2 5 ≡ ok (set_ttl 5 3000 first ∷ second ∷ [])
unfolding set_for_user find_one update_where
set_again = refl

not_for_oneself : set_for_user 92 (first ∷ []) base 3000 1 1 5 ≡ err (bad_request own_burn_ttl)
unfolding set_for_user
not_for_oneself = refl

outsider : resolve_for_conversation (first ∷ []) base 3 50 ≡ err (forbidden access_denied)
unfolding resolve_for_conversation find_one
outsider = refl

both : Writes [] (first ∷ second ∷ [])
unfolding has
both =
    step base 1 [] (first ∷ []) (first ∷ second ∷ []) (for_user 90 1000 2 60 [] _ refl first_set) (
      step base 2 (first ∷ []) _ _ (for_user 91 2000 1 3600 (first ∷ []) _ refl second_set)
        (stop _))

Writes-IsSettings_example : IsSettings (first ∷ second ∷ [])
Writes-IsSettings_example = Writes-IsSettings (first ∷ second ∷ []) both

first-IsSettings : IsSettings (first ∷ [])
unfolding has
first-IsSettings =
    Writes-IsSettings (first ∷ [])
      (step base 1 [] (first ∷ []) _ (for_user 90 1000 2 60 [] _ refl first_set) (stop _))

others : OthersWrites 1 (first ∷ []) (first ∷ second ∷ [])
unfolding has
others =
    Isolation.step base 2 (first ∷ []) (first ∷ second ∷ []) _ refl
      (for_user 91 2000 1 3600 (first ∷ []) _ refl second_set) (Isolation.stop _)

OthersWrites-resolve_example :
    resolve_for_conversation (first ∷ second ∷ []) base 1 50
    ≡ resolve_for_conversation (first ∷ []) base 1 50
OthersWrites-resolve_example =
    OthersWrites-resolve 1 (first ∷ []) (first ∷ second ∷ []) base 50 first-IsSettings others

resolved :
    (r : BurnSettingResolution) × (resolve_for_conversation (first ∷ second ∷ []) base 1 50 ≡ ok r)
unfolding resolve_for_conversation find_one
resolved = (_, refl)

set_for_user-post_example :
    (post_message default_env ids_from (first ∷ []) base 4000 (note_to 50)
      ≡ send_message default_env ids_from base 4000 (with_ttl (note_to 50) (some 60)))
    × StoresTtl base 60 (post_message default_env ids_from (first ∷ []) base 4000 (note_to 50))
    × (post_message default_env ids_from (clear_for_user (first ∷ []) 1 2) base 4000 (note_to 50)
        ≡ send_message default_env ids_from base 4000
            (with_ttl (note_to 50) (get_global_default base 1)))
unfolding find_one find_counterpart
set_for_user-post_example =
    set_for_user-post 90 [] (first ∷ []) base 1000 1 2 60 default_env ids_from base 4000
      (note_to 50) chat_row (record { user_id = 2; display_name = some (b'A' ∷ []) }) first_set refl
      refl refl refl refl refl refl

posted :
    (d : Done Message) × (post_message default_env ids_from (first ∷ []) base 4000 (note_to 50)
      ≡ ok d)
    × (d.value.burn_ttl_seconds ≡ some 60)
unfolding post_message find_one normalize_burn_ttl
posted = (_, refl, refl)
