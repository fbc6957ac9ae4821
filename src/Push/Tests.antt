-- ===== src/Push/Tests.antt =====
-- Whom the fixtures' burn message is pushed to.
use fenxin.Prelude.{
  ◌≡◌, refl, Bool, true, false, none, some, [], ◌∷◌, has, find_one, select_where, exists_where,
}
use fenxin.Entities.{Uuid, Db, Device, Message}
use fenxin.Fixtures.{burn_db, burn_row, account}
use fenxin.Push.{burn_alert, build_content, notify_new_message, pick_offline}
use fenxin.Push.Rules.{pushed_ids, notify_new_message-secret, notify_new_message_iff}

abbrev phone_of : Uuid → Bool → Device
phone_of u online = record {
  id = 200;
  user_id = u;
  device_name = [];
  device_type = [];
  device_id = [];
  is_online = online;
  socket_count = 0;
  online_at = none;
  offline_at = none;
  last_active_at = none;
  created_at = 0;
}

abbrev base : Db
base = record burn_db {
  users = account 1 ∷ account 2 ∷ [];
  devices = phone_of 1 true ∷ phone_of 2 false ∷ [];
}

-- Another recording.
abbrev other_row : Message
other_row = record burn_row { content = some (b's' ∷ []); file_url = some (b'/' ∷ []) }

pushed_to_two : pushed_ids (notify_new_message true base burn_row (1 ∷ 2 ∷ []) 1) ≡ 2 ∷ []
unfolding notify_new_message pick_offline find_one select_where has
pushed_to_two = refl

shows_burn : build_content base burn_row ≡ record { title = b'A' ∷ []; alert = burn_alert }
unfolding build_content find_one
shows_burn = refl

notify_new_message-secret_example :
    notify_new_message true base burn_row (1 ∷ 2 ∷ []) 1
    ≡ notify_new_message true base other_row (1 ∷ 2 ∷ []) 1
notify_new_message-secret_example =
    notify_new_message-secret true base burn_row other_row (1 ∷ 2 ∷ []) 1
      (record { id = refl; conversation_id = refl; sender_id = refl; type = refl }) refl refl refl

notify_new_message_iff_example :
    has 2 (pushed_ids (notify_new_message true base burn_row (1 ∷ 2 ∷ []) 1)) ≡ true
unfolding has exists_where
notify_new_message_iff_example = notify_new_message_iff true base burn_row (1 ∷ 2 ∷ []) 1 2
