-- ===== src/Result.antt =====
-- What a handler returns: an HTTP error, or a value with the new database and the effects of the
-- call in their order. The reasons name the messages of the exceptions that the services throw.
-- A handler that throws before its first write, or inside a transaction, keeps the database.
use fenxin.Prelude.{ℕ, ◌≡◌, refl, Bool, true, false, Option, none, some, List}
use fenxin.Entities.{Uuid, Date, Text, Message, MessageType, DestroyReason, Db}

pub data Reason : Type 0 where
  access_denied conversation_missing conversation_dissolved broadcast_only : Reason
  partial_encryption content_empty file_url_empty : Reason
  message_missing message_burned not_burn_message not_media_burn message_recalled : Reason
  not_revealed not_sender recalled_edit burn_edit too_old : Reason
  ids_empty too_many_ids not_destroyed original_exists : Reason
  not_owner not_in_group owner_leaves owner_removed group_missing group_dissolved : Reason
  transfer_to_self target_not_member owner_changed corrupt_members : Reason
  duplicate_key : Reason
  bad_credentials account_locked account_disabled no_bearer invalid_token device_offline : Reason
  must_change_password role_required wrong_password account_missing account_deleted : Reason
  phone_taken self_deletion admin_deletion device_missing : Reason
  channel_missing channel_exists channel_dissolved hidden_channel owner_unsubscribes : Reason
  own_burn_ttl ttl_out_of_range private_burn_ttl : Reason

pub data Error : Type 0 where
  bad_request unauthorized forbidden not_found conflict internal : Reason → Error

-- A throw, or what the call returns.
pub data Result {κ} (T : Type κ) : Type κ where
  err : Error → Result T
  ok : T → Result T

-- `if (!row) throw error`
abbrev pub or_throw {κ} : {T : Type κ} → Option T → Error → Result T
or_throw (some row) error = ok row
or_throw none error = err error

-- `if (test) throw error`
abbrev pub reject : Bool → Error → Result (Unit {0})
reject test error = elim test [ true ↦ err error | false ↦ ok tt ]

-- `if (!test) throw error`
abbrev pub require : Bool → Error → Result (Unit {0})
require test error = elim test [ true ↦ ok tt | false ↦ err error ]

-- `await`: a throw ends the handler.
infixl 5 ◌>>=◌ ◌>>◌
abbrev pub ◌>>=◌ {κ ι} : {T : Type κ} {U : Type ι} → Result T → (T → Result U) → Result U
call >>= next = elim call [ err error ↦ err error | ok value ↦ next value ]

abbrev pub ◌>>◌ {ι} : {U : Type ι} → Result (Unit {0}) → Result U → Result U
check >> next = elim check [ err error ↦ err error | ok _ ↦ next ]

-- What a member receives for a message, by the state of the member's receipt.
pub data MessageView : Type 0 where
  plain : Message → MessageView
  blurred : Message → MessageView
  revealed : Message → Option Date → ℕ → MessageView
  tombstone :
      (id conversation_id sender_id : Uuid)
      → MessageType
      → (created_at : Date) → Option Date
      → Option DestroyReason
      → MessageView

pub data UpdateReason : Type 0 where
  by_message by_created by_members by_info by_dissolved : UpdateReason
  by_updated by_subscribed by_unsubscribed : UpdateReason
  by_owner_changed : Uuid → UpdateReason

pub data ConflictReason : Type 0 where
  kicked_by_new_login new_device_login : ConflictReason

-- The events of src/modules/events/events.types.ts with their payloads.
pub data Event : Type 0 where
  message_new : (conversation_id : Uuid) → MessageView → Event
  message_edited : (conversation_id : Uuid) → Message → Event
  message_recalled : (conversation_id message_id : Uuid) → Date → Event
  message_consumed : (conversation_id message_id user_id : Uuid) → Date → Event
  message_destroyed : (conversation_id : Uuid) → List Uuid → DestroyReason → Date → Event
  receipt_read : (conversation_id user_id : Uuid) → Option Uuid → Date → Event
  conversation_updated : (conversation_id : Uuid) → UpdateReason → Event
  device_added device_removed : (device_id : Uuid) → Event
  device_online device_offline_at : (device_id : Uuid) → Date → Event
  session_conflict : ConflictReason → (new_device : Uuid) → Event

pub data AuditAction : Type 0 where
  dissolve_group dissolve_group_by_owner transfer_ownership : AuditAction
  dissolve_group_on_account_delete dissolve_channel_by_owner : AuditAction
  login change_password remove_device session_kicked device_limit_exceeded : AuditAction
  create_account batch_import_accounts reset_password enable_account disable_account : AuditAction
  delete_account force_offline_device : AuditAction

-- Calls of other services: the gateway, the push service, the object store, the local files and
-- the audit log.
pub data Effect : Type 0 where
  emit : List Uuid → Event → Effect
  emit_to_devices : List Uuid → Event → Effect
  push_new_message : Message → List Uuid → Uuid → Effect
  delete_by_url : Text → Effect
  unlink : Text → Effect
  audit : Uuid → AuditAction → Uuid → Effect
  audit_own : Uuid → AuditAction → Effect

pub record Done (A : Type 0) : Type 0 where
  pub value : A
  pub db : Db
  pub effects : List Effect

abbrev pub Outcome : Type 0 → Type 0
Outcome A = Result (Done A)

-- A handler that succeeds has passed each of its calls.
pub >>=-eq-ok {κ ι} :
    {T : Type κ} {U : Type ι} (call : Result T) (next : T → Result U) {result : U}
    → (call >>= next) ≡ ok result
    → (value : T) × (call ≡ ok value) × (next value ≡ ok result)
>>=-eq-ok (err error) next h = cc
>>=-eq-ok (ok value) next h = (value, refl, h)

pub or_throw-eq-ok {κ} :
    {T : Type κ} (found : Option T) (error : Error) {row : T}
    → or_throw found error ≡ ok row
    → found ≡ some row
or_throw-eq-ok (some row) error h = cc
or_throw-eq-ok none error h = cc
