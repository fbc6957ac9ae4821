-- ===== src/Lifecycle.antt =====
-- The life of the database: the operations of the message, destruction and group services as the
-- steps of one relation. `used` are the ids that message rows have had; a new row's id (a UUID of
-- the ORM) is none of them.
pub mod Rows
pub mod Purges
pub mod Unchanged
pub mod Death
mod Tests
use fenxin.Prelude.{ℕ, ◌≡◌, Bool, true, false, Option, List, [], ◌∷◌, has}
use fenxin.Entities.{Uuid, Date, Text, UserRole, Message, Conversation, Db}
use fenxin.Result.{ok, Done}
use fenxin.Env.{Env}
use fenxin.Send.{SendParams, send_message}
use fenxin.Reveal.{Revealed, reveal_message}
use fenxin.Consume.{Consumed, consume_message}
use fenxin.Edit.{edit_message, recall_message, update_original_file}
use fenxin.Read.{mark_as_read, mark_messages_read}
use fenxin.Scheduler.{mark_destroyed}
use fenxin.Destroy.{AckResult, ack}
use fenxin.Destroy.Sweep.{purge_confirmed_or_expired}
use fenxin.Group.Members.{
  GroupParams, create_group, add_members, remove_member, GroupUpdates, update_group_info,
}
use fenxin.Group.Ownership.{
  GroupRun, dissolve_group, dissolve_group_by_owner, transfer_ownership,
  dissolve_groups_on_account_delete,
}

pub record State : Type 0 where
  pub db : Db
  pub used : List Uuid

abbrev pub with_db : State → Db → State
with_db s db = record s { db = db }

-- One operation that succeeds, or a run of a scheduled task.
pub data Step (env : Env) (s : State) : State → Type 0 where
  sending :
      (uuid : ℕ → Uuid) (now : Date) (p : SendParams) (d : Done Message)
      → has (uuid 0) s.used ≡ false
      → send_message env uuid s.db now p ≡ ok d
      → Step env s (record { db = d.db; used = uuid 0 ∷ s.used })
  opening :
      (uuid : Uuid) (now : Date) (message_id user_id : Uuid) (n : Option ℕ) (d : Done Revealed)
      → reveal_message env uuid s.db now message_id user_id n ≡ ok d
      → Step env s (with_db s d.db)
  consuming :
      (now : Date) (message_id user_id : Uuid) (d : Done Consumed)
      → consume_message s.db now message_id user_id ≡ ok d
      → Step env s (with_db s d.db)
  editing :
      (now : Date) (message_id user_id : Uuid) (content : Text) (d : Done (Option Message))
      → edit_message s.db now message_id user_id content ≡ ok d
      → Step env s (with_db s d.db)
  recalling :
      (now : Date) (message_id user_id : Uuid) (d : Done (Unit {0}))
      → recall_message s.db now message_id user_id ≡ ok d
      → Step env s (with_db s d.db)
  completing :
      (message_id user_id : Uuid) (url : Text) (d : Done (Option Message))
      → update_original_file s.db message_id user_id url ≡ ok d
      → Step env s (with_db s d.db)
  reading :
      (now : Date) (c u : Uuid) (up_to : Option Uuid) (d : Done (Unit {0}))
      → mark_as_read s.db now c u up_to ≡ ok d
      → Step env s (with_db s d.db)
  marking_read :
      (now : Date) (c u : Uuid) (ids : List (Option Uuid)) (d : Done ℕ)
      → mark_messages_read s.db now c u ids ≡ ok d
      → Step env s (with_db s d.db)
  minute : (now : Date) → Step env s (with_db s (mark_destroyed s.db now).db)
  acknowledging :
      (now : Date) (c u : Uuid) (device : Option Uuid) (ids : List (Option Uuid))
      (d : Done AckResult)
      → ack env s.db now c u device ids ≡ ok d
      → Step env s (with_db s d.db)
  hour : (now : Date) → Step env s (with_db s (purge_confirmed_or_expired env s.db now).db)
  creating :
      (uuid : Uuid) (now : Date) (p : GroupParams)
      → Step env s (with_db s (create_group uuid s.db now p).left)
  adding :
      (now : Date) (c : Uuid) (ids : List Uuid) (operator_id : Uuid) (d : Done (Unit {0}))
      → add_members s.db now c ids operator_id ≡ ok d
      → Step env s (with_db s d.db)
  removing :
      (c target operator_id : Uuid) (role : Option UserRole) (d : Done (Unit {0}))
      → remove_member s.db c target operator_id role ≡ ok d
      → Step env s (with_db s d.db)
  renaming :
      (c : Uuid) (updates : GroupUpdates) (operator_id : Uuid) (d : Done Conversation)
      → update_group_info s.db c updates operator_id ≡ ok d
      → Step env s (with_db s d.db)
  dissolving :
      (now : Date) (c operator_id : Uuid) (d : Done (Unit {0}))
      → dissolve_group s.db now c operator_id ≡ ok d
      → Step env s (with_db s d.db)
  burning :
      (now : Date) (c operator_id : Uuid) (d : Done (Unit {0}))
      → dissolve_group_by_owner s.db now c operator_id ≡ ok d
      → Step env s (with_db s d.db)
  transferring :
      (c current_owner_id new_owner_id : Uuid) (d : Done (Unit {0}))
      → transfer_ownership s.db c current_owner_id new_owner_id ≡ ok d
      → Step env s (with_db s d.db)
  deleting_account :
      (run : Uuid → GroupRun) (now : Date) (owner_id operator_id : Uuid)
      → Step env s
          (with_db s (dissolve_groups_on_account_delete run s.db now owner_id operator_id).db)

-- Any number of steps.
pub data Steps (env : Env) : State → State → Type 0 where
  stay : {s : State} → Steps env s s
  then_step : {s t u : State} → Steps env s t → Step env t u → Steps env s u
