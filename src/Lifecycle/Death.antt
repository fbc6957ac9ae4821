-- ===== src/Lifecycle/Death.antt =====
-- Death is final: through any sequence of operations a message that has died is never live again.
use fenxin.Prelude.{
  ℕ, ◌≡◌, ◌≢◌, sym, subst, inl, inr, true, false, Option, some, List, ◌∷◌, arith, ◌==◌, Bool-cases,
  All-find, has, find_one, find_one-passes,
}
use fenxin.Entities.{Uuid, Date, Text, Message, Db, message_is}
use fenxin.Result.{ok, Done}
use fenxin.Env.{Env}
use fenxin.Reveal.{Revealed, reveal_message}
use fenxin.Reveal.Checks.{reveal_message-eq-ok}
use fenxin.Edit.{edit_message}
use fenxin.Edit.Rights.{edit_message_iff}
use fenxin.Lifecycle.{
  State, with_db, Step, sending, opening, consuming, editing, recalling, completing, reading,
  marking_read, minute, acknowledging, hour, creating, adding, removing, renaming, dissolving,
  burning, transferring, deleting_account, Steps, stay, then_step,
}
use fenxin.Lifecycle.Rows.{
  IsNotLive, IsDead, send_message-IsDead, reveal_message-IsDead, consume_message-messages,
  edit_message-IsDead, recall_message-IsDead, update_original_file-IsDead, mark_destroyed-IsDead,
}
use fenxin.Lifecycle.Purges.{ack-IsDead, purge_confirmed_or_expired-IsDead}
use fenxin.Lifecycle.Unchanged.{
  mark_as_read-messages, mark_messages_read-messages, create_group-messages, add_members-messages,
  remove_member-messages, update_group_info-messages, dissolve_group-messages,
  transfer_ownership-messages, dissolve_group_by_owner-IsDead,
  dissolve_groups_on_account_delete-IsDead,
}

-- The id has been given to a message, and no row with it is live.
pub record HasDied (id : Uuid) (s : State) : Type 0 where
  pub given : has id s.used ≡ true
  pub dead : IsDead id s.db.messages

died :
    (id : Uuid) (s : State) (db : Db)
    → HasDied id s
    → IsDead id db.messages
    → HasDied id (with_db s db)
died id s db h dead = record { given = h.given; dead = dead }

died_same :
    (id : Uuid) (s : State) (db : Db)
    → HasDied id s
    → db.messages ≡ s.db.messages
    → HasDied id (with_db s db)
died_same id s db h e = died id s db h (subst (IsDead id) (sym e) h.dead)

fresh_other :
    (k id : Uuid) (used : List Uuid) → has k used ≡ false → has id used ≡ true → (k == id) ≡ false
fresh_other k id used f g = elim (Bool-cases (k == id)) [
  | inl e ↦
      let same : k ≡ id = ground arith in
      let no : has id used ≡ false = subst (λ x. has x used ≡ false) same f in cc (no, g)
  | inr e ↦ e
]

has_later : (k id : Uuid) (used : List Uuid) → has id used ≡ true → has id (k ∷ used) ≡ true
unfolding has
has_later k id used h = ground (arith, h)

pub Step-HasDied :
    (env : Env) (s t : State) (id : Uuid) → Step env s t → HasDied id s → HasDied id t
Step-HasDied env s t id (sending uuid now p d fresh e) h = record {
  given = has_later (uuid 0) id s.used h.given;
  dead =
      send_message-IsDead env uuid s.db now p d id e (fresh_other (uuid 0) id s.used fresh h.given)
        h.dead;
}
Step-HasDied env s t id (opening uuid now m u n d e) h =
    died id s d.db h (reveal_message-IsDead env uuid s.db now m u n d id e h.dead)
Step-HasDied env s t id (consuming now m u d e) h =
    died_same id s d.db h (consume_message-messages s.db now m u d e)
Step-HasDied env s t id (editing now m u content d e) h =
    died id s d.db h (edit_message-IsDead s.db now m u content d id e h.dead)
Step-HasDied env s t id (recalling now m u d e) h =
    died id s d.db h (recall_message-IsDead s.db now m u d id e h.dead)
Step-HasDied env s t id (completing m u url d e) h =
    died id s d.db h (update_original_file-IsDead s.db m u url d id e h.dead)
Step-HasDied env s t id (reading now c u up_to d e) h =
    died_same id s d.db h (mark_as_read-messages s.db now c u up_to d e)
Step-HasDied env s t id (marking_read now c u ids d e) h =
    died_same id s d.db h (mark_messages_read-messages s.db now c u ids d e)
Step-HasDied env s t id (minute now) h = died id s _ h (mark_destroyed-IsDead s.db now id h.dead)
Step-HasDied env s t id (acknowledging now c u device ids d e) h =
    died id s d.db h (ack-IsDead env s.db now c u device ids d id e h.dead)
Step-HasDied env s t id (hour now) h =
    died id s _ h (purge_confirmed_or_expired-IsDead env s.db now id h.dead)
Step-HasDied env s t id (creating uuid now p) h =
    died_same id s _ h (create_group-messages uuid s.db now p)
Step-HasDied env s t id (adding now c ids o d e) h =
    died_same id s d.db h (add_members-messages s.db now c ids o d e)
Step-HasDied env s t id (removing c target o role d e) h =
    died_same id s d.db h (remove_member-messages s.db c target o role d e)
Step-HasDied env s t id (renaming c updates o d e) h =
    died_same id s d.db h (update_group_info-messages s.db c updates o d e)
Step-HasDied env s t id (dissolving now c o d e) h =
    died_same id s d.db h (dissolve_group-messages s.db now c o d e)
Step-HasDied env s t id (burning now c o d e) h =
    died id s d.db h (dissolve_group_by_owner-IsDead s.db now c o d id e h.dead)
Step-HasDied env s t id (transferring c o n d e) h =
    died_same id s d.db h (transfer_ownership-messages s.db c o n d e)
Step-HasDied env s t id (deleting_account run now owner_id o) h =
    died id s _ h (dissolve_groups_on_account_delete-IsDead run s.db now owner_id o id h.dead)

Steps-HasDied : (env : Env) (s t : State) (id : Uuid) → Steps env s t → HasDied id s → HasDied id t
Steps-HasDied env s t id stay h = h
Steps-HasDied env s t id (then_step before step) h =
    Step-HasDied env _ t id step (Steps-HasDied env s _ id before h)

IsDead-no_live :
    (id : Uuid) (ms : List Message) (m : Message)
    → IsDead id ms
    → find_one (message_is id) ms ≡ some m
    → m.is_destroyed ≢ false
IsDead-no_live id ms m dead e live =
    let none_live = All-find (IsNotLive id) (message_is id) ms m dead e in
    let key = find_one-passes (message_is id) ms m e in ground arith

-- Once a message has been stored and no row of it is live, no sequence of operations and scheduled
-- runs brings a live row of it back, and nobody ever opens or edits it again.
pub Steps-IsDead :
    (env : Env) (s t : State) (id : Uuid) (uuid : Uuid) (now : Date) (u : Uuid) (n : Option ℕ)
    (opened : Done Revealed) (content : Text) (edited : Done (Option Message))
    → Steps env s t
    → HasDied id s
    → IsDead id t.db.messages
      × (reveal_message env uuid t.db now id u n ≢ ok opened)
      × (edit_message t.db now id u content ≢ ok edited)
Steps-IsDead env s t id uuid now u n opened content edited steps h =
    let dead = (Steps-HasDied env s t id steps h).dead in
    (
      dead,
      λ e.
          let (m, o, f) = reveal_message-eq-ok env uuid t.db now id u n opened e in
          IsDead-no_live id t.db.messages m dead o.stored o.live,
      λ e.
          let (m, o) = (edit_message_iff t.db now id u content).0 (edited, e) in
          IsDead-no_live id t.db.messages m dead o.stored o.live,
    )
