-- ===== src/Lifecycle/Purges.antt =====
-- Purging leaves no live row of a message that has died.
use fenxin.Prelude.{
  distinct, ◌≡◌, subst, inl, inr, Bool, true, false, not, ◌&&◌, Option, none, List, [], ◌∷◌, arith,
  All-delete, All-update, Option-cases, if_cases, find_one, update_where,
}
use fenxin.Send.{assert_member}
use fenxin.Entities.{
  present, Uuid, Date, Message, ConversationType, Db, message_is, conversation_is,
}
use fenxin.Result.{ok, or_throw, reject, >>=-eq-ok, Done}
use fenxin.Env.{Env}
use fenxin.Destroy.{
  replies_to, purge_rows, purge, purge_if, known_ids, meets_purge_policy, purge_loop, commit_ack,
  AckResult, ack_ids, ack, has_live,
}
use fenxin.Destroy.Sweep.{
  SweepRow, policy_met, is_before, cutoff, sweep_loop, sweep_rows, purge_confirmed_or_expired,
}
use fenxin.Lifecycle.Rows.{IsNotLive, IsDead}

purge_rows-IsDead :
    (db : Db) (now : Date) (m : Message) (id : Uuid)
    → IsDead id db.messages
    → IsDead id (purge_rows db now m).messages
unfolding purge_rows
purge_rows-IsDead db now m id dead =
    let clear = λ (x : Message). record x { reply_to_id = none } in
    All-delete (IsNotLive id) (message_is m.id) (update_where (replies_to m.id) clear db.messages)
      (All-update (IsNotLive id) (replies_to m.id) clear db.messages (λ x t k. k) dead)

purge-IsDead :
    (db : Db) (now : Date) (x id : Uuid)
    → IsDead id db.messages
    → IsDead id (purge db now x).db.messages
unfolding purge
purge-IsDead db now x id dead = elim (Option-cases (find_one (message_is x) db.messages)) [
  | inl e ↦ rw e dead
  | inr (m, e) ↦ rw e (
      if_cases (λ (r : Done Bool). IsDead id r.db.messages) m.is_destroyed _ _
        (λ _. purge_rows-IsDead db now m id dead) (λ _. dead))
]

purge_if-IsDead :
    (test : Bool) (db : Db) (now : Date) (x id : Uuid)
    → IsDead id db.messages
    → IsDead id (purge_if test db now x).db.messages
purge_if-IsDead true db now x id dead = purge-IsDead db now x id dead
purge_if-IsDead false db now x id dead = dead

purge_loop-IsDead :
    (env : Env) (now : Date) (c : Uuid) (t : ConversationType) (ids : List Uuid) (db : Db)
    (id : Uuid)
    → IsDead id db.messages
    → IsDead id (purge_loop env now c t ids db).db.messages
unfolding purge_loop
purge_loop-IsDead env now c t [] db id dead = dead
purge_loop-IsDead env now c t (x ∷ ids) db id dead =
    let first = purge_if (meets_purge_policy env db c t x) db now x in
    purge_loop-IsDead env now c t ids first.db id
      (purge_if-IsDead (meets_purge_policy env db c t x) db now x id dead)

pub sweep_loop-IsDead :
    (env : Env) (now : Date) (rs : List SweepRow) (db : Db) (id : Uuid)
    → IsDead id db.messages
    → IsDead id (sweep_loop env now rs db).db.messages
unfolding sweep_loop
sweep_loop-IsDead env now [] db id dead = dead
sweep_loop-IsDead env now (r ∷ rs) db id dead =
    let first = purge_if (policy_met env r) db now r.id in
    let timeout = not first.value && is_before (cutoff env now) r.destroyed_at in
    let second = purge_if timeout first.db now r.id in
    sweep_loop-IsDead env now rs second.db id (
      purge_if-IsDead timeout first.db now r.id id
        (purge_if-IsDead (policy_met env r) db now r.id id dead))

pub ack_ids-IsDead :
    (env : Env) (db : Db) (now : Date) (c u : Uuid) (device : Option Uuid) (ids : List Uuid)
    (d : Done AckResult) (id : Uuid)
    → ack_ids env db now c u device ids ≡ ok d
    → IsDead id db.messages
    → IsDead id d.db.messages
unfolding ack_ids commit_ack
ack_ids-IsDead env db now c u device [] d id h dead =
    let same : db ≡ d.db = ground arith in subst (λ (x : Db). IsDead id x.messages) same dead
ack_ids-IsDead env db now c u device (x ∷ ids) d id h dead =
    let (conv, e, h) = >>=-eq-ok (or_throw (find_one (conversation_is c) db.conversations) _) _ h in
    let (ok_all, f, h) = >>=-eq-ok (reject (has_live db c (x ∷ ids)) _) _ h in
    let same : commit_ack env db now c u device conv.type (x ∷ ids) ≡ d = ground arith in
    subst (λ (r : Done AckResult). IsDead id r.db.messages) same
      (purge_loop-IsDead env now c conv.type (known_ids db c (x ∷ ids)) _ id dead)

pub ack-IsDead :
    (env : Env) (db : Db) (now : Date) (c u : Uuid) (device : Option Uuid)
    (ids : List (Option Uuid)) (d : Done AckResult) (id : Uuid)
    → ack env db now c u device ids ≡ ok d
    → IsDead id db.messages
    → IsDead id d.db.messages
unfolding ack
ack-IsDead env db now c u device ids d id h dead =
    let (membership, e, f) = >>=-eq-ok (assert_member db c u) _ h in
    ack_ids-IsDead env db now c u device (distinct (present ids)) d id f dead

pub purge_confirmed_or_expired-IsDead :
    (env : Env) (db : Db) (now : Date) (id : Uuid)
    → IsDead id db.messages
    → IsDead id (purge_confirmed_or_expired env db now).db.messages
unfolding purge_confirmed_or_expired
purge_confirmed_or_expired-IsDead env db now id dead =
    sweep_loop-IsDead env now (sweep_rows db) db id dead
