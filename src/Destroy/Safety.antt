-- ===== src/Destroy/Safety.antt =====
-- No purge deletes a message that is not destroyed, nor a receipt of one.
use fenxin.Prelude.{
  ◌≡◌, refl, ◌≢◌, inl, inr, subst, ap, ◌∙◌, Bool, true, false, not, ◌&&◌, Option, none, some, List,
  [], ◌∷◌, arith, ◌==◌, if◌then◌else◌, find_one, Option-cases, if_cases, find_one-passes,
  find_one-update, find_one-delete_other, distinct,
}
use fenxin.Entities.{
  present, Uuid, Date, Message, MessageReceipt, ConversationType, Db, message_is, receipt_of,
  conversation_is,
}
use fenxin.Result.{ok, Done, or_throw, reject, >>=-eq-ok}
use fenxin.Env.{Env}
use fenxin.Destroy.{
  replies_to, purge_rows, purge, purge_if, known_ids, meets_purge_policy, purge_loop, commit_ack,
  AckResult, ack_ids, ack, has_live,
}
use fenxin.Send.{assert_member}
use fenxin.Destroy.Purge.{message_is-id}
use fenxin.Destroy.Sweep.{
  SweepRow, policy_met, is_before, cutoff, sweep_loop, sweep_rows, purge_confirmed_or_expired,
}

-- The message is stored as it was, but for its reference to another message, and the receipts of
-- it are the same.
abbrev pub IsKept : Db → Db → Uuid → Message → Type 0
IsKept db db' id m =
    (reply : Option Uuid) × (find_one (message_is id) db'.messages
      ≡ some (record m { reply_to_id = reply }))
    × ((user_id : Uuid)
        → find_one (receipt_of id user_id) db'.receipts
          ≡ find_one (receipt_of id user_id) db.receipts)

-- Each message that is not destroyed is kept.
abbrev KeepsLive : Db → Db → Type 0
KeepsLive db db' =
    (id : Uuid) (m : Message)
    → find_one (message_is id) db.messages ≡ some m
    → m.is_destroyed ≡ false
    → IsKept db db' id m

KeepsLive-refl : (db : Db) → KeepsLive db db
KeepsLive-refl db id m e live = (m.reply_to_id, e, λ u. refl)

KeepsLive-trans : (a b c : Db) → KeepsLive a b → KeepsLive b c → KeepsLive a c
KeepsLive-trans a b c h k id m e live =
    let (r, f, same) = h id m e live in
    let (s, g, same') = k id (record m { reply_to_id = r }) f live in (s, g, λ u. same' u ∙ same u)

message_is-other :
    (id other : Uuid)
    → id ≢ other
    → (x : Message) → message_is id x ≡ true
    → message_is other x ≡ false
message_is-other id other ne x h = ground arith

receipt_of-other :
    (id other user_id : Uuid)
    → id ≢ other
    → (x : MessageReceipt) → receipt_of id user_id x ≡ true
    → (x.message_id == other) ≡ false
receipt_of-other id other user_id ne x h = ground arith

clear_reply :
    (b : Bool) (m : Message)
    → (if b then record m { reply_to_id = none } else m)
      ≡ record m { reply_to_id = if b then none else m.reply_to_id }
clear_reply true m = refl
clear_reply false m = refl

purge_rows-KeepsLive :
    (db : Db) (now : Date) (id : Uuid) (d : Message)
    → find_one (message_is id) db.messages ≡ some d
    → d.is_destroyed ≡ true
    → KeepsLive db (purge_rows db now d)
unfolding purge_rows
purge_rows-KeepsLive db now id d e t other m f live =
    let k = message_is-id id d (find_one-passes (message_is id) db.messages d e) in
    let ne : other ≢ d.id = λ same. cc (e, f, t, live, same, k) in
    (
      (if replies_to d.id m then none else m.reply_to_id),
      find_one-delete_other _ (message_is d.id) _ (message_is-other other d.id ne)
          ∙ find_one-update (message_is other) (replies_to d.id) _ db.messages (λ x. refl)
          ∙ rw f (ap some (clear_reply (replies_to d.id m) m)),
      λ u. find_one-delete_other _ _ db.receipts (receipt_of-other other d.id u ne),
    )

purge-KeepsLive : (db : Db) (now : Date) (id : Uuid) → KeepsLive db (purge db now id).db
unfolding purge
purge-KeepsLive db now id = elim (Option-cases (find_one (message_is id) db.messages)) [
  | inl e ↦ rw e (KeepsLive-refl db)
  | inr (d, e) ↦ rw e (
      if_cases (λ (x : Done Bool). KeepsLive db x.db) d.is_destroyed _ _
        (λ t. purge_rows-KeepsLive db now id d e t) (λ _. KeepsLive-refl db))
]

purge_if-KeepsLive :
    (test : Bool) (db : Db) (now : Date) (id : Uuid) → KeepsLive db (purge_if test db now id).db
purge_if-KeepsLive true db now id = purge-KeepsLive db now id
purge_if-KeepsLive false db now id = KeepsLive-refl db

purge_loop-KeepsLive :
    (env : Env) (now : Date) (c : Uuid) (t : ConversationType) (ids : List Uuid) (db : Db)
    → KeepsLive db (purge_loop env now c t ids db).db
unfolding purge_loop
purge_loop-KeepsLive env now c t [] db = KeepsLive-refl db
purge_loop-KeepsLive env now c t (id ∷ ids) db =
    let first = purge_if (meets_purge_policy env db c t id) db now id in
    KeepsLive-trans db first.db (purge_loop env now c t ids first.db).db
      (purge_if-KeepsLive (meets_purge_policy env db c t id) db now id)
      (purge_loop-KeepsLive env now c t ids first.db)

sweep_loop-KeepsLive :
    (env : Env) (now : Date) (rs : List SweepRow) (db : Db)
    → KeepsLive db (sweep_loop env now rs db).db
unfolding sweep_loop
sweep_loop-KeepsLive env now [] db = KeepsLive-refl db
sweep_loop-KeepsLive env now (r ∷ rs) db =
    let first = purge_if (policy_met env r) db now r.id in
    let timeout = not first.value && is_before (cutoff env now) r.destroyed_at in
    let second = purge_if timeout first.db now r.id in
    KeepsLive-trans db first.db (sweep_loop env now rs second.db).db
      (purge_if-KeepsLive (policy_met env r) db now r.id)
      (KeepsLive-trans first.db second.db (sweep_loop env now rs second.db).db
        (purge_if-KeepsLive timeout first.db now r.id) (sweep_loop-KeepsLive env now rs second.db))

-- The hourly sweep deletes no message that is not destroyed and no receipt of one, and changes
-- nothing of it but a reference to a purged message.
pub purge_confirmed_or_expired-IsKept :
    (env : Env) (db : Db) (now : Date) (id : Uuid) (m : Message)
    → find_one (message_is id) db.messages ≡ some m
    → m.is_destroyed ≡ false
    → IsKept db (purge_confirmed_or_expired env db now).db id m
unfolding purge_confirmed_or_expired
purge_confirmed_or_expired-IsKept env db now = sweep_loop-KeepsLive env now (sweep_rows db) db

commit_ack-KeepsLive :
    (env : Env) (db : Db) (now : Date) (c u : Uuid) (device : Option Uuid) (t : ConversationType)
    (ids : List Uuid)
    → KeepsLive db (commit_ack env db now c u device t ids).db
unfolding commit_ack
commit_ack-KeepsLive env db now c u device t ids id m e live =
    purge_loop-KeepsLive env now c t (known_ids db c ids) _ id m e live

ack_ids-KeepsLive :
    (env : Env) (db : Db) (now : Date) (c u : Uuid) (device : Option Uuid) (ids : List Uuid)
    (d : Done AckResult)
    → ack_ids env db now c u device ids ≡ ok d
    → KeepsLive db d.db
unfolding ack_ids
ack_ids-KeepsLive env db now c u device [] d h =
    let same : db ≡ d.db = ground arith in subst (λ x. KeepsLive db x) same (KeepsLive-refl db)
ack_ids-KeepsLive env db now c u device (x ∷ ids) d h =
    let (conv, e, h) = >>=-eq-ok (or_throw (find_one (conversation_is c) db.conversations) _) _ h in
    let (ok_all, f, h) = >>=-eq-ok (reject (has_live db c (x ∷ ids)) _) _ h in
    let same : commit_ack env db now c u device conv.type (x ∷ ids) ≡ d = ground arith in
    subst (λ (r : Done AckResult). KeepsLive db r.db) same
      (commit_ack-KeepsLive env db now c u device conv.type (x ∷ ids))

-- An acknowledgement deletes no message that is not destroyed and no receipt of one, and changes
-- nothing of it but a reference to a purged message, whatever ids the client sends.
pub ack-IsKept :
    (env : Env) (db : Db) (now : Date) (c u : Uuid) (device : Option Uuid)
    (ids : List (Option Uuid)) (d : Done AckResult) (id : Uuid) (m : Message)
    → ack env db now c u device ids ≡ ok d
    → find_one (message_is id) db.messages ≡ some m
    → m.is_destroyed ≡ false
    → IsKept db d.db id m
unfolding ack
ack-IsKept env db now c u device ids d id m h =
    let (membership, e, f) = >>=-eq-ok (assert_member db c u) _ h in
    ack_ids-KeepsLive env db now c u device (distinct (present ids)) d f id m
