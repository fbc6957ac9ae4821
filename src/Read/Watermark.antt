-- ===== src/Read/Watermark.antt =====
-- The watermark of a member, `last_read_message_id`, only moves forward.
use fenxin.Prelude.{
  subst, ℕ, ◌≤◌, ◌≡◌, refl, ◌⊎◌, inl, inr, true, ◌&&◌, Option, none, some, List, arith, ltb, ◌==◌,
  if◌then◌else◌, has, find_one, count_where, if_cases, leb→le, &&-eq-true, find_one-update,
}
use fenxin.Entities.{Uuid, Date, Message, ConversationMember, Db, message_is, member_is}
use fenxin.Result.{ok, >>=-eq-ok, Done}
use fenxin.Send.{assert_member}
use fenxin.Read.{
  may_advance, advance_joined, advance_last_read, advance_to, is_within, is_marked_by_read,
  mark_receipts, mark_as_read, is_marked_by_ids, check_ids, mark_messages_read, newest,
  up_to_created_at,
}

-- A member row after reading: as it was, or with its watermark on a stored message that is not
-- older than the stored message of the watermark before.
pub record IsForward (messages : List Message) (cm cm' : ConversationMember) : Type 0 where
  pub new_id : Uuid
  pub row : Message
  pub stored : find_one (message_is new_id) messages ≡ some row
  pub moved : cm' ≡ record cm { last_read_message_id = some new_id }
  pub later :
      (id : Uuid) (old : Message)
      → cm.last_read_message_id ≡ some id
      → find_one (message_is id) messages ≡ some old
      → old.created_at ≤ row.created_at

may_advance-later :
    (db : Db) (m : Message) (cm : ConversationMember) (id : Uuid) (old : Message)
    → may_advance db m cm ≡ true
    → cm.last_read_message_id ≡ some id
    → find_one (message_is id) db.messages ≡ some old
    → old.created_at ≤ m.created_at
unfolding may_advance
may_advance-later db m cm id old h e f = leb→le old.created_at m.created_at (ground arith)

-- The row of any member after the watermark of (c, u) has been moved towards message `k`.
abbrev pub Forward :
    List Message → Uuid → Uuid → Uuid → Uuid → ConversationMember → List ConversationMember → Type 0
Forward ms c u c' u' cm members' =
    (cm' : ConversationMember) × (find_one (member_is c' u') members' ≡ some cm')
    × ((cm' ≡ cm) ⊎ ((cm.conversation_id ≡ c) × (cm.user_id ≡ u) × IsForward ms cm cm'))

advance_found-Forward :
    (db : Db) (c u c' u' k : Uuid) (m : Message) (cm : ConversationMember)
    → find_one (message_is k) db.messages ≡ some m
    → find_one (member_is c' u') db.members ≡ some cm
    → Forward db.messages c u c' u' cm (advance_joined db c u k (some m)).members
unfolding advance_joined
advance_found-Forward db c u c' u' k m cm stored e =
    let test = member_is c u cm && may_advance db m cm in
    let moved = record cm { last_read_message_id = some k } in
    (
      (if test then moved else cm),
      rw
          (
            find_one-update (member_is c' u') (λ x. member_is c u x && may_advance db m x)
                (λ x. record x { last_read_message_id = some k }) db.members (λ x. refl),
            e,
          )
          refl,
      if_cases
          (λ (x : ConversationMember).
            (x ≡ cm) ⊎ ((cm.conversation_id ≡ c) × (cm.user_id ≡ u) × IsForward db.messages cm x))
          test moved cm
          (λ t.
            let (own, may) = &&-eq-true (member_is c u cm) (may_advance db m cm) t in
            inr (
              ground arith,
              ground arith,
              record {
                new_id = k;
                row = m;
                stored = stored;
                moved = refl;
                later = λ id old. may_advance-later db m cm id old may;
              },
            ))
          (λ _. inl refl),
    )

advance_joined-Forward :
    (db : Db) (c u c' u' k : Uuid) (o : Option Message) (cm : ConversationMember)
    → find_one (message_is k) db.messages ≡ o
    → find_one (member_is c' u') db.members ≡ some cm
    → Forward db.messages c u c' u' cm (advance_joined db c u k o).members
unfolding advance_joined
advance_joined-Forward db c u c' u' k none cm f e = (cm, e, inl refl)
advance_joined-Forward db c u c' u' k (some m) cm f e =
    advance_found-Forward db c u c' u' k m cm f e

advance_to-Forward :
    (db : Db) (c u c' u' : Uuid) (o : Option Message) (cm : ConversationMember)
    → find_one (member_is c' u') db.members ≡ some cm
    → Forward db.messages c u c' u' cm (advance_to db c u o).members
unfolding advance_last_read
advance_to-Forward db c u c' u' none cm e = (cm, e, inl refl)
advance_to-Forward db c u c' u' (some m) cm e =
    advance_joined-Forward db c u c' u' m.id (find_one (message_is m.id) db.messages) cm refl e

-- Reading a conversation (c, u) keeps every member row or moves only its watermark, only in the
-- reader's own row, and only to a stored message that is not older than that of the watermark
-- before.
pub mark_as_read-IsForward :
    (db : Db) (now : Date) (c u : Uuid) (up_to : Option Uuid) (d : Done (Unit {0})) (c' u' : Uuid)
    (cm : ConversationMember)
    → mark_as_read db now c u up_to ≡ ok d
    → find_one (member_is c' u') db.members ≡ some cm
    → Forward db.messages c u c' u' cm d.db.members
unfolding mark_as_read mark_receipts
mark_as_read-IsForward db now c u up_to d c' u' cm h e =
    let (mine, a, f) = >>=-eq-ok (assert_member db c u) _ h in
    let bound = up_to_created_at db c up_to in
    let db' = mark_receipts (is_marked_by_read db c u bound) now db in
    let last = newest (λ m. m.conversation_id == c && is_within bound m) db.messages in
    let moved = advance_to-Forward db' c u c' u' last cm e in
    subst (Forward db.messages c u c' u' cm) (ground arith) moved

-- Marking listed messages of a conversation (c, u) keeps every member row or moves only its
-- watermark, only in the reader's own row, and only to a stored message that is not older than that
-- of the watermark before.
pub mark_messages_read-IsForward :
    (db : Db) (now : Date) (c u : Uuid) (message_ids : List (Option Uuid)) (d : Done ℕ)
    (c' u' : Uuid) (cm : ConversationMember)
    → mark_messages_read db now c u message_ids ≡ ok d
    → find_one (member_is c' u') db.members ≡ some cm
    → Forward db.messages c u c' u' cm d.db.members
unfolding mark_messages_read mark_receipts
mark_messages_read-IsForward db now c u message_ids d c' u' cm h e =
    let (ids, a, f) = >>=-eq-ok (check_ids db c u message_ids) _ h in
    let marks = is_marked_by_ids db c u ids in
    let db' = mark_receipts marks now db in
    let latest = newest (λ m. has m.id ids && m.conversation_id == c) db.messages in
    let moved = advance_to-Forward db' c u c' u' latest cm e in
    let after = if ltb 0 (count_where marks db.receipts) then advance_to db' c u latest else db' in
    let same : after ≡ d.db = ground arith in
    subst (λ (x : Db). Forward db.messages c u c' u' cm x.members) same
      (if_cases (λ (x : Db). Forward db.messages c u c' u' cm x.members)
        (ltb 0 (count_where marks db.receipts)) (advance_to db' c u latest) db' (λ _. moved)
        (λ _. (cm, e, inl refl)))
