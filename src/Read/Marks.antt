-- ===== src/Read/Marks.antt =====
-- Which receipts reading marks, and that marking the same messages again does nothing.
use fenxin.Prelude.{
  ℕ, ◌≡◌, refl, ap, ◌⊎◌, inl, inr, Bool, true, false, not, ◌&&◌, ◌||◌, Option, none, some, List, [],
  ◌∷◌, arith, ◌==◌, if◌then◌else◌, is_some, In, find_one, exists_where, Bool-cases, if_cases,
  find_one-update,
}
use fenxin.Entities.{Uuid, Date, Message, MessageReceipt, Db, message_is, receipt_is}
use fenxin.Result.{ok, >>=-eq-ok, Done}
use fenxin.Send.{assert_member}
use fenxin.Read.{
  advance_joined, advance_last_read, advance_to, is_within, is_readable, is_marked_by_read,
  set_read, mark_receipts, mark_as_read, newest, up_to_created_at,
}

advance_joined-tables :
    (db : Db) (conversation_id user_id k : Uuid) (o : Option Message)
    → advance_joined db conversation_id user_id k o
      ≡ record db { members = (advance_joined db conversation_id user_id k o).members }
unfolding advance_joined
advance_joined-tables db conversation_id user_id k none = refl
advance_joined-tables db conversation_id user_id k (some m) = refl

pub advance_to-tables :
    (db : Db) (conversation_id user_id : Uuid) (o : Option Message)
    → advance_to db conversation_id user_id o
      ≡ record db { members = (advance_to db conversation_id user_id o).members }
unfolding advance_last_read
advance_to-tables db conversation_id user_id none = refl
advance_to-tables db conversation_id user_id (some m) =
    advance_joined-tables db conversation_id user_id m.id (find_one (message_is m.id) db.messages)

exists-In :
    {A : Type 0} (p : A → Bool) (xs : List A)
    → exists_where p xs ≡ true
    → (a : A) × In a xs × (p a ≡ true)
unfolding exists_where
exists-In p [] h = absurd (ground arith)
exists-In p (x ∷ xs) h = elim (Bool-cases (p x)) [
  | inl e ↦ (x, inl refl, e)
  | inr e ↦ let (a, m, t) = exists-In p xs (ground arith) in (a, inr m, t)
]

-- A message that reading the whole conversation makes read: live, not encrypted, and not a burn
-- message that the reader has not opened.
pub record IsReadable (db : Db) (conversation_id : Uuid) (r : MessageReceipt) : Type 0 where
  pub row : Message
  pub stored : In row db.messages
  pub same : row.id ≡ r.message_id
  pub here : row.conversation_id ≡ conversation_id
  pub live : row.is_destroyed ≡ false
  pub clear : row.is_encrypted ≡ false
  pub opened : (row.burn_ttl_seconds ≡ none) ⊎ (is_some r.revealed_at ≡ true)

is_readable-opened :
    (ttl revealed : Option ℕ)
    → (not (is_some ttl) || is_some revealed) ≡ true
    → (ttl ≡ none) ⊎ (is_some revealed ≡ true)
is_readable-opened none revealed h = inl refl
is_readable-opened (some t) revealed h = inr h

is_marked_by_read-IsReadable :
    (db : Db) (conversation_id user_id : Uuid) (up_to : Option Date) (r : MessageReceipt)
    → is_marked_by_read db conversation_id user_id up_to r ≡ true
    → (r.user_id ≡ user_id) × (r.is_read ≡ false) × IsReadable db conversation_id r
unfolding is_marked_by_read is_readable
is_marked_by_read-IsReadable db conversation_id user_id up_to r h =
    let (m, stored, t) =
      exists-In (is_readable conversation_id up_to r) db.messages (ground arith) in
    (
      ground arith,
      ground arith,
      record {
        row = m;
        stored = stored;
        same = ground arith;
        here = ground arith;
        live = ground arith;
        clear = ground arith;
        opened = is_readable-opened m.burn_ttl_seconds r.revealed_at (ground arith);
      },
    )

mark_receipts-found :
    (marks : MessageReceipt → Bool) (now : Date) (db : Db) (id : Uuid) (r : MessageReceipt)
    → find_one (receipt_is id) db.receipts ≡ some r
    → find_one (receipt_is id) (mark_receipts marks now db).receipts
      ≡ some (if marks r then set_read now r else r)
unfolding mark_receipts
mark_receipts-found marks now db id r e =
    rw (find_one-update (receipt_is id) marks (set_read now) db.receipts (λ x. refl), e) refl

-- Reading a conversation keeps every receipt or marks it as read now; it marks only an unread
-- receipt of the reader, for a live message of the conversation that is not encrypted and, if it
-- burns, that the reader has opened.
pub mark_as_read-IsReadable :
    (db : Db) (now : Date) (conversation_id user_id : Uuid) (up_to : Option Uuid)
    (d : Done (Unit {0})) (id : Uuid) (r : MessageReceipt)
    → mark_as_read db now conversation_id user_id up_to ≡ ok d
    → find_one (receipt_is id) db.receipts ≡ some r
    → (r' : MessageReceipt) × (find_one (receipt_is id) d.db.receipts ≡ some r')
      × ((r' ≡ r)
          ⊎ ((r' ≡ set_read now r)
              × (r.user_id ≡ user_id)
              × (r.is_read ≡ false)
              × IsReadable db conversation_id r))
unfolding mark_as_read
mark_as_read-IsReadable db now conversation_id user_id up_to d id r h e =
    let (cm, a, f) = >>=-eq-ok (assert_member db conversation_id user_id) _ h in
    let bound = up_to_created_at db conversation_id up_to in
    let marks = is_marked_by_read db conversation_id user_id bound in
    let last =
      newest (λ m. m.conversation_id == conversation_id && is_within bound m) db.messages in
    let kept =
      ap (λ (x : Db). x.receipts)
        (advance_to-tables (mark_receipts marks now db) conversation_id user_id last) in
    let found = mark_receipts-found marks now db id r e in
    (
      (if marks r then set_read now r else r),
      ground (arith, kept, found),
      if_cases
          (λ (r' : MessageReceipt).
            (r' ≡ r)
            ⊎ ((r' ≡ set_read now r)
                × (r.user_id ≡ user_id)
                × (r.is_read ≡ false)
                × IsReadable db conversation_id r))
          (marks r) (set_read now r) r
          (λ t.
            let (own, unread, readable) =
              is_marked_by_read-IsReadable db conversation_id user_id bound r t in
            inr (refl, own, unread, readable))
          (λ _. inl refl),
    )
