-- ===== src/Destroy/Purge.antt =====
-- The effect of `purge` on the tables.
use fenxin.Prelude.{
  ◌≡◌, refl, ◌⊎◌, inl, inr, subst, Bool, true, false, none, some, List, [], ◌∷◌, arith, ◌==◌,
  ==_refl, find_one, update_where, exists_where, Option-cases, Bool-cases, if_cases,
  find_one-upsert, find_one-passes, find_one-delete, exists-delete, All, All-delete,
}
use fenxin.Entities.{Uuid, Date, Message, MessageReceipt, MessageTombstone, Db, message_is}
use fenxin.Result.{Done}
use fenxin.Destroy.{ack_of, tombstone_row, replies_to, purge_rows, purge}
use fenxin.Destroy.Attachments.{delete_attachments}

-- The message is gone with its receipts, its acknowledgements and the references to it, and its
-- tombstone stands.
pub record IsPurged (id : Uuid) (now : Date) (m : Message) (db : Db) : Type 0 where
  pub no_message : find_one (message_is id) db.messages ≡ none
  pub no_receipt : exists_where (λ (r : MessageReceipt). r.message_id == id) db.receipts ≡ false
  pub no_ack : exists_where (ack_of id) db.acks ≡ false
  pub no_reply : All (λ (x : Message). replies_to id x ≡ false) db.messages
  pub has_tombstone :
      find_one (λ (t : MessageTombstone). t.id == id) db.tombstones ≡ some (tombstone_row now m)

All-update-All {ℓ} :
    {A : Type 0} (P : A → Type ℓ) (p : A → Bool) (f : A → A) (xs : List A)
    → ((a : A) → p a ≡ true → P (f a))
    → ((a : A) → p a ≡ false → P a)
    → All P (update_where p f xs)
unfolding update_where
All-update-All P p f [] h k = tt
All-update-All P p f (x ∷ xs) h k =
    (if_cases P (p x) (f x) x (h x) (k x), All-update-All P p f xs h k)

pub message_is-id : (id : Uuid) (m : Message) → message_is id m ≡ true → m.id ≡ id
message_is-id id m h = ground arith

purge_rows-IsPurged :
    (db : Db) (now : Date) (m : Message) → IsPurged m.id now m (purge_rows db now m)
unfolding purge_rows tombstone_row
purge_rows-IsPurged db now m = record {
  no_message = find_one-delete _ _;
  no_receipt = exists-delete _ db.receipts;
  no_ack = exists-delete _ db.acks;
  no_reply =
      All-delete _ _ _ (All-update-All _ (replies_to m.id) _ db.messages (λ x e. refl) (λ x e. e));
  has_tombstone = find_one-upsert _ _ db.tombstones (==_refl m.id);
}

-- The answer is true, the message is purged, and its files are deleted.
abbrev pub HasPurged : Uuid → Date → Message → Done Bool → Type 0
HasPurged id now m d =
    (d.value ≡ true) × IsPurged id now m d.db × (d.effects ≡ delete_attachments m)

purge-effect :
    (db : Db) (now : Date) (id : Uuid) (m : Message)
    → find_one (message_is id) db.messages ≡ some m
    → m.is_destroyed ≡ true
    → HasPurged id now m (purge db now id)
unfolding purge
purge-effect db now id m e t = rw e (
    if_cases (HasPurged id now m) m.is_destroyed _ _
      (λ _. (
        refl,
        subst (λ i. IsPurged i now m (purge_rows db now m))
            (message_is-id id m (find_one-passes (message_is id) db.messages m e))
            (purge_rows-IsPurged db now m),
        refl,
      ))
      (λ f. cc (t, f)))

-- `purge` answers true exactly on a message that is stored and marked as destroyed: then its row,
-- its receipts and its acknowledgements are gone, no message refers to it, its tombstone is stored
-- and its files are deleted. Otherwise nothing changes and nothing is deleted.
pub purge_iff :
    (db : Db) (now : Date) (id : Uuid)
    → ((m : Message) × (find_one (message_is id) db.messages ≡ some m)
        × (m.is_destroyed ≡ true)
        × HasPurged id now m (purge db now id))
      ⊎ (((find_one (message_is id) db.messages ≡ none)
            ⊎ ((m : Message) × (find_one (message_is id) db.messages ≡ some m)
                × (m.is_destroyed ≡ false)))
          × (purge db now id ≡ record { value = false; db = db; effects = [] }))
unfolding purge
purge_iff db now id = elim (Option-cases (find_one (message_is id) db.messages)) [
  | inl e ↦ inr (inl e, rw e refl)
  | inr (m, e) ↦ elim (Bool-cases m.is_destroyed) [
    | inl t ↦ inl (m, e, t, purge-effect db now id m e t)
    | inr t ↦ inr (inr (m, e, t), ground arith)
  ]
]
