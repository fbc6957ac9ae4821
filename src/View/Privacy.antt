-- ===== src/View/Privacy.antt =====
-- A burn message shows its content only to a member who has opened it and whose time is not up.
use fenxin.Prelude.{
  ◌<◌, ◌≡◌, refl, ◌≢◌, inl, inr, false, Option, none, some, List, [], ◌∷◌, map, arith, Option-cases,
  Bool-cases, find_one, All, is_some, if_cases, is_some-eq-false,
}
use fenxin.Entities.{Uuid, Date, Message, MessageReceipt, Db, receipt_of}
use fenxin.Result.{MessageView, plain, blurred, revealed, tombstone}
use fenxin.View.{
  mask_burn_message, normalize_mentions, is_due, view_by_receipt, view_of, view_all, push_view,
  apply_burn_view,
}

-- No content, file or cipher field is set.
pub record HasNoContent (m : Message) : Type 0 where
  pub content : m.content ≡ none
  pub file_url : m.file_url ≡ none
  pub file_name : m.file_name ≡ none
  pub file_size : m.file_size ≡ none
  pub file_original_url : m.file_original_url ≡ none
  pub cipher_nonce : m.cipher_nonce ≡ none
  pub cipher_text : m.cipher_text ≡ none
  pub sender_ephemeral_pubkey : m.sender_ephemeral_pubkey ≡ none

pub mask_burn_message-HasNoContent : (m : Message) → HasNoContent (mask_burn_message m)
unfolding mask_burn_message
mask_burn_message-HasNoContent m = ground arith

-- The date, where there is one, lies after `now`.
abbrev pub IsPending : Option Date → Date → Type 0
IsPending none now = Unit
IsPending (some d) now = now < d

-- What the rows of receipts allow to show to the user.
abbrev pub IsAllowed : List MessageReceipt → Uuid → Date → MessageView → Type 0
IsAllowed receipts user_id now (plain m) = m.burn_ttl_seconds ≡ none
IsAllowed receipts user_id now (blurred m) = HasNoContent m
IsAllowed receipts user_id now (revealed m burn_at remain) =
    (r : MessageReceipt) × (find_one (receipt_of m.id user_id) receipts ≡ some r)
    × (r.revealed_at ≢ none)
    × (burn_at ≡ r.burn_at)
    × IsPending r.burn_at now
IsAllowed receipts user_id now (tombstone i c s t a d r) = Unit

not_due-IsPending : (d : Option Date) (now : Date) → is_due d now ≡ false → IsPending d now
not_due-IsPending none now h = tt
not_due-IsPending (some d) now h = ground arith

abbrev Satisfies : (MessageView → Type 0) → Option MessageView → Type 0
Satisfies P none = Unit
Satisfies P (some v) = P v

view_by_receipt-IsAllowed :
    (receipts : List MessageReceipt) (user_id : Uuid) (now : Date) (m : Message)
    (o : Option MessageReceipt)
    → find_one (receipt_of m.id user_id) receipts ≡ o
    → Satisfies (IsAllowed receipts user_id now) (view_by_receipt m o now)
unfolding view_by_receipt
view_by_receipt-IsAllowed receipts user_id now m none e = mask_burn_message-HasNoContent m
view_by_receipt-IsAllowed receipts user_id now m (some r) e =
    elim (Bool-cases (is_due r.burn_at now)) [
      | inl due ↦ rw due tt
      | inr pending ↦ elim (Option-cases r.revealed_at) [
        | inl closed ↦ rw (pending, closed) (mask_burn_message-HasNoContent m)
        | inr (d, opened) ↦
            rw (pending, opened) (r, e, ground arith, refl, not_due-IsPending r.burn_at now pending)
      ]
    ]

view_of-IsAllowed :
    (receipts : List MessageReceipt) (user_id : Uuid) (now : Date) (m : Message)
    → Satisfies (IsAllowed receipts user_id now) (view_of receipts user_id now m)
unfolding view_of
view_of-IsAllowed receipts user_id now m =
    if_cases (Satisfies (IsAllowed receipts user_id now)) (is_some m.burn_ttl_seconds) _ _
      (λ _.
        view_by_receipt-IsAllowed receipts user_id now m
          (find_one (receipt_of m.id user_id) receipts) refl)
      (λ e. is_some-eq-false m.burn_ttl_seconds e)

push_view-All :
    (P : MessageView → Type 0) (v : Option MessageView) (vs : List MessageView)
    → Satisfies P v
    → All P vs
    → All P (push_view v vs)
push_view-All P none vs h k = k
push_view-All P (some v) vs h k = (h, k)

view_all-IsAllowed :
    (receipts : List MessageReceipt) (user_id : Uuid) (now : Date) (ms : List Message)
    → All (IsAllowed receipts user_id now) (view_all receipts user_id now ms)
unfolding view_all
view_all-IsAllowed receipts user_id now [] = tt
view_all-IsAllowed receipts user_id now (m ∷ ms) =
    push_view-All (IsAllowed receipts user_id now) (view_of receipts user_id now m) _
      (view_of-IsAllowed receipts user_id now m) (view_all-IsAllowed receipts user_id now ms)

-- The list that a member receives shows a burn message blurred, with no content field set, or
-- opened by that member's own receipt, which is revealed and not yet due; every message that is
-- shown as it is stored is no burn message.
pub apply_burn_view-IsAllowed :
    (db : Db) (user_id : Uuid) (now : Date) (ms : List Message)
    → All (IsAllowed db.receipts user_id now) (apply_burn_view db user_id now ms)
unfolding apply_burn_view
apply_burn_view-IsAllowed db user_id now ms =
    view_all-IsAllowed db.receipts user_id now (map normalize_mentions ms)
