-- ===== src/View.antt =====
-- What a member sees: `maskBurnMessage`, `applyBurnView` and `tombstoneOf` of
-- src/modules/message/message.service.ts.
pub mod Privacy
mod Tests
use fenxin.Prelude.{
  ℕ, ◌≡◌, Bool, true, false, ◌&&◌, Option, none, some, List, [], ◌∷◌, map, leb, ◌==◌, if◌then◌else◌,
  find_one, select_where, is_some,
}
use fenxin.Entities.{Uuid, Date, Message, MessageReceipt, Db, receipt_of}
use fenxin.Result.{MessageView, plain, blurred, revealed, tombstone}
use fenxin.Burn.{effective_remain_seconds}

-- Every content field is nulled, the cipher text and the file's addresses too.
unfoldable pub mask_burn_message : Message → Message
mask_burn_message m = record m {
  content = none;
  file_url = none;
  file_name = none;
  file_size = none;
  file_original_url = none;
  cipher_nonce = none;
  cipher_text = none;
  sender_ephemeral_pubkey = none;
}

-- Rows from before the column hold JSON null for the mentions.
abbrev pub normalize_mentions : Message → Message
normalize_mentions m = elim m.mentions [ none ↦ record m { mentions = some [] } | some uids ↦ m ]

-- `r?.burn_at && r.burn_at <= now`
abbrev pub is_due : Option Date → Date → Bool
is_due none now = false
is_due (some d) now = leb d now

-- One burn message by the reader's receipt; `none` is a message that is not returned.
unfoldable pub view_by_receipt : Message → Option MessageReceipt → Date → Option MessageView
unfolding mask_burn_message
view_by_receipt m none now = some (blurred (mask_burn_message m))
view_by_receipt m (some r) now =
    if is_due r.burn_at now
    then none
    else if is_some r.revealed_at
    then some (revealed m r.burn_at (effective_remain_seconds r.burn_at m.destroy_at now))
    else some (blurred (mask_burn_message m))

-- The body of the loop of `applyBurnView`.
unfoldable pub view_of : List MessageReceipt → Uuid → Date → Message → Option MessageView
unfolding view_by_receipt
view_of receipts user_id now m =
    if is_some m.burn_ttl_seconds
    then view_by_receipt m (find_one (receipt_of m.id user_id) receipts) now
    else some (plain m)

abbrev push_view : Option MessageView → List MessageView → List MessageView
push_view none vs = vs
push_view (some v) vs = v ∷ vs

unfoldable pub view_all : List MessageReceipt → Uuid → Date → List Message → List MessageView
unfolding view_of
view_all receipts user_id now [] = []
view_all receipts user_id now (m ∷ ms) =
    push_view (view_of receipts user_id now m) (view_all receipts user_id now ms)

unfoldable pub apply_burn_view : Db → Uuid → Date → List Message → List MessageView
unfolding view_all
apply_burn_view db user_id now ms = view_all db.receipts user_id now (map normalize_mentions ms)

unfoldable pub tombstone_of : Message → MessageView
tombstone_of m =
    tombstone m.id m.conversation_id m.sender_id m.type m.created_at m.destroyed_at m.destroy_reason
