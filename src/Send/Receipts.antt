-- ===== src/Send/Receipts.antt =====
-- The rows that `sendMessage` adds: the message, and a receipt for each member.
use fenxin.Prelude.{
  ℕ, suc, inl, inr, subst, find_one-passes, ◌≡◌, refl, true, none, some, List, [], ◌∷◌, ◌++◌, map,
  ap, ◌==◌, if◌then◌else◌, All, In, find_one-In_select, &&-eq-true, arith,
}
use fenxin.Entities.{Uuid, Date, Message, MessageReceipt, ConversationMember, Db, member_is}
use fenxin.Result.{ok, Done}
use fenxin.Env.{Env}
use fenxin.Send.{
  SendParams, members_of, get_member_user_ids, new_receipts, commit_send, send_message,
}
use fenxin.Send.Checks.{IsAdmissible}
use fenxin.Send.Stored.{send_message-eq-ok}

-- An unopened receipt of the message, which is read exactly if it is the sender's.
pub record IsFreshReceipt (m : Message) (now : Date) (r : MessageReceipt) : Type 0 where
  pub of_message : r.message_id ≡ m.id
  pub read_by_sender : r.is_read ≡ (r.user_id == m.sender_id)
  pub read_time : r.read_at ≡ (if r.user_id == m.sender_id then some now else none)
  pub unrevealed : r.revealed_at ≡ none
  pub untimed : r.burn_at ≡ none

new_receipts-IsFreshReceipt :
    (uuid : ℕ → Uuid) (i : ℕ) (m : Message) (now : Date) (ms : List ConversationMember)
    → All (IsFreshReceipt m now) (new_receipts uuid i m now ms)
unfolding new_receipts
new_receipts-IsFreshReceipt uuid i m now [] = tt
new_receipts-IsFreshReceipt uuid i m now (x ∷ ms) = (
  record {
    of_message = refl;
    read_by_sender = refl;
    read_time = refl;
    unrevealed = refl;
    untimed = refl;
  },
  new_receipts-IsFreshReceipt uuid (suc i) m now ms,
)

map-new_receipts :
    (uuid : ℕ → Uuid) (i : ℕ) (m : Message) (now : Date) (ms : List ConversationMember)
    → map (λ r. r.user_id) (new_receipts uuid i m now ms) ≡ map (λ x. x.user_id) ms
unfolding new_receipts
map-new_receipts uuid i m now [] = refl
map-new_receipts uuid i m now (x ∷ ms) = ap (◌∷◌ x.user_id) (map-new_receipts uuid (suc i) m now ms)

In-map :
    (f : ConversationMember → Uuid) (ms : List ConversationMember) (x : ConversationMember)
    → In x ms
    → In (f x) (map f ms)
In-map f [] x h = h
In-map f (y ∷ ms) x h = elim h [ inl e ↦ inl (ap f e) | inr k ↦ inr (In-map f ms x k) ]

member_is-user :
    (conversation_id user_id : Uuid) (m : ConversationMember)
    → member_is conversation_id user_id m ≡ true
    → m.user_id ≡ user_id
member_is-user conversation_id user_id m h = ground arith

sender-In_members :
    (db : Db) (p : SendParams)
    → IsAdmissible db p
    → In p.sender_id (get_member_user_ids db p.conversation_id)
unfolding get_member_user_ids
sender-In_members db p a =
    let passed =
      find_one-passes (member_is p.conversation_id p.sender_id) db.members a.membership
        a.is_member in
    subst
      (λ uid.
        In uid (map (λ (m : ConversationMember). m.user_id) (members_of db p.conversation_id)))
      (member_is-user _ _ a.membership passed)
      (In-map (λ m. m.user_id) _ a.membership
        (find_one-In_select _ _ db.members a.membership (λ x t. (&&-eq-true _ _ t).0) a.is_member))

-- Sending adds one message row and, for every member of the conversation in turn, an unopened
-- receipt without a countdown; the sender is one of them, and only the sender's receipt is read.
-- No other row of the two tables changes.
pub send_message-receipts :
    (env : Env) (uuid : ℕ → Uuid) (db : Db) (now : Date) (p : SendParams) (d : Done Message)
    → send_message env uuid db now p ≡ ok d
    → (rows : List MessageReceipt) × (d.db.messages ≡ db.messages ++ d.value ∷ [])
      × (d.db.receipts ≡ db.receipts ++ rows)
      × (map (λ r. r.user_id) rows ≡ get_member_user_ids db p.conversation_id)
      × All (IsFreshReceipt d.value now) rows
      × In p.sender_id (get_member_user_ids db p.conversation_id)
unfolding commit_send get_member_user_ids
send_message-receipts env uuid db now p d h =
    let (a, e) = send_message-eq-ok env uuid db now p d h in
    (
      new_receipts uuid 0 d.value now (members_of db p.conversation_id),
      rw e refl,
      rw e refl,
      map-new_receipts uuid 0 d.value now _,
      new_receipts-IsFreshReceipt uuid 0 d.value now _,
      sender-In_members db p a,
    )
