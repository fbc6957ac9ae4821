-- ===== src/Reveal/Checks.antt =====
-- What a successful call of `revealMessage` has checked.
use fenxin.Prelude.{
  if◌then◌else◌, inl, inr, Option-cases, ℕ, ◌≡◌, true, false, Option, some, arith, find_one,
}
use fenxin.Entities.{
  Uuid, Date, is_nonzero, Message, ConversationMember, Db, message_is, member_is, receipt_of,
}
use fenxin.Result.{err, not_found, message_burned, ok, >>=-eq-ok, Done}
use fenxin.Env.{Env}
use fenxin.View.{is_due}
use fenxin.Send.{assert_member}
use fenxin.Reveal.{Revealed, empty_receipt, with_receipt, check_reveal, reveal_with, reveal_message}

-- A live burn message of a conversation of the user, which is neither recalled nor due.
pub record IsOpenable (db : Db) (now : Date) (message_id user_id : Uuid) (m : Message)
    : Type 0 where
  pub stored : find_one (message_is message_id) db.messages ≡ some m
  pub live : m.is_destroyed ≡ false
  pub membership : ConversationMember
  pub is_member : find_one (member_is m.conversation_id user_id) db.members ≡ some membership
  pub burns : is_nonzero m.burn_ttl_seconds ≡ true
  pub not_recalled : m.is_recalled ≡ false
  pub not_due : is_due m.destroy_at now ≡ false

pub check_reveal_sound :
    (db : Db) (now : Date) (message_id user_id : Uuid) (m : Message)
    → check_reveal db now message_id user_id ≡ ok m
    → IsOpenable db now message_id user_id m
unfolding check_reveal assert_member
check_reveal_sound db now message_id user_id m h =
    elim (Option-cases (find_one (member_is m.conversation_id user_id) db.members)) [
      | inl e ↦ absurd (ground arith)
      | inr (c, e) ↦ record {
        stored = ground arith;
        live = ground arith;
        membership = c;
        is_member = e;
        burns = ground arith;
        not_recalled = ground arith;
        not_due = ground arith;
      }
    ]

pub check_reveal_complete :
    (db : Db) (now : Date) (message_id user_id : Uuid) (m : Message)
    → IsOpenable db now message_id user_id m
    → check_reveal db now message_id user_id ≡ ok m
unfolding check_reveal assert_member
check_reveal_complete db now message_id user_id m a = ground arith

-- Opening succeeds exactly on an openable message, with the rest of the handler run on it.
pub reveal_message-eq-ok :
    (env : Env) (uuid : Uuid) (db : Db) (now : Date) (message_id user_id : Uuid) (n : Option ℕ)
    (d : Done Revealed)
    → reveal_message env uuid db now message_id user_id n ≡ ok d
    → (m : Message) × IsOpenable db now message_id user_id m
      × (let (r, db') =
            with_receipt
              (find_one (receipt_of message_id user_id) db.receipts)
              (empty_receipt uuid message_id user_id)
              db in
          reveal_with env db' now m r user_id n ≡ ok d)
unfolding reveal_message
reveal_message-eq-ok env uuid db now message_id user_id n d h =
    let (m, e, f) = >>=-eq-ok (check_reveal db now message_id user_id) _ h in
    (m, check_reveal_sound db now message_id user_id m e, f)

-- At any other time an openable message is opened or reported as burned, by its deadline.
pub check_reveal-later :
    (db : Db) (now later : Date) (message_id user_id : Uuid) (m : Message)
    → IsOpenable db now message_id user_id m
    → check_reveal db later message_id user_id
      ≡ (if is_due m.destroy_at later then err (not_found message_burned) else ok m)
unfolding check_reveal assert_member
check_reveal-later db now later message_id user_id m a = ground arith
