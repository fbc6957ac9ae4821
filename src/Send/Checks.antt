-- ===== src/Send/Checks.antt =====
-- Who may send what: the checks of `sendMessage` as one condition.
use fenxin.Prelude.{
  ◌≡◌, ◌↔◌, ◌⊎◌, ◌≢◌, Bool, true, false, not, ◌&&◌, none, some, List, arith, find_one,
}
use fenxin.Entities.{
  Db, is_truthy, is_text, is_channel_type, is_owner, channel, owner, Conversation,
  ConversationMember, conversation_is, member_is, MessageType, text, ConversationType, MemberRole,
}
use fenxin.Result.{ok, or_throw, >>=-eq-ok, or_throw-eq-ok}
use fenxin.Send.{SendParams, assert_member, members_of, is_encrypted, has_cipher_field, check_send}

-- The sender is a member of a conversation that exists and is not dissolved, and its owner if it
-- is a channel; the cipher fields are all set or all empty; a plain text has a content and any
-- other message a file.
pub record IsAdmissible (db : Db) (p : SendParams) : Type 0 where
  pub membership : ConversationMember
  pub conversation : Conversation
  pub is_member : find_one (member_is p.conversation_id p.sender_id) db.members ≡ some membership
  pub exists : find_one (conversation_is p.conversation_id) db.conversations ≡ some conversation
  pub undissolved : conversation.dissolved_at ≡ none
  pub broadcast : conversation.type ≡ channel → membership.role ≡ owner
  pub whole_cipher : (is_encrypted p ≡ true) ⊎ (has_cipher_field p ≡ false)
  pub has_content : p.type ≡ text → is_encrypted p ≡ false → is_truthy p.content ≡ true
  pub has_file : p.type ≢ text → is_truthy p.file_url ≡ true

pub check_send_sound :
    (db : Db) (p : SendParams) (ms : List ConversationMember)
    → check_send db p ≡ ok ms
    → IsAdmissible db p
unfolding check_send assert_member
check_send_sound db p ms h =
    let (m, e, h) =
      >>=-eq-ok (or_throw (find_one (member_is p.conversation_id p.sender_id) db.members) _) _ h in
    let (c, f, h) =
      >>=-eq-ok (or_throw (find_one (conversation_is p.conversation_id) db.conversations) _) _ h in
    record {
      membership = m;
      conversation = c;
      is_member = or_throw-eq-ok _ _ e;
      exists = or_throw-eq-ok _ _ f;
      undissolved = ground arith;
      broadcast = λ t. ground arith;
      whole_cipher = ground arith;
      has_content = λ t u. ground arith;
      has_file = λ t. ground arith;
    }

broadcast-eq-false :
    (t : ConversationType) (r : MemberRole)
    → (t ≡ channel → r ≡ owner)
    → (is_channel_type t && not (is_owner r)) ≡ false
broadcast-eq-false t r h = ground (arith, h)

content-eq-false :
    (t : MessageType) (c e : Bool)
    → (t ≡ text → e ≡ false → c ≡ true)
    → (is_text t && not c && not e) ≡ false
content-eq-false t c e h = ground (arith, h)

file-eq-false :
    (t : MessageType) (f : Bool) → (t ≢ text → f ≡ true) → (not (is_text t) && not f) ≡ false
file-eq-false t f h = ground (arith, h)

check_send_complete :
    (db : Db) (p : SendParams)
    → IsAdmissible db p
    → check_send db p ≡ ok (members_of db p.conversation_id)
unfolding check_send assert_member
check_send_complete db p a = ground (
  arith,
  broadcast-eq-false a.conversation.type a.membership.role a.broadcast,
  content-eq-false p.type (is_truthy p.content) (is_encrypted p) a.has_content,
  file-eq-false p.type (is_truthy p.file_url) a.has_file,
)

-- A message is accepted exactly if its sender is a member of a conversation that is stored and not
-- dissolved, and its owner if that is a channel, if all three cipher fields are set or none, if a
-- text has content or is encrypted, and if anything else has a file; then all members of the
-- conversation are returned as its recipients.
pub check_send_iff :
    (db : Db) (p : SendParams)
    → (check_send db p ≡ ok (members_of db p.conversation_id)) ↔ IsAdmissible db p
check_send_iff db p = (check_send_sound db p _, check_send_complete db p)

pub check_send-members :
    (db : Db) (p : SendParams) {ms : List ConversationMember}
    → check_send db p ≡ ok ms
    → ms ≡ members_of db p.conversation_id
check_send-members db p {ms} h =
    ground (arith, check_send_complete db p (check_send_sound db p ms h))
