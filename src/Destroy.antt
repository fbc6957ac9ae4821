-- ===== src/Destroy.antt =====
-- src/modules/message/destroy.service.ts, stage two: a destroyed message is deleted for good when
-- enough members have acknowledged it, or when nobody has for long.
pub mod Attachments
pub mod Purge
pub mod Sweep
pub mod Safety
mod Tests
use fenxin.Prelude.{
  ℕ, ◌+◌, ◌-◌, ◌*◌, ◌≡◌, Bool, true, false, not, ◌&&◌, ◌||◌, Option, none, some, List, [], ◌∷◌,
  ◌++◌, map, length, take, leb, ltb, ◌==◌, if◌then◌else◌, get_or, is_some, distinct, ℤ, pos, negsuc,
  find_one, select_where, update_where, delete_where, exists_where, count_where, order_by,
  upsert_where,
}
use fenxin.Entities.{
  present, Uuid, Date, Text, is_truthy, DestroyReason, manual, Message, MessageReceipt,
  MessageTombstone, MessageDestroyAck, Conversation, ConversationType, ConversationMember, Db,
  is_private, message_is, conversation_is, member_is,
}
use fenxin.Result.{
  Result, ok, err, bad_request, conversation_missing, not_destroyed, ◌>>=◌, ◌>>◌, reject, or_throw,
  Effect, Done, Outcome,
}
use fenxin.Env.{Env, ack_threshold, ack_fallback_days}
use fenxin.Send.{assert_member}
use Attachments.{delete_attachments}

abbrev pub ack_of : Uuid → MessageDestroyAck → Bool
ack_of message_id a = a.message_id == message_id

abbrev pub ack_is : Uuid → Uuid → MessageDestroyAck → Bool
ack_is message_id user_id a = a.message_id == message_id && a.user_id == user_id

-- One entry of `listPending`.
pub record Pending : Type 0 where
  pub message_id : Uuid
  pub destroy_reason : Option DestroyReason
  pub destroyed_at : Option Date
  pub has_attachment : Bool

-- `ORDER BY destroyed_at ASC`: null comes first.
abbrev pub destroyed_before : Option Date → Option Date → Bool
destroyed_before none d = true
destroyed_before (some c) none = false
destroyed_before (some c) (some d) = leb c d

-- Destroyed messages of the conversation that the user has not acknowledged.
unfoldable pub is_pending : Db → Uuid → Uuid → Message → Bool
unfolding exists_where
is_pending db conversation_id user_id m =
    m.conversation_id == conversation_id
    && m.is_destroyed
    && not (exists_where (ack_is m.id user_id) db.acks)

unfoldable pub to_pending : Message → Pending
to_pending m = record {
  message_id = m.id;
  destroy_reason = m.destroy_reason;
  destroyed_at = m.destroyed_at;
  has_attachment = is_truthy m.file_url || is_truthy m.file_original_url;
}

unfoldable pub list_pending : Db → Uuid → Uuid → Result (List Pending)
unfolding is_pending to_pending assert_member order_by select_where
list_pending db conversation_id user_id = do
  membership ← assert_member db conversation_id user_id
  ok (
      map to_pending (
        take 500 (
          order_by (λ x y. destroyed_before x.destroyed_at y.destroyed_at)
            (select_where (is_pending db conversation_id user_id) db.messages))))

unfoldable pub tombstone_row : Date → Message → MessageTombstone
tombstone_row now m = record {
  id = m.id;
  conversation_id = m.conversation_id;
  sender_id = m.sender_id;
  type = m.type;
  created_at = m.created_at;
  destroyed_at = get_or m.destroyed_at now;
  destroy_reason = get_or m.destroy_reason manual;
}

abbrev pub replies_to : Uuid → Message → Bool
replies_to id m = elim m.reply_to_id [ none ↦ false | some r ↦ r == id ]

-- The transaction of `purge`.
unfoldable pub purge_rows : Db → Date → Message → Db
unfolding tombstone_row upsert_where delete_where update_where
purge_rows db now m = record db {
  tombstones =
      upsert_where (λ (t : MessageTombstone). t.id == m.id) (tombstone_row now m) db.tombstones;
  acks = delete_where (ack_of m.id) db.acks;
  receipts = delete_where (λ (r : MessageReceipt). r.message_id == m.id) db.receipts;
  messages =
      delete_where (message_is m.id)
        (update_where (replies_to m.id) (λ x. record x { reply_to_id = none }) db.messages);
}

abbrev pub purge_found : Db → Date → Option Message → Done Bool
purge_found db now none = record { value = false; db = db; effects = [] }
purge_found db now (some m) =
    if m.is_destroyed
    then record { value = true; db = purge_rows db now m; effects = delete_attachments m }
    else record { value = false; db = db; effects = [] }

-- The one place that deletes message rows.
unfoldable pub purge : Db → Date → Uuid → Done Bool
unfolding purge_rows find_one
purge db now message_id = purge_found db now (find_one (message_is message_id) db.messages)

-- The members who did not send the message.
unfoldable pub readers_needed : Db → Uuid → Message → ℕ
unfolding count_where
readers_needed db conversation_id m =
    count_where
      (λ (cm : ConversationMember).
        cm.conversation_id == conversation_id && not (cm.user_id == m.sender_id))
      db.members

abbrev pub all_acked : Db → Uuid → ℕ → Option Message → Bool
all_acked db conversation_id ack_count none = true
all_acked db conversation_id ack_count (some m) =
    ltb 0 (readers_needed db conversation_id m)
    && leb (readers_needed db conversation_id m) ack_count

-- Private: one acknowledgement. Otherwise: the threshold, or everybody if it is 0.
unfoldable pub meets_purge_policy : Env → Db → Uuid → ConversationType → Uuid → Bool
unfolding readers_needed count_where find_one
meets_purge_policy env db conversation_id type message_id =
    let ack_count = count_where (ack_of message_id) db.acks in
    if is_private type
    then leb 1 ack_count
    else if leb 1 (ack_threshold env)
    then leb (ack_threshold env) ack_count
    else all_acked db conversation_id ack_count (find_one (message_is message_id) db.messages)

-- `msgMap`: the requested messages of the conversation.
abbrev pub message_in : Uuid → Uuid → Message → Bool
message_in conversation_id id m = m.id == id && m.conversation_id == conversation_id

unfoldable pub known_ids : Db → Uuid → List Uuid → List Uuid
unfolding exists_where select_where
known_ids db conversation_id ids =
    select_where (λ id. exists_where (message_in conversation_id id) db.messages) ids

-- One of the requested messages is not destroyed.
unfoldable pub has_live : Db → Uuid → List Uuid → Bool
unfolding exists_where
has_live db conversation_id ids =
    exists_where
      (λ id. exists_where (λ m. message_in conversation_id id m && not m.is_destroyed) db.messages)
      ids

unfoldable pub record_acks :
    Date → Uuid → Option Uuid → List Uuid → List MessageDestroyAck → List MessageDestroyAck
unfolding upsert_where
record_acks now user_id device_id [] acks = acks
record_acks now user_id device_id (id ∷ ids) acks = record_acks now user_id device_id ids (
    upsert_where (ack_is id user_id)
      (record { message_id = id; user_id = user_id; device_id = device_id; acked_at = now }) acks)

abbrev pub purge_if : Bool → Db → Date → Uuid → Done Bool
purge_if test db now id =
    if test then purge db now id else record { value = false; db = db; effects = [] }

-- Purges, one after another, of the messages for which the policy holds at their turn.
unfoldable pub purge_loop : Env → Date → Uuid → ConversationType → List Uuid → Db → Done (List Uuid)
unfolding purge meets_purge_policy
purge_loop env now conversation_id type [] db = record { value = []; db = db; effects = [] }
purge_loop env now conversation_id type (id ∷ ids) db =
    let done = purge_if (meets_purge_policy env db conversation_id type id) db now id in
    let rest = purge_loop env now conversation_id type ids done.db in
    record {
      value = if done.value then id ∷ rest.value else rest.value;
      db = rest.db;
      effects = done.effects ++ rest.effects;
    }

pub record AckResult : Type 0 where
  pub acked : ℕ
  pub purged : ℕ
  pub purged_ids : List Uuid

-- The acknowledgements are stored, then the policy decides on each message.
unfoldable pub commit_ack :
    Env → Db → Date → Uuid → Uuid → Option Uuid → ConversationType → List Uuid → Done AckResult
unfolding known_ids record_acks purge_loop
commit_ack env db now conversation_id user_id device_id type ids =
    let known = known_ids db conversation_id ids in
    let acked = record db { acks = record_acks now user_id device_id known db.acks } in
    let purged = purge_loop env now conversation_id type known acked in
    record {
      value = record {
        acked = length known;
        purged = length purged.value;
        purged_ids = purged.value;
      };
      db = purged.db;
      effects = purged.effects;
    }

-- The rest of `ack`, on the distinct ids; an empty request is answered at once.
unfoldable pub ack_ids : Env → Db → Date → Uuid → Uuid → Option Uuid → List Uuid → Outcome AckResult
unfolding commit_ack has_live find_one
ack_ids env db now conversation_id user_id device_id [] =
    ok (record { value = record { acked = 0; purged = 0; purged_ids = [] }; db = db; effects = [] })
ack_ids env db now conversation_id user_id device_id (id ∷ ids) = do
  conv ←
      or_throw (find_one (conversation_is conversation_id) db.conversations)
        (bad_request conversation_missing)
  reject (has_live db conversation_id (id ∷ ids)) (bad_request not_destroyed)
  ok (commit_ack env db now conversation_id user_id device_id conv.type (id ∷ ids))

unfoldable pub ack :
    Env → Db → Date → Uuid → Uuid → Option Uuid → List (Option Uuid) → Outcome AckResult
unfolding assert_member ack_ids distinct present
ack env db now conversation_id user_id device_id message_ids = do
  membership ← assert_member db conversation_id user_id
  ack_ids env db now conversation_id user_id device_id (distinct (present message_ids))
