-- ===== src/Send/Stored.antt =====
-- The row that `sendMessage` stores: its burn deadline, what it holds of an encrypted message, its
-- mentions, and what is pushed to the members.
use fenxin.Prelude.{
  ℕ, zero, suc, ◌+◌, ◌*◌, ◌≤◌, ◌≡◌, refl, Bool, true, false, Option, none, some, List, [], ◌∷◌,
  arith, max, has, distinct, IsDistinct, distinct-IsDistinct, get_or, All, All-select,
  select-IsDistinct, if_cases,
}
use fenxin.Entities.{Uuid, Date, Message, Db, is_nonzero}
use fenxin.Result.{
  ok, >>=-eq-ok, MessageView, plain, blurred, message_new, emit, push_new_message,
  conversation_updated, by_message, Done,
}
use fenxin.Env.{Env, burn_fallback_ttl_ms}
use fenxin.Burn.Bounds.{IsTtl, IsTtlOrNone, normalize_burn_ttl-IsTtl}
use fenxin.View.Privacy.{HasNoContent, mask_burn_message-HasNoContent}
use fenxin.Send.{
  SendParams, is_encrypted, cipher_placeholder, members_of, get_member_user_ids, check_send,
  initial_deadline, valid_mentions, pushed_view, commit_send, send_message,
}
use fenxin.Send.Checks.{IsAdmissible, check_send_sound, check_send-members}

pub send_message-eq-ok :
    (env : Env) (uuid : ℕ → Uuid) (db : Db) (now : Date) (p : SendParams) (d : Done Message)
    → send_message env uuid db now p ≡ ok d
    → IsAdmissible db p × (d ≡ commit_send env uuid db now p (members_of db p.conversation_id))
unfolding send_message
send_message-eq-ok env uuid db now p d h =
    let (ms, e, f) = >>=-eq-ok (check_send db p) _ h in
    (check_send_sound db p ms e, cc (check_send-members db p e))

-- The burn settings of a stored row: none, or a ttl within the limits and a deadline that comes
-- neither before the ttl nor before the fallback has passed.
abbrev pub HasBurnClock : Env → Date → Option ℕ → Option Date → Type 0
HasBurnClock env now none deadline = deadline ≡ none
HasBurnClock env now (some t) deadline =
    IsTtl t
    × ((e : Date) × (deadline ≡ some e)
        × (now + t * 1000 ≤ e)
        × (now + burn_fallback_ttl_ms env ≤ e))

initial_deadline-HasBurnClock :
    (env : Env) (now : Date) (ttl : Option ℕ)
    → IsTtlOrNone ttl
    → HasBurnClock env now ttl (initial_deadline env now ttl)
unfolding initial_deadline
initial_deadline-HasBurnClock env now none h = refl
initial_deadline-HasBurnClock env now (some zero) h = absurd (omega arith)
initial_deadline-HasBurnClock env now (some (suc t)) h =
    (h, (now + max (burn_fallback_ttl_ms env) (suc t * 1000), refl, omega arith, omega arith))

pub send_message-HasBurnClock :
    (env : Env) (uuid : ℕ → Uuid) (db : Db) (now : Date) (p : SendParams) (d : Done Message)
    → send_message env uuid db now p ≡ ok d
    → HasBurnClock env now d.value.burn_ttl_seconds d.value.destroy_at
unfolding commit_send
send_message-HasBurnClock env uuid db now p d h =
    let (a, e) = send_message-eq-ok env uuid db now p d h in
    rw e (
      initial_deadline-HasBurnClock env now _
        (normalize_burn_ttl-IsTtl p.burn_ttl_seconds p.destroy_at now))

-- What a stored row holds of an encrypted message, and of any other.
abbrev pub KeepsSecret : SendParams → Bool → Message → Type 0
KeepsSecret p true m =
    (m.content ≡ some cipher_placeholder)
    × (m.is_encrypted ≡ true)
    × (m.cipher_text ≡ p.cipher_text)
    × (m.cipher_nonce ≡ p.cipher_nonce)
    × (m.sender_ephemeral_pubkey ≡ p.sender_ephemeral_pubkey)
KeepsSecret p false m =
    (m.content ≡ p.content)
    × (m.is_encrypted ≡ false)
    × (m.cipher_text ≡ none)
    × (m.cipher_nonce ≡ none)
    × (m.sender_ephemeral_pubkey ≡ none)

-- The mentions of a stored message are uids of members, and each stands once.
pub send_message-mentions :
    (env : Env) (uuid : ℕ → Uuid) (db : Db) (now : Date) (p : SendParams) (d : Done Message)
    → send_message env uuid db now p ≡ ok d
    → (uids : List Uuid) × (d.value.mentions ≡ some uids)
      × All (λ uid. has uid (get_member_user_ids db p.conversation_id) ≡ true) uids
      × IsDistinct uids
unfolding commit_send get_member_user_ids
send_message-mentions env uuid db now p d h =
    let (a, e) = send_message-eq-ok env uuid db now p d h in
    (
      valid_mentions p (members_of db p.conversation_id),
      rw e refl,
      All-select _ _ (distinct (get_or p.mentions [])) (λ uid t. t),
      select-IsDistinct _ (distinct (get_or p.mentions [])) (distinct-IsDistinct _),
    )

-- What the members' devices are sent of a new message.
abbrev pub IsSafePush : Message → MessageView → Type 0
IsSafePush m (blurred v) = HasNoContent v × (is_nonzero m.burn_ttl_seconds ≡ true)
IsSafePush m (plain v) = (v ≡ m) × (m.burn_ttl_seconds ≡ none)
IsSafePush m _ = ⊥

-- A stored ttl is never 0.
HasBurnClock-nonzero :
    (env : Env) (now : Date) (ttl : Option ℕ) (deadline : Option Date)
    → HasBurnClock env now ttl deadline
    → is_nonzero ttl ≡ false
    → ttl ≡ none
HasBurnClock-nonzero env now none deadline h e = refl
HasBurnClock-nonzero env now (some zero) deadline h e = absurd (omega arith)
HasBurnClock-nonzero env now (some (suc t)) deadline h e = cc

pushed_view-IsSafePush :
    (m : Message)
    → (is_nonzero m.burn_ttl_seconds ≡ false → m.burn_ttl_seconds ≡ none)
    → IsSafePush m (pushed_view m)
unfolding pushed_view
pushed_view-IsSafePush m h =
    if_cases (IsSafePush m) (is_nonzero m.burn_ttl_seconds) _ _
      (λ e. (mask_burn_message-HasNoContent m, e)) (λ e. (refl, h e))

-- The members of the conversation, and nobody else, are sent the new message: a burn message
-- without any content field, any other as it is stored.
pub send_message-IsSafePush :
    (env : Env) (uuid : ℕ → Uuid) (db : Db) (now : Date) (p : SendParams) (d : Done Message)
    → send_message env uuid db now p ≡ ok d
    → (v : MessageView) × (d.effects
        ≡ emit (get_member_user_ids db p.conversation_id) (message_new p.conversation_id v)
          ∷ emit
              (get_member_user_ids db p.conversation_id)
              (conversation_updated p.conversation_id by_message)
          ∷ push_new_message d.value (get_member_user_ids db p.conversation_id) p.sender_id
          ∷ [])
      × IsSafePush d.value v
unfolding commit_send get_member_user_ids
send_message-IsSafePush env uuid db now p d h =
    let (a, e) = send_message-eq-ok env uuid db now p d h in
    (
      pushed_view d.value,
      rw e refl,
      pushed_view-IsSafePush d.value
          (HasBurnClock-nonzero env now _ _ (send_message-HasBurnClock env uuid db now p d h)),
    )
