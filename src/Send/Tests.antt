-- ===== src/Send/Tests.antt =====
-- A private conversation of two users; one of them sends a text that burns after ten seconds.
use fenxin.Prelude.{ℕ, ◌+◌, ◌≡◌, refl, false, none, some, [], ◌∷◌, find_one, select_where}
use fenxin.Entities.{Uuid, text, Message}
use fenxin.Result.{
  ok, Done, MessageView, message_new, conversation_updated, by_message, emit, push_new_message,
}
use fenxin.Fixtures.{default_env, chat_member, chat_db}
use fenxin.Burn.{finite}
use fenxin.Send.{SendParams, send_message, commit_send, get_member_user_ids}
use fenxin.Send.Stored.{IsSafePush, send_message-IsSafePush}

abbrev burning : SendParams
burning = record {
  conversation_id = 50;
  sender_id = 1;
  type = text;
  content = some (b'h' ∷ b'i' ∷ []);
  file_url = none;
  file_name = none;
  file_size = none;
  media_duration_seconds = none;
  file_original_url = none;
  reply_to_id = none;
  burn_ttl_seconds = some (finite false 10 0);
  destroy_at = none;
  sender_ephemeral_pubkey = none;
  cipher_nonce = none;
  cipher_text = none;
  mentions = some (2 ∷ 9 ∷ 2 ∷ []);
}

abbrev ids : ℕ → Uuid
ids i = 100 + i

abbrev sent : Done Message
sent = commit_send default_env ids chat_db 1000 burning (chat_member 1 ∷ chat_member 2 ∷ [])

accepted : send_message default_env ids chat_db 1000 burning ≡ ok sent
unfolding send_message find_one select_where
accepted = refl

send_message-IsSafePush_example :
    (v : MessageView) × (sent.effects
      ≡ emit (get_member_user_ids chat_db 50) (message_new 50 v)
        ∷ emit (get_member_user_ids chat_db 50) (conversation_updated 50 by_message)
        ∷ push_new_message sent.value (get_member_user_ids chat_db 50) 1
        ∷ [])
    × IsSafePush sent.value v
send_message-IsSafePush_example =
    send_message-IsSafePush default_env ids chat_db 1000 burning sent accepted
