-- ===== src/Push.antt =====
-- src/modules/push/push.service.ts: whom a new message is pushed to, and what the notification
-- shows. `enabled` tells whether the provider is configured; the result is its call, if there is
-- one.
pub mod Rules
mod Tests
use fenxin.Prelude.{
  ℕ, ◌==◌, Bool, true, false, not, ◌&&◌, Option, none, some, List, [], ◌∷◌, ◌++◌, take, has, map,
  if◌then◌else◌, is_some, find_one, select_where, get_or, exists_where,
}
use fenxin.Entities.{
  Uuid, Text, MessageType, text, image, voice, video, file, Message, Conversation, AppUser, Device,
  Db, conversation_is, user_is,
}

pub record Notice : Type 0 where
  pub title : Text
  pub alert : Text

-- The arguments of `pushToUsers`.
pub record Push : Type 0 where
  pub user_ids : List Uuid
  pub notice : Notice
  pub conversation_id : Uuid
  pub message_id : Uuid
  pub type : MessageType

-- `name || other`
abbrev pub text_or : Option Text → Text → Text
text_or none d = d
text_or (some []) d = d
text_or (some (c ∷ s)) d = c ∷ s

abbrev pub conversation_name : Option Conversation → Option Text
conversation_name none = none
conversation_name (some c) = c.name

abbrev pub sender_name : Option AppUser → Option Text
sender_name none = none
sender_name (some u) = some u.display_name

-- '焚信', '对方', '：'
abbrev app_name : Text
app_name = 0x711a ∷ 0x4fe1 ∷ []

abbrev other_party : Text
other_party = 0x5bf9 ∷ 0x65b9 ∷ []

abbrev colon : Text
colon = 0xff1a ∷ []

-- '你有一条阅后即焚消息'
abbrev pub burn_alert : Text
burn_alert =
    0x4f60 ∷ 0x6709 ∷ 0x4e00 ∷ 0x6761 ∷ 0x9605 ∷ 0x540e ∷ 0x5373 ∷ 0x711a ∷ 0x6d88 ∷ 0x606f ∷ []

-- '你有一条加密消息'
abbrev pub cipher_alert : Text
cipher_alert = 0x4f60 ∷ 0x6709 ∷ 0x4e00 ∷ 0x6761 ∷ 0x52a0 ∷ 0x5bc6 ∷ 0x6d88 ∷ 0x606f ∷ []

abbrev pub snippet : ℕ
snippet = 30

-- '[图片] ', '[语音] ', '[视频] ', '[文件] ', or the name and the start of the text.
unfoldable pub plain_alert : MessageType → Text → Option Text → Text
plain_alert image name content = b'[' ∷ 0x56fe ∷ 0x7247 ∷ b']' ∷ b' ' ∷ name
plain_alert voice name content = b'[' ∷ 0x8bed ∷ 0x97f3 ∷ b']' ∷ b' ' ∷ name
plain_alert video name content = b'[' ∷ 0x89c6 ∷ 0x9891 ∷ b']' ∷ b' ' ∷ name
plain_alert file name content = b'[' ∷ 0x6587 ∷ 0x4ef6 ∷ b']' ∷ b' ' ∷ name
plain_alert text name content = name ++ colon ++ take snippet (get_or content [])

unfoldable pub build_content : Db → Message → Notice
unfolding find_one plain_alert
build_content db message =
    let sender = sender_name (find_one (user_is message.sender_id) db.users) in
    record {
      title =
          text_or
            (conversation_name
              (find_one (conversation_is message.conversation_id) db.conversations))
            (text_or sender app_name);
      alert =
          if is_some message.burn_ttl_seconds
          then burn_alert
          else if message.is_encrypted
          then cipher_alert
          else plain_alert message.type (text_or sender other_party) message.content;
    }

abbrev pub is_online_device : List Uuid → Device → Bool
is_online_device user_ids d = has d.user_id user_ids && d.is_online

-- The users without a device that is online.
unfoldable pub pick_offline : Db → List Uuid → List Uuid
unfolding has select_where
pick_offline db user_ids =
    let online =
      map (λ (d : Device). d.user_id) (select_where (is_online_device user_ids) db.devices) in
    select_where (λ id. not (has id online)) user_ids

abbrev pub push_to : Message → Notice → List Uuid → Option Push
push_to message notice [] = none
push_to message notice (id ∷ ids) = some (record {
  user_ids = id ∷ ids;
  notice = notice;
  conversation_id = message.conversation_id;
  message_id = message.id;
  type = message.type;
})

-- An empty list of candidates has no user that is offline.
unfoldable pub notify_new_message : Bool → Db → Message → List Uuid → Uuid → Option Push
unfolding select_where pick_offline build_content
notify_new_message enabled db message member_ids sender_id =
    if enabled
    then push_to message (build_content db message)
        (pick_offline db (select_where (λ id. not (id == sender_id)) member_ids))
    else none
