-- ===== src/Channel/Tests.antt =====
-- A channel of user 1: its creation, a subscription of user 2, the listing and the dissolution.
use fenxin.Prelude.{
  ◌≤◌, ◌≡◌, false, ◌≢◌, refl, inl, arith, true, none, [], ◌∷◌, length, In, IsOrdered, find_one,
  exists_where, count_where, select_where, has,
}
use fenxin.Entities.{Uuid, Message, Conversation, Db, member_is}
use fenxin.Result.{ok, err, not_found, conflict, channel_missing, channel_exists, Done}
use fenxin.Fixtures.{default_env, chat_db, reply_row, note_to, ids_from, account}
use fenxin.Send.{send_message}
use fenxin.Group.{get_membership}
use fenxin.Channel.{
  ChannelProfile, ChannelParams, create_channel, is_channel_of, Subscription, subscribe,
  unsubscribe, dissolve_channel, get_channel, get_my_channel, new_channel,
}
use fenxin.Channel.Owned.{IsChannel, create_channel-IsChannel}
use fenxin.Channel.Members.{subscribe-unsubscribe, subscribe-IsChannel}
use fenxin.Channel.Single.{
  ChannelSteps, stay, then_call, creating, subscribing, dissolving, IsSingle, ChannelSteps-IsSingle,
}
use fenxin.Group.Dissolved.{is_spared, undated}
use fenxin.Channel.Dissolved.{dissolve_channel-burns}
use fenxin.Channel.Discover.{
  ChannelCard, is_discoverable, is_popular, channel_card, list_discover, list_discover_sound,
}

abbrev space : ChannelParams
space = record { name = b'S' ∷ []; description = none; avatar_url = none; owner_id = 1 }

abbrev base : Db
base = record chat_db { users = account 1 ∷ account 2 ∷ [] }

created : (d : Done ChannelProfile) × ((create_channel 70 base 1000 space).outcome ≡ ok d)
unfolding create_channel find_one exists_where
created = (_, refl)

created-IsChannel : IsChannel created.0.db 70 1
unfolding exists_where
created-IsChannel = create_channel-IsChannel 70 base 1000 space created.0 refl refl created.1

refused_again : (create_channel 71 created.0.db 1100 space).outcome ≡ err (conflict channel_exists)
unfolding created create_channel find_one exists_where
refused_again = refl

joined : (d : Done Subscription) × (subscribe created.0.db 2000 70 2 ≡ ok d)
unfolding created create_channel subscribe find_one exists_where
joined = (_, refl)

joined-IsChannel :
    (exists_where (member_is 70 2) joined.0.db.members ≡ true) × IsChannel joined.0.db 70 1
joined-IsChannel = subscribe-IsChannel created.0.db 2000 70 1 2 joined.0 created-IsChannel joined.1

left : (d : Done Subscription) × (unsubscribe joined.0.db 70 2 ≡ ok d)
unfolding created create_channel joined subscribe unsubscribe find_one exists_where
left = (_, refl)

subscribe-unsubscribe_example :
    (d e : Done Subscription) × (subscribe created.0.db 2000 70 2 ≡ ok d)
    × (unsubscribe d.db 70 2 ≡ ok e)
    × (e.db ≡ created.0.db)
unfolding created create_channel find_one exists_where get_membership new_channel
subscribe-unsubscribe_example =
    subscribe-unsubscribe created.0.db 2000 70 2 (new_channel 70 1000 space) refl refl refl refl

none_yet : (u : Uuid) → count_where (is_channel_of u) base.conversations ≤ 1
unfolding count_where is_channel_of
none_yet u = omega arith

ended : (d : Done (Unit {0})) × (dissolve_channel joined.0.db 3000 70 1 ≡ ok d)
unfolding created create_channel joined subscribe dissolve_channel find_one exists_where
ended = (_, refl)

abbrev life : ChannelSteps base ended.0.db
life =
    then_call
      (then_call (then_call stay (creating 70 1000 space created.0 created.1))
        (subscribing 2000 70 2 joined.0 joined.1))
      (dissolving 3000 70 1 ended.0 ended.1)

ChannelSteps-IsSingle_example : IsSingle ended.0.db.conversations
ChannelSteps-IsSingle_example = ChannelSteps-IsSingle base ended.0.db life none_yet

abbrev channel_row : Message
channel_row = record reply_row { conversation_id = 70 }

abbrev with_post : Db
with_post = record created.0.db { messages = channel_row ∷ [] }

abbrev nothing_sent : Done Message
nothing_sent = record { value = channel_row; db = chat_db; effects = [] }

dissolved : (d : Done (Unit {0})) × (dissolve_channel with_post 3000 70 1 ≡ ok d)
unfolding created create_channel dissolve_channel find_one exists_where
dissolved = (_, refl)

with_post-IsSingle : IsSingle with_post.conversations
with_post-IsSingle =
    ChannelSteps-IsSingle base created.0.db
      (then_call stay (creating 70 1000 space created.0 created.1)) none_yet

dissolve_channel-burns_example :
    (get_channel dissolved.0.db 70 ≡ err (not_found channel_missing))
    × (get_my_channel dissolved.0.db 1 ≡ err (not_found channel_missing))
    × (send_message default_env ids_from dissolved.0.db 4000 (note_to 70) ≢ ok nothing_sent)
    × (exists_where (is_spared 70 4000) dissolved.0.db.messages ≡ false)
    × (undated dissolved.0.db.messages ≡ undated with_post.messages)
dissolve_channel-burns_example =
    dissolve_channel-burns with_post 3000 70 1 dissolved.0 4000 default_env ids_from (note_to 70)
      nothing_sent with_post-IsSingle dissolved.1 (omega arith) refl

shown : (card : ChannelCard) × ((list_discover joined.0.db 2 1 20).0 ≡ card ∷ [])
unfolding created create_channel joined subscribe list_discover find_one exists_where select_where
    has
shown = (_, refl)

list_discover_sound_example :
    (length (list_discover joined.0.db 2 1 20).0 ≤ 20)
    × IsOrdered is_popular (list_discover joined.0.db 2 1 20).0
    × (c : Conversation) × In c joined.0.db.conversations
    × (is_discoverable c ≡ true)
    × (shown.0 ≡ channel_card joined.0.db 2 (exists_where (member_is c.id 2) joined.0.db.members) c)
list_discover_sound_example = list_discover_sound joined.0.db 2 1 20 shown.0 (rw shown.1 (inl refl))
