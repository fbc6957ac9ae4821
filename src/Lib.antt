-- ===== src/Lib.antt =====
-- fenxin, a chat server with burn-after-reading messages: its message, destruction, conversation,
-- account and session services, and the theorems that make them correct.
--
-- The parts. A message is posted (src/modules/message/message.controller.ts): without a ttl of its
-- own it takes the one that its sender has set for the partner or the conversation
-- (src/modules/burn-setting/burn-setting.service.ts), and `sendMessage`
-- (src/modules/message/message.service.ts) stores a row with one receipt for each member of the
-- conversation and notifies the members that are offline (src/modules/push/push.service.ts). A burn
-- message is shown blurred until a member opens it (`revealMessage`), which starts that member's
-- countdown in the receipt; media may be consumed early (`consumeMessage`). Stage one of
-- destruction, every minute, marks messages whose time is up
-- (src/modules/message/burn.scheduler.ts). Stage two deletes marked messages for good once enough
-- members acknowledge, or after days (src/modules/message/destroy.service.ts). Groups
-- (src/modules/group/group.service.ts), channels (src/modules/channel/channel.service.ts) and
-- private conversations (src/modules/conversation/conversation.service.ts) decide who is a member;
-- the dissolution of a group or channel closes `sendMessage`, and the owner's also makes all its
-- messages expire, which the scheduler then marks. A request is admitted by the guard
-- (src/common/guards/jwt-auth.guard.ts), from a cache (src/common/cache/auth-cache.service.ts) or
-- from the rows of the account and the device; login (src/modules/auth/auth.service.ts) and the
-- administration of accounts (src/modules/account/account.service.ts) change those rows and
-- invalidate the cache. Connections, heartbeats and a sweep tell which devices are online
-- (src/modules/events/events.gateway.ts, src/modules/auth/presence.scheduler.ts).
--
-- The parts share the database, the record `Db` of src/entities, and the sessions also the cache.
--
-- The files:
--   Entities       src/entities/*.entity.ts: one record for each table, and `Db`
--   Result         HTTP errors, the events of src/modules/events/events.types.ts, effects, outcomes
--   Env            the environment variables, with JavaScript's `parseInt`
--   Burn           burnMediaWindowSeconds, isMediaBurnMsg, normalizeBurnTtl, effectiveRemainSeconds
--   View           maskBurnMessage, applyBurnView, tombstoneOf
--   Send           assertMember, getMemberUserIds, sendMessage
--   Reveal         revealMessage
--   Consume        consumeMessage
--   Edit           editMessage, recallMessage, updateOriginalFile
--   Read           markAsRead, markMessagesRead, advanceLastRead, getMessageReceipts
--   History        listMessages, attachTombstones
--   Scheduler      markDestroyed, markBatch
--   Destroy        listPending, ack, meetsPurgePolicy, purge; Destroy/Sweep
--                  purgeConfirmedOrExpired; Destroy/Attachments deleteAttachments
--   BurnSettings   the writes of BurnSettingService; BurnSettings/Resolve what the settings give,
--                  and `send` of the message controller
--   Push           notifyNewMessage, pickOffline, buildContent
--   Group          getMembership, assertOwner; Group/Members createGroup, addMembers,
--                  removeMember, updateGroupInfo; Group/Ownership the dissolutions,
--                  transferOwnership and dissolveGroupsOnAccountDelete; Group/Listing
--                  getGroupMembers, adminListGroups
--   Channel        every method of ChannelService; Channel/Discover its listing
--   Conversations  ConversationService and ContactService
--   AuthCache      AuthCacheService
--   Guard          JwtAuthGuard and RolesGuard
--   Auth           TokenService and AuthService; Auth/Login the login, Auth/Policy its session policy
--   Account        AccountService, Account/Listing its listings, and forceOfflineDevice of
--                  src/modules/admin/admin-message.service.ts
--   Sessions       the operations on accounts and devices, forced logouts included, as the steps of
--                  one relation on the database and the cache; Sessions/Deleted follows a deleted
--                  account through them
--   Presence       handleConnection, handleDisconnect, sweepOffline
--   Lifecycle      the operations on messages and groups, and the scheduled runs, as the steps of
--                  one relation on the database; Lifecycle/Death follows a message through them
--   Prelude        Boolean tests, lists, and SQL tables as lists with their laws
--   Fixtures       rows that the tests share; the Tests files run the handlers on them
--
-- How state is modelled. A handler is one function from the database, the present and its arguments
-- to an outcome: an error, or a value with the new database and the effects in their order. Almost
-- every throw of a handler stands before its first write or inside a transaction, so an error keeps
-- the database; where it does not (`create_group`, `create_channel`, `create_private` and others
-- that return an `Attempt`), the result also holds what a failure leaves. The handlers of sessions
-- go from a `Server`, the database with the cache, to a `Response`, which holds the server after an
-- error too. Effects are the calls of the gateway, the push service, the object store, the file
-- system and the audit log. A handler is one atomic step: interleavings inside a handler are not
-- modelled. In particular the guard reads the rows and fills the cache in one step, so an
-- invalidation between the two is not considered. How the `try` block of each group ends in
-- dissolveGroupsOnAccountDelete is an argument, `run`: completed, rolled back, or committed with a
-- failure behind it.
--
-- Conventions. Ids are numbers, since the code only compares them; the ids of new rows are the
-- parameters `uuid`. Dates are milliseconds, and a handler reads the present once; MySQL's rounding
-- of dates is not modelled, nor is `updated_at` but in the burn settings, which are listed by it.
-- Texts are lists of UTF-16 code units. A JavaScript number is NaN, an infinity, or a dyadic
-- fraction, where a request may send any; where the dto admits integers only, it is a natural
-- number. Rows of equal sort keys keep the order of insertion, which SQL leaves open. `findOne` by
-- a key returns the first row; theorems that need unique keys say so. MySQL's LIKE and its order of
-- texts, the JWT library and Argon2 are parameters. No function runs on fuel: all loops are over
-- lists.
--
-- Not modelled: the search (MySQL full-text queries), the administration's SQL reports, the
-- listings of presence.service.ts, keys, announcements, app versions, feedback and statistics,
-- which put rows in and out; the parsing of spreadsheets, uploads and the HTTP calls of the push
-- provider, which are calls of libraries; controllers but for `send`, validation, migrations and
-- start-up, which are glue.
pub mod Prelude
pub mod Entities
pub mod Result
pub mod Env
pub mod Account
pub mod Auth
pub mod AuthCache
pub mod Burn
pub mod BurnSettings
pub mod Channel
pub mod View
pub mod Fixtures
pub mod Send
pub mod Sessions
pub mod Reveal
pub mod Consume
pub mod Edit
pub mod Scheduler
pub mod Conversations
pub mod Destroy
pub mod Read
pub mod Group
pub mod Guard
pub mod History
pub mod Lifecycle
pub mod Presence
pub mod Push
