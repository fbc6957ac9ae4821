-- ===== src/Destroy/Tests.antt =====
-- User 2 acknowledges the destroyed message of the fixtures' chat.
use fenxin.Prelude.{
  ◌≡◌, refl, ◌⊎◌, true, false, none, some, [], ◌∷◌, has, find_one, exists_where, select_where,
  count_where,
}
use fenxin.Entities.{Message, message_is, private}
use fenxin.Result.{ok, unlink, Done}
use fenxin.Fixtures.{default_env, destroyed_db, reply_row}
use fenxin.Destroy.{purge, ack, commit_ack, AckResult}
use fenxin.Destroy.Attachments.{delete_attachments, basename}
use fenxin.Destroy.Purge.{HasPurged, purge_iff}
use fenxin.Destroy.Sweep.{purge_confirmed_or_expired}
use fenxin.Destroy.Safety.{IsKept, ack-IsKept, purge_confirmed_or_expired-IsKept}

-- "/u/a/" has the base name "a", and "/" none.
base : basename (b'/' ∷ b'u' ∷ b'/' ∷ b'a' ∷ b'/' ∷ []) ≡ b'a' ∷ []
unfolding basename
base = refl

root : basename (b'/' ∷ []) ≡ []
unfolding basename
root = refl

files : (purge destroyed_db 70000 7).effects ≡ unlink (b'a' ∷ []) ∷ []
unfolding purge find_one delete_attachments
files = refl

purge_iff_example :
    ((m : Message) × (find_one (message_is 7) destroyed_db.messages ≡ some m)
      × (m.is_destroyed ≡ true)
      × HasPurged 7 70000 m (purge destroyed_db 70000 7))
    ⊎ (((find_one (message_is 7) destroyed_db.messages ≡ none)
          ⊎ ((m : Message) × (find_one (message_is 7) destroyed_db.messages ≡ some m)
              × (m.is_destroyed ≡ false)))
        × (purge destroyed_db 70000 7 ≡ record { value = false; db = destroyed_db; effects = [] }))
purge_iff_example = purge_iff destroyed_db 70000 7

abbrev acked : Done AckResult
acked = commit_ack default_env destroyed_db 70000 50 2 none private (7 ∷ [])

acknowledged : ack default_env destroyed_db 70000 50 2 none (some 7 ∷ none ∷ some 7 ∷ []) ≡ ok acked
unfolding ack find_one exists_where select_where count_where has
acknowledged = refl

purged : acked.value ≡ record { acked = 1; purged = 1; purged_ids = 7 ∷ [] }
unfolding commit_ack find_one exists_where select_where count_where
purged = refl

ack-IsKept_example : IsKept destroyed_db acked.db 8 reply_row
unfolding find_one
ack-IsKept_example =
    ack-IsKept default_env destroyed_db 70000 50 2 none (some 7 ∷ none ∷ some 7 ∷ []) acked 8
      reply_row acknowledged refl refl

purge_confirmed_or_expired-IsKept_example :
    IsKept destroyed_db (purge_confirmed_or_expired default_env destroyed_db 70000).db 8 reply_row
unfolding find_one
purge_confirmed_or_expired-IsKept_example =
    purge_confirmed_or_expired-IsKept default_env destroyed_db 70000 8 reply_row refl refl
