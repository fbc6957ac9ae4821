-- ===== src/Lifecycle/Tests.antt =====
-- From the fixtures' destroyed message: the acknowledgement of user 2 purges it.
use fenxin.Prelude.{
  false, ◌≡◌, ◌≢◌, refl, Option, none, some, [], ◌∷◌, find_one, exists_where, select_where,
  count_where, has,
}
use fenxin.Entities.{Message, private}
use fenxin.Result.{ok, Done}
use fenxin.Fixtures.{default_env, destroyed_db, reply_row}
use fenxin.Reveal.{Revealed, reveal_message}
use fenxin.Edit.{edit_message}
use fenxin.Destroy.{AckResult, ack, commit_ack}
use fenxin.Lifecycle.{State, with_db, acknowledging, Steps, stay, then_step}
use fenxin.Lifecycle.Rows.{IsDead}
use fenxin.Lifecycle.Death.{HasDied, Steps-IsDead}

abbrev start : State
start = record { db = destroyed_db; used = 8 ∷ 7 ∷ [] }

abbrev acked : Done AckResult
acked = commit_ack default_env destroyed_db 70000 50 2 none private (7 ∷ [])

acknowledged : ack default_env destroyed_db 70000 50 2 none (some 7 ∷ []) ≡ ok acked
unfolding ack find_one exists_where select_where count_where has
acknowledged = refl

abbrev end : State
end = with_db start acked.db

purging : Steps default_env start end
purging = then_step stay (acknowledging 70000 50 2 none (some 7 ∷ []) acked acknowledged)

start-HasDied : HasDied 7 start
unfolding has
start-HasDied = record { given = refl; dead = (refl, (refl, tt)) }

abbrev no_opening : Done Revealed
no_opening = record {
  value = record {
    message = reply_row;
    burn_at = none;
    remain_seconds = 0;
    media_burn_pending = false;
    consume_deadline = none;
  };
  db = destroyed_db;
  effects = [];
}

abbrev no_edit : Done (Option Message)
no_edit = record { value = none; db = destroyed_db; effects = [] }

Steps-IsDead_example :
    IsDead 7 end.db.messages
    × (reveal_message default_env 99 end.db 80000 7 1 none ≢ ok no_opening)
    × (edit_message end.db 80000 7 1 [] ≢ ok no_edit)
Steps-IsDead_example =
    Steps-IsDead default_env start end 7 99 80000 1 none no_opening [] no_edit purging start-HasDied
