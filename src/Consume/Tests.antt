-- ===== src/Consume/Tests.antt =====
-- User 2 has opened the voice message at 2000 and has heard it at 30000.
use fenxin.Prelude.{◌≡◌, refl, ◌≢◌, arith, none, [], find_one}
use fenxin.Result.{ok, Done}
use fenxin.Fixtures.{default_env, burn_row, opened_row, opened_db}
use fenxin.Reveal.{Revealed, reveal_message, response}
use fenxin.Consume.{Consumed, consume_now, consume_message}
use fenxin.Consume.Effect.{consume_message-final}

abbrev heard : Done Consumed
heard = consume_now opened_db 30000 burn_row opened_row 2

hearing : consume_message opened_db 30000 7 2 ≡ ok heard
unfolding consume_message find_one
hearing = refl

-- Any answer that an opening could give.
abbrev answer : Done Revealed
answer = record { value = response burn_row opened_row 31000; db = opened_db; effects = [] }

consume_message-final_example : reveal_message default_env 99 heard.db 31000 7 2 none ≢ ok answer
consume_message-final_example =
    consume_message-final default_env 99 opened_db 30000 31000 7 2 none heard answer hearing
      (omega arith)
