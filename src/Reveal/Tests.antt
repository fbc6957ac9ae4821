-- ===== src/Reveal/Tests.antt =====
-- User 2 opens the voice message of 20 seconds at 2000: the window is 50 seconds.
use fenxin.Prelude.{◌⊎◌, ◌+◌, ◌*◌, ◌≡◌, refl, ◌<◌, ◌≤◌, none, some, [], find_one}
use fenxin.Entities.{Date, Message, message_is}
use fenxin.Result.{ok, err, not_found, message_burned, Done}
use fenxin.Env.{media_buffer_seconds}
use fenxin.Burn.{is_media_burn_msg, burn_media_window_seconds}
use fenxin.Fixtures.{default_env, burn_row, burn_receipt, burn_db}
use fenxin.Reveal.{Revealed, burn_seconds, start_countdown, reveal_message}
use fenxin.Reveal.Countdown.{HasStarted}
use fenxin.Reveal.Again.{reveal_message-first, reveal_message-again}

abbrev opened : Done Revealed
opened = start_countdown default_env burn_db 2000 burn_row (burn_receipt 12 2) 2 none

opening : reveal_message default_env 99 burn_db 2000 7 2 none ≡ ok opened
unfolding reveal_message find_one
opening = refl

window : burn_seconds default_env burn_row none ≡ 50
unfolding burn_seconds is_media_burn_msg burn_media_window_seconds media_buffer_seconds
window = refl

reveal_message-first_example :
    (m : Message) × (find_one (message_is 7) burn_db.messages ≡ some m)
    × HasStarted 7 2 2000 (2000 + burn_seconds default_env m none * 1000) opened
    × (opened.value.remain_seconds ≡ burn_seconds default_env m none)
unfolding find_one
reveal_message-first_example =
    reveal_message-first default_env 99 burn_db 2000 7 2 none opened opening refl

reveal_message-again_example :
    (b : Date) × (opened.value.burn_at ≡ some b)
    × (((3000 < b)
          × (d' : Done Revealed) × (reveal_message default_env 99 opened.db 3000 7 2 none ≡ ok d')
          × (d'.value.burn_at ≡ some b)
          × (d'.db ≡ opened.db)
          × (d'.effects ≡ []))
        ⊎ ((b ≤ 3000)
            × (reveal_message default_env 99 opened.db 3000 7 2 none
                ≡ err (not_found message_burned))))
unfolding find_one
reveal_message-again_example =
    reveal_message-again default_env default_env 99 99 burn_db 2000 7 2 none none opened 3000
      opening refl
