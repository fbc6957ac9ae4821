-- ===== src/Burn/Tests.antt =====
-- The burn clock on a few values.
use fenxin.Prelude.{◌≡◌, refl, true, false, none, some, [], ◌∷◌}
use fenxin.Entities.{file}
use fenxin.Env.{burn_fallback_ttl_ms}
use fenxin.Fixtures.{default_env}
use fenxin.Burn.{finite, infinite, at, is_media_burn_msg, normalize_burn_ttl}

-- 2.5 seconds are rounded up, and a negative number falls back on the date.
half : normalize_burn_ttl (some (finite false 5 1)) none 1000 ≡ some 3
unfolding normalize_burn_ttl
half = refl

negative : normalize_burn_ttl (some (finite true 5 1)) (some (at 61001)) 1000 ≡ some 61
unfolding normalize_burn_ttl
negative = refl

unbounded : normalize_burn_ttl (some (infinite false)) none 1000 ≡ none
unfolding normalize_burn_ttl
unbounded = refl

default_fallback : burn_fallback_ttl_ms default_env ≡ 86400000
unfolding burn_fallback_ttl_ms
default_fallback = refl

-- "A.MP4" and "a.mp4.txt"
film : is_media_burn_msg file (some (b'A' ∷ b'.' ∷ b'M' ∷ b'P' ∷ b'4' ∷ [])) ≡ true
unfolding is_media_burn_msg
film = refl

note :
    is_media_burn_msg file
      (some (b'a' ∷ b'.' ∷ b'm' ∷ b'p' ∷ b'4' ∷ b'.' ∷ b't' ∷ b'x' ∷ b't' ∷ []))
    ≡ false
unfolding is_media_burn_msg
note = refl
