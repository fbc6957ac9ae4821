-- ===== src/Burn.antt =====
-- The clock of burn-after-reading: the pure helpers of src/modules/message/message.service.ts.
-- Durations are seconds and dates are milliseconds, as in the source.
pub mod Bounds
mod Tests
use fenxin.Prelude.{
  ℕ, zero, suc, ◌+◌, ◌-◌, ◌*◌, ◌/◌, ◌^◌, min, max, ◌≡◌, Bool, true, false, ◌&&◌, ◌||◌, Option, none,
  some, List, [], ◌∷◌, ltb, leb, ◌==◌, if◌then◌else◌,
}
use fenxin.Entities.{Date, Text, MessageType, text, image, voice, video, file}
use fenxin.Env.{Env, media_buffer_seconds, media_fallback_window_seconds}

abbrev pub max_burn_ttl_seconds : ℕ
max_burn_ttl_seconds = 30 * 24 * 3600

-- A JavaScript number: NaN, an infinity, or ± m / 2 ^ k.
pub data Number : Type 0 where
  nan : Number
  infinite : (negative : Bool) → Number
  finite : (negative : Bool) → (m k : ℕ) → Number

-- `new Date(text)`: an invalid date or the milliseconds. One before 1970 counts as 1970 here,
-- which the comparisons with the present do not tell apart.
pub data ParsedDate : Type 0 where
  invalid : ParsedDate
  at : Date → ParsedDate

unfoldable pub burn_media_window_seconds : Env → ℕ → Option ℕ → ℕ
burn_media_window_seconds env ttl_seconds duration_seconds =
    max ttl_seconds (window duration_seconds)
  where
    window : Option ℕ → ℕ
    window none = media_fallback_window_seconds env
    window (some zero) = media_fallback_window_seconds env
    window (some (suc n)) = suc n + media_buffer_seconds env

abbrev pub lower_case : ℕ → ℕ
lower_case c = if leb b'A' c && leb c b'Z' then c + 32 else c

pub same_letters : Text → Text → Bool
same_letters [] [] = true
same_letters (c ∷ s) (d ∷ t) = lower_case c == lower_case d && same_letters s t
same_letters _ _ = false

-- The text ends with the suffix, letters compared without case.
pub has_suffix : Text → Text → Bool
unfolding same_letters
has_suffix suffix [] = same_letters suffix []
has_suffix suffix (c ∷ s) = same_letters suffix (c ∷ s) || has_suffix suffix s

-- /\.(mp4|webm|mov|m4v|mkv|avi|3gp)$/i
abbrev pub video_extensions : List Text
video_extensions =
    (b'.' ∷ b'm' ∷ b'p' ∷ b'4' ∷ [])
    ∷ (b'.' ∷ b'w' ∷ b'e' ∷ b'b' ∷ b'm' ∷ [])
    ∷ (b'.' ∷ b'm' ∷ b'o' ∷ b'v' ∷ [])
    ∷ (b'.' ∷ b'm' ∷ b'4' ∷ b'v' ∷ [])
    ∷ (b'.' ∷ b'm' ∷ b'k' ∷ b'v' ∷ [])
    ∷ (b'.' ∷ b'a' ∷ b'v' ∷ b'i' ∷ [])
    ∷ (b'.' ∷ b'3' ∷ b'g' ∷ b'p' ∷ [])
    ∷ []

pub has_any_suffix : List Text → Text → Bool
unfolding has_suffix
has_any_suffix [] s = false
has_any_suffix (e ∷ es) s = has_suffix e s || has_any_suffix es s

abbrev is_video_name : Option Text → Bool
is_video_name none = false
is_video_name (some s) = has_any_suffix video_extensions s

unfoldable pub is_media_burn_msg : MessageType → Option Text → Bool
unfolding has_any_suffix
is_media_burn_msg voice name = true
is_media_burn_msg video name = true
is_media_burn_msg file name = is_video_name name
is_media_burn_msg text name = false
is_media_burn_msg image name = false

-- `Number.isFinite(n) && n > 0`
abbrev pub is_positive : Number → Bool
is_positive nan = false
is_positive (infinite b) = false
is_positive (finite true m k) = false
is_positive (finite false m k) = ltb 0 m

-- `Math.ceil(n)` of a positive finite number.
abbrev pub ceil : Number → ℕ
ceil (finite b m k) = (m + 2 ^ k - 1) / 2 ^ k
ceil _ = 0

-- The seconds from `now` to the date, rounded up.
abbrev pub ceil_seconds : ℕ → ℕ
ceil_seconds ms = (ms + 999) / 1000

ttl_from_destroy_at : Option ParsedDate → Date → Option ℕ
ttl_from_destroy_at none now = none
ttl_from_destroy_at (some invalid) now = none
ttl_from_destroy_at (some (at t)) now =
    if ltb now t then some (min (max 1 (ceil_seconds (t - now))) max_burn_ttl_seconds) else none

unfoldable pub normalize_burn_ttl : Option Number → Option ParsedDate → Date → Option ℕ
unfolding ttl_from_destroy_at
normalize_burn_ttl none destroy_at now = ttl_from_destroy_at destroy_at now
normalize_burn_ttl (some n) destroy_at now =
    if is_positive n
    then some (min (ceil n) max_burn_ttl_seconds)
    else ttl_from_destroy_at destroy_at now

abbrev pub earlier : Date → Option Date → Date
earlier d none = d
earlier d (some e) = min d e

unfoldable pub effective_remain_seconds : Option Date → Option Date → Date → ℕ
effective_remain_seconds none destroy_at now = 0
effective_remain_seconds (some burn_at) destroy_at now =
    ceil_seconds (earlier burn_at destroy_at - now)
