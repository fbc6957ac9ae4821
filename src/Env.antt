-- ===== src/Env.antt =====
-- The environment variables of the modelled services and how the code reads them: `parseInt` with a
-- default, and a second default where the number is not usable.
pub mod Bounds
use fenxin.Prelude.{
  ℕ, ◌+◌, ◌-◌, ◌*◌, ◌≡◌, Bool, true, false, ◌&&◌, ◌||◌, Option, none, some, List, [], ◌∷◌, ltb, leb,
  ◌==◌, if◌then◌else◌, get_or, ℤ, pos, negsuc,
}
use fenxin.Entities.{Text}

pub record Env : Type 0 where
  pub burn_fallback_ttl_hours : Option Text
  pub burn_media_buffer_seconds : Option Text
  pub burn_media_default_window_seconds : Option Text
  pub purge_ack_threshold : Option Text
  pub ack_fallback_days : Option Text
  pub auth_cache_ttl_ms : Option Text
  pub online_ttl_seconds : Option Text
  pub session_policy : Option Text
  pub max_devices_per_user : Option Text

abbrev pub is_digit : ℕ → Bool
is_digit c = leb b'0' c && leb c b'9'

-- The ASCII white space that `parseInt` skips.
abbrev pub is_space : ℕ → Bool
is_space c = c == 32 || (leb 9 c && leb c 13)

-- The digits at the front; `none` (NaN) where there is none.
pub digits_prefix : Option ℕ → Text → Option ℕ
digits_prefix acc [] = acc
digits_prefix acc (c ∷ s) =
    let rest = digits_prefix (some (get_or acc 0 * 10 + (c - b'0'))) s in
    if is_digit c then rest else acc

abbrev to_negative : ℕ → ℤ
to_negative n = if n == 0 then pos 0 else negsuc (n - 1)

abbrev map_sign : (ℕ → ℤ) → Option ℕ → Option ℤ
map_sign f none = none
map_sign f (some n) = some (f n)

parse_signed : Text → Option ℤ
unfolding digits_prefix
parse_signed [] = none
parse_signed (c ∷ s) =
    if c == b'-'
    then map_sign to_negative (digits_prefix none s)
    else map_sign pos (digits_prefix none (if c == b'+' then s else c ∷ s))

trim_start : Text → Text
trim_start [] = []
trim_start (c ∷ s) = let rest = trim_start s in if is_space c then rest else c ∷ s

-- `parseInt(s, 10)`
pub parse_int : Text → Option ℤ
unfolding parse_signed trim_start
parse_int s = parse_signed (trim_start s)

-- `process.env.X || d`: an empty value counts as absent.
abbrev pub env_or : Option Text → Text → Text
env_or none d = d
env_or (some []) d = d
env_or (some (c ∷ s)) d = c ∷ s

-- `Number.isFinite(n) && n > 0 ? n : d`
abbrev pub positive_or : Option ℤ → ℕ → ℕ
positive_or (some (pos n)) d = if ltb 0 n then n else d
positive_or (some (negsuc n)) d = d
positive_or none d = d

-- `Number.isFinite(n) && n >= 0 ? n : d`
abbrev pub natural_or : Option ℤ → ℕ → ℕ
natural_or (some (pos n)) d = n
natural_or (some (negsuc n)) d = d
natural_or none d = d

abbrev pub finite_or : Option ℤ → ℕ → ℤ
finite_or (some n) d = n
finite_or none d = pos d

unfoldable pub burn_fallback_ttl_ms : Env → ℕ
unfolding parse_int
burn_fallback_ttl_ms env =
    positive_or (parse_int (env_or env.burn_fallback_ttl_hours (b'2' ∷ b'4' ∷ []))) 24 * 3600 * 1000

unfoldable pub media_buffer_seconds : Env → ℕ
unfolding parse_int
media_buffer_seconds env =
    positive_or (parse_int (env_or env.burn_media_buffer_seconds (b'3' ∷ b'0' ∷ []))) 30

unfoldable pub media_fallback_window_seconds : Env → ℕ
unfolding parse_int
media_fallback_window_seconds env =
    positive_or (parse_int (env_or env.burn_media_default_window_seconds (b'3' ∷ b'0' ∷ b'0' ∷ [])))
      300

-- `??` keeps an empty value, unlike `||`.
unfoldable pub ack_threshold : Env → ℕ
unfolding parse_int
ack_threshold env = natural_or (parse_int (get_or env.purge_ack_threshold (b'1' ∷ []))) 1

unfoldable pub ack_fallback_days : Env → ℤ
unfolding parse_int
ack_fallback_days env = finite_or (parse_int (get_or env.ack_fallback_days (b'7' ∷ []))) 7

-- `ttlMs` of the cache of authentications; 0 where it is not positive, which turns the cache off.
unfoldable pub auth_cache_ttl : Env → ℕ
unfolding parse_int
auth_cache_ttl env =
    positive_or (parse_int (env_or env.auth_cache_ttl_ms (b'3' ∷ b'0' ∷ b'0' ∷ b'0' ∷ b'0' ∷ []))) 0

unfoldable pub online_ttl_seconds : Env → ℕ
unfolding parse_int
online_ttl_seconds env =
    positive_or (parse_int (env_or env.online_ttl_seconds (b'1' ∷ b'5' ∷ b'0' ∷ []))) 150

-- `maxDevicesPerUser`; a limit that is not positive is none, and 0 here.
unfoldable pub max_devices_per_user : Env → ℕ
unfolding parse_int
max_devices_per_user env =
    elim (finite_or (parse_int (env_or env.max_devices_per_user (b'5' ∷ []))) 5) [
      | pos n ↦ n
      | negsuc n ↦ 0
    ]
