-- ===== src/Env/Bounds.antt =====
-- The durations that the environment sets are usable whatever the variables hold.
use fenxin.Prelude.{ℕ, ◌≤◌, ◌<◌, Option, none, some, arith, ℤ, pos, negsuc}
use fenxin.Env.{
  Env, positive_or, parse_int, env_or, burn_fallback_ttl_ms, media_buffer_seconds,
  media_fallback_window_seconds,
}

pub positive_or-pos : (n : Option ℤ) (d : ℕ) → 0 < d → 0 < positive_or n d
positive_or-pos none d h = h
positive_or-pos (some (pos n)) d h = ground arith
positive_or-pos (some (negsuc n)) d h = h

-- The fallback is at least one hour.
pub burn_fallback_ttl_ms-ge_hour : (env : Env) → 3600000 ≤ burn_fallback_ttl_ms env
unfolding burn_fallback_ttl_ms
burn_fallback_ttl_ms-ge_hour env = omega (arith, positive_or-pos _ 24 (omega arith))

pub media_buffer_seconds-pos : (env : Env) → 0 < media_buffer_seconds env
unfolding media_buffer_seconds
media_buffer_seconds-pos env =
    positive_or-pos (parse_int (env_or env.burn_media_buffer_seconds _)) 30 (omega arith)

pub media_fallback_window_seconds-pos : (env : Env) → 0 < media_fallback_window_seconds env
unfolding media_fallback_window_seconds
media_fallback_window_seconds-pos env =
    positive_or-pos (parse_int (env_or env.burn_media_default_window_seconds _)) 300 (omega arith)
