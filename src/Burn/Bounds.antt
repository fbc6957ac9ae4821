-- ===== src/Burn/Bounds.antt =====
-- Bounds of the burn clock: the ttl, the media window and the remaining seconds.
use native.Mathlib.Nat.{one-le-pow}
use fenxin.Prelude.{
  max, ℕ, zero, suc, ◌+◌, ◌-◌, ◌*◌, ◌/◌, ◌^◌, ◌≤◌, ◌<◌, ◌≡◌, ◌↔◌, true, false, Option, none, some,
  arith,
}
use fenxin.Entities.{Date}
use fenxin.Env.{Env}
use fenxin.Env.Bounds.{media_buffer_seconds-pos, media_fallback_window_seconds-pos}
use fenxin.Burn.{
  Number, nan, infinite, finite, ParsedDate, invalid, at, max_burn_ttl_seconds, ceil, ceil_seconds,
  is_positive, normalize_burn_ttl, ttl_from_destroy_at, burn_media_window_seconds,
  effective_remain_seconds, earlier,
}

-- A ttl within the limits.
abbrev pub IsTtl : ℕ → Type 0
IsTtl t = (1 ≤ t) × (t ≤ max_burn_ttl_seconds)

abbrev pub IsTtlOrNone : Option ℕ → Type 0
IsTtlOrNone none = Unit
IsTtlOrNone (some t) = IsTtl t

ceil-pos : (m d : ℕ) → 0 < m → 0 < d → 1 ≤ (m + d - 1) / d
ceil-pos m d h k = grind (arith)

ceil-positive : (n : Number) → is_positive n ≡ true → 1 ≤ ceil n
ceil-positive (finite false m k) h =
    ceil-pos m (2 ^ k) (ground arith) (one-le-pow k 2 (omega arith))
ceil-positive (finite true m k) h = cc
ceil-positive (infinite b) h = cc
ceil-positive nan h = cc

ttl_from_destroy_at-IsTtl :
    (d : Option ParsedDate) (now : Date) → IsTtlOrNone (ttl_from_destroy_at d now)
unfolding ttl_from_destroy_at
ttl_from_destroy_at-IsTtl none now = tt
ttl_from_destroy_at-IsTtl (some invalid) now = tt
ttl_from_destroy_at-IsTtl (some (at t)) now = ground arith

-- Whatever the client sends, a stored ttl lies between one second and thirty days.
pub normalize_burn_ttl-IsTtl :
    (n : Option Number) (d : Option ParsedDate) (now : Date)
    → IsTtlOrNone (normalize_burn_ttl n d now)
unfolding normalize_burn_ttl
normalize_burn_ttl-IsTtl none d now = ttl_from_destroy_at-IsTtl d now
normalize_burn_ttl-IsTtl (some n) d now =
    ground (arith, ttl_from_destroy_at-IsTtl d now, ceil-positive n)

-- An old client's absolute date at most thirty days ahead: the ttl that is counted from now ends
-- no earlier than that date and less than a second after it.
pub normalize_burn_ttl-destroy_at :
    (t now : Date)
    → now < t
    → t ≤ now + max_burn_ttl_seconds * 1000
    → (s : ℕ) × (normalize_burn_ttl none (some (at t)) now ≡ some s)
      × (t ≤ now + s * 1000)
      × (now + s * 1000 < t + 1000)
unfolding normalize_burn_ttl ttl_from_destroy_at
normalize_burn_ttl-destroy_at t now h k =
    (ceil_seconds (t - now), ground arith, omega arith, omega arith)

-- The consumption window of a voice or video message is at least the ttl, and it is longer than
-- the recording when its length is known.
pub burn_media_window_bounds :
    (env : Env) (ttl : ℕ) (duration : Option ℕ)
    → (ttl ≤ burn_media_window_seconds env ttl duration)
      × (1 ≤ burn_media_window_seconds env ttl duration)
      × ((n : ℕ) → duration ≡ some n → n < burn_media_window_seconds env ttl duration)
unfolding burn_media_window_seconds
burn_media_window_bounds env ttl none =
    (omega arith, omega (arith, media_fallback_window_seconds-pos env), λ n e. cc)
burn_media_window_bounds env ttl (some zero) = (
  omega arith,
  omega (arith, media_fallback_window_seconds-pos env),
  λ n e. ground (arith, media_fallback_window_seconds-pos env),
)
burn_media_window_bounds env ttl (some (suc m)) =
    (omega arith, omega arith, λ n e. ground (arith, media_buffer_seconds-pos env))

-- A client counts zero seconds exactly when the deadline has passed; the seconds cover the time
-- that is left, and less than a second more.
pub effective_remain_bounds :
    (burn_at : Date) (destroy_at : Option Date) (now : Date)
    → ((effective_remain_seconds (some burn_at) destroy_at now ≡ 0)
        ↔ (earlier burn_at destroy_at ≤ now))
      × (earlier burn_at destroy_at
          ≤ now + effective_remain_seconds (some burn_at) destroy_at now * 1000)
      × (now + effective_remain_seconds (some burn_at) destroy_at now * 1000
          < max now (earlier burn_at destroy_at) + 1000)
unfolding effective_remain_seconds
effective_remain_bounds burn_at none now =
    ((λ e. omega arith, λ h. omega arith), omega arith, omega arith)
effective_remain_bounds burn_at (some d) now =
    ((λ e. omega arith, λ h. omega arith), omega arith, omega arith)
