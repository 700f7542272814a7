-- ===== src/Backoff.antt =====
-- backend/src/resilience/backoff.ts: exponential backoff with full jitter.
mod Tests
use Prim.Native.Nat.{min, max}
use native.Mathlib.Nat.{one-le-pow, pow-le-pow_right}
use event_relay.Base.{ℕ, ◌+◌, ◌-◌, ◌*◌, ◌/◌, ◌^◌, ◌≤◌, ◌<◌, ◌≡◌, refl, Option, none, some, arith}

-- `Math.random()` is a multiple of 2 ^ -53 below 1: the number of them.
abbrev pub resolution : ℕ
resolution = 2 ^ 53

pub record BackoffOptions : Type 0 where
  pub base_seconds : Option ℕ
  pub max_seconds : Option ℕ

-- `value ?? fallback`.
abbrev pub or_default : Option ℕ → ℕ → ℕ
or_default none d = d
or_default (some n) d = n

-- `Math.min(max, base * Math.pow(2, Math.max(0, attempt - 1)))`.
unfoldable pub capped_backoff : ℕ → BackoffOptions → ℕ
capped_backoff attempt options =
    min (or_default options.max_seconds 600) (or_default options.base_seconds 2 * 2 ^ (attempt - 1))

-- `Math.round(x / y)`: halves go up.
abbrev pub round_ratio : ℕ → ℕ → ℕ
round_ratio x y = (2 * x + y) / (2 * y)

unfoldable pub calculate_full_jitter_delay : ℕ → BackoffOptions → ℕ → ℕ
calculate_full_jitter_delay attempt options random =
    max 1 (round_ratio (random * capped_backoff attempt options) resolution)

scaled-le : (r c : ℕ) → r < resolution → r * c ≤ resolution * c
scaled-le r c h = grind arith

round_ratio-le : (r c : ℕ) → r < resolution → round_ratio (r * c) resolution ≤ c
round_ratio-le r c h = omega (arith, scaled-le r c h)

-- For a random number below 1, the delay is at least a second, at most the capped backoff (or a second), and so never above
-- the configured maximum, 600 seconds by default.
pub calculate_full_jitter_delay_bounds :
    (attempt : ℕ) (options : BackoffOptions) (random : ℕ)
    → random < resolution
    → (1 ≤ calculate_full_jitter_delay attempt options random)
      × (calculate_full_jitter_delay attempt options random
          ≤ max 1 (capped_backoff attempt options))
      × (calculate_full_jitter_delay attempt options random
          ≤ max 1 (or_default options.max_seconds 600))
unfolding calculate_full_jitter_delay capped_backoff
calculate_full_jitter_delay_bounds attempt options random h = (
  omega arith,
  omega (arith, round_ratio-le random (capped_backoff attempt options) h),
  omega (arith, round_ratio-le random (capped_backoff attempt options) h),
)

pow_grows : (n : ℕ) → (1 ≤ 2 ^ n) × (2 ^ (n - 1) ≤ 2 ^ n)
pow_grows n = (one-le-pow n 2 (omega arith), pow-le-pow_right {n = 2} (omega arith) (omega arith))

-- With the defaults, the delay is within the documented range.
pub capped_backoff-le :
    (attempt : ℕ)
    → max 1 (capped_backoff attempt (record { base_seconds = none; max_seconds = none }))
      ≤ min 600 (2 * 2 ^ attempt)
unfolding capped_backoff
capped_backoff-le attempt = omega (arith, (pow_grows attempt).0, (pow_grows attempt).1)
