-- ===== src/Backoff/Tests.antt =====
-- A delay of the third attempt.
use Prim.Native.Nat.{max}
use event_relay.Base.{◌≤◌, ◌^◌, none, arith}
use event_relay.Backoff.{
  BackoffOptions, or_default, capped_backoff, calculate_full_jitter_delay,
  calculate_full_jitter_delay_bounds,
}

abbrev options : BackoffOptions
options = record { base_seconds = none; max_seconds = none }

third_delay :
    (1 ≤ calculate_full_jitter_delay 3 options (2 ^ 52))
    × (calculate_full_jitter_delay 3 options (2 ^ 52) ≤ max 1 (capped_backoff 3 options))
    × (calculate_full_jitter_delay 3 options (2 ^ 52) ≤ max 1 (or_default options.max_seconds 600))
third_delay = calculate_full_jitter_delay_bounds 3 options (2 ^ 52) (omega arith)
