-- ===== src/Circuit/Machine.antt =====
-- What a circuit breaker promises, with no table: a machine of three states.
use event_relay.Base.{ℕ, ◌+◌, ◌≤◌, ◌<◌, ◌≡◌, Bool, true, false, ltb, if◌then◌else◌, some}
use event_relay.Store.{CircuitRecord, CircuitState, closed, opened, half_open_probing}

-- Closed with a number of failures since the last success, open since a time, or on trial: one
-- probe is out, and its outcome decides.
pub data Breaker : Type 0 where
  closed_after : ℕ → Breaker
  open_since : ℕ → Breaker
  trial : Breaker

-- The next state after a failure, given the threshold and the time.
unfoldable pub fails : ℕ → ℕ → Breaker → Breaker
fails threshold now (closed_after n) =
    if ltb (n + 1) threshold then closed_after (n + 1) else open_since now
fails threshold now (open_since t) = open_since now
fails threshold now trial = open_since now

-- Whether a request may go out, given the cool-down in milliseconds and the time.
unfoldable pub asks : ℕ → ℕ → Breaker → Bool × Breaker
asks cool_down_ms now (closed_after n) = (true, closed_after n)
asks cool_down_ms now (open_since t) =
    if ltb (t + cool_down_ms) now then (true, trial) else (false, open_since t)
asks cool_down_ms now trial = (false, trial)

unfoldable pub succeeds : Breaker → Breaker
succeeds (closed_after n) = closed_after 0
succeeds (open_since t) = open_since t
succeeds trial = closed_after 0

abbrev pub state_of : Breaker → CircuitState
state_of (closed_after n) = closed
state_of (open_since t) = opened
state_of trial = half_open_probing

-- When a row of the table stands for a state of the machine.
abbrev pub Represents : CircuitRecord → Breaker → Type 0
Represents r (closed_after n) =
    (r.state ≡ closed) × (r.failure_count ≡ n) × (n < r.threshold_failures)
Represents r (open_since t) =
    (r.state ≡ opened) × (r.opened_at ≡ some t) × (r.threshold_failures ≤ r.failure_count)
Represents r trial =
    (r.state ≡ half_open_probing)
    × (0 < r.threshold_failures)
    × (r.threshold_failures ≤ r.failure_count)
