-- ===== src/Metrics.antt =====
-- backend/src/metrics/prometheus.ts: the counters in memory, and the latency histogram.
pub mod Export
pub mod Histogram
mod Tests
use event_relay.Base.{
  ℕ, ◌+◌, Bool, leb, ◌==◌, if◌then◌else◌, List, [], ◌∷◌, ◌++◌, Text, codes, text_eq, map,
}
use event_relay.Store.{World, Metrics, CircuitState, closed, half_open}

-- `map.get(key) || 0`.
unfoldable pub get_or_zero {ℓ} : {K : Type ℓ} → (K → K → Bool) → K → List (K × ℕ) → ℕ
get_or_zero eq k [] = 0
get_or_zero eq k ((j, n) ∷ m) = if eq j k then n else get_or_zero eq k m

-- `map.set(key, value)`: in place, or at the end.
unfoldable pub set_entry {ℓ} : {K : Type ℓ} → (K → K → Bool) → K → ℕ → List (K × ℕ) → List (K × ℕ)
set_entry eq k v [] = (k, v) ∷ []
set_entry eq k v ((j, n) ∷ m) = if eq j k then (j, v) ∷ m else (j, n) ∷ set_entry eq k v m

-- `const curr = map.get(key) || 0; map.set(key, curr + 1)`.
unfoldable pub increment {ℓ} : {K : Type ℓ} → (K → K → Bool) → K → List (K × ℕ) → List (K × ℕ)
increment eq k m = set_entry eq k (get_or_zero eq k m + 1) m

-- The key `endpoint="…",status="…"`.
unfoldable pub delivery_key : Text → Text → Text
delivery_key endpoint status =
    codes "endpoint=\"" ++ (endpoint ++ (codes "\",status=\"" ++ (status ++ codes "\"")))

unfoldable pub inc_ingested : Text → World → World
inc_ingested event_type w = record w {
  metrics = record (w.metrics) {
    events_ingested = increment text_eq event_type w.metrics.events_ingested;
  };
}

unfoldable pub inc_delivery : Text → Text → World → World
inc_delivery endpoint status w = record w {
  metrics = record (w.metrics) {
    deliveries_total = increment text_eq (delivery_key endpoint status) w.metrics.deliveries_total;
  };
}

unfoldable pub inc_dlq : World → World
inc_dlq w = record w { metrics = record (w.metrics) { dlq_total = w.metrics.dlq_total + 1 } }

unfoldable pub inc_rate_limiter_error : World → World
inc_rate_limiter_error w = record w {
  metrics = record (w.metrics) { rate_limiter_errors = w.metrics.rate_limiter_errors + 1 };
}

-- The loop over `latencyBuckets`: every bucket that the duration fits is one up.
unfoldable pub observe_buckets : ℕ → List (ℕ × ℕ) → List (ℕ × ℕ)
observe_buckets duration_ms [] = []
observe_buckets duration_ms ((bound, n) ∷ rest) =
    (bound, (if leb duration_ms bound then n + 1 else n)) ∷ observe_buckets duration_ms rest

unfoldable pub observe_latency : ℕ → World → World
unfolding observe_buckets
observe_latency duration_ms w = record w {
  metrics = record (w.metrics) {
    latency_count = w.metrics.latency_count + 1;
    latency_sum = w.metrics.latency_sum + duration_ms;
    latency_histogram = observe_buckets duration_ms w.metrics.latency_histogram;
  };
}

-- 0: CLOSED, 1: HALF_OPEN, 2: OPEN.
abbrev pub state_value : CircuitState → ℕ
state_value closed = 0
state_value half_open = 1
state_value _ = 2

unfoldable pub set_circuit_state : ℕ → CircuitState → World → World
set_circuit_state endpoint_id state w = record w {
  metrics = record (w.metrics) {
    circuit_states = set_entry ◌==◌ endpoint_id (state_value state) w.metrics.circuit_states;
  };
}

-- The fields of a new `MetricsRegistry`; the bounds are 0.01 s to 10 s.
unfoldable pub new_metrics : Metrics
new_metrics = record {
  events_ingested = [];
  deliveries_total = [];
  dlq_total = 0;
  rate_limiter_errors = 0;
  latency_histogram =
      map (λ b. (b, 0)) (10 ∷ 50 ∷ 100 ∷ 250 ∷ 500 ∷ 1000 ∷ 2500 ∷ 5000 ∷ 10000 ∷ []);
  latency_sum = 0;
  latency_count = 0;
  circuit_states = [];
}
