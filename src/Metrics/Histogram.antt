-- ===== src/Metrics/Histogram.antt =====
-- `observeLatency` of backend/src/metrics/prometheus.ts: the buckets of the histogram.
use event_relay.Base.{ℕ, ◌+◌, ◌≤◌, List, [], ◌∷◌, arith}
use event_relay.Store.{World}
use event_relay.Metrics.{observe_buckets, observe_latency}

-- The bounds go up, and so do the counts, none of which is above the total.
abbrev pub IsCumulative : ℕ → List (ℕ × ℕ) → Type 0
IsCumulative total [] = Unit {0}
IsCumulative total (p ∷ []) = p.1 ≤ total
IsCumulative total (p ∷ q ∷ rest) = (p.0 ≤ q.0) × (p.1 ≤ q.1) × IsCumulative total (q ∷ rest)

observe_buckets-IsCumulative :
    (d total : ℕ) (h : List (ℕ × ℕ))
    → IsCumulative total h
    → IsCumulative (total + 1) (observe_buckets d h)
unfolding observe_buckets
observe_buckets-IsCumulative d total [] c = tt
observe_buckets-IsCumulative d total ((b, n) ∷ []) c = ground arith
observe_buckets-IsCumulative d total ((b, n) ∷ (b', n') ∷ rest) (up, more, c) =
    (up, ground arith, observe_buckets-IsCumulative d total ((b', n') ∷ rest) c)

-- The latencies observed in turn.
abbrev pub observe_all : List ℕ → World → World
observe_all [] w = w
observe_all (d ∷ ds) w = observe_all ds (observe_latency d w)

-- The histogram is cumulative, as Prometheus has it, after any number of observations, if it was at
-- first: the counts go up with the bounds, and none is above `latencyCount`.
pub observe_all-IsCumulative :
    (ds : List ℕ) (w : World)
    → IsCumulative w.metrics.latency_count w.metrics.latency_histogram
    → IsCumulative
        (observe_all ds w).metrics.latency_count
        (observe_all ds w).metrics.latency_histogram
unfolding observe_latency
observe_all-IsCumulative [] w c = c
observe_all-IsCumulative (d ∷ ds) w c =
    observe_all-IsCumulative ds (observe_latency d w)
      (observe_buckets-IsCumulative d w.metrics.latency_count w.metrics.latency_histogram c)
