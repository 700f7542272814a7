-- ===== src/Metrics/Tests.antt =====
-- Latencies of 5, 300 and 20000 milliseconds.
use event_relay.Base.{◌≡◌, refl, [], ◌∷◌, map, codes, arith}
use event_relay.Base.Decimal.{decimal}
use event_relay.Metrics.Export.{seconds}
use event_relay.Metrics.{new_metrics}
use event_relay.Metrics.Histogram.{IsCumulative}

new_metrics-IsCumulative : IsCumulative new_metrics.latency_count new_metrics.latency_histogram
unfolding new_metrics
new_metrics-IsCumulative = ground arith

bounds_in_seconds :
    map seconds (10 ∷ 250 ∷ 2500 ∷ 10000 ∷ [])
    ≡ codes "0.01" ∷ codes "0.25" ∷ codes "2.5" ∷ codes "10" ∷ []
unfolding decimal
bounds_in_seconds = refl
