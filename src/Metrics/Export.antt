-- ===== src/Metrics/Export.antt =====
-- `exportPrometheus` of backend/src/metrics/prometheus.ts. Latencies are in milliseconds, so the sum
-- has three decimals that count; `uuid_text` writes the identifier of an endpoint.
use event_relay.Base.{ℕ, ◌/◌, ◌%◌, ◌==◌, if◌then◌else◌, List, [], ◌∷◌, ◌++◌, map, Text, codes}
use event_relay.Base.Decimal.{decimal}
use event_relay.Store.{Metrics}

-- A number of milliseconds as seconds: 10 is 0.01, 2500 is 2.5, 1000 is 1.
abbrev pub three_digits : ℕ → Text
three_digits n = decimal (n / 100) ++ (decimal (n / 10 % 10) ++ decimal (n % 10))

abbrev pub fraction : ℕ → Text
fraction n =
    if n % 100 == 0
    then decimal (n / 100)
    else (if n % 10 == 0 then decimal (n / 100) ++ decimal (n / 10 % 10) else three_digits n)

abbrev pub seconds : ℕ → Text
seconds ms =
    if ms % 1000 == 0
    then decimal (ms / 1000)
    else decimal (ms / 1000) ++ (codes "." ++ fraction (ms % 1000))

-- `toFixed(4)` of the sum in seconds.
abbrev pub fixed : ℕ → Text
fixed ms = decimal (ms / 1000) ++ (codes "." ++ (three_digits (ms % 1000) ++ codes "0"))

-- `${name}{${labels}} ${val}`.
abbrev pub sample : Text → Text → Text → Text
sample name labels value = name ++ (codes "{" ++ (labels ++ (codes "} " ++ value)))

abbrev pub plain : Text → Text → Text
plain name value = name ++ (codes " " ++ value)

abbrev pub quoted : Text → Text → Text
quoted label value = label ++ (codes "=\"" ++ (value ++ codes "\""))

-- A blank line before a `# HELP`.
abbrev pub after_blank : Text → Text
after_blank line = 10 ∷ line

abbrev pub event_line : Text × ℕ → Text
event_line e =
    sample (codes "eventrelay_events_ingested_total") (quoted (codes "event_type") e.0)
      (decimal e.1)

abbrev pub delivery_line : Text × ℕ → Text
delivery_line e = sample (codes "eventrelay_deliveries_total") e.0 (decimal e.1)

abbrev pub bucket_line : ℕ × ℕ → Text
bucket_line b =
    sample (codes "eventrelay_delivery_duration_seconds_bucket") (quoted (codes "le") (seconds b.0))
      (decimal b.1)

-- A family with no sample has the value 0.
abbrev pub or_zero : Text → List Text → List Text
or_zero name [] = plain name (codes "0") ∷ []
or_zero name (l ∷ ls) = l ∷ ls

module _ (uuid_text : ℕ → Text) where
  abbrev pub circuit_line : ℕ × ℕ → Text
  circuit_line e =
      sample (codes "eventrelay_circuit_breaker_state") (quoted (codes "endpoint") (uuid_text e.0))
        (decimal e.1)

  -- `lines`, in order.
  unfoldable pub export_lines : Metrics → List Text
  export_lines m =
      codes "# HELP eventrelay_events_ingested_total Total number of business events ingested"
        ∷ codes "# TYPE eventrelay_events_ingested_total counter"
        ∷ or_zero (codes "eventrelay_events_ingested_total") (map event_line m.events_ingested)
      ++ (after_blank
              (codes "# HELP eventrelay_deliveries_total Total deliveries attempted by outcome")
            ∷ codes "# TYPE eventrelay_deliveries_total counter"
            ∷ or_zero (codes "eventrelay_deliveries_total") (map delivery_line m.deliveries_total)
          ++ (after_blank
                  (codes "# HELP eventrelay_dlq_total Total deliveries routed to Dead-Letter Queue")
                ∷ codes "# TYPE eventrelay_dlq_total counter"
                ∷ plain (codes "eventrelay_dlq_total") (decimal m.dlq_total)
                ∷ after_blank (
                    codes
                      "# HELP eventrelay_ratelimiter_errors_total Total Redis rate limiter evaluation exceptions")
                ∷ codes "# TYPE eventrelay_ratelimiter_errors_total counter"
                ∷ plain (codes "eventrelay_ratelimiter_errors_total")
                    (decimal m.rate_limiter_errors)
                ∷ after_blank
                    (codes "# HELP eventrelay_delivery_duration_seconds Webhook execution latency")
                ∷ codes "# TYPE eventrelay_delivery_duration_seconds histogram"
                ∷ map bucket_line m.latency_histogram
              ++ (sample (codes "eventrelay_delivery_duration_seconds_bucket")
                    (quoted (codes "le") (codes "+Inf")) (decimal m.latency_count)
                  ∷ plain (codes "eventrelay_delivery_duration_seconds_sum") (fixed m.latency_sum)
                  ∷ plain (codes "eventrelay_delivery_duration_seconds_count")
                      (decimal m.latency_count)
                  ∷ after_blank (
                      codes
                        "# HELP eventrelay_circuit_breaker_state Current state (0=CLOSED, 1=HALF_OPEN, 2=OPEN)")
                  ∷ codes "# TYPE eventrelay_circuit_breaker_state gauge"
                  ∷ map circuit_line m.circuit_states)))

-- `lines.join('\n') + '\n'`.
unfoldable pub ended : List Text → Text
ended [] = []
ended (l ∷ ls) = l ++ (10 ∷ ended ls)

unfoldable pub export_prometheus : (ℕ → Text) → Metrics → Text
unfolding export_lines ended
export_prometheus uuid_text m = ended (export_lines uuid_text m)
