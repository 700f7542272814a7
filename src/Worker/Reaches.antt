-- ===== src/Worker/Reaches.antt =====
-- `processJob` of backend/src/worker/deliveryWorker.ts up to its request, where nothing stands in the way.
use event_relay.Base.{ℕ, suc, ◌≡◌, refl, ap, Bool, true, some, [], ◌++◌, Text, codes, find}
use event_relay.Store.{World, Redis, Endpoint, Event, DeliveryJob, ok, closed, CircuitRecord}
use event_relay.Store.Atomic.{attempt_runs}
use event_relay.RateLimiter.{take_token, consume}
use event_relay.Circuit.{can_execute, admit, get_circuit, is_of}
use event_relay.Ssrf.{valid, validate_endpoint_url}
use event_relay.Worker.{
  Env, after_ssrf, after_circuit, after_limit, ask_limiter, ask_again, with_rows, process_job,
}
use event_relay.Worker.Jobs.{event_row, endpoint_row}

module _ (endpoint_id : ℕ) (r : CircuitRecord) (w : World) (calm : w.faults ≡ [])
    (row : find (is_of endpoint_id) w.db.circuit_breakers ≡ some r) (shut : r.state ≡ closed) where
  pub get_circuit_runs : (n : ℕ) → get_circuit (suc n) endpoint_id w ≡ (ok r, w)
  unfolding get_circuit
  get_circuit_runs n =
      rw
        (attempt_runs (λ u. (ok (find (is_of endpoint_id) u.db.circuit_breakers), u)) w.faults w
          calm)
        (rw row refl)

  can_execute_runs : can_execute endpoint_id w ≡ (ok true, w)
  unfolding can_execute admit
  can_execute_runs = rw (get_circuit_runs 1) (rw shut refl)

-- The limiter's answer, and what it leaves.
abbrev pub limiter : Env → Endpoint → World → Bool × Redis
limiter env endpoint w =
    take_token (codes "ratelimit:" ++ (codes "endpoint:" ++ env.uuid_text endpoint.id))
      endpoint.rate_limit_rps endpoint.rate_limit_rps w.now w.redis

abbrev pub limited : Env → Endpoint → World → World
limited env endpoint w = record w { redis = (limiter env endpoint w).1 }

module _ (env : Env) (message_id : ℕ) (stream_name : Text) (job : DeliveryJob) (event : Event)
    (endpoint : Endpoint) (w : World) (r : CircuitRecord) where
  ask_limiter_runs :
      w.faults ≡ []
      → (limiter env endpoint w).0 ≡ true
      → ask_limiter env message_id stream_name job endpoint w ≡ (ok true, limited env endpoint w)
  unfolding ask_limiter consume
  ask_limiter_runs calm granted =
      rw
        (attempt_runs (λ u. (ok (limiter env endpoint u).0, limited env endpoint u)) w.faults w
          calm)
        (ap (λ b. (ok b, limited env endpoint w)) granted)

  -- Where no call fails, a job whose event and endpoint are there, whose endpoint has a token and a
  -- closed breaker and a valid URL, comes to its request, and only the limiter's buckets have changed.
  pub process_job-Reaches :
      w.faults ≡ []
      → event_row job.event_id w ≡ some event
      → endpoint_row job.endpoint_id w ≡ some endpoint
      → (limiter env endpoint w).0 ≡ true
      → find (is_of endpoint.id) w.db.circuit_breakers ≡ some r
      → r.state ≡ closed
      → validate_endpoint_url env.net endpoint.url ≡ valid
      → process_job env message_id stream_name job w
        ≡ after_ssrf env message_id stream_name job event endpoint valid (limited env endpoint w)
  unfolding process_job with_rows ask_again after_limit after_circuit
  process_job-Reaches calm event_there endpoint_there granted row shut is_valid =
      rw (attempt_runs (λ u. (ok (event_row job.event_id u), u)) w.faults w calm) (
        rw (attempt_runs (λ u. (ok (endpoint_row job.endpoint_id u), u)) w.faults w calm) (
          rw (event_there, endpoint_there)
            (rw (ask_limiter_runs calm granted) (
              rw (can_execute_runs endpoint.id r (limited env endpoint w) calm row shut)
                (rw is_valid refl)))))
