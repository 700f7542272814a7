-- ===== src/Worker/Fails.antt =====
-- `processJob` of backend/src/worker/deliveryWorker.ts where the request fails.
use mathlib.Core.Path.{subst}
use event_relay.Base.{
  ℕ, ◌+◌, ◌*◌, ◌<◌, ◌≡◌, refl, ap, ◌∙◌, inl, inr, true, Bool-cases, ltb, ◌==◌, Option, none, some,
  [], ◌∷◌, ◌++◌, Text, codes, take, find,
}
use event_relay.Base.Decimal.{decimal}
use event_relay.Store.{
  World, Redis, Database, Endpoint, Event, Delivery, DeliveryJob, Post, CircuitRecord, closed,
  execute, ◌>>◌, ok, modify, M, pure,
}
use event_relay.Store.Atomic.{Returns, attempt_runs}
use event_relay.Metrics.{inc_delivery, observe_latency, inc_dlq}
use event_relay.Backoff.{resolution, calculate_full_jitter_delay}
use event_relay.EventStatus.{sync_event_status}
use event_relay.EventStatus.Sync.{sync_event_status_lem}
use event_relay.Circuit.{is_of}
use event_relay.Ssrf.{valid, validate_endpoint_url}
use event_relay.StreamQueue.{stream_or, acknowledge, acknowledge_entry}
use event_relay.Worker.{
  Env, HttpOutcome, responded, rejected, unreachable, outcome_duration, or_positive,
  update_delivery, to_retry, to_dead_letter, handle_failure, fail, request, send, on_error, settle,
  dispatch, acknowledge_job, after_ssrf, process_job,
}
use event_relay.HmacSigner.{sign}
use event_relay.Worker.Expected.{signed_post}
use event_relay.Worker.Failure.{synced, Handled, handle_failure-Handled}
use event_relay.Worker.Jobs.{event_row, endpoint_row}
use event_relay.Worker.Reaches.{limiter, limited, process_job-Reaches}
use event_relay.RateLimiter.{take_token}
use event_relay.Worker.Opens.{
  failed_breaker, failed_circuits-row, SameRows, failed_circuits-SameRows, record_failure_runs,
}

-- An UPDATE, the call of `syncEventStatus`, and what follows them.
stored_runs :
    (event_id : ℕ) (f : Database → Database) (k : M (Unit {0})) (w : World)
    → w.faults ≡ []
    → (do execute f; sync_event_status event_id; k) w
      ≡ k (record w { db = synced event_id (f w.db) })
stored_runs event_id f k w calm =
    rw (attempt_runs (modify (λ v. record v { db = f v.db })) w.faults w calm)
      (rw (sync_event_status_lem event_id (record w { db = f w.db }) calm) refl)

module _ (env : Env) (delivery_id event_id : ℕ) (endpoint : Endpoint) (attempt : ℕ)
    (status : Option ℕ) (message : Text) (duration : ℕ) (w : World) where
  handle_failure_runs :
      w.faults ≡ []
      → (v : World) × (handle_failure env delivery_id event_id endpoint attempt status message
            duration w
          ≡ (ok tt, v))
        × (v.faults ≡ [])
        × (v.posts ≡ w.posts)
        × (v.redis ≡ w.redis)
  unfolding handle_failure inc_dlq
  handle_failure_runs calm =
      elim (Bool-cases (ltb attempt (or_positive endpoint.max_retries env.max_retries_default))) [
        | inl e ↦ (
          record w { db = synced event_id (update_delivery delivery_id (later w.now) w.db) },
          rw e (stored_runs event_id (update_delivery delivery_id (later w.now)) (pure tt) w calm),
          calm,
          refl,
          refl,
        )
        | inr e ↦ (
          inc_dlq (record w {
            db =
                synced event_id
                  (update_delivery delivery_id (to_dead_letter status message duration) w.db);
          }),
          rw e (
              stored_runs event_id
                (update_delivery delivery_id (to_dead_letter status message duration))
                (modify inc_dlq) w calm),
          calm,
          refl,
          refl,
        )
      ]
    where
      later : ℕ → Delivery → Delivery
      later now =
          to_retry status message duration
            (now
              + calculate_full_jitter_delay attempt
                  (record { base_seconds = none; max_seconds = none }) env.random
                * 1000)
            attempt

-- The request came to no status below 300.
abbrev pub IsFailure : HttpOutcome → Type 0
IsFailure (responded status body duration) = ⊥
IsFailure _ = Unit {0}

abbrev pub code_of : HttpOutcome → Option ℕ
code_of (responded status body duration) = none
code_of (rejected status body duration) = some status
code_of (unreachable message duration) = none

abbrev pub message_of : HttpOutcome → Text
message_of (responded status body duration) = []
message_of (rejected status body duration) =
    codes "HTTP " ++ (decimal status ++ (codes ": " ++ take 500 body))
message_of (unreachable message duration) = message

module _ (env : Env) (message_id : ℕ) (stream_name : Text) (job : DeliveryJob) (event : Event)
    (endpoint : Endpoint) (outcome : HttpOutcome) where
  settle-on_error :
      IsFailure outcome
      → settle env message_id stream_name job endpoint outcome
        ≡ on_error env message_id stream_name job endpoint
            (code_of outcome)
            (message_of outcome)
            (outcome_duration outcome)
  unfolding settle
  settle-on_error = settled outcome
    where
      settled :
          (o : HttpOutcome)
          → IsFailure o
          → settle env message_id stream_name job endpoint o
            ≡ on_error env message_id stream_name job endpoint
                (code_of o)
                (message_of o)
                (outcome_duration o)
      settled (responded status body duration) h = absurd h
      settled (rejected status body duration) h = refl
      settled (unreachable message duration) h = refl

  -- The breaker's row has counted the failure, and the delivery is scheduled or buried, by its attempt,
  -- at this time.
  abbrev pub FailedFrom : CircuitRecord → Database → ℕ → World → Type 0
  FailedFrom r db now v =
      (counted : World) × SameRows db counted.db
      × (find (λ (c : CircuitRecord). c.endpoint_id == endpoint.id) counted.db.circuit_breakers
          ≡ some (failed_breaker now r))
      × (counted.now ≡ now)
      × Handled env job.delivery_id job.event_id endpoint job.attempt_number (code_of outcome)
          (message_of outcome) (outcome_duration outcome) counted v

  on_error_runs :
      (r : CircuitRecord) (w : World)
      → env.random < resolution
      → w.faults ≡ []
      → find (is_of endpoint.id) w.db.circuit_breakers ≡ some r
      → (v : World) × (on_error env message_id stream_name job endpoint
            (code_of outcome)
            (message_of outcome)
            (outcome_duration outcome)
            w
          ≡ (ok tt, v))
        × (v.faults ≡ [])
        × FailedFrom r w.db w.now v
        × (v.posts ≡ w.posts)
        × (v.redis ≡ w.redis)
  unfolding on_error fail inc_delivery observe_latency
  on_error_runs r w below calm row =
      let noted : World =
        observe_latency (outcome_duration outcome)
          (inc_delivery endpoint.name (codes "FAILED") w) in
      let (u, state, runs, calm', db', now', posts', redis') =
        record_failure_runs endpoint.id noted r calm row in
      let (v, runs', calm'', posts'', redis'') =
        handle_failure_runs env job.delivery_id job.event_id endpoint job.attempt_number
          (code_of outcome) (message_of outcome) (outcome_duration outcome) u calm' in
      (
        v,
        rw runs runs',
        calm'',
        (
          u,
          rw db' (failed_circuits-SameRows endpoint.id w.now r w.db),
          rw db' (failed_circuits-row endpoint.id w.now r w.db row),
          now',
          subst
              (Returns (λ _.
                Handled env job.delivery_id job.event_id endpoint job.attempt_number
                  (code_of outcome) (message_of outcome) (outcome_duration outcome) u))
              runs'
              (handle_failure-Handled env job.delivery_id job.event_id endpoint job.attempt_number
                (code_of outcome) (message_of outcome) (outcome_duration outcome) u below).0,
        ),
        posts'' ∙ posts',
        redis'' ∙ redis',
      )

  -- Where no call fails, a job whose event and endpoint are there, whose endpoint has a token and a
  -- closed breaker and a valid URL, and whose request gets no answer with a status below 300, returns,
  -- for a random number below 1. The breaker's row has one failure more, noted at the time of the
  -- answer, and is OPEN from then if that comes to the threshold. Then the delivery waits for another
  -- attempt or is a DEAD_LETTER, by its attempt and the limit, with the code and the message of the
  -- answer. Its event has the status that the comment of syncEventStatus gives for its deliveries,
  -- unless one is PENDING beside a success and a dead letter with none RETRYING. One request went out,
  -- with the payload, the seven headers and the HMAC as the signature; and the message is acknowledged.
  pub process_job-Fails :
      (w : World) (r : CircuitRecord)
      → env.random < resolution
      → w.faults ≡ []
      → event_row job.event_id w ≡ some event
      → endpoint_row job.endpoint_id w ≡ some endpoint
      → (limiter env endpoint w).0 ≡ true
      → find (is_of endpoint.id) w.db.circuit_breakers ≡ some r
      → r.state ≡ closed
      → validate_endpoint_url env.net endpoint.url ≡ valid
      → env.http (signed_post env job event endpoint w.now) ≡ outcome
      → IsFailure outcome
      → (v : World) × (process_job env message_id stream_name job w ≡ (ok tt, v))
        × (v.faults ≡ [])
        × FailedFrom r w.db (w.now + outcome_duration outcome) v
        × (v.posts ≡ signed_post env job event endpoint w.now ∷ w.posts)
        × (v.redis.acknowledged
            ≡ (stream_or stream_name env.base_stream, message_id) ∷ w.redis.acknowledged)
  unfolding after_ssrf dispatch send request sign acknowledge_job acknowledge take_token
  process_job-Fails w r below calm event_there endpoint_there granted row shut is_valid answers
        failure =
      let post : Post = request env message_id stream_name job event endpoint w.now in
      let sent : World = record (limited env endpoint w) {
        posts = post ∷ w.posts;
        now = w.now + outcome_duration outcome;
      } in
      let (v, runs, calm', failed, posts', redis') = on_error_runs r sent below calm row in
      let entry = acknowledge_entry (stream_or stream_name env.base_stream) message_id in
      (
        (entry v).1,
        process_job-Reaches env message_id stream_name job event endpoint w r calm event_there
              endpoint_there granted row shut is_valid
            ∙ rw answers (
                rw (settle-on_error failure)
                  (rw runs (rw (attempt_runs entry v.faults v calm') refl))),
        calm',
        failed,
        posts',
        ap (λ (x : Redis). (stream_or stream_name env.base_stream, message_id) ∷ x.acknowledged)
            redis',
      )
