-- ===== src/Worker.antt =====
-- backend/src/worker/deliveryWorker.ts: `processJob` and `handleFailure`, call by call.
pub mod Expected
pub mod Failure
pub mod Frame
pub mod Jobs
pub mod Loop
pub mod Rounds
pub mod Reaches
pub mod Delivers
pub mod Opens
pub mod Fails
pub mod Lost
pub mod Stuck
mod Tests
use event_relay.Base.{
  ℕ, ◌+◌, ◌*◌, ◌/◌, Bool, true, false, ltb, ◌==◌, if◌then◌else◌, Option, none, some, List, [], ◌∷◌,
  ◌++◌, Text, codes, take, find, update,
}
use event_relay.Base.Decimal.{decimal}
use event_relay.Store.{
  World, Database, DeliveryJob, Endpoint, Event, Delivery, Post, retrying, success, dead_letter,
  Result, ok, M, ◌>>=◌, ◌>>◌, pure, modify, clock, query, execute, try_catch, try_finally,
}
use event_relay.Metrics.{inc_delivery, inc_dlq, observe_latency}
use event_relay.Backoff.{calculate_full_jitter_delay}
use event_relay.EventStatus.{sync_event_status}
use event_relay.Circuit.{can_execute, record_success, record_failure}
use event_relay.RateLimiter.{consume}
use event_relay.HmacSigner.{sign}
use event_relay.Ssrf.{Net, Verdict, valid, refused, validate_endpoint_url}
use event_relay.StreamQueue.{acknowledge}

-- What `axios.post` comes to: a status below 300, another status, or no response. Bodies are given
-- as `JSON.stringify` writes them, and each case has the time that it took.
pub data HttpOutcome : Type 0 where
  responded : ℕ → Text → ℕ → HttpOutcome
  rejected : ℕ → Text → ℕ → HttpOutcome
  unreachable : Text → ℕ → HttpOutcome

-- The configuration, and the outside world of one job: the number that `Math.random` gives, the
-- text of a UUID, the message of a failed statement, the HMAC, the network and the receiver.
pub record Env : Type 0 where
  pub base_stream : Text
  pub max_retries_default : ℕ
  pub fail_closed : Bool
  pub random : ℕ
  pub uuid_text : ℕ → Text
  pub db_error : Text
  pub hmac : Text → Text → Text
  pub net : Net
  pub http : Post → HttpOutcome

abbrev pub outcome_duration : HttpOutcome → ℕ
outcome_duration (responded status body duration) = duration
outcome_duration (rejected status body duration) = duration
outcome_duration (unreachable message duration) = duration

-- `endpoint.max_retries || config.maxRetriesDefault`.
abbrev pub or_positive : ℕ → ℕ → ℕ
or_positive n d = if n == 0 then d else n

-- `UPDATE deliveries SET … WHERE id = $n`.
abbrev pub update_delivery : ℕ → (Delivery → Delivery) → Database → Database
update_delivery id f db = record db {
  deliveries = update (λ (d : Delivery). d.id == id) f db.deliveries;
}

-- The columns that the three UPDATEs of the worker set.
abbrev pub to_retry : Option ℕ → Text → ℕ → ℕ → ℕ → Delivery → Delivery
to_retry status message duration next_retry_at attempt d = record d {
  http_status = status;
  error_message = some message;
  duration_ms = some duration;
  status = retrying;
  next_retry_at = some next_retry_at;
  attempt_number = attempt;
}

abbrev pub to_dead_letter : Option ℕ → Text → ℕ → Delivery → Delivery
to_dead_letter status message duration d = record d {
  http_status = status;
  error_message = some message;
  duration_ms = some duration;
  status = dead_letter;
  next_retry_at = none;
}

abbrev pub to_success : ℕ → Text → ℕ → Delivery → Delivery
to_success status body duration d = record d {
  http_status = some status;
  response_body = some (take 2048 body);
  duration_ms = some duration;
  status = success;
  error_message = none;
  next_retry_at = none;
}

module _ (env : Env) where
  -- `handleFailure`.
  unfoldable pub handle_failure : ℕ → ℕ → Endpoint → ℕ → Option ℕ → Text → ℕ → M (Unit {0})
  handle_failure delivery_id event_id endpoint attempt status message duration =
      if ltb attempt (or_positive endpoint.max_retries env.max_retries_default)
      then (do
        now ← clock
        execute (
            update_delivery delivery_id (
              to_retry status message duration
                (now
                  + calculate_full_jitter_delay attempt
                      (record { base_seconds = none; max_seconds = none }) env.random
                    * 1000)
                attempt))
        sync_event_status event_id
        pure tt)
      else (do
        execute (update_delivery delivery_id (to_dead_letter status message duration))
        sync_event_status event_id
        modify inc_dlq)

  module _ (message_id : ℕ) (stream_name : Text) (job : DeliveryJob) where
    unfoldable pub fail : Endpoint → Option ℕ → Text → ℕ → M (Unit {0})
    unfolding handle_failure
    fail endpoint status message duration =
        handle_failure job.delivery_id job.event_id endpoint job.attempt_number status message
          duration

    unfoldable pub acknowledge_job : M (Unit {0})
    unfolding acknowledge
    acknowledge_job = acknowledge env.base_stream stream_name message_id

    -- The request, with its signed headers.
    unfoldable pub request : Event → Endpoint → ℕ → Post
    request event endpoint now =
        let signed = sign env.hmac event.payload endpoint.secret_key (now / 1000) in
        record {
          url = endpoint.url;
          payload = event.payload;
          headers =
              (codes "Content-Type", codes "application/json")
              ∷ (codes "User-Agent", codes "EventRelay-Engine/1.0")
              ∷ (codes "X-EventRelay-Event-ID", env.uuid_text event.id)
              ∷ (codes "X-EventRelay-Event-Type", event.event_type)
              ∷ (codes "X-EventRelay-Delivery-ID", env.uuid_text job.delivery_id)
              ∷ (codes "X-EventRelay-Timestamp", signed.timestamp)
              ∷ (codes "X-EventRelay-Signature", signed.signature)
              ∷ [];
          timeout = endpoint.timeout_ms;
        }

    -- The request goes out, and its time passes.
    unfoldable pub send : Post → ℕ → World → World
    send post duration w = record w { posts = post ∷ w.posts; now = w.now + duration }

    -- The rest of the `try` block after a response.
    unfoldable pub on_response : Endpoint → ℕ → Text → ℕ → M (Unit {0})
    on_response endpoint status body duration = do
      execute (update_delivery job.delivery_id (to_success status body duration))
      sync_event_status job.event_id
      record_success endpoint.id
      modify (inc_delivery endpoint.name (codes "SUCCESS"))
      modify (observe_latency duration)

    -- The `catch` block.
    unfoldable pub on_error : Endpoint → Option ℕ → Text → ℕ → M (Unit {0})
    unfolding fail
    on_error endpoint status message duration = do
      modify (inc_delivery endpoint.name (codes "FAILED"))
      modify (observe_latency duration)
      record_failure endpoint.id
      fail endpoint status message duration

    -- The `try` and its `catch`, on what the request came to. The `catch` also takes the errors of
    -- the statements that follow a response.
    unfoldable pub settle : Endpoint → HttpOutcome → M (Unit {0})
    unfolding on_response on_error
    settle endpoint (responded status body duration) =
        try_catch (on_response endpoint status body duration)
          (on_error endpoint none env.db_error duration)
    settle endpoint (rejected status body duration) =
        on_error endpoint (some status)
          (codes "HTTP " ++ (decimal status ++ (codes ": " ++ take 500 body))) duration
    settle endpoint (unreachable message duration) = on_error endpoint none message duration

    unfoldable pub dispatch : Event → Endpoint → M (Unit {0})
    unfolding settle request send
    dispatch event endpoint = do
      now ← clock
      let post = request event endpoint now
      modify (send post (outcome_duration (env.http post)))
      settle endpoint (env.http post)

    unfoldable pub after_ssrf : Event → Endpoint → Verdict → M (Unit {0})
    unfolding dispatch fail acknowledge_job
    after_ssrf event endpoint (refused message) = do
      fail endpoint (some 400) (codes "SSRF Protection: " ++ message) 0
      acknowledge_job
    after_ssrf event endpoint valid = try_finally (dispatch event endpoint) acknowledge_job

    unfoldable pub after_circuit : Event → Endpoint → Bool → M (Unit {0})
    unfolding after_ssrf
    after_circuit event endpoint false = do
      fail endpoint none (codes "Circuit breaker is OPEN. Target host in cool-down.") 0
      acknowledge_job
    after_circuit event endpoint true =
        after_ssrf event endpoint (validate_endpoint_url env.net endpoint.url)

    unfoldable pub after_limit : Event → Endpoint → Bool → M (Unit {0})
    unfolding after_circuit
    after_limit event endpoint false = do
      fail endpoint (some 429) (codes "Endpoint rate limit throttled. Scheduled for backoff retry.")
          0
      acknowledge_job
    after_limit event endpoint true = do
      can_call ← can_execute endpoint.id
      after_circuit event endpoint can_call

    unfoldable pub ask_limiter : Endpoint → M Bool
    ask_limiter endpoint =
        consume env.fail_closed (codes "endpoint:" ++ env.uuid_text endpoint.id)
          endpoint.rate_limit_rps endpoint.rate_limit_rps

    -- A refused request waits half a second in place and asks once more.
    unfoldable pub ask_again : Endpoint → Bool → M Bool
    unfolding ask_limiter
    ask_again endpoint true = pure true
    ask_again endpoint false = do modify (λ w. record w { now = w.now + 500 }); ask_limiter endpoint

    unfoldable pub with_rows : Option Event → Option Endpoint → M (Unit {0})
    unfolding after_limit ask_again
    with_rows (some event) (some endpoint) = do
      first ← ask_limiter endpoint
      allowed ← ask_again endpoint first
      after_limit event endpoint allowed
    with_rows _ _ = acknowledge_job

    -- `processJob`.
    unfoldable pub process_job : M (Unit {0})
    unfolding with_rows
    process_job = do
      event ← query (λ db. find (λ (e : Event). e.id == job.event_id) db.events)
      endpoint ← query (λ db. find (λ (e : Endpoint). e.id == job.endpoint_id) db.endpoints)
      with_rows event endpoint
