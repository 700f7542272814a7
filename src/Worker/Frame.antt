-- ===== src/Worker/Frame.antt =====
-- What the worker's parts leave alone.
use event_relay.Base.{ℕ, Bool, true, false, Option, none, some, Text, ltb}
use event_relay.Store.{World, Endpoint}
use event_relay.Store.Frame.{
  Keeps, Blind, BlindToBreakers, call-Keeps, continue-Keeps, recover-Keeps, if-Keeps,
}
use event_relay.Metrics.{inc_delivery, inc_dlq, observe_latency}
use event_relay.EventStatus.Sync.{sync_event_status-Keeps}
use event_relay.Circuit.Frame.{record_success-Keeps, record_failure-Keeps}
use event_relay.RateLimiter.Frame.{consume-Keeps}
use event_relay.Worker.{
  Env, HttpOutcome, responded, rejected, unreachable, or_positive, handle_failure, fail,
  on_response, on_error, settle, ask_limiter, ask_again,
}
use event_relay.Store.{DeliveryJob}

module _ {P : World → Type 0} (b : Blind P) (env : Env) where
  pub handle_failure-Keeps :
      (delivery_id event_id : ℕ) (endpoint : Endpoint) (attempt : ℕ) (status : Option ℕ)
      (message : Text) (duration : ℕ)
      → Keeps P (handle_failure env delivery_id event_id endpoint attempt status message duration)
  unfolding handle_failure inc_dlq
  handle_failure-Keeps delivery_id event_id endpoint attempt status message duration =
      if-Keeps P (ltb attempt (or_positive endpoint.max_retries env.max_retries_default)) _ _
        (λ w h.
          continue-Keeps P _ _ (call-Keeps b _ (λ v g. b.to_rows v _ _ g) w h)
            λ _ v g. continue-Keeps P _ _ (sync_event_status-Keeps b event_id v g) λ _ u i. i)
        (λ w h. continue-Keeps P _ _ (call-Keeps b _ (λ v g. b.to_rows v _ _ g) w h) λ _ v g.
          continue-Keeps P _ _ (sync_event_status-Keeps b event_id v g) λ _ u i. b.to_metrics u _ i)

  module _ (message_id : ℕ) (stream_name : Text) (job : DeliveryJob) where
    pub ask_limiter-Keeps :
        (endpoint : Endpoint) → Keeps P (ask_limiter env message_id stream_name job endpoint)
    unfolding ask_limiter
    ask_limiter-Keeps endpoint = consume-Keeps b _ _ _ _

    pub ask_again-Keeps :
        (endpoint : Endpoint) (first : Bool)
        → Keeps P (ask_again env message_id stream_name job endpoint first)
    unfolding ask_again
    ask_again-Keeps endpoint true w h = h
    ask_again-Keeps endpoint false w h = ask_limiter-Keeps endpoint _ (b.to_clock w _ h)

    pub fail-Keeps :
        (endpoint : Endpoint) (status : Option ℕ) (message : Text) (duration : ℕ)
        → Keeps P (fail env message_id stream_name job endpoint status message duration)
    unfolding fail
    fail-Keeps endpoint status message duration =
        handle_failure-Keeps job.delivery_id job.event_id endpoint job.attempt_number status message
          duration

    module _ (c : BlindToBreakers P) where
      on_error-Keeps :
          (endpoint : Endpoint) (status : Option ℕ) (message : Text) (duration : ℕ)
          → Keeps P (on_error env message_id stream_name job endpoint status message duration)
      unfolding on_error inc_delivery observe_latency
      on_error-Keeps endpoint status message duration w h =
          continue-Keeps P _ _ (record_failure-Keeps b c endpoint.id _ (b.to_metrics w _ h))
            λ _. fail-Keeps endpoint status message duration

      on_response-Keeps :
          (endpoint : Endpoint) (status : ℕ) (body : Text) (duration : ℕ)
          → Keeps P (on_response env message_id stream_name job endpoint status body duration)
      unfolding on_response inc_delivery observe_latency
      on_response-Keeps endpoint status body duration w h =
          continue-Keeps P _ _ (call-Keeps b _ (λ v g. b.to_rows v _ _ g) w h) λ _ v g.
            continue-Keeps P _ _ (sync_event_status-Keeps b job.event_id v g) λ _ u i.
              continue-Keeps P _ _ (record_success-Keeps b c endpoint.id u i)
                λ _ x j. b.to_metrics x _ j

      pub settle-Keeps :
          (endpoint : Endpoint) (outcome : HttpOutcome)
          → Keeps P (settle env message_id stream_name job endpoint outcome)
      unfolding settle
      settle-Keeps endpoint (responded status body duration) w h =
          recover-Keeps P _ _ (on_response-Keeps endpoint status body duration w h)
            (on_error-Keeps endpoint none env.db_error duration)
      settle-Keeps endpoint (rejected status body duration) w h =
          on_error-Keeps endpoint (some status) _ duration w h
      settle-Keeps endpoint (unreachable message duration) w h =
          on_error-Keeps endpoint none message duration w h
