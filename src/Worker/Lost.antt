-- ===== src/Worker/Lost.antt =====
-- `processJob` of backend/src/worker/deliveryWorker.ts: a failed request whose failure is not recorded.
use event_relay.Base.{ℕ, ◌≡◌, refl, true, [], ◌∷◌, Text}
use event_relay.Store.{World, Endpoint, Event, DeliveryJob, thrown}
use event_relay.Metrics.{inc_delivery, observe_latency}
use event_relay.StreamQueue.{stream_or}
use event_relay.Circuit.{record_failure}
use event_relay.Ssrf.{valid}
use event_relay.Worker.{Env, unreachable, request, after_ssrf}

module _ (env : Env) (message_id : ℕ) (stream_name : Text) (job : DeliveryJob) (event : Event)
    (endpoint : Endpoint) (message : Text) (duration : ℕ) (w : World) where
  -- If the receiver of a request cannot be reached, and the call that records the failure with the
  -- breaker throws, as the only one to fail, then the job throws, the message is acknowledged all the
  -- same, and no table has changed: neither a retry nor a dead letter is recorded.
  pub unrecorded_failure :
      env.http (request env message_id stream_name job event endpoint w.now)
        ≡ unreachable message duration
      → w.faults ≡ true ∷ []
      → ((after_ssrf env message_id stream_name job event endpoint valid w).0 ≡ thrown)
        × ((after_ssrf env message_id stream_name job event endpoint valid w).1.db ≡ w.db)
        × ((after_ssrf env message_id stream_name job event endpoint valid w).1.redis.acknowledged
            ≡ (stream_or stream_name env.base_stream, message_id) ∷ w.redis.acknowledged)
  unfolding after_ssrf inc_delivery observe_latency record_failure
  unrecorded_failure h e = rw (h, e) (refl, refl, refl)
