-- ===== src/Gateway/Total.antt =====
-- The handlers of backend/src/index.ts where calls fail.
use event_relay.Base.{ℕ, Option, none, some, [], ◌∷◌, Text, codes}
use event_relay.Store.{World, Result, ok, thrown, M, ◌>>=◌, pure, continue, recover}
use event_relay.Store.Atomic.{Ends, Ends-imp, continue-Ends}
use event_relay.Http.{Request, Gate, next, answered}
use event_relay.Auth.{require_api_key}
use event_relay.InboundLimit.{inbound_rate_limiter}
use event_relay.InboundLimit.Answers.{Decided, inbound_rate_limiter-Decided}
use event_relay.Ingest.{IngestRequest, ingest_event, ingest_transaction, with_body}
use event_relay.Replay
use event_relay.Ingest
use event_relay.Replay.{replay_delivery, read_delivery, replay_transaction}
use event_relay.Api.Endpoints.{EndpointBody, create_endpoint, reset_handler, reset_failed}
use event_relay.Api.Created.{Made, create_endpoint-Made}
use event_relay.Api.Listings.{
  list_failed, list_events, list_deliveries, list_endpoints, list_circuits,
}
use event_relay.Gateway.{
  Gateway, Route, get_health, get_metrics, get_events, get_endpoints, get_deliveries, get_circuits,
  listed_circuits, post_events, post_endpoints, post_replay, post_reset, ingested, listed_events,
  listed_endpoints, listed_deliveries, replayed, circuit_reset, endpoint_answer, through,
  limited_ingest, handler, handle,
}

-- The handler returns a value: no error escapes.
abbrev Returned : {A : Type 0} → Result A × World → Type 0
Returned r = Ends (λ _. λ v. Unit {0}) (λ v. ⊥) r

abbrev pub Answers : {A : Type 0} → M A → World → Type 0
Answers m w = Returned (m w)

caught : {A : Type 0} (r : Result A × World) (a : A) → Returned (recover r (pure a))
caught (ok b, v) a = tt
caught (thrown, v) a = tt

-- A value that is wrapped.
wrapped :
    {A B : Type 0} (r : Result A × World) (f : A → B)
    → Returned r
    → Returned (continue r (λ a. pure (f a)))
wrapped (ok a, v) f h = tt
wrapped (thrown, v) f h = absurd h

ingest-Answers :
    (key : Option Text) (body : Option IngestRequest) (w : World)
    → Answers (ingest_event key body) w
unfolding ingest_event
ingest-Answers none body w = tt
ingest-Answers (some []) body w = tt
ingest-Answers (some (c ∷ key)) none w = tt
ingest-Answers (some (c ∷ key)) (some request) w = caught _ Ingest.server_error

module _ (g : Gateway) (req : Request) where
  after_gate :
      (body : Option IngestRequest) (gate : Gate) (w : World)
      → Answers
          (through gate (λ headers. do
            response ← ingest_event (req.header (codes "Idempotency-Key")) body
            pure (ingested headers response)))
          w
  after_gate body (next headers) w =
      wrapped _ _ (ingest-Answers (req.header (codes "Idempotency-Key")) body w)
  after_gate body (answered reply) w = tt

  read_events : (limit : Option Text) (w : World) → Answers (list_events limit) w
  unfolding list_events
  read_events limit w = caught _ list_failed

  read_deliveries :
      (status limit : Option Text) (w : World) → Answers (list_deliveries status limit) w
  unfolding list_deliveries
  read_deliveries status limit w = caught _ list_failed

  read_endpoints : (w : World) → Answers list_endpoints w
  unfolding list_endpoints
  read_endpoints w = caught _ list_failed

  read_circuits : (updated_at : ℕ → ℕ) (w : World) → Answers (list_circuits updated_at) w
  unfolding list_circuits
  read_circuits updated_at w = caught _ list_failed

  replay-Answers : (id : ℕ) (w : World) → Answers (replay_delivery id) w
  unfolding replay_delivery
  replay-Answers id w = caught _ Replay.server_error

  reset-Answers : (id : ℕ) (w : World) → Answers (reset_handler id) w
  unfolding reset_handler
  reset-Answers id w = caught _ reset_failed

  create-Answers :
      (body : EndpointBody) (w : World)
      → Answers (create_endpoint g.net g.is_url g.random_hex body) w
  create-Answers body w =
      Ends-imp (Made g.net w) (λ _. λ v. Unit {0}) (λ v. ⊥) (λ v. ⊥) _ (λ _ _ _. tt) (λ _ h. h)
        (create_endpoint-Made g.net w g.is_url g.random_hex body)

  limited-Answers :
      (body : Option IngestRequest) (w : World) → Answers (limited_ingest g req body) w
  limited-Answers body w =
      continue-Ends (Decided g.rps req w) (λ _. λ v. Unit {0}) (λ v. ⊥)
        (inbound_rate_limiter g.rps req w) _ (inbound_rate_limiter-Decided g.rps req w)
        (λ gate v _. after_gate body gate v)

  handler-Answers : (route : Route) (w : World) → Answers (handler g req route) w
  handler-Answers get_health w = tt
  handler-Answers get_metrics w = tt
  handler-Answers (post_events body) w = limited-Answers body w
  handler-Answers get_events w = wrapped _ listed_events (read_events (req.query (codes "limit")) w)
  handler-Answers (post_endpoints body) w = wrapped _ endpoint_answer (create-Answers body w)
  handler-Answers get_endpoints w = wrapped _ listed_endpoints (read_endpoints w)
  handler-Answers get_deliveries w =
      wrapped _ listed_deliveries
        (read_deliveries (req.query (codes "status")) (req.query (codes "limit")) w)
  handler-Answers get_circuits w = wrapped _ listed_circuits (read_circuits g.circuit_updated_at w)
  handler-Answers (post_replay id) w = wrapped _ replayed (replay-Answers id w)
  handler-Answers (post_reset id) w = wrapped _ circuit_reset (reset-Answers id w)

  through-Answers :
      (route : Route) (gate : Gate) (w : World)
      → Answers (through gate (λ headers. handler g req route)) w
  through-Answers route (next headers) w = handler-Answers route w
  through-Answers route (answered reply) w = tt

  -- Every route answers every request, whichever calls to PostgreSQL and Redis fail: no error escapes
  -- from a handler.
  pub handle-Answers : (route : Route) (w : World) → Answers (handle g req route) w
  unfolding handle
  handle-Answers get_health w = tt
  handle-Answers get_metrics w = through-Answers get_metrics (require_api_key g.bytes g.keys req) w
  handle-Answers (post_events body) w =
      through-Answers (post_events body) (require_api_key g.bytes g.keys req) w
  handle-Answers get_events w = through-Answers get_events (require_api_key g.bytes g.keys req) w
  handle-Answers (post_endpoints body) w =
      through-Answers (post_endpoints body) (require_api_key g.bytes g.keys req) w
  handle-Answers get_endpoints w =
      through-Answers get_endpoints (require_api_key g.bytes g.keys req) w
  handle-Answers get_deliveries w =
      through-Answers get_deliveries (require_api_key g.bytes g.keys req) w
  handle-Answers get_circuits w =
      through-Answers get_circuits (require_api_key g.bytes g.keys req) w
  handle-Answers (post_replay id) w =
      through-Answers (post_replay id) (require_api_key g.bytes g.keys req) w
  handle-Answers (post_reset id) w =
      through-Answers (post_reset id) (require_api_key g.bytes g.keys req) w
