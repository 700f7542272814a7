-- ===== src/Gateway.antt =====
-- backend/src/index.ts: the routes, with the middleware in front of each handler.
pub mod Boot
pub mod Closed
pub mod Total
mod Tests
use event_relay.Base.{ℕ, Bool, Option, none, some, List, [], ◌∷◌, ◌++◌, Text, codes}
use event_relay.Store.{World, Event, Result, ok, M, ◌>>=◌, pure}
use event_relay.Http.{Request, Reply, Gate, next, answered}
use event_relay.Auth.{KeyConfig, require_api_key}
use event_relay.InboundLimit.{inbound_rate_limiter}
use event_relay.Ingest.{IngestRequest, ingest_event}
use event_relay.Ingest
use event_relay.Replay.{replay_delivery}
use event_relay.Replay
use event_relay.Ssrf.{Net}
use event_relay.Metrics.Export.{export_prometheus}
use event_relay.Api.Endpoints.{EndpointBody, create_endpoint, ResetResponse, reset_handler}
use event_relay.Api.Endpoints
use event_relay.Api.Listings.{
  Listed, DeliveryRow, EndpointRow, CircuitRow, list_events, list_deliveries, list_endpoints,
  list_circuits,
}

-- The method and path of a request, with its body where the handler reads one.
pub data Route : Type 0 where
  get_health get_metrics get_events get_endpoints get_deliveries get_circuits : Route
  post_events : Option IngestRequest → Route
  post_endpoints : EndpointBody → Route
  post_replay : ℕ → Route
  post_reset : ℕ → Route

-- An answer, with the headers of the limiter where it set some.
pub data Answer : Type 0 where
  healthy : Answer
  denied : Reply → Answer
  metrics_text : Text → Answer
  ingested : List (Text × Text) → Ingest.Response → Answer
  listed_events : Listed Event → Answer
  endpoint_answer : Endpoints.Response → Answer
  listed_endpoints : Listed EndpointRow → Answer
  listed_deliveries : Listed DeliveryRow → Answer
  listed_circuits : Listed CircuitRow → Answer
  replayed : Replay.Response → Answer
  circuit_reset : ResetResponse → Answer

-- What the routes read of the process: the key, the limit of events, what stands for code outside, and
-- the column updated_at of the breakers.
pub record Gateway : Type 0 where
  pub keys : KeyConfig
  pub rps : ℕ
  pub bytes : Text → List ℕ
  pub net : Net
  pub is_url : Text → Bool
  pub random_hex : Text
  pub uuid_text : ℕ → Text
  pub circuit_updated_at : ℕ → ℕ

-- A middleware, and what follows it.
abbrev pub through : Gate → (List (Text × Text) → M Answer) → M Answer
through (next headers) handler = handler headers
through (answered reply) handler = pure (denied reply)

abbrev pub limited_ingest : Gateway → Request → Option IngestRequest → M Answer
limited_ingest g req body = do
  gate ← inbound_rate_limiter g.rps req
  through gate (λ headers. do
    response ← ingest_event (req.header (codes "Idempotency-Key")) body
    pure (ingested headers response))

-- The handler of a route that asks for the key.
abbrev pub handler : Gateway → Request → Route → M Answer
handler g req get_health = pure healthy
handler g req get_metrics = λ w. (ok (metrics_text (export_prometheus g.uuid_text w.metrics)), w)
handler g req (post_events body) = limited_ingest g req body
handler g req get_events = do
  response ← list_events (req.query (codes "limit"))
  pure (listed_events response)
handler g req (post_endpoints body) = do
  response ← create_endpoint g.net g.is_url g.random_hex body
  pure (endpoint_answer response)
handler g req get_endpoints = do response ← list_endpoints; pure (listed_endpoints response)
handler g req get_deliveries = do
  response ← list_deliveries (req.query (codes "status")) (req.query (codes "limit"))
  pure (listed_deliveries response)
handler g req get_circuits = do
  response ← list_circuits g.circuit_updated_at
  pure (listed_circuits response)
handler g req (post_replay id) = do response ← replay_delivery id; pure (replayed response)
handler g req (post_reset id) = do response ← reset_handler id; pure (circuit_reset response)

-- All routes but `/health` are behind `requireApiKey`.
unfoldable pub handle : Gateway → Request → Route → M Answer
handle g req get_health = pure healthy
handle g req route = through (require_api_key g.bytes g.keys req) (λ headers. handler g req route)
