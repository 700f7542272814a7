-- ===== src/Api/Listings.antt =====
-- The handlers of backend/src/api that only read: `listEvents`, `listDeliveries`, `listEndpoints`,
-- `listCircuits`. A row
-- is created when it is inserted, so `ORDER BY created_at DESC` is the order of insertion, reversed.
use mathlib.Core.List.{reverse}
use event_relay.Base.{
  ℕ, ◌==◌, Bool, true, Option, none, some, List, [], ◌∷◌, ◌++◌, map, find, select, take, Text,
  codes, text_eq,
}
use event_relay.Base.Sort.{sort_by}
use event_relay.Base.Decimal.{parse_int}
use event_relay.Store.{
  World, Database, Endpoint, Event, Delivery, DeliveryStatus, pending, retrying, success,
  dead_letter, CircuitState, closed, half_open, half_open_probing, opened, CircuitRecord, Result,
  ok, thrown, M, ◌>>=◌, pure, call, query, try_catch,
}
use event_relay.Circuit.{is_of}

-- The rows as JSON, or status 500.
pub data Listed (A : Type 0) : Type 0 where
  rows : List A → Listed A
  list_failed : Listed A

-- `parseInt(req.query.limit || '…', 10)`: the empty text is falsy, `none` is NaN.
unfoldable pub limit_of : ℕ → Option Text → Option ℕ
limit_of default none = some default
limit_of default (some []) = some default
limit_of default (some (c ∷ s)) = parse_int (c ∷ s)

-- `LIMIT $n`: PostgreSQL takes no NaN there.
abbrev pub limited : {A : Type 0} → Option ℕ → List A → World → Result (List A) × World
limited none rs w = (thrown, w)
limited (some n) rs w = (ok (take n rs), w)

abbrev pub list_query : {A : Type 0} → Option ℕ → (Database → List A) → M (Listed A)
list_query limit f =
    try_catch (do rs ← call (λ w. limited limit (f w.db) w); pure (rows rs)) (pure list_failed)

unfoldable pub list_events : Option Text → M (Listed Event)
unfolding limit_of
list_events limit = list_query (limit_of 20 limit) (λ db. reverse db.events)

-- A row of the join, with the columns taken from the event and the endpoint.
pub record DeliveryRow : Type 0 where
  pub delivery : Delivery
  pub event_type : Text
  pub endpoint_name : Text
  pub endpoint_url : Text

abbrev pub status_text : DeliveryStatus → Text
status_text pending = codes "PENDING"
status_text retrying = codes "RETRYING"
status_text success = codes "SUCCESS"
status_text dead_letter = codes "DEAD_LETTER"

abbrev pub joined : Delivery → Option Event → Option Endpoint → List DeliveryRow
joined d (some e) (some ep) =
    record {
      delivery = d;
      event_type = e.event_type;
      endpoint_name = ep.name;
      endpoint_url = ep.url;
    }
    ∷ []
joined d _ _ = []

-- The two joins: a delivery without its event or its endpoint has no row.
unfoldable pub join_deliveries : Database → List Delivery → List DeliveryRow
join_deliveries db [] = []
join_deliveries db (d ∷ ds) =
    joined d (find (λ (e : Event). e.id == d.event_id) db.events)
      (find (λ (ep : Endpoint). ep.id == d.endpoint_id) db.endpoints)
    ++ join_deliveries db ds

-- `if (status)` adds the WHERE.
abbrev pub has_status : Option Text → Delivery → Bool
has_status none d = true
has_status (some []) d = true
has_status (some (c ∷ s)) d = text_eq (status_text d.status) (c ∷ s)

unfoldable pub list_deliveries : Option Text → Option Text → M (Listed DeliveryRow)
unfolding limit_of join_deliveries
list_deliveries status limit =
    list_query (limit_of 50 limit)
      (λ db. join_deliveries db (reverse (select (has_status status) db.deliveries)))

-- A row of `listEndpoints`.
pub record EndpointRow : Type 0 where
  pub id : ℕ
  pub name : Text
  pub url : Text
  pub rate_limit_rps : ℕ
  pub max_retries : ℕ
  pub timeout_ms : ℕ
  pub is_active : Bool
  pub subscribed_events : List Text
  pub secret_preview : Text
  pub circuit_state : Option CircuitState
  pub circuit_failures : Option ℕ

abbrev pub state_of : Option CircuitRecord → Option CircuitState
state_of none = none
state_of (some r) = some r.state

abbrev pub failures_of : Option CircuitRecord → Option ℕ
failures_of none = none
failures_of (some r) = some r.failure_count

-- A column of the LEFT JOIN is null where the endpoint has no breaker.
unfoldable pub listed_endpoint : Database → Endpoint → EndpointRow
listed_endpoint db ep =
    let breaker = find (is_of ep.id) db.circuit_breakers in
    record {
      id = ep.id;
      name = ep.name;
      url = ep.url;
      rate_limit_rps = ep.rate_limit_rps;
      max_retries = ep.max_retries;
      timeout_ms = ep.timeout_ms;
      is_active = ep.is_active;
      subscribed_events = ep.subscribed_events;
      secret_preview = take 10 ep.secret_key ++ codes "****************";
      circuit_state = state_of breaker;
      circuit_failures = failures_of breaker;
    }

unfoldable pub list_endpoints : M (Listed EndpointRow)
unfolding listed_endpoint
list_endpoints =
    try_catch
      (do rs ← query (λ db. map (listed_endpoint db) (reverse db.endpoints)); pure (rows rs))
      (pure list_failed)

-- A row of `listCircuits`.
pub record CircuitRow : Type 0 where
  pub circuit : CircuitRecord
  pub endpoint_name : Text
  pub endpoint_url : Text

-- The order of the states as texts.
abbrev pub state_rank : CircuitState → ℕ
state_rank closed = 0
state_rank half_open = 1
state_rank half_open_probing = 2
state_rank opened = 3

abbrev pub with_endpoint : CircuitRecord → Option Endpoint → List CircuitRow
with_endpoint r none = []
with_endpoint r (some ep) =
    record { circuit = r; endpoint_name = ep.name; endpoint_url = ep.url } ∷ []

-- The join: a breaker without its endpoint has no row.
unfoldable pub join_circuits : List Endpoint → List CircuitRecord → List CircuitRow
join_circuits eps [] = []
join_circuits eps (r ∷ rs) =
    with_endpoint r (find (λ (ep : Endpoint). ep.id == r.endpoint_id) eps) ++ join_circuits eps rs

-- `ORDER BY state DESC, updated_at DESC`; `updated_at` is that column, by the endpoint.
unfoldable pub order_circuits : (ℕ → ℕ) → List CircuitRecord → List CircuitRecord
unfolding sort_by
order_circuits updated_at rs = reverse (
    sort_by (λ (r : CircuitRecord). state_rank r.state)
      (sort_by (λ (r : CircuitRecord). updated_at r.endpoint_id) rs))

unfoldable pub list_circuits : (ℕ → ℕ) → M (Listed CircuitRow)
unfolding join_circuits order_circuits
list_circuits updated_at =
    try_catch
      (do
        rs ←
            query (λ db. join_circuits db.endpoints (order_circuits updated_at db.circuit_breakers))
        pure (rows rs))
      (pure list_failed)
