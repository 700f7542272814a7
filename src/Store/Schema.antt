-- ===== src/Store/Schema.antt =====
-- The tables of backend/src/db/schema.sql: one record for a row, with the columns that the code
-- reads or writes. A UUID is a number, a time is in milliseconds, a text is a list of code units.
use event_relay.Base.{ℕ, ◌≡◌, Bool, true, false, Option, List, Text, arith, ◌↔◌}
use event_relay.Store.Tables.{Catalog}

-- `deliveries.status`. The code writes the last three; `pending` is the one that comments name.
pub data DeliveryStatus : Type 0 where
  pending retrying success dead_letter : DeliveryStatus

-- `EventAggregateStatus`, the values of `events.status`.
pub data EventStatus : Type 0 where
  pending processing completed failed partial_success no_targets : EventStatus

-- `CircuitState`, the values of `circuit_breakers.state`.
pub data CircuitState : Type 0 where
  closed opened half_open half_open_probing : CircuitState

-- `===` on the states.
abbrev pub delivery_status_eq : DeliveryStatus → DeliveryStatus → Bool
delivery_status_eq DeliveryStatus.pending DeliveryStatus.pending = true
delivery_status_eq retrying retrying = true
delivery_status_eq success success = true
delivery_status_eq dead_letter dead_letter = true
delivery_status_eq _ _ = false

abbrev pub circuit_state_eq : CircuitState → CircuitState → Bool
circuit_state_eq closed closed = true
circuit_state_eq opened opened = true
circuit_state_eq half_open half_open = true
circuit_state_eq half_open_probing half_open_probing = true
circuit_state_eq _ _ = false

pub delivery_status_eq_iff : (s t : DeliveryStatus) → (delivery_status_eq s t ≡ true) ↔ (s ≡ t)
delivery_status_eq_iff s t = ground arith

pub record Endpoint : Type 0 where
  pub id : ℕ
  pub name : Text
  pub url : Text
  pub secret_key : Text
  pub rate_limit_rps : ℕ
  pub max_retries : ℕ
  pub timeout_ms : ℕ
  pub is_active : Bool
  pub subscribed_events : List Text

pub record Event : Type 0 where
  pub id : ℕ
  pub idempotency_key : Text
  pub event_type : Text
  pub payload : Text
  pub ordering_key : Option Text
  pub status : EventStatus

pub record Delivery : Type 0 where
  pub id : ℕ
  pub event_id : ℕ
  pub endpoint_id : ℕ
  pub attempt_number : ℕ
  pub http_status : Option ℕ
  pub response_body : Option Text
  pub duration_ms : Option ℕ
  pub error_message : Option Text
  pub status : DeliveryStatus
  pub next_retry_at : Option ℕ

-- `OutboxRecord`, with the time by which `drain` orders the rows.
pub record OutboxRecord : Type 0 where
  pub id : ℕ
  pub delivery_id : ℕ
  pub event_id : ℕ
  pub endpoint_id : ℕ
  pub attempt_number : ℕ
  pub ordering_key : Option Text
  pub created_at : ℕ

-- `CircuitRecord`.
pub record CircuitRecord : Type 0 where
  pub endpoint_id : ℕ
  pub state : CircuitState
  pub failure_count : ℕ
  pub success_count : ℕ
  pub threshold_failures : ℕ
  pub cool_down_seconds : ℕ
  pub opened_at : Option ℕ
  pub last_failure_at : Option ℕ

-- The tables, each in the order of insertion; the definitions of the tables; and the rows of
-- `schema_migrations`, a version and a name, once that table exists.
pub record Database : Type 0 where
  pub endpoints : List Endpoint
  pub events : List Event
  pub deliveries : List Delivery
  pub outbox : List OutboxRecord
  pub circuit_breakers : List CircuitRecord
  pub catalog : Catalog
  pub schema_migrations : Option (List (Text × Text))
