-- ===== src/Ingest.antt =====
-- backend/src/api/eventsController.ts: `ingestEvent`. The request is given as zod's parse leaves it.
pub mod Fanout
pub mod Atomic
pub mod Streamed
pub mod Twice
mod Tests
use event_relay.Base.{
  ℕ, ◌+◌, Bool, true, false, ◌&&◌, ◌||◌, ◌==◌, if◌then◌else◌, Option, none, some, List, [], ◌∷◌,
  ◌++◌, any, find, select, update, length, Text, text_eq, or_null,
}
use event_relay.Store.{
  World, Database, Event, Endpoint, Delivery, DeliveryJob, EventStatus, processing, no_targets,
  retrying, Result, ok, thrown, M, ◌>>=◌, ◌>>◌, pure, modify, query, call, execute, try_catch,
  with_transaction,
}
use event_relay.Metrics.{inc_ingested}
use event_relay.EventStatus.{set_event_status}
use event_relay.Outbox.{insert_outbox}

-- `parseResult.data`; the payload as `JSON.stringify` writes it.
pub record IngestRequest : Type 0 where
  pub event_type : Text
  pub payload : Text
  pub endpoint_ids : Option (List ℕ)
  pub ordering_key : Option Text

pub data Response : Type 0 where
  bad_request : Response
  duplicate : Event → Response
  created : ℕ → ℕ → Response
  server_error : Response

pub data Ingested : Type 0 where
  was_duplicate : Option Event → Ingested
  was_new : Event → List Delivery → Ingested

abbrev pub has_key : Text → Event → Bool
has_key key e = text_eq e.idempotency_key key

-- `INSERT INTO events … ON CONFLICT (idempotency_key) DO NOTHING RETURNING *`.
unfoldable pub insert_event : Text → IngestRequest → World → Result (Option Event) × World
insert_event key request w =
    let event : Event = record {
      id = w.uuid w.drawn;
      idempotency_key = key;
      event_type = request.event_type;
      payload = request.payload;
      ordering_key = or_null request.ordering_key;
      status = processing;
    } in
    if any (has_key key) w.db.events then (ok none, w) else (
      ok (some event),
      record w { db = record (w.db) { events = w.db.events ++ event ∷ [] }; drawn = w.drawn + 1 },
    )

-- `endpointIds && endpointIds.length > 0` adds `AND id = ANY($2)`.
abbrev pub is_named : Option (List ℕ) → ℕ → Bool
is_named none id = true
is_named (some []) id = true
is_named (some (i ∷ ids)) id = any (λ j. j == id) (i ∷ ids)

abbrev pub subscribes : Text → List Text → Bool
subscribes event_type [] = true
subscribes event_type (t ∷ ts) = any (λ s. text_eq s event_type) (t ∷ ts)

abbrev pub is_target : IngestRequest → Endpoint → Bool
is_target request ep =
    ep.is_active
    && (subscribes request.event_type ep.subscribed_events && is_named request.endpoint_ids ep.id)

abbrev pub new_delivery : ℕ → ℕ → ℕ → Delivery
new_delivery id event_id endpoint_id = record {
  id = id;
  event_id = event_id;
  endpoint_id = endpoint_id;
  attempt_number = 1;
  http_status = none;
  response_body = none;
  duration_ms = none;
  error_message = none;
  status = retrying;
  next_retry_at = none;
}

-- `INSERT INTO deliveries … RETURNING *`.
unfoldable pub insert_delivery : ℕ → ℕ → M Delivery
insert_delivery event_id endpoint_id = call λ w.
    let d : Delivery = new_delivery (w.uuid w.drawn) event_id endpoint_id in
    (
      ok d,
      record w {
        db = record (w.db) { deliveries = w.db.deliveries ++ d ∷ [] };
        drawn = w.drawn + 1;
      },
    )

abbrev pub first_job : Delivery → DeliveryJob
first_job d = record {
  delivery_id = d.id;
  event_id = d.event_id;
  endpoint_id = d.endpoint_id;
  attempt_number = 1;
}

-- The loop over the targets: a delivery and its outbox row for each.
unfoldable pub fan_out : ℕ → Option Text → List Endpoint → M (List Delivery)
fan_out event_id ordering_key [] = pure []
fan_out event_id ordering_key (ep ∷ eps) = do
  d ← insert_delivery event_id ep.id
  insert_outbox (first_job d) ordering_key
  ds ← fan_out event_id ordering_key eps
  pure (d ∷ ds)

unfoldable pub deliver_to : IngestRequest → Event → List Endpoint → M Ingested
unfolding fan_out
deliver_to request event [] = do
  execute (set_event_status event.id no_targets)
  pure (was_new (record event { status = no_targets }) [])
deliver_to request event (ep ∷ eps) = do
  ds ← fan_out event.id (or_null request.ordering_key) (ep ∷ eps)
  pure (was_new event ds)

unfoldable pub after_insert : Text → IngestRequest → Option Event → M Ingested
unfolding deliver_to
after_insert key request none = do
  existing ← query (λ db. find (has_key key) db.events)
  pure (was_duplicate existing)
after_insert key request (some event) = do
  modify (inc_ingested request.event_type)
  targets ← query (λ db. select (is_target request) db.endpoints)
  deliver_to request event targets

unfoldable pub ingest_transaction : Text → IngestRequest → M Ingested
unfolding after_insert insert_event
ingest_transaction key request = do
  inserted ← call (insert_event key request)
  after_insert key request inserted

-- The answer to a transaction's result; the publisher is poked with `created`.
abbrev pub respond : Ingested → Response
respond (was_duplicate none) = server_error
respond (was_duplicate (some event)) = duplicate event
respond (was_new event ds) = created event.id (length ds)

abbrev pub with_body : Text → Option IngestRequest → M Response
with_body key none = pure bad_request
with_body key (some request) =
    try_catch (do result ← with_transaction (ingest_transaction key request); pure (respond result))
      (pure server_error)

-- `ingestEvent`: a missing or empty Idempotency-Key header is refused first.
unfoldable pub ingest_event : Option Text → Option IngestRequest → M Response
unfolding ingest_transaction
ingest_event none body = pure bad_request
ingest_event (some []) body = pure bad_request
ingest_event (some (c ∷ key)) body = with_body (c ∷ key) body
