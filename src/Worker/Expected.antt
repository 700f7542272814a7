-- ===== src/Worker/Expected.antt =====
-- What the job of backend/src/worker/deliveryWorker.ts is to come to, column by column: the row of the
-- delivery, the status of the event, the row of the breaker, and the request.
use event_relay.Base.{
  ℕ, ◌/◌, ◌≡◌, refl, ◌==◌, Option, none, some, List, [], ◌∷◌, ◌++◌, map, select, update, take, Text,
  codes,
}
use event_relay.Base.Decimal.{decimal}
use event_relay.Store.{
  Database, DeliveryJob, Endpoint, Event, Delivery, Post, EventStatus, retrying, success,
  dead_letter,
}
use event_relay.EventStatus.{child_statuses, set_event_status}
use event_relay.EventStatus.Sync.{status_from}
use event_relay.EventStatus.Documented.{DocumentedOrDisputed, status_of_rows-DocumentedOrDisputed}
use event_relay.Worker.{Env, update_delivery}

-- The body is the event's payload, and the signature is the HMAC of the second and the payload under
-- the endpoint's secret.
abbrev pub signed_post : Env → DeliveryJob → Event → Endpoint → ℕ → Post
signed_post env job event endpoint now = record {
  url = endpoint.url;
  payload = event.payload;
  headers =
      (codes "Content-Type", codes "application/json")
      ∷ (codes "User-Agent", codes "EventRelay-Engine/1.0")
      ∷ (codes "X-EventRelay-Event-ID", env.uuid_text event.id)
      ∷ (codes "X-EventRelay-Event-Type", event.event_type)
      ∷ (codes "X-EventRelay-Delivery-ID", env.uuid_text job.delivery_id)
      ∷ (codes "X-EventRelay-Timestamp", decimal (now / 1000))
      ∷ (
        codes "X-EventRelay-Signature",
        codes "t="
            ++ (decimal (now / 1000)
                ++ (codes ",v1="
                    ++ env.hmac endpoint.secret_key
                        (decimal (now / 1000) ++ (codes "." ++ event.payload)))),
      )
      ∷ [];
  timeout = endpoint.timeout_ms;
}

-- The delivery waits for its next attempt.
abbrev pub waiting : Option ℕ → Text → ℕ → ℕ → ℕ → Delivery → Delivery
waiting code message duration next attempt d = record {
  id = d.id;
  event_id = d.event_id;
  endpoint_id = d.endpoint_id;
  attempt_number = attempt;
  http_status = code;
  response_body = d.response_body;
  duration_ms = some duration;
  error_message = some message;
  status = retrying;
  next_retry_at = some next;
}

-- The delivery is given up.
abbrev pub given_up : Option ℕ → Text → ℕ → Delivery → Delivery
given_up code message duration d = record {
  id = d.id;
  event_id = d.event_id;
  endpoint_id = d.endpoint_id;
  attempt_number = d.attempt_number;
  http_status = code;
  response_body = d.response_body;
  duration_ms = some duration;
  error_message = some message;
  status = dead_letter;
  next_retry_at = none;
}

-- The delivery has arrived.
abbrev pub arrived : ℕ → Text → ℕ → Delivery → Delivery
arrived code body duration d = record {
  id = d.id;
  event_id = d.event_id;
  endpoint_id = d.endpoint_id;
  attempt_number = d.attempt_number;
  http_status = some code;
  response_body = some (take 2048 body);
  duration_ms = some duration;
  error_message = none;
  status = success;
  next_retry_at = none;
}

-- The deliveries with that change of one.
abbrev pub changed : ℕ → (Delivery → Delivery) → Database → List Delivery
changed id f db = update (λ (d : Delivery). d.id == id) f db.deliveries

-- The deliveries are `rows`, the event has the status that the comment of `syncEventStatus` gives for its
-- own of them (or two of its rules apply), and the other columns of its row and the other tables but the
-- breakers are as before.
abbrev pub Follows : ℕ → List Delivery → Database → Database → Type 0
Follows event_id rows db db' =
    (st : EventStatus) × DocumentedOrDisputed st
      (map (λ (d : Delivery). d.status) (select (λ (d : Delivery). d.event_id == event_id) rows))
    × (db'.deliveries ≡ rows)
    × (db'.events
        ≡ update (λ (e : Event). e.id == event_id) (λ (e : Event). record e { status = st })
            db.events)
    × (db'.endpoints ≡ db.endpoints)
    × (db'.outbox ≡ db.outbox)

pub set_event_status-Follows :
    (event_id id : ℕ) (f : Delivery → Delivery) (db : Database)
    → Follows event_id (changed id f db) db (
        set_event_status event_id
          (status_from event_id (update_delivery id f db))
          (update_delivery id f db))
unfolding child_statuses
set_event_status-Follows event_id id f db = (
  status_from event_id (update_delivery id f db),
  status_of_rows-DocumentedOrDisputed _,
  refl,
  refl,
  refl,
  refl,
)
