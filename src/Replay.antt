-- ===== src/Replay.antt =====
-- backend/src/api/deliveriesController.ts: `replayDelivery`.
pub mod Effect
mod Tests
use event_relay.Base.{ℕ, ◌==◌, Option, none, some, Text, codes, find, or_null}
use event_relay.Store.{
  World, Database, Delivery, Event, DeliveryJob, retrying, M, ◌>>=◌, ◌>>◌, pure, query,
  execute_returning, try_catch, with_transaction,
}
use event_relay.EventStatus.{sync_event_status}
use event_relay.Outbox.{insert_outbox}
use event_relay.Worker.{update_delivery}

pub data Response : Type 0 where
  not_found : Response
  queued : Option Delivery → Response
  server_error : Response

abbrev pub to_replay : Delivery → Delivery
to_replay d = record d {
  status = retrying;
  error_message = some (codes "Manual replay triggered via admin console");
  attempt_number = 1;
  next_retry_at = none;
}

-- The join of the delivery with its event, for the ordering key.
abbrev pub with_event : Option Delivery → (ℕ → Option Event) → Option (Delivery × Option Text)
with_event none event = none
with_event (some d) event = elim (event d.event_id) [
  | none ↦ none
  | some e ↦ some (d, e.ordering_key)
]

unfoldable pub read_delivery : ℕ → Database → Option (Delivery × Option Text)
read_delivery id db =
    with_event (find (λ (d : Delivery). d.id == id) db.deliveries)
      (λ i. find (λ (e : Event). e.id == i) db.events)

abbrev pub replay_job : Delivery → DeliveryJob
replay_job d = record {
  delivery_id = d.id;
  event_id = d.event_id;
  endpoint_id = d.endpoint_id;
  attempt_number = 1;
}

-- `UPDATE deliveries SET … WHERE id = $1 RETURNING *`.
abbrev pub reset_delivery : ℕ → Database → Option Delivery × Database
reset_delivery id db =
    let reset = update_delivery id to_replay db in
    (find (λ (x : Delivery). x.id == id) reset.deliveries, reset)

unfoldable pub replay_transaction : ℕ → Delivery → Option Text → M (Option Delivery)
replay_transaction id d ordering_key = do
  updated ← execute_returning (reset_delivery id)
  insert_outbox (replay_job d) (or_null ordering_key)
  sync_event_status d.event_id
  pure updated

abbrev pub replay_found : ℕ → Option (Delivery × Option Text) → M Response
replay_found id none = pure not_found
replay_found id (some (d, ordering_key)) = do
  updated ← with_transaction (replay_transaction id d ordering_key)
  pure (queued updated)

unfoldable pub replay_delivery : ℕ → M Response
unfolding replay_transaction read_delivery
replay_delivery id =
    try_catch (do row ← query (read_delivery id); replay_found id row) (pure server_error)
