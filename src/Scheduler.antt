-- ===== src/Scheduler.antt =====
-- backend/src/worker/retryScheduler.ts: the retries that are due go back through the outbox.
pub mod Rows
pub mod Poll
pub mod Streamed
mod Tests
use event_relay.Base.{
  ℕ, ◌+◌, Bool, true, false, not, ◌&&◌, ltb, leb, ◌==◌, if◌then◌else◌, Option, none, some, List, [],
  ◌∷◌, find, select, take, length, Text, codes, or_null,
}
use event_relay.Base.Sort.{sort_by}
use event_relay.Store.{
  World, Database, Delivery, Event, Endpoint, DeliveryJob, retrying, dead_letter, Result, ok,
  delivery_status_eq, M, ◌>>=◌, ◌>>◌, pure, modify, call, execute, try_catch, with_transaction,
}
use event_relay.Metrics.{inc_dlq}
use event_relay.EventStatus.{sync_event_status}
use event_relay.Outbox.{insert_outbox}
use event_relay.Worker.{update_delivery, or_positive}

-- The columns that the query selects; `due_at` is the one by which it orders.
pub record DueRow : Type 0 where
  pub id : ℕ
  pub event_id : ℕ
  pub endpoint_id : ℕ
  pub attempt_number : ℕ
  pub ordering_key : Option Text
  pub max_retries : ℕ
  pub due_at : ℕ

-- `next_retry_at IS NOT NULL AND next_retry_at <= CURRENT_TIMESTAMP`.
abbrev pub is_due_at : ℕ → Option ℕ → Bool
is_due_at now none = false
is_due_at now (some t) = leb t now

abbrev pub is_due : ℕ → Delivery → Bool
is_due now d = delivery_status_eq d.status retrying && is_due_at now d.next_retry_at

abbrev pub due_time : Option ℕ → ℕ
due_time none = 0
due_time (some t) = t

abbrev pub row_of : Delivery → Event → Endpoint → DueRow
row_of d e ep = record {
  id = d.id;
  event_id = d.event_id;
  endpoint_id = d.endpoint_id;
  attempt_number = d.attempt_number;
  ordering_key = e.ordering_key;
  max_retries = ep.max_retries;
  due_at = due_time d.next_retry_at;
}

-- The two joins: a delivery with no event or no endpoint gives no row.
abbrev pub joined : Delivery → Option Event → Option Endpoint → List DueRow → List DueRow
joined d (some e) (some ep) rows = row_of d e ep ∷ rows
joined d _ _ rows = rows

unfoldable pub join_rows : Database → List Delivery → List DueRow
join_rows db [] = []
join_rows db (d ∷ ds) =
    joined d (find (λ (e : Event). e.id == d.event_id) db.events)
      (find (λ (ep : Endpoint). ep.id == d.endpoint_id) db.endpoints) (join_rows db ds)

-- `ORDER BY next_retry_at ASC LIMIT 50 FOR UPDATE SKIP LOCKED`.
unfoldable pub claim_due : (ℕ → Bool) → ℕ → Database → List DueRow
unfolding join_rows
claim_due locked now db = take 50 (
    sort_by (λ (r : DueRow). r.due_at)
      (join_rows db (select (λ d. is_due now d && not (locked d.id)) db.deliveries)))

abbrev pub bury : Delivery → Delivery
bury d = record d {
  status = dead_letter;
  next_retry_at = none;
  error_message = some (codes "Max retry attempts exceeded. Moved to DLQ by scheduler.");
}

abbrev pub advance : ℕ → Delivery → Delivery
advance attempt d = record d { attempt_number = attempt; next_retry_at = none }

abbrev pub next_job : DueRow → DeliveryJob
next_job row = record {
  delivery_id = row.id;
  event_id = row.event_id;
  endpoint_id = row.endpoint_id;
  attempt_number = row.attempt_number + 1;
}

-- The body of the loop.
unfoldable pub reenqueue : DueRow → M (Unit {0})
reenqueue row =
    if ltb (or_positive row.max_retries 5) (row.attempt_number + 1)
    then (do execute (update_delivery row.id bury); sync_event_status row.event_id; modify inc_dlq)
    else (do
      execute (update_delivery row.id (advance (row.attempt_number + 1)))
      insert_outbox (next_job row) (or_null row.ordering_key)
      sync_event_status row.event_id
      pure tt)

unfoldable pub reenqueue_all : List DueRow → M (Unit {0})
reenqueue_all [] = pure tt
reenqueue_all (row ∷ rows) = do reenqueue row; reenqueue_all rows

unfoldable pub poll_transaction : (ℕ → Bool) → M ℕ
unfolding reenqueue_all claim_due
poll_transaction locked = do
  rows ← call (λ w. (ok (claim_due locked w.now w.db), w))
  reenqueue_all rows
  pure (length rows)

-- What a poll returns, whether it pokes the publisher, and the flag `isPolling` that it leaves.
pub record Polled : Type 0 where
  pub processed : ℕ
  pub poked : Bool
  pub is_polling : Bool

unfoldable pub poll_and_reenqueue : Bool → (ℕ → Bool) → M Polled
unfolding poll_transaction
poll_and_reenqueue true locked = pure (record { processed = 0; poked = false; is_polling = true })
poll_and_reenqueue false locked = do
  n ← try_catch (with_transaction (poll_transaction locked)) (pure 0)
  pure (record { processed = n; poked = ltb 0 n; is_polling = false })
