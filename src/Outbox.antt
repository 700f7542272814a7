-- ===== src/Outbox.antt =====
-- backend/src/worker/outboxPublisher.ts: the rows of the outbox go to the Redis streams, oldest
-- first, and are deleted in the same transaction.
pub mod Insert
pub mod Batch
pub mod Drain
pub mod Delivered
pub mod Empties
pub mod Frame
pub mod NoLoss
pub mod Numbered
mod Tests
use event_relay.Base.{
  ℕ, zero, ◌+◌, Bool, true, false, not, ltb, ◌==◌, if◌then◌else◌, Option, none, some, List, [], ◌∷◌,
  ◌++◌, any, select, take, length, Text,
}
use event_relay.Base.Sort.{sort_by}
use event_relay.Store.{
  World, Database, OutboxRecord, DeliveryJob, Result, ok, M, ◌>>=◌, ◌>>◌, pure, query, execute,
  call, try_catch, with_transaction,
}
use event_relay.StreamQueue.{publish}

-- `INSERT INTO outbox (delivery_id, event_id, endpoint_id, attempt_number, ordering_key)`.
unfoldable pub insert_outbox : DeliveryJob → Option Text → M (Unit {0})
insert_outbox job ordering_key = call λ w.
    let row : OutboxRecord = record {
      id = w.uuid w.drawn;
      delivery_id = job.delivery_id;
      event_id = job.event_id;
      endpoint_id = job.endpoint_id;
      attempt_number = job.attempt_number;
      ordering_key = ordering_key;
      created_at = w.now;
    } in
    (
      ok tt,
      record w { db = record (w.db) { outbox = w.db.outbox ++ row ∷ [] }; drawn = w.drawn + 1 },
    )

-- The job that a row announces.
abbrev pub job_of : OutboxRecord → DeliveryJob
job_of row = record {
  delivery_id = row.delivery_id;
  event_id = row.event_id;
  endpoint_id = row.endpoint_id;
  attempt_number = row.attempt_number;
}

-- `ORDER BY created_at ASC LIMIT 100 FOR UPDATE SKIP LOCKED`: `locked` are the rows that other
-- transactions hold.
unfoldable pub claim_batch : (ℕ → Bool) → List OutboxRecord → List OutboxRecord
claim_batch locked rows =
    take 100 (select (λ r. not (locked r.id)) (sort_by (λ (r : OutboxRecord). r.created_at) rows))

-- `DELETE FROM outbox WHERE id = ANY($1)`.
unfoldable pub delete_rows : List ℕ → List OutboxRecord → List OutboxRecord
delete_rows ids rows = select (λ r. not (any (λ i. i == r.id) ids)) rows

abbrev pub delete_published : List ℕ → M (Unit {0})
delete_published ids =
    if ltb 0 (length ids)
    then execute (λ db. record db { outbox = delete_rows ids db.outbox })
    else pure tt

module _ (base_stream : Text) where
  -- Whether Redis took the row's job; an error ends the batch.
  unfoldable pub try_publish : OutboxRecord → M Bool
  try_publish row =
      try_catch (do publish base_stream (job_of row) row.ordering_key; pure true) (pure false)

  -- The loop over the batch: the identifiers of the rows published before the first error.
  unfoldable pub publish_rows : List OutboxRecord → M (List ℕ)
  publish_rows [] = pure []
  publish_rows (row ∷ rows) = do
    published ← try_publish row
    if published then (do ids ← publish_rows rows; pure (row.id ∷ ids)) else pure []

  unfoldable pub drain_batch : List OutboxRecord → M ℕ
  unfolding publish_rows
  drain_batch [] = pure 0
  drain_batch (row ∷ rows) = do
    ids ← publish_rows (row ∷ rows)
    delete_published ids
    pure (length ids)

  unfoldable pub drain_transaction : (ℕ → Bool) → M ℕ
  unfolding drain_batch claim_batch
  drain_transaction locked = do rows ← query (λ db. claim_batch locked db.outbox); drain_batch rows

  -- `drain`: the count, and the flag `isDraining` that it leaves.
  unfoldable pub drain : Bool → (ℕ → Bool) → M (ℕ × Bool)
  unfolding drain_transaction
  drain true locked = pure (0, true)
  drain false locked = do
    n ← try_catch (with_transaction (drain_transaction locked)) (pure 0)
    pure (n, false)
