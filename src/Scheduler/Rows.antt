-- ===== src/Scheduler/Rows.antt =====
-- What the body of the scheduler's loop does with one row.
use event_relay.Base.{
  ℕ, ◌+◌, ◌≤◌, ◌≡◌, refl, ◌⊎◌, inl, inr, none, some, codes, List, [], ◌∷◌, ◌++◌, or_null, ltb,
  Bool-cases, arith,
}
use event_relay.Store.{
  World, Database, Delivery, DeliveryJob, OutboxRecord, dead_letter, Result, ok, thrown, modify,
}
use event_relay.Store.Atomic.{Returns, call_then, continue-Returns}
use event_relay.Metrics.{inc_dlq}
use event_relay.Outbox.{job_of}
use event_relay.Outbox.Insert.{Announced, insert_outbox-Returns}
use event_relay.Worker.{update_delivery, or_positive}
use event_relay.Worker.Failure.{synced, Updated, sync_after, update_then_sync}
use event_relay.Scheduler.{DueRow, bury, advance, next_job, reenqueue, reenqueue_all}

abbrev pub limit : DueRow → ℕ
limit row = or_positive row.max_retries 5

-- The next attempt at the row's delivery.
abbrev pub next_attempt : DueRow → DeliveryJob
next_attempt row = record {
  delivery_id = row.id;
  event_id = row.event_id;
  endpoint_id = row.endpoint_id;
  attempt_number = row.attempt_number + 1;
}

-- The delivery in that attempt, not scheduled.
abbrev pub moved_on : ℕ → Delivery → Delivery
moved_on attempt d = record {
  id = d.id;
  event_id = d.event_id;
  endpoint_id = d.endpoint_id;
  attempt_number = attempt;
  http_status = d.http_status;
  response_body = d.response_body;
  duration_ms = d.duration_ms;
  error_message = d.error_message;
  status = d.status;
  next_retry_at = none;
}

-- The delivery as a dead letter.
abbrev pub given_up : Delivery → Delivery
given_up d = record {
  id = d.id;
  event_id = d.event_id;
  endpoint_id = d.endpoint_id;
  attempt_number = d.attempt_number;
  http_status = d.http_status;
  response_body = d.response_body;
  duration_ms = d.duration_ms;
  error_message = some (codes "Max retry attempts exceeded. Moved to DLQ by scheduler.");
  status = dead_letter;
  next_retry_at = none;
}

-- The tables with the delivery in its next attempt, and an outbox row.
abbrev pub queued : DueRow → Database → OutboxRecord → Database
queued row db o =
    let moved : Database = update_delivery row.id (moved_on (row.attempt_number + 1)) db in
    record moved { outbox = db.outbox ++ o ∷ [] }

-- The row's delivery is a dead letter, as its attempts are used up; or it is in its next attempt,
-- within the limit, not scheduled, and announced by a new outbox row. The event's status follows.
abbrev pub Moved : DueRow → Database → Database → Type 0
Moved row db db' =
    ((limit row ≤ row.attempt_number)
      × (db' ≡ synced row.event_id (update_delivery row.id given_up db)))
    ⊎ ((row.attempt_number + 1 ≤ limit row)
        × ((o : OutboxRecord) × (job_of o ≡ next_attempt row)
            × (o.ordering_key ≡ or_null row.ordering_key)
            × (db' ≡ synced row.event_id (queued row db o))))

-- The rows, one after the other.
abbrev pub AllMoved : List DueRow → Database → Database → Type 0
AllMoved [] db db' = db' ≡ db
AllMoved (row ∷ rows) db db' =
    (between : Database) × Moved row db between × AllMoved rows between db'

reenqueue-Returns :
    (row : DueRow) (w : World) → Returns (λ _ v. Moved row w.db v.db) (reenqueue row w)
unfolding reenqueue inc_dlq
reenqueue-Returns row w = elim (Bool-cases (ltb (limit row) (row.attempt_number + 1))) [
  | inl over ↦ rw over (
      update_then_sync row.event_id (update_delivery row.id bury) (modify inc_dlq)
        (λ v. Moved row w.db v.db) w λ v u. inl (ground arith, u.0))
  | inr under ↦ rw under (
      call_then (λ _ v. Moved row w.db v.db)
        (modify
          (λ v. record v { db = update_delivery row.id (advance (row.attempt_number + 1)) v.db }))
        _ w
        λ rest.
          continue-Returns
            (λ _.
              Announced (next_job row) (or_null row.ordering_key)
                (update_delivery row.id (advance (row.attempt_number + 1)) w.db))
            (λ _ v. Moved row w.db v.db) _ _
            (insert_outbox-Returns (next_job row) (or_null row.ordering_key) _)
            λ _ v a.
              continue-Returns (λ _. Updated row.event_id (λ _. queued row w.db a.0) v)
                (λ _ v. Moved row w.db v.db) _ _
                (sync_after row.event_id (λ _. queued row w.db a.0) v v a.1 refl)
                λ _ u h. inr (ground arith, (a.0, a.2, a.3, h.0)))
]

pub reenqueue_all-Returns :
    (rows : List DueRow) (w : World)
    → Returns (λ _ v. AllMoved rows w.db v.db) (reenqueue_all rows w)
unfolding reenqueue_all
reenqueue_all-Returns [] w = refl
reenqueue_all-Returns (row ∷ rows) w =
    continue-Returns (λ _ v. Moved row w.db v.db) (λ _ v. AllMoved (row ∷ rows) w.db v.db) _ _
      (reenqueue-Returns row w) λ _ v h. go v h _ (reenqueue_all-Returns rows v)
  where
    go :
        (v : World)
        → Moved row w.db v.db
        → (r : Result (Unit {0}) × World) → Returns (λ _ u. AllMoved rows v.db u.db) r
        → Returns (λ _ u. AllMoved (row ∷ rows) w.db u.db) r
    go v h (ok _, u) k = (v.db, h, k)
    go v h (thrown, u) k = tt
