-- ===== src/System/Writers.antt =====
-- What writes to the outbox, and what takes from it: ingestEvent, replayDelivery, pollAndReenqueue and
-- drain, over the interface of Outbox.Frame.
use event_relay.Base.{
  ℕ, ◌+◌, refl, Bool, true, false, Option, none, some, List, [], ◌∷◌, ltb, length, any, select,
  Text, Bool-cases, inl, inr,
}
use event_relay.Store.{World, Endpoint, Event, Delivery, OutboxRecord, DeliveryJob, call}
use event_relay.Store.Frame.{
  Keeps, call-Keeps, query-Keeps, continue-Keeps, recover-Keeps, if-Keeps,
}
use event_relay.EventStatus.Sync.{sync_event_status-Keeps}
use event_relay.Metrics.{inc_ingested, inc_dlq}
use event_relay.Outbox.{
  insert_outbox, try_publish, publish_rows, delete_published, drain_batch, drain_transaction, drain,
  delete_rows,
}
use event_relay.StreamQueue.{add_entry, publish}
use event_relay.Outbox.Frame.{Sound, Drains, Both-Drains, transaction-Keeps}
use event_relay.Ingest.{
  IngestRequest, is_target, has_key, insert_event, insert_delivery, fan_out, deliver_to,
  after_insert, ingest_transaction, ingest_event,
}
use event_relay.Scheduler.{DueRow, reenqueue, reenqueue_all, poll_transaction, poll_and_reenqueue}
use event_relay.Worker.{or_positive}
use event_relay.Replay.{replay_found, replay_transaction, replay_delivery}

module _ {P : World → Type 0} (s : Sound P) where
  insert_outbox-Keeps : (job : DeliveryJob) (key : Option Text) → Keeps P (insert_outbox job key)
  unfolding insert_outbox
  insert_outbox-Keeps job key = call-Keeps s.blind _ λ v h. s.to_insert v _ refl h

  insert_event-Keeps :
      (key : Text) (request : IngestRequest) → Keeps P (call (insert_event key request))
  unfolding insert_event
  insert_event-Keeps key request = call-Keeps s.blind _ λ v h.
      elim (Bool-cases (any (has_key key) v.db.events)) [
        | inl there ↦ rw there h
        | inr missing ↦ rw missing (s.blind.to_rows _ _ _ (s.to_draw v h))
      ]

  insert_delivery-Keeps :
      (event_id endpoint_id : ℕ) → Keeps P (insert_delivery event_id endpoint_id)
  unfolding insert_delivery
  insert_delivery-Keeps event_id endpoint_id =
      call-Keeps s.blind _ λ v h. s.blind.to_rows _ _ _ (s.to_draw v h)

  fan_out-Keeps :
      (event_id : ℕ) (key : Option Text) (eps : List Endpoint) → Keeps P (fan_out event_id key eps)
  unfolding fan_out
  fan_out-Keeps event_id key [] w h = h
  fan_out-Keeps event_id key (ep ∷ eps) w h =
      continue-Keeps P _ _ (insert_delivery-Keeps event_id ep.id w h) λ d v g.
        continue-Keeps P _ _ (insert_outbox-Keeps _ key v g)
          λ _ u i. continue-Keeps P _ _ (fan_out-Keeps event_id key eps u i) λ _ _ j. j

  deliver_to-Keeps :
      (request : IngestRequest) (event : Event) (eps : List Endpoint)
      → Keeps P (deliver_to request event eps)
  unfolding deliver_to
  deliver_to-Keeps request event [] w h =
      continue-Keeps P _ _ (call-Keeps s.blind _ (λ v g. s.blind.to_rows v _ _ g) w h) λ _ _ g. g
  deliver_to-Keeps request event (ep ∷ eps) w h =
      continue-Keeps P _ _ (fan_out-Keeps event.id _ (ep ∷ eps) w h) λ _ _ g. g

  after_insert-Keeps :
      (key : Text) (request : IngestRequest) (inserted : Option Event)
      → Keeps P (after_insert key request inserted)
  unfolding after_insert inc_ingested
  after_insert-Keeps key request none w h =
      continue-Keeps P _ _ (query-Keeps s.blind _ w h) λ _ _ g. g
  after_insert-Keeps key request (some event) w h =
      continue-Keeps P _ _
        (query-Keeps s.blind (λ db. select (is_target request) db.endpoints)
          (inc_ingested request.event_type w) (s.blind.to_metrics w _ h))
        λ eps. deliver_to-Keeps request event eps

  ingest_transaction-Keeps :
      (key : Text) (request : IngestRequest) → Keeps P (ingest_transaction key request)
  unfolding ingest_transaction
  ingest_transaction-Keeps key request w h =
      continue-Keeps P _ _ (insert_event-Keeps key request w h) (after_insert-Keeps key request)

  reenqueue-Keeps : (row : DueRow) → Keeps P (reenqueue row)
  unfolding reenqueue inc_dlq
  reenqueue-Keeps row =
      if-Keeps P (ltb (or_positive row.max_retries 5) (row.attempt_number + 1)) _ _
        (λ w h.
          continue-Keeps P _ _ (call-Keeps s.blind _ (λ v g. s.blind.to_rows v _ _ g) w h) λ _ v g.
            continue-Keeps P _ _ (sync_event_status-Keeps s.blind row.event_id v g)
              λ _ u i. s.blind.to_metrics u _ i)
        (λ w h.
          continue-Keeps P _ _ (call-Keeps s.blind _ (λ v g. s.blind.to_rows v _ _ g) w h) λ _ v g.
            continue-Keeps P _ _ (insert_outbox-Keeps _ _ v g) λ _ u i.
              continue-Keeps P _ _ (sync_event_status-Keeps s.blind row.event_id u i) λ _ _ j. j)

  reenqueue_all-Keeps : (rows : List DueRow) → Keeps P (reenqueue_all rows)
  unfolding reenqueue_all
  reenqueue_all-Keeps [] w h = h
  reenqueue_all-Keeps (row ∷ rows) w h =
      continue-Keeps P _ _ (reenqueue-Keeps row w h) λ _. reenqueue_all-Keeps rows

  poll_transaction-Keeps : (locked : ℕ → Bool) → Keeps P (poll_transaction locked)
  unfolding poll_transaction
  poll_transaction-Keeps locked w h =
      continue-Keeps P _ _ (call-Keeps s.blind _ (λ _ i. i) w h)
        λ rows v g. continue-Keeps P _ _ (reenqueue_all-Keeps rows v g) λ _ _ i. i

  replay_transaction-Keeps :
      (id : ℕ) (d : Delivery) (key : Option Text) → Keeps P (replay_transaction id d key)
  unfolding replay_transaction
  replay_transaction-Keeps id d key w h =
      continue-Keeps P _ _ (call-Keeps s.blind _ (λ v g. s.blind.to_rows v _ _ g) w h) λ _ v g.
        continue-Keeps P _ _ (insert_outbox-Keeps _ _ v g)
          λ _ u i. continue-Keeps P _ _ (sync_event_status-Keeps s.blind d.event_id u i) λ _ _ j. j

module _ {P : World → Type 0} (s : Sound P) (d : Drains P) where
  publish_row-Keeps : (base : Text) (row : OutboxRecord) → Keeps P (try_publish base row)
  unfolding try_publish publish add_entry
  publish_row-Keeps base row w h =
      recover-Keeps P _ _
        (continue-Keeps P _ _ (call-Keeps s.blind _ (λ v g. d.to_entries v _ g) w h) λ _ _ g. g)
        (λ _ g. g)

  publish_rows-Keeps : (base : Text) (rows : List OutboxRecord) → Keeps P (publish_rows base rows)
  unfolding publish_rows
  publish_rows-Keeps base [] w h = h
  publish_rows-Keeps base (row ∷ rows) w h =
      continue-Keeps P (try_publish base row w) _ (publish_row-Keeps base row w h) λ published.
        if-Keeps P published _ _
          (λ v g. continue-Keeps P _ _ (publish_rows-Keeps base rows v g) λ _ _ i. i) (λ _ g. g)

  delete_published-Keeps : (ids : List ℕ) → Keeps P (delete_published ids)
  unfolding delete_rows
  delete_published-Keeps ids =
      if-Keeps P (ltb 0 (length ids)) _ _ (call-Keeps s.blind _ λ v g. d.to_delete v _ g) (λ _ g. g)

  drain_batch-Keeps : (base : Text) (rows : List OutboxRecord) → Keeps P (drain_batch base rows)
  unfolding drain_batch
  drain_batch-Keeps base [] w h = h
  drain_batch-Keeps base (row ∷ rows) w h =
      continue-Keeps P _ _ (publish_rows-Keeps base (row ∷ rows) w h)
        λ ids v g. continue-Keeps P _ _ (delete_published-Keeps ids v g) λ _ _ i. i

  drain_transaction-Keeps :
      (base : Text) (locked : ℕ → Bool) → Keeps P (drain_transaction base locked)
  unfolding drain_transaction
  drain_transaction-Keeps base locked w h =
      continue-Keeps P _ _ (query-Keeps s.blind _ w h) (drain_batch-Keeps base)

-- The whole handlers: their transactions may be rolled back.
module _ {P : World → Type 0} (s : Sound P) where
  pub ingest_event-Keeps :
      (key : Option Text) (request : Option IngestRequest) → Keeps P (ingest_event key request)
  unfolding ingest_event
  ingest_event-Keeps none request w h = h
  ingest_event-Keeps (some []) request w h = h
  ingest_event-Keeps (some (c ∷ key)) none w h = h
  ingest_event-Keeps (some (c ∷ key)) (some request) w h =
      recover-Keeps P _ _
        (continue-Keeps P _ _
          (transaction-Keeps s (ingest_transaction (c ∷ key) request)
            (λ before t. ingest_transaction-Keeps t (c ∷ key) request) w h)
          (λ _ _ g. g))
        (λ _ g. g)

  pub poll-Keeps :
      (polling : Bool) (locked : ℕ → Bool) → Keeps P (poll_and_reenqueue polling locked)
  unfolding poll_and_reenqueue
  poll-Keeps true locked w h = h
  poll-Keeps false locked w h =
      continue-Keeps P _ _
        (recover-Keeps P _ _
          (transaction-Keeps s (poll_transaction locked)
            (λ before t. poll_transaction-Keeps t locked) w h)
          (λ _ g. g))
        λ _ _ g. g

  found-Keeps : (id : ℕ) (row : Option (Delivery × Option Text)) → Keeps P (replay_found id row)
  found-Keeps id none w h = h
  found-Keeps id (some (d, key)) w h =
      continue-Keeps P _ _
        (transaction-Keeps s (replay_transaction id d key)
          (λ before t. replay_transaction-Keeps t id d key) w h)
        λ _ _ g. g

  pub replay_delivery-Keeps : (id : ℕ) → Keeps P (replay_delivery id)
  unfolding replay_delivery
  replay_delivery-Keeps id w h =
      recover-Keeps P _ _ (continue-Keeps P _ _ (query-Keeps s.blind _ w h) (found-Keeps id))
        (λ _ g. g)

module _ {P : World → Type 0} (s : Sound P) (d : Drains P) where
  pub drain-Keeps :
      (base : Text) (draining : Bool) (locked : ℕ → Bool) → Keeps P (drain base draining locked)
  unfolding drain
  drain-Keeps base true locked w h = h
  drain-Keeps base false locked w h =
      continue-Keeps P _ _
        (recover-Keeps P _ _
          (transaction-Keeps s (drain_transaction base locked)
            (λ before t. drain_transaction-Keeps t (Both-Drains s d before) base locked) w h)
          (λ _ g. g))
        λ _ _ g. g
