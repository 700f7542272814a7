-- ===== src/Replay/Effect.antt =====
-- `replayDelivery` of backend/src/api/deliveriesController.ts: its answers and the tables.
use event_relay.Base.{
  ℕ, ◌≡◌, refl, ap, ◌∙◌, [], ◌∷◌, ◌++◌, Text, codes, Option, none, some, or_null, find, ◌==◌,
}
use event_relay.Store.{
  World, Database, Delivery, DeliveryJob, OutboxRecord, retrying, Result, ok, thrown, continue,
  recover, pure,
}
use event_relay.Store.Atomic.{
  Returns, Commits, attempt_rule, call_then, continue-Returns, with_transaction-Commits,
}
use event_relay.Outbox.{job_of}
use event_relay.Outbox.Insert.{Announced, insert_outbox-Returns}
use event_relay.Worker.{update_delivery}
use event_relay.Worker.Failure.{synced, Updated, sync_after}
use event_relay.Replay.{
  Response, not_found, queued, server_error, to_replay, read_delivery, replay_job,
  replay_transaction, replay_found, replay_delivery,
}

-- The delivery starts over.
abbrev pub started_over : Delivery → Delivery
started_over d = record {
  id = d.id;
  event_id = d.event_id;
  endpoint_id = d.endpoint_id;
  attempt_number = 1;
  http_status = d.http_status;
  response_body = d.response_body;
  duration_ms = d.duration_ms;
  error_message = some (codes "Manual replay triggered via admin console");
  status = retrying;
  next_retry_at = none;
}

abbrev pub first_attempt : Delivery → DeliveryJob
first_attempt d = record {
  delivery_id = d.id;
  event_id = d.event_id;
  endpoint_id = d.endpoint_id;
  attempt_number = 1;
}

-- The tables with the delivery in its first attempt again, and an outbox row.
abbrev pub replayed : ℕ → Database → OutboxRecord → Database
replayed id db o = record (update_delivery id started_over db) { outbox = db.outbox ++ o ∷ [] }

-- What each answer says of the tables before and after.
abbrev pub Replays : ℕ → Database → Response → Database → Type 0
Replays id db not_found db' = (read_delivery id db ≡ none) × (db' ≡ db)
Replays id db server_error db' = db' ≡ db
Replays id db (queued updated) db' =
    (d : Delivery) × (key : Option Text) × (o : OutboxRecord) × (read_delivery id db
      ≡ some (d, key))
    × (updated
        ≡ find (λ (x : Delivery). x.id == id) (update_delivery id started_over db).deliveries)
    × (job_of o ≡ first_attempt d)
    × (o.ordering_key ≡ or_null key)
    × (db' ≡ synced d.event_id (replayed id db o))

module _ (id : ℕ) where
  module _ (db : Database) (d : Delivery) (key : Option Text)
      (e : read_delivery id db ≡ some (d, key)) where
    abbrev Goal : Option Delivery → World → Type 0
    Goal updated v = Replays id db (queued updated) v.db

    replay_transaction-Returns :
        (w : World) → w.db ≡ db → Returns Goal (replay_transaction id d key w)
    unfolding replay_transaction
    replay_transaction-Returns w same = call_then Goal _ _ w λ rest.
        continue-Returns
          (λ _. Announced (replay_job d) (or_null key) (update_delivery id to_replay w.db)) Goal _ _
          (insert_outbox-Returns (replay_job d) (or_null key) _)
          λ _ v a.
            continue-Returns (λ _. Updated d.event_id (λ _. replayed id w.db a.0) v) Goal _ _
              (sync_after d.event_id (λ _. replayed id w.db a.0) v v a.1 refl)
              λ _ u h. (
                d,
                key,
                a.0,
                e,
                ap
                    (λ b.
                      find (λ (x : Delivery). x.id == id)
                        (update_delivery id to_replay b).deliveries)
                    same,
                a.2,
                a.3,
                h.0 ∙ ap (λ b. synced d.event_id (replayed id b a.0)) same,
              )

  abbrev Answers : Database → Result Response × World → Type 0
  Answers db r = (answer : Response) × (r.0 ≡ ok answer) × Replays id db answer r.1.db

  answered :
      (w : World) (row : Option (Delivery × Option Text))
      → read_delivery id w.db ≡ row
      → Answers w.db (recover (replay_found id row w) (pure server_error))
  answered w none e = (not_found, refl, (e, refl))
  answered w (some (d, key)) e = go _ (
      with_transaction-Commits (Goal w.db d key e) (replay_transaction id d key) w (λ a v fs h. h)
        (λ fs. replay_transaction-Returns w.db d key e (record w { faults = fs }) refl))
    where
      go :
          (r : Result (Option Delivery) × World)
          → Commits (Goal w.db d key e) w.db r
          → Answers w.db
              (recover (continue r (λ updated. pure (queued updated))) (pure server_error))
      go (ok updated, v) h = (queued updated, refl, h)
      go (thrown, v) h = (server_error, refl, h)

  -- A replay is always answered, whichever calls fail, and the tables fit the answer. 404: there is no
  -- such delivery with its event, and nothing changed. 500: nothing changed. Otherwise the delivery is
  -- RETRYING in attempt 1 again, not scheduled, with one new outbox row that announces it in attempt 1 under
  -- its event's ordering key, and the event's status follows; nothing else changed.
  pub replay_delivery-Replays : (w : World) → Answers w.db (replay_delivery id w)
  unfolding replay_delivery
  replay_delivery-Replays w =
      attempt_rule (λ r. Answers w.db (recover (continue r (replay_found id)) (pure server_error)))
        (λ v. (ok (read_delivery id v.db), v)) w.faults w (λ rest. (server_error, refl, refl))
        (λ rest. answered (record w { faults = rest }) (read_delivery id w.db) refl)
