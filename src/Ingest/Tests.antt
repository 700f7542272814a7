-- ===== src/Ingest/Tests.antt =====
-- Ingestion, on concrete requests.
use event_relay.Base.{
  ◌≡◌, refl, ℕ, codes, true, false, some, none, [], ◌∷◌, ◌≢◌, All, arith, length, ◌≤◌,
}
use event_relay.Store.{World, ok}
use event_relay.Sample.{world}
use event_relay.Ingest.{IngestRequest, Response, created, ingest_event}
use event_relay.Ingest.Atomic.{Stored, ingest_event-Stored}
use event_relay.Ingest.Streamed.{Streamed, ingested-Streamed}
use event_relay.Outbox.NoLoss.{OwnId}
use event_relay.Outbox.Delivered.{drains}
use event_relay.Ingest.Atomic.{targets}
use event_relay.Ingest.Twice.{ingest_event_twice}

abbrev paid_request : IngestRequest
paid_request = record {
  event_type = codes "order.paid";
  payload = codes "{}";
  endpoint_ids = none;
  ordering_key = none;
}

-- The third call fails in the first run.
abbrev faulty : World
faulty = record world { faults = false ∷ false ∷ true ∷ [] }

ingest_event-Stored_example :
    (answer : Response) × ((ingest_event (some (b'k' ∷ codes "1")) (some paid_request) faulty).0
      ≡ ok answer)
    × Stored
        (b'k' ∷ codes "1")
        paid_request
        world.db
        answer
        (ingest_event (some (b'k' ∷ codes "1")) (some paid_request) faulty).1.db
ingest_event-Stored_example = ingest_event-Stored b'k' (codes "1") paid_request faulty

abbrev again : World
again = (ingest_event (some (b'k' ∷ codes "1")) (some paid_request) world).1

created_first :
    (ingest_event (some (b'k' ∷ codes "1")) (some paid_request) world).0 ≡ ok (created 100 1)
unfolding ingest_event event_relay.Store.Effects.with_transaction event_relay.Metrics.inc_ingested
    event_relay.Ingest.insert_delivery event_relay.Outbox.insert_outbox
created_first = refl

ingest_event_twice_example :
    ((ingest_event (some (b'k' ∷ codes "1")) (some paid_request) again).1.db ≡ again.db)
    × ((i m : ℕ)
        → (ingest_event (some (b'k' ∷ codes "1")) (some paid_request) again).0 ≢ ok (created i m))
ingest_event_twice_example =
    ingest_event_twice b'k' (codes "1") paid_request paid_request world again 100 1 created_first
      refl

again_calm : again.faults ≡ []
unfolding ingest_event event_relay.Store.Effects.with_transaction event_relay.Metrics.inc_ingested
    event_relay.Ingest.insert_delivery event_relay.Outbox.insert_outbox
again_calm = refl

-- The outbox has the row that was there, 3, and the new one, 102.
again_apart : All (λ o. OwnId o again.db.outbox) again.db.outbox
unfolding ingest_event event_relay.Store.Effects.with_transaction event_relay.Metrics.inc_ingested
    event_relay.Ingest.insert_delivery event_relay.Outbox.insert_outbox
again_apart = (
  (λ e. refl, (λ e. absurd (omega (arith, e)), tt)),
  ((λ e. absurd (omega (arith, e)), (λ e. refl, tt)), tt),
)

again_two : length again.db.outbox ≤ 2
unfolding ingest_event event_relay.Store.Effects.with_transaction event_relay.Metrics.inc_ingested
    event_relay.Ingest.insert_delivery event_relay.Outbox.insert_outbox
again_two = omega arith

ingested_and_drained :
    All
      (Streamed (codes "deliveries") 100 none (drains (codes "deliveries") 2 again))
      (targets paid_request world.db)
ingested_and_drained =
    ingested-Streamed (codes "deliveries") b'k' (codes "1") paid_request world again 100 1 2
      created_first refl again_calm again_apart again_two
