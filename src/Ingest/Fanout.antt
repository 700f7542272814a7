-- ===== src/Ingest/Fanout.antt =====
-- What the loop over the targets writes: a delivery and its outbox row for each endpoint.
use mathlib.Core.List.{append_assoc, append-nil}
use event_relay.Base.{ℕ, ◌≡◌, refl, sym, ap, ◌∙◌, Option, none, List, [], ◌∷◌, ◌++◌, Text}
use event_relay.Store.{World, Database, Endpoint, Delivery, OutboxRecord, retrying}
use event_relay.Store.Atomic.{Returns, call-Returns, continue-Returns}
use event_relay.Outbox.{job_of}
use event_relay.Outbox.Insert.{Announced, insert_outbox-Returns}
use event_relay.Ingest.{first_job, insert_delivery, fan_out}

-- The row of a new delivery.
abbrev pub first_row : ℕ → ℕ → ℕ → Delivery
first_row id event_id endpoint_id = record {
  id = id;
  event_id = event_id;
  endpoint_id = endpoint_id;
  attempt_number = 1;
  http_status = none;
  response_body = none;
  duration_ms = none;
  error_message = none;
  status = retrying;
  next_retry_at = none;
}

-- Endpoint by endpoint: a new delivery of the event to it, retrying, in its first attempt and not
-- scheduled, and an outbox row that announces that delivery under the event's ordering key.
abbrev pub FannedOut : ℕ → Option Text → List Endpoint → List Delivery → List OutboxRecord → Type 0
FannedOut event_id key [] [] [] = Unit {0}
FannedOut event_id key (ep ∷ eps) (d ∷ ds) (o ∷ os) =
    (d ≡ first_row d.id event_id ep.id)
    × (job_of o ≡ first_job d)
    × (o.ordering_key ≡ key)
    × FannedOut event_id key eps ds os
FannedOut event_id key _ _ _ = ⊥

-- The tables after the loop.
abbrev pub fanned : Database → List Delivery → List OutboxRecord → Database
fanned db ds os = record db { deliveries = db.deliveries ++ ds; outbox = db.outbox ++ os }

abbrev pub FansOut : ℕ → Option Text → List Endpoint → Database → List Delivery → World → Type 0
FansOut event_id key eps db ds w =
    (os : List OutboxRecord) × (w.db ≡ fanned db ds os) × FannedOut event_id key eps ds os

fanned-cons :
    (db : Database) (d : Delivery) (o : OutboxRecord) (ds : List Delivery) (os : List OutboxRecord)
    → fanned (fanned db (d ∷ []) (o ∷ [])) ds os ≡ fanned db (d ∷ ds) (o ∷ os)
fanned-cons db d o ds os = λ i. record db {
  deliveries = append_assoc db.deliveries (d ∷ []) ds i;
  outbox = append_assoc db.outbox (o ∷ []) os i;
}

abbrev with_row : Database → OutboxRecord → Database
with_row db o = record db { outbox = db.outbox ++ o ∷ [] }

-- The tables after an INSERT into `deliveries`.
abbrev Inserted : ℕ → ℕ → Database → Delivery → World → Type 0
Inserted event_id endpoint_id db d w =
    (d ≡ first_row d.id event_id endpoint_id)
    × (w.db ≡ record db { deliveries = db.deliveries ++ d ∷ [] })

insert_delivery-Returns :
    (event_id endpoint_id : ℕ) (w : World)
    → Returns (Inserted event_id endpoint_id w.db) (insert_delivery event_id endpoint_id w)
unfolding insert_delivery
insert_delivery-Returns event_id endpoint_id w =
    call-Returns (Inserted event_id endpoint_id w.db) _ w (λ rest. (refl, refl))

pub fanned-nil : (db : Database) → db ≡ fanned db [] []
fanned-nil db = λ i. record db {
  deliveries = sym (append-nil db.deliveries) i;
  outbox = sym (append-nil db.outbox) i;
}

pub fan_out-Returns :
    (event_id : ℕ) (key : Option Text) (eps : List Endpoint) (w : World)
    → Returns (FansOut event_id key eps w.db) (fan_out event_id key eps w)
unfolding fan_out
fan_out-Returns event_id key [] w = ([], fanned-nil w.db, tt)
fan_out-Returns event_id key (ep ∷ eps) w =
    continue-Returns (Inserted event_id ep.id w.db) Goal _ _
      (insert_delivery-Returns event_id ep.id w)
      λ d w1 inserted.
        continue-Returns (λ _. Announced (first_job d) key w1.db) Goal _ _
          (insert_outbox-Returns (first_job d) key w1)
          λ _ w2 announced.
            continue-Returns (FansOut event_id key eps w2.db) Goal _ _
              (fan_out-Returns event_id key eps w2)
              λ ds w3 rest. (
                announced.0 ∷ rest.0,
                rest.1
                    ∙ (ap (λ b. fanned b ds rest.0)
                          (announced.1 ∙ ap (λ b. with_row b announced.0) inserted.1)
                        ∙ fanned-cons w.db d announced.0 ds rest.0),
                (inserted.0, announced.2, announced.3, rest.2),
              )
  where
    Goal : List Delivery → World → Type 0
    Goal = FansOut event_id key (ep ∷ eps) w.db
