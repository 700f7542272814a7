-- ===== src/Ingest/Atomic.antt =====
-- `ingestEvent` of backend/src/api/eventsController.ts: its answers and the tables.
use event_relay.Base.{
  Bool, ◌&&◌, ℕ, ◌≡◌, refl, sym, ap, ◌∙◌, false, Option, none, some, List, [], ◌∷◌, ◌++◌, any, find,
  select, length, Text, or_null, Bool-cases, inl, inr,
}
use event_relay.Store.{
  World, Database, Event, Endpoint, Delivery, OutboxRecord, no_targets, Result, ok, thrown,
  continue, pure, recover,
}
use event_relay.Store.Atomic.{
  Returns, Commits, call_then, continue-Returns, with_transaction-Commits,
}
use event_relay.EventStatus.{set_event_status}
use event_relay.Metrics.{inc_ingested}
use event_relay.Ingest.{
  IngestRequest, Response, bad_request, duplicate, created, server_error, Ingested, was_duplicate,
  has_key, insert_event, is_target, subscribes, is_named, deliver_to, after_insert,
  ingest_transaction, respond, ingest_event,
}
use event_relay.Ingest.Fanout.{FannedOut, FansOut, fanned, fanned-nil, fan_out-Returns}

-- The row that a new event gets.
abbrev pub IsNew : Text → IngestRequest → Event → Type 0
IsNew key request e =
    (e.idempotency_key ≡ key)
    × (e.event_type ≡ request.event_type)
    × (e.payload ≡ request.payload)
    × (e.ordering_key ≡ or_null request.ordering_key)

-- An endpoint is active, subscribes to the type (or to all), and is named (or none is).
abbrev is_subscriber : IngestRequest → Endpoint → Bool
is_subscriber request ep =
    ep.is_active
    && (subscribes request.event_type ep.subscribed_events && is_named request.endpoint_ids ep.id)

abbrev pub targets : IngestRequest → Database → List Endpoint
targets request db = select (is_subscriber request) db.endpoints

-- An event with no target is marked; any other keeps its status.
abbrev pub marked : List Endpoint → ℕ → Database → Database
marked [] id db = set_event_status id no_targets db
marked (ep ∷ eps) id db = db

abbrev pub with_event : Database → Event → Database
with_event db e = record db { events = db.events ++ e ∷ [] }

-- What each answer says of the tables before and after.
abbrev pub Stored : Text → IngestRequest → Database → Response → Database → Type 0
Stored key request db bad_request db' = db' ≡ db
Stored key request db server_error db' = db' ≡ db
Stored key request db (duplicate e) db' = (db' ≡ db) × (find (has_key key) db.events ≡ some e)
Stored key request db (created id n) db' =
    (e : Event) × (ds : List Delivery) × (os : List OutboxRecord) × (any (has_key key) db.events
      ≡ false)
    × IsNew key request e
    × (e.id ≡ id)
    × (length ds ≡ n)
    × FannedOut id (or_null request.ordering_key) (targets request db) ds os
    × (db' ≡ marked (targets request db) id (fanned (with_event db e) ds os))

-- What the INSERT of the event leaves.
abbrev Tried : Text → IngestRequest → Database → Option Event → World → Type 0
Tried key request db none w = w.db ≡ db
Tried key request db (some e) w =
    (any (has_key key) db.events ≡ false) × IsNew key request e × (w.db ≡ with_event db e)

module _ (key : Text) (request : IngestRequest) where
  insert_event-Returns : (w : World) → Returns (Tried key request w.db) (insert_event key request w)
  unfolding insert_event
  insert_event-Returns w = elim (Bool-cases (any (has_key key) w.db.events)) [
    | inl e ↦ rw e refl
    | inr e ↦ rw e (e, (refl, refl, refl, refl), refl)
  ]

  module _ (db : Database) where
    abbrev Goal : Ingested → World → Type 0
    Goal r w = Stored key request db (respond r) w.db

    respond_duplicate :
        (found : Option Event) (w : World)
        → w.db ≡ db
        → found ≡ find (has_key key) db.events
        → Goal (was_duplicate found) w
    respond_duplicate none w e f = e
    respond_duplicate (some x) w e f = (e, sym f)

    deliver_to-Returns :
        (eps : List Endpoint) (e : Event) (w : World)
        → targets request db ≡ eps
        → any (has_key key) db.events ≡ false
        → IsNew key request e
        → w.db ≡ with_event db e
        → Returns Goal (deliver_to request e eps w)
    unfolding deliver_to
    deliver_to-Returns [] e w t absent new same = call_then Goal _ _ w λ rest. (
      e,
      [],
      [],
      absent,
      new,
      refl,
      refl,
      rw t tt,
      rw t (ap (set_event_status e.id no_targets) (same ∙ fanned-nil (with_event db e))),
    )
    deliver_to-Returns (ep ∷ eps) e w t absent new same =
        continue-Returns (FansOut e.id (or_null request.ordering_key) (ep ∷ eps) w.db) Goal _ _
          (fan_out-Returns e.id (or_null request.ordering_key) (ep ∷ eps) w)
          λ ds v fans. (
            e,
            ds,
            fans.0,
            absent,
            new,
            refl,
            refl,
            rw t fans.2,
            rw t (fans.1 ∙ ap (λ b. fanned b ds fans.0) same),
          )

    targets-with_event :
        (e : Event) (w : World) → w.db ≡ with_event db e → targets request db ≡ targets request w.db
    targets-with_event e w same =
        ap (λ (b : Database). select (is_target request) b.endpoints) (sym same)

    after_insert-Returns :
        (found : Option Event) (w : World)
        → Tried key request db found w
        → Returns Goal (after_insert key request found w)
    unfolding after_insert inc_ingested
    after_insert-Returns none w same = call_then Goal _ _ w λ rest.
        respond_duplicate (find (has_key key) w.db.events) (record w { faults = rest }) same
          (ap (λ (b : Database). find (has_key key) b.events) same)
    after_insert-Returns (some e) w (absent, new, same) =
        call_then Goal _ _ (inc_ingested request.event_type w) λ rest.
          deliver_to-Returns (targets request w.db) e _ (targets-with_event e w same) absent new
            same

  ingest_transaction-Returns : (w : World) → Returns (Goal w.db) (ingest_transaction key request w)
  unfolding ingest_transaction
  ingest_transaction-Returns w = call_then (Goal w.db) _ _ w λ rest.
      continue-Returns (Tried key request w.db) (Goal w.db)
        (insert_event key request (record w { faults = rest })) _
        (insert_event-Returns (record w { faults = rest })) (after_insert-Returns w.db)

  abbrev Answers : Database → Result Response × World → Type 0
  Answers db r = (answer : Response) × (r.0 ≡ ok answer) × Stored key request db answer r.1.db

  answered :
      (db : Database) (r : Result Ingested × World)
      → Commits (Goal db) db r
      → Answers db (recover (continue r (λ result. pure (respond result))) (pure server_error))
  answered db (ok result, w) h = (respond result, refl, h)
  answered db (thrown, w) h = (server_error, refl, h)

-- A request with a key (not the empty one) and a body is always answered, whichever calls fail, and the tables fit the
-- answer. 201: no event had the key; now there is one with the request's data, and one new delivery
-- with its outbox row for each active endpoint that subscribes to the type and is named (or an event
-- marked NO_TARGETS, if there is none). 200: an event had the key, it is the one returned, and
-- nothing changed. Any other answer: nothing changed.
pub ingest_event-Stored :
    (c : ℕ) (key : Text) (request : IngestRequest) (w : World)
    → (answer : Response) × ((ingest_event (some (c ∷ key)) (some request) w).0 ≡ ok answer)
      × Stored (c ∷ key) request w.db answer (ingest_event (some (c ∷ key)) (some request) w).1.db
unfolding ingest_event
ingest_event-Stored c key request w = answered (c ∷ key) request w.db _ (
    with_transaction-Commits (Goal (c ∷ key) request w.db) (ingest_transaction (c ∷ key) request) w
      (λ a v fs h. h)
      (λ fs. ingest_transaction-Returns (c ∷ key) request (record w { faults = fs })))
