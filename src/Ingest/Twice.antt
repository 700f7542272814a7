-- ===== src/Ingest/Twice.antt =====
-- `ingestEvent` of backend/src/api/eventsController.ts: a second request with a key that an event has.
use event_relay.Base.{
  ℕ, ◌≡◌, refl, sym, ◌∙◌, true, some, List, [], ◌∷◌, ◌++◌, any, update, Text, text_eq_self, ◌==◌,
  ◌≢◌, Bool-cases, inl, inr, arith,
}
use event_relay.Store.{
  World, Database, Event, Endpoint, Delivery, OutboxRecord, no_targets, Result, ok,
}
use event_relay.Ingest.{
  IngestRequest, Response, bad_request, duplicate, created, server_error, has_key, ingest_event,
}
use event_relay.Ingest.Fanout.{fanned}
use event_relay.Ingest.Atomic.{targets, marked, with_event, Stored, ingest_event-Stored}

any-append_self :
    (key : Text) (es : List Event) (e : Event)
    → e.idempotency_key ≡ key
    → any (has_key key) (es ++ e ∷ []) ≡ true
any-append_self key [] e h = rw (h, text_eq_self key)
any-append_self key (x ∷ es) e h = ground (arith, any-append_self key es e h)

any-update_status :
    (key : Text) (id : ℕ) (es : List Event)
    → any
        (has_key key)
        (update (λ (e : Event). e.id == id) (λ (e : Event). record e { status = no_targets }) es)
      ≡ any (has_key key) es
any-update_status key id [] = refl
any-update_status key id (e ∷ es) = elim (Bool-cases (e.id == id)) [
  | inl h ↦ rw (h, any-update_status key id es)
  | inr h ↦ rw (h, any-update_status key id es)
]

marked-has_key :
    (key : Text) (eps : List Endpoint) (id : ℕ) (db : Database) (e : Event) (ds : List Delivery)
    (os : List OutboxRecord)
    → e.idempotency_key ≡ key
    → any (has_key key) (marked eps id (fanned (with_event db e) ds os)).events ≡ true
marked-has_key key [] id db e ds os h =
    any-update_status key id (db.events ++ e ∷ []) ∙ any-append_self key db.events e h
marked-has_key key (ep ∷ eps) id db e ds os h = any-append_self key db.events e h

Stored-again :
    (key : Text) (request : IngestRequest) (db db' : Database) (answer : Response)
    → any (has_key key) db.events ≡ true
    → Stored key request db answer db'
    → (db' ≡ db) × ((id n : ℕ) → answer ≢ created id n)
Stored-again key request db db' bad_request h s = (s, λ id n e. cc)
Stored-again key request db db' server_error h s = (s, λ id n e. cc)
Stored-again key request db db' (duplicate e) h s = (s.0, λ id n e. cc)
Stored-again key request db db' (created id n) h s = absurd (ground (arith, s.3))

created-has_key :
    (key : Text) (request : IngestRequest) (db db' : Database) (answer : Response) (id n : ℕ)
    → answer ≡ created id n
    → Stored key request db answer db'
    → any (has_key key) db'.events ≡ true
created-has_key key request db db' (created i m) id n e (x, ds, os, _, new, _, _, _, same) =
    rw same (marked-has_key key (targets request db) i db x ds os new.0)
created-has_key key request db db' bad_request id n e s = cc
created-has_key key request db db' server_error id n e s = cc
created-has_key key request db db' (duplicate x) id n e s = cc

-- Idempotence: once a request with a key was answered 201, any later request with that key, whatever
-- its body and whichever calls fail, changes no table and is not answered 201.
pub ingest_event_twice :
    (c : ℕ) (key : Text) (first second : IngestRequest) (w later : World) (id n : ℕ)
    → (ingest_event (some (c ∷ key)) (some first) w).0 ≡ ok (created id n)
    → later.db ≡ (ingest_event (some (c ∷ key)) (some first) w).1.db
    → ((ingest_event (some (c ∷ key)) (some second) later).1.db ≡ later.db)
      × ((i m : ℕ) → (ingest_event (some (c ∷ key)) (some second) later).0 ≢ ok (created i m))
ingest_event_twice c key first second w later id n created_first same =
    let (a, ea, sa) = ingest_event-Stored c key first w in
    let (b, eb, sb) = ingest_event-Stored c key second later in
    let is_created : a ≡ created id n = ok_injective (sym ea ∙ created_first) in
    let present : any (has_key (c ∷ key)) later.db.events ≡ true =
      rw same (created-has_key (c ∷ key) first w.db _ a id n is_created sa) in
    let (keep, never) = Stored-again (c ∷ key) second later.db _ b present sb in
    (keep, λ i m e. never i m (ok_injective (sym eb ∙ e)))
  where
    ok_injective : {x y : Response} → ◌≡◌ {A = Result Response} (ok x) (ok y) → x ≡ y
    ok_injective e = cc
