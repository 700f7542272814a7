-- ===== src/Dashboard/Clicks.antt =====
-- The second scenario of frontend/src/App.tsx, two clicks with one key, against `ingestEvent` of
-- backend/src/api/eventsController.ts.
use event_relay.Base.{
  ℕ, ◌+◌, ◌≡◌, ◌≢◌, refl, sym, ◌∙◌, Option, none, some, List, [], ◌∷◌, ◌++◌, length, map, Text,
  codes,
}
use mathlib.Core.List.{append_assoc}
use event_relay.Base.Decimal.{decimal}
use event_relay.Store.{World}
use event_relay.Ingest.{IngestRequest, Response, created, ingest_event}
use event_relay.Ingest.Twice.{ingest_event_twice}
use event_relay.Store.{Result, ok}
use event_relay.Dashboard.Page.{
  EventBody, Call, Json, Reply, Page, Browser, continue, or_throw, arrived, fetch,
}
use event_relay.Dashboard.Handlers.{event_call}
use event_relay.Dashboard.Scenarios.{duplicate_body, run_idempotent, second_answered, show_second}
use event_relay.Dashboard.Frame.{header_of}

module _ (number : Text → ℕ) where
  abbrev numbers : Option (List Text) → Option (List ℕ)
  numbers none = none
  numbers (some ids) = some (map number ids)

  -- The body as zod's parse leaves it, with the identifiers as numbers.
  abbrev pub as_ingest : EventBody → IngestRequest
  as_ingest body = record {
    event_type = body.event_type;
    payload = body.payload;
    endpoint_ids = numbers body.endpoint_ids;
    ordering_key = body.ordering_key;
  }

  abbrev pub body_of : Option EventBody → Option IngestRequest
  body_of none = none
  body_of (some body) = some (as_ingest body)

  -- What the backend does with a call of `POST /api/events`.
  abbrev pub served : Call → World → Result Response × World
  served c = ingest_event (header_of (codes "Idempotency-Key") c.headers) (body_of c.body)

-- The call of a click at some time.
abbrev pub guard_call : Page → ℕ → Call
guard_call v now = event_call v (codes "idemp-guard-" ++ decimal now) duplicate_body

shown_sent :
    (b : Browser) (v : Page) (t1 : ℕ) (r : Reply) (json : Option Json) (p : Page)
    → (continue (or_throw json p) (λ body. show_second b v t1 p.now body)).1.sent ≡ p.sent
shown_sent b v t1 r none p = refl
shown_sent b v t1 r (some body) p = refl

answered_sent :
    (b : Browser) (v : Page) (t1 : ℕ) (r : Option Reply) (p : Page)
    → (continue (arrived r p) (second_answered b v t1)).1.sent ≡ p.sent
answered_sent b v t1 none p = refl
answered_sent b v t1 (some r) p = shown_sent b v t1 r r.json (record p { now = p.now + r.took })

-- If the first click gets an answer, the second sends the same call; and where the backend created an
-- event for the first, it changes no table for the second, whichever of its calls fail, and does not
-- answer that it created one.
pub second_click :
    (number : Text → ℕ) (b : Browser) (v p : Page) (res : Reply) (w w' : World) (id n : ℕ)
    → b.answer (length p.sent) (guard_call v p.now) ≡ some res
    → (served number (guard_call v p.now) w).0 ≡ ok (created id n)
    → (served number (guard_call v p.now) w).1.db ≡ w'.db
    → ((run_idempotent b v p).1.sent ≡ p.sent ++ guard_call v p.now ∷ guard_call v p.now ∷ [])
      × ((served number (guard_call v p.now) w').1.db ≡ w'.db)
      × ((i m : ℕ) → (served number (guard_call v p.now) w').0 ≢ ok (created i m))
unfolding run_idempotent fetch
second_click number b v p res w w' id n answered made same =
    let call = guard_call v p.now in
    let (still, never) =
      ingest_event_twice b'i' (codes "demp-guard-" ++ decimal p.now)
        (as_ingest number duplicate_body) (as_ingest number duplicate_body) w w' id n made
        (sym same) in
    (
      rw answered (
          answered_sent b v (p.now + res.took) (b.answer (length (p.sent ++ call ∷ [])) call)
            (record p { sent = (p.sent ++ call ∷ []) ++ call ∷ []; now = p.now + res.took })
          ∙ append_assoc p.sent (call ∷ []) (call ∷ [])),
      still,
      never,
    )
