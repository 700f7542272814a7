-- ===== src/Api/Created.antt =====
-- What `createEndpoint` of backend/src/api/endpointsController.ts leaves in the tables.
use event_relay.Base.{
  ℕ, ◌≡◌, ◌≤◌, refl, ◌⊎◌, inl, inr, Bool, true, false, ◌&&◌, Option, none, some, Option-cases,
  Bool-cases, List, any, find, ◌==◌, [], ◌∷◌, ◌++◌, Text, codes, starts_with, if◌then◌else◌, arith,
}
use event_relay.Store.{World, Database, Endpoint, CircuitRecord, closed}
use event_relay.Store.Atomic.{Ends, attempt_rule}
use event_relay.Store.Effects.{continue, recover, pure, ok, M, execute_returning, ◌>>◌}
use event_relay.Circuit.{is_of, insert_circuit}
use event_relay.Ssrf.{Net, Verdict, valid, refused, validate_endpoint_url}
use event_relay.Api.Endpoints.{
  EndpointBody, NewEndpoint, Response, bad_request, blocked, created, server_error, parse_endpoint,
  optional, is_secret, between, secret_of, insert_endpoint, row_for, after_check, create_endpoint,
}

-- What the schema promises of a request that it accepts.
abbrev Accepted : NewEndpoint → Type 0
Accepted new =
    ((1 ≤ new.rate_limit_rps) × (new.rate_limit_rps ≤ 500))
    × ((1 ≤ new.max_retries) × (new.max_retries ≤ 10))
    × ((500 ≤ new.timeout_ms) × (new.timeout_ms ≤ 30000))
    × (optional is_secret new.secret_key ≡ true)

and_left : (a b : Bool) → a && b ≡ true → (a ≡ true) × (b ≡ true)
and_left a b h = ground arith

when_some :
    {A : Type 0} (t : Bool) (x y : A) → (if t then some x else none) ≡ some y → (t ≡ true) × (x ≡ y)
when_some true x y e = (refl, some_injective e)
  where
    some_injective : {A : Type 0} {x y : A} → ◌≡◌ {A = Option A} (some x) (some y) → x ≡ y
    some_injective e = cc
when_some false x y e = cc

between_iff : (low high n : ℕ) → between low high n ≡ true → (low ≤ n) × (n ≤ high)
between_iff low high n h = ground (arith, h)

parse_endpoint-Accepted :
    (is_url : Text → Bool) (body : EndpointBody) (new : NewEndpoint)
    → parse_endpoint is_url body ≡ some new
    → Accepted new
unfolding parse_endpoint
parse_endpoint-Accepted is_url body new e =
    let (tests, same) = when_some _ _ new e in
    let (_, t1) = and_left _ _ tests in
    let (_, t2) = and_left _ _ t1 in
    let (secret, t3) = and_left _ _ t2 in
    let (rps, t4) = and_left _ _ t3 in
    let (retries, timeout) = and_left _ _ t4 in
    rw (← same)
      (between_iff 1 500 _ rps, between_iff 1 10 _ retries, between_iff 500 30000 _ timeout, secret)

-- The ranges of a row's numbers, the form of its secret, and that it is active.
abbrev pub Sound : Endpoint → Type 0
Sound ep =
    ((1 ≤ ep.rate_limit_rps) × (ep.rate_limit_rps ≤ 500))
    × ((1 ≤ ep.max_retries) × (ep.max_retries ≤ 10))
    × ((500 ≤ ep.timeout_ms) × (ep.timeout_ms ≤ 30000))
    × (starts_with (codes "whsec_") ep.secret_key ≡ true)
    × (ep.is_active ≡ true)

secret_of-starts :
    (hex : Text) (key : Option Text)
    → optional is_secret key ≡ true
    → starts_with (codes "whsec_") (secret_of hex key) ≡ true
unfolding secret_of
secret_of-starts hex none h = refl
secret_of-starts hex (some []) h = refl
secret_of-starts hex (some (c ∷ key)) h = (and_left _ _ h).0

abbrev pub with_endpoint : Endpoint → Database → Database
with_endpoint ep db = record db { endpoints = db.endpoints ++ ep ∷ [] }

-- The breaker of a new endpoint: closed, with nothing counted.
abbrev pub new_breaker : ℕ → CircuitRecord
new_breaker id = record {
  endpoint_id = id;
  state = closed;
  failure_count = 0;
  success_count = 0;
  threshold_failures = 5;
  cool_down_seconds = 30;
  opened_at = none;
  last_failure_at = none;
}

-- The endpoint is there, and so is a row for its breaker: the new one, or one that was there.
abbrev pub HasBreaker : Endpoint → Database → Database → Type 0
HasBreaker ep db db' =
    ((find (λ (r : CircuitRecord). r.endpoint_id == ep.id) db.circuit_breakers ≡ none)
      × (db' ≡ record (with_endpoint ep db) {
        circuit_breakers = db.circuit_breakers ++ new_breaker ep.id ∷ [];
      }))
    ⊎ ((r : CircuitRecord) × (find (λ (r : CircuitRecord). r.endpoint_id == ep.id)
            db.circuit_breakers
          ≡ some r)
        × (db' ≡ with_endpoint ep db))

find-any :
    {A : Type 0} (p : A → Bool) (xs : List A)
    → ((any p xs ≡ false) × (find p xs ≡ none))
      ⊎ ((any p xs ≡ true) × ((x : A) × (find p xs ≡ some x)))
find-any p [] = inl (refl, refl)
find-any p (x ∷ xs) = elim (Bool-cases (p x)) [
  | inl e ↦ rw e (inr (refl, (x, refl)))
  | inr e ↦ rw e (find-any p xs)
]

insert_circuit-HasBreaker :
    (ep : Endpoint) (db : Database)
    → HasBreaker ep db (insert_circuit ep.id (with_endpoint ep db)).1
unfolding insert_circuit
insert_circuit-HasBreaker ep db = elim (find-any (is_of ep.id) db.circuit_breakers) [
  | inl (missing, none_found) ↦ inl (none_found, rw missing refl)
  | inr (there, (r, found)) ↦ inr (r, found, rw there refl)
]

module _ (net : Net) (w : World) where
  -- The world after each answer. A request refused has changed nothing; an endpoint that was created
  -- is sound, its URL was found valid, and it has a breaker; after an error in a statement, either
  -- nothing was changed or the sound endpoint is there, and the second statement did nothing.
  abbrev pub Made : Response → World → Type 0
  Made bad_request v = v ≡ w
  Made (blocked error) v = v ≡ w
  Made (created ep) v =
      Sound ep × (validate_endpoint_url net ep.url ≡ valid) × HasBreaker ep w.db v.db
  Made server_error v =
      (v.db ≡ w.db) ⊎ ((ep : Endpoint) × Sound ep × (v.db ≡ with_endpoint ep w.db))

  module _ (hex : Text) (new : NewEndpoint) (a : Accepted new)
      (good : validate_endpoint_url net new.url ≡ valid) where
    row-Sound : (id : ℕ) → Sound (row_for hex new id)
    row-Sound id = (a.0, a.1, a.2, secret_of-starts hex new.secret_key a.3, refl)

    inserted-Made : Ends Made (λ v. ⊥) (after_check hex new valid w)
    unfolding insert_endpoint
    inserted-Made =
        attempt_rule
          (λ r. Ends Made (λ v. ⊥) (recover (continue r (with_breaker)) (pure server_error)))
          (insert_endpoint hex new) w.faults w (λ rest. inl refl)
          (λ rest.
            attempt_rule
              (λ r.
                Ends Made (λ v. ⊥)
                  (recover (continue r (λ _. pure (created (row_for hex new (w.uuid w.drawn)))))
                    (pure server_error)))
              (λ v. (
                ok (insert_circuit (w.uuid w.drawn) v.db).0,
                record v { db = (insert_circuit (w.uuid w.drawn) v.db).1 },
              ))
              rest _
              (λ later. inr (row_for hex new (w.uuid w.drawn), row-Sound (w.uuid w.drawn), refl))
              (λ later. (
                row-Sound (w.uuid w.drawn),
                good,
                insert_circuit-HasBreaker (row_for hex new (w.uuid w.drawn)) w.db,
              )))
      where
        with_breaker : Endpoint → M Response
        with_breaker row = do execute_returning (insert_circuit row.id); pure (created row)

  checked :
      (hex : Text) (new : NewEndpoint)
      → Accepted new
      → (verdict : Verdict) → validate_endpoint_url net new.url ≡ verdict
      → Ends Made (λ v. ⊥) (after_check hex new verdict w)
  checked hex new a valid e = inserted-Made hex new a e
  checked hex new a (refused error) e = refl

  -- Whichever calls fail, the handler answers; each answer tells what it left in the tables. 201: the
  -- endpoint is there, in the ranges of the schema, active and with a URL that was found valid, and its
  -- breaker has a row: a new one, closed with nothing counted, or the one that was there. 400 or a refused
  -- URL: nothing has changed. 500: nothing has, or the endpoint is there without a new breaker.
  pub create_endpoint-Made :
      (is_url : Text → Bool) (hex : Text) (body : EndpointBody)
      → Ends Made (λ v. ⊥) (create_endpoint net is_url hex body w)
  unfolding create_endpoint
  create_endpoint-Made is_url hex body = elim (Option-cases (parse_endpoint is_url body)) [
    | inl e ↦ rw e refl
    | inr (new, e) ↦ rw e (checked hex new (parse_endpoint-Accepted is_url body new e) _ refl)
  ]
