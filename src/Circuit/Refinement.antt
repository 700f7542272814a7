-- ===== src/Circuit/Refinement.antt =====
-- The methods of backend/src/resilience/circuitBreaker.ts beside the machine of Circuit.Machine.
use event_relay.Base.{
  ℕ, suc, ◌+◌, ◌*◌, ◌<◌, ◌≡◌, refl, ◌∙◌, ap, true, if◌then◌else◌, some, List, [], ◌∷◌, find, any,
  update, arith, ◌==◌, find-update_self, map_option, ltb, ◌&&◌,
}
use event_relay.Store.{World, CircuitRecord, opened, half_open_probing, ok, circuit_state_eq}
use event_relay.Metrics.{set_circuit_state}
use event_relay.Circuit.{
  is_of, closed_again, one_failure_more, tripped, get_circuit, update_circuits, admit, can_execute,
  after_success, record_success, after_failure, record_failure, reset_circuit,
}
use event_relay.Circuit.Machine.{
  Breaker, closed_after, open_since, trial, fails, asks, succeeds, state_of, Represents,
}

-- No call fails, and the row of the endpoint stands for a state of the machine.
pub record Stands (endpoint_id : ℕ) (w : World) (r : CircuitRecord) (b : Breaker) : Type 0 where
  pub fault_free : w.faults ≡ []
  pub found : find (is_of endpoint_id) w.db.circuit_breakers ≡ some r
  pub represents : Represents r b

-- The row that an update of the endpoint's rows leaves.
found-update :
    (endpoint_id : ℕ) (f : CircuitRecord → CircuitRecord) (rows : List CircuitRecord)
    (r : CircuitRecord)
    → ((x : CircuitRecord) → (f x).endpoint_id ≡ x.endpoint_id)
    → find (is_of endpoint_id) rows ≡ some r
    → find (is_of endpoint_id) (update (is_of endpoint_id) f rows) ≡ some (f r)
found-update endpoint_id f rows r keep e =
    find-update_self (is_of endpoint_id) f rows (λ x. ap (λ i. i == endpoint_id) (keep x))
    ∙ ap (map_option f) e

module _ (endpoint_id : ℕ) (w : World) (r : CircuitRecord) where
  -- A row that is there is read at once.
  pub get_circuit_found :
      (fuel : ℕ)
      → w.faults ≡ []
      → find (is_of endpoint_id) w.db.circuit_breakers ≡ some r
      → get_circuit (suc fuel) endpoint_id w ≡ (ok r, w)
  unfolding get_circuit
  get_circuit_found fuel e f = rw (e, f)

  record_failure_found :
      w.faults ≡ []
      → find (is_of endpoint_id) w.db.circuit_breakers ≡ some r
      → record_failure endpoint_id w
        ≡ after_failure endpoint_id
            (some (one_failure_more w.now r))
            (record w { db = update_circuits (is_of endpoint_id) (one_failure_more w.now) w.db })
  unfolding record_failure
  record_failure_found e f =
      rw (e, found-update endpoint_id (one_failure_more w.now) _ r (λ x. refl) f)

-- The row after a failure.
abbrev pub failed_row : ℕ → CircuitRecord → Breaker → CircuitRecord
failed_row now r (closed_after n) =
    if ltb (n + 1) r.threshold_failures
    then one_failure_more now r
    else tripped now (one_failure_more now r)
failed_row now r _ = tripped now (one_failure_more now r)

abbrev pub Fails : ℕ → CircuitRecord → Breaker → World → Type 0
Fails endpoint_id r b w =
    Stands endpoint_id (record_failure endpoint_id w).1 (failed_row w.now r b)
      (fails r.threshold_failures w.now b)
    × ((record_failure endpoint_id w).0 ≡ ok (state_of (fails r.threshold_failures w.now b)))

after_failure-Stands :
    (endpoint_id : ℕ) (v : World) (r : CircuitRecord) (b : Breaker)
    → Represents r b
    → v.faults ≡ []
    → find (is_of endpoint_id) v.db.circuit_breakers ≡ some (one_failure_more v.now r)
    → let a = after_failure endpoint_id (some (one_failure_more v.now r)) v in
      Stands endpoint_id a.1 (failed_row v.now r b) (fails r.threshold_failures v.now b)
      × (a.0 ≡ ok (state_of (fails r.threshold_failures v.now b)))
unfolding after_failure fails set_circuit_state
after_failure-Stands endpoint_id v r (closed_after n) rep e f = ground (
  arith,
  found-update endpoint_id (tripped v.now) v.db.circuit_breakers (one_failure_more v.now r)
      (λ x. refl) f,
)
after_failure-Stands endpoint_id v r (open_since t) rep e f = ground (
  arith,
  found-update endpoint_id (tripped v.now) v.db.circuit_breakers (one_failure_more v.now r)
      (λ x. refl) f,
)
after_failure-Stands endpoint_id v r trial rep e f = ground (
  arith,
  found-update endpoint_id (tripped v.now) v.db.circuit_breakers (one_failure_more v.now r)
      (λ x. refl) f,
)

module _ (endpoint_id : ℕ) (w : World) (r : CircuitRecord) (b : Breaker) where
  -- Where no call fails, on a row that stands for a state of the machine, `recordFailure` leaves a
  -- row that stands for the machine's state after a failure, and returns that state.
  pub record_failure-Stands : Stands endpoint_id w r b → Fails endpoint_id r b w
  record_failure-Stands s = rw (record_failure_found endpoint_id w r s.fault_free s.found) (
      after_failure-Stands endpoint_id _ r b s.represents s.fault_free
        (found-update endpoint_id (one_failure_more w.now) _ r (λ x. refl) s.found))

-- The row after a success.
abbrev pub succeeded_row : CircuitRecord → Breaker → CircuitRecord
succeeded_row r (closed_after n) = record r { failure_count = 0 }
succeeded_row r (open_since t) = r
succeeded_row r trial = closed_again r

-- A row whose failures are 0 already is left by the update that is skipped.
after_success-Stands :
    (endpoint_id : ℕ) (w : World) (r : CircuitRecord) (b : Breaker)
    → Stands endpoint_id w r b
    → Stands endpoint_id
        (after_success endpoint_id r.state r.failure_count w).1
        (succeeded_row r b)
        (succeeds b)
unfolding after_success succeeds set_circuit_state
after_success-Stands endpoint_id w r (closed_after n) s = ground (
  arith,
  found-update endpoint_id (λ x. record x { failure_count = 0 }) w.db.circuit_breakers r (λ x. refl)
      s.found,
)
after_success-Stands endpoint_id w r (open_since t) s = ground arith
after_success-Stands endpoint_id w r trial s =
    ground
      (arith, found-update endpoint_id closed_again w.db.circuit_breakers r (λ x. refl) s.found)

-- Where no call fails, on a row that stands for a state of the machine, `recordSuccess` leaves a row
-- that stands for the machine's state after a success.
pub record_success-Stands :
    (endpoint_id : ℕ) (w : World) (r : CircuitRecord) (b : Breaker)
    → Stands endpoint_id w r b
    → Stands endpoint_id (record_success endpoint_id w).1 (succeeded_row r b) (succeeds b)
unfolding record_success
record_success-Stands endpoint_id w r b s =
    rw (get_circuit_found endpoint_id w r 1 s.fault_free s.found)
      (after_success-Stands endpoint_id w r b s)

-- The compare-and-set of `canExecute`, on a row in the state that it asks for.
pub claim-found :
    (endpoint_id : ℕ) (rows : List CircuitRecord) (r : CircuitRecord)
    → find (is_of endpoint_id) rows ≡ some r
    → r.state ≡ opened
    → (any (λ x. is_of endpoint_id x && circuit_state_eq x.state opened) rows ≡ true)
      × (find (is_of endpoint_id) (
            update
              (λ x. is_of endpoint_id x && circuit_state_eq x.state opened)
              (λ x. record x { state = half_open_probing })
              rows)
          ≡ some (record r { state = half_open_probing }))
claim-found endpoint_id [] r e o = cc
claim-found endpoint_id (x ∷ rows) r e o = ground (arith, claim-found endpoint_id rows r)

-- The row after a question.
abbrev pub asked_row : ℕ → CircuitRecord → Breaker → CircuitRecord
asked_row now r (open_since t) =
    if ltb (t + r.cool_down_seconds * 1000) now then record r { state = half_open_probing } else r
asked_row now r _ = r

admit-Stands :
    (endpoint_id : ℕ) (w : World) (r : CircuitRecord) (b : Breaker)
    → 0 < r.threshold_failures
    → Stands endpoint_id w r b
    → Stands endpoint_id
        (admit endpoint_id r.state r w).1
        (asked_row w.now r b)
        (asks (r.cool_down_seconds * 1000) w.now b).1
      × ((admit endpoint_id r.state r w).0 ≡ ok (asks (r.cool_down_seconds * 1000) w.now b).0)
unfolding admit asks set_circuit_state
admit-Stands endpoint_id w r (closed_after n) h s = ground arith
admit-Stands endpoint_id w r (open_since t) h s =
    ground (arith, claim-found endpoint_id w.db.circuit_breakers r s.found)
admit-Stands endpoint_id w r trial h s = ground arith

-- Where no call fails, on a row that stands for a state of the machine, with a positive threshold,
-- `canExecute` answers as the machine does and leaves a row that stands for its next state.
pub can_execute-Stands :
    (endpoint_id : ℕ) (w : World) (r : CircuitRecord) (b : Breaker)
    → 0 < r.threshold_failures
    → Stands endpoint_id w r b
    → Stands endpoint_id
        (can_execute endpoint_id w).1
        (asked_row w.now r b)
        (asks (r.cool_down_seconds * 1000) w.now b).1
      × ((can_execute endpoint_id w).0 ≡ ok (asks (r.cool_down_seconds * 1000) w.now b).0)
unfolding can_execute
can_execute-Stands endpoint_id w r b h s =
    rw (get_circuit_found endpoint_id w r 1 s.fault_free s.found)
      (admit-Stands endpoint_id w r b h s)

-- Where no call fails, on a row that stands for a state of the machine, with a positive threshold,
-- `resetCircuit` leaves a row that stands for the closed state with no failures.
pub reset_circuit-Stands :
    (endpoint_id : ℕ) (w : World) (r : CircuitRecord) (b : Breaker)
    → 0 < r.threshold_failures
    → Stands endpoint_id w r b
    → Stands endpoint_id (reset_circuit endpoint_id w).1 (closed_again r) (closed_after 0)
unfolding reset_circuit set_circuit_state
reset_circuit-Stands endpoint_id w r b h s =
    ground
      (arith, found-update endpoint_id closed_again w.db.circuit_breakers r (λ x. refl) s.found)
