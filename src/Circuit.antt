-- ===== src/Circuit.antt =====
-- backend/src/resilience/circuitBreaker.ts: the breaker of an endpoint, kept in a row of
-- `circuit_breakers` that every worker reads and updates.
pub mod Machine
pub mod Refinement
pub mod Registry
pub mod Race
pub mod Probe
pub mod Frame
mod Tests
use event_relay.Base.{
  ℕ, zero, suc, ◌+◌, ◌*◌, Bool, true, false, ◌&&◌, ◌||◌, ltb, leb, ◌==◌, if◌then◌else◌, Option,
  none, some, List, [], ◌∷◌, ◌++◌, any, find, update,
}
use event_relay.Store.{
  World, Database, CircuitRecord, CircuitState, closed, opened, half_open, half_open_probing,
  circuit_state_eq, Result, thrown, M, ◌>>=◌, ◌>>◌, pure, modify, clock, query, call, ok,
  execute_returning,
}
use event_relay.Metrics.{set_circuit_state}

-- `WHERE endpoint_id = $1`.
abbrev pub is_of : ℕ → CircuitRecord → Bool
is_of endpoint_id r = r.endpoint_id == endpoint_id

-- A new row: the columns of the INSERT, and the table's defaults.
abbrev pub default_circuit : ℕ → CircuitRecord
default_circuit endpoint_id = record {
  endpoint_id = endpoint_id;
  state = closed;
  failure_count = 0;
  success_count = 0;
  threshold_failures = 5;
  cool_down_seconds = 30;
  opened_at = none;
  last_failure_at = none;
}

-- `UPDATE circuit_breakers SET … WHERE …`.
abbrev pub update_circuits :
    (CircuitRecord → Bool) → (CircuitRecord → CircuitRecord) → Database → Database
update_circuits p f db = record db { circuit_breakers = update p f db.circuit_breakers }

-- `INSERT … ON CONFLICT (endpoint_id) DO NOTHING RETURNING …`.
unfoldable pub insert_circuit : ℕ → Database → Option CircuitRecord × Database
insert_circuit endpoint_id db =
    if any (is_of endpoint_id) db.circuit_breakers then (none, db) else (
      some (default_circuit endpoint_id),
      record db { circuit_breakers = db.circuit_breakers ++ default_circuit endpoint_id ∷ [] },
    )

abbrev pub or_else : Option CircuitRecord → M CircuitRecord → M CircuitRecord
or_else (some r) next = pure r
or_else none next = next

-- `fuel` counts the reads: after a lost race for the INSERT the row is read again.
unfoldable pub get_circuit : ℕ → ℕ → M CircuitRecord
get_circuit zero endpoint_id = λ w. (thrown, w)
get_circuit (suc fuel) endpoint_id = do
  row ← query (λ db. find (is_of endpoint_id) db.circuit_breakers)
  or_else row (do
    inserted ← execute_returning (insert_circuit endpoint_id)
    or_else inserted (get_circuit fuel endpoint_id))

-- Two reads: the second finds the row that another worker put in.
abbrev pub reads : ℕ
reads = 2

-- `UPDATE … SET state = 'HALF_OPEN_PROBING' WHERE endpoint_id = $1 AND state = … RETURNING state`:
-- whether a row was changed.
unfoldable pub claim_probe : ℕ → CircuitState → Database → Bool × Database
claim_probe endpoint_id from db =
    let mine = λ (r : CircuitRecord). is_of endpoint_id r && circuit_state_eq r.state from in
    (
      any mine db.circuit_breakers,
      update_circuits mine (λ r. record r { state = half_open_probing }) db,
    )

-- `openedAt ? openedAt.getTime() : 0`.
abbrev pub opened_time : Option ℕ → ℕ
opened_time none = 0
opened_time (some t) = t

-- `now - openedAt > coolDownMs`.
abbrev pub cooled_down : ℕ → CircuitRecord → Bool
cooled_down now r = ltb (opened_time r.opened_at + r.cool_down_seconds * 1000) now

abbrev pub granted : ℕ → Bool → M Bool
granted endpoint_id true = do modify (set_circuit_state endpoint_id half_open); pure true
granted endpoint_id false = pure false

unfoldable pub admit : ℕ → CircuitState → CircuitRecord → M Bool
unfolding claim_probe
admit endpoint_id closed r = pure true
admit endpoint_id opened r = do
  now ← clock
  if cooled_down now r
      then (do
        claimed ← execute_returning (claim_probe endpoint_id opened)
        granted endpoint_id claimed)
      else pure false
admit endpoint_id half_open r = execute_returning (claim_probe endpoint_id half_open)
admit endpoint_id half_open_probing r = pure false

unfoldable pub can_execute : ℕ → M Bool
unfolding admit get_circuit insert_circuit
can_execute endpoint_id = do
  circuit ← get_circuit reads endpoint_id
  admit endpoint_id circuit.state circuit

-- `SET state = 'CLOSED', failure_count = 0, success_count = 0, opened_at = NULL`.
abbrev pub closed_again : CircuitRecord → CircuitRecord
closed_again r = record r { state = closed; failure_count = 0; success_count = 0; opened_at = none }

abbrev pub execute_on : ℕ → (CircuitRecord → CircuitRecord) → M (Unit {0})
execute_on endpoint_id f =
    call (modify (λ w. record w { db = update_circuits (is_of endpoint_id) f w.db }))

unfoldable pub reset_circuit : ℕ → M (Unit {0})
reset_circuit endpoint_id = do
  execute_on endpoint_id closed_again
  modify (set_circuit_state endpoint_id closed)

-- The branches of `recordSuccess`, on the state and the failures that were read.
unfoldable pub after_success : ℕ → CircuitState → ℕ → M (Unit {0})
unfolding reset_circuit
after_success endpoint_id half_open n = do
  execute_on endpoint_id closed_again
  modify (set_circuit_state endpoint_id closed)
after_success endpoint_id half_open_probing n = do
  execute_on endpoint_id closed_again
  modify (set_circuit_state endpoint_id closed)
after_success endpoint_id closed n =
    if ltb 0 n then execute_on endpoint_id (λ r. record r { failure_count = 0 }) else pure tt
after_success endpoint_id opened n = pure tt

unfoldable pub record_success : ℕ → M (Unit {0})
unfolding get_circuit insert_circuit after_success
record_success endpoint_id = do
  circuit ← get_circuit reads endpoint_id
  after_success endpoint_id circuit.state circuit.failure_count

-- `SET failure_count = failure_count + 1, last_failure_at = CURRENT_TIMESTAMP`.
abbrev pub one_failure_more : ℕ → CircuitRecord → CircuitRecord
one_failure_more now r = record r {
  failure_count = r.failure_count + 1;
  last_failure_at = some now;
}

-- `SET state = 'OPEN', opened_at = CURRENT_TIMESTAMP`.
abbrev pub tripped : ℕ → CircuitRecord → CircuitRecord
tripped now r = record r { state = opened; opened_at = some now }

abbrev pub trips : CircuitRecord → Bool
trips r =
    circuit_state_eq r.state half_open_probing
    || (circuit_state_eq r.state half_open || leb r.threshold_failures r.failure_count)

-- What `recordFailure` does with the row that its first UPDATE returned.
unfoldable pub after_failure : ℕ → Option CircuitRecord → M CircuitState
after_failure endpoint_id none = pure opened
after_failure endpoint_id (some r) =
    if trips r
    then (do
      call
          (modify (λ v. record v { db = update_circuits (is_of endpoint_id) (tripped v.now) v.db }))
      modify (set_circuit_state endpoint_id opened)
      pure opened)
    else pure r.state

unfoldable pub record_failure : ℕ → M CircuitState
unfolding after_failure
record_failure endpoint_id = do
  row ← call (λ w.
      let db = update_circuits (is_of endpoint_id) (one_failure_more w.now) w.db in
      (ok (find (is_of endpoint_id) db.circuit_breakers), record w { db = db }))
  after_failure endpoint_id row
