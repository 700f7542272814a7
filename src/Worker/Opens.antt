-- ===== src/Worker/Opens.antt =====
-- `recordFailure` in a job of backend/src/worker/deliveryWorker.ts where no call fails: the breaker's row.
use event_relay.Base.{
  ℕ, ◌+◌, ◌≡◌, refl, ap, ◌∙◌, inl, inr, Bool-cases, leb, ◌||◌, if◌then◌else◌, some, [], find,
  update, map_option, find-update_self,
}
use event_relay.Store.{
  World, Database, CircuitRecord, CircuitState, opened, half_open, half_open_probing,
  circuit_state_eq, ok, modify,
}
use event_relay.Store.Atomic.{attempt_runs}
use event_relay.Metrics.{set_circuit_state}
use event_relay.Circuit.{
  is_of, update_circuits, one_failure_more, tripped, trips, after_failure, record_failure,
}

-- The breaker's row counts the failure, and opens where that makes it trip.
abbrev pub failed_circuits : ℕ → ℕ → CircuitRecord → Database → Database
failed_circuits endpoint_id now r db =
    let counted : Database = update_circuits (is_of endpoint_id) (one_failure_more now) db in
    if trips (one_failure_more now r)
    then update_circuits (is_of endpoint_id) (tripped now) counted
    else counted

-- The row of the breaker afterwards: a failure more, noted at this time; and open if it was on trial or
-- the count has come to the threshold.
abbrev pub failed_breaker : ℕ → CircuitRecord → CircuitRecord
failed_breaker now r =
    if circuit_state_eq r.state half_open_probing
      || (circuit_state_eq r.state half_open || leb r.threshold_failures (r.failure_count + 1))
    then record r {
      failure_count = r.failure_count + 1;
      last_failure_at = some now;
      state = opened;
      opened_at = some now;
    }
    else record r { failure_count = r.failure_count + 1; last_failure_at = some now }

pub failed_circuits-row :
    (endpoint_id now : ℕ) (r : CircuitRecord) (db : Database)
    → find (is_of endpoint_id) db.circuit_breakers ≡ some r
    → find (is_of endpoint_id) (failed_circuits endpoint_id now r db).circuit_breakers
      ≡ some (failed_breaker now r)
failed_circuits-row endpoint_id now r db row =
    let f : CircuitRecord → CircuitRecord = one_failure_more now in
    let counted : find (is_of endpoint_id) (update (is_of endpoint_id) f db.circuit_breakers)
        ≡ some (f r) =
      find-update_self (is_of endpoint_id) f db.circuit_breakers (λ x. refl)
      ∙ ap (map_option f) row in
    elim (Bool-cases (trips (f r))) [
      | inl e ↦ rw e (
          find-update_self (is_of endpoint_id) (tripped now)
            (update (is_of endpoint_id) f db.circuit_breakers) (λ x. refl)
          ∙ ap (map_option (tripped now)) counted)
      | inr e ↦ rw e counted
    ]

-- Nothing but the breakers differs.
abbrev pub SameRows : Database → Database → Type 0
SameRows db db' =
    (db'.deliveries ≡ db.deliveries)
    × (db'.events ≡ db.events)
    × (db'.endpoints ≡ db.endpoints)
    × (db'.outbox ≡ db.outbox)

pub failed_circuits-SameRows :
    (endpoint_id now : ℕ) (r : CircuitRecord) (db : Database)
    → SameRows db (failed_circuits endpoint_id now r db)
failed_circuits-SameRows endpoint_id now r db = elim (Bool-cases (trips (one_failure_more now r))) [
  | inl e ↦ rw e (refl, refl, refl, refl)
  | inr e ↦ rw e (refl, refl, refl, refl)
]

pub record_failure_runs :
    (endpoint_id : ℕ) (w : World) (r : CircuitRecord)
    → w.faults ≡ []
    → find (is_of endpoint_id) w.db.circuit_breakers ≡ some r
    → (v : World) × (state : CircuitState) × (record_failure endpoint_id w ≡ (ok state, v))
      × (v.faults ≡ [])
      × (v.db ≡ failed_circuits endpoint_id w.now r w.db)
      × (v.now ≡ w.now)
      × (v.posts ≡ w.posts)
      × (v.redis ≡ w.redis)
unfolding record_failure after_failure set_circuit_state
record_failure_runs endpoint_id w r calm row =
    let f : CircuitRecord → CircuitRecord = one_failure_more w.now in
    let counted : World = record w { db = update_circuits (is_of endpoint_id) f w.db } in
    let found : find (is_of endpoint_id) (update (is_of endpoint_id) f w.db.circuit_breakers)
        ≡ some (f r) =
      find-update_self (is_of endpoint_id) f w.db.circuit_breakers (λ x. refl)
      ∙ ap (map_option f) row in
    let first =
      attempt_runs
        (λ u. (
          ok (
              find (is_of endpoint_id)
                (update (is_of endpoint_id) (one_failure_more u.now) u.db.circuit_breakers)),
          record u { db = update_circuits (is_of endpoint_id) (one_failure_more u.now) u.db },
        ))
        w.faults w calm in
    elim (Bool-cases (trips (f r))) [
      | inl e ↦ (
        set_circuit_state endpoint_id opened (record counted {
          db = update_circuits (is_of endpoint_id) (tripped w.now) counted.db;
        }),
        opened,
        rw first (
            rw found (
              rw e (
                rw
                  (attempt_runs
                    (modify (λ v. record v {
                      db = update_circuits (is_of endpoint_id) (tripped v.now) v.db;
                    }))
                    counted.faults counted calm)
                  refl))),
        calm,
        rw e refl,
        refl,
        refl,
        refl,
      )
      | inr e ↦
          (counted, r.state, rw first (rw found (rw e refl)), calm, rw e refl, refl, refl, refl)
    ]
