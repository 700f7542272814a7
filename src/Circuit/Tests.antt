-- ===== src/Circuit/Tests.antt =====
-- The breaker, on concrete rows.
use event_relay.Base.{ℕ, ◌≡◌, ◌≤◌, refl, [], ◌∷◌, inl, inr, arith, length}
use event_relay.Store.{CircuitRecord, ok}
use event_relay.Sample.{open_circuit, trial_circuit, with_circuit}
use event_relay.Circuit.{default_circuit, get_circuit, reads, admit, can_execute}
use event_relay.Circuit.Machine.{closed_after, open_since, trial, asks}
use event_relay.Circuit.Refinement.{
  Stands, Fails, asked_row, record_failure-Stands, can_execute-Stands, get_circuit_found,
}
use event_relay.Circuit.Probe.{single_probe}
use event_relay.Circuit.Race.{Race, note_grant, Reach, reads_row, acts, here, next}

abbrev failing : CircuitRecord
failing = record (default_circuit 7) { failure_count = 4 }

closed-Stands : Stands 7 (with_circuit failing) failing (closed_after 4)
closed-Stands = record { fault_free = refl; found = refl; represents = (refl, refl, omega arith) }

open-Stands : Stands 7 (with_circuit open_circuit) open_circuit (open_since 900000)
open-Stands = record { fault_free = refl; found = refl; represents = (refl, refl, omega arith) }

trial-Stands : Stands 7 (with_circuit trial_circuit) trial_circuit trial
trial-Stands = record {
  fault_free = refl;
  found = refl;
  represents = (refl, omega arith, omega arith);
}

record_failure-Stands_example : Fails 7 failing (closed_after 4) (with_circuit failing)
record_failure-Stands_example =
    record_failure-Stands 7 (with_circuit failing) failing (closed_after 4) closed-Stands

can_execute-Stands_example :
    Stands 7
      (can_execute 7 (with_circuit open_circuit)).1
      (asked_row 1000000 open_circuit (open_since 900000))
      (asks 30000 1000000 (open_since 900000)).1
    × ((can_execute 7 (with_circuit open_circuit)).0
        ≡ ok (asks 30000 1000000 (open_since 900000)).0)
can_execute-Stands_example =
    can_execute-Stands 7 (with_circuit open_circuit) open_circuit (open_since 900000) (omega arith)
      open-Stands

-- Two workers read the open row, then both act on it.
abbrev start : Race
start = record { world = with_circuit open_circuit; seen = []; granted = [] }

abbrev two_seen : Race
two_seen = record start { seen = (1, open_circuit) ∷ (0, open_circuit) ∷ [] }

abbrev probe_act : ℕ → Race → Race
probe_act worker x = record x {
  world = (admit 7 open_circuit.state open_circuit x.world).1;
  granted = note_grant (admit 7 open_circuit.state open_circuit x.world).0 worker x.granted;
}

both_read : Reach 7 start two_seen
both_read =
    next (next here (reads_row 0 open_circuit start.world read refl))
      (reads_row 1 open_circuit start.world read refl)
  where
    read :
        get_circuit reads 7 (with_circuit open_circuit)
        ≡ (ok open_circuit, with_circuit open_circuit)
    read = get_circuit_found 7 (with_circuit open_circuit) open_circuit 1 refl refl

both_acted : Reach 7 start (probe_act 1 (probe_act 0 two_seen))
both_acted =
    next (next both_read (acts 0 open_circuit (inr (inl refl)) refl))
      (acts 1 open_circuit (inl refl) refl)

single_probe_example : length (probe_act 1 (probe_act 0 two_seen)).granted ≤ 1
single_probe_example =
    single_probe 7 (with_circuit open_circuit) open_circuit refl refl refl refl both_acted
