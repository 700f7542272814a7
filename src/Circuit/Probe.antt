-- ===== src/Circuit/Probe.antt =====
-- `canExecute` of backend/src/resilience/circuitBreaker.ts on an open breaker, by many workers.
use event_relay.Base.{
  ℕ, ◌≤◌, ◌≡◌, refl, inl, inr, some, List, [], ◌∷◌, length, find, All, Any, arith,
}
use event_relay.Store.{World, CircuitRecord, opened, ok}
use event_relay.Circuit.{is_of, get_circuit, reads}
use event_relay.Circuit.Refinement.{get_circuit_found}
use event_relay.Circuit.Race.{
  Race, Step, reads_row, acts, waits, Reach, here, next, Phase, NotClosed, OneRow, Guarded,
  acts_once,
}

NotClosed-of_Any :
    (p : ℕ × CircuitRecord) (seen : List (ℕ × CircuitRecord))
    → All NotClosed seen
    → Any (λ q. q ≡ p) seen
    → NotClosed p
NotClosed-of_Any p (q ∷ seen) (h, hs) (inl e) = rw (← e) h
NotClosed-of_Any p (q ∷ seen) (h, hs) (inr m) = NotClosed-of_Any p seen hs m
NotClosed-of_Any p [] h m = absurd m

Phase-NotClosed :
    (worker : ℕ) (r : CircuitRecord) (ws : List ℕ) → Phase r ws → NotClosed (worker, r)
Phase-NotClosed worker r ws (inl (o, _)) = inl o
Phase-NotClosed worker r ws (inr (o, _)) = inr o

Step-Guarded :
    (endpoint_id : ℕ) (x y : Race)
    → Step endpoint_id x y
    → Guarded endpoint_id x
    → Guarded endpoint_id y
Step-Guarded endpoint_id x y (reads_row worker r w e ey) g =
    let read : get_circuit reads endpoint_id x.world ≡ (ok g.row, x.world) =
      get_circuit_found endpoint_id x.world g.row 1 g.fault_free g.found in
    let same_row : r ≡ g.row = cc in
    let same_world : w ≡ x.world = cc in
    rw (ey, same_row, same_world)
      (record {
        fault_free = g.fault_free;
        one_row = g.one_row;
        row = g.row;
        found = g.found;
        phase = g.phase;
        snapshots = (Phase-NotClosed worker g.row x.granted g.phase, g.snapshots);
      })
Step-Guarded endpoint_id x y (acts worker r m ey) g =
    let (e, c, (row, f, p)) =
      acts_once endpoint_id worker x.world r g.row x.granted g.fault_free g.one_row g.found g.phase
        (NotClosed-of_Any (worker, r) x.seen g.snapshots m) in
    rw ey (record {
      fault_free = e;
      one_row = c;
      row = row;
      found = f;
      phase = p;
      snapshots = g.snapshots;
    })
Step-Guarded endpoint_id x y (waits t ey) g = rw ey (record {
  fault_free = g.fault_free;
  one_row = g.one_row;
  row = g.row;
  found = g.found;
  phase = g.phase;
  snapshots = g.snapshots;
})

Reach-Guarded :
    (endpoint_id : ℕ) {x y : Race}
    → Reach endpoint_id x y
    → Guarded endpoint_id x
    → Guarded endpoint_id y
Reach-Guarded endpoint_id here g = g
Reach-Guarded endpoint_id (next {y} {z} r s) g =
    Step-Guarded endpoint_id y z s (Reach-Guarded endpoint_id r g)

Phase-le : (r : CircuitRecord) (ws : List ℕ) → Phase r ws → length ws ≤ 1
Phase-le r ws (inl (_, e)) = rw e (omega arith)
Phase-le r ws (inr (_, h)) = h

-- Where no call fails, the table has one row of the endpoint and that row is OPEN, then however the
-- reads and the updates of any number of workers interleave, and however time passes, at most one
-- of them is let through.
pub single_probe :
    (endpoint_id : ℕ) (w : World) (r : CircuitRecord) {x : Race}
    → w.faults ≡ []
    → OneRow endpoint_id w
    → find (is_of endpoint_id) w.db.circuit_breakers ≡ some r
    → r.state ≡ opened
    → Reach endpoint_id (record { world = w; seen = []; granted = [] }) x
    → length x.granted ≤ 1
single_probe endpoint_id w r {x} e c f o h =
    let g : Guarded endpoint_id x = Reach-Guarded endpoint_id h (record {
      fault_free = e;
      one_row = c;
      row = r;
      found = f;
      phase = inl (o, refl);
      snapshots = tt;
    }) in
    Phase-le g.row x.granted g.phase
