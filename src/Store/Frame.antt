-- ===== src/Store/Frame.antt =====
-- What a handler leaves alone, whichever of its calls fail: `Keeps P m` if `P` outlives a run of
-- `m`, and a rule for each way of putting handlers together.
use event_relay.Base.{ℕ, Bool, true, false, if◌then◌else◌, List, [], ◌∷◌}
use event_relay.Store.Schema.{Database, Event, Delivery, CircuitRecord}
use event_relay.Store.State.{World, Metrics, Bucket}
use event_relay.Store.Atomic.{Ends}
use event_relay.Store.Effects.{
  Result, ok, thrown, M, continue, attempt, call, query, recover, then_finally, outcome_of,
}

abbrev pub Leaves : {A : Type 0} → (World → Type 0) → Result A × World → Type 0
Leaves P r = Ends (λ _. P) P r

abbrev pub Keeps : {A : Type 0} → (World → Type 0) → M A → Type 0
Keeps P m = (w : World) → P w → Leaves P (m w)

-- A statement that does not look at the schedule, the metrics, the clock, the buckets, the events
-- and the deliveries.
pub record Blind (P : World → Type 0) : Type 0 where
  pub to_faults : (v : World) (fs : List Bool) → P v → P (record v { faults = fs })
  pub to_metrics : (v : World) (m : Metrics) → P v → P (record v { metrics = m })
  pub to_clock : (v : World) (t : ℕ) → P v → P (record v { now = t })
  pub to_buckets :
      (v : World) (bs : List Bucket)
      → P v
      → P (record v { redis = record (v.redis) { buckets = bs } })
  pub to_rows :
      (v : World) (es : List Event) (ds : List Delivery)
      → P v
      → P (record v { db = record (v.db) { events = es; deliveries = ds } })

-- Nor at the breakers.
pub record BlindToBreakers (P : World → Type 0) : Type 0 where
  pub to_breakers :
      (v : World) (rs : List CircuitRecord)
      → P v
      → P (record v { db = record (v.db) { circuit_breakers = rs } })

module _ {P : World → Type 0} (b : Blind P) where
  attempt-Keeps : {A : Type 0} (m : M A) (fs : List Bool) → Keeps P m → Keeps P (attempt fs m)
  attempt-Keeps m [] k w h = k w h
  attempt-Keeps m (true ∷ rest) k w h = b.to_faults w rest h
  attempt-Keeps m (false ∷ rest) k w h = k (record w { faults = rest }) (b.to_faults w rest h)

  pub call-Keeps : {A : Type 0} (m : M A) → Keeps P m → Keeps P (call m)
  call-Keeps m k w h = attempt-Keeps m w.faults k w h

  pub query-Keeps : {A : Type 0} (f : Database → A) → Keeps P (query f)
  query-Keeps f = call-Keeps (λ w. (ok (f w.db), w)) (λ w h. h)

module _ (P : World → Type 0) where
  -- The world in which a run leaves off.
  pub Leaves_world : {A : Type 0} (r : Result A × World) → Leaves P r → P r.1
  Leaves_world (ok a, w) h = h
  Leaves_world (thrown, w) h = h

  pub world_Leaves : {A : Type 0} (r : Result A × World) → P r.1 → Leaves P r
  world_Leaves (ok a, w) h = h
  world_Leaves (thrown, w) h = h

  pub continue-Keeps :
      {A B : Type 0} (r : Result A × World) (f : A → M B)
      → Leaves P r
      → ((a : A) → Keeps P (f a))
      → Leaves P (continue r f)
  continue-Keeps (ok a, w) f h k = k a w h
  continue-Keeps (thrown, w) f h k = h

  pub recover-Keeps :
      {A : Type 0} (r : Result A × World) (m : M A)
      → Leaves P r
      → Keeps P m
      → Leaves P (recover r m)
  recover-Keeps (ok a, w) m h k = h
  recover-Keeps (thrown, w) m h k = k w h

  outcome-Keeps : {A : Type 0} (r : Result A) (u : Unit {0}) → Keeps P (outcome_of r u)
  outcome-Keeps (ok a) u w h = h
  outcome-Keeps thrown u w h = h

  pub finally-Keeps :
      {A : Type 0} (r : Result A × World) (m : M (Unit {0}))
      → Leaves P r
      → Keeps P m
      → Leaves P (then_finally r m)
  finally-Keeps (r, w) m h k =
      continue-Keeps (m w) (outcome_of r) (k w (Leaves_world (r, w) h)) (outcome-Keeps r)

  pub if-Keeps :
      {A : Type 0} (t : Bool) (m n : M A) → Keeps P m → Keeps P n → Keeps P (if t then m else n)
  if-Keeps true m n k l = k
  if-Keeps false m n k l = l
