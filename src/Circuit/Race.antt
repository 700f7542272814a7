-- ===== src/Circuit/Race.antt =====
-- Many workers ask at once. Each `canExecute` is a read of the row and, later, a conditional update
-- of it, and the steps of different workers interleave in any order.
use event_relay.Base.{
  ℕ, ◌≤◌, ◌≡◌, refl, ◌⊎◌, inl, inr, Bool, true, false, ◌&&◌, some, List, [], ◌∷◌, length, count,
  Bool-cases, find, update, any, All, Any, arith,
}
use event_relay.Store.{
  World, CircuitRecord, opened, half_open_probing, circuit_state_eq, Result, ok,
}
use event_relay.Metrics.{set_circuit_state}
use event_relay.Circuit.{is_of, get_circuit, reads, admit, cooled_down}
use event_relay.Circuit.Refinement.{claim-found}

-- The rows read and not acted on yet, each with its worker, and the workers let through.
pub record Race : Type 0 where
  pub world : World
  pub seen : List (ℕ × CircuitRecord)
  pub granted : List ℕ

abbrev pub note_grant : Result Bool → ℕ → List ℕ → List ℕ
note_grant (ok true) worker ws = worker ∷ ws
note_grant _ worker ws = ws

-- A worker reads the row, a worker acts on what it read some time ago, or time passes.
pub data Step (endpoint_id : ℕ) (x y : Race) : Type 0 where
  reads_row :
      (worker : ℕ) (r : CircuitRecord) (w : World)
      → get_circuit reads endpoint_id x.world ≡ (ok r, w)
      → y ≡ record x { world = w; seen = (worker, r) ∷ x.seen }
      → Step endpoint_id x y
  acts :
      (worker : ℕ) (r : CircuitRecord)
      → Any (λ p. p ≡ (worker, r)) x.seen
      → y ≡ record x {
        world = (admit endpoint_id r.state r x.world).1;
        granted = note_grant (admit endpoint_id r.state r x.world).0 worker x.granted;
      }
      → Step endpoint_id x y
  waits : (t : ℕ) → y ≡ record x { world = record (x.world) { now = t } } → Step endpoint_id x y

pub data Reach (endpoint_id : ℕ) (x : Race) : Race → Type 0 where
  here : Reach endpoint_id x x
  next : {y z : Race} → Reach endpoint_id x y → Step endpoint_id y z → Reach endpoint_id x z

-- The breaker is open and nobody is through, or it is on trial and at most one worker is.
abbrev pub Phase : CircuitRecord → List ℕ → Type 0
Phase r ws = ((r.state ≡ opened) × (ws ≡ [])) ⊎ ((r.state ≡ half_open_probing) × (length ws ≤ 1))

abbrev pub NotClosed : ℕ × CircuitRecord → Type 0
NotClosed p = (p.1.state ≡ opened) ⊎ (p.1.state ≡ half_open_probing)

-- The table has one row of the endpoint: its primary key.
abbrev pub OneRow : ℕ → World → Type 0
OneRow endpoint_id w = count (is_of endpoint_id) w.db.circuit_breakers ≡ 1

pub record Guarded (endpoint_id : ℕ) (x : Race) : Type 0 where
  pub fault_free : x.world.faults ≡ []
  pub one_row : OneRow endpoint_id x.world
  pub row : CircuitRecord
  pub found : find (is_of endpoint_id) x.world.db.circuit_breakers ≡ some row
  pub phase : Phase row x.granted
  pub snapshots : All NotClosed x.seen

abbrev pub is_open_of : ℕ → CircuitRecord → Bool
is_open_of endpoint_id r = is_of endpoint_id r && circuit_state_eq r.state opened

abbrev pub on_trial : CircuitRecord → CircuitRecord
on_trial r = record r { state = half_open_probing }

count-claimed :
    (endpoint_id : ℕ) (rows : List CircuitRecord)
    → count (is_of endpoint_id) (update (is_open_of endpoint_id) on_trial rows)
      ≡ count (is_of endpoint_id) rows
count-claimed endpoint_id [] = refl
count-claimed endpoint_id (x ∷ rows) = ground (arith, count-claimed endpoint_id rows)

none_open :
    (endpoint_id : ℕ) (rows : List CircuitRecord)
    → count (is_of endpoint_id) rows ≡ 0
    → any (is_open_of endpoint_id) rows ≡ false
none_open endpoint_id [] e = refl
none_open endpoint_id (x ∷ rows) e = ground (arith, none_open endpoint_id rows)

-- The compare-and-set fails on a row that is on trial.
claim_lost :
    (endpoint_id : ℕ) (rows : List CircuitRecord) (r : CircuitRecord)
    → count (is_of endpoint_id) rows ≡ 1
    → find (is_of endpoint_id) rows ≡ some r
    → r.state ≡ half_open_probing
    → (any (is_open_of endpoint_id) rows ≡ false)
      × (find (is_of endpoint_id) (update (is_open_of endpoint_id) on_trial rows) ≡ some r)
claim_lost endpoint_id [] r c e o = cc
claim_lost endpoint_id (x ∷ rows) r c e o =
    ground (arith, claim_lost endpoint_id rows r, none_open endpoint_id rows)

abbrev pub Acted : ℕ → ℕ → World → CircuitRecord → List ℕ → Type 0
Acted endpoint_id worker w r ws =
    ((admit endpoint_id r.state r w).1.faults ≡ [])
    × OneRow endpoint_id (admit endpoint_id r.state r w).1
    × ((row : CircuitRecord) × (find (is_of endpoint_id)
            (admit endpoint_id r.state r w).1.db.circuit_breakers
          ≡ some row)
        × Phase row (note_grant (admit endpoint_id r.state r w).0 worker ws))

-- What an act on a row that was not closed does: nothing, or the one claim.
module _ (endpoint_id worker : ℕ) (w : World) (r row : CircuitRecord) (ws : List ℕ) where
  acts_on_open :
      w.faults ≡ []
      → OneRow endpoint_id w
      → find (is_of endpoint_id) w.db.circuit_breakers ≡ some row
      → row.state ≡ opened
      → ws ≡ []
      → r.state ≡ opened
      → Acted endpoint_id worker w r ws
  unfolding admit set_circuit_state
  acts_on_open e c f o n h = elim (Bool-cases (cooled_down w.now r)) [
    | inl cool ↦ (
      ground arith,
      ground (arith, count-claimed endpoint_id w.db.circuit_breakers),
      (
        on_trial row,
        ground (arith, claim-found endpoint_id w.db.circuit_breakers row f),
        ground (arith, claim-found endpoint_id w.db.circuit_breakers row f),
      ),
    )
    | inr hot ↦ (ground arith, ground arith, (row, ground arith, ground arith))
  ]

  acts_on_trial :
      w.faults ≡ []
      → OneRow endpoint_id w
      → find (is_of endpoint_id) w.db.circuit_breakers ≡ some row
      → row.state ≡ half_open_probing
      → length ws ≤ 1
      → r.state ≡ opened
      → Acted endpoint_id worker w r ws
  unfolding admit set_circuit_state
  acts_on_trial e c f o n h = (
    ground arith,
    ground (arith, count-claimed endpoint_id w.db.circuit_breakers),
    (
      row,
      ground (arith, claim_lost endpoint_id w.db.circuit_breakers row c f o),
      ground (arith, claim_lost endpoint_id w.db.circuit_breakers row c f o),
    ),
  )

  acts_in_vain :
      w.faults ≡ []
      → OneRow endpoint_id w
      → find (is_of endpoint_id) w.db.circuit_breakers ≡ some row
      → Phase row ws
      → r.state ≡ half_open_probing
      → Acted endpoint_id worker w r ws
  unfolding admit
  acts_in_vain e c f p h = (ground arith, ground arith, (row, ground arith, ground arith))

  pub acts_once :
      w.faults ≡ []
      → OneRow endpoint_id w
      → find (is_of endpoint_id) w.db.circuit_breakers ≡ some row
      → Phase row ws
      → NotClosed (worker, r)
      → Acted endpoint_id worker w r ws
  acts_once e c f p (inr h) = acts_in_vain e c f p h
  acts_once e c f (inl (o, n)) (inl h) = acts_on_open e c f o n h
  acts_once e c f (inr (o, n)) (inl h) = acts_on_trial e c f o n h
