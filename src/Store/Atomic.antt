-- ===== src/Store/Atomic.antt =====
-- Reasoning about handlers under every schedule of failing calls: what holds if a run returns, and what
-- if it throws.
use event_relay.Base.{◌≡◌, refl, ap, Bool, true, false, List, [], ◌∷◌}
use event_relay.Store.Schema.{Database}
use event_relay.Store.State.{World}
use event_relay.Store.Effects.{
  Result, ok, thrown, M, continue, attempt, call, no_op, rethrow, settle_transaction, begin_commit,
  with_transaction,
}

-- `Q` holds of the value and the world, if the handler returns.
abbrev pub Returns : {A : Type 0} → (A → World → Type 0) → Result A × World → Type 0
Returns Q (ok a, w) = Q a w
Returns Q (thrown, w) = Unit {0}

-- `Q` holds if the handler returns, and the tables are as before if it throws.
abbrev pub Commits : {A : Type 0} → (A → World → Type 0) → Database → Result A × World → Type 0
Commits Q before (ok a, w) = Q a w
Commits Q before (thrown, w) = w.db ≡ before

-- What follows a value.
pub continue_ok :
    {A B : Type 0} (r : Result A × World) (a : A) (f : A → M B)
    → r.0 ≡ ok a
    → continue r f ≡ f a r.1
continue_ok (ok b, w) a f e = ap (λ x. f x w) (ok_injective e)
  where
    ok_injective : {A : Type 0} {x y : A} → ◌≡◌ {A = Result A} (ok x) (ok y) → x ≡ y
    ok_injective e = cc
continue_ok (thrown, w) a f e = cc

-- A statement about the outcome of a call that may fail, from the one in which it does not.
pub attempt_rule :
    {A : Type 0} (P : Result A × World → Type 0) (m : M A) (fs : List Bool) (w : World)
    → ((rest : List Bool) → P (thrown, record w { faults = rest }))
    → ((rest : List Bool) → P (m (record w { faults = rest })))
    → P (attempt fs m w)
attempt_rule P m [] w bad good = good w.faults
attempt_rule P m (true ∷ rest) w bad good = bad rest
attempt_rule P m (false ∷ rest) w bad good = good rest

-- A call where none fails.
pub attempt_runs :
    {A : Type 0} (m : M A) (fs : List Bool) (w : World) → fs ≡ [] → attempt fs m w ≡ m w
attempt_runs m fs w e = rw e refl

pub call-Returns :
    {A : Type 0} (Q : A → World → Type 0) (m : M A) (w : World)
    → ((rest : List Bool) → Returns Q (m (record w { faults = rest })))
    → Returns Q (call m w)
call-Returns Q m w good = attempt_rule (Returns Q) m w.faults w (λ _. tt) good

-- A call and what follows it.
pub call_then :
    {A B : Type 0} (R : B → World → Type 0) (m : M A) (f : A → M B) (w : World)
    → ((rest : List Bool) → Returns R (continue (m (record w { faults = rest })) f))
    → Returns R (continue (call m w) f)
call_then R m f w good = attempt_rule (λ r. Returns R (continue r f)) m w.faults w (λ _. tt) good

pub continue-Returns :
    {A B : Type 0} (Q : A → World → Type 0) (R : B → World → Type 0) (r : Result A × World)
    (f : A → M B)
    → Returns Q r
    → ((a : A) (w : World) → Q a w → Returns R (f a w))
    → Returns R (continue r f)
continue-Returns Q R (ok a, w) f h k = k a w h
continue-Returns Q R (thrown, w) f h k = tt

pub Returns-weaken :
    {A : Type 0} (Q R : A → World → Type 0) (r : Result A × World)
    → ((a : A) (w : World) → Q a w → R a w)
    → Returns Q r
    → Returns R r
Returns-weaken Q R (ok a, w) k h = k a w h
Returns-weaken Q R (thrown, w) k h = tt

-- `Q` holds of the value and the world if the handler returns, and `T` of the world if it throws.
abbrev pub Ends : {A : Type 0} → (A → World → Type 0) → (World → Type 0) → Result A × World → Type 0
Ends Q T (ok a, w) = Q a w
Ends Q T (thrown, w) = T w

pub continue-Ends :
    {A B : Type 0} (Q : A → World → Type 0) (R : B → World → Type 0) (T : World → Type 0)
    (r : Result A × World) (f : A → M B)
    → Ends Q T r
    → ((a : A) (w : World) → Q a w → Ends R T (f a w))
    → Ends R T (continue r f)
continue-Ends Q R T (ok a, w) f h k = k a w h
continue-Ends Q R T (thrown, w) f h k = h

pub Ends-weaken :
    {A : Type 0} (Q : A → World → Type 0) (S T : World → Type 0) (r : Result A × World)
    → ((w : World) → S w → T w)
    → Ends Q S r
    → Ends Q T r
Ends-weaken Q S T (ok a, w) k h = h
Ends-weaken Q S T (thrown, w) k h = k w h

pub call_then_Ends :
    {A B : Type 0} (Q : B → World → Type 0) (T : World → Type 0) (m : M A) (f : A → M B) (w : World)
    → ((rest : List Bool) → T (record w { faults = rest }))
    → ((rest : List Bool) → Ends Q T (continue (m (record w { faults = rest })) f))
    → Ends Q T (continue (call m w) f)
call_then_Ends Q T m f w bad good =
    attempt_rule (λ r. Ends Q T (continue r f)) m w.faults w bad good

pub Ends-imp :
    {A : Type 0} (Q R : A → World → Type 0) (S T : World → Type 0) (r : Result A × World)
    → ((a : A) (w : World) → Q a w → R a w)
    → ((w : World) → S w → T w)
    → Ends Q S r
    → Ends R T r
Ends-imp Q R S T (ok a, w) j k h = j a w h
Ends-imp Q R S T (thrown, w) j k h = k w h

-- What transactions need of such a pair: neither sees which calls are to fail, a return whose COMMIT
-- fails counts as a throw, and a throw is spoken of with no regard to the tables.
pub record Stable {A : Type 0} (Q : A → World → Type 0) (T : World → Type 0) : Type 0 where
  pub blind : (a : A) (v : World) (fs : List Bool) → Q a v → Q a (record v { faults = fs })
  pub spoilt : (a : A) (v : World) → Q a v → T v
  pub undone :
      (v : World) (db : Database) (fs : List Bool) → T v → T (record v { db = db; faults = fs })

module _ {A : Type 0} (Q : A → World → Type 0) (T : World → Type 0) (s : Stable Q T) where
  abbrev Undone : Database → World → Type 0
  Undone before v = (v.db ≡ before) × T v

  settled :
      (before : Database) (r : Result A × World)
      → Ends Q T r
      → Ends Q (Undone before) (settle_transaction before r)
  settled before (ok a, v) h = h
  settled before (thrown, v) h =
      attempt_rule (λ r. Ends Q (Undone before) (rethrow {A = A} r)) no_op v.faults
        (record v { db = before }) (λ fs. (refl, s.undone v before fs h))
        (λ fs. (refl, s.undone v before fs h))

  committed :
      (r : Result A × World)
      → Ends Q T r
      → Ends Q T (continue r (λ a. λ v. continue (call no_op v) (λ _. λ u. (ok a, u))))
  committed (ok a, v) h =
      attempt_rule (λ r. Ends Q T (continue r (λ _. λ u. (ok a, u)))) no_op v.faults v
        (λ fs. s.undone v v.db fs (s.spoilt a v h)) (λ fs. s.blind a v fs h)
  committed (thrown, v) h = h

  module _ (m : M A) (w : World) (start : T w) where
    begun :
        ((fs : List Bool) → Ends Q T (m (record w { faults = fs })))
        → (fs : List Bool) → Ends Q (Undone w.db) (begin_commit m (record w { faults = fs }))
    unfolding begin_commit
    begun h fs = settled w.db _ (
        attempt_rule
          (λ r. Ends Q T (
            continue r
              (λ _. λ v. continue (m v) (λ a. λ u. continue (call no_op u) (λ _. λ x. (ok a, x))))))
          no_op fs (record w { faults = fs }) (λ rest. s.undone w w.db rest start)
          (λ rest. committed (m (record w { faults = rest })) (h rest)))

    -- A transaction ends as its callback does; if it throws, wherever the failing call is, the
    -- tables are as they were.
    pub with_transaction-Ends :
        ((fs : List Bool) → Ends Q T (m (record w { faults = fs })))
        → Ends Q (Undone w.db) (with_transaction m w)
    unfolding with_transaction
    with_transaction-Ends h =
        attempt_rule (λ r. Ends Q (Undone w.db) (continue r (λ _. begin_commit m))) no_op w.faults w
          (λ rest. (refl, s.undone w w.db rest start)) (λ fs. begun h fs)

module _ {A : Type 0} (Q : A → World → Type 0) (m : M A) (w : World) where
  Ends-of_Returns : (r : Result A × World) → Returns Q r → Ends Q (λ _. Unit {0}) r
  Ends-of_Returns (ok a, v) h = h
  Ends-of_Returns (thrown, v) h = tt

  Commits-of_Ends :
      (before : Database) (r : Result A × World)
      → Ends Q (λ v. (v.db ≡ before) × Unit {0}) r
      → Commits Q before r
  Commits-of_Ends before (ok a, v) h = h
  Commits-of_Ends before (thrown, v) h = h.0

  -- The same, with nothing said of a throw but that it leaves the tables.
  pub with_transaction-Commits :
      ((a : A) (v : World) (fs : List Bool) → Q a v → Q a (record v { faults = fs }))
      → ((fs : List Bool) → Returns Q (m (record w { faults = fs })))
      → Commits Q w.db (with_transaction m w)
  with_transaction-Commits keep h = Commits-of_Ends w.db _ (
      with_transaction-Ends Q (λ _. Unit {0})
        (record { blind = keep; spoilt = λ _ _ _. tt; undone = λ _ _ _ _. tt }) m w tt
        (λ fs. Ends-of_Returns _ (h fs)))

pub Ends_both :
    {A : Type 0} (Q R : A → World → Type 0) (S T : World → Type 0) (r : Result A × World)
    → Ends Q S r
    → Ends R T r
    → Ends (λ a. λ w. Q a w × R a w) (λ w. S w × T w) r
Ends_both Q R S T (ok a, w) h k = (h, k)
Ends_both Q R S T (thrown, w) h k = (h, k)
