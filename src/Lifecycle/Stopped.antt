-- ===== src/Lifecycle/Stopped.antt =====
-- The timers of backend/src/worker/outboxPublisher.ts and retryScheduler.ts: one interval while running,
-- and none after a stop.
use event_relay.Base.{
  ℕ, zero, suc, ◌+◌, ◌≤◌, ◌≡◌, refl, ◌∙◌, Bool, true, false, Bool-cases, inl, inr, List, [], ◌∷◌,
  All, arith,
}
use event_relay.Lifecycle.{
  Timed, idle, Act, start, stop, poke, tick, immediate, start_timer, stop_timer, poke_timer, fire,
  run_immediate, act, acts,
}

abbrev pub one_if : Bool → ℕ
one_if true = 1
one_if false = 0

-- While it runs there is one interval and `timer` is set; else there is none and it is not.
abbrev pub OneInterval : Timed → Type 0
OneInterval s = (s.timer ≡ s.is_running) × (s.intervals ≡ one_if s.is_running)

abbrev pub IsNotStart : Act → Type 0
IsNotStart start = ⊥
IsNotStart _ = Unit {0}

-- It does not run, and no interval is left.
abbrev Quiet : Timed → Type 0
Quiet s = (s.is_running ≡ false) × (s.timer ≡ false) × (s.intervals ≡ 0)

stopped-Quiet : (s : Timed) → OneInterval s → Quiet (stop_timer s)
unfolding stop_timer
stopped-Quiet s (t, n) = elim (Bool-cases s.is_running) [
  | inl r ↦
      let set : s.timer ≡ true = t ∙ r in
      let one : s.intervals ≡ 1 = n ∙ rw r refl in (refl, refl, rw (set, one) refl)
  | inr r ↦
      let unset : s.timer ≡ false = t ∙ r in
      let zero_left : s.intervals ≡ 0 = n ∙ rw r refl in (refl, refl, rw (unset, zero_left) refl)
]

module _ (initial : Bool) where
  fire-OneInterval : (n : ℕ) (s : Timed) → OneInterval s → OneInterval (fire n s)
  fire-OneInterval zero s h = h
  fire-OneInterval (suc n) s h = h

  immediate-OneInterval : (n : ℕ) (s : Timed) → OneInterval s → OneInterval (run_immediate n s)
  immediate-OneInterval zero s h = h
  immediate-OneInterval (suc n) s h = h

  act-OneInterval : (a : Act) (s : Timed) → OneInterval s → OneInterval (act initial a s)
  unfolding act start_timer poke_timer stop_timer
  act-OneInterval start s h = elim (Bool-cases s.is_running) [
    | inl r ↦ rw r (h.0 ∙ r, h.1 ∙ rw r refl)
    | inr r ↦ let none_left : s.intervals ≡ 0 = h.1 ∙ rw r refl in rw (r, none_left) (refl, refl)
  ]
  act-OneInterval stop s h = let q = stopped-Quiet s h in (refl, q.2)
  act-OneInterval poke s h = elim (Bool-cases s.is_running) [
    | inl r ↦ rw r (h.0 ∙ r, h.1 ∙ rw r refl)
    | inr r ↦ rw r (h.0 ∙ r, h.1 ∙ rw r refl)
  ]
  act-OneInterval tick s h = fire-OneInterval s.intervals s h
  act-OneInterval immediate s h = immediate-OneInterval s.immediates s h

  acts-OneInterval_from :
      (as' : List Act) (s : Timed) → OneInterval s → OneInterval (acts initial as' s)
  unfolding acts
  acts-OneInterval_from [] s h = h
  acts-OneInterval_from (a ∷ as') s h =
      acts-OneInterval_from as' (act initial a s) (act-OneInterval a s h)

  -- In every order of starts, stops, pokes and callbacks there is exactly one interval while it runs, and
  -- none while it does not.
  pub acts-OneInterval : (as' : List Act) → OneInterval (acts initial as' idle)
  acts-OneInterval as' = acts-OneInterval_from as' idle (refl, refl)

  act-Quiet :
      (a : Act) (s : Timed)
      → IsNotStart a
      → Quiet s
      → Quiet (act initial a s)
        × ((act initial a s).runs + (act initial a s).immediates ≤ s.runs + s.immediates)
  unfolding act poke_timer stop_timer
  act-Quiet start s n q = absurd n
  act-Quiet stop s n (r, t, i) = ((refl, refl, rw (t, i) refl), omega arith)
  act-Quiet poke s n q = rw q.0 ((refl, q.1, q.2), omega arith)
  act-Quiet tick s n q = rw q.2 ((q.0, q.1, refl), omega arith)
  act-Quiet immediate s n q = ran s.immediates refl
    where
      ran :
          (k : ℕ)
          → s.immediates ≡ k
          → Quiet (run_immediate k s)
            × ((run_immediate k s).runs + (run_immediate k s).immediates ≤ s.runs + s.immediates)
      ran zero e = (q, omega arith)
      ran (suc k) e = (q, omega (arith, e))

  acts-Quiet :
      (as' : List Act) (s : Timed)
      → All IsNotStart as'
      → Quiet s
      → (acts initial as' s).runs ≤ s.runs + s.immediates
  unfolding acts
  acts-Quiet [] s n q = omega arith
  acts-Quiet (a ∷ as') s (n, ns) q =
      let (next, less) = act-Quiet a s n q in
      omega (arith, less, acts-Quiet as' (act initial a s) ns next)

  -- After a stop, whatever came before it, no more runs begin than there are pokes whose callback still
  -- waits, until it is started again.
  pub stop-bounds_runs :
      (before after : List Act)
      → All IsNotStart after
      → (acts initial after (act initial stop (acts initial before idle))).runs
        ≤ (acts initial before idle).runs + (acts initial before idle).immediates
  unfolding act stop_timer
  stop-bounds_runs before after n =
      acts-Quiet after (stop_timer (acts initial before idle)) n
        (stopped-Quiet (acts initial before idle) (acts-OneInterval before))
