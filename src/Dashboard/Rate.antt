-- ===== src/Dashboard/Rate.antt =====
-- `successRate` of frontend/src/App.tsx.
use event_relay.Base.{
  ℕ, ◌+◌, ◌*◌, ◌/◌, ◌≤◌, ◌<◌, ◌≡◌, refl, ◌↔◌, inl, inr, Bool-cases, Bool, lt→ltb, List, [], ◌∷◌,
  select, length, arith,
}
use native.Mathlib.Nat.{div-lt_iff_lt-mul}
use native.Mathlib.Decide.{dec_lt}
use event_relay.Dashboard.Page.{DeliveryView}
use event_relay.Dashboard.Handlers.{is_success, success_rate}

select-le : (p : DeliveryView → Bool) (ds : List DeliveryView) → length (select p ds) ≤ length ds
select-le p [] = omega arith
select-le p (d ∷ ds) = elim (Bool-cases (p d)) [
  | inl e ↦ rw e (omega (arith, select-le p ds))
  | inr e ↦ rw e (omega (arith, select-le p ds))
]

div_bounds : (a d : ℕ) → 0 < d → (d * (a / d) ≤ a) × (a < d * (a / d) + d)
div_bounds a d h = grind arith

-- What part of the deliveries succeeded, in whole percent.
module _ (ds : List DeliveryView) (some_are : 0 < length ds) where
  rate_value : success_rate ds ≡ (200 * length (select is_success ds) + length ds) / (2 * length ds)
  unfolding success_rate
  rate_value = rw (lt→ltb 0 (length ds) some_are) refl

  -- Of at least one delivery, the rate is the percentage of those that succeeded, rounded to the nearest
  -- whole number and a half upwards; it is at most 100, and it is 100 exactly if at most one delivery in
  -- 200 did not succeed.
  pub success_rate_nearest :
      (2 * length ds * success_rate ds ≤ 200 * length (select is_success ds) + length ds)
      × (200 * length (select is_success ds) + length ds
          < 2 * length ds * success_rate ds + 2 * length ds)
      × (success_rate ds ≤ 100)
      × ((success_rate ds ≡ 100)
          ↔ (200 * length ds ≤ 200 * length (select is_success ds) + length ds))
  success_rate_nearest =
      let a : ℕ = 200 * length (select is_success ds) + length ds in
      let d : ℕ = 2 * length ds in
      let (low, high) = div_bounds a d (omega (arith, some_are)) in
      let top = div-lt_iff_lt-mul {k = d} {x = a} {y = 101} (omega (arith, some_are)) in
      let full = div-lt_iff_lt-mul {k = d} {x = a} {y = 100} (omega (arith, some_are)) in
      let most = select-le is_success ds in
      let below : a / d ≤ 100 = omega (arith, top.1 (omega (arith, most, some_are))) in
      rw rate_value (
        low,
        high,
        below,
        (
          λ e. elim (dec_lt a (100 * d)) [
            | yes p ↦ absurd (omega (arith, e, full.1 p))
            | no p ↦ omega (arith, p)
          ],
          λ h. elim (dec_lt (a / d) 100) [
            | yes p ↦ absurd (omega (arith, full.0 p, h))
            | no p ↦ omega (arith, p, below)
          ],
        ),
      )
