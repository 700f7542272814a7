-- ===== src/InboundLimit/Local.antt =====
-- The buckets in memory of backend/src/middleware/rateLimit.ts: what they grant while the clean-up
-- timer runs in between.
use native.Mathlib.Nat.{mul-le-mul_right}
use event_relay.Base.{
  ℕ, suc, ◌+◌, ◌*◌, ◌-◌, ◌≤◌, ◌≡◌, refl, inl, inr, Option, none, some, List, [], ◌∷◌, Text,
  text_eq_self, arith, ltb, Bool-cases, true, false, if◌then◌else◌,
}
use event_relay.Base.Int.{pos, ◌+ℤ◌}
use event_relay.Store.{LocalBucket}
use event_relay.RateLimiter.{spent, has_token}
use event_relay.RateLimiter.Bounds.{refill_live, later-le}
use event_relay.InboundLimit.{local_refilled, take_local, clean_up, set_bucket, kept}

-- What happens to the buckets: a caller asks, or the timer fires.
pub data Step : Type 0 where
  ask : ℕ → Step
  clean : ℕ → Step

abbrev pub time_of : Step → ℕ
time_of (ask t) = t
time_of (clean t) = t

-- How many of the caller's requests the buckets grant.
unfoldable pub local_grants : Text → ℕ → List Step → (Text → Option LocalBucket) → ℕ
local_grants caller capacity [] buckets = 0
local_grants caller capacity (ask t ∷ steps) buckets =
    let (answer, after) = take_local caller capacity t buckets in
    let rest = local_grants caller capacity steps after in if answer.0 then suc rest else rest
local_grants caller capacity (clean t ∷ steps) buckets =
    local_grants caller capacity steps (clean_up t buckets)

-- The times do not go back.
abbrev pub Ordered : ℕ → List Step → Type 0
Ordered t [] = Unit {0}
Ordered t (s ∷ steps) = (t ≤ time_of s) × Ordered (time_of s) steps

abbrev pub end_of : ℕ → List Step → ℕ
end_of t [] = t
end_of t (s ∷ steps) = end_of (time_of s) steps

spent_one : (m : ℕ) → has_token (pos m) ≡ true → spent (pos m) ≡ pos (m - 1000)
unfolding spent ◌+ℤ◌
spent_one m h = ground (arith, h)

spent_none : (m : ℕ) → has_token (pos m) ≡ false → spent (pos m) ≡ pos m
unfolding spent
spent_none m h = rw h refl

module _ (capacity start : ℕ) where
  -- After `g` grants: there is no bucket, or one that was refilled by `t` and has not more in it than
  -- the rate brought.
  abbrev Room : ℕ → ℕ → Option LocalBucket → Type 0
  Room t g none = 1000 * g + start * capacity ≤ t * capacity
  Room t g (some b) =
      (k : ℕ) × (b.milli_tokens ≡ pos k)
      × (b.last_refill ≤ t)
      × (1000 * g + k + start * capacity ≤ 1000 * capacity + b.last_refill * capacity)

  Room-later : (t u g : ℕ) (o : Option LocalBucket) → t ≤ u → Room t g o → Room u g o
  Room-later t u g none h r = omega (arith, r, mul-le-mul_right {m = t} {n = u} capacity h)
  Room-later t u g (some b) h (k, e, l, r) = (k, e, omega (arith, l, h), r)

  Room-bound :
      (t g : ℕ) (o : Option LocalBucket)
      → Room t g o
      → 1000 * (g + 0) + start * capacity ≤ 1000 * capacity + t * capacity
  Room-bound t g none r = omega (arith, r)
  Room-bound t g (some b) (k, e, l, r) =
      omega (arith, r, mul-le-mul_right {m = b.last_refill} {n = t} capacity l)

  -- A bucket that is deleted would have been full again.
  kept-Room : (t g : ℕ) (o : Option LocalBucket) → Room t g o → Room t g (kept t o)
  kept-Room t g none r = r
  kept-Room t g (some b) (k, e, l, r) = elim (Bool-cases (ltb (b.last_refill + 60000) t)) [
    | inl idle ↦ rw idle (
        omega
          (arith, r, later-le [] capacity capacity b.last_refill 60001 t (ground (arith, idle))))
    | inr fresh ↦ rw fresh (k, e, l, r)
  ]

  -- What an act finds in the bucket.
  refilled-Room :
      (t g : ℕ) (o : Option LocalBucket)
      → Room t g o
      → (m : ℕ) × (local_refilled capacity t o ≡ pos m)
        × (1000 * g + m + start * capacity ≤ 1000 * capacity + t * capacity)
  unfolding local_refilled
  refilled-Room t g none r = (1000 * capacity, refl, omega (arith, r))
  refilled-Room t g (some b) (k, e, l, r) =
      let (m, f, h) = refill_live [] capacity capacity b.last_refill t k l in
      rw e (m, f, omega (arith, r, h, mul-le-mul_right {m = b.last_refill} {n = t} capacity l))

  module _ (caller : Text) where
    grants-le :
        (t g : ℕ) (steps : List Step) (buckets : Text → Option LocalBucket)
        → Ordered t steps
        → Room t g (buckets caller)
        → 1000 * (g + local_grants caller capacity steps buckets) + start * capacity
          ≤ 1000 * capacity + end_of t steps * capacity
    unfolding local_grants take_local clean_up
    grants-le t g [] buckets o r = Room-bound t g (buckets caller) r
    grants-le t g (clean u ∷ steps) buckets (l, o) r =
        grants-le u g steps (clean_up u buckets) o
          (kept-Room u g (buckets caller) (Room-later t u g (buckets caller) l r))
    grants-le t g (ask u ∷ steps) buckets (l, o) r =
        let (m, e, h) =
          refilled-Room u g (buckets caller) (Room-later t u g (buckets caller) l r) in
        elim (Bool-cases (has_token (pos m))) [
          | inl enough ↦
              rw (e, enough)
                (omega (
                  arith,
                  grants-le u (suc g) steps
                      (set_bucket caller (record { milli_tokens = spent (pos m); last_refill = u })
                        buckets)
                      o
                      (rw (text_eq_self caller)
                        (m - 1000, spent_one m enough, ground arith, ground (arith, enough, h))),
                ))
          | inr empty ↦
              rw (e, empty)
                (omega (
                  arith,
                  grants-le u g steps
                      (set_bucket caller (record { milli_tokens = spent (pos m); last_refill = u })
                        buckets)
                      o
                      (rw (text_eq_self caller)
                        (m, spent_none m empty, ground arith, ground (arith, h))),
                ))
        ]

-- The requests that the buckets in memory grant to a caller who has none at first: at most the
-- capacity and what the rate brings from the start to the last step, however the clean-up runs in
-- between.
pub local_grants_bound :
    (caller : Text) (capacity start : ℕ) (steps : List Step) (buckets : Text → Option LocalBucket)
    → buckets caller ≡ none
    → Ordered start steps
    → 1000 * local_grants caller capacity steps buckets + start * capacity
      ≤ 1000 * capacity + end_of start steps * capacity
local_grants_bound caller capacity start steps buckets absent o =
    omega (arith, grants-le capacity start caller start 0 steps buckets o (rw absent (omega arith)))
