-- ===== src/RateLimiter/Bounds.antt =====
-- `consume` of backend/src/resilience/tokenBucket.ts: how many requests a bucket grants.
use native.Mathlib.Nat.{mul-le-mul_right}
use event_relay.Base.{
  ℕ, suc, ◌+◌, ◌*◌, ◌-◌, ◌≤◌, ◌≡◌, refl, ◌∙◌, Option, none, some, List, [], ◌∷◌, Text, text_eq,
  text_eq_self, find, arith, ltb, leb, Bool-cases, inl, inr, if◌then◌else◌,
}
use event_relay.Base.Int.{ℤ, pos, sub_ℕ, ◌+ℤ◌, minℤ}
use event_relay.Store.{Redis, Bucket}
use event_relay.RateLimiter.{live_bucket, store_bucket, refilled, spent, take_token}

abbrev pub bucket_at : Text → List Bucket → Option Bucket
bucket_at key = find λ (b : Bucket). text_eq b.key key

-- The script, at each of these times, and the number of times that it granted a token.
unfoldable pub grants : Text → ℕ → ℕ → List ℕ → Redis → ℕ
grants key capacity rate [] redis = 0
grants key capacity rate (t ∷ ts) redis =
    let (granted, next) = take_token key capacity rate t redis in
    let rest = grants key capacity rate ts next in if granted then suc rest else rest

-- The times do not go back, and none is before `t`.
abbrev pub From : ℕ → List ℕ → Type 0
From t [] = Unit {0}
From t (s ∷ ts) = (t ≤ s) × From s ts

-- The last of the times.
abbrev pub last_of : ℕ → List ℕ → ℕ
last_of t [] = t
last_of t (s ∷ ts) = last_of s ts

abbrev stored : Text → ℤ → ℕ → Bucket
stored key tokens now = record {
  key = key;
  milli_tokens = tokens;
  last_refill = now;
  expires_at = now + 60000;
}

find-store :
    (key : Text) (tokens : ℤ) (now : ℕ) (bs : List Bucket)
    → (b : Bucket) × (bucket_at key (store_bucket key tokens now bs) ≡ some b)
      × (b.milli_tokens ≡ tokens)
      × (b.last_refill ≡ now)
      × (b.expires_at ≡ now + 60000)
unfolding store_bucket
find-store key tokens now [] = (stored key tokens now, rw (text_eq_self key) refl, refl, refl, refl)
find-store key tokens now (b ∷ bs) = elim (Bool-cases (text_eq b.key key)) [
  | inl e ↦ rw e (stored b.key tokens now, rw e refl, refl, refl, refl)
  | inr e ↦ rw e (rw e (find-store key tokens now bs))
]

module _ (key : Text) (capacity rate : ℕ) where
  -- The bucket as an act at `t` left it, after `g` grants since `start`.
  record Spent (start t g : ℕ) (redis : Redis) : Type 0 where
    bucket : Bucket
    left : ℕ
    found : bucket_at key redis.buckets ≡ some bucket
    tokens : bucket.milli_tokens ≡ pos left
    refill : bucket.last_refill ≡ t
    life : bucket.expires_at ≡ t + 60000
    within : 1000 * g + left + start * rate ≤ 1000 * capacity + t * rate

  -- What is in the bucket before an act.
  abbrev Refilled : ℕ → ℕ → ℕ → Redis → Type 0
  Refilled start now g redis =
      (m : ℕ) × (refilled capacity rate now (live_bucket key now redis.buckets) ≡ pos m)
      × (1000 * g + m + start * rate ≤ 1000 * capacity + now * rate)

  pub later-le : (t k now : ℕ) → t + k ≤ now → t * rate + k * rate ≤ now * rate
  later-le t k now h = omega (arith, mul-le-mul_right rate h)

  pub refill_live :
      (t now n : ℕ)
      → t ≤ now
      → (m : ℕ) × (minℤ (pos (1000 * capacity)) (pos n +ℤ sub_ℕ (now * rate) (t * rate)) ≡ pos m)
        × (m ≤ n + (now * rate - t * rate))
  unfolding minℤ ◌+ℤ◌
  refill_live t now n h = elim (Bool-cases (leb (1000 * capacity) (n + (now * rate - t * rate)))) [
    | inl full ↦
        (1000 * capacity, ground (arith, mul-le-mul_right {m = t} {n = now} rate h), ground arith)
    | inr room ↦ (
      n + (now * rate - t * rate),
      ground (arith, mul-le-mul_right {m = t} {n = now} rate h),
      ground arith,
    )
  ]

  Spent-Refilled :
      (start t now g : ℕ) (redis : Redis)
      → capacity ≤ 60 * rate
      → t ≤ now
      → Spent start t g redis
      → Refilled start now g redis
  unfolding live_bucket refilled
  Spent-Refilled start t now g redis small later s =
      elim (Bool-cases (ltb now s.bucket.expires_at)) [
        | inl live ↦
            let (m, e, h) = refill_live t now s.left later in
            rw (s.found, live, s.tokens, s.refill)
              (m, e, omega (arith, s.within, mul-le-mul_right {m = t} {n = now} rate later))
        | inr dead ↦
            rw (s.found, dead)
              (
                1000 * capacity,
                refl,
                omega (arith, s.within, later-le t 60000 now (ground (arith, s.life))),
              )
      ]

  -- The bucket that an act leaves.
  act-Spent :
      (start now g : ℕ) (redis : Redis)
      → Refilled start now g redis
      → Spent start now
          (if (take_token key capacity rate now redis).0 then suc g else g)
          (take_token key capacity rate now redis).1
  unfolding take_token spent ◌+ℤ◌
  act-Spent start now g redis (m, e, h) =
      let (b, f, tokens, refill, life) =
        find-store key (spent (refilled capacity rate now (live_bucket key now redis.buckets))) now
          redis.buckets in
      elim (Bool-cases (leb 1000 m)) [
        | inl enough ↦ record {
          bucket = b;
          left = m - 1000;
          found = f;
          tokens = tokens ∙ (rw e ground arith);
          refill = refill;
          life = life;
          within = rw e (ground arith);
        }
        | inr empty ↦ record {
          bucket = b;
          left = m;
          found = f;
          tokens = tokens ∙ (rw e ground arith);
          refill = refill;
          life = life;
          within = rw e (ground arith);
        }
      ]

  grants-le :
      (start t g : ℕ) (ts : List ℕ) (redis : Redis)
      → capacity ≤ 60 * rate
      → From t ts
      → Spent start t g redis
      → 1000 * (g + grants key capacity rate ts redis) + start * rate
        ≤ 1000 * capacity + last_of t ts * rate
  unfolding grants
  grants-le start t g [] redis small h s = omega (arith, s.within)
  grants-le start t g (now ∷ ts) redis small (later, h) s =
      let next : Spent start now _ _ =
        act-Spent start now g redis (Spent-Refilled start t now g redis small later s) in
      elim (Bool-cases (take_token key capacity rate now redis).0) [
        | inl took ↦
            rw took (omega (arith, grants-le start now (suc g) ts _ small h (rw took at next)))
        | inr left ↦ rw left (grants-le start now g ts _ small h (rw left at next))
      ]

-- A bucket that has no hash yet, asked at times that do not go back, grants at most its capacity and
-- what the rate refills between the first time and the last, provided that a minute at the rate
-- fills it (the hash expires after a minute).
pub grants_bound :
    (key : Text) (capacity rate t : ℕ) (ts : List ℕ) (redis : Redis)
    → bucket_at key redis.buckets ≡ none
    → capacity ≤ 60 * rate
    → From t ts
    → 1000 * grants key capacity rate (t ∷ ts) redis + t * rate
      ≤ 1000 * capacity + last_of t ts * rate
unfolding grants live_bucket refilled
grants_bound key capacity rate t ts redis absent small h =
    let next : Spent key capacity rate t t _ _ =
      act-Spent key capacity rate t t 0 redis (1000 * capacity, rw absent refl, omega arith) in
    elim (Bool-cases (take_token key capacity rate t redis).0) [
      | inl took ↦
          rw took (omega (arith, grants-le key capacity rate t t 1 ts _ small h (rw took at next)))
      | inr left ↦
          rw left (omega (arith, grants-le key capacity rate t t 0 ts _ small h (rw left at next)))
    ]
