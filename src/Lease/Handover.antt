-- ===== src/Lease/Handover.antt =====
-- backend/src/worker/shardLeaseCoordinator.ts: a lease that `releaseAll` gave back, and the heartbeat of
-- another worker that takes it.
use event_relay.Base.{
  ℕ, zero, suc, ◌+◌, ◌<◌, ◌≤◌, ◌≡◌, refl, sym, ◌⊎◌, inl, inr, true, false, Option, none, List, [],
  ◌∷◌, ◌++◌, Text, All, arith, ◌==◌, ==_iff, ==_self, Bool-cases,
}
use event_relay.Store.{World, Lock}
use event_relay.Store.Atomic.{Ends, Ends-imp, Ends_both, continue-Ends}
use event_relay.Lease.{
  live_lock, is_owner, is_absent, release_lock, claim_lock, renew_lock, owns, claim_shard,
  claim_from, claim_available_shards, renew_shard, renew_all, heartbeat, release_shards,
}
use event_relay.Lease.Held.{Held}
use event_relay.Lease.Owned.{AllHeld, heartbeat-AllHeld}

owns_rest :
    (s shard : ℕ) (shards : List ℕ)
    → (s == shard) ≡ false
    → owns s (shard ∷ shards) ≡ true
    → owns s shards ≡ true
owns_rest s shard shards e h = elim (Bool-cases (shard == s)) [
  | inl here ↦ absurd (let i = (==_iff shard s).0 here in ground arith)
  | inr apart ↦ let k : owns s shards ≡ true = rw (← h, apart) refl in k
]

module _ (s t : ℕ) where
  -- No call fails, the time is `t`, and no one has the lease of the shard.
  abbrev pub Vacant : World → Type 0
  Vacant v = (v.faults ≡ []) × (v.now ≡ t) × (v.redis.locks s ≡ none)

  -- The lease is gone, or is the worker's and among those still to be released.
  abbrev Leaving : Text → List ℕ → World → Type 0
  Leaving worker shards v =
      (v.faults ≡ [])
      × (v.now ≡ t)
      × ((v.redis.locks s ≡ none) ⊎ (Held worker t v.redis.locks s × (owns s shards ≡ true)))

  release_one :
      (worker : Text) (shard : ℕ) (shards : List ℕ) (v : World)
      → Leaving worker (shard ∷ shards) v
      → Leaving worker shards (record v { faults = []; redis = (release_lock worker shard v).1 })
  unfolding release_lock
  release_one worker shard shards v (e, n, h) =
      elim (Bool-cases (is_owner worker (live_lock t (v.redis.locks shard)))) [
        | inl mine ↦ elim (Bool-cases (s == shard)) [
          | inl here ↦ rw (n, mine, here) (refl, refl, inl refl)
          | inr elsewhere ↦ elim h [
            | inl gone ↦ rw (n, mine, elsewhere) (refl, refl, inl gone)
            | inr held ↦
                rw (n, mine, elsewhere)
                  (refl, refl, inr (held.0, owns_rest s shard shards elsewhere held.1))
          ]
        ]
        | inr lost ↦ elim h [
          | inl gone ↦ rw (n, lost) (refl, refl, inl gone)
          | inr held ↦ elim (Bool-cases (s == shard)) [
            | inl here ↦
                let same : s ≡ shard = (==_iff s shard).0 here in
                absurd (
                  let mine : is_owner worker (live_lock t (v.redis.locks shard)) ≡ true =
                    rw (← same) held.0 in
                  cc)
            | inr elsewhere ↦
                rw (n, lost) (refl, refl, inr (held.0, owns_rest s shard shards elsewhere held.1))
          ]
        ]
      ]

  -- Where no call fails, releasing the shards that a worker owns frees each of them that it holds.
  pub release_shards-Vacant :
      (worker : Text) (shards : List ℕ) (v : World)
      → Leaving worker shards v
      → Ends (λ left. λ u. (left ≡ []) × Vacant u) (λ _. ⊥) (release_shards worker shards v)
  unfolding release_shards release_lock
  release_shards-Vacant worker [] v (e, n, inl gone) = (refl, (e, n, gone))
  release_shards-Vacant worker [] v (e, n, inr h) = absurd (let k = h.1 in cc)
  release_shards-Vacant worker (shard ∷ shards) v h = rw h.0 (
      release_shards-Vacant worker shards
        (record v { faults = []; redis = (release_lock worker shard v).1 })
        (release_one worker shard shards v h))

owns-append :
    (s shard : ℕ) (owned : List ℕ)
    → (owns s owned ≡ true) ⊎ (shard ≡ s)
    → owns s (owned ++ shard ∷ []) ≡ true
owns-append s shard [] (inl h) = absurd (let k = h in cc)
owns-append s shard [] (inr e) = rw (e, ==_self s) refl
owns-append s shard (x ∷ owned) h = elim (Bool-cases (x == s)) [
  | inl here ↦ rw here refl
  | inr apart ↦
      rw apart
        (owns-append s shard owned (elim h [ inl k ↦ inl (rw (← k, apart) refl) | inr e ↦ inr e ]))
]

owned_held : (P : ℕ → Type 0) (s : ℕ) (owned : List ℕ) → owns s owned ≡ true → All P owned → P s
owned_held P s [] h k = absurd (let i = h in cc)
owned_held P s (x ∷ owned) h k = elim (Bool-cases (x == s)) [
  | inl here ↦ rw (← (==_iff x s).0 here) k.0
  | inr apart ↦ owned_held P s owned (rw (← h, apart) refl) k.1
]

module _ (worker : Text) (ttl s t : ℕ) where
  renew_all-Vacant :
      (shards owned : List ℕ) (v : World)
      → Vacant s t v
      → Ends (λ _. Vacant s t) (λ _. ⊥) (renew_all worker ttl shards owned v)
  unfolding renew_all renew_shard renew_lock
  renew_all-Vacant [] owned v h = h
  renew_all-Vacant (shard ∷ shards) owned v h =
      continue-Ends (λ _. Vacant s t) (λ _. Vacant s t) (λ _. ⊥)
        (renew_shard worker ttl shard owned v) (renew_all worker ttl shards) renewed
        (renew_all-Vacant shards)
    where
      renewed : Ends (λ _. Vacant s t) (λ _. ⊥) (renew_shard worker ttl shard owned v)
      renewed = elim (Bool-cases (is_owner worker (live_lock t (v.redis.locks shard)))) [
        | inr lost ↦ rw (h.0, h.1, lost) (refl, refl, h.2)
        | inl mine ↦ elim (Bool-cases (s == shard)) [
          | inr elsewhere ↦ rw (h.0, h.1, mine, elsewhere) (refl, refl, h.2)
          | inl here ↦
              let same : s ≡ shard = (==_iff s shard).0 here in
              let gone : v.redis.locks shard ≡ none = rw (← same) h.2 in
              absurd (
                let free : is_owner worker (live_lock t (v.redis.locks shard)) ≡ false =
                  rw gone refl in
                cc)
        ]
      ]

  -- The shard is owned already, or it is vacant and the loop is still to come to it.
  abbrev Due : ℕ → List ℕ → Option Lock → Type 0
  Due shard owned l = (owns s owned ≡ true) ⊎ ((l ≡ none) × (shard ≤ s))

  Due-next :
      (shard : ℕ) (owned more : List ℕ) (l k : Option Lock)
      → (owns s owned ≡ true → owns s more ≡ true)
      → (s ≡ shard → l ≡ none → owns s more ≡ true)
      → ((s == shard) ≡ false → k ≡ l)
      → Due shard owned l
      → Due (shard + 1) more k
  Due-next shard owned more l k keeps claims same (inl o) = inl (keeps o)
  Due-next shard owned more l k keeps claims same (inr (gone, before)) =
      elim (Bool-cases (s == shard)) [
        | inl here ↦ inl (claims ((==_iff s shard).0 here) gone)
        | inr apart ↦ inr (rw (same apart) gone, ground arith)
      ]

  abbrev Coming : ℕ → List ℕ → World → Type 0
  Coming shard owned v = (v.faults ≡ []) × (v.now ≡ t) × Due shard owned (v.redis.locks s)

  claim_shard-Coming :
      (shard : ℕ) (owned : List ℕ) (v : World)
      → Coming shard owned v
      → Ends (Coming (shard + 1)) (λ _. ⊥) (claim_shard worker ttl shard owned v)
  unfolding claim_shard claim_lock
  claim_shard-Coming shard owned v (e, n, h) = elim (Bool-cases (owns shard owned)) [
    | inl mine ↦
        rw mine
          (e, n, Due-next shard owned owned _ _ (λ o. o) (λ same _. rw same mine) (λ _. refl) h)
    | inr other ↦ elim (Bool-cases (is_absent (live_lock t (v.redis.locks shard)))) [
      | inl free ↦
          rw (other, e, n, free)
            (
              refl,
              refl,
              Due-next shard owned (owned ++ shard ∷ []) (v.redis.locks s) _
                  (λ o. owns-append s shard owned (inl o))
                  (λ same _. owns-append s shard owned (inr (sym same))) (λ apart. rw apart refl) h,
            )
      | inr taken ↦
          rw (other, e, n, taken)
            (
              refl,
              refl,
              Due-next shard owned owned (v.redis.locks s) _ (λ o. o)
                  (λ same gone. absurd (
                    let none_there : v.redis.locks shard ≡ none = rw (← same) gone in
                    let free : is_absent (live_lock t (v.redis.locks shard)) ≡ true =
                      rw none_there refl in
                    cc))
                  (λ _. refl) h,
            )
    ]
  ]

  claim_from-Owns :
      (shard rounds : ℕ) (owned : List ℕ) (v : World)
      → s < shard + rounds
      → Coming shard owned v
      → Ends (λ left. λ _. owns s left ≡ true) (λ _. ⊥) (claim_from worker ttl shard rounds owned v)
  unfolding claim_from
  claim_from-Owns shard zero owned v l (e, n, inl h) = h
  claim_from-Owns shard zero owned v l (e, n, inr h) = absurd (omega (arith, l, h.1))
  claim_from-Owns shard (suc rounds) owned v l h =
      continue-Ends (Coming (shard + 1)) (λ left. λ _. owns s left ≡ true) (λ _. ⊥) _ _
        (claim_shard-Coming shard owned v h)
        (λ more u c. claim_from-Owns (shard + 1) rounds more u (omega (arith, l)) c)

  -- A worker whose heartbeat finds a shard's lease vacant, while no call fails, holds it afterwards and
  -- owns the shard, whatever it took itself to own before.
  pub heartbeat_takes :
      (shard_count : ℕ) (owned : List ℕ) (v : World)
      → 0 < ttl
      → s < shard_count
      → Vacant s t v
      → Ends
          (λ left. λ u. (owns s left ≡ true) × Held worker t u.redis.locks s)
          (λ _. ⊥)
          (heartbeat worker ttl shard_count owned v)
  unfolding heartbeat claim_available_shards
  heartbeat_takes shard_count owned v lives l h =
      Ends-imp _ (λ left. λ u. (owns s left ≡ true) × Held worker t u.redis.locks s) _ (λ _. ⊥)
        (heartbeat worker ttl shard_count owned v)
        (λ left u q. (q.0, owned_held (Held worker t u.redis.locks) s left q.0 q.1.1)) (λ u q. q.0)
        (Ends_both (λ left. λ _. owns s left ≡ true) (AllHeld worker ttl t lives) (λ _. ⊥) (λ _. ⊥)
          (heartbeat worker ttl shard_count owned v)
          (continue-Ends (λ _. Vacant s t) (λ left. λ _. owns s left ≡ true) (λ _. ⊥) _ _
            (renew_all-Vacant owned owned v h)
            (λ left u c.
              claim_from-Owns 0 shard_count left u (omega (arith, l))
                (c.0, c.1, inr (c.2, omega arith))))
          (heartbeat-AllHeld worker ttl t lives shard_count owned v (h.0, h.1)))
