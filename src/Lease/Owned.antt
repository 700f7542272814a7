-- ===== src/Lease/Owned.antt =====
-- `heartbeat` of backend/src/worker/shardLeaseCoordinator.ts: what a worker owns after it.
use event_relay.Base.{
  ℕ, zero, suc, ◌+◌, ◌*◌, ◌<◌, ◌≡◌, refl, sym, ◌⊎◌, inl, inr, true, Option, some, List, [], ◌∷◌,
  Text, text_eq_self, All, All-append, Any, arith, ltb, ◌==◌, ==_iff, Bool-cases,
}
use event_relay.Store.{World, Lock}
use event_relay.Store.Atomic.{Ends, continue-Ends}
use event_relay.Lease.{
  live_lock, is_owner, is_absent, put_lock, new_lock, claim_lock, renew_lock, owns, drop_shard,
  claim_shard, claim_from, claim_available_shards, renew_shard, renew_all, heartbeat,
}
use event_relay.Lease.Held.{Held}

module _ (worker : Text) (ttl t : ℕ) (lives : 0 < ttl) where
  abbrev renewed : ℕ → (ℕ → Option Lock) → ℕ → Option Lock
  renewed shard locks = put_lock shard (some (new_lock worker ttl t)) locks

  Held-put :
      (shard : ℕ) (locks : ℕ → Option Lock) (s : ℕ)
      → (s ≡ shard) ⊎ Held worker t locks s
      → Held worker t (renewed shard locks) s
  Held-put shard locks s h = elim (Bool-cases (s == shard)) [
    | inl here ↦
        let alive : ltb t (t + ttl * 1000) ≡ true = ground arith in
        rw (here, alive, text_eq_self worker) refl
    | inr elsewhere ↦ elim h [
      | inl e ↦ absurd (let i = (==_iff s shard).1 e in cc)
      | inr k ↦ rw elsewhere k
    ]
  ]

  All-put :
      (shard : ℕ) (locks : ℕ → Option Lock) (owned : List ℕ)
      → All (Held worker t locks) owned
      → All (Held worker t (renewed shard locks)) owned
  All-put shard locks [] h = tt
  All-put shard locks (s ∷ owned) h =
      (Held-put shard locks s (inr h.0), All-put shard locks owned h.1)

  -- Every owned shard is held, or is still to be renewed.
  abbrev Pending : (ℕ → Option Lock) → List ℕ → List ℕ → Type 0
  Pending locks shards owned = All (λ s. Held worker t locks s ⊎ Any (λ x. x ≡ s) shards) owned

  Pending-put :
      (shard : ℕ) (shards : List ℕ) (locks : ℕ → Option Lock) (owned : List ℕ)
      → Pending locks (shard ∷ shards) owned
      → Pending (renewed shard locks) shards owned
  Pending-put shard shards locks [] h = tt
  Pending-put shard shards locks (s ∷ owned) (inl h, k) =
      (inl (Held-put shard locks s (inr h)), Pending-put shard shards locks owned k)
  Pending-put shard shards locks (s ∷ owned) (inr (inl e), k) =
      (inl (Held-put shard locks s (inl (sym e))), Pending-put shard shards locks owned k)
  Pending-put shard shards locks (s ∷ owned) (inr (inr m), k) =
      (inr m, Pending-put shard shards locks owned k)

  Pending-drop :
      (shard : ℕ) (shards : List ℕ) (locks : ℕ → Option Lock) (owned : List ℕ)
      → Pending locks (shard ∷ shards) owned
      → Pending locks shards (drop_shard shard owned)
  Pending-drop shard shards locks [] h = tt
  Pending-drop shard shards locks (s ∷ owned) (h, k) = elim (Bool-cases (s == shard)) [
    | inl here ↦ rw here (Pending-drop shard shards locks owned k)
    | inr elsewhere ↦ rw elsewhere (
      elim h [
        | inl held ↦ inl held
        | inr (inl e) ↦ absurd (let i = (==_iff s shard).1 (sym e) in cc)
        | inr (inr m) ↦ inr m
      ],
      Pending-drop shard shards locks owned k,
    )
  ]

  -- No call fails, and the time is `t`.
  abbrev pub Calm : World → Type 0
  Calm v = (v.faults ≡ []) × (v.now ≡ t)

  abbrev pub AllHeld : List ℕ → World → Type 0
  AllHeld owned v = Calm v × All (Held worker t v.redis.locks) owned

  claim_shard-AllHeld :
      (shard : ℕ) (owned : List ℕ) (v : World)
      → AllHeld owned v
      → Ends AllHeld (λ _. ⊥) (claim_shard worker ttl shard owned v)
  unfolding claim_shard claim_lock
  claim_shard-AllHeld shard owned v ((e, n), h) = elim (Bool-cases (owns shard owned)) [
    | inl mine ↦ rw mine ((e, n), h)
    | inr other ↦ elim (Bool-cases (is_absent (live_lock t (v.redis.locks shard)))) [
      | inl free ↦
          rw (other, e, n, free)
            (
              (refl, refl),
              All-append (Held worker t (renewed shard v.redis.locks)) owned (shard ∷ [])
                  (All-put shard v.redis.locks owned h)
                  (Held-put shard v.redis.locks shard (inl refl), tt),
            )
      | inr taken ↦ rw (other, e, n, taken) ((refl, refl), h)
    ]
  ]

  claim_from-AllHeld :
      (shard rounds : ℕ) (owned : List ℕ) (v : World)
      → AllHeld owned v
      → Ends AllHeld (λ _. ⊥) (claim_from worker ttl shard rounds owned v)
  unfolding claim_from
  claim_from-AllHeld shard zero owned v h = h
  claim_from-AllHeld shard (suc rounds) owned v h =
      continue-Ends AllHeld AllHeld (λ _. ⊥) _ _ (claim_shard-AllHeld shard owned v h)
        (claim_from-AllHeld (shard + 1) rounds)

  abbrev StillPending : List ℕ → List ℕ → World → Type 0
  StillPending shards owned v = Calm v × Pending v.redis.locks shards owned

  renew_shard-Pending :
      (shard : ℕ) (shards owned : List ℕ) (v : World)
      → StillPending (shard ∷ shards) owned v
      → Ends (StillPending shards) (λ _. ⊥) (renew_shard worker ttl shard owned v)
  unfolding renew_shard renew_lock
  renew_shard-Pending shard shards owned v ((e, n), h) =
      elim (Bool-cases (is_owner worker (live_lock t (v.redis.locks shard)))) [
        | inl mine ↦ rw (e, n, mine) ((refl, refl), Pending-put shard shards v.redis.locks owned h)
        | inr lost ↦ rw (e, n, lost) ((refl, refl), Pending-drop shard shards v.redis.locks owned h)
      ]

  Pending-none :
      (locks : ℕ → Option Lock) (owned : List ℕ)
      → Pending locks [] owned
      → All (Held worker t locks) owned
  Pending-none locks [] h = tt
  Pending-none locks (s ∷ owned) (inl h, k) = (h, Pending-none locks owned k)
  Pending-none locks (s ∷ owned) (inr m, k) = absurd m

  renew_all-AllHeld :
      (shards owned : List ℕ) (v : World)
      → StillPending shards owned v
      → Ends AllHeld (λ _. ⊥) (renew_all worker ttl shards owned v)
  unfolding renew_all
  renew_all-AllHeld [] owned v (c, h) = (c, Pending-none v.redis.locks owned h)
  renew_all-AllHeld (shard ∷ shards) owned v h =
      continue-Ends (StillPending shards) AllHeld (λ _. ⊥) _ _
        (renew_shard-Pending shard shards owned v h) (renew_all-AllHeld shards)

  all-Pending :
      (locks : ℕ → Option Lock) (full owned : List ℕ)
      → ((s : ℕ) → Any (λ x. x ≡ s) owned → Any (λ x. x ≡ s) full)
      → Pending locks full owned
  all-Pending locks full [] h = tt
  all-Pending locks full (s ∷ owned) h =
      (inr (h s (inl refl)), all-Pending locks full owned (λ x m. h x (inr m)))

  -- A heartbeat in which no call fails returns, and then the worker holds the lease of every shard
  -- that it takes itself to own, whatever it took itself to own before.
  pub heartbeat-AllHeld :
      (shard_count : ℕ) (owned : List ℕ) (v : World)
      → Calm v
      → Ends AllHeld (λ _. ⊥) (heartbeat worker ttl shard_count owned v)
  unfolding heartbeat claim_available_shards
  heartbeat-AllHeld shard_count owned v c =
      continue-Ends AllHeld AllHeld (λ _. ⊥) _ _
        (renew_all-AllHeld owned owned v (c, all-Pending v.redis.locks owned owned (λ s m. m)))
        (claim_from-AllHeld 0 shard_count)
