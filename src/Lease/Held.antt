-- ===== src/Lease/Held.antt =====
-- backend/src/worker/shardLeaseCoordinator.ts: what a worker does to the lease of another.
use event_relay.Base.{
  ℕ, zero, suc, ◌+◌, ◌≡◌, ◌≢◌, refl, sym, ◌∙◌, ◌⊎◌, inl, inr, Bool, true, false, Option, none, some,
  List, [], ◌∷◌, Text, text_eq, text_eq_iff, ◌==◌, ==_iff, Bool-cases, if◌then◌else◌,
}
use event_relay.Store.{World, Redis, Lock, Result, continue, recover, pure, command}
use event_relay.Store.Atomic.{Ends, attempt_rule, continue-Ends}
use event_relay.Lease.{
  live_lock, is_owner, is_absent, set_lock, new_lock, claim_lock, renew_lock, release_lock, owns,
  after_claim, after_renewal, claim_shard, claim_from, renew_shard, renew_all, heartbeat,
  release_shards,
}

-- The worker holds the shard's lease at this time.
abbrev pub Held : Text → ℕ → (ℕ → Option Lock) → ℕ → Type 0
Held worker now locks shard = is_owner worker (live_lock now (locks shard)) ≡ true

-- What another worker does to a lease that is held.
module _ (other : Text) (s t : ℕ) where
  abbrev pub Safe : World → Type 0
  Safe v = (v.now ≡ t) × Held other t v.redis.locks s

  abbrev pub LeavesSafe : {A : Type 0} → Result A × World → Type 0
  LeavesSafe r = Ends (λ _. Safe) Safe r

  Safe-command :
      {A B : Type 0} (f : World → A × Redis) (g : A → B) (h : B) (v : World)
      → Safe v
      → ((u : World) → Safe u → Held other t (f u).1.locks s)
      → LeavesSafe (recover (continue (command f v) (λ a. pure (g a))) (pure h))
  Safe-command {A} {B} f g h v p k =
      attempt_rule (λ r. LeavesSafe (recover (continue r (λ a. pure (g a))) (pure h))) _ v.faults v
        (λ rest. p) (λ rest. (p.0, k (record v { faults = rest }) p))

  module _ (worker : Text) (apart : worker ≢ other) where
    owner_apart : (l : Option Lock) → is_owner other l ≡ true → is_owner worker l ≡ false
    owner_apart none e = refl
    owner_apart (some l) e = elim (Bool-cases (text_eq l.owner worker)) [
      | inr h ↦ h
      | inl h ↦ absurd (apart (sym ((text_eq_iff _ _).0 h) ∙ (text_eq_iff _ _).0 e))
    ]

    owner_present : (l : Option Lock) → is_owner other l ≡ true → is_absent l ≡ false
    owner_present none e = cc
    owner_present (some l) e = refl

    -- A write to the key of a shard that the other worker does not hold.
    write-Safe :
        (shard : ℕ) (l : Option Lock) (test : Bool) (u : World)
        → Safe u
        → (Held other t u.redis.locks shard → test ≡ false)
        → Held other t
            (if◌then◌else◌ {A = Bool × Redis} test
              (true, set_lock shard l u.redis)
              (false, u.redis)).1.locks
            s
    write-Safe shard l test u p free = elim (Bool-cases test) [
      | inr no_write ↦ rw no_write p.1
      | inl write ↦ elim (Bool-cases (s == shard)) [
        | inr elsewhere ↦ rw (write, elsewhere) p.1
        | inl here ↦
            let same : s ≡ shard = (==_iff s shard).0 here in
            absurd (let never : test ≡ false = free (rw (← same) p.1) in cc)
      ]
    ]

    claim-Safe :
        (ttl shard : ℕ) (u : World)
        → Safe u
        → Held other t (claim_lock worker ttl shard u).1.locks s
    unfolding claim_lock
    claim-Safe ttl shard u p =
        write-Safe shard (some (new_lock worker ttl u.now))
          (is_absent (live_lock u.now (u.redis.locks shard))) u p (λ h. rw p.0 (owner_present _ h))

    renew-Safe :
        (ttl shard : ℕ) (u : World)
        → Safe u
        → Held other t (renew_lock worker ttl shard u).1.locks s
    unfolding renew_lock
    renew-Safe ttl shard u p =
        write-Safe shard (some (new_lock worker ttl u.now))
          (is_owner worker (live_lock u.now (u.redis.locks shard))) u p
          (λ h. rw p.0 (owner_apart _ h))

    release-Safe :
        (shard : ℕ) (u : World) → Safe u → Held other t (release_lock worker shard u).1.locks s
    unfolding release_lock
    release-Safe shard u p =
        write-Safe shard none (is_owner worker (live_lock u.now (u.redis.locks shard))) u p
          (λ h. rw p.0 (owner_apart _ h))

    claim_from-Safe :
        (ttl shard rounds : ℕ) (owned : List ℕ) (v : World)
        → Safe v
        → LeavesSafe (claim_from worker ttl shard rounds owned v)
    unfolding claim_from claim_shard
    claim_from-Safe ttl shard zero owned v p = p
    claim_from-Safe ttl shard (suc rounds) owned v p =
        continue-Ends (λ _. Safe) (λ _. Safe) Safe _ _ (go (Bool-cases (owns shard owned)))
          λ more u q. claim_from-Safe ttl (shard + 1) rounds more u q
      where
        go :
            (owns shard owned ≡ true) ⊎ (owns shard owned ≡ false)
            → LeavesSafe (claim_shard worker ttl shard owned v)
        go (inl mine) = rw mine p
        go (inr other') = rw other' (
            Safe-command (claim_lock worker ttl shard) (after_claim worker ttl shard owned) owned v
              p (claim-Safe ttl shard))

    renew_all-Safe :
        (ttl : ℕ) (shards owned : List ℕ) (v : World)
        → Safe v
        → LeavesSafe (renew_all worker ttl shards owned v)
    unfolding renew_all renew_shard
    renew_all-Safe ttl [] owned v p = p
    renew_all-Safe ttl (shard ∷ shards) owned v p =
        continue-Ends (λ _. Safe) (λ _. Safe) Safe _ _
          (Safe-command (renew_lock worker ttl shard) (after_renewal worker ttl shard owned) owned v
            p (renew-Safe ttl shard))
          λ left u q. renew_all-Safe ttl shards left u q

    -- While a worker holds a lease, the heartbeat of another leaves it that lease, whichever of its
    -- calls fail and whatever it takes itself to own.
    pub heartbeat-Safe :
        (ttl shard_count : ℕ) (owned : List ℕ) (v : World)
        → Safe v
        → LeavesSafe (heartbeat worker ttl shard_count owned v)
    unfolding heartbeat
    heartbeat-Safe ttl shard_count owned v p =
        continue-Ends (λ _. Safe) (λ _. Safe) Safe _ _ (renew_all-Safe ttl owned owned v p)
          λ left. claim_from-Safe ttl 0 shard_count left

    -- While a worker holds a lease, the release by another of any shards leaves it that lease,
    -- whichever of its calls fail.
    pub release_shards-Safe :
        (shards : List ℕ) (v : World) → Safe v → LeavesSafe (release_shards worker shards v)
    unfolding release_shards
    release_shards-Safe [] v p = p
    release_shards-Safe (shard ∷ shards) v p =
        continue-Ends (λ _. Safe) (λ _. Safe) Safe _ _
          (Safe-command (release_lock worker shard) (λ _. tt) tt v p (release-Safe shard))
          λ _. release_shards-Safe shards
