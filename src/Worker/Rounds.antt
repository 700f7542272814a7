-- ===== src/Worker/Rounds.antt =====
-- The loop of backend/src/worker/deliveryWorker.ts where jobs fail: what is acknowledged, and that it goes
-- on.
use event_relay.Base.{
  ℕ, ◌≡◌, refl, ap, ◌∙◌, inl, inr, zero, suc, ◌+◌, Bool, Bool-cases, Option, List, [], ◌∷◌, ◌++◌,
  Text,
}
use event_relay.Store.{World, StreamMessage, Result, ok, thrown, recover, pure}
use event_relay.Store.Atomic.{Ends, Ends-imp, Ends-weaken, continue-Ends}
use event_relay.StreamQueue.{stream_or}
use event_relay.StreamQueue.Reads.{Commands}
use event_relay.Lease.{owns, claim_shard, claim_from, claim_available_shards}
use event_relay.Worker.{Env, process_job}
use event_relay.Worker.Jobs.{Done, Broken, process_job-Ends}
use event_relay.Worker.Loop.{process_all, poll_once, round, rounds, start, sleep}

module _ (env : Env) where
  -- What `acknowledged` holds after these messages were acknowledged one by one.
  abbrev pub after_all : List StreamMessage → List (Text × ℕ) → List (Text × ℕ)
  after_all [] acks = acks
  after_all (m ∷ ms) acks =
      after_all ms ((stream_or m.stream_name env.base_stream, m.message_id) ∷ acks)

  abbrev pub AllAcknowledged : List StreamMessage → List (Text × ℕ) → World → Type 0
  AllAcknowledged ms acks v = v.redis.acknowledged ≡ after_all ms acks

  -- The first ones were acknowledged, and none of the others.
  abbrev pub SomeAcknowledged : List StreamMessage → List (Text × ℕ) → World → Type 0
  SomeAcknowledged ms acks v =
      (front : List StreamMessage) × (back : List StreamMessage) × (front ++ back ≡ ms)
      × (v.redis.acknowledged ≡ after_all front acks)

  broken :
      (m : StreamMessage) (ms : List StreamMessage) (w v : World)
      → Broken env m.message_id m.stream_name m.job w v
      → SomeAcknowledged (m ∷ ms) w.redis.acknowledged v
  broken m ms w v (posts, inl none_more) = ([], m ∷ ms, refl, none_more)
  broken m ms w v (posts, inr one_more) = (m ∷ [], ms, refl, one_more)

  -- The jobs of a read are acknowledged in order. If they all return, every one is; if one throws, the
  -- ones before it are, and none after it.
  pub process_all-Acknowledged :
      (ms : List StreamMessage) (w : World)
      → Ends
          (λ _. AllAcknowledged ms w.redis.acknowledged)
          (SomeAcknowledged ms w.redis.acknowledged)
          (process_all env ms w)
  unfolding process_all
  process_all-Acknowledged [] w = refl
  process_all-Acknowledged (m ∷ ms) w =
      continue-Ends (λ _. Done env m.message_id m.stream_name m.job w)
        (λ _. AllAcknowledged (m ∷ ms) w.redis.acknowledged)
        (SomeAcknowledged (m ∷ ms) w.redis.acknowledged)
        (process_job env m.message_id m.stream_name m.job w) (λ _. process_all env ms)
        (Ends-weaken (λ _. Done env m.message_id m.stream_name m.job w)
          (Broken env m.message_id m.stream_name m.job w)
          (SomeAcknowledged (m ∷ ms) w.redis.acknowledged) _ (broken m ms w)
          (process_job-Ends env m.message_id m.stream_name m.job w))
        (λ _ v d.
          Ends-imp (λ _. AllAcknowledged ms v.redis.acknowledged)
            (λ _. AllAcknowledged (m ∷ ms) w.redis.acknowledged)
            (SomeAcknowledged ms v.redis.acknowledged)
            (SomeAcknowledged (m ∷ ms) w.redis.acknowledged) (process_all env ms v)
            (λ _ u h. h ∙ ap (after_all ms) d.1)
            (λ u h. (m ∷ h.0, h.1, ap (λ xs. m ∷ xs) h.2, h.3 ∙ ap (after_all h.0) d.1))
            (process_all-Acknowledged ms v))

-- A round and the loop return.
abbrev Returned : {A : Type 0} → Result A × World → Type 0
Returned r = Ends (λ _. λ v. Unit {0}) (λ v. ⊥) r

slept : (r : Result (Unit {0}) × World) (ms : ℕ) → Returned (recover r (sleep ms))
slept (ok a, v) ms = tt
slept (thrown, v) ms = tt

caught : {A : Type 0} (r : Result A × World) (a : A) → Returned (recover r (pure a))
caught (ok b, v) a = tt
caught (thrown, v) a = tt

module _ (worker : Text) (ttl : ℕ) where
  claim_shard-Returned :
      (shard : ℕ) (owned : List ℕ) (w : World) → Returned (claim_shard worker ttl shard owned w)
  unfolding claim_shard
  claim_shard-Returned shard owned w = elim (Bool-cases (owns shard owned)) [
    | inl e ↦ rw e tt
    | inr e ↦ rw e (caught _ owned)
  ]

  claim_from-Returned :
      (shard n : ℕ) (owned : List ℕ) (w : World) → Returned (claim_from worker ttl shard n owned w)
  unfolding claim_from
  claim_from-Returned shard zero owned w = tt
  claim_from-Returned shard (suc n) owned w =
      continue-Ends (λ _. λ v. Unit {0}) (λ _. λ v. Unit {0}) (λ v. ⊥)
        (claim_shard worker ttl shard owned w) (claim_from worker ttl (shard + 1) n)
        (claim_shard-Returned shard owned w) (λ more v _. claim_from-Returned (shard + 1) n more v)

module _ (env : Env) (redis : Commands) (uuid_number : Option Text → ℕ) (worker : Text) where
  round-Returned :
      (running : ℕ → Bool) (owned : List ℕ) (w : World)
      → Returned (round env redis uuid_number worker running owned w)
  unfolding round
  round-Returned running owned w =
      slept (poll_once env redis uuid_number worker running owned w) 500

  rounds-Returned :
      (plan : List ((ℕ → Bool) × List ℕ)) (w : World)
      → Returned (rounds env redis uuid_number worker plan w)
  unfolding rounds
  rounds-Returned [] w = tt
  rounds-Returned ((running, owned) ∷ rest) w =
      continue-Ends (λ _. λ v. Unit {0}) (λ _. λ v. Unit {0}) (λ v. ⊥)
        (round env redis uuid_number worker running owned w)
        (λ _. rounds env redis uuid_number worker rest) (round-Returned running owned w)
        (λ _ v _. rounds-Returned rest v)

  -- Whichever calls fail, in whichever job or read, no error ends the worker's loop: it comes to all of
  -- its rounds.
  pub start-Returns :
      (ttl shard_count : ℕ) (plan : List ((ℕ → Bool) × List ℕ)) (w : World)
      → Ends
          (λ _. λ v. Unit {0})
          (λ v. ⊥)
          (start env redis uuid_number worker ttl shard_count plan w)
  unfolding start claim_available_shards
  start-Returns ttl shard_count plan w =
      continue-Ends (λ _. λ v. Unit {0}) (λ _. λ v. Unit {0}) (λ v. ⊥)
        (claim_from worker ttl 0 shard_count [] w) (λ _. rounds env redis uuid_number worker plan)
        (claim_from-Returned worker ttl 0 shard_count [] w) (λ _ v _. rounds-Returned plan v)
