-- ===== src/StreamQueue/Fresh.antt =====
-- `readShardMessages` of backend/src/redis/streamQueue.ts: which messages it hands out.
use mathlib.Core.List.{append-nil}
use event_relay.Base.{
  ℕ, zero, suc, ◌≤◌, ◌≡◌, refl, ◌∙◌, Bool, true, false, not, ◌&&◌, Bool-cases, ==_self, List, [],
  ◌∷◌, ◌++◌, map, select, take, length, All, All-imp, All-both, All-take, Text, text_eq,
  text_eq_self, inl, inr, arith,
}
use event_relay.Store.{World, Claim, StreamMessage, has_text, pure, recover, continue}
use event_relay.Store.Atomic.{Ends, attempt_rule}
use event_relay.StreamQueue.Entries.{ReadMessage, parse_raw_entries, written, read_job-published}
use event_relay.StreamQueue.Reads.{messages_read, read_shard_messages}
use event_relay.StreamQueue.Group.{
  is_claim_of, is_claimed, claim_by, is_new, read_one, read_each, raw_entry, with_new, or_nil,
  group_commands,
}

pub select-All : {A : Type 0} (p : A → Bool) (xs : List A) → All (λ x. p x ≡ true) (select p xs)
select-All p [] = tt
select-All p (x ∷ xs) = elim (Bool-cases (p x)) [
  | inl e ↦ rw e (e, select-All p xs)
  | inr e ↦ rw e (select-All p xs)
]

pub length-take-le : {A : Type 0} (n : ℕ) (xs : List A) → length (take n xs) ≤ n
length-take-le zero xs = omega arith
length-take-le (suc n) [] = omega arith
length-take-le (suc n) (x ∷ xs) = omega (arith, length-take-le n xs)

pub and_left : (a b : Bool) → a && not b ≡ true → a ≡ true
and_left a b h = ground arith

and_not : (a b : Bool) → a && not b ≡ true → b ≡ false
and_not a b h = ground arith

pub own_claim :
    (consumer : Text) (now : ℕ) (e : StreamMessage) → is_claim_of e (claim_by consumer now e) ≡ true
own_claim consumer now e = rw (text_eq_self e.stream_name, ==_self e.message_id) refl

-- The messages that a read takes are claimed after it.
taken-claimed :
    (consumer : Text) (now : ℕ) (taken : List StreamMessage) (claims : List Claim)
    → All (λ e. is_claimed (map (claim_by consumer now) taken ++ claims) e ≡ true) taken
taken-claimed consumer now [] claims = tt
taken-claimed consumer now (e ∷ es) claims = (
  rw (own_claim consumer now e) refl,
  All-imp (λ x. is_claimed (map (claim_by consumer now) es ++ claims) x ≡ true) _ es
      (λ x h. ground (arith, h)) (taken-claimed consumer now es claims),
)

-- A message as it is read, off a stream.
abbrev pub as_read : (ℕ → Text) → Text → StreamMessage → ReadMessage
as_read uuid_text stream e = record {
  message_id = e.message_id;
  stream_name = stream;
  fields = written uuid_text e.job;
}

-- `parseRawEntries` reads the entries of messages that `publish` added.
pub parse_raw_entries_all :
    (uuid_text : ℕ → Text) (stream : Text) (es : List StreamMessage)
    → parse_raw_entries stream (map (raw_entry uuid_text) es) ≡ map (as_read uuid_text stream) es
unfolding parse_raw_entries
parse_raw_entries_all uuid_text stream [] = refl
parse_raw_entries_all uuid_text stream (e ∷ es) =
    rw (read_job-published uuid_text e.stream_name e.job, parse_raw_entries_all uuid_text stream es)
      refl

messages_of_one :
    (uuid_text : ℕ → Text) (stream : Text) (es : List StreamMessage)
    → messages_read (or_nil uuid_text (with_new uuid_text stream es []))
      ≡ map (as_read uuid_text stream) es
messages_of_one uuid_text stream [] = refl
messages_of_one uuid_text stream (e ∷ es) =
    append-nil (parse_raw_entries stream (map (raw_entry uuid_text) (e ∷ es)))
    ∙ parse_raw_entries_all uuid_text stream (e ∷ es)

module _ (uuid_text : ℕ → Text) (stream consumer : Text) (count : ℕ) (w : World) where
  -- The jobs of at most `count` messages of the stream, none of which was handed out before, and all of
  -- which now are; and the entries are as they were.
  abbrev pub Fresh : List ReadMessage → World → Type 0
  Fresh messages v =
      (es : List StreamMessage) × (messages ≡ map (as_read uuid_text stream) es)
      × (length es ≤ count)
      × All
          (λ (e : StreamMessage).
            (text_eq e.stream_name stream ≡ true)
            × (is_claimed w.redis.claims e ≡ false)
            × (is_claimed v.redis.claims e ≡ true))
          es
      × (v.redis.entries ≡ w.redis.entries)
      × (v.db ≡ w.db)

  abbrev taken : List StreamMessage
  taken = take count (select (is_new stream w.redis) w.redis.entries)

  abbrev claims_after : List Claim
  claims_after = map (claim_by consumer w.now) taken ++ w.redis.claims

  taken-Fresh :
      All
        (λ (e : StreamMessage).
          (text_eq e.stream_name stream ≡ true)
          × (is_claimed w.redis.claims e ≡ false)
          × (is_claimed claims_after e ≡ true))
        taken
  taken-Fresh =
      All-imp
        (λ (e : StreamMessage).
          (is_new stream w.redis e ≡ true) × (is_claimed claims_after e ≡ true))
        _ taken (λ e h. (and_left _ _ h.0, and_not _ _ h.0, h.1))
        (All-both (λ e. is_new stream w.redis e ≡ true) (λ e. is_claimed claims_after e ≡ true)
          taken
          (All-take (λ e. is_new stream w.redis e ≡ true) count _
            (select-All (is_new stream w.redis) w.redis.entries))
          (taken-claimed consumer w.now taken w.redis.claims))

  -- On a consumer group as Redis documents it: whichever call fails, a read returns, with the jobs as
  -- they were published, at most `count` of them, and those of new messages only.
  pub read_shard_messages-Fresh :
      Ends Fresh (λ v. ⊥) (read_shard_messages (group_commands uuid_text) stream consumer count w)
  unfolding read_shard_messages group_commands read_each read_one
  read_shard_messages-Fresh =
      attempt_rule
        (λ r.
          Ends Fresh (λ v. ⊥)
            (recover (continue r (λ response. pure (messages_read response))) (pure [])))
        _ w.faults w (λ rest. ([], refl, omega arith, tt, refl, refl))
        (λ rest. elim (Bool-cases (has_text stream w.redis.groups && true)) [
          | inl t ↦ rw t (
            taken,
            messages_of_one uuid_text stream taken,
            length-take-le count _,
            taken-Fresh,
            refl,
            refl,
          )
          | inr t ↦ rw t ([], refl, omega arith, tt, refl, refl)
        ])
