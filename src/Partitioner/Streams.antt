-- ===== src/Partitioner/Streams.antt =====
-- The names of the shard streams, and where a key goes.
use event_relay.Base.{
  ℕ, zero, suc, ◌+◌, ◌%◌, ◌<◌, ◌≡◌, refl, ap, ◌∙◌, Option, none, some, [], ◌∷◌, ◌++◌, Text, codes,
  length, get_elem?, arith, ◌⊎◌, inl, inr, or_null,
}
use event_relay.Base.Decimal.{decimal_injective}
use event_relay.Partitioner.{
  hash_key, shard_stream, get_shard_stream_name, shard_streams_from, get_all_shard_streams,
}

get_elem?-shard_streams_from :
    (base : Text) (i rounds k : ℕ)
    → k < rounds
    → get_elem? (shard_streams_from base i rounds) k ≡ some (shard_stream base (i + k))
unfolding shard_streams_from
get_elem?-shard_streams_from base i zero k h = absurd (omega arith)
get_elem?-shard_streams_from base i (suc rounds) zero h =
    ap (λ n. some (shard_stream base n)) (omega arith)
get_elem?-shard_streams_from base i (suc rounds) (suc k) h =
    get_elem?-shard_streams_from base (i + 1) rounds k (omega arith)
    ∙ ap (λ n. some (shard_stream base n)) (omega arith)

length-shard_streams_from :
    (base : Text) (i rounds : ℕ) → length (shard_streams_from base i rounds) ≡ rounds
unfolding shard_streams_from
length-shard_streams_from base i zero = refl
length-shard_streams_from base i (suc rounds) =
    ap suc (length-shard_streams_from base (i + 1) rounds)

-- `getAllShardStreams` lists one stream for each shard: position `i` holds shard `i`'s.
pub get_all_shard_streams_lem :
    (shard_count : ℕ) (base : Text) (i : ℕ)
    → i < shard_count
    → (get_elem? (get_all_shard_streams shard_count base) i ≡ some (shard_stream base i))
      × (length (get_all_shard_streams shard_count base) ≡ shard_count)
unfolding get_all_shard_streams
get_all_shard_streams_lem shard_count base i h = (
  get_elem?-shard_streams_from base 0 shard_count i h
      ∙ ap (λ n. some (shard_stream base n)) (omega arith),
  length-shard_streams_from base 0 shard_count,
)

append_left : (p : Text) {s t : Text} → p ++ s ≡ p ++ t → s ≡ t
append_left [] e = e
append_left (c ∷ p) e = append_left p (cc)

-- Different shards have different streams.
pub shard_stream_injective :
    (base : Text) (i j : ℕ) → shard_stream base i ≡ shard_stream base j → i ≡ j
unfolding shard_stream
shard_stream_injective base i j e =
    decimal_injective i j (append_left (codes ":shard:") (append_left base e))

-- A delivery goes to the base stream if it has no ordering key (or the empty one), and otherwise to
-- one of the streams that `getAllShardStreams` lists, at the position of the key's hash.
pub get_shard_stream_name_lem :
    (shard_count : ℕ) (base : Text) (key : Option Text)
    → 0 < shard_count
    → ((or_null key ≡ none) × (get_shard_stream_name shard_count key base ≡ base))
      ⊎ ((k : Text) × (or_null key ≡ some k)
          × (hash_key k % shard_count < shard_count)
          × (get_elem? (get_all_shard_streams shard_count base) (hash_key k % shard_count)
              ≡ some (get_shard_stream_name shard_count key base)))
unfolding get_shard_stream_name
get_shard_stream_name_lem n base none h = inl (refl, refl)
get_shard_stream_name_lem n base (some []) h = inl (refl, refl)
get_shard_stream_name_lem n base (some (c ∷ s)) h = inr (
  c ∷ s,
  refl,
  omega arith,
  (get_all_shard_streams_lem n base (hash_key (c ∷ s) % n) (omega arith)).0,
)
