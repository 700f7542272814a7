-- ===== src/Partitioner.antt =====
-- backend/src/sharding/partitioner.ts: the shard of an ordering key.
pub mod Fnv
pub mod Streams
mod Tests
use Prim.Native.Nat.{bit_xor}
use event_relay.Base.{
  ℕ, zero, suc, ◌+◌, ◌-◌, ◌*◌, ◌%◌, ◌^◌, ltb, if◌then◌else◌, Option, none, some, List, [], ◌∷◌,
  ◌++◌, Text, codes,
}
use event_relay.Base.Int.{ℤ, pos, negsuc, ◌+ℤ◌}
use event_relay.Base.Decimal.{decimal}

abbrev pub word : ℕ
word = 2 ^ 32

-- ToUint32: what a bitwise operator, or `>>> 0`, reads of a number.
unfoldable pub to_uint32 : ℤ → ℕ
to_uint32 (pos n) = n % word
to_uint32 (negsuc n) = word - 1 - n % word

-- ToInt32: the signed number that a bitwise operator returns for a word.
unfoldable pub to_int32 : ℕ → ℤ
to_int32 n = if ltb (n % word) (2 ^ 31) then pos (n % word) else negsuc (word - 1 - n % word)

-- `a ^ c` and `a << k` on numbers.
unfoldable pub xor_int : ℤ → ℕ → ℤ
xor_int a c = to_int32 (bit_xor (to_uint32 a) c)

unfoldable pub shift_left : ℤ → ℕ → ℤ
shift_left a k = to_int32 (to_uint32 a * 2 ^ k)

-- The second line of the loop: `hash += (hash << 1) + … + (hash << 24)`, on integers.
unfoldable pub add_shifts : ℤ → ℤ
add_shifts h =
    h +ℤ (shift_left h 1 +ℤ shift_left h 4 +ℤ shift_left h 7 +ℤ shift_left h 8 +ℤ shift_left h 24)

unfoldable pub hash_loop : ℤ → Text → ℤ
hash_loop h [] = h
hash_loop h (c ∷ s) = hash_loop (add_shifts (xor_int h c)) s

unfoldable pub hash_key : Text → ℕ
hash_key key = to_uint32 (hash_loop (pos 0x811c9dc5) key)

-- `${baseStream}:shard:${i}`.
unfoldable pub shard_stream : Text → ℕ → Text
shard_stream base i = base ++ (codes ":shard:" ++ decimal i)

-- `if (!orderingKey) return baseStream`: null and the empty text are both falsy.
unfoldable pub get_shard_stream_name : ℕ → Option Text → Text → Text
get_shard_stream_name shard_count none base = base
get_shard_stream_name shard_count (some []) base = base
get_shard_stream_name shard_count (some (c ∷ s)) base =
    shard_stream base (hash_key (c ∷ s) % shard_count)

-- The loop of `getAllShardStreams`, from shard `i` on with `rounds` to go.
unfoldable pub shard_streams_from : Text → ℕ → ℕ → List Text
shard_streams_from base i zero = []
shard_streams_from base i (suc rounds) =
    shard_stream base i ∷ shard_streams_from base (i + 1) rounds

unfoldable pub get_all_shard_streams : ℕ → Text → List Text
unfolding shard_streams_from
get_all_shard_streams shard_count base = shard_streams_from base 0 shard_count

-- `new StreamPartitioner(8)`.
abbrev pub default_shard_count : ℕ
default_shard_count = 8
