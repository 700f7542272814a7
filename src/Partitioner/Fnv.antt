-- ===== src/Partitioner/Fnv.antt =====
-- `hashKey` of backend/src/sharding/partitioner.ts beside the 32-bit FNV-1a hash.
use Prim.Native.Nat.{bit_xor}
use event_relay.Base.{ℕ, ◌+◌, ◌*◌, ◌%◌, ◌≤◌, ◌^◌, ◌<◌, ◌≡◌, refl, ap, ◌∙◌, [], ◌∷◌, Text, arith}
use event_relay.Base.Int.{ℤ, pos, negsuc, pos_part, neg_part, ◌+ℤ◌, +ℤ_size}
use event_relay.Partitioner.{
  word, to_uint32, to_int32, xor_int, shift_left, add_shifts, hash_loop, hash_key,
}

-- The reference: offset basis 2166136261, prime 16777619, arithmetic modulo 2 ^ 32.
unfoldable pub fnv1a : ℕ → Text → ℕ
fnv1a h [] = h
fnv1a h (c ∷ s) = fnv1a (bit_xor h c * 16777619 % word) s

to_uint32-to_int32 : (n : ℕ) → to_uint32 (to_int32 n) ≡ n % word
unfolding to_uint32 to_int32
to_uint32-to_int32 n = ground arith

to_uint32-lt : (a : ℤ) → to_uint32 a < word
unfolding to_uint32
to_uint32-lt (pos n) = omega arith
to_uint32-lt (negsuc n) = omega arith

to_uint32-+ℤ : (a b : ℤ) → to_uint32 (a +ℤ b) ≡ (to_uint32 a + to_uint32 b) % word
unfolding to_uint32 ◌+ℤ◌
to_uint32-+ℤ (pos m) (pos n) = ground arith
to_uint32-+ℤ (pos m) (negsuc n) = ground arith
to_uint32-+ℤ (negsuc m) (pos n) = ground arith
to_uint32-+ℤ (negsuc m) (negsuc n) = ground arith

to_uint32-shift_left : (a : ℤ) (k : ℕ) → to_uint32 (shift_left a k) ≡ to_uint32 a * 2 ^ k % word
unfolding shift_left
to_uint32-shift_left a k = to_uint32-to_int32 (to_uint32 a * 2 ^ k)

-- Five shifts and a sum are one multiplication by the prime.
to_uint32-add_shifts : (h : ℤ) → to_uint32 (add_shifts h) ≡ to_uint32 h * 16777619 % word
unfolding add_shifts
to_uint32-add_shifts h = simp (to_uint32-+ℤ, to_uint32-shift_left) (omega arith)

to_uint32-round :
    (h : ℤ) (c : ℕ)
    → to_uint32 (add_shifts (xor_int h c)) ≡ bit_xor (to_uint32 h) c * 16777619 % word
unfolding xor_int
to_uint32-round h c =
    omega (arith, to_uint32-add_shifts (xor_int h c), to_uint32-to_int32 (bit_xor (to_uint32 h) c))

hash_loop-fnv1a : (h : ℤ) (s : Text) → to_uint32 (hash_loop h s) ≡ fnv1a (to_uint32 h) s
unfolding hash_loop fnv1a
hash_loop-fnv1a h [] = refl
hash_loop-fnv1a h (c ∷ s) =
    hash_loop-fnv1a (add_shifts (xor_int h c)) s ∙ ap (λ x. fnv1a x s) (to_uint32-round h c)

-- `hashKey`, with its signed shifts and sums, is the 32-bit FNV-1a hash of the key's code units.
pub hash_key-fnv1a : (key : Text) → hash_key key ≡ fnv1a 2166136261 key
unfolding hash_key
hash_key-fnv1a key = hash_loop-fnv1a (pos 0x811c9dc5) key ∙ ap (λ x. fnv1a x key) start
  where
    start : to_uint32 (pos 0x811c9dc5) ≡ 2166136261
    start = unfold to_uint32 in refl

pub hash_key-lt : (key : Text) → hash_key key < word
unfolding hash_key
hash_key-lt key = to_uint32-lt (hash_loop (pos 0x811c9dc5) key)

to_int32_size : (n : ℕ) → pos_part (to_int32 n) + neg_part (to_int32 n) ≤ 2 ^ 31
unfolding to_int32
to_int32_size n = ground arith

-- After any round of the loop the sum is below 2 ^ 53 in size, so the source's doubles hold it
-- exactly.
pub hash_round_exact :
    (h : ℤ) (c : ℕ) → let sum = add_shifts (xor_int h c) in pos_part sum + neg_part sum < 2 ^ 53
unfolding add_shifts xor_int shift_left
hash_round_exact h c = omega (arith, +ℤ_size, to_int32_size)
