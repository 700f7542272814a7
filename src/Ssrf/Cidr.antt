-- ===== src/Ssrf/Cidr.antt =====
-- `isPrivateOrReservedIp` of backend/src/security/ssrfValidator.ts: the IPv4 addresses, as blocks.
use event_relay.Base.{
  ℕ, ◌+◌, ◌-◌, ◌*◌, ◌/◌, ◌^◌, ◌<◌, ◌≡◌, refl, sym, ap, ◌∙◌, ◌↔◌, inl, inr, true, false, Option,
  some, List, [], ◌∷◌, ◌++◌, map, Text, codes, Any, All, all, arith, ◌==◌, Bool-cases, text_eq,
  text_eq_iff,
}
use event_relay.Base.Decimal.{is_digit, decimal, decimal_digits, digits_value, digits_value-decimal}
use event_relay.Ssrf.{
  Net, split_dots, to_number, blocked_octets, blocked_ipv4, is_private_fuel,
  is_private_or_reserved_ip,
}

-- A block in CIDR notation: its first two octets, as a number, and the length of the prefix.
abbrev pub Block : Type 0
Block = ℕ × ℕ

-- The address is in the block: they have the same prefix. Prefixes here have at most 16 bits.
abbrev pub InBlock : ℕ → Block → Type 0
InBlock address block = address / 2 ^ 16 / 2 ^ (16 - block.1) ≡ block.0 / 2 ^ (16 - block.1)

-- 0.0.0.0/8, 10.0.0.0/8, 127.0.0.0/8, 169.254.0.0/16, 172.16.0.0/12, 192.168.0.0/16, 224.0.0.0/4,
-- 240.0.0.0/4.
abbrev pub reserved_blocks : List Block
reserved_blocks =
    (0, 8)
    ∷ (10 * 256, 8)
    ∷ (127 * 256, 8)
    ∷ (169 * 256 + 254, 16)
    ∷ (172 * 256 + 16, 12)
    ∷ (192 * 256 + 168, 16)
    ∷ (224 * 256, 4)
    ∷ (240 * 256, 4)
    ∷ []

-- `a.b.c.d`, and its 32-bit number.
abbrev pub dotted : ℕ → ℕ → ℕ → ℕ → Text
dotted a b c d = decimal a ++ b'.' ∷ (decimal b ++ b'.' ∷ (decimal c ++ b'.' ∷ decimal d))

abbrev pub address_of : ℕ → ℕ → ℕ → ℕ → ℕ
address_of a b c d = a * 16777216 + b * 65536 + c * 256 + d

split_dots-digits : (s : Text) → All (λ c. is_digit c ≡ true) s → split_dots s ≡ s ∷ []
unfolding split_dots
split_dots-digits [] h = refl
split_dots-digits (c ∷ s) (e, h) =
    let other : (c == b'.') ≡ false = ground arith in rw (other, split_dots-digits s h)

split_dots-append :
    (s t : Text) → All (λ c. is_digit c ≡ true) s → split_dots (s ++ b'.' ∷ t) ≡ s ∷ split_dots t
unfolding split_dots
split_dots-append [] t h = refl
split_dots-append (c ∷ s) t (e, h) =
    let other : (c == b'.') ≡ false = ground arith in rw (other, split_dots-append s t h)

split_dots-dotted :
    (a b c d : ℕ) → split_dots (dotted a b c d) ≡ decimal a ∷ decimal b ∷ decimal c ∷ decimal d ∷ []
split_dots-dotted a b c d = rw (
  split_dots-append (decimal a) _ (decimal_digits a),
  split_dots-append (decimal b) _ (decimal_digits b),
  split_dots-append (decimal c) _ (decimal_digits c),
  split_dots-digits (decimal d) (decimal_digits d),
)

all_digits : (s : Text) → All (λ c. is_digit c ≡ true) s → all is_digit s ≡ true
all_digits [] h = refl
all_digits (c ∷ s) (e, h) = rw (e, all_digits s h)

to_number-decimal : (n : ℕ) → to_number (decimal n) ≡ some n
unfolding to_number
to_number-decimal n = rw (all_digits (decimal n) (decimal_digits n), digits_value-decimal n)

octets-dotted :
    (a b c d : ℕ)
    → map to_number (split_dots (dotted a b c d)) ≡ some a ∷ some b ∷ some c ∷ some d ∷ []
octets-dotted a b c d = rw (
  split_dots-dotted a b c d,
  to_number-decimal a,
  to_number-decimal b,
  to_number-decimal c,
  to_number-decimal d,
)

-- The first two octets of an address.
prefix_of : (a b c d : ℕ) → c < 256 → d < 256 → address_of a b c d / 65536 ≡ a * 256 + b
prefix_of a b c d hc hd = omega arith

blocked_octets_iff :
    (a b : ℕ) (ip : Text)
    → a < 256
    → b < 256
    → text_eq ip (codes "255.255.255.255") ≡ false
    → (blocked_octets a b ip ≡ true)
      ↔ Any
          (λ block. (a * 256 + b) / 2 ^ (16 - block.1) ≡ block.0 / 2 ^ (16 - block.1))
          reserved_blocks
unfolding blocked_octets
blocked_octets_iff a b ip ha hb e = ground arith

-- The test for the broadcast address adds nothing to 240.0.0.0/4.
broadcast_octet :
    (a b c d : ℕ) → text_eq (dotted a b c d) (codes "255.255.255.255") ≡ true → a ≡ 255
broadcast_octet a b c d e =
    first_octet
      (sym (octets-dotted a b c d) ∙ (ap (λ s. map to_number (split_dots s)) same ∙ of_broadcast))
  where
    same : dotted a b c d ≡ codes "255.255.255.255"
    same = (text_eq_iff _ _).0 e

    of_broadcast :
        map to_number (split_dots (codes "255.255.255.255"))
        ≡ some 255 ∷ some 255 ∷ some 255 ∷ some 255 ∷ []
    of_broadcast = unfold split_dots in unfold to_number in unfold digits_value in refl

    first_octet : {x y : ℕ} {xs ys : List (Option ℕ)} → some x ∷ xs ≡ some y ∷ ys → x ≡ y
    first_octet h = cc

broadcast_iff :
    (a b : ℕ) (ip : Text)
    → a < 256
    → b < 256
    → a ≡ 255
    → text_eq ip (codes "255.255.255.255") ≡ true
    → (blocked_octets a b ip ≡ true)
      ↔ Any
          (λ block. (a * 256 + b) / 2 ^ (16 - block.1) ≡ block.0 / 2 ^ (16 - block.1))
          reserved_blocks
unfolding blocked_octets
broadcast_iff a b ip ha hb e h = ground arith

-- If Node takes the dotted form of four octets for an IPv4 address, the code takes it for private or
-- reserved exactly if its 32-bit number is in one of the reserved blocks.
pub is_private_dotted :
    (net : Net) (a b c d : ℕ)
    → a < 256
    → b < 256
    → c < 256
    → d < 256
    → net.is_ipv4 (dotted a b c d) ≡ true
    → (is_private_or_reserved_ip net (dotted a b c d) ≡ true)
      ↔ Any (InBlock (address_of a b c d)) reserved_blocks
unfolding is_private_or_reserved_ip is_private_fuel blocked_ipv4
is_private_dotted net a b c d ha hb hc hd e =
    rw (e, octets-dotted a b c d, prefix_of a b c d hc hd)
      (elim (Bool-cases (text_eq (dotted a b c d) (codes "255.255.255.255"))) [
        | inl same ↦ broadcast_iff a b _ ha hb (broadcast_octet a b c d same) same
        | inr other ↦ blocked_octets_iff a b _ ha hb other
      ])
