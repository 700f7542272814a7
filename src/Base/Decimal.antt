-- ===== src/Base/Decimal.antt =====
-- Numbers as decimal text, as a template literal or `toString` writes them, and read back.
use Prim.Native.Nat.{ℕ, zero, suc, ◌+◌, ◌-◌, ◌*◌, ◌/◌, ◌%◌, ◌<◌}
use mathlib.Core.Path.{◌≡◌, refl, ap, ◌∙◌, sym}
use mathlib.Core.Bool.{Bool, true, ◌&&◌}
use mathlib.Core.Logic.{inl, inr}
use mathlib.Core.List.{[], ◌∷◌, ◌++◌}
use mathlib.Core.Option.{Option, none, some}
use native.Mathlib.Omega.{arith}
use event_relay.Base.Tests.{ltb, leb, if◌then◌else◌, Bool-cases}
use event_relay.Base.Lists.{All, All-append}
use event_relay.Base.Texts.{Text}

abbrev pub is_digit : ℕ → Bool
is_digit c = leb b'0' c && leb c b'9'

-- Each round writes the last digit of what is left; `n` rounds are always enough.
decimal_fuel : ℕ → ℕ → Text
decimal_fuel zero n = []
decimal_fuel (suc fuel) n =
    let longer = decimal_fuel fuel (n / 10) ++ (b'0' + n % 10) ∷ [] in
    if ltb n 10 then (b'0' + n) ∷ [] else longer

unfoldable pub decimal : ℕ → Text
unfolding decimal_fuel
decimal n = decimal_fuel (suc n) n

-- The value of a row of digits.
unfoldable pub digits_value : ℕ → Text → ℕ
digits_value acc [] = acc
digits_value acc (c ∷ s) = digits_value (acc * 10 + (c - b'0')) s

-- The digits at the head of a text.
unfoldable pub leading_digits : Text → Text
leading_digits [] = []
leading_digits (c ∷ s) = let rest = leading_digits s in if is_digit c then c ∷ rest else []

abbrev pub value_of : Text → Option ℕ
value_of [] = none
value_of (c ∷ s) = some (digits_value 0 (c ∷ s))

-- `parseInt(text, 10)` on a text with no sign and no leading space; `none` is NaN.
unfoldable pub parse_int : Text → Option ℕ
parse_int s = value_of (leading_digits s)

digits_value-append :
    (acc : ℕ) (s : Text) (c : ℕ)
    → digits_value acc (s ++ c ∷ []) ≡ digits_value acc s * 10 + (c - b'0')
unfolding digits_value
digits_value-append acc [] c = refl
digits_value-append acc (d ∷ s) c = digits_value-append (acc * 10 + (d - b'0')) s c

decimal_fuel_value : (fuel n : ℕ) → n < fuel → digits_value 0 (decimal_fuel fuel n) ≡ n
unfolding decimal_fuel digits_value
decimal_fuel_value zero n h = elim h [ ]
decimal_fuel_value (suc fuel) n h = elim (Bool-cases (ltb n 10)) [
  | inl small ↦ rw small (omega arith)
  | inr large ↦ rw large (
      omega (
        arith,
        digits_value-append 0 (decimal_fuel fuel (n / 10)) (b'0' + n % 10),
        decimal_fuel_value fuel (n / 10) (ground arith),
      ))
]

decimal_fuel_digits : (fuel n : ℕ) → All (λ c. is_digit c ≡ true) (decimal_fuel fuel n)
unfolding decimal_fuel
decimal_fuel_digits zero n = tt
decimal_fuel_digits (suc fuel) n = elim (Bool-cases (ltb n 10)) [
  | inl small ↦ rw small (ground arith, tt)
  | inr large ↦ rw large (
      All-append (λ c. is_digit c ≡ true) (decimal_fuel fuel (n / 10)) _
        (decimal_fuel_digits fuel (n / 10)) (ground arith, tt))
]

-- Reading back gives the number.
pub digits_value-decimal : (n : ℕ) → digits_value 0 (decimal n) ≡ n
unfolding decimal
digits_value-decimal n = decimal_fuel_value (suc n) n (omega arith)

pub decimal_digits : (n : ℕ) → All (λ c. is_digit c ≡ true) (decimal n)
unfolding decimal
decimal_digits n = decimal_fuel_digits (suc n) n

pub decimal_injective : (m n : ℕ) → decimal m ≡ decimal n → m ≡ n
decimal_injective m n e =
    sym (digits_value-decimal m) ∙ (ap (digits_value 0) e ∙ digits_value-decimal n)

leading_digits-All : (s : Text) → All (λ c. is_digit c ≡ true) s → leading_digits s ≡ s
unfolding leading_digits
leading_digits-All [] h = refl
leading_digits-All (c ∷ s) h = rw (h.0, leading_digits-All s h.1)

snoc-cons : (s : Text) (c : ℕ) → (d : ℕ) × (t : Text) × (s ++ c ∷ [] ≡ d ∷ t)
snoc-cons [] c = (c, [], refl)
snoc-cons (d ∷ s) c = (d, s ++ c ∷ [], refl)

value_of_snoc : (s : Text) (c : ℕ) → value_of (s ++ c ∷ []) ≡ some (digits_value 0 (s ++ c ∷ []))
value_of_snoc s c = let (d, t, e) = snoc-cons s c in rw e

value_of-decimal : (n : ℕ) → value_of (decimal n) ≡ some (digits_value 0 (decimal n))
unfolding decimal decimal_fuel
value_of-decimal n = elim (Bool-cases (ltb n 10)) [
  | inl small ↦ rw small
  | inr large ↦ rw large (value_of_snoc (decimal_fuel n (n / 10)) (b'0' + n % 10))
]

-- `parseInt` reads back what `toString` wrote.
pub parse_int-decimal : (n : ℕ) → parse_int (decimal n) ≡ some n
unfolding parse_int
parse_int-decimal n =
    rw (
      leading_digits-All (decimal n) (decimal_digits n),
      value_of-decimal n,
      digits_value-decimal n,
    )
