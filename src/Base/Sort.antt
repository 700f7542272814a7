-- ===== src/Base/Sort.antt =====
-- `ORDER BY key ASC`, as an insertion sort that keeps the order of equal keys.
use Prim.Native.Nat.{ℕ, zero, suc, ◌≤◌}
use mathlib.Core.Logic.{inl, inr}
use mathlib.Core.Bool.{Bool}
use mathlib.Core.List.{List, [], ◌∷◌}
use native.Mathlib.Omega.{arith}
use event_relay.Base.Tests.{leb, if◌then◌else◌, Bool-cases}
use event_relay.Base.Lists.{All, select, take, All-select, All-take}

module _ {ℓ} {A : Type ℓ} (key : A → ℕ) where
  unfoldable pub insert_by : A → List A → List A
  insert_by x [] = x ∷ []
  insert_by x (y ∷ ys) = if leb (key x) (key y) then x ∷ y ∷ ys else y ∷ insert_by x ys

  unfoldable pub sort_by : List A → List A
  unfolding insert_by
  sort_by [] = []
  sort_by (x ∷ xs) = insert_by x (sort_by xs)

  -- Each item is followed by no smaller one.
  abbrev pub IsSorted : List A → Type 0
  IsSorted [] = Unit {0}
  IsSorted (x ∷ xs) = All (λ y. key x ≤ key y) xs × IsSorted xs

  All-insert_by : (P : A → Type 0) (x : A) (ys : List A) → P x → All P ys → All P (insert_by x ys)
  unfolding insert_by
  All-insert_by P x [] p h = (p, h)
  All-insert_by P x (y ∷ ys) p h = elim (Bool-cases (leb (key x) (key y))) [
    | inl e ↦ rw e (p, h)
    | inr e ↦ rw e (h.0, All-insert_by P x ys p h.1)
  ]

  All-le :
      (x y : A) (ys : List A)
      → key x ≤ key y
      → All (λ z. key y ≤ key z) ys
      → All (λ z. key x ≤ key z) ys
  All-le x y [] h k = tt
  All-le x y (z ∷ ys) h k = (omega (arith, k.0), All-le x y ys h k.1)

  insert_by-IsSorted : (x : A) (ys : List A) → IsSorted ys → IsSorted (insert_by x ys)
  unfolding insert_by
  insert_by-IsSorted x [] s = (tt, tt)
  insert_by-IsSorted x (y ∷ ys) s = elim (Bool-cases (leb (key x) (key y))) [
    | inl e ↦ rw e ((ground arith, All-le x y ys (ground arith) s.0), s)
    | inr e ↦
        rw e
          (All-insert_by (λ z. key y ≤ key z) x ys (ground arith) s.0, insert_by-IsSorted x ys s.1)
  ]

  pub sort_by-IsSorted : (xs : List A) → IsSorted (sort_by xs)
  unfolding sort_by
  sort_by-IsSorted [] = tt
  sort_by-IsSorted (x ∷ xs) = insert_by-IsSorted x (sort_by xs) (sort_by-IsSorted xs)

  pub All-sort_by : (P : A → Type 0) (xs : List A) → All P xs → All P (sort_by xs)
  unfolding sort_by
  All-sort_by P [] h = tt
  All-sort_by P (x ∷ xs) h = All-insert_by P x (sort_by xs) h.0 (All-sort_by P xs h.1)

  IsSorted-select : (p : A → Bool) (xs : List A) → IsSorted xs → IsSorted (select p xs)
  IsSorted-select p [] s = tt
  IsSorted-select p (x ∷ xs) s = elim (Bool-cases (p x)) [
    | inl e ↦ rw e (All-select (λ y. key x ≤ key y) p xs s.0, IsSorted-select p xs s.1)
    | inr e ↦ rw e (IsSorted-select p xs s.1)
  ]

  IsSorted-take : (n : ℕ) (xs : List A) → IsSorted xs → IsSorted (take n xs)
  IsSorted-take zero xs s = tt
  IsSorted-take (suc n) [] s = tt
  IsSorted-take (suc n) (x ∷ xs) s =
      (All-take (λ y. key x ≤ key y) n xs s.0, IsSorted-take n xs s.1)

  -- A query's rows: sorted, filtered and cut off, they are still in order.
  pub IsSorted-query :
      (n : ℕ) (p : A → Bool) (xs : List A) → IsSorted (take n (select p (sort_by xs)))
  IsSorted-query n p xs = IsSorted-take n _ (IsSorted-select p _ (sort_by-IsSorted xs))

  pub IsSorted-first : (n : ℕ) (xs : List A) → IsSorted xs → IsSorted (take n xs)
  IsSorted-first n xs s = IsSorted-take n xs s
