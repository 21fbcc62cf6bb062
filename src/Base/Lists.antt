-- ===== src/Base/Lists.antt =====
-- Lists measured by native numbers, and predicates on all elements of a list.
use Prim.Native.Nat.{ℕ, zero, suc, ◌+◌}
use mathlib.Core.Path.{◌≡◌}
use mathlib.Core.Bool.{Bool, false, ◌||◌}
use mathlib.Core.Option.{Option, none, some}
use mathlib.Core.List.{List, [], ◌∷◌, ◌++◌}
use native.Mathlib.Omega.{arith}
use sddiar.Base.Tests.{if◌then◌else◌}

module _ {ℓ} {A : Type ℓ} where
  abbrev pub length : List A → ℕ
  length [] = 0
  length (x ∷ xs) = suc (length xs)

  abbrev pub get_elem? : List A → ℕ → Option A
  get_elem? [] i = none
  get_elem? (x ∷ xs) zero = some x
  get_elem? (x ∷ xs) (suc i) = get_elem? xs i

  -- A list comprehension with a test, in the order of the list.
  unfoldable pub keep_if : (A → Bool) → List A → List A
  keep_if test [] = []
  keep_if test (x ∷ xs) = let rest = keep_if test xs in if test x then x ∷ rest else rest

  pub length-append : (xs ys : List A) → length (xs ++ ys) ≡ length xs + length ys
  length-append [] ys = omega arith
  length-append (x ∷ xs) ys = omega (arith, length-append xs ys)

-- A predicate by recursion computes to tuples, which the tactics read and build.
module _ {ℓ κ} {A : Type ℓ} (P : A → Type κ) where
  abbrev pub All : List A → Type κ
  All [] = Unit
  All (x ∷ xs) = P x × All xs

module _ {ℓ κ} {A : Type ℓ} (P : A → Type κ) where
  pub All-append : (xs ys : List A) → All P xs → All P ys → All P (xs ++ ys)
  All-append [] ys hx hy = hy
  All-append (x ∷ xs) ys hx hy = (hx.0, All-append xs ys hx.1 hy)

module _ {ℓ κ} {A : Type ℓ} (P : A → Type κ) where
  pub All_of : ((x : A) → P x) → (xs : List A) → All P xs
  All_of f [] = tt
  All_of f (x ∷ xs) = (f x, All_of f xs)

module _ {ℓ κ μ} {A : Type ℓ} (P : A → Type κ) (Q : A → Type μ) where
  pub All_imp : (xs : List A) → ((x : A) → P x → Q x) → All P xs → All Q xs
  All_imp [] f h = tt
  All_imp (x ∷ xs) f (first, h) = (f x first, All_imp xs f h)

module _ {ℓ} {A : Type ℓ} where
  -- `any(test(x) for x in xs)`
  abbrev pub any : (A → Bool) → List A → Bool
  any test [] = false
  any test (x ∷ xs) = test x || any test xs

  -- `sum(size(x) for x in xs)`
  abbrev pub sum_of : (A → ℕ) → List A → ℕ
  sum_of size [] = 0
  sum_of size (x ∷ xs) = size x + sum_of size xs

  pub any-append :
      (test : A → Bool) (xs ys : List A) → any test (xs ++ ys) ≡ (any test xs || any test ys)
  any-append test [] ys = ground arith
  any-append test (x ∷ xs) ys = ground (arith, any-append test xs ys)

  pub sum_of-append :
      (size : A → ℕ) (xs ys : List A) → sum_of size (xs ++ ys) ≡ sum_of size xs + sum_of size ys
  sum_of-append size [] ys = omega arith
  sum_of-append size (x ∷ xs) ys = omega (arith, sum_of-append size xs ys)

module _ {ℓ} {A : Type ℓ} where
  -- The list read back to front, before `acc`.
  unfoldable pub reverse_onto : List A → List A → List A
  reverse_onto [] acc = acc
  reverse_onto (x ∷ xs) acc = reverse_onto xs (x ∷ acc)

  pub any-reverse_onto :
      (test : A → Bool) (xs acc : List A)
      → any test (reverse_onto xs acc) ≡ (any test xs || any test acc)
  unfolding reverse_onto
  any-reverse_onto test [] acc = ground arith
  any-reverse_onto test (x ∷ xs) acc = ground (arith, any-reverse_onto test xs (x ∷ acc))

  pub sum_of-reverse_onto :
      (size : A → ℕ) (xs acc : List A)
      → sum_of size (reverse_onto xs acc) ≡ sum_of size xs + sum_of size acc
  unfolding reverse_onto
  sum_of-reverse_onto size [] acc = omega arith
  sum_of-reverse_onto size (x ∷ xs) acc = omega (arith, sum_of-reverse_onto size xs (x ∷ acc))
