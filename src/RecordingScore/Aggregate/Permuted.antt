-- ===== src/RecordingScore/Aggregate/Permuted.antt =====
-- Sums and numbers over lists in another order.
use mathlib.Core.List.{Permᴰ}
use sddiar.Base.{
  ℕ, ◌+◌, ◌≡◌, refl, ap, sym, ◌∙◌, Bool, Option, none, some, List, [], ◌∷◌, map, length, sum_of,
  keep_if, if◌then◌else◌, arith,
}
use sddiar.WordScores.Counts.{length-keep_if, sum_of-keep_if}
use sddiar.RecordingScore.Aggregate.{present, add_present, unless_empty}
use sddiar.RecordingScore.Aggregate.Present.{amount}

module _ {A : Type 0} where
  pub sum_of-Permᴰ : (size : A → ℕ) {xs ys : List A} → Permᴰ xs ys → sum_of size xs ≡ sum_of size ys
  sum_of-Permᴰ size Permᴰ.nil = refl
  sum_of-Permᴰ size (Permᴰ.cons e rest) = omega (arith, ap size e, sum_of-Permᴰ size rest)
  sum_of-Permᴰ size (Permᴰ.swap e f) = omega (arith, ap size e, ap size f)
  sum_of-Permᴰ size (Permᴰ.trans first second) = sum_of-Permᴰ size first ∙ sum_of-Permᴰ size second

  pub map-Permᴰ :
      {B : Type 0} (f : A → B) {xs ys : List A} → Permᴰ xs ys → Permᴰ (map f xs) (map f ys)
  map-Permᴰ f Permᴰ.nil = Permᴰ.nil
  map-Permᴰ f (Permᴰ.cons e rest) = Permᴰ.cons (ap f e) (map-Permᴰ f rest)
  map-Permᴰ f (Permᴰ.swap e g) = Permᴰ.swap (ap f e) (ap f g)
  map-Permᴰ f (Permᴰ.trans first second) = Permᴰ.trans (map-Permᴰ f first) (map-Permᴰ f second)

  -- What a list is worth, element by element, does not depend on its order.
  pub worth-Permᴰ :
      (worth : List A → ℕ) (size : A → ℕ)
      → ((xs : List A) → worth xs ≡ sum_of size xs)
      → {xs ys : List A} → Permᴰ xs ys
      → worth xs ≡ worth ys
  worth-Permᴰ worth size h {xs} {ys} p = h xs ∙ sum_of-Permᴰ size p ∙ sym (h ys)

module _ {A : Type 0} where
  pub length-sum_of : (xs : List A) → length xs ≡ sum_of (λ x. 1) xs
  length-sum_of [] = refl
  length-sum_of (x ∷ xs) = omega (arith, length-sum_of xs)

  pub unless_empty-cong :
      {B : Type 0} (pool : List A → B) (xs ys : List A)
      → length xs ≡ length ys
      → pool xs ≡ pool ys
      → unless_empty pool xs ≡ unless_empty pool ys
  unless_empty-cong pool [] [] h same = refl
  unless_empty-cong pool [] (y ∷ ys) h same = ground (arith, h)
  unless_empty-cong pool (x ∷ xs) [] h same = ground (arith, h)
  unless_empty-cong pool (x ∷ xs) (y ∷ ys) h same = ap some same

module _ {A : Type 0} where
  module _ {B : Type 0} (g : A → Option B) where
    sum_of-add_present-map :
        (size : B → ℕ) (x : Option B) (xs : List B)
        → sum_of size (add_present x xs) ≡ amount size x + sum_of size xs
    sum_of-add_present-map size none xs = omega arith
    sum_of-add_present-map size (some x) xs = refl

    sum_of-present-map :
        (size : B → ℕ) (xs : List A)
        → sum_of size (present (map g xs)) ≡ sum_of (λ x. amount size (g x)) xs
    sum_of-present-map size [] = refl
    sum_of-present-map size (x ∷ xs) =
        omega (
          arith,
          sum_of-add_present-map size (g x) (present (map g xs)),
          sum_of-present-map size xs,
        )

    length-present-map :
        (xs : List A) → length (present (map g xs)) ≡ sum_of (λ x. amount (λ y. 1) (g x)) xs
    length-present-map xs = length-sum_of (present (map g xs)) ∙ sum_of-present-map (λ y. 1) xs

    -- The sum of what is there
    pub sum_of-present-Permᴰ :
        (size : B → ℕ) {xs ys : List A}
        → Permᴰ xs ys
        → sum_of size (present (map g xs)) ≡ sum_of size (present (map g ys))
    sum_of-present-Permᴰ size =
        worth-Permᴰ (λ xs. sum_of size (present (map g xs))) (λ x. amount size (g x))
          (sum_of-present-map size)

    pub length-present-Permᴰ :
        {xs ys : List A} → Permᴰ xs ys → length (present (map g xs)) ≡ length (present (map g ys))
    length-present-Permᴰ =
        worth-Permᴰ (λ xs. length (present (map g xs))) (λ x. amount (λ y. 1) (g x))
          length-present-map

  -- Of what passes a test, the number and the sums
  module _ (test : A → Bool) where
    pub length-keep_if-Permᴰ :
        {xs ys : List A} → Permᴰ xs ys → length (keep_if test xs) ≡ length (keep_if test ys)
    length-keep_if-Permᴰ =
        worth-Permᴰ (λ xs. length (keep_if test xs)) (λ x. if test x then 1 else 0)
          (length-keep_if test)

    pub sum_of-keep_if-Permᴰ :
        (size : A → ℕ) {xs ys : List A}
        → Permᴰ xs ys
        → sum_of size (keep_if test xs) ≡ sum_of size (keep_if test ys)
    sum_of-keep_if-Permᴰ size =
        worth-Permᴰ (λ xs. sum_of size (keep_if test xs)) (λ x. if test x then size x else 0)
          (sum_of-keep_if test size)
