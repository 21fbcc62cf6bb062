-- ===== src/Base/Sort.antt =====
-- Python's `sorted`, a stable sort, as insertion sort over a Boolean test `le` on the keys.
use sddiar.Base.{
  ℕ, ◌+◌, Bool, true, false, ◌||◌, ◌≡◌, List, [], ◌∷◌, arith, if◌then◌else◌, Bool-cases, inl, inr,
  All, any, sum_of,
}

module _ {ℓ} {A : Type ℓ} (le : A → A → Bool) where
  -- `x` comes before its equals, since the list is inserted from its end.
  unfoldable pub insert_sorted : A → List A → List A
  insert_sorted x [] = x ∷ []
  insert_sorted x (y ∷ ys) =
      let rest = insert_sorted x ys in if le x y then x ∷ y ∷ ys else y ∷ rest

  unfoldable pub sort : List A → List A
  unfolding insert_sorted
  sort [] = []
  sort (x ∷ xs) = insert_sorted x (sort xs)

  abbrev pub IsSorted : List A → Type 0
  IsSorted [] = Unit
  IsSorted (x ∷ xs) = All (λ y. le x y ≡ true) xs × IsSorted xs

-- What does not depend on the order of a list is kept by sorting it.
module _ {ℓ} {A : Type ℓ} (le : A → A → Bool) where
  any-insert_sorted :
      (test : A → Bool) (x : A) (ys : List A)
      → any test (insert_sorted le x ys) ≡ (test x || any test ys)
  unfolding insert_sorted
  any-insert_sorted test x [] = ground arith
  any-insert_sorted test x (y ∷ ys) = ground (arith, any-insert_sorted test x ys)

  pub any-sort : (test : A → Bool) (xs : List A) → any test (sort le xs) ≡ any test xs
  unfolding sort
  any-sort test [] = ground arith
  any-sort test (x ∷ xs) = ground (arith, any-insert_sorted test x (sort le xs), any-sort test xs)

  pub sum_of-insert_sorted :
      (size : A → ℕ) (x : A) (ys : List A)
      → sum_of size (insert_sorted le x ys) ≡ size x + sum_of size ys
  unfolding insert_sorted
  sum_of-insert_sorted size x [] = ground arith
  sum_of-insert_sorted size x (y ∷ ys) = ground (arith, sum_of-insert_sorted size x ys)

  pub sum_of-sort : (size : A → ℕ) (xs : List A) → sum_of size (sort le xs) ≡ sum_of size xs
  unfolding sort
  sum_of-sort size [] = ground arith
  sum_of-sort size (x ∷ xs) =
      ground (arith, sum_of-insert_sorted size x (sort le xs), sum_of-sort size xs)

  module _ {κ} (P : A → Type κ) where
    pub All-insert_sorted : (x : A) (ys : List A) → P x → All P ys → All P (insert_sorted le x ys)
    unfolding insert_sorted
    All-insert_sorted x [] px h = (px, tt)
    All-insert_sorted x (y ∷ ys) px h = elim (Bool-cases (le x y)) [
      | inl first ↦ rw first (px, h)
      | inr later ↦ rw later (h.0, All-insert_sorted x ys px h.1)
    ]

    pub All-sort : (xs : List A) → All P xs → All P (sort le xs)
    unfolding sort
    All-sort [] h = tt
    All-sort (x ∷ xs) h = All-insert_sorted x (sort le xs) h.0 (All-sort xs h.1)

  module _ (total : (x y : A) → le x y ≡ false → le y x ≡ true)
      (trans : (x y z : A) → le x y ≡ true → le y z ≡ true → le x z ≡ true) where
    below_trans :
        (x y : A) (zs : List A)
        → le x y ≡ true
        → All (λ z. le y z ≡ true) zs
        → All (λ z. le x z ≡ true) zs
    below_trans x y [] h hs = tt
    below_trans x y (z ∷ zs) h hs = (trans x y z h hs.0, below_trans x y zs h hs.1)

    insert_sorted-IsSorted :
        (x : A) (ys : List A) → IsSorted le ys → IsSorted le (insert_sorted le x ys)
    unfolding insert_sorted
    insert_sorted-IsSorted x [] s = (tt, tt)
    insert_sorted-IsSorted x (y ∷ ys) s = elim (Bool-cases (le x y)) [
      | inl first ↦ rw first ((first, below_trans x y ys first s.0), s)
      | inr later ↦ rw later (
        All-insert_sorted (λ z. le y z ≡ true) x ys (total x y later) s.0,
        insert_sorted-IsSorted x ys s.1,
      )
    ]

    pub sort-IsSorted : (xs : List A) → IsSorted le (sort le xs)
    unfolding sort
    sort-IsSorted [] = tt
    sort-IsSorted (x ∷ xs) = insert_sorted-IsSorted x (sort le xs) (sort-IsSorted xs)
