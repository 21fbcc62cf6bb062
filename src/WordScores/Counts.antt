-- ===== src/WordScores/Counts.antt =====
-- Counts and sums of the lists that scoring filters.
use Prim.Native.String.{String}
use sddiar.Base.{
  ℕ, ◌+◌, ◌≡◌, refl, inl, inr, Bool, true, false, ◌&&◌, Option, none, some, List, [], ◌∷◌, length,
  sum_of, keep_if, All, Bool-cases, if◌then◌else◌, arith,
}
use sddiar.WordScores.{count, is_some, add_assigned, assigned_of}

module _ {A : Type 0} where
  pub length-keep_if : (test : A → Bool) (xs : List A) → length (keep_if test xs) ≡ count test xs
  unfolding keep_if
  length-keep_if test [] = omega arith
  length-keep_if test (x ∷ xs) = ground (arith, length-keep_if test xs)

  pub sum_of-keep_if :
      (test : A → Bool) (size : A → ℕ) (xs : List A)
      → sum_of size (keep_if test xs) ≡ sum_of (λ x. if test x then size x else 0) xs
  unfolding keep_if
  sum_of-keep_if test size [] = omega arith
  sum_of-keep_if test size (x ∷ xs) = ground (arith, sum_of-keep_if test size xs)

  pub sum_of-cong :
      (f g : A → ℕ) (xs : List A) → All (λ x. f x ≡ g x) xs → sum_of f xs ≡ sum_of g xs
  sum_of-cong f g [] h = refl
  sum_of-cong f g (x ∷ xs) (first, rest) = omega (arith, first, sum_of-cong f g xs rest)

  pub count-keep_if :
      (test also : A → Bool) (xs : List A)
      → count also (keep_if test xs) ≡ count (λ x. test x && also x) xs
  unfolding keep_if
  count-keep_if test also [] = omega arith
  count-keep_if test also (x ∷ xs) = ground (arith, count-keep_if test also xs)

  pub sum_where-keep_if :
      (test also : A → Bool) (size : A → ℕ) (xs : List A)
      → sum_of (λ x. if also x then size x else 0) (keep_if test xs)
        ≡ sum_of (λ x. if test x && also x then size x else 0) xs
  unfolding keep_if
  sum_where-keep_if test also size [] = omega arith
  sum_where-keep_if test also size (x ∷ xs) = ground (arith, sum_where-keep_if test also size xs)

  pub keep_if-All : (test : A → Bool) (xs : List A) → All (λ x. test x ≡ true) (keep_if test xs)
  unfolding keep_if
  keep_if-All test [] = tt
  keep_if-All test (x ∷ xs) = elim (Bool-cases (test x)) [
    | inl kept ↦ rw kept (kept, keep_if-All test xs)
    | inr left ↦ rw left (keep_if-All test xs)
  ]

  -- A test of what was assigned, false where nothing was.
  abbrev pub with_label : (A × String → Bool) → A → Option String → Bool
  with_label test x none = false
  with_label test x (some label) = test (x, label)

  count-add_assigned :
      (test : A × String → Bool) (x : A) (label : Option String) (assigned : List (A × String))
      → count test (add_assigned x label assigned)
        ≡ (if with_label test x label then 1 else 0) + count test assigned
  count-add_assigned test x none assigned = omega arith
  count-add_assigned test x (some l) assigned = refl

  pub count-assigned_of :
      (test : A × String → Bool) (predict : A → Option String) (xs : List A)
      → count test (assigned_of predict xs) ≡ count (λ x. with_label test x (predict x)) xs
  count-assigned_of test predict [] = omega arith
  count-assigned_of test predict (x ∷ xs) = omega (
    arith,
    count-add_assigned test x (predict x) (assigned_of predict xs),
    count-assigned_of test predict xs,
  )

  length-add_assigned :
      (x : A) (label : Option String) (assigned : List (A × String))
      → length (add_assigned x label assigned) ≡ (if is_some label then 1 else 0) + length assigned
  length-add_assigned x none assigned = omega arith
  length-add_assigned x (some l) assigned = omega arith

  pub length-assigned_of :
      (predict : A → Option String) (xs : List A)
      → length (assigned_of predict xs) ≡ count (λ x. is_some (predict x)) xs
  length-assigned_of predict [] = omega arith
  length-assigned_of predict (x ∷ xs) = omega (
    arith,
    length-add_assigned x (predict x) (assigned_of predict xs),
    length-assigned_of predict xs,
  )
