-- ===== src/Scoring/SortedSet.antt =====
-- Python's `sorted(set(values))` of src/sddiar/evaluation.py ascends strictly.
use sddiar.Base.{ℕ, ◌≤◌, ◌<◌, List, [], ◌∷◌, leb, ◌==◌, arith, All, Bool-cases, inl, inr}
use sddiar.Base.Sort.{IsSorted, sort, sort-IsSorted, All-sort}
use sddiar.Scoring.{dedup_sorted, sorted_set}

abbrev pub Ascends : List ℕ → Type 0
Ascends [] = Unit
Ascends (x ∷ xs) = All (λ y. x < y) xs × Ascends xs

pub All-lt_trans : (a b : ℕ) (xs : List ℕ) → a ≤ b → All (λ y. b < y) xs → All (λ y. a < y) xs
All-lt_trans a b [] le h = tt
All-lt_trans a b (x ∷ xs) le h = (omega arith, All-lt_trans a b xs le h.1)

below_dedup_sorted :
    (x y : ℕ) (rest : List ℕ)
    → x < y
    → IsSorted leb (y ∷ rest)
    → All (λ z. x < z) (dedup_sorted (y ∷ rest))
unfolding dedup_sorted
below_dedup_sorted x y [] lt h = (lt, tt)
below_dedup_sorted x y (z ∷ rest) lt h =
    let next = below_dedup_sorted x z rest (ground arith) h.1 in
    elim (Bool-cases (y == z)) [ inl same ↦ rw same next | inr new ↦ rw new (lt, next) ]

dedup_sorted-Ascends : (xs : List ℕ) → IsSorted leb xs → Ascends (dedup_sorted xs)
unfolding dedup_sorted
dedup_sorted-Ascends [] h = tt
dedup_sorted-Ascends (x ∷ []) h = (tt, tt)
dedup_sorted-Ascends (x ∷ y ∷ rest) h = elim (Bool-cases (x == y)) [
  | inl same ↦ rw same (dedup_sorted-Ascends (y ∷ rest) h.1)
  | inr new ↦
      rw new (below_dedup_sorted x y rest (ground arith) h.1, dedup_sorted-Ascends (y ∷ rest) h.1)
]

pub sorted_set-Ascends : (xs : List ℕ) → Ascends (sorted_set xs)
unfolding sorted_set
sorted_set-Ascends xs =
    dedup_sorted-Ascends (sort leb xs)
      (sort-IsSorted leb (λ x y h. ground arith) (λ x y z h k. ground arith) xs)

dedup_sorted-All : (P : ℕ → Type 0) (xs : List ℕ) → All P xs → All P (dedup_sorted xs)
unfolding dedup_sorted
dedup_sorted-All P [] h = tt
dedup_sorted-All P (x ∷ []) h = h
dedup_sorted-All P (x ∷ y ∷ rest) (first, h) = elim (Bool-cases (x == y)) [
  | inl same ↦ rw same (dedup_sorted-All P (y ∷ rest) h)
  | inr new ↦ rw new (first, dedup_sorted-All P (y ∷ rest) h)
]

pub sorted_set-All : (P : ℕ → Type 0) (xs : List ℕ) → All P xs → All P (sorted_set xs)
unfolding sorted_set
sorted_set-All P xs h = dedup_sorted-All P (sort leb xs) (All-sort leb P xs h)
