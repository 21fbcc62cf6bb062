-- ===== src/Intervals/Coverage.antt =====
-- The instants that `coalesce` covers.
use sddiar.Base.{
  ℕ, ◌≤◌, ◌<◌, true, false, ◌||◌, ◌≡◌, List, [], ◌∷◌, ◌∙◌, All, arith, any-reverse_onto,
}
use sddiar.Base.Sort.{IsSorted, sort, any-sort, sort-IsSorted}
use sddiar.Intervals.{Interval, within, covers, le_pair, push, coalesce}

abbrev pub IsNonempty : Interval → Type 0
IsNonempty (start, end) = start < end

-- The newest merged interval starts no later than what comes next.
abbrev pub StartsBy : List Interval → Interval → Type 0
StartsBy [] x = Unit
StartsBy ((first, last) ∷ merged) (start, end) = first ≤ start

abbrev pub Follow : List Interval → List Interval → Type 0
Follow merged xs = All (StartsBy merged) xs

covers-push :
    (t : ℕ) (merged : List Interval) (x : Interval)
    → StartsBy merged x
    → covers t (push 0 merged x) ≡ (covers t merged || within t x)
unfolding push
covers-push t [] x h = ground arith
covers-push t ((first, last) ∷ merged) (start, end) h = ground arith

covers-push-le :
    (t gap : ℕ) (merged : List Interval) (x : Interval)
    → StartsBy merged x
    → (covers t merged || within t x) ≡ true
    → covers t (push gap merged x) ≡ true
unfolding push
covers-push-le t gap [] x h c = ground arith
covers-push-le t gap ((first, last) ∷ merged) (start, end) h c = ground arith

-- The order of the sorted list carries over to the newest merged interval.
starts-push :
    (gap : ℕ) (merged : List Interval) (x : Interval) (ys : List Interval)
    → StartsBy merged x
    → All (λ y. le_pair x y ≡ true) ys
    → Follow (push gap merged x) ys
unfolding push
starts-push gap merged x [] h below = tt
starts-push gap [] (a, b) ((c, d) ∷ ys) h below =
    (ground arith, starts-push gap [] (a, b) ys h below.1)
starts-push gap ((first, last) ∷ merged) (a, b) ((c, d) ∷ ys) h below =
    (ground arith, starts-push gap ((first, last) ∷ merged) (a, b) ys h below.1)

covers-coalesce :
    (t : ℕ) (merged xs : List Interval)
    → IsSorted le_pair xs
    → Follow merged xs
    → covers t (coalesce 0 merged xs) ≡ (covers t merged || covers t xs)
unfolding coalesce
covers-coalesce t merged [] sorted follow = any-reverse_onto (λ x. within t x) merged []
covers-coalesce t merged (x ∷ xs) sorted follow = ground (
  arith,
  covers-coalesce t (push 0 merged x) xs sorted.1 (starts-push 0 merged x xs follow.0 sorted.0),
  covers-push t merged x follow.0,
)

covers-coalesce-le :
    (t gap : ℕ) (merged xs : List Interval)
    → IsSorted le_pair xs
    → Follow merged xs
    → (covers t merged || covers t xs) ≡ true
    → covers t (coalesce gap merged xs) ≡ true
unfolding coalesce
covers-coalesce-le t gap merged [] sorted follow c =
    any-reverse_onto (λ x. within t x) merged [] ∙ c
covers-coalesce-le t gap merged (x ∷ xs) sorted follow c =
    covers-coalesce-le t gap (push gap merged x) xs sorted.1
      (starts-push gap merged x xs follow.0 sorted.0)
      (ground (arith, covers-push-le t gap merged x follow.0))

le_pair_total : (x y : Interval) → le_pair x y ≡ false → le_pair y x ≡ true
le_pair_total (a, b) (c, d) h = ground arith

le_pair_trans : (x y z : Interval) → le_pair x y ≡ true → le_pair y z ≡ true → le_pair x z ≡ true
le_pair_trans (a, b) (c, d) (e, f) h k = ground arith

pub sort-le_pair-IsSorted : (xs : List Interval) → IsSorted le_pair (sort le_pair xs)
sort-le_pair-IsSorted xs = sort-IsSorted le_pair le_pair_total le_pair_trans xs

Follow-nil : (xs : List Interval) → Follow [] xs
Follow-nil [] = tt
Follow-nil (x ∷ xs) = (tt, Follow-nil xs)

-- With no gap to bridge, joining the sorted intervals changes no instant.
pub covers-coalesce-sort :
    (t : ℕ) (xs : List Interval) → covers t (coalesce 0 [] (sort le_pair xs)) ≡ covers t xs
covers-coalesce-sort t xs =
    covers-coalesce t [] (sort le_pair xs) (sort-le_pair-IsSorted xs) (Follow-nil (sort le_pair xs))
    ∙ any-sort le_pair (λ x. within t x) xs

-- Whatever the gap, no instant is lost.
pub covers-coalesce-sort-le :
    (t gap : ℕ) (xs : List Interval)
    → covers t xs ≡ true
    → covers t (coalesce gap [] (sort le_pair xs)) ≡ true
covers-coalesce-sort-le t gap xs c =
    covers-coalesce-le t gap [] (sort le_pair xs) (sort-le_pair-IsSorted xs)
      (Follow-nil (sort le_pair xs)) (any-sort le_pair (λ x. within t x) xs ∙ c)
