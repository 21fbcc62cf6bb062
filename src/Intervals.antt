-- ===== src/Intervals.antt =====
-- Half-open intervals of microseconds, as the pairs of src/sddiar/segmentation.py and
-- src/sddiar/evaluation.py, with the set of instants that a list of them covers; and the loop by
-- which both modules join neighbours of a sorted list.
pub mod Coverage
pub mod Gaps
use sddiar.Base.{
  ℕ, ◌+◌, ◌<◌, ◌≤◌, max, All, Bool, ◌&&◌, ◌||◌, List, [], ◌∷◌, ltb, leb, ◌==◌, if◌then◌else◌, any,
  reverse_onto,
}

abbrev pub Interval : Type 0
Interval = ℕ × ℕ

abbrev pub within : ℕ → Interval → Bool
within t (start, end) = leb start t && ltb t end

-- Whether some interval holds the instant `t`: the set that a list stands for.
abbrev pub covers : ℕ → List Interval → Bool
covers t xs = any (λ x. within t x) xs

-- Python's order on pairs of integers.
abbrev pub le_pair : Interval → Interval → Bool
le_pair (a, b) (c, d) = ltb a c || (a == c && leb b d)

-- One round of the loops over `merged`, here newest first: the interval extends `merged[-1]`, or
-- is appended.
unfoldable pub push : ℕ → List Interval → Interval → List Interval
push gap [] x = x ∷ []
push gap ((first, last) ∷ merged) (start, end) =
    if leb start (last + gap)
    then (first, max last end) ∷ merged
    else (start, end) ∷ (first, last) ∷ merged

unfoldable pub coalesce : ℕ → List Interval → List Interval → List Interval
unfolding push reverse_onto
coalesce gap merged [] = reverse_onto merged []
coalesce gap merged (x ∷ xs) = coalesce gap (push gap merged x) xs

-- Ascending, each interval non-empty, and each gap longer than `gap`.
abbrev pub Beyond : ℕ → ℕ → List Interval → Type 0
Beyond gap bound [] = Unit
Beyond gap bound ((start, end) ∷ xs) = (bound + gap < start) × (start < end) × Beyond gap end xs

abbrev pub Separated : ℕ → List Interval → Type 0
Separated gap [] = Unit
Separated gap ((start, end) ∷ xs) = (start < end) × Beyond gap end xs

-- The intervals that do not end before they start.
abbrev pub AreForward : List Interval → Type 0
AreForward intervals = All (λ (x : Interval). x.0 ≤ x.1) intervals
