-- ===== src/Scoring.antt =====
-- src/sddiar/evaluation.py: the interval algebra of the scorer (`_merge_intervals`,
-- `_subtract_intervals`, `_apply_collar` on one channel) and `_inside_uem`. Times here have
-- passed the record checks, so they are naturals.
pub mod Regions
pub mod Collar
pub mod Forward
pub mod SortedSet
pub mod Boundaries
mod Tests
use sddiar.Base.{
  ℕ, ◌+◌, ◌-◌, max, min, Bool, ◌||◌, List, [], ◌∷◌, ◌++◌, Result, ok, err, evaluation, ◌>>=◌, ltb,
  leb, ◌==◌, if◌then◌else◌, reverse_onto, any,
}
use sddiar.Base.Sort.{sort}
use sddiar.Intervals.{Interval, within, covers, le_pair}

-- One round of the loop of `_merge_intervals`, on `merged` newest first.
abbrev pub merge_into : List Interval → Interval → List Interval
merge_into [] x = x ∷ []
merge_into ((first, last) ∷ merged) (start, end) =
    if ltb last start then (start, end) ∷ (first, last) ∷ merged else (first, max last end) ∷ merged

unfoldable pub merge_loop : List Interval → List Interval → Result (List Interval)
merge_loop merged [] = ok (reverse_onto merged [])
merge_loop merged ((start, end) ∷ rest) =
    let next = merge_loop (merge_into merged (start, end)) rest in
    if leb end start then err evaluation else next

unfoldable pub merge_intervals : List Interval → Result (List Interval)
merge_intervals intervals = merge_loop [] (sort le_pair intervals)

abbrev pub rest_of : ℕ → ℕ → List Interval
rest_of cursor end = if ltb cursor end then (cursor, end) ∷ [] else []

-- The inner loop of `_subtract_intervals` over `cuts`, with the test behind it; both `break`s
-- leave the loop at the cursor reached.
unfoldable pub cut_one : ℕ → ℕ → List Interval → List Interval
cut_one cursor end [] = rest_of cursor end
cut_one cursor end ((left, right) ∷ cuts) =
    let same = cut_one cursor end cuts in
    let piece : List Interval = if ltb cursor left then (cursor, min left end) ∷ [] else [] in
    let moved = max cursor right in
    let further = cut_one moved end cuts in
    if leb right cursor
    then same
    else if leb end left
    then rest_of cursor end
    else if leb end moved
    then piece ++ rest_of moved end
    else piece ++ further

-- The outer loop of `_subtract_intervals`
unfoldable pub cut_all : List Interval → List Interval → List Interval
cut_all [] cuts = []
cut_all ((start, end) ∷ base) cuts = cut_one start end cuts ++ cut_all base cuts

unfoldable pub subtract_intervals : List Interval → List Interval → Result (List Interval)
subtract_intervals base excluded = do cuts ← merge_intervals excluded; ok (cut_all base cuts)

-- `sorted(set(values))`: sorted, then without repetitions.
unfoldable pub dedup_sorted : List ℕ → List ℕ
dedup_sorted [] = []
dedup_sorted (x ∷ []) = x ∷ []
dedup_sorted (x ∷ y ∷ rest) =
    let others = dedup_sorted (y ∷ rest) in if x == y then others else x ∷ others

unfoldable pub sorted_set : List ℕ → List ℕ
sorted_set values = dedup_sorted (sort leb values)

-- `(max(0, point - collar_us), point + collar_us)` for each point
unfoldable pub exclusions : ℕ → List ℕ → List Interval
exclusions collar_us [] = []
exclusions collar_us (point ∷ points) =
    (point - collar_us, point + collar_us) ∷ exclusions collar_us points

-- `_apply_collar`, for the intervals of one channel
unfoldable pub apply_collar : List Interval → List ℕ → ℕ → Result (List Interval)
apply_collar intervals [] collar_us = ok intervals
apply_collar intervals (b ∷ boundaries) collar_us =
    if collar_us == 0
    then ok intervals
    else subtract_intervals intervals (exclusions collar_us (sorted_set (b ∷ boundaries)))
