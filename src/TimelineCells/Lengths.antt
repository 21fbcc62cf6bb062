-- ===== src/TimelineCells/Lengths.antt =====
-- The cells of a timeline are as long as its scoring intervals.
use Prim.Native.String.{String}
use sddiar.Base.{
  ℕ, ◌+◌, ◌-◌, ◌≤◌, ◌≡◌, ◌∙◌, inl, inr, true, List, [], ◌∷◌, ◌++◌, All, sum_of, sum_of-append,
  Bool-cases, leb, ◌==◌, arith,
}
use sddiar.Base.Sort.{sort, sum_of-sort, All-sort}
use sddiar.Intervals.{Interval, AreForward}
use sddiar.Scoring.{sorted_set}
use sddiar.Scoring.SortedSet.{Ascends, sorted_set-Ascends, sorted_set-All}
use sddiar.DiarizationError.{duration_of, str_le}
use sddiar.TimelineCells.{
  RttmRecord, on_reference, on_hypothesis, Event, Active, apply_at, events_of, interval_events,
  cells_from, interval_cells, all_intervals_cells, on_channel, channel_cells, timeline_cells,
}
use sddiar.TimelineCells.Tiling.{times_of, AreInside, AreInside-events_of, AreInside-append}
use sddiar.TimelineCells.Whole.{is_among, is_among-sorted_set, head_first}

abbrev pub length_of : Interval → ℕ
length_of x = x.1 - x.0

-- The length of all intervals of all channels
abbrev pub total_length : List (String × List Interval) → ℕ
total_length channels = sum_of (λ (c : String × List Interval). sum_of length_of c.1) channels

abbrev last_of : ℕ → List ℕ → ℕ
last_of a [] = a
last_of a (b ∷ times) = last_of b times

module _ (upper : String → String) where
  sum_of-cells_from :
      (events : List Event) (active : Active) (a : ℕ) (times : List ℕ)
      → Ascends (a ∷ times)
      → sum_of duration_of (cells_from upper events active (a ∷ times)) + a ≡ last_of a times
  unfolding cells_from
  sum_of-cells_from events active a [] h = omega arith
  sum_of-cells_from events active a (b ∷ times) ((lt, above), h) =
      let rest = sum_of-cells_from events (apply_at a events active) b times h in
      elim (Bool-cases (leb b a)) [
        | inl reached ↦ ground (arith, reached, lt)
        | inr ahead ↦ rw ahead (omega (arith, rest, lt))
      ]

last_of-inside :
    (start end a : ℕ) (times : List ℕ) → AreInside start end (a ∷ times) → last_of a times ≤ end
last_of-inside start end a [] (first, h) = first.1
last_of-inside start end a (b ∷ times) (first, h) = last_of-inside start end b times h

below_last : (a : ℕ) (times : List ℕ) → Ascends (a ∷ times) → a ≤ last_of a times
below_last a [] h = omega arith
below_last a (b ∷ times) ((lt, above), h) = omega (arith, lt, below_last b times h)

among_last :
    (x a : ℕ) (times : List ℕ)
    → Ascends (a ∷ times)
    → is_among x (a ∷ times) ≡ true
    → x ≤ last_of a times
among_last x a [] h found = ground (arith, found)
among_last x a (b ∷ times) (above, h) found = elim (Bool-cases (a == x)) [
  | inl first ↦ let low = below_last a (b ∷ times) (above, h) in ground (arith, first, low)
  | inr later ↦ among_last x b times h (ground (arith, found, later))
]

module _ (upper : String → String) where
  ordered_sum :
      (start end : ℕ) (events : List Event) (active : Active) (ordered : List ℕ)
      → Ascends ordered
      → AreInside start end ordered
      → is_among start ordered ≡ true
      → is_among end ordered ≡ true
      → sum_of duration_of (cells_from upper events active ordered) ≡ length_of (start, end)
  ordered_sum start end events active [] h inside first last = cc
  ordered_sum start end events active (a ∷ times) h inside first last =
      let whole = sum_of-cells_from upper events active a times h in
      let low = head_first a start times h.0 first in
      let high = last_of-inside start end a times inside in
      let top = among_last end a times h last in ground (arith, whole, low, high, top, inside.0.0)

  sum_of-interval_cells :
      (refs hyps : List RttmRecord) (start end : ℕ)
      → start ≤ end
      → sum_of duration_of (interval_cells upper refs hyps (start, end)) ≡ length_of (start, end)
  unfolding interval_cells
  sum_of-interval_cells refs hyps start end le =
      let xs = events_of on_reference start end refs in
      let ys = events_of on_hypothesis start end hyps in
      let times = start ∷ end ∷ times_of (xs ++ ys) in
      let inside =
        AreInside-append start end xs ys (AreInside-events_of on_reference start end refs)
          (AreInside-events_of on_hypothesis start end hyps) in
      ordered_sum start end (interval_events refs hyps (start, end)) _ (sorted_set times)
        (sorted_set-Ascends times)
        (sorted_set-All (λ x. (start ≤ x) × (x ≤ end)) times
          ((omega arith, le), ((le, omega arith), inside)))
        (is_among-sorted_set start times ∙ ground arith)
        (is_among-sorted_set end times ∙ ground arith)

  sum_of-all_intervals_cells :
      (refs hyps : List RttmRecord) (intervals : List Interval)
      → AreForward intervals
      → sum_of duration_of (all_intervals_cells upper refs hyps intervals)
        ≡ sum_of length_of intervals
  sum_of-all_intervals_cells refs hyps [] h = omega arith
  sum_of-all_intervals_cells refs hyps ((start, end) ∷ intervals) (le, h) =
      let first = sum_of-interval_cells refs hyps start end le in
      let rest = sum_of-all_intervals_cells refs hyps intervals h in
      sum_of-append duration_of (interval_cells upper refs hyps (start, end))
        (all_intervals_cells upper refs hyps intervals)
      ∙ omega (arith, first, rest)

  sum_of-channel_cells :
      (reference hypothesis : List RttmRecord) (channels : List (String × List Interval))
      → All (λ (c : String × List Interval). AreForward c.1) channels
      → sum_of duration_of (channel_cells upper reference hypothesis channels)
        ≡ total_length channels
  sum_of-channel_cells reference hypothesis [] h = omega arith
  sum_of-channel_cells reference hypothesis ((channel, intervals) ∷ channels) (forward, h) =
      let refs = on_channel channel reference in
      let hyps = on_channel channel hypothesis in
      let first = sum_of-all_intervals_cells refs hyps intervals forward in
      let rest = sum_of-channel_cells reference hypothesis channels h in
      sum_of-append duration_of (all_intervals_cells upper refs hyps intervals)
        (channel_cells upper reference hypothesis channels)
      ∙ omega (arith, first, rest)

  -- When no scoring interval ends before it starts, the cells together are as long as the scoring
  -- intervals together, whatever the records.
  pub sum_of-timeline_cells :
      (reference hypothesis : List RttmRecord) (scoring_intervals : List (String × List Interval))
      → All (λ (c : String × List Interval). AreForward c.1) scoring_intervals
      → sum_of duration_of (timeline_cells upper reference hypothesis scoring_intervals)
        ≡ total_length scoring_intervals
  unfolding timeline_cells
  sum_of-timeline_cells reference hypothesis scoring_intervals h =
      let le = λ (x y : String × List Interval). str_le x.0 y.0 in
      sum_of-channel_cells reference hypothesis (sort le scoring_intervals)
        (All-sort le (λ (c : String × List Interval). AreForward c.1) scoring_intervals h)
      ∙ sum_of-sort le (λ (c : String × List Interval). sum_of length_of c.1) scoring_intervals
