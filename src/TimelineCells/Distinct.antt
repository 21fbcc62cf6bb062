-- ===== src/TimelineCells/Distinct.antt =====
-- The labels of a cell are a set on each side.
use Prim.Native.String.{String}
use text.Mathlib.Text.{◌==◌ as str_eq}
use text.Mathlib.TextEquality.{eq_iff}
use sddiar.Base.{
  ℕ, ◌≤◌, ◌≡◌, ap, max, inl, inr, Bool, true, false, List, [], ◌∷◌, map, All, All-append, keep_if,
  Bool-cases, leb, ◌==◌, arith,
}
use sddiar.Base.Sort.{sort}
use sddiar.Intervals.{Interval}
use sddiar.DiarizationError.{TimelineCell}
use sddiar.DiarizationError.OneToOne.{times_in, AreDistinct}
use sddiar.TimelineCells.{
  RttmRecord, Side, on_reference, on_hypothesis, Event, Active, LabelCounts, count_up, count_down,
  count_event, apply_event, apply_at, cells_from, interval_events, interval_cells,
  all_intervals_cells, on_channel, channel_cells, timeline_cells,
}

abbrev keys_of : LabelCounts → List String
keys_of counts = map (λ (p : String × ℕ). p.0) counts

times_in-count_up_other :
    (r label : String) (counts : LabelCounts)
    → str_eq label r ≡ false
    → times_in r (keys_of (count_up label counts)) ≡ times_in r (keys_of counts)
times_in-count_up_other r label [] other = ground (arith, other)
times_in-count_up_other r label ((key, n) ∷ counts) other =
    ground (arith, times_in-count_up_other r label counts other)

times_in-count_up_own :
    (r label : String) (counts : LabelCounts)
    → str_eq label r ≡ true
    → times_in r (keys_of (count_up label counts)) ≤ max 1 (times_in r (keys_of counts))
times_in-count_up_own r label [] own = ground (arith, own)
times_in-count_up_own r label ((key, n) ∷ counts) own =
    let keys = ap (λ k. str_eq key k) ((eq_iff label r).0 own) in
    ground (arith, times_in-count_up_own r label counts own, keys)

times_in-count_down :
    (r label : String) (counts : LabelCounts)
    → times_in r (keys_of (count_down label counts)) ≤ times_in r (keys_of counts)
times_in-count_down r label [] = omega arith
times_in-count_down r label ((key, n) ∷ counts) = ground (arith, times_in-count_down r label counts)

count_event-AreDistinct :
    (enters : Bool) (label : String) (counts : LabelCounts)
    → AreDistinct (keys_of counts)
    → AreDistinct (keys_of (count_event enters label counts))
count_event-AreDistinct true label counts once r = elim (Bool-cases (str_eq label r)) [
  | inl own ↦ omega (arith, times_in-count_up_own r label counts own, once r)
  | inr other ↦ omega (arith, times_in-count_up_other r label counts other, once r)
]
count_event-AreDistinct false label counts once r =
    omega (arith, times_in-count_down r label counts, once r)

-- Both counters have each label once.
abbrev AreSets : Active → Type 0
AreSets active =
    AreDistinct (keys_of active.active_reference) × AreDistinct (keys_of active.active_hypothesis)

apply_event-AreSets :
    (side : Side) (enters : Bool) (label : String) (active : Active)
    → AreSets active
    → AreSets (apply_event side enters label active)
apply_event-AreSets on_reference enters label active (ref, hyp) =
    (count_event-AreDistinct enters label active.active_reference ref, hyp)
apply_event-AreSets on_hypothesis enters label active (ref, hyp) =
    (ref, count_event-AreDistinct enters label active.active_hypothesis hyp)

apply_at-AreSets :
    (left : ℕ) (events : List Event) (active : Active)
    → AreSets active
    → AreSets (apply_at left events active)
apply_at-AreSets left [] active h = h
apply_at-AreSets left (e ∷ events) active h = elim (Bool-cases (e.time_us == left)) [
  | inl now ↦
      rw (now, apply_at)
        (apply_at-AreSets left events (apply_event e.side e.enters e.label active)
          (apply_event-AreSets e.side e.enters e.label active h))
  | inr later ↦ rw (later, apply_at) (apply_at-AreSets left events active h)
]

times_in-keep_if :
    (r : String) (test : String → Bool) (labels : List String)
    → times_in r (keep_if test labels) ≤ times_in r labels
unfolding keep_if
times_in-keep_if r test [] = omega arith
times_in-keep_if r test (l ∷ labels) = ground (arith, times_in-keep_if r test labels)

keep_if-AreDistinct :
    (test : String → Bool) (labels : List String)
    → AreDistinct labels
    → AreDistinct (keep_if test labels)
keep_if-AreDistinct test labels once r = omega (arith, times_in-keep_if r test labels, once r)

-- The labels of a cell are sets.
abbrev pub HasLabelSets : TimelineCell → Type 0
HasLabelSets c = AreDistinct c.reference_speakers × AreDistinct c.hypothesis_speakers

module _ (upper : String → String) where
  cells_from-HasLabelSets :
      (events : List Event) (active : Active) (ordered : List ℕ)
      → AreSets active
      → All HasLabelSets (cells_from upper events active ordered)
  unfolding cells_from
  cells_from-HasLabelSets events active [] h = tt
  cells_from-HasLabelSets events active (left ∷ []) h = tt
  cells_from-HasLabelSets events active (left ∷ right ∷ ordered) h =
      let now = apply_at-AreSets left events active h in
      let rest =
        cells_from-HasLabelSets events (apply_at left events active) (right ∷ ordered) now in
      elim (Bool-cases (leb right left)) [
        | inl empty ↦ rw empty rest
        | inr ahead ↦
            rw ahead ((keep_if-AreDistinct _ _ now.0, keep_if-AreDistinct _ _ now.1), rest)
      ]

  all_intervals_cells-HasLabelSets :
      (refs hyps : List RttmRecord) (intervals : List Interval)
      → All HasLabelSets (all_intervals_cells upper refs hyps intervals)
  unfolding interval_cells
  all_intervals_cells-HasLabelSets refs hyps [] = tt
  all_intervals_cells-HasLabelSets refs hyps (x ∷ intervals) =
      All-append HasLabelSets (interval_cells upper refs hyps x)
        (all_intervals_cells upper refs hyps intervals)
        (cells_from-HasLabelSets (interval_events refs hyps x) _ _
          (λ r. omega arith, λ r. omega arith))
        (all_intervals_cells-HasLabelSets refs hyps intervals)

  channel_cells-HasLabelSets :
      (reference hypothesis : List RttmRecord) (channels : List (String × List Interval))
      → All HasLabelSets (channel_cells upper reference hypothesis channels)
  channel_cells-HasLabelSets reference hypothesis [] = tt
  channel_cells-HasLabelSets reference hypothesis ((channel, intervals) ∷ channels) =
      All-append HasLabelSets
        (all_intervals_cells upper (on_channel channel reference) (on_channel channel hypothesis)
          intervals)
        (channel_cells upper reference hypothesis channels)
        (all_intervals_cells-HasLabelSets (on_channel channel reference)
          (on_channel channel hypothesis) intervals)
        (channel_cells-HasLabelSets reference hypothesis channels)

  pub timeline_cells-HasLabelSets :
      (reference hypothesis : List RttmRecord) (scoring_intervals : List (String × List Interval))
      → All HasLabelSets (timeline_cells upper reference hypothesis scoring_intervals)
  unfolding timeline_cells
  timeline_cells-HasLabelSets reference hypothesis scoring_intervals =
      channel_cells-HasLabelSets reference hypothesis (sort _ scoring_intervals)
