-- ===== src/TimelineCells/Tiling.antt =====
-- The cells of a timeline tile its scoring intervals.
use Prim.Native.String.{String}
use sddiar.Base.{
  ℕ, ◌≤◌, ◌<◌, ◌≡◌, refl, ◌∙◌, Bool, true, false, ◌&&◌, ◌||◌, List, [], ◌∷◌, ◌++◌, map, any, All,
  max, min, Bool-cases, inl, inr, ltb, leb, arith,
}
use sddiar.Base.Sort.{sort, any-sort, All-sort}
use sddiar.Intervals.{Interval, within, covers, AreForward}
use sddiar.Scoring.{sorted_set, dedup_sorted}
use sddiar.Scoring.SortedSet.{Ascends, sorted_set-Ascends}
use sddiar.DiarizationError.{TimelineCell, str_le}
use sddiar.TimelineCells.{
  RttmRecord, Side, on_reference, on_hypothesis, Event, Active, apply_at, events_of, cells_from,
  interval_events, interval_cells, all_intervals_cells, on_channel, channel_cells, timeline_cells,
}

-- The intervals of the cells.
abbrev pub spans_of : List TimelineCell → List Interval
spans_of cells = map (λ (c : TimelineCell). (c.start_us, c.end_us)) cells

abbrev some_until : ℕ → List ℕ → Bool
some_until t times = any (λ x. leb x t) times

abbrev some_behind : ℕ → List ℕ → Bool
some_behind t times = any (λ x. ltb t x) times

some_until-dedup_sorted : (t : ℕ) (xs : List ℕ) → some_until t (dedup_sorted xs) ≡ some_until t xs
unfolding dedup_sorted
some_until-dedup_sorted t [] = refl
some_until-dedup_sorted t (x ∷ []) = refl
some_until-dedup_sorted t (x ∷ y ∷ rest) = ground (arith, some_until-dedup_sorted t (y ∷ rest))

some_behind-dedup_sorted :
    (t : ℕ) (xs : List ℕ) → some_behind t (dedup_sorted xs) ≡ some_behind t xs
unfolding dedup_sorted
some_behind-dedup_sorted t [] = refl
some_behind-dedup_sorted t (x ∷ []) = refl
some_behind-dedup_sorted t (x ∷ y ∷ rest) = ground (arith, some_behind-dedup_sorted t (y ∷ rest))

some_until-above :
    (t a : ℕ) (xs : List ℕ) → All (λ y. a < y) xs → ltb t a ≡ true → some_until t xs ≡ false
some_until-above t a [] h lt = refl
some_until-above t a (x ∷ xs) (first, rest) lt = ground (arith, some_until-above t a xs rest lt)

module _ (upper : String → String) (t : ℕ) where
  cells_from-head :
      (events : List Event) (active : Active) (a : ℕ) (ordered : List ℕ)
      → Ascends (a ∷ ordered)
      → covers t (spans_of (cells_from upper events active (a ∷ ordered)))
        ≡ (leb a t && some_behind t ordered)
  unfolding cells_from
  cells_from-head events active a [] h = ground arith
  cells_from-head events active a (b ∷ ordered) ((lt, above), h) =
      ground (arith, cells_from-head events (apply_at a events active) b ordered h, lt)

  covers-cells_from :
      (events : List Event) (active : Active) (ordered : List ℕ)
      → Ascends ordered
      → covers t (spans_of (cells_from upper events active ordered))
        ≡ (some_until t ordered && some_behind t ordered)
  unfolding cells_from
  covers-cells_from events active [] h = refl
  covers-cells_from events active (a ∷ ordered) (above, h) = elim (Bool-cases (ltb t a)) [
    | inl early ↦
        let none_until = some_until-above t a ordered above early in
        ground (arith, cells_from-head events active a ordered (above, h), none_until, early)
    | inr late ↦ ground (arith, cells_from-head events active a ordered (above, h), late)
  ]

abbrev pub AreInside : ℕ → ℕ → List ℕ → Type 0
AreInside start end times = All (λ x. (start ≤ x) × (x ≤ end)) times

abbrev pub times_of : List Event → List ℕ
times_of events = map (λ (e : Event). e.time_us) events

pub AreInside-events_of :
    (side : Side) (start end : ℕ) (records : List RttmRecord)
    → AreInside start end (times_of (events_of side start end records))
AreInside-events_of side start end [] = tt
AreInside-events_of side start end (r ∷ records) =
    let rest = AreInside-events_of side start end records in
    elim (Bool-cases (ltb (max start r.start_us) (min end r.end_us))) [
      | inl meets ↦ rw meets ((ground arith, ground arith), ((ground arith, ground arith), rest))
      | inr apart ↦ rw apart rest
    ]

pub AreInside-append :
    (start end : ℕ) (xs ys : List Event)
    → AreInside start end (times_of xs)
    → AreInside start end (times_of ys)
    → AreInside start end (times_of (xs ++ ys))
AreInside-append start end [] ys h k = k
AreInside-append start end (x ∷ xs) ys h k = (h.0, AreInside-append start end xs ys h.1 k)

some_until-inside :
    (t start end : ℕ) (times : List ℕ)
    → AreInside start end times
    → leb start t ≡ false
    → some_until t times ≡ false
some_until-inside t start end [] h early = refl
some_until-inside t start end (x ∷ times) (first, rest) early =
    ground (arith, some_until-inside t start end times rest early, early, first)

some_behind-inside :
    (t start end : ℕ) (times : List ℕ)
    → AreInside start end times
    → ltb t end ≡ false
    → some_behind t times ≡ false
some_behind-inside t start end [] h late = refl
some_behind-inside t start end (x ∷ times) (first, rest) late =
    ground (arith, some_behind-inside t start end times rest late, late, first)

within-bounds :
    (t start end : ℕ) (times : List ℕ)
    → start ≤ end
    → AreInside start end times
    → (some_until t (start ∷ end ∷ times) && some_behind t (start ∷ end ∷ times))
      ≡ within t (start, end)
within-bounds t start end times le h = elim (Bool-cases (leb start t)) [
  | inl from ↦ elim (Bool-cases (ltb t end)) [
    | inl until ↦ ground (arith, from, until)
    | inr late ↦
        let behind = some_behind-inside t start end times h late in
        ground (arith, from, late, behind, le)
  ]
  | inr early ↦
      let before = some_until-inside t start end times h early in ground (arith, early, before, le)
]

both : (a b c d : Bool) → a ≡ c → b ≡ d → (a && b) ≡ (c && d)
both a b c d h k = rw (h, k) refl

either : (a b c d : Bool) → a ≡ c → b ≡ d → (a || b) ≡ (c || d)
either a b c d h k = rw (h, k) refl

module _ (upper : String → String) (t : ℕ) where
  covers-interval_cells :
      (refs hyps : List RttmRecord) (start end : ℕ)
      → start ≤ end
      → covers t (spans_of (interval_cells upper refs hyps (start, end))) ≡ within t (start, end)
  unfolding interval_cells sorted_set
  covers-interval_cells refs hyps start end le =
      let events = interval_events refs hyps (start, end) in
      let times = start ∷ end ∷ times_of events in
      let inside =
        AreInside-append start end (events_of on_reference start end refs)
          (events_of on_hypothesis start end hyps) (AreInside-events_of on_reference start end refs)
          (AreInside-events_of on_hypothesis start end hyps) in
      covers-cells_from upper t events record { active_reference = []; active_hypothesis = [] }
        (sorted_set times) (sorted_set-Ascends times)
      ∙ both _ _ _ _
          (some_until-dedup_sorted t (sort leb times) ∙ any-sort leb (λ x. leb x t) times)
          (some_behind-dedup_sorted t (sort leb times) ∙ any-sort leb (λ x. ltb t x) times)
      ∙ within-bounds t start end (times_of events) le inside

  covers-spans_append :
      (xs ys : List TimelineCell)
      → covers t (spans_of (xs ++ ys)) ≡ (covers t (spans_of xs) || covers t (spans_of ys))
  covers-spans_append [] ys = refl
  covers-spans_append (x ∷ xs) ys = ground (arith, covers-spans_append xs ys)

  covers-all_intervals_cells :
      (refs hyps : List RttmRecord) (intervals : List Interval)
      → AreForward intervals
      → covers t (spans_of (all_intervals_cells upper refs hyps intervals)) ≡ covers t intervals
  covers-all_intervals_cells refs hyps [] h = refl
  covers-all_intervals_cells refs hyps ((start, end) ∷ intervals) (le, h) =
      covers-spans_append (interval_cells upper refs hyps (start, end))
        (all_intervals_cells upper refs hyps intervals)
      ∙ either _ _ _ _ (covers-interval_cells refs hyps start end le)
          (covers-all_intervals_cells refs hyps intervals h)

  covers-channel_cells :
      (reference hypothesis : List RttmRecord) (channels : List (String × List Interval))
      → All (λ (c : String × List Interval). AreForward c.1) channels
      → covers t (spans_of (channel_cells upper reference hypothesis channels))
        ≡ any (λ (c : String × List Interval). covers t c.1) channels
  covers-channel_cells reference hypothesis [] h = refl
  covers-channel_cells reference hypothesis ((channel, intervals) ∷ channels) (first, h) =
      covers-spans_append
        (all_intervals_cells upper (on_channel channel reference) (on_channel channel hypothesis)
          intervals)
        (channel_cells upper reference hypothesis channels)
      ∙ either _ _ _ _
          (covers-all_intervals_cells (on_channel channel reference) (on_channel channel hypothesis)
            intervals first)
          (covers-channel_cells reference hypothesis channels h)

  -- When no scoring interval ends before it starts, an instant is in a cell exactly if it is in a
  -- scoring interval of some channel, whatever the records.
  pub covers-timeline_cells :
      (reference hypothesis : List RttmRecord) (scoring_intervals : List (String × List Interval))
      → All (λ (c : String × List Interval). AreForward c.1) scoring_intervals
      → covers t (spans_of (timeline_cells upper reference hypothesis scoring_intervals))
        ≡ any (λ (c : String × List Interval). covers t c.1) scoring_intervals
  unfolding timeline_cells
  covers-timeline_cells reference hypothesis scoring_intervals h =
      let le = λ (x y : String × List Interval). str_le x.0 y.0 in
      covers-channel_cells reference hypothesis (sort le scoring_intervals)
        (All-sort le (λ (c : String × List Interval). AreForward c.1) scoring_intervals h)
      ∙ any-sort le (λ (c : String × List Interval). covers t c.1) scoring_intervals
