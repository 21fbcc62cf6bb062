-- ===== src/TimelineCells/Whole.antt =====
-- The cells of a scoring interval have exactly its speakers.
use Prim.Native.String.{String}
use sddiar.Base.{
  ℕ, ◌<◌, ◌≡◌, refl, ◌∙◌, Bool, true, ◌||◌, List, [], ◌∷◌, ◌++◌, any, All, Bool-cases, inl, inr,
  ltb, leb, ◌==◌, arith,
}
use sddiar.Base.Sort.{sort, any-sort}
use sddiar.Scoring.{sorted_set}
use sddiar.Scoring.SortedSet.{Ascends, sorted_set-Ascends}
use sddiar.TimelineCells.{
  RttmRecord, Side, on_reference, on_hypothesis, Event, Active, events_of, interval_events,
  cells_from, interval_cells,
}
use sddiar.TimelineCells.Activity.{left_of, right_of, counted, before}
use sddiar.TimelineCells.Tiling.{times_of}
use sddiar.TimelineCells.Steps.{AreKnown, above-known}
use sddiar.TimelineCells.Says.{any-dedup_sorted, IsSpoken, cells_from-IsSpoken}

abbrev pub is_among : ℕ → List ℕ → Bool
is_among x times = any (λ y. y == x) times

is_among-append :
    (x : ℕ) (xs ys : List Event)
    → is_among x (times_of (xs ++ ys)) ≡ (is_among x (times_of xs) || is_among x (times_of ys))
is_among-append x [] ys = refl
is_among-append x (e ∷ xs) ys = ground (arith, is_among-append x xs ys)

pub is_among-sorted_set :
    (x : ℕ) (times : List ℕ) → is_among x (sorted_set times) ≡ is_among x times
unfolding sorted_set
is_among-sorted_set x times = any-dedup_sorted x (sort leb times) ∙ any-sort leb (λ y. y == x) times

pub head_first :
    (a x : ℕ) (times : List ℕ)
    → All (λ y. a < y) times
    → is_among x (a ∷ times) ≡ true
    → leb a x ≡ true
head_first a x times above found = elim (Bool-cases (is_among x times)) [
  | inl later ↦ above-known a x times above later
  | inr head ↦ ground (arith, found, head)
]

module _ (start end : ℕ) (l : String) where
  abbrev AreAmong : List ℕ → List RttmRecord → Type 0
  AreAmong times records =
      All
        (λ r.
          ltb (left_of start end l r) (right_of start end l r) ≡ true
          → (is_among (left_of start end l r) times ≡ true)
            × (is_among (right_of start end l r) times ≡ true))
        records

  events_of-AreAmong :
      (side : Side) (times : List ℕ) (records : List RttmRecord)
      → ((x : ℕ)
          → is_among x (times_of (events_of side start end records)) ≡ true
          → is_among x times ≡ true)
      → AreAmong times records
  events_of-AreAmong side times [] h = tt
  events_of-AreAmong side times (r ∷ records) h =
      let left = left_of start end l r in
      let right = right_of start end l r in
      elim (Bool-cases (ltb left right)) [
        | inl meets ↦ (
          λ again. (
            h left (rw (meets, events_of) (ground arith)),
            h right (rw (meets, events_of) (ground arith)),
          ),
          events_of-AreAmong side times records
              (λ x found. h x (rw (meets, events_of) (ground (arith, found)))),
        )
        | inr apart ↦ (
          λ meets. cc,
          events_of-AreAmong side times records (λ x found. h x (rw (apart, events_of) found)),
        )
      ]

  AreAmong-AreKnown :
      (a : ℕ) (times : List ℕ) (records : List RttmRecord)
      → AreAmong times records
      → AreKnown start end l a times records
  AreAmong-AreKnown a times [] h = tt
  AreAmong-AreKnown a times (r ∷ records) (first, h) = (
    λ meets. let (left, right) = first meets in (ground (arith, left), ground (arith, right)),
    AreAmong-AreKnown a times records h,
  )

  none_before :
      (a : ℕ) (times : List ℕ) (records : List RttmRecord)
      → Ascends (a ∷ times)
      → AreAmong (a ∷ times) records
      → 0 ≡ counted start end l (before start end l a) records
  none_before a times [] h k = refl
  none_before a times (r ∷ records) (above, h) (first, k) =
      let rest = none_before a times records (above, h) k in
      let left = left_of start end l r in
      elim (Bool-cases (ltb left (right_of start end l r))) [
        | inl meets ↦
            let (found, later) = first meets in
            let late = head_first a left times above found in ground (arith, rest, meets, late)
        | inr apart ↦ ground (arith, rest, apart)
      ]

module _ (upper : String → String) (start end : ℕ) (refs hyps : List RttmRecord) where
  abbrev no_active : Active
  no_active = record { active_reference = []; active_hypothesis = [] }

  ordered-IsSpoken :
      (ordered : List ℕ)
      → Ascends ordered
      → ((l : String) → AreAmong start end l ordered refs × AreAmong start end l ordered hyps)
      → All
          (IsSpoken upper start end refs hyps)
          (cells_from upper (interval_events refs hyps (start, end)) no_active ordered)
  unfolding cells_from
  ordered-IsSpoken [] h among = tt
  ordered-IsSpoken (a ∷ times) h among =
      cells_from-IsSpoken upper start end refs hyps no_active a times h
        (λ l. (
          AreAmong-AreKnown start end l a (a ∷ times) refs (among l).0,
          AreAmong-AreKnown start end l a (a ∷ times) hyps (among l).1,
        ))
        (λ l. (
          (tt, none_before start end l a times refs h (among l).0),
          (tt, none_before start end l a times hyps h (among l).1),
        ))

  -- At each instant of a cell of a scoring interval, a label is in the cell exactly if it is that of
  -- a speaker, not of silence or overlap, and a record of its side with this label is active.
  pub interval_cells-IsSpoken :
      All (IsSpoken upper start end refs hyps) (interval_cells upper refs hyps (start, end))
  unfolding interval_cells
  interval_cells-IsSpoken =
      let xs = events_of on_reference start end refs in
      let ys = events_of on_hypothesis start end hyps in
      let times = start ∷ end ∷ times_of (xs ++ ys) in
      ordered-IsSpoken (sorted_set times) (sorted_set-Ascends times) (λ l. (
        events_of-AreAmong start end l on_reference (sorted_set times) refs (λ x found.
            is_among-sorted_set x times ∙ ground (arith, is_among-append x xs ys, found)),
        events_of-AreAmong start end l on_hypothesis (sorted_set times) hyps (λ x found.
            is_among-sorted_set x times ∙ ground (arith, is_among-append x xs ys, found)),
      ))
