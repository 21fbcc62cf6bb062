-- ===== src/TimelineCells/Says.antt =====
-- The speakers of a cell are those of the records that are active in it.
use Prim.Native.String.{String}
use text.Mathlib.Text.{◌==◌ as str_eq}
use text.Mathlib.TextEquality.{eq_iff}
use sddiar.Base.{
  ℕ, ◌≤◌, ◌<◌, ◌≡◌, refl, ap, ◌∙◌, Bool, ◌&&◌, List, [], ◌∷◌, map, any, keep_if, All, Bool-cases,
  inl, inr, ltb, leb, ◌==◌, arith,
}
use sddiar.Intervals.{Interval, within}
use sddiar.Scoring.{dedup_sorted}
use sddiar.Scoring.SortedSet.{Ascends}
use sddiar.DiarizationError.{TimelineCell, label_in}
use sddiar.WordScores.{is_reference_speaker, is_hypothesis_speaker}
use sddiar.TimelineCells.{
  RttmRecord, on_reference, on_hypothesis, Active, LabelCounts, apply_at, interval_events, cell_at,
  cells_from,
}
use sddiar.TimelineCells.Labels.{number_of, ArePositive}
use sddiar.TimelineCells.Activity.{counted, during}
use sddiar.TimelineCells.Steps.{AreKnown, AreKnown-next, counted_gap, IsBefore, apply_at-IsDuring}

pub label_in-number_of :
    (l : String) (counts : LabelCounts)
    → ArePositive counts
    → label_in l (map (λ (p : String × ℕ). p.0) counts) ≡ ltb 0 (number_of l counts)
label_in-number_of l [] h = refl
label_in-number_of l ((key, n) ∷ counts) (first, h) =
    ground (arith, label_in-number_of l counts h, first)

label_in-keep_if :
    (l : String) (test : String → Bool) (labels : List String)
    → label_in l (keep_if test labels) ≡ (test l && label_in l labels)
unfolding keep_if
label_in-keep_if l test [] = ground arith
label_in-keep_if l test (x ∷ labels) = elim (Bool-cases (str_eq x l)) [
  | inl same ↦
      let tests = ap test ((eq_iff x l).0 same) in
      ground (arith, label_in-keep_if l test labels, same, tests)
  | inr other ↦ ground (arith, label_in-keep_if l test labels, other)
]

pub any-dedup_sorted :
    (x : ℕ) (xs : List ℕ) → any (λ y. y == x) (dedup_sorted xs) ≡ any (λ y. y == x) xs
unfolding dedup_sorted
any-dedup_sorted x [] = refl
any-dedup_sorted x (y ∷ []) = refl
any-dedup_sorted x (y ∷ z ∷ rest) = ground (arith, any-dedup_sorted x (z ∷ rest))

-- A record of the label is active at an instant of the interval.
abbrev pub speaks : Interval → ℕ → String → List RttmRecord → Bool
speaks x t l records =
    any (λ (r : RttmRecord). within t x && within t (r.start_us, r.end_us) && str_eq r.speaker_id l)
      records

counted-speaks :
    (start end t : ℕ) (l : String) (records : List RttmRecord)
    → ltb 0 (counted start end l (during start end l t) records) ≡ speaks (start, end) t l records
counted-speaks start end t l [] = refl
counted-speaks start end t l (r ∷ records) = elim (Bool-cases (str_eq r.speaker_id l)) [
  | inl ours ↦ ground (arith, counted-speaks start end t l records, ours)
  | inr other ↦ ground (arith, counted-speaks start end t l records, other)
]

module _ (upper : String → String) (start end : ℕ) (refs hyps : List RttmRecord) where
  -- At each instant of a cell, its labels are those of speakers with an active record.
  abbrev pub IsSpoken : TimelineCell → Type 0
  IsSpoken c =
      (t : ℕ) (l : String)
      → c.start_us ≤ t
      → t < c.end_us
      → (label_in l c.reference_speakers
          ≡ (is_reference_speaker upper l && speaks (start, end) t l refs))
        × (label_in l c.hypothesis_speakers
            ≡ (is_hypothesis_speaker upper l && speaks (start, end) t l hyps))

  abbrev pub KnownFrom : ℕ → List ℕ → Type 0
  KnownFrom a times =
      (l : String) → AreKnown start end l a times refs × AreKnown start end l a times hyps

  abbrev pub AreBefore : ℕ → Active → Type 0
  AreBefore t active =
      (l : String)
      → IsBefore start end l refs hyps on_reference t active
        × IsBefore start end l refs hyps on_hypothesis t active

  cell_at-IsSpoken :
      (a b : ℕ) (times : List ℕ) (active : Active)
      → Ascends (a ∷ b ∷ times)
      → KnownFrom a (a ∷ b ∷ times)
      → AreBefore a active
      → IsSpoken (cell_at upper a b (apply_at a (interval_events refs hyps (start, end)) active))
        × AreBefore b (apply_at a (interval_events refs hyps (start, end)) active)
  cell_at-IsSpoken a b times active h known invariant = (
    λ t l from until.
        let (ref, hyp) = invariant l in
        let (known_refs, known_hyps) = known l in
        let (positive, number) =
          apply_at-IsDuring start end l refs hyps on_reference a active ref in
        let (positive_too, number_too) =
          apply_at-IsDuring start end l refs hyps on_hypothesis a active hyp in
        let same = (counted_gap start end l a b t times refs h known_refs from until).1 in
        let same_too = (counted_gap start end l a b t times hyps h known_hyps from until).1 in
        (
          label_in-keep_if l (is_reference_speaker upper) _
              ∙ ap (λ x. is_reference_speaker upper l && x)
                  (label_in-number_of l _ positive
                    ∙ ap (ltb 0) (number ∙ same)
                    ∙ counted-speaks start end t l refs),
          label_in-keep_if l (is_hypothesis_speaker upper) _
              ∙ ap (λ x. is_hypothesis_speaker upper l && x)
                  (label_in-number_of l _ positive_too
                    ∙ ap (ltb 0) (number_too ∙ same_too)
                    ∙ counted-speaks start end t l hyps),
        ),
    λ l.
        let (ref, hyp) = invariant l in
        let (known_refs, known_hyps) = known l in
        let (positive, number) =
          apply_at-IsDuring start end l refs hyps on_reference a active ref in
        let (positive_too, number_too) =
          apply_at-IsDuring start end l refs hyps on_hypothesis a active hyp in
        let lt : a < b = h.0.0 in
        let same = (counted_gap start end l a b a times refs h known_refs (omega arith) lt).0 in
        let same_too = (counted_gap start end l a b a times hyps h known_hyps (omega arith) lt).0 in
        ((positive, number ∙ same), (positive_too, number_too ∙ same_too)),
  )

  pub cells_from-IsSpoken :
      (active : Active) (a : ℕ) (times : List ℕ)
      → Ascends (a ∷ times)
      → KnownFrom a (a ∷ times)
      → AreBefore a active
      → All IsSpoken (cells_from upper (interval_events refs hyps (start, end)) active (a ∷ times))
  unfolding cells_from
  cells_from-IsSpoken active a [] h known invariant = tt
  cells_from-IsSpoken active a (b ∷ times) h known invariant =
      let (here, next) = cell_at-IsSpoken a b times active h known invariant in
      let lt : a < b = h.0.0 in
      let rest =
        cells_from-IsSpoken (apply_at a (interval_events refs hyps (start, end)) active) b times h.1
          (λ l. (
            AreKnown-next start end l a b times refs lt (known l).0,
            AreKnown-next start end l a b times hyps lt (known l).1,
          ))
          next in
      elim (Bool-cases (leb b a)) [
        | inl reached ↦ ground (arith, reached, lt)
        | inr ahead ↦ rw ahead (here, rest)
      ]
