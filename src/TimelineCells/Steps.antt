-- ===== src/TimelineCells/Steps.antt =====
-- From one time of a timeline to the next, the counters follow the active records.
use Prim.Native.String.{String}
use text.Mathlib.Text.{◌==◌ as str_eq}
use sddiar.Base.{
  ℕ, ◌≤◌, ◌<◌, ◌≡◌, refl, sym, ap, subst, ◌∙◌, Bool, true, ◌&&◌, ◌||◌, List, [], ◌∷◌, ◌++◌, any,
  All, Bool-cases, inl, inr, ltb, leb, ◌==◌, arith,
}
use sddiar.Scoring.SortedSet.{Ascends}
use sddiar.TimelineCells.{
  RttmRecord, Side, on_reference, on_hypothesis, Active, apply_at, events_of, interval_events,
}
use sddiar.TimelineCells.Labels.{one_for, number_of, ArePositive}
use sddiar.TimelineCells.Activity.{
  side_counts, side_counts-apply_at, counts_at, counts_at-append, counts_at-other,
  counts_at-events_of, left_of, right_of, counted, before, during, before-during,
}

abbrev pub records_of : Side → List RttmRecord → List RttmRecord → List RttmRecord
records_of on_reference refs hyps = refs
records_of on_hypothesis refs hyps = hyps

-- The event times `x` are before `a` or among the times.
abbrev pub IsKnown : ℕ → List ℕ → ℕ → Type 0
IsKnown a times x = (ltb x a || any (λ y. y == x) times) ≡ true

pub above-known :
    (b x : ℕ) (times : List ℕ)
    → All (λ y. b < y) times
    → any (λ y. y == x) times ≡ true
    → leb b x ≡ true
above-known b x [] h known = cc
above-known b x (y ∷ times) (first, h) known = elim (Bool-cases (y == x)) [
  | inl same ↦ ground (arith, same, first)
  | inr other ↦ above-known b x times h (ground (arith, known, other))
]

pub known_gap :
    (a b x : ℕ) (times : List ℕ)
    → Ascends (a ∷ b ∷ times)
    → IsKnown a (a ∷ b ∷ times) x
    → (leb x a || leb b x) ≡ true
known_gap a b x times ((lt, later), (above, h)) known =
    elim (Bool-cases (any (λ y. y == x) times)) [
      | inl found ↦ let beyond = above-known b x times above found in ground (arith, beyond)
      | inr missing ↦ ground (arith, missing, known)
    ]

pub IsKnown-next :
    (a b x : ℕ) (times : List ℕ) → a < b → IsKnown a (a ∷ b ∷ times) x → IsKnown b (b ∷ times) x
IsKnown-next a b x times lt known = ground (arith, known, lt)

one_gap :
    (left right a b t : ℕ)
    → a ≤ t
    → t < b
    → (leb left a || leb b left) ≡ true
    → (leb right a || leb b right) ≡ true
    → ((leb left a && ltb a right) ≡ (ltb left b && leb b right))
      × ((leb left a && ltb a right) ≡ (leb left t && ltb t right))
one_gap left right a b t from until l r = (ground arith, ground arith)

module _ (start end : ℕ) (l : String) where
  -- The ends of the records that meet the interval are known.
  abbrev pub AreKnown : ℕ → List ℕ → List RttmRecord → Type 0
  AreKnown a times records =
      All
        (λ r.
          ltb (left_of start end l r) (right_of start end l r) ≡ true
          → IsKnown a times (left_of start end l r) × IsKnown a times (right_of start end l r))
        records

  pub AreKnown-next :
      (a b : ℕ) (times : List ℕ) (records : List RttmRecord)
      → a < b
      → AreKnown a (a ∷ b ∷ times) records
      → AreKnown b (b ∷ times) records
  AreKnown-next a b times [] lt h = tt
  AreKnown-next a b times (r ∷ records) lt (first, h) = (
    λ meets.
        let (known_left, known_right) = first meets in
        (IsKnown-next a b _ times lt known_left, IsKnown-next a b _ times lt known_right),
    AreKnown-next a b times records lt h,
  )

  -- Between two times nothing changes.
  pub counted_gap :
      (a b t : ℕ) (times : List ℕ) (records : List RttmRecord)
      → Ascends (a ∷ b ∷ times)
      → AreKnown a (a ∷ b ∷ times) records
      → a ≤ t
      → t < b
      → (counted start end l (during start end l a) records
          ≡ counted start end l (before start end l b) records)
        × (counted start end l (during start end l a) records
            ≡ counted start end l (during start end l t) records)
  counted_gap a b t times [] h known from until = (refl, refl)
  counted_gap a b t times (r ∷ records) h (first, known) from until =
      let (whole, same) = counted_gap a b t times records h known from until in
      elim (Bool-cases (ltb (left_of start end l r) (right_of start end l r))) [
        | inl meets ↦
            let (known_left, known_right) = first meets in
            let gap =
              one_gap (left_of start end l r) (right_of start end l r) a b t from until
                (known_gap a b (left_of start end l r) times h known_left)
                (known_gap a b (right_of start end l r) times h known_right) in
            let ours = str_eq r.speaker_id l in
            let there =
              ap
                (λ (x : Bool).
                  one_for (ltb (left_of start end l r) (right_of start end l r) && x && ours))
                gap.0 in
            let here =
              ap
                (λ (x : Bool).
                  one_for (ltb (left_of start end l r) (right_of start end l r) && x && ours))
                gap.1 in
            (omega (arith, whole, there), omega (arith, same, here))
        | inr apart ↦ (ground (arith, whole, apart), ground (arith, same, apart))
      ]

  module _ (refs hyps : List RttmRecord) where
    -- A counter counts the records that are active just before a time.
    abbrev pub IsBefore : Side → ℕ → Active → Type 0
    IsBefore side t active =
        ArePositive (side_counts side active)
        × (number_of l (side_counts side active)
            ≡ counted start end l (before start end l t) (records_of side refs hyps))

    abbrev pub IsDuring : Side → ℕ → Active → Type 0
    IsDuring side t active =
        ArePositive (side_counts side active)
        × (number_of l (side_counts side active)
            ≡ counted start end l (during start end l t) (records_of side refs hyps))

    counts_after :
        (side : Side) (t : ℕ) (active : Active)
        → side_counts side (apply_at t (interval_events refs hyps (start, end)) active)
          ≡ counts_at side t
              (events_of side start end (records_of side refs hyps))
              (side_counts side active)
    counts_after on_reference t active =
        let xs = events_of on_reference start end refs in
        let ys = events_of on_hypothesis start end hyps in
        side_counts-apply_at on_reference t (xs ++ ys) active
        ∙ counts_at-append on_reference t xs ys active.active_reference
        ∙ counts_at-other start end on_reference on_hypothesis t hyps _ refl
    counts_after on_hypothesis t active =
        let xs = events_of on_reference start end refs in
        let ys = events_of on_hypothesis start end hyps in
        side_counts-apply_at on_hypothesis t (xs ++ ys) active
        ∙ counts_at-append on_hypothesis t xs ys active.active_hypothesis
        ∙ ap (counts_at on_hypothesis t ys) (
            counts_at-other start end on_hypothesis on_reference t refs active.active_hypothesis
              refl)

    pub apply_at-IsDuring :
        (side : Side) (t : ℕ) (active : Active)
        → IsBefore side t active
        → IsDuring side t (apply_at t (interval_events refs hyps (start, end)) active)
    apply_at-IsDuring side t active (positive, number) =
        let records = records_of side refs hyps in
        let (below, flow) = before-during start end l t records in
        let (kept, changed) =
          counts_at-events_of start end l side t records (side_counts side active) positive
            (omega (arith, number, below)) in
        subst
          (λ counts.
            ArePositive counts
            × (number_of l counts ≡ counted start end l (during start end l t) records))
          (sym (counts_after side t active)) (kept, omega (arith, number, flow, changed))
