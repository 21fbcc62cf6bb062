-- ===== src/TimelineCells/Activity.antt =====
-- The counters of a timeline count the records that are active.
use Prim.Native.String.{String}
use text.Mathlib.Text.{◌==◌ as str_eq}
use sddiar.Base.{
  ℕ, ◌+◌, ◌≤◌, ◌≡◌, refl, sym, ap, subst, ◌∙◌, Bool, true, false, ◌&&◌, List, [], ◌∷◌, ◌++◌, sum_of,
  max, min, Bool-cases, inl, inr, ltb, leb, ◌==◌, if◌then◌else◌, arith,
}
use sddiar.TimelineCells.{
  RttmRecord, Side, on_reference, on_hypothesis, Event, Active, LabelCounts, count_up, count_down,
  count_event, apply_event, apply_at, events_of,
}
use sddiar.TimelineCells.Labels.{one_for, number_of, ArePositive, pair_at, number_of-pair_at}

abbrev pub same_side : Side → Side → Bool
same_side on_reference on_reference = true
same_side on_hypothesis on_hypothesis = true
same_side _ _ = false

abbrev pub side_counts : Side → Active → LabelCounts
side_counts on_reference active = active.active_reference
side_counts on_hypothesis active = active.active_hypothesis

-- What the events at a time do to one counter.
abbrev pub counts_at : Side → ℕ → List Event → LabelCounts → LabelCounts
counts_at side t [] counts = counts
counts_at side t (e ∷ events) counts = counts_at side t events (
    if e.time_us == t && same_side e.side side then count_event e.enters e.label counts else counts)

side_counts-apply_event :
    (side own : Side) (now enters : Bool) (label : String) (active : Active)
    → side_counts side (if now then apply_event own enters label active else active) ≡ (
        if now && same_side own side
        then count_event enters label (side_counts side active)
        else side_counts side active)
side_counts-apply_event side own false enters label active = refl
side_counts-apply_event on_reference on_reference true enters label active = refl
side_counts-apply_event on_reference on_hypothesis true enters label active = refl
side_counts-apply_event on_hypothesis on_reference true enters label active = refl
side_counts-apply_event on_hypothesis on_hypothesis true enters label active = refl

pub side_counts-apply_at :
    (side : Side) (t : ℕ) (events : List Event) (active : Active)
    → side_counts side (apply_at t events active)
      ≡ counts_at side t events (side_counts side active)
side_counts-apply_at side t [] active = refl
side_counts-apply_at side t (e ∷ events) active =
    side_counts-apply_at side t events
      (if e.time_us == t then apply_event e.side e.enters e.label active else active)
    ∙ ap (counts_at side t events)
        (side_counts-apply_event side e.side (e.time_us == t) e.enters e.label active)

pub counts_at-append :
    (side : Side) (t : ℕ) (xs ys : List Event) (counts : LabelCounts)
    → counts_at side t (xs ++ ys) counts ≡ counts_at side t ys (counts_at side t xs counts)
counts_at-append side t [] ys counts = refl
counts_at-append side t (x ∷ xs) ys counts = counts_at-append side t xs ys _

before_one :
    (left right t : ℕ) (ours : Bool)
    → (one_for (ltb left right && (right == t) && ours)
        ≤ one_for (ltb left right && (ltb left t && leb t right) && ours))
      × (one_for (ltb left right && (ltb left t && leb t right) && ours)
            + one_for (ltb left right && (left == t) && ours)
          ≡ one_for (ltb left right && (leb left t && ltb t right) && ours)
            + one_for (ltb left right && (right == t) && ours))
before_one left right t ours = (ground arith, ground arith)

module _ (start end : ℕ) (l : String) where
  abbrev pub left_of : RttmRecord → ℕ
  left_of r = max start r.start_us

  abbrev pub right_of : RttmRecord → ℕ
  right_of r = min end r.end_us

  -- A record of the label that meets the interval, with a test of its ends there.
  abbrev pub has_label : (ℕ → ℕ → Bool) → RttmRecord → Bool
  has_label test r =
      ltb (left_of r) (right_of r) && test (left_of r) (right_of r) && str_eq r.speaker_id l

  abbrev pub counted : (ℕ → ℕ → Bool) → List RttmRecord → ℕ
  counted test records = sum_of (λ r. one_for (has_label test r)) records

  abbrev pub enters_at : ℕ → ℕ → ℕ → Bool
  enters_at t left right = left == t

  abbrev pub leaves_at : ℕ → ℕ → ℕ → Bool
  leaves_at t left right = right == t

  -- Active just before `t`, and at `t`
  abbrev pub before : ℕ → ℕ → ℕ → Bool
  before t left right = ltb left t && leb t right

  abbrev pub during : ℕ → ℕ → ℕ → Bool
  during t left right = leb left t && ltb t right

  pub before-during :
      (t : ℕ) (records : List RttmRecord)
      → (counted (leaves_at t) records ≤ counted (before t) records)
        × (counted (before t) records + counted (enters_at t) records
            ≡ counted (during t) records + counted (leaves_at t) records)
  before-during t [] = (omega arith, omega arith)
  before-during t (r ∷ records) =
      let (first, second) = before-during t records in
      let (here, there) = before_one (left_of r) (right_of r) t (str_eq r.speaker_id l) in
      (omega (arith, first, here), omega (arith, second, there))

pair_if :
    (label : String) (counts : LabelCounts) (p q : Bool)
    → (if q && true
        then count_down label (if p && true then count_up label counts else counts)
        else (if p && true then count_up label counts else counts))
      ≡ (if q
          then count_down label (if p then count_up label counts else counts)
          else (if p then count_up label counts else counts))
pair_if label counts true true = refl
pair_if label counts true false = refl
pair_if label counts false true = refl
pair_if label counts false false = refl

skip_if :
    (f : LabelCounts → LabelCounts) (x counts : LabelCounts) (p q same : Bool)
    → same ≡ false
    → (if q && same then f (if p && same then x else counts) else (if p && same then x else counts))
      ≡ counts
skip_if f x counts p q true h = cc
skip_if f x counts true true false h = refl
skip_if f x counts true false false h = refl
skip_if f x counts false true false h = refl
skip_if f x counts false false false h = refl

abbrev record_event : ℕ → Side → String → Bool → Event
record_event time side label enters = record {
  time_us = time;
  side = side;
  label = label;
  enters = enters;
}

counts_at-pair :
    (side : Side) (t left right : ℕ) (label : String) (rest : List Event) (counts : LabelCounts)
    → counts_at side t
        (record_event left side label true ∷ record_event right side label false ∷ rest)
        counts
      ≡ counts_at side t rest (pair_at t left right label counts)
counts_at-pair on_reference t left right label rest counts =
    ap (counts_at on_reference t rest) (pair_if label counts (left == t) (right == t))
counts_at-pair on_hypothesis t left right label rest counts =
    ap (counts_at on_hypothesis t rest) (pair_if label counts (left == t) (right == t))

module _ (start end : ℕ) where
  pub counts_at-other :
      (side own : Side) (t : ℕ) (records : List RttmRecord) (counts : LabelCounts)
      → same_side own side ≡ false
      → counts_at side t (events_of own start end records) counts ≡ counts
  counts_at-other side own t [] counts h = refl
  counts_at-other side own t (r ∷ records) counts h =
      let rest = counts_at-other side own t records counts h in
      elim (Bool-cases (ltb (max start r.start_us) (min end r.end_us))) [
        | inl meets ↦
            rw (meets, events_of)
              (ap (counts_at side t (events_of own start end records)) (
                  skip_if (count_down r.speaker_id) (count_up r.speaker_id counts) counts
                    (max start r.start_us == t) (min end r.end_us == t) (same_side own side) h)
                ∙ rest)
        | inr apart ↦ rw (apart, events_of) rest
      ]

  module _ (l : String) where
    -- What holds of equal counters.
    after :
        {found other : LabelCounts} (m n : ℕ)
        → found ≡ other
        → ArePositive other × (number_of l other + m ≡ n)
        → ArePositive found × (number_of l found + m ≡ n)
    after m n same h = subst (λ c. ArePositive c × (number_of l c + m ≡ n)) (sym same) h

    pub counts_at-events_of :
        (side : Side) (t : ℕ) (records : List RttmRecord) (counts : LabelCounts)
        → ArePositive counts
        → counted start end l (leaves_at start end l t) records ≤ number_of l counts
        → ArePositive (counts_at side t (events_of side start end records) counts)
          × (number_of l (counts_at side t (events_of side start end records) counts)
                + counted start end l (leaves_at start end l t) records
              ≡ number_of l counts + counted start end l (enters_at start end l t) records)
    counts_at-events_of side t [] counts h enough = (h, refl)
    counts_at-events_of side t (r ∷ records) counts h enough =
        let left = left_of start end l r in
        let right = right_of start end l r in
        let entered = one_for (has_label start end l (enters_at start end l t) r) in
        let gone = one_for (has_label start end l (leaves_at start end l t) r) in
        let ours = str_eq r.speaker_id l in
        elim (Bool-cases (ltb left right)) [
          | inl meets ↦
              let enters : entered ≡ one_for (left == t && ours) =
                ap (λ b. one_for (b && (left == t) && ours)) meets in
              let leaves : gone ≡ one_for (right == t && ours) =
                ap (λ b. one_for (b && (right == t) && ours)) meets in
              let (positive, here) =
                number_of-pair_at l t left right r.speaker_id counts (ground (arith, meets)) h
                  (omega (arith, enough, leaves)) in
              let (kept, rest) =
                counts_at-events_of side t records (pair_at t left right r.speaker_id counts)
                  positive (omega (arith, enough, leaves, enters, here)) in
              let same : counts_at side t (events_of side start end (r ∷ records)) counts
                  ≡ counts_at side t (events_of side start end records)
                      (pair_at t left right r.speaker_id counts) =
                rw (meets, events_of)
                  (counts_at-pair side t left right r.speaker_id (events_of side start end records)
                    counts) in
              after _ _ same (kept, omega (arith, rest, here, enters, leaves))
          | inr apart ↦
              let enters : entered ≡ 0 = ap (λ b. one_for (b && (left == t) && ours)) apart in
              let leaves : gone ≡ 0 = ap (λ b. one_for (b && (right == t) && ours)) apart in
              let (kept, rest) =
                counts_at-events_of side t records counts h (omega (arith, enough, leaves)) in
              let same : counts_at side t (events_of side start end (r ∷ records)) counts
                  ≡ counts_at side t (events_of side start end records) counts =
                rw (apart, events_of) refl in
              after _ _ same (kept, omega (arith, rest, enters, leaves))
        ]
