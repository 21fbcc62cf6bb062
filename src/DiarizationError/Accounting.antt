-- ===== src/DiarizationError/Accounting.antt =====
-- The accounting identities of the diarization error.
use Prim.Native.String.{String}
use sddiar.Base.{
  ℕ, ◌+◌, ◌-◌, ◌*◌, ◌≤◌, ◌≡◌, refl, ap, ◌∙◌, min, max, Bool, true, false, ◌||◌, Option, none, some,
  List, [], ◌∷◌, length, sum_of, All, if◌then◌else◌, arith,
}
use native.Mathlib.Nat.{add-mul}
use sddiar.DiarizationError.{
  TimelineCell, ErrorSums, duration_of, mapped_to, some_in, count_if, correct_of, is_skipped,
  add_counted, error_loop, no_sums, error_components,
}

pub count_if_le :
    (test : String → Bool) (labels : List String) → count_if test labels ≤ length labels
count_if_le test [] = omega arith
count_if_le test (l ∷ labels) = ground (arith, count_if_le test labels)

count_if-or :
    (p q : String → Bool) (labels : List String)
    → count_if (λ l. p l || q l) labels ≤ count_if p labels + count_if q labels
count_if-or p q [] = omega arith
count_if-or p q (l ∷ labels) = ground (arith, count_if-or p q labels)

-- At most one label of a set is mapped to each reference speaker.
abbrev pub IsOneToOne : List (String × String) → List String → Type 0
IsOneToOne mapping labels =
    (r : String) → count_if (λ l. some_in (mapped_to mapping l) (r ∷ [])) labels ≤ 1

some_in-cons :
    (found : Option String) (r : String) (refs : List String)
    → some_in found (r ∷ refs) ≡ (some_in found (r ∷ []) || some_in found refs)
some_in-cons none r refs = refl
some_in-cons (some x) r refs = ground arith

count_if-cong :
    (p q : String → Bool) (labels : List String)
    → ((l : String) → p l ≡ q l)
    → count_if p labels ≡ count_if q labels
count_if-cong p q [] h = refl
count_if-cong p q (l ∷ labels) h = rw (h l, count_if-cong p q labels h) refl

some_in-nil : (found : Option String) → some_in found [] ≡ false
some_in-nil none = refl
some_in-nil (some x) = refl

none_counted : (labels : List String) → count_if (λ l. false) labels ≤ 0
none_counted [] = omega arith
none_counted (l ∷ labels) = ground (arith, none_counted labels)

count_if-refs :
    (mapping : List (String × String)) (labels refs : List String)
    → IsOneToOne mapping labels
    → count_if (λ l. some_in (mapped_to mapping l) refs) labels ≤ length refs
count_if-refs mapping labels [] one =
    rw (count_if-cong _ (λ l. false) labels (λ l. some_in-nil (mapped_to mapping l)))
      (none_counted labels)
count_if-refs mapping labels (r ∷ refs) one =
    let split =
      count_if-cong (λ l. some_in (mapped_to mapping l) (r ∷ refs)) _ labels
        (λ l. some_in-cons (mapped_to mapping l) r refs) in
    let both =
      count_if-or (λ l. some_in (mapped_to mapping l) (r ∷ []))
        (λ l. some_in (mapped_to mapping l) refs) labels in
    rw split (omega (arith, both, one r, count_if-refs mapping labels refs one))

shares : (a b c e d : ℕ) → a ≡ b + c + e → a * d ≡ b * d + c * d + e * d
shares a b c e d h = rw h (add-mul (b + c) e d ∙ ap (λ x. x + e * d) (add-mul b c d))

-- What the cells that are not skipped contribute, by their duration.
abbrev pub counted : Bool → (TimelineCell → ℕ) → List TimelineCell → ℕ
counted skip amount cells =
    sum_of (λ c. if is_skipped skip c then 0 else amount c * duration_of c) cells

abbrev refs_of : TimelineCell → ℕ
refs_of c = length c.reference_speakers

abbrev hyps_of : TimelineCell → ℕ
hyps_of c = length c.hypothesis_speakers

-- The labels of every cell are mapped one to one.
abbrev pub AreOneToOne : List (String × String) → List TimelineCell → Type 0
AreOneToOne mapping cells =
    All (λ (c : TimelineCell). IsOneToOne mapping c.hypothesis_speakers) cells

module _ (mapping : List (String × String)) (skip : Bool) where
  abbrev confused : TimelineCell → ℕ
  confused c = min (refs_of c) (hyps_of c) - correct_of mapping c

  -- The sums of a loop are those before it and those of its cells.
  abbrev IsSum : ErrorSums → ErrorSums → List TimelineCell → Type 0
  IsSum after before cells =
      (after.reference_speaker_us ≡ before.reference_speaker_us + counted skip refs_of cells)
      × (after.miss_us ≡ before.miss_us + counted skip (λ c. refs_of c - hyps_of c) cells)
      × (after.false_alarm_us
          ≡ before.false_alarm_us + counted skip (λ c. hyps_of c - refs_of c) cells)
      × (after.confusion_us ≡ before.confusion_us + counted skip confused cells)

  -- One round of the loop.
  abbrev next_sums : Bool → TimelineCell → ErrorSums → ErrorSums
  next_sums skipped c sums = if skipped then sums else add_counted mapping c sums

  abbrev with_cell : Bool → TimelineCell → (TimelineCell → ℕ) → List TimelineCell → ℕ
  with_cell skipped c amount cells =
      (if skipped then 0 else amount c * duration_of c) + counted skip amount cells

  next_sums-IsSum :
      (skipped : Bool) (c : TimelineCell) (sums after : ErrorSums) (cells : List TimelineCell)
      → IsSum after (next_sums skipped c sums) cells
      → (after.reference_speaker_us ≡ sums.reference_speaker_us + with_cell skipped c refs_of cells)
        × (after.miss_us ≡ sums.miss_us + with_cell skipped c (λ c. refs_of c - hyps_of c) cells)
        × (after.false_alarm_us
            ≡ sums.false_alarm_us + with_cell skipped c (λ c. hyps_of c - refs_of c) cells)
        × (after.confusion_us ≡ sums.confusion_us + with_cell skipped c confused cells)
  next_sums-IsSum true c sums after cells (r, m, f, x) =
      (omega (arith, r), omega (arith, m), omega (arith, f), omega (arith, x))
  next_sums-IsSum false c sums after cells (r, m, f, x) =
      (omega (arith, r), omega (arith, m), omega (arith, f), omega (arith, x))

  error_loop-IsSum :
      (cells : List TimelineCell) (sums : ErrorSums)
      → IsSum (error_loop mapping skip sums cells) sums cells
  unfolding error_loop
  error_loop-IsSum [] sums = (omega arith, omega arith, omega arith, omega arith)
  error_loop-IsSum (c ∷ cells) sums =
      next_sums-IsSum (is_skipped skip c) c sums
        (error_loop mapping skip (next_sums (is_skipped skip c) c sums) cells) cells
        (error_loop-IsSum cells (next_sums (is_skipped skip c) c sums))

  cell_shares :
      (c : TimelineCell)
      → IsOneToOne mapping c.hypothesis_speakers
      → (refs_of c ≡ correct_of mapping c + (refs_of c - hyps_of c) + confused c)
        × (max (refs_of c) (hyps_of c)
            ≡ (refs_of c - hyps_of c)
              + (hyps_of c - refs_of c)
              + (confused c + correct_of mapping c))
  cell_shares c one =
      let below_refs = count_if-refs mapping c.hypothesis_speakers c.reference_speakers one in
      let below_hyps =
        count_if_le (λ h. some_in (mapped_to mapping h) c.reference_speakers)
          c.hypothesis_speakers in
      (omega (arith, below_refs, below_hyps), omega (arith, below_refs, below_hyps))

  abbrev pub IsBalanced : List TimelineCell → ErrorSums → Type 0
  IsBalanced cells sums =
      (sums.reference_speaker_us
        ≡ counted skip (correct_of mapping) cells + sums.miss_us + sums.confusion_us)
      × (sums.miss_us
            + sums.false_alarm_us
            + sums.confusion_us
            + counted skip (correct_of mapping) cells
          ≡ counted skip (λ c. max (length c.reference_speakers) (length c.hypothesis_speakers))
              cells)

  -- One cell's part of both identities.
  shares-cell :
      (skipped : Bool) (c : TimelineCell)
      → IsOneToOne mapping c.hypothesis_speakers
      → ((if skipped then 0 else refs_of c * duration_of c)
          ≡ (if skipped then 0 else correct_of mapping c * duration_of c)
            + (if skipped then 0 else (refs_of c - hyps_of c) * duration_of c)
            + (if skipped then 0 else confused c * duration_of c))
        × ((if skipped then 0 else max (refs_of c) (hyps_of c) * duration_of c)
            ≡ (if skipped then 0 else (refs_of c - hyps_of c) * duration_of c)
              + (if skipped then 0 else (hyps_of c - refs_of c) * duration_of c)
              + ((if skipped then 0 else confused c * duration_of c)
                  + (if skipped then 0 else correct_of mapping c * duration_of c)))
  shares-cell true c one = (omega arith, omega arith)
  shares-cell false c one =
      let (first, second) = cell_shares c one in
      (
        shares _ _ _ _ (duration_of c) first,
        shares _ _ _ _ (duration_of c) second
            ∙ ap
                (λ x.
                  (refs_of c - hyps_of c) * duration_of c
                  + (hyps_of c - refs_of c) * duration_of c
                  + x)
                (add-mul (confused c) (correct_of mapping c) (duration_of c)),
      )

  counted-shares :
      (cells : List TimelineCell)
      → AreOneToOne mapping cells
      → (counted skip refs_of cells
          ≡ counted skip (correct_of mapping) cells
            + counted skip (λ c. refs_of c - hyps_of c) cells
            + counted skip confused cells)
        × (counted skip (λ c. max (refs_of c) (hyps_of c)) cells
            ≡ counted skip (λ c. refs_of c - hyps_of c) cells
              + counted skip (λ c. hyps_of c - refs_of c) cells
              + (counted skip confused cells + counted skip (correct_of mapping) cells))
  counted-shares [] one = (omega arith, omega arith)
  counted-shares (c ∷ cells) (one, rest) =
      let (first, second) = shares-cell (is_skipped skip c) c one in
      let (later, later_too) = counted-shares cells rest in
      (omega (arith, first, later), omega (arith, second, later_too))

  -- For a mapping that is one to one on the labels of every cell, over the cells that are not
  -- skipped: the reference time is the correct time with the missed and the confused, and the
  -- errors with the correct time are, cell by cell, the larger number of speakers on either side.
  pub error_components-IsBalanced :
      {F : Type 0} (quotient : ℕ → ℕ → F) (zero_ratio : F) (cells : List TimelineCell)
      → AreOneToOne mapping cells
      → IsBalanced cells (error_components quotient zero_ratio cells mapping skip).sums
  unfolding error_components
  error_components-IsBalanced quotient zero_ratio cells one =
      let (r, m, f, x) = error_loop-IsSum cells no_sums in
      let (first, second) = counted-shares cells one in
      (omega (arith, r, m, x, first), omega (arith, m, f, x, second))

error_loop_scored :
    (mapping : List (String × String)) (sums : ErrorSums) (cells : List TimelineCell)
    → (error_loop mapping false sums cells).scored_uem_us
      ≡ sums.scored_uem_us + sum_of duration_of cells
unfolding error_loop
error_loop_scored mapping sums [] = omega arith
error_loop_scored mapping sums (c ∷ cells) =
    omega (arith, error_loop_scored mapping (add_counted mapping c sums) cells)

-- Without a skipped cell, every cell is scored.
pub error_components_scored :
    {F : Type 0} (mapping : List (String × String)) (quotient : ℕ → ℕ → F) (zero_ratio : F)
    (cells : List TimelineCell)
    → (error_components quotient zero_ratio cells mapping false).sums.scored_uem_us
      ≡ sum_of duration_of cells
unfolding error_components
error_components_scored mapping quotient zero_ratio cells =
    omega (arith, error_loop_scored mapping no_sums cells)
