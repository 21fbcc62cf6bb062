-- ===== src/DiarizationError/Scored.antt =====
-- The scores of speakers and overlaps account for the time of the cells.
use Prim.Native.String.{String}
use sddiar.Base.{
  ℕ, ◌+◌, ◌≤◌, ◌≡◌, ◌⊎◌, refl, Bool, true, false, not, ◌&&◌, none, List, [], ◌∷◌, length, sum_of,
  any, keep_if, All, leb, if◌then◌else◌, arith, inl, inr,
}
use sddiar.Floats.{Floats}
use sddiar.DiarizationError.{TimelineCell, duration_of, mapped_to}
use sddiar.DiarizationError.Speakers.{
  time_where, SpeakerTimes, is_mapped, speaker_scores, OverlapTimes, ref_positive, pred_positive,
  add_overlap, add_overlaps, no_overlap, overlap_metrics,
}

-- The correct time of a speaker is assigned time, and this is reference time.
abbrev pub IsWithin : SpeakerTimes → Type 0
IsWithin s =
    (s.correct_duration_us ≤ s.assigned_duration_us)
    × (s.assigned_duration_us ≤ s.reference_duration_us)

any-length :
    (test : String → Bool) (labels : List String)
    → any test labels ≡ true
    → leb 1 (length labels) ≡ true
any-length test [] h = cc
any-length test (l ∷ labels) h = ground arith

one_cell :
    (correct assigned : Bool) (duration : ℕ)
    → (correct ≡ true → assigned ≡ true)
    → ((if correct then duration else 0) ≤ (if assigned then duration else 0))
      × ((if assigned then duration else 0) ≤ duration)
one_cell true true duration h = (omega arith, omega arith)
one_cell true false duration h = let impossible = h refl in cc
one_cell false assigned duration h = (ground arith, ground arith)

time_where-le :
    (mapping : List (String × String)) (ref : String) (cells : List TimelineCell)
    → (time_where (λ c. any (λ h. is_mapped (mapped_to mapping h) ref) c.hypothesis_speakers) cells
        ≤ time_where (λ c. leb 1 (length c.hypothesis_speakers)) cells)
      × (time_where (λ c. leb 1 (length c.hypothesis_speakers)) cells ≤ sum_of duration_of cells)
time_where-le mapping ref [] = (omega arith, omega arith)
time_where-le mapping ref (c ∷ cells) =
    let (first, second) = time_where-le mapping ref cells in
    let (here, there) =
      one_cell (any (λ h. is_mapped (mapped_to mapping h) ref) c.hypothesis_speakers)
        (leb 1 (length c.hypothesis_speakers)) (duration_of c)
        (any-length _ c.hypothesis_speakers) in
    (omega (arith, first, here), omega (arith, second, there))

-- For any speakers, cells and mapping, the times of every speaker score are within each other:
-- correct, assigned, reference.
pub speaker_scores-IsWithin :
    (cells : List TimelineCell) (mapping : List (String × String)) (refs : List String)
    → All IsWithin (speaker_scores cells mapping refs)
unfolding speaker_scores
speaker_scores-IsWithin cells mapping [] = tt
speaker_scores-IsWithin cells mapping (r ∷ refs) =
    (time_where-le mapping r (keep_if _ cells), speaker_scores-IsWithin cells mapping refs)

-- Both sides' overlap is hit or missed.
abbrev pub IsSplit : List TimelineCell → OverlapTimes → Type 0
IsSplit cells times =
    (times.reference_overlap_us ≡ times.true_positive_us + times.false_negative_us)
    × (times.predicted_overlap_us ≡ times.true_positive_us + times.false_positive_us)
    × (times.true_positive_us ≡ time_where (λ c. ref_positive c && pred_positive c) cells)

one_overlap :
    (ref pred : Bool) (duration : ℕ)
    → ((if ref then duration else 0)
        ≡ (if ref && pred then duration else 0) + (if ref && not pred then duration else 0))
      × ((if pred then duration else 0)
          ≡ (if ref && pred then duration else 0) + (if not ref && pred then duration else 0))
one_overlap true pred duration = (ground arith, ground arith)
one_overlap false pred duration = (omega arith, ground arith)

add_overlaps_lem :
    (times : OverlapTimes) (cells : List TimelineCell)
    → (times.reference_overlap_us ≡ times.true_positive_us + times.false_negative_us)
    → (times.predicted_overlap_us ≡ times.true_positive_us + times.false_positive_us)
    → ((add_overlaps times cells).reference_overlap_us
        ≡ (add_overlaps times cells).true_positive_us
          + (add_overlaps times cells).false_negative_us)
      × ((add_overlaps times cells).predicted_overlap_us
          ≡ (add_overlaps times cells).true_positive_us
            + (add_overlaps times cells).false_positive_us)
      × ((add_overlaps times cells).true_positive_us
          ≡ times.true_positive_us + time_where (λ c. ref_positive c && pred_positive c) cells)
unfolding add_overlaps
add_overlaps_lem times [] h k = (h, k, omega arith)
add_overlaps_lem times (c ∷ cells) h k =
    let (ref, pred) = one_overlap (ref_positive c) (pred_positive c) (duration_of c) in
    let (first, second, third) =
      add_overlaps_lem (add_overlap c times) cells (omega (arith, h, ref))
        (omega (arith, k, pred)) in
    (first, second, omega (arith, third))

-- The reference overlap is the hit and the missed overlap, the predicted overlap is the hit and the
-- false overlap, and the hit overlap is that of the cells where both sides have one. Without an
-- evaluation every time is zero and there is no precision.
pub overlap_metrics-IsSplit :
    {F : Type 0} (floats : Floats F) (evaluated : Bool) (cells : List TimelineCell)
    → ((evaluated ≡ true) × IsSplit cells (overlap_metrics floats evaluated cells).0)
      ⊎ ((evaluated ≡ false) × (overlap_metrics floats evaluated cells ≡ (no_overlap, none)))
unfolding overlap_metrics
overlap_metrics-IsSplit floats true cells =
    let (first, second, third) = add_overlaps_lem no_overlap cells (omega arith) (omega arith) in
    inl (refl, (first, second, omega (arith, third)))
overlap_metrics-IsSplit floats false cells = inr (refl, refl)
