-- ===== src/DiarizationError/Speakers.antt =====
-- src/sddiar/evaluation.py: the scores of single speakers and of overlaps, over the cells of a
-- timeline.
use Prim.Native.String.{String}
use text.Mathlib.Text.{◌==◌ as str_eq}
use sddiar.Base.{
  ℕ, ◌+◌, ◌-◌, ◌*◌, Bool, false, not, ◌&&◌, ◌||◌, Option, none, some, List, [], ◌∷◌, map, length,
  sum_of, any, keep_if, leb, if◌then◌else◌, ◌==◌,
}
use sddiar.Floats.{Floats}
use sddiar.Hypotheses.Fit.{sum_floats}
use sddiar.DiarizationError.{TimelineCell, duration_of, label_in, mapped_to, ratio, speakers_on}

-- `sum(cell.duration_us for cell in cells if test)`
abbrev pub time_where : (TimelineCell → Bool) → List TimelineCell → ℕ
time_where test cells = sum_of (λ c. if test c then duration_of c else 0) cells

-- `_speaker_durations`, as a function of the speaker; one side of the cells is given.
abbrev pub speaker_duration : (TimelineCell → List String) → List TimelineCell → String → ℕ
speaker_duration side cells speaker = time_where (λ c. label_in speaker (side c)) cells

-- `inverse.get(ref)`, where a later item replaces an earlier one
abbrev pub inverse_of : String → Option String → List (String × String) → Option String
inverse_of ref found [] = found
inverse_of ref found ((hyp, reference) ∷ mapping) =
    inverse_of ref (if str_eq reference ref then some hyp else found) mapping

module _ {F : Type 0} (floats : Floats F) where
  -- `_ratio`
  abbrev pub float_ratio : ℕ → ℕ → F
  float_ratio numerator denominator =
      ratio (λ m n. floats.div (floats.of_int m) (floats.of_int n)) floats.zero numerator
        denominator

  abbrev pub speaker_error : List TimelineCell → String → Option String → F
  speaker_error cells ref none = floats.one
  speaker_error cells ref (some hypothesis) =
      let ref_duration = speaker_duration (λ c. c.reference_speakers) cells ref in
      let hyp_duration = speaker_duration (λ c. c.hypothesis_speakers) cells hypothesis in
      let intersection =
        time_where
          (λ c. label_in ref c.reference_speakers && label_in hypothesis c.hypothesis_speakers)
          cells in
      floats.sub floats.one (float_ratio intersection (ref_duration + hyp_duration - intersection))

  abbrev pub mean_error : List F → F
  mean_error [] = floats.zero
  mean_error (e ∷ errors) =
      floats.div (sum_floats floats floats.zero (e ∷ errors)) (floats.of_int (length (e ∷ errors)))

  -- `_jer`
  unfoldable pub jer : List TimelineCell → List (String × String) → F
  jer cells mapping = mean_error (
      map (λ ref. speaker_error cells ref (inverse_of ref none mapping))
        (speakers_on (λ c. c.reference_speakers) cells))

-- `SpeakerScore`; its ratios are `ratio`s of these times.
pub record SpeakerTimes : Type 0 where
  pub reference_speaker_id : String
  pub reference_duration_us : ℕ
  pub assigned_duration_us : ℕ
  pub correct_duration_us : ℕ

-- `cell.reference_speakers == {ref}`, for distinct labels
abbrev pub speaks_alone : String → List String → Bool
speaks_alone ref [] = false
speaks_alone ref (l ∷ []) = str_eq l ref
speaks_alone ref (l ∷ m ∷ labels) = false

abbrev pub is_mapped : Option String → String → Bool
is_mapped none ref = false
is_mapped (some label) ref = str_eq label ref

abbrev pub score_speaker : List TimelineCell → List (String × String) → String → SpeakerTimes
score_speaker cells mapping ref =
    let relevant = keep_if (λ c. speaks_alone ref c.reference_speakers) cells in
    record {
      reference_speaker_id = ref;
      reference_duration_us = sum_of duration_of relevant;
      assigned_duration_us = time_where (λ c. leb 1 (length c.hypothesis_speakers)) relevant;
      correct_duration_us =
          time_where (λ c. any (λ h. is_mapped (mapped_to mapping h) ref) c.hypothesis_speakers)
            relevant;
    }

-- `_speaker_scores`, for the sorted speakers that are included
unfoldable pub speaker_scores :
    List TimelineCell → List (String × String) → List String → List SpeakerTimes
speaker_scores cells mapping refs = map (score_speaker cells mapping) refs

-- The times of `OverlapMetrics`
pub record OverlapTimes : Type 0 where
  pub reference_overlap_us : ℕ
  pub predicted_overlap_us : ℕ
  pub true_positive_us : ℕ
  pub false_positive_us : ℕ
  pub false_negative_us : ℕ

abbrev pub ref_positive : TimelineCell → Bool
ref_positive c = leb 2 (length c.reference_speakers) || c.reference_overlap_label

abbrev pub pred_positive : TimelineCell → Bool
pred_positive c = leb 2 (length c.hypothesis_speakers) || c.hypothesis_overlap_label

-- `positive * duration`, for a Boolean
abbrev pub add_overlap : TimelineCell → OverlapTimes → OverlapTimes
add_overlap c times =
    let duration = duration_of c in
    let ref = ref_positive c in
    let pred = pred_positive c in
    record {
      reference_overlap_us = times.reference_overlap_us + (if ref then duration else 0);
      predicted_overlap_us = times.predicted_overlap_us + (if pred then duration else 0);
      true_positive_us = times.true_positive_us + (if ref && pred then duration else 0);
      false_positive_us = times.false_positive_us + (if not ref && pred then duration else 0);
      false_negative_us = times.false_negative_us + (if ref && not pred then duration else 0);
    }

unfoldable pub add_overlaps : OverlapTimes → List TimelineCell → OverlapTimes
add_overlaps times [] = times
add_overlaps times (c ∷ cells) = add_overlaps (add_overlap c times) cells

abbrev pub no_overlap : OverlapTimes
no_overlap = record {
  reference_overlap_us = 0;
  predicted_overlap_us = 0;
  true_positive_us = 0;
  false_positive_us = 0;
  false_negative_us = 0;
}

-- `_precision_recall_f1`
pub record Precision (F : Type 0) : Type 0 where
  pub precision : F
  pub recall : F
  pub f1 : F

module _ {F : Type 0} (floats : Floats F) where
  unfoldable pub precision_recall_f1 : ℕ → ℕ → ℕ → Precision F
  precision_recall_f1 true_positives false_positives false_negatives =
      if true_positives == false_positives
        && false_positives == false_negatives
        && false_negatives == 0
      then record { precision = floats.one; recall = floats.one; f1 = floats.one }
      else record {
        precision = float_ratio floats true_positives (true_positives + false_positives);
        recall = float_ratio floats true_positives (true_positives + false_negatives);
        f1 =
            float_ratio floats (2 * true_positives)
              (2 * true_positives + false_positives + false_negatives);
      }

  -- `_overlap_metrics`; without an evaluation there is no precision.
  unfoldable pub overlap_metrics : Bool → List TimelineCell → OverlapTimes × Option (Precision F)
  overlap_metrics evaluated cells =
      let times = add_overlaps no_overlap cells in
      if evaluated
      then (
        times,
        some (
            precision_recall_f1 times.true_positive_us times.false_positive_us
              times.false_negative_us),
      )
      else (no_overlap, none)
