-- ===== src/RecordingScore/Score.antt =====
-- src/sddiar/evaluation.py: `score_recording` itself, in its checks and its result.
use Prim.Native.String.{String}
use Prim.Native.Nat.{◌^◌}
use sddiar.Base.{
  ℕ, ◌+◌, ◌-◌, ◌*◌, Bool, true, false, not, ◌&&◌, ◌||◌, Option, none, some, List, ◌++◌, map, length,
  sum_of, any, keep_if, Result, ok, evaluation, overflow, ◌>>=◌, ◌>>◌, raise_if, ltb, leb, ◌==◌,
  if◌then◌else◌,
}
use sddiar.Base.Sort.{sort}
use sddiar.Floats.{Floats}
use sddiar.Scoring.{sorted_set}
use sddiar.Scoring.Boundaries.{score_boundaries}
use sddiar.DiarizationError.{
  TimelineCell, ErrorSums, error_loop, no_sums, speakers_on, error_components, mapping_from_cells,
}
use sddiar.DiarizationError.OneToOne.{pairs_in}
use sddiar.DiarizationError.Speakers.{
  speaker_duration, float_ratio, jer, speaker_scores, precision_recall_f1, overlap_metrics,
  ref_positive,
}
use sddiar.WordScores.{WordMetrics, MicroMetrics, is_reference_speaker, is_hypothesis_speaker}
use sddiar.TimelineCells.{timeline_cells, uem_by_channel, validate_recording_ids, file_ids}
use sddiar.RecordingScore.{
  ScoringConfig, Recording, RecordingScore, Channels, inside_uem, der_collar_boundaries,
  apply_collar_all, or_empty, or_given, check_limits, infer_id, is_outside, has_decisions_only,
  passes_speaker_aware, second_or_zero, quotient, least_of, coverage_of, accuracy_of, word_score,
  micro_score,
}
use sddiar.RecordingScore.Changes.{derive_change_boundaries}

-- The labels of a side that speak for at least `floor` in the cells
abbrev pub material : (TimelineCell → List String) → List TimelineCell → ℕ → List String
material side cells floor =
    keep_if (λ speaker. leb floor (speaker_duration side cells speaker)) (speakers_on side cells)

-- `sorted(hypothesis_durations.values(), reverse=True)`
abbrev pub ordered_durations : List TimelineCell → List ℕ
ordered_durations cells =
    sort (λ m n. leb n m)
      (map (speaker_duration (λ c. c.hypothesis_speakers) cells)
        (speakers_on (λ c. c.hypothesis_speakers) cells))

-- `false_h2_secondary_duration` and `h1_reference_duration`, for the material speakers
abbrev pub secondary_duration : List TimelineCell → List String → ℕ
secondary_duration cells material_refs =
    if length material_refs == 1 then second_or_zero (ordered_durations cells) else 0

abbrev pub h1_duration : List TimelineCell → List String → ℕ
h1_duration cells material_refs =
    if length material_refs == 1
    then sum_of (speaker_duration (λ c. c.reference_speakers) cells) material_refs
    else 0

-- A quotient of integers that rounds to no float: Python raises `OverflowError` from half a last
-- place below 2 ** 1024 on.
abbrev pub is_too_large : ℕ → ℕ → Bool
is_too_large numerator denominator =
    not (denominator == 0) && leb (denominator * (2 ^ 1024 - 2 ^ 970)) numerator

abbrev pub error_overflows : ErrorSums → Bool
error_overflows sums =
    is_too_large (sums.miss_us + sums.false_alarm_us + sums.confusion_us) sums.reference_speaker_us

-- Whether one of the quotients of `score_recording` is too large for a float. The others have a
-- numerator that is at most the denominator.
unfoldable pub some_overflow :
    ScoringConfig → List TimelineCell → List TimelineCell → List (String × String) → Bool
some_overflow cfg cells der_cells mapping =
    let material_refs =
      material (λ c. c.reference_speakers) cells cfg.reference_speaker_duration_floor_us in
    error_overflows (error_loop mapping false no_sums der_cells)
    || error_overflows (error_loop mapping true no_sums der_cells)
    || is_too_large (secondary_duration cells material_refs) (h1_duration cells material_refs)

abbrev pub is_given_true : Option Bool → Bool
is_given_true none = false
is_given_true (some given) = given

-- What the cells on the whole UEM, the cells behind the collar, their mapping and the sets of
-- boundaries give.
module _ {F : Type 0} (floats : Floats F) (cfg : ScoringConfig) where
  abbrev pub recording_score :
      String
      → String
      → Option Bool
      → List TimelineCell
      → List TimelineCell
      → List ((String × String) × ℕ)
      → List ℕ
      → List ℕ
      → Option (WordMetrics F)
      → Option (MicroMetrics F)
      → RecordingScore F
  recording_score id status available cells der_cells found ref_scd pred_scd words micros =
      let mapping = pairs_in found in
      let material_refs =
        material (λ c. c.reference_speakers) cells cfg.reference_speaker_duration_floor_us in
      let material_hyps =
        material (λ c. c.hypothesis_speakers) cells cfg.hypothesis_speaker_duration_floor_us in
      let eligible_h1 = length material_refs == 1 in
      let eligible_h2 = length material_refs == 2 in
      let complete_merge = eligible_h2 && (length material_hyps == 1) in
      let secondary = secondary_duration cells material_refs in
      let h1_reference_duration = h1_duration cells material_refs in
      let speakers = speaker_scores cells mapping material_refs in
      let scd = score_boundaries ref_scd pred_scd cfg.scd_collar_us in
      record {
        recording_id = id;
        mapping = found;
        diarization_all = error_components (quotient floats) floats.zero der_cells mapping false;
        diarization_nonoverlap =
            error_components (quotient floats) floats.zero der_cells mapping true;
        jer = jer floats der_cells mapping;
        reference_speaker_count = length material_refs;
        hypothesis_speaker_count = length material_hyps;
        eligible_reference_h1 = eligible_h1;
        eligible_reference_h2 = eligible_h2;
        acoustic_complete_merge = complete_merge;
        unsafe_complete_merge = complete_merge && passes_speaker_aware status;
        false_h2 = eligible_h1 && (length material_hyps == 2);
        false_h2_secondary_duration_us = secondary;
        false_h2_duration_ratio = float_ratio floats secondary h1_reference_duration;
        speaker_count_correct =
            (eligible_h1 || eligible_h2) && (length material_refs == length material_hyps);
        speakers = speakers;
        worst_speaker_coverage = least_of floats (map (coverage_of floats) speakers);
        worst_speaker_assigned_accuracy = least_of floats (map (accuracy_of floats) speakers);
        scd = scd;
        scd_precision =
            precision_recall_f1 floats scd.true_positives scd.false_positives scd.false_negatives;
        overlap =
            overlap_metrics floats (is_given_true available || any (λ c. ref_positive c) cells)
              cells;
        words = words;
        micros = micros;
        quality_status = status;
      }

  module _ {Character : Type 0} (upper : String → String) (is_space : Character → Bool) where
    -- The boundaries of both sides, given or derived
    abbrev pub reference_scd : Recording Character → Channels → List ℕ
    reference_scd r uem = sorted_set (
        or_given r.reference_scd_us
          (derive_change_boundaries (is_reference_speaker upper) r.reference uem))

    abbrev pub predicted_scd : Recording Character → Channels → List ℕ
    predicted_scd r uem = sorted_set (
        or_given r.predicted_scd_us
          (derive_change_boundaries (is_hypothesis_speaker upper) r.hypothesis uem))

    -- From the checked UEM on
    unfoldable pub score_on : Recording Character → String → Channels → Result (RecordingScore F)
    score_on r id uem = do
      let ref_scd = reference_scd r uem
      let pred_scd = predicted_scd r uem
      raise_if (any (λ point. not (inside_uem point uem)) (ref_scd ++ pred_scd)) evaluation
      raise_if (any (is_outside uem) (or_empty r.words)) evaluation
      let cells = timeline_cells upper r.reference r.hypothesis uem
      raise_if
          (ltb 2 (length (speakers_on (λ c. c.reference_speakers) cells))
            || ltb 2 (length (speakers_on (λ c. c.hypothesis_speakers) cells)))
          evaluation
      let boundaries = der_collar_boundaries upper r.reference uem
      apply_collar_all uem boundaries cfg.der_collar_us >>= λ collared.
          let der_cells = timeline_cells upper r.reference r.hypothesis collared in
          mapping_from_cells der_cells >>= λ found.
          word_score floats upper is_space (pairs_in found) r.words (or_empty r.word_decisions)
          >>= λ words.
              micro_score floats upper is_space (pairs_in found) r.micro_decisions >>= λ micros.
              raise_if (some_overflow cfg cells der_cells (pairs_in found)) overflow
              >> ok (
                  recording_score id r.quality_status r.overlap_reference_available cells der_cells
                    found ref_scd pred_scd words micros)

    -- `score_recording`
    unfoldable pub score_recording : Recording Character → Result (RecordingScore F)
    score_recording r =
        check_limits r
        >> (infer_id r.recording_id (file_ids r.reference r.hypothesis r.uem) >>= λ id.
            validate_recording_ids id r.reference r.hypothesis r.uem
            >> raise_if (has_decisions_only r.words r.word_decisions) evaluation
            >> (uem_by_channel r.uem >>= λ uem. score_on r id uem))
