-- ===== src/RecordingScore/Aggregate.antt =====
-- src/sddiar/evaluation.py: `aggregate_recording_scores`, the score of a corpus from the scores of
-- its recordings.
pub mod Present
pub mod WordInputs
pub mod Pooled
pub mod Bounds
pub mod Permuted
pub mod Order
mod Tests
use sddiar.Base.{
  ℕ, ◌+◌, ◌-◌, ◌*◌, Bool, true, false, Option, none, some, List, [], ◌∷◌, ◌++◌, map, length, sum_of,
  keep_if, if◌then◌else◌,
}
use sddiar.Floats.{Floats}
use sddiar.Scoring.Boundaries.{EventCounts}
use sddiar.DiarizationError.{ErrorSums, ErrorComponents}
use sddiar.DiarizationError.Speakers.{
  float_ratio, mean_error, SpeakerTimes, OverlapTimes, Precision, precision_recall_f1, no_overlap,
}
use sddiar.WordScores.{WordMetrics, MicroMetrics, count}
use sddiar.RecordingScore.{RecordingScore, least_of, coverage_of, accuracy_of}

pub record AggregateScore (F : Type 0) : Type 0 where
  pub recording_count : ℕ
  pub diarization_all : ErrorComponents F
  pub diarization_nonoverlap : ErrorComponents F
  pub jer : F
  pub eligible_h2_files : ℕ
  pub complete_merge_files : ℕ
  pub acoustic_complete_merge_rate : F
  pub unsafe_complete_merge_rate : F
  pub eligible_h1_files : ℕ
  pub false_h2_files : ℕ
  pub false_h2_rate : F
  pub false_h2_secondary_duration_us : ℕ
  pub false_h2_duration_ratio : F
  pub speaker_count_accuracy : F
  pub worst_speaker_coverage : Option F
  pub worst_speaker_assigned_accuracy : Option F
  -- A count that is not evaluated is `none`.
  pub scd : Option (EventCounts × Precision F)
  pub overlap : OverlapTimes × Option (Precision F)
  pub words : Option (WordMetrics F)
  pub micros : Option (MicroMetrics F)

module _ {A : Type 0} where
  abbrev pub add_present : Option A → List A → List A
  add_present none xs = xs
  add_present (some x) xs = x ∷ xs

  -- `[metric for metric in metrics if metric is not None]`
  abbrev pub present : List (Option A) → List A
  present [] = []
  present (x ∷ xs) = add_present x (present xs)

  abbrev pub is_given : Option A → Bool
  is_given none = false
  is_given (some x) = true

-- `if not present: return None`
abbrev pub unless_empty : {A B : Type 0} → (List A → B) → List A → Option B
unless_empty pool [] = none
unless_empty pool (x ∷ xs) = some (pool (x ∷ xs))

module _ {F : Type 0} where
  -- `[speaker for score in items for speaker in score.speakers]`
  abbrev pub all_speakers : List (RecordingScore F) → List SpeakerTimes
  all_speakers [] = []
  all_speakers (s ∷ scores) = s.speakers ++ all_speakers scores

  module _ (floats : Floats F) where
    -- `_sum_error_components`, for the component that `attribute` names
    abbrev pub sum_error_components :
        List (RecordingScore F) → (RecordingScore F → ErrorComponents F) → ErrorComponents F
    sum_error_components scores attribute =
        let scored = sum_of (λ s. (attribute s).sums.scored_uem_us) scores in
        let reference = sum_of (λ s. (attribute s).sums.reference_speaker_us) scores in
        let miss = sum_of (λ s. (attribute s).sums.miss_us) scores in
        let false_alarm = sum_of (λ s. (attribute s).sums.false_alarm_us) scores in
        let confusion = sum_of (λ s. (attribute s).sums.confusion_us) scores in
        record {
          sums = record {
            scored_uem_us = scored;
            reference_speaker_us = reference;
            miss_us = miss;
            false_alarm_us = false_alarm;
            confusion_us = confusion;
          };
          der = float_ratio floats (miss + false_alarm + confusion) reference;
        }

    abbrev pub pool_events : List EventCounts → EventCounts × Precision F
    pool_events events =
        let true_positives = sum_of (λ (x : EventCounts). x.true_positives) events in
        let false_positives = sum_of (λ (x : EventCounts). x.false_positives) events in
        let false_negatives = sum_of (λ (x : EventCounts). x.false_negatives) events in
        (
          record {
            true_positives = true_positives;
            false_positives = false_positives;
            false_negatives = false_negatives;
          },
          precision_recall_f1 floats true_positives false_positives false_negatives,
        )

    -- `_aggregate_events`; events that are not evaluated are `none`.
    unfoldable pub aggregate_events : List (Option EventCounts) → Option (EventCounts × Precision F)
    aggregate_events events = unless_empty pool_events (present events)

    abbrev pub pool_overlap :
        List (OverlapTimes × Option (Precision F)) → OverlapTimes × Precision F
    pool_overlap metrics =
        let reference = sum_of (λ m. m.0.reference_overlap_us) metrics in
        let predicted = sum_of (λ m. m.0.predicted_overlap_us) metrics in
        let true_positive = sum_of (λ m. m.0.true_positive_us) metrics in
        let false_positive = sum_of (λ m. m.0.false_positive_us) metrics in
        let false_negative = sum_of (λ m. m.0.false_negative_us) metrics in
        (
          record {
            reference_overlap_us = reference;
            predicted_overlap_us = predicted;
            true_positive_us = true_positive;
            false_positive_us = false_positive;
            false_negative_us = false_negative;
          },
          precision_recall_f1 floats true_positive false_positive false_negative,
        )

    -- Times that are not evaluated are zero.
    abbrev pub or_no_overlap :
        Option (OverlapTimes × Precision F) → OverlapTimes × Option (Precision F)
    or_no_overlap none = (no_overlap, none)
    or_no_overlap (some (times, precision)) = (times, some precision)

    -- `_aggregate_overlap`
    unfoldable pub aggregate_overlap :
        List (OverlapTimes × Option (Precision F)) → OverlapTimes × Option (Precision F)
    aggregate_overlap metrics =
        or_no_overlap (unless_empty pool_overlap (keep_if (λ m. is_given m.1) metrics))

    -- The metrics of words from their sums. `eligible - correct` and `assigned - correct` are not
    -- negative for the metrics of `score_words`.
    abbrev pub words_from : ℕ → ℕ → ℕ → ℕ → ℕ → ℕ → ℕ → WordMetrics F
    words_from eligible assigned correct characters character_errors excluded forced = record {
      eligible_words = eligible;
      assigned_words = assigned;
      correct_words = correct;
      precision = float_ratio floats correct assigned;
      coverage = float_ratio floats assigned eligible;
      strict_error = float_ratio floats (eligible - correct) eligible;
      unsafe_error = float_ratio floats (assigned - correct) assigned;
      eligible_characters = characters;
      character_weighted_error = float_ratio floats character_errors characters;
      excluded_overlap_or_boundary_words = excluded;
      forced_overlap_or_boundary_assignments = forced;
    }

    -- `round` is Python's, on floats that are not negative.
    module _ (round : F → ℕ) where
      -- `round(metric.character_weighted_error * metric.eligible_characters)`
      abbrev pub wrong_characters : WordMetrics F → ℕ
      wrong_characters m =
          round (floats.mul m.character_weighted_error (floats.of_int m.eligible_characters))

      abbrev pub pool_words : List (WordMetrics F) → WordMetrics F
      pool_words metrics =
          words_from (sum_of (λ m. m.eligible_words) metrics)
            (sum_of (λ m. m.assigned_words) metrics) (sum_of (λ m. m.correct_words) metrics)
            (sum_of (λ m. m.eligible_characters) metrics) (sum_of wrong_characters metrics)
            (sum_of (λ m. m.excluded_overlap_or_boundary_words) metrics)
            (sum_of (λ m. m.forced_overlap_or_boundary_assignments) metrics)

      -- `_aggregate_words`
      unfoldable pub aggregate_words : List (Option (WordMetrics F)) → Option (WordMetrics F)
      aggregate_words metrics = unless_empty pool_words (present metrics)

      -- `round(metric.unknown_short_rate * metric.eligible_micros)`
      abbrev pub unknown_micros : MicroMetrics F → ℕ
      unknown_micros m = round (floats.mul m.unknown_short_rate (floats.of_int m.eligible_micros))

      abbrev pub pool_micros : List (MicroMetrics F) → MicroMetrics F
      pool_micros metrics =
          let eligible = sum_of (λ (m : MicroMetrics F). m.eligible_micros) metrics in
          let assigned = sum_of (λ (m : MicroMetrics F). m.assigned_micros) metrics in
          let correct = sum_of (λ (m : MicroMetrics F). m.correct_micros) metrics in
          record {
            eligible_micros = eligible;
            assigned_micros = assigned;
            correct_micros = correct;
            precision = float_ratio floats correct assigned;
            coverage = float_ratio floats assigned eligible;
            unknown_short_rate = float_ratio floats (sum_of unknown_micros metrics) eligible;
          }

      -- `_aggregate_micros`
      unfoldable pub aggregate_micros : List (Option (MicroMetrics F)) → Option (MicroMetrics F)
      aggregate_micros metrics = unless_empty pool_micros (present metrics)

      -- `aggregate_recording_scores`, for quotients within the range of a float
      unfoldable pub aggregate_recording_scores : List (RecordingScore F) → AggregateScore F
      aggregate_recording_scores items =
          let eligible_h2 = keep_if (λ (s : RecordingScore F). s.eligible_reference_h2) items in
          let eligible_h1 = keep_if (λ (s : RecordingScore F). s.eligible_reference_h1) items in
          let count_eligible = length eligible_h1 + length eligible_h2 in
          let merged = count (λ (s : RecordingScore F). s.acoustic_complete_merge) eligible_h2 in
          let unsafe = count (λ (s : RecordingScore F). s.unsafe_complete_merge) eligible_h2 in
          let split = count (λ (s : RecordingScore F). s.false_h2) eligible_h1 in
          let false_h2_duration =
            sum_of (λ (s : RecordingScore F). s.false_h2_secondary_duration_us) eligible_h1 in
          let h1_reference_duration =
            sum_of (λ (t : SpeakerTimes). t.reference_duration_us) (all_speakers eligible_h1) in
          record {
            recording_count = length items;
            diarization_all = sum_error_components items (λ s. s.diarization_all);
            diarization_nonoverlap = sum_error_components items (λ s. s.diarization_nonoverlap);
            jer = mean_error floats (map (λ (s : RecordingScore F). s.jer) items);
            eligible_h2_files = length eligible_h2;
            complete_merge_files = merged;
            acoustic_complete_merge_rate = float_ratio floats merged (length eligible_h2);
            unsafe_complete_merge_rate = float_ratio floats unsafe (length eligible_h2);
            eligible_h1_files = length eligible_h1;
            false_h2_files = split;
            false_h2_rate = float_ratio floats split (length eligible_h1);
            false_h2_secondary_duration_us = false_h2_duration;
            false_h2_duration_ratio = float_ratio floats false_h2_duration h1_reference_duration;
            speaker_count_accuracy =
                float_ratio floats (count (λ (s : RecordingScore F). s.speaker_count_correct) items)
                  count_eligible;
            worst_speaker_coverage =
                least_of floats (map (coverage_of floats) (all_speakers items));
            worst_speaker_assigned_accuracy =
                least_of floats (map (accuracy_of floats) (all_speakers items));
            scd = aggregate_events (map (λ (s : RecordingScore F). some s.scd) items);
            overlap = aggregate_overlap (map (λ (s : RecordingScore F). s.overlap) items);
            words = aggregate_words (map (λ (s : RecordingScore F). s.words) items);
            micros = aggregate_micros (map (λ (s : RecordingScore F). s.micros) items);
          }
