-- ===== src/RecordingScore/Tests.antt =====
-- Tests of the score of a recording.
use Prim.Native.Nat.{◌^◌}
use Prim.Native.String.{String}
use sddiar.Base.{
  ℕ, ◌≡◌, refl, ◌==◌, Bool, true, false, Option, none, some, List, [], ◌∷◌, All, any, Error, Result,
  ok, err, evaluation, overflow,
}
use sddiar.Floats.Tests.{naturals}
use sddiar.Scoring.SortedSet.{Ascends}
use sddiar.TimelineCells.{RttmRecord, UemInterval}
use sddiar.RecordingScore.{ScoringConfig, Recording, RecordingScore, Channels}
use sddiar.RecordingScore.Changes.{channel_changes, derive_change_boundaries}
use sddiar.RecordingScore.Score.{recording_score, score_recording}
use sddiar.RecordingScore.Derived.{IsChannelChange, derive_change_boundaries-AreChanges}
use sddiar.TimelineCells.Whole.{is_among}
use sddiar.RecordingScore.Laws.{IsAccounted, score_recording-IsAccounted}
use sddiar.RecordingScore.Coherent.{IsCoherent, score_recording-IsCoherent}

abbrev pub upper : String → String
upper s = s

abbrev pub is_space : ℕ → Bool
is_space c = c == 0

abbrev pub cfg : ScoringConfig
cfg = record {
  reference_speaker_duration_floor_us = 20;
  hypothesis_speaker_duration_floor_us = 20;
  der_collar_us = 5;
  scd_collar_us = 10;
}

abbrev turn : String → ℕ → ℕ → RttmRecord
turn speaker start end = record {
  file_id = "f";
  speaker_id = speaker;
  start_us = start;
  end_us = end;
  channel = "1";
}

abbrev reference : List RttmRecord
reference = turn "A" 0 40 ∷ turn "B" 40 90 ∷ []

abbrev pub hypothesis : List RttmRecord
hypothesis = turn "x" 0 48 ∷ turn "y" 48 90 ∷ []

abbrev pub recording : List RttmRecord → Recording ℕ
recording hyp = record {
  recording_id = none;
  reference = reference;
  hypothesis = hyp;
  uem = record { file_id = "f"; start_us = 10; end_us = 85; channel = "1" } ∷ [];
  quality_status = "PASS_HIGH";
  reference_scd_us = none;
  predicted_scd_us = none;
  overlap_reference_available = none;
  words = none;
  word_decisions = none;
  micro_decisions = none;
}

abbrev channels : Channels
channels = ("1", (10, 85) ∷ []) ∷ []

changes_test : derive_change_boundaries (λ l. true) reference channels ≡ 40 ∷ []
unfolding derive_change_boundaries sddiar.Scoring.sorted_set sddiar.Scoring.dedup_sorted
    sddiar.Base.Sort.sort sddiar.RecordingScore.Changes.channel_changes
    sddiar.RecordingScore.Changes.sweep_points sddiar.Base.keep_if
changes_test = refl

derive_change_boundaries-AreChanges_example :
    Ascends (derive_change_boundaries (λ l. true) reference channels)
    × (is_among 40 (derive_change_boundaries (λ l. true) reference channels)
        ≡ any (λ c. is_among 40 (channel_changes (λ l. true) reference c)) channels)
    × All (IsChannelChange (λ l. true) reference 40) channels
derive_change_boundaries-AreChanges_example =
    derive_change_boundaries-AreChanges (λ l. true) reference channels 40

abbrev result_of : Result (RecordingScore ℕ) → RecordingScore ℕ
result_of (ok s) = s
result_of (err e) = recording_score naturals cfg "" "" none [] [] [] [] [] none none

abbrev score : List RttmRecord → Result (RecordingScore ℕ)
score hyp = score_recording naturals cfg upper is_space (recording hyp)

abbrev pub scored : RecordingScore ℕ
scored = result_of (score hypothesis)

pub score_test : score hypothesis ≡ ok scored
unfolding score_recording sddiar.DiarizationError.distinct_labels
    sddiar.TimelineCells.validate_recording_ids sddiar.TimelineCells.uem_by_channel
    sddiar.Base.map_each sddiar.Base.Sort.sort sddiar.Scoring.merge_intervals
    sddiar.Scoring.merge_loop sddiar.Base.keep_if sddiar.RecordingScore.Score.score_on
    sddiar.RecordingScore.Score.some_overflow sddiar.Scoring.sorted_set sddiar.Scoring.dedup_sorted
    derive_change_boundaries sddiar.RecordingScore.Changes.channel_changes
    sddiar.RecordingScore.Changes.sweep_points sddiar.Base.reverse_onto
    sddiar.TimelineCells.timeline_cells sddiar.TimelineCells.interval_cells
    sddiar.Base.Sort.insert_sorted sddiar.DiarizationError.Speakers.add_overlaps
    sddiar.DiarizationError.Speakers.jer sddiar.DiarizationError.Speakers.overlap_metrics
    sddiar.DiarizationError.Speakers.precision_recall_f1
    sddiar.DiarizationError.Speakers.speaker_scores sddiar.DiarizationError.best_pairing
    sddiar.DiarizationError.candidate_pairings sddiar.DiarizationError.choose_pairing
    sddiar.DiarizationError.cooccurrence sddiar.DiarizationError.error_components
    sddiar.DiarizationError.error_loop sddiar.DiarizationError.mapping_from_cells
    sddiar.DiarizationError.permutations sddiar.DiarizationError.picks
    sddiar.Hypotheses.Fit.sum_floats sddiar.RecordingScore.apply_collar_all
    sddiar.RecordingScore.der_collar_boundaries sddiar.Scoring.Boundaries.greedy
    sddiar.Scoring.Boundaries.score_boundaries sddiar.Scoring.apply_collar sddiar.Scoring.cut_all
    sddiar.Scoring.cut_one sddiar.Scoring.exclusions sddiar.Scoring.subtract_intervals
    sddiar.TimelineCells.cells_from
score_test = refl

mapping_test : scored.mapping ≡ (("x", "A"), 25) ∷ (("y", "B"), 37) ∷ []
unfolding score_recording sddiar.DiarizationError.distinct_labels
    sddiar.TimelineCells.validate_recording_ids sddiar.TimelineCells.uem_by_channel
    sddiar.Base.map_each sddiar.Base.Sort.sort sddiar.Scoring.merge_intervals
    sddiar.Scoring.merge_loop sddiar.Base.keep_if sddiar.RecordingScore.Score.score_on
    sddiar.RecordingScore.Score.some_overflow sddiar.Scoring.sorted_set sddiar.Scoring.dedup_sorted
    derive_change_boundaries sddiar.RecordingScore.Changes.channel_changes
    sddiar.RecordingScore.Changes.sweep_points sddiar.Base.reverse_onto
    sddiar.TimelineCells.timeline_cells sddiar.TimelineCells.interval_cells
    sddiar.Base.Sort.insert_sorted sddiar.DiarizationError.Speakers.add_overlaps
    sddiar.DiarizationError.Speakers.jer sddiar.DiarizationError.Speakers.overlap_metrics
    sddiar.DiarizationError.Speakers.precision_recall_f1
    sddiar.DiarizationError.Speakers.speaker_scores sddiar.DiarizationError.best_pairing
    sddiar.DiarizationError.candidate_pairings sddiar.DiarizationError.choose_pairing
    sddiar.DiarizationError.cooccurrence sddiar.DiarizationError.error_components
    sddiar.DiarizationError.error_loop sddiar.DiarizationError.mapping_from_cells
    sddiar.DiarizationError.permutations sddiar.DiarizationError.picks
    sddiar.Hypotheses.Fit.sum_floats sddiar.RecordingScore.apply_collar_all
    sddiar.RecordingScore.der_collar_boundaries sddiar.Scoring.Boundaries.greedy
    sddiar.Scoring.Boundaries.score_boundaries sddiar.Scoring.apply_collar sddiar.Scoring.cut_all
    sddiar.Scoring.cut_one sddiar.Scoring.exclusions sddiar.Scoring.subtract_intervals
    sddiar.TimelineCells.cells_from
mapping_test = refl

-- Two speakers that are heard as one
abbrev pub merged : RecordingScore ℕ
merged = result_of (score (turn "x" 0 90 ∷ []))

score_recording-IsAccounted_example :
    IsAccounted naturals cfg upper is_space (recording hypothesis) scored
score_recording-IsAccounted_example =
    score_recording-IsAccounted naturals cfg upper is_space (recording hypothesis) scored score_test

score_recording-IsCoherent_example : IsCoherent scored
score_recording-IsCoherent_example =
    score_recording-IsCoherent naturals cfg upper is_space (recording hypothesis) scored score_test

abbrev without_uem : Recording ℕ
without_uem = record (recording hypothesis) { uem = [] }

failure_test : score_recording naturals cfg upper is_space without_uem ≡ err evaluation
unfolding score_recording sddiar.DiarizationError.distinct_labels
    sddiar.TimelineCells.validate_recording_ids
failure_test = refl

-- One instant of reference and 10 ** 400 of hypothesis: the error is no float.
abbrev enormous : Recording ℕ
enormous = record (recording []) {
  reference = turn "A" 0 1 ∷ [];
  hypothesis = turn "x" 0 (10 ^ 400) ∷ [];
  uem = record { file_id = "f"; start_us = 0; end_us = 10 ^ 400; channel = "1" } ∷ [];
}

abbrev no_collar : ScoringConfig
no_collar = record cfg { der_collar_us = 0 }

overflow_test : score_recording naturals no_collar upper is_space enormous ≡ err overflow
unfolding score_recording sddiar.DiarizationError.distinct_labels
    sddiar.TimelineCells.validate_recording_ids sddiar.TimelineCells.uem_by_channel
    sddiar.Base.map_each sddiar.Base.Sort.sort sddiar.Scoring.merge_intervals
    sddiar.Scoring.merge_loop sddiar.Base.keep_if sddiar.RecordingScore.Score.score_on
    sddiar.RecordingScore.Score.some_overflow sddiar.Scoring.sorted_set sddiar.Scoring.dedup_sorted
    derive_change_boundaries sddiar.RecordingScore.Changes.channel_changes
    sddiar.RecordingScore.Changes.sweep_points sddiar.Base.reverse_onto
    sddiar.TimelineCells.timeline_cells sddiar.TimelineCells.interval_cells
    sddiar.Base.Sort.insert_sorted sddiar.DiarizationError.Speakers.add_overlaps
    sddiar.DiarizationError.Speakers.jer sddiar.DiarizationError.Speakers.overlap_metrics
    sddiar.DiarizationError.Speakers.precision_recall_f1
    sddiar.DiarizationError.Speakers.speaker_scores sddiar.DiarizationError.best_pairing
    sddiar.DiarizationError.candidate_pairings sddiar.DiarizationError.choose_pairing
    sddiar.DiarizationError.cooccurrence sddiar.DiarizationError.error_components
    sddiar.DiarizationError.error_loop sddiar.DiarizationError.mapping_from_cells
    sddiar.DiarizationError.permutations sddiar.DiarizationError.picks
    sddiar.Hypotheses.Fit.sum_floats sddiar.RecordingScore.apply_collar_all
    sddiar.RecordingScore.der_collar_boundaries sddiar.Scoring.Boundaries.greedy
    sddiar.Scoring.Boundaries.score_boundaries sddiar.Scoring.apply_collar sddiar.Scoring.cut_all
    sddiar.Scoring.cut_one sddiar.Scoring.exclusions sddiar.Scoring.subtract_intervals
    sddiar.TimelineCells.cells_from
overflow_test = refl
