-- ===== src/TimelineCells/Tests.antt =====
-- Tests of the cells of a timeline.
use Prim.Native.String.{String}
use sddiar.Base.{ℕ, ◌≡◌, refl, Bool, true, false, List, [], ◌∷◌, any, ok, err, evaluation, arith}
use sddiar.Intervals.{Interval}
use sddiar.DiarizationError.{TimelineCell}
use sddiar.TimelineCells.{UemInterval, RttmRecord, timeline_cells, optimal_speaker_mapping}
use sddiar.Base.{All}
use sddiar.TimelineCells.{interval_cells}
use sddiar.TimelineCells.Says.{IsSpoken}
use sddiar.TimelineCells.Whole.{interval_cells-IsSpoken}

abbrev upper : String → String
upper s = s

abbrev turn : String → ℕ → ℕ → RttmRecord
turn speaker start end = record {
  file_id = "f";
  speaker_id = speaker;
  start_us = start;
  end_us = end;
  channel = "1";
}

abbrev reference : List RttmRecord
reference = turn "A" 0 60 ∷ turn "OVERLAP" 40 60 ∷ turn "B" 40 90 ∷ []

abbrev hypothesis : List RttmRecord
hypothesis = turn "x" 0 60 ∷ turn "x" 20 80 ∷ []

abbrev cell : ℕ → ℕ → List String → List String → Bool → TimelineCell
cell start end refs hyps overlap = record {
  start_us = start;
  end_us = end;
  reference_speakers = refs;
  hypothesis_speakers = hyps;
  reference_overlap_label = overlap;
  hypothesis_overlap_label = false;
}

abbrev scoring : List (String × List Interval)
scoring = ("1", (10, 85) ∷ []) ∷ []

cells_test :
    timeline_cells upper reference hypothesis scoring
    ≡ cell 10 20 ("A" ∷ []) ("x" ∷ []) false
      ∷ cell 20 40 ("A" ∷ []) ("x" ∷ []) false
      ∷ cell 40 60 ("A" ∷ "B" ∷ []) ("x" ∷ []) true
      ∷ cell 60 80 ("B" ∷ []) ("x" ∷ []) false
      ∷ cell 80 85 ("B" ∷ []) [] false
      ∷ []
unfolding timeline_cells sddiar.Base.Sort.sort sddiar.TimelineCells.interval_cells
    sddiar.TimelineCells.cells_from sddiar.Scoring.sorted_set sddiar.Scoring.dedup_sorted
    sddiar.Base.keep_if
cells_test = refl

abbrev uem : List UemInterval
uem = record { file_id = "f"; start_us = 10; end_us = 85; channel = "1" } ∷ []

mapping_test : optimal_speaker_mapping upper reference hypothesis uem ≡ ok ((("x", "A"), 50) ∷ [])
unfolding optimal_speaker_mapping sddiar.TimelineCells.uem_by_channel
    sddiar.TimelineCells.validate_recording_ids sddiar.DiarizationError.distinct_labels
    sddiar.Scoring.merge_intervals sddiar.Scoring.merge_loop sddiar.Base.reverse_onto
    sddiar.Base.map_each sddiar.DiarizationError.mapping_from_cells
    sddiar.DiarizationError.choose_pairing sddiar.DiarizationError.candidate_pairings
    sddiar.DiarizationError.permutations sddiar.DiarizationError.picks
    sddiar.DiarizationError.best_pairing sddiar.DiarizationError.cooccurrence timeline_cells
    sddiar.Base.Sort.sort sddiar.TimelineCells.interval_cells sddiar.TimelineCells.cells_from
    sddiar.Scoring.sorted_set sddiar.Scoring.dedup_sorted sddiar.Base.keep_if
mapping_test = refl

no_uem_test : optimal_speaker_mapping upper reference hypothesis [] ≡ err evaluation
unfolding optimal_speaker_mapping
no_uem_test = refl

interval_cells-IsSpoken_example :
    All
      (IsSpoken upper 10 85 reference hypothesis)
      (interval_cells upper reference hypothesis (10, 85))
interval_cells-IsSpoken_example = interval_cells-IsSpoken upper 10 85 reference hypothesis
