-- ===== src/DiarizationError/Tests.antt =====
-- Tests of the diarization error.
use Prim.Native.String.{String}
use sddiar.Base.{
  ℕ, ◌+◌, ◌*◌, ◌≤◌, ◌≡◌, refl, inl, Bool, true, false, List, [], ◌∷◌, ok, sum_of, arith, length,
  max,
}
use sddiar.DiarizationError.{
  TimelineCell, ErrorSums, ErrorComponents, mapped_to, some_in, error_components,
  mapping_from_cells, total_of,
}
use sddiar.Base.{All, none, some, ◌⊎◌}
use sddiar.Floats.Tests.{naturals}
use sddiar.DiarizationError.Speakers.{
  SpeakerTimes, OverlapTimes, speaker_scores, jer, no_overlap, overlap_metrics,
}
use sddiar.DiarizationError.Mapping.{first, later, mapping_from_cells_maximal}

abbrev cell : ℕ → ℕ → List String → List String → TimelineCell
cell start end refs hyps = record {
  start_us = start;
  end_us = end;
  reference_speakers = refs;
  hypothesis_speakers = hyps;
  reference_overlap_label = false;
  hypothesis_overlap_label = false;
}

abbrev three_cells : List TimelineCell
three_cells =
    cell 0 100 ("A" ∷ []) ("x" ∷ [])
    ∷ cell 100 150 ("B" ∷ []) ("x" ∷ [])
    ∷ cell 150 210 ("A" ∷ "B" ∷ []) ("y" ∷ [])
    ∷ []

abbrev found_pairs : List ((String × String) × ℕ)
found_pairs = (("x", "A"), 100) ∷ (("y", "B"), 60) ∷ []

mapping_test : mapping_from_cells three_cells ≡ ok found_pairs
unfolding mapping_from_cells sddiar.Base.Sort.sort sddiar.DiarizationError.distinct_labels
    sddiar.DiarizationError.choose_pairing sddiar.DiarizationError.candidate_pairings
    sddiar.DiarizationError.permutations sddiar.DiarizationError.best_pairing
    sddiar.DiarizationError.cooccurrence
mapping_test = refl

mapping_from_cells_maximal_example :
    total_of three_cells (("x", "B") ∷ ("y", "A") ∷ [])
    ≤ sum_of (λ (m : (String × String) × ℕ). m.1) found_pairs
unfolding sddiar.Base.Sort.sort sddiar.DiarizationError.distinct_labels
mapping_from_cells_maximal_example =
    mapping_from_cells_maximal three_cells found_pairs (("x", "B") ∷ ("y", "A") ∷ []) mapping_test (
      inl (
        refl,
        (
          "B" ∷ "A" ∷ [],
          ("A" ∷ [], later "B" "A" ("B" ∷ []) [] (first "B" []), ([], first "A" [], tt)),
          refl,
        ),
      ))

error_test :
    (error_components (λ m n. m) 0 three_cells (("x", "A") ∷ ("y", "B") ∷ []) false).sums ≡ record {
      scored_uem_us = 210;
      reference_speaker_us = 270;
      miss_us = 60;
      false_alarm_us = 0;
      confusion_us = 50;
    }
unfolding error_components sddiar.DiarizationError.error_loop
error_test = refl

abbrev mapping : List (String × String)
mapping = ("x", "A") ∷ ("y", "B") ∷ []

speakers_test :
    speaker_scores three_cells mapping ("A" ∷ "B" ∷ [])
    ≡ record {
      reference_speaker_id = "A";
      reference_duration_us = 100;
      assigned_duration_us = 100;
      correct_duration_us = 100;
    }
      ∷ record {
        reference_speaker_id = "B";
        reference_duration_us = 50;
        assigned_duration_us = 50;
        correct_duration_us = 0;
      }
      ∷ []
unfolding speaker_scores sddiar.Base.keep_if
speakers_test = refl

jer_test : jer naturals three_cells mapping ≡ 1
unfolding jer sddiar.Base.Sort.sort sddiar.DiarizationError.distinct_labels
    sddiar.Hypotheses.Fit.sum_floats
jer_test = refl

overlaps_test : (overlap_metrics naturals true three_cells).0 ≡ record {
  reference_overlap_us = 60;
  predicted_overlap_us = 0;
  true_positive_us = 0;
  false_positive_us = 0;
  false_negative_us = 60;
}
unfolding overlap_metrics sddiar.DiarizationError.Speakers.add_overlaps
overlaps_test = refl
