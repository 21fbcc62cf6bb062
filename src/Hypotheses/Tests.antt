-- ===== src/Hypotheses/Tests.antt =====
-- Tests of the decision between one and two speakers.
use sddiar.Base.{ℕ, ◌≡◌, refl, Bool, true, false, none, some, List, [], ◌∷◌, Result, ok}
use sddiar.Floats.Tests.{naturals, naturals-IsOrdered}
use sddiar.Spans.{unknown, other}
use sddiar.Tracklets.{anchor}
use sddiar.Tracklets.Tests.{test_cfg, piece}
use sddiar.Assignment.{SpeakerAssignment}
use sddiar.Decoder.{emission}
use sddiar.Hypotheses.{AnchorEvidence, SpeakerHypothesis, HypothesisDecision, h1_confirmed}
use sddiar.Hypotheses.Decide.{HypothesisEvaluation, evaluate_hypotheses}
use sddiar.Hypotheses.Decided.{IsDecided}
use sddiar.Hypotheses.Laws.{evaluate_hypotheses-IsDecided, evaluate_hypotheses-emission}

abbrev one_anchor : AnchorEvidence ℕ
one_anchor = record {
  tracklet_id = "a";
  vector = 1 ∷ 0 ∷ [];
  weight = 1;
  clean_speech_us = 2000;
  independent_block_id = "block";
  continuity_group_id = "group";
  start_us = 0;
  end_us = 2000;
  scd_evidence_before = none;
}

abbrev failed_fit : SpeakerHypothesis ℕ
failed_fit = record {
  k = 2;
  centers = [];
  anchor_labels = [];
  is_valid = false;
  valid_constraints = false;
  robust_cost = 1000000;
  total_cost = 1000000;
  outlier_ratio = 0;
  cluster_dispersion = [];
  clean_duration_us = [];
  independent_anchor_count = [];
  cluster_support_ok = false;
  dispersion_ok = false;
  outlier_ratio_ok = false;
  third_speaker_risk = false;
  separation = none;
  label_stability = none;
  centroid_stability = none;
  temporal_interleaving = none;
  continuous_speech_conflict = none;
  reason_codes = "INSUFFICIENT_ANCHORS" ∷ [];
}

abbrev single_fit : SpeakerHypothesis ℕ
single_fit = record failed_fit {
  k = 1;
  centers = (1 ∷ 0 ∷ []) ∷ [];
  anchor_labels = ("a", some 0) ∷ [];
  is_valid = true;
  valid_constraints = true;
  robust_cost = 0;
  total_cost = 0;
  cluster_dispersion = 0 ∷ [];
  clean_duration_us = 2000 ∷ [];
  independent_anchor_count = 1 ∷ [];
  cluster_support_ok = true;
  dispersion_ok = true;
  outlier_ratio_ok = true;
  reason_codes = [];
}

abbrev one_speaker : HypothesisEvaluation ℕ
one_speaker = record {
  decision = record { state = h1_confirmed; hypothesis = some single_fit; reason_codes = [] };
  h1 = single_fit;
  h2 = failed_fit;
}

evaluation_test : evaluate_hypotheses naturals (one_anchor ∷ []) test_cfg ≡ ok one_speaker
unfolding evaluate_hypotheses sddiar.Assignment.Vectors.weighted_centroid
    sddiar.Assignment.Vectors.add_all sddiar.Assignment.Vectors.unit_vector
    sddiar.Assignment.Vectors.add_weighted sddiar.Assignment.Vectors.zeros
    sddiar.Assignment.Vectors.cosine_distance sddiar.Assignment.Vectors.sum_products
    sddiar.Assignment.Vectors.check_unit_vector sddiar.Hypotheses.Fit.robust_spherical_fit
    sddiar.Hypotheses.Fit.fit_seeded sddiar.Hypotheses.Fit.fit_loop
    sddiar.Hypotheses.Fit.nearest_center sddiar.Hypotheses.Fit.has_converged
    sddiar.Hypotheses.Fit.fit_found sddiar.Hypotheses.Fit.measured
    sddiar.Hypotheses.Fit.checked_hypothesis sddiar.Hypotheses.Fit.check_centers
    sddiar.Hypotheses.Fit.sum_floats sddiar.Hypotheses.Fit.invalid_hypothesis sddiar.Base.map_each
    sddiar.Base.keep_if sddiar.Hypotheses.Decide.decide_hypotheses
    sddiar.Hypotheses.Decide.decide_by sddiar.Hypotheses.Decide.is_candidate
    sddiar.Hypotheses.Decide.is_supported_h2 sddiar.Hypotheses.Decide.evaluate_h2
    sddiar.Hypotheses.Seeds.fit_h2_once sddiar.Hypotheses.distinct_after
evaluation_test = refl

abbrev unclear : SpeakerAssignment ℕ
unclear = record {
  tracklet_id = "a";
  speaker_id = unknown;
  attribution_status = "UNKNOWN_INSUFFICIENT_EVIDENCE";
  stable_distance = none;
  effective_distance = none;
  margin = none;
  evidence_ids = [];
  reason_codes = [];
}

evaluate_hypotheses-IsDecided_example :
    IsDecided naturals test_cfg single_fit failed_fit one_speaker.decision
evaluate_hypotheses-IsDecided_example =
    evaluate_hypotheses-IsDecided naturals (one_anchor ∷ []) test_cfg one_speaker naturals-IsOrdered
      evaluation_test

evaluate_hypotheses-emission_example :
    emission naturals (piece "a" 0 2000 anchor) other unclear one_speaker.decision test_cfg
    ≡ 1000000
evaluate_hypotheses-emission_example =
    evaluate_hypotheses-emission naturals (one_anchor ∷ []) test_cfg test_cfg one_speaker
      (piece "a" 0 2000 anchor) unclear evaluation_test
