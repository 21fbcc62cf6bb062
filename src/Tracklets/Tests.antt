-- ===== src/Tracklets/Tests.antt =====
-- Tests of the tracklets.
use Prim.Native.String.{String}
use sddiar.Base.{ℕ, ◌-◌, ◌≡◌, refl, Bool, true, false, none, List, [], ◌∷◌, ok}
use sddiar.Spans.{Part}
use sddiar.Tracklets.{Kind, anchor, support, micro, Tracklet, DiarizationConfig}
use sddiar.Tracklets.Build.{
  SpeechRegion, TrackletBuildResult, build_tracklets, artificial_cuts, region_cuts, duration_class,
}
use sddiar.Tracklets.Tiles.{Holds, build_tracklets-Holds}

abbrev pub test_cfg : DiarizationConfig ℕ
test_cfg = record {
  anchor_min_clean_us = 1500;
  support_min_clean_us = 700;
  max_tracklet_us = 3000;
  anchor_quality_min = 0;
  anchor_consistency_min = 0;
  anchor_weight_cap_us = 5000;
  anchor_outlier_distance_max = 5;
  cluster_max_iter = 3;
  centroid_convergence = 0;
  bounded_seed_count = 6;
  max_stability_blocks = 8;
  h1_max_outlier_ratio = 5;
  h1_max_dispersion = 5;
  h2_min_independent_anchor_count = 2;
  h2_min_clean_anchor_us = 1500;
  h2_min_separation = 1;
  h2_max_cluster_dispersion = 5;
  h2_max_outlier_ratio = 5;
  h2_min_cost_gain = 0;
  h2_min_label_stability = 0;
  h2_min_centroid_stability = 0;
  lambda_k2 = 0;
  lambda_stability = 0;
  lambda_condition = 0;
  third_risk_residual_distance_min = 0;
  third_risk_max_dispersion = 5;
  third_risk_min_separation = 0;
  scd_support_min = 0;
  anchor_stable_distance_ceiling = 5;
  anchor_absolute_distance_max = 5;
  anchor_margin_min = 0;
  support_stable_distance_ceiling = 5;
  support_absolute_distance_max = 5;
  support_margin_min = 0;
  micro_stable_distance_ceiling = 5;
  micro_absolute_distance_max = 5;
  micro_margin_min = 0;
  enable_recent_centroid = false;
  recent_blend = 0;
  recent_max_benefit = 5;
  recent_update_margin_min = 0;
  recent_update_quality_min = 0;
  recent_update_stable_fit_max = 5;
  recent_radius_max = 5;
  recent_opponent_margin_min = 0;
  recent_decay = 0;
  switch_base = 3;
  scd_relief = 1;
  gap_relief = 1;
  long_gap_reset_us = 1500;
  uncertainty_transition = 1;
  unknown_cost = 4;
  unknown_micro_cost = 2;
  other_cost = 4;
  isolated_run_max_us = 350;
  include_non_speech = true;
}

abbrev pub named : String → List Part → String
named namespace parts = namespace

abbrev pub piece : String → ℕ → ℕ → Kind → Tracklet ℕ
piece id start end kind = record {
  tracklet_id = id;
  speech_region_id = "region";
  continuity_group_id = "group";
  start_us = start;
  end_us = end;
  clean_speech_us = end - start;
  kind = kind;
  boundary_evidence_ids = [];
  scd_evidence_before = none;
  scd_evidence_after = none;
  protected_overlap = false;
  mixed_tracklet_suspect = false;
}

abbrev no_evidence : List ℕ
no_evidence = []

abbrev two_regions : List SpeechRegion
two_regions =
    record { start_us = 0; end_us = 4000; region_id = none }
    ∷ record { start_us = 5000; end_us = 5500; region_id = none }
    ∷ []

abbrev built_piece : ℕ → ℕ → Kind → Tracklet ℕ
built_piece start end kind = record (piece "tracklet" start end kind) {
  speech_region_id = "speech-region";
  continuity_group_id = "continuity";
}

abbrev two_built : TrackletBuildResult ℕ
two_built = record {
  tracklets =
      built_piece 0 3000 anchor ∷ built_piece 3000 4000 support ∷ built_piece 5000 5500 micro ∷ [];
  protected_overlap_spans = [];
  boundary_evidence_ids = [];
}

build_test :
    build_tracklets named test_cfg "audio" two_regions no_evidence no_evidence ≡ ok two_built
unfolding build_tracklets sddiar.Tracklets.Build.all_tracklets sddiar.Tracklets.Build.tracklets_of
    sddiar.Tracklets.Build.pieces region_cuts sddiar.Scoring.sorted_set sddiar.Scoring.dedup_sorted
    sddiar.Base.Sort.sort artificial_cuts sddiar.Tracklets.Build.checked_tracklet
    sddiar.Contracts.range duration_class
build_test = refl

build_tracklets-Holds_example : Holds named test_cfg "audio" 3500 true two_built.tracklets
build_tracklets-Holds_example =
    build_tracklets-Holds named test_cfg "audio" 3500 two_regions no_evidence no_evidence two_built
      build_test
