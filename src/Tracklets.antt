-- ===== src/Tracklets.antt =====
-- src/sddiar/contracts.py `Tracklet` and src/sddiar/diarization.py: speech regions cut into
-- tracklets.
pub mod Build
pub mod Cuts
pub mod Tiles
pub mod Tests
use Prim.Native.String.{String, compare as compare_str}
use text.Mathlib.Text.{is_le}
use sddiar.Base.{
  ℕ, Bool, ◌&&◌, ◌||◌, not, Option, List, Result, ok, contract_validation, protected_overlap, ◌>>=◌,
  ◌>>◌, raise_if, leb, ltb, ◌-◌, ◌==◌,
}
use sddiar.Base.Int.{pos}
use sddiar.Contracts.{range}

pub data Kind : Type 0 where
  anchor support micro : Kind

-- `F` is the type of floats.
pub record Tracklet (F : Type 0) : Type 0 where
  pub tracklet_id : String
  pub speech_region_id : String
  pub continuity_group_id : String
  pub start_us : ℕ
  pub end_us : ℕ
  pub clean_speech_us : ℕ
  pub kind : Kind
  pub boundary_evidence_ids : List String
  pub scd_evidence_before : Option F
  pub scd_evidence_after : Option F
  pub protected_overlap : Bool
  pub mixed_tracklet_suspect : Bool

-- The integers and floats of `DiarizationConfig` that the modelled functions read.
pub record DiarizationConfig (F : Type 0) : Type 0 where
  pub anchor_min_clean_us : ℕ
  pub support_min_clean_us : ℕ
  pub max_tracklet_us : ℕ
  pub anchor_quality_min : F
  pub anchor_consistency_min : F
  pub anchor_weight_cap_us : ℕ
  pub anchor_outlier_distance_max : F
  pub cluster_max_iter : ℕ
  pub centroid_convergence : F
  pub bounded_seed_count : ℕ
  pub max_stability_blocks : ℕ
  pub h1_max_outlier_ratio : F
  pub h1_max_dispersion : F
  pub h2_min_independent_anchor_count : ℕ
  pub h2_min_clean_anchor_us : ℕ
  pub h2_min_separation : F
  pub h2_max_cluster_dispersion : F
  pub h2_max_outlier_ratio : F
  pub h2_min_cost_gain : F
  pub h2_min_label_stability : F
  pub h2_min_centroid_stability : F
  pub lambda_k2 : F
  pub lambda_stability : F
  pub lambda_condition : F
  pub third_risk_residual_distance_min : F
  pub third_risk_max_dispersion : F
  pub third_risk_min_separation : F
  pub scd_support_min : F
  pub anchor_stable_distance_ceiling : F
  pub anchor_absolute_distance_max : F
  pub anchor_margin_min : F
  pub support_stable_distance_ceiling : F
  pub support_absolute_distance_max : F
  pub support_margin_min : F
  pub micro_stable_distance_ceiling : F
  pub micro_absolute_distance_max : F
  pub micro_margin_min : F
  pub enable_recent_centroid : Bool
  pub recent_blend : F
  pub recent_max_benefit : F
  pub recent_update_margin_min : F
  pub recent_update_quality_min : F
  pub recent_update_stable_fit_max : F
  pub recent_radius_max : F
  pub recent_opponent_margin_min : F
  pub recent_decay : F
  pub switch_base : F
  pub scd_relief : F
  pub gap_relief : F
  pub long_gap_reset_us : ℕ
  pub uncertainty_transition : F
  pub unknown_cost : F
  pub unknown_micro_cost : F
  pub other_cost : F
  pub isolated_run_max_us : ℕ
  pub include_non_speech : Bool

-- `overlap_evidence` is not read after the merge of the overlaps.
pub record ProtectedOverlapSpan (F : Type 0) : Type 0 where
  pub span_id : String
  pub start_us : ℕ
  pub end_us : ℕ
  pub overlap_evidence : F
  pub evidence_ids : List String

module _ {F : Type 0} where
  -- The key `(start_us, end_us, tracklet_id)`
  abbrev pub le_tracklet : Tracklet F → Tracklet F → Bool
  le_tracklet x y =
      ltb x.start_us y.start_us
      || (x.start_us == y.start_us
          && (ltb x.end_us y.end_us
              || (x.end_us == y.end_us && is_le (compare_str x.tracklet_id y.tracklet_id))))
