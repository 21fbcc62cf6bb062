-- ===== src/Quality.antt =====
-- src/sddiar/quality.py: the status of a file, and the part of src/sddiar/calibration.py that
-- decides whether a calibration authorizes a PASS.
pub mod Binding
pub mod Report
pub mod Matching
pub mod Gate
pub mod Tests
use Prim.Native.String.{String}
use text.Mathlib.Text.{◌==◌ as str_eq}
use sddiar.Base.{
  Bool, true, false, not, ◌&&◌, ◌||◌, Option, none, some, List, [], ◌∷◌, ◌++◌, Result, ok, err,
  contract_validation, type_error, ◌>>=◌, ◌>>◌, raise_if, if◌then◌else◌, any,
}
use sddiar.Base.Int.{pos, ltb_ℤ}
use sddiar.Quality.Binding.{
  Evidence, VerifiedCalibrationBinding, release_authorized, mismatch_reason_codes,
}
use sddiar.Quality.Report.{
  Metric, Number, finite, number, other, Status, pass_high, pass_standard, pass_with_unattributed,
  review_required, unsupported, SummaryMode, speaker_aware, speaker_neutral, manual_review,
  FileQualityReport, report, is_infinite, is_empty, lookup,
}

-- What the rules read of the diagnostics. A missing list or mapping is empty, a missing flag
-- false, and other missing keys are `none`.
pub record Diagnostics : Type 0 where
  pub metrics : List (String × Metric)
  pub threshold_relations : List (String × String)
  pub evidence : Evidence
  pub confirmed_hard_out_of_profile : Bool
  pub out_of_profile_reasons : List String
  pub speaker_count_status : Option String
  pub review_block_reasons : List String
  pub review_reasons : List String
  pub hypothesis_uncertain : Bool
  pub unattributed_degrade_reasons : List String
  pub unattributed_reasons : List String
  pub word_boundary_crossing_present : Bool
  pub overlap_unattributed_present : Bool
  pub unknown_ratio : Option Metric
  pub overlap_ratio : Option Metric
  pub all_high_rules_pass : Bool
  pub osd_coverage : Option String
  pub standard_warnings : List String

-- The warning ratios; the third one is not read by the rules.
pub record QualityConfig : Type 0 where
  pub unknown_ratio_warn : Number
  pub overlap_ratio_warn : Number

-- The types that the code tells apart: `legacy` is a `CalibrationBinding` with its reason codes,
-- `foreign` any other object.
pub data Calibration : Type 0 where
  absent : Calibration
  verified : VerifiedCalibrationBinding → Calibration
  legacy : List String → Calibration
  foreign : Calibration

abbrev pub or_else : List String → List String → List String
or_else [] default = default
or_else (x ∷ xs) default = x ∷ xs

-- `get(key, default)`
abbrev pub get_or {ℓ} : {A : Type ℓ} → Option A → A → A
get_or none default = default
get_or (some x) default = x

abbrev pub code_if : Bool → String → List String
code_if test code = if test then code ∷ [] else []

-- `value > threshold`, which raises for a value that is not a number.
abbrev pub exceeds : Metric → Number → Result Bool
exceeds other threshold = err type_error
exceeds (number (finite a)) (finite b) = ok (ltb_ℤ b a)
exceeds (number (finite a)) Number.negative_infinity = ok true
exceeds (number Number.infinity) (finite b) = ok true
exceeds (number Number.infinity) Number.negative_infinity = ok true
exceeds (number x) y = ok false

module _ (lower : String → String) where
  -- `_calibration_reason_codes`
  unfoldable pub calibration_reason_codes : Calibration → Diagnostics → List String
  calibration_reason_codes absent d = "Q_CALIBRATION_MISSING" ∷ []
  calibration_reason_codes (verified b) d =
      if release_authorized b
      then mismatch_reason_codes lower b d.evidence
      else "Q_CALIBRATION_UNVERIFIED" ∷ []
  calibration_reason_codes (legacy codes) d = or_else codes ("Q_CALIBRATION_UNVERIFIED" ∷ [])
  calibration_reason_codes foreign d = "Q_CALIBRATION_UNVERIFIED" ∷ []

  -- `verified` of the out-of-profile branch, as the profile that the report names.
  abbrev pub verified_profile : Calibration → Diagnostics → Option String
  verified_profile (verified b) d =
      if release_authorized b && is_empty (mismatch_reason_codes lower b d.evidence)
      then some b.profile_id
      else none
  verified_profile _ d = none

abbrev pub profile_of : Calibration → Option String
profile_of (verified b) = some b.profile_id
profile_of _ = none

abbrev pub invalid_metric : Diagnostics → List String
invalid_metric d = code_if (any (λ m. is_infinite m.1) d.metrics) "Q_INVALID_METRIC"

unfoldable pub make_report :
    Status
    → String
    → SummaryMode
    → List String
    → Diagnostics
    → Option String
    → Result FileQualityReport
make_report status count mode reasons d profile =
    report status count mode reasons d.metrics d.threshold_relations profile

abbrev pub uncertain_count : String
uncertain_count = "UNCERTAIN_1_OR_2"

abbrev pub review_codes : Diagnostics → List String
review_codes d =
    d.review_block_reasons
    ++ (d.review_reasons ++ code_if d.hypothesis_uncertain "Q_H1_H2_AMBIGUOUS")

-- `_get(diagnostics, key, metrics.get(key, 0.0))`
abbrev pub ratio_of : Option Metric → String → Diagnostics → Metric
ratio_of measured key d = get_or measured (get_or (lookup key d.metrics) (number (finite (pos 0))))

unfoldable pub degrade_codes : Diagnostics → QualityConfig → Result (List String)
degrade_codes d cfg = do
  unknown ← exceeds (ratio_of d.unknown_ratio "unknown_ratio" d) cfg.unknown_ratio_warn
  overlap ← exceeds (ratio_of d.overlap_ratio "overlap_ratio" d) cfg.overlap_ratio_warn
  ok (
      d.unattributed_degrade_reasons
      ++ (d.unattributed_reasons
          ++ (code_if d.word_boundary_crossing_present "Q_WORD_BOUNDARY_CROSSING_PRESENT"
              ++ (code_if d.overlap_unattributed_present "Q_OVERLAP_UNATTRIBUTED_PRESENT"
                  ++ (code_if unknown "Q_HIGH_UNKNOWN_RATIO"
                      ++ code_if overlap "Q_HIGH_OVERLAP_RATIO")))))

abbrev pub is_high : Diagnostics → Bool
is_high d =
    d.all_high_rules_pass && not (str_eq (get_or d.osd_coverage "EVALUATED") "NOT_EVALUATED")

-- The rules after the calibration and the review reasons.
unfoldable pub pass_rules :
    Diagnostics → QualityConfig → String → Option String → Result FileQualityReport
pass_rules d cfg count profile = do
  degrade ← degrade_codes d cfg
  if not (is_empty degrade)
      then make_report pass_with_unattributed count speaker_neutral degrade d profile
      else if is_high d
      then make_report pass_high count speaker_aware [] d profile
      else make_report pass_standard count speaker_aware d.standard_warnings d profile

module _ (lower : String → String) where
  unfoldable pub evaluate_file_quality :
      Diagnostics → Calibration → QualityConfig → Result FileQualityReport
  evaluate_file_quality d calibration cfg =
      let calibration_reasons = calibration_reason_codes lower calibration d in
      let count = get_or d.speaker_count_status uncertain_count in
      if d.confirmed_hard_out_of_profile
      then make_report unsupported "OUT_OF_PROFILE" speaker_neutral
          (or_else (invalid_metric d ++ d.out_of_profile_reasons)
            ("Q_CONFIRMED_OUT_OF_PROFILE_SPEAKER_COUNT" ∷ []))
          d (verified_profile lower calibration d)
      else if not (is_empty calibration_reasons)
      then make_report review_required uncertain_count manual_review
          (invalid_metric d ++ (calibration_reasons ++ d.review_reasons)) d none
      else if not (is_empty (review_codes d))
      then make_report review_required count manual_review (review_codes d) d
          (profile_of calibration)
      else pass_rules d cfg count (profile_of calibration)
