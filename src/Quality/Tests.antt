-- ===== src/Quality/Tests.antt =====
-- Runs of the quality rules, and an instance of their theorem.
use Prim.Native.String.{String}
use sddiar.Base.{
  ◌≡◌, refl, Bool, true, false, none, some, List, [], ◌∷◌, ok, err, contract_validation, type_error,
}
use sddiar.Base.Int.{pos}
use sddiar.Quality.Binding.{Evidence, VerifiedCalibrationBinding, mismatch_reason_codes}
use sddiar.Quality.Report.{
  Metric, Number, finite, number, other, pass_high, pass_with_unattributed, review_required,
  unsupported, speaker_aware, speaker_neutral, manual_review, FileQualityReport, report, from_keys,
}
use sddiar.Quality.{
  Diagnostics, QualityConfig, verified, absent, calibration_reason_codes, make_report,
  degrade_codes, pass_rules, evaluate_file_quality,
}
use sddiar.Quality.Gate.{IsSound, authorizes, evaluate_file_quality-IsSound}

-- A lower-casing that is right for the test data.
abbrev pub keep : String → String
keep text = text

abbrev pub binding : VerifiedCalibrationBinding
binding = record {
  profile_id = "profile";
  model_hashes = ("vad", "ab") ∷ ("seg", "cd") ∷ [];
  source_sample_rate = pos 16000;
  config_hash = "ef";
  valid = true;
  trust_level = "RELEASE";
}

-- The same hashes in another order.
abbrev pub evidence : Evidence
evidence = record {
  profile_id = some "profile";
  model_hashes = some (some (("seg", "cd") ∷ ("vad", "ab") ∷ []));
  source_sample_rate = some (some (pos 16000));
  config_hash = some (some "ef");
}

abbrev with_metrics : List (String × Metric) → Bool → Diagnostics
with_metrics metrics confirmed = record {
  metrics = metrics;
  threshold_relations = [];
  evidence = evidence;
  confirmed_hard_out_of_profile = confirmed;
  out_of_profile_reasons = "THREE" ∷ "THREE" ∷ [];
  speaker_count_status = some "CONFIDENT_2";
  review_block_reasons = [];
  review_reasons = [];
  hypothesis_uncertain = false;
  unattributed_degrade_reasons = [];
  unattributed_reasons = [];
  word_boundary_crossing_present = false;
  overlap_unattributed_present = false;
  unknown_ratio = none;
  overlap_ratio = none;
  all_high_rules_pass = true;
  osd_coverage = none;
  standard_warnings = [];
}

abbrev pub clean_run : Diagnostics
clean_run = with_metrics (("unknown_ratio", number (finite (pos 2))) ∷ []) false

abbrev pub config : QualityConfig
config = record { unknown_ratio_warn = finite (pos 4); overlap_ratio_warn = finite (pos 2) }

abbrev pub high_report : FileQualityReport
high_report = record {
  status = pass_high;
  speaker_count_status = "CONFIDENT_2";
  summary_mode = speaker_aware;
  reason_codes = [];
  metrics = ("unknown_ratio", number (finite (pos 2))) ∷ [];
  threshold_relations = [];
  calibration_profile_id = some "profile";
}

pub run_high : evaluate_file_quality keep clean_run (verified binding) config ≡ ok high_report
unfolding evaluate_file_quality calibration_reason_codes mismatch_reason_codes make_report report
    from_keys degrade_codes pass_rules sddiar.Base.keep_if
run_high = refl

-- The same run without a calibration.
run_uncalibrated :
    evaluate_file_quality keep clean_run absent config
    ≡ ok (record high_report {
      status = review_required;
      speaker_count_status = "UNCERTAIN_1_OR_2";
      summary_mode = manual_review;
      reason_codes = "Q_CALIBRATION_MISSING" ∷ [];
      calibration_profile_id = none;
    })
unfolding evaluate_file_quality calibration_reason_codes mismatch_reason_codes make_report report
    from_keys degrade_codes pass_rules sddiar.Base.keep_if
run_uncalibrated = refl

-- The out-of-profile reasons are kept once.
run_three :
    evaluate_file_quality keep (with_metrics [] true) absent config
    ≡ ok (record high_report {
      status = unsupported;
      speaker_count_status = "OUT_OF_PROFILE";
      summary_mode = speaker_neutral;
      reason_codes = "THREE" ∷ [];
      metrics = [];
      calibration_profile_id = none;
    })
unfolding evaluate_file_quality calibration_reason_codes mismatch_reason_codes make_report report
    from_keys degrade_codes pass_rules sddiar.Base.keep_if
run_three = refl

run_infinite :
    evaluate_file_quality keep
      (with_metrics (("x", number Number.nan) ∷ []) false)
      (verified binding)
      config
    ≡ err contract_validation
unfolding evaluate_file_quality calibration_reason_codes mismatch_reason_codes make_report report
    from_keys degrade_codes pass_rules sddiar.Base.keep_if
run_infinite = refl

run_not_a_number :
    evaluate_file_quality keep
      (with_metrics (("unknown_ratio", other) ∷ []) false)
      (verified binding)
      config
    ≡ err type_error
unfolding evaluate_file_quality calibration_reason_codes mismatch_reason_codes make_report report
    from_keys degrade_codes pass_rules sddiar.Base.keep_if
run_not_a_number = refl

run_unknown :
    evaluate_file_quality keep
      (with_metrics (("unknown_ratio", number (finite (pos 5))) ∷ []) false)
      (verified binding)
      config
    ≡ ok (record high_report {
      status = pass_with_unattributed;
      summary_mode = speaker_neutral;
      reason_codes = "Q_HIGH_UNKNOWN_RATIO" ∷ [];
      metrics = ("unknown_ratio", number (finite (pos 5))) ∷ [];
    })
unfolding evaluate_file_quality calibration_reason_codes mismatch_reason_codes make_report report
    from_keys degrade_codes pass_rules sddiar.Base.keep_if
run_unknown = refl

evaluate_file_quality-IsSound_example :
    IsSound (authorizes keep (verified binding) clean_run) clean_run high_report
evaluate_file_quality-IsSound_example =
    evaluate_file_quality-IsSound keep clean_run (verified binding) config high_report run_high
