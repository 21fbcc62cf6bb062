-- ===== src/Summary/Tests.antt =====
-- Runs of the summary policy, and instances of its theorems.
use sddiar.Base.{◌≡◌, refl, true, false, not, none, some, [], ◌∷◌, ok, err, summary_policy, any}
use sddiar.Quality.Report.{
  pass_standard, review_required, unsupported, speaker_aware, manual_review, is_finite,
}
use sddiar.Quality.{verified}
use sddiar.Quality.Gate.{authorizes}
use sddiar.Quality.Tests.{keep, binding, clean_run, config, high_report, run_high}
use sddiar.Summary.{
  auto, mode, invalid, known, other, SummaryPolicyDecision, decide, decide_blocked, decide_free,
  authorize,
}
use sddiar.Summary.Policy.{decide-report, decide-authorizes}

abbrev manual : SummaryPolicyDecision
manual = record {
  mode = known manual_review;
  allowed = true;
  reason_codes = "SUMMARY_REVIEW_REQUIRED" ∷ [];
}

run_review : decide (some review_required) (some (known manual_review)) auto ≡ ok manual
unfolding decide decide_blocked
run_review = refl

run_declared :
    decide (some unsupported) (some (known speaker_aware)) (mode manual_review) ≡ err summary_policy
unfolding decide decide_blocked
run_declared = refl

run_invalid : authorize none none invalid ≡ err summary_policy
unfolding authorize decide
run_invalid = refl

run_default : authorize (some pass_standard) none auto ≡ ok (known speaker_aware)
unfolding authorize decide decide_free
run_default = refl

-- A declared text that is no mode is returned, but not allowed.
run_text :
    decide none (some (other "LOUD")) auto
    ≡ ok (record { mode = other "LOUD"; allowed = false; reason_codes = [] })
unfolding decide decide_free
run_text = refl

abbrev aware_decision : SummaryPolicyDecision
aware_decision = record { mode = known speaker_aware; allowed = true; reason_codes = [] }

run_aware :
    decide (some high_report.status) (some (known high_report.summary_mode)) (mode speaker_aware)
    ≡ ok aware_decision
unfolding decide decide_free
run_aware = refl

decide-report_example :
    (x : SummaryPolicyDecision) × (decide
        (some high_report.status)
        (some (known high_report.summary_mode))
        auto
      ≡ ok x)
    × (x.mode ≡ known high_report.summary_mode)
    × (x.allowed ≡ true)
decide-report_example = decide-report keep clean_run (verified binding) config high_report run_high

decide-authorizes_example :
    (authorizes keep (verified binding) clean_run ≡ true)
    × (any (λ m. not (is_finite m.1)) clean_run.metrics ≡ false)
decide-authorizes_example =
    decide-authorizes keep clean_run (verified binding) config high_report (mode speaker_aware)
      aware_decision run_high run_aware refl
