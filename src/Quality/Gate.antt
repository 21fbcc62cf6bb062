-- ===== src/Quality/Gate.antt =====
-- When the quality rules can report a PASS.
use Prim.Native.String.{String}
use sddiar.Base.{
  ◌≡◌, refl, sym, ap, subst, ◌∙◌, inl, inr, Bool, true, false, not, ◌&&◌, ◌||◌, Option, List, [],
  ◌∷◌, Result, ok, err, arith, if◌then◌else◌, any, Bool-cases, Result-cases,
}
use sddiar.Quality.Binding.{release_authorized, mismatch_reason_codes}
use sddiar.Quality.Report.{
  Status, pass_high, pass_standard, pass_with_unattributed, review_required, unsupported,
  SummaryMode, speaker_aware, speaker_neutral, manual_review, FileQualityReport, report, is_pass,
  is_empty, is_finite, is_unnamed,
}
use sddiar.Quality.Matching.{matches, mismatch_reason_codes-matches}
use sddiar.Quality.{
  Diagnostics, QualityConfig, Calibration, verified, absent, legacy, foreign,
  calibration_reason_codes, profile_of, make_report, degrade_codes, review_codes, is_high,
  pass_rules, evaluate_file_quality, get_or, uncertain_count,
}

module _ (lower : String → String) where
  abbrev pub authorizes : Calibration → Diagnostics → Bool
  authorizes (verified b) d = release_authorized b && matches lower b d.evidence
  authorizes _ d = false

-- The mode that belongs to each status.
abbrev pub mode_for : Status → SummaryMode
mode_for pass_high = speaker_aware
mode_for pass_standard = speaker_aware
mode_for pass_with_unattributed = speaker_neutral
mode_for review_required = manual_review
mode_for unsupported = speaker_neutral

-- What a returned report satisfies: its mode is that of its status, every metric of the run is
-- finite, and a PASS has a named profile and the authority of the calibration.
abbrev pub IsSound : Bool → Diagnostics → FileQualityReport → Type 0
IsSound authority d r =
    (r.summary_mode ≡ mode_for r.status)
    × (any (λ m. not (is_finite m.1)) d.metrics ≡ false)
    × ((is_pass r.status && (is_unnamed r.calibration_profile_id || not authority)) ≡ false)

-- A computation all of whose reports are sound.
abbrev Sound : Bool → Diagnostics → Result FileQualityReport → Type 0
Sound authority d (ok r) = IsSound authority d r
Sound authority d (err e) = Unit

make_report-IsSound :
    (authority : Bool) (status : Status) (count : String) (reasons : List String) (d : Diagnostics)
    (profile : Option String)
    → (is_pass status && not authority) ≡ false
    → Sound authority d (make_report status count (mode_for status) reasons d profile)
unfolding make_report report
make_report-IsSound authority status count reasons d profile h =
    elim (Bool-cases (is_pass status && is_unnamed profile)) [
      | inl unnamed ↦ rw unnamed tt
      | inr named ↦ elim (Bool-cases (any (λ m. not (is_finite m.1)) d.metrics)) [
        | inl bad ↦ rw (named, bad) tt
        | inr good ↦ rw (named, good) (refl, good, ground arith)
      ]
    ]

pass_rules-IsSound :
    (d : Diagnostics) (cfg : QualityConfig) (count : String) (profile : Option String)
    → Sound true d (pass_rules d cfg count profile)
unfolding pass_rules
pass_rules-IsSound d cfg count profile = elim (Result-cases (degrade_codes d cfg)) [
  | inr (raised, e) ↦ rw e tt
  | inl (codes, e) ↦ rw e (elim (Bool-cases (is_empty codes)) [
    | inr some_code ↦
        rw some_code (make_report-IsSound true pass_with_unattributed count codes d profile refl)
    | inl clean ↦ elim (Bool-cases (is_high d)) [
      | inl high ↦ rw (clean, high) (make_report-IsSound true pass_high count [] d profile refl)
      | inr standard ↦
          rw (clean, standard)
            (make_report-IsSound true pass_standard count d.standard_warnings d profile refl)
    ]
  ])
]

pick_empty :
    (test : Bool) (xs : List String) (code : String)
    → is_empty (if test then xs else code ∷ []) ≡ true
    → (test && is_empty xs) ≡ true
pick_empty true xs code h = h
pick_empty false xs code h = h

is_empty-authorizes :
    (lower : String → String) (calibration : Calibration) (d : Diagnostics)
    → is_empty (calibration_reason_codes lower calibration d) ≡ true
    → authorizes lower calibration d ≡ true
unfolding calibration_reason_codes
is_empty-authorizes lower absent d h = ground arith
is_empty-authorizes lower (verified b) d h =
    ap (λ m. release_authorized b && m) (sym (mismatch_reason_codes-matches lower b d.evidence))
    ∙ pick_empty (release_authorized b) (mismatch_reason_codes lower b d.evidence) _ h
is_empty-authorizes lower (legacy []) d h = ground arith
is_empty-authorizes lower (legacy (c ∷ codes)) d h = ground arith
is_empty-authorizes lower foreign d h = ground arith

if-Sound :
    (authority : Bool) (d : Diagnostics) (test : Bool) (x y : Result FileQualityReport)
    → Sound authority d x
    → (test ≡ false → Sound authority d y)
    → Sound authority d (if test then x else y)
if-Sound authority d true x y h k = h
if-Sound authority d false x y h k = k refl

pass_rules-authorized :
    (lower : String → String) (calibration : Calibration) (d : Diagnostics) (cfg : QualityConfig)
    (count : String) (profile : Option String)
    → not (is_empty (calibration_reason_codes lower calibration d)) ≡ false
    → Sound (authorizes lower calibration d) d (pass_rules d cfg count profile)
pass_rules-authorized lower calibration d cfg count profile free =
    rw (is_empty-authorizes lower calibration d (ground arith))
      (pass_rules-IsSound d cfg count profile)

evaluate-Sound :
    (lower : String → String) (d : Diagnostics) (calibration : Calibration) (cfg : QualityConfig)
    → Sound (authorizes lower calibration d) d (evaluate_file_quality lower d calibration cfg)
unfolding evaluate_file_quality
evaluate-Sound lower d calibration cfg =
    let authority = authorizes lower calibration d in
    if-Sound authority d d.confirmed_hard_out_of_profile _ _
      (make_report-IsSound authority unsupported _ _ d _ refl)
      (λ usual.
        if-Sound authority d _ _ _ (make_report-IsSound authority review_required _ _ d _ refl)
          (λ free.
            let count = get_or d.speaker_count_status uncertain_count in
            if-Sound authority d (not (is_empty (review_codes d)))
              (make_report review_required count manual_review (review_codes d) d
                (profile_of calibration))
              (pass_rules d cfg count (profile_of calibration))
              (make_report-IsSound authority review_required count (review_codes d) d
                (profile_of calibration) refl)
              (λ calm.
                pass_rules-authorized lower calibration d cfg count (profile_of calibration) free)))

-- Every report that the rules return has the summary mode of its status and only finite metrics;
-- and when its status is a PASS, the report names a profile, and the calibration is a verified
-- release binding whose profile, model hashes, sample rate and configuration hash are all
-- present in the diagnostics and equal.
pub evaluate_file_quality-IsSound :
    (lower : String → String) (d : Diagnostics) (calibration : Calibration) (cfg : QualityConfig)
    (r : FileQualityReport)
    → evaluate_file_quality lower d calibration cfg ≡ ok r
    → IsSound (authorizes lower calibration d) d r
evaluate_file_quality-IsSound lower d calibration cfg r e =
    subst (λ x. Sound (authorizes lower calibration d) d x) e
      (evaluate-Sound lower d calibration cfg)
