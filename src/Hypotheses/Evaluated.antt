-- ===== src/Hypotheses/Evaluated.antt =====
-- src/sddiar/diarization.py: `evaluate_h2` returns an invalid hypothesis, or one whose flags are
-- measured and whose reason codes are those of its evidence.
use Prim.Native.String.{String}
use sddiar.Base.{
  ◌≡◌, refl, subst, ◌⊎◌, inl, inr, Bool, true, false, not, ◌||◌, some, List, [], Result, ok, ok-inj,
  bind_ok, if◌then◌else◌, arith,
}
use sddiar.Floats.{Floats}
use sddiar.Tracklets.{DiarizationConfig}
use sddiar.Hypotheses.{AnchorEvidence, SpeakerHypothesis}
use sddiar.Hypotheses.Fit.{invalid_hypothesis, measured}
use sddiar.Hypotheses.Decide.{evaluate_h2}
use sddiar.Hypotheses.Fits.{checked_hypothesis-eq, IsFit, IsMeasured, fit_h2_once-IsFit}
use sddiar.Hypotheses.Seeds.{fit_h2_once}
use sddiar.Hypotheses.Evidence.{stability, temporal_evidence, third_risk_of}
use sddiar.Hypotheses.Decide.{reason_if, evaluated}
use sddiar.Base.{◌++◌}

module _ {F : Type 0} (floats : Floats F) where
  -- The reason codes of the evidence for a second speaker
  abbrev pub evidence_codes : DiarizationConfig F → F → F → Bool → Bool → Bool → List String
  evidence_codes cfg label_stability centroid_stability interleaving conflict third_risk =
      reason_if
        (floats.lt label_stability cfg.h2_min_label_stability
          || floats.lt centroid_stability cfg.h2_min_centroid_stability)
        "H2_UNSTABLE"
      ++ reason_if (not interleaving) "H2_NO_INTERLEAVING_EVIDENCE"
      ++ reason_if conflict "H2_CONTINUOUS_SPEECH_CONFLICT"
      ++ reason_if third_risk "THIRD_SPEAKER_RISK"

  abbrev pub IsEvaluated : DiarizationConfig F → SpeakerHypothesis F → Type 0
  IsEvaluated cfg h =
      (h.is_valid ≡ false)
      ⊎ (IsMeasured floats cfg 2 h
          × ((labels : F) × (centers : F) × (interleaving : Bool) × (conflict : Bool)
              × (h.label_stability ≡ some labels)
              × (h.centroid_stability ≡ some centers)
              × (h.temporal_interleaving ≡ some interleaving)
              × (h.continuous_speech_conflict ≡ some conflict)
              × (h.reason_codes
                  ≡ evidence_codes cfg labels centers interleaving conflict h.third_speaker_risk)))

  evaluated-IsEvaluated :
      (cfg : DiarizationConfig F) (base h : SpeakerHypothesis F) (labels centers : F)
      (interleaving conflict third_risk : Bool)
      → IsMeasured floats cfg 2 base
      → evaluated floats base cfg labels centers interleaving conflict third_risk ≡ ok h
      → IsEvaluated cfg h
  unfolding evaluated
  evaluated-IsEvaluated cfg base h labels centers interleaving conflict third_risk measured e =
      subst (IsEvaluated cfg) (checked_hypothesis-eq floats _ h e)
        (inr (measured, (labels, centers, interleaving, conflict, refl, refl, refl, refl, refl)))

  either_ok :
      (P : SpeakerHypothesis F → Type 0) (test : Bool) (x y : Result (SpeakerHypothesis F))
      → ((h : SpeakerHypothesis F) → test ≡ true → x ≡ ok h → P h)
      → ((h : SpeakerHypothesis F) → test ≡ false → y ≡ ok h → P h)
      → (h : SpeakerHypothesis F) → (if test then x else y) ≡ ok h
      → P h
  either_ok P true x y on_x on_y h e = on_x h refl e
  either_ok P false x y on_x on_y h e = on_y h refl e

  is_valid-IsMeasured :
      (cfg : DiarizationConfig F) (base : SpeakerHypothesis F)
      → IsFit floats cfg 2 base
      → not base.is_valid ≡ false
      → IsMeasured floats cfg 2 base
  is_valid-IsMeasured cfg base (quiet, inl invalid) valid = ground (arith, invalid, valid)
  is_valid-IsMeasured cfg base (quiet, inr (reasons, measured)) valid = measured

  pub evaluate_h2-IsEvaluated :
      (anchors : List (AnchorEvidence F)) (cfg : DiarizationConfig F) (h : SpeakerHypothesis F)
      → evaluate_h2 floats anchors cfg ≡ ok h
      → IsEvaluated cfg h
  unfolding evaluate_h2
  evaluate_h2-IsEvaluated anchors cfg h e =
      let (base, e0, k0) = bind_ok (fit_h2_once floats anchors cfg) _ h e in
      let fit = fit_h2_once-IsFit floats anchors cfg base e0 in
      either_ok (IsEvaluated cfg) (not base.is_valid) (ok base) _
        (λ g invalid same. subst (IsEvaluated cfg) (ok-inj same) (inl (ground (arith, invalid))))
        (λ g valid k1.
          let ((labels, centers), e2, k2) = bind_ok (stability floats base anchors cfg) _ g k1 in
          let (third_risk, e3, k3) = bind_ok (third_risk_of floats base anchors cfg) _ g k2 in
          evaluated-IsEvaluated cfg base g labels centers
            (temporal_evidence floats base anchors cfg).0
            (temporal_evidence floats base anchors cfg).1 third_risk
            (is_valid-IsMeasured cfg base fit valid) k3)
        h k0

  -- Without anchors there is no valid hypothesis.
  pub evaluate_h2_nothing :
      (cfg : DiarizationConfig F) (h : SpeakerHypothesis F)
      → evaluate_h2 floats [] cfg ≡ ok h
      → h.is_valid ≡ false
  unfolding evaluate_h2 fit_h2_once invalid_hypothesis
  evaluate_h2_nothing cfg h e =
      let (base, e0, k0) = bind_ok (fit_h2_once floats [] cfg) _ h e in
      let invalid : base.is_valid ≡ false =
        subst (λ (g : SpeakerHypothesis F). g.is_valid ≡ false)
          (checked_hypothesis-eq floats _ base e0) refl in
      either_ok (λ g. g.is_valid ≡ false) (not base.is_valid) (ok base) _
        (λ g t same. subst (λ (g : SpeakerHypothesis F). g.is_valid ≡ false) (ok-inj same) invalid)
        (λ g t k1. ground (arith, invalid, t)) h k0
