-- ===== src/Hypotheses/Laws.antt =====
-- src/sddiar/diarization.py: what the decisions between one and two speakers satisfy.
use Prim.Native.String.{String}
use sddiar.Base.{
  sym, ℕ, ◌≡◌, refl, ap, subst, ◌⊎◌, inl, inr, Bool, true, false, none, List, [], ◌∷◌, map, ok,
  ok-inj, bind_ok, if◌then◌else◌, arith,
}
use sddiar.Assignment.Vectors.{weighted_centroid}
use sddiar.Floats.{Floats}
use sddiar.Spans.{other}
use sddiar.Tracklets.{Tracklet, DiarizationConfig}
use sddiar.Assignment.{SpeakerAssignment}
use sddiar.Decoder.{emission}
use sddiar.Hypotheses.{AnchorEvidence, SpeakerHypothesis, uncertain_1_or_2, has_third_risk}
use sddiar.Hypotheses.Fit.{invalid_hypothesis, robust_spherical_fit, weighted}
use sddiar.Hypotheses.Decide.{
  HypothesisEvaluation, is_supported_h2, decide_by, decide_hypotheses, evaluate_h2,
  evaluate_hypotheses,
}
use sddiar.Floats.{IsOrdered}
use sddiar.Hypotheses.Fits.{
  robust_spherical_fit-IsFit, invalid_hypothesis-IsFit, checked_hypothesis-eq, IsFit,
}
use sddiar.Hypotheses.Evaluated.{IsEvaluated, evaluate_h2-IsEvaluated, evaluate_h2_nothing}
use sddiar.Hypotheses.Decided.{IsDecided, supported_tests, decide_hypotheses-IsDecided}

module _ {F : Type 0} (floats : Floats F) where
  decide_by-risk :
      (cfg : DiarizationConfig F) (h1 h2 : SpeakerHypothesis F)
      (candidate supported confident : Bool)
      → h1.third_speaker_risk ≡ false
      → is_supported_h2 floats cfg h2 ≡ supported
      → has_third_risk (decide_by floats candidate supported confident h1 h2) ≡ false
  unfolding decide_by
  decide_by-risk cfg h1 h2 true true confident quiet s = (supported_tests floats cfg h2 s).7
  decide_by-risk cfg h1 h2 true false confident quiet s = refl
  decide_by-risk cfg h1 h2 false supported true quiet s = quiet
  decide_by-risk cfg h1 h2 false supported false quiet s = refl

  -- The hypotheses of an evaluation, and its decision.
  abbrev AreParts : DiarizationConfig F → HypothesisEvaluation F → Type 0
  AreParts cfg e =
      IsFit floats cfg 1 e.h1
      × IsEvaluated floats cfg e.h2
      × ((e.decision ≡ decide_hypotheses floats cfg e.h1 e.h2)
          ⊎ ((e.decision.state ≡ uncertain_1_or_2)
              × (e.decision.hypothesis ≡ none)
              × (e.h1.is_valid ≡ false)
              × (e.h2.is_valid ≡ false)))

  invalid_hypothesis-refused :
      (k : ℕ) (reason : String) (h : SpeakerHypothesis F)
      → invalid_hypothesis floats k reason ≡ ok h
      → h.is_valid ≡ false
  unfolding invalid_hypothesis
  invalid_hypothesis-refused k reason h e =
      subst (λ (g : SpeakerHypothesis F). g.is_valid ≡ false) (checked_hypothesis-eq floats _ h e)
        refl

  evaluation_parts :
      (anchors : List (AnchorEvidence F)) (cfg : DiarizationConfig F) (e : HypothesisEvaluation F)
      → evaluate_hypotheses floats anchors cfg ≡ ok e
      → AreParts cfg e
  unfolding evaluate_hypotheses
  evaluation_parts [] cfg e h =
      let (h1, e1, k1) = bind_ok (invalid_hypothesis floats 1 "INSUFFICIENT_ANCHORS") _ e h in
      let (h2, e2, k2) = bind_ok (evaluate_h2 floats [] cfg) _ e k1 in
      subst (AreParts cfg) (ok-inj k2) (
        invalid_hypothesis-IsFit floats cfg 1 "INSUFFICIENT_ANCHORS" h1 e1,
        evaluate_h2-IsEvaluated floats [] cfg h2 e2,
        inr (
          refl,
          refl,
          invalid_hypothesis-refused 1 "INSUFFICIENT_ANCHORS" h1 e1,
          evaluate_h2_nothing floats cfg h2 e2,
        ),
      )
  evaluation_parts (a ∷ anchors) cfg e h =
      let fit = λ (seed : List F). robust_spherical_fit floats (a ∷ anchors) 1 (seed ∷ []) cfg in
      let (seed, e1, k1) =
        bind_ok (weighted_centroid floats (map (weighted floats) (a ∷ anchors))) _ e h in
      let (h1, e2, k2) = bind_ok (fit seed) _ e k1 in
      let (h2, e3, k3) = bind_ok (evaluate_h2 floats (a ∷ anchors) cfg) _ e k2 in
      subst (AreParts cfg) (ok-inj k3) (
        robust_spherical_fit-IsFit floats (a ∷ anchors) 1 (seed ∷ []) cfg h1 e2,
        evaluate_h2-IsEvaluated floats (a ∷ anchors) cfg h2 e3,
        inl refl,
      )

  parts-risk :
      (cfg : DiarizationConfig F) (e : HypothesisEvaluation F)
      → AreParts cfg e
      → has_third_risk e.decision ≡ false
  unfolding decide_hypotheses
  parts-risk cfg e (fit, evaluated, inl same) =
      rw same (decide_by-risk cfg e.h1 e.h2 _ (is_supported_h2 floats cfg e.h2) _ fit.0 refl)
  parts-risk cfg e (fit, evaluated, inr (state, found, invalid, refused)) = rw found refl

  parts-IsDecided :
      IsOrdered floats
      → (cfg : DiarizationConfig F) (e : HypothesisEvaluation F) → AreParts cfg e
      → IsDecided floats cfg e.h1 e.h2 e.decision
  parts-IsDecided ordered cfg e (fit, evaluated, inl same) =
      subst (IsDecided floats cfg e.h1 e.h2) (sym same)
        (decide_hypotheses-IsDecided floats ordered cfg e.h1 e.h2 fit evaluated)
  parts-IsDecided ordered cfg e (fit, evaluated, inr (state, found, invalid, refused)) =
      inr (inr (state, found, inr (inl refused, ground (arith, invalid))))

  -- With a total order on floats, an evaluation that decides for two speakers has a valid second
  -- hypothesis whose measured support, dispersion, outliers, separation, gain and both stabilities
  -- are within the limits, with interleaving and without a conflict or a third speaker; one that
  -- decides for one speaker has a first hypothesis whose measured dispersion and outliers are
  -- within the limits, and a second that is no candidate; neither has a reason code. Otherwise the
  -- decision is uncertain, without a hypothesis, and a test of the second hypothesis fails, or it
  -- is no candidate and the first is invalid or breaks its constraints.
  pub evaluate_hypotheses-IsDecided :
      (anchors : List (AnchorEvidence F)) (cfg : DiarizationConfig F) (e : HypothesisEvaluation F)
      → IsOrdered floats
      → evaluate_hypotheses floats anchors cfg ≡ ok e
      → IsDecided floats cfg e.h1 e.h2 e.decision
  evaluate_hypotheses-IsDecided anchors cfg e ordered h =
      parts-IsDecided ordered cfg e (evaluation_parts anchors cfg e h)

  -- For the decision of an evaluation, the decoder's emission for OTHER is infinite, whatever the
  -- tracklet, its assignment and the configuration.
  pub evaluate_hypotheses-emission :
      (anchors : List (AnchorEvidence F)) (cfg decoder_cfg : DiarizationConfig F)
      (e : HypothesisEvaluation F) (t : Tracklet F) (a : SpeakerAssignment F)
      → evaluate_hypotheses floats anchors cfg ≡ ok e
      → emission floats t other a e.decision decoder_cfg ≡ floats.infinity
  unfolding emission
  evaluate_hypotheses-emission anchors cfg decoder_cfg e t a h =
      let risk = parts-risk cfg e (evaluation_parts anchors cfg e h) in
      ap (λ b. if b then decoder_cfg.other_cost else floats.infinity) risk
