-- ===== src/Hypotheses/Decided.antt =====
-- src/sddiar/diarization.py: what the tests of `evaluate_hypotheses` need of the hypotheses.
use sddiar.Base.{
  Bool-cases, sym, ◌∙◌, ◌≡◌, refl, ap, ◌⊎◌, inl, inr, Bool, true, false, not, ◌&&◌, Option, none,
  some, [], ◌∷◌, any, arith,
}
use sddiar.Floats.{Floats}
use sddiar.Tracklets.{DiarizationConfig}
use sddiar.Hypotheses.{
  SpeakerHypothesis, HypothesisDecision, h1_confirmed, h2_confirmed, uncertain_1_or_2,
}
use sddiar.Hypotheses.Decide.{is_candidate, is_supported_h2, decide_by, decide_hypotheses}
use sddiar.Floats.{IsOrdered}
use sddiar.Hypotheses.Fit.{has_support, some_above}
use sddiar.Hypotheses.Decide.{at_least, zero_at_least, is_true}
use sddiar.Hypotheses.Fits.{IsFit}
use sddiar.Hypotheses.Evaluated.{IsEvaluated}

module _ {F : Type 0} (floats : Floats F) where
  -- The second hypothesis is no acoustic candidate: it is invalid, or its centers are not apart, or
  -- it does not gain enough on the first.
  abbrev pub IsNoCandidate :
      DiarizationConfig F → SpeakerHypothesis F → SpeakerHypothesis F → Type 0
  IsNoCandidate cfg h1 h2 =
      (h2.is_valid ≡ false)
      ⊎ (at_least floats cfg.h2_min_separation h2.separation ≡ false)
      ⊎ (floats.leb cfg.h2_min_cost_gain (floats.sub h1.robust_cost h2.total_cost) ≡ false)

  -- What a decision for two speakers means for the second hypothesis: its measures are within the
  -- limits, it gains on the first, and no evidence speaks against it.
  abbrev pub IsTwo : DiarizationConfig F → SpeakerHypothesis F → SpeakerHypothesis F → Type 0
  IsTwo cfg h1 h2 =
      (h2.is_valid ≡ true)
      × (has_support floats cfg h2.independent_anchor_count h2.clean_duration_us ≡ true)
      × (some_above floats cfg.h2_max_cluster_dispersion h2.cluster_dispersion ≡ false)
      × (floats.leb h2.outlier_ratio cfg.h2_max_outlier_ratio ≡ true)
      × (floats.leb cfg.h2_min_cost_gain (floats.sub h1.robust_cost h2.total_cost) ≡ true)
      × ((gap : F) × (h2.separation ≡ some gap) × (floats.leb cfg.h2_min_separation gap ≡ true))
      × ((labels : F) × (h2.label_stability ≡ some labels)
          × (floats.leb cfg.h2_min_label_stability labels ≡ true))
      × ((centers : F) × (h2.centroid_stability ≡ some centers)
          × (floats.leb cfg.h2_min_centroid_stability centers ≡ true))
      × (h2.temporal_interleaving ≡ some true)
      × (h2.continuous_speech_conflict ≡ some false)
      × (h2.third_speaker_risk ≡ false)

  -- One of the tests of the second hypothesis fails.
  abbrev pub fails_support : DiarizationConfig F → SpeakerHypothesis F → Bool
  fails_support cfg h2 = any not (
      h2.cluster_support_ok
      ∷ h2.dispersion_ok
      ∷ h2.outlier_ratio_ok
      ∷ zero_at_least floats cfg.h2_min_label_stability h2.label_stability
      ∷ zero_at_least floats cfg.h2_min_centroid_stability h2.centroid_stability
      ∷ is_true floats h2.temporal_interleaving
      ∷ not (is_true floats h2.continuous_speech_conflict)
      ∷ not h2.third_speaker_risk
      ∷ [])

  -- What each decision needs; a decision for a hypothesis has no reason codes.
  abbrev pub IsDecided :
      DiarizationConfig F
      → SpeakerHypothesis F
      → SpeakerHypothesis F
      → HypothesisDecision F
      → Type 0
  IsDecided cfg h1 h2 d =
      ((d.state ≡ h2_confirmed)
        × (d.hypothesis ≡ some h2)
        × (d.reason_codes ≡ [])
        × IsTwo cfg h1 h2)
      ⊎ ((d.state ≡ h1_confirmed)
          × (d.hypothesis ≡ some h1)
          × (d.reason_codes ≡ [])
          × IsNoCandidate cfg h1 h2
          × (some_above floats cfg.h1_max_dispersion h1.cluster_dispersion ≡ false)
          × (floats.leb h1.outlier_ratio cfg.h1_max_outlier_ratio ≡ true))
      ⊎ ((d.state ≡ uncertain_1_or_2)
          × (d.hypothesis ≡ none)
          × ((fails_support cfg h2 ≡ true)
              ⊎ (IsNoCandidate cfg h1 h2 × ((h1.is_valid && h1.valid_constraints) ≡ false))))

  candidate-cases :
      (cfg : DiarizationConfig F) (h1 h2 : SpeakerHypothesis F)
      → is_candidate floats cfg h1 h2 ≡ false
      → IsNoCandidate cfg h1 h2
  unfolding is_candidate
  candidate-cases cfg h1 h2 h = elim (Bool-cases h2.is_valid) [
    | inl valid ↦ elim (Bool-cases (at_least floats cfg.h2_min_separation h2.separation)) [
      | inl apart ↦ inr (inr (ground (arith, h, valid, apart)))
      | inr near ↦ inr (inl near)
    ]
    | inr invalid ↦ inl invalid
  ]

  at_least-some :
      (limit : F) (found : Option F)
      → at_least floats limit found ≡ true
      → (x : F) × (found ≡ some x) × (floats.leb limit x ≡ true)
  at_least-some limit none h = cc
  at_least-some limit (some x) h = (x, refl, h)

  supported-fails :
      (cfg : DiarizationConfig F) (h2 : SpeakerHypothesis F)
      → is_supported_h2 floats cfg h2 ≡ false
      → fails_support cfg h2 ≡ true
  unfolding is_supported_h2
  supported-fails cfg h2 h = ground (arith, h)

  -- The eight tests of `is_supported_h2`
  pub supported_tests :
      (cfg : DiarizationConfig F) (h2 : SpeakerHypothesis F)
      → is_supported_h2 floats cfg h2 ≡ true
      → (h2.cluster_support_ok ≡ true)
        × (h2.dispersion_ok ≡ true)
        × (h2.outlier_ratio_ok ≡ true)
        × (zero_at_least floats cfg.h2_min_label_stability h2.label_stability ≡ true)
        × (zero_at_least floats cfg.h2_min_centroid_stability h2.centroid_stability ≡ true)
        × (is_true floats h2.temporal_interleaving ≡ true)
        × (is_true floats h2.continuous_speech_conflict ≡ false)
        × (h2.third_speaker_risk ≡ false)
  unfolding is_supported_h2
  supported_tests cfg h2 h = (
    ground (arith, h),
    ground (arith, h),
    ground (arith, h),
    ground (arith, h),
    ground (arith, h),
    ground (arith, h),
    ground (arith, h),
    ground (arith, h),
  )

  candidate_tests :
      (cfg : DiarizationConfig F) (h1 h2 : SpeakerHypothesis F)
      → is_candidate floats cfg h1 h2 ≡ true
      → (h2.is_valid ≡ true)
        × (at_least floats cfg.h2_min_separation h2.separation ≡ true)
        × (floats.leb cfg.h2_min_cost_gain (floats.sub h1.robust_cost h2.total_cost) ≡ true)
  unfolding is_candidate
  candidate_tests cfg h1 h2 h = (ground (arith, h), ground (arith, h), ground (arith, h))

  confirmed-IsTwo :
      IsOrdered floats
      → (cfg : DiarizationConfig F) (h1 h2 : SpeakerHypothesis F)
      → is_candidate floats cfg h1 h2 ≡ true
      → is_supported_h2 floats cfg h2 ≡ true
      → IsEvaluated floats cfg h2
      → (h2.reason_codes ≡ []) × IsTwo cfg h1 h2
  confirmed-IsTwo ordered cfg h1 h2 candidate supported (inl invalid) =
      let (valid, apart, gain) = candidate_tests cfg h1 h2 candidate in
      ground (arith, valid, invalid)
  confirmed-IsTwo ordered cfg h1 h2 candidate supported
        (inr (
          (constraints, support, dispersion, outlier),
          (l, c, i, k, has_l, has_c, has_i, has_k, reasons),
        )) =
      let (valid, apart, gain) = candidate_tests cfg h1 h2 candidate in
      let (support_ok, dispersion_ok, outlier_ok, label_ok, center_ok, i_ok, k_ok, quiet) =
        supported_tests cfg h2 supported in
      let stable_l = ap (zero_at_least floats cfg.h2_min_label_stability) (sym has_l) ∙ label_ok in
      let stable_c =
        ap (zero_at_least floats cfg.h2_min_centroid_stability) (sym has_c) ∙ center_ok in
      let inter : i ≡ true = ap (is_true floats) (sym has_i) ∙ i_ok in
      let conflict : k ≡ false = ap (is_true floats) (sym has_k) ∙ k_ok in
      let near_l : floats.lt l cfg.h2_min_label_stability ≡ false =
        ordered.lt_not_leb l cfg.h2_min_label_stability ∙ ap not stable_l in
      let near_c : floats.lt c cfg.h2_min_centroid_stability ≡ false =
        ordered.lt_not_leb c cfg.h2_min_centroid_stability ∙ ap not stable_c in
      (
        reasons ∙ rw (near_l, near_c, inter, conflict, quiet) refl,
        (
          valid,
          sym support ∙ support_ok,
          ground (arith, dispersion, dispersion_ok),
          sym outlier ∙ outlier_ok,
          gain,
          at_least-some cfg.h2_min_separation h2.separation apart,
          (l, has_l, stable_l),
          (c, has_c, stable_c),
          has_i ∙ ap some inter,
          has_k ∙ ap some conflict,
          quiet,
        ),
      )

  confident-within :
      (cfg : DiarizationConfig F) (h1 : SpeakerHypothesis F)
      → (h1.is_valid && h1.valid_constraints) ≡ true
      → IsFit floats cfg 1 h1
      → (h1.reason_codes ≡ [])
        × (some_above floats cfg.h1_max_dispersion h1.cluster_dispersion ≡ false)
        × (floats.leb h1.outlier_ratio cfg.h1_max_outlier_ratio ≡ true)
  confident-within cfg h1 h (quiet, inl invalid) = ground (arith, h, invalid)
  confident-within cfg h1 h (quiet, inr (reasons, (constraints, support, dispersion, outlier))) =
      (reasons, ground (arith, h, constraints, dispersion), ground (arith, h, constraints, outlier))

  decide_by-IsDecided :
      IsOrdered floats
      → (cfg : DiarizationConfig F) (h1 h2 : SpeakerHypothesis F)
        (candidate supported confident : Bool)
      → IsFit floats cfg 1 h1
      → IsEvaluated floats cfg h2
      → is_candidate floats cfg h1 h2 ≡ candidate
      → is_supported_h2 floats cfg h2 ≡ supported
      → (h1.is_valid && h1.valid_constraints) ≡ confident
      → IsDecided cfg h1 h2 (decide_by floats candidate supported confident h1 h2)
  unfolding decide_by
  decide_by-IsDecided ordered cfg h1 h2 true true confident fit evaluated c s f =
      let (reasons, two) = confirmed-IsTwo ordered cfg h1 h2 c s evaluated in
      inl (refl, refl, reasons, two)
  decide_by-IsDecided ordered cfg h1 h2 true false confident fit evaluated c s f =
      inr (inr (refl, refl, inl (supported-fails cfg h2 s)))
  decide_by-IsDecided ordered cfg h1 h2 false supported true fit evaluated c s f =
      let (reasons, dispersed, outliers) = confident-within cfg h1 f fit in
      inr (inl (refl, refl, reasons, candidate-cases cfg h1 h2 c, dispersed, outliers))
  decide_by-IsDecided ordered cfg h1 h2 false supported false fit evaluated c s f =
      inr (inr (refl, refl, inr (candidate-cases cfg h1 h2 c, f)))

  pub decide_hypotheses-IsDecided :
      IsOrdered floats
      → (cfg : DiarizationConfig F) (h1 h2 : SpeakerHypothesis F) → IsFit floats cfg 1 h1
      → IsEvaluated floats cfg h2
      → IsDecided cfg h1 h2 (decide_hypotheses floats cfg h1 h2)
  unfolding decide_hypotheses
  decide_hypotheses-IsDecided ordered cfg h1 h2 fit evaluated =
      decide_by-IsDecided ordered cfg h1 h2 (is_candidate floats cfg h1 h2)
        (is_supported_h2 floats cfg h2) (h1.is_valid && h1.valid_constraints) fit evaluated refl
        refl refl
