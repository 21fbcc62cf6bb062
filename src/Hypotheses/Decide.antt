-- ===== src/Hypotheses/Decide.antt =====
-- `evaluate_h2`, `evaluate_hypotheses` and `speaker_states_from_decision` of src/sddiar/diarization.py.
use Prim.Native.String.{String}
use sddiar.Base.{
  ℕ, min, Bool, true, false, not, ◌&&◌, ◌||◌, Option, none, some, List, [], ◌∷◌, ◌++◌, map, keep_if,
  Result, ok, ◌>>=◌, if◌then◌else◌, ltb, leb, ◌==◌,
}
use sddiar.Base.Sort.{sort}
use sddiar.Floats.{Floats}
use sddiar.Spans.{Speaker, speaker_00, speaker_01}
use sddiar.Tracklets.{DiarizationConfig}
use sddiar.Assignment.{SpeakerState, SpeakerStates, checked_state}
use sddiar.Assignment.Vectors.{weighted_centroid}
use sddiar.Hypotheses.{
  AnchorEvidence, SpeakerHypothesis, HypothesisDecision, h1_confirmed, h2_confirmed,
  uncertain_1_or_2, distinct,
}
use sddiar.Hypotheses.Fit.{
  elem_at, weighted, checked_hypothesis, invalid_hypothesis, robust_spherical_fit,
}
use sddiar.Hypotheses.Seeds.{fit_h2_once}
use sddiar.Hypotheses.Evidence.{label_of, same_label, stability, temporal_evidence, third_risk_of}

pub record HypothesisEvaluation (F : Type 0) : Type 0 where
  pub decision : HypothesisDecision F
  pub h1 : SpeakerHypothesis F
  pub h2 : SpeakerHypothesis F

-- A reason that is appended if its test holds.
abbrev pub reason_if : Bool → String → List String
reason_if test reason = if test then reason ∷ [] else []

module _ {F : Type 0} (floats : Floats F) where
  abbrev pub float_of : Bool → F
  float_of b = if b then floats.of_int 1 else floats.of_int 0

  -- The hypothesis that `evaluate_h2` returns for its evidence.
  unfoldable pub evaluated :
      SpeakerHypothesis F
      → DiarizationConfig F
      → F
      → F
      → Bool
      → Bool
      → Bool
      → Result (SpeakerHypothesis F)
  evaluated base cfg label_stability centroid_stability interleaving conflict third_risk =
      let penalty = floats.add (float_of (not interleaving)) (float_of conflict) in
      let unstable =
        floats.lt label_stability cfg.h2_min_label_stability
        || floats.lt centroid_stability cfg.h2_min_centroid_stability in
      let cost =
        floats.add
          (floats.add (floats.add base.robust_cost cfg.lambda_k2)
            (floats.mul cfg.lambda_stability (floats.sub floats.one label_stability)))
          (floats.mul cfg.lambda_condition penalty) in
      checked_hypothesis floats (record base {
        total_cost = cost;
        label_stability = some label_stability;
        centroid_stability = some centroid_stability;
        temporal_interleaving = some interleaving;
        continuous_speech_conflict = some conflict;
        third_speaker_risk = third_risk;
        reason_codes =
            reason_if unstable "H2_UNSTABLE"
            ++ reason_if (not interleaving) "H2_NO_INTERLEAVING_EVIDENCE"
            ++ reason_if conflict "H2_CONTINUOUS_SPEECH_CONFLICT"
            ++ reason_if third_risk "THIRD_SPEAKER_RISK";
      })

  unfoldable pub evaluate_h2 :
      List (AnchorEvidence F) → DiarizationConfig F → Result (SpeakerHypothesis F)
  evaluate_h2 anchors cfg = do
    base ← fit_h2_once floats anchors cfg
    if not base.is_valid then ok base else (do
      (labels, centers) ← stability floats base anchors cfg
      let (interleaving, conflict) = temporal_evidence floats base anchors cfg
      third_risk ← third_risk_of floats base anchors cfg
      evaluated base cfg labels centers interleaving conflict third_risk)

  abbrev pub at_least : F → Option F → Bool
  at_least limit none = false
  at_least limit (some x) = floats.leb limit x

  -- `(x or 0.0) >= limit`
  abbrev pub zero_at_least : F → Option F → Bool
  zero_at_least limit none = floats.leb limit floats.zero
  zero_at_least limit (some x) = floats.leb limit x

  abbrev pub is_true : Option Bool → Bool
  is_true none = false
  is_true (some b) = b

  -- `h2_acoustic_candidate`
  unfoldable pub is_candidate :
      DiarizationConfig F → SpeakerHypothesis F → SpeakerHypothesis F → Bool
  is_candidate cfg h1 h2 =
      h2.is_valid
      && (at_least cfg.h2_min_separation h2.separation
          && floats.leb cfg.h2_min_cost_gain (floats.sub h1.robust_cost h2.total_cost))

  -- The other tests of `h2_confirmed`.
  unfoldable pub is_supported_h2 : DiarizationConfig F → SpeakerHypothesis F → Bool
  is_supported_h2 cfg h2 =
      h2.cluster_support_ok
      && (h2.dispersion_ok
          && (h2.outlier_ratio_ok
              && (zero_at_least cfg.h2_min_label_stability h2.label_stability
                  && (zero_at_least cfg.h2_min_centroid_stability h2.centroid_stability
                      && (is_true h2.temporal_interleaving
                          && (not (is_true h2.continuous_speech_conflict)
                              && not h2.third_speaker_risk))))))

  -- The decision of `evaluate_hypotheses` by `h2_acoustic_candidate`, the other tests of
  -- `h2_confirmed`, and `h1_confident`
  unfoldable pub decide_by :
      Bool → Bool → Bool → SpeakerHypothesis F → SpeakerHypothesis F → HypothesisDecision F
  decide_by candidate supported confident h1 h2 =
      if candidate && supported
      then record { state = h2_confirmed; hypothesis = some h2; reason_codes = h2.reason_codes }
      else if candidate
      then record { state = uncertain_1_or_2; hypothesis = none; reason_codes = h2.reason_codes }
      else if confident
      then record { state = h1_confirmed; hypothesis = some h1; reason_codes = h1.reason_codes }
      else record {
        state = uncertain_1_or_2;
        hypothesis = none;
        reason_codes = distinct (h1.reason_codes ++ h2.reason_codes);
      }

  unfoldable pub decide_hypotheses :
      DiarizationConfig F → SpeakerHypothesis F → SpeakerHypothesis F → HypothesisDecision F
  decide_hypotheses cfg h1 h2 =
      decide_by (is_candidate cfg h1 h2) (is_supported_h2 cfg h2)
        (h1.is_valid && h1.valid_constraints) h1 h2

  unfoldable pub evaluate_hypotheses :
      List (AnchorEvidence F) → DiarizationConfig F → Result (HypothesisEvaluation F)
  evaluate_hypotheses [] cfg = do
    h1 ← invalid_hypothesis floats 1 "INSUFFICIENT_ANCHORS"
    h2 ← evaluate_h2 [] cfg
    ok (record {
      decision = record {
        state = uncertain_1_or_2;
        hypothesis = none;
        reason_codes = "INSUFFICIENT_CLEAN_ANCHORS" ∷ [];
      };
      h1 = h1;
      h2 = h2;
    })
  evaluate_hypotheses (a ∷ anchors) cfg = do
    seed ← weighted_centroid floats (map (weighted floats) (a ∷ anchors))
    h1 ← robust_spherical_fit floats (a ∷ anchors) 1 (seed ∷ []) cfg
    h2 ← evaluate_h2 (a ∷ anchors) cfg
    ok (record { decision = decide_hypotheses cfg h1 h2; h1 = h1; h2 = h2 })

  unfoldable pub choose_hypothesis :
      List (AnchorEvidence F) → DiarizationConfig F → Result (HypothesisDecision F)
  choose_hypothesis anchors cfg = evaluate_hypotheses anchors cfg >>= (λ e. ok e.decision)

  -- `earliest.get(label, INF)`
  abbrev pub earlier_of : Option ℕ → ℕ → Option ℕ
  earlier_of none start = some start
  earlier_of (some known) start = some (min known start)

  unfoldable pub earliest_of :
      SpeakerHypothesis F → ℕ → List (AnchorEvidence F) → Option ℕ → Option ℕ
  earliest_of h label [] found = found
  earliest_of h label (a ∷ anchors) found =
      earliest_of h label anchors
        (if same_label (label_of h a) (some label) then earlier_of found a.start_us else found)

  -- The key `(earliest.get(label, INF), label)`
  abbrev pub le_earliest : Option ℕ × ℕ → Option ℕ × ℕ → Bool
  le_earliest (some x, i) (some y, j) = ltb x y || (x == y && leb i j)
  le_earliest (some x, i) (none, j) = true
  le_earliest (none, i) (some y, j) = false
  le_earliest (none, i) (none, j) = leb i j

  abbrev pub cluster_order : SpeakerHypothesis F → List (AnchorEvidence F) → List ℕ
  cluster_order h anchors =
      let clusters = if h.k == 2 then 0 ∷ 1 ∷ [] else 0 ∷ [] in
      map (λ c. c.1) (sort le_earliest (map (λ i. (earliest_of h i anchors none, i)) clusters))

  abbrev pub state_for :
      SpeakerHypothesis F → List (AnchorEvidence F) → Speaker → ℕ → Result (SpeakerState F)
  state_for h anchors speaker cluster = do
    center ← elem_at h.centers cluster
    dispersion ← elem_at h.cluster_dispersion cluster
    let own = keep_if (λ a. same_label (label_of h a) (some cluster)) anchors
    checked_state floats (record {
      speaker_id = speaker;
      stable_anchor_centroid = center;
      stable_anchor_ids = map (λ a. a.tracklet_id) own;
      stable_dispersion = dispersion;
      recent_centroid = none;
      recent_mass = floats.zero;
      recent_last_us = none;
      recent_frozen = false;
      drift_flags = [];
    })

  -- The loop over `order`, with `SPEAKER_IDS[output_index]`
  unfoldable pub states_for :
      SpeakerHypothesis F
      → List (AnchorEvidence F)
      → List Speaker
      → List ℕ
      → Result (SpeakerStates F)
  states_for h anchors (speaker ∷ speakers) (cluster ∷ clusters) = do
    state ← state_for h anchors speaker cluster
    later ← states_for h anchors speakers clusters
    ok ((speaker, state) ∷ later)
  states_for h anchors _ _ = ok []

  abbrev pub states_from :
      List (AnchorEvidence F) → Option (SpeakerHypothesis F) → Result (SpeakerStates F)
  states_from anchors none = ok []
  states_from anchors (some h) =
      states_for h anchors (speaker_00 ∷ speaker_01 ∷ []) (cluster_order h anchors)

  unfoldable pub speaker_states_from_decision :
      HypothesisDecision F → List (AnchorEvidence F) → Result (SpeakerStates F)
  speaker_states_from_decision decision anchors = states_from anchors decision.hypothesis
