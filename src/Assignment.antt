-- ===== src/Assignment.antt =====
-- src/sddiar/diarization.py: the local assignment of a tracklet to a speaker, by the distance of its
-- embedding to the speakers' centroids.
pub mod Vectors
pub mod Recent
pub mod Gate
pub mod Tests
use Prim.Native.String.{String}
use text.Mathlib.Text.{◌==◌ as str_eq}
use sddiar.Base.{
  ℕ, Bool, true, false, not, ◌&&◌, ◌||◌, Option, none, some, List, [], ◌∷◌, Result, ok, err,
  contract_validation, index_error, ◌>>=◌, ◌>>◌, raise_if, if◌then◌else◌, ltb, ◌==◌, any,
}
use sddiar.Base.Sort.{sort}
use sddiar.Floats.{Floats, min_float, max_float}
use sddiar.Spans.{
  Speaker, unknown, overlap, same_speaker, speaker_code, is_supported, is_session_speaker,
}
use sddiar.Hypotheses.{HypothesisDecision, is_confirmed}
use sddiar.Tracklets.{Kind, anchor, support, micro, Tracklet, DiarizationConfig}
use sddiar.Assignment.Vectors.{cosine_distance, check_unit_vector}

pub record SpeakerState (F : Type 0) : Type 0 where
  pub speaker_id : Speaker
  pub stable_anchor_centroid : List F
  pub stable_anchor_ids : List String
  pub stable_dispersion : F
  pub recent_centroid : Option (List F)
  pub recent_mass : F
  pub recent_last_us : Option ℕ
  pub recent_frozen : Bool
  pub drift_flags : List String

-- `vector` is `none` for an embedding without one.
pub record EmbeddingResult (F : Type 0) : Type 0 where
  pub tracklet_id : String
  pub is_valid : Bool
  pub vector : Option (List F)
  pub intra_window_consistency : F
  pub quality : F

pub record SpeakerAssignment (F : Type 0) : Type 0 where
  pub tracklet_id : String
  pub speaker_id : Speaker
  pub attribution_status : String
  pub stable_distance : Option F
  pub effective_distance : Option F
  pub margin : Option F
  pub evidence_ids : List String
  pub reason_codes : List String

abbrev pub SpeakerStates : Type 0 → Type 0
SpeakerStates F = List (Speaker × SpeakerState F)

-- A speaker with its stable and its effective distance.
pub record Score (F : Type 0) : Type 0 where
  pub speaker : Speaker
  pub stable : F
  pub effective : F

abbrev pub later_or {ℓ} : {A : Type ℓ} → Option A → Option A → Option A
later_or none earlier = earlier
later_or (some found) earlier = some found

-- A key of the two distances by the effective one and the name.
module _ {F : Type 0} where
  -- `by_tracklet.get(tracklet_id)`, where a later embedding replaces an earlier one
  unfoldable pub embedding_of : String → List (EmbeddingResult F) → Option (EmbeddingResult F)
  embedding_of id [] = none
  embedding_of id (e ∷ embeddings) =
      later_or (embedding_of id embeddings) (if str_eq e.tracklet_id id then some e else none)

  -- The vector of an embedding that may be used.
  abbrev pub usable : Option (EmbeddingResult F) → Option (List F)
  usable none = none
  usable (some e) = if e.is_valid then e.vector else none

  -- `sorted(states.items())`, whose keys differ
  abbrev pub le_state : Speaker × SpeakerState F → Speaker × SpeakerState F → Bool
  le_state x y = not (ltb (speaker_code y.0) (speaker_code x.0))

module _ {F : Type 0} (floats : Floats F) where
  abbrev pub le_score : Score F → Score F → Bool
  le_score x y =
      floats.lt x.effective y.effective
      || (not (floats.lt y.effective x.effective)
          && not (ltb (speaker_code y.speaker) (speaker_code x.speaker)))

  abbrev pub check_optional_vector : Option (List F) → Result (Unit {0})
  check_optional_vector none = ok tt
  check_optional_vector (some vector) = check_unit_vector floats vector

  -- `SpeakerState.__post_init__`, after which the state is returned
  unfoldable pub checked_state : SpeakerState F → Result (SpeakerState F)
  checked_state state = do
    check_unit_vector floats state.stable_anchor_centroid
    check_optional_vector state.recent_centroid
    raise_if (not (floats.finite state.stable_dispersion)) contract_validation
    raise_if (not (floats.finite state.recent_mass)) contract_validation
    ok state

  -- `SpeakerAssignment(...)` with `__post_init__`
  abbrev pub is_bad : Option F → Bool
  is_bad none = false
  is_bad (some d) = not (floats.finite d)

  -- `_assignment`
  unfoldable pub assignment :
      Tracklet F
      → Speaker
      → String
      → Option F
      → Option F
      → Option F
      → List String
      → Result (SpeakerAssignment F)
  assignment t speaker status stable effective margin reasons = do
    raise_if (not (is_supported speaker)) contract_validation
    raise_if (is_bad stable || (is_bad effective || is_bad margin)) contract_validation
    ok (record {
      tracklet_id = t.tracklet_id;
      speaker_id = speaker;
      attribution_status = status;
      stable_distance = stable;
      effective_distance = effective;
      margin = margin;
      evidence_ids = t.boundary_evidence_ids;
      reason_codes = reasons;
    })

  -- `_role_thresholds`: the ceiling, the limit and the margin
  abbrev pub role_thresholds : Kind → DiarizationConfig F → F × F × F
  role_thresholds anchor cfg =
      (cfg.anchor_stable_distance_ceiling, cfg.anchor_absolute_distance_max, cfg.anchor_margin_min)
  role_thresholds support cfg = (
    cfg.support_stable_distance_ceiling, cfg.support_absolute_distance_max, cfg.support_margin_min,
  )
  role_thresholds micro cfg =
      (cfg.micro_stable_distance_ceiling, cfg.micro_absolute_distance_max, cfg.micro_margin_min)

  -- The effective distance, for the recent centroid if it is used.
  abbrev pub recent_distances :
      List F → DiarizationConfig F → F → Bool → Option (List F) → Result (F × F)
  recent_distances vector cfg stable true (some centroid) = do
    recent ← cosine_distance floats vector centroid
    let gain = max_float floats floats.zero (floats.sub stable recent)
    let benefit = min_float floats cfg.recent_max_benefit gain
    ok (stable, floats.sub stable (floats.mul cfg.recent_blend benefit))
  recent_distances vector cfg stable _ _ = ok (stable, stable)

  -- `_state_distances`
  unfoldable pub state_distances : List F → SpeakerState F → DiarizationConfig F → Result (F × F)
  state_distances vector state cfg = do
    stable ← cosine_distance floats vector state.stable_anchor_centroid
    recent_distances vector cfg stable cfg.enable_recent_centroid state.recent_centroid

  unfoldable pub scores_of :
      List F → DiarizationConfig F → SpeakerStates F → Result (List (Score F))
  scores_of vector cfg [] = ok []
  scores_of vector cfg ((speaker, state) ∷ states) = do
    (stable, effective) ← state_distances vector state cfg
    later ← scores_of vector cfg states
    ok (record { speaker = speaker; stable = stable; effective = effective } ∷ later)

  -- The distance to the second best speaker.
  abbrev pub margin_of : Score F → List (Score F) → Option F
  margin_of best [] = none
  margin_of best (second ∷ rest) = some (floats.sub second.effective best.effective)

  abbrev pub is_below : Option F → F → Bool
  is_below none limit = false
  is_below (some margin) limit = floats.lt margin limit

  abbrev pub fails_gate : Tracklet F → DiarizationConfig F → Score F → Option F → Bool
  fails_gate t cfg best margin =
      let (ceiling, limit, least) = role_thresholds t.kind cfg in
      floats.lt ceiling best.stable || (floats.lt limit best.effective || is_below margin least)

  abbrev pub insufficient : String
  insufficient = "UNKNOWN_INSUFFICIENT_EVIDENCE"

  -- The last two returns of `local_assignment`.
  unfoldable pub assign_best :
      Tracklet F → DiarizationConfig F → List (Score F) → Result (SpeakerAssignment F)
  assign_best t cfg [] = err index_error
  assign_best t cfg (best ∷ rest) =
      let margin = margin_of best rest in
      if fails_gate t cfg best margin
      then assignment t unknown insufficient (some best.stable) (some best.effective) margin
          ("LOCAL_GATE_FAILED" ∷ [])
      else assignment t best.speaker "LOCAL_CANDIDATE" (some best.stable) (some best.effective)
          margin []

  abbrev pub refuse : Tracklet F → String → Result (SpeakerAssignment F)
  refuse t reason = assignment t unknown insufficient none none none (reason ∷ [])

  unfoldable pub assign_scored :
      Tracklet F → DiarizationConfig F → List F → SpeakerStates F → Result (SpeakerAssignment F)
  assign_scored t cfg vector [] = refuse t "NO_SPEAKER_STATE"
  assign_scored t cfg vector (s ∷ states) = do
    scores ← scores_of vector cfg (sort le_state (s ∷ states))
    assign_best t cfg (sort le_score scores)

  abbrev pub assign_vector :
      Tracklet F
      → DiarizationConfig F
      → SpeakerStates F
      → Option (List F)
      → Result (SpeakerAssignment F)
  assign_vector t cfg states none = refuse t "MIXED_OR_INVALID_EMBEDDING"
  assign_vector t cfg states (some vector) = assign_scored t cfg vector states

  unfoldable pub local_assignment :
      Tracklet F
      → Option (EmbeddingResult F)
      → SpeakerStates F
      → HypothesisDecision F
      → DiarizationConfig F
      → Result (SpeakerAssignment F)
  local_assignment t embedding states decision cfg =
      if t.protected_overlap
      then assignment t overlap "OVERLAP" none none none ("PROTECTED_OVERLAP" ∷ [])
      else if not (is_confirmed decision.state)
      then refuse t "HYPOTHESIS_UNCONFIRMED"
      else if t.mixed_tracklet_suspect
      then refuse t "MIXED_OR_INVALID_EMBEDDING"
      else assign_vector t cfg states (usable embedding)

  -- The status that a MICRO tracklet gets instead.
  abbrev pub micro_status : SpeakerAssignment F → SpeakerAssignment F
  micro_status a =
      if same_speaker a.speaker_id unknown
      then record a { attribution_status = "UNKNOWN_SHORT" }
      else if same_speaker a.speaker_id overlap
      then a
      else record a { attribution_status = "CANDIDATE_SPEAKER" }

  unfoldable pub re_evaluate_micro :
      Tracklet F
      → Option (EmbeddingResult F)
      → SpeakerStates F
      → HypothesisDecision F
      → DiarizationConfig F
      → Result (SpeakerAssignment F)
  re_evaluate_micro t embedding states decision cfg =
      local_assignment t embedding states decision cfg >>= (λ a. ok (micro_status a))
