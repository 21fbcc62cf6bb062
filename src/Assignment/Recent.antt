-- ===== src/Assignment/Recent.antt =====
-- The bounded updates of a speaker's recent centroid.
use Prim.Native.String.{String}
use text.Mathlib.Text.{◌==◌ as str_eq}
use sddiar.Base.{
  Bool, true, false, not, ◌||◌, Option, none, some, List, [], ◌∷◌, Result, ok, ◌>>=◌, if◌then◌else◌,
  any,
}
use sddiar.Base.Sort.{sort}
use sddiar.Floats.{Floats}
use sddiar.Spans.{Speaker, same_speaker}
use sddiar.Tracklets.{Kind, micro, Tracklet, DiarizationConfig, le_tracklet}
use sddiar.Hypotheses.{HypothesisDecision}
use sddiar.Assignment.Vectors.{cosine_distance, weighted_centroid}
use sddiar.Assignment.{
  SpeakerState, EmbeddingResult, SpeakerAssignment, SpeakerStates, embedding_of, usable,
  local_assignment, checked_state,
}

abbrev pub is_micro : Kind → Bool
is_micro micro = true
is_micro _ = false

-- `state.drift_flags | frozenset({flag})`
abbrev pub add_flag : String → List String → List String
add_flag flag flags = if any (λ f. str_eq f flag) flags then flags else flag ∷ flags

module _ {F : Type 0} (floats : Floats F) where
  -- Whether an optional distance is missing or out of a bound.
  abbrev pub missing_or : (F → Bool) → Option F → Bool
  missing_or test none = true
  missing_or test (some d) = test d

  abbrev pub quality_too_low : DiarizationConfig F → Option (EmbeddingResult F) → Bool
  quality_too_low cfg none = true
  quality_too_low cfg (some e) = floats.lt e.quality cfg.recent_update_quality_min

  -- The second `if` of `maybe_update_recent`, but for the embedding's vector.
  abbrev pub is_ineligible :
      SpeakerState F
      → Tracklet F
      → Option (EmbeddingResult F)
      → SpeakerAssignment F
      → DiarizationConfig F
      → Bool
  is_ineligible state t embedding a cfg =
      is_micro t.kind
      || (t.protected_overlap
          || (t.mixed_tracklet_suspect
              || (not (same_speaker a.speaker_id state.speaker_id)
                  || (missing_or (λ m. floats.lt m cfg.recent_update_margin_min) a.margin
                      || (missing_or (λ d. floats.lt cfg.recent_update_stable_fit_max d)
                            a.stable_distance
                          || quality_too_low cfg embedding)))))

  abbrev pub or_stable : SpeakerState F → List F
  or_stable state = elim state.recent_centroid [
    | none ↦ state.stable_anchor_centroid
    | some [] ↦ state.stable_anchor_centroid
    | some (x ∷ xs) ↦ x ∷ xs
  ]

  abbrev pub moved :
      SpeakerState F → Tracklet F → DiarizationConfig F → List F → Result (SpeakerState F)
  moved state t cfg proposal = checked_state floats (record state {
    recent_centroid = some proposal;
    recent_mass = floats.add (floats.mul state.recent_mass cfg.recent_decay) floats.one;
    recent_last_us = some t.end_us;
  })

  abbrev pub frozen : SpeakerState F → Result (SpeakerState F)
  frozen state = checked_state floats (record state {
    recent_frozen = true;
    drift_flags = add_flag "RECENT_UPDATE_FROZEN" state.drift_flags;
  })

  -- The comparison with the opponent.
  unfoldable pub against :
      SpeakerState F
      → Tracklet F
      → Option (SpeakerState F)
      → DiarizationConfig F
      → List F
      → Result (SpeakerState F)
  against state t none cfg proposal = moved state t cfg proposal
  against state t (some opponent) cfg proposal = do
    own ← cosine_distance floats proposal state.stable_anchor_centroid
    far ← cosine_distance floats proposal opponent.stable_anchor_centroid
    if floats.lt (floats.sub far own) cfg.recent_opponent_margin_min
        then ok state
        else moved state t cfg proposal

  unfoldable pub update_with :
      SpeakerState F
      → Tracklet F
      → Option (SpeakerState F)
      → DiarizationConfig F
      → Option (List F)
      → Result (SpeakerState F)
  update_with state t opponent cfg none = ok state
  update_with state t opponent cfg (some vector) = do
    proposal ←
        weighted_centroid floats ((or_stable state, cfg.recent_decay) ∷ (vector, floats.one) ∷ [])
    radius ← cosine_distance floats proposal state.stable_anchor_centroid
    if floats.lt cfg.recent_radius_max radius
        then frozen state
        else against state t opponent cfg proposal

  unfoldable pub maybe_update_recent :
      SpeakerState F
      → Tracklet F
      → Option (EmbeddingResult F)
      → SpeakerAssignment F
      → Option (SpeakerState F)
      → DiarizationConfig F
      → Result (SpeakerState F)
  maybe_update_recent state t embedding a opponent cfg =
      if not cfg.enable_recent_centroid || state.recent_frozen
      then ok state
      else if is_ineligible state t embedding a cfg
      then ok state
      else update_with state t opponent cfg (usable embedding)

  -- `current[speaker]`, `none` where the key is missing
  abbrev pub state_of : Speaker → SpeakerStates F → Option (SpeakerState F)
  state_of speaker [] = none
  state_of speaker ((k, state) ∷ states) =
      if same_speaker k speaker then some state else state_of speaker states

  -- The first state of another speaker.
  abbrev pub opponent_of : Speaker → SpeakerStates F → Option (SpeakerState F)
  opponent_of speaker [] = none
  opponent_of speaker ((k, state) ∷ states) =
      if same_speaker k speaker then opponent_of speaker states else some state

  abbrev pub put_state : Speaker → SpeakerState F → SpeakerStates F → SpeakerStates F
  put_state speaker new [] = []
  put_state speaker new ((k, state) ∷ states) =
      if same_speaker k speaker
      then (k, new) ∷ states
      else (k, state) ∷ put_state speaker new states

  abbrev pub refine_found :
      Tracklet F
      → Option (EmbeddingResult F)
      → SpeakerAssignment F
      → SpeakerStates F
      → DiarizationConfig F
      → Option (SpeakerState F)
      → Result (SpeakerStates F)
  refine_found t embedding a current cfg none = ok current
  refine_found t embedding a current cfg (some state) = do
    new ← maybe_update_recent state t embedding a (opponent_of a.speaker_id current) cfg
    ok (put_state a.speaker_id new current)

  unfoldable pub refine_loop :
      List (EmbeddingResult F)
      → HypothesisDecision F
      → DiarizationConfig F
      → SpeakerStates F
      → List (Tracklet F)
      → Result (SpeakerStates F)
  refine_loop embeddings decision cfg current [] = ok current
  refine_loop embeddings decision cfg current (t ∷ tracklets) = do
    let embedding = embedding_of t.tracklet_id embeddings
    a ← local_assignment floats t embedding current decision cfg
    next ← refine_found t embedding a current cfg (state_of a.speaker_id current)
    refine_loop embeddings decision cfg next tracklets

  unfoldable pub refine_recent_states :
      List (Tracklet F)
      → List (EmbeddingResult F)
      → SpeakerStates F
      → HypothesisDecision F
      → DiarizationConfig F
      → Result (SpeakerStates F)
  refine_recent_states tracklets embeddings states decision cfg =
      if cfg.enable_recent_centroid
      then refine_loop embeddings decision cfg states (sort le_tracklet tracklets)
      else ok states
