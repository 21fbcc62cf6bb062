-- ===== src/Decoder/Sequence.antt =====
-- `decode_sequence` and `finalize_sequence` of src/sddiar/diarization.py.
use Prim.Native.String.{String}
use sddiar.Base.{
  Bool, false, not, List, [], ◌∷◌, ◌++◌, map, Result, ok, ◌>>=◌, if◌then◌else◌, ltb, ℕ,
}
use sddiar.Base.Sort.{sort}
use sddiar.Floats.{Floats}
use sddiar.Spans.{Speaker, speaker_code, unknown, overlap, other, DiarizationSpan}
use sddiar.Tracklets.{Tracklet, DiarizationConfig, ProtectedOverlapSpan}
use sddiar.Hypotheses.{HypothesisDecision, last_value}
use sddiar.Assignment.{
  EmbeddingResult, SpeakerAssignment, SpeakerStates, embedding_of, local_assignment,
  re_evaluate_micro,
}
use sddiar.Assignment.Recent.{is_micro}
use sddiar.Decoder.{Step, search_labels, smooth_all, soft_speaker_emissions}
use sddiar.Spans.{Part}
use sddiar.Decoder.Timeline.{materialize}

pub record SequenceDecodeResult (F : Type 0) : Type 0 where
  pub spans : List DiarizationSpan
  pub labels : List Speaker
  pub local_assignments : List (SpeakerAssignment F)

-- `tuple(sorted(states)) + ("UNKNOWN", "OVERLAP", "OTHER")`
abbrev pub candidates_of : {F : Type 0} → SpeakerStates F → List Speaker
candidates_of states =
    sort (λ a b. not (ltb (speaker_code b) (speaker_code a))) (map (λ s. s.0) states)
    ++ (unknown ∷ overlap ∷ other ∷ [])

module _ {F : Type 0} (floats : Floats F) (states : SpeakerStates F)
    (decision : HypothesisDecision F) (cfg : DiarizationConfig F)
    (embeddings : List (EmbeddingResult F)) where
  unfoldable pub local_assignments_of : List (Tracklet F) → Result (List (SpeakerAssignment F))
  local_assignments_of [] = ok []
  local_assignments_of (t ∷ tracklets) = do
    let embedding = embedding_of t.tracklet_id embeddings
    a ←
        (if is_micro t.kind
          then re_evaluate_micro floats t embedding states decision cfg
          else local_assignment floats t embedding states decision cfg)
    later ← local_assignments_of tracklets
    ok (a ∷ later)

  -- The dictionary `soft`.
  unfoldable pub soft_all : List (Tracklet F) → Result (List (String × List (Speaker × F)))
  soft_all [] = ok []
  soft_all (t ∷ tracklets) = do
    emissions ←
        soft_speaker_emissions floats t (embedding_of t.tracklet_id embeddings) states decision cfg
    later ← soft_all tracklets
    ok ((t.tracklet_id, emissions) ∷ later)

module _ {F : Type 0} where
  -- The dictionary `local`.
  abbrev pub local_all :
      List (Tracklet F) → List (SpeakerAssignment F) → List (String × SpeakerAssignment F)
  local_all (t ∷ tracklets) (a ∷ assignments) = (t.tracklet_id, a) ∷ local_all tracklets assignments
  local_all _ _ = []

  -- Each tracklet has an own assignment, so that the look-up finds one.
  abbrev pub steps_for :
      List (String × SpeakerAssignment F)
      → List (String × List (Speaker × F))
      → List (Tracklet F)
      → List (SpeakerAssignment F)
      → List (Step F)
  steps_for local soft (t ∷ tracklets) (a ∷ assignments) =
      record {
        tracklet = t;
        local = last_value t.tracklet_id a local;
        soft = last_value t.tracklet_id [] soft;
      }
      ∷ steps_for local soft tracklets assignments
  steps_for local soft _ _ = []

module _ {F : Type 0} (floats : Floats F) (stable_id : String → List Part → String) where
  abbrev pub sequence_labels :
      SpeakerStates F
      → HypothesisDecision F
      → DiarizationConfig F
      → List (Step F)
      → List (Tracklet F)
      → List Speaker
  sequence_labels states decision cfg steps tracklets =
      smooth_all cfg (search_labels floats decision cfg (candidates_of states) steps) tracklets

  -- `decode_sequence` once the dictionaries are built.
  unfoldable pub decode_steps :
      List (Tracklet F)
      → List (ProtectedOverlapSpan F)
      → SpeakerStates F
      → HypothesisDecision F
      → ℕ
      → DiarizationConfig F
      → List (SpeakerAssignment F)
      → List (String × List (Speaker × F))
      → Result (SequenceDecodeResult F)
  decode_steps tracklets overlaps states decision duration cfg assignments soft = do
    let steps = steps_for (local_all tracklets assignments) soft tracklets assignments
    let labels = sequence_labels states decision cfg steps tracklets
    spans ← materialize stable_id labels tracklets overlaps duration cfg
    ok (record { spans = spans; labels = labels; local_assignments = assignments })

  unfoldable pub decode_sequence :
      List (Tracklet F)
      → List (ProtectedOverlapSpan F)
      → SpeakerStates F
      → HypothesisDecision F
      → ℕ
      → DiarizationConfig F
      → List (EmbeddingResult F)
      → Bool
      → Result (SequenceDecodeResult F)
  decode_sequence [] overlaps states decision duration cfg embeddings soft_emissions = do
    spans ← materialize stable_id [] [] overlaps duration cfg
    ok (record { spans = spans; labels = []; local_assignments = [] })
  decode_sequence (t ∷ tracklets) overlaps states decision duration cfg embeddings soft_emissions =
      do
        assignments ← local_assignments_of floats states decision cfg embeddings (t ∷ tracklets)
        soft ←
            (if soft_emissions
              then soft_all floats states decision cfg embeddings (t ∷ tracklets)
              else ok [])
        decode_steps (t ∷ tracklets) overlaps states decision duration cfg assignments soft

  unfoldable pub finalize_sequence :
      List (Tracklet F)
      → List (ProtectedOverlapSpan F)
      → SpeakerStates F
      → HypothesisDecision F
      → ℕ
      → DiarizationConfig F
      → List (EmbeddingResult F)
      → Result (List DiarizationSpan)
  finalize_sequence tracklets overlaps states decision duration cfg embeddings =
      decode_sequence tracklets overlaps states decision duration cfg embeddings false
      >>= (λ r. ok r.spans)
