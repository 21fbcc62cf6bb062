-- ===== src/Decoder/Decoded.antt =====
-- What a decoded sequence is.
use Prim.Native.String.{String}
use sddiar.Base.{
  ℕ, ◌≡◌, Bool, false, ◌&&◌, ◌||◌, List, [], ◌∷◌, ok, ok-inj, bind_ok, subst, ◌>>=◌, if◌then◌else◌,
}
use sddiar.Floats.{Floats}
use sddiar.Spans.{Speaker, overlap, non_speech}
use sddiar.Spans.Labels.{says}
use sddiar.Tracklets.{Tracklet, DiarizationConfig, ProtectedOverlapSpan}
use sddiar.Hypotheses.{HypothesisDecision}
use sddiar.Assignment.{EmbeddingResult, SpeakerAssignment, SpeakerStates}
use sddiar.Spans.{Part}
use sddiar.Decoder.Timeline.{materialize}
use sddiar.Decoder.Timeline.Laws.{After, labels_say, protects}
use sddiar.Decoder.Timeline.Whole.{materialize-says}
use sddiar.Decoder.Sequence.{
  SequenceDecodeResult, local_assignments_of, soft_all, decode_steps, decode_sequence,
}

module _ {F : Type 0} (floats : Floats F) (stable_id : String → List Part → String) where
  decode_steps-materialize :
      (tracklets : List (Tracklet F)) (overlaps : List (ProtectedOverlapSpan F))
      (states : SpeakerStates F) (decision : HypothesisDecision F) (duration : ℕ)
      (cfg : DiarizationConfig F) (assignments : List (SpeakerAssignment F))
      (soft : List (String × List (Speaker × F))) (result : SequenceDecodeResult F)
      → decode_steps floats stable_id tracklets overlaps states decision duration cfg assignments
          soft
        ≡ ok result
      → materialize stable_id result.labels tracklets overlaps duration cfg ≡ ok result.spans
  unfolding decode_steps
  decode_steps-materialize tracklets overlaps states decision duration cfg assignments soft result
        h =
      let (spans, e, h1) =
        bind_ok (materialize stable_id _ tracklets overlaps duration cfg) _ result h in
      subst
        (λ (r : SequenceDecodeResult F).
          materialize stable_id r.labels tracklets overlaps duration cfg ≡ ok r.spans)
        (ok-inj h1) e

  decode_sequence-materialize :
      (tracklets : List (Tracklet F)) (overlaps : List (ProtectedOverlapSpan F))
      (states : SpeakerStates F) (decision : HypothesisDecision F) (duration : ℕ)
      (cfg : DiarizationConfig F) (embeddings : List (EmbeddingResult F)) (soft : Bool)
      (result : SequenceDecodeResult F)
      → decode_sequence floats stable_id tracklets overlaps states decision duration cfg embeddings
          soft
        ≡ ok result
      → materialize stable_id result.labels tracklets overlaps duration cfg ≡ ok result.spans
  unfolding decode_sequence
  decode_sequence-materialize [] overlaps states decision duration cfg embeddings soft result h =
      let (spans, e, h1) = bind_ok _ _ result h in
      subst
        (λ (r : SequenceDecodeResult F).
          materialize stable_id r.labels [] overlaps duration cfg ≡ ok r.spans)
        (ok-inj h1) e
  decode_sequence-materialize (t ∷ tracklets) overlaps states decision duration cfg embeddings soft
        result h =
      let soft_of = λ (a : List (SpeakerAssignment F)).
        if soft then soft_all floats states decision cfg embeddings (t ∷ tracklets) else ok [] in
      let steps = λ (a : List (SpeakerAssignment F)) (s : List (String × List (Speaker × F))).
        decode_steps floats stable_id (t ∷ tracklets) overlaps states decision duration cfg a s in
      let (assignments, e1, h1) =
        bind_ok (local_assignments_of floats states decision cfg embeddings (t ∷ tracklets))
          (λ a. soft_of a >>= (λ s. steps a s)) result h in
      let (emissions, e2, h2) = bind_ok (soft_of assignments) (steps assignments) result h1 in
      decode_steps-materialize (t ∷ tracklets) overlaps states decision duration cfg assignments
        emissions result h2

  -- The spans of a decoded sequence are in order and without overlap, and give an instant a wanted
  -- label, other than NON_SPEECH, exactly if the label of a tracklet there is wanted, or the instant
  -- is protected and OVERLAP is wanted.
  pub decode_sequence-says :
      (tracklets : List (Tracklet F)) (overlaps : List (ProtectedOverlapSpan F))
      (states : SpeakerStates F) (decision : HypothesisDecision F) (duration : ℕ)
      (cfg : DiarizationConfig F) (embeddings : List (EmbeddingResult F)) (soft : Bool)
      (result : SequenceDecodeResult F) (who : Speaker → Bool) (t : ℕ)
      → decode_sequence floats stable_id tracklets overlaps states decision duration cfg embeddings
          soft
        ≡ ok result
      → who non_speech ≡ false
      → After 0 result.spans
        × (says who t result.spans
            ≡ (labels_say who t result.labels tracklets || (protects t overlaps && who overlap)))
  decode_sequence-says tracklets overlaps states decision duration cfg embeddings soft result who t
        h quiet =
      materialize-says stable_id cfg result.labels tracklets overlaps duration result.spans who t
        (decode_sequence-materialize tracklets overlaps states decision duration cfg embeddings soft
          result h)
        quiet
