-- ===== src/Decoder/Tests.antt =====
-- Tests of the sequence decoder.
use Prim.Native.String.{String}
use sddiar.Base.{ℕ, ◌≡◌, refl, Bool, true, false, none, some, List, [], ◌∷◌, ok, leb, arith}
use sddiar.Floats.Tests.{naturals, naturals-IsOrdered}
use sddiar.Spans.{
  Speaker, speaker_00, speaker_01, unknown, overlap, other, non_speech, same_speaker,
  DiarizationSpan,
}
use sddiar.Spans.Labels.{says}
use sddiar.Tracklets.{Tracklet, anchor, ProtectedOverlapSpan}
use sddiar.Tracklets.Tests.{test_cfg, piece, named}
use sddiar.Assignment.{SpeakerAssignment}
use sddiar.Assignment.Tests.{two_states, embedded, confirmed}
use sddiar.Decoder.{Step, search_labels, smooth_all}
use sddiar.Decoder.Viterbi.Exact.{IsLabelled, sequence_cost}
use sddiar.Decoder.Viterbi.Optimal.{search_labels_least}
use sddiar.Decoder.Smooth.{IsSmoothed, smooth_all-IsSmoothed}
use sddiar.Decoder.Timeline.{materialize}
use sddiar.Decoder.Timeline.Laws.{After}
use sddiar.Decoder.Sequence.{SequenceDecodeResult, decode_sequence}
use sddiar.Decoder.Decoded.{decode_sequence-says}

abbrev assigned : String → Speaker → SpeakerAssignment ℕ
assigned id speaker = record {
  tracklet_id = id;
  speaker_id = speaker;
  attribution_status = "LOCAL_CANDIDATE";
  stable_distance = some 0;
  effective_distance = some 0;
  margin = some 1;
  evidence_ids = [];
  reason_codes = [];
}

abbrev test_step : String → ℕ → ℕ → Speaker → Step ℕ
test_step id start end speaker = record {
  tracklet = piece id start end anchor;
  local = assigned id speaker;
  soft = [];
}

abbrev two_steps : List (Step ℕ)
two_steps = test_step "a" 0 2000 speaker_00 ∷ test_step "b" 2100 4100 speaker_01 ∷ []

abbrev all_candidates : List Speaker
all_candidates = speaker_00 ∷ speaker_01 ∷ unknown ∷ overlap ∷ other ∷ []

search_test :
    search_labels naturals confirmed test_cfg all_candidates two_steps
    ≡ speaker_00 ∷ speaker_01 ∷ []
unfolding search_labels sddiar.Base.reverse_onto sddiar.Decoder.labels_back
    sddiar.Decoder.search_rows sddiar.Decoder.extend sddiar.Decoder.backtrack
    sddiar.Decoder.pointer_of sddiar.Decoder.choose sddiar.Decoder.least sddiar.Decoder.cost_of
    sddiar.Decoder.step_emission sddiar.Decoder.emission sddiar.Decoder.transition
search_test = refl

search_labels_least_example :
    IsLabelled all_candidates two_steps
      (search_labels naturals confirmed test_cfg all_candidates two_steps)
    × (leb
          (sequence_cost naturals confirmed test_cfg two_steps
            (search_labels naturals confirmed test_cfg all_candidates two_steps))
          (sequence_cost naturals confirmed test_cfg two_steps (speaker_00 ∷ unknown ∷ []))
        ≡ true)
search_labels_least_example =
    search_labels_least naturals naturals-IsOrdered confirmed test_cfg all_candidates two_steps
      (speaker_00 ∷ unknown ∷ []) (refl, (refl, tt))

abbrev three_pieces : List (Tracklet ℕ)
three_pieces =
    piece "a" 0 2000 anchor ∷ piece "b" 2000 2300 anchor ∷ piece "c" 2300 4000 anchor ∷ []

smooth_test :
    smooth_all test_cfg (speaker_00 ∷ speaker_01 ∷ speaker_00 ∷ []) three_pieces
    ≡ speaker_00 ∷ unknown ∷ speaker_00 ∷ []
unfolding smooth_all sddiar.Decoder.smooth
smooth_test = refl

smooth_all-IsSmoothed_example :
    IsSmoothed test_cfg
      (speaker_00 ∷ speaker_01 ∷ speaker_00 ∷ [])
      (smooth_all test_cfg (speaker_00 ∷ speaker_01 ∷ speaker_00 ∷ []) three_pieces)
      three_pieces
smooth_all-IsSmoothed_example =
    smooth_all-IsSmoothed test_cfg (speaker_00 ∷ speaker_01 ∷ speaker_00 ∷ []) three_pieces

abbrev span_at : String → ℕ → ℕ → Speaker → String → DiarizationSpan
span_at id start end speaker status = record {
  span_id = id;
  start_us = start;
  end_us = end;
  speaker_id = speaker;
  attribution_status = status;
  evidence_ids = [];
  reason_codes = [];
}

abbrev two_pieces : List (Tracklet ℕ)
two_pieces = piece "a" 0 2000 anchor ∷ piece "b" 2100 4100 anchor ∷ []

abbrev no_overlaps : List (ProtectedOverlapSpan ℕ)
no_overlaps = []

abbrev filled_spans : List DiarizationSpan
filled_spans =
    span_at "span" 0 2000 speaker_00 "ASSIGNED"
    ∷ span_at "nonspeech" 2000 2100 non_speech "NON_SPEECH"
    ∷ span_at "span" 2100 4100 speaker_01 "ASSIGNED"
    ∷ []

materialize_test :
    materialize named (speaker_00 ∷ speaker_01 ∷ []) two_pieces no_overlaps 4100 test_cfg
    ≡ ok filled_spans
unfolding materialize sddiar.Decoder.Timeline.label_spans sddiar.Decoder.Timeline.overlap_spans
    sddiar.Decoder.Timeline.has_overlap sddiar.Decoder.Timeline.fill_gaps
    sddiar.Decoder.Timeline.with_gap sddiar.Decoder.Timeline.join_loop sddiar.Spans.diarization_span
    sddiar.Contracts.range sddiar.Base.Sort.sort sddiar.Base.reverse_onto
materialize_test = refl

abbrev decoded : SequenceDecodeResult ℕ
decoded = record {
  spans = filled_spans;
  labels = speaker_00 ∷ speaker_01 ∷ [];
  local_assignments = assigned "a" speaker_00 ∷ assigned "b" speaker_01 ∷ [];
}

decode_test :
    decode_sequence naturals named two_pieces no_overlaps two_states confirmed 4100 test_cfg
      (embedded "a" (1 ∷ 0 ∷ []) ∷ embedded "b" (0 ∷ 1 ∷ []) ∷ [])
      false
    ≡ ok decoded
unfolding decode_sequence sddiar.Decoder.Sequence.local_assignments_of
    sddiar.Decoder.Sequence.decode_steps smooth_all sddiar.Decoder.smooth search_labels materialize
    sddiar.Base.reverse_onto sddiar.Decoder.labels_back sddiar.Decoder.search_rows
    sddiar.Decoder.extend sddiar.Decoder.backtrack sddiar.Decoder.pointer_of sddiar.Decoder.choose
    sddiar.Decoder.least sddiar.Decoder.cost_of sddiar.Decoder.step_emission sddiar.Decoder.emission
    sddiar.Decoder.transition sddiar.Decoder.Timeline.label_spans
    sddiar.Decoder.Timeline.overlap_spans sddiar.Decoder.Timeline.has_overlap
    sddiar.Decoder.Timeline.fill_gaps sddiar.Decoder.Timeline.with_gap
    sddiar.Decoder.Timeline.join_loop sddiar.Spans.diarization_span sddiar.Contracts.range
    sddiar.Assignment.local_assignment sddiar.Assignment.embedding_of
    sddiar.Assignment.assign_scored sddiar.Assignment.scores_of sddiar.Assignment.state_distances
    sddiar.Assignment.assign_best sddiar.Assignment.assignment
    sddiar.Assignment.Vectors.cosine_distance sddiar.Assignment.Vectors.sum_products
    sddiar.Base.Sort.sort
decode_test = refl

decode_sequence-says_example :
    After 0 decoded.spans × (says (same_speaker speaker_01) 3000 decoded.spans ≡ true)
decode_sequence-says_example =
    decode_sequence-says naturals named two_pieces no_overlaps two_states confirmed 4100 test_cfg
      (embedded "a" (1 ∷ 0 ∷ []) ∷ embedded "b" (0 ∷ 1 ∷ []) ∷ []) false decoded
      (same_speaker speaker_01) 3000 decode_test refl
