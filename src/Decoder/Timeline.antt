-- ===== src/Decoder/Timeline.antt =====
-- `_materialize` of src/sddiar/diarization.py: the labels as diarization spans.
pub mod Laws
pub mod Gaps
pub mod Joins
pub mod Whole
use Prim.Native.String.{String}
use text.Mathlib.Text.{◌==◌ as str_eq}
use sddiar.Base.{
  ℕ, ◌+◌, Bool, true, false, not, ◌&&◌, ◌||◌, List, [], ◌∷◌, ◌++◌, reverse_onto, Result, ok, err,
  contract_validation, ◌>>=◌, ◌>>◌, raise_if, if◌then◌else◌, ltb, ◌==◌,
}
use sddiar.Base.Sort.{sort}
use sddiar.Spans.{
  Speaker, speaker_00, speaker_01, unknown, overlap, other, non_speech, unsupported, same_speaker,
  is_session_speaker, DiarizationSpan, diarization_span, Part, number, label,
}
use sddiar.Tracklets.{
  Kind, anchor, support, micro, Tracklet, DiarizationConfig, ProtectedOverlapSpan,
}

abbrev label_status : Speaker → Kind → String
label_status unknown micro = "UNKNOWN_SHORT"
label_status overlap _ = "OVERLAP"
label_status speaker_00 _ = "ASSIGNED"
label_status speaker_01 _ = "ASSIGNED"
label_status _ _ = "UNKNOWN_INSUFFICIENT_EVIDENCE"

-- The order of the labels as strings.
abbrev label_rank : Speaker → ℕ
label_rank non_speech = 0
label_rank other = 1
label_rank overlap = 2
label_rank speaker_00 = 3
label_rank speaker_01 = 4
label_rank unknown = 5
label_rank unsupported = 6

abbrev pub le_decoded : DiarizationSpan → DiarizationSpan → Bool
le_decoded x y =
    ltb x.start_us y.start_us
    || (x.start_us == y.start_us
        && (ltb x.end_us y.end_us
            || (x.end_us == y.end_us
                && not (ltb (label_rank y.speaker_id) (label_rank x.speaker_id)))))

-- `right.start_us < left.end_us` for some neighbours
unfoldable pub has_overlap : List DiarizationSpan → Bool
has_overlap (left ∷ right ∷ spans) = ltb right.start_us left.end_us || has_overlap (right ∷ spans)
has_overlap _ = false

abbrev pub is_continued : DiarizationSpan → DiarizationSpan → Bool
is_continued previous span =
    previous.end_us == span.start_us
    && (same_speaker previous.speaker_id span.speaker_id
        && str_eq previous.attribution_status span.attribution_status)

abbrev pub join_spans : DiarizationSpan → DiarizationSpan → Result DiarizationSpan
join_spans previous span =
    diarization_span previous.span_id previous.start_us span.end_us previous.speaker_id
      previous.attribution_status (previous.evidence_ids ++ span.evidence_ids)
      (previous.reason_codes ++ span.reason_codes)

-- The last loop, with `merged` newest first.
unfoldable pub join_loop :
    List DiarizationSpan → List DiarizationSpan → Result (List DiarizationSpan)
join_loop merged [] = ok (reverse_onto merged [])
join_loop [] (span ∷ spans) = join_loop (span ∷ []) spans
join_loop (previous ∷ merged) (span ∷ spans) =
    let apart = join_loop (span ∷ previous ∷ merged) spans in
    let joined = join_spans previous span >>= (λ s. join_loop (s ∷ merged) spans) in
    if is_continued previous span then joined else apart

-- `stable_id` stands for `_stable_id`.
module _ (stable_id : String → List Part → String) where
  module _ {F : Type 0} where
    unfoldable pub label_spans :
        ℕ → List Speaker → List (Tracklet F) → Result (List DiarizationSpan)
    label_spans ordinal (l ∷ labels) (t ∷ tracklets) = do
      span ←
          diarization_span
            (stable_id "span" (number t.start_us ∷ number t.end_us ∷ label l ∷ number ordinal ∷ []))
            t.start_us t.end_us l (label_status l t.kind) t.boundary_evidence_ids []
      spans ← label_spans (ordinal + 1) labels tracklets
      ok (span ∷ spans)
    label_spans ordinal _ _ = ok []

    unfoldable pub overlap_spans : ℕ → List (ProtectedOverlapSpan F) → Result (List DiarizationSpan)
    overlap_spans ordinal [] = ok []
    overlap_spans ordinal (o ∷ overlaps) = do
      span ←
          diarization_span
            (stable_id "span"
              (number o.start_us ∷ number o.end_us ∷ label overlap ∷ number ordinal ∷ []))
            o.start_us o.end_us overlap "OVERLAP" o.evidence_ids ("PROTECTED_OVERLAP" ∷ [])
      spans ← overlap_spans (ordinal + 1) overlaps
      ok (span ∷ spans)

  -- A `NON_SPEECH` span, if it is not empty, before `spans`.
  unfoldable pub with_gap : ℕ → ℕ → List DiarizationSpan → Result (List DiarizationSpan)
  with_gap start end spans =
      if ltb start end
      then (do
        gap ←
            diarization_span (stable_id "nonspeech" (number start ∷ number end ∷ [])) start end
              non_speech "NON_SPEECH" [] []
        ok (gap ∷ spans))
      else ok spans

  unfoldable pub fill_gaps : ℕ → ℕ → List DiarizationSpan → Result (List DiarizationSpan)
  fill_gaps duration cursor [] = with_gap cursor duration []
  fill_gaps duration cursor (span ∷ spans) = do
    later ← fill_gaps duration span.end_us spans
    with_gap cursor span.start_us (span ∷ later)

  -- `_materialize`
  unfoldable pub materialize :
      {F : Type 0}
      → List Speaker
      → List (Tracklet F)
      → List (ProtectedOverlapSpan F)
      → ℕ
      → DiarizationConfig F
      → Result (List DiarizationSpan)
  materialize labels tracklets overlaps duration cfg = do
    labelled ← label_spans 0 labels tracklets
    protected ← overlap_spans 0 overlaps
    let spans = sort le_decoded (labelled ++ protected)
    raise_if (has_overlap spans) contract_validation
    filled ← (if cfg.include_non_speech then fill_gaps duration 0 spans else ok spans)
    join_loop [] filled
