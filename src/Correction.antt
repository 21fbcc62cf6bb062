-- ===== src/Correction.antt =====
-- src/sddiar/correction.py: confirmed speaker labels for the UNKNOWN spans of a session.
pub mod Pieces
pub mod Relabel
pub mod Fixed
mod Tests
use Prim.Native.String.{String, compare as compare_str, ◌++◌ as ◌<>◌}
use text.Mathlib.Text.{◌==◌ as str_eq, is_lt, is_le}
use sddiar.Base.{
  ℕ, Bool, true, false, not, ◌&&◌, ◌||◌, Option, none, some, List, [], ◌∷◌, ◌++◌, Result, ok, err,
  contract_validation, correction_conflict, ◌>>=◌, ◌>>◌, raise_if, ltb, ◌==◌, if◌then◌else◌, any,
  keep_if,
}
use sddiar.Base.Int.{ℤ, pos, pos_part, ltb_ℤ, leb_ℤ, max_ℤ, min_ℤ}
use sddiar.Base.Sort.{sort}
use sddiar.Spans.{
  Speaker, unknown, is_supported, is_session_speaker, same_speaker, DiarizationSpan,
  diarization_span,
}

pub record HumanSpeakerCorrection : Type 0 where
  pub correction_id : String
  pub source_start_us : ℤ
  pub source_end_us : ℤ
  pub confirmed_speaker_id : Speaker
  pub reviewer_evidence_id : String

-- `HumanSpeakerCorrection(...)` with `__post_init__`
unfoldable pub human_speaker_correction :
    String → ℤ → ℤ → Speaker → String → Result HumanSpeakerCorrection
human_speaker_correction id start end speaker evidence = do
  raise_if (str_eq id "" || str_eq evidence "") contract_validation
  raise_if (not (is_session_speaker speaker)) contract_validation
  raise_if (leb_ℤ end start) contract_validation
  ok (record {
    correction_id = id;
    source_start_us = start;
    source_end_us = end;
    confirmed_speaker_id = speaker;
    reviewer_evidence_id = evidence;
  })

-- `_overlap`
abbrev pub overlap_test : ℤ → ℤ → ℤ → ℤ → Bool
overlap_test left_start left_end right_start right_end =
    ltb_ℤ (max_ℤ left_start right_start) (min_ℤ left_end right_end)

abbrev pub affects : HumanSpeakerCorrection → DiarizationSpan → Bool
affects c s = overlap_test (pos s.start_us) (pos s.end_us) c.source_start_us c.source_end_us

-- `max(span.start_us, ...)` and `min(span.end_us, ...)`, which are natural numbers for an
-- affected span.
abbrev pub first_us : HumanSpeakerCorrection → DiarizationSpan → ℕ
first_us c s = pos_part (max_ℤ (pos s.start_us) c.source_start_us)

abbrev pub last_us : HumanSpeakerCorrection → DiarizationSpan → ℕ
last_us c s = pos_part (min_ℤ (pos s.end_us) c.source_end_us)

-- The rest of an affected span before the confirmed part.
unfoldable pub before_piece :
    HumanSpeakerCorrection → DiarizationSpan → Result (List DiarizationSpan)
before_piece c s =
    let piece =
      diarization_span (s.span_id <> ":before") s.start_us (first_us c s) unknown
        s.attribution_status s.evidence_ids s.reason_codes in
    if ltb s.start_us (first_us c s) then piece >>= (λ p. ok (p ∷ [])) else ok []

unfoldable pub human_piece : HumanSpeakerCorrection → DiarizationSpan → Result DiarizationSpan
human_piece c s =
    diarization_span (s.span_id <> (":human:" <> c.correction_id)) (first_us c s) (last_us c s)
      c.confirmed_speaker_id "HUMAN_CONFIRMED" (s.evidence_ids ++ (c.reviewer_evidence_id ∷ []))
      (s.reason_codes ++ ("HUMAN_CONFIRMED_SEGMENT" ∷ []))

unfoldable pub after_piece :
    HumanSpeakerCorrection → DiarizationSpan → Result (List DiarizationSpan)
after_piece c s =
    let piece =
      diarization_span (s.span_id <> ":after") (last_us c s) s.end_us unknown s.attribution_status
        s.evidence_ids s.reason_codes in
    if ltb (last_us c s) s.end_us then piece >>= (λ p. ok (p ∷ [])) else ok []

unfoldable pub pieces_of : HumanSpeakerCorrection → DiarizationSpan → Result (List DiarizationSpan)
pieces_of c s = do
  before ← before_piece c s
  human ← human_piece c s
  after ← after_piece c s
  ok (before ++ human ∷ after)

-- One round of the loop over `current`.
unfoldable pub replace_span :
    HumanSpeakerCorrection → DiarizationSpan → Result (List DiarizationSpan)
replace_span c s = if affects c s then pieces_of c s else ok (s ∷ [])

unfoldable pub replace_all :
    HumanSpeakerCorrection → List DiarizationSpan → Result (List DiarizationSpan)
replace_all c [] = ok []
replace_all c (s ∷ spans) = do
  pieces ← replace_span c s
  later ← replace_all c spans
  ok (pieces ++ later)

-- The key `(span.start_us, span.end_us, span.span_id)`.
abbrev pub le_span : DiarizationSpan → DiarizationSpan → Bool
le_span x y =
    ltb x.start_us y.start_us
    || (x.start_us == y.start_us
        && (ltb x.end_us y.end_us
            || (x.end_us == y.end_us && is_le (compare_str x.span_id y.span_id))))

-- The key `(item.source_start_us, item.source_end_us, item.correction_id)`.
abbrev pub le_correction : HumanSpeakerCorrection → HumanSpeakerCorrection → Bool
le_correction x y =
    ltb_ℤ x.source_start_us y.source_start_us
    || (leb_ℤ x.source_start_us y.source_start_us
        && (ltb_ℤ x.source_end_us y.source_end_us
            || (leb_ℤ x.source_end_us y.source_end_us
                && is_le (compare_str x.correction_id y.correction_id))))

abbrev pub is_unknown : DiarizationSpan → Bool
is_unknown s = same_speaker s.speaker_id unknown

-- The body of the loop over the corrections.
unfoldable pub apply_one :
    HumanSpeakerCorrection → List DiarizationSpan → Result (List DiarizationSpan)
apply_one c current = do
  raise_if (not (any (affects c) current)) correction_conflict
  raise_if (any (λ s. affects c s && not (is_unknown s)) current) correction_conflict
  replacement ← replace_all c current
  ok (sort le_span replacement)

unfoldable pub apply_all :
    List HumanSpeakerCorrection → List DiarizationSpan → Result (List DiarizationSpan)
apply_all [] current = ok current
apply_all (c ∷ corrections) current = apply_one c current >>= (λ next. apply_all corrections next)

-- Equal triples `(span.start_us, span.end_us, span.speaker_id)`.
abbrev pub same_fixed : DiarizationSpan → DiarizationSpan → Bool
same_fixed x y =
    x.start_us == y.start_us && (x.end_us == y.end_us && same_speaker x.speaker_id y.speaker_id)

-- Whether an element of `original_non_unknown` is not in `output_non_unknown`.
abbrev pub is_lost : List DiarizationSpan → DiarizationSpan → Bool
is_lost output x =
    not (is_unknown x) && not (any (λ y. not (is_unknown y) && same_fixed x y) output)

unfoldable pub check_reevaluated :
    List DiarizationSpan → List DiarizationSpan → Result (List DiarizationSpan)
check_reevaluated current reevaluated = do
  raise_if (any (is_lost reevaluated) current) correction_conflict
  raise_if (any (λ s. not (is_supported s.speaker_id)) reevaluated) correction_conflict
  ok reevaluated

-- The callback is the caller's.
unfoldable pub reevaluate :
    Option (List DiarizationSpan → List DiarizationSpan)
    → List DiarizationSpan
    → Result (List DiarizationSpan)
reevaluate none current = ok current
reevaluate (some callback) current = check_reevaluated current (callback current)

unfoldable pub apply_session_corrections :
    List DiarizationSpan
    → List HumanSpeakerCorrection
    → Option (List DiarizationSpan → List DiarizationSpan)
    → Result (List DiarizationSpan)
apply_session_corrections spans corrections reevaluate_unknowns = do
  current ← apply_all (sort le_correction corrections) (sort le_span spans)
  reevaluate reevaluate_unknowns current
