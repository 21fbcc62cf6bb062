-- ===== src/Spans.antt =====
-- src/sddiar/contracts.py: the speaker labels and `DiarizationSpan`, which the correction of a
-- session and the sequence decoder both build.
pub mod Labels
use Prim.Native.String.{String}
use text.Mathlib.Text.{◌==◌ as str_eq}
use sddiar.Base.{
  ℕ, Bool, true, false, not, ◌&&◌, ◌||◌, List, Result, ok, err, contract_validation,
  protected_overlap, ◌>>=◌, ◌>>◌, raise_if, ◌==◌,
}
use sddiar.Base.Int.{pos}
use sddiar.Contracts.{range}

-- `unsupported` is any label that the constructor refuses.
pub data Speaker : Type 0 where
  speaker_00 speaker_01 unknown overlap other non_speech unsupported : Speaker

abbrev pub speaker_code : Speaker → ℕ
speaker_code speaker_00 = 0
speaker_code speaker_01 = 1
speaker_code unknown = 2
speaker_code overlap = 3
speaker_code other = 4
speaker_code non_speech = 5
speaker_code unsupported = 6

abbrev pub same_speaker : Speaker → Speaker → Bool
same_speaker a b = speaker_code a == speaker_code b

-- `speaker_id in ("SPEAKER_00", …, "NON_SPEECH")`
abbrev pub is_supported : Speaker → Bool
is_supported unsupported = false
is_supported _ = true

-- `speaker_id in SPEAKER_IDS`
abbrev pub is_session_speaker : Speaker → Bool
is_session_speaker speaker_00 = true
is_session_speaker speaker_01 = true
is_session_speaker _ = false

pub record DiarizationSpan : Type 0 where
  pub span_id : String
  pub start_us : ℕ
  pub end_us : ℕ
  pub speaker_id : Speaker
  pub attribution_status : String
  pub evidence_ids : List String
  pub reason_codes : List String

-- What `_stable_id` of src/sddiar/diarization.py hashes.
pub data Part : Type 0 where
  number : ℕ → Part
  label : Speaker → Part
  word : String → Part

-- `DiarizationSpan(...)` with `__post_init__`
unfoldable pub diarization_span :
    String → ℕ → ℕ → Speaker → String → List String → List String → Result DiarizationSpan
diarization_span span_id start end speaker status evidence reasons = do
  (s, e) ← range (pos start) (pos end)
  raise_if (not (is_supported speaker)) contract_validation
  raise_if (same_speaker speaker overlap && str_eq status "ASSIGNED") protected_overlap
  ok (record {
    span_id = span_id;
    start_us = s;
    end_us = e;
    speaker_id = speaker;
    attribution_status = status;
    evidence_ids = evidence;
    reason_codes = reasons;
  })
