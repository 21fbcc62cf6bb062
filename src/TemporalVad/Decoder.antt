-- ===== src/TemporalVad/Decoder.antt =====
-- src/sddiar/silero_temporal.py: `_validated_frames` and the state machine of `_core_regions`,
-- with `VadFrame` of src/sddiar/vad.py and `TemporalVadConfig`.
use sddiar.Base.{
  ℕ, ◌+◌, Bool, true, false, not, ◌&&◌, Option, none, some, List, [], ◌∷◌, Result, ok, err,
  temporal_vad, ◌>>=◌, ◌>>◌, raise_if, ltb, leb, ◌==◌, if◌then◌else◌, reverse_onto,
}
use sddiar.Intervals.{Interval}

-- The part of `VadFrame` that the decoder reads; `speech_evidence` is `None` or a probability.
pub record VadFrame : Type 0 where
  pub start_us : ℕ
  pub end_us : ℕ
  pub speech_evidence : Option ℕ

pub record TemporalVadConfig : Type 0 where
  pub onset_threshold : ℕ
  pub negative_threshold : ℕ
  pub min_silence_duration_us : ℕ
  pub speech_pad_us : ℕ
  pub max_speech_duration_us : Option ℕ

-- A frame whose evidence has been checked.
pub record Frame : Type 0 where
  pub start_us : ℕ
  pub end_us : ℕ
  pub probability : ℕ

abbrev broken : Option ℕ → ℕ → Bool
broken none start = false
broken (some previous_end) start = not (start == previous_end)

abbrev with_evidence : VadFrame → Option ℕ → Result Frame
with_evidence frame none = err temporal_vad
with_evidence frame (some p) =
    ok (record { start_us = frame.start_us; end_us = frame.end_us; probability = p })

-- The loop of `_validated_frames`, from `previous_end` on
unfoldable pub validated_frames : Option ℕ → List VadFrame → Result (List Frame)
validated_frames previous_end [] = ok []
validated_frames previous_end (frame ∷ rest) = do
  checked ← with_evidence frame frame.speech_evidence
  raise_if (broken previous_end frame.start_us) temporal_vad
  others ← validated_frames (some frame.end_us) rest
  ok (checked ∷ others)

-- The variables of `_core_regions`; `regions` is newest first.
pub record State : Type 0 where
  pub regions : List Interval
  pub active : Bool
  pub core_start : ℕ
  pub core_end : ℕ
  pub silence_start : Option ℕ
  pub max_end : Option ℕ

abbrev pub idle : List Interval → State
idle regions = record {
  regions = regions;
  active = false;
  core_start = 0;
  core_end = 0;
  silence_start = none;
  max_end = none;
}

unfoldable pub emit : State → ℕ → State
emit s end =
    idle (if s.active && ltb s.core_start end then (s.core_start, end) ∷ s.regions else s.regions)

abbrev pub limit : ℕ → Option ℕ → Option ℕ
limit start none = none
limit start (some longest) = some (start + longest)

-- `if not active:`
abbrev pub step_idle : TemporalVadConfig → State → Frame → State
step_idle cfg s f =
    if leb cfg.onset_threshold f.probability
    then record s {
      active = true;
      core_start = f.start_us;
      core_end = f.end_us;
      max_end = limit f.start_us cfg.max_speech_duration_us;
    }
    else s

-- The low-evidence branch, with `silence_start` already set
abbrev pub step_silence : TemporalVadConfig → State → Frame → ℕ → State
step_silence cfg s f silence =
    if leb (silence + cfg.min_silence_duration_us) f.start_us
    then emit s silence
    else record s { silence_start = some silence }

abbrev pub silence_from : Option ℕ → ℕ → ℕ
silence_from none start = start
silence_from (some silence) start = silence

abbrev pub step_active : TemporalVadConfig → State → Frame → State
step_active cfg s f =
    if ltb f.probability cfg.negative_threshold
    then step_silence cfg s f (silence_from s.silence_start f.start_us)
    else record s { silence_start = none; core_end = f.end_us }

-- The hard boundary at `max_end`, where the evidence still supports speech
abbrev pub step_split : TemporalVadConfig → State → Frame → ℕ → State
step_split cfg s f boundary = record (emit s boundary) {
  active = true;
  core_start = boundary;
  core_end = f.end_us;
  max_end = limit boundary cfg.max_speech_duration_us;
  silence_start = none;
}

abbrev pub step_bounded : TemporalVadConfig → State → Frame → Option ℕ → State
step_bounded cfg s f none = step_active cfg s f
step_bounded cfg s f (some boundary) =
    if ltb boundary f.end_us && leb cfg.negative_threshold f.probability
    then step_split cfg s f boundary
    else step_active cfg s f

abbrev pub step_at : TemporalVadConfig → State → Frame → Bool → State
step_at cfg s f true = step_bounded cfg s f s.max_end
step_at cfg s f false = step_idle cfg s f

-- One round of the `for` loop
unfoldable pub step : TemporalVadConfig → State → Frame → State
step cfg s f = step_at cfg s f s.active

unfoldable pub decode : TemporalVadConfig → State → List Frame → State
decode cfg s [] = s
decode cfg s (f ∷ frames) = decode cfg (step cfg s f) frames

-- `if active: emit(core_end)` behind the loop
abbrev pub finish_at : State → Bool → State
finish_at s true = emit s s.core_end
finish_at s false = s

-- `_core_regions`
unfoldable pub core_regions : TemporalVadConfig → List Frame → List Interval
core_regions cfg frames =
    let s = decode cfg (idle []) frames in reverse_onto (finish_at s s.active).regions []
