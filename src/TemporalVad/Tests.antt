-- ===== src/TemporalVad/Tests.antt =====
-- Runs of the temporal decoder, and instances of its theorems.
use sddiar.Base.{
  ℕ, ◌+◌, ◌≤◌, ◌<◌, ◌≡◌, refl, Bool, true, false, ◌&&◌, none, some, List, [], ◌∷◌, map, ok, err,
  temporal_vad, arith, All, any,
}
use sddiar.TemporalVad.{
  VadFrame, TemporalVadConfig, Frame, SpeechRegion, core_of, validated_frames, core_regions, decode,
  step, emit, regions, padded_regions, pad_from, speech_region, mark_vad_frames, mark_frame,
  mark_pieces,
}
use sddiar.TemporalVad.Core.{IsValid}
use sddiar.TemporalVad.MaxSpeech.{IsShort, core_regions-IsShort, core_regions_overlong}
use sddiar.TemporalVad.Padding.{Laid, timeline_start, timeline_end, regions-Laid}
use sddiar.TemporalVad.Marks.{marked, of_kind, in_frame, marked-mark_vad_frames}

-- Thresholds 50 and 35, 100 us of tolerated silence, 30 us of padding, at most 250 us of speech.
abbrev policy : TemporalVadConfig
policy = record {
  onset_threshold = 50;
  negative_threshold = 35;
  min_silence_duration_us = 100;
  speech_pad_us = 30;
  max_speech_duration_us = some 250;
}

abbrev frame : ℕ → ℕ → ℕ → VadFrame
frame start end p = record { start_us = start; end_us = end; speech_evidence = some p }

abbrev raw : List VadFrame
raw =
    frame 0 50 10
    ∷ frame 50 100 60
    ∷ frame 100 150 40
    ∷ frame 150 200 20
    ∷ frame 200 250 20
    ∷ frame 250 300 20
    ∷ frame 300 340 90
    ∷ []

abbrev checked : ℕ → ℕ → ℕ → Frame
checked start end p = record { start_us = start; end_us = end; probability = p }

abbrev frames : List Frame
frames =
    checked 0 50 10
    ∷ checked 50 100 60
    ∷ checked 100 150 40
    ∷ checked 150 200 20
    ∷ checked 200 250 20
    ∷ checked 250 300 20
    ∷ checked 300 340 90
    ∷ []

raw_checked : validated_frames none raw ≡ ok frames
unfolding validated_frames
raw_checked = refl

raw_gap : validated_frames none (frame 0 50 10 ∷ frame 60 70 10 ∷ []) ≡ err temporal_vad
unfolding validated_frames
raw_gap = refl

-- The region closes at the start of the silence, 150, not where the silence was long enough.
core_run : core_regions policy frames ≡ (50, 150) ∷ (300, 340) ∷ []
unfolding core_regions decode step emit sddiar.Base.reverse_onto
core_run = refl

abbrev long_speech : List Frame
long_speech = checked 0 200 80 ∷ checked 200 400 80 ∷ checked 400 600 36 ∷ []

split_run : core_regions policy long_speech ≡ (0, 250) ∷ (250, 500) ∷ (500, 600) ∷ []
unfolding core_regions decode step emit sddiar.Base.reverse_onto
split_run = refl

abbrev region : ℕ → ℕ → ℕ → ℕ → SpeechRegion
region a b c d = record { start_us = a; end_us = b; core_start_us = c; core_end_us = d }

regions_run : regions policy raw ≡ ok (region 20 180 50 150 ∷ region 270 340 300 340 ∷ [])
unfolding regions validated_frames padded_regions pad_from speech_region core_regions decode step
    emit sddiar.Base.reverse_onto
regions_run = refl

policy-IsValid : IsValid policy
policy-IsValid = omega arith

-- Frames of 50 us: 100 + 2 * 50 fits into 250.
core_regions-IsShort_example : All (IsShort 250) (core_regions policy frames)
core_regions-IsShort_example =
    core_regions-IsShort policy 250 50 0 frames (record { configured = refl; room = omega arith })
      (ground arith) (omega arith)

core_regions_overlong_example :
    (core_regions policy (checked 0 900 80 ∷ []) ≡ (0, 900) ∷ [])
    × ¬ All (IsShort 250) (core_regions policy (checked 0 900 80 ∷ []))
core_regions_overlong_example =
    core_regions_overlong policy 250 (checked 0 900 80) refl (omega arith) (omega arith)

regions-Laid_example :
    (out : List SpeechRegion) × (regions policy raw ≡ ok out)
    × (map core_of out ≡ core_regions policy frames)
    × Laid (timeline_start frames) (timeline_end frames) out
regions-Laid_example = regions-Laid policy raw frames policy-IsValid (omega arith) raw_checked

abbrev padded : List SpeechRegion
padded = region 20 180 50 150 ∷ region 270 340 300 340 ∷ []

marked-mark_vad_frames_example :
    marked false 25 (mark_vad_frames frames padded)
    ≡ (any (λ f. in_frame 25 f) frames && any (λ r. of_kind false 25 r) padded)
marked-mark_vad_frames_example = marked-mark_vad_frames false 25 frames padded (omega arith)

halo_marked : marked false 25 (mark_vad_frames frames padded) ≡ true
unfolding mark_vad_frames mark_frame mark_pieces
halo_marked = refl
