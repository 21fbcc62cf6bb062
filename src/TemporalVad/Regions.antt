-- ===== src/TemporalVad/Regions.antt =====
-- src/sddiar/silero_temporal.py: `SpeechRegion`, `_padded_regions`, `mark_vad_frames` and the
-- duration totals of `TemporalVadResult`.
use sddiar.Base.{
  ℕ, ◌+◌, ◌-◌, ◌*◌, ◌/◌, max, min, Bool, ◌&&◌, Option, none, some, List, [], ◌∷◌, ◌++◌, Result, ok,
  err, temporal_vad, ◌>>=◌, ltb, leb, if◌then◌else◌, sum_of,
}
use sddiar.Intervals.{Interval}
use sddiar.TemporalVad.Decoder.{Frame, VadFrame, TemporalVadConfig, validated_frames, core_regions}

pub record SpeechRegion : Type 0 where
  pub start_us : ℕ
  pub end_us : ℕ
  pub core_start_us : ℕ
  pub core_end_us : ℕ

abbrev pub core_of : SpeechRegion → Interval
core_of r = (r.core_start_us, r.core_end_us)

-- `SpeechRegion(...)` with the order test of `__post_init__`
unfoldable pub speech_region : ℕ → ℕ → ℕ → ℕ → Result SpeechRegion
speech_region start end core_start core_end =
    if leb start core_start && ltb core_start core_end && leb core_end end
    then ok (record {
      start_us = start;
      end_us = end;
      core_start_us = core_start;
      core_end_us = core_end;
    })
    else err temporal_vad

-- `starts[index]`: what is left of it by the round of the gap before the region.
abbrev pub padded_start : ℕ → ℕ → Option ℕ → ℕ → ℕ
padded_start timeline_start pad none start = max timeline_start (start - pad)
padded_start timeline_start pad (some left_end) start =
    let gap = start - left_end in
    if ltb gap (2 * pad)
    then max timeline_start (start - (gap - gap / 2))
    else max timeline_start (start - pad)

-- `ends[index]`: what is left of it by the round of the gap behind the region.
abbrev pub padded_end : ℕ → ℕ → ℕ → List Interval → ℕ
padded_end timeline_end pad end [] = min timeline_end (end + pad)
padded_end timeline_end pad end ((right_start, right_end) ∷ rest) =
    let gap = right_start - end in
    if ltb gap (2 * pad) then min timeline_end (end + gap / 2) else min timeline_end (end + pad)

-- The regions from one core on, given where the core before it ends
unfoldable pub pad_from : ℕ → ℕ → ℕ → Option ℕ → List Interval → Result (List SpeechRegion)
pad_from timeline_start timeline_end pad left [] = ok []
pad_from timeline_start timeline_end pad left ((start, end) ∷ cores) = do
  region ←
      speech_region (padded_start timeline_start pad left start)
        (padded_end timeline_end pad end cores) start end
  others ← pad_from timeline_start timeline_end pad (some end) cores
  ok (region ∷ others)

-- `_padded_regions`
unfoldable pub padded_regions : List Interval → ℕ → ℕ → ℕ → Result (List SpeechRegion)
padded_regions cores timeline_start timeline_end pad =
    pad_from timeline_start timeline_end pad none cores

abbrev pub last_end_of : ℕ → List Frame → ℕ
last_end_of end [] = end
last_end_of end (f ∷ frames) = last_end_of f.end_us frames

abbrev pub regions_of : TemporalVadConfig → List Frame → Result (List SpeechRegion)
regions_of cfg [] = ok []
regions_of cfg (f ∷ frames) =
    padded_regions (core_regions cfg (f ∷ frames)) f.start_us (last_end_of f.end_us frames)
      cfg.speech_pad_us

-- `SileroTemporalPostprocessor.regions`
unfoldable pub regions : TemporalVadConfig → List VadFrame → Result (List SpeechRegion)
regions cfg frames = do values ← validated_frames none frames; regions_of cfg values

pub record MarkedVadFrame : Type 0 where
  pub start_us : ℕ
  pub end_us : ℕ
  pub speech_evidence : ℕ
  pub region_index : ℕ
  pub is_core : Bool

-- One piece between two neighbouring boundaries; `is_halo` is the negation of `is_core`.
abbrev pub mark_piece : Frame → ℕ → SpeechRegion → ℕ → ℕ → MarkedVadFrame
mark_piece f index r start end = record {
  start_us = start;
  end_us = end;
  speech_evidence = f.probability;
  region_index = index;
  is_core = leb r.core_start_us start && leb end r.core_end_us;
}

-- `sorted({overlap_start, overlap_end} | {...})`, for the boundaries of a valid region, whose core
-- start comes before its core end
abbrev pub inner : ℕ → ℕ → ℕ → List ℕ → List ℕ
inner boundary lo hi rest = if ltb lo boundary && ltb boundary hi then boundary ∷ rest else rest

abbrev pub boundaries : SpeechRegion → ℕ → ℕ → List ℕ
boundaries r lo hi = lo ∷ inner r.core_start_us lo hi (inner r.core_end_us lo hi (hi ∷ []))

-- `zip(boundaries, boundaries[1:])`
unfoldable pub mark_pieces : Frame → ℕ → SpeechRegion → List ℕ → List MarkedVadFrame
mark_pieces f index r [] = []
mark_pieces f index r (a ∷ []) = []
mark_pieces f index r (a ∷ b ∷ rest) = mark_piece f index r a b ∷ mark_pieces f index r (b ∷ rest)

abbrev pub mark_overlap : Frame → ℕ → SpeechRegion → ℕ → ℕ → List MarkedVadFrame
mark_overlap f index r lo hi = if leb hi lo then [] else mark_pieces f index r (boundaries r lo hi)

-- The loop over the regions for one frame, from `index` on
unfoldable pub mark_frame : Frame → ℕ → List SpeechRegion → List MarkedVadFrame
mark_frame f index [] = []
mark_frame f index (r ∷ regions) =
    mark_overlap f index r (max f.start_us r.start_us) (min f.end_us r.end_us)
    ++ mark_frame f (index + 1) regions

-- `mark_vad_frames`, behind the validation of the frames
unfoldable pub mark_vad_frames : List Frame → List SpeechRegion → List MarkedVadFrame
mark_vad_frames [] regions = []
mark_vad_frames (f ∷ frames) regions = mark_frame f 0 regions ++ mark_vad_frames frames regions

-- `core_duration_us` and `halo_duration_us` of `TemporalVadResult`
unfoldable pub core_duration_us : List SpeechRegion → ℕ
core_duration_us regions = sum_of (λ r. r.core_end_us - r.core_start_us) regions

unfoldable pub halo_duration_us : List SpeechRegion → ℕ
halo_duration_us regions =
    sum_of (λ r. (r.core_start_us - r.start_us) + (r.end_us - r.core_end_us)) regions
