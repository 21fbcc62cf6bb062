-- ===== src/Timewarp/Tests.antt =====
-- Runs of the time map, and instances of its theorems.
use sddiar.Base.{
  length, ℕ, ◌+◌, ◌-◌, ◌*◌, ◌≤◌, ◌<◌, ◌≡◌, ◌↔◌, refl, ok, err, List, [], ◌∷◌, arith,
  timebase_violation, contract_validation, All, any, true, false,
}
use sddiar.Base.Int.{pos, negsuc}
use sddiar.Contracts.{max_time_us}
use sddiar.Timewarp.{
  TimeWarpSegment, TimeWarp, segment, source_us, holds, time_warp, map_sample, map_range,
  check_segments,
}
use sddiar.Timewarp.Segment.{IsValid, source_us_nearest, source_us_mono, segment-IsValid}
use sddiar.Timewarp.Mapping.{
  IsMonotone, ShareView, time_warp_iff, map_sample_mono, map_sample_outside,
}

-- Two segments of a 16 kHz view with a gap in the source between them.
abbrev head : TimeWarpSegment
head = record {
  segment_id = "s0";
  view_id = "v";
  view_start_sample = 0;
  view_end_sample = 3;
  source_start_us = 100;
  source_end_us = 200;
  mapping_kind = "DECODE_PTS";
}

abbrev tail : TimeWarpSegment
tail = record {
  segment_id = "s1";
  view_id = "v";
  view_start_sample = 3;
  view_end_sample = 19;
  source_start_us = 500;
  source_end_us = 1500;
  mapping_kind = "DECODE_PTS";
}

abbrev warp : TimeWarp
warp = record { segments = head ∷ tail ∷ [] }

head-IsValid : IsValid head
head-IsValid = omega arith

warp-IsValid : All IsValid warp.segments
warp-IsValid = omega arith

segment_accepts : segment "s0" "v" (pos 0) (pos 3) (pos 100) (pos 200) "DECODE_PTS" ≡ ok head
unfolding segment sddiar.Contracts.range
segment_accepts = refl

segment_negative :
    segment "s0" "v" (negsuc 0) (pos 3) (pos 100) (pos 200) "DECODE_PTS" ≡ err contract_validation
unfolding segment
segment_negative = refl

-- 100 / 3 rounds to 33, 200 / 3 to 67.
source_us_thirds : (source_us head 1 ≡ ok 133) × (source_us head 2 ≡ ok 167)
unfolding source_us sddiar.Base.Div.half_up
source_us_thirds = (refl, refl)

time_warp_accepts : time_warp (head ∷ tail ∷ []) ≡ ok warp
unfolding time_warp
time_warp_accepts = refl

time_warp_backwards : time_warp (tail ∷ head ∷ []) ≡ err timebase_violation
unfolding time_warp
time_warp_backwards = refl

map_range_run : map_range warp 1 11 ≡ ok (133, 1000)
unfolding map_range map_sample sddiar.Timewarp.map_sample_in source_us sddiar.Base.Div.half_up
    sddiar.Contracts.range
map_range_run = refl

source_us_nearest_example :
    (100 ≤ 133)
    × (2 * ((133 - 100) * 3) ≤ 2 * (1 * 100) + 3)
    × (2 * (1 * 100) ≤ 2 * ((133 - 100) * 3) + 3)
source_us_nearest_example =
    source_us_nearest head 1 133 head-IsValid (omega arith) (omega arith) source_us_thirds.0

source_us_mono_example : 133 ≤ 167
source_us_mono_example =
    source_us_mono head 1 2 133 167 head-IsValid (omega arith) source_us_thirds.0 source_us_thirds.1

segment-IsValid_example : IsValid head
segment-IsValid_example =
    segment-IsValid "s0" "v" "DECODE_PTS" (pos 0) (pos 3) (pos 100) (pos 200) head segment_accepts

time_warp_iff_example : (time_warp (head ∷ tail ∷ []) ≡ ok warp) ↔ (
    (warp ≡ record { segments = head ∷ tail ∷ [] })
    × (1 ≤ length (head ∷ tail ∷ []))
    × IsMonotone (head ∷ tail ∷ [])
    × ShareView (head ∷ tail ∷ []))
time_warp_iff_example = time_warp_iff (head ∷ tail ∷ []) warp

time_warp_empty : time_warp [] ≡ err timebase_violation
unfolding time_warp
time_warp_empty = refl

map_one : map_sample warp 1 ≡ ok 133
unfolding map_sample sddiar.Timewarp.map_sample_in source_us sddiar.Base.Div.half_up
map_one = refl

map_eleven : map_sample warp 11 ≡ ok 1000
unfolding map_sample sddiar.Timewarp.map_sample_in source_us sddiar.Base.Div.half_up
map_eleven = refl

map_sample_mono_example : 133 ≤ 1000
map_sample_mono_example =
    map_sample_mono warp warp-IsValid (omega arith) 1 11 133 1000 (omega arith) map_one map_eleven

map_sample_outside_example : map_sample warp 20 ≡ err timebase_violation
map_sample_outside_example = map_sample_outside warp 20 refl
