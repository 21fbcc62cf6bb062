-- ===== src/Timewarp.antt =====
-- src/sddiar/contracts.py `TimeWarpSegment` and src/sddiar/timebase.py `TimeWarp`: the piecewise
-- affine map from samples of an audio view to microseconds of the source. A negative sample is
-- outside every segment, so samples that are looked up are naturals.
mod Tests
pub mod Segment
pub mod Mapping
use Prim.Native.String.{String}
use text.Mathlib.Text.{◌==◌}
use sddiar.Base.{
  ℕ, zero, suc, ◌+◌, ◌-◌, ◌*◌, Bool, true, false, not, ◌&&◌, ◌||◌, Option, none, some, List, [],
  ◌∷◌, Result, ok, err, contract_validation, timebase_violation, ◌>>=◌, ◌>>◌, raise_if, ltb, leb,
  if◌then◌else◌,
}
use sddiar.Base.Int.{ℤ, pos, ltb_ℤ, leb_ℤ, pos_part}
use sddiar.Base.Div.{half_up}
use sddiar.Contracts.{range}

pub record TimeWarpSegment : Type 0 where
  pub segment_id : String
  pub view_id : String
  pub view_start_sample : ℕ
  pub view_end_sample : ℕ
  pub source_start_us : ℕ
  pub source_end_us : ℕ
  pub mapping_kind : String

-- `TimeWarpSegment(...)` with `__post_init__`
pub segment : String → String → ℤ → ℤ → ℤ → ℤ → String → Result TimeWarpSegment
segment segment_id view_id view_start view_end source_start source_end kind = do
  raise_if (ltb_ℤ view_start (pos 0) || leb_ℤ view_end view_start) contract_validation
  (s, e) ← range source_start source_end
  raise_if (not (kind == "AFFINE_RESAMPLE" || kind == "DECODE_PTS")) contract_validation
  ok (record {
    segment_id = segment_id;
    view_id = view_id;
    view_start_sample = pos_part view_start;
    view_end_sample = pos_part view_end;
    source_start_us = s;
    source_end_us = e;
    mapping_kind = kind;
  })

-- `start <= sample <= end`
abbrev pub holds : TimeWarpSegment → ℕ → Bool
holds s sample = leb s.view_start_sample sample && leb sample s.view_end_sample

pub source_us : TimeWarpSegment → ℕ → Result ℕ
source_us s view_sample = do
  raise_if (not (holds s view_sample)) contract_validation
  let numerator = (view_sample - s.view_start_sample) * (s.source_end_us - s.source_start_us)
  let denominator = s.view_end_sample - s.view_start_sample
  ok (s.source_start_us + half_up numerator denominator)

pub record TimeWarp : Type 0 where
  pub segments : List TimeWarpSegment

-- The test on `prev_v` and `prev_s`, which are `None` before the first segment.
abbrev pub goes_back : Option (ℕ × ℕ) → TimeWarpSegment → Bool
goes_back none s = false
goes_back (some (prev_v, prev_s)) s = ltb s.view_start_sample prev_v || ltb s.source_start_us prev_s

-- The loop of `TimeWarp.__init__`
pub check_segments : String → Option (ℕ × ℕ) → List TimeWarpSegment → Result (Unit {0})
check_segments view_id prev [] = ok tt
check_segments view_id prev (s ∷ rest) = do
  raise_if (not (s.view_id == view_id)) timebase_violation
  raise_if (goes_back prev s) timebase_violation
  check_segments view_id (some (s.view_end_sample, s.source_end_us)) rest

-- `TimeWarp.__init__`
pub time_warp : List TimeWarpSegment → Result TimeWarp
unfolding check_segments
time_warp [] = err timebase_violation
time_warp (s ∷ rest) = do
  check_segments s.view_id none (s ∷ rest)
  ok (record { segments = s ∷ rest })

pub map_sample_in : List TimeWarpSegment → ℕ → Result ℕ
map_sample_in [] sample = err timebase_violation
map_sample_in (s ∷ rest) sample =
    let later = map_sample_in rest sample in if holds s sample then source_us s sample else later

pub map_sample : TimeWarp → ℕ → Result ℕ
map_sample w sample = map_sample_in w.segments sample

pub map_range : TimeWarp → ℕ → ℕ → Result (ℕ × ℕ)
map_range w start_sample end_sample = do
  raise_if (leb end_sample start_sample) timebase_violation
  start ← map_sample w start_sample
  end ← map_sample w end_sample
  range (pos start) (pos end)

-- `source_range_for_segment`, at an index from the front
pub source_range_for_segment : List TimeWarpSegment → ℕ → Result (ℕ × ℕ)
source_range_for_segment [] index = err timebase_violation
source_range_for_segment (s ∷ rest) zero = ok (s.source_start_us, s.source_end_us)
source_range_for_segment (s ∷ rest) (suc index) = source_range_for_segment rest index
