-- ===== src/Timewarp/Segment.antt =====
-- The affine map of one segment: exact at its ends, monotone, within its source range, and
-- never further than half a microsecond from the exact quotient.
use native.Mathlib.Nat.{mul-le-mul_right}
use sddiar.Base.{ℕ, ◌+◌, ◌-◌, ◌*◌, ◌≤◌, ◌<◌, ◌≡◌, ap, inl, inr, Result-cases, ◌∙◌, ok, arith}
use sddiar.Base.Int.{ℤ}
use sddiar.Base.Div.{half_up, half_up_bounds, half_up_mono, half_up_mul, half_up_nearest}
use sddiar.Contracts.{max_time_us, range}
use sddiar.Contracts.Range.{range-lt}
use sddiar.Timewarp.{TimeWarpSegment, segment, source_us}
use Prim.Native.String.{String}

-- What `__post_init__` establishes of the two ranges.
pub record IsValid (s : TimeWarpSegment) : Type 0 where
  pub view_order : s.view_start_sample < s.view_end_sample
  pub source_order : s.source_start_us < s.source_end_us
  pub source_bound : s.source_end_us ≤ max_time_us

-- The value that `source_us` returns inside the segment.
abbrev pub offset : TimeWarpSegment → ℕ → ℕ
offset s v =
    half_up ((v - s.view_start_sample) * (s.source_end_us - s.source_start_us))
      (s.view_end_sample - s.view_start_sample)

pub source_us-inside :
    (s : TimeWarpSegment) (v : ℕ)
    → s.view_start_sample ≤ v
    → v ≤ s.view_end_sample
    → source_us s v ≡ ok (s.source_start_us + offset s v)
unfolding source_us
source_us-inside s v lo hi = ground arith

offset-le :
    (s : TimeWarpSegment) (v : ℕ)
    → IsValid s
    → v ≤ s.view_end_sample
    → s.source_start_us + offset s v ≤ s.source_end_us
offset-le s v w hi =
    let d = s.view_end_sample - s.view_start_sample in
    let k = s.source_end_us - s.source_start_us in
    let positive : 0 < d = omega (arith, w.view_order) in
    let shorter : v - s.view_start_sample ≤ d = omega arith in
    let mono =
      half_up_mono ((v - s.view_start_sample) * k) (d * k) d positive
        (mul-le-mul_right k shorter) in
    omega (arith, mono, half_up_mul k d positive, w.source_order)

-- Every sample of a valid segment has a source time, which lies in the segment's source range.
pub source_us_bounds :
    (s : TimeWarpSegment) (v : ℕ)
    → IsValid s
    → s.view_start_sample ≤ v
    → v ≤ s.view_end_sample
    → (t : ℕ) × (source_us s v ≡ ok t) × (s.source_start_us ≤ t) × (t ≤ s.source_end_us)
source_us_bounds s v w lo hi =
    (s.source_start_us + offset s v, source_us-inside s v lo hi, omega arith, offset-le s v w hi)

-- Inside a valid segment the returned time is within half a microsecond of the exact rational
-- time: twice the error, times the number of view samples, is at most that number.
pub source_us_nearest :
    (s : TimeWarpSegment) (v t : ℕ)
    → IsValid s
    → s.view_start_sample ≤ v
    → v ≤ s.view_end_sample
    → source_us s v ≡ ok t
    → let d = s.view_end_sample - s.view_start_sample in
      let n = (v - s.view_start_sample) * (s.source_end_us - s.source_start_us) in
      (s.source_start_us ≤ t)
      × (2 * ((t - s.source_start_us) * d) ≤ 2 * n + d)
      × (2 * n ≤ 2 * ((t - s.source_start_us) * d) + d)
source_us_nearest s v t w lo hi e =
    let d = s.view_end_sample - s.view_start_sample in
    let n = (v - s.view_start_sample) * (s.source_end_us - s.source_start_us) in
    let q = half_up n d in
    let value : t ≡ s.source_start_us + q = cc (source_us-inside s v lo hi) in
    let near = half_up_nearest n d (omega (arith, w.view_order)) in
    let back : s.source_start_us + q - s.source_start_us ≡ q = omega arith in
    rw value (rw back (omega arith, near.0, near.1))

-- A later sample of the same segment never has an earlier source time.
pub source_us_mono :
    (s : TimeWarpSegment) (u v t₁ t₂ : ℕ)
    → IsValid s
    → u ≤ v
    → source_us s u ≡ ok t₁
    → source_us s v ≡ ok t₂
    → t₁ ≤ t₂
unfolding source_us
source_us_mono s u v t₁ t₂ w le e₁ e₂ =
    let d = s.view_end_sample - s.view_start_sample in
    let k = s.source_end_us - s.source_start_us in
    let positive : 0 < d = omega (arith, w.view_order) in
    let shorter : u - s.view_start_sample ≤ v - s.view_start_sample = omega arith in
    let mono =
      half_up_mono ((u - s.view_start_sample) * k) ((v - s.view_start_sample) * k) d positive
        (mul-le-mul_right k shorter) in
    ground (arith, mono)

-- The ends of a valid segment are mapped exactly to the ends of its source range.
pub source_us_ends :
    (s : TimeWarpSegment)
    → IsValid s
    → (source_us s s.view_start_sample ≡ ok s.source_start_us)
      × (source_us s s.view_end_sample ≡ ok s.source_end_us)
source_us_ends s w =
    let d = s.view_end_sample - s.view_start_sample in
    let k = s.source_end_us - s.source_start_us in
    let positive : 0 < d = omega (arith, w.view_order) in
    let first : s.source_start_us + offset s s.view_start_sample ≡ s.source_start_us =
      grind (arith, half_up_bounds ((s.view_start_sample - s.view_start_sample) * k) d positive) in
    let last : s.source_start_us + offset s s.view_end_sample ≡ s.source_end_us =
      omega (arith, half_up_mul k d positive, w.source_order) in
    (
      source_us-inside s s.view_start_sample (omega arith) (omega (arith, w.view_order))
          ∙ ap ok first,
      source_us-inside s s.view_end_sample (omega (arith, w.view_order)) (omega arith) ∙ ap ok last,
    )

-- A segment that the constructor accepts is valid.
pub segment-IsValid :
    (i v k : String) (a b c d : ℤ) (s : TimeWarpSegment) → segment i v a b c d k ≡ ok s → IsValid s
unfolding segment
segment-IsValid i v k a b c d s h = elim (Result-cases (range c d)) [
  | inl ((x, y), e) ↦ ground (arith, range-lt c d x y e)
  | inr (x, e) ↦ ground arith
]
