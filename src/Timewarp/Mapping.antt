-- ===== src/Timewarp/Mapping.antt =====
-- `TimeWarp`: which lists of segments it accepts, and what its lookups return.
use Prim.Native.String.{String}
use text.Mathlib.TextEquality.{eq_iff}
use sddiar.Base.{
  ℕ, ◌≤◌, ◌<◌, ◌≡◌, ◌↔◌, inl, inr, refl, ok, err, arith, true, false, List, [], ◌∷◌, some,
  Bool-cases, Result-cases, timebase_violation, All, any, length,
}
use sddiar.Base.Int.{pos}
use sddiar.Contracts.{max_time_us}
use sddiar.Contracts.Range.{range_iff}
use sddiar.Timewarp.{
  TimeWarpSegment, TimeWarp, holds, check_segments, time_warp, map_sample_in, map_sample, map_range,
}
use sddiar.Timewarp.Segment.{IsValid, source_us_bounds, source_us_mono}

-- Each segment begins, in the view and in the source, no earlier than the one before it ends.
abbrev pub Follows : TimeWarpSegment → List TimeWarpSegment → Type 0
Follows s [] = Unit
Follows s (t ∷ rest) =
    (s.view_end_sample ≤ t.view_start_sample)
    × (s.source_end_us ≤ t.source_start_us)
    × Follows t rest

abbrev pub IsMonotone : List TimeWarpSegment → Type 0
IsMonotone [] = Unit
IsMonotone (s ∷ rest) = Follows s rest

check_segments-Follows :
    (v : String) (s : TimeWarpSegment) (rest : List TimeWarpSegment)
    → (check_segments v (some (s.view_end_sample, s.source_end_us)) rest ≡ ok tt)
      ↔ (Follows s rest × All (λ t. t.view_id ≡ v) rest)
unfolding check_segments
check_segments-Follows v s [] = (λ h. (tt, tt), λ h. refl)
check_segments-Follows v s (t ∷ rest) =
    ground (arith, check_segments-Follows v t rest, eq_iff t.view_id v)

-- All segments are of the view of the first.
abbrev pub ShareView : List TimeWarpSegment → Type 0
ShareView [] = Unit
ShareView (s ∷ rest) = All (λ t. t.view_id ≡ s.view_id) rest

-- `TimeWarp(segments)` is accepted exactly when there is a segment, all share a view, and they are
-- monotone in view and source; it then holds just those segments.
pub time_warp_iff :
    (segments : List TimeWarpSegment) (w : TimeWarp)
    → (time_warp segments ≡ ok w) ↔ (
        (w ≡ record { segments = segments })
        × (1 ≤ length segments)
        × IsMonotone segments
        × ShareView segments)
unfolding time_warp
time_warp_iff [] w = ground arith
time_warp_iff (s ∷ rest) w =
    ground (arith, check_segments-Follows s.view_id s rest, eq_iff s.view_id s.view_id)

-- The source times that a lookup in the segments behind `s` can return.
map_sample_in_above :
    (s : TimeWarpSegment) (rest : List TimeWarpSegment) (v t : ℕ)
    → All IsValid rest
    → Follows s rest
    → map_sample_in rest v ≡ ok t
    → (s.view_end_sample ≤ v) × (s.source_end_us ≤ t)
unfolding map_sample_in
map_sample_in_above s [] v t valid follows e = cc
map_sample_in_above s (r ∷ rest) v t valid follows e = elim (Bool-cases (holds r v)) [
  | inl here ↦
      let (t', e', lo, _) = source_us_bounds r v valid.0 (ground arith) (ground arith) in
      ground arith
  | inr there ↦
      let next = map_sample_in_above r rest v t valid.1 follows.2 (rw there at e) in
      omega (arith, next.0, next.1, valid.0.view_order, valid.0.source_order)
]

Follows-IsMonotone :
    (s : TimeWarpSegment) (rest : List TimeWarpSegment) → Follows s rest → IsMonotone rest
Follows-IsMonotone s [] h = tt
Follows-IsMonotone s (t ∷ rest) h = h.2

-- Lookups in a monotone list of valid segments are monotone, across segments and at the samples
-- that two adjacent segments share.
map_sample_in_mono :
    (segments : List TimeWarpSegment) (u v t₁ t₂ : ℕ)
    → All IsValid segments
    → IsMonotone segments
    → u ≤ v
    → map_sample_in segments u ≡ ok t₁
    → map_sample_in segments v ≡ ok t₂
    → t₁ ≤ t₂
unfolding map_sample_in
map_sample_in_mono [] u v t₁ t₂ valid monotone le e₁ e₂ = cc
map_sample_in_mono (s ∷ rest) u v t₁ t₂ valid monotone le e₁ e₂ = elim (Bool-cases (holds s u)) [
  | inl u_here ↦ elim (Bool-cases (holds s v)) [
    | inl v_here ↦ source_us_mono s u v t₁ t₂ valid.0 le (rw u_here at e₁) (rw v_here at e₂)
    | inr v_later ↦
        let (t', e', _, hi) = source_us_bounds s u valid.0 (ground arith) (ground arith) in
        let above = map_sample_in_above s rest v t₂ valid.1 monotone (rw v_later at e₂) in
        let same : t₁ ≡ t' = cc (rw u_here at e₁) in omega (arith, above.1, same)
  ]
  | inr u_later ↦
      let above = map_sample_in_above s rest u t₁ valid.1 monotone (rw u_later at e₁) in
      elim (Bool-cases (holds s v)) [
        | inl v_here ↦ absurd (ground (arith, above.0, valid.0.view_order))
        | inr v_later ↦
            map_sample_in_mono rest u v t₁ t₂ valid.1 (Follows-IsMonotone s rest monotone) le
              (rw u_later at e₁) (rw v_later at e₂)
      ]
]

module _ (w : TimeWarp) (valid : All IsValid w.segments) (monotone : IsMonotone w.segments) where
  -- A later view sample never maps to an earlier source time, across segments too.
  pub map_sample_mono :
      (u v t₁ t₂ : ℕ) → u ≤ v → map_sample w u ≡ ok t₁ → map_sample w v ≡ ok t₂ → t₁ ≤ t₂
  unfolding map_sample
  map_sample_mono u v t₁ t₂ = map_sample_in_mono w.segments u v t₁ t₂ valid monotone

-- A mapped range is non-empty, in int64 range, and is the pair of the two mapped samples; a range
-- of samples that is empty or backwards is refused.
pub map_range_lem :
    (w : TimeWarp) (u v a b : ℕ)
    → map_range w u v ≡ ok (a, b)
    → (u < v) × (a < b) × (b ≤ max_time_us) × (map_sample w u ≡ ok a) × (map_sample w v ≡ ok b)
unfolding map_range
map_range_lem w u v a b e = elim (Result-cases (map_sample w u)) [
  | inl (x, ex) ↦ elim (Result-cases (map_sample w v)) [
    | inl (y, ey) ↦ ground (arith, (range_iff (pos x) (pos y) a b).0)
    | inr (y, ey) ↦ ground arith
  ]
  | inr (x, ex) ↦ ground arith
]

map_sample_in_total :
    (segments : List TimeWarpSegment) (v : ℕ)
    → All IsValid segments
    → any (λ s. holds s v) segments ≡ true
    → (t : ℕ) × (map_sample_in segments v ≡ ok t) × (t ≤ max_time_us)
unfolding map_sample_in
map_sample_in_total [] v valid h = cc
map_sample_in_total (s ∷ rest) v valid h = elim (Bool-cases (holds s v)) [
  | inl here ↦
      let (t, e, _, hi) = source_us_bounds s v valid.0 (ground arith) (ground arith) in
      (t, rw here e, omega (arith, valid.0.source_bound))
  | inr there ↦
      let (t, e, bound) = map_sample_in_total rest v valid.1 (rw there at h) in
      (t, rw there e, bound)
]

map_sample_in_outside :
    (segments : List TimeWarpSegment) (v : ℕ)
    → any (λ s. holds s v) segments ≡ false
    → map_sample_in segments v ≡ err timebase_violation
unfolding map_sample_in
map_sample_in_outside [] v h = refl
map_sample_in_outside (s ∷ rest) v h = ground (arith, map_sample_in_outside rest v)

-- Every sample that one of the valid segments holds has a source time in int64 range.
pub map_sample_total :
    (w : TimeWarp) (v : ℕ)
    → All IsValid w.segments
    → any (λ s. holds s v) w.segments ≡ true
    → (t : ℕ) × (map_sample w v ≡ ok t) × (t ≤ max_time_us)
unfolding map_sample
map_sample_total w v = map_sample_in_total w.segments v

-- A sample that no segment holds raises a timebase violation, and no other error.
pub map_sample_outside :
    (w : TimeWarp) (v : ℕ)
    → any (λ s. holds s v) w.segments ≡ false
    → map_sample w v ≡ err timebase_violation
unfolding map_sample
map_sample_outside w v = map_sample_in_outside w.segments v
