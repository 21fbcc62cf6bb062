-- ===== src/TemporalVad/Padding.antt =====
-- Padding of src/sddiar/silero_temporal.py: each region contains its core, the regions stay in
-- order and disjoint, and the constructor never refuses one.
use native.Mathlib.Nat.{le_refl}
use sddiar.Base.{
  ℕ, ◌≤◌, ◌<◌, ◌≡◌, refl, Option, none, some, List, [], ◌∷◌, map, ok, arith, ap, All, subst,
  reverse_onto, Result-cases, inl, inr, Option-cases,
}
use sddiar.Intervals.{Interval}
use sddiar.TemporalVad.Regions.{
  SpeechRegion, core_of, speech_region, padded_start, padded_end, pad_from, padded_regions,
  last_end_of, regions_of, regions,
}
use sddiar.TemporalVad.Decoder.{
  VadFrame, Frame, TemporalVadConfig, validated_frames, decode, core_regions,
}
use sddiar.TemporalVad.Core.{InOrder, Contiguous, IsValid, core_regions-InOrder}

-- The padded regions from `bound` on: in order, disjoint, each around its core, ending by `last`.
abbrev pub Laid : ℕ → ℕ → List SpeechRegion → Type 0
Laid bound last [] = bound ≤ last
Laid bound last (r ∷ rs) =
    (bound ≤ r.start_us)
    × (r.start_us ≤ r.core_start_us)
    × (r.core_start_us < r.core_end_us)
    × (r.core_end_us ≤ r.end_us)
    × Laid r.end_us last rs

abbrev core_bound : ℕ → Option ℕ → ℕ
core_bound timeline_start none = timeline_start
core_bound timeline_start (some left_end) = left_end

-- Where the region before the next core ends.
abbrev start_bound : ℕ → ℕ → ℕ → Option ℕ → List Interval → ℕ
start_bound timeline_start timeline_end pad none cores = timeline_start
start_bound timeline_start timeline_end pad (some left_end) cores =
    padded_end timeline_end pad left_end cores

module _ (lo hi pad : ℕ) where
  speech_region-accepts :
      (a b c d : ℕ)
      → a ≤ c
      → c < d
      → d ≤ b
      → speech_region a b c d
        ≡ ok (record { start_us = a; end_us = b; core_start_us = c; core_end_us = d })
  unfolding speech_region
  speech_region-accepts a b c d h k l = ground arith

  InOrder-last : (bound : ℕ) (cores : List Interval) → InOrder bound hi cores → bound ≤ hi
  InOrder-last bound [] h = h
  InOrder-last bound ((s, e) ∷ cores) h = omega (arith, h.0, h.1, InOrder-last e cores h.2)

  padded_start_bounds :
      (left : Option ℕ) (s e : ℕ) (cores : List Interval)
      → lo ≤ core_bound lo left
      → core_bound lo left ≤ s
      → s ≤ hi
      → (start_bound lo hi pad left ((s, e) ∷ cores) ≤ padded_start lo pad left s)
        × (padded_start lo pad left s ≤ s)
  padded_start_bounds none s e cores h k l = ground arith
  padded_start_bounds (some left_end) s e cores h k l = ground arith

  padded_end-le : (e : ℕ) (cores : List Interval) → e ≤ hi → e ≤ padded_end hi pad e cores
  padded_end-le e [] h = omega arith
  padded_end-le e ((s, e') ∷ cores) h = ground arith

  start_bound-le : (left : Option ℕ) → core_bound lo left ≤ hi → start_bound lo hi pad left [] ≤ hi
  start_bound-le none h = h
  start_bound-le (some left_end) h = omega arith

  pad_from-Laid :
      (left : Option ℕ) (cores : List Interval)
      → lo ≤ core_bound lo left
      → InOrder (core_bound lo left) hi cores
      → (out : List SpeechRegion) × (pad_from lo hi pad left cores ≡ ok out)
        × (map core_of out ≡ cores)
        × Laid (start_bound lo hi pad left cores) hi out
  unfolding pad_from
  pad_from-Laid left [] h order = ([], refl, refl, start_bound-le left order)
  pad_from-Laid left ((s, e) ∷ cores) h order =
      let end_by = InOrder-last e cores order.2 in
      let (others, value, kept, laid) =
        pad_from-Laid (some e) cores (omega (arith, order.0, order.1)) order.2 in
      let (from, by) = padded_start_bounds left s e cores h order.0 (omega (arith, order.1)) in
      let until = padded_end-le e cores end_by in
      (
        record {
          start_us = padded_start lo pad left s;
          end_us = padded_end hi pad e cores;
          core_start_us = s;
          core_end_us = e;
        }
            ∷ others,
        rw (
          speech_region-accepts (padded_start lo pad left s) (padded_end hi pad e cores) s e by
              order.1 until,
          value,
        ),
        ap (λ xs. (s, e) ∷ xs) kept,
        (from, by, order.1, until, laid),
      )

abbrev pub IsNonempty : VadFrame → Type 0
IsNonempty f = f.start_us < f.end_us

validated_frames-Contiguous :
    (now : ℕ) (frames : List VadFrame) (values : List Frame)
    → All IsNonempty frames
    → validated_frames (some now) frames ≡ ok values
    → Contiguous now values
unfolding validated_frames
validated_frames-Contiguous now [] [] h e = tt
validated_frames-Contiguous now [] (v ∷ values) h e = absurd (cc)
validated_frames-Contiguous now (f ∷ frames) values h e = elim (Option-cases f.speech_evidence) [
  | inl missing ↦ ground arith
  | inr (p, given) ↦ elim (Result-cases (validated_frames (some f.end_us) frames)) [
    | inl (others, value) ↦
        let ih = validated_frames-Contiguous f.end_us frames others h.1 value in
        let first : Frame = record { start_us = f.start_us; end_us = f.end_us; probability = p } in
        let at : f.start_us ≡ now = ground arith in
        let eq : first ∷ others ≡ values = ground arith in subst (Contiguous now) eq (at, h.0, ih)
    | inr (x, failed) ↦ ground arith
  ]
]

-- The first frame fixes where the timeline starts.
abbrev anchor : List VadFrame → ℕ
anchor [] = 0
anchor (f ∷ frames) = f.start_us

anchored :
    (frames : List VadFrame) (values : List Frame)
    → All IsNonempty frames
    → validated_frames none frames ≡ ok values
    → Contiguous (anchor frames) values
unfolding validated_frames
anchored [] values h e = validated_frames-Contiguous 0 [] values h (unfold validated_frames in e)
anchored (f ∷ frames) values h e =
    validated_frames-Contiguous f.start_us (f ∷ frames) values h (ground arith)

abbrev pub timeline_start : List Frame → ℕ
timeline_start [] = 0
timeline_start (f ∷ frames) = f.start_us

abbrev pub timeline_end : List Frame → ℕ
timeline_end [] = 0
timeline_end (f ∷ frames) = last_end_of f.end_us frames

abbrev Decoded : TemporalVadConfig → List Frame → Type 0
Decoded cfg values =
    (out : List SpeechRegion) × (regions_of cfg values ≡ ok out)
    × (map core_of out ≡ core_regions cfg values)
    × Laid (timeline_start values) (timeline_end values) out

regions_of-Laid :
    (cfg : TemporalVadConfig) (now : ℕ) (values : List Frame)
    → IsValid cfg
    → Contiguous now values
    → Decoded cfg values
unfolding padded_regions
regions_of-Laid cfg now [] valid h =
    ([], refl, unfold core_regions decode reverse_onto in refl, omega arith)
regions_of-Laid cfg now (f ∷ frames) valid h =
    let order = core_regions-InOrder cfg f.start_us (f ∷ frames) valid (refl, h.1, h.2) in
    pad_from-Laid f.start_us (last_end_of f.end_us frames) cfg.speech_pad_us none
      (core_regions cfg (f ∷ frames)) (le_refl f.start_us) order

-- For a valid policy and frames that pass the validation, the decoder always returns regions:
-- their cores are exactly the core regions, each padded region contains its core, and the padded
-- regions are in order, disjoint, and inside the timeline of the frames.
pub regions-Laid :
    (cfg : TemporalVadConfig) (frames : List VadFrame) (values : List Frame)
    → IsValid cfg
    → All IsNonempty frames
    → validated_frames none frames ≡ ok values
    → (out : List SpeechRegion) × (regions cfg frames ≡ ok out)
      × (map core_of out ≡ core_regions cfg values)
      × Laid (timeline_start values) (timeline_end values) out
unfolding regions
regions-Laid cfg frames values valid h e =
    rw e (regions_of-Laid cfg (anchor frames) values valid (anchored frames values h e))
