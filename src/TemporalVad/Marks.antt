-- ===== src/TemporalVad/Marks.antt =====
-- `mark_vad_frames` of src/sddiar/silero_temporal.py: the marks of one frame in one region.
use sddiar.Base.{
  ℕ, ◌+◌, ◌<◌, max, min, Bool, true, false, ◌&&◌, not, ◌≡◌, List, [], ◌∷◌, arith, if◌then◌else◌,
  any, any-append, ◌∙◌, All,
}
use sddiar.Intervals.{within}
use sddiar.TemporalVad.Decoder.{Frame}
use sddiar.TemporalVad.Regions.{
  SpeechRegion, MarkedVadFrame, mark_pieces, mark_overlap, mark_frame, mark_vad_frames,
}

abbrev pub wanted : Bool → ℕ → MarkedVadFrame → Bool
wanted kind t m = within t (m.start_us, m.end_us) && (if kind then m.is_core else not m.is_core)

-- Whether some mark of the wanted kind holds the instant.
abbrev pub marked : Bool → ℕ → List MarkedVadFrame → Bool
marked kind t marks = any (wanted kind t) marks

abbrev pub core_wanted : Bool → ℕ → SpeechRegion → Bool
core_wanted kind t r =
    let core = within t (r.core_start_us, r.core_end_us) in if kind then core else not core

-- The marks of a frame in a region cover exactly the instants that both hold; an instant is in a
-- core mark exactly when it is in the core of the region, and in a halo mark otherwise.
marked-overlap :
    (kind : Bool) (t : ℕ) (f : Frame) (index : ℕ) (r : SpeechRegion) (lo hi : ℕ)
    → r.core_start_us < r.core_end_us
    → marked kind t (mark_overlap f index r lo hi) ≡ (within t (lo, hi) && core_wanted kind t r)
unfolding mark_pieces
marked-overlap true t f index r lo hi h = ground arith
marked-overlap false t f index r lo hi h = ground arith

abbrev pub HasCore : SpeechRegion → Type 0
HasCore r = r.core_start_us < r.core_end_us

-- The instants of a region that marks of a kind should hold.
abbrev pub of_kind : Bool → ℕ → SpeechRegion → Bool
of_kind kind t r = within t (r.start_us, r.end_us) && core_wanted kind t r

abbrev pub in_frame : ℕ → Frame → Bool
in_frame t f = within t (f.start_us, f.end_us)

marked-mark_frame :
    (kind : Bool) (t : ℕ) (f : Frame) (index : ℕ) (regions : List SpeechRegion)
    → All HasCore regions
    → marked kind t (mark_frame f index regions)
      ≡ (in_frame t f && any (λ r. of_kind kind t r) regions)
unfolding mark_frame
marked-mark_frame kind t f index [] h = ground arith
marked-mark_frame kind t f index (r ∷ regions) h =
    let lo = max f.start_us r.start_us in
    let hi = min f.end_us r.end_us in
    any-append (wanted kind t) (mark_overlap f index r lo hi) (mark_frame f (index + 1) regions)
    ∙ ground (
      arith,
      marked-overlap kind t f index r lo hi h.0,
      marked-mark_frame kind t f (index + 1) regions h.1,
    )

-- Together the marks hold exactly the instants that some frame and some region both hold: an
-- instant lies in a core mark exactly when it lies in a region's core (`kind` true), and in a
-- halo mark exactly when it lies in a region outside its core (`kind` false).
pub marked-mark_vad_frames :
    (kind : Bool) (t : ℕ) (frames : List Frame) (regions : List SpeechRegion)
    → All HasCore regions
    → marked kind t (mark_vad_frames frames regions)
      ≡ (any (λ f. in_frame t f) frames && any (λ r. of_kind kind t r) regions)
unfolding mark_vad_frames
marked-mark_vad_frames kind t [] regions h = ground arith
marked-mark_vad_frames kind t (f ∷ frames) regions h =
    any-append (wanted kind t) (mark_frame f 0 regions) (mark_vad_frames frames regions)
    ∙ ground (
      arith,
      marked-mark_frame kind t f 0 regions h,
      marked-mark_vad_frames kind t frames regions h,
    )
