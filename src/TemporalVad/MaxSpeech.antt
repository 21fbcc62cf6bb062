-- ===== src/TemporalVad/MaxSpeech.antt =====
-- `max_speech_duration_us` of src/sddiar/silero_temporal.py: when it bounds the core regions, and
-- when it does not.
use sddiar.Base.{
  ℕ, ◌+◌, ◌*◌, ◌≤◌, ◌<◌, Bool, true, false, ◌&&◌, ◌≡◌, refl, subst, Option, none, some, List, [],
  ◌∷◌, arith, ltb, leb, All, reverse_onto, Bool-cases, inl, inr,
}
use sddiar.Intervals.{Interval}
use sddiar.TemporalVad.Decoder.{
  TemporalVadConfig, Frame, State, idle, emit, limit, silence_from, step_idle, step_active,
  step_bounded, step_at, finish_at, step, decode, core_regions,
}
use sddiar.TemporalVad.Core.{Contiguous}

-- No longer than `longest`.
abbrev pub IsShort : ℕ → Interval → Type 0
IsShort longest (s, e) = e ≤ s + longest

abbrev pub FramesBy : ℕ → List Frame → Type 0
FramesBy hop frames = All (λ f. f.end_us ≤ f.start_us + hop) frames

-- A policy with a maximum that leaves room for the tolerated silence and two frames.
pub record Roomy (cfg : TemporalVadConfig) (longest hop : ℕ) : Type 0 where
  pub configured : cfg.max_speech_duration_us ≡ some longest
  pub room : cfg.min_silence_duration_us + 2 * hop ≤ longest

module _ (cfg : TemporalVadConfig) (longest hop : ℕ) (roomy : Roomy cfg longest hop) where
  -- How far the frames read so far can have passed the boundary.
  abbrev Caught : Option ℕ → ℕ → ℕ → Type 0
  Caught none boundary now = now ≤ boundary
  Caught (some silence) boundary now =
      (silence ≤ boundary) × (now ≤ silence + cfg.min_silence_duration_us + hop)

  abbrev KeptAt : ℕ → State → Bool → Type 0
  KeptAt now s true =
      All (IsShort longest) s.regions
      × (s.max_end ≡ some (s.core_start + longest))
      × (s.core_end ≤ s.core_start + longest)
      × Caught s.silence_start (s.core_start + longest) now
  KeptAt now s false = All (IsShort longest) s.regions × (s.silence_start ≡ none)

  abbrev Kept : ℕ → State → Type 0
  Kept now s = KeptAt now s s.active

  emit-IsShort :
      (s : State) (end : ℕ)
      → end ≤ s.core_start + longest
      → All (IsShort longest) s.regions
      → All (IsShort longest) (emit s end).regions
  unfolding emit
  emit-IsShort s end le h = elim (Bool-cases (s.active && ltb s.core_start end)) [
    | inl kept ↦ rw kept (le, h)
    | inr dropped ↦ rw dropped h
  ]

  silence_from-Caught :
      (silence : Option ℕ) (boundary now : ℕ)
      → Caught silence boundary now
      → silence_from silence now ≤ boundary
  silence_from-Caught none boundary now h = h
  silence_from-Caught (some silence) boundary now h = h.0

  le_of_Caught :
      (silence : Option ℕ) (boundary now : ℕ)
      → Caught silence boundary now
      → now ≤ boundary + cfg.min_silence_duration_us + hop
  le_of_Caught none boundary now h = omega arith
  le_of_Caught (some silence) boundary now h = omega arith

  step_active-Kept :
      (now : ℕ) (s : State) (f : Frame)
      → s.active ≡ true
      → f.start_us ≡ now
      → f.end_us ≤ f.start_us + hop
      → (ltb (s.core_start + longest) f.end_us && leb cfg.negative_threshold f.probability) ≡ false
      → KeptAt now s true
      → Kept f.end_us (step_active cfg s f)
  unfolding emit
  step_active-Kept now s f on at short unsplit (all, boundary, core, caught) =
      let silence = silence_from s.silence_start f.start_us in
      let by =
        silence_from-Caught s.silence_start (s.core_start + longest) f.start_us (rw at caught) in
      elim (Bool-cases (ltb f.probability cfg.negative_threshold)) [
        | inl low ↦ elim (Bool-cases (leb (silence + cfg.min_silence_duration_us) f.start_us)) [
          | inl closes ↦ rw (low, closes) (unfold emit in (emit-IsShort s silence by all, refl))
          | inr waits ↦ rw (low, waits, on) (all, boundary, core, (by, ground arith))
        ]
        | inr high ↦
            let kept : f.end_us ≤ s.core_start + longest = ground arith in
            rw (high, on) (all, boundary, kept, kept)
      ]

  step_bounded-Kept :
      (now : ℕ) (s : State) (f : Frame) (max_end : Option ℕ)
      → s.active ≡ true
      → s.max_end ≡ max_end
      → f.start_us ≡ now
      → f.end_us ≤ f.start_us + hop
      → KeptAt now s true
      → Kept f.end_us (step_bounded cfg s f max_end)
  step_bounded-Kept now s f none on is at short h = absurd (cc h.1)
  step_bounded-Kept now s f (some boundary) on is at short h =
      let same : boundary ≡ s.core_start + longest = cc h.1 in
      elim (Bool-cases (ltb boundary f.end_us && leb cfg.negative_threshold f.probability)) [
        | inl splits ↦
            let late = le_of_Caught s.silence_start (s.core_start + longest) now h.3 in
            let fits : f.end_us ≤ boundary + longest = omega (arith, roomy.room, late) in
            let next : limit boundary cfg.max_speech_duration_us ≡ some (boundary + longest) =
              rw roomy.configured in
            rw splits (emit-IsShort s boundary (omega arith) h.0, next, fits, fits)
        | inr goes_on ↦ rw goes_on (step_active-Kept now s f on at short (rw same at goes_on) h)
      ]

  step_idle-Kept :
      (now : ℕ) (s : State) (f : Frame)
      → s.active ≡ false
      → f.end_us ≤ f.start_us + hop
      → KeptAt now s false
      → Kept f.end_us (step_idle cfg s f)
  step_idle-Kept now s f off short (all, quiet) =
      elim (Bool-cases (leb cfg.onset_threshold f.probability)) [
        | inl starts ↦
            let fits : f.end_us ≤ f.start_us + longest = omega (arith, roomy.room) in
            let next : limit f.start_us cfg.max_speech_duration_us ≡ some (f.start_us + longest) =
              rw roomy.configured in
            rw (starts, quiet) (all, next, fits, fits)
        | inr stays ↦ rw (stays, off) (all, quiet)
      ]

  step_at-Kept :
      (now : ℕ) (s : State) (f : Frame) (active : Bool)
      → s.active ≡ active
      → f.start_us ≡ now
      → f.end_us ≤ f.start_us + hop
      → KeptAt now s active
      → Kept f.end_us (step_at cfg s f active)
  step_at-Kept now s f true on at short h = step_bounded-Kept now s f s.max_end on refl at short h
  step_at-Kept now s f false off at short h = step_idle-Kept now s f off short h

  decode-Kept :
      (now : ℕ) (s : State) (frames : List Frame)
      → Contiguous now frames
      → FramesBy hop frames
      → Kept now s
      → (end : ℕ) × Kept end (decode cfg s frames)
  unfolding decode step
  decode-Kept now s [] h short kept = (now, kept)
  decode-Kept now s (f ∷ frames) h short kept =
      decode-Kept f.end_us (step cfg s f) frames h.2 short.1
        (step_at-Kept now s f s.active refl h.0 short.0 kept)

  finish_at-IsShort :
      (now : ℕ) (s : State) (active : Bool)
      → KeptAt now s active
      → All (IsShort longest) (finish_at s active).regions
  finish_at-IsShort now s true h = emit-IsShort s s.core_end h.2 h.0
  finish_at-IsShort now s false h = h.0

All-reverse_onto {κ} :
    (P : Interval → Type κ) (xs acc : List Interval)
    → All P xs
    → All P acc
    → All P (reverse_onto xs acc)
unfolding reverse_onto
All-reverse_onto P [] acc h k = k
All-reverse_onto P (x ∷ xs) acc h k = All-reverse_onto P xs (x ∷ acc) h.1 (h.0, k)

-- If the maximum leaves room for the tolerated silence and two of the longest frames, no core
-- region of contiguous frames is longer than the maximum.
pub core_regions-IsShort :
    (cfg : TemporalVadConfig) (longest hop start : ℕ) (frames : List Frame)
    → Roomy cfg longest hop
    → Contiguous start frames
    → FramesBy hop frames
    → All (IsShort longest) (core_regions cfg frames)
unfolding core_regions
core_regions-IsShort cfg longest hop start frames roomy h short =
    let s = decode cfg (idle []) frames in
    let (end, kept) = decode-Kept cfg longest hop roomy start (idle []) frames h short (tt, refl) in
    All-reverse_onto (IsShort longest) (finish_at s s.active).regions []
      (finish_at-IsShort cfg longest hop roomy end s s.active kept) tt

core_regions_single :
    (cfg : TemporalVadConfig) (f : Frame)
    → cfg.onset_threshold ≤ f.probability
    → f.start_us < f.end_us
    → core_regions cfg (f ∷ []) ≡ (f.start_us, f.end_us) ∷ []
unfolding core_regions decode step emit reverse_onto
core_regions_single cfg f onset long = ground arith

-- Without that room the maximum is no hard boundary: one frame with onset evidence that is longer
-- than the maximum is returned as a single core region of its whole length.
pub core_regions_overlong :
    (cfg : TemporalVadConfig) (longest : ℕ) (f : Frame)
    → cfg.max_speech_duration_us ≡ some longest
    → cfg.onset_threshold ≤ f.probability
    → f.start_us + longest < f.end_us
    → (core_regions cfg (f ∷ []) ≡ (f.start_us, f.end_us) ∷ [])
      × ¬ All (IsShort longest) (core_regions cfg (f ∷ []))
core_regions_overlong cfg longest f max onset long =
    let whole = core_regions_single cfg f onset (omega arith) in
    (whole, λ h. let short = subst (All (IsShort longest)) whole h in omega (arith, short.0))
