-- ===== src/TemporalVad/Core.antt =====
-- The core regions of src/sddiar/silero_temporal.py: in order, non-empty, and inside the frames.
use native.Mathlib.Nat.{le_refl}
use sddiar.Base.{
  ℕ, ◌+◌, ◌≤◌, ◌<◌, Bool, true, false, ◌&&◌, ◌≡◌, refl, Option, none, some, List, [], ◌∷◌, arith,
  ltb, leb, reverse_onto, Bool-cases, inl, inr,
}
use sddiar.Intervals.{Interval}
use sddiar.TemporalVad.Decoder.{
  TemporalVadConfig, Frame, State, idle, emit, limit, silence_from, step_idle, step_active,
  step_bounded, step_at, finish_at, step, decode, core_regions,
}
use sddiar.TemporalVad.Regions.{last_end_of}

-- Each frame is non-empty and begins where the one before it ends.
abbrev pub Contiguous : ℕ → List Frame → Type 0
Contiguous now [] = Unit
Contiguous now (f ∷ frames) =
    (f.start_us ≡ now) × (f.start_us < f.end_us) × Contiguous f.end_us frames

-- Ascending from `bound`, non-empty, and ending by `last`; neighbours may touch.
abbrev pub InOrder : ℕ → ℕ → List Interval → Type 0
InOrder bound last [] = bound ≤ last
InOrder bound last ((s, e) ∷ xs) = (bound ≤ s) × (s < e) × InOrder e last xs

-- The same, newest first, from `first`.
abbrev Emitted : ℕ → ℕ → List Interval → Type 0
Emitted first now [] = first ≤ now
Emitted first now ((s, e) ∷ older) = (s < e) × (e ≤ now) × Emitted first s older

abbrev SilenceBy : Option ℕ → ℕ → ℕ → Type 0
SilenceBy none start now = Unit
SilenceBy (some silence) start now = (start ≤ silence) × (silence ≤ now)

-- The boundary may lie ahead or behind, but never before the start of the region.
abbrev BoundaryBy : Option ℕ → ℕ → Type 0
BoundaryBy none start = Unit
BoundaryBy (some boundary) start = start < boundary

abbrev LongestBy : Option ℕ → Type 0
LongestBy none = Unit
LongestBy (some longest) = 0 < longest

-- `TemporalVadConfig.__post_init__`, as far as order goes
pub record IsValid (cfg : TemporalVadConfig) : Type 0 where
  pub hysteresis : cfg.negative_threshold < cfg.onset_threshold
  pub longest : LongestBy cfg.max_speech_duration_us

-- The invariant of the loop: `now` is where the frames read so far end.
abbrev RunsAt : ℕ → ℕ → State → Bool → Type 0
RunsAt first now s true =
    Emitted first s.core_start s.regions
    × (s.core_start < s.core_end)
    × (s.core_end ≤ now)
    × SilenceBy s.silence_start s.core_start now
    × BoundaryBy s.max_end s.core_start
RunsAt first now s false = Emitted first now s.regions × (s.silence_start ≡ none)

abbrev Runs : ℕ → ℕ → State → Type 0
Runs first now s = RunsAt first now s s.active

Emitted-le : (first a b : ℕ) (xs : List Interval) → a ≤ b → Emitted first a xs → Emitted first b xs
Emitted-le first a b [] le h = omega arith
Emitted-le first a b ((s, e) ∷ xs) le h = (h.0, omega (arith, h.1), h.2)

emit-Emitted :
    (first now end : ℕ) (s : State)
    → s.active ≡ true
    → end ≤ now
    → s.core_start ≤ end
    → Emitted first s.core_start s.regions
    → Emitted first now (emit s end).regions
unfolding emit
emit-Emitted first now end s on le from h = elim (Bool-cases (ltb s.core_start end)) [
  | inl longer ↦ rw (on, longer) (ground arith, le, h)
  | inr not_longer ↦
      rw (on, not_longer) (Emitted-le first s.core_start now s.regions (omega arith) h)
]

limit-BoundaryBy :
    (start : ℕ) (longest : Option ℕ) → LongestBy longest → BoundaryBy (limit start longest) start
limit-BoundaryBy start none h = tt
limit-BoundaryBy start (some longest) h = omega arith

silence_from_bounds :
    (silence : Option ℕ) (start now : ℕ)
    → SilenceBy silence start now
    → start ≤ now
    → (start ≤ silence_from silence now) × (silence_from silence now ≤ now)
silence_from_bounds none start now h le = (le, omega arith)
silence_from_bounds (some silence) start now h le = h

emit-Runs :
    (first now end : ℕ) (s : State)
    → s.active ≡ true
    → end ≤ now
    → s.core_start ≤ end
    → Emitted first s.core_start s.regions
    → Runs first now (emit s end)
unfolding emit
emit-Runs first now end s on le from h =
    (unfold emit in emit-Emitted first now end s on le from h, refl)

step_active-Runs :
    (cfg : TemporalVadConfig) (first now : ℕ) (s : State) (f : Frame)
    → s.active ≡ true
    → f.start_us ≡ now
    → f.start_us < f.end_us
    → RunsAt first now s true
    → Runs first f.end_us (step_active cfg s f)
step_active-Runs cfg first now s f on at long (older, core, by, sil, bound) =
    let silence = silence_from s.silence_start f.start_us in
    let (from, until) =
      silence_from_bounds s.silence_start s.core_start f.start_us (rw at sil) (omega arith) in
    elim (Bool-cases (ltb f.probability cfg.negative_threshold)) [
      | inl low ↦ elim (Bool-cases (leb (silence + cfg.min_silence_duration_us) f.start_us)) [
        | inl closes ↦
            rw (low, closes) (emit-Runs first f.end_us silence s on (omega arith) from older)
        | inr waits ↦ rw (low, waits, on) (older, core, omega arith, (from, omega arith), bound)
      ]
      | inr high ↦ rw (high, on) (older, omega arith, omega arith, tt, bound)
    ]

step_bounded-Runs :
    (cfg : TemporalVadConfig) (first now : ℕ) (s : State) (f : Frame) (max_end : Option ℕ)
    → IsValid cfg
    → s.active ≡ true
    → s.max_end ≡ max_end
    → f.start_us ≡ now
    → f.start_us < f.end_us
    → RunsAt first now s true
    → Runs first f.end_us (step_bounded cfg s f max_end)
step_bounded-Runs cfg first now s f none valid on is at long h =
    step_active-Runs cfg first now s f on at long h
step_bounded-Runs cfg first now s f (some boundary) valid on is at long h =
    elim (Bool-cases (ltb boundary f.end_us && leb cfg.negative_threshold f.probability)) [
      | inl splits ↦
          let ahead : s.core_start < boundary = rw is at h.4 in
          rw splits (
            emit-Emitted first boundary boundary s on (omega arith) (omega arith) h.0,
            ground arith,
            omega arith,
            tt,
            limit-BoundaryBy boundary cfg.max_speech_duration_us valid.longest,
          )
      | inr goes_on ↦ rw goes_on (step_active-Runs cfg first now s f on at long h)
    ]

step_idle-Runs :
    (cfg : TemporalVadConfig) (first now : ℕ) (s : State) (f : Frame)
    → IsValid cfg
    → s.active ≡ false
    → f.start_us ≡ now
    → f.start_us < f.end_us
    → RunsAt first now s false
    → Runs first f.end_us (step_idle cfg s f)
step_idle-Runs cfg first now s f valid off at long (older, quiet) =
    elim (Bool-cases (leb cfg.onset_threshold f.probability)) [
      | inl starts ↦
          rw (starts, quiet)
            (
              Emitted-le first now f.start_us s.regions (omega arith) older,
              long,
              omega arith,
              tt,
              limit-BoundaryBy f.start_us cfg.max_speech_duration_us valid.longest,
            )
      | inr stays ↦
          rw (stays, off) (Emitted-le first now f.end_us s.regions (omega arith) older, quiet)
    ]

step_at-Runs :
    (cfg : TemporalVadConfig) (first now : ℕ) (s : State) (f : Frame) (active : Bool)
    → IsValid cfg
    → s.active ≡ active
    → f.start_us ≡ now
    → f.start_us < f.end_us
    → RunsAt first now s active
    → Runs first f.end_us (step_at cfg s f active)
step_at-Runs cfg first now s f true valid on at long h =
    step_bounded-Runs cfg first now s f s.max_end valid on refl at long h
step_at-Runs cfg first now s f false valid off at long h =
    step_idle-Runs cfg first now s f valid off at long h

step-Runs :
    (cfg : TemporalVadConfig) (first now : ℕ) (s : State) (f : Frame)
    → IsValid cfg
    → f.start_us ≡ now
    → f.start_us < f.end_us
    → Runs first now s
    → Runs first f.end_us (step cfg s f)
unfolding step
step-Runs cfg first now s f valid at long h =
    step_at-Runs cfg first now s f s.active valid refl at long h

decode-Runs :
    (cfg : TemporalVadConfig) (first now : ℕ) (s : State) (frames : List Frame)
    → IsValid cfg
    → Contiguous now frames
    → Runs first now s
    → Runs first (last_end_of now frames) (decode cfg s frames)
unfolding decode
decode-Runs cfg first now s [] valid h runs = runs
decode-Runs cfg first now s (f ∷ frames) valid h runs =
    decode-Runs cfg first f.end_us (step cfg s f) frames valid h.2
      (step-Runs cfg first now s f valid h.0 h.1 runs)

InOrder-le : (a b last : ℕ) (xs : List Interval) → a ≤ b → InOrder b last xs → InOrder a last xs
InOrder-le a b last [] le h = omega arith
InOrder-le a b last ((s, e) ∷ xs) le h = (omega (arith, h.0), h.1, h.2)

-- The list read forwards.
reverse_onto-InOrder :
    (first now last : ℕ) (older acc : List Interval)
    → Emitted first now older
    → InOrder now last acc
    → InOrder first last (reverse_onto older acc)
unfolding reverse_onto
reverse_onto-InOrder first now last [] acc h k = InOrder-le first now last acc h k
reverse_onto-InOrder first now last ((s, e) ∷ older) acc h k =
    reverse_onto-InOrder first s last older ((s, e) ∷ acc) h.2
      (le_refl s, h.0, InOrder-le e now last acc h.1 k)

finish_at-Emitted :
    (first now : ℕ) (s : State) (active : Bool)
    → s.active ≡ active
    → RunsAt first now s active
    → Emitted first now (finish_at s active).regions
finish_at-Emitted first now s true on (older, core, by, sil, bound) =
    emit-Emitted first now s.core_end s on by (omega arith) older
finish_at-Emitted first now s false off (older, quiet) = older

-- For a valid policy, the core regions of contiguous non-empty frames are non-empty, in order,
-- disjoint, and inside the timeline of the frames.
pub core_regions-InOrder :
    (cfg : TemporalVadConfig) (start : ℕ) (frames : List Frame)
    → IsValid cfg
    → Contiguous start frames
    → InOrder start (last_end_of start frames) (core_regions cfg frames)
unfolding core_regions
core_regions-InOrder cfg start frames valid h =
    let s = decode cfg (idle []) frames in
    let end = last_end_of start frames in
    let runs = decode-Runs cfg start start (idle []) frames valid h (le_refl start, refl) in
    reverse_onto-InOrder start end end (finish_at s s.active).regions []
      (finish_at-Emitted start end s s.active refl runs) (le_refl end)
