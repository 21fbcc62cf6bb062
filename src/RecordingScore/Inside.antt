-- ===== src/RecordingScore/Inside.antt =====
-- The derived speaker changes are starts of speakers inside the UEM.
use Prim.Native.String.{String}
use text.Mathlib.Text.{◌==◌ as str_eq}
use sddiar.Base.{
  ℕ, ◌≡◌, refl, sym, ◌∙◌, inl, inr, Bool, true, ◌&&◌, List, [], ◌∷◌, any, keep_if, All, All-append,
  Bool-cases, ◌==◌, arith,
}
use sddiar.Base.Sort.{sort, any-sort}
use sddiar.Intervals.{Interval}
use sddiar.Scoring.SortedSet.{Ascends, sorted_set-Ascends, sorted_set-All}
use sddiar.DiarizationError.{str_le}
use sddiar.TimelineCells.{RttmRecord}
use sddiar.RecordingScore.{Channels, inside_uem}
use sddiar.RecordingScore.Changes.{
  Sweep, advance, prior_of, starting_at, is_change, started, sweep_points, speakers_of_channel,
  channel_changes, all_changes, derive_change_boundaries,
}

-- A speaker of a list starts at the point.
abbrev pub some_start : List RttmRecord → ℕ → Bool
some_start records point = any (λ (r : RttmRecord). r.start_us == point) records

starting_at-some_start :
    (point : ℕ) (records : List RttmRecord) (test : RttmRecord → Bool)
    → any test (starting_at point records) ≡ true
    → some_start records point ≡ true
unfolding keep_if
starting_at-some_start point [] test h = h
starting_at-some_start point (r ∷ records) test h =
    ground (arith, starting_at-some_start point records test, h)

-- A change of the channel: inside its intervals, and a start of one of the records.
abbrev IsStart : Channels → List RttmRecord → ℕ → Type 0
IsStart uem records point = (inside_uem point uem ≡ true) × (some_start records point ≡ true)

both_true : (a b : Bool) → (a && b) ≡ true → (a ≡ true) × (b ≡ true)
both_true a b h = (ground (arith, h), ground (arith, h))

sweep_points-IsStart :
    (uem : Channels) (records : List RttmRecord) (s : Sweep) (points : List ℕ)
    → All (IsStart uem records) (sweep_points uem records s points)
unfolding sweep_points
sweep_points-IsStart uem records s [] = tt
sweep_points-IsStart uem records s (point ∷ points) =
    let starting = starting_at point records in
    let rest = sweep_points-IsStart uem records (started starting (advance point s)) points in
    elim (Bool-cases (is_change starting (prior_of (advance point s)) && inside_uem point uem)) [
      | inl found ↦
          let (change, inside) = both_true _ _ found in
          let (some_prior, new) = both_true _ _ change in
          rw found ((inside, starting_at-some_start point records _ new), rest)
      | inr none_found ↦ rw none_found rest
    ]

any-filtered :
    (test keep : RttmRecord → Bool) (records : List RttmRecord)
    → any test (keep_if keep records) ≡ any (λ r. keep r && test r) records
unfolding keep_if
any-filtered test keep [] = refl
any-filtered test keep (r ∷ records) = ground (arith, any-filtered test keep records)

any-implied :
    (channel : String) (is_speaker : String → Bool) (point : ℕ) (records : List RttmRecord)
    → any
        (λ (r : RttmRecord).
          (str_eq r.channel channel && is_speaker r.speaker_id) && (r.start_us == point))
        records
      ≡ true
    → any (λ (r : RttmRecord). is_speaker r.speaker_id && (r.start_us == point)) records ≡ true
any-implied channel is_speaker point [] h = h
any-implied channel is_speaker point (r ∷ records) h =
    ground (arith, any-implied channel is_speaker point records, h)

module _ (is_speaker : String → Bool) (records : List RttmRecord) where
  -- An instant of the UEM at which a speaker of the side starts.
  abbrev pub IsSpeakerStart : Channels → ℕ → Type 0
  IsSpeakerStart uem point =
      (inside_uem point uem ≡ true)
      × (any (λ (r : RttmRecord). is_speaker r.speaker_id && (r.start_us == point)) records ≡ true)

  start_of_speaker :
      (channel : String) (point : ℕ)
      → some_start (speakers_of_channel is_speaker records channel) point ≡ true
      → any (λ (r : RttmRecord). is_speaker r.speaker_id && (r.start_us == point)) records ≡ true
  start_of_speaker channel point h =
      any-implied channel is_speaker point records
        (sym (any-sort _ _ (keep_if _ records) ∙ any-filtered _ _ records) ∙ h)

  All-IsSpeakerStart :
      (uem : Channels) (c : String × List Interval) (points : List ℕ)
      → All (IsStart (c ∷ []) (speakers_of_channel is_speaker records c.0)) points
      → All (IsSpeakerStart (c ∷ uem)) points
  All-IsSpeakerStart uem c [] h = tt
  All-IsSpeakerStart uem c (p ∷ points) ((inside, start), h) =
      ((ground (arith, inside), start_of_speaker c.0 p start), All-IsSpeakerStart uem c points h)

  All-weaken :
      (uem : Channels) (c : String × List Interval) (points : List ℕ)
      → All (IsSpeakerStart uem) points
      → All (IsSpeakerStart (c ∷ uem)) points
  All-weaken uem c [] h = tt
  All-weaken uem c (p ∷ points) ((inside, start), h) =
      ((ground (arith, inside), start), All-weaken uem c points h)

  all_changes-IsSpeakerStart :
      (uem : Channels) → All (IsSpeakerStart uem) (all_changes is_speaker records uem)
  unfolding channel_changes
  all_changes-IsSpeakerStart [] = tt
  all_changes-IsSpeakerStart (c ∷ uem) =
      All-append (IsSpeakerStart (c ∷ uem)) (channel_changes is_speaker records c)
        (all_changes is_speaker records uem)
        (All-IsSpeakerStart uem c _
          (sweep_points-IsStart (c ∷ []) (speakers_of_channel is_speaker records c.0) _ _))
        (All-weaken uem c (all_changes is_speaker records uem) (all_changes-IsSpeakerStart uem))

  All-sorted :
      (uem sorted : Channels) (points : List ℕ)
      → ((p : ℕ) → inside_uem p sorted ≡ inside_uem p uem)
      → All (IsSpeakerStart sorted) points
      → All (IsSpeakerStart uem) points
  All-sorted uem sorted [] same h = tt
  All-sorted uem sorted (p ∷ points) same ((inside, start), h) =
      ((sym (same p) ∙ inside, start), All-sorted uem sorted points same h)

  -- The derived changes ascend strictly, and each is an instant of the UEM at which a speaker of the
  -- side starts.
  pub derive_change_boundaries-AreStarts :
      (uem : Channels)
      → Ascends (derive_change_boundaries is_speaker records uem)
        × All (IsSpeakerStart uem) (derive_change_boundaries is_speaker records uem)
  unfolding derive_change_boundaries
  derive_change_boundaries-AreStarts uem =
      let le = λ (x y : String × List Interval). str_le x.0 y.0 in
      let changes = all_changes is_speaker records (sort le uem) in
      (
        sorted_set-Ascends changes,
        sorted_set-All (IsSpeakerStart uem) changes (
            All-sorted uem (sort le uem) changes (λ p. any-sort le _ uem)
              (all_changes-IsSpeakerStart (sort le uem))),
      )
