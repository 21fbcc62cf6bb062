-- ===== src/RecordingScore/Derived.antt =====
-- src/sddiar/evaluation.py: `_derive_change_boundaries`, over all channels, gives exactly the
-- changes of the channels.
use Prim.Native.String.{String}
use sddiar.Base.{
  ℕ, ◌≡◌, refl, sym, ap, subst, ◌∙◌, inl, inr, Bool, true, ◌||◌, none, List, [], ◌∷◌, ◌++◌, map,
  any, sum_of, All, All_imp, All_of, Bool-cases, ltb, leb, ◌==◌, arith,
}
use sddiar.Base.Sort.{sort, any-sort}
use sddiar.Intervals.{Interval}
use sddiar.Scoring.{sorted_set}
use sddiar.Scoring.SortedSet.{Ascends, sorted_set-Ascends, sorted_set-All}
use sddiar.DiarizationError.{str_le}
use sddiar.TimelineCells.{RttmRecord}
use sddiar.TimelineCells.Whole.{is_among, is_among-sorted_set, head_first}
use sddiar.RecordingScore.{Channels}
use sddiar.RecordingScore.Changes.{
  HeapEntry, Sweep, sweep_points, speakers_of_channel, channel_changes, all_changes,
  derive_change_boundaries, ends_of,
}
use sddiar.RecordingScore.Inside.{some_start}
use sddiar.RecordingScore.Latest.{is_end, AreEnds, IsBelow}
use sddiar.RecordingScore.Prior.{IsReady, held}
use sddiar.RecordingScore.Exact.{
  IsExact, AreCovered, sweep_points-IsExact, sweep_points-among, is_among-map, All-is_among,
  IsChange, at_start, elsewhere,
}

All_mapped :
    {A B : Type 0} (f : A → B) (P : B → Type 0) (xs : List A)
    → All (λ x. P (f x)) xs
    → All P (map f xs)
All_mapped f P [] h = tt
All_mapped f P (x ∷ xs) (first, h) = (first, All_mapped f P xs h)

module _ (records : List RttmRecord) where
  abbrev first_sweep : Sweep
  first_sweep = record {
    ordered_ends = ends_of records;
    latest_end_speakers = [];
    active = [];
    active_heap = [];
  }

  abbrev starts : List ℕ
  starts = sorted_set (map (λ (r : RttmRecord). r.start_us) records)

  abbrev all_ends : List ℕ
  all_ends = sorted_set (map (λ (r : RttmRecord). r.end_us) records)

  none_held_yet :
      (point : ℕ) (size : HeapEntry → ℕ) (some_records : List RttmRecord)
      → All (λ (r : RttmRecord). leb point r.start_us ≡ true) some_records
      → 0 ≡ sum_of (held point size) some_records
  none_held_yet point size [] h = refl
  none_held_yet point size (r ∷ some_records) (first, h) =
      ground (arith, none_held_yet point size some_records h, first)

  all_ends-AreEnds : AreEnds records none all_ends
  all_ends-AreEnds =
      let ends = map (λ (r : RttmRecord). r.end_us) records in
      (
        sorted_set-Ascends ends,
        All_of (IsBelow none) (λ e. tt) all_ends,
        sorted_set-All (λ e. is_end records e ≡ true) ends
            (All_mapped (λ (r : RttmRecord). r.end_us) (λ e. is_end records e ≡ true) records
              (All_imp (λ (r : RttmRecord). is_among r.end_us ends ≡ true)
                (λ (r : RttmRecord). is_end records r.end_us ≡ true) records
                (λ r h. sym (is_among-map (λ (x : RttmRecord). x.end_us) r.end_us records) ∙ h)
                (All-is_among (λ (r : RttmRecord). r.end_us) records))),
        tt,
        All_imp (λ (r : RttmRecord). is_among r.end_us ends ≡ true)
            (λ (r : RttmRecord). is_among r.end_us all_ends ≡ true) records
            (λ r h. is_among-sorted_set r.end_us ends ∙ h)
            (All-is_among (λ (r : RttmRecord). r.end_us) records),
      )

  first_sweep-IsReady :
      (point : ℕ)
      → All (λ (r : RttmRecord). leb point r.start_us ≡ true) records
      → IsReady records point first_sweep
  first_sweep-IsReady point h = (
    tt,
    (tt, λ l. refl),
    λ size. none_held_yet point size records h,
    none,
    all_ends,
    refl,
    refl,
    tt,
    all_ends-AreEnds,
  )

  among_starts : (x : ℕ) → is_among x starts ≡ some_start records x
  among_starts x =
      is_among-sorted_set x (map (λ (r : RttmRecord). r.start_us) records)
      ∙ is_among-map (λ (r : RttmRecord). r.start_us) x records

  -- All starts are among the points, and so none is before the first.
  starts_covered :
      (point : ℕ) (points : List ℕ)
      → point ∷ points ≡ starts
      → AreCovered [] records point (point ∷ points)
        × All (λ (r : RttmRecord). leb point r.start_us ≡ true) records
  starts_covered point points same =
      let known = λ (r : RttmRecord). is_among r.start_us (point ∷ points) ≡ true in
      let all_known : All known records =
        All_imp
          (λ (r : RttmRecord).
            is_among r.start_us (map (λ (x : RttmRecord). x.start_us) records) ≡ true)
          known records
          (λ r h.
            ap (is_among r.start_us) same
            ∙ is_among-sorted_set r.start_us (map (λ (x : RttmRecord). x.start_us) records)
            ∙ h)
          (All-is_among (λ (r : RttmRecord). r.start_us) records) in
      let ascends = subst Ascends (sym same) (sorted_set-Ascends _) in
      (
        All_imp known (λ r. (ltb r.start_us point || is_among r.start_us (point ∷ points)) ≡ true)
            records (λ r h. ground (arith, h)) all_known,
        All_imp known (λ r. leb point r.start_us ≡ true) records
            (λ r h. head_first point r.start_us points ascends.0 h) all_known,
      )

  module _ (uem : Channels) where
    starts-AreExact :
        (points : List ℕ)
        → points ≡ starts
        → All (λ p. IsExact uem records p (sweep_points uem records first_sweep points)) points
    starts-AreExact [] same = tt
    starts-AreExact (point ∷ points) same =
        let (covered, early) = starts_covered point points same in
        sweep_points-IsExact uem records point points first_sweep
          (subst Ascends (sym same) (sorted_set-Ascends _)) covered
          (first_sweep-IsReady point early)

    found_among :
        (x : ℕ) (changes points : List ℕ)
        → is_among x points ≡ true
        → All (λ p. IsExact uem records p changes) points
        → IsExact uem records x changes
    found_among x changes [] found h = cc
    found_among x changes (p ∷ points) found (first, h) = elim (Bool-cases (p == x)) [
      | inl here ↦ subst (λ (y : ℕ). IsExact uem records y changes) (ground (arith, here)) first
      | inr there ↦ found_among x changes points (ground (arith, there, found)) h
    ]

    pub starts-IsChange :
        (x : ℕ) → IsChange uem records x (is_among x (sweep_points uem records first_sweep starts))
    starts-IsChange x = elim (Bool-cases (some_start records x)) [
      | inl start ↦
          let (prior, is, exact) =
            found_among x (sweep_points uem records first_sweep starts) starts
              (among_starts x ∙ start) (starts-AreExact starts refl) in
          subst (IsChange uem records x) (sym exact) (at_start prior start is)
      | inr other ↦
          subst (IsChange uem records x)
            (sym (sweep_points-among uem records x starts first_sweep (among_starts x ∙ other)))
            (elsewhere other)
    ]

module _ (is_speaker : String → Bool) (records : List RttmRecord) where
  -- Whether an instant is a change of a channel, by the records of its speakers on the channel
  abbrev pub IsChannelChange : ℕ → String × List Interval → Type 0
  IsChannelChange x c =
      IsChange (c ∷ []) (speakers_of_channel is_speaker records c.0) x
        (is_among x (channel_changes is_speaker records c))

  channel_changes-IsChange : (x : ℕ) (c : String × List Interval) → IsChannelChange x c
  unfolding channel_changes
  channel_changes-IsChange x c =
      starts-IsChange (speakers_of_channel is_speaker records c.0) (c ∷ []) x

  is_among-append :
      (x : ℕ) (xs ys : List ℕ) → is_among x (xs ++ ys) ≡ (is_among x xs || is_among x ys)
  is_among-append x [] ys = refl
  is_among-append x (y ∷ xs) ys = ground (arith, is_among-append x xs ys)

  is_among-all_changes :
      (x : ℕ) (uem : Channels)
      → is_among x (all_changes is_speaker records uem)
        ≡ any (λ c. is_among x (channel_changes is_speaker records c)) uem
  is_among-all_changes x [] = refl
  is_among-all_changes x (c ∷ uem) =
      is_among-append x (channel_changes is_speaker records c) (all_changes is_speaker records uem)
      ∙ ap (λ (b : Bool). is_among x (channel_changes is_speaker records c) || b)
          (is_among-all_changes x uem)

  -- The derived changes ascend strictly; an instant is a change exactly if it is one of a channel; and
  -- it is one of a channel exactly if a speaker of the side starts there, inside the intervals of
  -- the channel, who is not among the speakers before, and there are some: those of the records of the channel that
  -- started earlier and last up to the instant, or else those whose records have the latest end.
  pub derive_change_boundaries-AreChanges :
      (uem : Channels) (x : ℕ)
      → Ascends (derive_change_boundaries is_speaker records uem)
        × (is_among x (derive_change_boundaries is_speaker records uem)
            ≡ any (λ c. is_among x (channel_changes is_speaker records c)) uem)
        × All (IsChannelChange x) uem
  unfolding derive_change_boundaries
  derive_change_boundaries-AreChanges uem x =
      let le = λ (c d : String × List Interval). str_le c.0 d.0 in
      (
        sorted_set-Ascends (all_changes is_speaker records (sort le uem)),
        is_among-sorted_set x (all_changes is_speaker records (sort le uem))
            ∙ is_among-all_changes x (sort le uem)
            ∙ any-sort le (λ c. is_among x (channel_changes is_speaker records c)) uem,
        All_of (IsChannelChange x) (channel_changes-IsChange x) uem,
      )
