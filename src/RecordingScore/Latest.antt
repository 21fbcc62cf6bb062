-- ===== src/RecordingScore/Latest.antt =====
-- src/sddiar/evaluation.py: the ends that `_derive_change_boundaries` passes, and the speakers of
-- the latest of them.
use Prim.Native.String.{String}
use sddiar.Base.{
  ℕ, ◌≤◌, ◌<◌, ◌≡◌, refl, inl, inr, Bool, true, false, ◌||◌, Option, none, some, List, [], ◌∷◌, map,
  any, All, All_imp, Bool-cases, ltb, leb, ◌==◌, arith,
}
use sddiar.Scoring.SortedSet.{Ascends, All-lt_trans}
use sddiar.TimelineCells.{RttmRecord}
use sddiar.RecordingScore.Changes.{speakers_ending, pass_ends}

module _ (records : List RttmRecord) where
  abbrev pub with_speakers : ℕ → ℕ × List String
  with_speakers end = (end, speakers_ending end records)

  abbrev pub latest_speakers : Option ℕ → List String
  latest_speakers none = []
  latest_speakers (some end) = speakers_ending end records

  abbrev pub is_end : ℕ → Bool
  is_end time = any (λ (r : RttmRecord). r.end_us == time) records

-- At most the latest end
abbrev pub is_passed : Option ℕ → ℕ → Bool
is_passed none time = false
is_passed (some end) time = leb time end

abbrev pub IsBelow : Option ℕ → ℕ → Type 0
IsBelow none time = Unit
IsBelow (some end) time = end < time

abbrev pub IsUpTo : ℕ → Option ℕ → Type 0
IsUpTo point none = Unit
IsUpTo point (some end) = end ≤ point

abbrev pub among : ℕ → List ℕ → Bool
among time times = any (λ y. y == time) times

module _ (records : List RttmRecord) where
  abbrev pub IsSomeEnd : Option ℕ → Type 0
  IsSomeEnd none = Unit
  IsSomeEnd (some end) = is_end records end ≡ true

  -- The latest end that is passed and the ends that are to come: no other.
  abbrev pub AreEnds : Option ℕ → List ℕ → Type 0
  AreEnds latest ends =
      Ascends ends
      × All (IsBelow latest) ends
      × All (λ e. is_end records e ≡ true) ends
      × IsSomeEnd latest
      × All (λ (r : RttmRecord). (is_passed latest r.end_us || among r.end_us ends) ≡ true) records

  next_end :
      (latest : Option ℕ) (end time : ℕ) (ends : List ℕ)
      → IsBelow latest end
      → (is_passed latest time || among time (end ∷ ends)) ≡ true
      → (is_passed (some end) time || among time ends) ≡ true
  next_end none end time ends below h = ground (arith, h)
  next_end (some m) end time ends below h = ground (arith, h, below)

  AreEnds-next :
      (latest : Option ℕ) (end : ℕ) (ends : List ℕ)
      → AreEnds latest (end ∷ ends)
      → AreEnds (some end) ends
  AreEnds-next latest end ends ((above, ascends), (below, _), (is, ends_too), _, seen) = (
    ascends,
    above,
    ends_too,
    is,
    All_imp (λ (r : RttmRecord). (is_passed latest r.end_us || among r.end_us (end ∷ ends)) ≡ true)
        (λ (r : RttmRecord). (is_passed (some end) r.end_us || among r.end_us ends) ≡ true) records
        (λ r known. next_end latest end r.end_us ends below known) seen,
  )

  pub pass_ends-AreEnds :
      (point : ℕ) (latest : Option ℕ) (ends : List ℕ)
      → IsUpTo point latest
      → AreEnds latest ends
      → (now : Option ℕ) × (left : List ℕ) × (pass_ends point
            (latest_speakers records latest)
            (map (with_speakers records) ends)
          ≡ (latest_speakers records now, map (with_speakers records) left))
        × IsUpTo point now
        × AreEnds now left
        × All (λ e. point < e) left
  pass_ends-AreEnds point latest [] up h = (latest, [], refl, up, h, tt)
  pass_ends-AreEnds point latest (end ∷ ends) up h = elim (Bool-cases (leb end point)) [
    | inl over ↦
        let (now, left, same, up_now, known, after) =
          pass_ends-AreEnds point (some end) ends (ground (arith, over))
            (AreEnds-next latest end ends h) in
        (now, left, rw over same, up_now, known, after)
    | inr later ↦ (
      latest,
      end ∷ ends,
      rw later refl,
      up,
      h,
      (ground (arith, later), All-lt_trans point end ends (ground (arith, later)) h.0.0),
    )
  ]

  -- With no end up to the point that is later
  abbrev pub IsLatest : ℕ → Option ℕ → Type 0
  IsLatest point now =
      IsUpTo point now
      × IsSomeEnd now
      × All (λ (r : RttmRecord). (is_passed now r.end_us || ltb point r.end_us) ≡ true) records

  later_end :
      (point time : ℕ) (now : Option ℕ) (ends : List ℕ)
      → All (λ e. point < e) ends
      → (is_passed now time || among time ends) ≡ true
      → (is_passed now time || ltb point time) ≡ true
  later_end point time now [] after h = ground (arith, h)
  later_end point time now (e ∷ ends) (first, after) h = elim (Bool-cases (e == time)) [
    | inl here ↦ ground (arith, first, here)
    | inr there ↦ later_end point time now ends after (ground (arith, there, h))
  ]

  pub AreEnds-IsLatest :
      (point : ℕ) (now : Option ℕ) (ends : List ℕ)
      → IsUpTo point now
      → AreEnds now ends
      → All (λ e. point < e) ends
      → IsLatest point now
  AreEnds-IsLatest point now ends up (ascends, below, are, is, seen) after = (
    up,
    is,
    All_imp (λ (r : RttmRecord). (is_passed now r.end_us || among r.end_us ends) ≡ true)
        (λ (r : RttmRecord). (is_passed now r.end_us || ltb point r.end_us) ≡ true) records
        (λ r known. later_end point r.end_us now ends after known) seen,
  )
