-- ===== src/RecordingScore/Exact.antt =====
-- src/sddiar/evaluation.py: the derived speaker changes are exactly the starts inside the UEM of a
-- speaker who is not among the speakers before.
use Prim.Native.String.{String}
use sddiar.Base.{
  ℕ, ◌<◌, ◌≡◌, refl, ap, inl, inr, Bool, true, false, ◌&&◌, ◌||◌, List, [], ◌∷◌, map, any, All,
  All_imp, Bool-cases, ltb, leb, ◌==◌, if◌then◌else◌, arith,
}
use sddiar.Scoring.SortedSet.{Ascends}
use sddiar.TimelineCells.{RttmRecord}
use sddiar.TimelineCells.Whole.{is_among, head_first}
use sddiar.RecordingScore.{Channels, inside_uem}
use sddiar.RecordingScore.Changes.{
  Sweep, advance, prior_of, starting_at, is_change, started, sweep_points,
}
use sddiar.RecordingScore.Inside.{some_start}
use sddiar.RecordingScore.Prior.{IsPrior, IsReady, advance-IsPrior, started-IsReady}

module _ (uem : Channels) (records : List RttmRecord) where
  -- Whether a point is a change, by the speakers before it
  abbrev pub IsExact : ℕ → List ℕ → Type 0
  IsExact point changes =
      (prior : List String) × IsPrior records point prior
      × (is_among point changes
          ≡ (is_change (starting_at point records) prior && inside_uem point uem))

  sweep_points-after :
      (a : ℕ) (s : Sweep) (points : List ℕ)
      → All (λ y. a < y) points
      → is_among a (sweep_points uem records s points) ≡ false
  unfolding sweep_points
  sweep_points-after a s [] h = refl
  sweep_points-after a s (point ∷ points) (first, h) =
      let rest =
        sweep_points-after a (started (starting_at point records) (advance point s)) points h in
      elim (Bool-cases (
        is_change (starting_at point records) (prior_of (advance point s))
        && inside_uem point uem)) [
          | inl found ↦ rw found (ground (arith, rest, first))
          | inr none_found ↦ rw none_found rest
        ]

  -- Every start is before the point or among the points.
  abbrev pub AreCovered : ℕ → List ℕ → Type 0
  AreCovered point points =
      All (λ (r : RttmRecord). (ltb r.start_us point || is_among r.start_us points) ≡ true) records

  covered_between :
      (point next start : ℕ) (points : List ℕ)
      → All (λ y. point < y) (next ∷ points)
      → All (λ y. next < y) points
      → (ltb start point || is_among start (point ∷ next ∷ points)) ≡ true
      → ((leb start point || leb next start) ≡ true)
        × ((ltb start next || is_among start (next ∷ points)) ≡ true)
  covered_between point next start points (lt, above) later h =
      elim (Bool-cases (is_among start (next ∷ points))) [
        | inl found ↦
            let low = head_first next start points later found in
            (ground (arith, low), ground (arith, found))
        | inr other ↦ (ground (arith, h, other), ground (arith, h, other, lt))
      ]

  -- A point that is a change is put before the later ones.
  abbrev with_point : Bool → ℕ → List ℕ → List ℕ
  with_point test point rest = if test then point ∷ rest else rest

  IsExact-with_point :
      (test : Bool) (point : ℕ) (rest points : List ℕ)
      → All (λ y. point < y) points
      → All (λ p. IsExact p rest) points
      → All (λ p. IsExact p (with_point test point rest)) points
  IsExact-with_point test point rest [] later h = tt
  IsExact-with_point true point rest (q ∷ points) (lt, later) ((prior, is, exact), h) =
      ((prior, is, ground (arith, exact, lt)), IsExact-with_point true point rest points later h)
  IsExact-with_point false point rest (q ∷ points) (lt, later) (first, h) =
      (first, IsExact-with_point false point rest points later h)

  is_among-with_point :
      (test : Bool) (point : ℕ) (rest : List ℕ)
      → is_among point rest ≡ false
      → is_among point (with_point test point rest) ≡ test
  is_among-with_point true point rest h = ground arith
  is_among-with_point false point rest h = h

  step-IsExact :
      (point : ℕ) (points : List ℕ) (s : Sweep)
      → All (λ y. point < y) points
      → IsReady records point s
      → All
          (λ p. IsExact p (
            sweep_points uem records
              (started (starting_at point records) (advance point s))
              points))
          points
      → All (λ p. IsExact p (sweep_points uem records s (point ∷ points))) (point ∷ points)
  unfolding sweep_points
  step-IsExact point points s later ready tail =
      let starting = starting_at point records in
      let now = advance point s in
      let test = is_change starting (prior_of now) && inside_uem point uem in
      let rest = sweep_points uem records (started starting now) points in
      (
        (
          prior_of now,
          advance-IsPrior records point s ready,
          is_among-with_point test point rest
              (sweep_points-after point (started starting now) points later),
        ),
        IsExact-with_point test point rest points later tail,
      )

  pub sweep_points-IsExact :
      (point : ℕ) (points : List ℕ) (s : Sweep)
      → Ascends (point ∷ points)
      → AreCovered point (point ∷ points)
      → IsReady records point s
      → All (λ p. IsExact p (sweep_points uem records s (point ∷ points))) (point ∷ points)
  sweep_points-IsExact point [] s (later, ascends) covered ready =
      step-IsExact point [] s later ready tt
  sweep_points-IsExact point (next ∷ points) s (later, ascends) covered ready =
      let known = λ (r : RttmRecord).
        (ltb r.start_us point || is_among r.start_us (point ∷ next ∷ points)) ≡ true in
      let between =
        All_imp known (λ r. (leb r.start_us point || leb next r.start_us) ≡ true) records
          (λ r h. (covered_between point next r.start_us points later ascends.0 h).0) covered in
      let covered_next =
        All_imp known (λ r. (ltb r.start_us next || is_among r.start_us (next ∷ points)) ≡ true)
          records (λ r h. (covered_between point next r.start_us points later ascends.0 h).1)
          covered in
      step-IsExact point (next ∷ points) s later ready (
        sweep_points-IsExact next points (started (starting_at point records) (advance point s))
          ascends covered_next (started-IsReady records point next s later.0 between ready))

  pub sweep_points-among :
      (x : ℕ) (points : List ℕ) (s : Sweep)
      → is_among x points ≡ false
      → is_among x (sweep_points uem records s points) ≡ false
  unfolding sweep_points
  sweep_points-among x [] s h = refl
  sweep_points-among x (point ∷ points) s h =
      let rest =
        sweep_points-among x points (started (starting_at point records) (advance point s))
          (ground (arith, h)) in
      elim (Bool-cases (
        is_change (starting_at point records) (prior_of (advance point s))
        && inside_uem point uem)) [
          | inl found ↦ rw found (ground (arith, h, rest))
          | inr none_found ↦ rw none_found rest
        ]

module _ {A : Type 0} (f : A → ℕ) where
  pub is_among-map : (x : ℕ) (xs : List A) → is_among x (map f xs) ≡ any (λ y. f y == x) xs
  is_among-map x [] = refl
  is_among-map x (y ∷ xs) = ap (λ (b : Bool). (f y == x) || b) (is_among-map x xs)

  pub All-is_among : (xs : List A) → All (λ x. is_among (f x) (map f xs) ≡ true) xs
  All-is_among [] = tt
  All-is_among (x ∷ xs) = (
    ground arith,
    All_imp (λ y. is_among (f y) (map f xs) ≡ true) (λ y. is_among (f y) (map f (x ∷ xs)) ≡ true) xs
        (λ y h. ground (arith, h)) (All-is_among xs),
  )

-- Whether an instant is a change: a start inside the UEM of a speaker who is not among those before,
-- if there are any.
pub data IsChange (uem : Channels) (records : List RttmRecord) (point : ℕ) : Bool → Type 0 where
  at_start :
      (prior : List String)
      → some_start records point ≡ true
      → IsPrior records point prior
      → IsChange uem records point
          (is_change (starting_at point records) prior && inside_uem point uem)
  elsewhere : some_start records point ≡ false → IsChange uem records point false
