-- ===== src/Scoring/Collar.antt =====
-- The forgiveness collar of src/sddiar/evaluation.py: `_apply_collar` removes exactly the instants
-- near a boundary.
use sddiar.Base.{
  ℕ, ◌+◌, ◌<◌, Bool, false, not, ◌&&◌, ◌≡◌, ◌∙◌, ap, refl, List, [], ◌∷◌, ok, ltb, leb, any, arith,
}
use sddiar.Base.Sort.{sort, any-sort}
use sddiar.Intervals.{Interval, covers}
use sddiar.Scoring.{dedup_sorted, sorted_set, exclusions, apply_collar}
use sddiar.Scoring.Regions.{is_void, covers-subtract_intervals, subtract_intervals_total}

-- Whether `t` lies less than `collar` after, or at most `collar` before, one of the points.
abbrev pub near : ℕ → ℕ → List ℕ → Bool
near t collar points = any (λ p. leb p (t + collar) && ltb t (p + collar)) points

covers-exclusions :
    (t collar : ℕ) (points : List ℕ) → covers t (exclusions collar points) ≡ near t collar points
unfolding exclusions
covers-exclusions t collar [] = refl
covers-exclusions t collar (p ∷ points) = ground (arith, covers-exclusions t collar points)

near-dedup_sorted :
    (t collar : ℕ) (points : List ℕ) → near t collar (dedup_sorted points) ≡ near t collar points
unfolding dedup_sorted
near-dedup_sorted t collar [] = refl
near-dedup_sorted t collar (x ∷ []) = refl
near-dedup_sorted t collar (x ∷ y ∷ rest) = ground (arith, near-dedup_sorted t collar (y ∷ rest))

near-sorted_set :
    (t collar : ℕ) (points : List ℕ) → near t collar (sorted_set points) ≡ near t collar points
unfolding sorted_set
near-sorted_set t collar points =
    near-dedup_sorted t collar (sort leb points)
    ∙ any-sort leb (λ p. leb p (t + collar) && ltb t (p + collar)) points

exclusions-is_void :
    (collar : ℕ) (points : List ℕ) → 0 < collar → any is_void (exclusions collar points) ≡ false
unfolding exclusions
exclusions-is_void collar [] h = refl
exclusions-is_void collar (p ∷ points) h = ground (arith, exclusions-is_void collar points h)

-- With a positive collar the scorer never fails, and the instants that it scores are those of
-- the UEM that lie near no boundary; the boundary times count as a set, in any order and with
-- repetitions.
pub covers-apply_collar :
    (collar : ℕ) (uem : List Interval) (boundaries : List ℕ)
    → 0 < collar
    → (out : List Interval) × (apply_collar uem boundaries collar ≡ ok out)
      × ((t : ℕ) → covers t out ≡ (covers t uem && not (near t collar boundaries)))
unfolding apply_collar
covers-apply_collar collar uem [] h = (uem, refl, λ t. ground arith)
covers-apply_collar collar uem (b ∷ bs) h =
    let cuts = exclusions collar (sorted_set (b ∷ bs)) in
    let (out, e) =
      subtract_intervals_total uem cuts (exclusions-is_void collar (sorted_set (b ∷ bs)) h) in
    (
      out,
      ground arith,
      λ t.
          covers-subtract_intervals t uem cuts out e
          ∙ ap (λ (x : Bool). covers t uem && not x)
              (covers-exclusions t collar (sorted_set (b ∷ bs))
                ∙ near-sorted_set t collar (b ∷ bs)),
    )
