-- ===== src/Scoring/Tests.antt =====
-- Runs of the scorer's interval algebra and boundary matching, and instances of their theorems.
use sddiar.Base.{
  ℕ, ◌+◌, ◌≤◌, ◌<◌, ◌≡◌, refl, true, false, not, ◌&&◌, List, [], ◌∷◌, ok, err, evaluation, arith,
  length,
}
use sddiar.Intervals.{Interval, covers}
use sddiar.Scoring.{
  merge_intervals, merge_loop, cut_one, cut_all, subtract_intervals, exclusions, sorted_set,
  dedup_sorted, apply_collar,
}
use sddiar.Scoring.Collar.{near, covers-apply_collar}
use sddiar.Scoring.Boundaries.{greedy, score_boundaries}
use sddiar.Scoring.Boundaries.Optimal.{
  Matching, done, skip_ref, pair, AreMatched, score_boundaries_maximal,
}

abbrev turns : List Interval
turns = (40, 60) ∷ (0, 10) ∷ (10, 25) ∷ (55, 70) ∷ []

-- Touching intervals are joined.
merge_run : merge_intervals turns ≡ ok ((0, 25) ∷ (40, 70) ∷ [])
unfolding merge_intervals merge_loop sddiar.Base.Sort.sort sddiar.Base.reverse_onto
merge_run = refl

merge_empty : merge_intervals ((5, 5) ∷ []) ≡ err evaluation
unfolding merge_intervals merge_loop sddiar.Base.Sort.sort
merge_empty = refl

subtract_run : subtract_intervals ((0, 30) ∷ (50, 90) ∷ []) turns ≡ ok ((25, 30) ∷ (70, 90) ∷ [])
unfolding subtract_intervals merge_intervals merge_loop cut_all cut_one sddiar.Base.Sort.sort
    sddiar.Base.reverse_onto
subtract_run = refl

collar_run : apply_collar ((0, 100) ∷ []) (90 ∷ 2 ∷ 90 ∷ []) 5 ≡ ok ((7, 85) ∷ (95, 100) ∷ [])
unfolding apply_collar subtract_intervals merge_intervals merge_loop cut_all cut_one exclusions
    sorted_set dedup_sorted sddiar.Base.Sort.sort sddiar.Base.reverse_onto
collar_run = refl

-- 31 and 29 both lie near 30, and only one of them counts.
boundaries_run :
    score_boundaries (10 ∷ 30 ∷ 50 ∷ []) (31 ∷ 12 ∷ 29 ∷ 12 ∷ []) 2
    ≡ record { true_positives = 2; false_positives = 1; false_negatives = 1 }
unfolding score_boundaries greedy sorted_set dedup_sorted sddiar.Base.Sort.sort
boundaries_run = refl

covers-apply_collar_example :
    (out : List Interval) × (apply_collar ((0, 100) ∷ []) (90 ∷ 2 ∷ []) 5 ≡ ok out)
    × ((t : ℕ) → covers t out ≡ (covers t ((0, 100) ∷ []) && not (near t 5 (90 ∷ 2 ∷ []))))
covers-apply_collar_example = covers-apply_collar 5 ((0, 100) ∷ []) (90 ∷ 2 ∷ []) (omega arith)

one_pair : Matching 2 (sorted_set (10 ∷ 30 ∷ [])) (sorted_set (31 ∷ [])) 1
unfolding sorted_set dedup_sorted sddiar.Base.Sort.sort
one_pair = skip_ref 10 (pair 30 31 (omega arith) (done [] []))

score_boundaries_maximal_example :
    AreMatched (10 ∷ 30 ∷ []) (31 ∷ []) 2 (score_boundaries (10 ∷ 30 ∷ []) (31 ∷ []) 2)
    × (1 ≤ (score_boundaries (10 ∷ 30 ∷ []) (31 ∷ []) 2).true_positives)
score_boundaries_maximal_example = score_boundaries_maximal (10 ∷ 30 ∷ []) (31 ∷ []) 2 1 one_pair
