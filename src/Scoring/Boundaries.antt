-- ===== src/Scoring/Boundaries.antt =====
-- src/sddiar/evaluation.py `score_boundaries`: the greedy one-to-one matching of reference and
-- predicted boundaries, and the counts that it reports.
pub mod Optimal
use sddiar.Base.{ℕ, ◌+◌, ◌-◌, Bool, List, [], ◌∷◌, ltb, if◌then◌else◌, length}
use sddiar.Scoring.{sorted_set}

-- The `while` loop from positions `i` and `j` on: what is left of the two lists, and
-- `true_positives`.
unfoldable pub greedy : ℕ → List ℕ → List ℕ → ℕ → ℕ
greedy collar_us [] preds tp = tp
greedy collar_us (r ∷ refs) [] tp = tp
greedy collar_us (r ∷ refs) (p ∷ preds) tp =
    let next_pred = greedy collar_us (r ∷ refs) preds tp in
    let next_ref = greedy collar_us refs (p ∷ preds) tp in
    let matched = greedy collar_us refs preds (tp + 1) in
    if ltb (p + collar_us) r then next_pred else if ltb (r + collar_us) p then next_ref else matched

-- The integer part of `EventMetrics`
pub record EventCounts : Type 0 where
  pub true_positives : ℕ
  pub false_positives : ℕ
  pub false_negatives : ℕ

unfoldable pub score_boundaries : List ℕ → List ℕ → ℕ → EventCounts
score_boundaries reference_us predicted_us collar_us =
    let refs = sorted_set reference_us in
    let preds = sorted_set predicted_us in
    let tp = greedy collar_us refs preds 0 in
    record {
      true_positives = tp;
      false_positives = length preds - tp;
      false_negatives = length refs - tp;
    }
