-- ===== src/EditDistance/Tests.antt =====
-- Distances of short texts, and instances of the theorems.
use Prim.Native.String.{String}
use sddiar.Base.{◌+◌, ◌≤◌, ◌≡◌, refl, List, [], ◌∷◌, reverse_onto}
use sddiar.EditDistance.{EditMetrics, first_row, row_loop, next_row, rows, last_cell, levenshtein}
use sddiar.EditDistance.Edits.{Edits, done, keep, delete, insert}
use sddiar.EditDistance.Optimal.{AreSteps, levenshtein_least}

abbrev reference : List String
reference = "a" ∷ "b" ∷ "c" ∷ "d" ∷ []

abbrev hypothesis : List String
hypothesis = "a" ∷ "x" ∷ "d" ∷ []

abbrev metrics : EditMetrics
metrics = record {
  reference_units = 4;
  hypothesis_units = 3;
  substitutions = 1;
  deletions = 1;
  insertions = 0;
  distance = 2;
}

distance_run : levenshtein reference hypothesis ≡ metrics
unfolding levenshtein rows next_row row_loop first_row last_cell
distance_run = refl

distance_inserted : levenshtein [] hypothesis ≡ record {
  reference_units = 0;
  hypothesis_units = 3;
  substitutions = 0;
  deletions = 0;
  insertions = 3;
  distance = 3;
}
unfolding levenshtein rows next_row row_loop first_row last_cell
distance_inserted = refl

-- A script that is longer than the shortest one.
script : Edits ("d" ∷ "c" ∷ "b" ∷ "a" ∷ []) ("d" ∷ "x" ∷ "a" ∷ []) 0 2 1
script = keep refl (insert (delete (delete (keep refl done))))

levenshtein_least_example :
    AreSteps reference hypothesis (levenshtein reference hypothesis)
    × ((levenshtein reference hypothesis).distance ≤ 0 + (2 + 1))
unfolding reverse_onto
levenshtein_least_example = levenshtein_least reference hypothesis 0 2 1 script
