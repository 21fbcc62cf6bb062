-- ===== src/EditDistance.antt =====
-- src/sddiar/stt_evaluation.py `_levenshtein`: the edit distance of two texts, as lists of
-- characters or words, with the operations of one shortest path.
pub mod Edits
pub mod Optimal
mod Tests
use Prim.Native.String.{String}
use text.Mathlib.Text.{◌==◌ as str_eq}
use sddiar.Base.{ℕ, ◌+◌, List, [], ◌∷◌, leb, if◌then◌else◌, length}

-- A cell of a row: the distance, and the three counts.
pub record Cell : Type 0 where
  pub distance : ℕ
  pub substitutions : ℕ
  pub deletions : ℕ
  pub insertions : ℕ

-- `[(i, 0, 0, i) for i in range(m + 1)]`, from `i` on
unfoldable pub first_row : ℕ → List String → List Cell
first_row i [] = record { distance = i; substitutions = 0; deletions = 0; insertions = i } ∷ []
first_row i (h ∷ hypothesis) =
    record { distance = i; substitutions = 0; deletions = 0; insertions = i }
    ∷ first_row (i + 1) hypothesis

abbrev pub substituted : Cell → Cell
substituted c = record c { distance = c.distance + 1; substitutions = c.substitutions + 1 }

abbrev pub deleted : Cell → Cell
deleted c = record c { distance = c.distance + 1; deletions = c.deletions + 1 }

abbrev pub inserted : Cell → Cell
inserted c = record c { distance = c.distance + 1; insertions = c.insertions + 1 }

-- `min` by distance, the earlier candidate on ties
abbrev pub nearest : Cell → Cell → Cell
nearest a b = if leb a.distance b.distance then a else b

-- The best of the three candidates.
abbrev pub best_cell : String → String → Cell → Cell → Cell → Cell
best_cell r h diagonal up left =
    nearest (nearest (if str_eq r h then diagonal else substituted diagonal) (deleted up))
      (inserted left)

-- The inner loop, along the rest of the row above.
unfoldable pub row_loop : String → List String → Cell → List Cell → Cell → List Cell
row_loop r [] diagonal above left = []
row_loop r (h ∷ hypothesis) diagonal [] left = []
row_loop r (h ∷ hypothesis) diagonal (up ∷ above) left =
    let best = best_cell r h diagonal up left in best ∷ row_loop r hypothesis up above best

abbrev pub row_start : ℕ → Cell
row_start i = record { distance = i; substitutions = 0; deletions = i; insertions = 0 }

unfoldable pub next_row : ℕ → String → List String → List Cell → List Cell
next_row i r hypothesis [] = []
next_row i r hypothesis (diagonal ∷ above) =
    row_start i ∷ row_loop r hypothesis diagonal above (row_start i)

-- The outer loop, which here keeps the newest row only.
unfoldable pub rows : ℕ → List String → List String → List Cell → List Cell
rows i [] hypothesis row = row
rows i (r ∷ reference) hypothesis row =
    rows (i + 1) reference hypothesis (next_row (i + 1) r hypothesis row)

-- `rows[n][m]`
unfoldable pub last_cell : List Cell → Cell
last_cell [] = row_start 0
last_cell (c ∷ []) = c
last_cell (c ∷ d ∷ cells) = last_cell (d ∷ cells)

-- `EditMetrics` without the rate, which is a float
pub record EditMetrics : Type 0 where
  pub reference_units : ℕ
  pub hypothesis_units : ℕ
  pub substitutions : ℕ
  pub deletions : ℕ
  pub insertions : ℕ
  pub distance : ℕ

unfoldable pub levenshtein : List String → List String → EditMetrics
levenshtein reference hypothesis =
    let c = last_cell (rows 0 reference hypothesis (first_row 0 hypothesis)) in
    record {
      reference_units = length reference;
      hypothesis_units = length hypothesis;
      substitutions = c.substitutions;
      deletions = c.deletions;
      insertions = c.insertions;
      distance = c.distance;
    }
