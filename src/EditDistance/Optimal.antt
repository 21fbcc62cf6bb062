-- ===== src/EditDistance/Optimal.antt =====
-- Every row holds best cells, so the result is a shortest script.
use Prim.Native.String.{String}
use sddiar.Base.{ℕ, ◌+◌, ◌≤◌, ◌≡◌, refl, subst, List, [], ◌∷◌, arith, reverse_onto, length}
use sddiar.EditDistance.{
  EditMetrics, Cell, first_row, row_loop, row_start, next_row, rows, last_cell, levenshtein,
  best_cell,
}
use sddiar.EditDistance.Edits.{
  Edits, done, keep, substitute, delete, insert, IsBest, best_cell-IsBest,
}

-- The cells of a row, for the texts read so far (the last unit first) and the rest of the
-- hypothesis.
abbrev BestRow : List String → List String → List String → List Cell → Type 0
BestRow xs ys [] [] = ⊥
BestRow xs ys [] (c ∷ []) = IsBest xs ys c
BestRow xs ys [] (c ∷ d ∷ cells) = ⊥
BestRow xs ys (y ∷ rest) [] = ⊥
BestRow xs ys (y ∷ rest) (c ∷ []) = ⊥
BestRow xs ys (y ∷ rest) (c ∷ d ∷ cells) = IsBest xs ys c × BestRow xs (y ∷ ys) rest (d ∷ cells)

-- Insertions make up for what the hypothesis has more, deletions for what it has less.
Edits-length :
    (xs ys : List String) (s d i : ℕ)
    → Edits xs ys s d i
    → (length ys ≤ length xs + i) × (length xs ≤ length ys + d)
Edits-length [] [] s d i done = (omega arith, omega arith)
Edits-length (x ∷ xs) (y ∷ ys) s d i (keep same e) =
    let (more, less) = Edits-length xs ys s d i e in (omega (arith, more), omega (arith, less))
Edits-length (x ∷ xs) (y ∷ ys) s d i (substitute {s = k} e) =
    let (more, less) = Edits-length xs ys k d i e in (omega (arith, more), omega (arith, less))
Edits-length (x ∷ xs) ys s d i (delete {d = k} e) =
    let (more, less) = Edits-length xs ys s k i e in (omega (arith, more), omega (arith, less))
Edits-length xs (y ∷ ys) s d i (insert {i = k} e) =
    let (more, less) = Edits-length xs ys s d k e in (omega (arith, more), omega (arith, less))

insert-all : (ys : List String) → Edits [] ys 0 0 (length ys)
insert-all [] = done
insert-all (y ∷ ys) = subst (Edits [] (y ∷ ys) 0 0) (omega arith) (insert (insert-all ys))

delete-all : (xs : List String) → Edits xs [] 0 (length xs) 0
delete-all [] = done
delete-all (x ∷ xs) = subst (λ d. Edits (x ∷ xs) [] 0 d 0) (omega arith) (delete (delete-all xs))

first-IsBest :
    (i : ℕ) (ys : List String)
    → length ys ≡ i
    → IsBest [] ys (record { distance = i; substitutions = 0; deletions = 0; insertions = i })
first-IsBest i ys e = (
  omega arith,
  subst (Edits [] ys 0 0) e (insert-all ys),
  λ s d k script. omega (arith, (Edits-length [] ys s d k script).0, e),
)

row_start-IsBest : (i : ℕ) (xs : List String) → length xs ≡ i → IsBest xs [] (row_start i)
row_start-IsBest i xs e = (
  omega arith,
  subst (λ d. Edits xs [] 0 d 0) e (delete-all xs),
  λ s d k script. omega (arith, (Edits-length xs [] s d k script).1, e),
)

first_row-BestRow :
    (i : ℕ) (ys rest : List String) → length ys ≡ i → BestRow [] ys rest (first_row i rest)
unfolding first_row
first_row-BestRow i ys [] e = first-IsBest i ys e
first_row-BestRow i ys (y ∷ []) e =
    (first-IsBest i ys e, first_row-BestRow (i + 1) (y ∷ ys) [] (omega (arith, e)))
first_row-BestRow i ys (y ∷ z ∷ rest) e =
    (first-IsBest i ys e, first_row-BestRow (i + 1) (y ∷ ys) (z ∷ rest) (omega (arith, e)))

head-IsBest :
    (xs ys rest : List String) (c : Cell) (cells : List Cell)
    → BestRow xs ys rest (c ∷ cells)
    → IsBest xs ys c
head-IsBest xs ys [] c [] row = row
head-IsBest xs ys [] c (d ∷ cells) row = elim row [ ]
head-IsBest xs ys (y ∷ rest) c [] row = elim row [ ]
head-IsBest xs ys (y ∷ rest) c (d ∷ cells) row = row.0

row_loop-BestRow :
    (x : String) (xs ys rest : List String) (diagonal left : Cell) (above : List Cell)
    → IsBest (x ∷ xs) ys left
    → BestRow xs ys rest (diagonal ∷ above)
    → BestRow (x ∷ xs) ys rest (left ∷ row_loop x rest diagonal above left)
unfolding row_loop
row_loop-BestRow x xs ys [] diagonal left [] bl row = bl
row_loop-BestRow x xs ys [] diagonal left (up ∷ above) bl row = elim row [ ]
row_loop-BestRow x xs ys (y ∷ rest) diagonal left [] bl row = elim row [ ]
row_loop-BestRow x xs ys (y ∷ rest) diagonal left (up ∷ above) bl (bd, row) =
    let next =
      best_cell-IsBest x y xs ys diagonal up left bd (head-IsBest xs (y ∷ ys) rest up above row)
        bl in
    (bl, row_loop-BestRow x xs (y ∷ ys) rest up (best_cell x y diagonal up left) above next row)

next_row-BestRow :
    (i : ℕ) (x : String) (xs rest : List String) (cells : List Cell)
    → length (x ∷ xs) ≡ i
    → BestRow xs [] rest cells
    → BestRow (x ∷ xs) [] rest (next_row i x rest cells)
unfolding next_row
next_row-BestRow i x xs [] [] e row = elim row [ ]
next_row-BestRow i x xs (y ∷ rest) [] e row = elim row [ ]
next_row-BestRow i x xs rest (c ∷ cells) e row =
    row_loop-BestRow x xs [] rest c (row_start i) cells (row_start-IsBest i (x ∷ xs) e) row

rows-BestRow :
    (i : ℕ) (xs reference rest : List String) (cells : List Cell)
    → length xs ≡ i
    → BestRow xs [] rest cells
    → BestRow (reverse_onto reference xs) [] rest (rows i reference rest cells)
unfolding rows reverse_onto
rows-BestRow i xs [] rest cells e row = row
rows-BestRow i xs (x ∷ reference) rest cells e row =
    rows-BestRow (i + 1) (x ∷ xs) reference rest (next_row (i + 1) x rest cells) (omega (arith, e))
      (next_row-BestRow (i + 1) x xs rest cells (omega (arith, e)) row)

last_cell-IsBest :
    (xs ys rest : List String) (cells : List Cell)
    → BestRow xs ys rest cells
    → IsBest xs (reverse_onto rest ys) (last_cell cells)
unfolding last_cell reverse_onto
last_cell-IsBest xs ys [] (c ∷ []) row = row
last_cell-IsBest xs ys [] [] row = elim row [ ]
last_cell-IsBest xs ys [] (c ∷ d ∷ cells) row = elim row [ ]
last_cell-IsBest xs ys (y ∷ rest) [] row = elim row [ ]
last_cell-IsBest xs ys (y ∷ rest) (c ∷ []) row = elim row [ ]
last_cell-IsBest xs ys (y ∷ rest) (c ∷ d ∷ cells) row =
    last_cell-IsBest xs (y ∷ ys) rest (d ∷ cells) row.1

levenshtein-IsBest :
    (reference hypothesis : List String)
    → IsBest
        (reverse_onto reference [])
        (reverse_onto hypothesis [])
        (last_cell (rows 0 reference hypothesis (first_row 0 hypothesis)))
levenshtein-IsBest reference hypothesis =
    last_cell-IsBest (reverse_onto reference []) [] hypothesis _ (
      rows-BestRow 0 [] reference hypothesis (first_row 0 hypothesis) refl
        (first_row-BestRow 0 [] hypothesis refl))

-- The counts are those of an edit script from the reference to the hypothesis, both read from
-- their ends, and the distance is their sum.
abbrev pub AreSteps : List String → List String → EditMetrics → Type 0
AreSteps reference hypothesis m =
    (m.distance ≡ m.substitutions + (m.deletions + m.insertions))
    × Edits (reverse_onto reference []) (reverse_onto hypothesis []) m.substitutions m.deletions
        m.insertions

levenshtein-AreSteps :
    (reference hypothesis : List String)
    → AreSteps reference hypothesis (levenshtein reference hypothesis)
unfolding levenshtein
levenshtein-AreSteps reference hypothesis =
    let (sum, script, _) = levenshtein-IsBest reference hypothesis in (sum, script)

-- The counts of `_levenshtein` are those of an edit script from the reference to the hypothesis,
-- both read from their ends, the distance is their sum, and no other such script has fewer steps.
pub levenshtein_least :
    (reference hypothesis : List String) (s d i : ℕ)
    → Edits (reverse_onto reference []) (reverse_onto hypothesis []) s d i
    → AreSteps reference hypothesis (levenshtein reference hypothesis)
      × ((levenshtein reference hypothesis).distance ≤ s + (d + i))
unfolding levenshtein
levenshtein_least reference hypothesis s d i script =
    let (_, _, least) = levenshtein-IsBest reference hypothesis in
    (levenshtein-AreSteps reference hypothesis, least s d i script)
