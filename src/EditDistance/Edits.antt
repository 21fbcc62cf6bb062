-- ===== src/EditDistance/Edits.antt =====
-- Edit scripts between two texts that are read from their ends, with the counts of their steps.
use Prim.Native.String.{String}
use text.Mathlib.Text.{◌==◌ as str_eq}
use sddiar.Base.{
  ℕ, ◌+◌, ◌≤◌, ◌≡◌, refl, inl, inr, true, List, [], ◌∷◌, arith, leb, leb→le, if◌then◌else◌,
  Bool-cases,
}
use sddiar.EditDistance.{Cell, substituted, deleted, inserted, nearest, best_cell}

-- `Edits xs ys s d i`: `s` substitutions, `d` deletions and `i` insertions turn `xs` into `ys`.
pub data Edits : List String → List String → ℕ → ℕ → ℕ → Type 0 where
  done : Edits [] [] 0 0 0
  keep :
      {x y : String} {xs ys : List String} {s d i : ℕ}
      → str_eq x y ≡ true
      → Edits xs ys s d i
      → Edits (x ∷ xs) (y ∷ ys) s d i
  substitute :
      {x y : String} {xs ys : List String} {s d i : ℕ}
      → Edits xs ys s d i
      → Edits (x ∷ xs) (y ∷ ys) (s + 1) d i
  delete :
      {x : String} {xs ys : List String} {s d i : ℕ}
      → Edits xs ys s d i
      → Edits (x ∷ xs) ys s (d + 1) i
  insert :
      {y : String} {xs ys : List String} {s d i : ℕ}
      → Edits xs ys s d i
      → Edits xs (y ∷ ys) s d (i + 1)

-- A cell counts the steps of a script, and no script has fewer steps.
abbrev pub IsBest : List String → List String → Cell → Type 0
IsBest xs ys c =
    (c.distance ≡ c.substitutions + (c.deletions + c.insertions))
    × Edits xs ys c.substitutions c.deletions c.insertions
    × ((s d i : ℕ) → Edits xs ys s d i → c.distance ≤ s + (d + i))

nearest-le :
    (a b : Cell) → ((nearest a b).distance ≤ a.distance) × ((nearest a b).distance ≤ b.distance)
nearest-le a b = elim (Bool-cases (leb a.distance b.distance)) [
  | inl first ↦ rw first (omega arith, leb→le a.distance b.distance first)
  | inr second ↦ rw second (ground arith, omega arith)
]

matched : String → String → Cell → Cell
matched x y diagonal = if str_eq x y then diagonal else substituted diagonal

matched-le : (x y : String) (c : Cell) → (matched x y c).distance ≤ c.distance + 1
unfolding matched
matched-le x y c = elim (Bool-cases (str_eq x y)) [
  | inl same ↦ rw same (omega arith)
  | inr differs ↦ rw differs (omega arith)
]

-- The best cell is at most as far as each candidate.
best_cell-le :
    (x y : String) (diagonal up left : Cell)
    → ((best_cell x y diagonal up left).distance ≤ (matched x y diagonal).distance)
      × ((best_cell x y diagonal up left).distance ≤ up.distance + 1)
      × ((best_cell x y diagonal up left).distance ≤ left.distance + 1)
unfolding matched
best_cell-le x y diagonal up left =
    let outer = nearest-le (nearest (matched x y diagonal) (deleted up)) (inserted left) in
    let inner = nearest-le (matched x y diagonal) (deleted up) in
    (omega (arith, outer.0, inner.0), omega (arith, outer.0, inner.1), outer.1)

-- No script to the next place has fewer steps than the best cell.
best_cell-lower :
    (x y : String) (xs ys : List String) (diagonal up left : Cell)
    → IsBest xs ys diagonal
    → IsBest xs (y ∷ ys) up
    → IsBest (x ∷ xs) ys left
    → (s d i : ℕ) → Edits (x ∷ xs) (y ∷ ys) s d i
    → (best_cell x y diagonal up left).distance ≤ s + (d + i)
unfolding matched
best_cell-lower x y xs ys diagonal up left bd bu bl s d i (keep same e) =
    let near = (best_cell-le x y diagonal up left).0 in
    let exact : (matched x y diagonal).distance ≡ diagonal.distance = rw same refl in
    omega (arith, near, exact, bd.2 s d i e)
best_cell-lower x y xs ys diagonal up left bd bu bl s d i (substitute {s = k} e) =
    let near = (best_cell-le x y diagonal up left).0 in
    omega (arith, near, matched-le x y diagonal, bd.2 k d i e)
best_cell-lower x y xs ys diagonal up left bd bu bl s d i (delete {d = k} e) =
    omega (arith, (best_cell-le x y diagonal up left).1, bu.2 s k i e)
best_cell-lower x y xs ys diagonal up left bd bu bl s d i (insert {i = k} e) =
    omega (arith, (best_cell-le x y diagonal up left).2, bl.2 s d k e)

-- The counts of a cell are those of a script.
abbrev Counts : List String → List String → Cell → Type 0
Counts xs ys c =
    (c.distance ≡ c.substitutions + (c.deletions + c.insertions))
    × Edits xs ys c.substitutions c.deletions c.insertions

nearest-Counts :
    (xs ys : List String) (a b : Cell)
    → Counts xs ys a
    → Counts xs ys b
    → Counts xs ys (nearest a b)
nearest-Counts xs ys a b ha hb = elim (Bool-cases (leb a.distance b.distance)) [
  | inl first ↦ rw first ha
  | inr second ↦ rw second hb
]

matched-Counts :
    (x y : String) (xs ys : List String) (c : Cell)
    → Counts xs ys c
    → Counts (x ∷ xs) (y ∷ ys) (matched x y c)
unfolding matched
matched-Counts x y xs ys c (sum, e) = elim (Bool-cases (str_eq x y)) [
  | inl same ↦ rw same (sum, keep same e)
  | inr differs ↦ rw differs (omega (arith, sum), substitute e)
]

pub best_cell-IsBest :
    (x y : String) (xs ys : List String) (diagonal up left : Cell)
    → IsBest xs ys diagonal
    → IsBest xs (y ∷ ys) up
    → IsBest (x ∷ xs) ys left
    → IsBest (x ∷ xs) (y ∷ ys) (best_cell x y diagonal up left)
unfolding matched
best_cell-IsBest x y xs ys diagonal up left (sum, e, least) (sum2, e2, least2) (sum3, e3, least3) =
    let counts =
      nearest-Counts (x ∷ xs) (y ∷ ys) (nearest (matched x y diagonal) (deleted up)) (inserted left)
        (nearest-Counts (x ∷ xs) (y ∷ ys) (matched x y diagonal) (deleted up)
          (matched-Counts x y xs ys diagonal (sum, e)) (omega (arith, sum2), delete e2))
        (omega (arith, sum3), insert e3) in
    (
      counts.0,
      counts.1,
      best_cell-lower x y xs ys diagonal up left (sum, e, least) (sum2, e2, least2)
          (sum3, e3, least3),
    )
