-- ===== src/TimelineCells/Labels.antt =====
-- The speakers of a cell are those of the records that are active in it.
use Prim.Native.String.{String}
use text.Mathlib.Text.{◌==◌ as str_eq}
use text.Mathlib.TextEquality.{eq_iff}
use sddiar.Base.{
  ℕ, ◌+◌, ◌≤◌, ◌<◌, ◌≡◌, refl, sym, ap, ◌∙◌, Bool, true, false, ◌&&◌, [], ◌∷◌, sum_of, All,
  Bool-cases, inl, inr, leb, ◌==◌, if◌then◌else◌, arith,
}
use sddiar.TimelineCells.{LabelCounts, count_up, count_down}

abbrev pub one_for : Bool → ℕ
one_for test = if test then 1 else 0

-- The count of a label.
abbrev pub number_of : String → LabelCounts → ℕ
number_of l counts = sum_of (λ (p : String × ℕ). if str_eq p.0 l then p.1 else 0) counts

abbrev pub ArePositive : LabelCounts → Type 0
ArePositive counts = All (λ (p : String × ℕ). 1 ≤ p.1) counts

same_key : (key label l : String) → str_eq key label ≡ true → str_eq key l ≡ str_eq label l
same_key key label l h = ap (λ k. str_eq k l) ((eq_iff key label).0 h)

pub number_of-count_up :
    (l label : String) (counts : LabelCounts)
    → number_of l (count_up label counts) ≡ number_of l counts + one_for (str_eq label l)
number_of-count_up l label [] = omega arith
number_of-count_up l label ((key, n) ∷ counts) = elim (Bool-cases (str_eq key label)) [
  | inl same ↦ let keys = same_key key label l same in ground (arith, same, keys)
  | inr other ↦ let rest = number_of-count_up l label counts in ground (arith, other, rest)
]

pub ArePositive-count_up :
    (label : String) (counts : LabelCounts)
    → ArePositive counts
    → ArePositive (count_up label counts)
ArePositive-count_up label [] h = (omega arith, tt)
ArePositive-count_up label ((key, n) ∷ counts) (first, h) = elim (Bool-cases (str_eq key label)) [
  | inl same ↦ rw (same, count_up) (omega arith, h)
  | inr other ↦ rw (other, count_up) (first, ArePositive-count_up label counts h)
]

pub number_of-count_down :
    (l label : String) (counts : LabelCounts)
    → ArePositive counts
    → (str_eq label l ≡ true → 1 ≤ number_of l counts)
    → number_of l (count_down label counts) + one_for (str_eq label l) ≡ number_of l counts
number_of-count_down l label [] h some_left = elim (Bool-cases (str_eq label l)) [
  | inl same ↦ let impossible = some_left same in omega (arith, impossible)
  | inr other ↦ rw other refl
]
number_of-count_down l label ((key, n) ∷ counts) (first, h) some_left =
    elim (Bool-cases (str_eq key label)) [
      | inl same ↦ let keys = same_key key label l same in ground (arith, same, keys, first)
      | inr other ↦ elim (Bool-cases (str_eq label l)) [
        | inl ours ↦
            let apart = ap (λ k. str_eq key k) (sym ((eq_iff label l).0 ours)) ∙ other in
            let left = some_left ours in
            let rest =
              number_of-count_down l label counts h (λ same. ground (arith, left, apart)) in
            ground (arith, other, rest)
        | inr theirs ↦
            let rest = number_of-count_down l label counts h (λ same. cc) in
            ground (arith, other, rest)
      ]
    ]

pub ArePositive-count_down :
    (label : String) (counts : LabelCounts)
    → ArePositive counts
    → ArePositive (count_down label counts)
ArePositive-count_down label [] h = tt
ArePositive-count_down label ((key, n) ∷ counts) (first, h) = elim (Bool-cases (str_eq key label)) [
  | inl same ↦ elim (Bool-cases (leb n 1)) [
    | inl last ↦ rw (same, last, count_down) h
    | inr more ↦ rw (same, more, count_down) (ground arith, h)
  ]
  | inr other ↦ rw (other, count_down) (first, ArePositive-count_down label counts h)
]

-- The two events of a record at a time.
abbrev pub pair_at : ℕ → ℕ → ℕ → String → LabelCounts → LabelCounts
pair_at t left right label counts =
    let entered = if left == t then count_up label counts else counts in
    if right == t then count_down label entered else entered

pub number_of-pair_at :
    (l : String) (t left right : ℕ) (label : String) (counts : LabelCounts)
    → left < right
    → ArePositive counts
    → one_for (right == t && str_eq label l) ≤ number_of l counts
    → ArePositive (pair_at t left right label counts)
      × (number_of l (pair_at t left right label counts) + one_for (right == t && str_eq label l)
          ≡ number_of l counts + one_for (left == t && str_eq label l))
number_of-pair_at l t left right label counts lt h enough = elim (Bool-cases (left == t)) [
  | inl enters ↦
      let stays : (right == t) ≡ false = ground (arith, enters, lt) in
      let up = number_of-count_up l label counts in
      rw (enters, stays) (ArePositive-count_up label counts h, ground (arith, up))
  | inr elsewhere ↦ elim (Bool-cases (right == t)) [
    | inl leaves ↦
        let down =
          number_of-count_down l label counts h (λ same. ground (arith, enough, leaves, same)) in
        rw (elsewhere, leaves) (ArePositive-count_down label counts h, ground (arith, down))
    | inr never ↦ rw (elsewhere, never) (h, omega arith)
  ]
]
