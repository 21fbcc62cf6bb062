-- ===== src/DiarizationError/OneToOne.antt =====
-- The mapping of the speaker labels gives no reference speaker twice.
use Prim.Native.String.{String}
use text.Mathlib.Text.{◌==◌ as str_eq}
use text.Mathlib.TextEquality.{eq_iff}
use sddiar.Base.{
  ℕ, ◌+◌, ◌≤◌, ◌≡◌, refl, sym, ap, subst, ◌∙◌, inl, inr, true, not, ◌||◌, none, List, [], ◌∷◌, map,
  length, sum_of, All, All-append, ok, ok-inj, raise_if_then, evaluation, Bool-cases, ltb, leb,
  if◌then◌else◌, zero, suc, arith,
}
use sddiar.Base.Sort.{sort, sum_of-sort}
use sddiar.DiarizationError.{
  TimelineCell, mapped_to, some_in, count_if, label_in, distinct_labels, labels_of, speakers_on,
  cooccurrence, picks, prefixed, each_pick, permutations, pairs_of, lt_pair, is_better_pairing,
  best_pairing, choose_pairing, candidate_pairings, or_no_pairs, mapping_from_cells, str_le,
}
use sddiar.DiarizationError.Accounting.{AreOneToOne}

abbrev pub times_in : String → List String → ℕ
times_in r labels = count_if (λ x. str_eq x r) labels

-- A set's labels.
abbrev pub AreDistinct : List String → Type 0
AreDistinct labels = (r : String) → times_in r labels ≤ 1

str_eq-same : (x l r : String) → str_eq x l ≡ true → str_eq x r ≡ str_eq l r
str_eq-same x l r h = ap (λ k. str_eq k r) ((eq_iff x l).0 h)

times_in-distinct_labels :
    (r : String) (seen labels : List String)
    → times_in r (distinct_labels seen labels) ≤ (if label_in r seen then 0 else 1)
unfolding distinct_labels
times_in-distinct_labels r seen [] = ground arith
times_in-distinct_labels r seen (l ∷ labels) =
    let rest = times_in-distinct_labels r (l ∷ seen) labels in
    elim (Bool-cases (str_eq l r)) [
      | inl same ↦
          let seen_too = ap (λ k. label_in k seen) ((eq_iff l r).0 same) in
          ground (arith, rest, same, seen_too)
      | inr other ↦ ground (arith, rest, other)
    ]

speakers_on-AreDistinct :
    (side : TimelineCell → List String) (cells : List TimelineCell)
    → AreDistinct (speakers_on side cells)
speakers_on-AreDistinct side cells r =
    let sorted =
      sum_of-sort str_le (λ x. if str_eq x r then 1 else 0)
        (distinct_labels [] (labels_of side cells)) in
    omega (arith, sorted, times_in-distinct_labels r [] (labels_of side cells))

-- What is chosen from a list has a label no more often than the list.
module _ (r : String) where
  abbrev IsBelow : ℕ → List String → Type 0
  IsBelow n labels = times_in r labels ≤ n

  All-prefixed-IsBelow :
      (n : ℕ) (x : String) (lists : List (List String))
      → All (IsBelow n) lists
      → All (IsBelow ((if str_eq x r then 1 else 0) + n)) (prefixed x lists)
  All-prefixed-IsBelow n x [] h = tt
  All-prefixed-IsBelow n x (xs ∷ lists) (first, h) =
      (omega (arith, first), All-prefixed-IsBelow n x lists h)

  All-weaken :
      (m n : ℕ) (lists : List (List String)) → m ≤ n → All (IsBelow m) lists → All (IsBelow n) lists
  All-weaken m n [] le h = tt
  All-weaken m n (xs ∷ lists) le (first, h) = (omega (arith, first, le), All-weaken m n lists le h)

  -- An element and the others together are the list.
  abbrev IsPick : List String → String × List String → Type 0
  IsPick xs p = (if str_eq p.0 r then 1 else 0) + times_in r p.1 ≡ times_in r xs

  All-map_behind :
      (y : String) (xs : List String) (some_picks : List (String × List String))
      → All (IsPick xs) some_picks
      → All (IsPick (y ∷ xs)) (map (λ (p : String × List String). (p.0, y ∷ p.1)) some_picks)
  All-map_behind y xs [] h = tt
  All-map_behind y xs (p ∷ some_picks) (first, h) =
      (omega (arith, first), All-map_behind y xs some_picks h)

  picks-IsPick : (xs : List String) → All (IsPick xs) (picks xs)
  unfolding picks
  picks-IsPick [] = tt
  picks-IsPick (x ∷ xs) = (refl, All-map_behind x xs (picks xs) (picks-IsPick xs))

  each_pick-IsBelow :
      (rest : List String → List (List String)) (xs : List String)
      (some_picks : List (String × List String))
      → ((others : List String) → All (IsBelow (times_in r others)) (rest others))
      → All (IsPick xs) some_picks
      → All (IsBelow (times_in r xs)) (each_pick rest some_picks)
  each_pick-IsBelow rest xs [] below h = tt
  each_pick-IsBelow rest xs ((x, others) ∷ some_picks) below (first, h) =
      All-append (IsBelow (times_in r xs)) (prefixed x (rest others)) (each_pick rest some_picks)
        (All-weaken _ _ _ (omega (arith, first))
          (All-prefixed-IsBelow (times_in r others) x (rest others) (below others)))
        (each_pick-IsBelow rest xs some_picks below h)

  permutations-IsBelow :
      (n : ℕ) (xs : List String) → All (IsBelow (times_in r xs)) (permutations n xs)
  unfolding permutations
  permutations-IsBelow zero xs = (omega arith, tt)
  permutations-IsBelow (suc n) xs =
      each_pick-IsBelow (permutations n) xs (picks xs) (permutations-IsBelow n) (picks-IsPick xs)

  -- How often the pairs give a reference speaker.
  abbrev pub given : List (String × String) → ℕ
  given pairs = sum_of (λ (p : String × String). if str_eq p.1 r then 1 else 0) pairs

  given-pairs_of : (xs ys : List String) → given (pairs_of xs ys) ≤ times_in r ys
  given-pairs_of [] ys = omega arith
  given-pairs_of (x ∷ xs) [] = omega arith
  given-pairs_of (x ∷ xs) (y ∷ ys) = omega (arith, given-pairs_of xs ys)

  abbrev IsGivenOnce : List (String × String) → Type 0
  IsGivenOnce pairs = given pairs ≤ 1

  map-pairs_of :
      (hyps : List String) (lists : List (List String))
      → All (IsBelow 1) lists
      → All IsGivenOnce (map (λ chosen. pairs_of hyps chosen) lists)
  map-pairs_of hyps [] h = tt
  map-pairs_of hyps (c ∷ lists) (first, h) =
      (omega (arith, first, given-pairs_of hyps c), map-pairs_of hyps lists h)

  map-sorted_pairs :
      (refs : List String) (lists : List (List String))
      → times_in r refs ≤ 1
      → All IsGivenOnce
          (map (λ chosen. sort (λ x y. not (lt_pair y x)) (pairs_of chosen refs)) lists)
  map-sorted_pairs refs [] once = tt
  map-sorted_pairs refs (c ∷ lists) once =
      let sorted =
        sum_of-sort (λ (x y : String × String). not (lt_pair y x))
          (λ (p : String × String). if str_eq p.1 r then 1 else 0) (pairs_of c refs) in
      (omega (arith, sorted, once, given-pairs_of c refs), map-sorted_pairs refs lists once)

  candidate_pairings-IsGivenOnce :
      (hyps refs : List String)
      → times_in r refs ≤ 1
      → All IsGivenOnce (candidate_pairings hyps refs)
  unfolding candidate_pairings
  candidate_pairings-IsGivenOnce hyps refs once =
      elim (Bool-cases (leb (length hyps) (length refs))) [
        | inl fewer ↦
            rw fewer (
              map-pairs_of hyps _ (All-weaken _ 1 _ once (permutations-IsBelow (length hyps) refs)))
        | inr more ↦ rw more (map-sorted_pairs refs _ once)
      ]

  module _ (cells : List TimelineCell) where
    best_pairing-IsGivenOnce :
        (best : List (String × String)) (candidates : List (List (String × String)))
        → IsGivenOnce best
        → All IsGivenOnce candidates
        → IsGivenOnce (best_pairing cells best candidates)
    unfolding best_pairing
    best_pairing-IsGivenOnce best [] own h = own
    best_pairing-IsGivenOnce best (x ∷ candidates) own (first, h) =
        elim (Bool-cases (is_better_pairing cells x best)) [
          | inl better ↦ rw better (best_pairing-IsGivenOnce x candidates first h)
          | inr worse ↦ rw worse (best_pairing-IsGivenOnce best candidates own h)
        ]

    choose_pairing-IsGivenOnce :
        (candidates : List (List (String × String)))
        → All IsGivenOnce candidates
        → IsGivenOnce (choose_pairing cells candidates)
    unfolding choose_pairing
    choose_pairing-IsGivenOnce [] h = omega arith
    choose_pairing-IsGivenOnce (x ∷ candidates) (first, h) =
        best_pairing-IsGivenOnce x candidates first h

str_eq_comm : (x y : String) → str_eq x y ≡ str_eq y x
str_eq_comm x y = elim (Bool-cases (str_eq x y)) [
  | inl same ↦ same ∙ sym ((eq_iff y x).1 (sym ((eq_iff x y).0 same)))
  | inr other ↦ elim (Bool-cases (str_eq y x)) [
    | inl same ↦ let back = (eq_iff x y).1 (sym ((eq_iff y x).0 same)) in cc
    | inr apart ↦ other ∙ sym apart
  ]
]

module _ (r : String) where
  none_mapped : (labels : List String) → count_if (λ l. some_in none (r ∷ [])) labels ≤ 0
  none_mapped [] = omega arith
  none_mapped (l ∷ labels) = ground (arith, none_mapped labels)

  -- How many labels are mapped to `r` by a pair in front, and by the others.
  mapped_front :
      (key value : String) (mapping : List (String × String)) (labels : List String)
      → count_if (λ l. some_in (mapped_to ((key, value) ∷ mapping) l) (r ∷ [])) labels
        ≤ (if str_eq value r then times_in key labels else 0)
          + count_if (λ l. some_in (mapped_to mapping l) (r ∷ [])) labels
  mapped_front key value mapping [] = omega arith
  mapped_front key value mapping (l ∷ labels) =
      let rest = mapped_front key value mapping labels in
      let keys = str_eq_comm key l in
      let values = str_eq_comm value r in
      elim (Bool-cases (str_eq key l)) [
        | inl own ↦ elim (Bool-cases (str_eq value r)) [
          | inl same ↦ ground (arith, rest, own, same, keys, values)
          | inr other ↦ ground (arith, rest, own, other, keys, values)
        ]
        | inr apart ↦ elim (Bool-cases (str_eq value r)) [
          | inl same ↦ ground (arith, rest, apart, same, keys, values)
          | inr other ↦ ground (arith, rest, apart, other, keys, values)
        ]
      ]

  mapped_given :
      (mapping : List (String × String)) (labels : List String)
      → AreDistinct labels
      → count_if (λ l. some_in (mapped_to mapping l) (r ∷ [])) labels ≤ given r mapping
  mapped_given [] labels once = none_mapped labels
  mapped_given ((key, value) ∷ mapping) labels once =
      let front = mapped_front key value mapping labels in
      let rest = mapped_given mapping labels once in
      let own = once key in ground (arith, front, rest, own)

-- The pairs of a mapping.
abbrev pub pairs_in : List ((String × String) × ℕ) → List (String × String)
pairs_in found = map (λ (m : (String × String) × ℕ). m.0) found

pairs_in-with_time :
    (time : String × String → ℕ) (pairs : List (String × String))
    → pairs_in (map (λ p. (p, time p)) pairs) ≡ pairs
pairs_in-with_time time [] = refl
pairs_in-with_time time (p ∷ pairs) = ap (λ ps. p ∷ ps) (pairs_in-with_time time pairs)

or_no_pairs_below :
    (r : String) (labels : List String) (pairs : List (String × String))
    → given r (or_no_pairs labels pairs) ≤ given r pairs
or_no_pairs_below r [] pairs = omega arith
or_no_pairs_below r (l ∷ labels) pairs = omega arith

mapping_from_cells-given :
    (cells : List TimelineCell) (found : List ((String × String) × ℕ)) (r : String)
    → mapping_from_cells cells ≡ ok found
    → given r (pairs_in found) ≤ 1
unfolding mapping_from_cells
mapping_from_cells-given cells found r h =
    let refs = speakers_on (λ c. c.reference_speakers) cells in
    let hyps = speakers_on (λ c. c.hypothesis_speakers) cells in
    let best = choose_pairing cells (candidate_pairings hyps refs) in
    let kept = or_no_pairs refs (or_no_pairs hyps best) in
    let result =
      raise_if_then (ltb 2 (length refs) || ltb 2 (length hyps)) evaluation
        (ok (map (λ p. (p, cooccurrence cells p)) kept)) found h in
    let once = choose_pairing-IsGivenOnce r cells (candidate_pairings hyps refs) (
      candidate_pairings-IsGivenOnce r hyps refs
        (speakers_on-AreDistinct (λ c. c.reference_speakers) cells r)) in
    let outer = or_no_pairs_below r refs (or_no_pairs hyps best) in
    let inner = or_no_pairs_below r hyps best in
    let pairs = pairs_in-with_time (cooccurrence cells) kept in
    subst (λ f. given r (pairs_in f) ≤ 1) (ok-inj result)
      (subst (λ ps. given r ps ≤ 1) (sym pairs) (omega (arith, outer, inner, once)))

-- Each cell's labels on the side of the hypothesis are a set.
abbrev pub HaveDistinctLabels : List TimelineCell → Type 0
HaveDistinctLabels cells = All (λ (c : TimelineCell). AreDistinct c.hypothesis_speakers) cells

-- A mapping that is found gives different labels of one cell different reference speakers.
pub mapping_from_cells-AreOneToOne :
    (cells mapped : List TimelineCell) (found : List ((String × String) × ℕ))
    → mapping_from_cells cells ≡ ok found
    → HaveDistinctLabels mapped
    → AreOneToOne (pairs_in found) mapped
mapping_from_cells-AreOneToOne cells [] found h once = tt
mapping_from_cells-AreOneToOne cells (c ∷ mapped) found h (first, once) = (
  λ r.
      let given_once = mapping_from_cells-given cells found r h in
      omega (arith, given_once, mapped_given r (pairs_in found) c.hypothesis_speakers first),
  mapping_from_cells-AreOneToOne cells mapped found h once,
)
