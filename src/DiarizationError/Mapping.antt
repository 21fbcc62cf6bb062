-- ===== src/DiarizationError/Mapping.antt =====
-- The mapping of the speaker labels has the greatest cooccurrence.
use Prim.Native.String.{String}
use sddiar.Base.{
  ℕ, ◌+◌, ◌≤◌, ◌≡◌, refl, ap, subst, ◌⊎◌, inl, inr, Bool, true, false, not, ◌||◌, List, [], ◌∷◌,
  ◌++◌, map, length, sum_of, All, ok, ok-inj, raise_if_then, evaluation, ltb, leb, if◌then◌else◌,
  zero, suc, arith,
}
use sddiar.Base.Sort.{sort, sum_of-sort}
use sddiar.DiarizationError.{
  TimelineCell, picks, permutations, prefixed, each_pick, pairs_of, total_of, cooccurrence, lt_pair,
  is_better_pairing, best_pairing, choose_pairing, candidate_pairings, mapping_from_cells,
  speakers_on, or_no_pairs,
}

-- Leaving one element out.
pub data Drops {A : Type 0} : A → List A → List A → Type 0 where
  first : (x : A) (xs : List A) → Drops x (x ∷ xs) xs
  later : (x y : A) (xs others : List A) → Drops x xs others → Drops x (y ∷ xs) (y ∷ others)

-- A number of elements, each from another place of the list.
abbrev pub IsSelection : {A : Type 0} → ℕ → List A → List A → Type 0
IsSelection zero [] xs = Unit
IsSelection (suc n) (x ∷ chosen) xs =
    (others : List _) × Drops x xs others × IsSelection n chosen others
IsSelection _ _ _ = ⊥

module _ {A : Type 0} where
  All-before : (P : List A → Type 0) (xs ys : List (List A)) → All P (xs ++ ys) → All P xs
  All-before P [] ys h = tt
  All-before P (x ∷ xs) ys h = (h.0, All-before P xs ys h.1)

  All-behind : (P : List A → Type 0) (xs ys : List (List A)) → All P (xs ++ ys) → All P ys
  All-behind P [] ys h = h
  All-behind P (x ∷ xs) ys h = All-behind P xs ys h.1

  All-prefixed :
      (P : List A → Type 0) (x : A) (lists : List (List A))
      → All P (prefixed x lists)
      → All (λ xs. P (x ∷ xs)) lists
  All-prefixed P x [] h = tt
  All-prefixed P x (xs ∷ lists) h = (h.0, All-prefixed P x lists h.1)

  abbrev behind : A → A × List A → A × List A
  behind y p = (p.0, y ∷ p.1)

  each_pick-map :
      (rest : List A → List (List A)) (y : A) (some_picks : List (A × List A))
      → each_pick rest (map (behind y) some_picks) ≡ each_pick (λ xs. rest (y ∷ xs)) some_picks
  each_pick-map rest y [] = refl
  each_pick-map rest y (p ∷ some_picks) =
      ap (λ lists. prefixed p.0 (rest (y ∷ p.1)) ++ lists) (each_pick-map rest y some_picks)

  picks-Drops :
      (P : List A → Type 0) {x : A} {xs others : List A}
      → Drops x xs others
      → (rest : List A → List (List A)) → All P (each_pick rest (picks xs))
      → All P (prefixed x (rest others))
  unfolding picks
  picks-Drops P (first x xs) rest h = All-before P (prefixed x (rest xs)) _ h
  picks-Drops P (later x y xs others d) rest h =
      picks-Drops P d (λ zs. rest (y ∷ zs))
        (subst (All P) (each_pick-map rest y (picks xs)) (All-behind P (prefixed y (rest xs)) _ h))

  permutations-IsSelection :
      (P : List A → Type 0) (n : ℕ) (chosen xs : List A)
      → IsSelection n chosen xs
      → All P (permutations n xs)
      → P chosen
  unfolding permutations
  permutations-IsSelection P zero [] xs s h = h.0
  permutations-IsSelection P zero (x ∷ chosen) xs s h = absurd s
  permutations-IsSelection P (suc n) [] xs s h = absurd s
  permutations-IsSelection P (suc n) (x ∷ chosen) xs (others, d, s) h =
      permutations-IsSelection (λ ys. P (x ∷ ys)) n chosen others s
        (All-prefixed P x (permutations n others) (picks-Drops P d (permutations n) h))

module _ (cells : List TimelineCell) where
  better_total :
      (better : Bool) (x best : List (String × String))
      → better ≡ is_better_pairing cells x best
      → (total_of cells x ≤ total_of cells (if better then x else best))
        × (total_of cells best ≤ total_of cells (if better then x else best))
  better_total true x best h = (omega arith, ground arith)
  better_total false x best h = (ground arith, omega arith)

  best_pairing_le :
      (best : List (String × String)) (candidates : List (List (String × String)))
      → (total_of cells best ≤ total_of cells (best_pairing cells best candidates))
        × All
            (λ x. total_of cells x ≤ total_of cells (best_pairing cells best candidates))
            candidates
  unfolding best_pairing
  best_pairing_le best [] = (omega arith, tt)
  best_pairing_le best (x ∷ candidates) =
      let (own, others) = better_total (is_better_pairing cells x best) x best refl in
      let (next, all) =
        best_pairing_le (if is_better_pairing cells x best then x else best) candidates in
      (omega (arith, others, next), (omega (arith, own, next), all))

  choose_pairing-All :
      (candidates : List (List (String × String)))
      → All (λ x. total_of cells x ≤ total_of cells (choose_pairing cells candidates)) candidates
  unfolding choose_pairing
  choose_pairing-All [] = tt
  choose_pairing-All (x ∷ candidates) = best_pairing_le x candidates

  All-map :
      {A : Type 0} (P : List (String × String) → Type 0) (f : List A → List (String × String))
      (lists : List (List A))
      → All P (map f lists)
      → All (λ xs. P (f xs)) lists
  All-map P f [] h = tt
  All-map P f (xs ∷ lists) h = (h.0, All-map P f lists h.1)

  -- Each label of the smaller side with a label of its own of the other side.
  abbrev pub IsAssignment : List String → List String → List (String × String) → Type 0
  IsAssignment hyps refs pairs =
      ((leb (length hyps) (length refs) ≡ true)
        × ((chosen : List String) × IsSelection (length hyps) chosen refs
            × (pairs ≡ pairs_of hyps chosen)))
      ⊎ ((leb (length hyps) (length refs) ≡ false)
          × ((chosen : List String) × IsSelection (length refs) chosen hyps
              × (pairs ≡ pairs_of chosen refs)))

  choose_pairing-candidate_pairings :
      (hyps refs : List String) (pairs : List (String × String))
      → IsAssignment hyps refs pairs
      → total_of cells pairs ≤ total_of cells (choose_pairing cells (candidate_pairings hyps refs))
  unfolding candidate_pairings
  choose_pairing-candidate_pairings hyps refs pairs (inl (fewer, (chosen, s, e))) =
      let lists = permutations (length hyps) refs in
      let candidates = map (λ c. pairs_of hyps c) lists in
      let most = total_of cells (choose_pairing cells candidates) in
      let all =
        All-map (λ x. total_of cells x ≤ most) (λ c. pairs_of hyps c) lists
          (choose_pairing-All candidates) in
      rw (fewer, e)
        (permutations-IsSelection (λ c. total_of cells (pairs_of hyps c) ≤ most) (length hyps)
          chosen refs s all)
  choose_pairing-candidate_pairings hyps refs pairs (inr (more, (chosen, s, e))) =
      let le = λ (x y : String × String). not (lt_pair y x) in
      let lists = permutations (length refs) hyps in
      let sorted = λ (c : List String). sort le (pairs_of c refs) in
      let candidates = map sorted lists in
      let most = total_of cells (choose_pairing cells candidates) in
      let all =
        All-map (λ x. total_of cells x ≤ most) sorted lists (choose_pairing-All candidates) in
      let best =
        permutations-IsSelection (λ c. total_of cells (sorted c) ≤ most) (length refs) chosen hyps s
          all in
      rw (more, e) (omega (arith, best, sum_of-sort le (cooccurrence cells) (pairs_of chosen refs)))

  abbrev reference_labels : List String
  reference_labels = speakers_on (λ c. c.reference_speakers) cells

  abbrev hypothesis_labels : List String
  hypothesis_labels = speakers_on (λ c. c.hypothesis_speakers) cells

  abbrev with_time : String × String → (String × String) × ℕ
  with_time p = (p, cooccurrence cells p)

  total_with_time :
      (pairs : List (String × String))
      → sum_of (λ (m : (String × String) × ℕ). m.1) (map with_time pairs) ≡ total_of cells pairs
  total_with_time [] = refl
  total_with_time (p ∷ pairs) = ap (λ n. cooccurrence cells p + n) (total_with_time pairs)

  -- Without labels on one side there is nothing to assign.
  IsAssignment-empty :
      (hyps refs : List String) (pairs best : List (String × String))
      → IsAssignment hyps refs pairs
      → total_of cells pairs ≤ total_of cells best
      → total_of cells pairs ≤ total_of cells (or_no_pairs refs (or_no_pairs hyps best))
  IsAssignment-empty [] [] pairs best (inl (fewer, ([], s, e))) h = rw e (omega arith)
  IsAssignment-empty [] [] pairs best (inl (fewer, (x ∷ chosen, s, e))) h = rw e (omega arith)
  IsAssignment-empty [] [] pairs best (inr (more, (chosen, s, e))) h = ground arith
  IsAssignment-empty [] (r ∷ refs) pairs best (inl (fewer, (chosen, s, e))) h = rw e (omega arith)
  IsAssignment-empty [] (r ∷ refs) pairs best (inr (more, (chosen, s, e))) h = ground arith
  IsAssignment-empty (l ∷ hyps) [] pairs best (inl (fewer, (chosen, s, e))) h = ground arith
  IsAssignment-empty (l ∷ hyps) [] pairs best (inr (more, ([], s, e))) h = rw e (omega arith)
  IsAssignment-empty (l ∷ hyps) [] pairs best (inr (more, (x ∷ chosen, s, e))) h =
      rw e (omega arith)
  IsAssignment-empty (l ∷ hyps) (r ∷ refs) pairs best a h = h

  -- A mapping that is found has at least the cooccurrence of any assignment that gives each speaker
  -- of the smaller side a speaker of its own of the other side.
  pub mapping_from_cells_maximal :
      (found : List ((String × String) × ℕ)) (pairs : List (String × String))
      → mapping_from_cells cells ≡ ok found
      → IsAssignment hypothesis_labels reference_labels pairs
      → total_of cells pairs ≤ sum_of (λ (m : (String × String) × ℕ). m.1) found
  unfolding mapping_from_cells
  mapping_from_cells_maximal found pairs h a =
      let refs = reference_labels in
      let hyps = hypothesis_labels in
      let best = choose_pairing cells (candidate_pairings hyps refs) in
      let kept = or_no_pairs refs (or_no_pairs hyps best) in
      let result =
        raise_if_then (ltb 2 (length refs) || ltb 2 (length hyps)) evaluation
          (ok (map with_time kept)) found h in
      let least =
        IsAssignment-empty hyps refs pairs best a
          (choose_pairing-candidate_pairings hyps refs pairs a) in
      subst (λ f. total_of cells pairs ≤ sum_of (λ (m : (String × String) × ℕ). m.1) f)
        (ok-inj result) (omega (arith, least, total_with_time kept))
