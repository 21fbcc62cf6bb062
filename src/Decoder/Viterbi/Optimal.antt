-- ===== src/Decoder/Viterbi/Optimal.antt =====
-- The labels that the search finds have the least cost.
use sddiar.Base.{
  ◌≡◌, refl, sym, ap, subst, ◌∙◌, true, List, [], ◌∷◌, ◌++◌, append-nil, reverse_onto,
}
use sddiar.Floats.{Floats, IsOrdered}
use sddiar.Spans.{Speaker}
use sddiar.Tracklets.{DiarizationConfig}
use sddiar.Hypotheses.{HypothesisDecision}
use sddiar.Decoder.{Step, search_rows, labels_back, search_labels}
use sddiar.Decoder.Viterbi.Exact.{
  IsLabelled, steps_of, sequence_cost, path_cost, cost_from-path, search_rows-IsExact,
  steps_of-search_rows, labels_back_least, labels_back-IsLabelled,
}

reverse_again {ℓ} :
    {A : Type ℓ} (xs ys zs : List A)
    → reverse_onto (reverse_onto xs ys) zs ≡ reverse_onto ys (xs ++ zs)
unfolding reverse_onto
reverse_again [] ys zs = refl
reverse_again (x ∷ xs) ys zs = reverse_again xs (x ∷ ys) zs

reverse_twice {ℓ} : {A : Type ℓ} (xs : List A) → reverse_onto (reverse_onto xs []) [] ≡ xs
unfolding reverse_onto
reverse_twice xs = reverse_again xs [] [] ∙ append-nil xs

module _ {F : Type 0} where
  IsLabelled-reverse_onto :
      (candidates : List Speaker) (steps done : List (Step F)) (labels past : List Speaker)
      → IsLabelled candidates steps labels
      → IsLabelled candidates done past
      → IsLabelled candidates (reverse_onto steps done) (reverse_onto labels past)
  unfolding reverse_onto
  IsLabelled-reverse_onto candidates [] done [] past h k = k
  IsLabelled-reverse_onto candidates [] done (l ∷ labels) past h k = absurd h
  IsLabelled-reverse_onto candidates (s ∷ steps) done [] past h k = absurd h
  IsLabelled-reverse_onto candidates (s ∷ steps) done (l ∷ labels) past h k =
      IsLabelled-reverse_onto candidates steps (s ∷ done) labels (l ∷ past) h.1 (h.0, k)

module _ {F : Type 0} (floats : Floats F) (ordered : IsOrdered floats)
    (decision : HypothesisDecision F) (cfg : DiarizationConfig F) (candidates : List Speaker) where
  sequence_cost-path_cost :
      (steps : List (Step F)) (labels : List Speaker)
      → IsLabelled candidates steps labels
      → sequence_cost floats decision cfg steps labels
        ≡ path_cost floats decision cfg (reverse_onto steps []) (reverse_onto labels [])
  unfolding sequence_cost path_cost reverse_onto
  sequence_cost-path_cost [] [] h = refl
  sequence_cost-path_cost [] (l ∷ labels) h = absurd h
  sequence_cost-path_cost (s ∷ steps) [] h = absurd h
  sequence_cost-path_cost (s ∷ steps) (l ∷ labels) h =
      cost_from-path floats decision cfg candidates s l [] [] steps labels h.1

  -- With comparisons that are a total order and an addition that is monotone, the labels that the
  -- search finds before the smoothing are a candidate for each step, and no other such labels have
  -- a lower sum of emissions and transitions.
  pub search_labels_least :
      (steps : List (Step F)) (labels : List Speaker)
      → IsLabelled candidates steps labels
      → IsLabelled candidates steps (search_labels floats decision cfg candidates steps)
        × (floats.leb
              (sequence_cost floats decision cfg steps
                (search_labels floats decision cfg candidates steps))
              (sequence_cost floats decision cfg steps labels)
            ≡ true)
  unfolding search_labels
  search_labels_least steps labels h =
      let table = search_rows floats decision cfg candidates [] steps in
      let back = labels_back floats decision cfg candidates table in
      let exact = search_rows-IsExact floats decision cfg ordered candidates steps [] tt in
      let same = steps_of-search_rows floats decision cfg ordered candidates steps [] in
      let reversed = IsLabelled-reverse_onto candidates steps [] labels [] h tt in
      let through =
        subst (λ s. IsLabelled candidates s (reverse_onto labels [])) (sym same) reversed in
      let valid =
        labels_back-IsLabelled floats decision cfg ordered candidates table _ exact through in
      let best = labels_back_least floats decision cfg ordered candidates table _ exact through in
      let found =
        subst (λ s. IsLabelled candidates s (reverse_onto back [])) (reverse_twice steps)
          (subst (λ s. IsLabelled candidates (reverse_onto s []) (reverse_onto back [])) same
            (IsLabelled-reverse_onto candidates (steps_of table) [] back [] valid tt)) in
      let cost = λ (s : List (Step F)) (l : List Speaker). path_cost floats decision cfg s l in
      let own =
        sequence_cost-path_cost steps (reverse_onto back []) found
        ∙ ap (cost (reverse_onto steps [])) (reverse_twice back) in
      let other = sequence_cost-path_cost steps labels h in
      (
        found,
        rw (own, other)
            (subst (λ s. floats.leb (cost s back) (cost s (reverse_onto labels [])) ≡ true) same
              best),
      )
