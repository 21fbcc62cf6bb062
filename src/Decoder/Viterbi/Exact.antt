-- ===== src/Decoder/Viterbi/Exact.antt =====
-- The cost of a labelling, and that every row of the table holds the costs of the best ones.
use sddiar.Base.{true, ◌≡◌, refl, sym, ap, subst, ◌∙◌, List, [], ◌∷◌, map, reverse_onto}
use sddiar.Floats.{Floats, IsOrdered}
use sddiar.Spans.{Speaker}
use sddiar.Tracklets.{DiarizationConfig}
use sddiar.Hypotheses.{HypothesisDecision}
use sddiar.Decoder.{
  Step, Entry, Table, choose, cost_of, backtrack, or_unknown, transition, step_emission,
  option_from, first_entry, next_entry, extend, search_rows, last_option, labels_back,
}
use sddiar.Decoder.Viterbi.{among, choose_leb, choose-comes, cost_of-map, pointer_of-map, leb_refl}

module _ {F : Type 0} where
  -- One candidate for each step.
  abbrev pub IsLabelled : List Speaker → List (Step F) → List Speaker → Type 0
  IsLabelled candidates [] [] = Unit
  IsLabelled candidates (s ∷ steps) (l ∷ labels) =
      (among l candidates ≡ true) × IsLabelled candidates steps labels
  IsLabelled candidates _ _ = ⊥

  abbrev pub steps_of : Table F → List (Step F)
  steps_of table = map (λ x. x.0) table

module _ {F : Type 0} (floats : Floats F) (decision : HypothesisDecision F)
    (cfg : DiarizationConfig F) where
  -- The cost so far and the cost of going from one label to the next.
  abbrev pub add_step : F → Step F → Speaker → Step F → Speaker → F
  add_step total before k step l =
      floats.add (floats.add total (transition floats k l before.tracklet step.tracklet cfg))
        (step_emission floats decision cfg step l)

  unfoldable pub cost_from : F → Step F → Speaker → List (Step F) → List Speaker → F
  cost_from total before k (step ∷ steps) (l ∷ labels) =
      cost_from (add_step total before k step l) step l steps labels
  cost_from total before k _ _ = total

  -- The cost of labelling the steps: the emissions and the transitions, added in order.
  unfoldable pub sequence_cost : List (Step F) → List Speaker → F
  sequence_cost (step ∷ steps) (l ∷ labels) =
      cost_from (step_emission floats decision cfg step l) step l steps labels
  sequence_cost _ _ = floats.zero

  -- The same with the newest step first.
  unfoldable pub path_cost : List (Step F) → List Speaker → F
  path_cost (step ∷ before ∷ steps) (l ∷ k ∷ labels) =
      add_step (path_cost (before ∷ steps) (k ∷ labels)) before k step l
  path_cost (step ∷ []) (l ∷ labels) = step_emission floats decision cfg step l
  path_cost _ _ = floats.zero

  pub cost_from-path :
      (candidates : List Speaker) (before : Step F) (k : Speaker) (done : List (Step F))
      (past : List Speaker) (steps : List (Step F)) (labels : List Speaker)
      → IsLabelled candidates steps labels
      → cost_from (path_cost (before ∷ done) (k ∷ past)) before k steps labels
        ≡ path_cost (reverse_onto steps (before ∷ done)) (reverse_onto labels (k ∷ past))
  unfolding cost_from path_cost reverse_onto
  cost_from-path candidates before k done past [] [] h = refl
  cost_from-path candidates before k done past [] (l ∷ labels) h = absurd h
  cost_from-path candidates before k done past (s ∷ steps) [] h = absurd h
  cost_from-path candidates before k done past (s ∷ steps) (l ∷ labels) h =
      cost_from-path candidates s l (before ∷ done) (k ∷ past) steps labels h.1

  module _ (ordered : IsOrdered floats) (candidates : List Speaker) where
    -- Each entry is the cost of the path that it stands for, and of no path less.
    abbrev pub IsExact : Table F → Type 0
    IsExact [] = Unit
    IsExact ((step, row) ∷ table) =
        (c : Speaker)
        → among c candidates ≡ true
        → IsLabelled candidates (step ∷ steps_of table) (backtrack ((step, row) ∷ table) c)
          × (path_cost (step ∷ steps_of table) (backtrack ((step, row) ∷ table) c)
              ≡ cost_of floats c row)
          × ((labels : List Speaker)
              → IsLabelled candidates (steps_of table) labels
              → floats.leb (cost_of floats c row) (path_cost (step ∷ steps_of table) (c ∷ labels))
                ≡ true)

    first_least :
        (step : Step F) (c : Speaker) (labels : List Speaker)
        → cost_of floats c (map (first_entry floats decision cfg candidates step) candidates)
          ≡ step_emission floats decision cfg step c
        → IsLabelled {F = F} candidates [] labels
        → floats.leb
            (cost_of floats c (map (first_entry floats decision cfg candidates step) candidates))
            (path_cost (step ∷ []) (c ∷ labels))
          ≡ true
    unfolding path_cost
    first_least step c [] e h = rw e (leb_refl floats ordered _)
    first_least step c (l ∷ labels) e h = absurd h

    first-IsExact : (step : Step F) → IsExact (extend floats decision cfg candidates [] step)
    unfolding extend path_cost backtrack
    first-IsExact step c h =
        let e =
          cost_of-map floats (first_entry floats decision cfg candidates step) (λ k. refl)
            candidates c h in
        ((h, tt), sym e, λ (labels : List Speaker) ok. first_least step c labels e ok)

    add_step_mono :
        (x y : F) (before : Step F) (k : Speaker) (step : Step F) (l : Speaker)
        → floats.leb x y ≡ true
        → floats.leb (add_step x before k step l) (add_step y before k step l) ≡ true
    add_step_mono x y before k step l h = ordered.add_mono _ _ _ (ordered.add_mono _ _ _ h)

    next_least :
        (before : Step F) (row : List (Entry F)) (table : Table F) (step : Step F)
        → IsExact ((before, row) ∷ table)
        → (c : Speaker) (labels : List Speaker) (cost : F)
        → cost
          ≡ (choose floats
              (map (option_from floats decision cfg candidates before row step c) candidates)).0
        → IsLabelled candidates (before ∷ steps_of table) labels
        → floats.leb cost (path_cost (step ∷ before ∷ steps_of table) (c ∷ labels)) ≡ true
    unfolding path_cost
    next_least before row table step exact c [] cost e h = absurd h
    next_least before row table step exact c (k ∷ labels) cost e h =
        let options = option_from floats decision cfg candidates before row step c in
        let chosen = choose_leb floats ordered options candidates k h.0 in
        let rest = (exact k h.0).2 labels h.1 in
        rw e (ordered.leb_trans _ _ _ chosen (add_step_mono _ _ before k step c rest))

    next-IsExact :
        (before : Step F) (row : List (Entry F)) (table : Table F) (step : Step F)
        → IsExact ((before, row) ∷ table)
        → IsExact (extend floats decision cfg candidates ((before, row) ∷ table) step)
    unfolding extend path_cost backtrack
    next-IsExact before row table step exact c h =
        let entry = next_entry floats decision cfg candidates before row step in
        let options = option_from floats decision cfg candidates before row step c in
        let cost = cost_of-map floats entry (λ k. refl) candidates c h in
        let pointer = pointer_of-map floats entry (λ k. refl) candidates c h in
        let (j, member, chosen) = choose-comes floats ordered options candidates c h in
        let (labelled, same, least) = exact j member in
        let from = ap or_unknown pointer ∙ ap (λ x. x.1) chosen in
        let past = λ (k : Speaker). backtrack ((before, row) ∷ table) k in
        (
          subst
              (λ k.
                (among c candidates ≡ true)
                × IsLabelled candidates (before ∷ steps_of table) (past k))
              (sym from) (h, labelled),
          ap (λ k. add_step (path_cost (before ∷ steps_of table) (past k)) before k step c) from
              ∙ ap (λ x. add_step x before j step c) same
              ∙ sym (cost ∙ ap (λ x. x.0) chosen),
          λ (labels : List Speaker) ok. next_least before row table step exact c labels _ cost ok,
        )

    extend-IsExact :
        (table : Table F) (step : Step F)
        → IsExact table
        → IsExact (extend floats decision cfg candidates table step)
    extend-IsExact [] step h = first-IsExact step
    extend-IsExact ((before, row) ∷ table) step h = next-IsExact before row table step h

    pub search_rows-IsExact :
        (steps : List (Step F)) (table : Table F)
        → IsExact table
        → IsExact (search_rows floats decision cfg candidates table steps)
    unfolding search_rows
    search_rows-IsExact [] table h = h
    search_rows-IsExact (s ∷ steps) table h = search_rows-IsExact steps _ (extend-IsExact table s h)

    steps_of-extend :
        (table : Table F) (step : Step F)
        → steps_of (extend floats decision cfg candidates table step) ≡ step ∷ steps_of table
    unfolding extend
    steps_of-extend [] step = refl
    steps_of-extend ((before, row) ∷ table) step = refl

    pub steps_of-search_rows :
        (steps : List (Step F)) (table : Table F)
        → steps_of (search_rows floats decision cfg candidates table steps)
          ≡ reverse_onto steps (steps_of table)
    unfolding search_rows reverse_onto
    steps_of-search_rows [] table = refl
    steps_of-search_rows (s ∷ steps) table =
        steps_of-search_rows steps (extend floats decision cfg candidates table s)
        ∙ ap (reverse_onto steps) (steps_of-extend table s)

    -- The labels, newest first, of a table that the search has filled.
    pub labels_back_least :
        (table : Table F) (labels : List Speaker)
        → IsExact table
        → IsLabelled candidates (steps_of table) labels
        → floats.leb
            (path_cost (steps_of table) (labels_back floats decision cfg candidates table))
            (path_cost (steps_of table) labels)
          ≡ true
    unfolding labels_back path_cost
    labels_back_least [] [] exact h = leb_refl floats ordered _
    labels_back_least [] (l ∷ labels) exact h = absurd h
    labels_back_least ((step, row) ∷ table) [] exact h = absurd h
    labels_back_least ((step, row) ∷ table) (l ∷ labels) exact h =
        let options = last_option floats decision cfg candidates row in
        let (j, member, chosen) = choose-comes floats ordered options candidates l h.0 in
        let same = (exact j member).1 in
        let best = choose_leb floats ordered options candidates l h.0 in
        let bound = (exact l h.0).2 labels h.1 in
        let traced = λ (p : F × Speaker).
          path_cost (step ∷ steps_of table) (backtrack ((step, row) ∷ table) p.1) in
        rw (ap traced chosen ∙ same ∙ sym (ap (λ p. p.0) chosen))
          (ordered.leb_trans _ _ _ best bound)

    -- They are a label for each step.
    pub labels_back-IsLabelled :
        (table : Table F) (labels : List Speaker)
        → IsExact table
        → IsLabelled candidates (steps_of table) labels
        → IsLabelled candidates (steps_of table) (labels_back floats decision cfg candidates table)
    unfolding labels_back
    labels_back-IsLabelled [] labels exact h = tt
    labels_back-IsLabelled ((step, row) ∷ table) [] exact h = absurd h
    labels_back-IsLabelled ((step, row) ∷ table) (l ∷ labels) exact h =
        let options = last_option floats decision cfg candidates row in
        let (j, member, chosen) = choose-comes floats ordered options candidates l h.0 in
        subst
          (λ (p : F × Speaker).
            IsLabelled candidates (step ∷ steps_of table) (backtrack ((step, row) ∷ table) p.1))
          (sym chosen) (exact j member).0
