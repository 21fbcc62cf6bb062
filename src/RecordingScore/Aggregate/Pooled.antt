-- ===== src/RecordingScore/Aggregate/Pooled.antt =====
-- src/sddiar/evaluation.py: the pooled score of the words of a corpus, whose numbers of wrong
-- characters `_aggregate_words` recovers from the ratios of the recordings.
use Prim.Native.String.{String}
use sddiar.Base.{
  ℕ, ◌≤◌, ◌≡◌, refl, ap, ◌∙◌, subst, Bool, not, Option, none, some, List, [], ◌∷◌, sum_of, any, All,
  All_of, Result, ok, ok-inj, bind_ok, map_each, if◌then◌else◌,
}
use sddiar.Floats.{Floats}
use sddiar.DiarizationError.{ratio}
use sddiar.WordScores.{
  WordAnnotation, WordDecision, WordMetrics, is_eligible, weight_of, score_words,
}
use sddiar.WordScores.Words.{score_words-AreCounted}
use sddiar.RecordingScore.{quotient, word_score}
use sddiar.RecordingScore.Aggregate.{
  present, is_given, words_from, wrong_characters, pool_words, aggregate_words,
}
use sddiar.RecordingScore.Aggregate.Present.{amount, sum_of-present, unless_empty-present}
use sddiar.RecordingScore.Aggregate.WordInputs.{
  WordInput, IsExact, round-ratio, sum_where_le, excluded_in, has_words, right_in, eligible_in,
  assigned_in, correct_in, forced_in, characters_in, wrong_in,
}

module _ {F Character : Type 0} (floats : Floats F) (upper : String → String)
    (is_space : Character → Bool) where
  -- One score of words for all the words of the recordings, each with the labels of its recording
  abbrev pub pooled_words : List (WordInput Character) → WordMetrics F
  pooled_words inputs =
      words_from floats (sum_of (eligible_in upper) inputs) (sum_of (assigned_in upper) inputs)
        (sum_of (correct_in upper) inputs) (sum_of (characters_in upper is_space) inputs)
        (sum_of (wrong_in upper is_space) inputs) (sum_of excluded_in inputs)
        (sum_of (forced_in upper) inputs)

  abbrev pub score_input : WordInput Character → Result (Option (WordMetrics F))
  score_input i = word_score floats upper is_space i.mapping i.words i.decisions

module _ {F Character : Type 0} (floats : Floats F) (round : F → ℕ) (upper : String → String)
    (is_space : Character → Bool) where
  -- What the metrics of a recording add to each sum
  abbrev IsWorth : WordInput Character → Option (WordMetrics F) → Type 0
  IsWorth i x =
      (is_given x ≡ has_words i)
      × (amount (λ m. m.eligible_words) x ≡ eligible_in upper i)
      × (amount (λ m. m.assigned_words) x ≡ assigned_in upper i)
      × (amount (λ m. m.correct_words) x ≡ correct_in upper i)
      × (amount (λ m. m.eligible_characters) x ≡ characters_in upper is_space i)
      × (amount (λ m. m.excluded_overlap_or_boundary_words) x ≡ excluded_in i)
      × (amount (λ m. m.forced_overlap_or_boundary_assignments) x ≡ forced_in upper i)
      × (characters_in upper is_space i ≤ 1125899906842624
          → amount (wrong_characters floats round) x ≡ wrong_in upper is_space i)

  word_score-IsWorth :
      IsExact floats round
      → (mapping : List (String × String)) (words : Option (List (WordAnnotation Character)))
        (decisions : List WordDecision) (x : Option (WordMetrics F))
      → word_score floats upper is_space mapping words decisions ≡ ok x
      → IsWorth (record { mapping = mapping; words = words; decisions = decisions }) x
  word_score-IsWorth exact mapping none decisions x h =
      subst (IsWorth (record { mapping = mapping; words = none; decisions = decisions })) (ok-inj h)
        (refl, refl, refl, refl, refl, refl, refl, λ bound. refl)
  word_score-IsWorth exact mapping (some words) decisions x h =
      let input : WordInput Character = record {
        mapping = mapping;
        words = some words;
        decisions = decisions;
      } in
      let (m, scored, same) =
        bind_ok (score_words upper (quotient floats) floats.zero is_space mapping words decisions) _
          x h in
      let (eligible, assigned, correct, excluded, forced, characters, errors) =
        score_words-AreCounted upper (quotient floats) floats.zero is_space mapping words decisions
          m scored in
      subst (IsWorth input) (ok-inj same) (
        refl,
        eligible,
        assigned,
        correct,
        characters,
        excluded,
        forced,
        λ bound.
            ap (λ e. round (floats.mul e (floats.of_int m.eligible_characters))) errors
            ∙ ap
                (λ n. round (
                  floats.mul
                    (ratio (quotient floats) floats.zero (wrong_in upper is_space input)
                      (characters_in upper is_space input))
                    (floats.of_int n)))
                characters
            ∙ round-ratio floats round exact (wrong_in upper is_space input)
                (characters_in upper is_space input)
                (sum_where_le (is_eligible upper) (λ w. not (right_in upper input w))
                  (weight_of is_space) words)
                bound,
      )

  each_worth :
      (P : WordInput Character → Option (WordMetrics F) → Type 0)
      → IsExact floats round
      → ((i : WordInput Character) (x : Option (WordMetrics F)) → IsWorth i x → P i x)
      → (inputs : List (WordInput Character))
      → All
          (λ i. (x : Option (WordMetrics F)) → score_input floats upper is_space i ≡ ok x → P i x)
          inputs
  each_worth P exact pick inputs =
      All_of
        (λ i. (x : Option (WordMetrics F)) → score_input floats upper is_space i ≡ ok x → P i x)
        (λ i x h. pick i x (word_score-IsWorth exact i.mapping i.words i.decisions x h)) inputs

  each_wrong :
      IsExact floats round
      → (inputs : List (WordInput Character))
      → All (λ i. characters_in upper is_space i ≤ 1125899906842624) inputs
      → All
          (λ i.
            (x : Option (WordMetrics F))
            → score_input floats upper is_space i ≡ ok x
            → amount (wrong_characters floats round) x ≡ wrong_in upper is_space i)
          inputs
  each_wrong exact [] bounds = tt
  each_wrong exact (i ∷ inputs) (bound, bounds) = (
    λ x h.
        let (given, eligible, assigned, correct, characters, excluded, forced, wrong) =
          word_score-IsWorth exact i.mapping i.words i.decisions x h in
        wrong bound,
    each_wrong exact inputs bounds,
  )

  module _ (exact : IsExact floats round) (inputs : List (WordInput Character))
      (metrics : List (Option (WordMetrics F)))
      (bounds : All (λ i. characters_in upper is_space i ≤ 1125899906842624) inputs)
      (h : map_each (score_input floats upper is_space) inputs ≡ ok metrics) where
    sum_of-worth :
        (size : WordMetrics F → ℕ) (worth : WordInput Character → ℕ)
        → ((i : WordInput Character) (x : Option (WordMetrics F))
            → IsWorth i x
            → amount size x ≡ worth i)
        → sum_of size (present metrics) ≡ sum_of worth inputs
    sum_of-worth size worth pick =
        sum_of-present (score_input floats upper is_space) size worth inputs metrics
          (each_worth (λ i x. amount size x ≡ worth i) exact pick inputs) h

    pool_words-pooled_words :
        pool_words floats round (present metrics) ≡ pooled_words floats upper is_space inputs
    pool_words-pooled_words =
        rw
          (
            sum_of-worth (λ m. m.eligible_words) (eligible_in upper) (λ i x w. w.1),
            sum_of-worth (λ m. m.assigned_words) (assigned_in upper) (λ i x w. w.2),
            sum_of-worth (λ m. m.correct_words) (correct_in upper) (λ i x w. w.3),
            sum_of-worth (λ m. m.eligible_characters) (characters_in upper is_space) (λ i x w. w.4),
            sum_of-worth (λ m. m.excluded_overlap_or_boundary_words) excluded_in (λ i x w. w.5),
            sum_of-worth (λ m. m.forced_overlap_or_boundary_assignments) (forced_in upper)
                (λ i x w. w.6),
            sum_of-present (score_input floats upper is_space) (wrong_characters floats round)
                (wrong_in upper is_space) inputs metrics (each_wrong exact inputs bounds) h,
          )
          refl

    -- With at most 2 ** 50 characters in the eligible words of each recording and floats that are
    -- exact below that bound, the aggregate of the scores of words is the score of all the words
    -- counted together, each with the labels of its own recording and wrong characters included;
    -- it is absent exactly if no recording has words.
    pub aggregate_words-pooled_words :
        aggregate_words floats round metrics
        ≡ (if any has_words inputs then some (pooled_words floats upper is_space inputs) else none)
    unfolding aggregate_words
    aggregate_words-pooled_words =
        unless_empty-present (score_input floats upper is_space) has_words (pool_words floats round)
          inputs metrics (each_worth (λ i x. is_given x ≡ has_words i) exact (λ i x w. w.0) inputs)
          h
        ∙ ap (λ m. if any has_words inputs then some m else none) pool_words-pooled_words
