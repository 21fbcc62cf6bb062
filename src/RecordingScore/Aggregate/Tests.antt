-- ===== src/RecordingScore/Aggregate/Tests.antt =====
-- Tests of the score of a corpus.
use Prim.Native.String.{String}
use sddiar.Base.{
  ℕ, ◌*◌, ◌≡◌, refl, true, false, Option, none, some, List, [], ◌∷◌, Result, ok, err, length,
  map_each, ltb, leb, arith,
}
use sddiar.Base.Div.{half_up, half_up_mul}
use sddiar.Floats.{Floats}
use sddiar.Floats.Tests.{naturals}
use sddiar.WordScores.{WordAnnotation, WordDecision, WordMetrics}
use sddiar.RecordingScore.{Recording}
use sddiar.RecordingScore.Score.{score_recording}
use sddiar.RecordingScore.Tests.{
  upper, is_space, cfg, recording, hypothesis, scored, merged, score_test,
}
use sddiar.RecordingScore.Aggregate.{aggregate_words, aggregate_recording_scores}
use sddiar.RecordingScore.Aggregate.Bounds.{IsTally, aggregate_recording_scores-IsTally}
use mathlib.Core.List.{Permᴰ}
use sddiar.RecordingScore.Aggregate.Order.{AgreeInCounts, aggregate_recording_scores-AgreeInCounts}
use sddiar.RecordingScore.Aggregate.Pooled.{pooled_words, score_input, aggregate_words-pooled_words}
use sddiar.RecordingScore.Aggregate.WordInputs.{WordInput, IsExact}

abbrev corpus : List (Recording ℕ)
corpus = recording hypothesis ∷ recording hypothesis ∷ []

corpus_test :
    map_each (score_recording naturals cfg upper is_space) corpus ≡ ok (scored ∷ scored ∷ [])
unfolding map_each
corpus_test = rw score_test refl

aggregate_recording_scores-IsTally_example :
    IsTally naturals
      (scored ∷ scored ∷ [])
      (aggregate_recording_scores naturals (λ n. n) (scored ∷ scored ∷ []))
    × (length (scored ∷ scored ∷ []) ≡ length corpus)
aggregate_recording_scores-IsTally_example =
    aggregate_recording_scores-IsTally naturals cfg upper is_space (λ n. n) corpus
      (scored ∷ scored ∷ []) corpus_test

aggregate_recording_scores-AgreeInCounts_example :
    AgreeInCounts
      (aggregate_recording_scores naturals (λ n. n) (scored ∷ merged ∷ []))
      (aggregate_recording_scores naturals (λ n. n) (merged ∷ scored ∷ []))
aggregate_recording_scores-AgreeInCounts_example =
    aggregate_recording_scores-AgreeInCounts naturals (λ n. n) (Permᴰ.swap refl refl)

-- Exact fractions stand for the floats.
abbrev fractions : Floats (ℕ × ℕ)
fractions = record {
  add = λ a b. a;
  sub = λ a b. a;
  mul = λ a b. (a.0 * b.0, a.1 * b.1);
  div = λ a b. (a.0 * b.1, a.1 * b.0);
  root = λ a. a;
  of_int = λ n. (n, 1);
  lt = λ a b. ltb a.0 b.0;
  leb = λ a b. leb a.0 b.0;
  finite = λ a. true;
  is_close_to_one = λ a. true;
  zero = (0, 1);
  one = (1, 1);
  infinity = (1, 0);
  tiny = (0, 1);
  small = (0, 1);
  huge = (1, 0);
}

abbrev round : ℕ × ℕ → ℕ
round a = half_up a.0 a.1

one_sides : (m n : ℕ) → (m * 1 * n ≡ n * m) × (1 * n * 1 ≡ n)
one_sides m n = (grind arith, omega arith)

fractions-IsExact : IsExact fractions round
unfolding half_up
fractions-IsExact = record {
  round_share = λ m n positive le bound.
      let (dividend, divisor) = one_sides m n in rw (dividend, divisor) (half_up_mul m n positive);
  round_zero = refl;
}

abbrev word : String → List ℕ → WordAnnotation ℕ
word word_id text = record {
  word_id = word_id;
  start_us = 0;
  end_us = 1;
  text = text;
  ref_speaker_id = some "A";
  attributable = true;
  overlap_flag = false;
  boundary_crossing_flag = false;
}

abbrev input : String → Option (List (WordAnnotation ℕ)) → WordInput ℕ
input speaker words = record {
  mapping = ("x", "A") ∷ [];
  words = words;
  decisions = record { word_id = "w1"; speaker_id = some speaker } ∷ [];
}

abbrev inputs : List (WordInput ℕ)
inputs =
    input "x" (some (word "w1" (1 ∷ 2 ∷ []) ∷ word "w2" (3 ∷ []) ∷ []))
    ∷ input "y" none
    ∷ input "y" (some (word "w1" (4 ∷ []) ∷ []))
    ∷ []

abbrev result_of : Result (Option (WordMetrics (ℕ × ℕ))) → Option (WordMetrics (ℕ × ℕ))
result_of (ok x) = x
result_of (err e) = none

abbrev results : List (WordInput ℕ) → List (Option (WordMetrics (ℕ × ℕ)))
results [] = []
results (i ∷ is) = result_of (score_input fractions upper is_space i) ∷ results is

metrics_test : map_each (score_input fractions upper is_space) inputs ≡ ok (results inputs)
unfolding map_each sddiar.WordScores.score_words sddiar.DiarizationError.distinct_labels
metrics_test = refl

pooled_test : (pooled_words fractions upper is_space inputs).character_weighted_error ≡ (2, 4)
pooled_test = refl

aggregate_words-pooled_words_example :
    aggregate_words fractions round (results inputs)
    ≡ some (pooled_words fractions upper is_space inputs)
aggregate_words-pooled_words_example =
    aggregate_words-pooled_words fractions round upper is_space fractions-IsExact inputs
      (results inputs) (omega arith, (omega arith, (omega arith, tt))) metrics_test
