-- ===== src/WordScores/Tests.antt =====
-- Tests of the scores of words and short turns.
use Prim.Native.String.{String}
use sddiar.Base.{
  ℕ, ◌+◌, ◌*◌, ◌==◌, ◌≡◌, refl, Bool, true, false, Option, none, some, List, [], ◌∷◌, ok, err,
  evaluation,
}
use sddiar.WordScores.{
  WordAnnotation, WordDecision, WordMetrics, MicroDecision, score_words, score_micros,
}
use sddiar.WordScores.Words.{AreCounted, score_words-AreCounted}

-- Characters are numbers, and 0 is the only space.
abbrev is_space : ℕ → Bool
is_space c = c == 0

abbrev upper : String → String
upper s = s

abbrev pair : ℕ → ℕ → ℕ
pair m n = m * 100 + n

abbrev word : String → List ℕ → Option String → Bool → WordAnnotation ℕ
word word_id text speaker overlaps = record {
  word_id = word_id;
  start_us = 0;
  end_us = 1;
  text = text;
  ref_speaker_id = speaker;
  attributable = true;
  overlap_flag = overlaps;
  boundary_crossing_flag = false;
}

abbrev decision : String → Option String → WordDecision
decision word_id speaker = record { word_id = word_id; speaker_id = speaker }

abbrev words : List (WordAnnotation ℕ)
words =
    word "w1" (1 ∷ 2 ∷ 0 ∷ []) (some "A") false
    ∷ word "w2" (0 ∷ []) (some "B") false
    ∷ word "w3" (4 ∷ 5 ∷ 6 ∷ []) (some "B") false
    ∷ word "w4" (1 ∷ []) (some "A") true
    ∷ word "w5" (1 ∷ []) (some "UNKNOWN") false
    ∷ []

abbrev decisions : List WordDecision
decisions =
    decision "w3" (some "x")
    ∷ decision "w1" (some "x")
    ∷ decision "w4" (some "y")
    ∷ decision "w2" (some "UNKNOWN")
    ∷ []

abbrev mapping : List (String × String)
mapping = ("x", "A") ∷ ("y", "B") ∷ []

abbrev scored : WordMetrics ℕ
scored = record {
  eligible_words = 3;
  assigned_words = 2;
  correct_words = 1;
  precision = pair 1 2;
  coverage = pair 2 3;
  strict_error = pair 2 3;
  unsafe_error = pair 1 2;
  eligible_characters = 6;
  character_weighted_error = pair 4 6;
  excluded_overlap_or_boundary_words = 1;
  forced_overlap_or_boundary_assignments = 1;
}

words_test : score_words upper pair 0 is_space mapping words decisions ≡ ok scored
unfolding score_words sddiar.DiarizationError.distinct_labels sddiar.Base.keep_if
words_test = refl

repeated_test :
    score_words upper pair 0 is_space mapping words (decision "w1" none ∷ decisions)
    ≡ err evaluation
unfolding score_words sddiar.DiarizationError.distinct_labels
repeated_test = refl

score_words-AreCounted_example : AreCounted upper pair 0 is_space mapping words decisions scored
score_words-AreCounted_example =
    score_words-AreCounted upper pair 0 is_space mapping words decisions scored words_test

abbrev micro : String → Option String → Option String → MicroDecision
micro decision_id reference predicted = record {
  decision_id = decision_id;
  reference_speaker_id = reference;
  predicted_speaker_id = predicted;
  eligible = true;
}

micros_test :
    score_micros upper pair 0 mapping
      (micro "m1" (some "A") (some "x") ∷ micro "m2" (some "B") (some "UNKNOWN_SHORT") ∷ [])
    ≡ ok record {
      eligible_micros = 2;
      assigned_micros = 1;
      correct_micros = 1;
      precision = pair 1 1;
      coverage = pair 1 2;
      unknown_short_rate = pair 1 2;
    }
unfolding score_micros sddiar.DiarizationError.distinct_labels sddiar.Base.keep_if
micros_test = refl
