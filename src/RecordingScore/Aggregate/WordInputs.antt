-- ===== src/RecordingScore/Aggregate/WordInputs.antt =====
-- src/sddiar/evaluation.py: what the words of one recording are worth in the score of a corpus, and
-- what its sums rely on of the floats.
use Prim.Native.String.{String}
use sddiar.Base.{
  ℕ, zero, suc, ◌≤◌, ◌≡◌, ap, ◌∙◌, Bool, false, not, ◌&&◌, Option, List, [], ◌∷◌, sum_of, ◌==◌,
  if◌then◌else◌, arith,
}
use sddiar.Floats.{Floats}
use sddiar.DiarizationError.{ratio}
use sddiar.WordScores.{
  WordAnnotation, WordDecision, count, is_some, is_eligible, is_excluded, weight_of, prediction_for,
}
use sddiar.WordScores.Words.{is_right}
use sddiar.RecordingScore.{or_empty, quotient}
use sddiar.RecordingScore.Aggregate.{is_given}

-- What `score_recording` gives to the score of words: the mapping, the words and the decisions.
pub record WordInput (Character : Type 0) : Type 0 where
  pub mapping : List (String × String)
  pub words : Option (List (WordAnnotation Character))
  pub decisions : List WordDecision

-- The division of integers up to 2 ** 50, a multiplication by the divisor and `round` give the
-- dividend: two relative errors of at most 2 ** -53 on a number below 2 ** 50.
pub record IsExact {F : Type 0} (floats : Floats F) (round : F → ℕ) : Type 0 where
  pub round_share :
      (m n : ℕ)
      → 1 ≤ n
      → m ≤ n
      → n ≤ 1125899906842624
      → round (floats.mul (floats.div (floats.of_int m) (floats.of_int n)) (floats.of_int n)) ≡ m
  pub round_zero : round (floats.mul floats.zero (floats.of_int 0)) ≡ 0

module _ {F : Type 0} (floats : Floats F) (round : F → ℕ) where
  pub round-ratio :
      IsExact floats round
      → (m n : ℕ) → m ≤ n
      → n ≤ 1125899906842624
      → round (floats.mul (ratio (quotient floats) floats.zero m n) (floats.of_int n)) ≡ m
  round-ratio exact m zero le bound = exact.round_zero ∙ omega (arith, le)
  round-ratio exact m (suc n) le bound =
      let positive : (suc n == 0) ≡ false = ground arith in
      ap
        (λ (b : Bool). round (
          floats.mul
            (if b then floats.zero else floats.div (floats.of_int m) (floats.of_int (suc n)))
            (floats.of_int (suc n))))
        positive
      ∙ exact.round_share m (suc n) (omega arith) le bound

pub sum_where_le :
    {A : Type 0} (test also : A → Bool) (size : A → ℕ) (xs : List A)
    → sum_of (λ x. if test x && also x then size x else 0) xs
      ≤ sum_of (λ x. if test x then size x else 0) xs
sum_where_le test also size [] = omega arith
sum_where_le test also size (x ∷ xs) = ground (arith, sum_where_le test also size xs)

module _ {Character : Type 0} where
  -- The words of a recording, none where it has no words
  abbrev pub count_in :
      (WordInput Character → WordAnnotation Character → Bool) → WordInput Character → ℕ
  count_in test i = count (test i) (or_empty i.words)

  abbrev pub excluded_in : WordInput Character → ℕ
  excluded_in = count_in (λ i w. is_excluded w)

  abbrev pub has_words : WordInput Character → Bool
  has_words i = is_given i.words

module _ {Character : Type 0} (upper : String → String) where
  abbrev pub label_for : WordInput Character → WordAnnotation Character → Option String
  label_for i w = prediction_for upper i.mapping i.decisions w

  abbrev pub right_in : WordInput Character → WordAnnotation Character → Bool
  right_in i w = is_right (label_for i w) w.ref_speaker_id

  abbrev pub eligible_in : WordInput Character → ℕ
  eligible_in = count_in (λ i w. is_eligible upper w)

  abbrev pub assigned_in : WordInput Character → ℕ
  assigned_in = count_in (λ i w. is_eligible upper w && is_some (label_for i w))

  abbrev pub correct_in : WordInput Character → ℕ
  correct_in = count_in (λ i w. is_eligible upper w && right_in i w)

  abbrev pub forced_in : WordInput Character → ℕ
  forced_in = count_in (λ i w. is_excluded w && is_some (label_for i w))

  module _ (is_space : Character → Bool) where
    abbrev pub characters_in : WordInput Character → ℕ
    characters_in i =
        sum_of (λ w. if is_eligible upper w then weight_of is_space w else 0) (or_empty i.words)

    abbrev pub wrong_in : WordInput Character → ℕ
    wrong_in i =
        sum_of (λ w. if is_eligible upper w && not (right_in i w) then weight_of is_space w else 0)
          (or_empty i.words)
