-- ===== src/WordScores.antt =====
-- src/sddiar/evaluation.py: the scores of words and of short turns against reference speakers.
pub mod Distinct
pub mod Counts
pub mod Lookup
pub mod Words
mod Tests
use Prim.Native.String.{String}
use text.Mathlib.Text.{◌==◌ as str_eq}
use sddiar.Base.{
  ℕ, ◌+◌, ◌-◌, Bool, true, false, not, ◌&&◌, ◌||◌, Option, none, some, List, [], ◌∷◌, map, length,
  sum_of, any, keep_if, Result, ok, evaluation, ◌>>◌, ◌>>=◌, raise_if, if◌then◌else◌, ◌==◌,
}
use sddiar.DiarizationError.{label_in, mapped_to, distinct_labels, ratio}

-- `_REFERENCE_NON_SPEAKERS`
abbrev pub reference_non_speakers : List String
reference_non_speakers =
    "REF_OTHER" ∷ "UNKNOWN" ∷ "OVERLAP" ∷ "OTHER" ∷ "NON_SPEECH" ∷ "SIL" ∷ "SILENCE" ∷ []

-- `_HYPOTHESIS_NON_SPEAKERS`
abbrev pub hypothesis_non_speakers : List String
hypothesis_non_speakers =
    "REF_OTHER" ∷ "UNKNOWN" ∷ "UNKNOWN_SHORT" ∷ "OVERLAP" ∷ "OTHER" ∷ "NON_SPEECH" ∷ "SIL"
    ∷ "SILENCE" ∷ []

-- The text of a word is the list of its characters.
pub record WordAnnotation (Character : Type 0) : Type 0 where
  pub word_id : String
  pub start_us : ℕ
  pub end_us : ℕ
  pub text : List Character
  pub ref_speaker_id : Option String
  pub attributable : Bool
  pub overlap_flag : Bool
  pub boundary_crossing_flag : Bool

pub record WordDecision : Type 0 where
  pub word_id : String
  pub speaker_id : Option String

pub record MicroDecision : Type 0 where
  pub decision_id : String
  pub reference_speaker_id : Option String
  pub predicted_speaker_id : Option String
  pub eligible : Bool

-- The ratios are those of `ratio`, for a type of floats.
pub record WordMetrics (F : Type 0) : Type 0 where
  pub eligible_words : ℕ
  pub assigned_words : ℕ
  pub correct_words : ℕ
  pub precision : F
  pub coverage : F
  pub strict_error : F
  pub unsafe_error : F
  pub eligible_characters : ℕ
  pub character_weighted_error : F
  pub excluded_overlap_or_boundary_words : ℕ
  pub forced_overlap_or_boundary_assignments : ℕ

pub record MicroMetrics (F : Type 0) : Type 0 where
  pub eligible_micros : ℕ
  pub assigned_micros : ℕ
  pub correct_micros : ℕ
  pub precision : F
  pub coverage : F
  pub unknown_short_rate : F

abbrev pub is_some : Option String → Bool
is_some none = false
is_some (some x) = true

-- `predicted == word.ref_speaker_id`, for a predicted speaker
abbrev pub is_speaker : String → Option String → Bool
is_speaker label none = false
is_speaker label (some speaker) = str_eq label speaker

abbrev pub same_option : Option String → Option String → Bool
same_option none none = true
same_option none (some y) = false
same_option (some x) other = is_speaker x other

-- `len(set(ids)) != len(ids)`
abbrev pub has_duplicates : List String → Bool
has_duplicates ids = not (length (distinct_labels [] ids) == length ids)

abbrev pub label_or : String → Option String → String
label_or label none = label
label_or label (some speaker) = speaker

-- `decision_by_id.get(word_id)`: a later decision replaces an earlier one.
abbrev pub decided_for : String → Option String → List WordDecision → Option String
decided_for word_id found [] = found
decided_for word_id found (d ∷ decisions) =
    decided_for word_id (if str_eq d.word_id word_id then d.speaker_id else found) decisions

-- `sum(...)` of the Booleans of a comprehension
abbrev pub count {ℓ} : {A : Type ℓ} → (A → Bool) → List A → ℕ
count test xs = sum_of (λ x. if test x then 1 else 0) xs

module _ {A : Type 0} where
  abbrev pub add_assigned : A → Option String → List (A × String) → List (A × String)
  add_assigned x none assigned = assigned
  add_assigned x (some label) assigned = (x, label) ∷ assigned

  -- The elements that have a prediction, with it.
  abbrev pub assigned_of : (A → Option String) → List A → List (A × String)
  assigned_of predict [] = []
  assigned_of predict (x ∷ xs) = add_assigned x (predict x) (assigned_of predict xs)

-- `... or 1`
abbrev pub or_one : ℕ → ℕ
or_one n = if n == 0 then 1 else n

module _ {Character : Type 0} where
  abbrev pub is_excluded : WordAnnotation Character → Bool
  is_excluded w = w.overlap_flag || w.boundary_crossing_flag

  abbrev pub is_correct : WordAnnotation Character × String → Bool
  is_correct (w, predicted) = is_speaker predicted w.ref_speaker_id

  -- `assigned_by_id.get(word_id)`
  abbrev pub assigned_to :
      String → Option String → List (WordAnnotation Character × String) → Option String
  assigned_to word_id found [] = found
  assigned_to word_id found ((w, predicted) ∷ assigned) =
      assigned_to word_id (if str_eq w.word_id word_id then some predicted else found) assigned

  abbrev pub weight_of : (Character → Bool) → WordAnnotation Character → ℕ
  weight_of is_space w = or_one (count (λ c. not (is_space c)) w.text)

  abbrev pub is_wrong : List (WordAnnotation Character × String) → WordAnnotation Character → Bool
  is_wrong assigned w = not (same_option (assigned_to w.word_id none assigned) w.ref_speaker_id)

-- `upper` is `str.upper`.
module _ (upper : String → String) where
  abbrev pub is_reference_speaker : String → Bool
  is_reference_speaker label = not (label_in (upper label) reference_non_speakers)

  abbrev pub is_hypothesis_speaker : String → Bool
  is_hypothesis_speaker label = not (label_in (upper label) hypothesis_non_speakers)

  abbrev pub mapped_prediction : List (String × String) → Option String → Option String
  mapped_prediction mapping none = none
  mapped_prediction mapping (some label) =
      if is_hypothesis_speaker label then some (label_or label (mapped_to mapping label)) else none

  abbrev pub is_reference : Option String → Bool
  is_reference none = false
  is_reference (some label) = is_reference_speaker label

  module _ {Character : Type 0} where
    abbrev pub is_eligible : WordAnnotation Character → Bool
    is_eligible w =
        w.attributable
        && not w.overlap_flag
        && not w.boundary_crossing_flag
        && is_reference w.ref_speaker_id

    abbrev pub prediction_for :
        List (String × String) → List WordDecision → WordAnnotation Character → Option String
    prediction_for mapping decisions w =
        mapped_prediction mapping (decided_for w.word_id none decisions)

    -- What `score_words` returns, for the prediction of a word. `quotient` and `zero_ratio` are those
    -- of `ratio`, and `is_space` is `str.isspace`.
    abbrev pub word_metrics :
        {F : Type 0}
        → (ℕ → ℕ → F)
        → F
        → (Character → Bool)
        → (WordAnnotation Character → Option String)
        → List (WordAnnotation Character)
        → WordMetrics F
    word_metrics quotient zero_ratio is_space predict reference =
        let eligible = keep_if is_eligible reference in
        let assigned = assigned_of predict eligible in
        let correct = count is_correct assigned in
        let excluded = keep_if is_excluded reference in
        let forced = count (λ w. is_some (predict w)) excluded in
        let character_total = sum_of (weight_of is_space) eligible in
        let character_errors =
          sum_of (λ w. if is_wrong assigned w then weight_of is_space w else 0) eligible in
        record {
          eligible_words = length eligible;
          assigned_words = length assigned;
          correct_words = correct;
          precision = ratio quotient zero_ratio correct (length assigned);
          coverage = ratio quotient zero_ratio (length assigned) (length eligible);
          strict_error = ratio quotient zero_ratio (length eligible - correct) (length eligible);
          unsafe_error = ratio quotient zero_ratio (length assigned - correct) (length assigned);
          eligible_characters = character_total;
          character_weighted_error = ratio quotient zero_ratio character_errors character_total;
          excluded_overlap_or_boundary_words = length excluded;
          forced_overlap_or_boundary_assignments = forced;
        }

    unfoldable pub score_words :
        {F : Type 0}
        → (ℕ → ℕ → F)
        → F
        → (Character → Bool)
        → List (String × String)
        → List (WordAnnotation Character)
        → List WordDecision
        → Result (WordMetrics F)
    score_words quotient zero_ratio is_space mapping reference decisions = do
      let word_ids = map (λ (w : WordAnnotation Character). w.word_id) reference
      let decision_ids = map (λ (d : WordDecision). d.word_id) decisions
      raise_if (has_duplicates word_ids || has_duplicates decision_ids) evaluation
      raise_if (any (λ d. not (label_in d word_ids)) decision_ids) evaluation
      ok (word_metrics quotient zero_ratio is_space (prediction_for mapping decisions) reference)

  abbrev pub is_eligible_micro : MicroDecision → Bool
  is_eligible_micro d = d.eligible && is_some d.reference_speaker_id

  abbrev pub is_correct_micro : MicroDecision × String → Bool
  is_correct_micro (d, predicted) = is_speaker predicted d.reference_speaker_id

  abbrev pub is_unknown_micro : Option String → Bool
  is_unknown_micro none = true
  is_unknown_micro (some label) = label_in (upper label) ("UNKNOWN" ∷ "UNKNOWN_SHORT" ∷ [])

  unfoldable pub score_micros :
      {F : Type 0}
      → (ℕ → ℕ → F)
      → F
      → List (String × String)
      → List MicroDecision
      → Result (MicroMetrics F)
  score_micros quotient zero_ratio mapping decisions = do
    let ids = map (λ (d : MicroDecision). d.decision_id) decisions
    raise_if (has_duplicates ids) evaluation
    let eligible = keep_if is_eligible_micro decisions
    let assigned =
        assigned_of (λ (d : MicroDecision). mapped_prediction mapping d.predicted_speaker_id)
          eligible
    let correct = count is_correct_micro assigned
    let unknown = count (λ (d : MicroDecision). is_unknown_micro d.predicted_speaker_id) eligible
    ok record {
      eligible_micros = length eligible;
      assigned_micros = length assigned;
      correct_micros = correct;
      precision = ratio quotient zero_ratio correct (length assigned);
      coverage = ratio quotient zero_ratio (length assigned) (length eligible);
      unknown_short_rate = ratio quotient zero_ratio unknown (length eligible);
    }
