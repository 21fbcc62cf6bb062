-- ===== src/RecordingScore.antt =====
-- src/sddiar/evaluation.py: `score_recording`, the score of one recording on its UEM, from the
-- timeline cells, the boundaries and the words.
pub mod Changes
pub mod Score
pub mod Inside
pub mod Heap
pub mod Latest
pub mod Prior
pub mod Exact
pub mod Derived
pub mod Collared
pub mod Laws
pub mod Coherent
pub mod Aggregate
pub mod Tests
use Prim.Native.String.{String}
use text.Mathlib.Text.{◌==◌ as str_eq}
use sddiar.Base.{
  ℕ, ◌+◌, ◌*◌, Bool, true, false, not, ◌&&◌, ◌||◌, Option, none, some, List, [], ◌∷◌, ◌++◌, map,
  length, sum_of, any, keep_if, Result, ok, err, evaluation, ◌>>=◌, ◌>>◌, raise_if, map_each, ltb,
  leb, ◌==◌, if◌then◌else◌,
}
use sddiar.Base.Sort.{sort}
use sddiar.Floats.{Floats, min_float}
use sddiar.Intervals.{Interval, within}
use sddiar.Scoring.{sorted_set, apply_collar}
use sddiar.Scoring.Boundaries.{EventCounts, score_boundaries}
use sddiar.DiarizationError.{
  TimelineCell, label_in, distinct_labels, speakers_on, ErrorComponents, error_components,
  mapping_from_cells,
}
use sddiar.DiarizationError.OneToOne.{pairs_in}
use sddiar.DiarizationError.Speakers.{
  speaker_duration, float_ratio, jer, SpeakerTimes, speaker_scores, OverlapTimes, Precision,
  precision_recall_f1, overlap_metrics, ref_positive,
}
use sddiar.WordScores.{
  WordAnnotation, WordDecision, MicroDecision, WordMetrics, MicroMetrics, score_words, score_micros,
  is_reference_speaker, is_hypothesis_speaker,
}
use sddiar.TimelineCells.{
  RttmRecord, UemInterval, timeline_cells, uem_by_channel, validate_recording_ids, file_ids,
  first_of,
}

-- The settings that `score_recording` reads, after their checks
pub record ScoringConfig : Type 0 where
  pub reference_speaker_duration_floor_us : ℕ
  pub hypothesis_speaker_duration_floor_us : ℕ
  pub der_collar_us : ℕ
  pub scd_collar_us : ℕ

-- The arguments of `score_recording`; those of a type that the code tests have passed the test.
pub record Recording (Character : Type 0) : Type 0 where
  pub recording_id : Option String
  pub reference : List RttmRecord
  pub hypothesis : List RttmRecord
  pub uem : List UemInterval
  pub quality_status : String
  pub reference_scd_us : Option (List ℕ)
  pub predicted_scd_us : Option (List ℕ)
  pub overlap_reference_available : Option Bool
  pub words : Option (List (WordAnnotation Character))
  pub word_decisions : Option (List WordDecision)
  pub micro_decisions : Option (List MicroDecision)

pub record RecordingScore (F : Type 0) : Type 0 where
  pub recording_id : String
  pub mapping : List ((String × String) × ℕ)
  pub diarization_all : ErrorComponents F
  pub diarization_nonoverlap : ErrorComponents F
  pub jer : F
  pub reference_speaker_count : ℕ
  pub hypothesis_speaker_count : ℕ
  pub eligible_reference_h1 : Bool
  pub eligible_reference_h2 : Bool
  pub acoustic_complete_merge : Bool
  pub unsafe_complete_merge : Bool
  pub false_h2 : Bool
  pub false_h2_secondary_duration_us : ℕ
  pub false_h2_duration_ratio : F
  pub speaker_count_correct : Bool
  pub speakers : List SpeakerTimes
  pub worst_speaker_coverage : Option F
  pub worst_speaker_assigned_accuracy : Option F
  pub scd : EventCounts
  pub scd_precision : Precision F
  pub overlap : OverlapTimes × Option (Precision F)
  pub words : Option (WordMetrics F)
  pub micros : Option (MicroMetrics F)
  pub quality_status : String

-- A mapping from channels, in the order of the channels
abbrev pub Channels : Type 0
Channels = List (String × List Interval)

-- `_inside_uem`
abbrev pub inside_uem : ℕ → Channels → Bool
inside_uem point uem = any (λ (c : String × List Interval). any (λ x. within point x) c.1) uem

-- `{record.channel: uem.get(record.channel, ())}`
abbrev pub intervals_of : String → Channels → Channels
intervals_of channel uem = keep_if (λ (c : String × List Interval). str_eq c.0 channel) uem

abbrev pub collar_points : (String → String) → List RttmRecord → Channels → List ℕ
collar_points upper [] uem = []
collar_points upper (r ∷ reference) uem =
    let rest = collar_points upper reference uem in
    if is_reference_speaker upper r.speaker_id
    then keep_if (λ point. inside_uem point (intervals_of r.channel uem))
        (r.start_us ∷ r.end_us ∷ [])
      ++ rest
    else rest

-- `_der_collar_boundaries`
unfoldable pub der_collar_boundaries : (String → String) → List RttmRecord → Channels → List ℕ
der_collar_boundaries upper reference uem = sorted_set (collar_points upper reference uem)

-- `_apply_collar`, for all channels
unfoldable pub apply_collar_all : Channels → List ℕ → ℕ → Result Channels
apply_collar_all uem boundaries collar_us =
    map_each
      (λ (c : String × List Interval).
        apply_collar c.1 boundaries collar_us >>= λ intervals. ok (c.0, intervals))
      uem

abbrev pub or_empty {ℓ} : {A : Type ℓ} → Option (List A) → List A
or_empty none = []
or_empty (some xs) = xs

-- `values is not None and len(values) > limit`
abbrev pub is_over_limit {ℓ} : {A : Type ℓ} → Option (List A) → ℕ → Bool
is_over_limit values limit = ltb limit (length (or_empty values))

abbrev pub or_given : Option (List ℕ) → List ℕ → List ℕ
or_given none derived = derived
or_given (some values) derived = values

-- The limits on the sizes of the inputs
abbrev pub check_limits : {Character : Type 0} → Recording Character → Result (Unit {0})
check_limits r = do
  raise_if (ltb 100000 (length r.reference) || ltb 100000 (length r.hypothesis)) evaluation
  raise_if (ltb 10000 (length r.uem)) evaluation
  raise_if (ltb 2000000 (length r.uem * (length r.reference + length r.hypothesis + 1))) evaluation
  raise_if (is_over_limit r.words 200000) evaluation
  raise_if (is_over_limit r.word_decisions 200000) evaluation
  raise_if (is_over_limit r.micro_decisions 200000) evaluation
  raise_if (is_over_limit r.reference_scd_us 100000 || is_over_limit r.predicted_scd_us 100000)
      evaluation

-- `recording_id`, or the one file id
abbrev pub infer_id : Option String → List String → Result String
infer_id (some id) ids = ok id
infer_id none ids =
    raise_if (not (length (distinct_labels [] ids) == 1)) evaluation >> ok (first_of ids)

abbrev pub is_outside : {Character : Type 0} → Channels → WordAnnotation Character → Bool
is_outside uem w = not (
    any
      (λ (c : String × List Interval).
        any (λ (x : Interval). leb x.0 w.start_us && leb w.end_us x.1) c.1)
      uem)

abbrev pub has_decisions_only : {A B : Type 0} → Option A → Option B → Bool
has_decisions_only none (some decisions) = true
has_decisions_only _ _ = false

-- `_PASS_SPEAKER_AWARE`
abbrev pub passes_speaker_aware : String → Bool
passes_speaker_aware status = label_in status ("PASS_HIGH" ∷ "PASS_STANDARD" ∷ [])

-- `ordered_hypothesis_durations[1]`, if there is one
abbrev pub second_or_zero : List ℕ → ℕ
second_or_zero (x ∷ y ∷ rest) = y
second_or_zero _ = 0

module _ {F : Type 0} (floats : Floats F) where
  abbrev pub quotient : ℕ → ℕ → F
  quotient m n = floats.div (floats.of_int m) (floats.of_int n)

  -- `min(values, default=None)`
  abbrev pub least_from : F → List F → F
  least_from least [] = least
  least_from least (x ∷ values) = least_from (min_float floats least x) values

  abbrev pub least_of : List F → Option F
  least_of [] = none
  least_of (x ∷ values) = some (least_from x values)

  abbrev pub coverage_of : SpeakerTimes → F
  coverage_of s = float_ratio floats s.assigned_duration_us s.reference_duration_us

  abbrev pub accuracy_of : SpeakerTimes → F
  accuracy_of s = float_ratio floats s.correct_duration_us s.assigned_duration_us

  -- `upper` and `is_space` are `str.upper` and `str.isspace`.
  module _ {Character : Type 0} (upper : String → String) (is_space : Character → Bool) where
    abbrev pub word_score :
        List (String × String)
        → Option (List (WordAnnotation Character))
        → List WordDecision
        → Result (Option (WordMetrics F))
    word_score mapping none decisions = ok none
    word_score mapping (some words) decisions =
        score_words upper quotient floats.zero is_space mapping words decisions >>= λ metrics.
        ok (some metrics)

    abbrev pub micro_score :
        List (String × String) → Option (List MicroDecision) → Result (Option (MicroMetrics F))
    micro_score mapping none = ok none
    micro_score mapping (some decisions) =
        score_micros upper quotient floats.zero mapping decisions >>= λ metrics. ok (some metrics)
