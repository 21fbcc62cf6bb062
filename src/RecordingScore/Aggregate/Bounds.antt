-- ===== src/RecordingScore/Aggregate/Bounds.antt =====
-- The numbers of files of a corpus, by the numbers of speakers of its recordings, and the bounds
-- of its errors.
use Prim.Native.String.{String}
use sddiar.Base.{
  ℕ, ◌+◌, ◌≤◌, ◌≡◌, refl, ap, ◌∙◌, subst, Bool, ◌&&◌, ◌||◌, List, [], ◌∷◌, length, sum_of, keep_if,
  All, ok, map_each, ◌==◌, if◌then◌else◌, arith,
}
use sddiar.Base.Each.{map_each-All, length-map_each}
use sddiar.Floats.{Floats}
use sddiar.DiarizationError.Speakers.{float_ratio}
use sddiar.WordScores.{count}
use sddiar.WordScores.Counts.{length-keep_if, count-keep_if}
use sddiar.RecordingScore.{ScoringConfig, Recording, RecordingScore}
use sddiar.RecordingScore.Score.{score_recording}
use sddiar.RecordingScore.Laws.{score_recording-IsScored, score_recording-IsAccounted}
use sddiar.RecordingScore.Aggregate.{AggregateScore, aggregate_recording_scores}

module _ {F : Type 0} where
  -- The numbers of speakers of a recording
  abbrev pub has_counts : ℕ → ℕ → RecordingScore F → Bool
  has_counts references hypotheses s =
      (s.reference_speaker_count == references) && (s.hypothesis_speaker_count == hypotheses)

  abbrev pub has_references : ℕ → RecordingScore F → Bool
  has_references references s = s.reference_speaker_count == references

  abbrev pub counts_right : RecordingScore F → Bool
  counts_right s = has_counts 1 1 s || has_counts 2 2 s

  -- The verdicts by the numbers of speakers, and no more missed and confused than reference time
  abbrev IsJudged : RecordingScore F → Type 0
  IsJudged s =
      (s.eligible_reference_h1 ≡ has_references 1 s)
      × (s.eligible_reference_h2 ≡ has_references 2 s)
      × (s.acoustic_complete_merge ≡ has_counts 2 1 s)
      × (s.false_h2 ≡ has_counts 1 2 s)
      × (s.speaker_count_correct ≡ counts_right s)
      × (s.diarization_all.sums.miss_us + s.diarization_all.sums.confusion_us
          ≤ s.diarization_all.sums.reference_speaker_us)
      × (s.diarization_nonoverlap.sums.miss_us + s.diarization_nonoverlap.sums.confusion_us
          ≤ s.diarization_nonoverlap.sums.reference_speaker_us)

count-by :
    {A : Type 0} (P : A → Type 0) (p q : A → Bool)
    → ((x : A) → P x → p x ≡ q x)
    → (xs : List A) → All P xs
    → count p xs ≡ count q xs
count-by P p q h [] each = refl
count-by P p q h (x ∷ xs) (first, each) =
    omega
      (arith, ap {B = ℕ} (λ (b : Bool). if b then 1 else 0) (h x first), count-by P p q h xs each)

sum_of-below :
    {A : Type 0} (P : A → Type 0) (f g most : A → ℕ)
    → ((x : A) → P x → f x + g x ≤ most x)
    → (xs : List A) → All P xs
    → sum_of f xs + sum_of g xs ≤ sum_of most xs
sum_of-below P f g most h [] each = omega arith
sum_of-below P f g most h (x ∷ xs) (first, each) =
    omega (arith, h x first, sum_of-below P f g most h xs each)

module _ {F : Type 0} where
  references_le :
      (scores : List (RecordingScore F))
      → count (has_references 1) scores + count (has_references 2) scores ≤ length scores
  references_le [] = omega arith
  references_le (s ∷ scores) = ground (arith, references_le scores)

  verdicts_le :
      (scores : List (RecordingScore F))
      → count (has_counts 2 1) scores + count (has_counts 1 2) scores + count counts_right scores
        ≤ count (has_references 1) scores + count (has_references 2) scores
  verdicts_le [] = omega arith
  verdicts_le (s ∷ scores) = ground (arith, verdicts_le scores)

both_equal :
    (m n : ℕ)
    → (((m == 1) || (m == 2)) && (m == n)) ≡ (((m == 1) && (n == 1)) || ((m == 2) && (n == 2)))
both_equal m n = ground arith

and_both : {a b p : Bool} (q : Bool) → a ≡ p → b ≡ (p && q) → (a && b) ≡ (p && q)
and_both q h k = ground (arith, h, k)

module _ {F : Type 0} where
  -- The numbers of files are those of the recordings with the numbers of speakers.
  abbrev pub IsTally : Floats F → List (RecordingScore F) → AggregateScore F → Type 0
  IsTally floats scores a =
      (a.eligible_h1_files ≡ count (has_references 1) scores)
      × (a.eligible_h2_files ≡ count (has_references 2) scores)
      × (a.complete_merge_files ≡ count (has_counts 2 1) scores)
      × (a.false_h2_files ≡ count (has_counts 1 2) scores)
      × (a.speaker_count_accuracy
          ≡ float_ratio floats (count counts_right scores)
              (a.eligible_h1_files + a.eligible_h2_files))
      × (a.complete_merge_files + a.false_h2_files + count counts_right scores
          ≤ a.eligible_h1_files + a.eligible_h2_files)
      × (a.eligible_h1_files + a.eligible_h2_files ≤ a.recording_count)
      × (a.diarization_all.sums.miss_us + a.diarization_all.sums.confusion_us
          ≤ a.diarization_all.sums.reference_speaker_us)
      × (a.diarization_nonoverlap.sums.miss_us + a.diarization_nonoverlap.sums.confusion_us
          ≤ a.diarization_nonoverlap.sums.reference_speaker_us)

  aggregate-IsTally :
      (floats : Floats F) (round : F → ℕ) (scores : List (RecordingScore F))
      → All IsJudged scores
      → IsTally floats scores (aggregate_recording_scores floats round scores)
  unfolding aggregate_recording_scores
  aggregate-IsTally floats round scores judged =
      let h1 =
        length-keep_if (λ (s : RecordingScore F). s.eligible_reference_h1) scores
        ∙ count-by IsJudged _ (has_references 1) (λ s j. j.0) scores judged in
      let h2 =
        length-keep_if (λ (s : RecordingScore F). s.eligible_reference_h2) scores
        ∙ count-by IsJudged _ (has_references 2) (λ s j. j.1) scores judged in
      let merged =
        count-keep_if (λ (s : RecordingScore F). s.eligible_reference_h2)
          (λ s. s.acoustic_complete_merge) scores
        ∙ count-by IsJudged _ (has_counts 2 1)
            (λ s j. and_both (s.hypothesis_speaker_count == 1) j.1 j.2) scores judged in
      let split =
        count-keep_if (λ (s : RecordingScore F). s.eligible_reference_h1) (λ s. s.false_h2) scores
        ∙ count-by IsJudged _ (has_counts 1 2)
            (λ s j. and_both (s.hypothesis_speaker_count == 2) j.0 j.3) scores judged in
      let correct =
        count-by IsJudged (λ (s : RecordingScore F). s.speaker_count_correct) counts_right
          (λ s j. j.4) scores judged in
      (
        h1,
        h2,
        merged,
        split,
        ap
            (λ n. float_ratio floats n (
              length (keep_if (λ (s : RecordingScore F). s.eligible_reference_h1) scores)
              + length (keep_if (λ (s : RecordingScore F). s.eligible_reference_h2) scores)))
            correct,
        omega (arith, h1, h2, merged, split, verdicts_le scores),
        omega (arith, h1, h2, references_le scores),
        sum_of-below IsJudged (λ s. s.diarization_all.sums.miss_us)
            (λ s. s.diarization_all.sums.confusion_us)
            (λ s. s.diarization_all.sums.reference_speaker_us) (λ s j. j.5) scores judged,
        sum_of-below IsJudged (λ s. s.diarization_nonoverlap.sums.miss_us)
            (λ s. s.diarization_nonoverlap.sums.confusion_us)
            (λ s. s.diarization_nonoverlap.sums.reference_speaker_us) (λ s j. j.6) scores judged,
      )

module _ {F Character : Type 0} (floats : Floats F) (cfg : ScoringConfig) (upper : String → String)
    (is_space : Character → Bool) where
  score_recording-IsJudged :
      (r : Recording Character) (s : RecordingScore F)
      → score_recording floats cfg upper is_space r ≡ ok s
      → IsJudged s
  score_recording-IsJudged r s h =
      let (id, uem, grouped, (collared, found, words, micros, cut, mapped, same, few)) =
        score_recording-IsScored floats cfg upper is_space r s h in
      let (uem_too, collared_too, grouped_too, inside, scored, mapped_too, all, apart) =
        score_recording-IsAccounted floats cfg upper is_space r s h in
      (
        subst (λ (x : RecordingScore F). x.eligible_reference_h1 ≡ has_references 1 x) same refl,
        subst (λ (x : RecordingScore F). x.eligible_reference_h2 ≡ has_references 2 x) same refl,
        subst (λ (x : RecordingScore F). x.acoustic_complete_merge ≡ has_counts 2 1 x) same refl,
        subst (λ (x : RecordingScore F). x.false_h2 ≡ has_counts 1 2 x) same refl,
        subst
              (λ (x : RecordingScore F). x.speaker_count_correct ≡ (
                (has_references 1 x || has_references 2 x)
                && (x.reference_speaker_count == x.hypothesis_speaker_count)))
              same refl
            ∙ both_equal s.reference_speaker_count s.hypothesis_speaker_count,
        omega (arith, all.0),
        omega (arith, apart.0),
      )

  -- When every recording of a corpus is scored, the aggregate counts as eligible the recordings
  -- with one and with two reference speakers, as merged and as split those with two against one
  -- and one against two, and as correct those with equal numbers; merged, split and correct files
  -- are together at most the eligible ones, these at most the recordings; and in both error counts
  -- missed and confused time are within the reference time.
  pub aggregate_recording_scores-IsTally :
      (round : F → ℕ) (recordings : List (Recording Character)) (scores : List (RecordingScore F))
      → map_each (score_recording floats cfg upper is_space) recordings ≡ ok scores
      → IsTally floats scores (aggregate_recording_scores floats round scores)
        × (length scores ≡ length recordings)
  aggregate_recording_scores-IsTally round recordings scores h = (
    aggregate-IsTally floats round scores (
        map_each-All (score_recording floats cfg upper is_space) IsJudged recordings scores
          score_recording-IsJudged h),
    length-map_each (score_recording floats cfg upper is_space) recordings scores h,
  )
