-- ===== src/RecordingScore/Aggregate/Order.antt =====
-- src/sddiar/evaluation.py: the score of a corpus does not depend on the order of its recordings,
-- but for sums and minima of floats.
use mathlib.Core.List.{Permᴰ}
use sddiar.Base.{
  ℕ, ◌≡◌, refl, ap, sym, ◌∙◌, Bool, Option, some, List, [], ◌∷◌, map, length, sum_of, sum_of-append,
  keep_if, if◌then◌else◌, arith,
}
use sddiar.Floats.{Floats}
use sddiar.Scoring.Boundaries.{EventCounts}
use sddiar.DiarizationError.{ErrorComponents}
use sddiar.DiarizationError.Speakers.{OverlapTimes, Precision, SpeakerTimes, float_ratio}
use sddiar.WordScores.{WordMetrics, MicroMetrics}
use sddiar.RecordingScore.{RecordingScore}
use sddiar.RecordingScore.Aggregate.{
  AggregateScore, present, is_given, all_speakers, sum_error_components, pool_events,
  aggregate_events, pool_overlap, aggregate_overlap, or_no_overlap, wrong_characters, pool_words,
  aggregate_words, unknown_micros, pool_micros, aggregate_micros, aggregate_recording_scores,
}
use sddiar.RecordingScore.Aggregate.Permuted.{
  sum_of-Permᴰ, map-Permᴰ, worth-Permᴰ, length-sum_of, unless_empty-cong, sum_of-present-Permᴰ,
  length-present-Permᴰ, length-keep_if-Permᴰ, sum_of-keep_if-Permᴰ,
}

module _ {F : Type 0} where
  sum_of-all_speakers :
      (size : SpeakerTimes → ℕ) (scores : List (RecordingScore F))
      → sum_of size (all_speakers scores) ≡ sum_of (λ s. sum_of size s.speakers) scores
  sum_of-all_speakers size [] = refl
  sum_of-all_speakers size (s ∷ scores) =
      sum_of-append size s.speakers (all_speakers scores)
      ∙ omega (arith, sum_of-all_speakers size scores)

  -- Everything but the sum of the Jaccard errors and the two minima
  abbrev pub AgreeInCounts : AggregateScore F → AggregateScore F → Type 0
  AgreeInCounts a b =
      (a.recording_count ≡ b.recording_count)
      × (a.diarization_all ≡ b.diarization_all)
      × (a.diarization_nonoverlap ≡ b.diarization_nonoverlap)
      × (a.eligible_h2_files ≡ b.eligible_h2_files)
      × (a.complete_merge_files ≡ b.complete_merge_files)
      × (a.acoustic_complete_merge_rate ≡ b.acoustic_complete_merge_rate)
      × (a.unsafe_complete_merge_rate ≡ b.unsafe_complete_merge_rate)
      × (a.eligible_h1_files ≡ b.eligible_h1_files)
      × (a.false_h2_files ≡ b.false_h2_files)
      × (a.false_h2_rate ≡ b.false_h2_rate)
      × (a.false_h2_secondary_duration_us ≡ b.false_h2_secondary_duration_us)
      × (a.false_h2_duration_ratio ≡ b.false_h2_duration_ratio)
      × (a.speaker_count_accuracy ≡ b.speaker_count_accuracy)
      × (a.scd ≡ b.scd)
      × (a.overlap ≡ b.overlap)
      × (a.words ≡ b.words)
      × (a.micros ≡ b.micros)

  module _ (floats : Floats F) (round : F → ℕ) where
    float_ratio-cong :
        {a b c d : ℕ} → a ≡ b → c ≡ d → float_ratio floats a c ≡ float_ratio floats b d
    float_ratio-cong h k = rw (h, k) refl

    sum_error_components-Permᴰ :
        (attribute : RecordingScore F → ErrorComponents F) {xs ys : List (RecordingScore F)}
        → Permᴰ xs ys
        → sum_error_components floats xs attribute ≡ sum_error_components floats ys attribute
    sum_error_components-Permᴰ attribute p =
        rw
          (
            sum_of-Permᴰ (λ s. (attribute s).sums.scored_uem_us) p,
            sum_of-Permᴰ (λ s. (attribute s).sums.reference_speaker_us) p,
            sum_of-Permᴰ (λ s. (attribute s).sums.miss_us) p,
            sum_of-Permᴰ (λ s. (attribute s).sums.false_alarm_us) p,
            sum_of-Permᴰ (λ s. (attribute s).sums.confusion_us) p,
          )
          refl

    aggregate_events-Permᴰ :
        {A : Type 0} (g : A → Option EventCounts) {xs ys : List A}
        → Permᴰ xs ys
        → aggregate_events floats (map g xs) ≡ aggregate_events floats (map g ys)
    unfolding aggregate_events
    aggregate_events-Permᴰ g {xs} {ys} p =
        unless_empty-cong (pool_events floats) (present (map g xs)) (present (map g ys))
          (length-present-Permᴰ g p)
          (rw
            (
              sum_of-present-Permᴰ g (λ (e : EventCounts). e.true_positives) p,
              sum_of-present-Permᴰ g (λ (e : EventCounts). e.false_positives) p,
              sum_of-present-Permᴰ g (λ (e : EventCounts). e.false_negatives) p,
            )
            refl)

    aggregate_words-Permᴰ :
        {A : Type 0} (g : A → Option (WordMetrics F)) {xs ys : List A}
        → Permᴰ xs ys
        → aggregate_words floats round (map g xs) ≡ aggregate_words floats round (map g ys)
    unfolding aggregate_words
    aggregate_words-Permᴰ g {xs} {ys} p =
        let sum = λ (size : WordMetrics F → ℕ). sum_of-present-Permᴰ g size p in
        unless_empty-cong (pool_words floats round) (present (map g xs)) (present (map g ys))
          (length-present-Permᴰ g p)
          (rw
            (
              sum (λ m. m.eligible_words),
              sum (λ m. m.assigned_words),
              sum (λ m. m.correct_words),
              sum (λ m. m.eligible_characters),
              sum (wrong_characters floats round),
              sum (λ m. m.excluded_overlap_or_boundary_words),
              sum (λ m. m.forced_overlap_or_boundary_assignments),
            )
            refl)

    aggregate_micros-Permᴰ :
        {A : Type 0} (g : A → Option (MicroMetrics F)) {xs ys : List A}
        → Permᴰ xs ys
        → aggregate_micros floats round (map g xs) ≡ aggregate_micros floats round (map g ys)
    unfolding aggregate_micros
    aggregate_micros-Permᴰ g {xs} {ys} p =
        let sum = λ (size : MicroMetrics F → ℕ). sum_of-present-Permᴰ g size p in
        unless_empty-cong (pool_micros floats round) (present (map g xs)) (present (map g ys))
          (length-present-Permᴰ g p)
          (rw
            (
              sum (λ m. m.eligible_micros),
              sum (λ m. m.assigned_micros),
              sum (λ m. m.correct_micros),
              sum (unknown_micros floats round),
            )
            refl)

    aggregate_overlap-Permᴰ :
        {xs ys : List (OverlapTimes × Option (Precision F))}
        → Permᴰ xs ys
        → aggregate_overlap floats xs ≡ aggregate_overlap floats ys
    unfolding aggregate_overlap
    aggregate_overlap-Permᴰ {xs} {ys} p =
        let test = λ (m : OverlapTimes × Option (Precision F)). is_given m.1 in
        ap (or_no_overlap floats) (
          unless_empty-cong (pool_overlap floats) (keep_if test xs) (keep_if test ys)
            (length-keep_if-Permᴰ test p)
            (rw
              (
                sum_of-keep_if-Permᴰ test (λ m. m.0.reference_overlap_us) p,
                sum_of-keep_if-Permᴰ test (λ m. m.0.predicted_overlap_us) p,
                sum_of-keep_if-Permᴰ test (λ m. m.0.true_positive_us) p,
                sum_of-keep_if-Permᴰ test (λ m. m.0.false_positive_us) p,
                sum_of-keep_if-Permᴰ test (λ m. m.0.false_negative_us) p,
              )
              refl))

    -- The reference time of the speakers of the recordings with one speaker
    h1_time-Permᴰ :
        {xs ys : List (RecordingScore F)}
        → Permᴰ xs ys
        → sum_of
            (λ (t : SpeakerTimes). t.reference_duration_us)
            (all_speakers (keep_if (λ (s : RecordingScore F). s.eligible_reference_h1) xs))
          ≡ sum_of
              (λ (t : SpeakerTimes). t.reference_duration_us)
              (all_speakers (keep_if (λ (s : RecordingScore F). s.eligible_reference_h1) ys))
    h1_time-Permᴰ {xs} {ys} p =
        let size = λ (t : SpeakerTimes). t.reference_duration_us in
        let test = λ (s : RecordingScore F). s.eligible_reference_h1 in
        sum_of-all_speakers size (keep_if test xs)
        ∙ sum_of-keep_if-Permᴰ test (λ s. sum_of size s.speakers) p
        ∙ sym (sum_of-all_speakers size (keep_if test ys))

    -- The order of the recordings of a corpus changes no count, time, ratio or pooled metric of the
    -- aggregate; only the mean of the Jaccard errors, a sum of floats, and the two minima of floats
    -- are left out.
    pub aggregate_recording_scores-AgreeInCounts :
        {xs ys : List (RecordingScore F)}
        → Permᴰ xs ys
        → AgreeInCounts
            (aggregate_recording_scores floats round xs)
            (aggregate_recording_scores floats round ys)
    unfolding aggregate_recording_scores
    aggregate_recording_scores-AgreeInCounts {xs} {ys} p =
        let files1 = length-keep_if-Permᴰ (λ (s : RecordingScore F). s.eligible_reference_h1) p in
        let files2 = length-keep_if-Permᴰ (λ (s : RecordingScore F). s.eligible_reference_h2) p in
        let count1 = λ (also : RecordingScore F → Bool).
          sum_of-keep_if-Permᴰ (λ (s : RecordingScore F). s.eligible_reference_h1)
            (λ s. if also s then 1 else 0) p in
        let count2 = λ (also : RecordingScore F → Bool).
          sum_of-keep_if-Permᴰ (λ (s : RecordingScore F). s.eligible_reference_h2)
            (λ s. if also s then 1 else 0) p in
        let secondary =
          sum_of-keep_if-Permᴰ (λ (s : RecordingScore F). s.eligible_reference_h1)
            (λ s. s.false_h2_secondary_duration_us) p in
        let correct = sum_of-Permᴰ (λ s. if s.speaker_count_correct then 1 else 0) p in
        (
          worth-Permᴰ length (λ s. 1) length-sum_of p,
          sum_error_components-Permᴰ (λ s. s.diarization_all) p,
          sum_error_components-Permᴰ (λ s. s.diarization_nonoverlap) p,
          files2,
          count2 (λ s. s.acoustic_complete_merge),
          float_ratio-cong (count2 (λ s. s.acoustic_complete_merge)) files2,
          float_ratio-cong (count2 (λ s. s.unsafe_complete_merge)) files2,
          files1,
          count1 (λ s. s.false_h2),
          float_ratio-cong (count1 (λ s. s.false_h2)) files1,
          secondary,
          float_ratio-cong secondary (h1_time-Permᴰ p),
          float_ratio-cong correct (omega (arith, files1, files2)),
          aggregate_events-Permᴰ (λ s. some s.scd) p,
          aggregate_overlap-Permᴰ (map-Permᴰ (λ (s : RecordingScore F). s.overlap) p),
          aggregate_words-Permᴰ (λ s. s.words) p,
          aggregate_micros-Permᴰ (λ s. s.micros) p,
        )
