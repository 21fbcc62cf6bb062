-- ===== src/RecordingScore/Coherent.antt =====
-- The verdicts of a score on the number of speakers fit together.
use Prim.Native.String.{String}
use sddiar.Base.{
  ℕ, ◌≤◌, ◌≡◌, refl, subst, Bool, true, false, ◌&&◌, ◌||◌, Option, List, [], ◌∷◌, length, keep_if,
  ok, arith,
}
use sddiar.Floats.{Floats}
use sddiar.DiarizationError.{TimelineCell, speakers_on}
use sddiar.DiarizationError.Speakers.{speaker_scores}
use sddiar.WordScores.{WordMetrics, MicroMetrics}
use sddiar.TimelineCells.{timeline_cells}
use sddiar.RecordingScore.{ScoringConfig, Recording, RecordingScore, passes_speaker_aware}
use sddiar.RecordingScore.Score.{
  material, recording_score, reference_scd, predicted_scd, score_recording,
}
use sddiar.RecordingScore.Laws.{has_many, score_recording-IsScored}

length-keep_if-le :
    {A : Type 0} (test : A → Bool) (xs : List A) → length (keep_if test xs) ≤ length xs
unfolding keep_if
length-keep_if-le test [] = omega arith
length-keep_if-le test (x ∷ xs) = ground (arith, length-keep_if-le test xs)

length-material :
    (side : TimelineCell → List String) (cells : List TimelineCell) (floor : ℕ)
    → length (material side cells floor) ≤ length (speakers_on side cells)
length-material side cells floor = length-keep_if-le _ (speakers_on side cells)

length-speaker_scores :
    (cells : List TimelineCell) (mapping : List (String × String)) (refs : List String)
    → length (speaker_scores cells mapping refs) ≡ length refs
unfolding speaker_scores
length-speaker_scores cells mapping [] = refl
length-speaker_scores cells mapping (r ∷ refs) =
    omega (arith, length-speaker_scores cells mapping refs)

module _ {F : Type 0} where
  -- At most two speakers on a side, one score for each reference speaker, and verdicts that agree.
  abbrev pub IsCoherent : RecordingScore F → Type 0
  IsCoherent s =
      (s.reference_speaker_count ≤ 2)
      × (s.hypothesis_speaker_count ≤ 2)
      × (length s.speakers ≡ s.reference_speaker_count)
      × ((s.acoustic_complete_merge && s.false_h2) ≡ false)
      × ((s.speaker_count_correct && (s.acoustic_complete_merge || s.false_h2)) ≡ false)
      × (s.unsafe_complete_merge
          ≡ (s.acoustic_complete_merge && passes_speaker_aware s.quality_status))
      × (s.acoustic_complete_merge ≡ true
          → (s.reference_speaker_count ≡ 2) × (s.hypothesis_speaker_count ≡ 1))
      × (s.false_h2 ≡ true → (s.reference_speaker_count ≡ 1) × (s.hypothesis_speaker_count ≡ 2))

  recording_score-IsCoherent :
      (floats : Floats F) (cfg : ScoringConfig) (id status : String) (available : Option Bool)
      (cells der_cells : List TimelineCell) (found : List ((String × String) × ℕ))
      (ref_scd pred_scd : List ℕ) (words : Option (WordMetrics F))
      (micros : Option (MicroMetrics F))
      → has_many cells ≡ false
      → IsCoherent (
          recording_score floats cfg id status available cells der_cells found ref_scd pred_scd
            words micros)
  recording_score-IsCoherent floats cfg id status available cells der_cells found ref_scd pred_scd
        words micros few =
      (
        ground (
          arith,
          few,
          length-material (λ c. c.reference_speakers) cells cfg.reference_speaker_duration_floor_us,
        ),
        ground (
          arith,
          few,
          length-material (λ c. c.hypothesis_speakers) cells
              cfg.hypothesis_speaker_duration_floor_us,
        ),
        length-speaker_scores cells _ _,
        ground arith,
        ground arith,
        refl,
        λ merged. (ground (arith, merged), ground (arith, merged)),
        λ split. (ground (arith, split), ground (arith, split)),
      )

module _ {F Character : Type 0} (floats : Floats F) (cfg : ScoringConfig) (upper : String → String)
    (is_space : Character → Bool) where
  -- A score has at most two speakers on a side and one speaker score for each reference speaker; a
  -- merge of two speakers into one and a false second speaker exclude each other and a correct count;
  -- each has its two counts; and a merge is unsafe exactly with a speaker-aware quality status.
  pub score_recording-IsCoherent :
      (r : Recording Character) (s : RecordingScore F)
      → score_recording floats cfg upper is_space r ≡ ok s
      → IsCoherent s
  score_recording-IsCoherent r s h =
      let (id, uem, grouped, (collared, found, words, micros, cut, mapped, same, few)) =
        score_recording-IsScored floats cfg upper is_space r s h in
      subst IsCoherent same (
        recording_score-IsCoherent floats cfg id r.quality_status r.overlap_reference_available
          (timeline_cells upper r.reference r.hypothesis uem)
          (timeline_cells upper r.reference r.hypothesis collared) found
          (reference_scd floats cfg upper is_space r uem)
          (predicted_scd floats cfg upper is_space r uem) words micros few)
