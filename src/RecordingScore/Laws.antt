-- ===== src/RecordingScore/Laws.antt =====
-- What the score of a recording says of the time that it scores.
use Prim.Native.String.{String}
use sddiar.Base.{
  ℕ, ◌≡◌, subst, ◌∙◌, Bool, true, false, not, ◌&&◌, ◌||◌, Option, List, [], ◌∷◌, ◌++◌, any, length,
  All, Result, ok, err, ok-inj, evaluation, overflow, ◌>>◌, bind_ok, raise_if_then, raise_if_passed,
  then_ok, ltb,
}
use sddiar.Floats.{Floats}
use sddiar.Intervals.{covers}
use sddiar.DiarizationError.{TimelineCell, speakers_on, mapping_from_cells, error_components}
use sddiar.DiarizationError.Accounting.{
  IsBalanced, error_components_scored, error_components-IsBalanced,
}
use sddiar.DiarizationError.OneToOne.{pairs_in, HaveDistinctLabels, mapping_from_cells-AreOneToOne}
use sddiar.WordScores.{WordMetrics, MicroMetrics}
use sddiar.TimelineCells.{timeline_cells, uem_by_channel, validate_recording_ids, file_ids}
use sddiar.TimelineCells.Tiling.{spans_of}
use sddiar.TimelineCells.Lengths.{total_length, sum_of-timeline_cells}
use sddiar.TimelineCells.Distinct.{HasLabelSets, timeline_cells-HasLabelSets}
use sddiar.RecordingScore.{
  ScoringConfig, Recording, RecordingScore, Channels, inside_uem, der_collar_boundaries,
  apply_collar_all, or_empty, check_limits, infer_id, is_outside, has_decisions_only, quotient,
  word_score, micro_score,
}
use sddiar.RecordingScore.Score.{
  recording_score, reference_scd, predicted_scd, score_on, score_recording, some_overflow,
}
use sddiar.RecordingScore.Collared.{
  uem_by_channel-AllForward, apply_collar_all-AllForward, scores, is_near, covers-collared_cells,
}

HasLabelSets-HaveDistinctLabels :
    (cells : List TimelineCell) → All HasLabelSets cells → HaveDistinctLabels cells
HasLabelSets-HaveDistinctLabels [] h = tt
HasLabelSets-HaveDistinctLabels (c ∷ cells) (first, h) =
    (first.1, HasLabelSets-HaveDistinctLabels cells h)

-- More than two speakers on a side
abbrev pub has_many : List TimelineCell → Bool
has_many cells =
    ltb 2 (length (speakers_on (λ c. c.reference_speakers) cells))
    || ltb 2 (length (speakers_on (λ c. c.hypothesis_speakers) cells))

then_ok_first :
    {B : Type 0} (first second : Result (Unit {0})) (rest : Result B) (b : B)
    → (first >> second >> rest) ≡ ok b
    → (second >> rest) ≡ ok b
then_ok_first (ok done) second rest b h = h
then_ok_first (err e) second rest b h = cc

module _ {F Character : Type 0} (floats : Floats F) (cfg : ScoringConfig) (upper : String → String)
    (is_space : Character → Bool) where
  -- The errors account for the cells behind the collar.
  abbrev pub IsAccounted : Recording Character → RecordingScore F → Type 0
  IsAccounted r s =
      (uem : Channels) × (collared : Channels) × (uem_by_channel r.uem ≡ ok uem)
      × ((t : ℕ)
          → covers t (spans_of (timeline_cells upper r.reference r.hypothesis collared)) ≡ (
              scores t uem
              && not (is_near t (der_collar_boundaries upper r.reference uem) cfg.der_collar_us)))
      × (s.diarization_all.sums.scored_uem_us ≡ total_length collared)
      × (mapping_from_cells (timeline_cells upper r.reference r.hypothesis collared) ≡ ok s.mapping)
      × IsBalanced (pairs_in s.mapping) false
          (timeline_cells upper r.reference r.hypothesis collared) s.diarization_all.sums
      × IsBalanced (pairs_in s.mapping) true
          (timeline_cells upper r.reference r.hypothesis collared) s.diarization_nonoverlap.sums

  -- The parts of a score, and that they have passed the checks before it.
  abbrev pub IsScored : Recording Character → String → Channels → RecordingScore F → Type 0
  IsScored r id uem s =
      (collared : Channels) × (found : List ((String × String) × ℕ)) × (words : Option
        (WordMetrics F))
      × (micros : Option (MicroMetrics F)) × (apply_collar_all uem
            (der_collar_boundaries upper r.reference uem) cfg.der_collar_us
          ≡ ok collared)
      × (mapping_from_cells (timeline_cells upper r.reference r.hypothesis collared) ≡ ok found)
      × (recording_score floats cfg id r.quality_status r.overlap_reference_available
            (timeline_cells upper r.reference r.hypothesis uem)
            (timeline_cells upper r.reference r.hypothesis collared) found
            (reference_scd floats cfg upper is_space r uem)
            (predicted_scd floats cfg upper is_space r uem) words micros
          ≡ s)
      × (has_many (timeline_cells upper r.reference r.hypothesis uem) ≡ false)

  score_on-IsScored :
      (r : Recording Character) (id : String) (uem : Channels) (s : RecordingScore F)
      → score_on floats cfg upper is_space r id uem ≡ ok s
      → IsScored r id uem s
  unfolding score_on
  score_on-IsScored r id uem s h =
      let points =
        reference_scd floats cfg upper is_space r uem
        ++ predicted_scd floats cfg upper is_space r uem in
      let a = raise_if_then (any (λ point. not (inside_uem point uem)) points) evaluation _ s h in
      let b = raise_if_then (any (is_outside uem) (or_empty r.words)) evaluation _ s a in
      let many = has_many (timeline_cells upper r.reference r.hypothesis uem) in
      let few = raise_if_passed many evaluation _ s b in
      let c = raise_if_then many evaluation _ s b in
      let (collared, cut, d) =
        bind_ok
          (apply_collar_all uem (der_collar_boundaries upper r.reference uem) cfg.der_collar_us) _ s
          c in
      let (found, mapped, e) =
        bind_ok (mapping_from_cells (timeline_cells upper r.reference r.hypothesis collared)) _ s
          d in
      let (words, scored, f) =
        bind_ok
          (word_score floats upper is_space (pairs_in found) r.words (or_empty r.word_decisions)) _
          s e in
      let (micros, scored_too, g) =
        bind_ok (micro_score floats upper is_space (pairs_in found) r.micro_decisions) _ s f in
      let tested =
        raise_if_then
          (some_overflow cfg (timeline_cells upper r.reference r.hypothesis uem)
            (timeline_cells upper r.reference r.hypothesis collared) (pairs_in found))
          overflow _ s g in
      (collared, found, words, micros, cut, mapped, ok-inj tested, few)

  pub score_recording-IsScored :
      (r : Recording Character) (s : RecordingScore F)
      → score_recording floats cfg upper is_space r ≡ ok s
      → (id : String) × (uem : Channels) × (uem_by_channel r.uem ≡ ok uem) × IsScored r id uem s
  unfolding score_recording
  score_recording-IsScored r s h =
      let a = then_ok (check_limits r) _ s h in
      let (id, inferred, b) =
        bind_ok (infer_id r.recording_id (file_ids r.reference r.hypothesis r.uem)) _ s a in
      let c =
        raise_if_then (has_decisions_only r.words r.word_decisions) evaluation _ s
          (then_ok_first (validate_recording_ids id r.reference r.hypothesis r.uem) _ _ s b) in
      let (uem, grouped, d) = bind_ok (uem_by_channel r.uem) _ s c in
      (id, uem, grouped, score_on-IsScored r id uem s d)

  scored-IsBalanced :
      (cells : List TimelineCell) (found : List ((String × String) × ℕ)) (skip : Bool)
      → All HasLabelSets cells
      → mapping_from_cells cells ≡ ok found
      → IsBalanced
          (pairs_in found)
          skip
          cells
          (error_components (quotient floats) floats.zero cells (pairs_in found) skip).sums
  scored-IsBalanced cells found skip sets mapped =
      error_components-IsBalanced (pairs_in found) skip (quotient floats) floats.zero cells (
        mapping_from_cells-AreOneToOne cells cells found mapped
          (HasLabelSets-HaveDistinctLabels cells sets))

  -- When a recording is scored, the cells behind the score hold exactly the instants of the UEM that
  -- the collar leaves, and the scored time is the length of the intervals left; the mapping is the one of these cells; and without further hypotheses the
  -- errors of both counts, of all cells and of those without overlap, are balanced: reference time is
  -- correct, missed and confused time, and errors and correct time are the time of the larger number
  -- of speakers on either side.
  pub score_recording-IsAccounted :
      (r : Recording Character) (s : RecordingScore F)
      → score_recording floats cfg upper is_space r ≡ ok s
      → IsAccounted r s
  score_recording-IsAccounted r s h =
      let (id, uem, grouped, (collared, found, words, micros, cut, mapped, same, few)) =
        score_recording-IsScored r s h in
      let cells = timeline_cells upper r.reference r.hypothesis collared in
      let sets = timeline_cells-HasLabelSets upper r.reference r.hypothesis collared in
      let boundaries = der_collar_boundaries upper r.reference uem in
      let forward =
        (apply_collar_all-AllForward boundaries cfg.der_collar_us uem collared cut
          (uem_by_channel-AllForward r.uem uem grouped)).0 in
      (
        uem,
        collared,
        grouped,
        λ t.
            covers-collared_cells upper r.reference r.hypothesis r.uem uem collared boundaries
              cfg.der_collar_us t grouped cut,
        subst
            (λ (x : RecordingScore F). x.diarization_all.sums.scored_uem_us ≡ total_length collared)
            same
            (error_components_scored (pairs_in found) (quotient floats) floats.zero cells
              ∙ sum_of-timeline_cells upper r.reference r.hypothesis collared forward),
        subst (λ (x : RecordingScore F). mapping_from_cells cells ≡ ok x.mapping) same mapped,
        subst
            (λ (x : RecordingScore F).
              IsBalanced (pairs_in x.mapping) false cells x.diarization_all.sums)
            same (scored-IsBalanced cells found false sets mapped),
        subst
            (λ (x : RecordingScore F).
              IsBalanced (pairs_in x.mapping) true cells x.diarization_nonoverlap.sums)
            same (scored-IsBalanced cells found true sets mapped),
      )
