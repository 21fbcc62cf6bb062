-- ===== src/Decoder/Timeline/Gaps.antt =====
-- The gaps between the decoded spans.
use Prim.Native.String.{String}
use sddiar.Base.{
  ℕ, ◌≤◌, ◌<◌, ◌≡◌, refl, subst, ◌∙◌, inl, inr, Bool, true, false, ◌&&◌, ◌||◌, List, [], ◌∷◌, ok,
  ok-inj, bind_ok, Bool-cases, arith, ltb,
}
use sddiar.Intervals.{within}
use sddiar.Spans.{Speaker, non_speech, DiarizationSpan}
use sddiar.Spans.Labels.{says}
use sddiar.Spans.{Part}
use sddiar.Decoder.Timeline.{with_gap, fill_gaps}
use sddiar.Decoder.Timeline.Laws.{IsSpan, diarization_span-IsSpan, After, says-one}

quiet_or : (a b : Bool) → ((a && false) || b) ≡ b
quiet_or a b = ground arith

-- The gaps add only NON_SPEECH.
module _ (stable_id : String → List Part → String) (who : Speaker → Bool) (t : ℕ)
    (quiet : who non_speech ≡ false) where
  gap-After :
      (start end : ℕ) (span : DiarizationSpan) (spans : List DiarizationSpan)
      → IsSpan start end non_speech span
      → After end spans
      → After start (span ∷ spans) × (says who t (span ∷ spans) ≡ says who t spans)
  unfolding IsSpan
  gap-After start end span spans (lt, first, last, same) after =
      rw (first, last, same, quiet)
        ((omega arith, lt, after), quiet_or (within t (start, end)) (says who t spans))

  with_gap-After :
      (start end : ℕ) (spans filled : List DiarizationSpan)
      → (ltb start end ≡ false → After start spans)
      → After end spans
      → with_gap stable_id start end spans ≡ ok filled
      → After start filled × (says who t filled ≡ says who t spans)
  unfolding with_gap
  with_gap-After start end spans filled kept after h = elim (Bool-cases (ltb start end)) [
    | inl gap ↦
        let (span, made, h1) = bind_ok _ _ filled (rw gap at h) in
        let is_span = diarization_span-IsSpan _ _ _ _ _ _ _ span made in
        subst (λ l. After start l × (says who t l ≡ says who t spans)) (ok-inj h1)
          (gap-After start end span spans is_span after)
    | inr none_left ↦
        subst (λ l. After start l × (says who t l ≡ says who t spans)) (ok-inj (rw none_left at h))
          (kept none_left, refl)
  ]

  pub fill_gaps-After :
      (duration cursor : ℕ) (spans filled : List DiarizationSpan)
      → After cursor spans
      → fill_gaps stable_id duration cursor spans ≡ ok filled
      → After cursor filled × (says who t filled ≡ says who t spans)
  unfolding fill_gaps
  fill_gaps-After duration cursor [] filled after h =
      with_gap-After cursor duration [] filled (λ e. tt) tt h
  fill_gaps-After duration cursor (s ∷ spans) filled (le, lt, rest) h =
      let (later, made, h1) = bind_ok _ _ filled h in
      let (kept, same) = fill_gaps-After duration s.end_us spans later rest made in
      let (ordered, said) =
        with_gap-After cursor s.start_us (s ∷ later) filled (λ e. (le, lt, kept))
          (omega arith, lt, kept) h1 in
      (ordered, said ∙ rw same refl)

-- With the gaps filled, every instant of the recording has a span.
abbrev pub any_label : Speaker → Bool
any_label l = true

module _ (stable_id : String → List Part → String) (t : ℕ) where
  with_gap-covers :
      (start end : ℕ) (spans filled : List DiarizationSpan)
      → with_gap stable_id start end spans ≡ ok filled
      → ((within t (start, end) || says any_label t spans) ≡ true)
      → says any_label t filled ≡ true
  unfolding with_gap
  with_gap-covers start end spans filled h c = elim (Bool-cases (ltb start end)) [
    | inl gap ↦
        let (span, made, h1) = bind_ok _ _ filled (rw gap at h) in
        let is_span = diarization_span-IsSpan _ _ _ _ _ _ _ span made in
        let (one, long) = says-one any_label t start end non_speech span is_span in
        subst (λ l. says any_label t l ≡ true) (ok-inj h1) (rw one (ground arith))
    | inr none_left ↦
        subst (λ l. says any_label t l ≡ true) (ok-inj (rw none_left at h)) (ground arith)
  ]

  pub fill_gaps-covers :
      (duration cursor : ℕ) (spans filled : List DiarizationSpan)
      → fill_gaps stable_id duration cursor spans ≡ ok filled
      → cursor ≤ t
      → t < duration
      → says any_label t filled ≡ true
  unfolding fill_gaps
  fill_gaps-covers duration cursor [] filled h le lt =
      with_gap-covers cursor duration [] filled h (ground arith)
  fill_gaps-covers duration cursor (s ∷ spans) filled h le lt =
      let (later, made, h1) = bind_ok _ _ filled h in
      let ih = fill_gaps-covers duration s.end_us spans later made in
      with_gap-covers cursor s.start_us (s ∷ later) filled h1 (elim (Bool-cases (ltb t s.end_us)) [
        | inl inside ↦ ground arith
        | inr beyond ↦ ground (arith, ih (ground arith) lt)
      ])
