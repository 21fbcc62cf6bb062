-- ===== src/Decoder/Timeline/Joins.antt =====
-- Neighbours with the same label, joined.
use sddiar.Base.{
  ℕ, ◌<◌, ◌≡◌, refl, subst, ◌∙◌, inl, inr, Bool, true, ◌&&◌, ◌||◌, List, [], ◌∷◌, reverse_onto, ok,
  ok-inj, bind_ok, Bool-cases, arith,
}
use sddiar.Intervals.{within}
use sddiar.Spans.{Speaker, DiarizationSpan}
use sddiar.Spans.Labels.{says, same_speaker-eq}
use sddiar.Decoder.Timeline.{is_continued, join_spans, join_loop}
use sddiar.Decoder.Timeline.Laws.{IsSpan, diarization_span-IsSpan, After}

joined_says :
    (a b c d t : ℕ) (said rest : Bool)
    → a < b
    → b ≡ c
    → c < d
    → ((within t (a, d) && said) || rest)
      ≡ ((within t (a, b) && said) || ((within t (c, d) && said) || rest))
joined_says a b c d t said rest lt meets lt2 = ground arith

-- `after` says as much as `before`, and keeps its order.
unfoldable pub Refines : (Speaker → Bool) → ℕ → List DiarizationSpan → List DiarizationSpan → Type 0
Refines who t before after =
    (bound : ℕ) → After bound before → After bound after × (says who t after ≡ says who t before)

module _ (who : Speaker → Bool) (t : ℕ) where
  Refines-refl : (spans : List DiarizationSpan) → Refines who t spans spans
  unfolding Refines
  Refines-refl spans bound after = (after, refl)

  Refines-trans :
      (xs ys zs : List DiarizationSpan)
      → Refines who t xs ys
      → Refines who t ys zs
      → Refines who t xs zs
  unfolding Refines
  Refines-trans xs ys zs r q bound after =
      let (kept, same) = r bound after in
      let (kept_too, same_too) = q bound kept in (kept_too, same_too ∙ same)

  Refines-cons :
      (s : DiarizationSpan) (before after : List DiarizationSpan)
      → Refines who t before after
      → Refines who t (s ∷ before) (s ∷ after)
  unfolding Refines
  Refines-cons s before after r bound (le, lt, rest) =
      let (kept, same) = r s.end_us rest in ((le, lt, kept), rw same refl)

  Refines-reverse_onto :
      (merged before after : List DiarizationSpan)
      → Refines who t before after
      → Refines who t (reverse_onto merged before) (reverse_onto merged after)
  unfolding reverse_onto
  Refines-reverse_onto [] before after r = r
  Refines-reverse_onto (s ∷ merged) before after r =
      Refines-reverse_onto merged (s ∷ before) (s ∷ after) (Refines-cons s before after r)

  join_spans-Refines :
      (previous span joined : DiarizationSpan) (spans : List DiarizationSpan)
      → is_continued previous span ≡ true
      → join_spans previous span ≡ ok joined
      → Refines who t (previous ∷ span ∷ spans) (joined ∷ spans)
  unfolding Refines IsSpan
  join_spans-Refines previous span joined spans continued made bound (le, lt, (le2, lt2, rest)) =
      let (lt3, first, last, same) = diarization_span-IsSpan _ _ _ _ _ _ _ joined made in
      let speaker = same_speaker-eq previous.speaker_id span.speaker_id (ground arith) in
      let meets : previous.end_us ≡ span.start_us = ground arith in
      rw (first, last, same)
        (
          (le, omega arith, rest),
          joined_says previous.start_us previous.end_us span.start_us span.end_us t
                (who previous.speaker_id) _ lt meets lt2
              ∙ rw speaker refl,
        )

  pub join_loop-Refines :
      (spans merged out : List DiarizationSpan)
      → join_loop merged spans ≡ ok out
      → Refines who t (reverse_onto merged spans) out
  unfolding join_loop reverse_onto
  join_loop-Refines [] merged out h =
      subst (λ o. Refines who t (reverse_onto merged []) o) (ok-inj h) (Refines-refl _)
  join_loop-Refines (s ∷ spans) [] out h = join_loop-Refines spans (s ∷ []) out h
  join_loop-Refines (s ∷ spans) (previous ∷ merged) out h =
      elim (Bool-cases (is_continued previous s)) [
        | inl continued ↦
            let (joined, made, h1) = bind_ok _ _ out (rw continued at h) in
            Refines-trans _ _ _
              (Refines-reverse_onto merged _ _
                (join_spans-Refines previous s joined spans continued made))
              (join_loop-Refines spans (joined ∷ merged) out h1)
        | inr apart ↦ join_loop-Refines spans (s ∷ previous ∷ merged) out (rw apart at h)
      ]
