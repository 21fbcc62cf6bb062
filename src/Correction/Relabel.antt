-- ===== src/Correction/Relabel.antt =====
-- What the corrections do to the label of an instant.
use sddiar.Base.{
  ℕ, ◌≡◌, refl, ◌∙◌, ◌⊎◌, inl, inr, Bool, false, not, ◌&&◌, none, List, [], ◌∷◌, ◌++◌, ok, err,
  correction_conflict, any, any-append, All, All-append, Bool-cases,
}
use sddiar.Base.Sort.{sort, any-sort, All-sort}
use sddiar.Spans.{Speaker, DiarizationSpan}
use sddiar.Spans.Labels.{holds_at, says, IsTimed}
use sddiar.Correction.{
  HumanSpeakerCorrection, affects, replace_all, le_span, le_correction, is_unknown, apply_one,
  apply_all, apply_session_corrections, reevaluate,
}
use sddiar.Correction.Pieces.{relabel, IsSession, or-false_parts, replace_span-says}

-- The label after a list of corrections, the first one first.
abbrev pub relabel_all : ℕ → List HumanSpeakerCorrection → Speaker → Speaker
relabel_all t [] label = label
relabel_all t (c ∷ corrections) label = relabel_all t corrections (relabel t c label)

abbrev is_refused : HumanSpeakerCorrection → DiarizationSpan → Bool
is_refused c s = affects c s && not (is_unknown s)

replace_all-says :
    (c : HumanSpeakerCorrection) (spans : List DiarizationSpan)
    → IsSession c
    → All IsTimed spans
    → any (is_refused c) spans ≡ false
    → (out : List DiarizationSpan) × (replace_all c spans ≡ ok out)
      × All IsTimed out
      × ((who : Speaker → Bool) (t : ℕ) → says who t out ≡ says (λ l. who (relabel t c l)) t spans)
unfolding replace_all
replace_all-says c [] known timed free = ([], refl, tt, λ who t. refl)
replace_all-says c (s ∷ spans) known timed free =
    let parts = or-false_parts (is_refused c s) (any (is_refused c) spans) free in
    let (first, e1, g1, s1) = replace_span-says c s known timed.0 parts.0 in
    let (later, e2, g2, s2) = replace_all-says c spans known timed.1 parts.1 in
    rw (e1, e2)
      (
        first ++ later,
        refl,
        All-append IsTimed first later g1 g2,
        λ who t.
            rw (any-append (λ x. holds_at t x && who x.speaker_id) first later, s1 who t, s2 who t)
              refl,
      )

-- What a step does to each instant, when it does not raise.
abbrev pub Relabels :
    List HumanSpeakerCorrection → List DiarizationSpan → List DiarizationSpan → Type 0
Relabels cs spans out =
    All IsTimed out
    × ((who : Speaker → Bool) (t : ℕ)
        → says who t out ≡ says (λ l. who (relabel_all t cs l)) t spans)

apply_one-says :
    (c : HumanSpeakerCorrection) (spans : List DiarizationSpan)
    → IsSession c
    → All IsTimed spans
    → ((out : List DiarizationSpan) × (apply_one c spans ≡ ok out) × Relabels (c ∷ []) spans out)
      ⊎ (apply_one c spans ≡ err correction_conflict)
unfolding apply_one
apply_one-says c spans known timed = elim (Bool-cases (any (affects c) spans)) [
  | inr missed ↦ rw missed (inr refl)
  | inl hit ↦ elim (Bool-cases (any (is_refused c) spans)) [
    | inl taken ↦ rw (hit, taken) (inr refl)
    | inr free ↦
        let (out, e, good, what) = replace_all-says c spans known timed free in
        rw (hit, free, e)
          (inl (
            sort le_span out,
            refl,
            (
              All-sort le_span IsTimed out good,
              λ who t. any-sort le_span (λ x. holds_at t x && who x.speaker_id) out ∙ what who t,
            ),
          ))
  ]
]

apply_all-says :
    (cs : List HumanSpeakerCorrection) (spans : List DiarizationSpan)
    → All IsSession cs
    → All IsTimed spans
    → ((out : List DiarizationSpan) × (apply_all cs spans ≡ ok out) × Relabels cs spans out)
      ⊎ (apply_all cs spans ≡ err correction_conflict)
unfolding apply_all
apply_all-says [] spans known timed = inl (spans, refl, (timed, λ who t. refl))
apply_all-says (c ∷ cs) spans known timed = elim (apply_one-says c spans known.0 timed) [
  | inr raised ↦ rw raised (inr refl)
  | inl (next, e, (good, what)) ↦ rw e (elim (apply_all-says cs next known.1 good) [
    | inr raised ↦ inr raised
    | inl (out, e2, (good2, what2)) ↦
        inl (out, e2, (good2, λ who t. what2 who t ∙ what (λ l. who (relabel_all t cs l)) t))
  ])
]

-- For well-timed spans and corrections of session speakers, the corrections without a
-- reevaluation either raise `CorrectionConflictError`, or return well-timed spans that say of
-- each instant what the given spans say, relabelled: the first correction in the order of the
-- keys that holds the instant replaces UNKNOWN, and no other label changes.
pub apply_session_corrections-Relabels :
    (spans : List DiarizationSpan) (cs : List HumanSpeakerCorrection)
    → All IsSession cs
    → All IsTimed spans
    → ((out : List DiarizationSpan) × (apply_session_corrections spans cs none ≡ ok out)
        × Relabels (sort le_correction cs) spans out)
      ⊎ (apply_session_corrections spans cs none ≡ err correction_conflict)
unfolding apply_session_corrections reevaluate
apply_session_corrections-Relabels spans cs known timed =
    elim (apply_all-says (sort le_correction cs) (sort le_span spans)
      (All-sort le_correction IsSession cs known) (All-sort le_span IsTimed spans timed)) [
        | inr raised ↦ rw raised (inr refl)
        | inl (out, e, (good, what)) ↦ rw e (
            inl (
              out,
              refl,
              (
                good,
                λ who t.
                    what who t
                    ∙ any-sort le_span
                        (λ x.
                          holds_at t x && who (relabel_all t (sort le_correction cs) x.speaker_id))
                        spans,
              ),
            ))
      ]
