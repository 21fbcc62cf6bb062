-- ===== src/Correction/Fixed.antt =====
-- Labels that corrections and the reevaluation callback cannot take away.
use sddiar.Base.{
  ℕ, ◌≡◌, refl, sym, ap, subst, ◌∙◌, inl, inr, Bool, true, false, not, ◌&&◌, ◌||◌, Option, none,
  some, List, [], ◌∷◌, ok, arith, any, All, Result-cases, Bool-cases, ◌>>=◌,
}
use sddiar.Base.Sort.{sort, any-sort, All-sort}
use sddiar.Spans.{Speaker, unknown, same_speaker, is_supported, DiarizationSpan}
use sddiar.Spans.Labels.{holds_at, says, IsTimed, says-cong, says-and, says_mono, same_speaker-eq}
use sddiar.Correction.{
  HumanSpeakerCorrection, apply_session_corrections, is_unknown, same_fixed, is_lost,
  check_reevaluated, reevaluate, le_correction, le_span, apply_all,
}
use sddiar.Correction.Pieces.{confirms, relabel, IsSession, or-false_parts}
use sddiar.Correction.Relabel.{relabel_all, apply_session_corrections-Relabels}

-- A test on labels that UNKNOWN does not pass.
abbrev pub fixed : (Speaker → Bool) → Speaker → Bool
fixed who label = not (same_speaker label unknown) && who label

relabel-same :
    (t : ℕ) (c : HumanSpeakerCorrection) (label : Speaker)
    → IsSession c
    → same_speaker (relabel t c label) unknown ≡ (same_speaker label unknown && not (confirms t c))
relabel-same t c label (inl known) = rw known (ground arith)
relabel-same t c label (inr known) = rw known (ground arith)

and_assoc-not : (a b c : Bool) → ((a && not b) && not c) ≡ (a && not (b || c))
and_assoc-not a b c = ground arith

relabel_all-same :
    (t : ℕ) (cs : List HumanSpeakerCorrection) (label : Speaker)
    → All IsSession cs
    → same_speaker (relabel_all t cs label) unknown
      ≡ (same_speaker label unknown && not (any (confirms t) cs))
relabel_all-same t [] label known = ground arith
relabel_all-same t (c ∷ cs) label known =
    relabel_all-same t cs (relabel t c label) known.1
    ∙ ap (λ b. b && not (any (confirms t) cs)) (relabel-same t c label known.0)
    ∙ and_assoc-not (same_speaker label unknown) (confirms t c) (any (confirms t) cs)

relabel_all-fixed :
    (t : ℕ) (cs : List HumanSpeakerCorrection) (label : Speaker)
    → same_speaker label unknown ≡ false
    → relabel_all t cs label ≡ label
relabel_all-fixed t [] label h = refl
relabel_all-fixed t (c ∷ cs) label h = rw h (relabel_all-fixed t cs label h)

-- A span with the same fixed triple says what the lost one said.
same_fixed-says :
    (who : Speaker → Bool) (t : ℕ) (x y : DiarizationSpan)
    → same_fixed x y ≡ true
    → (holds_at t x && fixed who x.speaker_id) ≡ (holds_at t y && fixed who y.speaker_id)
same_fixed-says who t x y h =
    let starts : x.start_us ≡ y.start_us = ground arith in
    let ends : x.end_us ≡ y.end_us = ground arith in
    let label = same_speaker-eq x.speaker_id y.speaker_id (ground arith) in
    rw (starts, ends, label) refl

found-says :
    (who : Speaker → Bool) (t : ℕ) (x : DiarizationSpan) (out : List DiarizationSpan)
    → any (λ y. not (is_unknown y) && same_fixed x y) out ≡ true
    → (holds_at t x && fixed who x.speaker_id) ≡ true
    → says (fixed who) t out ≡ true
found-says who t x [] h k = ground arith
found-says who t x (y ∷ out) h k = elim (Bool-cases (same_fixed x y)) [
  | inl same ↦ rw (sym (same_fixed-says who t x y same) ∙ k) refl
  | inr differs ↦ ground (arith, found-says who t x out)
]

kept-parts :
    (is_free found rest label held : Bool)
    → ((not is_free && not found) || rest) ≡ false
    → (held && (not is_free && label)) ≡ true
    → found ≡ true
kept-parts is_free found rest label held h k = ground arith

is_lost-says :
    (who : Speaker → Bool) (t : ℕ) (current out : List DiarizationSpan)
    → any (is_lost out) current ≡ false
    → (says (fixed who) t current && not (says (fixed who) t out)) ≡ false
is_lost-says who t [] out h = refl
is_lost-says who t (x ∷ current) out h =
    elim (Bool-cases (holds_at t x && fixed who x.speaker_id)) [
      | inl held ↦
          let found =
            kept-parts (is_unknown x) (any (λ y. not (is_unknown y) && same_fixed x y) out)
              (any (is_lost out) current) (who x.speaker_id) (holds_at t x) h held in
          rw (held, found-says who t x out found held) refl
      | inr free ↦ rw free (
          is_lost-says who t current out
            (or-false_parts (is_lost out x) (any (is_lost out) current) h).1)
    ]

abbrev pub all_supported : List DiarizationSpan → Bool
all_supported spans = not (any (λ s. not (is_supported s.speaker_id)) spans)

-- What a reevaluation that is not refused returns.
check_reevaluated-says :
    (current again out : List DiarizationSpan)
    → check_reevaluated current again ≡ ok out
    → (again ≡ out) × (any (is_lost again) current ≡ false) × (all_supported again ≡ true)
unfolding check_reevaluated
check_reevaluated-says current again out h = ground arith

reevaluate-lost :
    (who : Speaker → Bool) (t : ℕ) (callback : Option (List DiarizationSpan → List DiarizationSpan))
    (current out : List DiarizationSpan)
    → reevaluate callback current ≡ ok out
    → (says (fixed who) t current && not (says (fixed who) t out)) ≡ false
unfolding reevaluate
reevaluate-lost who t none current out h =
    let same : current ≡ out = ground arith in rw same (ground arith)
reevaluate-lost who t (some callback) current out h =
    let (same, kept, _) = check_reevaluated-says current (callback current) out h in
    subst (λ o. (says (fixed who) t current && not (says (fixed who) t o)) ≡ false) same
      (is_lost-says who t current (callback current) kept)

apply_session_corrections-none :
    (spans : List DiarizationSpan) (cs : List HumanSpeakerCorrection)
    (callback : Option (List DiarizationSpan → List DiarizationSpan))
    → apply_session_corrections spans cs callback
      ≡ (apply_session_corrections spans cs none >>= (λ current. reevaluate callback current))
unfolding apply_session_corrections reevaluate
apply_session_corrections-none spans cs callback =
    elim (Result-cases (apply_all (sort le_correction cs) (sort le_span spans))) [
      | inl (current, e) ↦ rw e refl
      | inr (raised, e) ↦ rw e refl
    ]

says-fixed :
    (who : Speaker → Bool) (t : ℕ) (cs : List HumanSpeakerCorrection) (l : Speaker)
    → fixed who l ≡ true
    → fixed who (relabel_all t cs l) ≡ true
says-fixed who t cs l h =
    let known : same_speaker l unknown ≡ false = ground arith in
    rw (relabel_all-fixed t cs l known) h

-- Corrections and a reevaluation that succeed lose no label but UNKNOWN: for well-timed spans,
-- corrections of session speakers and any callback, an instant for which the given spans have
-- a label other than UNKNOWN that passes a test has one in the result.
pub apply_session_corrections_kept :
    (who : Speaker → Bool) (t : ℕ) (spans : List DiarizationSpan) (cs : List HumanSpeakerCorrection)
    (callback : Option (List DiarizationSpan → List DiarizationSpan)) (out : List DiarizationSpan)
    → All IsSession cs
    → All IsTimed spans
    → apply_session_corrections spans cs callback ≡ ok out
    → says (fixed who) t spans ≡ true
    → says (fixed who) t out ≡ true
apply_session_corrections_kept who t spans cs callback out known timed run h =
    let split = sym (apply_session_corrections-none spans cs callback) ∙ run in
    elim (apply_session_corrections-Relabels spans cs known timed) [
      | inr raised ↦
          let absurd =
            sym (ap (λ r. r >>= (λ current. reevaluate callback current)) raised) ∙ split in
          ground arith
      | inl (current, e, (good, what)) ↦
          let after = sym (ap (λ r. r >>= (λ x. reevaluate callback x)) e) ∙ split in
          let held : says (fixed who) t current ≡ true =
            what (fixed who) t
            ∙ says_mono (fixed who) (λ l. fixed who (relabel_all t (sort le_correction cs) l)) t
                spans (says-fixed who t (sort le_correction cs)) h in
          ground (arith, reevaluate-lost who t callback current out after)
    ]

-- Without a reevaluation, an instant is UNKNOWN after the corrections exactly if it was UNKNOWN
-- before and no correction holds it; for well-timed spans and corrections of session speakers.
pub apply_session_corrections-unknown :
    (t : ℕ) (spans : List DiarizationSpan) (cs : List HumanSpeakerCorrection)
    (out : List DiarizationSpan)
    → All IsSession cs
    → All IsTimed spans
    → apply_session_corrections spans cs none ≡ ok out
    → says (λ l. same_speaker l unknown) t out
      ≡ (says (λ l. same_speaker l unknown) t spans && not (any (confirms t) cs))
apply_session_corrections-unknown t spans cs out known timed run =
    elim (apply_session_corrections-Relabels spans cs known timed) [
      | inr raised ↦ let absurd = sym raised ∙ run in ground arith
      | inl (current, e, (good, what)) ↦
          let returned = sym e ∙ run in
          let same : current ≡ out = ground arith in
          subst
            (λ o.
              says (λ l. same_speaker l unknown) t o
              ≡ (says (λ l. same_speaker l unknown) t spans && not (any (confirms t) cs)))
            same
            (what (λ l. same_speaker l unknown) t
              ∙ says-cong _ _ t spans (λ l.
                relabel_all-same t (sort le_correction cs) l
                  (All-sort le_correction IsSession cs known))
              ∙ says-and (λ l. same_speaker l unknown)
                  (not (any (confirms t) (sort le_correction cs))) t spans
              ∙ ap (λ b. says (λ l. same_speaker l unknown) t spans && not b)
                  (any-sort le_correction (confirms t) cs))
    ]
