-- ===== src/Attribution/Words.antt =====
-- `map_word` on the words of a timeline.
use sddiar.Base.{
  ℕ, zero, suc, ◌≤◌, ◌<◌, ◌≡◌, refl, sym, ap, subst, ◌∙◌, inl, inr, Bool, true, false, not, ◌&&◌,
  Option, none, some, List, [], ◌∷◌, ok, err, contract_validation, arith, ltb, leb, if◌then◌else◌,
  length, keep_if, Bool-cases,
}
use sddiar.Base.Int.{pos}
use sddiar.Contracts.{max_time_us}
use sddiar.Contracts.Range.{range_iff, range_refused}
use sddiar.Spans.{
  Speaker, speaker_00, speaker_01, overlap, same_speaker, is_supported, DiarizationSpan,
}
use sddiar.Attribution.{
  Word, WordMappingConfig, AttributedWord, timewarp_boundary, Decision, is_unattributed,
  speakers_of, best_of, material_of, rest_decision, best_decision, dominant_decision,
  decide_speakers, decide_covered, decide_word, evidence_of, map_word, build_attributed, touches,
}
use sddiar.Attribution.Coverage.{meets_protected, overlap_loop-meets}
use sddiar.Attribution.Verdict.{best_of-two}

-- A decision that is none of the overlap branch, and that the constructor accepts.
abbrev is_plain : Decision → Bool
is_plain d =
    is_supported d.speaker
    && (not (same_speaker d.speaker overlap) && not (is_unattributed d.status))

rest_decision-plain :
    (speakers : List (Speaker × ℕ)) (others : Option ℕ)
    → is_plain (rest_decision speakers others) ≡ true
rest_decision-plain [] none = refl
rest_decision-plain [] (some zero) = refl
rest_decision-plain [] (some (suc r)) = refl
rest_decision-plain (x ∷ rest) none = refl
rest_decision-plain (x ∷ rest) (some r) = refl

abbrev is_plain_speaker : Speaker → Bool
is_plain_speaker label = is_supported label && not (same_speaker label overlap)

best_decision-plain :
    (cfg : WordMappingConfig) (speakers : List (Speaker × ℕ)) (u : ℕ) (others : Option ℕ)
    (best : Speaker × ℕ)
    → is_plain_speaker best.0 ≡ true
    → is_plain (best_decision cfg speakers u others best) ≡ true
best_decision-plain cfg speakers u others (label, ratio) h =
    elim (Bool-cases
      (leb cfg.word_min_dominant_coverage ratio && leb u cfg.word_max_unknown_coverage)) [
        | inl good ↦ rw good (ground arith)
        | inr bad ↦ rw bad (rest_decision-plain speakers others)
      ]

abbrev pick : Bool → ℕ → ℕ → Speaker × ℕ
pick test r q = if test then (speaker_01, q) else (speaker_00, r)

either_plain : (test : Bool) (r q : ℕ) → is_plain_speaker (pick test r q).0 ≡ true
either_plain true r q = refl
either_plain false r q = refl

dominant_decision-plain :
    (cfg : WordMappingConfig) (first second : Option ℕ) (u : ℕ) (others : Option ℕ)
    → is_plain (dominant_decision cfg (speakers_of first second) u others) ≡ true
unfolding best_of
dominant_decision-plain cfg none none u others = rest_decision-plain [] others
dominant_decision-plain cfg (some r) none u others =
    best_decision-plain cfg _ u others (speaker_00, r) refl
dominant_decision-plain cfg none (some q) u others =
    best_decision-plain cfg _ u others (speaker_01, q) refl
dominant_decision-plain cfg (some r) (some q) u others =
    best_decision-plain cfg _ u others _ (
      subst (λ p. is_plain_speaker p.0 ≡ true) (sym (best_of-two r q)) (either_plain (ltb r q) r q))

decide_speakers-plain :
    (cfg : WordMappingConfig) (first second : Option ℕ) (u : ℕ) (others : Option ℕ)
    → is_plain (decide_speakers cfg (speakers_of first second) u others) ≡ true
unfolding decide_speakers
decide_speakers-plain cfg first second u others =
    elim (Bool-cases (leb 2 (length (material_of cfg (speakers_of first second))))) [
      | inl both ↦ rw both refl
      | inr alone ↦ rw alone (dominant_decision-plain cfg first second u others)
    ]

-- The constructor accepts every decision of a word that starts before it ends.
pub build_attributed-accepts :
    (w : Word) (evidence : List DiarizationSpan) (d : Decision)
    → w.start_us < w.end_us
    → w.end_us ≤ max_time_us
    → (is_supported d.speaker ≡ true)
    → ((same_speaker d.speaker overlap && not (is_unattributed d.status)) ≡ false)
    → (out : AttributedWord) × (build_attributed w evidence d ≡ ok out)
      × (out.attribution_status ≡ d.status)
      × (out.speaker_id ≡ d.speaker)
      × (out.speaker_coverage_ratio ≡ d.coverage)
unfolding build_attributed
build_attributed-accepts w evidence d lt top known fit =
    rw
      (
        (range_iff (pos w.start_us) (pos w.end_us) w.start_us w.end_us).1 (refl, refl, lt, top),
        known,
        fit,
      )
      (_, refl, refl, refl, refl)

plain-parts :
    (a b c : Bool) → (a && (not b && not c)) ≡ true → (a ≡ true) × (b ≡ false) × (c ≡ false)
plain-parts a b c h = (ground arith, ground arith, ground arith)

-- What a decision has to say of a word, given whether it is one for overlap.
abbrev Fits : Bool → Decision → Type 0
Fits meets d =
    (is_supported d.speaker ≡ true)
    × ((same_speaker d.speaker overlap && not (is_unattributed d.status)) ≡ false)
    × (is_unattributed d.status ≡ meets)
    × (same_speaker d.speaker overlap ≡ meets)

plain-Fits : (d : Decision) → is_plain d ≡ true → Fits false d
plain-Fits d h =
    let (known, clear, free) =
      plain-parts (is_supported d.speaker) (same_speaker d.speaker overlap)
        (is_unattributed d.status) h in
    (known, rw clear refl, free, clear)

module _ (divide plus : ℕ → ℕ → ℕ) where
  pub decide_word-Fits :
      (cfg : WordMappingConfig) (w : Word) (spans : List DiarizationSpan) (crosses : Bool)
      → leb w.end_us w.start_us ≡ false
      → Fits
          (not crosses && meets_protected w spans)
          (decide_word divide plus cfg w (evidence_of w spans) crosses)
  unfolding decide_word decide_covered
  decide_word-Fits cfg w spans true fine = rw fine (refl, refl, refl, refl)
  decide_word-Fits cfg w spans false fine = elim (Bool-cases (meets_protected w spans)) [
    | inl shared ↦ rw (fine, overlap_loop-meets w spans, shared) (refl, refl, refl, refl)
    | inr apart ↦
        rw (fine, overlap_loop-meets w spans, apart)
          (plain-Fits (decide_covered divide plus cfg w (keep_if (touches w) spans))
            (decide_speakers-plain cfg _ _ _ _))
  ]

  -- Every word that starts before it ends, within the time limit, is attributed, for any spans
  -- and ratios; and both its status and its speaker are those of overlap exactly if it crosses
  -- no timewarp boundary and shares time with a protected span.
  pub map_word_total :
      (cfg : WordMappingConfig) (w : Word) (spans : List DiarizationSpan) (crosses : Bool)
      → w.start_us < w.end_us
      → w.end_us ≤ max_time_us
      → (out : AttributedWord) × (map_word divide plus cfg w spans crosses ≡ ok out)
        × (is_unattributed out.attribution_status ≡ (not crosses && meets_protected w spans))
        × (same_speaker out.speaker_id overlap ≡ (not crosses && meets_protected w spans))
  unfolding map_word
  map_word_total cfg w spans crosses lt top =
      let (known, fit, meets, label) = decide_word-Fits cfg w spans crosses (ground arith) in
      let (out, e, status, who, _) =
        build_attributed-accepts w (evidence_of w spans)
          (decide_word divide plus cfg w (evidence_of w spans) crosses) lt top known fit in
      (out, e, ap is_unattributed status ∙ meets, ap (λ s. same_speaker s overlap) who ∙ label)

  -- A word that does not start before it ends is refused, although the code has a branch that
  -- gives such a word the status of a timewarp boundary.
  pub map_word_malformed :
      (cfg : WordMappingConfig) (w : Word) (spans : List DiarizationSpan) (crosses : Bool)
      → w.end_us ≤ w.start_us
      → ((decide_word divide plus cfg w (evidence_of w spans) crosses).status ≡ timewarp_boundary)
        × (map_word divide plus cfg w spans crosses ≡ err contract_validation)
  unfolding map_word decide_word build_attributed
  map_word_malformed cfg w spans crosses le =
      let bad : leb w.end_us w.start_us ≡ true = ground arith in
      (rw bad refl, rw (range_refused w.start_us w.end_us le) refl)
