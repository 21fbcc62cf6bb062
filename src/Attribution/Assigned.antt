-- ===== src/Attribution/Assigned.antt =====
-- What an assigned word has: the share of its speaker, as a sum over all spans.
use sddiar.Base.{
  ℕ, ◌-◌, ◌≤◌, ◌<◌, ◌≡◌, refl, sym, ap, subst, ◌∙◌, inl, inr, ◌⊎◌, Bool, true, false, ◌&&◌, Option,
  none, some, List, ok, ok-inj, arith, ltb, leb, keep_if, Bool-cases,
}
use sddiar.Contracts.{max_time_us}
use sddiar.Spans.{Speaker, speaker_00, speaker_01, unknown, non_speech, DiarizationSpan}
use sddiar.Attribution.{
  Word, WordMappingConfig, AttributedWord, Decision, or_zero, quotient_of, decide_covered,
  decide_word, evidence_of, map_word, touches, coverage_loop,
}
use sddiar.Attribution.Coverage.{spoken, coverage-spoken, meets_protected, overlap_loop-meets}
use sddiar.Attribution.Verdict.{
  is_assigned, IsDominant, both_material, decide_speakers-IsDominant, clash,
}
use sddiar.Attribution.Words.{decide_word-Fits, build_attributed-accepts}

module _ (divide plus : ℕ → ℕ → ℕ) where
  -- The share of a label in a word.
  abbrev pub share : Speaker → Word → List DiarizationSpan → ℕ
  share label w spans = divide (spoken label w spans) (w.end_us - w.start_us)

  -- Whether a label holds a material share of a word.
  abbrev pub is_material : WordMappingConfig → Speaker → Word → List DiarizationSpan → Bool
  is_material cfg label w spans =
      ltb 0 (spoken label w spans) && leb cfg.word_material_speaker_coverage (share label w spans)

  -- The coverage that the loop finds for a label.
  abbrev found : Word → List DiarizationSpan → Speaker → Option ℕ
  found w spans label = coverage_loop w (λ l. none) (keep_if (touches w) spans) label

  abbrev ratio : Word → List DiarizationSpan → Speaker → Option ℕ
  ratio w spans label = quotient_of divide (w.end_us - w.start_us) (found w spans label)

  abbrev AssignedTo : WordMappingConfig → Word → List DiarizationSpan → Bool → Decision → Type 0
  AssignedTo cfg w spans crosses d =
      (crosses ≡ false)
      × (meets_protected w spans ≡ false)
      × IsDominant cfg (ratio w spans speaker_00) (ratio w spans speaker_01)
          (plus (or_zero (ratio w spans unknown)) (or_zero (ratio w spans non_speech))) d
      × (both_material cfg (ratio w spans speaker_00) (ratio w spans speaker_01) ≡ false)

  decide_word-AssignedTo :
      (cfg : WordMappingConfig) (w : Word) (spans : List DiarizationSpan) (crosses : Bool)
      → leb w.end_us w.start_us ≡ false
      → is_assigned (decide_word divide plus cfg w (evidence_of w spans) crosses).status ≡ true
      → AssignedTo cfg w spans crosses (decide_word divide plus cfg w (evidence_of w spans) crosses)
  unfolding decide_word decide_covered
  decide_word-AssignedTo cfg w spans true fine h = clash refl (rw fine at h)
  decide_word-AssignedTo cfg w spans false fine h = elim (Bool-cases (meets_protected w spans)) [
    | inl shared ↦ clash refl (rw (fine, overlap_loop-meets w spans, shared) at h)
    | inr apart ↦
        let (best, alone) =
          decide_speakers-IsDominant cfg (ratio w spans speaker_00) (ratio w spans speaker_01) _ _
            (rw (fine, overlap_loop-meets w spans, apart) at h) in
        rw (fine, overlap_loop-meets w spans, apart) (refl, refl, best, alone)
  ]

  ratio-share :
      (w : Word) (spans : List DiarizationSpan) (label : Speaker) (r : ℕ)
      → ratio w spans label ≡ some r
      → r ≡ share label w spans
  ratio-share w spans label r h =
      of_option (found w spans label) (w.end_us - w.start_us) r h
      ∙ ap (λ n. divide n (w.end_us - w.start_us)) (coverage-spoken w label spans)
    where
      of_option :
          (o : Option ℕ) (d r : ℕ) → quotient_of divide d o ≡ some r → r ≡ divide (or_zero o) d
      of_option none d r h = ground arith
      of_option (some n) d r h = ground arith

  material-found :
      (cfg : WordMappingConfig) (d : ℕ) (first second : Option ℕ)
      → both_material cfg (quotient_of divide d first) (quotient_of divide d second) ≡ false
      → ((ltb 0 (or_zero first)
            && leb cfg.word_material_speaker_coverage (divide (or_zero first) d))
          && (ltb 0 (or_zero second)
              && leb cfg.word_material_speaker_coverage (divide (or_zero second) d)))
        ≡ false
  material-found cfg d none second h = refl
  material-found cfg d (some n) none h = ground arith
  material-found cfg d (some n) (some m) h = ground arith

  -- What is said of an assigned word.
  abbrev pub IsAssigned : WordMappingConfig → Word → List DiarizationSpan → AttributedWord → Type 0
  IsAssigned cfg w spans out =
      ((out.speaker_id ≡ speaker_00) ⊎ (out.speaker_id ≡ speaker_01))
      × (out.speaker_coverage_ratio ≡ some (share out.speaker_id w spans))
      × (cfg.word_min_dominant_coverage ≤ share out.speaker_id w spans)
      × ((is_material cfg speaker_00 w spans && is_material cfg speaker_01 w spans) ≡ false)

  IsDominant-share :
      (cfg : WordMappingConfig) (w : Word) (spans : List DiarizationSpan) (u : ℕ) (d : Decision)
      → IsDominant cfg (ratio w spans speaker_00) (ratio w spans speaker_01) u d
      → ((d.speaker ≡ speaker_00) ⊎ (d.speaker ≡ speaker_01))
        × (d.coverage ≡ some (share d.speaker w spans))
        × (cfg.word_min_dominant_coverage ≤ share d.speaker w spans)
  IsDominant-share cfg w spans u d (r, covered, big, few, inl (who, e, _)) =
      let same = ratio-share w spans speaker_00 r e in
      (
        inl who,
        subst (λ l. d.coverage ≡ some (share l w spans)) (sym who) (covered ∙ ap some same),
        subst (λ l. cfg.word_min_dominant_coverage ≤ share l w spans) (sym who)
            (subst (λ n. cfg.word_min_dominant_coverage ≤ n) same big),
      )
  IsDominant-share cfg w spans u d (r, covered, big, few, inr (who, e, _)) =
      let same = ratio-share w spans speaker_01 r e in
      (
        inr who,
        subst (λ l. d.coverage ≡ some (share l w spans)) (sym who) (covered ∙ ap some same),
        subst (λ l. cfg.word_min_dominant_coverage ≤ share l w spans) (sym who)
            (subst (λ n. cfg.word_min_dominant_coverage ≤ n) same big),
      )

  material-spoken :
      (cfg : WordMappingConfig) (w : Word) (spans : List DiarizationSpan)
      → both_material cfg (ratio w spans speaker_00) (ratio w spans speaker_01) ≡ false
      → (is_material cfg speaker_00 w spans && is_material cfg speaker_01 w spans) ≡ false
  material-spoken cfg w spans h =
      let sums =
        material-found cfg (w.end_us - w.start_us) (found w spans speaker_00)
          (found w spans speaker_01) h in
      rw (coverage-spoken w speaker_00 spans, coverage-spoken w speaker_01 spans) at sums

  -- If `map_word` assigns a word that starts before it ends, within the time limit, then the word
  -- crosses no timewarp boundary and shares no time with a protected span; it goes to one of
  -- the two speakers, with the time that all spans of that speaker share with it as its
  -- share, which is dominant; and not both speakers have a material share.
  pub map_word-IsAssigned :
      (cfg : WordMappingConfig) (w : Word) (spans : List DiarizationSpan) (crosses : Bool)
      (out : AttributedWord)
      → w.start_us < w.end_us
      → w.end_us ≤ max_time_us
      → map_word divide plus cfg w spans crosses ≡ ok out
      → is_assigned out.attribution_status ≡ true
      → (crosses ≡ false) × (meets_protected w spans ≡ false) × IsAssigned cfg w spans out
  unfolding map_word
  map_word-IsAssigned cfg w spans crosses out lt top run h =
      let fine : leb w.end_us w.start_us ≡ false = ground arith in
      let d = decide_word divide plus cfg w (evidence_of w spans) crosses in
      let (known, fit, _, _) = decide_word-Fits divide plus cfg w spans crosses fine in
      let (built, e, status, who, covered) =
        build_attributed-accepts w (evidence_of w spans) d lt top known fit in
      let same = ok-inj (sym e ∙ run) in
      let (straight, apart, best, alone) = decide_word-AssignedTo cfg w spans crosses fine (
        sym (ap is_assigned status)
        ∙ ap (λ (o : AttributedWord). is_assigned o.attribution_status) same
        ∙ h) in
      let (label, part, big) = IsDominant-share cfg w spans _ d best in
      (
        straight,
        apart,
        subst (IsAssigned cfg w spans) same (
          subst (λ l. (l ≡ speaker_00) ⊎ (l ≡ speaker_01)) (sym who) label,
          subst (λ l. built.speaker_coverage_ratio ≡ some (share l w spans)) (sym who)
              (covered ∙ part),
          subst (λ l. cfg.word_min_dominant_coverage ≤ share l w spans) (sym who) big,
          material-spoken cfg w spans alone,
        ),
      )
