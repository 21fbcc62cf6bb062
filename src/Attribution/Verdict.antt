-- ===== src/Attribution/Verdict.antt =====
-- When a word is assigned to a speaker.
use sddiar.Base.{
  ℕ, zero, suc, ◌≤◌, ◌<◌, ◌≡◌, refl, sym, subst, ◌∙◌, inl, inr, ◌⊎◌, Bool, true, false, ◌&&◌,
  Option, none, some, List, [], ◌∷◌, arith, ltb, ltb→lt, leb, if◌then◌else◌, length, keep_if,
  Bool-cases,
}
use sddiar.Spans.{Speaker, speaker_00, speaker_01}
use sddiar.Attribution.{
  WordMappingConfig, WordStatus, assigned, Decision, or_zero, speakers_of, best_of, material_of,
  rest_decision, best_decision, dominant_decision, decide_speakers,
}

pub clash {ℓ} : {B : Type ℓ} {b : Bool} → b ≡ false → b ≡ true → B
clash h k = ground arith

abbrev pub is_assigned : WordStatus → Bool
is_assigned assigned = true
is_assigned _ = false

-- What an assignment says of the ratios of the two speakers, `none` for one without coverage.
abbrev pub IsDominant : WordMappingConfig → Option ℕ → Option ℕ → ℕ → Decision → Type 0
IsDominant cfg first second unknown_ratio d =
    (ratio : ℕ) × (d.coverage ≡ some ratio)
    × (cfg.word_min_dominant_coverage ≤ ratio)
    × (unknown_ratio ≤ cfg.word_max_unknown_coverage)
    × (((d.speaker ≡ speaker_00) × (first ≡ some ratio) × (or_zero second ≤ ratio))
        ⊎ ((d.speaker ≡ speaker_01) × (second ≡ some ratio) × (or_zero first ≤ ratio)))

rest_decision-unassigned :
    (speakers : List (Speaker × ℕ)) (others : Option ℕ)
    → is_assigned (rest_decision speakers others).status ≡ false
rest_decision-unassigned [] none = refl
rest_decision-unassigned [] (some zero) = refl
rest_decision-unassigned [] (some (suc r)) = refl
rest_decision-unassigned (x ∷ rest) none = refl
rest_decision-unassigned (x ∷ rest) (some r) = refl

-- An assignment is one to the best entry, which dominates.
best_decision-assigned :
    (cfg : WordMappingConfig) (speakers : List (Speaker × ℕ)) (u : ℕ) (others : Option ℕ)
    (label : Speaker) (ratio : ℕ)
    → is_assigned (best_decision cfg speakers u others (label, ratio)).status ≡ true
    → ((best_decision cfg speakers u others (label, ratio)).coverage ≡ some ratio)
      × ((best_decision cfg speakers u others (label, ratio)).speaker ≡ label)
      × (cfg.word_min_dominant_coverage ≤ ratio)
      × (u ≤ cfg.word_max_unknown_coverage)
best_decision-assigned cfg speakers u others label ratio h =
    elim (Bool-cases
      (leb cfg.word_min_dominant_coverage ratio && leb u cfg.word_max_unknown_coverage)) [
        | inl good ↦ rw good (refl, refl, ground arith, ground arith)
        | inr bad ↦ clash (rest_decision-unassigned speakers others) (rw bad at h)
      ]

-- The better of two entries.
pub best_of-two :
    (r q : ℕ)
    → best_of (speaker_00, r) ((speaker_01, q) ∷ [])
      ≡ (if ltb r q then (speaker_01, q) else (speaker_00, r))
unfolding best_of
best_of-two r q = ground arith

-- What the choice of an entry has to satisfy.
abbrev Assigned : WordMappingConfig → ℕ → ℕ → ℕ → Option ℕ → Speaker × ℕ → Type 0
Assigned cfg r q u others p =
    is_assigned (best_decision cfg (speakers_of (some r) (some q)) u others p).status ≡ true
    → IsDominant cfg (some r) (some q) u
        (best_decision cfg (speakers_of (some r) (some q)) u others p)

second_entry :
    (cfg : WordMappingConfig) (r q u : ℕ) (others : Option ℕ)
    → r < q
    → Assigned cfg r q u others (speaker_01, q)
second_entry cfg r q u others less h =
    let (share, who, big, few) =
      best_decision-assigned cfg (speakers_of (some r) (some q)) u others speaker_01 q h in
    (q, share, big, few, inr (who, refl, omega (arith, less)))

first_entry :
    (cfg : WordMappingConfig) (r q u : ℕ) (others : Option ℕ)
    → q ≤ r
    → Assigned cfg r q u others (speaker_00, r)
first_entry cfg r q u others more h =
    let (share, who, big, few) =
      best_decision-assigned cfg (speakers_of (some r) (some q)) u others speaker_00 r h in
    (r, share, big, few, inl (who, refl, more))

dominant_decision-IsDominant :
    (cfg : WordMappingConfig) (first second : Option ℕ) (u : ℕ) (others : Option ℕ)
    → is_assigned (dominant_decision cfg (speakers_of first second) u others).status ≡ true
    → IsDominant cfg first second u (dominant_decision cfg (speakers_of first second) u others)
unfolding best_of
dominant_decision-IsDominant cfg none none u others h = clash (rest_decision-unassigned [] others) h
dominant_decision-IsDominant cfg (some r) none u others h =
    let (share, who, big, few) =
      best_decision-assigned cfg (speakers_of (some r) none) u others speaker_00 r h in
    (r, share, big, few, inl (who, refl, omega arith))
dominant_decision-IsDominant cfg none (some q) u others h =
    let (share, who, big, few) =
      best_decision-assigned cfg (speakers_of none (some q)) u others speaker_01 q h in
    (q, share, big, few, inr (who, refl, omega arith))
dominant_decision-IsDominant cfg (some r) (some q) u others h =
    subst (Assigned cfg r q u others) (sym (best_of-two r q))
      (elim (Bool-cases (ltb r q)) [
        | inl less ↦ rw less (second_entry cfg r q u others (ltb→lt r q less))
        | inr more ↦ rw more (first_entry cfg r q u others (ground arith))
      ])
      h

-- Whether both speakers are present and material.
abbrev pub both_material : WordMappingConfig → Option ℕ → Option ℕ → Bool
both_material cfg (some r) (some q) =
    leb cfg.word_material_speaker_coverage r && leb cfg.word_material_speaker_coverage q
both_material cfg _ _ = false

material-both :
    (cfg : WordMappingConfig) (first second : Option ℕ)
    → leb 2 (length (material_of cfg (speakers_of first second))) ≡ both_material cfg first second
unfolding keep_if
material-both cfg none none = refl
material-both cfg (some r) none = ground arith
material-both cfg none (some q) = ground arith
material-both cfg (some r) (some q) = ground arith

pub decide_speakers-IsDominant :
    (cfg : WordMappingConfig) (first second : Option ℕ) (u : ℕ) (others : Option ℕ)
    → is_assigned (decide_speakers cfg (speakers_of first second) u others).status ≡ true
    → IsDominant cfg first second u (decide_speakers cfg (speakers_of first second) u others)
      × (both_material cfg first second ≡ false)
unfolding decide_speakers
decide_speakers-IsDominant cfg first second u others h =
    let same = material-both cfg first second in
    elim (Bool-cases (leb 2 (length (material_of cfg (speakers_of first second))))) [
      | inl both ↦ clash refl (rw both at h)
      | inr alone ↦
          rw alone (
            dominant_decision-IsDominant cfg first second u others (rw alone at h),
            sym same ∙ alone,
          )
    ]
