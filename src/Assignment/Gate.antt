-- ===== src/Assignment/Gate.antt =====
-- Which tracklets are assigned to a speaker.
use Prim.Native.String.{String}
use sddiar.Base.{
  ◌≡◌, refl, inl, inr, Bool, true, false, not, Option, none, some, List, [], ◌∷◌, ok, bind_ok,
  Bool-cases, All, arith, if◌then◌else◌,
}
use sddiar.Base.Sort.{sort, IsSorted, sort-IsSorted}
use sddiar.Floats.{Floats, IsOrdered}
use sddiar.Spans.{Speaker, overlap, is_session_speaker}
use sddiar.Tracklets.{Tracklet, DiarizationConfig}
use sddiar.Hypotheses.{HypothesisDecision, is_confirmed}
use sddiar.Assignment.{
  SpeakerStates, EmbeddingResult, SpeakerAssignment, Score, le_state, le_score, usable,
  role_thresholds, is_below, fails_gate, margin_of, scores_of, assignment, assign_best,
  assign_scored, local_assignment, refuse, assign_vector,
}

module _ {F : Type 0} (floats : Floats F) where
  assignment-fields :
      (t : Tracklet F) (speaker : Speaker) (status : String) (stable effective margin : Option F)
      (reasons : List String) (a : SpeakerAssignment F)
      → assignment floats t speaker status stable effective margin reasons ≡ ok a
      → (a.speaker_id ≡ speaker)
        × (a.stable_distance ≡ stable)
        × (a.effective_distance ≡ effective)
        × (a.margin ≡ margin)
  unfolding assignment
  assignment-fields t speaker status stable effective margin reasons a h = ground arith

  -- The distances pass the gate of the tracklet's kind.
  abbrev Passes : Tracklet F → DiarizationConfig F → Score F → Option F → Type 0
  Passes t cfg best margin =
      let (ceiling, limit, least) = role_thresholds floats t.kind cfg in
      (floats.lt ceiling best.stable ≡ false)
      × (floats.lt limit best.effective ≡ false)
      × (is_below floats margin least ≡ false)

  -- The best score is assigned, with its distances.
  abbrev IsBest :
      Tracklet F → DiarizationConfig F → SpeakerAssignment F → Score F → List (Score F) → Type 0
  IsBest t cfg a best rest =
      (a.speaker_id ≡ best.speaker)
      × (a.stable_distance ≡ some best.stable)
      × (a.effective_distance ≡ some best.effective)
      × Passes t cfg best (margin_of floats best rest)

  assign_best-IsBest :
      (t : Tracklet F) (cfg : DiarizationConfig F) (best : Score F) (rest : List (Score F))
      (a : SpeakerAssignment F)
      → assign_best floats t cfg (best ∷ rest) ≡ ok a
      → is_session_speaker a.speaker_id ≡ true
      → IsBest t cfg a best rest
  unfolding assign_best
  assign_best-IsBest t cfg best rest a h session =
      elim (Bool-cases (fails_gate floats t cfg best (margin_of floats best rest))) [
        | inl fails ↦
            let (who, _, _, _) = assignment-fields t _ _ _ _ _ _ a (rw fails at h) in
            absurd (cc (rw who at session))
        | inr passes ↦
            let (who, stable, effective, _) = assignment-fields t _ _ _ _ _ _ a (rw passes at h) in
            (who, stable, effective, ground arith)
      ]

  module _ (ordered : IsOrdered floats) where
    le_score_total : (x y : Score F) → le_score floats x y ≡ false → le_score floats y x ≡ true
    le_score_total x y h = ground (
      arith,
      ordered.lt_not_leb x.effective y.effective,
      ordered.lt_not_leb y.effective x.effective,
      ordered.leb_total x.effective y.effective,
    )

    le_score_leb :
        (x y : Score F) → le_score floats x y ≡ true → floats.leb x.effective y.effective ≡ true
    le_score_leb x y h = ground (
      arith,
      ordered.lt_not_leb x.effective y.effective,
      ordered.lt_not_leb y.effective x.effective,
      ordered.leb_total x.effective y.effective,
    )

    le_score_trans :
        (x y z : Score F)
        → le_score floats x y ≡ true
        → le_score floats y z ≡ true
        → le_score floats x z ≡ true
    le_score_trans x y z h k =
        let xy = le_score_leb x y h in
        let yz = le_score_leb y z k in
        elim (Bool-cases (floats.lt x.effective z.effective)) [
          | inl less ↦ ground arith
          | inr equal ↦
              let zx : floats.leb z.effective x.effective ≡ true =
                ground (arith, ordered.lt_not_leb x.effective z.effective) in
              let zy = ordered.leb_trans _ _ _ zx xy in
              let yx = ordered.leb_trans _ _ _ yz zx in
              let xz = ordered.leb_trans _ _ _ xy yz in
              ground (
                arith,
                ordered.lt_not_leb x.effective z.effective,
                ordered.lt_not_leb z.effective x.effective,
                ordered.lt_not_leb x.effective y.effective,
                ordered.lt_not_leb y.effective z.effective,
              )
        ]

    -- No other speaker's effective distance is less than the best one's.
    least-All :
        (best : Score F) (rest : List (Score F))
        → All (λ s. le_score floats best s ≡ true) rest
        → All (λ s. floats.leb best.effective s.effective ≡ true) rest
    least-All best [] h = tt
    least-All best (s ∷ rest) h = (le_score_leb best s h.0, least-All best rest h.1)

    -- The embedding's scores, and the best of them, which is assigned.
    abbrev pub IsFound :
        Tracklet F
        → Option (List F)
        → SpeakerStates F
        → DiarizationConfig F
        → SpeakerAssignment F
        → Type 0
    IsFound t found states cfg a =
        (vector : List F) × (scores : List (Score F)) × (best : Score F) × (rest : List (Score F))
        × (found ≡ some vector)
        × (scores_of floats vector cfg (sort le_state states) ≡ ok scores)
        × (sort (le_score floats) scores ≡ best ∷ rest)
        × All (λ s. floats.leb best.effective s.effective ≡ true) rest
        × IsBest t cfg a best rest

    -- What a tracklet that goes to a session speaker satisfies.
    abbrev pub IsGated :
        Tracklet F
        → Option (EmbeddingResult F)
        → SpeakerStates F
        → HypothesisDecision F
        → DiarizationConfig F
        → SpeakerAssignment F
        → Type 0
    IsGated t embedding states decision cfg a =
        (t.protected_overlap ≡ false)
        × (is_confirmed decision.state ≡ true)
        × (t.mixed_tracklet_suspect ≡ false)
        × IsFound t (usable embedding) states cfg a

    refused :
        (t : Tracklet F) (reason : String) (a : SpeakerAssignment F)
        → refuse floats t reason ≡ ok a
        → is_session_speaker a.speaker_id ≡ true
        → ⊥
    refused t reason a h session =
        let (who, _, _, _) = assignment-fields t _ _ _ _ _ _ a h in cc (rw who at session)

    no_score :
        (t : Tracklet F) (cfg : DiarizationConfig F) (a : SpeakerAssignment F)
        → assign_best floats t cfg [] ≡ ok a
        → ⊥
    unfolding assign_best
    no_score t cfg a h = cc

    sorted_best :
        (t : Tracklet F) (cfg : DiarizationConfig F) (vector : List F) (states : SpeakerStates F)
        (scores sorted : List (Score F)) (a : SpeakerAssignment F)
        → scores_of floats vector cfg (sort le_state states) ≡ ok scores
        → sort (le_score floats) scores ≡ sorted
        → IsSorted (le_score floats) sorted
        → assign_best floats t cfg sorted ≡ ok a
        → is_session_speaker a.speaker_id ≡ true
        → IsFound t (some vector) states cfg a
    sorted_best t cfg vector states scores [] a e e2 s h session = absurd (no_score t cfg a h)
    sorted_best t cfg vector states scores (best ∷ rest) a e e2 s h session = (
      vector,
      scores,
      best,
      rest,
      refl,
      e,
      e2,
      least-All best rest s.0,
      assign_best-IsBest t cfg best rest a h session,
    )

    assign_vector-IsFound :
        (t : Tracklet F) (cfg : DiarizationConfig F) (states : SpeakerStates F)
        (found : Option (List F)) (a : SpeakerAssignment F)
        → assign_vector floats t cfg states found ≡ ok a
        → is_session_speaker a.speaker_id ≡ true
        → IsFound t found states cfg a
    unfolding assign_scored
    assign_vector-IsFound t cfg states none a h session = absurd (refused t _ a h session)
    assign_vector-IsFound t cfg [] (some vector) a h session = absurd (refused t _ a h session)
    assign_vector-IsFound t cfg (s ∷ states) (some vector) a h session =
        let (scores, e, h1) =
          bind_ok (scores_of floats vector cfg (sort le_state (s ∷ states))) _ a h in
        let sorted = sort-IsSorted (le_score floats) le_score_total le_score_trans scores in
        sorted_best t cfg vector (s ∷ states) scores _ a e refl sorted h1 session

    -- The three tests before the distances.
    tested-IsFound :
        (t : Tracklet F) (cfg : DiarizationConfig F) (states : SpeakerStates F)
        (found : Option (List F)) (a : SpeakerAssignment F) (protected confirmed mixed : Bool)
        → (if protected
            then assignment floats t overlap "OVERLAP" none none none ("PROTECTED_OVERLAP" ∷ [])
            else if not confirmed
            then refuse floats t "HYPOTHESIS_UNCONFIRMED"
            else if mixed
            then refuse floats t "MIXED_OR_INVALID_EMBEDDING"
            else assign_vector floats t cfg states found)
          ≡ ok a
        → is_session_speaker a.speaker_id ≡ true
        → (protected ≡ false) × (confirmed ≡ true) × (mixed ≡ false) × IsFound t found states cfg a
    tested-IsFound t cfg states found a true confirmed mixed h session =
        let (who, _, _, _) = assignment-fields t _ _ _ _ _ _ a h in absurd (cc (rw who at session))
    tested-IsFound t cfg states found a false false mixed h session =
        absurd (refused t _ a h session)
    tested-IsFound t cfg states found a false true true h session = absurd (refused t _ a h session)
    tested-IsFound t cfg states found a false true false h session =
        (refl, refl, refl, assign_vector-IsFound t cfg states found a h session)

    -- With comparisons that are a total order: a tracklet that goes to a session speaker is not
    -- protected or suspected of mixed speech, its hypothesis is confirmed, its embedding is usable,
    -- and the speaker is the one with the least effective distance, which passes, with the stable
    -- distance and the margin, the gate of the tracklet's kind.
    pub local_assignment-IsGated :
        (t : Tracklet F) (embedding : Option (EmbeddingResult F)) (states : SpeakerStates F)
        (decision : HypothesisDecision F) (cfg : DiarizationConfig F) (a : SpeakerAssignment F)
        → local_assignment floats t embedding states decision cfg ≡ ok a
        → is_session_speaker a.speaker_id ≡ true
        → IsGated t embedding states decision cfg a
    unfolding local_assignment
    local_assignment-IsGated t embedding states decision cfg a h session =
        tested-IsFound t cfg states (usable embedding) a t.protected_overlap
          (is_confirmed decision.state) t.mixed_tracklet_suspect h session
