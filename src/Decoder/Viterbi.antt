-- ===== src/Decoder/Viterbi.antt =====
-- The costs of the sequence decoder's paths, and how the table of the search relates to them.
pub mod Exact
pub mod Optimal
use sddiar.Base.{
  ℕ, Bool, true, false, not, ◌&&◌, ◌||◌, ◌≡◌, refl, sym, ap, subst, ◌∙◌, ◌⊎◌, inl, inr, Option,
  none, some, List, [], ◌∷◌, map, Bool-cases, any, arith, if◌then◌else◌,
}
use sddiar.Floats.{Floats, IsOrdered}
use sddiar.Spans.{Speaker, unknown, same_speaker}
use sddiar.Spans.Labels.{same_speaker-eq, same_speaker_refl}
use sddiar.Tracklets.{DiarizationConfig}
use sddiar.Hypotheses.{HypothesisDecision}
use sddiar.Decoder.{
  Step, Entry, Table, is_before, least, choose, cost_of, pointer_of, transition, step_emission,
}

abbrev pub among : Speaker → List Speaker → Bool
among speaker candidates = any (λ c. same_speaker c speaker) candidates

module _ {F : Type 0} (floats : Floats F) (ordered : IsOrdered floats) where
  pub leb_refl : (a : F) → floats.leb a a ≡ true
  leb_refl a = ground (arith, ordered.leb_total a a)

  is_before_leb : (x y : F × Speaker) → is_before floats x y ≡ true → floats.leb x.0 y.0 ≡ true
  is_before_leb x y h =
      ground
        (arith, ordered.lt_not_leb x.0 y.0, ordered.lt_not_leb y.0 x.0, ordered.leb_total x.0 y.0)

  not_before_leb : (x y : F × Speaker) → is_before floats x y ≡ false → floats.leb y.0 x.0 ≡ true
  not_before_leb x y h =
      ground
        (arith, ordered.lt_not_leb x.0 y.0, ordered.lt_not_leb y.0 x.0, ordered.leb_total x.0 y.0)

  abbrev better : F × Speaker → F × Speaker → F × Speaker
  better x best = if is_before floats x best then x else best

  better_leb :
      (x best : F × Speaker)
      → (floats.leb (better x best).0 x.0 ≡ true) × (floats.leb (better x best).0 best.0 ≡ true)
  better_leb x best = elim (Bool-cases (is_before floats x best)) [
    | inl before ↦ rw before (leb_refl x.0, is_before_leb x best before)
    | inr later ↦ rw later (not_before_leb x best later, leb_refl best.0)
  ]

  better_cases : (x best : F × Speaker) → (better x best ≡ x) ⊎ (better x best ≡ best)
  better_cases x best = elim (Bool-cases (is_before floats x best)) [
    | inl before ↦ inl (rw before refl)
    | inr later ↦ inr (rw later refl)
  ]

  least_leb :
      (best : F × Speaker) (options : List (F × Speaker))
      → floats.leb (least floats best options).0 best.0 ≡ true
  unfolding least
  least_leb best [] = leb_refl best.0
  least_leb best (x ∷ options) =
      ordered.leb_trans _ _ _ (least_leb (better x best) options) (better_leb x best).1

  -- The options of the candidates.
  module _ (f : Speaker → F × Speaker) where
    least_leb_all :
        (best : F × Speaker) (cs : List Speaker) (k : Speaker)
        → among k cs ≡ true
        → floats.leb (least floats best (map f cs)).0 (f k).0 ≡ true
    unfolding least
    least_leb_all best [] k h = ground arith
    least_leb_all best (c ∷ cs) k h = elim (Bool-cases (same_speaker c k)) [
      | inl same ↦
          subst (λ j. floats.leb (least floats (better (f c) best) (map f cs)).0 (f j).0 ≡ true)
            (same_speaker-eq c k same)
            (ordered.leb_trans _ _ _ (least_leb (better (f c) best) (map f cs))
              (better_leb (f c) best).0)
      | inr different ↦ least_leb_all (better (f c) best) cs k (ground arith)
    ]

    least-comes :
        (best : F × Speaker) (cs : List Speaker)
        → (least floats best (map f cs) ≡ best)
          ⊎ ((j : Speaker) × (among j cs ≡ true) × (least floats best (map f cs) ≡ f j))
    unfolding least
    least-comes best [] = inl refl
    least-comes best (c ∷ cs) =
        let moved =
          λ (b : F × Speaker) (e : better (f c) best ≡ b). ap (λ x. least floats x (map f cs)) e in
        elim (better_cases (f c) best) [
          | inl new ↦ elim (least-comes (f c) cs) [
            | inl own ↦ inr (c, ground (arith, same_speaker_refl c), moved (f c) new ∙ own)
            | inr (j, member, e) ↦ inr (j, ground arith, moved (f c) new ∙ e)
          ]
          | inr old ↦ elim (least-comes best cs) [
            | inl own ↦ inl (moved best old ∙ own)
            | inr (j, member, e) ↦ inr (j, ground arith, moved best old ∙ e)
          ]
        ]

    pub choose_leb :
        (cs : List Speaker) (k : Speaker)
        → among k cs ≡ true
        → floats.leb (choose floats (map f cs)).0 (f k).0 ≡ true
    unfolding choose
    choose_leb [] k h = ground arith
    choose_leb (c ∷ cs) k h = elim (Bool-cases (same_speaker c k)) [
      | inl same ↦
          subst (λ j. floats.leb (least floats (f c) (map f cs)).0 (f j).0 ≡ true)
            (same_speaker-eq c k same) (least_leb (f c) (map f cs))
      | inr different ↦ least_leb_all (f c) cs k (ground arith)
    ]

    -- The choice is the option of some candidate.
    pub choose-comes :
        (cs : List Speaker) (k : Speaker)
        → among k cs ≡ true
        → (j : Speaker) × (among j cs ≡ true) × (choose floats (map f cs) ≡ f j)
    unfolding choose
    choose-comes [] k h = ground arith
    choose-comes (c ∷ cs) k h = elim (least-comes (f c) cs) [
      | inl own ↦ (c, ground (arith, same_speaker_refl c), own)
      | inr (j, member, e) ↦ (j, ground arith, e)
    ]

module _ {F : Type 0} (floats : Floats F) (g : Speaker → Entry F)
    (named : (c : Speaker) → (g c).candidate ≡ c) where
  pub cost_of-map :
      (cs : List Speaker) (c : Speaker)
      → among c cs ≡ true
      → cost_of floats c (map g cs) ≡ (g c).cost
  unfolding cost_of
  cost_of-map [] c h = ground arith
  cost_of-map (x ∷ xs) c h = rw (named x) (elim (Bool-cases (same_speaker x c)) [
    | inl same ↦ rw same (ap (λ j. (g j).cost) (same_speaker-eq x c same))
    | inr different ↦ rw different (cost_of-map xs c (ground arith))
  ])

  pub pointer_of-map :
      (cs : List Speaker) (c : Speaker)
      → among c cs ≡ true
      → pointer_of c (map g cs) ≡ (g c).pointer
  unfolding pointer_of
  pointer_of-map [] c h = ground arith
  pointer_of-map (x ∷ xs) c h = rw (named x) (elim (Bool-cases (same_speaker x c)) [
    | inl same ↦ rw same (ap (λ j. (g j).pointer) (same_speaker-eq x c same))
    | inr different ↦ rw different (pointer_of-map xs c (ground arith))
  ])
