-- ===== src/WordScores/Words.antt =====
-- The scores of words as counts of the words of the reference.
use Prim.Native.String.{String}
use sddiar.Base.{
  ℕ, ◌≡◌, refl, ap, ◌∙◌, Bool, true, false, not, ◌&&◌, ◌||◌, Option, none, some, List, [], ◌∷◌,
  sum_of, keep_if, All, if◌then◌else◌, arith,
}
use sddiar.Base.{
  raise_if_passed, ok, ok-inj, raise_if, raise_if_then, evaluation, any, map, ◌>>◌, subst,
}
use sddiar.DiarizationError.{ratio, label_in}
use sddiar.WordScores.{
  WordAnnotation, WordDecision, WordMetrics, count, is_some, is_speaker, same_option, assigned_of,
  assigned_to, is_correct, is_eligible, is_excluded, is_reference, is_wrong, weight_of,
  prediction_for, has_duplicates, score_words, word_metrics,
}
use sddiar.WordScores.Distinct.{HaveApartKeys, has_duplicates-HaveApartKeys, keep_if-HaveApartKeys}
use sddiar.WordScores.Counts.{
  sum_of-keep_if, sum_of-cong, length-keep_if, count-keep_if, sum_where-keep_if, keep_if-All,
  with_label, count-assigned_of, length-assigned_of,
}
use sddiar.WordScores.Lookup.{assigned_to-own}

ratio_cong :
    {F : Type 0} (quotient : ℕ → ℕ → F) (zero_ratio : F) {a b c d : ℕ}
    → a ≡ b
    → c ≡ d
    → ratio quotient zero_ratio a c ≡ ratio quotient zero_ratio b d
ratio_cong quotient zero_ratio {b} {c} h k =
    ap (λ x. ratio quotient zero_ratio x c) h ∙ ap (λ x. ratio quotient zero_ratio b x) k

abbrev one_if : Bool → ℕ
one_if test = if test then 1 else 0

neither_left : (a b : Bool) → (a || b) ≡ false → a ≡ false
neither_left a b h = ground arith

-- A prediction that is the reference speaker.
abbrev pub is_right : Option String → Option String → Bool
is_right none ref = false
is_right (some label) ref = is_speaker label ref

module _ (upper : String → String) where
  same_option-is_right :
      (found ref : Option String)
      → is_reference upper ref ≡ true
      → same_option found ref ≡ is_right found ref
  same_option-is_right none none h = cc
  same_option-is_right none (some r) h = refl
  same_option-is_right (some l) ref h = refl

  module _ {Character : Type 0} where
    abbrev pub id_of : WordAnnotation Character → String
    id_of w = w.word_id

    is_eligible-is_reference :
        (w : WordAnnotation Character)
        → is_eligible upper w ≡ true
        → is_reference upper w.ref_speaker_id ≡ true
    is_eligible-is_reference w h = ground arith

    is_wrong_eligible :
        (predict : WordAnnotation Character → Option String)
        (assigned : List (WordAnnotation Character × String)) (w : WordAnnotation Character)
        → is_eligible upper w ≡ true
        → assigned_to w.word_id none assigned ≡ predict w
        → is_wrong assigned w ≡ not (is_right (predict w) w.ref_speaker_id)
    is_wrong_eligible predict assigned w e own =
        ap (λ found. not (same_option found w.ref_speaker_id)) own
        ∙ ap not (same_option-is_right (predict w) w.ref_speaker_id (is_eligible-is_reference w e))

    wrong_weights :
        (predict : WordAnnotation Character → Option String) (size : WordAnnotation Character → ℕ)
        (assigned : List (WordAnnotation Character × String))
        (words : List (WordAnnotation Character))
        → All (λ w. is_eligible upper w ≡ true) words
        → All (λ w. assigned_to w.word_id none assigned ≡ predict w) words
        → sum_of (λ w. if is_wrong assigned w then size w else 0) words
          ≡ sum_of (λ w. if not (is_right (predict w) w.ref_speaker_id) then size w else 0) words
    wrong_weights predict size assigned [] e own = refl
    wrong_weights predict size assigned (w ∷ words) (first, e) (own, rest) =
        let here = is_wrong_eligible predict assigned w first own in
        omega (
          arith,
          ap (λ (wrong : Bool). if wrong then size w else 0) here,
          wrong_weights predict size assigned words e rest,
        )

    with_label-is_right :
        (w : WordAnnotation Character) (found : Option String)
        → with_label is_correct w found ≡ is_right found w.ref_speaker_id
    with_label-is_right w none = refl
    with_label-is_right w (some l) = refl

    module _ {F : Type 0} (quotient : ℕ → ℕ → F) (zero_ratio : F) (is_space : Character → Bool)
        (mapping : List (String × String)) (reference : List (WordAnnotation Character))
        (decisions : List WordDecision) where
      abbrev pub predicted : WordAnnotation Character → Option String
      predicted w = prediction_for upper mapping decisions w

      abbrev pub right : WordAnnotation Character → Bool
      right w = is_right (predicted w) w.ref_speaker_id

      with_labels :
          (words : List (WordAnnotation Character))
          → All (λ w. one_if (with_label is_correct w (predicted w)) ≡ one_if (right w)) words
      with_labels [] = tt
      with_labels (w ∷ words) = (ap one_if (with_label-is_right w (predicted w)), with_labels words)

      abbrev pub AreCounted : WordMetrics F → Type 0
      AreCounted m =
          (m.eligible_words ≡ count (is_eligible upper) reference)
          × (m.assigned_words ≡ count (λ w. is_eligible upper w && is_some (predicted w)) reference)
          × (m.correct_words ≡ count (λ w. is_eligible upper w && right w) reference)
          × (m.excluded_overlap_or_boundary_words ≡ count is_excluded reference)
          × (m.forced_overlap_or_boundary_assignments
              ≡ count (λ w. is_excluded w && is_some (predicted w)) reference)
          × (m.eligible_characters
              ≡ sum_of (λ w. if is_eligible upper w then weight_of is_space w else 0) reference)
          × (m.character_weighted_error
              ≡ ratio quotient zero_ratio
                  (sum_of
                    (λ w. if is_eligible upper w && not (right w) then weight_of is_space w else 0)
                    reference)
                  (sum_of (λ w. if is_eligible upper w then weight_of is_space w else 0) reference))

      word_metrics-AreCounted :
          HaveApartKeys id_of reference
          → AreCounted (word_metrics upper quotient zero_ratio is_space predicted reference)
      word_metrics-AreCounted apart =
          let eligible = keep_if (is_eligible upper) reference in
          let own =
            assigned_to-own predicted eligible
              (keep_if-HaveApartKeys id_of (is_eligible upper) reference apart) in
          let errors =
            wrong_weights predicted (weight_of is_space) (assigned_of predicted eligible) eligible
              (keep_if-All (is_eligible upper) reference) own
            ∙ sum_where-keep_if (is_eligible upper) (λ w. not (right w)) (weight_of is_space)
                reference in
          let total = sum_of-keep_if (is_eligible upper) (weight_of is_space) reference in
          (
            length-keep_if (is_eligible upper) reference,
            length-assigned_of predicted eligible
                ∙ count-keep_if (is_eligible upper) (λ w. is_some (predicted w)) reference,
            count-assigned_of is_correct predicted eligible
                ∙ sum_of-cong _ _ eligible (with_labels eligible)
                ∙ count-keep_if (is_eligible upper) right reference,
            length-keep_if is_excluded reference,
            count-keep_if is_excluded (λ w. is_some (predicted w)) reference,
            total,
            ratio_cong quotient zero_ratio errors total,
          )

      -- When words are scored, the numbers are counts of single reference words, each with the
      -- prediction for its own identifier: eligible, assigned, correct, excluded and forced ones; the
      -- characters are those of the eligible words; and the weighted error is the share of those
      -- whose prediction is not the reference speaker.
      pub score_words-AreCounted :
          (m : WordMetrics F)
          → score_words upper quotient zero_ratio is_space mapping reference decisions ≡ ok m
          → AreCounted m
      unfolding score_words
      score_words-AreCounted m h =
          let word_ids = map id_of reference in
          let decision_ids = map (λ (d : WordDecision). d.word_id) decisions in
          let repeated = has_duplicates word_ids || has_duplicates decision_ids in
          let metrics = word_metrics upper quotient zero_ratio is_space predicted reference in
          let unknown = any (λ d. not (label_in d word_ids)) decision_ids in
          let rest = raise_if unknown evaluation >> ok metrics in
          let passed = raise_if_passed repeated evaluation rest m h in
          let same =
            raise_if_then unknown evaluation (ok metrics) m
              (raise_if_then repeated evaluation rest m h) in
          let apart =
            has_duplicates-HaveApartKeys id_of reference
              (neither_left (has_duplicates word_ids) (has_duplicates decision_ids) passed) in
          subst AreCounted (ok-inj same) (word_metrics-AreCounted apart)
