-- ===== src/WordScores/Lookup.antt =====
-- A word finds its own prediction by its identifier.
use Prim.Native.String.{String}
use text.Mathlib.Text.{◌==◌ as str_eq}
use text.Mathlib.TextEquality.{eq_iff}
use sddiar.Base.{◌≡◌, refl, ◌∙◌, false, Option, none, some, List, [], ◌∷◌, All}
use sddiar.WordScores.{WordAnnotation, add_assigned, assigned_of, assigned_to}
use sddiar.WordScores.Distinct.{AreApart, HaveApartKeys}

module _ {Character : Type 0} (predict : WordAnnotation Character → Option String) where
  skip_apart :
      (k : String) (found : Option String) (w : WordAnnotation Character) (label : Option String)
      (assigned : List (WordAnnotation Character × String))
      → str_eq w.word_id k ≡ false
      → assigned_to k found (add_assigned w label assigned) ≡ assigned_to k found assigned
  skip_apart k found w none assigned h = refl
  skip_apart k found w (some l) assigned h = rw (h, assigned_to) refl

  assigned_to-absent :
      (k : String) (found : Option String) (words : List (WordAnnotation Character))
      → All (λ w. AreApart k w.word_id) words
      → assigned_to k found (assigned_of predict words) ≡ found
  assigned_to-absent k found [] h = refl
  assigned_to-absent k found (w ∷ words) (first, rest) =
      skip_apart k found w (predict w) (assigned_of predict words) first.1
      ∙ assigned_to-absent k found words rest

  own_first :
      (w : WordAnnotation Character) (label : Option String)
      (words : List (WordAnnotation Character))
      → All (λ v. AreApart w.word_id v.word_id) words
      → assigned_to w.word_id none (add_assigned w label (assigned_of predict words)) ≡ label
  own_first w none words h = assigned_to-absent w.word_id none words h
  own_first w (some l) words h =
      rw ((eq_iff w.word_id w.word_id).1 refl, assigned_to)
        (assigned_to-absent w.word_id (some l) words h)

  behind :
      (w : WordAnnotation Character) (all words : List (WordAnnotation Character))
      → All (λ v. AreApart w.word_id v.word_id) words
      → All (λ v. assigned_to v.word_id none (assigned_of predict all) ≡ predict v) words
      → All (λ v. assigned_to v.word_id none (assigned_of predict (w ∷ all)) ≡ predict v) words
  behind w all [] first h = tt
  behind w all (v ∷ words) (apart, first) (own, h) = (
    skip_apart v.word_id none w (predict w) (assigned_of predict all) apart.0 ∙ own,
    behind w all words first h,
  )

  pub assigned_to-own :
      (words : List (WordAnnotation Character))
      → HaveApartKeys (λ w. w.word_id) words
      → All (λ w. assigned_to w.word_id none (assigned_of predict words) ≡ predict w) words
  assigned_to-own [] h = tt
  assigned_to-own (w ∷ words) (first, rest) =
      (own_first w (predict w) words first, behind w words words first (assigned_to-own words rest))
