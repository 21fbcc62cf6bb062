-- ===== src/WordScores/Distinct.antt =====
-- Identifiers that a set does not shorten are apart from each other.
use Prim.Native.String.{String}
use text.Mathlib.Text.{◌==◌ as str_eq}
use text.Mathlib.TextEquality.{eq_iff}
use sddiar.Base.{
  ◌≤◌, ◌≡◌, refl, sym, subst, inl, inr, Bool, true, false, List, [], ◌∷◌, map, length, keep_if, All,
  Bool-cases, arith,
}
use sddiar.DiarizationError.{label_in, distinct_labels}
use sddiar.WordScores.{has_duplicates}

abbrev pub AreApart : String → String → Type 0
AreApart x y = (str_eq x y ≡ false) × (str_eq y x ≡ false)

str_eq-sym : (x y : String) → str_eq x y ≡ false → str_eq y x ≡ false
str_eq-sym x y h = elim (Bool-cases (str_eq y x)) [
  | inl same ↦ let back = (eq_iff x y).1 (sym ((eq_iff y x).0 same)) in cc
  | inr apart ↦ apart
]

length-distinct_labels-le :
    (seen labels : List String) → length (distinct_labels seen labels) ≤ length labels
unfolding distinct_labels
length-distinct_labels-le seen [] = omega arith
length-distinct_labels-le seen (l ∷ labels) =
    ground (arith, length-distinct_labels-le (l ∷ seen) labels)

-- Labels that are new and apart.
abbrev AreNew : List String → List String → Type 0
AreNew seen [] = Unit
AreNew seen (l ∷ labels) = (label_in l seen ≡ false) × AreNew (l ∷ seen) labels

distinct_labels-AreNew :
    (seen labels : List String)
    → length (distinct_labels seen labels) ≡ length labels
    → AreNew seen labels
unfolding distinct_labels
distinct_labels-AreNew seen [] h = tt
distinct_labels-AreNew seen (l ∷ labels) h =
    let shorter = length-distinct_labels-le (l ∷ seen) labels in
    elim (Bool-cases (label_in l seen)) [
      | inl old ↦ ground (arith, shorter, old, h)
      | inr fresh ↦ (fresh, distinct_labels-AreNew (l ∷ seen) labels (ground (arith, fresh, h)))
    ]

module _ {A : Type 0} (key : A → String) where
  -- Elements whose identifiers are apart.
  abbrev pub HaveApartKeys : List A → Type 0
  HaveApartKeys [] = Unit
  HaveApartKeys (x ∷ xs) = All (λ y. AreApart (key x) (key y)) xs × HaveApartKeys xs

  AreNew-All :
      (k : String) (seen : List String) (xs : List A)
      → label_in k seen ≡ true
      → AreNew seen (map key xs)
      → All (λ y. AreApart k (key y)) xs
  AreNew-All k seen [] h new = tt
  AreNew-All k seen (y ∷ xs) h (fresh, new) = elim (Bool-cases (str_eq k (key y))) [
    | inl same ↦
        let equal = (eq_iff k (key y)).0 same in
        let old = subst (λ l. label_in l seen ≡ true) equal h in cc
    | inr apart ↦ (
      (apart, str_eq-sym k (key y) apart),
      AreNew-All k (key y ∷ seen) xs (ground (arith, h)) new,
    )
  ]

  AreNew-HaveApartKeys :
      (seen : List String) (xs : List A) → AreNew seen (map key xs) → HaveApartKeys xs
  AreNew-HaveApartKeys seen [] new = tt
  AreNew-HaveApartKeys seen (x ∷ xs) (fresh, new) =
      let here = (eq_iff (key x) (key x)).1 refl in
      (
        AreNew-All (key x) (key x ∷ seen) xs (ground (arith, here)) new,
        AreNew-HaveApartKeys (key x ∷ seen) xs new,
      )

  length-map : (xs : List A) → length (map key xs) ≡ length xs
  length-map [] = refl
  length-map (x ∷ xs) = omega (arith, length-map xs)

  pub has_duplicates-HaveApartKeys :
      (xs : List A) → has_duplicates (map key xs) ≡ false → HaveApartKeys xs
  has_duplicates-HaveApartKeys xs h =
      AreNew-HaveApartKeys [] xs (distinct_labels-AreNew [] (map key xs) (ground (arith, h)))

  All-keep_if :
      (P : A → Type 0) (test : A → Bool) (xs : List A) → All P xs → All P (keep_if test xs)
  unfolding keep_if
  All-keep_if P test [] h = tt
  All-keep_if P test (x ∷ xs) (first, rest) = elim (Bool-cases (test x)) [
    | inl kept ↦ rw kept (first, All-keep_if P test xs rest)
    | inr left ↦ rw left (All-keep_if P test xs rest)
  ]

  pub keep_if-HaveApartKeys :
      (test : A → Bool) (xs : List A) → HaveApartKeys xs → HaveApartKeys (keep_if test xs)
  unfolding keep_if
  keep_if-HaveApartKeys test [] h = tt
  keep_if-HaveApartKeys test (x ∷ xs) (first, rest) = elim (Bool-cases (test x)) [
    | inl kept ↦ rw kept (All-keep_if _ test xs first, keep_if-HaveApartKeys test xs rest)
    | inr left ↦ rw left (keep_if-HaveApartKeys test xs rest)
  ]
