-- ===== src/Tracklets/Cuts.antt =====
-- The cuts of a region: the pieces between them tile it, and none is longer than the maximum.
use sddiar.Base.{
  ℕ, ◌+◌, ◌-◌, ◌≤◌, ◌<◌, ◌≡◌, refl, sym, ap, subst, ◌∙◌, ◌⊎◌, inl, inr, false, ◌||◌, List, [], ◌∷◌,
  ◌++◌, All, All-append, Bool-cases, arith, if◌then◌else◌, leb, ltb, zero, suc, le→leb, ◌==◌,
}
use sddiar.Base.Sort.{sort, insert_sorted}
use sddiar.Intervals.{Interval, within, covers}
use sddiar.Scoring.{sorted_set, dedup_sorted}
use sddiar.Scoring.SortedSet.{Ascends}
use sddiar.Tracklets.{DiarizationConfig}
use sddiar.Tracklets.Build.{artificial_cuts, pieces, region_cuts}

-- Each is after `low` and before `high`.
abbrev Inside : ℕ → ℕ → List ℕ → Type 0
Inside low high xs = All (λ x. (low < x) × (x < high)) xs

Inside-mono : (a b high : ℕ) (xs : List ℕ) → a ≤ b → Inside b high xs → Inside a high xs
Inside-mono a b high [] le h = tt
Inside-mono a b high (x ∷ xs) le h =
    let ((lt, below), rest) = h in ((omega arith, below), Inside-mono a b high xs le rest)

artificial_cuts-Inside :
    (fuel step end at low : ℕ)
    → 0 < step
    → low < at
    → Inside low end (artificial_cuts fuel step end at)
unfolding artificial_cuts
artificial_cuts-Inside zero step end at low pos_step lt = tt
artificial_cuts-Inside (suc fuel) step end at low pos_step lt = elim (Bool-cases (ltb at end)) [
  | inl more ↦ rw more (
    (lt, ground arith),
    artificial_cuts-Inside fuel step end (at + step) low pos_step (omega arith),
  )
  | inr done ↦ rw done tt
]

Inside-after : (at low high : ℕ) (xs : List ℕ) → Inside low high xs → All (λ x. low < x) xs
Inside-after at low high [] h = tt
Inside-after at low high (x ∷ xs) h = (h.0.0, Inside-after at low high xs h.1)

artificial_cuts-Ascends :
    (fuel step end at : ℕ) → 0 < step → Ascends (artificial_cuts fuel step end at)
unfolding artificial_cuts
artificial_cuts-Ascends zero step end at pos_step = tt
artificial_cuts-Ascends (suc fuel) step end at pos_step = elim (Bool-cases (ltb at end)) [
  | inl more ↦ rw more (
    Inside-after at at end _
        (artificial_cuts-Inside fuel step end (at + step) at pos_step (omega arith)),
    artificial_cuts-Ascends fuel step end (at + step) pos_step,
  )
  | inr done ↦ rw done tt
]

leb_false : (a b : ℕ) → b < a → leb a b ≡ false
leb_false a b lt = ground arith

eq_false : (a b : ℕ) → a < b → (a == b) ≡ false
eq_false a b lt = ground arith

-- Sorting the ends of the region among the cuts puts them around the cuts.
sort-Ascends : (xs : List ℕ) → Ascends xs → sort leb xs ≡ xs
unfolding sort insert_sorted
sort-Ascends [] h = refl
sort-Ascends (x ∷ []) h = refl
sort-Ascends (x ∷ y ∷ xs) h =
    ap (insert_sorted leb x) (sort-Ascends (y ∷ xs) h.1)
    ∙ rw (le→leb x y (omega (arith, h.0.0))) refl

insert_first : (low : ℕ) (xs : List ℕ) → Ascends (low ∷ xs) → insert_sorted leb low xs ≡ low ∷ xs
unfolding insert_sorted
insert_first low [] h = refl
insert_first low (x ∷ xs) h = rw (le→leb low x (omega (arith, h.0.0))) refl

insert_end :
    (high : ℕ) (xs : List ℕ)
    → All (λ x. x < high) xs
    → insert_sorted leb high xs ≡ xs ++ (high ∷ [])
unfolding insert_sorted
insert_end high [] h = refl
insert_end high (x ∷ xs) h = rw (leb_false high x h.0, insert_end high xs h.1) refl

dedup_sorted-Ascends : (xs : List ℕ) → Ascends xs → dedup_sorted xs ≡ xs
unfolding dedup_sorted
dedup_sorted-Ascends [] h = refl
dedup_sorted-Ascends (x ∷ []) h = refl
dedup_sorted-Ascends (x ∷ y ∷ xs) h =
    rw (dedup_sorted-Ascends (y ∷ xs) h.1, eq_false x y h.0.0) refl

Inside-before : (low high : ℕ) (xs : List ℕ) → Inside low high xs → All (λ x. x < high) xs
Inside-before low high [] h = tt
Inside-before low high (x ∷ xs) h = (h.0.1, Inside-before low high xs h.1)

Ascends-end :
    (low high : ℕ) (xs : List ℕ) → Inside low high xs → Ascends xs → Ascends (xs ++ (high ∷ []))
Ascends-end low high [] h a = (tt, tt)
Ascends-end low high (x ∷ xs) h a =
    (All-append (λ y. x < y) xs (high ∷ []) a.0 (h.0.1, tt), Ascends-end low high xs h.1 a.1)

sorted_set_ends :
    (low high : ℕ) (xs : List ℕ)
    → low < high
    → Inside low high xs
    → Ascends xs
    → sorted_set (low ∷ high ∷ xs) ≡ low ∷ (xs ++ (high ∷ []))
unfolding sorted_set sort
sorted_set_ends low high xs lt inside ascends =
    let ends =
      ap (insert_sorted leb high) (sort-Ascends xs ascends)
      ∙ insert_end high xs (Inside-before low high xs inside) in
    let all : Ascends (low ∷ (xs ++ (high ∷ []))) = (
      All-append (λ y. low < y) xs (high ∷ []) (Inside-after low low high xs inside) (lt, tt),
      Ascends-end low high xs inside ascends,
    ) in
    ap dedup_sorted (ap (insert_sorted leb low) ends ∙ insert_first low _ all)
    ∙ dedup_sorted-Ascends _ all

-- Not empty and, if there is a maximum, no longer than it.
abbrev pub IsPiece : ℕ → Interval → Type 0
IsPiece longest p = (p.0 < p.1) × ((longest ≡ 0) ⊎ (p.1 ≤ p.0 + longest))

within_split :
    (t a b c : ℕ) → a < b → b < c → (within t (a, b) || within t (b, c)) ≡ within t (a, c)
within_split t a b c ab bc = ground arith

-- With fuel for every round, the pieces from `low` on tile the rest of the region.
artificial_pieces :
    (fuel step end low t : ℕ)
    → 0 < step
    → low < end
    → end ≤ low + step + fuel
    → (covers t (pieces (low ∷ (artificial_cuts fuel step end (low + step) ++ (end ∷ []))))
        ≡ within t (low, end))
      × All
          (IsPiece step)
          (pieces (low ∷ (artificial_cuts fuel step end (low + step) ++ (end ∷ []))))
unfolding artificial_cuts pieces
artificial_pieces zero step end low t pos_step lt enough =
    (ground arith, ((lt, inr (omega arith)), tt))
artificial_pieces (suc fuel) step end low t pos_step lt enough =
    elim (Bool-cases (ltb (low + step) end)) [
      | inl more ↦
          let (tiled, short) =
            artificial_pieces fuel step end (low + step) t pos_step (ground arith) (omega arith) in
          rw more (
            ap (λ b. within t (low, low + step) || b) tiled
                ∙ within_split t low (low + step) end (omega arith) (ground arith),
            ((omega arith, inr (omega arith)), short),
          )
      | inr done ↦ rw done (ground arith, ((lt, inr (ground arith)), tt))
    ]

-- What the pieces between the cuts of a region satisfy.
abbrev pub Tiles : ℕ → ℕ → ℕ → ℕ → List ℕ → Type 0
Tiles longest start end t cuts =
    (covers t (pieces cuts) ≡ within t (start, end)) × All (IsPiece longest) (pieces cuts)

ends_Tiles :
    (longest start end t : ℕ)
    → start < end
    → Tiles longest start end t (
        sorted_set (
          start
          ∷ end
          ∷ (if ltb 0 longest
              then artificial_cuts (end - start) longest end (start + longest)
              else [])))
unfolding pieces
ends_Tiles longest start end t lt = elim (Bool-cases (ltb 0 longest)) [
  | inl limited ↦
      let at = start + longest in
      let cuts = artificial_cuts (end - start) longest end at in
      let one : 0 < longest = ground arith in
      rw limited (
        subst (Tiles longest start end t)
          (sym (
            sorted_set_ends start end cuts lt
              (artificial_cuts-Inside (end - start) longest end at start one (omega arith))
              (artificial_cuts-Ascends (end - start) longest end at one)))
          (artificial_pieces (end - start) longest end start t one lt (omega arith)))
  | inr unlimited ↦ rw unlimited (
      subst (Tiles longest start end t) (sym (sorted_set_ends start end [] lt tt tt))
        (ground arith, ((lt, inl (ground arith)), tt)))
]

-- The pieces of a region tile it.
pub region_cuts-Tiles :
    {F : Type 0} (cfg : DiarizationConfig F) (start end t : ℕ)
    → start < end
    → Tiles cfg.max_tracklet_us start end t (region_cuts cfg start end)
unfolding region_cuts
region_cuts-Tiles cfg start end t lt = ends_Tiles cfg.max_tracklet_us start end t lt
