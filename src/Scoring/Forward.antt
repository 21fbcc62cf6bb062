-- ===== src/Scoring/Forward.antt =====
-- What merging, subtracting and the collar return has no interval that ends before it starts.
use sddiar.Base.{
  ℕ, ◌≤◌, ◌≡◌, sym, ap, subst, ◌∙◌, max, min, inl, inr, true, false, not, ◌&&◌, List, [], ◌∷◌,
  All-append, Bool-cases, ok, ok-inj, bind_ok, ltb, leb, ◌==◌, if◌then◌else◌, arith,
}
use sddiar.Intervals.{Interval, covers, Beyond, Separated, AreForward}
use sddiar.Scoring.{
  rest_of, cut_one, cut_all, merge_intervals, subtract_intervals, exclusions, sorted_set,
  apply_collar,
}
use sddiar.Scoring.Regions.{merge_intervals_lem}
use sddiar.Scoring.Collar.{near, covers-apply_collar}

Beyond-AreForward : (bound : ℕ) (xs : List Interval) → Beyond 0 bound xs → AreForward xs
Beyond-AreForward bound [] h = tt
Beyond-AreForward bound ((start, end) ∷ xs) (far, lt, h) =
    (omega (arith, lt), Beyond-AreForward end xs h)

Separated-AreForward : (xs : List Interval) → Separated 0 xs → AreForward xs
Separated-AreForward [] h = tt
Separated-AreForward ((start, end) ∷ xs) (lt, h) = (omega (arith, lt), Beyond-AreForward end xs h)

pub merge_intervals-AreForward :
    (xs out : List Interval) → merge_intervals xs ≡ ok out → AreForward out
merge_intervals-AreForward xs out e = Separated-AreForward out (merge_intervals_lem xs out e).0

abbrev IsForward : Interval → Type 0
IsForward x = x.0 ≤ x.1

rest_of-AreForward : (cursor end : ℕ) → AreForward (rest_of cursor end)
rest_of-AreForward cursor end = elim (Bool-cases (ltb cursor end)) [
  | inl ahead ↦ rw ahead (ground arith, tt)
  | inr done ↦ rw done tt
]

abbrev piece_of : ℕ → ℕ → ℕ → List Interval
piece_of cursor left end = if ltb cursor left then (cursor, min left end) ∷ [] else []

piece_of-AreForward :
    (cursor left end : ℕ)
    → leb end left ≡ false
    → cursor ≤ end
    → AreForward (piece_of cursor left end)
piece_of-AreForward cursor left end before inside = elim (Bool-cases (ltb cursor left)) [
  | inl gap ↦ rw gap (ground arith, tt)
  | inr none ↦ rw none tt
]

cut_one-AreForward :
    (cursor end : ℕ) (cuts : List Interval) → cursor ≤ end → AreForward (cut_one cursor end cuts)
unfolding cut_one
cut_one-AreForward cursor end [] inside = rest_of-AreForward cursor end
cut_one-AreForward cursor end ((left, right) ∷ cuts) inside = elim (Bool-cases (leb right cursor)) [
  | inl past ↦ rw past (cut_one-AreForward cursor end cuts inside)
  | inr ahead ↦ elim (Bool-cases (leb end left)) [
    | inl beyond ↦ rw (ahead, beyond) (rest_of-AreForward cursor end)
    | inr before ↦ elim (Bool-cases (leb end (max cursor right))) [
      | inl last ↦
          rw (ahead, before, last)
            (All-append IsForward (piece_of cursor left end) (rest_of (max cursor right) end)
              (piece_of-AreForward cursor left end before inside)
              (rest_of-AreForward (max cursor right) end))
      | inr further ↦
          rw (ahead, before, further)
            (All-append IsForward (piece_of cursor left end) (cut_one (max cursor right) end cuts)
              (piece_of-AreForward cursor left end before inside)
              (cut_one-AreForward (max cursor right) end cuts (ground (arith, further))))
    ]
  ]
]

cut_all-AreForward : (base cuts : List Interval) → AreForward base → AreForward (cut_all base cuts)
unfolding cut_all
cut_all-AreForward [] cuts h = tt
cut_all-AreForward ((start, end) ∷ base) cuts (first, h) =
    All-append IsForward (cut_one start end cuts) (cut_all base cuts)
      (cut_one-AreForward start end cuts first) (cut_all-AreForward base cuts h)

subtract_intervals-AreForward :
    (base excluded out : List Interval)
    → subtract_intervals base excluded ≡ ok out
    → AreForward base
    → AreForward out
unfolding subtract_intervals
subtract_intervals-AreForward base excluded out e h =
    let (cuts, merged, same) =
      bind_ok (merge_intervals excluded) (λ cuts. ok (cut_all base cuts)) out e in
    subst AreForward (ok-inj same) (cut_all-AreForward base cuts h)

-- The collar takes away the instants near a boundary, if it is positive, and leaves intervals that do
-- not end before they start.
pub apply_collar-covers-AreForward :
    (collar : ℕ) (xs out : List Interval) (boundaries : List ℕ)
    → apply_collar xs boundaries collar ≡ ok out
    → AreForward xs
    → AreForward out
      × ((t : ℕ) → covers t out ≡ (covers t xs && not (ltb 0 collar && near t collar boundaries)))
unfolding apply_collar
apply_collar-covers-AreForward collar xs out [] e h =
    let same = ok-inj e in (subst AreForward same h, λ t. ap (covers t) (sym same) ∙ ground arith)
apply_collar-covers-AreForward collar xs out (b ∷ boundaries) e h =
    elim (Bool-cases (collar == 0)) [
      | inl no_collar ↦
          let same : xs ≡ out = ok-inj (rw no_collar at e) in
          (subst AreForward same h, λ t. ap (covers t) (sym same) ∙ ground (arith, no_collar))
      | inr positive ↦
          let cuts = exclusions collar (sorted_set (b ∷ boundaries)) in
          let cut : subtract_intervals xs cuts ≡ ok out = rw positive at e in
          let (found, found_eq, found_covers) =
            covers-apply_collar collar xs (b ∷ boundaries) (ground (arith, positive)) in
          let same = ok-inj (sym found_eq ∙ e) in
          let on : ltb 0 collar ≡ true = ground (arith, positive) in
          (
            subtract_intervals-AreForward xs cuts out cut h,
            λ t.
                ap (covers t) (sym same)
                ∙ found_covers t
                ∙ ap (λ x. covers t xs && not (x && near t collar (b ∷ boundaries))) (sym on),
          )
    ]
