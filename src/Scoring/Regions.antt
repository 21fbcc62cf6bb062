-- ===== src/Scoring/Regions.antt =====
-- The scoring regions as sets of instants: merging is union and subtraction is difference.
use sddiar.Base.{
  ℕ, ◌≤◌, ◌<◌, max, min, Bool, true, false, not, ◌&&◌, ◌||◌, ◌≡◌, ◌∙◌, ap, refl, List, [], ◌∷◌,
  ◌++◌, ok, err, evaluation, ltb, leb, if◌then◌else◌, All, any, any-append, arith, Bool-cases, inl,
  inr, Result-cases,
}
use sddiar.Base.Sort.{sort, any-sort}
use sddiar.Intervals.{Interval, within, covers, le_pair, push, coalesce, Separated, Beyond}
use sddiar.Intervals.Coverage.{IsNonempty, covers-coalesce-sort}
use sddiar.Intervals.Gaps.{coalesce-sort-Separated}
use sddiar.Scoring.{
  merge_into, merge_loop, merge_intervals, rest_of, cut_one, cut_all, subtract_intervals,
}

abbrev pub is_void : Interval → Bool
is_void (start, end) = leb end start

merge_into-eq-push : (merged : List Interval) (x : Interval) → merge_into merged x ≡ push 0 merged x
unfolding push
merge_into-eq-push [] x = refl
merge_into-eq-push ((a, b) ∷ merged) (s, e) = ground arith

-- The scorer's loop is the shared loop with no gap, unless it meets an empty interval.
merge_loop-eq-coalesce :
    (merged xs : List Interval)
    → merge_loop merged xs ≡ (if any is_void xs then err evaluation else ok (coalesce 0 merged xs))
unfolding merge_loop coalesce
merge_loop-eq-coalesce merged [] = refl
merge_loop-eq-coalesce merged ((s, e) ∷ xs) =
    ground
      (arith, merge_into-eq-push merged (s, e), merge_loop-eq-coalesce (push 0 merged (s, e)) xs)

-- `_merge_intervals` raises exactly when some interval is empty; otherwise its value is the
-- joined sorted list.
merge_intervals-eq-coalesce :
    (xs : List Interval)
    → merge_intervals xs
      ≡ (if any is_void xs then err evaluation else ok (coalesce 0 [] (sort le_pair xs)))
unfolding merge_intervals
merge_intervals-eq-coalesce xs =
    ground (arith, merge_loop-eq-coalesce [] (sort le_pair xs), any-sort le_pair is_void xs)

not_empty : (xs : List Interval) → any is_void xs ≡ false → All IsNonempty xs
not_empty [] h = tt
not_empty ((a, b) ∷ xs) h = (ground arith, not_empty xs (ground arith))

-- A successful merge covers the same instants, in ascending order, with no two intervals
-- touching.
pub merge_intervals_lem :
    (xs out : List Interval)
    → merge_intervals xs ≡ ok out
    → Separated 0 out × ((t : ℕ) → covers t out ≡ covers t xs)
merge_intervals_lem xs out e = elim (Bool-cases (any is_void xs)) [
  | inl bad ↦ absurd (cc (rw (merge_intervals-eq-coalesce xs, bad) at e))
  | inr good ↦
      let out_eq : coalesce 0 [] (sort le_pair xs) ≡ out =
        cc (rw (merge_intervals-eq-coalesce xs, good) at e) in
      rw (← out_eq)
        (coalesce-sort-Separated 0 xs (not_empty xs good), λ t. covers-coalesce-sort t xs)
]

-- Nothing is covered up to the bound that a list lies beyond.
covers-Beyond :
    (t bound : ℕ) (xs : List Interval) → Beyond 0 bound xs → t ≤ bound → covers t xs ≡ false
covers-Beyond t bound [] h le = refl
covers-Beyond t bound ((s, e) ∷ xs) h le =
    ground (arith, covers-Beyond t e xs h.2 (omega (arith, h.0, h.1)))

Beyond-Separated : (bound : ℕ) (xs : List Interval) → Beyond 0 bound xs → Separated 0 xs
Beyond-Separated bound [] h = tt
Beyond-Separated bound ((s, e) ∷ xs) h = (h.1, h.2)

abbrev Remains : ℕ → ℕ → ℕ → List Interval → Type 0
Remains t cursor end cuts =
    covers t (cut_one cursor end cuts) ≡ (within t (cursor, end) && not (covers t cuts))

covers-rest_of : (t cursor end : ℕ) → covers t (rest_of cursor end) ≡ within t (cursor, end)
covers-rest_of t cursor end = ground arith

module _ (t cursor end left right : ℕ) (cuts : List Interval) (lt : left < right)
    (far : t ≤ right → covers t cuts ≡ false) where
  cut_before :
      leb right cursor ≡ true
      → Remains t cursor end cuts
      → Remains t cursor end ((left, right) ∷ cuts)
  unfolding cut_one
  cut_before skip ih = rw skip (ih ∙ ground arith)

  cut_behind :
      leb right cursor ≡ false → leb end left ≡ true → Remains t cursor end ((left, right) ∷ cuts)
  unfolding cut_one
  cut_behind skip stop = rw (skip, stop) (covers-rest_of t cursor end ∙ ground arith)

  covers-piece :
      (rest : List Interval)
      → leb right cursor ≡ false
      → leb end left ≡ false
      → covers t rest ≡ (within t (right, end) && not (covers t cuts))
      → covers t ((if ltb cursor left then (cursor, min left end) ∷ [] else []) ++ rest)
        ≡ (within t (cursor, end) && not (within t (left, right) || covers t cuts))
  covers-piece rest skip stop h = ground arith

  cut_inside :
      leb right cursor ≡ false
      → leb end left ≡ false
      → Remains t (max cursor right) end cuts
      → Remains t cursor end ((left, right) ∷ cuts)
  unfolding cut_one
  cut_inside skip stop ih =
      let moved : max cursor right ≡ right = ground arith in
      elim (Bool-cases (leb end (max cursor right))) [
        | inl done ↦
            rw (skip, stop, done)
              (covers-piece (rest_of (max cursor right) end) skip stop
                (covers-rest_of t (max cursor right) end ∙ ground arith))
        | inr more ↦
            rw (skip, stop, more)
              (covers-piece (cut_one (max cursor right) end cuts) skip stop
                (ih ∙ ap (λ (r : ℕ). within t (r, end) && not (covers t cuts)) moved))
      ]

covers-cut_one :
    (t cursor end : ℕ) (cuts : List Interval) → Separated 0 cuts → Remains t cursor end cuts
unfolding cut_one
covers-cut_one t cursor end [] h = covers-rest_of t cursor end ∙ ground arith
covers-cut_one t cursor end ((left, right) ∷ cuts) h =
    let ih = covers-cut_one t cursor end cuts (Beyond-Separated right cuts h.1) in
    let ih' = covers-cut_one t (max cursor right) end cuts (Beyond-Separated right cuts h.1) in
    let far = covers-Beyond t right cuts h.1 in
    elim (Bool-cases (leb right cursor)) [
      | inl skip ↦ cut_before t cursor end left right cuts h.0 far skip ih
      | inr in_reach ↦ elim (Bool-cases (leb end left)) [
        | inl stop ↦ cut_behind t cursor end left right cuts h.0 far in_reach stop
        | inr go ↦ cut_inside t cursor end left right cuts h.0 far in_reach go ih'
      ]
    ]

covers-cut_all :
    (t : ℕ) (base cuts : List Interval)
    → Separated 0 cuts
    → covers t (cut_all base cuts) ≡ (covers t base && not (covers t cuts))
unfolding cut_all
covers-cut_all t [] cuts h = ground arith
covers-cut_all t ((s, e) ∷ base) cuts h =
    any-append (λ x. within t x) (cut_one s e cuts) (cut_all base cuts)
    ∙ ground (arith, covers-cut_one t s e cuts h, covers-cut_all t base cuts h)

-- The difference covers exactly the instants of the base that no exclusion covers.
pub covers-subtract_intervals :
    (t : ℕ) (base excluded out : List Interval)
    → subtract_intervals base excluded ≡ ok out
    → covers t out ≡ (covers t base && not (covers t excluded))
unfolding subtract_intervals
covers-subtract_intervals t base excluded out e = elim (Result-cases (merge_intervals excluded)) [
  | inl (cuts, merged) ↦
      let (separated, same) = merge_intervals_lem excluded cuts merged in
      let out_eq : cut_all base cuts ≡ out = ground arith in
      rw (← out_eq)
        (covers-cut_all t base cuts separated ∙ ap (λ (b : Bool). covers t base && not b) (same t))
  | inr (x, failed) ↦ absurd (ground arith)
]

-- Merging fails only at an empty interval.
pub merge_intervals_total :
    (xs : List Interval)
    → any is_void xs ≡ false
    → (out : List Interval) × (merge_intervals xs ≡ ok out)
merge_intervals_total xs h =
    (coalesce 0 [] (sort le_pair xs), rw (merge_intervals-eq-coalesce xs, h))

-- A subtraction raises exactly when merging the exclusions does.
pub subtract_intervals_total :
    (base excluded : List Interval)
    → any is_void excluded ≡ false
    → (out : List Interval) × (subtract_intervals base excluded ≡ ok out)
unfolding subtract_intervals
subtract_intervals_total base excluded h =
    let (cuts, e) = merge_intervals_total excluded h in (cut_all base cuts, rw e)
