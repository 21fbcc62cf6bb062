-- ===== src/Intervals/Gaps.antt =====
-- The shape of what `coalesce` returns: ascending, non-empty, with gaps longer than the bound.
use sddiar.Base.{ℕ, ◌+◌, ◌<◌, List, [], ◌∷◌, All, arith, reverse_onto}
use sddiar.Base.Sort.{sort, All-sort}
use sddiar.Intervals.{Interval, le_pair, push, coalesce, Separated, Beyond}
use sddiar.Intervals.Coverage.{IsNonempty}

-- `Separated`, read from the newest interval back.
abbrev Descending : ℕ → List Interval → Type 0
Descending gap [] = Unit
Descending gap ((a, b) ∷ []) = a < b
Descending gap ((a, b) ∷ (c, d) ∷ older) = (a < b) × (d + gap < a) × Descending gap ((c, d) ∷ older)

push-Descending :
    (gap : ℕ) (merged : List Interval) (x : Interval)
    → IsNonempty x
    → Descending gap merged
    → Descending gap (push gap merged x)
unfolding push
push-Descending gap [] (s, e) h d = h
push-Descending gap ((a, b) ∷ []) (s, e) h d = ground arith
push-Descending gap ((a, b) ∷ (c, d) ∷ older) (s, e) h k = ground arith

-- The oldest intervals of `merged` come first, so the newest must lie before `acc`.
reverse_onto-Separated :
    (gap a b : ℕ) (older acc : List Interval)
    → Descending gap ((a, b) ∷ older)
    → Beyond gap b acc
    → Separated gap (reverse_onto ((a, b) ∷ older) acc)
unfolding reverse_onto
reverse_onto-Separated gap a b [] acc d h = (d, h)
reverse_onto-Separated gap a b ((c, e) ∷ older) acc d h =
    reverse_onto-Separated gap c e older ((a, b) ∷ acc) d.2 (d.1, d.0, h)

coalesce-Separated :
    (gap : ℕ) (merged xs : List Interval)
    → All IsNonempty xs
    → Descending gap merged
    → Separated gap (coalesce gap merged xs)
unfolding coalesce
coalesce-Separated gap [] [] h d = tt
coalesce-Separated gap ((a, b) ∷ merged) [] h d = reverse_onto-Separated gap a b merged [] d tt
coalesce-Separated gap merged (x ∷ xs) h d =
    coalesce-Separated gap (push gap merged x) xs h.1 (push-Descending gap merged x h.0 d)

pub coalesce-sort-Separated :
    (gap : ℕ) (xs : List Interval)
    → All IsNonempty xs
    → Separated gap (coalesce gap [] (sort le_pair xs))
coalesce-sort-Separated gap xs h =
    coalesce-Separated gap [] (sort le_pair xs) (All-sort le_pair IsNonempty xs h) tt
