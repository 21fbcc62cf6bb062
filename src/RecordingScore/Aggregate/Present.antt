-- ===== src/RecordingScore/Aggregate/Present.antt =====
-- The metrics that are there among optional ones, and their sums.
use sddiar.Base.{
  ℕ, ◌+◌, ◌≡◌, refl, ap, sym, ◌∙◌, if◌then◌else◌, ok-inj, Option, none, some, List, [], ◌∷◌, sum_of,
  All, any, ◌||◌, Bool, Result, ok, map_each, arith,
}
use sddiar.Base.Each.{map_each-cons}
use sddiar.RecordingScore.Aggregate.{present, add_present, is_given, unless_empty}

module _ {A : Type 0} where
  -- What an optional metric adds to a sum.
  abbrev pub amount : (A → ℕ) → Option A → ℕ
  amount size none = 0
  amount size (some x) = size x

  sum_of-add_present :
      (size : A → ℕ) (x : Option A) (xs : List A)
      → sum_of size (add_present x xs) ≡ amount size x + sum_of size xs
  sum_of-add_present size none xs = omega arith
  sum_of-add_present size (some x) xs = refl

  -- A sum over the results of a comprehension, by what each is worth.
  pub sum_of-present :
      {I : Type 0} (score : I → Result (Option A)) (size : A → ℕ) (worth : I → ℕ) (inputs : List I)
      (out : List (Option A))
      → All (λ i. (x : Option A) → score i ≡ ok x → amount size x ≡ worth i) inputs
      → map_each score inputs ≡ ok out
      → sum_of size (present out) ≡ sum_of worth inputs
  unfolding map_each
  sum_of-present score size worth [] out each h =
      ap (λ (xs : List (Option A)). sum_of size (present xs)) (sym (ok-inj h))
  sum_of-present score size worth (i ∷ inputs) out (first, each) h =
      let (x, xs, here, rest, same) = map_each-cons score i inputs out h in
      ap (λ (ys : List (Option A)). sum_of size (present ys)) (sym same)
      ∙ omega (
        arith,
        sum_of-add_present size x (present xs),
        first x here,
        sum_of-present score size worth inputs xs each rest,
      )

  unless_empty-any :
      {B : Type 0} (pool : List A → B) (out : List (Option A))
      → unless_empty pool (present out)
        ≡ (if any is_given out then some (pool (present out)) else none)
  unless_empty-any pool [] = refl
  unless_empty-any pool (none ∷ out) = unless_empty-any pool out
  unless_empty-any pool (some x ∷ out) = refl

  any-is_given :
      {I : Type 0} (score : I → Result (Option A)) (has : I → Bool) (inputs : List I)
      (out : List (Option A))
      → All (λ i. (x : Option A) → score i ≡ ok x → is_given x ≡ has i) inputs
      → map_each score inputs ≡ ok out
      → any is_given out ≡ any has inputs
  unfolding map_each
  any-is_given score has [] out each h =
      ap (λ (xs : List (Option A)). any is_given xs) (sym (ok-inj h))
  any-is_given score has (i ∷ inputs) out (first, each) h =
      let (x, xs, here, rest, same) = map_each-cons score i inputs out h in
      ap (λ (ys : List (Option A)). any is_given ys) (sym same)
      ∙ ap (λ (b : Bool). b || any is_given xs) (first x here)
      ∙ ap (λ (b : Bool). has i || b) (any-is_given score has inputs xs each rest)

  -- Whether there is a metric, by whether each input has one.
  pub unless_empty-present :
      {I B : Type 0} (score : I → Result (Option A)) (has : I → Bool) (pool : List A → B)
      (inputs : List I) (out : List (Option A))
      → All (λ i. (x : Option A) → score i ≡ ok x → is_given x ≡ has i) inputs
      → map_each score inputs ≡ ok out
      → unless_empty pool (present out)
        ≡ (if any has inputs then some (pool (present out)) else none)
  unless_empty-present score has pool inputs out each h =
      unless_empty-any pool out
      ∙ ap (λ (given : Bool). if given then some (pool (present out)) else none)
          (any-is_given score has inputs out each h)
