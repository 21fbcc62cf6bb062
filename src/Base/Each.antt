-- ===== src/Base/Each.antt =====
-- A comprehension whose function may raise, and what holds of its result.
use sddiar.Base.{
  sym, ap, ◌∙◌, length, arith, ◌≡◌, subst, List, [], ◌∷◌, All, Result, ok, ok-inj, ◌>>=◌, bind_ok,
  map_each,
}

module _ {A B : Type 0} (f : A → Result B) where
  -- The results of a comprehension that ends well, one by one.
  pub map_each-cons :
      (x : A) (xs : List A) (out : List B)
      → map_each f (x ∷ xs) ≡ ok out
      → (y : B) × (ys : List B) × (f x ≡ ok y) × (map_each f xs ≡ ok ys) × (y ∷ ys ≡ out)
  unfolding map_each
  map_each-cons x xs out h =
      let (y, first, after) = bind_ok (f x) (λ y. map_each f xs >>= λ ys. ok (y ∷ ys)) out h in
      let (ys, rest, same) = bind_ok (map_each f xs) (λ ys. ok (y ∷ ys)) out after in
      (y, ys, first, rest, ok-inj same)

  pub map_each-All :
      (P : B → Type 0) (xs : List A) (out : List B)
      → ((x : A) (y : B) → f x ≡ ok y → P y)
      → map_each f xs ≡ ok out
      → All P out
  unfolding map_each
  map_each-All P [] out each h = subst (All P) (ok-inj h) tt
  map_each-All P (x ∷ xs) out each h =
      let (y, ys, first, rest, same) = map_each-cons x xs out h in
      subst (All P) same (each x y first, map_each-All P xs ys each rest)

  pub length-map_each :
      (xs : List A) (out : List B) → map_each f xs ≡ ok out → length out ≡ length xs
  unfolding map_each
  length-map_each [] out h = sym (ap (λ (ys : List B). length ys) (ok-inj h))
  length-map_each (x ∷ xs) out h =
      let (y, ys, first, rest, same) = map_each-cons x xs out h in
      sym (ap (λ (zs : List B). length zs) same) ∙ omega (arith, length-map_each xs ys rest)
