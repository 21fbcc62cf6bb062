-- ===== src/Assignment/Vectors.antt =====
-- The vectors of src/sddiar/diarization.py: normalization, cosine distance and weighted centroid.
use sddiar.Base.{
  ℕ, not, List, [], ◌∷◌, Result, ok, err, contract_validation, ◌>>=◌, ◌>>◌, raise_if, if◌then◌else◌,
  length, ◌==◌, map, any,
}
use sddiar.Floats.{Floats}

module _ {F : Type 0} (floats : Floats F) where
  -- `sum(...)`, which starts from 0 and adds from the left
  unfoldable pub sum_products : F → List F → List F → F
  sum_products total [] ys = total
  sum_products total (x ∷ xs) [] = total
  sum_products total (x ∷ xs) (y ∷ ys) = sum_products (floats.add total (floats.mul x y)) xs ys

  -- `_vector`
  unfoldable pub unit_vector : List F → Result (List F)
  unit_vector [] = err contract_validation
  unit_vector (x ∷ xs) =
      let norm = floats.root (sum_products floats.zero (x ∷ xs) (x ∷ xs)) in
      if floats.leb norm floats.tiny
      then err contract_validation
      else ok (map (λ y. floats.div y norm) (x ∷ xs))

  unfoldable pub cosine_distance : List F → List F → Result F
  cosine_distance left right =
      if length left == length right
      then ok (floats.sub floats.one (sum_products floats.zero left right))
      else err contract_validation

  -- `_unit_vector` of src/sddiar/contracts.py, where `x ** 2` is `x * x`
  unfoldable pub check_unit_vector : List F → Result (Unit {0})
  check_unit_vector vector = do
    raise_if (length vector == 0) contract_validation
    raise_if (any (λ x. not (floats.finite x)) vector) contract_validation
    raise_if (not (floats.is_close_to_one (floats.root (sum_products floats.zero vector vector))))
        contract_validation

  unfoldable pub add_weighted : F → List F → List F → List F
  add_weighted weight sums [] = sums
  add_weighted weight [] (x ∷ xs) = []
  add_weighted weight (s ∷ sums) (x ∷ xs) =
      floats.add s (floats.mul weight x) ∷ add_weighted weight sums xs

  unfoldable pub add_all : ℕ → List F → List (List F × F) → Result (List F)
  add_all dimension sums [] = ok sums
  add_all dimension sums ((vector, weight) ∷ items) =
      let later = add_all dimension (add_weighted weight sums vector) items in
      if length vector == dimension then later else err contract_validation

  unfoldable pub zeros : List F → List F
  zeros xs = map (λ x. floats.zero) xs

  abbrev pub or_first : List F → Result (List F) → Result (List F)
  or_first first (ok v) = ok v
  or_first first (err e) = unit_vector first

  -- `_weighted_centroid`
  unfoldable pub weighted_centroid : List (List F × F) → Result (List F)
  weighted_centroid [] = err contract_validation
  weighted_centroid ((first, weight) ∷ items) = do
    sums ← add_all (length first) (zeros first) ((first, weight) ∷ items)
    or_first first (unit_vector sums)
