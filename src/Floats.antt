-- ===== src/Floats.antt =====
-- Python's floats as a parameter: the operations that the decoder uses, and what it relies on.
pub mod Tests
use sddiar.Base.{ℕ, ◌≡◌, Bool, true, false, not, ◌||◌, if◌then◌else◌}

pub record Floats (F : Type 0) : Type 0 where
  pub add : F → F → F
  pub sub : F → F → F
  pub mul : F → F → F
  pub div : F → F → F
  pub root : F → F
  pub of_int : ℕ → F
  -- `<` and `<=`
  pub lt : F → F → Bool
  pub leb : F → F → Bool
  pub finite : F → Bool
  -- `math.isclose(x, 1.0, rel_tol=1e-4, abs_tol=1e-4)`
  pub is_close_to_one : F → Bool
  pub zero : F
  pub one : F
  pub infinity : F
  -- `1e-12` and `1e-6`
  pub tiny : F
  pub small : F
  -- `1e30`
  pub huge : F

-- Without a NaN the comparisons are a total order, and rounded addition is monotone.
pub record IsOrdered {F : Type 0} (floats : Floats F) : Type 0 where
  pub lt_not_leb : (a b : F) → floats.lt a b ≡ not (floats.leb b a)
  pub leb_total : (a b : F) → (floats.leb a b || floats.leb b a) ≡ true
  pub leb_trans :
      (a b c : F) → floats.leb a b ≡ true → floats.leb b c ≡ true → floats.leb a c ≡ true
  pub add_mono :
      (a b c : F) → floats.leb a b ≡ true → floats.leb (floats.add a c) (floats.add b c) ≡ true

module _ {F : Type 0} (floats : Floats F) where
  -- `max(a, b)` and `min(a, b)`, which keep the first of two equals
  abbrev pub max_float : F → F → F
  max_float a b = if floats.lt a b then b else a

  abbrev pub min_float : F → F → F
  min_float a b = if floats.lt b a then b else a
