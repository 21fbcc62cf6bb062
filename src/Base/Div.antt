-- ===== src/Base/Div.antt =====
-- Half-up division of naturals: `(n + d // 2) // d`.
use native.Mathlib.Nat.{le-div_iff_mul-le, div-lt_iff_lt-mul}
use sddiar.Base.{ℕ, suc, ◌+◌, ◌*◌, ◌/◌, ◌≤◌, ◌<◌, ◌≡◌, arith}

-- The Python idiom for rounding an integer quotient to the nearest integer, halves upwards.
unfoldable pub half_up : ℕ → ℕ → ℕ
half_up n d = (n + d / 2) / d

-- The quotient's bounds, multiplied out: all that the other proofs use.
pub half_up_bounds :
    (n d : ℕ) → 0 < d → (half_up n d * d ≤ n + d / 2) × (n + d / 2 < half_up n d * d + d)
unfolding half_up
half_up_bounds n d h =
    let lower = le-div_iff_mul-le {x = (n + d / 2) / d} {y = n + d / 2} h in
    let upper = div-lt_iff_lt-mul {x = n + d / 2} {y = suc ((n + d / 2) / d)} h in
    (lower.0 (omega arith), omega (arith, upper.0 (omega arith)))

-- Twice the rounding error is at most the divisor, on both sides.
pub half_up_nearest :
    (n d : ℕ) → 0 < d → (2 * (half_up n d * d) ≤ 2 * n + d) × (2 * n ≤ 2 * (half_up n d * d) + d)
half_up_nearest n d h = omega (arith, half_up_bounds n d h)

pub half_up_mono : (m n d : ℕ) → 0 < d → m ≤ n → half_up m d ≤ half_up n d
unfolding half_up
half_up_mono m n d h le = (le-div_iff_mul-le h).1 (omega (arith, half_up_bounds m d h))

pub half_up_mul : (k d : ℕ) → 0 < d → half_up (d * k) d ≡ k
half_up_mul k d h = grind (arith, half_up_bounds (d * k) d h)
