-- ===== src/Contracts/Range.antt =====
-- What an accepted time range satisfies, and which ranges are accepted.
use sddiar.Base.{ℕ, ◌≤◌, ◌<◌, ◌≡◌, ◌↔◌, ok, err, contract_validation, arith}
use sddiar.Base.Int.{ℤ, pos, negsuc}
use sddiar.Contracts.{max_time_us, range}

-- An accepted range is the given pair of integers, which are int64 microsecond values in strict
-- order; and every such pair is accepted.
pub range_iff :
    (start end : ℤ) (s e : ℕ)
    → (range start end ≡ ok (s, e))
      ↔ ((start ≡ pos s) × (end ≡ pos e) × (s < e) × (e ≤ max_time_us))
unfolding range
range_iff (pos a) (pos b) s e = ground arith
range_iff (pos a) (negsuc b) s e = ground arith
range_iff (negsuc a) (pos b) s e = ground arith
range_iff (negsuc a) (negsuc b) s e = ground arith

pub range-lt : (start end : ℤ) (s e : ℕ) → range start end ≡ ok (s, e) → (s < e) × (e ≤ max_time_us)
range-lt start end s e h = let (_, _, lt, le) = (range_iff start end s e).0 h in (lt, le)

-- An empty range is refused, whether or not its times are in bounds.
pub range_refused : (a b : ℕ) → b ≤ a → range (pos a) (pos b) ≡ err contract_validation
unfolding range
range_refused a b le = ground arith
