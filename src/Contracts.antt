-- ===== src/Contracts.antt =====
-- The shared checks of src/sddiar/contracts.py: microsecond times and ranges. A Python integer
-- is a `ℤ` until it has passed a check, and a natural number after it.
mod Tests
pub mod Range
use sddiar.Base.{ℕ, Result, ok, err, contract_validation, ◌>>=◌, leb, if◌then◌else◌}
use sddiar.Base.Int.{ℤ, pos, negsuc}

abbrev pub max_time_us : ℕ
max_time_us = 9223372036854775807

-- `_time`
unfoldable pub time : ℤ → Result ℕ
time (pos n) = if leb n max_time_us then ok n else err contract_validation
time (negsuc n) = err contract_validation

-- `_range`
unfoldable pub range : ℤ → ℤ → Result (ℕ × ℕ)
unfolding time
range start end = do
  s ← time start
  e ← time end
  if leb e s then err contract_validation else ok (s, e)
