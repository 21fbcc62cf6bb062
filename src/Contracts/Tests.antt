-- ===== src/Contracts/Tests.antt =====
-- Runs of the time checks, and an instance of their theorem.
use sddiar.Base.{◌≡◌, ◌↔◌, refl, ok, err, contract_validation, ◌≤◌, ◌<◌}
use sddiar.Base.Int.{pos, negsuc}
use sddiar.Contracts.{max_time_us, range}
use sddiar.Contracts.Range.{range_iff}

range_accepts : range (pos 5) (pos 9) ≡ ok (5, 9)
unfolding range
range_accepts = refl

range_negative : range (negsuc 0) (pos 9) ≡ err contract_validation
unfolding range
range_negative = refl

range_empty : range (pos 9) (pos 9) ≡ err contract_validation
unfolding range
range_empty = refl

range_iff_example :
    (range (pos 5) (pos 9) ≡ ok (5, 9))
    ↔ ((pos 5 ≡ pos 5) × (pos 9 ≡ pos 9) × (5 < 9) × (9 ≤ max_time_us))
range_iff_example = range_iff (pos 5) (pos 9) 5 9
