-- ===== src/Floats/Tests.antt =====
-- Numbers that can stand for the floats in the tests.
use sddiar.Base.{ℕ, ◌+◌, ◌-◌, ◌*◌, ◌/◌, true, ltb, leb, max, arith}
use sddiar.Floats.{Floats, IsOrdered}

abbrev pub naturals : Floats ℕ
naturals = record {
  add = λ a b. a + b;
  sub = λ a b. a - b;
  mul = λ a b. a * b;
  div = λ a b. a / max 1 b;
  root = λ a. 1;
  of_int = λ n. n;
  lt = ltb;
  leb = leb;
  finite = λ a. true;
  is_close_to_one = λ a. true;
  zero = 0;
  one = 1;
  infinity = 1000000;
  tiny = 0;
  small = 1;
  huge = 1000000;
}

pub naturals-IsOrdered : IsOrdered naturals
naturals-IsOrdered = record {
  lt_not_leb = λ a b. ground arith;
  leb_total = λ a b. ground arith;
  leb_trans = λ a b c h k. ground arith;
  add_mono = λ a b c h. ground arith;
}
