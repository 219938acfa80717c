-- ===== src/Tests/Numbers.antt =====
-- Whole numbers in place of `double`: the arithmetic that the runs and the witnesses use.
use native.Mathlib.Nat.{div-lt_iff_lt-mul}
use zpr_res_monitor.Prelude.{
  ℕ, zero, suc, ◌+◌, ◌-◌, ◌*◌, ◌/◌, ◌<◌, refl, ltb, ◌==◌, lt→ltb, decimal, arith,
}
use zpr_res_monitor.Double.{Double, IsOrdered}
use zpr_res_monitor.Sampling.Mean.{IsExact}

instance abbrev pub whole : Double ℕ
whole = record {
  of_long = λ n. n;
  minus_one = 0;
  add = λ a b. a + b;
  sub = λ a b. a - b;
  mul = λ a b. a * b;
  div = λ a b. a / b;
  lt = ltb;
  eq = ◌==◌;
  truncate = λ a. a;
  show = decimal;
}

pub whole-IsOrdered : IsOrdered ℕ
whole-IsOrdered = record { lt_irrefl = λ a. ground arith; lt_trans = λ a b c h k. ground arith }

div-lt : (a c n : ℕ) → a < c * n → a / n < c
div-lt a c zero h = absurd (grind arith)
div-lt a c (suc n) h = (div-lt_iff_lt-mul (omega arith)).1 h

pub whole-IsExact : IsExact ℕ
whole-IsExact = record {
  add_of_long = λ a b h. refl;
  lt_add = λ a c h k. ground arith;
  lt_div = λ a m c n h k l. lt→ltb (a / n) c (div-lt a c n (ground arith));
  div_of_long = λ a c n h k. lt→ltb (a / n) c (div-lt a c n k);
}
