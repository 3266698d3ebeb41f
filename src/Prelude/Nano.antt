-- ===== src/Prelude/Nano.antt =====
-- Quantities as whole numbers of 1e-9, in which the dust limit is 1: a reading of the number
-- interface at which its laws hold, for evaluations at concrete inputs.
use Prim.Native.Nat.{ℕ, ◌+◌, ◌*◌, ◌/◌}
use mathlib.Core.Path.{refl}
use native.Mathlib.Omega.{arith}
use quant_strategies.Prelude.Int.{
  ℤ, pos, negsuc, pos_part, neg_part, sub_ℕ, ◌+ℤ◌, ◌-ℤ◌, abs_ℤ, ltb_ℤ, leb_ℤ, eqb_ℤ,
}
use quant_strategies.Prelude.Num.{Num, IsOrdered}

abbrev pub nano : ℕ
nano = 1_000_000_000

abbrev scale : ℕ → ℤ → ℤ
scale d (pos m) = pos (m / d)
scale d (negsuc m) = sub_ℕ 0 ((m + 1) / d)

abbrev times : ℤ → ℤ → ℤ
times a b =
    sub_ℕ ((pos_part a * pos_part b + neg_part a * neg_part b) / nano)
      ((pos_part a * neg_part b + neg_part a * pos_part b) / nano)

-- To the nearest whole number.
abbrev nearest : ℤ → ℤ
nearest a = sub_ℕ ((pos_part a + nano / 2) / nano) ((neg_part a + nano / 2) / nano)

instance abbrev pub nano_num : Num ℤ
nano_num = record {
  nought = pos 0;
  flat_eps = pos 1;
  ltq = ltb_ℤ;
  leq = leb_ℤ;
  eqq = eqb_ℤ;
  add = ◌+ℤ◌;
  sub = ◌-ℤ◌;
  mul = times;
  abs = abs_ℤ;
  round = nearest;
}

pub nano-IsOrdered : IsOrdered ℤ
nano-IsOrdered = record {
  eps_pos = refl;
  lt_trans = λ a b c h k. ground arith;
  lt_asymm = λ a b h. ground arith;
  eq_iff_neither = λ a b h k. ground arith;
  not_eq_of_lt = λ a b h. ground arith;
  not_eq_of_gt = λ a b h. ground arith;
  le-eq-not-gt = λ a b. ground arith;
  abs_pos = λ a h. ground arith;
  abs_neg = λ a h. ground arith;
  abs_nought = refl;
  nought_add = λ a. ground arith;
  sub_self = λ a. ground arith;
  add_abs = λ a h. ground arith;
  nought_sub = λ a h. (ground arith, ground arith);
}

abbrev pub units : ℕ → ℤ
units k = pos (k * nano)
