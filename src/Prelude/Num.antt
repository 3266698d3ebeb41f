-- ===== src/Prelude/Num.antt =====
-- All that the code does with a `float` or a `Decimal` quantity. The values are the finite ones: the
-- broker and the signal code hand on no NaN and no infinity, so comparisons are total.
use mathlib.Core.Path.{◌≡◌}
use mathlib.Core.Bool.{Bool, true, false, not}
use quant_strategies.Prelude.Int.{ℤ}

pub record Num (Q : Type 0) : Type 0 where
  pub nought : Q
  -- The constant `_FLAT_EPS = 1e-9`.
  pub flat_eps : Q
  pub ltq : Q → Q → Bool
  pub leq : Q → Q → Bool
  pub eqq : Q → Q → Bool
  pub add : Q → Q → Q
  pub sub : Q → Q → Q
  pub mul : Q → Q → Q
  pub abs : Q → Q
  -- `int(round(x))`.
  pub round : Q → ℤ

-- What IEEE arithmetic on finite values guarantees, as far as the theorems use it.
pub record IsOrdered (Q : Type 0) ⦃n : Num Q⦄ : Type 0 where
  pub eps_pos : n.ltq n.nought n.flat_eps ≡ true
  pub lt_trans : (a b c : Q) → n.ltq a b ≡ true → n.ltq b c ≡ true → n.ltq a c ≡ true
  pub lt_asymm : (a b : Q) → n.ltq a b ≡ true → n.ltq b a ≡ false
  pub eq_iff_neither : (a b : Q) → n.ltq a b ≡ false → n.ltq b a ≡ false → n.eqq a b ≡ true
  pub not_eq_of_lt : (a b : Q) → n.ltq a b ≡ true → n.eqq a b ≡ false
  pub not_eq_of_gt : (a b : Q) → n.ltq b a ≡ true → n.eqq a b ≡ false
  pub le-eq-not-gt : (a b : Q) → n.leq a b ≡ not (n.ltq b a)
  pub abs_pos : (a : Q) → n.ltq n.nought a ≡ true → n.abs a ≡ a
  pub abs_neg : (a : Q) → n.ltq a n.nought ≡ true → n.ltq n.nought (n.abs a) ≡ true
  pub abs_nought : n.abs n.nought ≡ n.nought
  pub nought_add : (a : Q) → n.add n.nought a ≡ a
  pub sub_self : (a : Q) → n.sub a a ≡ n.nought
  pub add_abs : (a : Q) → n.ltq a n.nought ≡ true → n.add a (n.abs a) ≡ n.nought
  -- 0 - a has the sign and the size opposite to a.
  pub nought_sub :
      (a : Q)
      → n.ltq n.nought a ≡ true
      → (n.ltq (n.sub n.nought a) n.nought ≡ true) × (n.abs (n.sub n.nought a) ≡ a)
