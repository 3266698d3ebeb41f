-- ===== src/OrderPolicy/Table.antt =====
-- The decision table in the docstring of `intended_action`, written as a table.
use quant_strategies.Prelude.{zero, suc, ◌≡◌, false, arith, if◌then◌else◌}
use quant_strategies.Prelude.Int.{ℤ, pos, negsuc}
use quant_strategies.Prelude.Num.{Num, IsOrdered}
use quant_strategies.Order.{IntendedAction, hold, open_short, close_short}
use quant_strategies.OrderPolicy.{intended_action}

-- Which way a signal points and a position stands.
pub data Exposure : Type 0 where
  short flat long : Exposure

abbrev pub target : ℤ → Exposure
target (pos (suc _)) = long
target (pos zero) = flat
target (negsuc _) = short

-- The nine rows: signal, then position.
abbrev pub table : Exposure → Exposure → IntendedAction
table long flat = IntendedAction.buy
table long long = hold
table long short = close_short
table flat long = IntendedAction.sell
table flat flat = hold
table flat short = close_short
table short long = IntendedAction.sell
table short flat = open_short
table short short = hold

module _ {Q : Type 0} ⦃n : Num Q⦄ where
  -- A position within the dust limit is flat.
  abbrev pub holding : Q → Exposure
  holding p =
      if n.leq (n.abs p) n.flat_eps
      then flat
      else if n.ltq p n.nought
      then short
      else if n.ltq n.nought p
      then long
      else flat

  module _ (laws : IsOrdered Q) where
    open laws use {eps_pos, lt_asymm, eq_iff_neither, not_eq_of_lt, not_eq_of_gt}

    not_lt_self : (a : Q) → n.ltq a a ≡ false
    not_lt_self a = ground (arith, lt_asymm a a)

    -- On every signal and position the action is the one that the table names.
    pub intended_action-eq-table :
        (signal p : Q) → intended_action signal p ≡ table (target (n.round signal)) (holding p)
    unfolding intended_action
    intended_action-eq-table signal p = ground (
      arith,
      not_lt_self n.nought,
      eq_iff_neither n.nought n.nought,
      eq_iff_neither p n.nought,
      not_eq_of_lt p n.nought,
      not_eq_of_gt p n.nought,
      lt_asymm p n.nought,
    )
