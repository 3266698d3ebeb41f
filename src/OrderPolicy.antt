-- ===== src/OrderPolicy.antt =====
-- quant/trade/order_policy.py: what to place for a signal and a position, and the bounded retry
-- executor around it. A wait between attempts changes nothing that the executor holds; what happens
-- at the venue meanwhile is in the world that the next adapter call reads.
pub mod Retry
pub mod Attempts
pub mod Resting
pub mod Table
pub mod Converge
pub mod Trace
pub mod Safety
pub mod Final
pub mod Keeps
mod Tests
use quant_strategies.Prelude.{
  ℕ, zero, suc, ◌+◌, String, Bool, true, false, not, ◌&&◌, ◌||◌, Option, none, some, List, [], ◌∷◌,
  ◌++◌, if◌then◌else◌, any, length, ◌==◌, leb,
}
use quant_strategies.Prelude.Int.{ℤ, pos, negsuc}
use quant_strategies.Prelude.Text.{codes, lower, contains, truthy}
use quant_strategies.Prelude.Num.{Num}
use quant_strategies.Prelude.Effects.{Act, Outcome, pure, ◌>>=◌, raise}
use quant_strategies.Order.{
  OrderSide, IntendedAction, open_short, close_short, hold, OrderRequest, OrderResult, OrderType,
  OrderRejectReason, cancel_failed, Exc, TradeAdapter, order_side,
}

module _ {Q : Type 0} ⦃n : Num Q⦄ where
  -- `position_qty` once dust is set to 0.
  unfoldable pub net_position : Q → Q
  net_position p = if n.leq (n.abs p) n.flat_eps then n.nought else p

  -- The three branches on the rounded signal.
  unfoldable pub action_for : ℤ → Q → IntendedAction
  action_for (pos (suc _)) p =
      if n.ltq p n.nought
      then close_short
      else if n.eqq p n.nought
      then IntendedAction.buy
      else hold
  action_for (pos zero) p =
      if n.ltq n.nought p
      then IntendedAction.sell
      else if n.ltq p n.nought
      then close_short
      else hold
  action_for (negsuc _) p =
      if n.ltq n.nought p
      then IntendedAction.sell
      else if n.eqq p n.nought
      then open_short
      else hold

  unfoldable pub intended_action : Q → Q → IntendedAction
  unfolding action_for net_position
  intended_action signal p = action_for (n.round signal) (net_position p)

  unfoldable pub market_order : String → Q → OrderSide → OrderRequest Q
  market_order symbol qty side = record {
    symbol = symbol;
    qty = qty;
    side = side;
    order_type = OrderType.market;
    limit_price = none;
  }

  -- `req if req.qty > 0 else None`.
  unfoldable pub when_positive : OrderRequest Q → Option (OrderRequest Q)
  when_positive req = if n.ltq n.nought req.qty then some req else none

  unfoldable pub order_for : String → IntendedAction → Q → Q → Option (OrderRequest Q)
  unfolding market_order when_positive
  order_for symbol hold qty p = none
  order_for symbol IntendedAction.buy qty p = when_positive (market_order symbol qty OrderSide.buy)
  order_for symbol open_short qty p = when_positive (market_order symbol qty OrderSide.sell)
  order_for symbol IntendedAction.sell qty p =
      when_positive (market_order symbol (n.abs p) OrderSide.sell)
  order_for symbol close_short qty p = when_positive (market_order symbol (n.abs p) OrderSide.buy)

pub record ApplyAttempt (Q : Type 0) : Type 0 where
  pub action : IntendedAction
  pub position_qty : Q
  pub result : Option (OrderResult Q)

pub record OrderRetryResult (Q : Type 0) : Type 0 where
  pub action : IntendedAction
  pub position_qty : Q
  pub result : Option (OrderResult Q)
  pub attempts : List (ApplyAttempt Q)
  pub max_attempts : ℕ
  pub permanent_failure : Bool

-- `_TRANSIENT_MARKERS`.
abbrev pub transient_markers : List String
transient_markers = "unreachable" ∷ "rate" ∷ "timeout" ∷ []

module _ {Q : Type 0} where
  -- `OrderRetryPolicy.is_unconfirmed`.
  unfoldable pub is_unconfirmed : OrderResult Q → Bool
  is_unconfirmed r =
      let msg = lower (codes r.message) in
      contains msg (codes "fill unconfirmed")
      || contains msg (codes "requires manual reconciliation")

  transient : OrderResult Q → Bool
  transient r = any (λ m. contains (lower (codes r.message)) (codes m)) transient_markers

  unclassified_retryable : Option OrderRejectReason → OrderResult Q → Bool
  unfolding transient
  unclassified_retryable (some _) r = false
  unclassified_retryable none r =
      if is_unconfirmed r then true else if truthy r.vendor_order_id then true else transient r

  -- `OrderRetryPolicy.is_retryable`.
  unfoldable pub is_retryable : OrderResult Q → Bool
  unfolding unclassified_retryable
  is_retryable r = if r.success then false else unclassified_retryable r.reason r

  permanent : Option (OrderResult Q) → List (ApplyAttempt Q) → Bool
  permanent none attempts = false
  permanent (some r) attempts = not r.success && length attempts == 1 && not (is_retryable r)

  -- `OrderRetryExecutor._outcome`.
  unfoldable pub outcome :
      ℕ → IntendedAction → Q → Option (OrderResult Q) → List (ApplyAttempt Q) → OrderRetryResult Q
  unfolding permanent
  outcome max_attempts action p result attempts = record {
    action = action;
    position_qty = p;
    result = result;
    attempts = attempts;
    max_attempts = max_attempts;
    permanent_failure = permanent result attempts;
  }

-- How one pass of the loop's body ends: `return`, or on to the next attempt.
pub data Pass (Q : Type 0) : Type 0 where
  return : OrderRetryResult Q → Pass Q
  again : List (ApplyAttempt Q) → Pass Q
