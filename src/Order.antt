-- ===== src/Order.antt =====
-- quant/trade/models/order.py, quant/trade/models/market.py and the two calls of
-- quant/trade/adapters/base.py that the order policy makes: the value objects that broker adapters
-- and the policy exchange.
use quant_strategies.Prelude.{String, Bool, true, false, Option, none, some, if◌then◌else◌}
use quant_strategies.Prelude.Num.{Num}
use quant_strategies.Prelude.Effects.{Act}

pub data OrderSide : Type 0 where
  buy sell : OrderSide

pub data OrderType : Type 0 where
  market limit : OrderType

pub data OrderRejectReason : Type 0 where
  size_below_minimum ip_not_allowed region_restricted key_read_only key_refused : OrderRejectReason
  insufficient_funds invalid_order venue_rejected not_acknowledged : OrderRejectReason
  cancel_failed : OrderRejectReason

-- Membership in `_OPERATOR_FIX`.
unfoldable pub requires_operator_fix : OrderRejectReason → Bool
requires_operator_fix size_below_minimum = true
requires_operator_fix ip_not_allowed = true
requires_operator_fix region_restricted = true
requires_operator_fix key_read_only = true
requires_operator_fix cancel_failed = true
requires_operator_fix _ = false

pub data IntendedAction : Type 0 where
  buy sell hold open_short close_short : IntendedAction

unfoldable pub order_side : IntendedAction → Option OrderSide
order_side IntendedAction.buy = some OrderSide.buy
order_side close_short = some OrderSide.buy
order_side IntendedAction.sell = some OrderSide.sell
order_side open_short = some OrderSide.sell
order_side hold = none

pub record OrderRequest (Q : Type 0) : Type 0 where
  pub symbol : String
  pub qty : Q
  pub side : OrderSide
  pub order_type : OrderType
  pub limit_price : Option Q

pub record OrderResult (Q : Type 0) : Type 0 where
  pub success : Bool
  pub vendor_order_id : Option String
  pub message : String
  pub reason : Option OrderRejectReason
  pub raw_status : Option String
  pub side : Option OrderSide
  pub requested_qty : Option Q
  pub filled_qty : Option Q
  pub avg_price : Option Q
  pub fee : Option Q
  pub fee_ccy : Option String

-- What a handler reads off an exception: `str(exc)`, the `reason` of a `BrokerConnectionError`, and
-- whether it is an `OrderNotFoundError`.
pub record Exc : Type 0 where
  pub text : String
  pub reason : Option OrderRejectReason
  pub is_order_not_found : Bool

-- A broker session, over the world `W` that the venue and its clock live in. Calls may raise.
pub record TradeAdapter (Q W : Type 0) : Type 0 where
  pub get_position_qty : String → Act W Exc Q
  pub place_order : OrderRequest Q → Act W Exc (OrderResult Q)
  pub cancel_order : String → String → Act W Exc (OrderResult Q)

pub record MarketLimits (Q : Type 0) : Type 0 where
  pub symbol : String
  pub min_qty : Option Q
  pub min_notional : Option Q

-- Which rule an order breaks; the source's text names the same two numbers.
pub data Undersized (Q : Type 0) : Type 0 where
  below_min_qty : Q → Q → Undersized Q
  below_min_notional : Q → Q → Undersized Q

module _ {Q : Type 0} ⦃n : Num Q⦄ where
  lot_rule : Option Q → Q → Option (Undersized Q)
  lot_rule none qty = none
  lot_rule (some m) qty = if n.ltq qty m then some (below_min_qty qty m) else none

  notional_rule : Option Q → Option Q → Q → Option (Undersized Q)
  notional_rule (some m) (some price) qty =
      if n.ltq (n.mul qty price) m then some (below_min_notional (n.mul qty price) m) else none
  notional_rule _ _ qty = none

  first_of_two : Option (Undersized Q) → Option (Undersized Q) → Option (Undersized Q)
  first_of_two (some u) _ = some u
  first_of_two none v = v

  -- `MarketLimits.undersized`.
  unfoldable pub undersized : MarketLimits Q → Q → Option Q → Option (Undersized Q)
  unfolding lot_rule notional_rule first_of_two
  undersized limits qty price =
      if n.leq qty n.nought
      then none
      else first_of_two (lot_rule limits.min_qty qty) (notional_rule limits.min_notional price qty)
