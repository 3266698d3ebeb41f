-- ===== src/LiveApply.antt =====
-- quant/trade/live_apply.py, with the series rule of quant/trade/bar_source.py: one live-apply cycle
-- over the repository, the caches, the notifier and the brokers. A number of the source's is a `Q`, an
-- identifier a number. Where the source formats an alert, the model has the alert's fields.
use quant_strategies.Prelude.{
  ℕ, String, Bool, true, false, not, Option, none, some, List, [], ◌∷◌, ◌++◌, length, if◌then◌else◌,
}
use quant_strategies.Prelude.Num.{Num}
use quant_strategies.Prelude.Text.{truthy}
use quant_strategies.Prelude.Effects.{Act, Outcome, ok, raised, pure, raise, attempt, ◌>>=◌, ◌>>◌}
use quant_strategies.Intervals.{Stamp, as_utc}
use quant_strategies.Order.{
  OrderSide, IntendedAction, hold, order_side, OrderResult, OrderRejectReason, Exc, TradeAdapter,
}
use quant_strategies.OrderPolicy.{ApplyAttempt, OrderRetryResult}
use quant_strategies.OrderPolicy.Attempts.{
  execute, side_value, buy_sell_cd, is_success_ind, quantity,
}
use quant_strategies.Deployment.{DeploymentRow}
pub mod Cycle
pub mod Records
pub mod Accounts
pub mod Course
pub mod Ends
pub mod Steps
pub mod Runs
pub mod Failures
pub mod DryRun
pub mod Preview
mod Tests

-- The configuration of a strategy, with the interval that its parameters were fitted on.
pub record StrategyConfig (C : Type 0) : Type 0 where
  pub tm_interval_id : Option ℕ
  pub settings : C

pub data Refused : Type 0 where
  no_credential no_strategy no_tm_interval_id no_bar_source : Refused
  not_evaluated : String → Refused

-- `AdapterNotFoundError`, `TradeValidationError`, `LiveEvaluationError`, an exception of the broker
-- calls, and any other.
pub data ApplyError (X : Type 0) : Type 0 where
  adapter_not_found : ℕ → ApplyError X
  validation : Refused → ApplyError X
  live_evaluation : String → ApplyError X
  broker : Exc → ApplyError X
  other : X → ApplyError X

-- `"provider"`, and `"price_bar:"` with the venue.
pub data BarSource : Type 0 where
  provider : BarSource
  price_bar : Option String → BarSource

pub record SignalRead (Q : Type 0) : Type 0 where
  pub signal : Q
  pub bar_source : BarSource
  pub bar_timestamp : ℕ
  pub tm_interval_id : ℕ

-- The arguments of `sp_ins_intent`, `sp_ins_execution_event` and `sp_ins_transaction` that the cycle
-- computes or reads. The ids that it only hands on are left out: the row's own new id, the user's and
-- the version of the deployment.
pub record IntentRow (Q : Type 0) : Type 0 where
  pub deployment_id : ℕ
  pub tm_interval_id : ℕ
  pub bar_timestamp : ℕ
  pub bar_source : BarSource
  pub signal_value : Q
  pub target_qty : Q
  pub transact_at : ℕ

pub record EventRow (Q : Type 0) : Type 0 where
  pub deployment_id : ℕ
  pub buy_sell_cd : String
  pub is_success_ind : String
  pub signal_value : Q
  pub quantity : Option Q
  pub vendor_order_id : Option String
  pub transact_at : ℕ
  pub position_qty : Q

pub record TransactionRow (Q : Type 0) : Type 0 where
  pub deployment_id : ℕ
  pub app_id : ℕ
  pub internal_cusip : String
  pub buy_sell_cd : String
  pub trans_ccy_cd : String
  pub vendor_symbol : String
  pub quantity : Q
  pub price : Option Q
  pub notional_amt : Option Q
  pub fee_amt : Option Q
  pub fee_ccy_cd : Option String
  pub vendor_order_id : Option String

pub record Alert (Q : Type 0) : Type 0 where
  pub is_permanent : Bool
  pub deployment_id : ℕ
  pub strategy_id : ℕ
  pub strategy_vid : ℕ
  pub symbol : String
  pub signal : Q
  pub action : IntendedAction
  pub qty : Q
  pub paper : Bool
  pub attempt_count : ℕ
  pub max_attempts : ℕ
  pub last_message : String
  pub vendor_order_ids : List String

-- `ApplyReport` without the version of the deployment.
pub record ApplyReport (Q : Type 0) : Type 0 where
  pub deployment_id : ℕ
  pub action : IntendedAction
  pub vendor_symbol : String
  pub signal : Q
  pub position_qty : Q
  pub order_success : Option Bool
  pub vendor_order_id : Option String
  pub filled_qty : Option Q
  pub avg_price : Option Q
  pub fee : Option Q
  pub fee_ccy : Option String
  pub message : String
  pub reject_reason : Option OrderRejectReason
  pub bar_source : BarSource

-- `load_window` with the arguments that `functools.partial` binds.
pub record BarLoader (L : Type 0) : Type 0 where
  pub service : L
  pub tm_interval_id : ℕ
  pub source_app_id : ℕ
  pub include_forming : Bool

-- A broker session: `connect` and `disconnect` are what its `with` block calls.
pub record Session (Q X W : Type 0) : Type 0 where
  pub adapter : TradeAdapter Q W
  pub connect : Act W (ApplyError X) (Unit {0})
  pub disconnect : Act W (ApplyError X) (Unit {0})
  pub validate_for_dry_run : String → ℕ → Act W (ApplyError X) String

-- The collaborators. `K` are the keys, `C` the settings of a strategy, `P` a result payload and `L` a
-- price-bar service; `get_product_by_cusip` gives the `ccy` of a product.
pub record LiveEnv (Q K C P L X W : Type 0) : Type 0 where
  pub max_attempts : ℕ
  pub now : Act W (ApplyError X) ℕ
  pub has_adapter : ℕ → Bool
  pub create : ℕ → K → Bool → Act W (ApplyError X) (Session Q X W)
  pub decrypt_credential : ℕ → ℕ → Act W (ApplyError X) (Option K)
  pub sp_get_strategy : ℕ → ℕ → Act W (ApplyError X) (List (StrategyConfig C))
  pub fetch_result_payload : ℕ → ℕ → Act W (ApplyError X) P
  pub exchange_id_for_app : ℕ → Act W (ApplyError X) (Option String)
  pub price_bars : Option (ℕ → Act W (ApplyError X) L)
  pub compute_latest_position :
      StrategyConfig C → P → Option (BarLoader L) → Act W (ApplyError X) (Q × String)
  pub fromisoformat : String → Act W (ApplyError X) Stamp
  pub get_product_by_cusip : String → Act W (ApplyError X) (Option (Option String))
  pub fallback_settlement_ccy : Act W (ApplyError X) String
  pub sp_ins_intent : IntentRow Q → Act W (ApplyError X) (Unit {0})
  pub sp_ins_execution_event : EventRow Q → Act W (ApplyError X) (Unit {0})
  pub sp_ins_transaction : TransactionRow Q → Act W (ApplyError X) (Unit {0})
  pub send : Alert Q → Act W (ApplyError X) (Unit {0})
