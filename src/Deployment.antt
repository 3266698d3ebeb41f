-- ===== src/Deployment.antt =====
-- quant/trade/service.py with quant/trade/schedule_align.py and quant/trade/schedule_policy.py: the
-- operations on one deployment. Rows and requests have the columns that the service reads, and an
-- indicator `Y` or `N` is a Boolean.
use quant_strategies.Prelude.{
  ℕ, String, Bool, true, false, not, ◌&&◌, ◌||◌, Option, none, some, List, [], ◌∷◌, is_some, leb,
  opt_eq, if◌then◌else◌,
}
use quant_strategies.Prelude.Num.{Num}
use quant_strategies.Prelude.Effects.{Act, pure, raise, ◌>>=◌, ◌>>◌}
use quant_strategies.Order.{MarketLimits, Undersized, undersized}
use quant_strategies.Scheduler.Tick.{DeploymentStatus, DeploymentWrite}
use quant_strategies.Intervals.{aware, day_us, next_apply_slot, next_session_apply_slot}
pub mod Service
pub mod Writes
pub mod Checks
pub mod Patches
pub mod Steps
pub mod Rules
mod Tests

pub record DeploymentRow (Q : Type 0) : Type 0 where
  pub deployment_id : ℕ
  pub app_user_id : ℕ
  pub strategy_id : ℕ
  pub strategy_vid : ℕ
  pub api_credential_id : ℕ
  pub app_id : ℕ
  pub internal_cusip : String
  pub qty : Q
  pub is_paper_ind : Bool
  pub is_enabled_ind : Bool
  pub deployment_status : DeploymentStatus
  pub schedule_tm_interval_id : Option ℕ
  pub min_qty : Option Q

-- A field that may be set to null is `none` where it is not in `model_fields_set`.
pub record UpdateDeploymentRequest (Q : Type 0) : Type 0 where
  pub enabled : Option Bool
  pub deployment_status : Option DeploymentStatus
  pub schedule_tm_interval_id : Option (Option ℕ)
  pub qty : Option (Option Q)

pub data Refusal (Q : Type 0) : Type 0 where
  no_tm_interval_id qty_missing kill_switch : Refusal Q
  wrong_interval : String → String → Refusal Q
  too_small : Undersized Q → Refusal Q

pub data TradeError (Q X : Type 0) : Type 0 where
  validation : Refusal Q → TradeError Q X
  deployment_not_found : ℕ → TradeError Q X
  value_error : TradeError Q X
  other : X → TradeError Q X

-- The row of `get_market_calendar`.
pub record Calendar : Type 0 where
  pub market_close_time : Option ℕ
  pub bar_timezone : String

-- The procedures, caches and clock of the service. `R` is a raw row, `P` a preset of an app, `A` the
-- report of a live apply and `E` an exception; `strategy_owned_by` gives the `tm_interval_id` of
-- the strategy's configuration, and `get_product_by_cusip` the `exchange` of a product.
pub record ServiceEnv (Q R P A E W : Type 0) : Type 0 where
  pub sp_get_deployment : ℕ → ℕ → Act W E (List R)
  pub model_validate : R → Act W E (DeploymentRow Q)
  pub write_deployment : DeploymentWrite Q → Act W E R
  pub strategy_owned_by : ℕ → ℕ → ℕ → Act W E (Option ℕ)
  pub interval_label : ℕ → Act W E String
  pub resolve_internal_cusip : String → ℕ → Act W E (Option String)
  pub preset_for_app : ℕ → Act W E (Option P)
  pub instrument_default_type : P → String → Act W E (Option String)
  pub venue_limits_get : ℕ → String → Option String → Act W E (MarketLimits Q)
  pub get_product_by_cusip : String → Act W E (Option (Option String))
  pub get_interval_period : ℕ → Act W E ℕ
  pub get_execute_offset : ℕ → ℕ → Act W E ℕ
  pub get_market_calendar : Option String → Act W E Calendar
  pub now : Act W E ℕ
  pub to_wall : String → ℕ → ℕ
  pub to_utc : String → ℕ → ℕ
  pub str : ℕ → String
  pub live_apply : ℕ → DeploymentRow Q → String → Act W E A

abbrev is_paused : DeploymentStatus → Bool
is_paused DeploymentStatus.paused = true
is_paused _ = false

abbrev is_active : Option DeploymentStatus → Bool
is_active (some DeploymentStatus.active) = true
is_active _ = false

abbrev pub is_stopped : DeploymentStatus → Bool
is_stopped DeploymentStatus.stopped = true
is_stopped _ = false

abbrev is_true : Option Bool → Bool
is_true (some b) = b
is_true none = false

abbrev pub given : {A : Type 0} → Option A → A → A
given none a = a
given (some b) a = b

abbrev interval_changed : Option (Option ℕ) → Option ℕ → Bool
interval_changed none old = false
interval_changed (some new) old = not (opt_eq new old) && is_some new

-- The status that an update writes: enabling a paused row resumes it.
abbrev pub status_after :
    Option Bool → Option DeploymentStatus → DeploymentStatus → DeploymentStatus
status_after enabled wanted old =
    let status = given wanted old in
    if is_true enabled && not (is_some wanted) && is_paused status
    then DeploymentStatus.active
    else status

module _ {Q : Type 0} where
  unfoldable pub should_realign_schedule : DeploymentRow Q → UpdateDeploymentRequest Q → Bool
  should_realign_schedule current req =
      let scheduled = is_some current.schedule_tm_interval_id in
      interval_changed req.schedule_tm_interval_id current.schedule_tm_interval_id
      || (is_true req.enabled && not current.is_enabled_ind && scheduled)
      || (is_active req.deployment_status && is_paused current.deployment_status && scheduled)

  abbrev pub new_interval : DeploymentRow Q → UpdateDeploymentRequest Q → Option ℕ
  new_interval current req = given req.schedule_tm_interval_id current.schedule_tm_interval_id

  abbrev pub new_status : DeploymentRow Q → UpdateDeploymentRequest Q → DeploymentStatus
  new_status current req = status_after req.enabled req.deployment_status current.deployment_status
