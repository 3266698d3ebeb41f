-- ===== src/Deployment/Service.antt =====
-- The methods of `TradeService` on one deployment, over any environment.
use quant_strategies.Prelude.{
  ℕ, String, Bool, true, false, ◌||◌, Option, none, some, List, [], ◌∷◌, is_none, leb, opt_eq,
  if◌then◌else◌,
}
use quant_strategies.Prelude.Text.{truthy}
use quant_strategies.Prelude.Num.{Num}
use quant_strategies.Prelude.Effects.{Act, pure, raise, ◌>>=◌, ◌>>◌}
use quant_strategies.Order.{MarketLimits, undersized, Undersized}
use quant_strategies.Scheduler.Tick.{DeploymentStatus, DeploymentWrite}
use quant_strategies.Intervals.{aware, day_us, next_apply_slot, next_session_apply_slot}
use quant_strategies.Deployment.{
  DeploymentRow, UpdateDeploymentRequest, no_tm_interval_id, qty_missing, kill_switch,
  wrong_interval, too_small, TradeError, validation, deployment_not_found, value_error, ServiceEnv,
  should_realign_schedule, new_interval, new_status, is_stopped, given,
}

abbrev pub exchange_of : Option (Option String) → Option String
exchange_of none = none
exchange_of (some exchange) = if truthy exchange then exchange else none

module _ {Q R P A X W : Type 0} ⦃n : Num Q⦄ (env : ServiceEnv Q R P A (TradeError Q X) W) where
  unfoldable pub default_type : Option P → String → Act W (TradeError Q X) (Option String)
  default_type none cusip = pure none
  default_type (some preset) cusip = env.instrument_default_type preset cusip

  unfoldable pub limits_of : ℕ → String → Option String → Act W (TradeError Q X) (MarketLimits Q)
  limits_of app cusip none = pure (record { symbol = cusip; min_qty = none; min_notional = none })
  limits_of app cusip (some vendor) =
      env.preset_for_app app
      >>= (λ preset. default_type preset cusip >>= env.venue_limits_get app vendor)

  unfoldable pub venue_limits : ℕ → String → Act W (TradeError Q X) (MarketLimits Q)
  venue_limits app cusip = env.resolve_internal_cusip cusip app >>= limits_of app cusip

  unfoldable pub interval_of : Option ℕ → Act W (TradeError Q X) ℕ
  interval_of none = raise (validation no_tm_interval_id)
  interval_of (some id) = pure id

  unfoldable pub fitted_interval_id : ℕ → ℕ → ℕ → Act W (TradeError Q X) ℕ
  fitted_interval_id user sid vid = env.strategy_owned_by sid vid user >>= interval_of

  unfoldable pub refuse_interval : Option ℕ → ℕ → Act W (TradeError Q X) (Unit {0})
  refuse_interval none fitted = pure tt
  refuse_interval (some id) fitted = env.interval_label id >>= (λ wanted.
      env.interval_label fitted >>= (λ label. raise (validation (wrong_interval wanted label))))

  unfoldable pub require_fitted_interval : Option ℕ → ℕ → Act W (TradeError Q X) (Unit {0})
  require_fitted_interval id fitted =
      if is_none id || opt_eq id (some fitted) then pure tt else refuse_interval id fitted

  unfoldable pub refuse_size : Option (Undersized Q) → Act W (TradeError Q X) (Unit {0})
  refuse_size none = pure tt
  refuse_size (some u) = raise (validation (too_small u))

  unfoldable pub require_tradable_qty : ℕ → String → Q → Act W (TradeError Q X) (Unit {0})
  require_tradable_qty app cusip qty =
      venue_limits app cusip >>= (λ limits. refuse_size (undersized limits qty none))

  -- `_row`
  unfoldable pub row_of : R → Act W (TradeError Q X) (DeploymentRow Q)
  row_of raw = env.model_validate raw >>= (λ row.
      venue_limits row.app_id row.internal_cusip
      >>= (λ limits. pure (record row { min_qty = limits.min_qty })))

  unfoldable pub first_row : ℕ → List R → Act W (TradeError Q X) (DeploymentRow Q)
  first_row id [] = raise (deployment_not_found id)
  first_row id (raw ∷ _) = row_of raw

  unfoldable pub get_deployment : ℕ → ℕ → Act W (TradeError Q X) (DeploymentRow Q)
  get_deployment user id = env.sp_get_deployment user id >>= first_row id

  unfoldable pub slot_or_raise : Option ℕ → Act W (TradeError Q X) ℕ
  slot_or_raise none = raise value_error
  slot_or_raise (some ts) = pure ts

  unfoldable pub slot_in : Option ℕ → String → ℕ → ℕ → ℕ → Act W (TradeError Q X) ℕ
  slot_in none zone moment period offset =
      slot_or_raise (next_apply_slot (aware moment) period offset)
  slot_in (some close) zone moment period offset = slot_or_raise (
      if leb day_us period
      then next_session_apply_slot (env.to_wall zone) (env.to_utc zone) (aware moment) close offset
      else next_apply_slot (aware moment) period offset)

  unfoldable pub compute_initial_scheduled_ts : ℕ → ℕ → Option String → Act W (TradeError Q X) ℕ
  compute_initial_scheduled_ts app interval exchange = env.now >>= (λ moment.
      env.get_interval_period interval >>= (λ period.
        env.get_execute_offset app interval >>= (λ offset.
          env.get_market_calendar exchange >>= (λ calendar.
            slot_in calendar.market_close_time calendar.bar_timezone moment period offset))))

  -- `_listing_exchange`
  unfoldable pub listing_exchange : String → Act W (TradeError Q X) (Option String)
  listing_exchange cusip =
      env.get_product_by_cusip cusip >>= (λ product. pure (exchange_of product))

  unfoldable pub check_cadence :
      ℕ → DeploymentRow Q → Option (Option ℕ) → Act W (TradeError Q X) (Unit {0})
  check_cadence user current none = pure tt
  check_cadence user current (some id) =
      fitted_interval_id user current.strategy_id current.strategy_vid
      >>= require_fitted_interval id

  unfoldable pub new_qty : DeploymentRow Q → Option (Option Q) → Act W (TradeError Q X) Q
  new_qty current none = pure current.qty
  new_qty current (some none) = raise (validation qty_missing)
  new_qty current (some (some qty)) =
      require_tradable_qty current.app_id current.internal_cusip qty >> pure qty

  unfoldable pub aligned : DeploymentRow Q → Bool → Option ℕ → Act W (TradeError Q X) (Option ℕ)
  aligned current true (some interval) = listing_exchange current.internal_cusip >>= (λ exchange.
      compute_initial_scheduled_ts current.app_id interval exchange >>= (λ ts. pure (some ts)))
  aligned current _ _ = pure none

  abbrev pub patched :
      ℕ → ℕ → DeploymentRow Q → UpdateDeploymentRequest Q → Q → Option ℕ → DeploymentWrite Q
  patched user id current req qty ts = record {
    deployment_id = id;
    app_user_id = user;
    strategy_id = current.strategy_id;
    strategy_vid = current.strategy_vid;
    api_credential_id = current.api_credential_id;
    app_id = current.app_id;
    internal_cusip = current.internal_cusip;
    qty = qty;
    is_paper_ind = current.is_paper_ind;
    is_enabled_ind = given req.enabled current.is_enabled_ind;
    deployment_status = new_status current req;
    user_id = env.str user;
    schedule_tm_interval_id = new_interval current req;
    initial_scheduled_ts = ts;
  }

  unfoldable pub update_row :
      ℕ → ℕ → UpdateDeploymentRequest Q → DeploymentRow Q → Act W (TradeError Q X) (DeploymentRow Q)
  update_row user id req current =
      check_cadence user current req.schedule_tm_interval_id
      >> (new_qty current req.qty >>= (λ qty.
          aligned current (should_realign_schedule current req) (new_interval current req)
          >>= (λ ts. env.write_deployment (patched user id current req qty ts) >>= row_of)))

  unfoldable pub update_deployment :
      ℕ → ℕ → UpdateDeploymentRequest Q → Act W (TradeError Q X) (DeploymentRow Q)
  update_deployment user id req = get_deployment user id >>= update_row user id req

  abbrev pub stopped_row : ℕ → ℕ → DeploymentRow Q → DeploymentWrite Q
  stopped_row user id current = record {
    deployment_id = id;
    app_user_id = user;
    strategy_id = current.strategy_id;
    strategy_vid = current.strategy_vid;
    api_credential_id = current.api_credential_id;
    app_id = current.app_id;
    internal_cusip = current.internal_cusip;
    qty = current.qty;
    is_paper_ind = current.is_paper_ind;
    is_enabled_ind = false;
    deployment_status = DeploymentStatus.stopped;
    user_id = env.str user;
    schedule_tm_interval_id = current.schedule_tm_interval_id;
    initial_scheduled_ts = none;
  }

  unfoldable pub stop_deployment : ℕ → ℕ → Act W (TradeError Q X) (DeploymentRow Q)
  stop_deployment user id = get_deployment user id >>= λ current.
      if is_stopped current.deployment_status
      then pure current
      else env.write_deployment (stopped_row user id current) >>= row_of

  unfoldable pub apply_deployment : ℕ → ℕ → Act W (TradeError Q X) A
  apply_deployment user id = get_deployment user id >>= λ dep.
      if dep.is_enabled_ind
      then env.live_apply user dep (env.str user)
      else raise (validation kill_switch)
