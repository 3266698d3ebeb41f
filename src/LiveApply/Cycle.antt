-- ===== src/LiveApply/Cycle.antt =====
-- The methods of `LiveApplyOrchestrator`.
use quant_strategies.Prelude.{
  ℕ, String, true, Option, none, some, List, [], ◌∷◌, length, if◌then◌else◌,
}
use quant_strategies.Prelude.Num.{Num}
use quant_strategies.Prelude.Text.{truthy}
use quant_strategies.Prelude.Effects.{Act, Outcome, ok, raised, pure, raise, attempt, ◌>>=◌, ◌>>◌}
use quant_strategies.Intervals.{as_utc}
use quant_strategies.Order.{OrderSide, IntendedAction, hold, order_side, OrderResult, Exc}
use quant_strategies.OrderPolicy.{ApplyAttempt, OrderRetryResult}
use quant_strategies.OrderPolicy.Attempts.{
  execute, side_value, buy_sell_cd, is_success_ind, quantity,
}
use quant_strategies.Deployment.{DeploymentRow}
use quant_strategies.LiveApply.{
  StrategyConfig, no_credential, no_strategy, no_tm_interval_id, no_bar_source, not_evaluated,
  ApplyError, adapter_not_found, validation, live_evaluation, broker, BarSource, provider,
  price_bar, SignalRead, IntentRow, EventRow, TransactionRow, Alert, ApplyReport, BarLoader,
  Session, LiveEnv,
}

-- `OrderRetryResult.no_order_message`.
abbrev pub no_order_message : IntendedAction → String
no_order_message hold = "no order needed (HOLD)"
no_order_message _ = "no order needed (qty resolved to 0)"

abbrev pub id_of : Option String → List String → List String
id_of none ids = ids
id_of (some id) ids = if truthy (some id) then id ∷ ids else ids

module _ {Q : Type 0} where
  -- A field of `result` where there is one.
  abbrev pub of_result :
      {A : Type 0} → (OrderResult Q → Option A) → Option (OrderResult Q) → Option A
  of_result f none = none
  of_result f (some r) = f r

  abbrev pub message_of : Option (OrderResult Q) → IntendedAction → String
  message_of none action = no_order_message action
  message_of (some r) action = r.message

  -- `OrderRetryResult.vendor_order_ids`.
  unfoldable pub vendor_order_ids : List (ApplyAttempt Q) → List String
  vendor_order_ids [] = []
  vendor_order_ids (a ∷ rest) =
      id_of (of_result (λ r. r.vendor_order_id) a.result) (vendor_order_ids rest)

  -- `_report`.
  abbrev pub report : DeploymentRow Q → OrderRetryResult Q → String → Q → BarSource → ApplyReport Q
  report d o symbol signal source = record {
    deployment_id = d.deployment_id;
    action = o.action;
    vendor_symbol = symbol;
    signal = signal;
    position_qty = o.position_qty;
    order_success = of_result (λ r. some r.success) o.result;
    vendor_order_id = of_result (λ r. r.vendor_order_id) o.result;
    filled_qty = of_result (λ r. r.filled_qty) o.result;
    avg_price = of_result (λ r. r.avg_price) o.result;
    fee = of_result (λ r. r.fee) o.result;
    fee_ccy = of_result (λ r. r.fee_ccy) o.result;
    message = message_of o.result o.action;
    reject_reason = of_result (λ r. r.reason) o.result;
    bar_source = source;
  }

  abbrev pub event_row : DeploymentRow Q → Q → ℕ → ApplyAttempt Q → EventRow Q
  event_row d signal tick_at a = record {
    deployment_id = d.deployment_id;
    buy_sell_cd = buy_sell_cd a;
    is_success_ind = is_success_ind a;
    signal_value = signal;
    quantity = quantity a d.qty;
    vendor_order_id = of_result (λ r. r.vendor_order_id) a.result;
    transact_at = tick_at;
    position_qty = a.position_qty;
  }

  abbrev pub alert_for : DeploymentRow Q → OrderRetryResult Q → OrderResult Q → String → Q → Alert Q
  alert_for d o r symbol signal = record {
    is_permanent = o.permanent_failure;
    deployment_id = d.deployment_id;
    strategy_id = d.strategy_id;
    strategy_vid = d.strategy_vid;
    symbol = symbol;
    signal = signal;
    action = o.action;
    qty = d.qty;
    paper = d.is_paper_ind;
    attempt_count = length o.attempts;
    max_attempts = o.max_attempts;
    last_message = r.message;
    vendor_order_ids = vendor_order_ids o.attempts;
  }

module _ {Q : Type 0} ⦃n : Num Q⦄ where
  abbrev pub intent_row : DeploymentRow Q → SignalRead Q → ℕ → IntentRow Q
  intent_row d s tick_at = record {
    deployment_id = d.deployment_id;
    tm_interval_id = s.tm_interval_id;
    bar_timestamp = s.bar_timestamp;
    bar_source = s.bar_source;
    signal_value = s.signal;
    target_qty = n.mul s.signal d.qty;
    transact_at = tick_at;
  }

  abbrev pub notional_of : Q → Option Q → Option Q
  notional_of filled none = none
  notional_of filled (some price) = some (n.mul filled price)

  abbrev pub transaction_row :
      DeploymentRow Q → OrderSide → String → OrderResult Q → Q → String → TransactionRow Q
  transaction_row d side symbol r filled ccy = record {
    deployment_id = d.deployment_id;
    app_id = d.app_id;
    internal_cusip = d.internal_cusip;
    buy_sell_cd = side_value side;
    trans_ccy_cd = ccy;
    vendor_symbol = symbol;
    quantity = filled;
    price = r.avg_price;
    notional_amt = notional_of filled r.avg_price;
    fee_amt = r.fee;
    fee_ccy_cd = r.fee_ccy;
    vendor_order_id = r.vendor_order_id;
  }

module _ {X W : Type 0} where
  -- A broker's exception, where the executor lets it through.
  abbrev pub let_through : {A : Type 0} → Outcome Exc A × W → Outcome (ApplyError X) A × W
  let_through (ok a, w) = (ok a, w)
  let_through (raised e, w) = (raised (broker e), w)

  -- The end of a `with` block: its answer, unless `disconnect` raises.
  abbrev pub closed :
      {A : Type 0}
      → Outcome (ApplyError X) A
      → Outcome (ApplyError X) (Unit {0}) × W
      → Outcome (ApplyError X) A × W
  closed r (ok _, w) = (r, w)
  closed r (raised e, w) = (raised e, w)

  abbrev pub finally :
      {A : Type 0}
      → Outcome (ApplyError X) A × W
      → Act W (ApplyError X) (Unit {0})
      → Outcome (ApplyError X) A × W
  finally (r, w) leave = closed r (leave w)

  -- `except LiveEvaluationError as exc: raise TradeValidationError(str(exc))`.
  abbrev pub as_validation : {A : Type 0} → Outcome (ApplyError X) A → Act W (ApplyError X) A
  as_validation (ok a) = pure a
  as_validation (raised (live_evaluation text)) = raise (validation (not_evaluated text))
  as_validation (raised e) = raise e

  -- `except Exception: logger.exception(...)`.
  abbrev pub forget : Outcome (ApplyError X) (Unit {0}) → Act W (ApplyError X) (Unit {0})
  forget _ = pure tt

  abbrev pub fitted : Option ℕ → Act W (ApplyError X) ℕ
  fitted none = raise (validation no_tm_interval_id)
  fitted (some id) = pure id

module _ {Q K C P L X W : Type 0} ⦃n : Num Q⦄ (env : LiveEnv Q K C P L X W) where
  abbrev pub loader_on :
      ℕ
      → ℕ
      → Option String
      → Option (ℕ → Act W (ApplyError X) L)
      → Act W (ApplyError X) (Option (BarLoader L) × BarSource × ℕ)
  loader_on app id venue none = raise (validation no_bar_source)
  loader_on app id venue (some for_app) = for_app app >>= (λ service. pure (
    some (record {
      service = service;
      tm_interval_id = id;
      source_app_id = app;
      include_forming = true;
    }),
    price_bar venue,
    id,
  ))

  abbrev pub source_for :
      ℕ → Option ℕ → ℕ → Option String → Act W (ApplyError X) (Option (BarLoader L) × BarSource × ℕ)
  source_for app (some id) fitted_id venue = loader_on app id venue env.price_bars
  source_for app none fitted_id none = pure (none, provider, fitted_id)
  source_for app none fitted_id (some venue) = loader_on app fitted_id (some venue) env.price_bars

  unfoldable pub resolve_signal_source :
      ℕ → Option ℕ → ℕ → Act W (ApplyError X) (Option (BarLoader L) × BarSource × ℕ)
  resolve_signal_source app schedule fitted_id =
      env.exchange_id_for_app app >>= source_for app schedule fitted_id

  unfoldable pub read_signal :
      StrategyConfig C
      → P
      → (Option (BarLoader L) × BarSource × ℕ)
      → Act W (ApplyError X) (SignalRead Q)
  read_signal config payload source =
      (attempt (env.compute_latest_position config payload source.0) >>= as_validation)
      >>= (λ latest. env.fromisoformat latest.1 >>= (λ at. pure (record {
        signal = latest.0;
        bar_source = source.1;
        bar_timestamp = as_utc at;
        tm_interval_id = source.2;
      })))

  unfoldable pub signal_of :
      DeploymentRow Q → List (StrategyConfig C) → Act W (ApplyError X) (SignalRead Q)
  signal_of d [] = raise (validation no_strategy)
  signal_of d (config ∷ _) = env.fetch_result_payload d.strategy_id d.strategy_vid >>= (λ payload.
      fitted config.tm_interval_id >>= (λ id.
        resolve_signal_source d.app_id d.schedule_tm_interval_id id >>= read_signal config payload))

  unfoldable pub compute_signal : DeploymentRow Q → Act W (ApplyError X) (SignalRead Q)
  compute_signal d = env.sp_get_strategy d.strategy_id d.strategy_vid >>= signal_of d

  unfoldable pub audit_attempts :
      DeploymentRow Q → Q → ℕ → List (ApplyAttempt Q) → Act W (ApplyError X) (Unit {0})
  audit_attempts d signal tick_at [] = pure tt
  audit_attempts d signal tick_at (a ∷ rest) =
      (attempt (env.sp_ins_execution_event (event_row d signal tick_at a)) >>= forget)
      >> audit_attempts d signal tick_at rest

  -- A missing product and a product without `ccy` fall back alike, as does an empty `ccy`.
  abbrev pub ccy_or : Option (Option String) → Act W (ApplyError X) String
  ccy_or (some (some ccy)) = if truthy (some ccy) then pure ccy else env.fallback_settlement_ccy
  ccy_or _ = env.fallback_settlement_ccy

  unfoldable pub settlement_ccy : String → Act W (ApplyError X) String
  settlement_ccy cusip = env.get_product_by_cusip cusip >>= ccy_or

  unfoldable pub write_row :
      DeploymentRow Q
      → String
      → OrderResult Q
      → Option OrderSide
      → Option Q
      → Act W (ApplyError X) (Unit {0})
  write_row d symbol r (some side) (some filled) =
      attempt (
        settlement_ccy d.internal_cusip
        >>= (λ ccy. env.sp_ins_transaction (transaction_row d side symbol r filled ccy)))
      >>= forget
  write_row d symbol r _ _ = pure tt

  unfoldable pub write_transaction :
      DeploymentRow Q → IntendedAction → String → OrderResult Q → Act W (ApplyError X) (Unit {0})
  write_transaction d action symbol r = write_row d symbol r (order_side action) r.filled_qty

  unfoldable pub settle :
      DeploymentRow Q
      → OrderRetryResult Q
      → String
      → Q
      → Option (OrderResult Q)
      → Act W (ApplyError X) (Unit {0})
  settle d o symbol signal none = pure tt
  settle d o symbol signal (some r) =
      if r.success
      then write_transaction d o.action symbol r
      else env.send (alert_for d o r symbol signal)

  unfoldable pub execute_on :
      Session Q X W → DeploymentRow Q → String → Q → Act W (ApplyError X) (OrderRetryResult Q)
  execute_on session d symbol signal w =
      let_through (execute session.adapter symbol signal d.qty env.max_attempts w)

  -- The body of the `with` block.
  unfoldable pub trade :
      Session Q X W → DeploymentRow Q → SignalRead Q → ℕ → Act W (ApplyError X) (ApplyReport Q)
  trade session d s tick_at = session.validate_for_dry_run d.internal_cusip d.app_id >>= (λ symbol.
      execute_on session d symbol s.signal >>= (λ o.
        audit_attempts d s.signal tick_at o.attempts
        >> (settle d o symbol s.signal o.result >> pure (report d o symbol s.signal s.bar_source))))

  unfoldable pub with_session :
      Session Q X W → DeploymentRow Q → SignalRead Q → ℕ → Act W (ApplyError X) (ApplyReport Q)
  with_session session d s tick_at =
      session.connect >> (λ w. finally (trade session d s tick_at w) session.disconnect)

  unfoldable pub apply_with :
      ℕ → DeploymentRow Q → ℕ → Option K → Act W (ApplyError X) (ApplyReport Q)
  apply_with user d tick_at none = raise (validation no_credential)
  apply_with user d tick_at (some keys) = compute_signal d >>= (λ s.
      env.sp_ins_intent (intent_row d s tick_at)
      >> (env.create d.app_id keys d.is_paper_ind
          >>= (λ session. with_session session d s tick_at)))

  unfoldable pub run : ℕ → DeploymentRow Q → Act W (ApplyError X) (ApplyReport Q)
  run user d = env.now >>= (λ tick_at.
      if env.has_adapter d.app_id
      then env.decrypt_credential user d.api_credential_id >>= apply_with user d tick_at
      else raise (adapter_not_found d.app_id))
