-- ===== src/Deployment/Tests.antt =====
-- A paused deployment that an update enables, and the rules at concrete environments.
use quant_strategies.Prelude.{ℕ, ◌≡◌, refl, String, true, false, none, some, [], ◌∷◌}
use quant_strategies.Prelude.Int.{ℤ}
use quant_strategies.Prelude.Nano.{nano_num, units}
use quant_strategies.Prelude.Effects.{ok, pure}
use quant_strategies.Scheduler.Tick.{DeploymentStatus, DeploymentWrite}
use quant_strategies.Deployment.{
  DeploymentRow, UpdateDeploymentRequest, TradeError, ServiceEnv, should_realign_schedule,
}
use quant_strategies.Deployment.Service.{update_deployment, stop_deployment, apply_deployment}
use quant_strategies.Deployment.Writes.{logged}
use quant_strategies.Deployment.Patches.{WritesOnce, IsPatch, Halts, AppliesEnabled}
use quant_strategies.Deployment.Steps.{OkWrote}
use quant_strategies.Deployment.Rules.{
  StoppedOrWrote, update-WritesOnce, stop-WritesOnce, apply-AppliesEnabled,
}

abbrev paused_row : DeploymentRow ℤ
paused_row = record {
  deployment_id = 7;
  app_user_id = 1;
  strategy_id = 2;
  strategy_vid = 3;
  api_credential_id = 4;
  app_id = 5;
  internal_cusip = "btcusdt.crypto";
  qty = units 1;
  is_paper_ind = true;
  is_enabled_ind = false;
  deployment_status = DeploymentStatus.paused;
  schedule_tm_interval_id = some 6;
  min_qty = none;
}

abbrev enable : UpdateDeploymentRequest ℤ
enable = record {
  enabled = some true;
  deployment_status = none;
  schedule_tm_interval_id = none;
  qty = some (some (units 2));
}

abbrev stored : DeploymentWrite ℤ → DeploymentRow ℤ → DeploymentRow ℤ
stored w row = record row {
  qty = w.qty;
  is_enabled_ind = w.is_enabled_ind;
  deployment_status = w.deployment_status;
  schedule_tm_interval_id = w.schedule_tm_interval_id;
}

-- A table with the one row, and a venue that trades from one unit on.
abbrev one_row :
    ServiceEnv ℤ (DeploymentRow ℤ) ℕ (DeploymentRow ℤ) (TradeError ℤ String) (DeploymentRow ℤ)
one_row = record {
  sp_get_deployment = λ user id row. (ok (row ∷ []), row);
  model_validate = λ raw. pure raw;
  write_deployment = λ w row. (ok (stored w row), stored w row);
  strategy_owned_by = λ sid vid user. pure (some 6);
  interval_label = λ id. pure "1 hour";
  resolve_internal_cusip = λ cusip app. pure (some "BTC/USDT");
  preset_for_app = λ app. pure none;
  instrument_default_type = λ preset cusip. pure none;
  venue_limits_get = λ app vendor type.
      pure (record { symbol = vendor; min_qty = some (units 1); min_notional = none });
  get_product_by_cusip = λ cusip. pure none;
  get_interval_period = λ id. pure 3600000000;
  get_execute_offset = λ app id. pure 300000000;
  get_market_calendar =
      λ exchange. pure (record { market_close_time = none; bar_timezone = "UTC" });
  now = pure 0;
  to_wall = λ zone t. t;
  to_utc = λ zone t. t;
  str = λ n. "1";
  live_apply = λ user dep text. pure dep;
}

realigned : should_realign_schedule paused_row enable ≡ true
unfolding should_realign_schedule
realigned = refl

update-WritesOnce_example :
    let t = update_deployment (logged one_row) 1 7 enable ([], paused_row) in
    WritesOnce (IsPatch 1 7 enable) t.1.0 × OkWrote t
update-WritesOnce_example = update-WritesOnce one_row 1 7 enable paused_row

stop-WritesOnce_example :
    let t = stop_deployment (logged one_row) 1 7 ([], paused_row) in
    WritesOnce (Halts 1 7) t.1.0 × StoppedOrWrote one_row 1 7 t
stop-WritesOnce_example = stop-WritesOnce one_row 1 7 paused_row

apply-AppliesEnabled_example :
    AppliesEnabled (apply_deployment (logged one_row) 1 7 ([], paused_row)).1.0
apply-AppliesEnabled_example = apply-AppliesEnabled one_row 1 7 paused_row
