-- ===== src/LiveApply/Tests.antt =====
-- A cycle on one venue: an order that fills, one whose fill stays unknown, and the theorems on them.
use quant_strategies.Prelude.{
  ℕ, ◌≡◌, refl, String, Bool, true, false, Option, none, some, List, [], ◌∷◌,
}
use native.Mathlib.Omega.{arith}
use quant_strategies.Prelude.Int.{ℤ, pos}
use quant_strategies.Prelude.Nano.{nano_num, units}
use quant_strategies.Prelude.Effects.{ok, pure, raise}
use quant_strategies.Intervals.{aware}
use quant_strategies.Scheduler.Tick.{DeploymentStatus}
use quant_strategies.Order.{OrderResult, IntendedAction}
use quant_strategies.OrderPolicy.{OrderRetryResult, intended_action, order_for, outcome}
use quant_strategies.OrderPolicy.Attempts.{execute, execute_from, attempt_once, place, after_place}
use quant_strategies.Deployment.{DeploymentRow}
use quant_strategies.LiveApply.{other, SignalRead, price_bar, Session, LiveEnv}
use quant_strategies.LiveApply.Cycle.{run, trade, execute_on, report}
use quant_strategies.LiveApply.Records.{recorded}
use quant_strategies.LiveApply.Ends.{Backed}
use quant_strategies.LiveApply.Runs.{Answers, run-Backed, run-Accounted}
use quant_strategies.LiveApply.DryRun.{DryRunRequest, DryEnv, run_dry_run}
use quant_strategies.LiveApply.Preview.{recorded_dry, Previews, run_dry_run-Previews}
use quant_strategies.LiveApply.Failures.{Gives, trade-Gives}

abbrev reply : Bool → String → String → Option ℤ → OrderResult ℤ
reply success id message filled = record {
  success = success;
  vendor_order_id = some id;
  message = message;
  reason = none;
  raw_status = none;
  side = none;
  requested_qty = none;
  filled_qty = filled;
  avg_price = filled;
  fee = none;
  fee_ccy = none;
}

-- The replies that the venue still has to give.
abbrev Script : Type 0
Script = List (OrderResult ℤ)

abbrev next_reply : Script → OrderResult ℤ × Script
next_reply [] = (reply false "0" "timeout" none, [])
next_reply (r ∷ rs) = (r, rs)

abbrev session : Session ℤ String Script
session = record {
  adapter = record {
    get_position_qty = λ symbol w. (ok (pos 0), w);
    place_order = λ req w. (ok (next_reply w).0, (next_reply w).1);
    cancel_order = λ id symbol w. (ok (reply true id "cancelled" none), w);
  };
  connect = pure tt;
  disconnect = pure tt;
  validate_for_dry_run = λ cusip app. pure "BTC/USDT";
}

abbrev deployed : DeploymentRow ℤ
deployed = record {
  deployment_id = 7;
  app_user_id = 1;
  strategy_id = 2;
  strategy_vid = 3;
  api_credential_id = 4;
  app_id = 5;
  internal_cusip = "btcusdt.crypto";
  qty = units 1;
  is_paper_ind = true;
  is_enabled_ind = true;
  deployment_status = DeploymentStatus.active;
  schedule_tm_interval_id = some 6;
  min_qty = none;
}

-- Events and transactions cannot be written.
abbrev desk : LiveEnv ℤ String ℕ ℕ ℕ String Script
desk = record {
  max_attempts = 3;
  now = pure 1000;
  has_adapter = λ app. true;
  create = λ app keys paper. pure session;
  decrypt_credential = λ user id. pure (some "key");
  sp_get_strategy = λ id vid. pure (record { tm_interval_id = some 6; settings = 0 } ∷ []);
  fetch_result_payload = λ id vid. pure 0;
  exchange_id_for_app = λ app. pure (some "bybit");
  price_bars = some (λ app. pure 0);
  compute_latest_position = λ config payload bars. pure (units 1, "1970-01-01");
  fromisoformat = λ text. pure (aware 0);
  get_product_by_cusip = λ cusip. pure none;
  fallback_settlement_ccy = pure "USDT";
  sp_ins_intent = λ row. pure tt;
  sp_ins_execution_event = λ row. raise (other "no table");
  sp_ins_transaction = λ row. raise (other "no table");
  send = λ alert. pure tt;
}

abbrev unsure_then_filled : Script
unsure_then_filled =
    reply false "7" "fill unconfirmed after 3.0s — requires manual reconciliation" none
    ∷ reply true "8" "order filled" (some (units 1))
    ∷ []

run-Backed_example :
    let s = (run (recorded desk) 1 deployed ([], ([], unsure_then_filled))).1 in Backed 3 s.0 s.1.0
run-Backed_example = run-Backed desk deployed (omega arith) 1 unsure_then_filled

run-Accounted_example :
    Answers desk deployed
      (omega arith)
      1
      unsure_then_filled
      (run (recorded desk) 1 deployed ([], ([], unsure_then_filled)))
run-Accounted_example = run-Accounted desk deployed (omega arith) 1 unsure_then_filled

abbrev long_signal : SignalRead ℤ
long_signal = record {
  signal = units 1;
  bar_source = price_bar (some "bybit");
  bar_timestamp = 0;
  tm_interval_id = 6;
}

abbrev filled : OrderResult ℤ
filled = reply true "8" "order filled" (some (units 1))

abbrev filled_outcome : OrderRetryResult ℤ
filled_outcome = record {
  action = IntendedAction.buy;
  position_qty = pos 0;
  result = some filled;
  attempts =
      record { action = IntendedAction.buy; position_qty = pos 0; result = some filled } ∷ [];
  max_attempts = 3;
  permanent_failure = false;
}

filled_at_once :
    execute_on desk session deployed "BTC/USDT" (units 1) (filled ∷ []) ≡ (ok filled_outcome, [])
unfolding execute_on execute execute_from attempt_once place after_place intended_action order_for
    outcome
filled_at_once = refl

trade-Gives_example :
    Gives
      (report deployed filled_outcome "BTC/USDT" (units 1) (price_bar (some "bybit")))
      (trade desk session deployed long_signal 1000 (filled ∷ []))
trade-Gives_example =
    trade-Gives desk deployed session long_signal 1000 (filled ∷ []) (filled ∷ []) [] "BTC/USDT"
      filled_outcome refl filled_at_once refl

abbrev preview_desk : DryEnv ℤ String ℕ ℕ ℕ String String Script
preview_desk = record {
  live = desk;
  validate_dry_run = λ user req. pure (record {
    strategy_nm = none;
    config_json = record { tm_interval_id = some 6; settings = 0 };
  });
  create = λ app keys paper. pure (record {
    session = session;
    get_last_price = λ symbol. pure (some (units 9));
    key_profile = none;
  });
}

abbrev candidate : DryRunRequest ℤ
candidate = record {
  strategy_id = 2;
  strategy_vid = 3;
  api_credential_id = 4;
  app_id = 5;
  internal_cusip = "btcusdt.crypto";
  qty = units 1;
  paper = true;
}

run_dry_run-Previews_example :
    Previews (run_dry_run (recorded_dry preview_desk) 1 candidate ([], ([], filled ∷ [])))
run_dry_run-Previews_example = run_dry_run-Previews preview_desk 1 candidate (filled ∷ [])
