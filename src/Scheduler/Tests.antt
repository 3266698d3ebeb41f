-- ===== src/Scheduler/Tests.antt =====
-- A scripted deployment, a sweep and a drain over two intervals, and the theorems at concrete inputs.
use quant_strategies.Prelude.{
  ℕ, ◌+◌, ◌≡◌, refl, true, false, none, some, List, [], ◌∷◌, arith, ◌==◌, if◌then◌else◌,
}
use quant_strategies.Prelude.Effects.{Act, ok, raised, pure}
use quant_strategies.Order.{Exc}
use quant_strategies.Scheduler.Tick.{
  DueRow, ApplyReport, TickOutcome, TickEnv, verdict, advanced, run_one, attempts_from, judge,
  last_or_rest, advance, advance_result, needs_fix, run_interval, run_rows,
}
use quant_strategies.Scheduler.Sweep.{
  has_stuck, total_advanced, sweep_ids, sweep, drain_pass, drain_from, drain,
}
use quant_strategies.Scheduler.Calls.{logged}
use quant_strategies.Scheduler.Rows.{Handled, run_one-Handled}
use quant_strategies.Scheduler.Passes.{Covers, run_interval-Covers}
use quant_strategies.Scheduler.Sweeps.{SweepsAll, sweep-SweepsAll}

abbrev row : DueRow ℕ
row = record {
  deployment_id = 7;
  deployment_vid = 2;
  app_user_id = 1;
  strategy_id = 3;
  strategy_vid = 1;
  api_credential_id = 4;
  app_id = 5;
  internal_cusip = "btcusdt.crypto";
  qty = 10;
  is_paper_ind = true;
  user_id = "u";
  schedule_tm_interval_id = some 60;
  next_scheduled_ts = 7200;
}

abbrev filled : ApplyReport ℕ
filled = record {
  order_success = some true;
  message = some "order filled";
  reject_reason = none;
  position_qty = some 10;
}

abbrev timeout : Exc
timeout = record { text = "timeout"; reason = none; is_order_not_found = false }

-- The first apply times out, and the later ones fill.
abbrev flaky : TickEnv ℕ ℕ
flaky = record {
  sp_get_missed_due_deployments = λ interval n. (ok (row ∷ []), n);
  apply_deployment = λ user id n. (if n == 0 then raised timeout else ok filled, n + 1);
  write_deployment = λ write n. (ok tt, n);
  sp_ins_deployment_schedule_status = λ write n. (ok tt, n);
}

run_one-Handled_example :
    let t = run_one (logged flaky) 3 row ([], 0) in Handled {W = ℕ} row 3 t.0 t.1
run_one-Handled_example = run_one-Handled flaky row 3 0 (omega arith)

second_attempt_fills :
    (run_one flaky 3 row 0).0
    ≡ ok (record {
      deployment_id = 7;
      outcome = TickOutcome.applied;
      attempt = 2;
      error = none;
      position_qty = some 10;
    })
unfolding run_one attempts_from judge last_or_rest advance advance_result verdict needs_fix
second_attempt_fills = refl

run_interval-Covers_example : Covers flaky 3 60 (ok (row ∷ [])) (run_interval flaky 3 60 0).0
run_interval-Covers_example = run_interval-Covers flaky 3 60 0 (omega arith)

-- The rows of the interval 30 cannot be read.
abbrev half_down : TickEnv ℕ ℕ
half_down = record flaky {
  sp_get_missed_due_deployments =
      λ interval n. (if interval == 30 then raised timeout else ok (row ∷ []), n);
}

abbrev both : Act ℕ Exc (List ℕ)
both = pure (30 ∷ 60 ∷ [])

sweep-SweepsAll_example : SweepsAll half_down 3 (both 0) (sweep half_down 3 both 0)
sweep-SweepsAll_example = sweep-SweepsAll half_down 3 both 0 (omega arith)

-- One cursor moves in the first pass of a drain with one pass.
one_pass : (drain half_down 3 both 1 0).0 ≡ ok 1
unfolding drain drain_from drain_pass sweep sweep_ids run_interval run_rows run_one attempts_from
    judge last_or_rest advance advance_result verdict needs_fix has_stuck total_advanced advanced
one_pass = refl
