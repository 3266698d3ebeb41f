-- ===== src/Scheduler/Tick.antt =====
-- quant/trade/scheduler/tick.py: `ScheduleTickRunner`. `attempts_from left k` is the loop of
-- `_run_one` with `left` attempts to go, at `attempt = k`. Waits and log lines change no value.
use Prim.Native.String.{◌++◌ as append}
use quant_strategies.Prelude.{
  ℕ, zero, suc, String, Bool, false, Option, none, some, List, [], ◌∷◌, if◌then◌else◌, length,
  sum_of,
}
use quant_strategies.Prelude.Effects.{Act, Outcome, ok, raised, pure, raise, attempt, ◌>>=◌}
use quant_strategies.Order.{OrderRejectReason, requires_operator_fix, Exc}

pub data DeploymentStatus : Type 0 where
  created active paused stopped : DeploymentStatus

-- A row of `SP_GET_MISSED_DUE_DEPLOYMENTS`. Identifiers are only compared and passed on.
pub record DueRow (Q : Type 0) : Type 0 where
  pub deployment_id : ℕ
  pub deployment_vid : ℕ
  pub app_user_id : ℕ
  pub strategy_id : ℕ
  pub strategy_vid : ℕ
  pub api_credential_id : ℕ
  pub app_id : ℕ
  pub internal_cusip : String
  pub qty : Q
  pub is_paper_ind : Bool
  pub user_id : String
  pub schedule_tm_interval_id : Option ℕ
  pub next_scheduled_ts : ℕ

-- The arguments of `TradeRepo.write_deployment`; the `Y`/`N` columns are Booleans.
pub record DeploymentWrite (Q : Type 0) : Type 0 where
  pub deployment_id : ℕ
  pub app_user_id : ℕ
  pub strategy_id : ℕ
  pub strategy_vid : ℕ
  pub api_credential_id : ℕ
  pub app_id : ℕ
  pub internal_cusip : String
  pub qty : Q
  pub is_paper_ind : Bool
  pub is_enabled_ind : Bool
  pub deployment_status : DeploymentStatus
  pub user_id : String
  pub schedule_tm_interval_id : Option ℕ
  pub initial_scheduled_ts : Option ℕ

-- The arguments of `TradeRepo.sp_ins_deployment_schedule_status`.
pub record ScheduleWrite : Type 0 where
  pub deployment_schedule_id : ℕ
  pub deployment_id : ℕ
  pub deployment_vid : ℕ
  pub status : String
  pub scheduled_ts : ℕ
  pub user_id : String

-- What the tick reads off an `ApplyReport`; a position that is no number reads as `none`.
pub record ApplyReport (Q : Type 0) : Type 0 where
  pub order_success : Option Bool
  pub message : Option String
  pub reject_reason : Option OrderRejectReason
  pub position_qty : Option Q

pub data TickOutcome : Type 0 where
  applied paused abandoned stuck : TickOutcome

pub record TickResult (Q : Type 0) : Type 0 where
  pub deployment_id : ℕ
  pub outcome : TickOutcome
  pub attempt : ℕ
  pub error : Option String
  pub position_qty : Option Q

pub record TickReport (Q : Type 0) : Type 0 where
  pub tm_interval_id : ℕ
  pub results : List (TickResult Q)

-- The repository's procedures and `TradeService.apply_deployment`.
pub record TickEnv (Q W : Type 0) : Type 0 where
  pub sp_get_missed_due_deployments : ℕ → Act W Exc (List (DueRow Q))
  pub apply_deployment : ℕ → ℕ → Act W Exc (ApplyReport Q)
  pub write_deployment : DeploymentWrite Q → Act W Exc (Unit {0})
  pub sp_ins_deployment_schedule_status : ScheduleWrite → Act W Exc (Unit {0})

-- How an attempt went, as the loop of `_run_one` reads it.
pub data Verdict (Q : Type 0) : Type 0 where
  done : Option Q → Verdict Q
  failed : String → Option OrderRejectReason → Verdict Q

abbrev moves_cursor : TickOutcome → ℕ
moves_cursor TickOutcome.applied = 1
moves_cursor abandoned = 1
moves_cursor _ = 0

-- `getattr(report, "message", None) or "order failed"`.
unfoldable pub failure_message : Option String → String
failure_message none = "order failed"
failure_message (some String.[]) = "order failed"
failure_message (some (String.◌∷◌ c s)) = String.◌∷◌ c s

-- `reason is not None and reason.requires_operator_fix`.
unfoldable pub needs_fix : Option OrderRejectReason → Bool
needs_fix none = false
needs_fix (some r) = requires_operator_fix r

module _ {Q : Type 0} where
  report_verdict : Option Bool → ApplyReport Q → Verdict Q
  unfolding failure_message
  report_verdict (some false) r = failed (failure_message r.message) r.reject_reason
  report_verdict _ r = done r.position_qty

  -- `_failed_order`, and the `except` branch that reads a raised error.
  unfoldable pub verdict : Outcome Exc (ApplyReport Q) → Verdict Q
  unfolding report_verdict
  verdict (ok r) = report_verdict r.order_success r
  verdict (raised x) = failed x.text x.reason

  -- `TickReport.due` and `TickReport.advanced`.
  unfoldable pub due : TickReport Q → ℕ
  due report = length report.results

  unfoldable pub advanced : TickReport Q → ℕ
  advanced report = sum_of (λ r. moves_cursor r.outcome) report.results

  -- The cursor moves to the row's own next due time.
  unfoldable pub next_slot : DueRow Q → ScheduleWrite
  next_slot row = record {
    deployment_schedule_id = row.deployment_id;
    deployment_id = row.deployment_id;
    deployment_vid = row.deployment_vid;
    status = "PENDING";
    scheduled_ts = row.next_scheduled_ts;
    user_id = row.user_id;
  }

  unfoldable pub advance_result :
      DueRow Q → TickOutcome → ℕ → Option String → Option Q → Outcome Exc (Unit {0}) → TickResult Q
  advance_result row outcome k error position (ok _) = record {
    deployment_id = row.deployment_id;
    outcome = outcome;
    attempt = k;
    error = error;
    position_qty = position;
  }
  advance_result row outcome k error position (raised x) = record {
    deployment_id = row.deployment_id;
    outcome = stuck;
    attempt = k;
    error = some x.text;
    position_qty = position;
  }

  unfoldable pub pause_write : DueRow Q → DeploymentWrite Q
  pause_write row = record {
    deployment_id = row.deployment_id;
    app_user_id = row.app_user_id;
    strategy_id = row.strategy_id;
    strategy_vid = row.strategy_vid;
    api_credential_id = row.api_credential_id;
    app_id = row.app_id;
    internal_cusip = row.internal_cusip;
    qty = row.qty;
    is_paper_ind = row.is_paper_ind;
    is_enabled_ind = false;
    deployment_status = DeploymentStatus.paused;
    user_id = row.user_id;
    schedule_tm_interval_id = row.schedule_tm_interval_id;
    initial_scheduled_ts = none;
  }

module _ {Q W : Type 0} where
  -- After the last attempt the loop falls through to `_auto_pause`.
  unfoldable pub last_or_rest :
      ℕ → Act W Exc (TickResult Q) → Act W Exc (TickResult Q) → Act W Exc (TickResult Q)
  last_or_rest zero stop rest = stop
  last_or_rest (suc _) stop rest = rest

module _ {Q W : Type 0} (env : TickEnv Q W) where
  -- `_advance`.
  unfoldable pub advance :
      DueRow Q → TickOutcome → ℕ → Option String → Option Q → Act W Exc (TickResult Q)
  advance row outcome k error position =
      attempt (env.sp_ins_deployment_schedule_status (next_slot row)) >>= λ r.
      pure (advance_result row outcome k error position r)

  unfoldable pub after_pause :
      DueRow Q → ℕ → String → Outcome Exc (Unit {0}) → Act W Exc (TickResult Q)
  after_pause row k error (ok _) = pure (record {
    deployment_id = row.deployment_id;
    outcome = TickOutcome.paused;
    attempt = k;
    error = some error;
    position_qty = none;
  })
  after_pause row k error (raised x) =
      advance row abandoned k (some (append error (append "; pause failed: " x.text))) none

  -- `_auto_pause`.
  unfoldable pub auto_pause : DueRow Q → ℕ → String → Act W Exc (TickResult Q)
  auto_pause row k error =
      attempt (env.write_deployment (pause_write row)) >>= after_pause row k error

  unfoldable pub judge :
      DueRow Q → ℕ → ℕ → Act W Exc (TickResult Q) → Verdict Q → Act W Exc (TickResult Q)
  judge row left k rest (done position) = advance row TickOutcome.applied k none position
  judge row left k rest (failed error reason) =
      if needs_fix reason
      then auto_pause row k error
      else last_or_rest left (auto_pause row k error) rest

  unfoldable pub attempts_from : DueRow Q → ℕ → ℕ → Act W Exc (TickResult Q)
  attempts_from row zero k =
      raise
        (record { text = "local variable 'attempt'"; reason = none; is_order_not_found = false })
  attempts_from row (suc left) k =
      attempt (env.apply_deployment row.app_user_id row.deployment_id) >>= λ r.
      judge row left k (attempts_from row left (suc k)) (verdict r)

  -- `_run_one`.
  unfoldable pub run_one : ℕ → DueRow Q → Act W Exc (TickResult Q)
  run_one max_attempts row = attempts_from row max_attempts 1

  -- `[self._run_one(row) for row in rows]`.
  unfoldable pub run_rows : ℕ → List (DueRow Q) → Act W Exc (List (TickResult Q))
  run_rows max_attempts [] = pure []
  run_rows max_attempts (row ∷ rows) =
      run_one max_attempts row >>= λ r. run_rows max_attempts rows >>= λ rs. pure (r ∷ rs)

  unfoldable pub run_interval : ℕ → ℕ → Act W Exc (TickReport Q)
  run_interval max_attempts interval = env.sp_get_missed_due_deployments interval >>= λ rows.
      run_rows max_attempts rows >>= λ results.
      pure (record { tm_interval_id = interval; results = results })
