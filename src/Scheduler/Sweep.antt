-- ===== src/Scheduler/Sweep.antt =====
-- quant/trade/scheduler/sweep.py and the drain of quant/trade/scheduler/poller.py. The timer loop
-- of the poller and its cancellation are left to the event loop.
use quant_strategies.Prelude.{
  ℕ, zero, suc, ◌+◌, ◌==◌, Bool, true, false, List, [], ◌∷◌, if◌then◌else◌, any, sum_of,
}
use quant_strategies.Prelude.Effects.{Act, Outcome, ok, raised, pure, attempt, ◌>>=◌}
use quant_strategies.Order.{Exc}
use quant_strategies.Scheduler.Tick.{
  TickOutcome, stuck, TickReport, TickEnv, advanced, run_interval,
}

abbrev pub is_stuck : TickOutcome → Bool
is_stuck stuck = true
is_stuck _ = false

module _ {Q : Type 0} where
  -- `ScheduleSweeper.has_stuck`.
  unfoldable pub has_stuck : List (TickReport Q) → Bool
  has_stuck reports = any (λ report. any (λ r. is_stuck r.outcome) report.results) reports

  -- `try: reports.append(...)  except Exception: ...`.
  abbrev pub keep : Outcome Exc (TickReport Q) → List (TickReport Q) → List (TickReport Q)
  keep (ok report) reports = report ∷ reports
  keep (raised _) reports = reports

  unfoldable pub total_advanced : List (TickReport Q) → ℕ
  total_advanced reports = sum_of advanced reports

module _ {Q W : Type 0} (env : TickEnv Q W) (max_attempts : ℕ) where
  -- The loop of `sweep` over the interval ids.
  unfoldable pub sweep_ids : List ℕ → Act W Exc (List (TickReport Q))
  sweep_ids [] = pure []
  sweep_ids (interval ∷ ids) = attempt (run_interval env max_attempts interval) >>= λ r.
      sweep_ids ids >>= λ reports. pure (keep r reports)

  -- `ScheduleSweeper.sweep`, with the interval ids of the reference data as a call.
  unfoldable pub sweep : Act W Exc (List ℕ) → Act W Exc (List (TickReport Q))
  sweep interval_ids = interval_ids >>= sweep_ids

module _ {Q W : Type 0} (env : TickEnv Q W) (max_attempts : ℕ)
    (interval_ids : Act W Exc (List ℕ)) where
  -- `poll_once`: a sweep.
  abbrev poll_once : Act W Exc (List (TickReport Q))
  poll_once = sweep env max_attempts interval_ids

  -- One pass of the drain, with the passes after it.
  unfoldable pub drain_pass : (ℕ → Act W Exc ℕ) → ℕ → List (TickReport Q) → Act W Exc ℕ
  drain_pass rest total reports =
      if has_stuck reports
      then pure total
      else if total_advanced reports == 0
      then pure total
      else rest (total + total_advanced reports)

  -- `SchedulePoller.drain` with `passes` rounds to go and `total` cursors advanced so far.
  unfoldable pub drain_from : ℕ → ℕ → Act W Exc ℕ
  drain_from zero total = pure total
  drain_from (suc passes) total = poll_once >>= drain_pass (drain_from passes) total

  unfoldable pub drain : ℕ → Act W Exc ℕ
  drain max_drain_passes = drain_from max_drain_passes 0
