-- ===== src/Scheduler/Sweeps.antt =====
-- `ScheduleSweeper.sweep` of quant/trade/scheduler/sweep.py, interval by interval.
use quant_strategies.Prelude.{ℕ, ◌<◌, ◌≡◌, refl, List, [], ◌∷◌, map}
use quant_strategies.Prelude.Effects.{
  Act, Outcome, ok, raised, pure, bind_result, catch_result, ◌>>=◌,
}
use quant_strategies.Order.{Exc}
use quant_strategies.Scheduler.Tick.{
  DueRow, TickResult, TickReport, TickEnv, run_rows, run_interval,
}
use quant_strategies.Scheduler.Passes.{AnswersAll, run_rows-AnswersAll}
use quant_strategies.Scheduler.Sweep.{keep, sweep_ids, sweep}

module _ {Q W : Type 0} (env : TickEnv Q W) (m : ℕ) where
  -- The first report is of this interval and these rows, in the order read, and `Rest` goes on with
  -- the others from the world `w`.
  abbrev Reported :
      ℕ → (List (TickReport Q) → W → Type 0) → List (DueRow Q) → W → List (TickReport Q) → Type 0
  Reported interval Rest rows w [] = ⊥
  Reported interval Rest rows w (report ∷ later) =
      (report.tm_interval_id ≡ interval)
      × (map (λ r. r.deployment_id) report.results ≡ map (λ row. row.deployment_id) rows)
      × Rest later w

  -- The reports from one interval on, after the read of its rows: a read that raised leaves no report
  -- of the interval, and one that did not leaves one, after all its rows were run.
  abbrev AfterRead :
      ℕ
      → (List (TickReport Q) → W → Type 0)
      → List (TickReport Q)
      → Outcome Exc (List (DueRow Q)) × W
      → Type 0
  AfterRead interval Rest reports (raised x, w) = Rest reports w
  AfterRead interval Rest reports (ok rows, w) =
      Reported interval Rest rows (run_rows env m rows w).1 reports

  -- The reports of a sweep over the intervals, from the world `w` to the world `w'`.
  abbrev Swept : List ℕ → W → List (TickReport Q) → W → Type 0
  Swept [] w' reports w = (reports ≡ []) × (w ≡ w')
  Swept (interval ∷ ids) w' reports w =
      AfterRead interval (Swept ids w') reports (env.sp_get_missed_due_deployments interval w)

  -- A call that comes back with the reports of a sweep that began in `w`.
  abbrev Sweeps : List ℕ → W → Outcome Exc (List (TickReport Q)) × W → Type 0
  Sweeps ids w (ok reports, w') = Swept ids w' reports w
  Sweeps ids w (raised _, w') = ⊥

  -- The same from the read of an interval's rows on, and from the end of its rows on.
  abbrev From :
      List ℕ
      → ℕ
      → Outcome Exc (List (DueRow Q)) × W
      → Outcome Exc (List (TickReport Q)) × W
      → Type 0
  From ids interval t (ok reports, w') = AfterRead interval (Swept ids w') reports t
  From ids interval t (raised _, w') = ⊥

  abbrev Ran : List ℕ → ℕ → List (DueRow Q) → W → Outcome Exc (List (TickReport Q)) × W → Type 0
  Ran ids interval rows w (ok reports, w') = Reported interval (Swept ids w') rows w reports
  Ran ids interval rows w (raised _, w') = ⊥

  -- A sweep raises only what the read of the interval ids raised.
  abbrev pub SweepsAll : Outcome Exc (List ℕ) × W → Outcome Exc (List (TickReport Q)) × W → Type 0
  SweepsAll (ok ids, w) t = Sweeps ids w t
  SweepsAll (raised x, w) t = t ≡ (raised x, w)

  -- What is left of the sweep after an interval without a report.
  none_kept :
      (ids : List ℕ) (interval : ℕ) (x : Exc) (w : W) (u : Outcome Exc (List (TickReport Q)) × W)
      → Sweeps ids w u
      → From ids interval (raised x, w) (bind_result u (λ reports. pure reports))
  none_kept ids interval x w (ok reports, v) h = h
  none_kept ids interval x w (raised y, v) h = h

  one_kept :
      (ids : List ℕ) (interval : ℕ) (rows : List (DueRow Q)) (report : TickReport Q) (w : W)
      (u : Outcome Exc (List (TickReport Q)) × W)
      → report.tm_interval_id ≡ interval
      → map (λ r. r.deployment_id) report.results ≡ map (λ row. row.deployment_id) rows
      → Sweeps ids w u
      → Ran ids interval rows w (bind_result u (λ reports. pure (report ∷ reports)))
  one_kept ids interval rows report w (ok reports, v) e f h = (e, f, h)
  one_kept ids interval rows report w (raised y, v) e f h = h

  rows_then :
      (ids : List ℕ) (interval : ℕ) (rows : List (DueRow Q))
      (s : Outcome Exc (List (TickResult Q)) × W)
      → AnswersAll env m (map (λ row. row.deployment_id) rows) s.0
      → ((v : W) → Sweeps ids v (sweep_ids env m ids v))
      → Ran ids interval rows s.1 (
          bind_result
            (catch_result (
              bind_result s
                (λ results. pure (record { tm_interval_id = interval; results = results }))))
            (λ r. sweep_ids env m ids >>= λ reports. pure (keep r reports)))
  rows_then ids interval rows (ok results, w) answers rest =
      let report : TickReport Q = record { tm_interval_id = interval; results = results } in
      one_kept ids interval rows report w (sweep_ids env m ids w) refl answers (rest w)
  rows_then ids interval rows (raised x, w) answers rest = absurd answers

  interval_then :
      (ids : List ℕ) (interval : ℕ) (t : Outcome Exc (List (DueRow Q)) × W)
      → 0 < m
      → ((v : W) → Sweeps ids v (sweep_ids env m ids v))
      → From ids interval t (
          bind_result
            (catch_result (
              bind_result t (λ rows. run_rows env m rows >>= λ results.
              pure (record { tm_interval_id = interval; results = results }))))
            (λ r. sweep_ids env m ids >>= λ reports. pure (keep r reports)))
  interval_then ids interval (raised x, w) budget rest =
      none_kept ids interval x w (sweep_ids env m ids w) (rest w)
  interval_then ids interval (ok rows, w) budget rest =
      rows_then ids interval rows (run_rows env m rows w) (run_rows-AnswersAll env m rows w budget)
        rest

  sweep_ids-Sweeps : (ids : List ℕ) (w : W) → 0 < m → Sweeps ids w (sweep_ids env m ids w)
  unfolding sweep_ids run_interval
  sweep_ids-Sweeps [] w budget = (refl, refl)
  sweep_ids-Sweeps (interval ∷ ids) w budget =
      interval_then ids interval (env.sp_get_missed_due_deployments interval w) budget
        (λ v. sweep_ids-Sweeps ids v budget)

  -- If at least one attempt is allowed, a sweep raises only what the read of the interval ids raised.
  -- Otherwise it has gone through every interval in turn: one whose read of the due rows raised has no
  -- report and the next one follows; each other has one report, which names it and answers for each
  -- of its due rows, in the order read.
  pub sweep-SweepsAll :
      (interval_ids : Act W Exc (List ℕ)) (w : W)
      → 0 < m
      → SweepsAll (interval_ids w) (sweep env m interval_ids w)
  unfolding sweep
  sweep-SweepsAll interval_ids w budget = ids_then (interval_ids w)
    where
      ids_then : (t : Outcome Exc (List ℕ) × W) → SweepsAll t (bind_result t (sweep_ids env m))
      ids_then (ok ids, v) = sweep_ids-Sweeps ids v budget
      ids_then (raised x, v) = refl
