-- ===== src/Scheduler/Passes.antt =====
-- `ScheduleTickRunner.run_interval` of quant/trade/scheduler/tick.py: which rows its report answers for, and what it may raise.
use quant_strategies.Prelude.{
  ℕ, zero, suc, ◌<◌, ◌≡◌, refl, String, Option, none, List, [], ◌∷◌, map, arith, if_ensures,
}
use quant_strategies.Prelude.Effects.{
  Act, Outcome, ok, raised, pure, bind_result, attempt_only, ◌>>=◌,
}
use quant_strategies.Order.{Exc}
use quant_strategies.Scheduler.Tick.{
  DueRow, TickOutcome, abandoned, TickResult, TickReport, TickEnv, Verdict, done, failed, verdict,
  needs_fix, next_slot, pause_write, advance, advance_result, auto_pause, after_pause, last_or_rest,
  judge, attempts_from, run_one, run_rows, run_interval,
}

module _ {Q W : Type 0} (env : TickEnv Q W) (m : ℕ) where
  -- The call answers for the deployment `id`.
  abbrev Answers : ℕ → Outcome Exc (TickResult Q) → Type 0
  Answers id (ok r) = r.deployment_id ≡ id
  Answers id (raised _) = ⊥

  module _ (row : DueRow Q) where
    advance_result-Answers :
        (outcome : TickOutcome) (k : ℕ) (error : Option String) (position : Option Q)
        (r : Outcome Exc (Unit {0}))
        → Answers row.deployment_id (ok (advance_result row outcome k error position r))
    unfolding advance_result
    advance_result-Answers outcome k error position (ok _) = refl
    advance_result-Answers outcome k error position (raised _) = refl

    advance-Answers :
        (outcome : TickOutcome) (k : ℕ) (error : Option String) (position : Option Q) (w : W)
        → Answers row.deployment_id (advance env row outcome k error position w).0
    unfolding advance
    advance-Answers outcome k error position w =
        attempt_only (Answers row.deployment_id)
          (env.sp_ins_deployment_schedule_status (next_slot row) w)
          (λ r. pure (advance_result row outcome k error position r))
          (λ r w'. advance_result-Answers outcome k error position r)

    after_pause-Answers :
        (k : ℕ) (error : String) (r : Outcome Exc (Unit {0})) (w : W)
        → Answers row.deployment_id (after_pause env row k error r w).0
    unfolding after_pause
    after_pause-Answers k error (ok _) w = refl
    after_pause-Answers k error (raised x) w = advance-Answers abandoned k _ none w

    auto_pause-Answers :
        (k : ℕ) (error : String) (w : W)
        → Answers row.deployment_id (auto_pause env row k error w).0
    unfolding auto_pause
    auto_pause-Answers k error w =
        attempt_only (Answers row.deployment_id) (env.write_deployment (pause_write row) w)
          (after_pause env row k error) (after_pause-Answers k error)

    judge-Answers :
        (left k : ℕ) (rest : Act W Exc (TickResult Q)) (v : Verdict Q) (w : W)
        → (0 < left → Answers row.deployment_id (rest w).0)
        → Answers row.deployment_id (judge env row left k rest v w).0
    unfolding judge last_or_rest
    judge-Answers left k rest (done position) w h =
        advance-Answers TickOutcome.applied k none position w
    judge-Answers zero k rest (failed error reason) w h =
        if_ensures (λ (c : Act W Exc (TickResult Q)). Answers row.deployment_id (c w).0)
          (needs_fix reason) (λ fix. auto_pause-Answers k error w)
          (λ _. auto_pause-Answers k error w)
    judge-Answers (suc left) k rest (failed error reason) w h =
        if_ensures (λ (c : Act W Exc (TickResult Q)). Answers row.deployment_id (c w).0)
          (needs_fix reason) (λ fix. auto_pause-Answers k error w) (λ _. h (omega arith))

    attempts_from-Answers :
        (left k : ℕ) (w : W)
        → 0 < left
        → Answers row.deployment_id (attempts_from env row left k w).0
    unfolding attempts_from
    attempts_from-Answers zero k w h = absurd (omega arith)
    attempts_from-Answers (suc left) k w h =
        attempt_only (Answers row.deployment_id)
          (env.apply_deployment row.app_user_id row.deployment_id w)
          (λ r. judge env row left k (attempts_from env row left (suc k)) (verdict r))
          (λ r w'.
            judge-Answers left k (attempts_from env row left (suc k)) (verdict r) w'
              (attempts_from-Answers left (suc k) w'))

  run_one-Answers :
      (row : DueRow Q) (w : W) → 0 < m → Answers row.deployment_id (run_one env m row w).0
  unfolding run_one
  run_one-Answers row w budget = attempts_from-Answers row m 1 w budget

  abbrev ids : List (DueRow Q) → List ℕ
  ids rows = map (λ row. row.deployment_id) rows

  -- Each row has its own result, in the order of the rows.
  abbrev pub AnswersAll : List ℕ → Outcome Exc (List (TickResult Q)) → Type 0
  AnswersAll due (ok rs) = map (λ r. r.deployment_id) rs ≡ due
  AnswersAll due (raised _) = ⊥

  run_rows-cons :
      (row : DueRow Q) (due : List ℕ) (r : TickResult Q) (t : Outcome Exc (List (TickResult Q)) × W)
      → r.deployment_id ≡ row.deployment_id
      → AnswersAll due t.0
      → AnswersAll (row.deployment_id ∷ due) (bind_result t (λ rs. pure (r ∷ rs))).0
  run_rows-cons row due r (ok rs, w) e h = cc
  run_rows-cons row due r (raised x, w) e h = h

  run_rows-head :
      (row : DueRow Q) (rows : List (DueRow Q)) (t : Outcome Exc (TickResult Q) × W)
      → Answers row.deployment_id t.0
      → ((w : W) → AnswersAll (ids rows) (run_rows env m rows w).0)
      → AnswersAll
          (ids (row ∷ rows))
          (bind_result t (λ r. run_rows env m rows >>= λ rs. pure (r ∷ rs))).0
  run_rows-head row rows (ok r, w) e h =
      run_rows-cons row (ids rows) r (run_rows env m rows w) e (h w)
  run_rows-head row rows (raised x, w) e h = e

  pub run_rows-AnswersAll :
      (rows : List (DueRow Q)) (w : W) → 0 < m → AnswersAll (ids rows) (run_rows env m rows w).0
  unfolding run_rows
  run_rows-AnswersAll [] w budget = refl
  run_rows-AnswersAll (row ∷ rows) w budget =
      run_rows-head row rows (run_one env m row w) (run_one-Answers row w budget)
        (λ w'. run_rows-AnswersAll rows w' budget)

  -- The report of a pass over the rows that the read gave.
  abbrev pub Covers : ℕ → Outcome Exc (List (DueRow Q)) → Outcome Exc (TickReport Q) → Type 0
  Covers interval (ok rows) (ok report) =
      (report.tm_interval_id ≡ interval)
      × (map (λ r. r.deployment_id) report.results ≡ map (λ row. row.deployment_id) rows)
  Covers interval (ok rows) (raised _) = ⊥
  Covers interval (raised x) (ok _) = ⊥
  Covers interval (raised x) (raised y) = x ≡ y

  covered :
      (interval : ℕ) (rows : List (DueRow Q)) (t : Outcome Exc (List (TickResult Q)) × W)
      → AnswersAll (ids rows) t.0
      → Covers interval
          (ok rows)
          (bind_result t
            (λ results. pure (record { tm_interval_id = interval; results = results }))).0
  covered interval rows (ok results, w) h = (refl, h)
  covered interval rows (raised x, w) h = h

  read_then :
      (interval : ℕ) (t : Outcome Exc (List (DueRow Q)) × W)
      → 0 < m
      → Covers interval t.0
          (bind_result t (λ rows. run_rows env m rows >>= λ results.
            pure (record { tm_interval_id = interval; results = results }))).0
  read_then interval (ok rows, w) budget =
      covered interval rows (run_rows env m rows w) (run_rows-AnswersAll rows w budget)
  read_then interval (raised x, w) budget = refl

  -- If at least one attempt is allowed (`0 < max_attempts`), a tick raises only what the read of the
  -- due rows raised. Otherwise its report names the interval
  -- and has one result for each due row, in the order read, however the applies and writes ended.
  pub run_interval-Covers :
      (interval : ℕ) (w : W)
      → 0 < m
      → Covers interval
          (env.sp_get_missed_due_deployments interval w).0
          (run_interval env m interval w).0
  unfolding run_interval
  run_interval-Covers interval w budget =
      read_then interval (env.sp_get_missed_due_deployments interval w) budget
