-- ===== src/Scheduler/Rows.antt =====
-- What one due deployment does on a tick, call by call.
use mathlib.Core.Path.{subst}
use quant_strategies.Prelude.{
  ℕ, zero, suc, ◌+◌, ◌<◌, ◌≡◌, refl, inl, inr, String, false, Option, none, [], ◌∷◌, arith,
  if_ensures, length,
}
use quant_strategies.Prelude.Effects.{Act, Outcome, ok, raised, pure}
use quant_strategies.Order.{Exc}
use quant_strategies.Scheduler.Tick.{
  DueRow, ApplyReport, TickOutcome, abandoned, stuck, TickResult, TickEnv, Verdict, done, failed,
  verdict, needs_fix, next_slot, pause_write, advance, advance_result, auto_pause, after_pause,
  last_or_rest, judge, attempts_from, run_one,
}
use quant_strategies.Scheduler.Calls.{
  Calls, apply_call, pause_call, schedule_call, attempt_ensures, logged, AllRetryable, Traded,
  GaveUp, Went, Retryable, Hopeless, Failed, Accounts,
}

module _ {Q W : Type 0} where
  -- The row has a result of its own, and its calls are those of the outcome.
  abbrev pub Handled : DueRow Q → ℕ → Outcome Exc (TickResult Q) → Calls Q × W → Type 0
  Handled row m (ok r) (calls, w) =
      (r.deployment_id ≡ row.deployment_id) × Accounts row m r.outcome calls
  Handled row m (raised _) s = ⊥

module _ {Q W : Type 0} (env : TickEnv Q W) (row : DueRow Q) (m : ℕ) where
  module _ (outcome : TickOutcome) (calls : Calls Q)
      (moved : Accounts row m outcome (schedule_call (next_slot row) (ok tt) ∷ calls))
      (wedged : (x : Exc)
        → Accounts row m stuck (schedule_call (next_slot row) (raised x) ∷ calls)) where
    advance_result-Handled :
        (k : ℕ) (error : Option String) (position : Option Q) (r : Outcome Exc (Unit {0})) (w : W)
        → Handled {W = W} row m
            (ok (advance_result row outcome k error position r))
            (schedule_call (next_slot row) r ∷ calls, w)
    unfolding advance_result
    advance_result-Handled k error position (ok _) w = (refl, moved)
    advance_result-Handled k error position (raised x) w = (refl, wedged x)

    advance-Handled :
        (k : ℕ) (error : Option String) (position : Option Q) (w : W)
        → let t = advance (logged env) row outcome k error position (calls, w) in
          Handled {W = W} row m t.0 t.1
    unfolding advance logged
    advance-Handled k error position w =
        attempt_ensures (Handled {W = W} row m) (schedule_call (next_slot row)) calls
          (env.sp_ins_deployment_schedule_status (next_slot row) w)
          (λ r. pure (advance_result row outcome k error position r))
          (advance_result-Handled k error position)

  module _ (o : Outcome Exc (ApplyReport Q)) (calls : Calls Q)
      (gave_up : GaveUp m (apply_call o ∷ calls)) where
    after_pause-Handled :
        (k : ℕ) (error : String) (r : Outcome Exc (Unit {0})) (w : W)
        → let t =
            after_pause
              (logged env)
              row
              k
              error
              r
              (pause_call (pause_write row) r ∷ apply_call o ∷ calls, w) in
          Handled {W = W} row m t.0 t.1
    unfolding after_pause
    after_pause-Handled k error (ok _) w = (refl, (refl, gave_up))
    after_pause-Handled k error (raised x) w =
        advance-Handled abandoned (pause_call (pause_write row) (raised x) ∷ apply_call o ∷ calls)
          (refl, refl, gave_up) (λ y. (refl, refl, gave_up)) k _ none w

    auto_pause-Handled :
        (k : ℕ) (error : String) (w : W)
        → let t = auto_pause (logged env) row k error (apply_call o ∷ calls, w) in
          Handled {W = W} row m t.0 t.1
    unfolding auto_pause logged
    auto_pause-Handled k error w =
        attempt_ensures (Handled {W = W} row m) (pause_call (pause_write row))
          (apply_call o ∷ calls) (env.write_deployment (pause_write row) w)
          (after_pause (logged env) row k error) (after_pause-Handled k error)

  judge-Handled :
      (left k : ℕ) (rest : Act (Calls Q × W) Exc (TickResult Q)) (o : Outcome Exc (ApplyReport Q))
      (calls : Calls Q) (w : W) (v : Verdict Q)
      → v ≡ verdict o
      → AllRetryable calls
      → length calls + suc left ≡ m
      → ((calls' : Calls Q)
          → AllRetryable calls'
          → length calls' + left ≡ m
          → 0 < left
          → Handled {W = W} row m (rest (calls', w)).0 (rest (calls', w)).1)
      → let t = judge (logged env) row left k rest v (apply_call o ∷ calls, w) in
        Handled {W = W} row m t.0 t.1
  unfolding judge
  judge-Handled left k rest o calls w (done position) e retried total go_on =
      let traded : Traded m (apply_call o ∷ calls) = (subst Went e tt, retried, omega arith) in
      advance-Handled TickOutcome.applied (apply_call o ∷ calls) (refl, traded)
        (λ x. (refl, traded)) k none position w
  judge-Handled left k rest o calls w (failed error reason) e retried total go_on =
      if_ensures
        (λ (c : Act (Calls Q × W) Exc (TickResult Q)).
          Handled {W = W} row m (c (apply_call o ∷ calls, w)).0 (c (apply_call o ∷ calls, w)).1)
        (needs_fix reason)
        (λ fix.
          auto_pause-Handled o calls
            (subst Failed e tt, retried, omega arith, inl (subst Hopeless e fix)) k error w)
        (λ retry. last left total go_on retry)
    where
      last :
          (left : ℕ)
          → length calls + suc left ≡ m
          → ((calls' : Calls Q)
              → AllRetryable calls'
              → length calls' + left ≡ m
              → 0 < left
              → Handled {W = W} row m (rest (calls', w)).0 (rest (calls', w)).1)
          → needs_fix reason ≡ false
          → let t =
              last_or_rest left
                (auto_pause (logged env) row k error)
                rest
                (apply_call o ∷ calls, w) in
            Handled {W = W} row m t.0 t.1
      last zero total go_on retry =
          unfold last_or_rest in
          auto_pause-Handled o calls (subst Failed e tt, retried, omega arith, inr (omega arith)) k
            error w
      last (suc left) total go_on retry =
          unfold last_or_rest in
          go_on (apply_call o ∷ calls) (subst Retryable e retry, retried) (omega arith)
            (omega arith)

  attempts_from-Handled :
      (left k : ℕ) (calls : Calls Q) (w : W)
      → AllRetryable calls
      → length calls + left ≡ m
      → 0 < left
      → let t = attempts_from (logged env) row left k (calls, w) in Handled {W = W} row m t.0 t.1
  unfolding attempts_from logged
  attempts_from-Handled zero k calls w retried total some_left = absurd (omega arith)
  attempts_from-Handled (suc left) k calls w retried total some_left =
      attempt_ensures (Handled {W = W} row m) apply_call calls
        (env.apply_deployment row.app_user_id row.deployment_id w)
        (λ r.
          judge (logged env) row left k (attempts_from (logged env) row left (suc k)) (verdict r))
        (λ o w'.
          judge-Handled left k (attempts_from (logged env) row left (suc k)) o calls w' (verdict o)
            refl retried total
            (λ calls' retried' total' some_left'.
              attempts_from-Handled left (suc k) calls' w' retried' total' some_left'))

  -- With a budget of at least one attempt, a due row always gets a result of its own, and the calls
  -- behind it are these, in order: applies that failed retryably, within the budget; then either an
  -- apply that went through and one write of the row's own next due time (APPLIED, or STUCK if that
  -- write raised), or a last failed apply, whose reason wants an operator or which spends the
  -- budget, and one write that pauses and disables the deployment (PAUSED), followed by the write of
  -- the next due time only if the pause raised (ABANDONED, or STUCK if that raised too).
  pub run_one-Handled :
      (w : W) → 0 < m → let t = run_one (logged env) m row ([], w) in Handled {W = W} row m t.0 t.1
  unfolding run_one
  run_one-Handled w budget = attempts_from-Handled m 1 [] w tt (omega arith) budget
