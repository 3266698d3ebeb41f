-- ===== src/Scheduler/Calls.antt =====
-- The calls that a tick makes, newest first: `logged` records them around any environment.
use quant_strategies.Prelude.{◌≡◌, ◌≤◌, ◌⊎◌, ℕ, suc, true, false, List, [], ◌∷◌, length}
use quant_strategies.Prelude.Effects.{Act, Outcome, ok, raised, bind_result, catch_result}
use quant_strategies.Order.{Exc}
use quant_strategies.Scheduler.Tick.{
  DueRow, DeploymentWrite, ScheduleWrite, ApplyReport, TickOutcome, abandoned, stuck, TickEnv,
  Verdict, done, failed, verdict, needs_fix, next_slot, pause_write,
}

pub data Call (Q : Type 0) : Type 0 where
  apply_call : Outcome Exc (ApplyReport Q) → Call Q
  pause_call : DeploymentWrite Q → Outcome Exc (Unit {0}) → Call Q
  schedule_call : ScheduleWrite → Outcome Exc (Unit {0}) → Call Q

abbrev pub Calls : Type 0 → Type 0
Calls Q = List (Call Q)

module _ {Q W : Type 0} where
  abbrev pub note :
      {A : Type 0}
      → (Outcome Exc A → Call Q)
      → Calls Q
      → Outcome Exc A × W
      → Outcome Exc A × (Calls Q × W)
  note e calls (r, w) = (r, (e r ∷ calls, w))

  -- What holds after a recorded call inside `try`, and the rest.
  pub attempt_ensures {ℓ} :
      {A B : Type 0} (P : Outcome Exc B → Calls Q × W → Type ℓ) (e : Outcome Exc A → Call Q)
      (calls : Calls Q) (t : Outcome Exc A × W) (f : Outcome Exc A → Act (Calls Q × W) Exc B)
      → ((r : Outcome Exc A) (w : W) → P (f r (e r ∷ calls, w)).0 (f r (e r ∷ calls, w)).1)
      → P
          (bind_result (catch_result (note e calls t)) f).0
          (bind_result (catch_result (note e calls t)) f).1
  attempt_ensures P e calls (r, w) f h = h r w

  abbrev pub same_rows : {A : Type 0} → Calls Q → Outcome Exc A × W → Outcome Exc A × (Calls Q × W)
  same_rows calls (r, w) = (r, (calls, w))

  unfoldable pub logged : TickEnv Q W → TickEnv Q (Calls Q × W)
  logged env = record {
    sp_get_missed_due_deployments =
        λ interval s. same_rows s.0 (env.sp_get_missed_due_deployments interval s.1);
    apply_deployment = λ uid did s. note apply_call s.0 (env.apply_deployment uid did s.1);
    write_deployment = λ write s. note (pause_call write) s.0 (env.write_deployment write s.1);
    sp_ins_deployment_schedule_status =
        λ write s. note (schedule_call write) s.0 (env.sp_ins_deployment_schedule_status write s.1);
  }

module _ {Q : Type 0} where
  abbrev pub Went : Verdict Q → Type 0
  Went (done _) = Unit
  Went (failed _ _) = ⊥

  abbrev pub Retryable : Verdict Q → Type 0
  Retryable (done _) = ⊥
  Retryable (failed _ reason) = needs_fix reason ≡ false

  abbrev pub Hopeless : Verdict Q → Type 0
  Hopeless (done _) = ⊥
  Hopeless (failed _ reason) = needs_fix reason ≡ true

  abbrev pub Failed : Verdict Q → Type 0
  Failed (done _) = ⊥
  Failed (failed _ _) = Unit

  -- Nothing but applies that failed in a way that may be retried.
  abbrev pub AllRetryable : Calls Q → Type 0
  AllRetryable [] = Unit
  AllRetryable (apply_call o ∷ calls) = Retryable (verdict o) × AllRetryable calls
  AllRetryable (_ ∷ calls) = ⊥

  -- The newest call is an apply that went through, after retryable failures only.
  abbrev pub Traded : ℕ → Calls Q → Type 0
  Traded max_attempts (apply_call o ∷ calls) =
      Went (verdict o) × AllRetryable calls × (suc (length calls) ≤ max_attempts)
  Traded max_attempts _ = ⊥

  -- The newest call is a failed apply after retryable failures only, and it is the last that the
  -- budget allows or its reason wants an operator.
  abbrev pub GaveUp : ℕ → Calls Q → Type 0
  GaveUp max_attempts (apply_call o ∷ calls) =
      Failed (verdict o)
      × AllRetryable calls
      × (suc (length calls) ≤ max_attempts)
      × (Hopeless (verdict o) ⊎ (suc (length calls) ≡ max_attempts))
  GaveUp max_attempts _ = ⊥

  -- The calls behind each outcome of a due row.
  abbrev pub Accounts : DueRow Q → ℕ → TickOutcome → Calls Q → Type 0
  Accounts row m TickOutcome.applied (schedule_call write (ok _) ∷ calls) =
      (write ≡ next_slot row) × Traded m calls
  Accounts row m TickOutcome.paused (pause_call write (ok _) ∷ calls) =
      (write ≡ pause_write row) × GaveUp m calls
  Accounts row m abandoned (schedule_call write (ok _) ∷ pause_call p (raised _) ∷ calls) =
      (write ≡ next_slot row) × (p ≡ pause_write row) × GaveUp m calls
  Accounts row m stuck (schedule_call write (raised _) ∷ pause_call p (raised _) ∷ calls) =
      (write ≡ next_slot row) × (p ≡ pause_write row) × GaveUp m calls
  Accounts row m stuck (schedule_call write (raised _) ∷ apply_call o ∷ calls) =
      (write ≡ next_slot row) × Traded m (apply_call o ∷ calls)
  Accounts row m _ _ = ⊥
