-- ===== src/LiveApply/Runs.antt =====
-- What a whole cycle does: which rows it writes around the executor's orders, and what it answers.
use quant_strategies.LiveApply.Steps.{apply_ends}
use quant_strategies.LiveApply.Course.{Course, called_then}
use quant_strategies.Prelude.{ℕ, ◌<◌, inl, refl, [], if_ensures, ap, ◌∙◌}
use native.Mathlib.Omega.{arith}
use quant_strategies.Prelude.Num.{Num}
use quant_strategies.Prelude.Effects.{Act, Outcome, ok, raised}
use quant_strategies.Deployment.{DeploymentRow}
use quant_strategies.LiveApply.{ApplyError, LiveEnv, ApplyReport}
use quant_strategies.LiveApply.Cycle.{run}
use quant_strategies.LiveApply.Records.{Recorded, recorded}
use quant_strategies.LiveApply.Ends.{Backed, Accounted, EndsAt, Ends-Backed}

module _ {Q K C P L X W : Type 0} ⦃n : Num Q⦄ (env : LiveEnv Q K C P L X W) (d : DeploymentRow Q)
    (budget : 0 < env.max_attempts) where
  run_ends :
      (user : ℕ) (w : W)
      → EndsAt (Course env d user w) d env.max_attempts (run (recorded env) user d ([], ([], w)))
  unfolding run
  run_ends user w =
      let Origin = Course env d user w in
      let Good = EndsAt {X = X} {W = W} Origin d env.max_attempts in
      called_then Good _ [] [] w (env.now w)
        (λ tick_at timed has_time.
          if_ensures
            (λ (m : Act (Recorded Q W) (ApplyError X) (ApplyReport Q)). Good (m ([], ([], timed))))
            (env.has_adapter d.app_id)
            (λ _.
              called_then Good _ [] [] timed (env.decrypt_credential user d.api_credential_id timed)
                (λ found unlocked has_found.
                  apply_ends env d budget Origin user tick_at found unlocked
                    (λ keys e s computed has_signal stored has_intent session opened has_session
                        connected has_connected symbol checked o log ended has_symbol has_outcome.
                      record {
                        keys = keys;
                        session = session;
                        timed = timed;
                        unlocked = unlocked;
                        computed = computed;
                        stored = stored;
                        opened = opened;
                        connected = connected;
                        checked = checked;
                        ended = ended;
                        has_time = has_time;
                        has_keys = has_found ∙ ap (λ k. (ok k, unlocked)) e;
                        has_signal = has_signal;
                        has_intent = has_intent;
                        has_session = has_session;
                        has_connected = has_connected;
                        has_symbol = has_symbol;
                        has_outcome = has_outcome;
                      }))
                (λ e u. (tt, omega arith, inl refl)))
            (λ _. (tt, omega arith, inl refl)))
        (λ e v. (tt, omega arith, inl refl))

  -- However a cycle ends, it has placed no more orders than the budget of attempts; one followed another
  -- only after a retryable failure and, where that was an unconfirmed fill with an order id, after a
  -- successful cancel of that very id; and the broker was not called at all unless an intent row was
  -- written. The budget is at least one attempt.
  pub run-Backed :
      (user : ℕ) (w : W)
      → let s = (run (recorded env) user d ([], ([], w))).1 in Backed env.max_attempts s.0 s.1.0
  run-Backed user w =
      let t = run (recorded env) user d ([], ([], w)) in
      Ends-Backed (Course env d user w) d env.max_attempts t.0 t.1.0 t.1.1.0 (run_ends user w)

  -- The account of an answer.
  abbrev pub Answers : ℕ → W → Outcome (ApplyError X) (ApplyReport Q) × Recorded Q W → Type 0
  Answers user w (ok r, s) = Accounted (Course env d user w) d env.max_attempts r s.0 s.1.0
  Answers user w (raised e, s) = Unit

  ends-Answers :
      (user : ℕ) (w : W) (t : Outcome (ApplyError X) (ApplyReport Q) × Recorded Q W)
      → EndsAt (Course env d user w) d env.max_attempts t
      → Answers user w t
  ends-Answers user w (ok r, s) h = h.1
  ends-Answers user w (raised e, s) h = tt

  -- A cycle that answers read the clock, the keys and the signal, stored the intent, opened a session
  -- and named the symbol, each in the world that the call before left, and the executor then ended with
  -- the outcome `o`; the broker received exactly that executor's calls. The cycle has written that one
  -- intent, then one event for each attempt of `o`, and then nothing if no order was due, at most a
  -- transaction for an order that went through, an alert for one that failed; its report is that of
  -- `o`. The budget is at least one attempt.
  pub run-Accounted : (user : ℕ) (w : W) → Answers user w (run (recorded env) user d ([], ([], w)))
  run-Accounted user w =
      ends-Answers user w (run (recorded env) user d ([], ([], w))) (run_ends user w)
