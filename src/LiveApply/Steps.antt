-- ===== src/LiveApply/Steps.antt =====
-- How a cycle ends, from the executor outwards: the traded session, its creation, the intent before it.
use quant_strategies.Order.{Exc}
use quant_strategies.LiveApply.Course.{
  TradeOrigin, SessionOrigin, CreateOrigin, IntentOrigin, ApplyOrigin, called_then, quiet_gives,
}
use quant_strategies.Prelude.{
  ℕ, ◌≡◌, ◌≤◌, ◌<◌, inl, inr, refl, sym, String, true, Option, none, some, [], ◌∷◌, ap,
}
use mathlib.Core.Path.{subst}
use native.Mathlib.Omega.{arith}
use quant_strategies.Prelude.Num.{Num}
use quant_strategies.Prelude.Effects.{Act, Outcome, ok, raised, pure, bind_result, ◌>>=◌, ◌>>◌}
use quant_strategies.OrderPolicy.{OrderRetryResult}
use quant_strategies.OrderPolicy.Attempts.{execute}
use quant_strategies.OrderPolicy.Trace.{Log, logged, IsSafe, placements}
use quant_strategies.OrderPolicy.Safety.{execute-IsSafe}
use quant_strategies.OrderPolicy.Final.{IsAccount, execute-Returns}
use quant_strategies.OrderPolicy.Keeps.{execute_kept}
use quant_strategies.Deployment.{DeploymentRow}
use quant_strategies.LiveApply.{ApplyError, LiveEnv, SignalRead, Session, ApplyReport}
use quant_strategies.LiveApply.Cycle.{
  intent_row, report, finally, settle, execute_on, trade, with_session, apply_with, compute_signal,
  let_through,
}
use quant_strategies.LiveApply.Records.{
  intended, Ledger, Recorded, quiet, beside, recorded_session, entered, session_or, recorded,
  compute_signal-Quiet,
}
use quant_strategies.LiveApply.Accounts.{Audited, audit_attempts-Writes, Settling, settle-Settling}
use quant_strategies.LiveApply.Ends.{
  HasIntent, Backed, intent-Audited, intent-Settled, Accounted, EndsAt, closed-Ends, Executed,
  raises_any, ledger_kept, execute-Executed,
}

module _ {Q K C P L X W : Type 0} ⦃n : Num Q⦄ (env : LiveEnv Q K C P L X W) (d : DeploymentRow Q)
    (budget : 0 < env.max_attempts)
    (Origin : OrderRetryResult Q → SignalRead Q → ℕ → String → Log Q → Type 0) where
  ran-Executed :
      (b : Session Q X W) (symbol : String) (signal : Q) (led : Ledger Q) (w : W)
      → Executed env.max_attempts led
          (execute (logged (beside b.adapter)) symbol signal d.qty env.max_attempts ([], (led, w)))
  ran-Executed b symbol signal led w =
      let a = logged (beside b.adapter) in
      let safe = execute-IsSafe (beside b.adapter) symbol signal d.qty env.max_attempts (led, w) in
      execute-Executed b d env.max_attempts led
        (execute a symbol signal d.qty env.max_attempts ([], (led, w))) safe.0 safe.1
        (execute_kept (λ (s : Recorded Q W). s.1.0 ≡ led) a (ledger_kept b d env.max_attempts led)
          symbol signal d.qty env.max_attempts ([], (led, w)) refl)
        (execute-Returns (λ _. Unit {0}) a (raises_any b d env.max_attempts) symbol signal d.qty
          env.max_attempts ([], (led, w)) budget)

  Executed-then :
      (led : Ledger Q) (t : Outcome Exc (OrderRetryResult Q) × Recorded Q W)
      (f : OrderRetryResult Q → Act (Recorded Q W) (ApplyError X) (ApplyReport Q))
      → HasIntent led
      → Executed env.max_attempts led t
      → ((o : OrderRetryResult Q) (log : Log Q) (w : W)
          → IsSafe log
          → placements log ≤ env.max_attempts
          → IsAccount env.max_attempts o
          → t ≡ (ok o, (log, (led, w)))
          → EndsAt Origin d env.max_attempts (f o (log, (led, w))))
      → EndsAt Origin d env.max_attempts (bind_result (let_through t) f)
  Executed-then led (ok o, (log, (led', w))) f h (safe, few, same, account) rest =
      subst (λ l. EndsAt Origin d env.max_attempts (f o (log, (l, w)))) (sym same)
        (rest o log w safe few account (ap (λ l. (ok o, (log, (l, w)))) same))
  Executed-then led (raised e, (log, (led', w))) f h (safe, few, same) rest =
      (safe, few, inr (subst HasIntent (sym same) h))

  answered :
      (r : Outcome (ApplyError X) (Unit {0})) (log : Log Q) (led : Ledger Q) (w : W)
      (rep : ApplyReport Q)
      → Backed env.max_attempts log led
      → Accounted Origin d env.max_attempts rep log led
      → EndsAt Origin d env.max_attempts (bind_result (r, (log, (led, w))) (λ _. pure rep))
  answered (ok _) log led w rep backed account = (backed, account)
  answered (raised e) log led w rep backed account = backed

  settled_then :
      (o : OrderRetryResult Q) (s : SignalRead Q) (tick_at : ℕ) (symbol : String) (log : Log Q)
      (audits : Ledger Q) (t : Outcome (ApplyError X) (Unit {0}) × Recorded Q W)
      → IsSafe log
      → placements log ≤ env.max_attempts
      → IsAccount env.max_attempts o
      → Audited d s.signal tick_at o.attempts (intended (intent_row d s tick_at) true ∷ []) audits
      → Origin o s tick_at symbol log
      → Settling env d o symbol s.signal o.result log audits t
      → EndsAt Origin d env.max_attempts
          (bind_result t (λ _. pure (report d o symbol s.signal s.bar_source)))
  settled_then o s tick_at symbol log audits (r, at) safe few account events origin settling =
      let written = intent-Audited d s.signal tick_at o.attempts _ audits events tt in
      let has = intent-Settled d o symbol s.signal o.result audits settling.0 settling.2 written in
      let backed : Backed env.max_attempts log settling.0 = (safe, few, inr has) in
      subst
        (λ (u : Recorded Q W).
          EndsAt Origin d env.max_attempts
            (bind_result (r, u) (λ _. pure (report d o symbol s.signal s.bar_source))))
        (sym settling.3)
        (answered r log settling.0 settling.1 (report d o symbol s.signal s.bar_source) backed
          (record {
            outcome = o;
            read = s;
            tick_at = tick_at;
            symbol = symbol;
            audits = audits;
            origin = origin;
            account = account;
            audited_all = events;
            settled_it = settling.2;
            answer = refl;
          }))

  trade_ends :
      (b : Session Q X W) (s : SignalRead Q) (tick_at : ℕ) (w : W)
      → TradeOrigin env d Origin b s tick_at w
      → EndsAt Origin d env.max_attempts (
          trade
            (recorded env)
            (recorded_session b)
            d
            s
            tick_at
            ([], (intended (intent_row d s tick_at) true ∷ [], w)))
  unfolding trade execute_on
  trade_ends b s tick_at w up =
      let led = intended (intent_row d s tick_at) true ∷ [] in
      called_then (EndsAt Origin d env.max_attempts) _ [] led w
        (b.validate_for_dry_run d.internal_cusip d.app_id w)
        (λ symbol v named.
          Executed-then led
            (execute (logged (beside b.adapter)) symbol s.signal d.qty env.max_attempts
              ([], (led, v)))
            _ tt (ran-Executed b symbol s.signal led v)
            (λ o log u safe few account ran.
              let wrote = audit_attempts-Writes env d s.signal tick_at o.attempts log led u in
              subst
                (λ t. EndsAt Origin d env.max_attempts (
                  bind_result t (λ _.
                    settle (recorded env) d o symbol s.signal o.result
                    >> pure (report d o symbol s.signal s.bar_source))))
                (sym wrote.3)
                (settled_then o s tick_at symbol log wrote.0
                  (settle (recorded env) d o symbol s.signal o.result (log, (wrote.0, wrote.1)))
                  safe few account wrote.2 (up symbol v o log u named ran)
                  (settle-Settling env d o symbol s.signal o.result log wrote.0 wrote.1))))
        (λ e v. (tt, omega arith, inl refl))

  session_ends :
      (b : Session Q X W) (s : SignalRead Q) (tick_at : ℕ) (w : W)
      → SessionOrigin env d Origin b s tick_at w
      → EndsAt Origin d env.max_attempts (
          with_session
            (recorded env)
            (recorded_session b)
            d
            s
            tick_at
            ([], (intended (intent_row d s tick_at) true ∷ [], w)))
  unfolding with_session
  session_ends b s tick_at w up =
      let led = intended (intent_row d s tick_at) true ∷ [] in
      called_then (EndsAt Origin d env.max_attempts) _ [] led w (b.connect w)
        (λ u v reached.
          left_ends (trade (recorded env) (recorded_session b) d s tick_at ([], (led, v)))
            (trade_ends b s tick_at v (up v reached)))
        (λ e v. (tt, omega arith, inl refl))
    where
      left_ends :
          (t : Outcome (ApplyError X) (ApplyReport Q) × Recorded Q W)
          → EndsAt Origin d env.max_attempts t
          → EndsAt Origin d env.max_attempts (finally t (λ u. quiet u (b.disconnect u.1.1)))
      left_ends (r, (log, (led, v))) h =
          closed-Ends Origin d env.max_attempts r log led (b.disconnect v).0 (b.disconnect v).1 h

  created_ends :
      (s : SignalRead Q) (tick_at : ℕ) (t : Outcome (ApplyError X) (Session Q X W) × W)
      → CreateOrigin env d Origin s tick_at t
      → EndsAt Origin d env.max_attempts (
          bind_result
            (session_or t.0, ([], (intended (intent_row d s tick_at) true ∷ [], t.1)))
            (λ b. with_session (recorded env) b d s tick_at))
  created_ends s tick_at (ok b, w) up = session_ends b s tick_at w (up b w refl)
  created_ends s tick_at (raised e, w) up = (tt, omega arith, inl refl)

  intended_ends :
      (s : SignalRead Q) (tick_at : ℕ) (keys : K) (t : Outcome (ApplyError X) (Unit {0}) × W)
      → IntentOrigin env d Origin s tick_at keys t
      → EndsAt Origin d env.max_attempts (
          bind_result (entered (intended (intent_row d s tick_at)) ([], ([], t.1)) t) (λ _.
            (recorded env).create d.app_id keys d.is_paper_ind
            >>= (λ b. with_session (recorded env) b d s tick_at)))
  intended_ends s tick_at keys (ok _, w) up =
      created_ends s tick_at (env.create d.app_id keys d.is_paper_ind w) (up w refl)
  intended_ends s tick_at keys (raised e, w) up = (tt, omega arith, inl refl)

  pub apply_ends :
      (user tick_at : ℕ) (keys : Option K) (w : W)
      → ((k : K) → keys ≡ some k → ApplyOrigin env d Origin tick_at k w)
      → EndsAt Origin d env.max_attempts
          (apply_with (recorded env) user d tick_at keys ([], ([], w)))
  unfolding apply_with
  apply_ends user tick_at none w up = (tt, omega arith, inl refl)
  apply_ends user tick_at (some keys) w up =
      quiet_gives (EndsAt Origin d env.max_attempts) _ [] [] (compute_signal (recorded env) d) w
        (compute_signal-Quiet env d)
        (λ s v e.
          intended_ends s tick_at keys (env.sp_ins_intent (intent_row d s tick_at) v)
            (up keys refl s v e))
        (λ e v. (tt, omega arith, inl refl))
