-- ===== src/LiveApply/Preview.antt =====
-- What a preview asks of the broker, and what it intends. The price-bar service, which may store bars
-- while the signal is computed, is inside the call `compute_latest_position` and is not recorded.
use mathlib.Core.Path.{subst}
use quant_strategies.Prelude.{ℕ, ◌≡◌, refl, sym, String, Option, none, some, [], ◌∷◌, if_ensures}
use quant_strategies.Prelude.Num.{Num}
use quant_strategies.Prelude.Effects.{Act, Outcome, ok, raised, pure, attempt, bind_result, ◌>>=◌}
use quant_strategies.Order.{Exc}
use quant_strategies.OrderPolicy.{intended_action}
use quant_strategies.OrderPolicy.Trace.{read, Log, logged}
use quant_strategies.LiveApply.{ApplyError, BarSource}
use quant_strategies.LiveApply.Cycle.{
  let_through, closed, finally, as_validation, fitted, resolve_signal_source,
}
use quant_strategies.LiveApply.Records.{
  Ledger, Recorded, quiet, recorded_session, recorded, Quiet, quiet_then, bind-Quiet, Quiet-fitted,
  Quiet-resolve, Quiet-latest,
}
use quant_strategies.LiveApply.DryRun.{
  DryRunRequest, StrategyRow, DryRunReport, DrySession, DryEnv, dry_report, broker_report,
  with_dry_session, preview_signal, dry_with, run_dry_run,
}

module _ {Q KP X W : Type 0} where
  abbrev recorded_dry_session : DrySession Q KP X W → DrySession Q KP X (Recorded Q W)
  recorded_dry_session b = record {
    session = recorded_session b.session;
    get_last_price = λ symbol s. quiet s (b.get_last_price symbol s.1.1);
    key_profile = b.key_profile;
  }

  abbrev dry_session_or :
      Outcome (ApplyError X) (DrySession Q KP X W)
      → Outcome (ApplyError X) (DrySession Q KP X (Recorded Q W))
  dry_session_or (ok b) = ok (recorded_dry_session b)
  dry_session_or (raised e) = raised e

module _ {Q K C P L KP X W : Type 0} where
  abbrev pub recorded_dry : DryEnv Q K C P L KP X W → DryEnv Q K C P L KP X (Recorded Q W)
  recorded_dry env = record {
    live = recorded env.live;
    validate_dry_run = λ user req s. quiet s (env.validate_dry_run user req s.1.1);
    create = λ app keys paper s.
        let t = env.create app keys paper s.1.1 in (dry_session_or t.0, (s.0, (s.1.0, t.1)));
  }

module _ {Q : Type 0} where
  abbrev pub OnlyReads : Log Q → Type 0
  OnlyReads [] = Unit
  OnlyReads (read _ ∷ log) = OnlyReads log
  OnlyReads (_ ∷ log) = ⊥

module _ {Q KP X W : Type 0} ⦃n : Num Q⦄ where
  -- Nothing is placed or cancelled, no intent, event or transaction is stored and no alert is sent; an
  -- answer has read the book once, and intends what the order policy intends for that position.
  abbrev pub Previews : Outcome (ApplyError X) (DryRunReport Q KP) × Recorded Q W → Type 0
  Previews (ok r, s) =
      (s.0 ≡ read (ok r.position_qty) ∷ [])
      × (s.1.0 ≡ [])
      × (r.intended_side ≡ intended_action r.signal r.position_qty)
  Previews (raised e, s) = OnlyReads s.0 × (s.1.0 ≡ [])

  -- The end of a session, after an answer that read the book or a failure.
  closed-Previews :
      (r : Outcome (ApplyError X) (DryRunReport Q KP)) (log : Log Q) (led : Ledger Q) (w v : W)
      (x : Outcome (ApplyError X) (Unit {0}))
      → Previews (r, (log, (led, w)))
      → Previews (closed r (x, (log, (led, v))))
  closed-Previews (ok r) log led w v (ok _) h = h
  closed-Previews (ok r) log led w v (raised e) h = (subst OnlyReads (sym h.0) tt, h.1)
  closed-Previews (raised e) log led w v (ok _) h = h
  closed-Previews (raised e) log led w v (raised _) h = h

module _ {Q K C P L KP X W : Type 0} ⦃n : Num Q⦄ (env : DryEnv Q K C P L KP X W) where
  report-Previews :
      (b : DrySession Q KP X W) (req : DryRunRequest Q) (row : StrategyRow C) (latest : Q × String)
      (source : BarSource) (w : W)
      → Previews (
          broker_report
            (recorded_dry env)
            (recorded_dry_session b)
            req
            row
            latest
            source
            ([], ([], w)))
  unfolding broker_report logged
  report-Previews b req row latest source w =
      quiet_then Previews
        (λ s. quiet s (b.session.validate_for_dry_run req.internal_cusip req.app_id s.1.1)) _ [] []
        w (λ log led w. (_, _, refl))
        (λ symbol v. booked symbol (b.session.adapter.get_position_qty symbol v))
        (λ e v. (tt, refl))
    where
      booked :
          (symbol : String) (t : Outcome Exc Q × W)
          → Previews (
              bind_result (let_through (t.0, (read t.0 ∷ [], ([], t.1)))) (λ p.
                (λ s. quiet s (b.get_last_price symbol s.1.1)) >>= (λ price. pure (
                  dry_report
                    (recorded_dry env)
                    req
                    row
                    latest
                    source
                    b.key_profile
                    symbol
                    p
                    price))))
      booked symbol (ok p, v) =
          quiet_then Previews (λ s. quiet s (b.get_last_price symbol s.1.1)) _ (read (ok p) ∷ []) []
            v (λ log led w. (_, _, refl)) (λ price u. (refl, refl, refl)) (λ e u. (tt, refl))
      booked symbol (raised e, v) = (tt, refl)

  session-Previews :
      (req : DryRunRequest Q) (row : StrategyRow C) (latest : Q × String) (source : BarSource)
      (t : Outcome (ApplyError X) (DrySession Q KP X W) × W)
      → Previews (
          bind_result
            (dry_session_or t.0, ([], ([], t.1)))
            (with_dry_session (recorded_dry env) req row latest source))
  unfolding with_dry_session
  session-Previews req row latest source (ok b, w) =
      quiet_then Previews (λ s. quiet s (b.session.connect s.1.1)) _ [] [] w
        (λ log led w. (_, _, refl))
        (λ _ v.
          left
            (broker_report (recorded_dry env) (recorded_dry_session b) req row latest source
              ([], ([], v)))
            (report-Previews b req row latest source v))
        (λ e v. (tt, refl))
    where
      left :
          (t : Outcome (ApplyError X) (DryRunReport Q KP) × Recorded Q W)
          → Previews t
          → Previews (finally t (λ s. quiet s (b.session.disconnect s.1.1)))
      left (r, (log, (led, v))) h =
          closed-Previews r log led v (b.session.disconnect v).1 (b.session.disconnect v).0 h
  session-Previews req row latest source (raised e, w) = (tt, refl)

  preview_signal-Quiet :
      (req : DryRunRequest Q) (row : StrategyRow C)
      → Quiet (preview_signal (recorded_dry env) req row)
  unfolding preview_signal
  preview_signal-Quiet req row =
      bind-Quiet ((recorded env.live).fetch_result_payload req.strategy_id req.strategy_vid) _
        (λ log led w. (_, _, refl))
        (λ payload.
          bind-Quiet (fitted row.config_json.tm_interval_id) _
            (Quiet-fitted env.live row.config_json.tm_interval_id)
            (λ id.
              bind-Quiet (resolve_signal_source (recorded env.live) req.app_id none id) _
                (Quiet-resolve env.live req.app_id none id)
                (λ source.
                  bind-Quiet
                    (attempt (
                        (recorded env.live).compute_latest_position row.config_json payload
                          source.0)
                      >>= as_validation)
                    _ (Quiet-latest env.live row.config_json payload source.0)
                    (λ latest log led w. (_, _, refl)))))

  keys-Previews :
      (req : DryRunRequest Q) (row : StrategyRow C) (keys : Option K) (w : W)
      → Previews (dry_with (recorded_dry env) req row keys ([], ([], w)))
  unfolding dry_with
  keys-Previews req row none w = (tt, refl)
  keys-Previews req row (some keys) w =
      quiet_then Previews (preview_signal (recorded_dry env) req row) _ [] [] w
        (preview_signal-Quiet req row)
        (λ preview v.
          session-Previews req row preview.0 preview.1 (env.create req.app_id keys req.paper v))
        (λ e v. (tt, refl))

  -- However a dry run ends, nothing has been placed or cancelled, no intent, event or transaction has been
  -- stored and no alert sent. Price bars that the computation of the signal stores are not counted.
  -- Where it answers it has read the book once, and intends what the order policy intends for the
  -- position read.
  pub run_dry_run-Previews :
      (user : ℕ) (req : DryRunRequest Q) (w : W)
      → Previews (run_dry_run (recorded_dry env) user req ([], ([], w)))
  unfolding run_dry_run
  run_dry_run-Previews user req w =
      quiet_then Previews (λ s. quiet s (env.validate_dry_run user req s.1.1)) _ [] [] w
        (λ log led w. (_, _, refl))
        (λ row v.
          if_ensures
            (λ (m : Act (Recorded Q W) (ApplyError X) (DryRunReport Q KP)).
              Previews (m ([], ([], v))))
            (env.live.has_adapter req.app_id)
            (λ _.
              quiet_then Previews
                ((recorded env.live).decrypt_credential user req.api_credential_id) _ [] [] v
                (λ log led w. (_, _, refl)) (λ keys u. keys-Previews req row keys u)
                (λ e u. (tt, refl)))
            (λ _. (tt, refl)))
        (λ e v. (tt, refl))
