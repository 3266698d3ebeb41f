-- ===== src/LiveApply/Records.antt =====
-- What a cycle writes: `recorded` keeps the broker's calls and the rows and alerts that are sent,
-- newest first, around any environment.
use quant_strategies.Prelude.{
  ℕ, ◌≡◌, refl, sym, String, Bool, true, false, Option, none, some, List, [], ◌∷◌, if_ensures,
}
use mathlib.Core.Path.{subst}
use quant_strategies.Prelude.Text.{truthy}
use quant_strategies.Prelude.Num.{Num}
use quant_strategies.Prelude.Effects.{
  Act, Outcome, ok, raised, attempt, catch_result, bind_result, ◌>>=◌, catch_result,
}
use quant_strategies.Order.{TradeAdapter}
use quant_strategies.OrderPolicy.Trace.{Log, logged}
use quant_strategies.Deployment.{DeploymentRow}
use quant_strategies.LiveApply.{
  StrategyConfig, ApplyError, adapter_not_found, validation, live_evaluation, broker, other,
  BarSource, IntentRow, EventRow, TransactionRow, Alert, BarLoader, Session, LiveEnv,
}
use quant_strategies.LiveApply.Cycle.{
  as_validation, fitted, loader_on, source_for, resolve_signal_source, read_signal, signal_of,
  compute_signal, ccy_or, settlement_ccy,
}

-- A write, and whether it went through; an alert.
pub data Entry (Q : Type 0) : Type 0 where
  intended : IntentRow Q → Bool → Entry Q
  audited : EventRow Q → Bool → Entry Q
  booked : TransactionRow Q → Bool → Entry Q
  alerted : Alert Q → Entry Q

abbrev pub Ledger : Type 0 → Type 0
Ledger Q = List (Entry Q)

abbrev pub Recorded : Type 0 → Type 0 → Type 0
Recorded Q W = Log Q × (Ledger Q × W)

module _ {Q W E A : Type 0} where
  abbrev pub quiet : Recorded Q W → Outcome E A × W → Outcome E A × Recorded Q W
  quiet s t = (t.0, (s.0, (s.1.0, t.1)))

module _ {E A : Type 0} where
  abbrev pub went_through : Outcome E A → Bool
  went_through (ok _) = true
  went_through (raised _) = false

module _ {Q W E A : Type 0} where
  abbrev pub entered :
      (Bool → Entry Q) → Recorded Q W → Outcome E A × W → Outcome E A × Recorded Q W
  entered entry s t = (t.0, (s.0, (entry (went_through t.0) ∷ s.1.0, t.1)))

module _ {Q W : Type 0} where
  -- The adapter's calls leave the ledger alone.
  abbrev pub beside : TradeAdapter Q W → TradeAdapter Q (Ledger Q × W)
  beside a = record {
    get_position_qty = λ symbol s. let t = a.get_position_qty symbol s.1 in (t.0, (s.0, t.1));
    place_order = λ req s. let t = a.place_order req s.1 in (t.0, (s.0, t.1));
    cancel_order = λ id symbol s. let t = a.cancel_order id symbol s.1 in (t.0, (s.0, t.1));
  }

module _ {Q X W : Type 0} where
  abbrev pub recorded_session : Session Q X W → Session Q X (Recorded Q W)
  recorded_session b = record {
    adapter = logged (beside b.adapter);
    connect = λ s. quiet s (b.connect s.1.1);
    disconnect = λ s. quiet s (b.disconnect s.1.1);
    validate_for_dry_run = λ cusip app s. quiet s (b.validate_for_dry_run cusip app s.1.1);
  }

  abbrev pub session_or :
      Outcome (ApplyError X) (Session Q X W) → Outcome (ApplyError X) (Session Q X (Recorded Q W))
  session_or (ok b) = ok (recorded_session b)
  session_or (raised e) = raised e

module _ {Q L X W : Type 0} where
  abbrev pub bars_or :
      Option (ℕ → Act W (ApplyError X) L) → Option (ℕ → Act (Recorded Q W) (ApplyError X) L)
  bars_or none = none
  bars_or (some f) = some (λ app s. quiet s (f app s.1.1))

module _ {Q K C P L X W : Type 0} where
  abbrev pub recorded : LiveEnv Q K C P L X W → LiveEnv Q K C P L X (Recorded Q W)
  recorded env = record {
    max_attempts = env.max_attempts;
    now = λ s. quiet s (env.now s.1.1);
    has_adapter = env.has_adapter;
    create = λ app keys paper s.
        let t = env.create app keys paper s.1.1 in (session_or t.0, (s.0, (s.1.0, t.1)));
    decrypt_credential = λ user id s. quiet s (env.decrypt_credential user id s.1.1);
    sp_get_strategy = λ id vid s. quiet s (env.sp_get_strategy id vid s.1.1);
    fetch_result_payload = λ id vid s. quiet s (env.fetch_result_payload id vid s.1.1);
    exchange_id_for_app = λ app s. quiet s (env.exchange_id_for_app app s.1.1);
    price_bars = bars_or env.price_bars;
    compute_latest_position =
        λ config payload bars s. quiet s (env.compute_latest_position config payload bars s.1.1);
    fromisoformat = λ text s. quiet s (env.fromisoformat text s.1.1);
    get_product_by_cusip = λ cusip s. quiet s (env.get_product_by_cusip cusip s.1.1);
    fallback_settlement_ccy = λ s. quiet s (env.fallback_settlement_ccy s.1.1);
    sp_ins_intent = λ row s. entered (intended row) s (env.sp_ins_intent row s.1.1);
    sp_ins_execution_event =
        λ row s. entered (audited row) s (env.sp_ins_execution_event row s.1.1);
    sp_ins_transaction = λ row s. entered (booked row) s (env.sp_ins_transaction row s.1.1);
    send = λ alert s. entered (λ _. alerted alert) s (env.send alert s.1.1);
  }

-- A call that leaves the ledger and the broker log as they were. What the price-bar service stores while
-- it computes a signal is not in the ledger.
module _ {Q W X : Type 0} where
  abbrev pub Quiet : {A : Type 0} → Act (Recorded Q W) (ApplyError X) A → Type 0
  Quiet {A} m =
      (log : Log Q) (led : Ledger Q) (w : W)
      → (r : Outcome (ApplyError X) A) × (v : W) × (m (log, (led, w)) ≡ (r, (log, (led, v))))

  pub quiet_then {ℓ} :
      {A B : Type 0} (P : Outcome (ApplyError X) B × Recorded Q W → Type ℓ)
      (m : Act (Recorded Q W) (ApplyError X) A) (f : A → Act (Recorded Q W) (ApplyError X) B)
      (log : Log Q) (led : Ledger Q) (w : W)
      → Quiet m
      → ((a : A) (v : W) → P (f a (log, (led, v))))
      → ((e : ApplyError X) (v : W) → P (raised e, (log, (led, v))))
      → P (bind_result (m (log, (led, w))) f)
  quiet_then P m f log led w q hok hraised =
      let at = q log led w in
      subst (λ t. P (bind_result t f)) (sym at.2) (of_outcome P f log led at.0 at.1 hok hraised)
    where
      of_outcome :
          {A B : Type 0} (P : Outcome (ApplyError X) B × Recorded Q W → Type ℓ)
          (f : A → Act (Recorded Q W) (ApplyError X) B) (log : Log Q) (led : Ledger Q)
          (r : Outcome (ApplyError X) A) (v : W)
          → ((a : A) (v : W) → P (f a (log, (led, v))))
          → ((e : ApplyError X) (v : W) → P (raised e, (log, (led, v))))
          → P (bind_result (r, (log, (led, v))) f)
      of_outcome P f log led (ok a) v hok hraised = hok a v
      of_outcome P f log led (raised e) v hok hraised = hraised e v

  pub bind-Quiet :
      {A B : Type 0} (m : Act (Recorded Q W) (ApplyError X) A)
      (f : A → Act (Recorded Q W) (ApplyError X) B)
      → Quiet m
      → ((a : A) → Quiet (f a))
      → Quiet (m >>= f)
  bind-Quiet {A} {B} m f q rest log led w =
      quiet_then (λ t. (r : Outcome (ApplyError X) B) × (v : W) × (t ≡ (r, (log, (led, v))))) m f
        log led w q (λ a v. rest a log led v) (λ e v. (raised e, v, refl))

  pub attempt-Quiet :
      {A : Type 0} (m : Act (Recorded Q W) (ApplyError X) A) → Quiet m → Quiet (attempt m)
  attempt-Quiet m q log led w =
      let at = q log led w in
      (ok at.0, at.1, subst (λ t. catch_result t ≡ (ok at.0, (log, (led, at.1)))) (sym at.2) refl)

module _ {Q K C P L X W : Type 0} ⦃n : Num Q⦄ (env : LiveEnv Q K C P L X W) where
  Quiet-loader :
      (app id : ℕ) (venue : Option String) (bars : Option (ℕ → Act W (ApplyError X) L))
      → Quiet (loader_on (recorded env) app id venue (bars_or bars))
  Quiet-loader app id venue none = λ log led w. (_, _, refl)
  Quiet-loader app id venue (some f) =
      bind-Quiet (λ s. quiet s (f app s.1.1)) _ (λ log led w. (_, _, refl))
        (λ service log led w. (_, _, refl))

  Quiet-source :
      (app : ℕ) (schedule : Option ℕ) (id : ℕ) (venue : Option String)
      → Quiet (source_for (recorded env) app schedule id venue)
  Quiet-source app (some s) id venue = Quiet-loader app s venue env.price_bars
  Quiet-source app none id none = λ log led w. (_, _, refl)
  Quiet-source app none id (some v) = Quiet-loader app id (some v) env.price_bars

  Quiet-validation :
      {A : Type 0} (r : Outcome (ApplyError X) A) → Quiet {Q = Q} {W = W} {X = X} (as_validation r)
  Quiet-validation (ok a) log led w = (_, _, refl)
  Quiet-validation (raised (adapter_not_found _)) log led w = (_, _, refl)
  Quiet-validation (raised (validation _)) log led w = (_, _, refl)
  Quiet-validation (raised (live_evaluation _)) log led w = (_, _, refl)
  Quiet-validation (raised (broker _)) log led w = (_, _, refl)
  Quiet-validation (raised (other _)) log led w = (_, _, refl)

  pub Quiet-fitted : (o : Option ℕ) → Quiet {Q = Q} {W = W} {X = X} (fitted o)
  Quiet-fitted none log led w = (_, _, refl)
  Quiet-fitted (some id) log led w = (_, _, refl)

  pub Quiet-resolve :
      (app : ℕ) (schedule : Option ℕ) (id : ℕ)
      → Quiet (resolve_signal_source (recorded env) app schedule id)
  unfolding resolve_signal_source
  Quiet-resolve app schedule id =
      bind-Quiet ((recorded env).exchange_id_for_app app) _ (λ log led w. (_, _, refl))
        (Quiet-source app schedule id)

  pub Quiet-latest :
      (config : StrategyConfig C) (payload : P) (bars : Option (BarLoader L))
      → Quiet
          (attempt ((recorded env).compute_latest_position config payload bars) >>= as_validation)
  Quiet-latest config payload bars =
      bind-Quiet (attempt ((recorded env).compute_latest_position config payload bars))
        as_validation (λ log led w. (_, _, refl)) Quiet-validation

  Quiet-read :
      (config : StrategyConfig C) (payload : P) (source : Option (BarLoader L) × BarSource × ℕ)
      → Quiet (read_signal (recorded env) config payload source)
  unfolding read_signal
  Quiet-read config payload source =
      bind-Quiet
        (attempt ((recorded env).compute_latest_position config payload source.0) >>= as_validation)
        _ (Quiet-latest config payload source.0)
        (λ latest.
          bind-Quiet ((recorded env).fromisoformat latest.1) _ (λ log led w. (_, _, refl))
            (λ at log led w. (_, _, refl)))

  Quiet-signal :
      (d : DeploymentRow Q) (rows : List (StrategyConfig C))
      → Quiet (signal_of (recorded env) d rows)
  unfolding signal_of
  Quiet-signal d [] = λ log led w. (_, _, refl)
  Quiet-signal d (config ∷ _) =
      bind-Quiet ((recorded env).fetch_result_payload d.strategy_id d.strategy_vid) _
        (λ log led w. (_, _, refl))
        (λ payload.
          bind-Quiet (fitted config.tm_interval_id) _ (Quiet-fitted config.tm_interval_id) (λ id.
            bind-Quiet (resolve_signal_source (recorded env) d.app_id d.schedule_tm_interval_id id)
              _ (Quiet-resolve d.app_id d.schedule_tm_interval_id id) (Quiet-read config payload)))

  pub compute_signal-Quiet : (d : DeploymentRow Q) → Quiet (compute_signal (recorded env) d)
  unfolding compute_signal
  compute_signal-Quiet d =
      bind-Quiet ((recorded env).sp_get_strategy d.strategy_id d.strategy_vid) _
        (λ log led w. (_, _, refl)) (Quiet-signal d)

  pub settlement_ccy-Quiet : (cusip : String) → Quiet (settlement_ccy (recorded env) cusip)
  unfolding settlement_ccy
  settlement_ccy-Quiet cusip =
      bind-Quiet ((recorded env).get_product_by_cusip cusip) _ (λ log led w. (_, _, refl)) quiet_ccy
    where
      quiet_ccy : (o : Option (Option String)) → Quiet (ccy_or (recorded env) o)
      quiet_ccy none log led w = (_, _, refl)
      quiet_ccy (some none) log led w = (_, _, refl)
      quiet_ccy (some (some ccy)) log led w =
          if_ensures
            (λ (m : Act (Recorded Q W) (ApplyError X) String).
              (r : Outcome (ApplyError X) String) × (v : W) × (m (log, (led, w))
                ≡ (r, (log, (led, v)))))
            (truthy (some ccy)) (λ _. (_, _, refl)) (λ _. (_, _, refl))
