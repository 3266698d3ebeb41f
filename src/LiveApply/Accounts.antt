-- ===== src/LiveApply/Accounts.antt =====
-- The rows and alerts of a cycle, and the steps that write them.
use quant_strategies.Prelude.{
  ℕ, ◌≡◌, ◌⊎◌, inl, inr, refl, ap, String, Bool, true, false, Option, none, some, List, [], ◌∷◌,
  if_ensures,
}
use quant_strategies.Prelude.Num.{Num}
use quant_strategies.Prelude.Effects.{Act, Outcome, ok, catch_result, bind_result}
use quant_strategies.Order.{OrderSide, order_side, OrderResult}
use quant_strategies.OrderPolicy.{ApplyAttempt, OrderRetryResult}
use quant_strategies.OrderPolicy.Trace.{Log}
use quant_strategies.Deployment.{DeploymentRow}
use quant_strategies.LiveApply.{ApplyError, LiveEnv}
use quant_strategies.LiveApply.Cycle.{
  event_row, transaction_row, alert_for, audit_attempts, settlement_ccy, write_row,
  write_transaction, settle, forget,
}
use quant_strategies.LiveApply.Records.{
  audited, booked, alerted, Ledger, Recorded, went_through, recorded, quiet_then,
  settlement_ccy-Quiet,
}

module _ {Q : Type 0} where
  -- One event for each attempt, in their order, whether or not its write goes through.
  abbrev pub Audited :
      DeploymentRow Q → Q → ℕ → List (ApplyAttempt Q) → Ledger Q → Ledger Q → Type 0
  Audited d signal tick_at [] before after = after ≡ before
  Audited d signal tick_at (a ∷ rest) before after =
      (b : Bool) × Audited d signal tick_at rest (audited (event_row d signal tick_at a) b ∷ before)
        after

module _ {Q : Type 0} ⦃n : Num Q⦄ where
  -- At most one transaction, and only for an order with a side and a fill.
  abbrev pub Booked :
      DeploymentRow Q
      → String
      → OrderResult Q
      → Option OrderSide
      → Option Q
      → Ledger Q
      → Ledger Q
      → Type 0
  Booked d symbol r (some side) (some filled) before after =
      (after ≡ before)
      ⊎ ((ccy : String) × (b : Bool) × (after
            ≡ booked (transaction_row d side symbol r filled ccy) b ∷ before))
  Booked d symbol r _ _ before after = after ≡ before

  -- Nothing without an order; a transaction for one that went through; an alert for one that failed.
  abbrev pub Settled :
      DeploymentRow Q
      → OrderRetryResult Q
      → String
      → Q
      → Option (OrderResult Q)
      → Ledger Q
      → Ledger Q
      → Type 0
  Settled d o symbol signal none before after = after ≡ before
  Settled d o symbol signal (some r) before after =
      ((r.success ≡ true) × Booked d symbol r (order_side o.action) r.filled_qty before after)
      ⊎ ((r.success ≡ false) × (after ≡ alerted (alert_for d o r symbol signal) ∷ before))

module _ {Q W X : Type 0} where
  -- A call that always returns, with the broker's calls as they were.
  abbrev pub Writes :
      (Ledger Q → Ledger Q → Type 0) → Act (Recorded Q W) (ApplyError X) (Unit {0}) → Type 0
  Writes R m =
      (log : Log Q) (led : Ledger Q) (w : W)
      → (after : Ledger Q) × (v : W) × R led after
        × (m (log, (led, w)) ≡ (ok tt, (log, (after, v))))

module _ {Q K C P L X W : Type 0} ⦃n : Num Q⦄ (env : LiveEnv Q K C P L X W) where
  pub audit_attempts-Writes :
      (d : DeploymentRow Q) (signal : Q) (tick_at : ℕ) (attempts : List (ApplyAttempt Q))
      → Writes {W = W} {X = X}
          (Audited d signal tick_at attempts)
          (audit_attempts (recorded env) d signal tick_at attempts)
  unfolding audit_attempts
  audit_attempts-Writes d signal tick_at [] log led w = (led, w, refl, refl)
  audit_attempts-Writes d signal tick_at (a ∷ rest) log led w =
      let row = event_row d signal tick_at a in
      let t = env.sp_ins_execution_event row w in
      let b = went_through t.0 in
      let more = audit_attempts-Writes d signal tick_at rest log (audited row b ∷ led) t.1 in
      (more.0, more.1, (b, more.2), more.3)

  write_row-Writes :
      (d : DeploymentRow Q) (symbol : String) (r : OrderResult Q) (side : Option OrderSide)
      (filled : Option Q)
      → Writes {W = W} {X = X}
          (Booked d symbol r side filled)
          (write_row (recorded env) d symbol r side filled)
  unfolding write_row
  write_row-Writes d symbol r none filled log led w = (led, w, refl, refl)
  write_row-Writes d symbol r (some side) none log led w = (led, w, refl, refl)
  write_row-Writes d symbol r (some side) (some filled) log led w =
      quiet_then
        (λ t.
          (after : Ledger Q) × (v : W) × Booked d symbol r (some side) (some filled) led after
          × (bind_result (catch_result t) forget ≡ (ok tt, (log, (after, v)))))
        (settlement_ccy (recorded env) d.internal_cusip) _ log led w
        (settlement_ccy-Quiet env d.internal_cusip)
        (λ ccy v.
          let row = transaction_row d side symbol r filled ccy in
          let t = env.sp_ins_transaction row v in (_, t.1, inr (ccy, went_through t.0, refl), refl))
        (λ e v. (led, v, inl refl, refl))

  -- What settling writes, where it returns; it does, unless an alert raises.
  abbrev pub Settling :
      DeploymentRow Q
      → OrderRetryResult Q
      → String
      → Q
      → Option (OrderResult Q)
      → Log Q
      → Ledger Q
      → Outcome (ApplyError X) (Unit {0}) × Recorded Q W
      → Type 0
  Settling d o symbol signal result log led t =
      (after : Ledger Q) × (v : W) × Settled d o symbol signal result led after
      × (t.1 ≡ (log, (after, v)))

  pub settle-Settling :
      (d : DeploymentRow Q) (o : OrderRetryResult Q) (symbol : String) (signal : Q)
      (result : Option (OrderResult Q)) (log : Log Q) (led : Ledger Q) (w : W)
      → Settling d o symbol signal result log led
          (settle (recorded env) d o symbol signal result (log, (led, w)))
  unfolding settle write_transaction
  settle-Settling d o symbol signal none log led w = (led, w, refl, refl)
  settle-Settling d o symbol signal (some r) log led w =
      if_ensures
        (λ (m : Act (Recorded Q W) (ApplyError X) (Unit {0})).
          Settling d o symbol signal (some r) log led (m (log, (led, w))))
        r.success
        (λ won.
          let wrote = write_row-Writes d symbol r (order_side o.action) r.filled_qty log led w in
          (wrote.0, wrote.1, inl (won, wrote.2), ap (λ t. t.1) wrote.3))
        (λ lost. (_, (env.send (alert_for d o r symbol signal) w).1, inr (lost, refl), refl))
