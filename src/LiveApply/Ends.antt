-- ===== src/LiveApply/Ends.antt =====
-- What must hold when a cycle ends, whichever way it ends, and what the executor contributes to it.
use quant_strategies.Prelude.{
  ℕ, ◌≡◌, ◌≤◌, ◌⊎◌, inl, inr, sym, String, true, Option, none, some, List, [], ◌∷◌,
}
use mathlib.Core.Path.{subst}
use quant_strategies.Prelude.Num.{Num}
use quant_strategies.Prelude.Effects.{Outcome, ok, raised, OnlyRaises}
use quant_strategies.Order.{OrderSide, order_side, OrderResult, Exc}
use quant_strategies.OrderPolicy.{ApplyAttempt, OrderRetryResult}
use quant_strategies.OrderPolicy.Trace.{Log, logged, IsSafe, placements}
use quant_strategies.OrderPolicy.Final.{IsAccount, Returns, RaisesOnly}
use quant_strategies.OrderPolicy.Keeps.{Untouched}
use quant_strategies.Deployment.{DeploymentRow}
use quant_strategies.LiveApply.{ApplyError, SignalRead, Session, ApplyReport}
use quant_strategies.LiveApply.Cycle.{intent_row, report, closed}
use quant_strategies.LiveApply.Records.{intended, Ledger, Recorded, beside}
use quant_strategies.LiveApply.Accounts.{Audited, Booked, Settled}

module _ {Q : Type 0} where
  -- An intent was written.
  abbrev pub HasIntent : Ledger Q → Type 0
  HasIntent [] = ⊥
  HasIntent (intended row true ∷ rest) = Unit
  HasIntent (_ ∷ rest) = HasIntent rest

  -- Each order was placed when the calls before it were settled, there are no more orders than the
  -- budget, and no calls at all unless an intent was written.
  abbrev pub Backed : ℕ → Log Q → Ledger Q → Type 0
  Backed max log led = IsSafe log × (placements log ≤ max) × ((log ≡ []) ⊎ HasIntent led)

  pub intent-Audited :
      (d : DeploymentRow Q) (signal : Q) (tick_at : ℕ) (attempts : List (ApplyAttempt Q))
      (before after : Ledger Q)
      → Audited d signal tick_at attempts before after
      → HasIntent before
      → HasIntent after
  intent-Audited d signal tick_at [] before after a h = subst HasIntent (sym a) h
  intent-Audited d signal tick_at (x ∷ rest) before after a h =
      intent-Audited d signal tick_at rest _ after a.1 h

module _ {Q : Type 0} ⦃n : Num Q⦄ where
  intent-Booked :
      (d : DeploymentRow Q) (symbol : String) (r : OrderResult Q) (side : Option OrderSide)
      (filled : Option Q) (before after : Ledger Q)
      → Booked d symbol r side filled before after
      → HasIntent before
      → HasIntent after
  intent-Booked d symbol r none filled before after b h = subst HasIntent (sym b) h
  intent-Booked d symbol r (some side) none before after b h = subst HasIntent (sym b) h
  intent-Booked d symbol r (some side) (some filled) before after (inl same) h =
      subst HasIntent (sym same) h
  intent-Booked d symbol r (some side) (some filled) before after (inr more) h =
      subst HasIntent (sym more.2) h

  pub intent-Settled :
      (d : DeploymentRow Q) (o : OrderRetryResult Q) (symbol : String) (signal : Q)
      (result : Option (OrderResult Q)) (before after : Ledger Q)
      → Settled d o symbol signal result before after
      → HasIntent before
      → HasIntent after
  intent-Settled d o symbol signal none before after s h = subst HasIntent (sym s) h
  intent-Settled d o symbol signal (some r) before after (inl won) h =
      intent-Booked d symbol r (order_side o.action) r.filled_qty before after won.1 h
  intent-Settled d o symbol signal (some r) before after (inr lost) h =
      subst HasIntent (sym lost.1) h

  -- The broker's calls and the ledger of a cycle that answers: an outcome that `Origin` traces back,
  -- with the signal, the time and the symbol, to those calls; one intent, then an event for each of
  -- its attempts, then what settles its result; the answer is the report of that very outcome.
  pub record Accounted (Origin : OrderRetryResult Q → SignalRead Q → ℕ → String → Log Q → Type 0)
      (d : DeploymentRow Q) (max : ℕ) (r : ApplyReport Q) (log : Log Q) (led : Ledger Q)
      : Type 0 where
    pub outcome : OrderRetryResult Q
    pub read : SignalRead Q
    pub tick_at : ℕ
    pub symbol : String
    pub audits : Ledger Q
    pub origin : Origin outcome read tick_at symbol log
    pub account : IsAccount max outcome
    pub audited_all :
        Audited d read.signal tick_at outcome.attempts
          (intended (intent_row d read tick_at) true ∷ [])
          audits
    pub settled_it : Settled d outcome symbol read.signal outcome.result audits led
    pub answer : r ≡ report d outcome symbol read.signal read.bar_source

  abbrev pub Ends :
      {X : Type 0}
      → (OrderRetryResult Q → SignalRead Q → ℕ → String → Log Q → Type 0)
      → DeploymentRow Q
      → ℕ
      → Outcome (ApplyError X) (ApplyReport Q)
      → Log Q
      → Ledger Q
      → Type 0
  Ends Origin d max (ok r) log led = Backed max log led × Accounted Origin d max r log led
  Ends Origin d max (raised e) log led = Backed max log led

module _ {Q X : Type 0} ⦃n : Num Q⦄
    (Origin : OrderRetryResult Q → SignalRead Q → ℕ → String → Log Q → Type 0) (d : DeploymentRow Q)
    (max : ℕ) where
  pub Ends-Backed :
      (r : Outcome (ApplyError X) (ApplyReport Q)) (log : Log Q) (led : Ledger Q)
      → Ends Origin d max r log led
      → Backed max log led
  Ends-Backed (ok r) log led h = h.0
  Ends-Backed (raised e) log led h = h

module _ {Q X W : Type 0} ⦃n : Num Q⦄
    (Origin : OrderRetryResult Q → SignalRead Q → ℕ → String → Log Q → Type 0) (d : DeploymentRow Q)
    (max : ℕ) where
  abbrev pub EndsAt : Outcome (ApplyError X) (ApplyReport Q) × Recorded Q W → Type 0
  EndsAt t = Ends Origin d max t.0 t.1.0 t.1.1.0

  pub closed-Ends :
      (r : Outcome (ApplyError X) (ApplyReport Q)) (log : Log Q) (led : Ledger Q)
      (x : Outcome (ApplyError X) (Unit {0})) (v : W)
      → Ends Origin d max r log led
      → EndsAt (closed r (x, (log, (led, v))))
  closed-Ends r log led (ok _) v h = h
  closed-Ends r log led (raised e) v h = Ends-Backed Origin d max r log led h

module _ {Q W : Type 0} (max : ℕ) where
  -- What the executor leaves: safe calls, the ledger as it was, and an account where it answers.
  abbrev pub Executed : Ledger Q → Outcome Exc (OrderRetryResult Q) × Recorded Q W → Type 0
  Executed led (ok o, s) = IsSafe s.0 × (placements s.0 ≤ max) × (s.1.0 ≡ led) × IsAccount max o
  Executed led (raised e, s) = IsSafe s.0 × (placements s.0 ≤ max) × (s.1.0 ≡ led)

module _ {Q X W : Type 0} ⦃n : Num Q⦄ (b : Session Q X W) (d : DeploymentRow Q) (max : ℕ) where
  pub execute-Executed :
      (led : Ledger Q) (u : Outcome Exc (OrderRetryResult Q) × Recorded Q W)
      → IsSafe u.1.0
      → placements u.1.0 ≤ max
      → u.1.1.0 ≡ led
      → Returns (λ _. Unit {0}) max u.0
      → Executed max led u
  execute-Executed led (ok o, s) safe few same account = (safe, few, same, account)
  execute-Executed led (raised e, s) safe few same account = (safe, few, same)

  any_raise : {A : Type 0} (r : Outcome Exc A) → OnlyRaises (λ _. Unit {0}) r
  any_raise (ok a) = tt
  any_raise (raised e) = tt

  pub raises_any : RaisesOnly (λ _. Unit {0}) (logged (beside b.adapter))
  raises_any =
      unfold logged in
      record {
        position = λ symbol s. any_raise (b.adapter.get_position_qty symbol s.1.1).0;
        place_ = λ req s. any_raise (b.adapter.place_order req s.1.1).0;
        cancel = λ id symbol s. any_raise (b.adapter.cancel_order id symbol s.1.1).0;
      }

  pub ledger_kept :
      (led : Ledger Q) → Untouched (λ (s : Recorded Q W). s.1.0 ≡ led) (logged (beside b.adapter))
  ledger_kept led =
      unfold logged in
      record { position = λ symbol s g. g; placing = λ req s g. g; cancelling = λ id symbol s g. g }
