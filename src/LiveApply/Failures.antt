-- ===== src/LiveApply/Failures.antt =====
-- Writes that fail after the order do not fail the cycle.
use quant_strategies.Prelude.{
  ℕ, ◌≡◌, refl, sym, ◌∙◌, String, true, Option, none, some, List, [], ◌∷◌, if_ensures,
}
use mathlib.Core.Path.{subst}
use mathlib.Core.Bool.{true≢false}
use quant_strategies.Prelude.Num.{Num}
use quant_strategies.Prelude.Effects.{
  Act, Outcome, ok, raised, pure, catch_result, bind_result, ◌>>=◌, ◌>>◌,
}
use quant_strategies.Order.{OrderSide, OrderResult, order_side}
use quant_strategies.OrderPolicy.{ApplyAttempt, OrderRetryResult}
use quant_strategies.Deployment.{DeploymentRow}
use quant_strategies.LiveApply.{ApplyError, LiveEnv, SignalRead, Session}
use quant_strategies.LiveApply.Cycle.{
  report, event_row, audit_attempts, forget, settlement_ccy, transaction_row, write_row,
  write_transaction, settle, execute_on, trade,
}

-- No order was due, or the order went through.
module _ {Q : Type 0} where
  abbrev pub Unfailed : Option (OrderResult Q) → Type 0
  Unfailed none = Unit
  Unfailed (some r) = r.success ≡ true

module _ {X W : Type 0} where
  -- The call returns `a`.
  abbrev pub Gives : {A : Type 0} → A → Outcome (ApplyError X) A × W → Type 0
  Gives a t = (v : W) × (t ≡ (ok a, v))

  Gives-then :
      {A B : Type 0} (a : A) (c : B) (t : Outcome (ApplyError X) A × W)
      (f : A → Act W (ApplyError X) B)
      → Gives a t
      → ((v : W) → Gives c (f a v))
      → Gives c (bind_result t f)
  Gives-then a c t f at rest = subst (λ u. Gives c (bind_result u f)) (sym at.1) (rest at.0)

  Gives-at :
      {A B : Type 0} (a : A) (v : W) (c : B) (t : Outcome (ApplyError X) A × W)
      (f : A → Act W (ApplyError X) B)
      → t ≡ (ok a, v)
      → Gives c (f a v)
      → Gives c (bind_result t f)
  Gives-at a v c t f at rest = subst (λ u. Gives c (bind_result u f)) (sym at) rest

  forgotten :
      (t : Outcome (ApplyError X) (Unit {0}) × W) → Gives tt (bind_result (catch_result t) forget)
  forgotten (ok _, w) = (w, refl)
  forgotten (raised e, w) = (w, refl)

module _ {Q K C P L X W : Type 0} ⦃n : Num Q⦄ (env : LiveEnv Q K C P L X W)
    (d : DeploymentRow Q) where
  audits_give :
      (signal : Q) (tick_at : ℕ) (attempts : List (ApplyAttempt Q)) (w : W)
      → Gives tt (audit_attempts env d signal tick_at attempts w)
  unfolding audit_attempts
  audits_give signal tick_at [] w = (w, refl)
  audits_give signal tick_at (a ∷ rest) w =
      Gives-then tt tt
        (bind_result (catch_result (env.sp_ins_execution_event (event_row d signal tick_at a) w))
          forget)
        (λ _. audit_attempts env d signal tick_at rest)
        (forgotten (env.sp_ins_execution_event (event_row d signal tick_at a) w))
        (λ v. audits_give signal tick_at rest v)

  write_row-Gives :
      (symbol : String) (r : OrderResult Q) (side : Option OrderSide) (filled : Option Q) (w : W)
      → Gives tt (write_row env d symbol r side filled w)
  unfolding write_row
  write_row-Gives symbol r none filled w = (w, refl)
  write_row-Gives symbol r (some side) none w = (w, refl)
  write_row-Gives symbol r (some side) (some filled) w = forgotten (
      (settlement_ccy env d.internal_cusip
          >>= (λ ccy. env.sp_ins_transaction (transaction_row d side symbol r filled ccy)))
        w)

  settle-Gives :
      (o : OrderRetryResult Q) (symbol : String) (signal : Q) (result : Option (OrderResult Q))
      (w : W)
      → Unfailed result
      → Gives tt (settle env d o symbol signal result w)
  unfolding settle write_transaction
  settle-Gives o symbol signal none w h = (w, refl)
  settle-Gives o symbol signal (some r) w h =
      if_ensures (λ (m : Act W (ApplyError X) (Unit {0})). Gives tt (m w)) r.success
        (λ _. write_row-Gives symbol r (order_side o.action) r.filled_qty w)
        (λ lost. absurd (true≢false (sym h ∙ lost)))

  -- Once the executor has answered with no order due or with an order that went through, the cycle
  -- answers with the report of it, whatever the audit and transaction writes and the currency lookup
  -- raise.
  pub trade-Gives :
      (session : Session Q X W) (s : SignalRead Q) (tick_at : ℕ) (w v u : W) (symbol : String)
      (o : OrderRetryResult Q)
      → session.validate_for_dry_run d.internal_cusip d.app_id w ≡ (ok symbol, v)
      → execute_on env session d symbol s.signal v ≡ (ok o, u)
      → Unfailed o.result
      → Gives (report d o symbol s.signal s.bar_source) (trade env session d s tick_at w)
  unfolding trade
  trade-Gives session s tick_at w v u symbol o validated executed unfailed =
      let answer = report d o symbol s.signal s.bar_source in
      let after_settling = λ (z : W).
        Gives-then tt answer (settle env d o symbol s.signal o.result z) (λ _. pure answer)
          (settle-Gives o symbol s.signal o.result z unfailed) (λ y. (y, refl)) in
      let after_order =
        Gives-then tt answer (audit_attempts env d s.signal tick_at o.attempts u)
          (λ _. settle env d o symbol s.signal o.result >> pure answer)
          (audits_give s.signal tick_at o.attempts u) after_settling in
      let ordered = λ (symbol : String) (o : OrderRetryResult Q).
        audit_attempts env d s.signal tick_at o.attempts
        >> (settle env d o symbol s.signal o.result
            >> pure (report d o symbol s.signal s.bar_source)) in
      Gives-at symbol v answer (session.validate_for_dry_run d.internal_cusip d.app_id w)
        (λ symbol. execute_on env session d symbol s.signal >>= ordered symbol) validated
        (Gives-at o u answer (execute_on env session d symbol s.signal v) (ordered symbol) executed
          after_order)
