-- ===== src/LiveApply/Course.antt =====
-- The calls that lead `LiveApplyOrchestrator.run` to its orders, one after the other.
use mathlib.Core.Path.{subst}
use quant_strategies.Prelude.{ℕ, ◌≡◌, refl, sym, String, true, some, [], ◌∷◌}
use quant_strategies.Prelude.Num.{Num}
use quant_strategies.Prelude.Effects.{Act, Outcome, ok, raised, bind_result}
use quant_strategies.OrderPolicy.{OrderRetryResult}
use quant_strategies.OrderPolicy.Attempts.{execute}
use quant_strategies.OrderPolicy.Trace.{Log, logged}
use quant_strategies.Deployment.{DeploymentRow}
use quant_strategies.LiveApply.{ApplyError, LiveEnv, SignalRead, Session}
use quant_strategies.LiveApply.Cycle.{intent_row, compute_signal}
use quant_strategies.LiveApply.Records.{intended, Ledger, Recorded, quiet, beside, recorded, Quiet}

module _ {Q K C P L X W : Type 0} ⦃n : Num Q⦄ (env : LiveEnv Q K C P L X W)
    (d : DeploymentRow Q) where
  -- The executor on the session's broker, which has received no call yet, ended with `o` and the calls
  -- of `log`, after the one intent was written.
  abbrev pub ExecutedTo :
      Session Q X W → SignalRead Q → ℕ → String → W → OrderRetryResult Q → Log Q → W → Type 0
  ExecutedTo b s tick_at symbol v o log u =
      let led : Ledger Q = intended (intent_row d s tick_at) true ∷ [] in
      execute (logged (beside b.adapter)) symbol s.signal d.qty env.max_attempts ([], (led, v))
      ≡ (ok o, (log, (led, u)))

  -- How a cycle for `user` that starts in the world `w` came by the executor's outcome `o`, the signal,
  -- the time, the symbol and the broker's calls: each call starts in the world that the one before left.
  pub record Course (user : ℕ) (w : W) (o : OrderRetryResult Q) (s : SignalRead Q) (tick_at : ℕ)
      (symbol : String) (log : Log Q) : Type 0 where
    pub keys : K
    pub session : Session Q X W
    pub timed : W
    pub unlocked : W
    pub computed : W
    pub stored : W
    pub opened : W
    pub connected : W
    pub checked : W
    pub ended : W
    pub has_time : env.now w ≡ (ok tick_at, timed)
    pub has_keys :
        env.decrypt_credential user d.api_credential_id timed ≡ (ok (some keys), unlocked)
    pub has_signal :
        compute_signal (recorded env) d ([], ([], unlocked)) ≡ (ok s, ([], ([], computed)))
    pub has_intent : env.sp_ins_intent (intent_row d s tick_at) computed ≡ (ok tt, stored)
    pub has_session : env.create d.app_id keys d.is_paper_ind stored ≡ (ok session, opened)
    pub has_connected : session.connect opened ≡ (ok tt, connected)
    pub has_symbol :
        session.validate_for_dry_run d.internal_cusip d.app_id connected ≡ (ok symbol, checked)
    pub has_outcome : ExecutedTo session s tick_at symbol checked o log ended

  -- What remains to be shown of a course from the connected session on, from its creation on, and so on.
  module _ (Origin : OrderRetryResult Q → SignalRead Q → ℕ → String → Log Q → Type 0) where
    abbrev pub TradeOrigin : Session Q X W → SignalRead Q → ℕ → W → Type 0
    TradeOrigin b s tick_at w =
        (symbol : String) (v : W) (o : OrderRetryResult Q) (log : Log Q) (u : W)
        → b.validate_for_dry_run d.internal_cusip d.app_id w ≡ (ok symbol, v)
        → ExecutedTo b s tick_at symbol v o log u
        → Origin o s tick_at symbol log

    abbrev pub SessionOrigin : Session Q X W → SignalRead Q → ℕ → W → Type 0
    SessionOrigin b s tick_at w = (v : W) → b.connect w ≡ (ok tt, v) → TradeOrigin b s tick_at v

    abbrev pub CreateOrigin : SignalRead Q → ℕ → Outcome (ApplyError X) (Session Q X W) × W → Type 0
    CreateOrigin s tick_at t =
        (b : Session Q X W) (v : W) → t ≡ (ok b, v) → SessionOrigin b s tick_at v

    abbrev pub IntentOrigin : SignalRead Q → ℕ → K → Outcome (ApplyError X) (Unit {0}) × W → Type 0
    IntentOrigin s tick_at keys t =
        (v : W)
        → t ≡ (ok tt, v)
        → CreateOrigin s tick_at (env.create d.app_id keys d.is_paper_ind v)

    abbrev pub ApplyOrigin : ℕ → K → W → Type 0
    ApplyOrigin tick_at keys w =
        (s : SignalRead Q) (v : W)
        → compute_signal (recorded env) d ([], ([], w)) ≡ (ok s, ([], ([], v)))
        → IntentOrigin s tick_at keys (env.sp_ins_intent (intent_row d s tick_at) v)

module _ {Q W X A B : Type 0} (P : Outcome (ApplyError X) B × Recorded Q W → Type 0)
    (f : A → Act (Recorded Q W) (ApplyError X) B) (log : Log Q) (led : Ledger Q) where
  -- What holds after a call that writes nothing here and the rest, with what the call gave.
  pub called_then :
      (w : W) (t : Outcome (ApplyError X) A × W)
      → ((a : A) (v : W) → t ≡ (ok a, v) → P (f a (log, (led, v))))
      → ((e : ApplyError X) (v : W) → P (raised e, (log, (led, v))))
      → P (bind_result (quiet (log, (led, w)) t) f)
  called_then w (ok a, v) hok hraised = hok a v refl
  called_then w (raised e, v) hok hraised = hraised e v

  pub quiet_gives :
      (m : Act (Recorded Q W) (ApplyError X) A) (w : W)
      → Quiet m
      → ((a : A) (v : W) → m (log, (led, w)) ≡ (ok a, (log, (led, v))) → P (f a (log, (led, v))))
      → ((e : ApplyError X) (v : W) → P (raised e, (log, (led, v))))
      → P (bind_result (m (log, (led, w))) f)
  quiet_gives m w q hok hraised =
      let at = q log led w in given (m (log, (led, w))) at.0 at.1 at.2 hok
    where
      given :
          (t : Outcome (ApplyError X) A × Recorded Q W) (r : Outcome (ApplyError X) A) (v : W)
          → t ≡ (r, (log, (led, v)))
          → ((a : A) (v : W) → t ≡ (ok a, (log, (led, v))) → P (f a (log, (led, v))))
          → P (bind_result t f)
      given t (ok a) v e k = subst (λ u. P (bind_result u f)) (sym e) (k a v e)
      given t (raised x) v e k = subst (λ u. P (bind_result u f)) (sym e) (hraised x v)
