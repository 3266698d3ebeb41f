-- ===== src/Deployment/Steps.antt =====
-- What holds after the steps of a deployment operation: the first read, the new quantity, the write.
use quant_strategies.Prelude.{ℕ, ◌≡◌, refl, sym, Option, none, some, List, [], ◌∷◌}
use mathlib.Core.Path.{subst}
use quant_strategies.Prelude.Num.{Num}
use quant_strategies.Prelude.Effects.{Act, Outcome, ok, raised, pure, bind_result, ◌>>=◌}
use quant_strategies.Order.{MarketLimits}
use quant_strategies.Scheduler.Tick.{DeploymentWrite}
use quant_strategies.Deployment.{DeploymentRow, TradeError, ServiceEnv}
use quant_strategies.Deployment.Service.{
  venue_limits, row_of, first_row, get_deployment, require_tradable_qty, new_qty,
}
use quant_strategies.Deployment.Writes.{
  Event, validated, wrote, applied, unseen, validations, logged, bind_keeps, venue_limits-Keeps,
  row_of-Keeps,
}
use quant_strategies.Deployment.Checks.{require_tradable_qty-Keeps}
use quant_strategies.Deployment.Patches.{SetsQty}

module _ {Q : Type 0} where
  -- There is a write among the calls.
  abbrev pub HasWrite : List (Event Q) → Type 0
  HasWrite [] = ⊥
  HasWrite (validated _ ∷ log) = HasWrite log
  HasWrite (wrote _ ∷ log) = Unit
  HasWrite (applied _ ∷ log) = HasWrite log

module _ {Q W X B : Type 0} where
  -- A call that ends well has written.
  abbrev pub OkWrote : Outcome (TradeError Q X) B × (List (Event Q) × W) → Type 0
  OkWrote (ok _, s) = HasWrite s.0
  OkWrote (raised _, s) = Unit

  pub write-OkWrote :
      (t : Outcome (TradeError Q X) B × (List (Event Q) × W)) → HasWrite t.1.0 → OkWrote t
  write-OkWrote (ok b, s) h = h
  write-OkWrote (raised e, s) h = tt

module _ {Q W X B C : Type 0} where
  pub bind-OkWrote :
      (t : Outcome (TradeError Q X) B × (List (Event Q) × W))
      (f : B → Act (List (Event Q) × W) (TradeError Q X) C)
      → ((b : B) (s : List (Event Q) × W) → OkWrote (f b s))
      → OkWrote (bind_result t f)
  bind-OkWrote (ok b, s) f h = h b s
  bind-OkWrote (raised e, s) f h = tt

module _ {Q W X B C : Type 0} (G J : List (Event Q) → Type 0)
    (weaker : (log : List (Event Q)) → J log → G log) where
  pub bind_from :
      (t : Outcome (TradeError Q X) B × (List (Event Q) × W))
      (f : B → Act (List (Event Q) × W) (TradeError Q X) C)
      → J t.1.0
      → ((b : B) (s : List (Event Q) × W) → J s.0 → G (f b s).1.0)
      → G (bind_result t f).1.0
  bind_from (ok b, s) f h k = k b s h
  bind_from (raised e, s) f h k = weaker s.0 h

module _ {Q : Type 0} where
  -- The log of one read.
  abbrev pub Just : DeploymentRow Q → List (Event Q) → Type 0
  Just c log = log ≡ validated c ∷ []

  pub just_read :
      (G : List (Event Q) → Type 0) (c : DeploymentRow Q) (read : G (validated c ∷ []))
      (log : List (Event Q))
      → Just c log
      → G log
  just_read G c read log h = subst G (sym h) read

module _ {Q R P A X W : Type 0} ⦃n : Num Q⦄ (env : ServiceEnv Q R P A (TradeError Q X) W)
    (user id : ℕ) where
  module _ {B : Type 0} (G : List (Event Q) → Type 0)
      (f : DeploymentRow Q → Act (List (Event Q) × W) (TradeError Q X) B) (nothing : G [])
      (read : (c : DeploymentRow Q) → G (validated c ∷ []))
      (rest : (c : DeploymentRow Q) (m : Option Q) (s : List (Event Q) × W)
        → Just c s.0
        → G (f (record c { min_qty = m }) s).1.0) where
    limits_then :
        (c : DeploymentRow Q) (t : Outcome (TradeError Q X) (MarketLimits Q) × (List (Event Q) × W))
        → Just c t.1.0
        → G
            (bind_result
              (bind_result t (λ limits. pure (record c { min_qty = limits.min_qty })))
              f).1.0
    limits_then c (ok limits, s) h = rest c limits.min_qty s h
    limits_then c (raised e, s) h = subst G (sym h) (read c)

    row_then :
        (t : Outcome (TradeError Q X) (DeploymentRow Q) × W)
        → G
            (bind_result
              (bind_result
                (t.0, (validations t.0 [], t.1))
                (λ row.
                  venue_limits (logged env) row.app_id row.internal_cusip
                  >>= (λ limits. pure (record row { min_qty = limits.min_qty }))))
              f).1.0
    row_then (raised e, w) = nothing
    row_then (ok c, w) =
        limits_then c (venue_limits (logged env) c.app_id c.internal_cusip (validated c ∷ [], w))
          (venue_limits-Keeps env (Just c) c.app_id c.internal_cusip (validated c ∷ [], w) refl)

    raws_then :
        (t : Outcome (TradeError Q X) (List R) × W)
        → G (bind_result (bind_result (unseen [] t) (first_row (logged env) id)) f).1.0
    unfolding first_row row_of logged
    raws_then (raised e, w) = nothing
    raws_then (ok [], w) = nothing
    raws_then (ok (raw ∷ _), w) = row_then (env.model_validate raw w)

    pub get_then : (w : W) → G (bind_result (get_deployment (logged env) user id ([], w)) f).1.0
    unfolding get_deployment logged
    get_then w = raws_then (env.sp_get_deployment user id w)

module _ {Q R P A X W : Type 0} ⦃n : Num Q⦄ (env : ServiceEnv Q R P A (TradeError Q X) W) where
  module _ (G : List (Event Q) → Type 0) (c : DeploymentRow Q) (read : G (validated c ∷ [])) where
    -- The quantity that an update goes on with.
    pub qty_then :
        {B : Type 0} (o : Option (Option Q)) (f : Q → Act (List (Event Q) × W) (TradeError Q X) B)
        (s : List (Event Q) × W) (m : Option Q)
        → Just c s.0
        → ((q : Q) (s' : List (Event Q) × W) → SetsQty o c.qty q → Just c s'.0 → G (f q s').1.0)
        → G (bind_result (new_qty (logged env) (record c { min_qty = m }) o s) f).1.0
    unfolding new_qty
    qty_then none f s m h k = k c.qty s refl h
    qty_then (some none) f s m h k = just_read G c read s.0 h
    qty_then (some (some q)) f s m h k =
        sized (require_tradable_qty (logged env) c.app_id c.internal_cusip q s)
          (require_tradable_qty-Keeps env (Just c) c.app_id c.internal_cusip q s h)
      where
        sized :
            (t : Outcome (TradeError Q X) (Unit {0}) × (List (Event Q) × W))
            → Just c t.1.0
            → G (bind_result (bind_result t (λ _. pure q)) f).1.0
        sized (ok _, s') h' = k q s' refl h'
        sized (raised e, s') h' = just_read G c read s'.0 h'

    pub written_then :
        (w : DeploymentWrite Q)
        → (rereads : (d : DeploymentRow Q) (log : List (Event Q)) → G log → G (validated d ∷ log))
        → G (wrote w ∷ validated c ∷ [])
        → (s : List (Event Q) × W) → Just c s.0
        → G (bind_result ((logged env).write_deployment w s) (row_of (logged env))).1.0
    unfolding logged
    written_then w rereads g s h =
        bind_keeps G (unseen (wrote w ∷ s.0) (env.write_deployment w s.1)) _
          (subst (λ (l : List (Event Q)). G (wrote w ∷ l)) (sym h) g) (row_of-Keeps env G rereads)
