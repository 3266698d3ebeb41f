-- ===== src/Deployment/Writes.antt =====
-- What the deployment operations do, call by call: `logged` records the rows that are read, the rows
-- that are written and the live applies, newest first, around any environment.
use quant_strategies.Prelude.{ℕ, String, Option, none, some, List, [], ◌∷◌}
use quant_strategies.Prelude.Num.{Num}
use quant_strategies.Prelude.Effects.{Act, Outcome, ok, raised, bind_result}
use quant_strategies.Scheduler.Tick.{DeploymentWrite}
use quant_strategies.Deployment.{DeploymentRow, TradeError, ServiceEnv}
use quant_strategies.Deployment.Service.{
  venue_limits, row_of, get_deployment, default_type, limits_of, first_row,
}

pub data Event (Q : Type 0) : Type 0 where
  validated : DeploymentRow Q → Event Q
  wrote : DeploymentWrite Q → Event Q
  applied : DeploymentRow Q → Event Q

module _ {Q W X B : Type 0} where
  abbrev pub unseen :
      List (Event Q)
      → Outcome (TradeError Q X) B × W
      → Outcome (TradeError Q X) B × (List (Event Q) × W)
  unseen log t = (t.0, (log, t.1))

module _ {Q X : Type 0} where
  abbrev pub validations :
      Outcome (TradeError Q X) (DeploymentRow Q) → List (Event Q) → List (Event Q)
  validations (ok row) log = validated row ∷ log
  validations (raised _) log = log

module _ {Q R P A X W : Type 0} where
  unfoldable pub logged :
      ServiceEnv Q R P A (TradeError Q X) W
      → ServiceEnv Q R P A (TradeError Q X) (List (Event Q) × W)
  logged env = record {
    sp_get_deployment = λ user id s. unseen s.0 (env.sp_get_deployment user id s.1);
    model_validate =
        λ raw s. let t = env.model_validate raw s.1 in (t.0, (validations t.0 s.0, t.1));
    write_deployment = λ write s. unseen (wrote write ∷ s.0) (env.write_deployment write s.1);
    strategy_owned_by = λ sid vid user s. unseen s.0 (env.strategy_owned_by sid vid user s.1);
    interval_label = λ id s. unseen s.0 (env.interval_label id s.1);
    resolve_internal_cusip = λ cusip app s. unseen s.0 (env.resolve_internal_cusip cusip app s.1);
    preset_for_app = λ app s. unseen s.0 (env.preset_for_app app s.1);
    instrument_default_type = λ p cusip s. unseen s.0 (env.instrument_default_type p cusip s.1);
    venue_limits_get = λ app vendor type s. unseen s.0 (env.venue_limits_get app vendor type s.1);
    get_product_by_cusip = λ cusip s. unseen s.0 (env.get_product_by_cusip cusip s.1);
    get_interval_period = λ id s. unseen s.0 (env.get_interval_period id s.1);
    get_execute_offset = λ app id s. unseen s.0 (env.get_execute_offset app id s.1);
    get_market_calendar = λ exchange s. unseen s.0 (env.get_market_calendar exchange s.1);
    now = λ s. unseen s.0 (env.now s.1);
    to_wall = env.to_wall;
    to_utc = env.to_utc;
    str = env.str;
    live_apply = λ user dep text s. unseen (applied dep ∷ s.0) (env.live_apply user dep text s.1);
  }

-- A predicate on the log that a call leaves true, whichever way it ends.
module _ {Q W : Type 0} (G : List (Event Q) → Type 0) where
  abbrev pub Keeps : {X B : Type 0} → Act (List (Event Q) × W) (TradeError Q X) B → Type 0
  Keeps m = (s : List (Event Q) × W) → G s.0 → G (m s).1.0

  pub bind_keeps :
      {X B C : Type 0} (t : Outcome (TradeError Q X) B × (List (Event Q) × W))
      (f : B → Act (List (Event Q) × W) (TradeError Q X) C)
      → G t.1.0
      → ((b : B) → Keeps (f b))
      → G (bind_result t f).1.0
  bind_keeps (ok b, s) f h k = k b s h
  bind_keeps (raised e, s) f h k = h

module _ {Q R P A X W : Type 0} ⦃n : Num Q⦄ (env : ServiceEnv Q R P A (TradeError Q X) W)
    (G : List (Event Q) → Type 0) where
  default_type-Keeps : (p : Option P) (cusip : String) → Keeps G (default_type (logged env) p cusip)
  unfolding default_type logged
  default_type-Keeps none cusip s h = h
  default_type-Keeps (some p) cusip s h = h

  limits_of-Keeps :
      (app : ℕ) (cusip : String) (o : Option String) → Keeps G (limits_of (logged env) app cusip o)
  unfolding limits_of logged
  limits_of-Keeps app cusip none s h = h
  limits_of-Keeps app cusip (some vendor) s h =
      bind_keeps G (unseen s.0 (env.preset_for_app app s.1)) _ h (λ p s1 h1.
        bind_keeps G (default_type (logged env) p cusip s1) _ (default_type-Keeps p cusip s1 h1)
          (λ d s2 h2. h2))

  pub venue_limits-Keeps :
      (app : ℕ) (cusip : String) → Keeps G (venue_limits (logged env) app cusip)
  unfolding venue_limits logged
  venue_limits-Keeps app cusip s h =
      bind_keeps G (unseen s.0 (env.resolve_internal_cusip cusip app s.1)) _ h
        (limits_of-Keeps app cusip)

module _ {Q R P A X W : Type 0} ⦃n : Num Q⦄ (env : ServiceEnv Q R P A (TradeError Q X) W)
    (G : List (Event Q) → Type 0)
    (reads : (c : DeploymentRow Q) (log : List (Event Q)) → G log → G (validated c ∷ log)) where
  validations-Keeps :
      (r : Outcome (TradeError Q X) (DeploymentRow Q)) (log : List (Event Q))
      → G log
      → G (validations r log)
  validations-Keeps (ok c) log h = reads c log h
  validations-Keeps (raised e) log h = h

  validated_log : (raw : R) → Keeps G ((logged env).model_validate raw)
  unfolding logged
  validated_log raw s h = validations-Keeps (env.model_validate raw s.1).0 s.0 h

  pub row_of-Keeps : (raw : R) → Keeps G (row_of (logged env) raw)
  unfolding row_of
  row_of-Keeps raw s h =
      bind_keeps G ((logged env).model_validate raw s) _ (validated_log raw s h) (λ row s1 h1.
        bind_keeps G (venue_limits (logged env) row.app_id row.internal_cusip s1) _
          (venue_limits-Keeps env G row.app_id row.internal_cusip s1 h1) (λ limits s2 h2. h2))

  first_row-Keeps : (id : ℕ) (raws : List R) → Keeps G (first_row (logged env) id raws)
  unfolding first_row
  first_row-Keeps id [] s h = h
  first_row-Keeps id (raw ∷ _) s h = row_of-Keeps raw s h

  pub get_deployment-Keeps : (user id : ℕ) → Keeps G (get_deployment (logged env) user id)
  unfolding get_deployment logged
  get_deployment-Keeps user id s h =
      bind_keeps G (unseen s.0 (env.sp_get_deployment user id s.1)) _ h (first_row-Keeps id)
