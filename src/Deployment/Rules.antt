-- ===== src/Deployment/Rules.antt =====
-- The rules of the deployment operations: what an update and a stop write, and what an apply trades.
use quant_strategies.Prelude.{
  ℕ, refl, sym, List, [], ◌∷◌, if_ensures, inl, ◌⊎◌, ◌≡◌, ap, ◌∙◌, inr, true, if◌then◌else◌,
}
use mathlib.Core.Path.{subst}
use quant_strategies.Prelude.Num.{Num}
use quant_strategies.Prelude.Effects.{Act, bind_result, Outcome, ok, raised, pure, ◌>>=◌}
use quant_strategies.Scheduler.Tick.{DeploymentWrite}
use quant_strategies.Deployment.{
  DeploymentRow, UpdateDeploymentRequest, TradeError, ServiceEnv, is_stopped,
  should_realign_schedule, new_interval, MarketLimits, pure,
}
use quant_strategies.Deployment.Service.{
  venue_limits, row_of, first_row, get_deployment, check_cadence, new_qty, aligned, patched,
  update_row, update_deployment, stopped_row, stop_deployment, apply_deployment, first_row,
  venue_limits,
}
use quant_strategies.Deployment.Writes.{
  Event, validated, wrote, applied, unseen, validations, logged, bind_keeps, venue_limits-Keeps,
  row_of-Keeps, validations,
}
use quant_strategies.Deployment.Checks.{check_cadence-Keeps, aligned-Keeps}
use quant_strategies.Deployment.Patches.{
  IsPatch, Halts, WritesOnce, AppliesEnabled, status_after-SetsStatus, given-Sets,
}
use quant_strategies.Deployment.Steps.{
  HasWrite, OkWrote, write-OkWrote, bind-OkWrote, bind_from, Just, just_read, get_then, qty_then,
  written_then,
}

module _ {Q R P A X W : Type 0} ⦃n : Num Q⦄ (env : ServiceEnv Q R P A (TradeError Q X) W)
    (user id : ℕ) where
  update_log :
      (req : UpdateDeploymentRequest Q) (w : W)
      → WritesOnce (IsPatch user id req) (update_deployment (logged env) user id req ([], w)).1.0
  unfolding update_deployment update_row
  update_log req w =
      let G = WritesOnce (IsPatch user id req) in
      get_then env user id G (update_row (logged env) user id req) tt (λ c. tt)
        (λ c m s h.
          let c' : DeploymentRow Q = record c { min_qty = m } in
          let weaker = just_read G c tt in
          bind_from G (Just c) weaker
            (check_cadence (logged env) user c' req.schedule_tm_interval_id s) _
            (check_cadence-Keeps env (Just c) user c' req.schedule_tm_interval_id s h)
            (λ _ s1 h1. qty_then env G c tt req.qty _ s1 m h1 (λ q s2 sets h2.
              let realign = should_realign_schedule c' req in
              bind_from G (Just c) weaker (aligned (logged env) c' realign (new_interval c' req) s2)
                _ (aligned-Keeps env (Just c) c' realign (new_interval c' req) s2 h2)
                (λ ts s3 h3.
                  written_then env G c tt (patched (logged env) user id c' req q ts) (λ d log g. g)
                    (
                      (refl, refl, refl, refl, refl, refl, refl, refl),
                      given-Sets req.enabled c.is_enabled_ind,
                      status_after-SetsStatus req.enabled req.deployment_status c.deployment_status,
                      given-Sets req.schedule_tm_interval_id c.schedule_tm_interval_id,
                      sets,
                    )
                    s3 h3))))
        w

  written-OkWrote :
      (w : DeploymentWrite Q) (s : List (Event Q) × W)
      → OkWrote (bind_result ((logged env).write_deployment w s) (row_of (logged env)))
  unfolding logged
  written-OkWrote w s =
      write-OkWrote
        (bind_result (unseen (wrote w ∷ s.0) (env.write_deployment w s.1)) (row_of (logged env)))
        (bind_keeps HasWrite (unseen (wrote w ∷ s.0) (env.write_deployment w s.1)) _ tt
          (row_of-Keeps env HasWrite (λ c log h. h)))

  update-OkWrote :
      (req : UpdateDeploymentRequest Q) (s : List (Event Q) × W)
      → OkWrote (update_deployment (logged env) user id req s)
  unfolding update_deployment update_row
  update-OkWrote req s = bind-OkWrote (get_deployment (logged env) user id s) _ (λ c s1.
      bind-OkWrote (check_cadence (logged env) user c req.schedule_tm_interval_id s1) _ (λ _ s2.
        bind-OkWrote (new_qty (logged env) c req.qty s2) _ (λ q s3.
          bind-OkWrote
            (aligned (logged env) c (should_realign_schedule c req) (new_interval c req) s3) _
            (λ ts. written-OkWrote (patched (logged env) user id c req q ts)))))

  -- An update that ends well has written the row. Any update writes it at most once, right after it
  -- has read it: the row read with the fields that the request sets, where a paused row that is
  -- enabled becomes active. The strategy, the account and the instrument stay, and nothing is traded.
  pub update-WritesOnce :
      (req : UpdateDeploymentRequest Q) (w : W)
      → let t = update_deployment (logged env) user id req ([], w) in
        WritesOnce (IsPatch user id req) t.1.0 × OkWrote t
  update-WritesOnce req w = (update_log req w, update-OkWrote req ([], w))

  stop_log : (w : W) → WritesOnce (Halts user id) (stop_deployment (logged env) user id ([], w)).1.0
  unfolding stop_deployment
  stop_log w =
      let G = WritesOnce (Halts user id) in
      get_then env user id G _ tt (λ c. tt)
        (λ c m s h.
          if_ensures
            (λ (a : Act (List (Event Q) × W) (TradeError Q X) (DeploymentRow Q)). G (a s).1.0)
            (is_stopped c.deployment_status) (λ _. just_read G c tt s.0 h)
            (λ running.
              written_then env G c tt (stopped_row (logged env) user id (record c { min_qty = m }))
                (λ d log g. g)
                ((refl, refl, refl, refl, refl, refl, refl, refl), running, refl, refl, refl, refl)
                s h))
        w

  -- The row that was read, with the venue's limits, and nothing else.
  abbrev GotRow : Outcome (TradeError Q X) (DeploymentRow Q) × (List (Event Q) × W) → Type 0
  GotRow (raised _, s) = Unit
  GotRow (ok c, s) =
      (d : DeploymentRow Q) × Just d s.0 × (c.deployment_status ≡ d.deployment_status)

  limited-GotRow :
      (d : DeploymentRow Q) (t : Outcome (TradeError Q X) (MarketLimits Q) × (List (Event Q) × W))
      → Just d t.1.0
      → GotRow (bind_result t (λ limits. pure (record d { min_qty = limits.min_qty })))
  limited-GotRow d (ok limits, s) h = (d, h, refl)
  limited-GotRow d (raised e, s) h = tt

  read-GotRow :
      (t : Outcome (TradeError Q X) (DeploymentRow Q) × W)
      → GotRow (
          bind_result
            (t.0, (validations t.0 [], t.1))
            (λ row.
              venue_limits (logged env) row.app_id row.internal_cusip
              >>= (λ limits. pure (record row { min_qty = limits.min_qty }))))
  read-GotRow (raised e, w) = tt
  read-GotRow (ok d, w) =
      limited-GotRow d (venue_limits (logged env) d.app_id d.internal_cusip (validated d ∷ [], w))
        (venue_limits-Keeps env (Just d) d.app_id d.internal_cusip (validated d ∷ [], w) refl)

  get_deployment-GotRow : (w : W) → GotRow (get_deployment (logged env) user id ([], w))
  unfolding get_deployment logged first_row row_of
  get_deployment-GotRow w = first (env.sp_get_deployment user id w)
    where
      first :
          (t : Outcome (TradeError Q X) (List R) × W)
          → GotRow (bind_result (unseen [] t) (first_row (logged env) id))
      first (raised e, v) = tt
      first (ok [], v) = tt
      first (ok (raw ∷ _), v) = read-GotRow (env.model_validate raw v)

  -- A stop that ends well has written, unless all it did was to read a row that was stopped.
  abbrev pub StoppedOrWrote :
      Outcome (TradeError Q X) (DeploymentRow Q) × (List (Event Q) × W) → Type 0
  StoppedOrWrote (raised _, s) = Unit
  StoppedOrWrote (ok _, s) =
      HasWrite s.0
      ⊎ ((c : DeploymentRow Q) × (s.0 ≡ validated c ∷ []) × (is_stopped c.deployment_status ≡ true))

  wrote-StoppedOrWrote :
      (t : Outcome (TradeError Q X) (DeploymentRow Q) × (List (Event Q) × W))
      → OkWrote t
      → StoppedOrWrote t
  wrote-StoppedOrWrote (ok c, s) h = inl h
  wrote-StoppedOrWrote (raised e, s) h = tt

  stop_from-StoppedOrWrote :
      (t : Outcome (TradeError Q X) (DeploymentRow Q) × (List (Event Q) × W))
      → GotRow t
      → StoppedOrWrote (
          bind_result t (λ c.
            if is_stopped c.deployment_status
            then pure c
            else (logged env).write_deployment (stopped_row (logged env) user id c)
              >>= row_of (logged env)))
  stop_from-StoppedOrWrote (raised e, s) h = tt
  stop_from-StoppedOrWrote (ok c, s) (d, h, same) =
      if_ensures
        (λ (a : Act (List (Event Q) × W) (TradeError Q X) (DeploymentRow Q)). StoppedOrWrote (a s))
        (is_stopped c.deployment_status) (λ halted. inr (d, h, ap is_stopped (sym same) ∙ halted))
        (λ _. wrote-StoppedOrWrote _ (written-OkWrote (stopped_row (logged env) user id c) s))

  stop-StoppedOrWrote : (w : W) → StoppedOrWrote (stop_deployment (logged env) user id ([], w))
  unfolding stop_deployment
  stop-StoppedOrWrote w =
      stop_from-StoppedOrWrote (get_deployment (logged env) user id ([], w))
        (get_deployment-GotRow w)

  -- A stop writes the row at most once, right after it has read it and only if it was not stopped:
  -- disabled, stopped and otherwise unchanged. It trades nothing. Where it ends well it has written
  -- that row, unless the row it read was stopped already.
  pub stop-WritesOnce :
      (w : W)
      → let t = stop_deployment (logged env) user id ([], w) in
        WritesOnce (Halts user id) t.1.0 × StoppedOrWrote t
  stop-WritesOnce w = (stop_log w, stop-StoppedOrWrote w)

  -- A manual apply writes no row itself and hands at most one row to the live apply: the one that it
  -- has just read, and only if that row is enabled.
  pub apply-AppliesEnabled :
      (w : W) → AppliesEnabled (apply_deployment (logged env) user id ([], w)).1.0
  unfolding apply_deployment logged
  apply-AppliesEnabled w =
      get_then env user id AppliesEnabled _ tt (λ c. tt)
        (λ c m s h.
          if_ensures (λ (a : Act (List (Event Q) × W) (TradeError Q X) A). AppliesEnabled (a s).1.0)
            c.is_enabled_ind
            (λ enabled.
              subst
                (λ (l : List (Event Q)). AppliesEnabled (applied (record c { min_qty = m }) ∷ l))
                (sym h) (refl, enabled))
            (λ _. just_read AppliesEnabled c tt s.0 h))
        w
