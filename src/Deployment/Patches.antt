-- ===== src/Deployment/Patches.antt =====
-- What the rows written by an update and by a stop are, next to the row that was read, and which
-- calls an operation makes.
use quant_strategies.Prelude.{ℕ, ◌≡◌, refl, Bool, true, false, Option, none, some, List, [], ◌∷◌}
use quant_strategies.Scheduler.Tick.{DeploymentStatus, DeploymentWrite}
use quant_strategies.Deployment.{
  DeploymentRow, UpdateDeploymentRequest, is_stopped, given, status_after,
}
use quant_strategies.Deployment.Writes.{Event, validated, wrote, applied}

-- A field that a request sets, and one that it leaves.
abbrev pub Sets : {A : Type 0} → Option A → A → A → Type 0
Sets none old new = new ≡ old
Sets (some a) old new = new ≡ a

abbrev pub SetsQty : {Q : Type 0} → Option (Option Q) → Q → Q → Type 0
SetsQty none old new = new ≡ old
SetsQty (some none) old new = ⊥
SetsQty (some (some q)) old new = new ≡ q

-- The status that a request gives: its own; `ACTIVE` where it enables a paused row; else the old one.
abbrev pub SetsStatus :
    Option Bool → Option DeploymentStatus → DeploymentStatus → DeploymentStatus → Type 0
SetsStatus _ (some s) old new = new ≡ s
SetsStatus (some true) none DeploymentStatus.paused new = new ≡ DeploymentStatus.active
SetsStatus _ none old new = new ≡ old

module _ {Q : Type 0} where
  -- A write to the same deployment, strategy, account and instrument.
  abbrev pub SameOrder : ℕ → ℕ → DeploymentRow Q → DeploymentWrite Q → Type 0
  SameOrder user id c w =
      (w.deployment_id ≡ id)
      × (w.app_user_id ≡ user)
      × (w.strategy_id ≡ c.strategy_id)
      × (w.strategy_vid ≡ c.strategy_vid)
      × (w.api_credential_id ≡ c.api_credential_id)
      × (w.app_id ≡ c.app_id)
      × (w.internal_cusip ≡ c.internal_cusip)
      × (w.is_paper_ind ≡ c.is_paper_ind)

  abbrev pub IsPatch :
      ℕ → ℕ → UpdateDeploymentRequest Q → DeploymentRow Q → DeploymentWrite Q → Type 0
  IsPatch user id req c w =
      SameOrder user id c w
      × Sets req.enabled c.is_enabled_ind w.is_enabled_ind
      × SetsStatus req.enabled req.deployment_status c.deployment_status w.deployment_status
      × Sets req.schedule_tm_interval_id c.schedule_tm_interval_id w.schedule_tm_interval_id
      × SetsQty req.qty c.qty w.qty

  abbrev pub Halts : ℕ → ℕ → DeploymentRow Q → DeploymentWrite Q → Type 0
  Halts user id c w =
      SameOrder user id c w
      × (is_stopped c.deployment_status ≡ false)
      × (w.is_enabled_ind ≡ false)
      × (w.deployment_status ≡ DeploymentStatus.stopped)
      × (w.qty ≡ c.qty)
      × (w.schedule_tm_interval_id ≡ c.schedule_tm_interval_id)

  -- At most one write, right after the first read, and related to the row read; no live apply.
  abbrev pub WritesOnce : (DeploymentRow Q → DeploymentWrite Q → Type 0) → List (Event Q) → Type 0
  WritesOnce P [] = Unit
  WritesOnce P (validated _ ∷ log) = WritesOnce P log
  WritesOnce P (wrote w ∷ validated c ∷ []) = P c w
  WritesOnce P (wrote _ ∷ _) = ⊥
  WritesOnce P (applied _ ∷ _) = ⊥

  -- No write, and at most one live apply, of the row just read, which is enabled.
  abbrev pub AppliesEnabled : List (Event Q) → Type 0
  AppliesEnabled [] = Unit
  AppliesEnabled (validated _ ∷ log) = AppliesEnabled log
  AppliesEnabled (applied d ∷ validated c ∷ []) =
      (d.deployment_id ≡ c.deployment_id) × (c.is_enabled_ind ≡ true)
  AppliesEnabled (applied _ ∷ _) = ⊥
  AppliesEnabled (wrote _ ∷ _) = ⊥

pub status_after-SetsStatus :
    (e : Option Bool) (r : Option DeploymentStatus) (o : DeploymentStatus)
    → SetsStatus e r o (status_after e r o)
status_after-SetsStatus none none o = refl
status_after-SetsStatus none (some s) o = refl
status_after-SetsStatus (some false) none o = refl
status_after-SetsStatus (some false) (some s) o = refl
status_after-SetsStatus (some true) (some s) o = refl
status_after-SetsStatus (some true) none DeploymentStatus.created = refl
status_after-SetsStatus (some true) none DeploymentStatus.active = refl
status_after-SetsStatus (some true) none DeploymentStatus.paused = refl
status_after-SetsStatus (some true) none DeploymentStatus.stopped = refl

pub given-Sets : {A : Type 0} (o : Option A) (old : A) → Sets o old (given o old)
given-Sets none old = refl
given-Sets (some a) old = refl
