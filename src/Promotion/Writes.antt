-- ===== src/Promotion/Writes.antt =====
-- What a promotion writes, call by call: `logged` records the writes around any environment.
use mathlib.Core.Path.{subst}
use quant_strategies.Prelude.{
  ℕ, ◌≡◌, refl, sym, ap, Option, none, some, List, [], ◌∷◌, if_ensures, ◌==◌, head?, map,
}
use quant_strategies.Prelude.Num.{Num}
use quant_strategies.Prelude.Effects.{Act, Outcome, ok, raised, pure, bind_result, ◌>>◌}
use quant_strategies.Order.{Exc}
use quant_strategies.Promotion.{
  Payload, Verdict, promoted, kept, demoted, rejected, GateResult, PromotionDecision,
}
use quant_strategies.Promotion.Flow.{
  Job, FlipBest, InsPromotion, PromotionEnv, flip_for, log_row, apply_decision, best_payload,
  decide_and_apply, run, flip_if, GateRow, gate_row, gate_rows,
}

pub data Write (Q : Type 0) : Type 0 where
  flip_call : FlipBest → Outcome Exc (Unit {0}) → Write Q
  row_call : InsPromotion Q → Outcome Exc (Unit {0}) → Write Q

module _ {Q : Type 0} where
  -- One call of the best flag, which ended well: for this user, the strategy's flag is set on the
  -- version `vid`, or on none.
  abbrev MovesTo : Job → Option ℕ → List (Write Q) → Type 0
  MovesTo job vid [] = ⊥
  MovesTo job vid (row_call _ _ ∷ log) = ⊥
  MovesTo job vid (flip_call flip r ∷ log) =
      (flip.strategy_id ≡ job.strategy_id)
      × (flip.strategy_vid ≡ vid)
      × (flip.user_id ≡ job.user_id)
      × (r ≡ ok tt)
      × (log ≡ [])

  -- A promotion sets the flag on the job's own version, a demotion clears it, and nothing else moves it.
  abbrev Moves : Job → Verdict → List (Write Q) → Type 0
  Moves job promoted log = MovesTo job (some job.strategy_vid) log
  Moves job demoted log = MovesTo job none log
  Moves job _ log = log ≡ []

  -- A gate as the row keeps it.
  abbrev KeepsGate : GateResult Q → GateRow Q → Type 0
  KeepsGate g row =
      (row.name ≡ g.name)
      × (row.passed ≡ g.passed)
      × (row.value ≡ g.value)
      × (row.threshold ≡ g.threshold)

  abbrev KeepsGates : List (GateResult Q) → List (GateRow Q) → Type 0
  KeepsGates [] [] = Unit
  KeepsGates (g ∷ gs) (row ∷ rows) = KeepsGate g row × KeepsGates gs rows
  KeepsGates _ _ = ⊥

  -- No list stands for no gates.
  abbrev StoresGates : List (GateResult Q) → Option (List (GateRow Q)) → Type 0
  StoresGates [] stored = stored ≡ none
  StoresGates (g ∷ gs) none = ⊥
  StoresGates (g ∷ gs) (some rows) = KeepsGates (g ∷ gs) rows

  -- The row of a decision on the job.
  abbrev Stores : Job → ℕ → PromotionDecision Q → InsPromotion Q → Type 0
  Stores job queue_id d row =
      (row.queue_id ≡ queue_id)
      × (row.strategy_id ≡ job.strategy_id)
      × (row.strategy_vid ≡ job.strategy_vid)
      × (row.outcome ≡ d.outcome)
      × (row.user_id ≡ job.user_id)
      × (row.compared_vid ≡ d.compared_vid)
      × StoresGates d.gate_results row.gate_results

  KeepsGates-map : (gs : List (GateResult Q)) → KeepsGates gs (map gate_row gs)
  KeepsGates-map [] = tt
  KeepsGates-map (g ∷ gs) = ((refl, refl, refl, refl), KeepsGates-map gs)

  gate_rows-StoresGates : (gs : List (GateResult Q)) → StoresGates gs (gate_rows gs)
  gate_rows-StoresGates [] = refl
  gate_rows-StoresGates (g ∷ gs) = KeepsGates-map (g ∷ gs)

  log_row-Stores :
      (job : Job) (queue_id : ℕ) (d : PromotionDecision Q)
      → Stores job queue_id d (log_row job queue_id d)
  unfolding log_row
  log_row-Stores job queue_id d =
      (refl, refl, refl, refl, refl, refl, gate_rows-StoresGates d.gate_results)

  -- The writes of `_apply` before the row.
  abbrev flips : Option FlipBest → List (Write Q)
  flips none = []
  flips (some flip) = flip_call flip (ok tt) ∷ []

  -- No row is stored.
  abbrev NoRow : List (Write Q) → Type 0
  NoRow [] = Unit
  NoRow (row_call _ (ok _) ∷ log) = ⊥
  NoRow (_ ∷ log) = NoRow log

flips-Moves : (Q : Type 0) (job : Job) (v : Verdict) → Moves {Q = Q} job v (flips (flip_for job v))
flips-Moves Q job promoted = (refl, refl, refl, refl, refl)
flips-Moves Q job kept = refl
flips-Moves Q job demoted = (refl, refl, refl, refl, refl)
flips-Moves Q job rejected = refl

flips-NoRow : (Q : Type 0) (flip : Option FlipBest) → NoRow {Q = Q} (flips flip)
flips-NoRow Q none = tt
flips-NoRow Q (some flip) = tt

module _ {Q W : Type 0} where
  abbrev unseen :
      {A : Type 0} → List (Write Q) → Outcome Exc A × W → Outcome Exc A × (List (Write Q) × W)
  unseen log (r, w) = (r, (log, w))

  abbrev seen :
      (Outcome Exc (Unit {0}) → Write Q)
      → List (Write Q)
      → Outcome Exc (Unit {0}) × W
      → Outcome Exc (Unit {0}) × (List (Write Q) × W)
  seen e log (r, w) = (r, (e r ∷ log, w))

  unfoldable pub logged : PromotionEnv Q W → PromotionEnv Q (List (Write Q) × W)
  logged env = record {
    get_promotion_metrics = λ s. unseen s.0 (env.get_promotion_metrics s.1);
    sp_get_strategy = λ id s. unseen s.0 (env.sp_get_strategy id s.1);
    fetch_result_payload = λ id vid s. unseen s.0 (env.fetch_result_payload id vid s.1);
    validate_promotion_state = λ v s. unseen s.0 (env.validate_promotion_state v s.1);
    flip_best = λ flip s. seen (flip_call flip) s.0 (env.flip_best flip s.1);
    ins_promotion = λ row s. seen (row_call row) s.0 (env.ins_promotion row s.1);
  }

  -- A run that ends well has moved the flag as its decision says, then stored the one row of it, and
  -- written nothing else; one that raises has stored no row.
  abbrev pub Writes : Job → ℕ → Outcome Exc (PromotionDecision Q) → List (Write Q) × W → Type 0
  Writes job queue_id (ok d) (row_call row r ∷ log, w) =
      Stores job queue_id d row × (r ≡ ok tt) × Moves job d.outcome log
  Writes job queue_id (ok d) (_, w) = ⊥
  Writes job queue_id (raised _) (log, w) = NoRow log

  unseen_ensures :
      {A B : Type 0} (P : Outcome Exc B → List (Write Q) × W → Type 0) (log : List (Write Q))
      (t : Outcome Exc A × W) (f : A → Act (List (Write Q) × W) Exc B)
      → ((a : A) (w : W) → P (f a (log, w)).0 (f a (log, w)).1)
      → ((x : Exc) (w : W) → P (raised x) (log, w))
      → P (bind_result (unseen log t) f).0 (bind_result (unseen log t) f).1
  unseen_ensures P log (ok a, w) f h k = h a w
  unseen_ensures P log (raised x, w) f h k = k x w

module _ {Q W : Type 0} ⦃n : Num Q⦄ (env : PromotionEnv Q W) (job : Job) (payload : Payload Q)
    (queue_id : ℕ) where
  after_row :
      (d : PromotionDecision Q) (log : List (Write Q)) (t : Outcome Exc (Unit {0}) × W)
      → log ≡ flips (flip_for job d.outcome)
      → let t' : Outcome Exc (PromotionDecision Q) × (List (Write Q) × W) =
          bind_result (seen (row_call (log_row job queue_id d)) log t) (λ _. pure d) in
        Writes {W = W} job queue_id t'.0 t'.1
  after_row d log (ok _, w) e = (
    log_row-Stores job queue_id d,
    refl,
    subst (Moves job d.outcome) (sym e) (flips-Moves Q job d.outcome),
  )
  after_row d log (raised x, w) e = subst NoRow (sym e) (flips-NoRow Q (flip_for job d.outcome))

  after_flip :
      (d : PromotionDecision Q) (flip : FlipBest) (t : Outcome Exc (Unit {0}) × W)
      → flip_for job d.outcome ≡ some flip
      → let t' : Outcome Exc (PromotionDecision Q) × (List (Write Q) × W) =
          bind_result
            (bind_result
              (seen (flip_call flip) [] t)
              (λ _. (logged env).ins_promotion (log_row job queue_id d)))
            (λ _. pure d) in
        Writes {W = W} job queue_id t'.0 t'.1
  unfolding logged
  after_flip d flip (ok _, w) e =
      after_row d (flip_call flip (ok tt) ∷ []) (env.ins_promotion (log_row job queue_id d) w)
        (ap flips (sym e))
  after_flip d flip (raised x, w) e = tt

  applied_flip :
      (d : PromotionDecision Q) (flip : Option FlipBest) (w : W)
      → flip_for job d.outcome ≡ flip
      → let t' : Outcome Exc (PromotionDecision Q) × (List (Write Q) × W) =
          bind_result
            (bind_result
              (flip_if (logged env) flip ([], w))
              (λ _. (logged env).ins_promotion (log_row job queue_id d)))
            (λ _. pure d) in
        Writes {W = W} job queue_id t'.0 t'.1
  unfolding flip_if logged
  applied_flip d none w e =
      after_row d [] (env.ins_promotion (log_row job queue_id d) w) (ap flips (sym e))
  applied_flip d (some flip) w e = after_flip d flip (env.flip_best flip w) e

  applied :
      (d : PromotionDecision Q) (w : W)
      → let t = (apply_decision (logged env) job queue_id d >> pure d) ([], w) in
        Writes {W = W} job queue_id t.0 t.1
  unfolding apply_decision
  applied d w = applied_flip d (flip_for job d.outcome) w refl

  best_payload_then :
      (vid : Option ℕ) (f : Option (Payload Q) → Act (List (Write Q) × W) Exc (PromotionDecision Q))
      (w : W)
      → ((best : Option (Payload Q)) (w : W)
          → Writes {W = W} job queue_id (f best ([], w)).0 (f best ([], w)).1)
      → let t = bind_result (best_payload (logged env) job vid ([], w)) f in
        Writes {W = W} job queue_id t.0 t.1
  unfolding best_payload logged
  best_payload_then none f w h = h none w
  best_payload_then (some vid) f w h =
      if_ensures
        (λ (m : Act (List (Write Q) × W) Exc (Option (Payload Q))).
          Writes {W = W} job queue_id (bind_result (m ([], w)) f).0 (bind_result (m ([], w)) f).1)
        (vid == job.strategy_vid) (λ same. h none w)
        (λ other.
          unseen_ensures (Writes {W = W} job queue_id) []
            (env.fetch_result_payload job.strategy_id vid w) f h (λ x w'. tt))

  -- A promotion run that ends well has written exactly its decision: the best flag moved to this
  -- version if it is promoted, off the current best if it is demoted, and not at all otherwise, and
  -- after that one row with the outcome. A run that raises has stored no row.
  pub run-Writes :
      (w : W)
      → let t = run (logged env) job payload queue_id ([], w) in Writes {W = W} job queue_id t.0 t.1
  unfolding run decide_and_apply logged
  run-Writes w =
      let Good = Writes {Q = Q} {W = W} job queue_id in
      unseen_ensures Good [] (env.get_promotion_metrics w) _
        (λ metrics w1.
          unseen_ensures Good [] (env.sp_get_strategy job.strategy_id w1) _
            (λ rows w2. best_payload_then (head? rows) _ w2 (λ best w3.
              unseen_ensures Good [] (env.validate_promotion_state _ w3) _ (λ u w4. applied _ w4)
                (λ x w'. tt)))
            (λ x w'. tt))
        (λ x w'. tt)
