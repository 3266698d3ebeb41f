-- ===== src/Promotion/Flow.antt =====
-- `PromotionRepo.run` of quant/promotion/repo.py: read the current best, decide, and write the
-- decision. The reads and the two procedures that write are calls that may raise.
use quant_strategies.Prelude.{
  ℕ, ◌==◌, String, Bool, false, Option, none, some, List, if◌then◌else◌, head?, map, [], ◌∷◌,
}
use quant_strategies.Prelude.Num.{Num}
use quant_strategies.Prelude.Effects.{Act, pure, ◌>>=◌, ◌>>◌}
use quant_strategies.Order.{Exc}
use quant_strategies.Promotion.{
  Verdict, promoted, demoted, Payload, Metric, GateResult, PromotionDecision, evaluate_promotion,
}

-- The columns of a queue row that the promotion reads.
pub record Job : Type 0 where
  pub strategy_id : ℕ
  pub strategy_vid : ℕ
  pub user_id : String

pub record FlipBest : Type 0 where
  pub strategy_id : ℕ
  pub strategy_vid : Option ℕ
  pub user_id : String

-- A gate as it is stored.
pub record GateRow (Q : Type 0) : Type 0 where
  pub name : String
  pub passed : Bool
  pub value : Option Q
  pub threshold : Option Q

pub record InsPromotion (Q : Type 0) : Type 0 where
  pub queue_id : ℕ
  pub strategy_id : ℕ
  pub strategy_vid : ℕ
  pub outcome : Verdict
  pub user_id : String
  pub compared_vid : Option ℕ
  pub gate_results : Option (List (GateRow Q))

-- `sp_get_strategy` with `is_best_ind="Y"` gives the version numbers of the best rows.
pub record PromotionEnv (Q W : Type 0) : Type 0 where
  pub get_promotion_metrics : Act W Exc (List (Metric Q))
  pub sp_get_strategy : ℕ → Act W Exc (List ℕ)
  pub fetch_result_payload : ℕ → ℕ → Act W Exc (Option (Payload Q))
  pub validate_promotion_state : Verdict → Act W Exc (Unit {0})
  pub flip_best : FlipBest → Act W Exc (Unit {0})
  pub ins_promotion : InsPromotion Q → Act W Exc (Unit {0})

abbrev pub same_vid : Option ℕ → ℕ → Bool
same_vid none vid = false
same_vid (some best) vid = best == vid

-- Which version becomes the best; `none` where the flag does not move.
abbrev pub flip_for : Job → Verdict → Option FlipBest
flip_for job promoted = some (record {
  strategy_id = job.strategy_id;
  strategy_vid = some job.strategy_vid;
  user_id = job.user_id;
})
flip_for job demoted =
    some (record { strategy_id = job.strategy_id; strategy_vid = none; user_id = job.user_id })
flip_for job _ = none

module _ {Q : Type 0} where
  abbrev pub gate_row : GateResult Q → GateRow Q
  gate_row g = record { name = g.name; passed = g.passed; value = g.value; threshold = g.threshold }

  -- No list is stored where there are no gates.
  abbrev pub gate_rows : List (GateResult Q) → Option (List (GateRow Q))
  gate_rows [] = none
  gate_rows (g ∷ gs) = some (map gate_row (g ∷ gs))

  unfoldable pub log_row : Job → ℕ → PromotionDecision Q → InsPromotion Q
  log_row job queue_id decision = record {
    queue_id = queue_id;
    strategy_id = job.strategy_id;
    strategy_vid = job.strategy_vid;
    outcome = decision.outcome;
    user_id = job.user_id;
    compared_vid = decision.compared_vid;
    gate_results = gate_rows decision.gate_results;
  }

module _ {Q W : Type 0} (env : PromotionEnv Q W) where
  unfoldable pub flip_if : Option FlipBest → Act W Exc (Unit {0})
  flip_if none = pure tt
  flip_if (some flip) = env.flip_best flip

  -- `_apply`.
  unfoldable pub apply_decision : Job → ℕ → PromotionDecision Q → Act W Exc (Unit {0})
  unfolding flip_if
  apply_decision job queue_id decision =
      flip_if (flip_for job decision.outcome) >> env.ins_promotion (log_row job queue_id decision)

  -- `_fetch_best_payload`, for a best that is not the candidate.
  unfoldable pub best_payload : Job → Option ℕ → Act W Exc (Option (Payload Q))
  best_payload job none = pure none
  best_payload job (some vid) =
      if vid == job.strategy_vid then pure none else env.fetch_result_payload job.strategy_id vid

  module _ ⦃n : Num Q⦄ where
    -- What follows the reads.
    unfoldable pub decide_and_apply :
        Job
        → Payload Q
        → ℕ
        → List (Metric Q)
        → Option ℕ
        → Option (Payload Q)
        → Act W Exc (PromotionDecision Q)
    decide_and_apply job payload queue_id metrics best_vid best =
        let decision =
          evaluate_promotion payload best metrics (same_vid best_vid job.strategy_vid) best_vid
            (some job.strategy_vid) in
        env.validate_promotion_state decision.outcome
        >> (apply_decision job queue_id decision >> pure decision)

    unfoldable pub run : Job → Payload Q → ℕ → Act W Exc (PromotionDecision Q)
    run job payload queue_id = env.get_promotion_metrics >>= λ metrics.
        env.sp_get_strategy job.strategy_id >>= λ rows. best_payload job (head? rows) >>= λ best.
        decide_and_apply job payload queue_id metrics (head? rows) best
