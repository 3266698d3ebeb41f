-- ===== src/Promotion/Tests.antt =====
-- Two results, a metric table, and the promotion theorems at concrete inputs.
use quant_strategies.Prelude.{
  ℕ, ◌≡◌, ◌≢◌, refl, ◌⊎◌, ◌↔◌, true, false, none, some, List, [], ◌∷◌, opt_eq,
}
use quant_strategies.Prelude.Int.{ℤ}
use quant_strategies.Prelude.Nano.{nano_num, nano-IsOrdered, units}
use quant_strategies.Prelude.Effects.{ok}
use quant_strategies.Promotion.{
  Verdict, promoted, kept, demoted, rejected, number, Payload, Metric, evaluate_soft,
  evaluate_promotion, passes_hard_gates, extract_metric, decide, compare_values, group_by_type,
  group_into, evaluate_hard, meets_threshold,
}
use quant_strategies.Promotion.Ranking.{Leads, evaluate_soft_iff, evaluate_soft_asymm}
use quant_strategies.Promotion.Outcomes.{
  MeetsHard, Beats, passes_hard_gates_iff, promoted_iff, current_best_outcome,
}
use quant_strategies.Promotion.Flow.{Job, PromotionEnv, run}
use quant_strategies.Promotion.Writes.{logged, Writes, run-Writes}

abbrev sharpe : ℕ → Payload ℤ
sharpe k = record {
  strategy_metrics = ("Sharpe Ratio", number (units k)) ∷ [];
  buy_hold_metrics = [];
  oos_metrics = [];
}

abbrev hard : Metric ℤ
hard = record {
  metric_key = "Sharpe Ratio";
  name = none;
  requirement_type = some "HARD";
  direction = "higher_is_better";
  threshold = some (units 1);
}

abbrev soft : Metric ℤ
soft = record {
  metric_key = "Sharpe Ratio";
  name = some "Sharpe";
  requirement_type = some "SOFT";
  direction = "higher_is_better";
  threshold = none;
}

abbrev metrics : List (Metric ℤ)
metrics = hard ∷ soft ∷ []

evaluate_soft_iff_example :
    (evaluate_soft (sharpe 2) (sharpe 1) (soft ∷ []) ≡ promoted)
    ↔ Leads (sharpe 2) (sharpe 1) (soft ∷ [])
evaluate_soft_iff_example = evaluate_soft_iff nano-IsOrdered (sharpe 2) (sharpe 1) (soft ∷ [])

ahead : evaluate_soft (sharpe 2) (sharpe 1) (soft ∷ []) ≡ promoted
unfolding evaluate_soft extract_metric decide compare_values quant_strategies.Promotion.finite
ahead = refl

evaluate_soft_asymm_example : evaluate_soft (sharpe 1) (sharpe 2) (soft ∷ []) ≡ kept
unfolding extract_metric quant_strategies.Promotion.finite
evaluate_soft_asymm_example =
    evaluate_soft_asymm nano-IsOrdered (sharpe 2) (sharpe 1) (soft ∷ [])
      (((λ e. cc), (λ e. cc)), tt) ahead

passes_hard_gates_iff_example :
    (passes_hard_gates (sharpe 2) metrics ≡ true) ↔ MeetsHard (sharpe 2) metrics
passes_hard_gates_iff_example = passes_hard_gates_iff nano-IsOrdered (sharpe 2) metrics

promoted_iff_example :
    ((evaluate_promotion (sharpe 2) (some (sharpe 1)) metrics false (some 1) (some 2)).outcome
      ≡ promoted)
    ↔ ((metrics ≢ []) × MeetsHard (sharpe 2) metrics × Beats (sharpe 2) (some (sharpe 1)) metrics)
promoted_iff_example =
    promoted_iff nano-IsOrdered (sharpe 2) (some (sharpe 1)) metrics (some 1) (some 2)

current_best_outcome_example :
    let v = (evaluate_promotion (sharpe 0) none metrics true (some 2) (some 2)).outcome in
    ((v ≡ rejected) × (metrics ≡ []))
    ⊎ ((metrics ≢ [])
        × (((v ≡ demoted) × (¬ MeetsHard (sharpe 0) metrics) × (opt_eq (some 2) (some 1) ≡ false))
            ⊎ ((v ≡ kept) × (MeetsHard (sharpe 0) metrics ⊎ (opt_eq (some 2) (some 1) ≡ true)))))
current_best_outcome_example =
    current_best_outcome nano-IsOrdered (sharpe 0) none metrics (some 2) (some 2)

falls_below_its_gate :
    (evaluate_promotion (sharpe 0) none metrics true (some 2) (some 2)).outcome ≡ demoted
unfolding evaluate_promotion group_by_type group_into evaluate_hard extract_metric meets_threshold
    compare_values quant_strategies.Promotion.finite
falls_below_its_gate = refl

abbrev job : Job
job = record { strategy_id = 3; strategy_vid = 2; user_id = "u" }

-- Version 1, with a Sharpe of 1, is the best so far.
abbrev lab : PromotionEnv ℤ (Unit {0})
lab = record {
  get_promotion_metrics = λ w. (ok metrics, w);
  sp_get_strategy = λ id w. (ok (1 ∷ []), w);
  fetch_result_payload = λ id vid w. (ok (some (sharpe 1)), w);
  validate_promotion_state = λ v w. (ok tt, w);
  flip_best = λ flip w. (ok tt, w);
  ins_promotion = λ row w. (ok tt, w);
}

run-Writes_example :
    let t = run (logged lab) job (sharpe 2) 9 ([], tt) in Writes {W = Unit {0}} job 9 t.0 t.1
run-Writes_example = run-Writes lab job (sharpe 2) 9 tt
