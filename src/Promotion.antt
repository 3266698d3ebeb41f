-- ===== src/Promotion.antt =====
-- quant/promotion/evaluate.py: HARD gates, SOFT ranking and the decision for one optimisation
-- result, over any kind of finite number.
pub mod Flow
pub mod Groups
pub mod Writes
pub mod Ranking
pub mod Outcomes
mod Tests
use text.Mathlib.Text.{◌==◌ as str_eq}
use quant_strategies.Prelude.{
  ℕ, zero, suc, ◌==◌, String, Bool, true, false, not, ◌&&◌, Option, none, some, List, [], ◌∷◌, ◌++◌,
  if◌then◌else◌, all, opt_eq,
}
use quant_strategies.Prelude.Int.{ℤ, pos, negsuc, sub_ℕ}
use quant_strategies.Prelude.Num.{Num}

pub data Verdict : Type 0 where
  promoted kept demoted rejected : Verdict

-- A stored metric as `_finite` sees it: absent or null, a Boolean, what `float` turns into a finite
-- number, or what it refuses or turns into NaN or an infinity.
pub data Raw (Q : Type 0) : Type 0 where
  null : Raw Q
  boolean : Bool → Raw Q
  number : Q → Raw Q
  not_finite : Raw Q

-- A stored result: the three dictionaries that a metric is read from; an absent one is empty.
pub record Payload (Q : Type 0) : Type 0 where
  pub strategy_metrics : List (String × Raw Q)
  pub buy_hold_metrics : List (String × Raw Q)
  pub oos_metrics : List (String × Raw Q)

-- A row of `CONFIG.PROMOTION_METRIC`.
pub record Metric (Q : Type 0) : Type 0 where
  pub metric_key : String
  pub name : Option String
  pub requirement_type : Option String
  pub direction : String
  pub threshold : Option Q

pub record GateResult (Q : Type 0) : Type 0 where
  pub name : String
  pub metric_key : String
  pub passed : Bool
  pub value : Option Q
  pub threshold : Option Q

pub record PromotionDecision (Q : Type 0) : Type 0 where
  pub outcome : Verdict
  pub gate_results : List (GateResult Q)
  pub compared_vid : Option ℕ

module _ {ℓ} {A : Type ℓ} where
  -- `d.get(key)` of a dictionary whose entries are listed.
  abbrev pub lookup : String → List (String × A) → Option A
  lookup k [] = none
  lookup k ((j, a) ∷ d) = if str_eq j k then some a else lookup k d

  -- `d.setdefault(key, []).append(a)`.
  abbrev pub append_under : String → A → List (String × List A) → List (String × List A)
  append_under k a [] = (k, a ∷ []) ∷ []
  append_under k a ((j, items) ∷ d) =
      if str_eq j k then (j, items ++ (a ∷ [])) ∷ d else (j, items) ∷ append_under k a d

  -- `d.get(key, [])`.
  abbrev pub get_list : String → List (String × List A) → List A
  get_list k [] = []
  get_list k ((j, items) ∷ d) = if str_eq j k then items else get_list k d

abbrev pub text_or : String → Option String → String
text_or d none = d
text_or d (some s) = s

abbrev bit : Bool → ℕ
bit true = 1
bit false = 0

abbrev not_negative : ℤ → Bool
not_negative (pos _) = true
not_negative (negsuc _) = false

abbrev pub first_decision : Option Verdict → Verdict → Verdict
first_decision none rest = rest
first_decision (some v) rest = v

abbrev is_nil {ℓ} : {A : Type ℓ} → List A → Bool
is_nil [] = true
is_nil (_ ∷ _) = false

module _ {Q : Type 0} where
  unfoldable pub finite : Option (Raw Q) → Option Q
  finite (some (number q)) = some q
  finite _ = none

  -- `_group_by_type`.
  unfoldable pub group_into :
      List (String × List (Metric Q)) → List (Metric Q) → List (String × List (Metric Q))
  group_into grouped [] = grouped
  group_into grouped (m ∷ ms) =
      group_into (append_under (text_or "" m.requirement_type) m grouped) ms

  unfoldable pub group_by_type : List (Metric Q) → List (String × List (Metric Q))
  group_by_type metrics = group_into [] metrics

module _ {Q : Type 0} ⦃n : Num Q⦄ where
  difference : Option Q → Option Q → Option Q
  difference (some a) (some b) = some (n.sub a b)
  difference _ _ = none

  unfoldable pub extract_metric : Payload Q → String → Option Q
  unfolding difference
  extract_metric payload key =
      if str_eq key "OOS Sharpe Ratio"
      then finite (lookup "Sharpe Ratio" payload.oos_metrics)
      else if str_eq key "Sharpe Excess"
      then difference (finite (lookup "Sharpe Ratio" payload.strategy_metrics))
          (finite (lookup "Sharpe Ratio" payload.buy_hold_metrics))
      else finite (lookup key payload.strategy_metrics)

  -- `_compare`: 1, 0 or -1.
  unfoldable pub compare_values : Q → Q → String → ℤ
  compare_values a b direction =
      if str_eq direction "lower_is_better"
      then sub_ℕ (bit (n.ltq a b)) (bit (n.ltq b a))
      else sub_ℕ (bit (n.ltq b a)) (bit (n.ltq a b))

  unfoldable pub meets_threshold : Option Q → Q → String → Bool
  meets_threshold none threshold direction = false
  meets_threshold (some value) threshold direction =
      not_negative (compare_values value threshold direction)

  gate : Payload Q → Metric Q → Q → GateResult Q
  gate payload m threshold = record {
    name = text_or m.metric_key m.name;
    metric_key = m.metric_key;
    passed = meets_threshold (extract_metric payload m.metric_key) threshold m.direction;
    value = extract_metric payload m.metric_key;
    threshold = some threshold;
  }

  gates_with : Payload Q → Metric Q → Option Q → List (GateResult Q) → List (GateResult Q)
  gates_with payload m none rest = rest
  gates_with payload m (some threshold) rest = gate payload m threshold ∷ rest

  unfoldable pub evaluate_hard : Payload Q → List (Metric Q) → List (GateResult Q)
  unfolding gate gates_with
  evaluate_hard payload [] = []
  evaluate_hard payload (m ∷ ms) = gates_with payload m m.threshold (evaluate_hard payload ms)

  -- One step of the ranking: `some` where this metric decides.
  unfoldable pub decide : Option Q → Option Q → String → Option Verdict
  decide none _ direction = none
  decide (some new) none direction = some promoted
  decide (some new) (some best) direction = elim (compare_values new best direction) [
    | pos zero ↦ none
    | pos (suc _) ↦ some promoted
    | negsuc _ ↦ some kept
  ]

  unfoldable pub evaluate_soft : Payload Q → Payload Q → List (Metric Q) → Verdict
  evaluate_soft new best [] = kept
  evaluate_soft new best (m ∷ ms) =
      first_decision
        (decide (extract_metric new m.metric_key) (extract_metric best m.metric_key) m.direction)
        (evaluate_soft new best ms)

  unfoldable pub passes_hard_gates : Payload Q → List (Metric Q) → Bool
  passes_hard_gates payload metrics =
      all (λ g. g.passed) (evaluate_hard payload (get_list "HARD" (group_by_type metrics)))

  ranked : Payload Q → Option (Payload Q) → List (Metric Q) → Verdict
  ranked new none soft = promoted
  ranked new (some best) soft = evaluate_soft new best soft

  -- The decision once the gates are known.
  unfoldable pub judged :
      Payload Q
      → Option (Payload Q)
      → List (Metric Q)
      → Bool
      → Option ℕ
      → Option ℕ
      → List (GateResult Q)
      → PromotionDecision Q
  unfolding ranked
  judged new best soft is_current_best best_vid strategy_vid gates =
      let all_passed = all (λ (g : GateResult Q). g.passed) gates in
      if is_current_best
      then record {
        outcome =
            if opt_eq strategy_vid (some 1) then kept else if all_passed then kept else demoted;
        gate_results = gates;
        compared_vid = none;
      }
      else record {
        outcome = if all_passed then ranked new best soft else rejected;
        gate_results = gates;
        compared_vid = best_vid;
      }

  unfoldable pub evaluate_promotion :
      Payload Q
      → Option (Payload Q)
      → List (Metric Q)
      → Bool
      → Option ℕ
      → Option ℕ
      → PromotionDecision Q
  unfolding judged
  evaluate_promotion new best metrics is_current_best best_vid strategy_vid =
      if is_nil metrics
      then record { outcome = rejected; gate_results = []; compared_vid = best_vid }
      else judged new best (get_list "SOFT" (group_by_type metrics)) is_current_best best_vid
          strategy_vid (evaluate_hard new (get_list "HARD" (group_by_type metrics)))
