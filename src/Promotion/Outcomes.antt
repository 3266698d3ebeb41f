-- ===== src/Promotion/Outcomes.antt =====
-- Which results pass the HARD gates, and what `evaluate_promotion` decides.
use text.Mathlib.Text.{◌==◌ as str_eq}
use mathlib.Core.Bool.{false≢true}
use quant_strategies.Prelude.{
  ℕ, ◌≡◌, ◌≢◌, refl, ◌⊎◌, inl, inr, ◌↔◌, String, Bool, true, false, Option, none, some, List, [],
  ◌∷◌, if◌then◌else◌, arith, All, all, opt_eq, Bool-cases, and_iff, sym, ◌∙◌,
}
use quant_strategies.Prelude.Num.{Num, IsOrdered}
use quant_strategies.Promotion.{
  Verdict, promoted, kept, demoted, rejected, Payload, Metric, extract_metric, compare_values,
  meets_threshold, evaluate_hard, evaluate_soft, passes_hard_gates, text_or, get_list,
  group_by_type, evaluate_promotion, gates_with,
}
use quant_strategies.Promotion.Groups.{of_type, get_list-group_by_type}
use quant_strategies.Promotion.Ranking.{Better, Leads, evaluate_soft_iff}

rejected_not_promoted : ¬ (rejected ≡ promoted)
rejected_not_promoted e = cc

module _ {Q : Type 0} ⦃n : Num Q⦄ where
  -- A value, no worse than the threshold. A metric with no threshold asks for nothing.
  abbrev pub Clears : Option Q → Option Q → String → Type 0
  Clears value none direction = Unit
  Clears none (some t) direction = ⊥
  Clears (some v) (some t) direction = ¬ Better direction t v

  abbrev pub Meets : Payload Q → Metric Q → Type 0
  Meets payload m = Clears (extract_metric payload m.metric_key) m.threshold m.direction

  -- Each metric of type HARD is met.
  abbrev pub MeetsHard : Payload Q → List (Metric Q) → Type 0
  MeetsHard payload [] = Unit
  MeetsHard payload (m ∷ ms) =
      (str_eq (text_or "" m.requirement_type) "HARD" ≡ true → Meets payload m)
      × MeetsHard payload ms

  -- There is no best to rank against, or the new result leads it on the SOFT metrics.
  abbrev pub Beats : Payload Q → Option (Payload Q) → List (Metric Q) → Type 0
  Beats new none metrics = Unit
  Beats new (some best) metrics = Leads new best (of_type "SOFT" metrics)

  module _ (laws : IsOrdered Q) where
    meets_threshold_iff :
        (v : Option Q) (t : Q) (direction : String)
        → (meets_threshold v t direction ≡ true) ↔ Clears v (some t) direction
    unfolding meets_threshold compare_values
    meets_threshold_iff none t direction = ground arith
    meets_threshold_iff (some v) t direction = ground (arith, laws.lt_asymm v t, laws.lt_asymm t v)

    gates_iff :
        (payload : Payload Q) (ms : List (Metric Q))
        → (all (λ g. g.passed) (evaluate_hard payload ms) ≡ true) ↔ All (Meets payload) ms
    unfolding evaluate_hard
    gates_iff payload [] = (λ _. tt, λ _. refl)
    gates_iff payload (m ∷ ms) = head (m.threshold) (gates_iff payload ms)
      where
        head :
            (t : Option Q)
            → ((all (λ g. g.passed) (evaluate_hard payload ms) ≡ true) ↔ All (Meets payload) ms)
            → (all (λ g. g.passed) (gates_with payload m t (evaluate_hard payload ms)) ≡ true) ↔ (
                Clears (extract_metric payload m.metric_key) t m.direction × All (Meets payload) ms)
        head none ih = (λ h. (tt, ih.0 h), λ h. ih.1 h.1)
        head (some t) ih =
            and_iff (meets_threshold (extract_metric payload m.metric_key) t m.direction)
              (all (λ g. g.passed) (evaluate_hard payload ms))
              (meets_threshold_iff (extract_metric payload m.metric_key) t m.direction) ih

    of_type-MeetsHard :
        (payload : Payload Q) (ms : List (Metric Q))
        → All (Meets payload) (of_type "HARD" ms) ↔ MeetsHard payload ms
    of_type-MeetsHard payload [] = (λ _. tt, λ _. tt)
    of_type-MeetsHard payload (m ∷ ms) =
        let ih = of_type-MeetsHard payload ms in
        elim (Bool-cases (str_eq (text_or "" m.requirement_type) "HARD")) [
          | inl hard ↦ rw hard (λ h. (λ _. h.0, ih.0 h.1), λ h. (h.0 refl, ih.1 h.1))
          | inr other ↦ rw other (λ h. (λ e. absurd (false≢true e), ih.0 h), λ h. ih.1 h.1)
        ]

    -- A result passes the gates exactly when each metric of type HARD that has a threshold has a
    -- finite value no worse than it.
    pub passes_hard_gates_iff :
        (payload : Payload Q) (metrics : List (Metric Q))
        → (passes_hard_gates payload metrics ≡ true) ↔ MeetsHard payload metrics
    unfolding passes_hard_gates
    passes_hard_gates_iff payload metrics = rw (get_list-group_by_type "HARD" metrics) (
        let e = gates_iff payload (of_type "HARD" metrics) in
        let f = of_type-MeetsHard payload metrics in (λ h. f.0 (e.0 h), λ h. e.1 (f.1 h)))

    no_metrics :
        (new : Payload Q) (best : Option (Payload Q)) (is_best : Bool)
        (best_vid strategy_vid : Option ℕ)
        → (evaluate_promotion new best [] is_best best_vid strategy_vid).outcome ≡ rejected
    unfolding evaluate_promotion
    no_metrics new best is_best best_vid strategy_vid = refl

    cons_not_nil : {x : Metric Q} {xs : List (Metric Q)} → (x ∷ xs) ≢ []
    cons_not_nil e = cc

    outcome_of_contender :
        (new : Payload Q) (best : Option (Payload Q)) (metrics : List (Metric Q))
        (best_vid strategy_vid : Option ℕ)
        → metrics ≢ []
        → (evaluate_promotion new best metrics false best_vid strategy_vid).outcome ≡ (
            if passes_hard_gates new metrics
            then elim best [
              | none ↦ promoted
              | some b ↦ evaluate_soft new b (get_list "SOFT" (group_by_type metrics))
            ]
            else rejected)
    unfolding evaluate_promotion passes_hard_gates
    outcome_of_contender new best [] best_vid strategy_vid some_metric = absurd (some_metric refl)
    outcome_of_contender new none (m ∷ ms) best_vid strategy_vid some_metric = refl
    outcome_of_contender new (some b) (m ∷ ms) best_vid strategy_vid some_metric = refl

    Beats-iff :
        (new : Payload Q) (best : Option (Payload Q)) (metrics : List (Metric Q))
        → (elim best as (λ _. Verdict) [
          | none ↦ promoted
          | some b ↦ evaluate_soft new b (get_list "SOFT" (group_by_type metrics))
        ]
            ≡ promoted)
          ↔ Beats new best metrics
    Beats-iff new none metrics = (λ _. tt, λ _. refl)
    Beats-iff new (some b) metrics =
        rw (get_list-group_by_type "SOFT" metrics)
          (evaluate_soft_iff laws new b (of_type "SOFT" metrics))

    contender_iff :
        (new : Payload Q) (best : Option (Payload Q)) (metrics : List (Metric Q))
        (best_vid strategy_vid : Option ℕ)
        → metrics ≢ []
        → ((evaluate_promotion new best metrics false best_vid strategy_vid).outcome ≡ promoted)
          ↔ (MeetsHard new metrics × Beats new best metrics)
    contender_iff new best metrics best_vid strategy_vid some_metric =
        rw (outcome_of_contender new best metrics best_vid strategy_vid some_metric) (
          gated (passes_hard_gates new metrics) (passes_hard_gates_iff new metrics)
            (Beats-iff new best metrics))
      where
        gated :
            {v : Verdict} (b : Bool)
            → ((b ≡ true) ↔ MeetsHard new metrics)
            → ((v ≡ promoted) ↔ Beats new best metrics)
            → ((if b then v else rejected) ≡ promoted)
              ↔ (MeetsHard new metrics × Beats new best metrics)
        gated true e f = (λ h. (e.0 refl, f.0 h), λ h. f.1 h.1)
        gated false e f =
            (λ h. absurd (rejected_not_promoted h), λ h. absurd (false≢true (e.1 h.0)))

    -- A contender, which is not the current best, is promoted exactly when some metric is given, it
    -- meets every HARD metric, and there is no best with a stored result or it leads the best on the
    -- SOFT metrics. Without any metric it is not promoted.
    pub promoted_iff :
        (new : Payload Q) (best : Option (Payload Q)) (metrics : List (Metric Q))
        (best_vid strategy_vid : Option ℕ)
        → ((evaluate_promotion new best metrics false best_vid strategy_vid).outcome ≡ promoted)
          ↔ ((metrics ≢ []) × MeetsHard new metrics × Beats new best metrics)
    promoted_iff new best [] best_vid strategy_vid = (
      λ h.
          absurd
            (rejected_not_promoted (sym (no_metrics new best false best_vid strategy_vid) ∙ h)),
      λ h. absurd (h.0 refl),
    )
    promoted_iff new best (m ∷ ms) best_vid strategy_vid =
        let some_metric : (m ∷ ms) ≢ [] = λ e. cons_not_nil e in
        let e = contender_iff new best (m ∷ ms) best_vid strategy_vid some_metric in
        (λ h. (some_metric, (e.0 h).0, (e.0 h).1), λ h. e.1 (h.1, h.2))

    outcome_of_best :
        (new : Payload Q) (best : Option (Payload Q)) (metrics : List (Metric Q))
        (best_vid strategy_vid : Option ℕ)
        → metrics ≢ []
        → (evaluate_promotion new best metrics true best_vid strategy_vid).outcome ≡ (
            if opt_eq strategy_vid (some 1)
            then kept
            else if passes_hard_gates new metrics
            then kept
            else demoted)
    unfolding evaluate_promotion passes_hard_gates
    outcome_of_best new best [] best_vid strategy_vid some_metric = absurd (some_metric refl)
    outcome_of_best new best (m ∷ ms) best_vid strategy_vid some_metric = refl

    best_cases :
        {P : Type 0} (v : Verdict) (first passes : Bool)
        → v ≡ (if first then kept else if passes then kept else demoted)
        → ((passes ≡ true) ↔ P)
        → ((v ≡ demoted) × (¬ P) × (first ≡ false)) ⊎ ((v ≡ kept) × (P ⊎ (first ≡ true)))
    best_cases v true passes e p = inr (e, inr refl)
    best_cases v false true e p = inr (e, inl (p.0 refl))
    best_cases v false false e p = inl (e, (λ h. absurd (false≢true (p.1 h))), refl)

    best_iff :
        (new : Payload Q) (best : Option (Payload Q)) (metrics : List (Metric Q))
        (best_vid strategy_vid : Option ℕ)
        → metrics ≢ []
        → let v = (evaluate_promotion new best metrics true best_vid strategy_vid).outcome in
          ((v ≡ demoted) × (¬ MeetsHard new metrics) × (opt_eq strategy_vid (some 1) ≡ false))
          ⊎ ((v ≡ kept) × (MeetsHard new metrics ⊎ (opt_eq strategy_vid (some 1) ≡ true)))
    best_iff new best metrics best_vid strategy_vid some_metric =
        best_cases _ (opt_eq strategy_vid (some 1)) (passes_hard_gates new metrics)
          (outcome_of_best new best metrics best_vid strategy_vid some_metric)
          (passes_hard_gates_iff new metrics)

    -- A re-run of the current best is never promoted. With no metrics given it is rejected. With some, it
    -- is demoted exactly when it misses a HARD metric and is not version 1, and kept otherwise.
    pub current_best_outcome :
        (new : Payload Q) (best : Option (Payload Q)) (metrics : List (Metric Q))
        (best_vid strategy_vid : Option ℕ)
        → let v = (evaluate_promotion new best metrics true best_vid strategy_vid).outcome in
          ((v ≡ rejected) × (metrics ≡ []))
          ⊎ ((metrics ≢ [])
              × (((v ≡ demoted)
                    × (¬ MeetsHard new metrics)
                    × (opt_eq strategy_vid (some 1) ≡ false))
                  ⊎ ((v ≡ kept) × (MeetsHard new metrics ⊎ (opt_eq strategy_vid (some 1) ≡ true)))))
    current_best_outcome new best [] best_vid strategy_vid =
        inl (no_metrics new best true best_vid strategy_vid, refl)
    current_best_outcome new best (m ∷ ms) best_vid strategy_vid =
        let some_metric : (m ∷ ms) ≢ [] = λ e. cons_not_nil e in
        inr (some_metric, best_iff new best (m ∷ ms) best_vid strategy_vid some_metric)
