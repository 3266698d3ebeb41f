-- ===== src/Promotion/Ranking.antt =====
-- The SOFT ranking: the first metric, in the order given, on which the two results differ decides.
use text.Mathlib.Text.{◌==◌ as str_eq}
use mathlib.Core.Path.{subst}
use quant_strategies.Prelude.{
  sym, ap, ◌≡◌, ◌≢◌, refl, ◌⊎◌, inl, inr, ◌↔◌, String, true, Option, none, some, List, [], ◌∷◌,
  ◌++◌, if◌then◌else◌, arith, All,
}
use quant_strategies.Prelude.Num.{Num, IsOrdered}
use quant_strategies.Promotion.{
  promoted, kept, Payload, Metric, extract_metric, compare_values, decide, evaluate_soft,
}

kept_not_promoted : ¬ (kept ≡ promoted)
kept_not_promoted e = cc

module _ {Q : Type 0} ⦃n : Num Q⦄ where
  -- `a` is better than `b`, in the metric's direction.
  abbrev pub Better : String → Q → Q → Type 0
  Better direction a b =
      (if str_eq direction "lower_is_better" then n.ltq a b else n.ltq b a) ≡ true

  -- The metric puts the new result ahead: it has a value, and the best has none or a worse one.
  abbrev pub Ahead : Option Q → Option Q → String → Type 0
  Ahead (some a) none direction = Unit
  Ahead (some a) (some b) direction = Better direction a b
  Ahead none _ direction = ⊥

  -- The metric tells nothing: the new result has no value, or neither value is better.
  abbrev pub Level : Option Q → Option Q → String → Type 0
  Level none _ direction = Unit
  Level (some a) none direction = ⊥
  Level (some a) (some b) direction = (¬ Better direction a b) × (¬ Better direction b a)

  abbrev pub AheadOn : Payload Q → Payload Q → Metric Q → Type 0
  AheadOn new best m =
      Ahead (extract_metric new m.metric_key) (extract_metric best m.metric_key) m.direction

  abbrev pub LevelOn : Payload Q → Payload Q → Metric Q → Type 0
  LevelOn new best m =
      Level (extract_metric new m.metric_key) (extract_metric best m.metric_key) m.direction

  -- Some metric puts the new result ahead and all before it tell nothing.
  pub record Leads (new best : Payload Q) (metrics : List (Metric Q)) : Type 0 where
    pub before : List (Metric Q)
    pub decisive : Metric Q
    pub after : List (Metric Q)
    pub split : metrics ≡ before ++ (decisive ∷ after)
    pub level : All (LevelOn new best) before
    pub ahead : AheadOn new best decisive

  -- Both results have a value for the metric.
  abbrev pub Both : Payload Q → Payload Q → Metric Q → Type 0
  Both x y m = (extract_metric x m.metric_key ≢ none) × (extract_metric y m.metric_key ≢ none)

  not_both : (a b : Option Q) (direction : String) → Ahead a b direction → ¬ Level a b direction
  not_both (some a) none direction ahead level = level
  not_both (some a) (some b) direction ahead level = level.0 ahead
  not_both none b direction ahead level = ahead

  module _ (laws : IsOrdered Q) where
    decide_cases :
        (a b : Option Q) (direction : String)
        → ((decide a b direction ≡ some promoted) × Ahead a b direction)
          ⊎ ((decide a b direction ≡ none) × Level a b direction)
          ⊎ ((decide a b direction ≡ some kept) × (¬ Ahead a b direction) × (¬ Level a b direction))
    unfolding decide compare_values
    decide_cases none b direction = inr (inl (refl, tt))
    decide_cases (some a) none direction = inl (refl, tt)
    decide_cases (some a) (some b) direction = ground (arith, laws.lt_asymm a b, laws.lt_asymm b a)

    evaluate_soft-Leads :
        (new best : Payload Q) (ms : List (Metric Q))
        → evaluate_soft new best ms ≡ promoted
        → Leads new best ms
    unfolding evaluate_soft
    evaluate_soft-Leads new best [] e = cc
    evaluate_soft-Leads new best (m ∷ ms) e =
        elim (decide_cases (extract_metric new m.metric_key) (extract_metric best m.metric_key)
          m.direction) [
            | inl (won, ahead) ↦ record {
              before = [];
              decisive = m;
              after = ms;
              split = refl;
              level = tt;
              ahead = ahead;
            }
            | inr (inl (open_, level)) ↦
                let rest = evaluate_soft-Leads new best ms (rw open_ at e) in
                record {
                  before = m ∷ rest.before;
                  decisive = rest.decisive;
                  after = rest.after;
                  split = ap (λ (l : List (Metric Q)). m ∷ l) rest.split;
                  level = (level, rest.level);
                  ahead = rest.ahead;
                }
            | inr (inr (lost, _, _)) ↦ absurd (kept_not_promoted (rw lost at e))
          ]

    Leads-evaluate_soft :
        (new best : Payload Q) (before after : List (Metric Q)) (m : Metric Q)
        → All (LevelOn new best) before
        → AheadOn new best m
        → evaluate_soft new best (before ++ (m ∷ after)) ≡ promoted
    unfolding evaluate_soft
    Leads-evaluate_soft new best [] after m level ahead =
        elim (decide_cases (extract_metric new m.metric_key) (extract_metric best m.metric_key)
          m.direction) [
            | inl (won, _) ↦ rw won
            | inr (inl (_, tied)) ↦ absurd (not_both _ _ m.direction ahead tied)
            | inr (inr (_, not_ahead, _)) ↦ absurd (not_ahead ahead)
          ]
    Leads-evaluate_soft new best (x ∷ before) after m (tied, level) ahead =
        elim (decide_cases (extract_metric new x.metric_key) (extract_metric best x.metric_key)
          x.direction) [
            | inl (_, first) ↦ absurd (not_both _ _ x.direction first tied)
            | inr (inl (none_yet, _)) ↦
                rw none_yet (Leads-evaluate_soft new best before after m level ahead)
            | inr (inr (_, _, not_level)) ↦ absurd (not_level tied)
          ]

    -- A result is promoted over the best exactly when some SOFT metric puts it ahead, with a value
    -- that is better than the best's or where the best has none, and every metric before that one
    -- has no value for it or ties.
    pub evaluate_soft_iff :
        (new best : Payload Q) (ms : List (Metric Q))
        → (evaluate_soft new best ms ≡ promoted) ↔ Leads new best ms
    evaluate_soft_iff new best ms = (
      evaluate_soft-Leads new best ms,
      λ l.
          subst (λ (x : List (Metric Q)). evaluate_soft new best x ≡ promoted) (sym l.split)
            (Leads-evaluate_soft new best l.before l.after l.decisive l.level l.ahead),
    )

    decide_flip :
        (a b : Option Q) (direction : String)
        → a ≢ none
        → b ≢ none
        → ((decide a b direction ≡ some promoted) × (decide b a direction ≡ some kept))
          ⊎ ((decide a b direction ≡ none) × (decide b a direction ≡ none))
          ⊎ (decide a b direction ≡ some kept)
    unfolding decide compare_values
    decide_flip none b direction ha hb = absurd (ha refl)
    decide_flip (some a) none direction ha hb = absurd (hb refl)
    decide_flip (some a) (some b) direction ha hb =
        ground (arith, laws.lt_asymm a b, laws.lt_asymm b a)

    -- Where both results have a value for every SOFT metric, at most one of the two is promoted over
    -- the other: if the first is, the second is kept.
    pub evaluate_soft_asymm :
        (x y : Payload Q) (ms : List (Metric Q))
        → All (Both x y) ms
        → evaluate_soft x y ms ≡ promoted
        → evaluate_soft y x ms ≡ kept
    unfolding evaluate_soft
    evaluate_soft_asymm x y [] both e = refl
    evaluate_soft_asymm x y (m ∷ ms) ((hx, hy), both) e =
        elim (decide_flip (extract_metric x m.metric_key) (extract_metric y m.metric_key)
          m.direction hx hy) [
            | inl (_, back) ↦ rw back
            | inr (inl (tie, back)) ↦ rw back (evaluate_soft_asymm x y ms both (rw tie at e))
            | inr (inr lost) ↦ absurd (kept_not_promoted (rw lost at e))
          ]
