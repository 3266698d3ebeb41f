-- ===== src/MarketData/Store.antt =====
-- A repository that keeps what it is given, for `MarketData.Service`, and how its calls compose.
use quant_strategies.Prelude.{
  ℕ, suc, ◌+◌, ◌-◌, ◌*◌, ◌/◌, zero, ◌≡◌, ◌⊎◌, ◌↔◌, ◌<◌, ◌≤◌, inl, inr, refl, sym, ◌∙◌, Bool, true,
  false, not, ◌&&◌, ◌||◌, ap, Option, none, some, List, [], ◌∷◌, listed, ltb, leb, ltb→lt, leb→le,
  ◌==◌, ==_iff, Bool-cases, if_ensures, if◌then◌else◌, length, String,
}
use mathlib.Core.Path.{subst}
use mathlib.Core.Bool.{false≢true, true≢false}
use native.Mathlib.Omega.{arith}
use quant_strategies.Prelude.Effects.{
  Act, Outcome, ok, raised, pure, bind_result, attempt, catch_result, ◌>>=◌, ◌>>◌,
}
use quant_strategies.Intervals.{bars_between, floor_at}
use quant_strategies.Intervals.Bars.{bars_between_iff}
use quant_strategies.MarketData.{
  max_backfill_bars, OhlcvBar, Series, Coverage, BarError, BackfillResult, timestamps, fetched_at,
  not_in, rejects, BarEnv,
}
use quant_strategies.MarketData.Service.{
  is_unique_violation, fetch, find_gaps, mapped, inserted_or, insert, count_if, store_one,
  store_from, store, reject_incomplete, fill_window, is_fresh, now_or, last_closed, ensure_fresh,
  backfill_missing, backfill_range, end_or, backfill,
}
use quant_strategies.MarketData.Gaps.{Unfilled, Skipped, not_in-Unfilled, rejects_iff}
pub mod Filled
pub mod Answers
pub mod Returns

-- A series with some of its bars.
abbrev pub Holdings : Type 0 → Type 1
Holdings W = Series → ℕ → W → Type 0

module _ {X W : Type 0} where
  -- What an answer says, if there is one.
  abbrev pub OnOk : {A : Type 0} → (A → W → Type 0) → Outcome (BarError X) A × W → Type 0
  OnOk P (ok a, w) = P a w
  OnOk P (raised e, w) = Unit

  -- An insert that ends well, or that the primary key refuses.
  abbrev pub OnKept : (W → Type 0) → Outcome (BarError X) (Unit {0}) × W → Type 0
  OnKept P (ok _, w) = P w
  OnKept P (raised e, w) = is_unique_violation e ≡ true → P w

  pub bind_ok :
      {A B : Type 0} (P : A → W → Type 0) (R : B → W → Type 0) (t : Outcome (BarError X) A × W)
      (f : A → Act W (BarError X) B)
      → OnOk P t
      → ((a : A) (w : W) → P a w → OnOk R (f a w))
      → OnOk R (bind_result t f)
  bind_ok P R (ok a, w) f h rest = rest a w h
  bind_ok P R (raised e, w) f h rest = tt

  pub weaken :
      {A : Type 0} (P R : A → W → Type 0) (t : Outcome (BarError X) A × W)
      → OnOk P t
      → ((a : A) (w : W) → P a w → R a w)
      → OnOk R t
  weaken P R (ok a, w) h f = f a w h
  weaken P R (raised e, w) h f = tt

-- Every bar that is stored stays stored.
abbrev pub Grows : {W : Type 0} → Holdings W → W → W → Type 0
Grows Stored w v = (s : Series) (t : ℕ) → Stored s t w → Stored s t v

-- A repository that keeps what it is given: no call loses a bar, the rows of a range are stored bars,
-- the last bar of the coverage is stored, and so is a bar after its insert, or where its insert meets
-- the primary key. Periods do not change.
pub record IsStore {Q X W : Type 0} (env : BarEnv Q X W) (period_of : ℕ → ℕ) (Stored : Holdings W)
    : Type 0 where
  pub period_pos : (i : ℕ) → 0 < period_of i
  pub period_is :
      (i : ℕ) (w : W)
      → OnOk (λ p v. Grows Stored w v × (p ≡ period_of i)) (env.get_interval_period i w)
  pub coverage_is :
      (s : Series) (w : W)
      → OnOk
          (λ c v. Grows Stored w v × ((b : Coverage) → c ≡ some b → Stored s b.max_bar_timestamp v))
          (env.get_coverage s w)
  pub bars_are :
      (s : Series) (a b : ℕ) (w : W)
      → OnOk
          (λ rows v.
            Grows Stored w v × ((t : ℕ) → listed t (timestamps rows) ≡ true → Stored s t v))
          (env.get_bars s a b w)
  pub inserted :
      (s : Series) (bar : OhlcvBar Q) (w : W)
      → OnKept (λ v. Grows Stored w v × Stored s bar.bar_timestamp v) (env.ins_bar s bar w)
  pub resolve_keeps :
      (cusip : String) (app : ℕ) (w : W)
      → OnOk (λ _ v. Grows Stored w v) (env.resolve_internal_cusip cusip app w)
  pub type_keeps :
      (cusip : String) (w : W) → OnOk (λ _ v. Grows Stored w v) (env.default_type_for cusip w)
  pub fetch_keeps :
      (symbol : String) (p a b : ℕ) (type : Option String) (w : W)
      → OnOk (λ _ v. Grows Stored w v) (env.fetch_bars symbol p a b type w)
  pub now_keeps : (w : W) → OnOk (λ _ v. Grows Stored w v) (env.now w)

module _ {W : Type 0} (Stored : Holdings W) where
  pub stays : (w : W) → Grows Stored w w
  stays w s t h = h

  pub then-Grows : (u v w : W) → Grows Stored u v → Grows Stored v w → Grows Stored u w
  then-Grows u v w f g s t h = g s t (f s t h)

module _ {X W : Type 0} (Stored : Holdings W) where
  abbrev pub Keeps : {A : Type 0} → Outcome (BarError X) A × W → W → Type 0
  Keeps r w = OnOk (λ _ v. Grows Stored w v) r

  pub then_ok :
      {A B : Type 0} (P : A → W → Type 0) (R : B → W → Type 0) (w : W)
      (t : Outcome (BarError X) A × W) (f : A → Act W (BarError X) B)
      → OnOk (λ a v. Grows Stored w v × P a v) t
      → ((a : A) (v : W) → P a v → OnOk (λ b u. Grows Stored v u × R b u) (f a v))
      → OnOk (λ b u. Grows Stored w u × R b u) (bind_result t f)
  then_ok P R w t f h rest =
      bind_ok (λ a v. Grows Stored w v × P a v) (λ b u. Grows Stored w u × R b u) t f h
        (λ a v k.
          weaken (λ b u. Grows Stored v u × R b u) (λ b u. Grows Stored w u × R b u) (f a v)
            (rest a v k.1) (λ b u m. (then-Grows Stored w v u k.0 m.0, m.1)))

  pub then-Keeps :
      {A B : Type 0} (w : W) (t : Outcome (BarError X) A × W) (f : A → Act W (BarError X) B)
      → Keeps t w
      → ((a : A) (v : W) → Keeps (f a v) v)
      → Keeps (bind_result t f) w
  then-Keeps w t f h rest =
      bind_ok (λ _ v. Grows Stored w v) (λ _ v. Grows Stored w v) t f h
        (λ a v k.
          weaken (λ _ u. Grows Stored v u) (λ _ u. Grows Stored w u) (f a v) (rest a v)
            (λ b u m. then-Grows Stored w v u k m))
