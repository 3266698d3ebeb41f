-- ===== src/MarketData/Plan.antt =====
-- The passes of a staged backfill, `plan`: on a grid target they count down to 0, and what a target
-- between two bars is answered with.
use quant_strategies.Prelude.{
  ℕ, suc, ◌+◌, ◌-◌, ◌*◌, ◌/◌, ◌≡◌, ◌≤◌, ◌<◌, refl, ap, ◌∙◌, Option, none, some, ltb, leb, ltb→lt,
  leb→le, if◌then◌else◌, if_ensures, Bool-cases, inl, inr,
}
use native.Mathlib.Omega.{arith}
use native.Mathlib.Nat.{mul-le-mul_right}
use quant_strategies.Prelude.Int.{ℤ, pos, sub_ℕ}
use quant_strategies.Prelude.Effects.{Act, raised}
use quant_strategies.MarketData.{
  max_backfill_bars, Coverage, BackfillPlan, BackfillResult, BarError, value_error, Series, BarEnv,
  span_bars, ceil_passes, plan_to, nothing_to_do, plan,
}
use quant_strategies.MarketData.Service.{backfill_range}

div_multiple : (k p : ℕ) → 0 < p → k * p / p ≡ k
div_multiple k p h = grind arith

multiple_add : (d a p : ℕ) → (d + a) * p ≡ d * p + a * p
multiple_add d a p = omega arith

multiple_sub : (a b p : ℕ) → a ≤ b → b * p - a * p ≡ (b - a) * p
multiple_sub a b p le =
    let sum = multiple_add (b - a) a p in
    let whole : (b - a + a) * p ≡ b * p = ap (λ (t : ℕ). t * p) (omega arith) in omega arith

-- The bars between two boundaries, both counted.
span_multiple : (a b p : ℕ) → 0 < p → a ≤ b → span_bars (a * p) (b * p) p ≡ pos (b - a + 1)
unfolding span_bars
span_multiple a b p h le =
    let le_p : a * p ≤ b * p = mul-le-mul_right p le in
    let quotient : (b * p - a * p) / p ≡ b - a =
      ap (λ (t : ℕ). t / p) (multiple_sub a b p le) ∙ div_multiple (b - a) p h in
    if_ensures (λ (z : ℤ). z ≡ pos (b - a + 1)) (leb (a * p) (b * p))
      (λ _.
        if_ensures (λ (z : ℤ). z ≡ pos (b - a + 1)) (leb 0 ((b * p - a * p) / p + 1))
          (λ _. ap pos (omega arith)) (λ e. absurd (ground arith)))
      (λ e. absurd (ground arith))

-- A target that is `n` bars away takes `n / max_backfill_bars` passes, rounded up.
abbrev passes : ℕ → ℕ
passes n = (n + (max_backfill_bars - 1)) / max_backfill_bars

plan_to-passes :
    (p a e : ℕ)
    → 0 < p
    → a ≤ e
    → (plan_to p (a * p) (e * p)).passes_remaining ≡ pos (passes (e - a + 1))
unfolding ceil_passes
plan_to-passes p a e h le = ap ceil_passes (span_multiple a e p h le)

passes_of_few : (n : ℕ) → 1 ≤ n → n ≤ max_backfill_bars → passes n ≡ 1
passes_of_few n lo hi = omega arith

passes_of_more : (n : ℕ) → max_backfill_bars < n → passes n ≡ suc (passes (n - max_backfill_bars))
passes_of_more n h = omega arith

-- The start of the pass that ends at bar `e`, as a bar number.
start_bar : ℕ → ℕ → ℕ
start_bar a e = if ltb (a + (max_backfill_bars - 1)) e then e - (max_backfill_bars - 1) else a

reach_far :
    (p a e : ℕ)
    → 0 < p
    → a + (max_backfill_bars - 1) < e
    → (e * p - p * (max_backfill_bars - 1) ≡ (e - (max_backfill_bars - 1)) * p)
      × (a * p < e * p - p * (max_backfill_bars - 1))
reach_far p a e h far =
    let back = multiple_sub (max_backfill_bars - 1) e p (omega arith) in
    let above : suc a * p ≤ (e - (max_backfill_bars - 1)) * p = mul-le-mul_right p (omega arith) in
    let next = multiple_add 1 a p in
    let same : suc a * p ≡ (1 + a) * p = ap (λ (t : ℕ). t * p) (omega arith) in
    (omega arith, omega arith)

reach_near :
    (p a e : ℕ) → e ≤ a + (max_backfill_bars - 1) → e * p - p * (max_backfill_bars - 1) ≤ a * p
reach_near p a e near =
    let below : e * p ≤ (a + (max_backfill_bars - 1)) * p = mul-le-mul_right p near in
    let sum = multiple_add a (max_backfill_bars - 1) p in omega arith

-- The start of a pass toward bar `a` that ends at bar `e`.
abbrev pub pass_start : ℕ → ℕ → ℕ → ℕ
pass_start period target end =
    let reach = end - period * (max_backfill_bars - 1) in if ltb target reach then reach else target

pass_start-eq : (p a e : ℕ) → 0 < p → pass_start p (a * p) (e * p) ≡ start_bar a e * p
unfolding start_bar
pass_start-eq p a e h = elim (Bool-cases (ltb (a + (max_backfill_bars - 1)) e)) [
  | inl far ↦
      let facts = reach_far p a e h (ltb→lt (a + (max_backfill_bars - 1)) e far) in
      ground (arith, facts.0, facts.1)
  | inr near ↦ let fact = reach_near p a e (ground arith) in ground arith
]

start_bar_bounds :
    (a e : ℕ)
    → a ≤ e
    → (a ≤ start_bar a e) × (start_bar a e ≤ e) × (e - start_bar a e + 1 ≤ max_backfill_bars)
unfolding start_bar
start_bar_bounds a e h = ground arith

-- The number of passes drops by one when the pass has stored its first bar.
passes-start_bar : (a e : ℕ) → a ≤ e → passes (e - a + 1) ≡ suc (passes (start_bar a e - a))
unfolding start_bar
passes-start_bar a e h =
    if_ensures (λ (s : ℕ). passes (e - a + 1) ≡ suc (passes (s - a)))
      (ltb (a + (max_backfill_bars - 1)) e)
      (λ far. let lt = ltb→lt (a + (max_backfill_bars - 1)) e far in omega arith)
      (λ near. let le : e ≤ a + (max_backfill_bars - 1) = ground arith in omega arith)

-- The same bound, from two multiples of the period.
bars_le : (a f p : ℕ) → 0 < p → f * p ≤ a * p → f ≤ a
bars_le a f p h le = elim (Bool-cases (ltb a f)) [
  | inl e ↦
      let above : suc a * p ≤ f * p = mul-le-mul_right p (ltb→lt a f e) in
      let next = multiple_add 1 a p in
      let same : suc a * p ≡ (1 + a) * p = ap (λ (t : ℕ). t * p) (omega arith) in
      absurd (omega arith)
  | inr e ↦ ground arith
]

bar_before : (a f p : ℕ) → a < f → f * p - p ≡ (f - 1) * p
bar_before a f p h = let back = multiple_sub 1 f p (omega arith) in omega arith

mul_lt : (a f p : ℕ) → a * p < f * p → a < f
mul_lt a f p h = elim (Bool-cases (ltb a f)) [
  | inl e ↦ ltb→lt a f e
  | inr e ↦ let le : f * p ≤ a * p = mul-le-mul_right p (ground arith) in absurd (omega arith)
]

-- Where everything from bar `f` on is stored.
abbrev pub stored_from : ℕ → ℕ → ℕ → Coverage
stored_from p f max = record { min_bar_timestamp = f * p; max_bar_timestamp = max }

-- Everything from bar `f` on is stored; where nothing is, `f` is the bar after the last closed one.
abbrev pub StoredFrom : ℕ → ℕ → ℕ → Option Coverage → Type 0
StoredFrom p last f none = last ≡ f * p - p
StoredFrom p last f (some c) = c.min_bar_timestamp ≡ f * p

module _ (p a last max : ℕ) (positive : 0 < p) (lo : a * p ≤ last) where
  plan_open :
      (f : ℕ) (P : BackfillPlan → Type 0)
      → (f * p ≤ a * p → P (nothing_to_do (a * p)))
      → (a * p < f * p → P (plan_to p (a * p) (f * p - p)))
      → P (plan p (a * p) last (some (stored_from p f max)))
  unfolding plan
  plan_open f P done more =
      if_ensures P (ltb last (a * p)) (λ e. absurd (ground arith))
        (λ _.
          if_ensures P (leb (f * p) (a * p)) (λ e. done (leb→le (f * p) (a * p) e))
            (λ e. more (ground arith)))

  -- What remains to be planned then.
  plan-passes :
      (f : ℕ)
      → a ≤ f
      → (plan p (a * p) last (some (stored_from p f max))).passes_remaining ≡ pos (passes (f - a))
  plan-passes f le =
      plan_open f (λ (b : BackfillPlan). b.passes_remaining ≡ pos (passes (f - a)))
        (λ reached. let same = bars_le a f p positive reached in ap pos (omega arith))
        (λ ahead.
          let lt : a < f = mul_lt a f p ahead in
          ap (λ (e : ℕ). (plan_to p (a * p) e).passes_remaining) (bar_before a f p lt)
          ∙ plan_to-passes p a (f - 1) positive (omega arith)
          ∙ ap (λ (k : ℕ). pos (passes k)) (omega arith))

  plan_to_open :
      (f : ℕ) (bounds : Option Coverage)
      → a < f
      → StoredFrom p last f bounds
      → plan p (a * p) last bounds ≡ plan_to p (a * p) (f * p - p)
  unfolding plan
  plan_to_open f none lt e =
      if_ensures (λ (b : BackfillPlan). b ≡ plan_to p (a * p) (f * p - p)) (ltb last (a * p))
        (λ h. absurd (ground arith)) (λ _. ap (plan_to p (a * p)) e)
  plan_to_open f (some c) lt e =
      let above : suc a * p ≤ f * p = mul-le-mul_right p lt in
      let next = multiple_add 1 a p in
      let same : suc a * p ≡ (1 + a) * p = ap (λ (t : ℕ). t * p) (omega arith) in
      if_ensures (λ (b : BackfillPlan). b ≡ plan_to p (a * p) (f * p - p)) (ltb last (a * p))
        (λ h. absurd (ground arith))
        (λ _.
          if_ensures (λ (b : BackfillPlan). b ≡ plan_to p (a * p) (f * p - p))
            (leb c.min_bar_timestamp (a * p)) (λ h. absurd (ground arith))
            (λ _. ap (λ (t : ℕ). plan_to p (a * p) (t - p)) e))

-- A plan for one pass: from bar `s` up to the bar before `f`, of at most the allowed number of bars.
abbrev pub IsPass : ℕ → ℕ → ℕ → ℕ → BackfillPlan → Type 0
IsPass p a s f b =
    (b.start ≡ some (s * p))
    × (b.end ≡ some (f * p - p))
    × (b.bars ≡ pos (f - s))
    × (f - s ≤ max_backfill_bars)
    × (a ≤ s)
    × (s < f)

-- Toward a target on a bar boundary, each plan is for a range of at most `max_backfill_bars` bars that
-- ends where the stored bars begin, and when that range is stored the next plan counts one pass less;
-- the plan that counts no more passes has nothing to run.
pub plan-IsPass :
    (p a f last max : ℕ) (bounds : Option Coverage)
    → 0 < p
    → a * p ≤ last
    → a < f
    → StoredFrom p last f bounds
    → let b = plan p (a * p) last bounds in
      (s m : ℕ) × IsPass p a s f b
      × (b.passes_remaining ≡ pos (suc m))
      × ((plan p (a * p) last (some (stored_from p s max))).passes_remaining ≡ pos m)
      × (m ≡ 0 → (plan p (a * p) last (some (stored_from p s max))).start ≡ none)
plan-IsPass p a f last max bounds positive lo lt stored =
    let e = f - 1 in
    let at_bound = plan_to_open p a last max positive lo f bounds lt stored in
    let plan_at = at_bound ∙ ap (plan_to p (a * p)) (bar_before a f p lt) in
    let s = start_bar a e in
    let bounds_of = start_bar_bounds a e (omega arith) in
    let begins = pass_start-eq p a e positive in
    let m = passes (s - a) in
    let after = plan-passes p a last max positive lo s bounds_of.0 in
    (
      s,
      m,
      (
        ap (λ (b : BackfillPlan). b.start) plan_at ∙ ap some begins,
        ap (λ (b : BackfillPlan). b.end) at_bound,
        ap (λ (b : BackfillPlan). b.bars) plan_at
            ∙ ap (λ (t : ℕ). span_bars t (e * p) p) begins
            ∙ span_multiple s e p positive bounds_of.1
            ∙ ap pos (omega arith),
        omega arith,
        bounds_of.0,
        omega arith,
      ),
      ap (λ (b : BackfillPlan). b.passes_remaining) plan_at
          ∙ plan_to-passes p a e positive (omega arith)
          ∙ ap pos (passes-start_bar a e (omega arith)),
      after,
      λ last_pass.
          plan_open p a last max positive lo s (λ (b : BackfillPlan). b.start ≡ none) (λ _. refl)
            (λ ahead. let lt' = mul_lt a s p ahead in absurd (omega arith)),
    )

div_small : (x p : ℕ) → x < p → x / p ≡ 0
div_small x p h = grind arith

span_short : (target end p : ℕ) → end < target → target - end < p → span_bars target end p ≡ pos 1
unfolding span_bars
span_short target end p lt short =
    let zero_left = div_small (target - end) p short in
    if_ensures (λ (z : ℤ). z ≡ pos 1) (leb target end) (λ e. absurd (ground arith))
      (λ _. ap (sub_ℕ 1) zero_left)

pass_start_short : (p target end : ℕ) → end < target → pass_start p target end ≡ target
pass_start_short p target end lt =
    if_ensures (λ (s : ℕ). s ≡ target) (ltb target (end - p * (max_backfill_bars - 1)))
      (λ e. let less = ltb→lt target (end - p * (max_backfill_bars - 1)) e in absurd (omega arith))
      (λ _. refl)

module _ {Q X W : Type 0} (env : BarEnv Q X W) (series : Series) where
  -- A target that lies between two bars is never reported as reached: when all bars after it are
  -- stored, the plan is for one pass over a range that ends before it starts, and a backfill of that
  -- range is refused.
  pub plan_between_bars :
      (p target last : ℕ) (c : Coverage)
      → target < c.min_bar_timestamp
      → c.min_bar_timestamp - p < target
      → target ≤ last
      → let b = plan p target last (some c) in
        let end = c.min_bar_timestamp - p in
        (b.start ≡ some target)
        × (b.end ≡ some end)
        × (b.passes_remaining ≡ pos 1)
        × ((w : W) → backfill_range env series p target end w ≡ (raised value_error, w))
  unfolding plan ceil_passes backfill_range
  plan_between_bars p target last c after before closed =
      let end = c.min_bar_timestamp - p in
      let refused = λ (w : W).
        if_ensures (λ (m : Act W (BarError X) BackfillResult). m w ≡ (raised value_error, w))
          (ltb end target) (λ _. refl) (λ e. absurd (ground arith)) in
      if_ensures
        (λ (b : BackfillPlan).
          (b.start ≡ some target)
          × (b.end ≡ some end)
          × (b.passes_remaining ≡ pos 1)
          × ((w : W) → backfill_range env series p target end w ≡ (raised value_error, w)))
        (ltb last target) (λ e. absurd (ground arith))
        (λ _.
          if_ensures
            (λ (b : BackfillPlan).
              (b.start ≡ some target)
              × (b.end ≡ some end)
              × (b.passes_remaining ≡ pos 1)
              × ((w : W) → backfill_range env series p target end w ≡ (raised value_error, w)))
            (leb c.min_bar_timestamp target) (λ e. absurd (ground arith))
            (λ _. (
              ap some (pass_start_short p target end before),
              refl,
              ap ceil_passes (span_short target end p before (omega arith)),
              refused,
            )))
