-- ===== src/Intervals/Bars.antt =====
-- Bar open times and timeframes: `bar_starts` and `ccxt_timeframe`.
use quant_strategies.Prelude.{
  ℕ, zero, suc, ◌+◌, ◌-◌, ◌*◌, ◌/◌, ◌%◌, ◌≡◌, ◌≢◌, sym, ap, ◌∙◌, ◌≤◌, ◌<◌, ◌↔◌, refl, Bool, true,
  Option, none, some, List, any, ltb, leb, leb→le, ltb→lt, ◌==◌, ==_iff, Bool-cases, inl, inr,
  if_ensures,
}
use mathlib.Core.Bool.{false≢true}
use native.Mathlib.Omega.{arith}
use native.Mathlib.Nat.{mul-le-mul_left, mul-le-mul_right}
use quant_strategies.Intervals.{
  aware, floor_at, bars_from, first_bar, bars_between, bar_starts, TimeUnit, weeks, days, hours,
  minutes, Timeframe, ccxt_timeframe,
}
use quant_strategies.Intervals.Slots.{floor_le, lt_floor}

-- `t` is among the entries.
abbrev pub listed : ℕ → List ℕ → Bool
listed t ts = any (λ u. u == t) ts

-- `t` lies `k` periods after `current`.
abbrev OnGrid : ℕ → ℕ → ℕ → Type 0
OnGrid current period t = (k : ℕ) × (t ≡ current + k * period)

grid_suc : (current p k : ℕ) → current + p + k * p ≡ current + suc k * p
grid_suc current p k = omega arith

module _ (end period : ℕ) where
  bars_sound :
      (n current t : ℕ)
      → listed t (bars_from n current end period) ≡ true
      → OnGrid current period t × (t ≤ end)
  unfolding bars_from
  bars_sound zero current t = λ h. absurd (false≢true h)
  bars_sound (suc n) current t =
      if_ensures (λ (l : List ℕ). listed t l ≡ true → OnGrid current period t × (t ≤ end))
        (leb current end)
        (λ within h. elim (Bool-cases (current == t)) [
          | inl e ↦
              let same = (==_iff current t).0 e in
              let bound = leb→le current end within in ((0, omega arith), omega arith)
          | inr e ↦
              let rest = bars_sound n (current + period) t (ground arith) in
              let next = grid_suc current period rest.0.0 in ((suc rest.0.0, omega arith), rest.1)
        ])
        (λ _ h. absurd (false≢true h))

  bars_complete :
      (n k current t : ℕ)
      → k < n
      → t ≡ current + k * period
      → t ≤ end
      → listed t (bars_from n current end period) ≡ true
  unfolding bars_from
  bars_complete zero k current t h e le = absurd (omega arith)
  bars_complete (suc n) zero current t h e le =
      if_ensures (λ (l : List ℕ). listed t l ≡ true) (leb current end)
        (λ within. let same = (==_iff current t).1 (omega arith) in ground arith)
        (λ beyond. absurd (ground arith))
  bars_complete (suc n) (suc k) current t h e le =
      let next = grid_suc current period k in
      let rest = bars_complete n k (current + period) t (omega arith) (omega arith) le in
      if_ensures (λ (l : List ℕ). listed t l ≡ true) (leb current end) (λ within. ground arith)
        (λ beyond. absurd (ground arith))

suc_multiple : (j p : ℕ) → suc j * p ≡ j * p + p
suc_multiple j p = omega arith

-- A multiple that is no full period below another is not before it.
multiple_after : (j q p : ℕ) → q * p < j * p + p → q ≤ j
multiple_after j q p h = elim (Bool-cases (ltb j q)) [
  | inl e ↦
      let le : suc j * p ≤ q * p = mul-le-mul_right p (ltb→lt j q e) in
      let expand = suc_multiple j p in absurd (omega arith)
  | inr e ↦ ground arith
]

-- The first boundary at or after `start`.
IsFirstBar : ℕ → ℕ → ℕ → Type 0
IsFirstBar start p b = (f : ℕ) × (b ≡ f * p) × (start ≤ b) × (b < start + p)

first_bar-IsFirstBar : (start p : ℕ) → 0 < p → IsFirstBar start p (first_bar start p)
unfolding IsFirstBar
first_bar-IsFirstBar start p h =
    let low : start / p * p ≤ start = floor_le start p h in
    let high : start < start / p * p + p = lt_floor start p h in
    let next = suc_multiple (start / p) p in
    if_ensures (IsFirstBar start p) (ltb (floor_at start p) start)
      (λ e.
        let before = ltb→lt (floor_at start p) start e in
        (suc (start / p), omega arith, omega arith, omega arith))
      (λ e. (start / p, omega arith, ground arith, omega arith))

multiple_add : (f k p : ℕ) → (f + k) * p ≡ f * p + k * p
multiple_add f k p = omega arith

le_multiple : (k p : ℕ) → 0 < p → k ≤ k * p
le_multiple k p h = let le = mul-le-mul_left k h in omega arith

pub bars_between_iff :
    (start end period : ℕ)
    → 0 < period
    → (t : ℕ)
    → (listed t (bars_between start end period) ≡ true)
      ↔ ((start ≤ t) × (t ≤ end) × ((j : ℕ) × (t ≡ j * period)))
unfolding IsFirstBar
bars_between_iff start end p h t =
    let b = first_bar start p in
    let first = first_bar-IsFirstBar start p h in
    (
      (λ l.
          let found = bars_sound end p (suc end) b t l in
          let sum = multiple_add first.0 found.0.0 p in
          (omega arith, found.1, (first.0 + found.0.0, omega arith))),
      (λ m.
          let j = m.2.0 in
          let after = multiple_after j first.0 p (omega arith) in
          let k = j - first.0 in
          let sum = multiple_add first.0 k p in
          let rejoin : first.0 + k ≡ j = omega arith in
          let total : (first.0 + k) * p ≡ j * p = ap (λ (i : ℕ). i * p) rejoin in
          let small = le_multiple k p h in
          bars_complete end p (suc end) k b t (omega arith) (omega arith) m.1),
    )

-- For aware bounds, the bar starts are exactly the multiples of the period from `start` to `end`.
pub bar_starts_iff :
    (start end period : ℕ)
    → 0 < period
    → (bars : List ℕ) × (bar_starts (aware start) (aware end) period ≡ some bars)
      × ((t : ℕ)
          → (listed t bars ≡ true) ↔ ((start ≤ t) × (t ≤ end) × ((j : ℕ) × (t ≡ j * period))))
unfolding bar_starts
bar_starts_iff start end p h = (bars_between start end p, refl, bars_between_iff start end p h)

-- The seconds of a unit.
abbrev pub unit_seconds : TimeUnit → ℕ
unit_seconds weeks = 604800
unit_seconds days = 86400
unit_seconds hours = 3600
unit_seconds minutes = 60

-- A timeframe stands for just so many seconds; without one they are no whole minutes.
abbrev pub StandsFor : ℕ → Option Timeframe → Type 0
StandsFor seconds none = seconds % 60 ≢ 0
StandsFor seconds (some tf) = tf.count * unit_seconds tf.unit ≡ seconds

-- The timeframe of a period names its whole seconds, and it is refused only if they are no whole
-- minutes.
pub ccxt_timeframe-StandsFor : (period : ℕ) → StandsFor (period / 1000000) (ccxt_timeframe period)
unfolding ccxt_timeframe
ccxt_timeframe-StandsFor period =
    let s = period / 1000000 in
    if_ensures (StandsFor s) ((s % 604800) == 0)
      (λ e. let whole = (==_iff (s % 604800) 0).0 e in omega arith)
      (λ _.
        if_ensures (StandsFor s) ((s % 86400) == 0)
          (λ e. let whole = (==_iff (s % 86400) 0).0 e in omega arith)
          (λ _.
            if_ensures (StandsFor s) ((s % 3600) == 0)
              (λ e. let whole = (==_iff (s % 3600) 0).0 e in omega arith)
              (λ _.
                if_ensures (StandsFor s) ((s % 60) == 0)
                  (λ e. let whole = (==_iff (s % 60) 0).0 e in omega arith)
                  (λ e whole. false≢true (sym e ∙ (==_iff (s % 60) 0).1 whole)))))
