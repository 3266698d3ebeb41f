-- ===== src/Intervals/Tests.antt =====
-- An hourly bar, a New York session and the theorems on them.
use quant_strategies.Prelude.{
  ℕ, ◌+◌, ◌-◌, ◌*◌, ◌/◌, ◌≡◌, ◌≤◌, ◌<◌, ◌↔◌, refl, true, some, List, [], ◌∷◌,
}
use native.Mathlib.Omega.{arith}
use quant_strategies.Intervals.{
  aware, naive, as_utc, floor_to_period, next_run_at, last_closed_bar, next_apply_slot, day_us,
  next_session_apply_slot, session_from, bar_starts, bars_from, hours, ccxt_timeframe,
}
use quant_strategies.Prelude.Int.{pos}
use quant_strategies.Intervals.Slots.{IsNextSlot, next_apply_slot-IsNextSlot}
use quant_strategies.Intervals.Sessions.{Opens, next_session_apply_slot-IsFirst}
use quant_strategies.Intervals.Bars.{listed, bar_starts_iff, StandsFor, ccxt_timeframe-StandsFor}

abbrev hour_us : ℕ
hour_us = 3600000000

abbrev minute_us : ℕ
minute_us = 60000000

next_apply_slot-IsNextSlot_example :
    (r : ℕ) × (next_apply_slot (naive (hour_us + 1)) hour_us (5 * minute_us) ≡ some r)
    × IsNextSlot hour_us (5 * minute_us) (as_utc (naive (hour_us + 1))) r
next_apply_slot-IsNextSlot_example =
    next_apply_slot-IsNextSlot (naive (hour_us + 1)) hour_us (5 * minute_us) (omega arith)

at_five_to :
    next_apply_slot (aware (2 * hour_us - 5 * minute_us)) hour_us (5 * minute_us)
    ≡ some (3 * hour_us - 5 * minute_us)
unfolding next_apply_slot as_utc
at_five_to = refl

-- A clock five hours behind UTC, on Friday 2 January 1970 after the close.
next_session_apply_slot-IsFirst_example :
    let cursor = as_utc (aware (day_us + 22 * hour_us)) - 5 * hour_us in
    (d : ℕ) × (next_session_apply_slot
        (λ t. t - 5 * hour_us)
        (λ t. t + 5 * hour_us)
        (aware (day_us + 22 * hour_us))
        (16 * hour_us)
        (5 * minute_us)
      ≡ some (d * day_us + 16 * hour_us - 5 * minute_us + 5 * hour_us))
    × (cursor / day_us ≤ d)
    × Opens cursor (16 * hour_us) (5 * minute_us) d
    × ((e : ℕ) → cursor / day_us ≤ e → e < d → ¬ Opens cursor (16 * hour_us) (5 * minute_us) e)
next_session_apply_slot-IsFirst_example =
    next_session_apply_slot-IsFirst (λ t. t - 5 * hour_us) (λ t. t + 5 * hour_us)
      (aware (day_us + 22 * hour_us)) (16 * hour_us) (5 * minute_us) (omega arith)

on_monday :
    next_session_apply_slot (λ t. t) (λ t. t) (aware (day_us + 22 * hour_us)) (16 * hour_us) 0
    ≡ some (4 * day_us + 16 * hour_us)
unfolding next_session_apply_slot session_from as_utc
on_monday = refl

bar_starts_iff_example :
    (bars : List ℕ) × (bar_starts (aware 5) (aware 21) 7 ≡ some bars)
    × ((t : ℕ) → (listed t bars ≡ true) ↔ ((5 ≤ t) × (t ≤ 21) × ((j : ℕ) × (t ≡ j * 7))))
bar_starts_iff_example = bar_starts_iff 5 21 7 (omega arith)

three_bars : bar_starts (aware 5) (aware 21) 7 ≡ some (7 ∷ 14 ∷ 21 ∷ [])
unfolding bar_starts bars_from
three_bars = refl

last_and_next : (last_closed_bar (aware 15) 7 ≡ some (pos 7)) × (next_run_at (aware 15) 7 ≡ some 21)
unfolding last_closed_bar next_run_at floor_to_period
last_and_next = (refl, refl)

ccxt_timeframe-StandsFor_example :
    StandsFor ((4 * hour_us) / 1000000) (ccxt_timeframe (4 * hour_us))
ccxt_timeframe-StandsFor_example = ccxt_timeframe-StandsFor (4 * hour_us)

four_hours : ccxt_timeframe (4 * hour_us) ≡ some (record { count = 4; unit = hours })
unfolding ccxt_timeframe
four_hours = refl
