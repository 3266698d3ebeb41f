-- ===== src/Intervals.antt =====
-- quant/shared/intervals.py: bar boundaries, apply slots and timeframes. An instant is its number of
-- microseconds since the Unix epoch, and a period or an offset its number of microseconds.
use quant_strategies.Prelude.{
  ℕ, zero, suc, ◌+◌, ◌-◌, ◌*◌, ◌/◌, ◌%◌, Bool, true, false, Option, none, some, List, [], ◌∷◌, ltb,
  leb, ◌==◌, if◌then◌else◌,
}
use quant_strategies.Prelude.Int.{ℤ, sub_ℕ}
pub mod Slots
pub mod Sessions
pub mod Bars
mod Tests

-- A datetime: `aware` with its instant, or `naive` with the instant it names when read as UTC.
pub data Stamp : Type 0 where
  aware naive : ℕ → Stamp

unfoldable pub as_utc : Stamp → ℕ
as_utc (aware ts) = ts
as_utc (naive ts) = ts

abbrev pub floor_at : ℕ → ℕ → ℕ
floor_at ts period = ts / period * period

-- `none` where `_require_utc` raises.
unfoldable pub floor_to_period : Stamp → ℕ → Option ℕ
floor_to_period (aware ts) period = some (floor_at ts period)
floor_to_period (naive ts) period = none

unfoldable pub last_closed_bar : Stamp → ℕ → Option ℤ
last_closed_bar now period = elim (floor_to_period now period) [
  | none ↦ none
  | some bar ↦ some (sub_ℕ bar period)
]

unfoldable pub next_run_at : Stamp → ℕ → Option ℕ
next_run_at after period = elim (floor_to_period after period) [
  | none ↦ none
  | some bar ↦ some (bar + period)
]

abbrev pub slot_after : ℕ → ℕ → ℕ → ℕ
slot_after now period offset =
    let close = floor_at now period + period in
    let candidate = close - offset in if ltb now candidate then candidate else candidate + period

-- `none` where the offset is refused.
unfoldable pub next_apply_slot : Stamp → ℕ → ℕ → Option ℕ
next_apply_slot after period offset =
    if ltb offset period then some (slot_after (as_utc after) period offset) else none

abbrev pub day_us : ℕ
day_us = 86400000000

-- `date.weekday()` of a day counted from 1970-01-01, which was a Thursday.
abbrev pub weekday : ℕ → ℕ
weekday day = (day + 3) % 7

-- The `for _ in range(10)` of `next_session_apply_slot`, in the wall-clock time of the venue's zone:
-- `cursor` is the wall-clock reading of the instant.
unfoldable pub session_from : ℕ → ℕ → ℕ → ℕ → ℕ → Option ℕ
session_from zero cursor close_time offset day = none
session_from (suc n) cursor close_time offset day =
    let later = session_from n cursor close_time offset (day + 1) in
    let close_local = day * day_us + close_time in
    if leb 5 (weekday day)
    then later
    else if ltb (cursor + offset) close_local
    then some (close_local - offset)
    else later

-- `ZoneInfo` is `to_wall` and `to_utc`; an offset is never negative here.
unfoldable pub next_session_apply_slot : (ℕ → ℕ) → (ℕ → ℕ) → Stamp → ℕ → ℕ → Option ℕ
next_session_apply_slot to_wall to_utc after close_time offset =
    let cursor = to_wall (as_utc after) in
    elim (session_from 10 cursor close_time offset (cursor / day_us)) [
      | none ↦ none
      | some slot ↦ some (to_utc slot)
    ]

-- The `while` of `bar_starts`, on fuel.
unfoldable pub bars_from : ℕ → ℕ → ℕ → ℕ → List ℕ
bars_from zero current end period = []
bars_from (suc n) current end period =
    let rest = bars_from n (current + period) end period in
    if leb current end then current ∷ rest else []

abbrev pub first_bar : ℕ → ℕ → ℕ
first_bar start period =
    let current = floor_at start period in if ltb current start then current + period else current

-- Every bar starts at least a microsecond after the one before it.
abbrev pub bars_between : ℕ → ℕ → ℕ → List ℕ
bars_between start end period = bars_from (suc end) (first_bar start period) end period

unfoldable pub bar_starts : Stamp → Stamp → ℕ → Option (List ℕ)
bar_starts (aware start) (aware end) period = some (bars_between start end period)
bar_starts _ _ period = none

pub data TimeUnit : Type 0 where
  weeks days hours minutes : TimeUnit

-- The number and the letter of a timeframe such as `15m`.
pub record Timeframe : Type 0 where
  pub count : ℕ
  pub unit : TimeUnit

unfoldable pub ccxt_timeframe : ℕ → Option Timeframe
ccxt_timeframe period =
    let seconds = period / 1000000 in
    if (seconds % 604800) == 0
    then some (record { count = seconds / 604800; unit = weeks })
    else if (seconds % 86400) == 0
    then some (record { count = seconds / 86400; unit = days })
    else if (seconds % 3600) == 0
    then some (record { count = seconds / 3600; unit = hours })
    else if (seconds % 60) == 0
    then some (record { count = seconds / 60; unit = minutes })
    else none
