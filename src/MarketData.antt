-- ===== src/MarketData.antt =====
-- quant/market_data/service.py and quant/schemas/market_data.py: which bars are missing, and the next
-- pass of a backfill. An instant is a number of microseconds since the epoch; one that would lie
-- before the epoch is the epoch itself.
use quant_strategies.Prelude.{
  ℕ, suc, ◌+◌, ◌-◌, ◌*◌, ◌/◌, String, Bool, true, false, not, ◌&&◌, ◌||◌, Option, none, some, List,
  [], ◌∷◌, map, keep, listed, length, ltb, leb, ◌==◌, if◌then◌else◌,
}
use quant_strategies.Prelude.Int.{ℤ, sub_ℕ}
use quant_strategies.Prelude.Effects.{Act}
use quant_strategies.Intervals.{bars_between, floor_at}
pub mod Service
pub mod Plan
pub mod Gaps
pub mod Store
pub mod Window
pub mod Sync
mod Tests

abbrev pub max_backfill_bars : ℕ
max_backfill_bars = 10000

-- `OhlcvBar`, and a row of `get_bars`.
pub record OhlcvBar (Q : Type 0) : Type 0 where
  pub bar_timestamp : ℕ
  pub open_px : Q
  pub high_px : Q
  pub low_px : Q
  pub close_px : Q
  pub volume : Q

-- The key of a series.
pub record Series : Type 0 where
  pub internal_cusip : String
  pub tm_interval_id : ℕ
  pub source_app_id : ℕ

pub record Coverage : Type 0 where
  pub min_bar_timestamp : ℕ
  pub max_bar_timestamp : ℕ

pub data StaleBars : Type 0 where
  no_mapping : String → ℕ → StaleBars
  incomplete : List ℕ → ℕ → StaleBars
  no_forming_bar : ℕ → StaleBars
  too_short : ℕ → ℕ → ℕ → StaleBars

-- `ProcedureError` has its SQL state; `other` is any other exception of a call.
pub data BarError (X : Type 0) : Type 0 where
  stale : StaleBars → BarError X
  too_large : ℕ → ℕ → BarError X
  value_error : BarError X
  procedure_error : String → BarError X
  other : X → BarError X

pub record BackfillResult : Type 0 where
  pub start : ℕ
  pub end : ℕ
  pub expected : ℕ
  pub missing : ℕ
  pub inserted : ℕ
  pub unfilled : List ℕ

unfoldable pub is_continuous : BackfillResult → Bool
is_continuous r = length r.unfilled == 0

pub record SyncResult (X : Type 0) : Type 0 where
  pub instruments : ℕ
  pub inserted : ℕ
  pub failures : List (String × BarError X)

pub record BackfillPlan : Type 0 where
  pub start : Option ℕ
  pub end : Option ℕ
  pub bars : ℤ
  pub passes_remaining : ℤ
  pub target : ℕ

module _ {Q : Type 0} where
  abbrev pub timestamps : List (OhlcvBar Q) → List ℕ
  timestamps bars = map (λ b. b.bar_timestamp) bars

  -- `fetched.get(ts)` of the dictionary that `_fetch` builds: a later bar replaces an earlier one.
  unfoldable pub fetched_at : ℕ → List (OhlcvBar Q) → Option (OhlcvBar Q)
  fetched_at ts [] = none
  fetched_at ts (bar ∷ bars) = elim (fetched_at ts bars) [
    | some later ↦ some later
    | none ↦ if bar.bar_timestamp == ts then some bar else none
  ]

-- `[ts for ts in missing if ts not in fetched]`
abbrev pub not_in : List ℕ → List ℕ → List ℕ
not_in fetched missing = keep (λ ts. not (listed ts fetched)) missing

-- `min(fetched) if fetched else None`
unfoldable pub earliest : List ℕ → Option ℕ
earliest [] = none
earliest (t ∷ ts) = elim (earliest ts) [ none ↦ some t | some e ↦ some (if ltb e t then e else t) ]

-- `earliest_available and ts > earliest_available`; an instant is always true.
abbrev pub is_hole : Option ℕ → ℕ → Bool
is_hole none ts = false
is_hole (some e) ts = ltb e ts

-- The test under which `_reject_incomplete` raises.
unfoldable pub rejects : List ℕ → List ℕ → ℕ → Bool
rejects missing fetched newest =
    let unfilled = not_in fetched missing in
    let holes = keep (is_hole (earliest fetched)) unfilled in
    not (length unfilled == 0) && (not (length holes == 0) || listed newest unfilled)

-- `int((end - start) / period) + 1`, which truncates toward zero.
unfoldable pub span_bars : ℕ → ℕ → ℕ → ℤ
span_bars start end period =
    if leb start end then sub_ℕ ((end - start) / period + 1) 0 else sub_ℕ 1 ((start - end) / period)

-- `-(-n // MAX_BACKFILL_BARS)`
unfoldable pub ceil_passes : ℤ → ℤ
ceil_passes (ℤ.pos n) = ℤ.pos ((n + (max_backfill_bars - 1)) / max_backfill_bars)
ceil_passes (ℤ.negsuc n) = sub_ℕ 0 (suc n / max_backfill_bars)

abbrev pub nothing_to_do : ℕ → BackfillPlan
nothing_to_do target = record {
  start = none;
  end = none;
  bars = ℤ.pos 0;
  passes_remaining = ℤ.pos 0;
  target = target;
}

abbrev pub plan_to : ℕ → ℕ → ℕ → BackfillPlan
plan_to period target end =
    let reach = end - period * (max_backfill_bars - 1) in
    let start = if ltb target reach then reach else target in
    record {
      start = some start;
      end = some end;
      bars = span_bars start end period;
      passes_remaining = ceil_passes (span_bars target end period);
      target = target;
    }

abbrev pub plan_from : ℕ → ℕ → ℕ → Option Coverage → BackfillPlan
plan_from period target last_closed none = plan_to period target last_closed
plan_from period target last_closed (some c) =
    if leb c.min_bar_timestamp target
    then nothing_to_do target
    else plan_to period target (c.min_bar_timestamp - period)

-- The answer of `plan_backfill`, from the last closed bar and the stored bounds.
unfoldable pub plan : ℕ → ℕ → ℕ → Option Coverage → BackfillPlan
plan period target last_closed bounds =
    if ltb last_closed target
    then nothing_to_do target
    else plan_from period target last_closed bounds

-- The repository, the reference data, the exchange and the clock.
pub record BarEnv (Q X W : Type 0) : Type 0 where
  pub get_interval_period : ℕ → Act W (BarError X) ℕ
  pub get_coverage : Series → Act W (BarError X) (Option Coverage)
  pub get_bars : Series → ℕ → ℕ → Act W (BarError X) (List (OhlcvBar Q))
  pub ins_bar : Series → OhlcvBar Q → Act W (BarError X) (Unit {0})
  pub resolve_internal_cusip : String → ℕ → Act W (BarError X) (Option String)
  pub default_type_for : String → Act W (BarError X) (Option String)
  pub fetch_bars : String → ℕ → ℕ → ℕ → Option String → Act W (BarError X) (List (OhlcvBar Q))
  pub now : Act W (BarError X) ℕ
