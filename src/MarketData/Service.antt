-- ===== src/MarketData/Service.antt =====
-- The methods of `PriceBarService` over any repository and exchange.
use quant_strategies.Prelude.{
  ℕ, suc, ◌+◌, ◌-◌, ◌*◌, ◌/◌, String, Bool, true, false, ◌&&◌, Option, none, some, List, [], ◌∷◌,
  ◌++◌, any, length, ltb, leb, ◌==◌, if◌then◌else◌,
}
use text.Mathlib.Text.{◌==◌ as str_eq}
use quant_strategies.Prelude.Effects.{Act, Outcome, ok, raised, pure, raise, attempt, ◌>>=◌, ◌>>◌}
use quant_strategies.Intervals.{bars_between, floor_at}
use quant_strategies.MarketData.{
  max_backfill_bars, OhlcvBar, Series, Coverage, no_mapping, incomplete, no_forming_bar, too_short,
  BarError, stale, too_large, value_error, procedure_error, BackfillResult, SyncResult,
  BackfillPlan, timestamps, fetched_at, not_in, rejects, plan, BarEnv,
}

-- `rows` in the order of their timestamps, as `sort_index` puts them.
module _ {Q : Type 0} where
  unfoldable pub insert_bar : OhlcvBar Q → List (OhlcvBar Q) → List (OhlcvBar Q)
  insert_bar bar [] = bar ∷ []
  insert_bar bar (b ∷ bs) =
      let rest = insert_bar bar bs in
      if ltb b.bar_timestamp bar.bar_timestamp then b ∷ rest else bar ∷ b ∷ bs

  unfoldable pub ohlcv_frame : List (OhlcvBar Q) → List (OhlcvBar Q)
  ohlcv_frame [] = []
  ohlcv_frame (bar ∷ bars) = insert_bar bar (ohlcv_frame bars)

-- `math.ceil(lookback * _MIN_WINDOW_COVERAGE)`
abbrev pub required_bars : ℕ → ℕ
required_bars lookback = (lookback * 4 + 4) / 5

module _ {X : Type 0} where
  unfoldable pub is_unique_violation : BarError X → Bool
  is_unique_violation (procedure_error state) = str_eq state "23505"
  is_unique_violation _ = false

  -- `failures[cusip] = ...`
  unfoldable pub set_failure :
      String → BarError X → List (String × BarError X) → List (String × BarError X)
  set_failure cusip e [] = (cusip, e) ∷ []
  set_failure cusip e ((k, old) ∷ rest) =
      let later = set_failure cusip e rest in
      if str_eq k cusip then (k, e) ∷ rest else (k, old) ∷ later

  -- One turn of the loop of `sync`, after `ensure_fresh`.
  unfoldable pub synced :
      String
      → ℕ
      → List (String × BarError X)
      → Outcome (BarError X) ℕ
      → ℕ × List (String × BarError X)
  synced cusip n failures (ok new) = (n + new, failures)
  synced cusip n failures (raised e) = (n, set_failure cusip e failures)

unfoldable pub same_instrument : String × ℕ → String × ℕ → Bool
same_instrument a b = str_eq a.0 b.0 && a.1 == b.1

abbrev pub series_of : ℕ → String × ℕ → Series
series_of interval i = record {
  internal_cusip = i.0;
  tm_interval_id = interval;
  source_app_id = i.1;
}

abbrev pub count_if : Bool → ℕ → ℕ
count_if b n = if b then suc n else n

-- The early return where the newest closed bar is stored.
abbrev pub is_fresh : ℕ → Option Coverage → Bool
is_fresh newest none = false
is_fresh newest (some c) = leb newest c.max_bar_timestamp

abbrev pub last_closed : ℕ → ℕ → ℕ
last_closed moment period = floor_at moment period - period

module _ {Q X W : Type 0} (env : BarEnv Q X W) where
  unfoldable pub mapped : String → ℕ → Option String → Act W (BarError X) String
  mapped cusip app none = raise (stale (no_mapping cusip app))
  mapped cusip app (some symbol) = pure symbol

  unfoldable pub fetch : Series → ℕ → ℕ → ℕ → Act W (BarError X) (List (OhlcvBar Q))
  unfolding mapped
  fetch series period since until =
      env.resolve_internal_cusip series.internal_cusip series.source_app_id >>= (λ found.
        mapped series.internal_cusip series.source_app_id found >>= (λ symbol.
          env.default_type_for series.internal_cusip
          >>= (λ type. env.fetch_bars symbol period since until type)))

  unfoldable pub find_gaps : Series → ℕ → ℕ → Act W (BarError X) (List ℕ)
  find_gaps series start end = env.get_interval_period series.tm_interval_id >>= (λ period.
      env.get_bars series start end
      >>= (λ rows. pure (not_in (timestamps rows) (bars_between start end period))))

  -- The `except` of `_insert`.
  unfoldable pub inserted_or : Outcome (BarError X) (Unit {0}) → Act W (BarError X) Bool
  inserted_or (ok _) = pure true
  inserted_or (raised e) = if is_unique_violation e then pure false else raise e

  unfoldable pub insert : Series → OhlcvBar Q → Act W (BarError X) Bool
  insert series bar = attempt (env.ins_bar series bar) >>= inserted_or

  unfoldable pub store_one : Series → Option (OhlcvBar Q) → ℕ → Act W (BarError X) ℕ
  store_one series none n = pure n
  store_one series (some bar) n = insert series bar >>= (λ new. pure (count_if new n))

  unfoldable pub store_from : Series → List (OhlcvBar Q) → List ℕ → ℕ → Act W (BarError X) ℕ
  store_from series fetched [] n = pure n
  store_from series fetched (ts ∷ missing) n =
      store_one series (fetched_at ts fetched) n >>= store_from series fetched missing

  unfoldable pub store : Series → List ℕ → List (OhlcvBar Q) → Act W (BarError X) ℕ
  store series missing fetched = store_from series fetched missing 0

  unfoldable pub reject_incomplete : List ℕ → List (OhlcvBar Q) → ℕ → Act W (BarError X) (Unit {0})
  reject_incomplete missing fetched newest =
      if rejects missing (timestamps fetched) newest
      then raise (stale (incomplete (not_in (timestamps fetched) missing) newest))
      else pure tt

  unfoldable pub fill_window : Series → ℕ → ℕ → List ℕ → Act W (BarError X) ℕ
  fill_window series period newest [] = pure 0
  fill_window series period newest (oldest ∷ missing) =
      fetch series period oldest newest >>= (λ fetched.
        reject_incomplete (oldest ∷ missing) fetched newest
        >> store series (oldest ∷ missing) fetched)

  abbrev pub now_or : Option ℕ → Act W (BarError X) ℕ
  now_or none = env.now
  now_or (some moment) = pure moment

  unfoldable pub ensure_fresh : Series → ℕ → Option ℕ → Act W (BarError X) ℕ
  ensure_fresh series lookback now =
      if ltb lookback 1
      then raise value_error
      else env.get_interval_period series.tm_interval_id >>= (λ period. now_or now >>= (λ moment.
        env.get_coverage series >>= (λ coverage.
          let newest = last_closed moment period in
          if is_fresh newest coverage
          then pure 0
          else find_gaps series (newest - period * (lookback - 1)) newest
            >>= fill_window series period newest)))

  unfoldable pub backfill_missing :
      Series → ℕ → ℕ → ℕ → ℕ → List ℕ → Act W (BarError X) BackfillResult
  backfill_missing series period start end expected [] = pure (record {
    start = start;
    end = end;
    expected = expected;
    missing = 0;
    inserted = 0;
    unfilled = [];
  })
  backfill_missing series period start end expected (oldest ∷ missing) =
      fetch series period oldest end >>= (λ fetched.
        store series (oldest ∷ missing) fetched >>= (λ inserted. pure (record {
          start = start;
          end = end;
          expected = expected;
          missing = length (oldest ∷ missing);
          inserted = inserted;
          unfilled = not_in (timestamps fetched) (oldest ∷ missing);
        })))

  unfoldable pub backfill_range : Series → ℕ → ℕ → ℕ → Act W (BarError X) BackfillResult
  backfill_range series period start end =
      let span = (end - start) / period + 1 in
      if ltb end start
      then raise value_error
      else if ltb max_backfill_bars span
      then raise (too_large span max_backfill_bars)
      else find_gaps series start end >>= (λ missing.
        backfill_missing series period start end (length (bars_between start end period)) missing)

  unfoldable pub end_or : Option ℕ → Option ℕ → ℕ → Act W (BarError X) ℕ
  end_or none now period = now_or now >>= (λ moment. pure (last_closed moment period))
  end_or (some end) now period = pure end

  unfoldable pub backfill : Series → ℕ → Option ℕ → Option ℕ → Act W (BarError X) BackfillResult
  unfolding end_or
  backfill series start end now =
      env.get_interval_period series.tm_interval_id
      >>= (λ period. end_or end now period >>= backfill_range series period start)

  unfoldable pub plan_backfill : Series → ℕ → Option ℕ → Act W (BarError X) BackfillPlan
  plan_backfill series target now = env.get_interval_period series.tm_interval_id >>= (λ period.
      now_or now >>= (λ moment.
        if ltb (last_closed moment period) target
        then pure (plan period target (last_closed moment period) none)
        else env.get_coverage series
          >>= (λ bounds. pure (plan period target (last_closed moment period) bounds))))

  unfoldable pub sync_from :
      ℕ
      → ℕ
      → Option ℕ
      → List (String × ℕ)
      → List (String × ℕ)
      → ℕ
      → List (String × BarError X)
      → Act W (BarError X) (SyncResult X)
  sync_from interval lookback now seen [] n failures =
      pure (record { instruments = length seen; inserted = n; failures = failures })
  sync_from interval lookback now seen (i ∷ rest) n failures =
      let skip = sync_from interval lookback now seen rest n failures in
      let turn = attempt (ensure_fresh (series_of interval i) lookback now) >>= (λ r.
        let t = synced i.0 n failures r in
        sync_from interval lookback now (i ∷ seen) rest t.0 t.1) in
      if any (same_instrument i) seen then skip else turn

  unfoldable pub sync : ℕ → ℕ → Option ℕ → List (String × ℕ) → Act W (BarError X) (SyncResult X)
  sync interval lookback now instruments = sync_from interval lookback now [] instruments 0 []

  unfoldable pub read_bars : Series → ℕ → ℕ → Act W (BarError X) (List (OhlcvBar Q))
  read_bars series start end = env.get_bars series start end >>= (λ rows. pure (ohlcv_frame rows))

  unfoldable pub with_forming :
      List (OhlcvBar Q) → ℕ → Option (OhlcvBar Q) → Act W (BarError X) (List (OhlcvBar Q))
  with_forming bars forming none = raise (stale (no_forming_bar forming))
  with_forming bars forming (some bar) = pure (ohlcv_frame (bars ++ bar ∷ []))

  unfoldable pub append_forming :
      Series → ℕ → ℕ → List (OhlcvBar Q) → Act W (BarError X) (List (OhlcvBar Q))
  unfolding with_forming
  append_forming series period forming bars =
      fetch series period forming forming
      >>= (λ fetched. with_forming bars forming (fetched_at forming fetched))

  unfoldable pub long_enough : ℕ → List (OhlcvBar Q) → Act W (BarError X) (List (OhlcvBar Q))
  long_enough lookback bars =
      if ltb (length bars) (required_bars lookback)
      then raise (stale (too_short (length bars) lookback (required_bars lookback)))
      else pure bars

  unfoldable pub load_window : Series → ℕ → Option ℕ → Bool → Act W (BarError X) (List (OhlcvBar Q))
  load_window series lookback now include_forming =
      ensure_fresh series lookback now
      >> (env.get_interval_period series.tm_interval_id >>= (λ period. now_or now >>= (λ moment.
          let newest = last_closed moment period in
          let n_closed = if include_forming then lookback - 1 else lookback in
          (if leb 1 n_closed
            then read_bars series (newest - period * (n_closed - 1)) newest
            else pure [])
          >>= (λ bars.
              (if include_forming
                then append_forming series period (floor_at moment period) bars
                else pure bars)
              >>= long_enough lookback))))
