-- ===== src/MarketData/Tests.antt =====
-- A repository of one series of minute bars and an exchange that has them all, and the theorems on
-- them.
use quant_strategies.Prelude.{
  ℕ, ◌*◌, ◌≡◌, ◌↔◌, ◌⊎◌, refl, sym, ◌∙◌, ap, String, Bool, true, false, ◌&&◌, Option, none, some,
  List, [], ◌∷◌, map, keep, listed, listed-keep, leb, ==_iff, if_ensures, if◌then◌else◌,
}
use mathlib.Core.Bool.{false≢true}
use native.Mathlib.Omega.{arith}
use quant_strategies.Prelude.Int.{pos}
use quant_strategies.Prelude.Effects.{Outcome, OnlyRaises, ok, raised}
use quant_strategies.Intervals.{bars_between}
use quant_strategies.MarketData.{
  OhlcvBar, Series, Coverage, BarError, procedure_error, rejects, plan, timestamps, BarEnv, suc,
  value_error,
}
use quant_strategies.MarketData.Service.{backfill, ensure_fresh, load_window, sync, backfill_range}
use quant_strategies.MarketData.Plan.{IsPass, stored_from, plan-IsPass, plan_between_bars}
use quant_strategies.MarketData.Gaps.{Unfilled, Skipped, rejects_iff, rejects-oldest_hole}
use quant_strategies.MarketData.Store.{OnOk, OnKept, Grows, IsStore}
use quant_strategies.MarketData.Store.Returns.{CallsRaise, Filled, backfill-Filled}
use quant_strategies.MarketData.Store.Answers.{Current, ensure_fresh-Current}
use quant_strategies.MarketData.Window.{IsWindow, load_window-IsWindow}
use quant_strategies.MarketData.Sync.{Summed, sync-Summed}

-- The timestamps of the stored bars.
abbrev Shelf : Type 0
Shelf = List ℕ

abbrev bar_at : ℕ → OhlcvBar ℕ
bar_at t = record {
  bar_timestamp = t;
  open_px = 1;
  high_px = 1;
  low_px = 1;
  close_px = 1;
  volume = 1;
}

abbrev oldest_and_newest : Shelf → Option Coverage
oldest_and_newest [] = none
oldest_and_newest (t ∷ ts) = some (record { min_bar_timestamp = t; max_bar_timestamp = t })

abbrev between : ℕ → ℕ → ℕ → Bool
between start end t = leb start t && leb t end

abbrev put : OhlcvBar ℕ → Shelf → Outcome (BarError String) (Unit {0}) × Shelf
put bar w =
    if listed bar.bar_timestamp w
    then (raised (procedure_error "23505"), w)
    else (ok tt, bar.bar_timestamp ∷ w)

abbrev shop : BarEnv ℕ String Shelf
shop = record {
  get_interval_period = λ i w. (ok 60, w);
  get_coverage = λ s w. (ok (oldest_and_newest w), w);
  get_bars = λ s start end w. (ok (map bar_at (keep (between start end) w)), w);
  ins_bar = λ s. put;
  resolve_internal_cusip = λ cusip app w. (ok (some cusip), w);
  default_type_for = λ cusip w. (ok none, w);
  fetch_bars = λ symbol p since until type w. (ok (map bar_at (bars_between since until p)), w);
  now = λ w. (ok 600, w);
}

abbrev Shelved : Series → ℕ → Shelf → Type 0
Shelved s t w = listed t w ≡ true

abbrev minute : ℕ → ℕ
minute i = 60

timestamps_of : (ts : List ℕ) → timestamps (map bar_at ts) ≡ ts
timestamps_of [] = refl
timestamps_of (t ∷ ts) = ap (λ l. t ∷ l) (timestamps_of ts)

first_shelved :
    (s : Series) (w : Shelf) (b : Coverage)
    → oldest_and_newest w ≡ some b
    → Shelved s b.max_bar_timestamp w
first_shelved s [] b e =
    absurd (false≢true (ap (λ (o : Option Coverage). elim o [ none ↦ false | some c ↦ true ]) e))
first_shelved s (t ∷ ts) b e =
    let same =
      (==_iff t b.max_bar_timestamp).1
        (ap (λ (o : Option Coverage). elim o [ none ↦ t | some c ↦ c.max_bar_timestamp ]) e) in
    ground arith

shop-IsStore : IsStore shop minute Shelved
shop-IsStore = record {
  period_pos = λ i. omega arith;
  period_is = λ i w. (λ s t h. h, refl);
  coverage_is = λ s w. (λ r t h. h, first_shelved s w);
  bars_are = λ s a b w. (
    λ r t h. h,
    λ t l.
        let kept = ap (listed t) (sym (timestamps_of (keep (between a b) w))) ∙ l in
        let both = listed-keep (between a b) w t in ground arith,
  );
  inserted = λ s bar w.
      if_ensures
        (λ (r : Outcome (BarError String) (Unit {0}) × Shelf).
          OnKept (λ v. Grows Shelved w v × Shelved s bar.bar_timestamp v) r)
        (listed bar.bar_timestamp w) (λ has dup. (λ r t h. h, has))
        (λ new. (
          λ r t h. ground arith,
          let same = (==_iff bar.bar_timestamp bar.bar_timestamp).1 refl in ground arith,
        ));
  resolve_keeps = λ cusip app w r t h. h;
  type_keeps = λ cusip w r t h. h;
  fetch_keeps = λ symbol p a b type w r t h. h;
  now_keeps = λ w r t h. h;
}

abbrev btc : Series
btc = record { internal_cusip = "btc"; tm_interval_id = 1; source_app_id = 7 }

-- No call of the shop raises, but an insert of a bar that is there.
abbrev Conflict : BarError String → Type 0
Conflict e = e ≡ procedure_error "23505"

shop-CallsRaise : CallsRaise Conflict shop
shop-CallsRaise = record {
  period = λ i w. tt;
  bars = λ s a b w. tt;
  ins = λ s bar w.
      if_ensures (λ (r : Outcome (BarError String) (Unit {0}) × Shelf). OnlyRaises Conflict r.0)
        (listed bar.bar_timestamp w) (λ _. refl) (λ _. tt);
  resolve = λ cusip app w. tt;
  type = λ cusip w. tt;
  fetching = λ symbol p a b t w. tt;
}

backfill-Filled_example :
    Filled shop minute Shelved shop-IsStore Conflict shop-CallsRaise btc 60 300
      (backfill shop btc 60 (some 300) none (120 ∷ []))
backfill-Filled_example =
    backfill-Filled shop minute Shelved shop-IsStore Conflict shop-CallsRaise btc 60 300 none
      (120 ∷ []) (omega arith) (omega arith)

ensure_fresh-Current_example :
    OnOk
      (λ _ v. Current shop minute Shelved shop-IsStore btc 630 v)
      (ensure_fresh shop btc 3 (some 630) (120 ∷ []))
ensure_fresh-Current_example =
    ensure_fresh-Current shop minute Shelved shop-IsStore btc 3 630 (120 ∷ [])

load_window-IsWindow_example :
    OnOk
      (λ r _. IsWindow shop minute (λ i w. refl) btc 3 630 true r)
      (load_window shop btc 3 (some 630) true (120 ∷ []))
load_window-IsWindow_example =
    load_window-IsWindow shop minute (λ i w. refl) btc 3 630 true (120 ∷ [])

sync-Summed_example :
    let both : List (String × ℕ) = ("btc", 7) ∷ ("btc", 7) ∷ [] in
    Summed shop 1 3 (some 630) both [] (sync shop 1 3 (some 630) both [])
sync-Summed_example = sync-Summed shop 1 3 (some 630) (("btc", 7) ∷ ("btc", 7) ∷ []) []

rejects_iff_example : (rejects (60 ∷ 120 ∷ 180 ∷ []) (60 ∷ 180 ∷ []) 180 ≡ true) ↔ (
    Unfilled (60 ∷ 120 ∷ 180 ∷ []) (60 ∷ 180 ∷ []) 180
    ⊎ ((t : ℕ) × Skipped (60 ∷ 120 ∷ 180 ∷ []) (60 ∷ 180 ∷ []) t))
rejects_iff_example = rejects_iff (60 ∷ 120 ∷ 180 ∷ []) (60 ∷ 180 ∷ []) 180

rejects-oldest_hole_example : rejects (60 ∷ 120 ∷ 180 ∷ []) (120 ∷ 180 ∷ []) 180 ≡ false
rejects-oldest_hole_example =
    rejects-oldest_hole 60 (120 ∷ 180 ∷ []) 180 (omega arith, (omega arith, tt)) refl

-- Stored from minute 15000 on, with bars wanted from minute 10 on: two passes, then one.
plan-IsPass_example :
    let bounds = some (stored_from 60 15000 1200000) in
    let b = plan 60 (10 * 60) 1200000 bounds in
    (s m : ℕ) × IsPass 60 10 s 15000 b
    × (b.passes_remaining ≡ pos (suc m))
    × ((plan 60 (10 * 60) 1200000 (some (stored_from 60 s 1200000))).passes_remaining ≡ pos m)
    × (m ≡ 0 → (plan 60 (10 * 60) 1200000 (some (stored_from 60 s 1200000))).start ≡ none)
plan-IsPass_example =
    plan-IsPass 60 10 15000 1200000 1200000 (some (stored_from 60 15000 1200000)) (omega arith)
      (omega arith) (omega arith) refl

-- Weekly bars start on Thursdays: a target on a Friday lies between two.
plan_between_bars_example :
    let b = plan 7 8 70 (some (record { min_bar_timestamp = 14; max_bar_timestamp = 70 })) in
    (b.start ≡ some 8)
    × (b.end ≡ some 7)
    × (b.passes_remaining ≡ pos 1)
    × ((w : Shelf) → backfill_range shop btc 7 8 7 w ≡ (raised value_error, w))
plan_between_bars_example =
    plan_between_bars shop btc 7 8 70 (record { min_bar_timestamp = 14; max_bar_timestamp = 70 })
      (omega arith) (omega arith) (omega arith)
