-- ===== src/MarketData/Window.antt =====
-- What `load_window` and `sync` of `PriceBarService` answer.
use quant_strategies.Prelude.{
  ℕ, ◌-◌, ◌*◌, ◌≡◌, ◌≤◌, refl, sym, ◌∙◌, ap, Bool, true, false, ◌||◌, Option, none, some, List, [],
  ◌∷◌, ◌++◌, listed, length, ltb, leb, ltb→lt, ◌==◌, ==_iff, if_ensures, if◌then◌else◌,
}
use mathlib.Core.Bool.{false≢true}
use native.Mathlib.Omega.{arith}
use quant_strategies.Prelude.Effects.{Act, Outcome, ok, raised, pure, ◌>>=◌}
use quant_strategies.Intervals.{floor_at}
use quant_strategies.MarketData.{OhlcvBar, Series, BarError, timestamps, fetched_at, BarEnv}
use quant_strategies.MarketData.Service.{
  insert_bar, ohlcv_frame, required_bars, fetch, last_closed, ensure_fresh, read_bars, with_forming,
  append_forming, long_enough, load_window,
}
use quant_strategies.MarketData.Store.{OnOk, bind_ok}
use quant_strategies.MarketData.Store.Filled.{Found, Found-bar}

module _ {Q : Type 0} where
  -- Timestamps that never decrease.
  abbrev pub Ascending : List (OhlcvBar Q) → Type 0
  Ascending [] = Unit
  Ascending (b ∷ []) = Unit
  Ascending (a ∷ b ∷ bs) = (a.bar_timestamp ≤ b.bar_timestamp) × Ascending (b ∷ bs)

  abbrev From : OhlcvBar Q → List (OhlcvBar Q) → Type 0
  From a [] = Unit
  From a (b ∷ bs) = a.bar_timestamp ≤ b.bar_timestamp

  Ascending-cons :
      (a : OhlcvBar Q) (bs : List (OhlcvBar Q)) → From a bs → Ascending bs → Ascending (a ∷ bs)
  Ascending-cons a [] h s = tt
  Ascending-cons a (b ∷ bs) h s = (h, s)

  From-of : (a : OhlcvBar Q) (bs : List (OhlcvBar Q)) → Ascending (a ∷ bs) → From a bs
  From-of a [] s = tt
  From-of a (b ∷ bs) s = s.0

  rest_of : (a : OhlcvBar Q) (bs : List (OhlcvBar Q)) → Ascending (a ∷ bs) → Ascending bs
  rest_of a [] s = tt
  rest_of a (b ∷ bs) s = s.1

  insert_bar-From :
      (a bar : OhlcvBar Q) (bs : List (OhlcvBar Q))
      → a.bar_timestamp ≤ bar.bar_timestamp
      → From a bs
      → From a (insert_bar bar bs)
  unfolding insert_bar
  insert_bar-From a bar [] le h = le
  insert_bar-From a bar (b ∷ bs) le h =
      if_ensures (From a) (ltb b.bar_timestamp bar.bar_timestamp) (λ _. h) (λ _. le)

  insert_bar-Ascending :
      (bar : OhlcvBar Q) (bs : List (OhlcvBar Q)) → Ascending bs → Ascending (insert_bar bar bs)
  unfolding insert_bar
  insert_bar-Ascending bar [] s = tt
  insert_bar-Ascending bar (b ∷ bs) s =
      if_ensures Ascending (ltb b.bar_timestamp bar.bar_timestamp)
        (λ lt.
          let before = ltb→lt b.bar_timestamp bar.bar_timestamp lt in
          Ascending-cons b (insert_bar bar bs)
            (insert_bar-From b bar bs (omega arith) (From-of b bs s))
            (insert_bar-Ascending bar bs (rest_of b bs s)))
        (λ ge. (ground arith, s))

  ohlcv_frame-Ascending : (bars : List (OhlcvBar Q)) → Ascending (ohlcv_frame bars)
  unfolding ohlcv_frame
  ohlcv_frame-Ascending [] = tt
  ohlcv_frame-Ascending (b ∷ bars) =
      insert_bar-Ascending b (ohlcv_frame bars) (ohlcv_frame-Ascending bars)

  listed-insert_bar :
      (t : ℕ) (bar : OhlcvBar Q) (bs : List (OhlcvBar Q))
      → listed t (timestamps (insert_bar bar bs))
        ≡ ((bar.bar_timestamp == t) || listed t (timestamps bs))
  unfolding insert_bar
  listed-insert_bar t bar [] = refl
  listed-insert_bar t bar (b ∷ bs) =
      let ih = listed-insert_bar t bar bs in
      if_ensures
        (λ (l : List (OhlcvBar Q)).
          listed t (timestamps l)
          ≡ ((bar.bar_timestamp == t) || ((b.bar_timestamp == t) || listed t (timestamps bs))))
        (ltb b.bar_timestamp bar.bar_timestamp) (λ _. ground arith) (λ _. refl)

  listed-ohlcv_frame :
      (t : ℕ) (bars : List (OhlcvBar Q))
      → listed t (timestamps (ohlcv_frame bars)) ≡ listed t (timestamps bars)
  unfolding ohlcv_frame
  listed-ohlcv_frame t [] = refl
  listed-ohlcv_frame t (b ∷ bars) =
      listed-insert_bar t b (ohlcv_frame bars)
      ∙ ap (λ x. (b.bar_timestamp == t) || x) (listed-ohlcv_frame t bars)

  listed_last :
      (t : ℕ) (bars : List (OhlcvBar Q)) (bar : OhlcvBar Q)
      → bar.bar_timestamp ≡ t
      → listed t (timestamps (bars ++ bar ∷ [])) ≡ true
  listed_last t [] bar e = let same = (==_iff bar.bar_timestamp t).1 e in ground arith
  listed_last t (b ∷ bars) bar e = let ih = listed_last t bars bar e in ground arith

any_answer : {A X W : Type 0} (t : Outcome (BarError X) A × W) → OnOk (λ _ _. Unit {0}) t
any_answer (ok a, w) = tt
any_answer (raised e, w) = tt

module _ {Q X W : Type 0} (env : BarEnv Q X W) (period_of : ℕ → ℕ)
    (periods : (i : ℕ) (w : W) → OnOk (λ p _. p ≡ period_of i) (env.get_interval_period i w)) where
  -- Bars in order, enough of them, with the forming bar where it is asked for.
  abbrev pub IsWindow : Series → ℕ → ℕ → Bool → List (OhlcvBar Q) → Type 0
  IsWindow s lookback moment include_forming bars =
      Ascending bars
      × (required_bars lookback ≤ length bars)
      × (include_forming ≡ true
          → listed (floor_at moment (period_of s.tm_interval_id)) (timestamps bars) ≡ true)

  with_forming_has :
      (t : ℕ) (has : Bool) (bars : List (OhlcvBar Q)) (o : Option (OhlcvBar Q)) (w : W)
      → Found t has o
      → OnOk (λ r _. Ascending r × (listed t (timestamps r) ≡ true)) (with_forming env bars t o w)
  unfolding with_forming
  with_forming_has t has bars none w h = tt
  with_forming_has t has bars (some bar) w h = (
    ohlcv_frame-Ascending (bars ++ bar ∷ []),
    listed-ohlcv_frame t (bars ++ bar ∷ []) ∙ listed_last t bars bar h,
  )

  append_forming_has :
      (s : Series) (p t : ℕ) (bars : List (OhlcvBar Q)) (w : W)
      → OnOk
          (λ r _. Ascending r × (listed t (timestamps r) ≡ true))
          (append_forming env s p t bars w)
  unfolding append_forming
  append_forming_has s p t bars w =
      bind_ok (λ _ _. Unit {0}) (λ r _. Ascending r × (listed t (timestamps r) ≡ true))
        (fetch env s p t t w) _ (any_answer (fetch env s p t t w))
        (λ fetched v _.
          with_forming_has t (listed t (timestamps fetched)) bars (fetched_at t fetched) v
            (Found-bar t fetched))

  long_enough_ok :
      (s : Series) (lookback moment : ℕ) (forming : Bool) (bars : List (OhlcvBar Q)) (w : W)
      → Ascending bars
      → (forming ≡ true
          → listed (floor_at moment (period_of s.tm_interval_id)) (timestamps bars) ≡ true)
      → OnOk (λ r _. IsWindow s lookback moment forming r) (long_enough env lookback bars w)
  unfolding long_enough
  long_enough_ok s lookback moment forming bars w sorted has =
      if_ensures
        (λ (m : Act W (BarError X) (List (OhlcvBar Q))).
          OnOk (λ r _. IsWindow s lookback moment forming r) (m w))
        (ltb (length bars) (required_bars lookback)) (λ _. tt) (λ ge. (sorted, ground arith, has))

  closed_bars : Series → ℕ → ℕ → ℕ → Act W (BarError X) (List (OhlcvBar Q))
  closed_bars s newest p n =
      if leb 1 n then read_bars env s (newest - p * (n - 1)) newest else pure []

  closed_bars-Ascending :
      (s : Series) (newest p n : ℕ) (w : W)
      → OnOk (λ bars _. Ascending bars) (closed_bars s newest p n w)
  unfolding closed_bars read_bars
  closed_bars-Ascending s newest p n w =
      if_ensures
        (λ (m : Act W (BarError X) (List (OhlcvBar Q))). OnOk (λ bars _. Ascending bars) (m w))
        (leb 1 n)
        (λ _.
          bind_ok (λ _ _. Unit {0}) (λ bars _. Ascending bars)
            (env.get_bars s (newest - p * (n - 1)) newest w) _ (any_answer _)
            (λ rows v _. ohlcv_frame-Ascending rows))
        (λ _. tt)

  forming_added :
      (s : Series) (lookback moment p : ℕ) (forming : Bool) (bars : List (OhlcvBar Q)) (w : W)
      → p ≡ period_of s.tm_interval_id
      → Ascending bars
      → OnOk
          (λ r _. IsWindow s lookback moment forming r)
          (((if forming then append_forming env s p (floor_at moment p) bars else pure bars)
              >>= long_enough env lookback)
            w)
  forming_added s lookback moment p true bars w same sorted =
      bind_ok (λ r _. Ascending r × (listed (floor_at moment p) (timestamps r) ≡ true))
        (λ r _. IsWindow s lookback moment true r)
        (append_forming env s p (floor_at moment p) bars w) _
        (append_forming_has s p (floor_at moment p) bars w)
        (λ r v h.
          long_enough_ok s lookback moment true r v h.0
            (λ _. ap (λ q. listed (floor_at moment q) (timestamps r)) (sym same) ∙ h.1))
  forming_added s lookback moment p false bars w same sorted =
      long_enough_ok s lookback moment false bars w sorted (λ e. absurd (false≢true e))

  -- A window that `load_window` returns is in the order of time and has at least four fifths of the
  -- bars asked for, and where the forming bar is asked for it has that bar. The periods of the
  -- intervals do not change.
  pub load_window-IsWindow :
      (s : Series) (lookback moment : ℕ) (forming : Bool) (w : W)
      → OnOk
          (λ r _. IsWindow s lookback moment forming r)
          (load_window env s lookback (some moment) forming w)
  unfolding load_window closed_bars
  load_window-IsWindow s lookback moment forming w =
      let Window = λ (r : List (OhlcvBar Q)) (_ : W). IsWindow s lookback moment forming r in
      bind_ok (λ _ _. Unit {0}) Window (ensure_fresh env s lookback (some moment) w) _
        (any_answer _)
        (λ _ v _.
          bind_ok (λ p _. p ≡ period_of s.tm_interval_id) Window
            (env.get_interval_period s.tm_interval_id v) _ (periods s.tm_interval_id v)
            (λ p u same.
              let n = if forming then lookback - 1 else lookback in
              bind_ok (λ bars _. Ascending bars) Window (closed_bars s (last_closed moment p) p n u)
                _ (closed_bars-Ascending s (last_closed moment p) p n u)
                (λ bars z sorted. forming_added s lookback moment p forming bars z same sorted)))
