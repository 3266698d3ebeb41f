-- ===== src/MarketData/Store/Answers.antt =====
-- What `backfill` and `ensure_fresh` leave in the repository where they return.
use quant_strategies.Prelude.{
  ℕ, suc, ◌+◌, ◌-◌, ◌*◌, ◌/◌, zero, ◌≡◌, ◌⊎◌, ◌<◌, ◌≤◌, inl, inr, refl, sym, ◌∙◌, true, ap, Option,
  none, some, List, [], ◌∷◌, listed, ltb, leb→le, if_ensures, length,
}
use mathlib.Core.Bool.{false≢true, true≢false}
use native.Mathlib.Omega.{arith}
use quant_strategies.Prelude.Effects.{Act, bind_result, ◌>>=◌}
use quant_strategies.Intervals.{bars_between}
use quant_strategies.Intervals.Bars.{bars_between_iff}
use quant_strategies.MarketData.{
  max_backfill_bars, Series, Coverage, BarError, BackfillResult, timestamps, rejects, BarEnv,
}
use quant_strategies.MarketData.Service.{
  fetch, find_gaps, store_from, store, reject_incomplete, fill_window, is_fresh, last_closed,
  ensure_fresh, backfill_missing, backfill_range, end_or, backfill,
}
use quant_strategies.MarketData.Gaps.{not_in-Unfilled, rejects_iff}
use quant_strategies.MarketData.Store.{
  Holdings, OnOk, bind_ok, weaken, Grows, IsStore, stays, then-Grows,
}
use quant_strategies.MarketData.Store.Filled.{
  fetch_grows, Filled, store_from_keeps, StoredOr, find_gaps_keeps, Filled-or,
}

multiple_pred : (q p : ℕ) → q * p - p ≡ (q - 1) * p
multiple_pred zero p = omega arith
multiple_pred (suc q) p = grind arith

module _ {Q X W : Type 0} (env : BarEnv Q X W) (period_of : ℕ → ℕ) (Stored : Holdings W)
    (laws : IsStore env period_of Stored) where
  backfill_missing_keeps :
      (s : Series) (p start end n : ℕ) (missing : List ℕ) (w : W)
      → StoredOr env period_of Stored laws s start end missing w
      → OnOk
          (λ r v. Grows Stored w v × StoredOr env period_of Stored laws s start end r.unfilled v)
          (backfill_missing env s p start end n missing w)
  unfolding backfill_missing store
  backfill_missing_keeps s p start end n [] w gaps = (stays Stored w, gaps)
  backfill_missing_keeps s p start end n (oldest ∷ missing) w gaps =
      let all = oldest ∷ missing in
      bind_ok (λ _ v. Grows Stored w v)
        (λ r v. Grows Stored w v × StoredOr env period_of Stored laws s start end r.unfilled v)
        (fetch env s p oldest end w) _ (fetch_grows env period_of Stored laws s p oldest end w)
        (λ fetched v g.
          bind_ok (λ _ u. Grows Stored v u × Filled env period_of Stored laws s all fetched u)
            (λ r u. Grows Stored w u × StoredOr env period_of Stored laws s start end r.unfilled u)
            (store env s all fetched v) _
            (store_from_keeps env period_of Stored laws s fetched all 0 v)
            (λ inserted u k.
              let grown = then-Grows Stored w v u g k.0 in
              (
                grown,
                Filled-or env period_of Stored laws s start end n all fetched w u gaps grown k.1,
              )))

  backfill_range_keeps :
      (s : Series) (p start end : ℕ) (w : W)
      → OnOk
          (λ r v. StoredOr env period_of Stored laws s start end r.unfilled v)
          (backfill_range env s p start end w)
  unfolding backfill_range
  backfill_range_keeps s p start end w =
      let Answer = λ (m : Act W (BarError X) BackfillResult).
        OnOk (λ r v. StoredOr env period_of Stored laws s start end r.unfilled v) (m w) in
      if_ensures Answer (ltb end start) (λ _. tt)
        (λ _.
          if_ensures Answer (ltb max_backfill_bars ((end - start) / p + 1)) (λ _. tt)
            (λ _.
              bind_ok
                (λ missing v.
                  Grows Stored w v × StoredOr env period_of Stored laws s start end missing v)
                (λ r v. StoredOr env period_of Stored laws s start end r.unfilled v)
                (find_gaps env s start end w) _
                (find_gaps_keeps env period_of Stored laws s start end w)
                (λ missing v k.
                  let n = length (bars_between start end p) in
                  weaken
                    (λ r u.
                      Grows Stored v u
                      × StoredOr env period_of Stored laws s start end r.unfilled u)
                    (λ r u. StoredOr env period_of Stored laws s start end r.unfilled u)
                    (backfill_missing env s p start end n missing v)
                    (backfill_missing_keeps s p start end n missing v k.1) (λ r u h. h.1))))

  -- The boundaries of a range.
  abbrev pub Boundary : ℕ → ℕ → ℕ → ℕ → Type 0
  Boundary p start end t = (start ≤ t) × (t ≤ end) × ((j : ℕ) × (t ≡ j * p))

  abbrev pub Complete : Series → ℕ → ℕ → BackfillResult → W → Type 0
  Complete s start end r v =
      (t : ℕ)
      → Boundary (period_of s.tm_interval_id) start end t
      → Stored s t v ⊎ (listed t r.unfilled ≡ true)

  -- Over a repository that keeps what it is given, a backfill that answers has every boundary from its
  -- start to its end stored, or lists it as unfilled.
  pub backfill-Complete :
      (s : Series) (start end : ℕ) (now : Option ℕ) (w : W)
      → OnOk (Complete s start end) (backfill env s start (some end) now w)
  unfolding backfill end_or
  backfill-Complete s start end now w =
      bind_ok (λ _ _. Unit {0}) (Complete s start end) (env.get_interval_period s.tm_interval_id w)
        _
        (weaken (λ p v. Grows Stored w v × (p ≡ period_of s.tm_interval_id)) (λ _ _. Unit)
          (env.get_interval_period s.tm_interval_id w) (laws.period_is s.tm_interval_id w)
          (λ _ _ _. tt))
        (λ p v _.
          weaken (λ r u. StoredOr env period_of Stored laws s start end r.unfilled u)
            (Complete s start end) (backfill_range env s p start end v)
            (backfill_range_keeps s p start end v)
            (λ r u h t b. h t (
              (bars_between_iff start end (period_of s.tm_interval_id)
                  (laws.period_pos s.tm_interval_id) t).1
                b)))

  fill_window_keeps :
      (s : Series) (p start newest : ℕ) (missing : List ℕ) (w : W)
      → StoredOr env period_of Stored laws s start newest missing w
      → Boundary (period_of s.tm_interval_id) start newest newest
      → OnOk (λ _ v. Stored s newest v) (fill_window env s p newest missing w)
  unfolding fill_window store reject_incomplete
  fill_window_keeps s p start newest [] w gaps at =
      elim (gaps newest (
        (bars_between_iff start newest (period_of s.tm_interval_id)
            (laws.period_pos s.tm_interval_id) newest).1
          at)) [ inl h ↦ h | inr l ↦ absurd (false≢true l) ]
  fill_window_keeps s p start newest (oldest ∷ missing) w gaps at =
      let all = oldest ∷ missing in
      bind_ok (λ _ v. Grows Stored w v) (λ _ v. Stored s newest v) (fetch env s p oldest newest w) _
        (fetch_grows env period_of Stored laws s p oldest newest w)
        (λ fetched v g.
          if_ensures
            (λ (m : Act W (BarError X) (Unit {0})).
              OnOk (λ _ u. Stored s newest u) (bind_result (m v) (λ _. store env s all fetched)))
            (rejects all (timestamps fetched) newest) (λ _. tt)
            (λ accepted.
              let unfilled = rejects_iff all (timestamps fetched) newest in
              let filled = Filled-or env period_of Stored laws s start newest 0 all fetched in
              weaken (λ _ u. Grows Stored v u × Filled env period_of Stored laws s all fetched u)
                (λ _ u. Stored s newest u) (store_from env s fetched all 0 v)
                (store_from_keeps env period_of Stored laws s fetched all 0 v)
                (λ _ u k.
                  elim (filled w u gaps (then-Grows Stored w v u g k.0) k.1 newest (
                    (bars_between_iff start newest (period_of s.tm_interval_id)
                        (laws.period_pos s.tm_interval_id) newest).1
                      at)) [
                        | inl h ↦ h
                        | inr l ↦
                            let left = (not_in-Unfilled (timestamps fetched) all newest).0 l in
                            absurd (true≢false (sym (unfilled.1 (inl left)) ∙ accepted))
                      ])))

  -- The newest bar that is closed at `moment`.
  abbrev pub newest_of : Series → ℕ → ℕ
  newest_of s moment = last_closed moment (period_of s.tm_interval_id)

  abbrev pub Current : Series → ℕ → W → Type 0
  Current s moment v = (t : ℕ) × (newest_of s moment ≤ t) × Stored s t v

  newest_multiple : (m p : ℕ) → 0 < p → last_closed m p ≡ (m / p - 1) * p
  newest_multiple m p h = multiple_pred (m / p) p

  filled_to_newest :
      (s : Series) (lookback moment p : ℕ) (w : W)
      → p ≡ period_of s.tm_interval_id
      → OnOk
          (λ _ v. Current s moment v)
          ((find_gaps env s (last_closed moment p - p * (lookback - 1)) (last_closed moment p)
              >>= fill_window env s p (last_closed moment p))
            w)
  filled_to_newest s lookback moment p w same =
      let newest = last_closed moment p in
      let start = newest - p * (lookback - 1) in
      let multiple =
        newest_multiple moment (period_of s.tm_interval_id) (laws.period_pos s.tm_interval_id) in
      let at_p = ap (λ (q : ℕ). last_closed moment q) same in
      bind_ok
        (λ missing v.
          Grows Stored w v × StoredOr env period_of Stored laws s start newest missing v)
        (λ _ v. Current s moment v) (find_gaps env s start newest w) _
        (find_gaps_keeps env period_of Stored laws s start newest w)
        (λ missing v k.
          weaken (λ _ u. Stored s newest u) (λ _ u. Current s moment u)
            (fill_window env s p newest missing v)
            (fill_window_keeps s p start newest missing v k.1 (
              omega arith,
              omega arith,
              (moment / period_of s.tm_interval_id - 1, at_p ∙ multiple),
            ))
            (λ _ u h. (newest, omega arith, h)))

  is_fresh_current :
      (s : Series) (newest : ℕ) (c : Option Coverage) (v : W)
      → is_fresh newest c ≡ true
      → ((b : Coverage) → c ≡ some b → Stored s b.max_bar_timestamp v)
      → (t : ℕ) × (newest ≤ t) × Stored s t v
  is_fresh_current s newest none v e h = absurd (false≢true e)
  is_fresh_current s newest (some b) v e h =
      (b.max_bar_timestamp, leb→le newest b.max_bar_timestamp e, h b refl)

  -- Over a repository that keeps what it is given, where `ensure_fresh` returns, the newest bar that is
  -- closed at that moment or a later one is stored.
  pub ensure_fresh-Current :
      (s : Series) (lookback moment : ℕ) (w : W)
      → OnOk (λ _ v. Current s moment v) (ensure_fresh env s lookback (some moment) w)
  unfolding ensure_fresh
  ensure_fresh-Current s lookback moment w =
      let After = λ (m : Act W (BarError X) ℕ). λ (v : W). OnOk (λ _ u. Current s moment u) (m v) in
      if_ensures (λ (m : Act W (BarError X) ℕ). After m w) (ltb lookback 1) (λ _. tt)
        (λ _.
          bind_ok (λ p v. Grows Stored w v × (p ≡ period_of s.tm_interval_id))
            (λ _ v. Current s moment v) (env.get_interval_period s.tm_interval_id w) _
            (laws.period_is s.tm_interval_id w)
            (λ p v k.
              bind_ok
                (λ c u.
                  Grows Stored v u × ((b : Coverage) → c ≡ some b → Stored s b.max_bar_timestamp u))
                (λ _ u. Current s moment u) (env.get_coverage s v) _ (laws.coverage_is s v)
                (λ c u h.
                  if_ensures (λ (m : Act W (BarError X) ℕ). After m u)
                    (is_fresh (last_closed moment p) c)
                    (λ fresh.
                      let found = is_fresh_current s (last_closed moment p) c u fresh h.1 in
                      let at_p = ap (λ (q : ℕ). last_closed moment q) k.1 in
                      let le = found.1 in (found.0, omega arith, found.2))
                    (λ _. filled_to_newest s lookback moment p u k.1))))
