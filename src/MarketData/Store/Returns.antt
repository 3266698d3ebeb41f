-- ===== src/MarketData/Store/Returns.antt =====
-- A backfill of a range that is in order and short enough returns, unless one of its calls raises.
use quant_strategies.Prelude.{
  ℕ, ◌+◌, ◌-◌, ◌/◌, ◌≡◌, ◌≤◌, ◌⊎◌, inl, inr, refl, sym, String, Bool, Option, none, some, List, [],
  ◌∷◌, ltb, length, if_ensures,
}
use mathlib.Core.Path.{subst}
use native.Mathlib.Omega.{arith}
use quant_strategies.Prelude.Effects.{
  Act, Outcome, ok, raised, bind_result, catch_result, OnlyRaises, bind_only,
}
use quant_strategies.Intervals.{bars_between}
use quant_strategies.MarketData.{
  max_backfill_bars, OhlcvBar, Series, no_mapping, BarError, stale, BackfillResult, fetched_at,
  BarEnv,
}
use quant_strategies.MarketData.Service.{
  is_unique_violation, mapped, fetch, find_gaps, inserted_or, insert, store_one, store_from, store,
  backfill_missing, backfill_range, end_or, backfill,
}
use quant_strategies.MarketData.Store.{Holdings, OnOk, Grows, IsStore}
use quant_strategies.MarketData.Store.Answers.{Complete, backfill-Complete}

-- The calls raise nothing but what `P` allows.
pub record CallsRaise {Q X W : Type 0} (P : BarError X → Type 0) (env : BarEnv Q X W) : Type 0 where
  pub period : (i : ℕ) (w : W) → OnlyRaises P (env.get_interval_period i w).0
  pub bars : (s : Series) (a b : ℕ) (w : W) → OnlyRaises P (env.get_bars s a b w).0
  pub ins : (s : Series) (bar : OhlcvBar Q) (w : W) → OnlyRaises P (env.ins_bar s bar w).0
  pub resolve :
      (cusip : String) (app : ℕ) (w : W) → OnlyRaises P (env.resolve_internal_cusip cusip app w).0
  pub type : (cusip : String) (w : W) → OnlyRaises P (env.default_type_for cusip w).0
  pub fetching :
      (symbol : String) (p a b : ℕ) (t : Option String) (w : W)
      → OnlyRaises P (env.fetch_bars symbol p a b t w).0

module _ {X : Type 0} (P : BarError X → Type 0) where
  -- An exception of a call, or an instrument that the source does not have.
  abbrev pub Allowed : BarError X → Type 0
  Allowed e = P e ⊎ ((cusip : String) × (app : ℕ) × (e ≡ stale (no_mapping cusip app)))

  allowed : {A : Type 0} (r : Outcome (BarError X) A) → OnlyRaises P r → OnlyRaises Allowed r
  allowed (ok a) h = tt
  allowed (raised e) h = inl h

module _ {Q X W : Type 0} (env : BarEnv Q X W) (P : BarError X → Type 0)
    (calls : CallsRaise P env) where
  abbrev Only : {A : Type 0} → Outcome (BarError X) A → Type 0
  Only r = OnlyRaises (Allowed P) r

  after :
      {A B : Type 0} (t : Outcome (BarError X) A × W) (f : A → Act W (BarError X) B)
      → Only t.0
      → ((a : A) (w : W) → Only (f a w).0)
      → Only (bind_result t f).0
  after t f first rest = bind_only (Allowed P) (λ r. Only r) t f first rest (λ e h. h)

  mapped_only :
      (cusip : String) (app : ℕ) (o : Option String) (w : W) → Only (mapped env cusip app o w).0
  unfolding mapped
  mapped_only cusip app none w = inr (cusip, app, refl)
  mapped_only cusip app (some symbol) w = tt

  fetch_only : (s : Series) (p a b : ℕ) (w : W) → Only (fetch env s p a b w).0
  unfolding fetch
  fetch_only s p a b w =
      let cusip = s.internal_cusip in
      let app = s.source_app_id in
      after (env.resolve_internal_cusip cusip app w) _
        (allowed P (env.resolve_internal_cusip cusip app w).0 (calls.resolve cusip app w))
        (λ found v.
          after (mapped env cusip app found v) _ (mapped_only cusip app found v) (λ symbol u.
            after (env.default_type_for cusip u) _
              (allowed P (env.default_type_for cusip u).0 (calls.type cusip u))
              (λ t z.
                allowed P (env.fetch_bars symbol p a b t z).0 (calls.fetching symbol p a b t z))))

  inserted_only :
      (t : Outcome (BarError X) (Unit {0}) × W)
      → OnlyRaises P t.0
      → Only (bind_result (catch_result t) (inserted_or env)).0
  unfolding inserted_or
  inserted_only (ok _, w) h = tt
  inserted_only (raised e, w) h =
      if_ensures (λ (m : Act W (BarError X) Bool). Only (m w).0) (is_unique_violation e) (λ _. tt)
        (λ _. inl h)

  store_one_only :
      (s : Series) (o : Option (OhlcvBar Q)) (n : ℕ) (w : W) → Only (store_one env s o n w).0
  unfolding store_one insert
  store_one_only s none n w = tt
  store_one_only s (some bar) n w =
      after (insert env s bar w) _ (inserted_only (env.ins_bar s bar w) (calls.ins s bar w))
        (λ new v. tt)

  store_from_only :
      (s : Series) (fetched : List (OhlcvBar Q)) (missing : List ℕ) (n : ℕ) (w : W)
      → Only (store_from env s fetched missing n w).0
  unfolding store_from
  store_from_only s fetched [] n w = tt
  store_from_only s fetched (ts ∷ missing) n w =
      after (store_one env s (fetched_at ts fetched) n w) _
        (store_one_only s (fetched_at ts fetched) n w)
        (λ m v. store_from_only s fetched missing m v)

  find_gaps_only : (s : Series) (start end : ℕ) (w : W) → Only (find_gaps env s start end w).0
  unfolding find_gaps
  find_gaps_only s start end w =
      let i = s.tm_interval_id in
      after (env.get_interval_period i w) _
        (allowed P (env.get_interval_period i w).0 (calls.period i w))
        (λ p v.
          after (env.get_bars s start end v) _
            (allowed P (env.get_bars s start end v).0 (calls.bars s start end v)) (λ rows u. tt))

  missing_only :
      (s : Series) (p start end n : ℕ) (missing : List ℕ) (w : W)
      → Only (backfill_missing env s p start end n missing w).0
  unfolding backfill_missing store
  missing_only s p start end n [] w = tt
  missing_only s p start end n (oldest ∷ missing) w =
      after (fetch env s p oldest end w) _ (fetch_only s p oldest end w) (λ fetched v.
        after (store env s (oldest ∷ missing) fetched v) _
          (store_from_only s fetched (oldest ∷ missing) 0 v) (λ inserted u. tt))

  range_only :
      (s : Series) (p start end : ℕ) (w : W)
      → start ≤ end
      → (end - start) / p + 1 ≤ max_backfill_bars
      → Only (backfill_range env s p start end w).0
  unfolding backfill_range
  range_only s p start end w order short =
      let After = λ (m : Act W (BarError X) BackfillResult). Only (m w).0 in
      if_ensures After (ltb end start) (λ e. absurd (ground arith))
        (λ _.
          if_ensures After (ltb max_backfill_bars ((end - start) / p + 1))
            (λ e. absurd (ground arith))
            (λ _. after (find_gaps env s start end w) _ (find_gaps_only s start end w) (λ missing v.
              missing_only s p start end (length (bars_between start end p)) missing v)))

module _ {Q X W : Type 0} (env : BarEnv Q X W) (period_of : ℕ → ℕ) (Stored : Holdings W)
    (laws : IsStore env period_of Stored) (P : BarError X → Type 0) (calls : CallsRaise P env) where
  with_period :
      (i : ℕ) (t : Outcome (BarError X) ℕ × W) (v : W) (f : ℕ → Act W (BarError X) BackfillResult)
      → OnlyRaises P t.0
      → OnOk (λ p u. Grows Stored v u × (p ≡ period_of i)) t
      → ((w : W) → OnlyRaises (Allowed P) (f (period_of i) w).0)
      → OnlyRaises (Allowed P) (bind_result t f).0
  with_period i (ok p, w) v f only (grows, same) rest =
      subst (λ q. OnlyRaises (Allowed P) (f q w).0) (sym same) (rest w)
  with_period i (raised e, w) v f only known rest = inl only

  -- What holds of a backfill, by how it ends.
  abbrev pub Filled : Series → ℕ → ℕ → Outcome (BarError X) BackfillResult × W → Type 0
  Filled s start end (ok r, w) = Complete env period_of Stored laws s start end r w
  Filled s start end (raised e, w) = Allowed P e

  both :
      (s : Series) (start end : ℕ) (t : Outcome (BarError X) BackfillResult × W)
      → OnOk (Complete env period_of Stored laws s start end) t
      → OnlyRaises (Allowed P) t.0
      → Filled s start end t
  both s start end (ok r, w) complete only = complete
  both s start end (raised e, w) complete only = only

  backfill_only :
      (s : Series) (start end : ℕ) (now : Option ℕ) (w : W)
      → start ≤ end
      → (end - start) / period_of s.tm_interval_id + 1 ≤ max_backfill_bars
      → OnlyRaises (Allowed P) (backfill env s start (some end) now w).0
  unfolding backfill end_or
  backfill_only s start end now w order short =
      let i = s.tm_interval_id in
      with_period i (env.get_interval_period i w) w _ (calls.period i w) (laws.period_is i w)
        (λ v. range_only env P calls s (period_of i) start end v order short)

  -- Over a repository that keeps what it is given, a backfill of a range that is in order and within
  -- the limit answers, unless one of its calls raises or the instrument has no mapping; then every
  -- boundary from its start to its end is stored, or listed as unfilled.
  pub backfill-Filled :
      (s : Series) (start end : ℕ) (now : Option ℕ) (w : W)
      → start ≤ end
      → (end - start) / period_of s.tm_interval_id + 1 ≤ max_backfill_bars
      → Filled s start end (backfill env s start (some end) now w)
  backfill-Filled s start end now w order short =
      both s start end (backfill env s start (some end) now w)
        (backfill-Complete env period_of Stored laws s start end now w)
        (backfill_only s start end now w order short)
