-- ===== src/MarketData/Store/Filled.antt =====
-- What `_find_gaps`, `_fetch` and `_store` leave in the repository.
use quant_strategies.Prelude.{
  ℕ, ◌≡◌, ◌⊎◌, inl, inr, refl, sym, ◌∙◌, Bool, true, false, ◌||◌, ap, Option, none, some, List, [],
  ◌∷◌, listed, ◌==◌, ==_iff, Bool-cases, if_ensures, if◌then◌else◌, String,
}
use mathlib.Core.Path.{subst}
use mathlib.Core.Bool.{false≢true}
use native.Mathlib.Omega.{arith}
use quant_strategies.Prelude.Effects.{Act, Outcome, ok, raised, bind_result, catch_result}
use quant_strategies.Intervals.{bars_between}
use quant_strategies.MarketData.{OhlcvBar, Series, BarError, timestamps, fetched_at, not_in, BarEnv}
use quant_strategies.MarketData.Service.{
  is_unique_violation, fetch, find_gaps, mapped, inserted_or, insert, store_one, store_from,
}
use quant_strategies.MarketData.Gaps.{not_in-Unfilled}
use quant_strategies.MarketData.Store.{
  Holdings, OnOk, OnKept, bind_ok, weaken, Grows, IsStore, stays, then-Grows, Keeps, then_ok,
  then-Keeps,
}

module _ {Q : Type 0} where
  abbrev pub Found : ℕ → Bool → Option (OhlcvBar Q) → Type 0
  Found t has none = has ≡ false
  Found t has (some bar) = bar.bar_timestamp ≡ t

  Found-or :
      (t : ℕ) (b : OhlcvBar Q) (has : Bool) (o : Option (OhlcvBar Q))
      → Found t has o
      → Found t ((b.bar_timestamp == t) || has) (elim o [
        | some later ↦ some later
        | none ↦ if b.bar_timestamp == t then some b else none
      ])
  Found-or t b has (some later) h = h
  Found-or t b has none h =
      if_ensures (Found t ((b.bar_timestamp == t) || has)) (b.bar_timestamp == t)
        (λ e. (==_iff b.bar_timestamp t).0 e) (λ e. ground (arith, h))

  -- A timestamp that was fetched has its bar.
  pub Found-bar :
      (t : ℕ) (bars : List (OhlcvBar Q)) → Found t (listed t (timestamps bars)) (fetched_at t bars)
  unfolding fetched_at
  Found-bar t [] = refl
  Found-bar t (b ∷ bars) =
      Found-or t b (listed t (timestamps bars)) (fetched_at t bars) (Found-bar t bars)

module _ {Q X W : Type 0} (env : BarEnv Q X W) (period_of : ℕ → ℕ) (Stored : Holdings W)
    (laws : IsStore env period_of Stored) where
  insert_case :
      (bar : OhlcvBar Q) (s : Series) (w : W) (t : Outcome (BarError X) (Unit {0}) × W)
      → OnKept (λ v. Grows Stored w v × Stored s bar.bar_timestamp v) t
      → OnOk
          (λ _ v. Grows Stored w v × Stored s bar.bar_timestamp v)
          (bind_result (catch_result t) (inserted_or env))
  unfolding inserted_or
  insert_case bar s w (ok _, v) h = h
  insert_case bar s w (raised e, v) h =
      if_ensures
        (λ (m : Act W (BarError X) Bool).
          OnOk (λ _ u. Grows Stored w u × Stored s bar.bar_timestamp u) (m v))
        (is_unique_violation e) (λ dup. h dup) (λ _. tt)

  insert_keeps :
      (s : Series) (bar : OhlcvBar Q) (w : W)
      → OnOk (λ _ v. Grows Stored w v × Stored s bar.bar_timestamp v) (insert env s bar w)
  unfolding insert
  insert_keeps s bar w = insert_case bar s w (env.ins_bar s bar w) (laws.inserted s bar w)

  mapped-Keeps :
      (cusip : String) (app : ℕ) (o : Option String) (w : W)
      → Keeps Stored (mapped env cusip app o w) w
  unfolding mapped
  mapped-Keeps cusip app none w = tt
  mapped-Keeps cusip app (some symbol) w = stays Stored w

  pub fetch_grows : (s : Series) (p a b : ℕ) (w : W) → Keeps Stored (fetch env s p a b w) w
  unfolding fetch
  fetch_grows s p a b w =
      then-Keeps Stored w (env.resolve_internal_cusip s.internal_cusip s.source_app_id w) _
        (laws.resolve_keeps s.internal_cusip s.source_app_id w)
        (λ found v.
          then-Keeps Stored v (mapped env s.internal_cusip s.source_app_id found v) _
            (mapped-Keeps s.internal_cusip s.source_app_id found v)
            (λ symbol u.
              then-Keeps Stored u (env.default_type_for s.internal_cusip u) _
                (laws.type_keeps s.internal_cusip u)
                (λ type z. laws.fetch_keeps symbol p a b type z)))

  -- After a turn of the loop of `_store`, the bar of its timestamp is stored if it was fetched.
  store_one_keeps :
      (s : Series) (t n : ℕ) (has : Bool) (o : Option (OhlcvBar Q)) (w : W)
      → Found t has o
      → OnOk (λ _ v. Grows Stored w v × (has ≡ true → Stored s t v)) (store_one env s o n w)
  unfolding store_one
  store_one_keeps s t n has none w h = (stays Stored w, λ e. absurd (false≢true (sym h ∙ e)))
  store_one_keeps s t n has (some bar) w h =
      then_ok Stored (λ _ v. Stored s bar.bar_timestamp v) (λ _ v. has ≡ true → Stored s t v) w
        (insert env s bar w) _ (insert_keeps s bar w)
        (λ new v k. (stays Stored v, λ _. subst (λ (u : ℕ). Stored s u v) h k))

  -- Each bar that was missing and was fetched.
  abbrev pub Filled : Series → List ℕ → List (OhlcvBar Q) → W → Type 0
  Filled s missing fetched v =
      (t : ℕ) → listed t missing ≡ true → listed t (timestamps fetched) ≡ true → Stored s t v

  pub store_from_keeps :
      (s : Series) (fetched : List (OhlcvBar Q)) (missing : List ℕ) (n : ℕ) (w : W)
      → OnOk
          (λ _ v. Grows Stored w v × Filled s missing fetched v)
          (store_from env s fetched missing n w)
  unfolding store_from
  store_from_keeps s fetched [] n w = (stays Stored w, λ t l. absurd (false≢true l))
  store_from_keeps s fetched (ts ∷ missing) n w =
      let has = listed ts (timestamps fetched) in
      bind_ok (λ _ v. Grows Stored w v × (has ≡ true → Stored s ts v))
        (λ _ v. Grows Stored w v × Filled s (ts ∷ missing) fetched v)
        (store_one env s (fetched_at ts fetched) n w) _
        (store_one_keeps s ts n has (fetched_at ts fetched) w (Found-bar ts fetched))
        (λ m v k.
          weaken (λ _ u. Grows Stored v u × Filled s missing fetched u)
            (λ _ u. Grows Stored w u × Filled s (ts ∷ missing) fetched u)
            (store_from env s fetched missing m v) (store_from_keeps s fetched missing m v)
            (λ _ u g. (
              then-Grows Stored w v u k.0 g.0,
              λ t l f. elim (Bool-cases (ts == t)) [
                | inl e ↦
                    let same = (==_iff ts t).0 e in
                    subst (λ (x : ℕ). Stored s x u) same
                      (g.0 s ts (k.1 (ap (λ (x : ℕ). listed x (timestamps fetched)) same ∙ f)))
                | inr e ↦ g.1 t (ground (arith, l, e)) f
              ],
            )))

  -- After `_find_gaps`, each bar of the range is stored or missing.
  abbrev pub StoredOr : Series → ℕ → ℕ → List ℕ → W → Type 0
  StoredOr s start end left v =
      (t : ℕ)
      → listed t (bars_between start end (period_of s.tm_interval_id)) ≡ true
      → Stored s t v ⊎ (listed t left ≡ true)

  pub find_gaps_keeps :
      (s : Series) (start end : ℕ) (w : W)
      → OnOk
          (λ missing v. Grows Stored w v × StoredOr s start end missing v)
          (find_gaps env s start end w)
  unfolding find_gaps
  find_gaps_keeps s start end w =
      then_ok Stored (λ p _. p ≡ period_of s.tm_interval_id)
        (λ missing v. StoredOr s start end missing v) w (env.get_interval_period s.tm_interval_id w)
        _ (laws.period_is s.tm_interval_id w)
        (λ p v same.
          then_ok Stored (λ rows u. (t : ℕ) → listed t (timestamps rows) ≡ true → Stored s t u)
            (λ missing u. StoredOr s start end missing u) v (env.get_bars s start end v) _
            (laws.bars_are s start end v)
            (λ rows u known. (
              stays Stored u,
              λ t l. elim (Bool-cases (listed t (timestamps rows))) [
                | inl e ↦ inl (known t e)
                | inr e ↦ inr (
                    (not_in-Unfilled (timestamps rows) (bars_between start end p) t).1
                      (ap (λ (q : ℕ). listed t (bars_between start end q)) same ∙ l, e))
              ],
            )))

  pub Filled-or :
      (s : Series) (start end n : ℕ) (missing : List ℕ) (fetched : List (OhlcvBar Q)) (w v : W)
      → StoredOr s start end missing w
      → Grows Stored w v
      → Filled s missing fetched v
      → StoredOr s start end (not_in (timestamps fetched) missing) v
  Filled-or s start end n missing fetched w v gaps grows filled t l = elim (gaps t l) [
    | inl h ↦ inl (grows s t h)
    | inr m ↦ elim (Bool-cases (listed t (timestamps fetched))) [
      | inl e ↦ inl (filled t m e)
      | inr e ↦ inr ((not_in-Unfilled (timestamps fetched) missing t).1 (m, e))
    ]
  ]
