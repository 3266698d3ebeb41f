-- ===== src/MarketData/Sync.antt =====
-- `sync` of `PriceBarService`, against the list of its visits: one `ensure_fresh` for each instrument.
use quant_strategies.Prelude.{
  ℕ, suc, ◌+◌, ◌≤◌, ◌≡◌, refl, sym, ap, ◌∙◌, String, Bool, true, false, Option, none, some, List,
  [], ◌∷◌, any, length, if_ensures, if◌then◌else◌,
}
use native.Mathlib.Omega.{arith}
use text.Mathlib.Text.{◌==◌ as str_eq}
use text.Mathlib.TextEquality.{eq_iff}
use mathlib.Core.Bool.{true≢false}
use quant_strategies.Prelude.Effects.{Act, Outcome, ok, raised, bind_result, catch_result}
use quant_strategies.MarketData.{BarError, SyncResult, BarEnv}
use quant_strategies.MarketData.Service.{
  set_failure, same_instrument, series_of, ensure_fresh, synced, sync_from, sync,
}

-- The instruments that are not in `seen`, each where it is given first.
abbrev firsts : List (String × ℕ) → List (String × ℕ) → List (String × ℕ)
firsts seen [] = []
firsts seen (i ∷ rest) =
    let again = firsts seen rest in
    let later = firsts (i ∷ seen) rest in if any (same_instrument i) seen then again else i ∷ later

one_name :
    (k j cusip : String) → (str_eq k j ≡ false) → str_eq k cusip ≡ true → str_eq j cusip ≡ true → ⊥
one_name k j cusip apart e f =
    true≢false (sym ((eq_iff k j).1 ((eq_iff k cusip).0 e ∙ sym ((eq_iff j cusip).0 f))) ∙ apart)

both_sides :
    {A B : Type 0} (P : A → B → Type 0) (b : Bool) (x y : A) (z u : B)
    → P x z
    → P y u
    → P (if b then x else y) (if b then z else u)
both_sides P true x y z u h k = h
both_sides P false x y z u h k = k

-- An instrument that was visited, and how its `ensure_fresh` ended.
abbrev Visit : Type 0 → Type 0
Visit X = String × Outcome (BarError X) ℕ

module _ {X : Type 0} where
  abbrev new_bars : List (Visit X) → ℕ
  new_bars [] = 0
  new_bars ((cusip, ok n) ∷ rest) = n + new_bars rest
  new_bars ((cusip, raised e) ∷ rest) = new_bars rest

  -- The last error of an instrument, or what it was before.
  abbrev last_failure : String → Option (BarError X) → List (Visit X) → Option (BarError X)
  last_failure cusip before [] = before
  last_failure cusip before ((name, ok n) ∷ rest) = last_failure cusip before rest
  last_failure cusip before ((name, raised e) ∷ rest) =
      last_failure cusip (if str_eq name cusip then some e else before) rest

  abbrev find_failure : String → List (String × BarError X) → Option (BarError X)
  find_failure cusip [] = none
  find_failure cusip ((name, e) ∷ rest) =
      let later = find_failure cusip rest in if str_eq name cusip then some e else later

  either_first :
      (a b : Bool) (x y z : Option (BarError X))
      → (a ≡ true → b ≡ true → ⊥)
      → (if a then x else (if b then y else z)) ≡ (if b then y else (if a then x else z))
  either_first true true x y z h = absurd (h refl refl)
  either_first true false x y z h = refl
  either_first false true x y z h = refl
  either_first false false x y z h = refl

  covered_by :
      (a : Bool) (x y z : Option (BarError X))
      → (if a then x else z) ≡ (if a then x else (if a then y else z))
  covered_by true x y z = refl
  covered_by false x y z = refl

  find_failure-set_failure :
      (cusip name : String) (e : BarError X) (failures : List (String × BarError X))
      → find_failure cusip (set_failure name e failures)
        ≡ (if str_eq name cusip then some e else find_failure cusip failures)
  unfolding set_failure
  find_failure-set_failure cusip name e [] = refl
  find_failure-set_failure cusip name e ((k, old) ∷ rest) =
      if_ensures
        (λ (l : List (String × BarError X)).
          find_failure cusip l
          ≡ (if str_eq name cusip then some e else find_failure cusip ((k, old) ∷ rest)))
        (str_eq k name)
        (λ same.
          rw ((eq_iff k name).0 same)
            (covered_by (str_eq name cusip) (some e) (some old) (find_failure cusip rest)))
        (λ apart.
          ap (λ o. if str_eq k cusip then some old else o)
            (find_failure-set_failure cusip name e rest)
          ∙ either_first (str_eq k cusip) (str_eq name cusip) (some old) (some e)
              (find_failure cusip rest) (one_name k name cusip apart))

  length-set_failure :
      (cusip : String) (e : BarError X) (failures : List (String × BarError X))
      → length (set_failure cusip e failures) ≤ suc (length failures)
  unfolding set_failure
  length-set_failure cusip e [] = omega arith
  length-set_failure cusip e ((k, old) ∷ rest) =
      let ih = length-set_failure cusip e rest in
      if_ensures (λ (l : List (String × BarError X)). length l ≤ suc (suc (length rest)))
        (str_eq k cusip) (λ _. omega arith) (λ _. omega (arith, ih))

module _ {X W : Type 0} where
  -- What a loop returns that has `k` instruments, `n` new bars and `failures` behind it: the world after
  -- the visits to come, and the sums with them.
  abbrev SumsAt :
      ℕ
      → List (Visit X) × W
      → ℕ
      → List (String × BarError X)
      → Outcome (BarError X) (SyncResult X) × W
      → Type 0
  SumsAt k t n failures (raised e, w) = ⊥
  SumsAt k t n failures (ok r, w) =
      (w ≡ t.1)
      × (r.instruments ≡ k + length t.0)
      × (r.inserted ≡ n + new_bars t.0)
      × ((cusip : String)
          → find_failure cusip r.failures ≡ last_failure cusip (find_failure cusip failures) t.0)
      × (length r.failures ≤ length failures + length t.0)

  ok-SumsAt :
      (k n m : ℕ) (name : String) (t : List (Visit X) × W) (failures : List (String × BarError X))
      (u : Outcome (BarError X) (SyncResult X) × W)
      → SumsAt (suc k) t (n + m) failures u
      → SumsAt k ((name, ok m) ∷ t.0, t.1) n failures u
  ok-SumsAt k n m name t failures (raised e, w) h = h
  ok-SumsAt k n m name t failures (ok r, w) (world, count, bars, found, few) =
      (world, omega arith, omega arith, found, omega arith)

  raised-SumsAt :
      (k n : ℕ) (name : String) (e : BarError X) (t : List (Visit X) × W)
      (failures : List (String × BarError X)) (u : Outcome (BarError X) (SyncResult X) × W)
      → SumsAt (suc k) t n (set_failure name e failures) u
      → SumsAt k ((name, raised e) ∷ t.0, t.1) n failures u
  raised-SumsAt k n name e t failures (raised x, w) h = h
  raised-SumsAt k n name e t failures (ok r, w) (world, count, bars, found, few) = (
    world,
    omega arith,
    omega arith,
    λ cusip.
        found cusip
        ∙ ap (λ o. last_failure cusip o t.0) (find_failure-set_failure cusip name e failures),
    omega (arith, length-set_failure name e failures),
  )

  turn-SumsAt :
      (k n : ℕ) (name : String) (failures : List (String × BarError X))
      (t : Outcome (BarError X) ℕ × W) (later : List (Visit X) × W)
      (rest : ℕ → List (String × BarError X) → Act W (BarError X) (SyncResult X))
      → ((n' : ℕ) (failures' : List (String × BarError X))
          → SumsAt (suc k) later n' failures' (rest n' failures' t.1))
      → SumsAt k
          ((name, t.0) ∷ later.0, later.1)
          n
          failures
          (bind_result (catch_result t) (λ r. let u = synced name n failures r in rest u.0 u.1))
  unfolding synced
  turn-SumsAt k n name failures (ok m, w) later rest h =
      ok-SumsAt k n m name later failures (rest (n + m) failures w) (h (n + m) failures)
  turn-SumsAt k n name failures (raised e, w) later rest h =
      let kept = set_failure name e failures in
      raised-SumsAt k n name e later failures (rest n kept w) (h n kept)

module _ {Q X W : Type 0} (env : BarEnv Q X W) (interval lookback : ℕ) (now : Option ℕ) where
  -- `ensure_fresh` for one instrument after the other, whatever it raises.
  abbrev visits : List (String × ℕ) → W → List (Visit X) × W
  visits [] w = ([], w)
  visits (i ∷ rest) w =
      let t = ensure_fresh env (series_of interval i) lookback now w in
      let later = visits rest t.1 in ((i.0, t.0) ∷ later.0, later.1)

  -- Each distinct instrument has been visited once, in the order given, and the summary is of those
  -- visits: how many, how many new bars, and for each instrument its last error, if any.
  abbrev pub Summed : List (String × ℕ) → W → Outcome (BarError X) (SyncResult X) × W → Type 0
  Summed instruments w (raised e, w') = ⊥
  Summed instruments w (ok r, w') =
      let t = visits (firsts [] instruments) w in
      (w' ≡ t.1)
      × (r.instruments ≡ length t.0)
      × (r.inserted ≡ new_bars t.0)
      × ((cusip : String) → find_failure cusip r.failures ≡ last_failure cusip none t.0)
      × (length r.failures ≤ r.instruments)

  sync_from-SumsAt :
      (seen instruments : List (String × ℕ)) (n : ℕ) (failures : List (String × BarError X)) (w : W)
      → SumsAt
          (length seen)
          (visits (firsts seen instruments) w)
          n
          failures
          (sync_from env interval lookback now seen instruments n failures w)
  unfolding sync_from
  sync_from-SumsAt seen [] n failures w =
      (refl, omega arith, omega arith, λ cusip. refl, omega arith)
  sync_from-SumsAt seen (i ∷ rest) n failures w =
      let t = ensure_fresh env (series_of interval i) lookback now w in
      both_sides
        (λ (due : List (String × ℕ)) (m : Act W (BarError X) (SyncResult X)).
          SumsAt (length seen) (visits due w) n failures (m w))
        (any (same_instrument i) seen) (firsts seen rest) (i ∷ firsts (i ∷ seen) rest) _ _
        (sync_from-SumsAt seen rest n failures w)
        (turn-SumsAt (length seen) n i.0 failures t (visits (firsts (i ∷ seen) rest) t.1)
          (sync_from env interval lookback now (i ∷ seen) rest)
          (λ n' failures'. sync_from-SumsAt (i ∷ seen) rest n' failures' t.1))

  summed :
      (instruments : List (String × ℕ)) (w : W) (u : Outcome (BarError X) (SyncResult X) × W)
      → SumsAt 0 (visits (firsts [] instruments) w) 0 [] u
      → Summed instruments w u
  summed instruments w (raised e, v) h = h
  summed instruments w (ok r, v) (world, count, bars, found, few) =
      (world, omega arith, omega arith, found, omega arith)

  -- Whatever the repository and the exchange raise, `sync` returns: it has run `ensure_fresh` once for
  -- every distinct instrument, in the order given, also after failures. Its summary counts exactly
  -- those instruments and the bars new to the ones that succeeded, and keeps for each identifier the
  -- last error that was raised for it, and none where none was.
  pub sync-Summed :
      (instruments : List (String × ℕ)) (w : W)
      → Summed instruments w (sync env interval lookback now instruments w)
  unfolding sync
  sync-Summed instruments w =
      summed instruments w (sync env interval lookback now instruments w)
        (sync_from-SumsAt [] instruments 0 [] w)
