-- ===== src/OrderPolicy/Trace.antt =====
-- The calls that an adapter receives, newest first: `logged` records them around any adapter.
use quant_strategies.OrderPolicy.Resting.{Rests, NoneRests}
use quant_strategies.Prelude.{ℕ, suc, ◌≡◌, String, true, List, [], ◌∷◌}
use quant_strategies.Prelude.Effects.{Act, Outcome, ok, raised, bind_result}
use quant_strategies.Order.{OrderRequest, OrderResult, Exc, TradeAdapter}
use quant_strategies.OrderPolicy.Retry.{MayRetry}

pub data Event (Q : Type 0) : Type 0 where
  read : Outcome Exc Q → Event Q
  placed : OrderRequest Q → Outcome Exc (OrderResult Q) → Event Q
  cancelled : String → Outcome Exc (OrderResult Q) → Event Q

abbrev pub Log : Type 0 → Type 0
Log Q = List (Event Q)

module _ {Q W : Type 0} where
  abbrev pub note :
      {A : Type 0}
      → (Outcome Exc A → Event Q)
      → Log Q
      → Outcome Exc A × W
      → Outcome Exc A × (Log Q × W)
  note e log (r, w) = (r, (e r ∷ log, w))

  -- What holds after a recorded call and the rest.
  pub note_ensures {ℓ} :
      {A B : Type 0} (P : Outcome Exc B → Log Q × W → Type ℓ) (e : Outcome Exc A → Event Q)
      (log : Log Q) (t : Outcome Exc A × W) (f : A → Act (Log Q × W) Exc B)
      → ((a : A) (w : W) → P (f a (e (ok a) ∷ log, w)).0 (f a (e (ok a) ∷ log, w)).1)
      → ((x : Exc) (w : W) → P (raised x) (e (raised x) ∷ log, w))
      → P (bind_result (note e log t) f).0 (bind_result (note e log t) f).1
  note_ensures P e log (ok a, w) f hok hraised = hok a w
  note_ensures P e log (raised x, w) f hok hraised = hraised x w

  unfoldable pub logged : TradeAdapter Q W → TradeAdapter Q (Log Q × W)
  logged a = record {
    get_position_qty = λ symbol s. note read s.0 (a.get_position_qty symbol s.1);
    place_order = λ req s. note (placed req) s.0 (a.place_order req s.1);
    cancel_order = λ id symbol s. note (cancelled id) s.0 (a.cancel_order id symbol s.1);
  }

module _ {Q : Type 0} where
  abbrev pub placements : Log Q → ℕ
  placements [] = 0
  placements (placed _ _ ∷ log) = suc (placements log)
  placements (_ ∷ log) = placements log

  -- The newest call placed an order that failed retryably and may rest under the id `id`.
  abbrev pub Awaits : String → Log Q → Type 0
  Awaits id (placed _ (ok r) ∷ log) = MayRetry r × Rests id r
  Awaits id _ = ⊥

  -- Another order may follow: the last one failed in a way that may be retried, and if its fill was
  -- unconfirmed and it had an id, then a cancel of that very id has succeeded since.
  abbrev pub IsSettled : Log Q → Type 0
  IsSettled [] = Unit
  IsSettled (read _ ∷ log) = IsSettled log
  IsSettled (placed _ (ok r) ∷ log) = MayRetry r × NoneRests r
  IsSettled (placed _ (raised _) ∷ log) = ⊥
  IsSettled (cancelled id (ok c) ∷ log) = (c.success ≡ true) × Awaits id log
  IsSettled (cancelled id (raised _) ∷ log) = ⊥

  -- Each order was placed when the calls before it were settled.
  abbrev pub IsSafe : Log Q → Type 0
  IsSafe [] = Unit
  IsSafe (placed _ _ ∷ log) = IsSettled log × IsSafe log
  IsSafe (_ ∷ log) = IsSafe log
