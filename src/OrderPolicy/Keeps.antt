-- ===== src/OrderPolicy/Keeps.antt =====
-- What the adapter calls leave true of the world, the whole of the executor leaves true.
use quant_strategies.Prelude.{ℕ, zero, suc, String, Option, none, some, List, if_ensures, leb, []}
use quant_strategies.Prelude.Num.{Num}
use quant_strategies.Prelude.Effects.{Act, Outcome, ok, raised, bind_result}
use quant_strategies.Order.{IntendedAction, OrderRequest, OrderResult, Exc, TradeAdapter}
use quant_strategies.OrderPolicy.{
  ApplyAttempt, OrderRetryResult, is_retryable, Pass, return, again, intended_action, order_for,
}
use quant_strategies.OrderPolicy.Attempts.{
  to_cancel, next_round, after_cancel, cancel_then, after_place, place, attempt_once, execute_from,
  execute,
}

pub record Untouched {Q W : Type 0} (G : W → Type 0) (a : TradeAdapter Q W) : Type 0 where
  pub position : (symbol : String) (w : W) → G w → G (a.get_position_qty symbol w).1
  pub placing : (req : OrderRequest Q) (w : W) → G w → G (a.place_order req w).1
  pub cancelling : (id symbol : String) (w : W) → G w → G (a.cancel_order id symbol w).1

module _ {W : Type 0} (G : W → Type 0) where
  bind_kept :
      {A B : Type 0} (t : Outcome Exc A × W) (f : A → Act W Exc B)
      → G t.1
      → ((a : A) (w : W) → G w → G (f a w).1)
      → G (bind_result t f).1
  bind_kept (ok a, w) f g h = h a w g
  bind_kept (raised e, w) f g h = g

module _ {Q W : Type 0} ⦃n : Num Q⦄ (G : W → Type 0) (a : TradeAdapter Q W) (keeps : Untouched G a)
    (symbol : String) (signal qty : Q) (max_attempts : ℕ) where
  next_round_kept :
      (k : ℕ) (action : IntendedAction) (p : Q) (r : OrderResult Q)
      (earlier : List (ApplyAttempt Q)) (w : W)
      → G w
      → G (next_round a symbol signal qty max_attempts k action p r earlier w).1
  unfolding next_round
  next_round_kept k action p r earlier w g =
      if_ensures (λ (m : Act W Exc (Pass Q)). G (m w).1) (leb max_attempts k) (λ _. g) (λ _. g)

  cancel_then_kept :
      (k : ℕ) (action : IntendedAction) (p : Q) (r : OrderResult Q)
      (earlier : List (ApplyAttempt Q)) (id : Option String) (w : W)
      → G w
      → G (cancel_then a symbol signal qty max_attempts k action p r earlier id w).1
  unfolding cancel_then after_cancel
  cancel_then_kept k action p r earlier none w g = next_round_kept k action p r earlier w g
  cancel_then_kept k action p r earlier (some id) w g =
      bind_kept G (a.cancel_order id symbol w) _ (keeps.cancelling id symbol w g) (λ c v h.
        if_ensures (λ (m : Act W Exc (Pass Q)). G (m v).1) c.success
          (λ _. next_round_kept k action p r earlier v h) (λ _. h))

  place_kept :
      (k : ℕ) (action : IntendedAction) (p : Q) (earlier : List (ApplyAttempt Q))
      (req : Option (OrderRequest Q)) (w : W)
      → G w
      → G (place a symbol signal qty max_attempts k action p earlier req w).1
  unfolding place after_place
  place_kept k action p earlier none w g = g
  place_kept k action p earlier (some req) w g =
      bind_kept G (a.place_order req w) _ (keeps.placing req w g) (λ r v h.
        if_ensures (λ (m : Act W Exc (Pass Q)). G (m v).1) r.success (λ _. h)
          (λ _.
            if_ensures (λ (m : Act W Exc (Pass Q)). G (m v).1) (is_retryable r)
              (λ _. cancel_then_kept k action p r earlier (to_cancel r) v h) (λ _. h)))

  execute_from_kept :
      (left k : ℕ) (attempts : List (ApplyAttempt Q)) (w : W)
      → G w
      → G (execute_from a symbol signal qty max_attempts left k attempts w).1
  unfolding execute_from attempt_once
  execute_from_kept zero k attempts w g = g
  execute_from_kept (suc left) k attempts w g =
      bind_kept G (attempt_once a symbol signal qty max_attempts k attempts w) _
        (bind_kept G (a.get_position_qty symbol w) _ (keeps.position symbol w g) (λ p v h.
          let action = intended_action signal p in
          place_kept k action p attempts (order_for symbol action qty p) v h))
        (λ pass v h.
          elim pass
            as (λ pass.
              G
                ((elim pass as (λ _. Act W Exc (OrderRetryResult Q)) [
                  | return r ↦ λ u. (ok r, u)
                  | again rest ↦ execute_from a symbol signal qty max_attempts left (suc k) rest
                ])
                  v).1) [ return r ↦ h | again rest ↦ execute_from_kept left (suc k) rest v h ])

  -- A predicate that each adapter call leaves true is true after the executor, whichever way it ends.
  pub execute_kept : (w : W) → G w → G (execute a symbol signal qty max_attempts w).1
  unfolding execute
  execute_kept w g = execute_from_kept max_attempts 1 [] w g
