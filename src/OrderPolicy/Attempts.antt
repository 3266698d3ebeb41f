-- ===== src/OrderPolicy/Attempts.antt =====
-- `OrderRetryExecutor.execute` of quant/trade/order_policy.py, over any broker adapter, and what the
-- audit reads off its attempts. `execute_from left k as` is the loop with `left` rounds to go, at
-- `attempt_num = k`, after the attempts `as`.
use quant_strategies.Prelude.{
  ℕ, zero, suc, String, false, Option, none, some, List, [], ◌∷◌, ◌++◌, if◌then◌else◌, leb, ◌&&◌,
}
use quant_strategies.Prelude.Text.{truthy}
use quant_strategies.Prelude.Num.{Num}
use quant_strategies.Prelude.Effects.{Act, pure, ◌>>=◌, raise}
use quant_strategies.Order.{
  OrderSide, IntendedAction, order_side, OrderRequest, OrderResult, cancel_failed, Exc,
  TradeAdapter,
}
use quant_strategies.OrderPolicy.{
  ApplyAttempt, OrderRetryResult, is_unconfirmed, is_retryable, outcome, intended_action, order_for,
  Pass, return, again,
}

abbrev pub unreachable : Exc
unreachable = record {
  text = "unreachable — loop always returns";
  reason = none;
  is_order_not_found = false;
}

module _ {Q : Type 0} where
  abbrev pub tried : IntendedAction → Q → Option (OrderResult Q) → ApplyAttempt Q
  tried action p result = record { action = action; position_qty = p; result = result }

  -- The order to cancel before another one is placed: the fill is unknown and the id is there.
  unfoldable pub to_cancel : OrderResult Q → Option String
  to_cancel r = if is_unconfirmed r && truthy r.vendor_order_id then r.vendor_order_id else none

module _ {Q W : Type 0} where
  -- `return` leaves the loop, and the end of the body goes on with it.
  abbrev pub resume :
      (List (ApplyAttempt Q) → Act W Exc (OrderRetryResult Q))
      → Pass Q
      → Act W Exc (OrderRetryResult Q)
  resume rest (return r) = pure r
  resume rest (again attempts) = rest attempts

module _ {Q W : Type 0} ⦃n : Num Q⦄ (adapter : TradeAdapter Q W) (symbol : String) (signal qty : Q)
    (max_attempts : ℕ) where
  abbrev pub finish :
      IntendedAction → Q → Option (OrderResult Q) → List (ApplyAttempt Q) → Act W Exc (Pass Q)
  finish action p result attempts = pure (return (outcome max_attempts action p result attempts))

  -- `if attempt_num >= policy.max_attempts: return ...`, else the wait and the next round.
  unfoldable pub next_round :
      ℕ → IntendedAction → Q → OrderResult Q → List (ApplyAttempt Q) → Act W Exc (Pass Q)
  next_round k action p result earlier =
      let attempts = earlier ++ (tried action p (some result) ∷ []) in
      if leb max_attempts k then finish action p (some result) attempts else pure (again attempts)

  unfoldable pub after_cancel :
      ℕ
      → IntendedAction
      → Q
      → OrderResult Q
      → List (ApplyAttempt Q)
      → OrderResult Q
      → Act W Exc (Pass Q)
  after_cancel k action p result earlier cancel =
      let refused = record result { reason = some cancel_failed } in
      if cancel.success
      then next_round k action p result earlier
      else finish action p (some refused) (earlier ++ (tried action p (some refused) ∷ []))

  unfoldable pub cancel_then :
      ℕ
      → IntendedAction
      → Q
      → OrderResult Q
      → List (ApplyAttempt Q)
      → Option String
      → Act W Exc (Pass Q)
  cancel_then k action p result earlier none = next_round k action p result earlier
  cancel_then k action p result earlier (some id) =
      adapter.cancel_order id symbol >>= after_cancel k action p result earlier

  -- `if result is None or result.success: return ...`, then the retry policy and the cancel.
  unfoldable pub after_place :
      ℕ → IntendedAction → Q → List (ApplyAttempt Q) → Option (OrderResult Q) → Act W Exc (Pass Q)
  after_place k action p earlier none = finish action p none (earlier ++ (tried action p none ∷ []))
  after_place k action p earlier (some result) =
      let attempts = earlier ++ (tried action p (some result) ∷ []) in
      if result.success
      then finish action p (some result) attempts
      else if is_retryable result
      then cancel_then k action p result earlier (to_cancel result)
      else finish action p (some result) attempts

  unfoldable pub place :
      ℕ → IntendedAction → Q → List (ApplyAttempt Q) → Option (OrderRequest Q) → Act W Exc (Pass Q)
  place k action p earlier none = finish action p none (earlier ++ (tried action p none ∷ []))
  place k action p earlier (some req) =
      adapter.place_order req >>= λ result. after_place k action p earlier (some result)

  -- The body of the loop.
  unfoldable pub attempt_once : ℕ → List (ApplyAttempt Q) → Act W Exc (Pass Q)
  attempt_once k earlier = adapter.get_position_qty symbol >>= λ p.
      let action = intended_action signal p in
      place k action p earlier (order_for symbol action qty p)

  unfoldable pub execute_from : ℕ → ℕ → List (ApplyAttempt Q) → Act W Exc (OrderRetryResult Q)
  execute_from zero k attempts = raise unreachable
  execute_from (suc left) k attempts = attempt_once k attempts >>= λ pass. elim pass [
    | return r ↦ pure r
    | again attempts' ↦ execute_from left (suc k) attempts'
  ]

  unfoldable pub execute : Act W Exc (OrderRetryResult Q)
  execute = execute_from max_attempts 1 []

-- The audit columns of one attempt.
abbrev pub side_value : OrderSide → String
side_value OrderSide.buy = "BUY"
side_value OrderSide.sell = "SELL"

abbrev side_cd : Option OrderSide → String
side_cd none = "HOLD"
side_cd (some s) = side_value s

module _ {Q : Type 0} where
  unfoldable pub buy_sell_cd : ApplyAttempt Q → String
  unfolding order_side
  buy_sell_cd a = side_cd (order_side a.action)

  abbrev success_ind : Option (OrderResult Q) → String
  success_ind none = "Y"
  success_ind (some r) = if r.success then "Y" else "N"

  unfoldable pub is_success_ind : ApplyAttempt Q → String
  is_success_ind a = success_ind a.result

  or_else : Option Q → Option Q → Option Q
  or_else (some q) _ = some q
  or_else none d = d

  attempt_quantity : Option (OrderResult Q) → Q → Option Q
  unfolding or_else
  attempt_quantity none d = none
  attempt_quantity (some r) d = or_else r.filled_qty (or_else r.requested_qty (some d))

  -- `ApplyAttempt.quantity`.
  unfoldable pub quantity : ApplyAttempt Q → Q → Option Q
  unfolding attempt_quantity
  quantity a default_qty = attempt_quantity a.result default_qty
