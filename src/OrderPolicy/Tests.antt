-- ===== src/OrderPolicy/Tests.antt =====
-- A scripted venue, runs of the policy against it, and the theorems at concrete inputs.
use quant_strategies.Prelude.{
  ℕ, ◌≤◌, ◌<◌, ◌≡◌, refl, inr, String, Bool, true, false, Option, none, some, List, [], ◌∷◌, arith,
  length, suc,
}
use quant_strategies.Prelude.Int.{ℤ, pos, negsuc}
use quant_strategies.Prelude.Nano.{nano_num, nano-IsOrdered, units}
use quant_strategies.Prelude.Effects.{ok}
use quant_strategies.Order.{OrderResult, TradeAdapter, IntendedAction, hold}
use quant_strategies.OrderPolicy.{intended_action, order_for, is_retryable, is_unconfirmed}
use quant_strategies.OrderPolicy.Attempts.{
  execute, execute_from, attempt_once, place, after_place, cancel_then, after_cancel, next_round,
  to_cancel,
}
use quant_strategies.OrderPolicy.Table.{target, table, holding, intended_action-eq-table}
use quant_strategies.OrderPolicy.Converge.{applied, applied_twice-converges}
use quant_strategies.OrderPolicy.Trace.{logged, placements, IsSafe, Log, cancelled}
use quant_strategies.OrderPolicy.Safety.{execute-IsSafe}
use quant_strategies.OrderPolicy.Final.{RaisesOnly, Returns, execute-Returns}

abbrev reply : Bool → Option String → String → OrderResult ℤ
reply success id message = record {
  success = success;
  vendor_order_id = id;
  message = message;
  reason = none;
  raw_status = none;
  side = none;
  requested_qty = none;
  filled_qty = none;
  avg_price = none;
  fee = none;
  fee_ccy = none;
}

-- The replies that the venue still has to give.
abbrev Script : Type 0
Script = List (OrderResult ℤ)

abbrev next_reply : Script → OrderResult ℤ × Script
next_reply [] = (reply false none "timeout", [])
next_reply (r ∷ rs) = (r, rs)

-- The book reads flat throughout, and every cancel succeeds.
abbrev venue : TradeAdapter ℤ Script
venue = record {
  get_position_qty = λ symbol w. (ok (pos 0), w);
  place_order = λ req w. (ok (next_reply w).0, (next_reply w).1);
  cancel_order = λ id symbol w. (ok (reply true (some id) "cancelled"), w);
}

venue-RaisesOnly : RaisesOnly (λ x. ⊥) venue
venue-RaisesOnly = record { position = λ s w. tt; place_ = λ r w. tt; cancel = λ i s w. tt }

abbrev cancels : Log ℤ → ℕ
cancels [] = 0
cancels (cancelled _ _ ∷ log) = suc (cancels log)
cancels (_ ∷ log) = cancels log

abbrev unsure_then_filled : Script
unsure_then_filled =
    reply false (some "7") "Fill unconfirmed after 3.0s — requires manual reconciliation"
    ∷ reply true (some "8") "order filled"
    ∷ []

execute-IsSafe_example :
    let log =
      (execute (logged venue) "BTC/USDT" (units 1) (units 2) 3 ([], unsure_then_filled)).1.0 in
    IsSafe log × (placements log ≤ 3)
execute-IsSafe_example = execute-IsSafe venue "BTC/USDT" (units 1) (units 2) 3 unsure_then_filled

two_placements :
    placements
      (execute (logged venue) "BTC/USDT" (units 1) (units 2) 3 ([], unsure_then_filled)).1.0
    ≡ 2
unfolding execute execute_from attempt_once place after_place cancel_then after_cancel next_round
    to_cancel logged intended_action order_for is_retryable is_unconfirmed
    quant_strategies.Prelude.Text.contains quant_strategies.Prelude.Text.lower
two_placements = refl

-- A failure that may be retried and came with an id: the second order follows without a cancel.
abbrev lost_then_filled : Script
lost_then_filled =
    reply false (some "7") "connection closed" ∷ reply true (some "8") "order filled" ∷ []

resent_without_cancel :
    let log =
      (execute (logged venue) "BTC/USDT" (units 1) (units 2) 3 ([], lost_then_filled)).1.0 in
    (placements log ≡ 2) × (cancels log ≡ 0)
unfolding execute execute_from attempt_once place after_place cancel_then after_cancel next_round
    to_cancel logged intended_action order_for is_retryable is_unconfirmed
    quant_strategies.Prelude.Text.contains quant_strategies.Prelude.Text.lower
resent_without_cancel = (refl, refl)

execute-Returns_example :
    Returns (λ x. ⊥) 3 (execute venue "BTC/USDT" (units 1) (units 2) 3 unsure_then_filled).0
execute-Returns_example =
    execute-Returns (λ x. ⊥) venue venue-RaisesOnly "BTC/USDT" (units 1) (units 2) 3
      unsure_then_filled (omega arith)

intended_action-eq-table_example :
    intended_action (units 1) (negsuc 4) ≡ table (target (pos 1)) (holding (negsuc 4))
intended_action-eq-table_example = intended_action-eq-table nano-IsOrdered (units 1) (negsuc 4)

covers_a_short : intended_action (units 1) (negsuc 4) ≡ IntendedAction.close_short
unfolding intended_action
covers_a_short = refl

applied_twice-converges_example :
    let p' =
      applied "BTC/USDT" (units 1) (units 2) (applied "BTC/USDT" (units 1) (units 2) (negsuc 4)) in
    (holding p' ≡ target (pos 1))
    × (intended_action (units 1) p' ≡ hold)
    × (applied "BTC/USDT" (units 1) (units 2) p' ≡ p')
applied_twice-converges_example =
    applied_twice-converges nano-IsOrdered "BTC/USDT" (units 1) (units 2) refl (negsuc 4)
      (inr (inr (refl, refl)))
