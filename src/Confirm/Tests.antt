-- ===== src/Confirm/Tests.antt =====
-- An exchange that never finishes an order, one that does on the second poll, and the theorem on them.
use quant_strategies.Prelude.{◌≡◌, refl, String, none, some, List, [], ◌∷◌}
use quant_strategies.Prelude.Int.{ℤ}
use quant_strategies.Prelude.Nano.{nano_num, units}
use quant_strategies.Prelude.Effects.{ok, raised, pure}
use quant_strategies.Order.{OrderSide, OrderType, OrderRequest}
use quant_strategies.Confirm.{
  VenueOrder, not_found, ConfirmEnv, confirm_market_order, confirm_from, parse_terminal, result_of,
  filled_status,
}
use quant_strategies.Confirm.Answers.{watched, Answered, confirm_market_order-Answered}

abbrev Script : Type 0
Script = List (VenueOrder ℤ)

abbrev order : String → VenueOrder ℤ
order status = record {
  id = some "8";
  status = some status;
  filled = some (units 1);
  average = some (units 9);
  fee = none;
}

abbrev exchange : ConfirmEnv ℤ String Script
exchange = record {
  sleep = λ d. pure tt;
  fetch_order = λ id symbol w. elim w [ [] ↦ (raised not_found, []) | o ∷ rest ↦ (ok o, rest) ];
  lower = λ s. s;
  strip = λ s. s;
  repr = λ s. s;
  fixed1 = λ q. "2.5";
}

abbrev buy_one : OrderRequest ℤ
buy_one = record {
  symbol = "BTC/USDT";
  qty = units 1;
  side = OrderSide.buy;
  order_type = OrderType.market;
  limit_price = none;
}

abbrev delays : List ℤ
delays = units 1 ∷ units 2 ∷ []

confirm_market_order-Answered_example :
    Answered exchange buy_one "8" refl 2
      (confirm_market_order (watched exchange) buy_one "8" delays ([], order "open" ∷ []))
confirm_market_order-Answered_example =
    confirm_market_order-Answered exchange buy_one "8" refl delays (order "open" ∷ [])

filled_second :
    (confirm_market_order exchange buy_one "8" delays (order "open" ∷ order "closed" ∷ [])).0
    ≡ ok (result_of exchange buy_one (filled_status exchange "8" (order "closed")))
unfolding confirm_market_order confirm_from parse_terminal
filled_second = refl
