-- ===== src/Confirm.antt =====
-- quant/trade/brokers/ccxt/confirm.py: polling a market order until its fill is known. A float of the
-- source is a `Q`; an order of the exchange has the keys that the code reads.
use quant_strategies.Prelude.{
  ℕ, String, Bool, true, false, not, ◌&&◌, ◌||◌, Option, none, some, List, [], ◌∷◌, ◌++◌, ◌⊎◌, inl,
  inr, if◌then◌else◌,
}
use text.Mathlib.Text.{◌==◌ as str_eq}
use quant_strategies.Prelude.Text.{truthy, joined}
use quant_strategies.Prelude.Num.{Num}
use quant_strategies.Prelude.Effects.{Act, Outcome, ok, raised, pure, raise, attempt, ◌>>=◌, ◌>>◌}
use quant_strategies.Order.{OrderRequest, OrderResult, OrderRejectReason, venue_rejected}
pub mod Answers
mod Tests

-- The `fee` of an order, where it is a dictionary.
pub record Fee (Q : Type 0) : Type 0 where
  pub cost : Option Q
  pub currency : Option String

pub record VenueOrder (Q : Type 0) : Type 0 where
  pub id : Option String
  pub status : Option String
  pub filled : Option Q
  pub average : Option Q
  pub fee : Option (Fee Q)

-- `_FillStatus`.
pub record FillStatus (Q : Type 0) : Type 0 where
  pub success : Bool
  pub vendor_order_id : Option String
  pub message : String
  pub raw_status : Option String
  pub reason : Option OrderRejectReason
  pub filled_qty : Option Q
  pub avg_price : Option Q
  pub fee : Option Q
  pub fee_ccy : Option String

-- `OrderNotFoundError`, `BrokerConnectionError` with its text and reason, and any other.
pub data FetchError (X : Type 0) : Type 0 where
  not_found : FetchError X
  connection : String → Option OrderRejectReason → FetchError X
  other : X → FetchError X

-- The gateway and the clock, and of the texts `str.lower`, `str.strip`, `repr` and `f"{x:.1f}"`.
pub record ConfirmEnv (Q X W : Type 0) : Type 0 where
  pub sleep : Q → Act W (FetchError X) (Unit {0})
  pub fetch_order : String → String → Act W (FetchError X) (VenueOrder Q)
  pub lower : String → String
  pub strip : String → String
  pub repr : String → String
  pub fixed1 : Q → String

-- `text or None`, and `a or b` of texts.
abbrev pub some_text : String → Option String
some_text s = if truthy (some s) then some s else none

abbrev pub text_or : Option String → String → String
text_or none other_text = other_text
text_or (some s) other_text = if truthy (some s) then s else other_text

abbrev pub first_id : Option String → String → String
first_id none vendor_order_id = vendor_order_id
first_id (some id) vendor_order_id = id

-- `status in ("canceled", "cancelled", "expired")`.
abbrev pub is_ended : String → Bool
is_ended s = str_eq s "canceled" || str_eq s "cancelled" || str_eq s "expired"

module _ {Q X W : Type 0} ⦃n : Num Q⦄ (env : ConfirmEnv Q X W) where
  abbrev pub fee_ccy : Option String → Option String
  fee_ccy none = none
  fee_ccy (some value) = some_text (env.strip value)

  abbrev pub extract_fee : Option (Fee Q) → Option Q × Option String
  extract_fee none = (none, none)
  extract_fee (some fee) = (fee.cost, fee_ccy fee.currency)

  -- `float(order.get("filled") or 0)`: a filled quantity of zero is zero either way.
  abbrev pub filled_of : Option Q → Q
  filled_of none = n.nought
  filled_of (some q) = q

  -- `(order.get("status") or "").lower()`.
  abbrev pub status_of : VenueOrder Q → String
  status_of order = env.lower (text_or order.status "")

  abbrev pub filled_status : String → VenueOrder Q → FillStatus Q
  filled_status vendor_order_id order = record {
    success = true;
    vendor_order_id = some (first_id order.id vendor_order_id);
    message = "order filled";
    raw_status = some (text_or (some (status_of order)) "closed");
    reason = none;
    filled_qty = some (filled_of order.filled);
    avg_price = order.average;
    fee = (extract_fee order.fee).0;
    fee_ccy = (extract_fee order.fee).1;
  }

  abbrev pub rejected_status : String → VenueOrder Q → FillStatus Q
  rejected_status vendor_order_id order = record {
    success = false;
    vendor_order_id = some (first_id order.id vendor_order_id);
    message = joined "order rejected status=" (text_or (some (status_of order)) "unknown");
    raw_status = some (status_of order);
    reason = some venue_rejected;
    filled_qty = none;
    avg_price = none;
    fee = none;
    fee_ccy = none;
  }

  unfoldable pub parse_terminal : String → VenueOrder Q → Option (FillStatus Q)
  parse_terminal vendor_order_id order =
      let status = status_of order in
      let filled = filled_of order.filled in
      if str_eq status "closed" || (n.ltq n.nought filled && is_ended status)
      then some (filled_status vendor_order_id order)
      else if str_eq status "rejected" || (n.eqq filled n.nought && is_ended status)
      then some (rejected_status vendor_order_id order)
      else none

  -- `sum(delays_s)`.
  sum_from : Q → List Q → Q
  sum_from total [] = total
  sum_from total (d ∷ ds) = sum_from (n.add total d) ds

  abbrev pub last_note : Option String → String
  last_note none = ""
  last_note (some status) =
      if truthy (some status) then joined " (last status=" (joined (env.repr status) ")") else ""

  unfoldable pub unconfirmed : OrderRequest Q → String → Option String → List Q → OrderResult Q
  unfolding sum_from
  unconfirmed req vendor_order_id last_status slept = record {
    success = false;
    vendor_order_id = some vendor_order_id;
    message = joined "fill unconfirmed after " (
        joined (env.fixed1 (sum_from n.nought slept)) (
          joined "s — vendor_order_id=" (
            joined vendor_order_id
              (joined " requires manual reconciliation" (last_note last_status)))));
    reason = none;
    raw_status = last_status;
    side = some req.side;
    requested_qty = some req.qty;
    filled_qty = none;
    avg_price = none;
    fee = none;
    fee_ccy = none;
  }

  abbrev pub result_of : OrderRequest Q → FillStatus Q → OrderResult Q
  result_of req fill = record {
    success = fill.success;
    vendor_order_id = fill.vendor_order_id;
    message = fill.message;
    reason = fill.reason;
    raw_status = fill.raw_status;
    side = some req.side;
    requested_qty = some req.qty;
    filled_qty = fill.filled_qty;
    avg_price = fill.avg_price;
    fee = fill.fee;
    fee_ccy = fill.fee_ccy;
  }

  abbrev pub refused : OrderRequest Q → String → String → OrderRejectReason → OrderResult Q
  refused req vendor_order_id text reason = record {
    success = false;
    vendor_order_id = some vendor_order_id;
    message = text;
    reason = some reason;
    raw_status = none;
    side = some req.side;
    requested_qty = some req.qty;
    filled_qty = none;
    avg_price = none;
    fee = none;
    fee_ccy = none;
  }

  -- How one turn of the loop ends: `return`, or on with the last status.
  abbrev pub parsed_turn :
      OrderRequest Q → Option String → Option (FillStatus Q) → OrderResult Q ⊎ Option String
  parsed_turn req status none = inr status
  parsed_turn req status (some fill) = inl (result_of req fill)

  abbrev pub polled :
      OrderRequest Q
      → String
      → Option String
      → List Q
      → Outcome (FetchError X) (VenueOrder Q)
      → Act W (FetchError X) (OrderResult Q ⊎ Option String)
  polled req id last slept (ok order) =
      pure (parsed_turn req order.status (parse_terminal id order))
  polled req id last slept (raised not_found) = pure (inr last)
  polled req id last slept (raised (connection text (some reason))) =
      pure (inl (refused req id text reason))
  polled req id last slept (raised (connection text none)) =
      pure (inl (unconfirmed req id last slept))
  polled req id last slept (raised (other e)) = raise (other e)

  abbrev pub go_on :
      (Option String → Act W (FetchError X) (OrderResult Q))
      → OrderResult Q ⊎ Option String
      → Act W (FetchError X) (OrderResult Q)
  go_on rest (inl r) = pure r
  go_on rest (inr last) = rest last

  unfoldable pub confirm_from :
      OrderRequest Q
      → String
      → List Q
      → List Q
      → Option String
      → Act W (FetchError X) (OrderResult Q)
  confirm_from req id [] slept last = pure (unconfirmed req id last slept)
  confirm_from req id (delay ∷ delays) slept last =
      env.sleep delay
      >> ((attempt (env.fetch_order id req.symbol) >>= polled req id last (slept ++ delay ∷ []))
          >>= go_on (confirm_from req id delays (slept ++ delay ∷ [])))

  unfoldable pub confirm_market_order :
      OrderRequest Q → String → List Q → Act W (FetchError X) (OrderResult Q)
  confirm_market_order req id delays = confirm_from req id delays [] none
