-- ===== src/OrderPolicy/Retry.antt =====
-- When `OrderRetryPolicy` of quant/trade/order_policy.py retries, in terms of the result's own fields.
use quant_strategies.Prelude.{◌≡◌, ◌⊎◌, String, true, false, Option, none, some, arith}
use quant_strategies.Prelude.Text.{truthy, codes, lower, contains}
use quant_strategies.Order.{OrderResult, OrderRejectReason}
use quant_strategies.OrderPolicy.{is_unconfirmed, is_retryable}

module _ {Q : Type 0} where
  -- The message holds the text, in whatever case.
  abbrev Says : OrderResult Q → String → Type 0
  Says r text = contains (lower (codes r.message)) (codes text) ≡ true

  -- The message says that the fill is unknown.
  abbrev pub SaysUnconfirmed : OrderResult Q → Type 0
  SaysUnconfirmed r = Says r "fill unconfirmed" ⊎ Says r "requires manual reconciliation"

  pub is_unconfirmed-SaysUnconfirmed :
      (r : OrderResult Q) → is_unconfirmed r ≡ true → SaysUnconfirmed r
  unfolding is_unconfirmed
  is_unconfirmed-SaysUnconfirmed r h = ground arith

  pub not_unconfirmed : (r : OrderResult Q) → is_unconfirmed r ≡ false → ¬ SaysUnconfirmed r
  unfolding is_unconfirmed
  not_unconfirmed r h s = ground arith

  -- The order failed without a typed reason, and its fill is unknown, or it came with an id, or the
  -- message names a transient fault.
  abbrev pub MayRetry : OrderResult Q → Type 0
  MayRetry r =
      (r.success ≡ false)
      × (r.reason ≡ none)
      × (SaysUnconfirmed r
          ⊎ ((truthy r.vendor_order_id ≡ true)
              ⊎ (Says r "unreachable" ⊎ (Says r "rate" ⊎ Says r "timeout"))))

  retry_on-MayRetry :
      (reason : Option OrderRejectReason) (r : OrderResult Q)
      → let r' : OrderResult Q = record r { reason = reason } in
        is_retryable r' ≡ true → MayRetry r'
  unfolding is_retryable is_unconfirmed
  retry_on-MayRetry none r h = ground arith
  retry_on-MayRetry (some x) r h = absurd (ground arith)

  pub is_retryable-MayRetry : (r : OrderResult Q) → is_retryable r ≡ true → MayRetry r
  is_retryable-MayRetry r h = retry_on-MayRetry r.reason r h
