-- ===== src/OrderPolicy/Resting.antt =====
-- What an order that may still rest is, and that `to_cancel` gives its id.
use quant_strategies.Prelude.{
  ◌≡◌, refl, ap, ◌⊎◌, inl, inr, String, Bool, true, false, Option, none, some, ◌&&◌, if_ensures,
  arith,
}
use quant_strategies.Prelude.Text.{truthy}
use quant_strategies.Order.{OrderResult}
use quant_strategies.OrderPolicy.{is_unconfirmed}
use quant_strategies.OrderPolicy.Retry.{
  SaysUnconfirmed, is_unconfirmed-SaysUnconfirmed, not_unconfirmed,
}
use quant_strategies.OrderPolicy.Attempts.{to_cancel}

module _ {Q : Type 0} where
  -- The fill of the order is unconfirmed, and it may rest under the id `id`.
  abbrev pub Rests : String → OrderResult Q → Type 0
  Rests id r = SaysUnconfirmed r × (r.vendor_order_id ≡ some id)

  -- The message does not call the fill unconfirmed, or there is no id to cancel it by: absent, or empty.
  abbrev pub NoneRests : OrderResult Q → Type 0
  NoneRests r = (¬ SaysUnconfirmed r) ⊎ (truthy r.vendor_order_id ≡ false)

  -- What an order to cancel, or none, says of the result.
  abbrev pub ToCancel : Option String → OrderResult Q → Type 0
  ToCancel none r = NoneRests r
  ToCancel (some id) r = Rests id r

  unconfirmed_id :
      (r : OrderResult Q) (id : Option String)
      → is_unconfirmed r ≡ true
      → r.vendor_order_id ≡ id
      → ToCancel id r
  unconfirmed_id r none unknown e = inr (ap truthy e)
  unconfirmed_id r (some id) unknown e = (is_unconfirmed-SaysUnconfirmed r unknown, e)

  none_rests :
      (r : OrderResult Q) → (is_unconfirmed r && truthy r.vendor_order_id) ≡ false → NoneRests r
  none_rests r one = split (is_unconfirmed r) (truthy r.vendor_order_id) (not_unconfirmed r) one
    where
      split :
          (a b : Bool)
          → (a ≡ false → ¬ SaysUnconfirmed r)
          → (a && b) ≡ false
          → (¬ SaysUnconfirmed r) ⊎ (b ≡ false)
      split true b h e = inr e
      split false b h e = inl (h refl)

  pub to_cancel-ToCancel : (r : OrderResult Q) → ToCancel (to_cancel r) r
  unfolding to_cancel
  to_cancel-ToCancel r =
      if_ensures (λ (o : Option String). ToCancel o r)
        (is_unconfirmed r && truthy r.vendor_order_id)
        (λ both. unconfirmed_id r r.vendor_order_id (ground arith) refl) (λ one. none_rests r one)
