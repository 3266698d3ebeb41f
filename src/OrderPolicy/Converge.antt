-- ===== src/OrderPolicy/Converge.antt =====
-- Repeated applies converge instead of stacking: two filled orders at most bring a position where
-- the signal points, and from there nothing more is placed.
use mathlib.Core.Path.{subst}
use quant_strategies.Prelude.{
  ◌≡◌, ◌⊎◌, inl, inr, String, true, Option, none, some, arith, sym, ap, refl, ◌∙◌,
}
use quant_strategies.Prelude.Num.{Num, IsOrdered}
use quant_strategies.Order.{OrderSide, OrderRequest, IntendedAction, hold}
use quant_strategies.OrderPolicy.{intended_action, order_for}
use quant_strategies.OrderPolicy.Table.{
  Exposure, short, flat, long, target, table, holding, intended_action-eq-table,
}

module _ {Q : Type 0} ⦃n : Num Q⦄ where
  abbrev moved : OrderSide → Q → Q → Q
  moved OrderSide.buy p q = n.add p q
  moved OrderSide.sell p q = n.sub p q

  -- The position once the order, if any, is filled whole.
  abbrev pub settle : Q → Option (OrderRequest Q) → Q
  settle p none = p
  settle p (some req) = moved req.side p req.qty

  -- One apply whose order is filled whole.
  abbrev pub applied : String → Q → Q → Q → Q
  applied symbol signal qty p = settle p (order_for symbol (intended_action signal p) qty p)

  -- Not dust: exactly flat, or further from 0 than the dust limit.
  abbrev pub IsClear : Q → Type 0
  IsClear p =
      (p ≡ n.nought)
      ⊎ ((n.ltq n.nought p ≡ true) × (n.ltq n.flat_eps p ≡ true))
      ⊎ ((n.ltq p n.nought ≡ true) × (n.ltq n.flat_eps (n.abs p) ≡ true))

  module _ (laws : IsOrdered Q) (symbol : String) (signal qty : Q)
      (sized : n.ltq n.flat_eps qty ≡ true) where
    open laws use {
      eps_pos, lt_trans, lt_asymm, le-eq-not-gt, abs_pos, abs_neg, abs_nought, nought_add, sub_self,
      add_abs, nought_sub,
    }

    abbrev At : Exposure → Q → Type 0
    At flat p = p ≡ n.nought
    At long p = (n.ltq n.nought p ≡ true) × (n.ltq n.flat_eps p ≡ true)
    At short p = (n.ltq p n.nought ≡ true) × (n.ltq n.flat_eps (n.abs p) ≡ true)

    holding-At : (e : Exposure) (p : Q) → At e p → holding p ≡ e
    holding-At flat p h =
        subst (λ (q : Q). holding q ≡ flat) (sym h)
          (ground (
            arith,
            abs_nought,
            le-eq-not-gt (n.abs n.nought) n.flat_eps,
            lt_asymm n.nought n.flat_eps eps_pos,
          ))
    holding-At long p h =
        ground (arith, abs_pos p h.0, le-eq-not-gt (n.abs p) n.flat_eps, lt_asymm n.nought p)
    holding-At short p h = ground (arith, le-eq-not-gt (n.abs p) n.flat_eps)

    -- Where one apply leads.
    abbrev step : Exposure → Exposure → Exposure
    step long short = flat
    step short long = flat
    step to _ = to

    pos_qty : n.ltq n.nought qty ≡ true
    pos_qty = lt_trans n.nought n.flat_eps qty eps_pos sized

    order-At :
        (to e : Exposure) (p : Q)
        → At e p
        → At (step to e) (settle p (order_for symbol (table to e) qty p))
    unfolding order_for
    order-At long flat p h =
        subst (λ (q : Q). At long (settle q (order_for symbol (table long flat) qty q))) (sym h)
          (ground (arith, pos_qty, nought_add qty))
    order-At long long p h = h
    order-At long short p h = ground (arith, abs_neg p h.0, add_abs p h.0)
    order-At flat long p h = ground (arith, abs_pos p h.0, sub_self p)
    order-At flat flat p h = h
    order-At flat short p h = ground (arith, abs_neg p h.0, add_abs p h.0)
    order-At short long p h = ground (arith, abs_pos p h.0, sub_self p)
    order-At short flat p h =
        subst (λ (q : Q). At short (settle q (order_for symbol (table short flat) qty q))) (sym h)
          (ground (arith, pos_qty, nought_sub qty pos_qty))
    order-At short short p h = h

    applied-At :
        (e : Exposure) (p : Q)
        → At e p
        → At (step (target (n.round signal)) e) (applied symbol signal qty p)
    applied-At e p h =
        let same : intended_action signal p ≡ table (target (n.round signal)) e =
          intended_action-eq-table laws signal p
          ∙ ap (table (target (n.round signal))) (holding-At e p h) in
        subst
          (λ (act : IntendedAction).
            At (step (target (n.round signal)) e) (settle p (order_for symbol act qty p)))
          (sym same) (order-At (target (n.round signal)) e p h)

    twice : (to e : Exposure) → step to (step to e) ≡ to
    twice long short = refl
    twice long flat = refl
    twice long long = refl
    twice flat short = refl
    twice flat flat = refl
    twice flat long = refl
    twice short short = refl
    twice short flat = refl
    twice short long = refl

    settled : (to : Exposure) → table to to ≡ hold
    settled short = refl
    settled flat = refl
    settled long = refl

    hold_places_nothing : (p : Q) → settle p (order_for symbol hold qty p) ≡ p
    unfolding order_for
    hold_places_nothing p = refl

    class_of : (p : Q) → IsClear p → (e : Exposure) × At e p
    class_of p (inl h) = (flat, h)
    class_of p (inr (inl h)) = (long, h)
    class_of p (inr (inr h)) = (short, h)

    -- From any clear position, with a quantity above the dust limit, two filled applies leave the
    -- exposure that the signal asks for, and every later apply holds and places no order.
    pub applied_twice-converges :
        (p : Q)
        → IsClear p
        → let p' = applied symbol signal qty (applied symbol signal qty p) in
          (holding p' ≡ target (n.round signal))
          × (intended_action signal p' ≡ hold)
          × (applied symbol signal qty p' ≡ p')
    applied_twice-converges p clear =
        let (e, h) = class_of p clear in
        let t = target (n.round signal) in
        let p' = applied symbol signal qty (applied symbol signal qty p) in
        let arrived : At t p' =
          subst (λ (x : Exposure). At x p') (twice t e)
            (applied-At (step t e) (applied symbol signal qty p) (applied-At e p h)) in
        let there : holding p' ≡ t = holding-At t p' arrived in
        let stay : intended_action signal p' ≡ hold =
          intended_action-eq-table laws signal p' ∙ ap (table t) there ∙ settled t in
        (
          there,
          stay,
          ap (λ (act : IntendedAction). settle p' (order_for symbol act qty p')) stay
              ∙ hold_places_nothing p',
        )
