-- ===== src/Deployment/Checks.antt =====
-- The checks and look-ups of an update write nothing.
use quant_strategies.Prelude.{
  ℕ, String, Bool, true, false, ◌||◌, Option, none, some, List, is_none, opt_eq, if_ensures,
}
use quant_strategies.Prelude.Num.{Num}
use quant_strategies.Order.{Undersized}
use quant_strategies.Deployment.{DeploymentRow, TradeError, ServiceEnv}
use quant_strategies.Deployment.Service.{
  listing_exchange, venue_limits, fitted_interval_id, require_fitted_interval, require_tradable_qty,
  compute_initial_scheduled_ts, interval_of, refuse_interval, refuse_size, slot_or_raise, slot_in,
  check_cadence, aligned,
}
use quant_strategies.Deployment.Writes.{
  Event, unseen, logged, Keeps, bind_keeps, venue_limits-Keeps,
}

module _ {Q R P A X W : Type 0} ⦃n : Num Q⦄ (env : ServiceEnv Q R P A (TradeError Q X) W)
    (G : List (Event Q) → Type 0) where
  interval_of-Keeps : (o : Option ℕ) → Keeps G (interval_of (logged env) o)
  unfolding interval_of
  interval_of-Keeps none s h = h
  interval_of-Keeps (some id) s h = h

  refuse_interval-Keeps :
      (o : Option ℕ) (fitted : ℕ) → Keeps G (refuse_interval (logged env) o fitted)
  unfolding refuse_interval logged
  refuse_interval-Keeps none fitted s h = h
  refuse_interval-Keeps (some id) fitted s h =
      bind_keeps G (unseen s.0 (env.interval_label id s.1)) _ h (λ wanted s1 h1.
        bind_keeps G (unseen s1.0 (env.interval_label fitted s1.1)) _ h1 (λ label s2 h2. h2))

  require_fitted_interval-Keeps :
      (o : Option ℕ) (fitted : ℕ) → Keeps G (require_fitted_interval (logged env) o fitted)
  unfolding require_fitted_interval
  require_fitted_interval-Keeps o fitted =
      if_ensures (Keeps G) (is_none o || opt_eq o (some fitted)) (λ _ s h. h)
        (λ _. refuse_interval-Keeps o fitted)

  refuse_size-Keeps : (o : Option (Undersized Q)) → Keeps G (refuse_size (logged env) o)
  unfolding refuse_size
  refuse_size-Keeps none s h = h
  refuse_size-Keeps (some u) s h = h

  pub check_cadence-Keeps :
      (user : ℕ) (c : DeploymentRow Q) (o : Option (Option ℕ))
      → Keeps G (check_cadence (logged env) user c o)
  unfolding check_cadence fitted_interval_id logged
  check_cadence-Keeps user c none s h = h
  check_cadence-Keeps user c (some id) s h =
      bind_keeps G (fitted_interval_id (logged env) user c.strategy_id c.strategy_vid s) _
        (bind_keeps G (unseen s.0 (env.strategy_owned_by c.strategy_id c.strategy_vid user s.1)) _ h
          interval_of-Keeps)
        (require_fitted_interval-Keeps id)

  pub require_tradable_qty-Keeps :
      (app : ℕ) (cusip : String) (qty : Q)
      → Keeps G (require_tradable_qty (logged env) app cusip qty)
  unfolding require_tradable_qty
  require_tradable_qty-Keeps app cusip qty s h =
      bind_keeps G (venue_limits (logged env) app cusip s) _
        (venue_limits-Keeps env G app cusip s h) (λ limits. refuse_size-Keeps _)

  slot_or_raise-Keeps : (o : Option ℕ) → Keeps G (slot_or_raise (logged env) o)
  unfolding slot_or_raise
  slot_or_raise-Keeps none s h = h
  slot_or_raise-Keeps (some ts) s h = h

  slot_in-Keeps :
      (close : Option ℕ) (zone : String) (moment period offset : ℕ)
      → Keeps G (slot_in (logged env) close zone moment period offset)
  unfolding slot_in
  slot_in-Keeps none zone moment period offset = slot_or_raise-Keeps _
  slot_in-Keeps (some close) zone moment period offset = slot_or_raise-Keeps _

  exchange-Keeps : (cusip : String) → Keeps G (listing_exchange (logged env) cusip)
  unfolding listing_exchange logged
  exchange-Keeps cusip s h =
      bind_keeps G (unseen s.0 (env.get_product_by_cusip cusip s.1)) _ h (λ product s1 h1. h1)

  pub aligned-Keeps :
      (c : DeploymentRow Q) (realign : Bool) (o : Option ℕ)
      → Keeps G (aligned (logged env) c realign o)
  unfolding aligned compute_initial_scheduled_ts listing_exchange logged
  aligned-Keeps c true (some id) s h =
      bind_keeps G (listing_exchange (logged env) c.internal_cusip s) _
        (exchange-Keeps c.internal_cusip s h)
        (λ exchange s1 h1.
          bind_keeps G (compute_initial_scheduled_ts (logged env) c.app_id id exchange s1) _
            (bind_keeps G (unseen s1.0 (env.now s1.1)) _ h1 (λ moment s2 h2.
              bind_keeps G (unseen s2.0 (env.get_interval_period id s2.1)) _ h2 (λ period s3 h3.
                bind_keeps G (unseen s3.0 (env.get_execute_offset c.app_id id s3.1)) _ h3
                  (λ offset s4 h4.
                    bind_keeps G (unseen s4.0 (env.get_market_calendar exchange s4.1)) _ h4
                      (λ calendar.
                        slot_in-Keeps calendar.market_close_time calendar.bar_timezone moment period
                          offset)))))
            (λ ts s2 h2. h2))
  aligned-Keeps c true none s h = h
  aligned-Keeps c false o s h = h
