-- ===== src/Confirm/Answers.antt =====
-- What `confirm_market_order` answers, and what the retry executor makes of an answer that leaves the
-- fill open.
use quant_strategies.Prelude.{
  ℕ, suc, ◌+◌, ◌≡◌, ◌≤◌, ◌⊎◌, inl, inr, refl, sym, ◌∙◌, if_ensures, String, true, false, Option,
  none, some, List, [], ◌∷◌, ◌++◌, length, head?,
}
use mathlib.Core.Path.{subst}
use mathlib.Core.Bool.{true≢false}
use native.Mathlib.Omega.{arith}
use quant_strategies.Prelude.Text.{truthy, joined, contains, starts_with, lower}
use quant_strategies.Prelude.Num.{Num}
use quant_strategies.Prelude.Effects.{Act, Outcome, ok, raised, bind_result, catch_result}
use quant_strategies.Order.{OrderRequest, OrderResult, OrderRejectReason}
use quant_strategies.OrderPolicy.{is_unconfirmed, is_retryable}
use quant_strategies.OrderPolicy.Attempts.{to_cancel}
use quant_strategies.Confirm.{
  VenueOrder, FillStatus, FetchError, not_found, connection, other, ConfirmEnv, parse_terminal,
  unconfirmed, result_of, parsed_turn, polled, go_on, confirm_from, confirm_market_order,
}

-- The polls, newest first: the order that was returned, or nothing.
abbrev pub Polls : Type 0 → Type 0
Polls Q = List (Option (VenueOrder Q))

module _ {Q X : Type 0} where
  abbrev pub returned : Outcome (FetchError X) (VenueOrder Q) → Option (VenueOrder Q)
  returned (ok order) = some order
  returned (raised e) = none

module _ {Q X W : Type 0} where
  abbrev pub watched : ConfirmEnv Q X W → ConfirmEnv Q X (Polls Q × W)
  watched env = record {
    sleep = λ d s. let t = env.sleep d s.1 in (t.0, (s.0, t.1));
    fetch_order =
        λ id symbol s. let t = env.fetch_order id symbol s.1 in (t.0, (returned t.0 ∷ s.0, t.1));
    lower = env.lower;
    strip = env.strip;
    repr = env.repr;
    fixed1 = env.fixed1;
  }

module _ {Q X W : Type 0} ⦃n : Num Q⦄ (env : ConfirmEnv Q X W) (req : OrderRequest Q) (id : String)
    (named : truthy (some id) ≡ true) where
  -- The executor cancels this very order before it places another one.
  abbrev pub Reconciles : OrderResult Q → Type 0
  Reconciles r = (r.success ≡ false) × (is_retryable r ≡ true) × (to_cancel r ≡ some id)

  -- An answer reports the order of the newest poll, which is terminal; or it is a failure with a
  -- reason; or the fill is open, and the executor reconciles it.
  abbrev pub Decided : OrderResult Q → Polls Q → Type 0
  Decided r polls =
      ((order : VenueOrder Q) × (fill : FillStatus Q) × (head? polls ≡ some (some order))
        × (parse_terminal env id order ≡ some fill)
        × (r ≡ result_of env req fill))
      ⊎ ((r.success ≡ false) × ((reason : OrderRejectReason) × (r.reason ≡ some reason)))
      ⊎ Reconciles r

  -- Where the loop returns: an answer that is decided, after at most `most` polls.
  abbrev pub Answered : ℕ → Outcome (FetchError X) (OrderResult Q) × (Polls Q × W) → Type 0
  Answered most (ok r, s) = Decided r s.0 × (length s.0 ≤ most)
  Answered most (raised e, s) = Unit

  unconfirmed-Reconciles :
      (last : Option String) (slept : List Q)
      → Reconciles (unconfirmed (watched env) req id last slept)
  unfolding is_unconfirmed is_retryable to_cancel unconfirmed joined contains lower starts_with
  unconfirmed-Reconciles last slept = (
    refl,
    refl,
    if_ensures (λ (o : Option String). o ≡ some id) (truthy (some id)) (λ _. refl)
        (λ e. absurd (true≢false (sym named ∙ e))),
  )

  parsed-Answered :
      (most : ℕ) (order : VenueOrder Q) (polls : Polls Q) (w : W) (fill : Option (FillStatus Q))
      (rest : Option String → Act (Polls Q × W) (FetchError X) (OrderResult Q))
      → parse_terminal env id order ≡ fill
      → suc (length polls) ≤ most
      → ((last : Option String) → Answered most (rest last (some order ∷ polls, w)))
      → Answered most (
          go_on
            (watched env)
            rest
            (parsed_turn (watched env) req order.status fill)
            (some order ∷ polls, w))
  parsed-Answered most order polls w none rest parsed few more = more order.status
  parsed-Answered most order polls w (some fill) rest parsed few more =
      (inl (order, fill, refl, parsed, refl), few)

  polled-Answered :
      (most : ℕ) (last : Option String) (slept : List Q) (polls : Polls Q)
      (t : Outcome (FetchError X) (VenueOrder Q) × W)
      (rest : Option String → Act (Polls Q × W) (FetchError X) (OrderResult Q))
      → suc (length polls) ≤ most
      → ((last : Option String) (poll : Option (VenueOrder Q)) (w : W)
          → Answered most (rest last (poll ∷ polls, w)))
      → Answered most (
          bind_result
            (bind_result
              (catch_result (t.0, (returned t.0 ∷ polls, t.1)))
              (polled (watched env) req id last slept))
            (go_on (watched env) rest))
  unfolding parse_terminal
  polled-Answered most last slept polls (ok order, w) rest few more =
      parsed-Answered most order polls w (parse_terminal env id order) rest refl few
        (λ last. more last (some order) w)
  polled-Answered most last slept polls (raised not_found, w) rest few more = more last none w
  polled-Answered most last slept polls (raised (connection text (some reason)), w) rest few more =
      (inr (inl (refl, (reason, refl))), few)
  polled-Answered most last slept polls (raised (connection text none), w) rest few more =
      (inr (inr (unconfirmed-Reconciles last slept)), few)
  polled-Answered most last slept polls (raised (other e), w) rest few more = tt

  slept-Answered :
      (most : ℕ) (polls : Polls Q) (t : Outcome (FetchError X) (Unit {0}) × W)
      (rest : Act (Polls Q × W) (FetchError X) (OrderResult Q))
      → ((w : W) → Answered most (rest (polls, w)))
      → Answered most (bind_result (t.0, (polls, t.1)) (λ _. rest))
  slept-Answered most polls (ok _, w) rest more = more w
  slept-Answered most polls (raised e, w) rest more = tt

  confirm_from-Answered :
      (delays slept : List Q) (last : Option String) (polls : Polls Q) (w : W)
      → Answered
          (length polls + length delays)
          (confirm_from (watched env) req id delays slept last (polls, w))
  unfolding confirm_from
  confirm_from-Answered [] slept last polls w =
      (inr (inr (unconfirmed-Reconciles last slept)), omega arith)
  confirm_from-Answered (delay ∷ delays) slept last polls w =
      let most = length polls + suc (length delays) in
      let so_far = slept ++ delay ∷ [] in
      slept-Answered most polls (env.sleep delay w) _ (λ v.
        polled-Answered most last so_far polls (env.fetch_order id req.symbol v)
          (confirm_from (watched env) req id delays so_far) (omega arith)
          (λ last poll u.
            subst
              (λ k.
                Answered k (confirm_from (watched env) req id delays so_far last (poll ∷ polls, u)))
              (omega arith) (confirm_from-Answered delays so_far last (poll ∷ polls) u)))

  -- An answer reports the order of the newest poll, which is terminal; or it is a failure with a
  -- reason; or it leaves the fill open, and then the executor's policy retries it and cancels this very
  -- order first. There is at most one poll for each delay. The order's id is not empty.
  pub confirm_market_order-Answered :
      (delays : List Q) (w : W)
      → Answered (length delays) (confirm_market_order (watched env) req id delays ([], w))
  unfolding confirm_market_order
  confirm_market_order-Answered delays w =
      subst (λ k. Answered k (confirm_from (watched env) req id delays [] none ([], w)))
        (omega arith) (confirm_from-Answered delays [] none [] w)
