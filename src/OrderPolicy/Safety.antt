-- ===== src/OrderPolicy/Safety.antt =====
-- The broker calls of the executor: how many orders it places, and what must stand between two of them.
use quant_strategies.OrderPolicy.Resting.{ToCancel, to_cancel-ToCancel}
use quant_strategies.OrderPolicy.Retry.{is_retryable-MayRetry}
use quant_strategies.Prelude.{
  ℕ, zero, suc, ◌+◌, ◌≤◌, ◌≡◌, String, true, Option, none, some, List, [], ◌∷◌, arith, if_ensures,
}
use quant_strategies.Prelude.Num.{Num}
use quant_strategies.Prelude.Effects.{Act, Outcome, ok, raised, bind_result}
use quant_strategies.Order.{OrderRequest, OrderResult, IntendedAction, Exc, TradeAdapter}
use quant_strategies.OrderPolicy.{
  ApplyAttempt, OrderRetryResult, is_retryable, Pass, return, again, order_for, intended_action,
}
use quant_strategies.OrderPolicy.Attempts.{
  to_cancel, next_round, after_cancel, cancel_then, after_place, place, attempt_once, execute_from,
  execute, resume,
}
use quant_strategies.OrderPolicy.Trace.{
  Log, read, placed, cancelled, logged, note_ensures, placements, Awaits, IsSettled, IsSafe,
}

module _ {Q W : Type 0} where
  -- What holds of the log after one round that began with `m` placements in it.
  abbrev RoundSafe : ℕ → Outcome Exc (Pass Q) → Log Q × W → Type 0
  RoundSafe m (ok (return _)) (log, w) = IsSafe log × (placements log ≤ suc m)
  RoundSafe m (ok (again _)) (log, w) = IsSafe log × IsSettled log × (placements log ≤ suc m)
  RoundSafe m (raised _) (log, w) = IsSafe log × (placements log ≤ suc m)

module _ {Q W : Type 0} ⦃n : Num Q⦄ (a : TradeAdapter Q W) (symbol : String) (signal qty : Q)
    (max_attempts : ℕ) where
  next_round-RoundSafe :
      (k : ℕ) (action : IntendedAction) (p : Q) (result : OrderResult Q)
      (earlier : List (ApplyAttempt Q)) (m : ℕ) (log : Log Q) (w : W)
      → IsSafe log
      → IsSettled log
      → placements log ≤ suc m
      → let t =
          next_round (logged a) symbol signal qty max_attempts k action p result earlier (log, w) in
        RoundSafe {W = W} m t.0 t.1
  unfolding next_round
  next_round-RoundSafe k action p result earlier m log w safe settled few = ground arith

  after_cancel-RoundSafe :
      (k : ℕ) (action : IntendedAction) (p : Q) (result : OrderResult Q)
      (earlier : List (ApplyAttempt Q)) (cancel : OrderResult Q) (id : String) (m : ℕ) (log : Log Q)
      (w : W)
      → IsSafe log
      → Awaits id log
      → placements log ≤ suc m
      → let t =
          after_cancel
            (logged a)
            symbol
            signal
            qty
            max_attempts
            k
            action
            p
            result
            earlier
            cancel
            (cancelled id (ok cancel) ∷ log, w) in
        RoundSafe {W = W} m t.0 t.1
  unfolding after_cancel next_round
  after_cancel-RoundSafe k action p result earlier cancel id m log w safe awaits few = ground arith

  cancel_then-RoundSafe :
      (k : ℕ) (action : IntendedAction) (p : Q) (result : OrderResult Q)
      (earlier : List (ApplyAttempt Q)) (id : Option String) (req : OrderRequest Q) (log : Log Q)
      (w : W)
      → ToCancel id result
      → is_retryable result ≡ true
      → IsSafe log
      → IsSettled log
      → let t =
          cancel_then
            (logged a)
            symbol
            signal
            qty
            max_attempts
            k
            action
            p
            result
            earlier
            id
            (placed req (ok result) ∷ log, w) in
        RoundSafe {W = W} (placements log) t.0 t.1
  unfolding cancel_then
  cancel_then-RoundSafe k action p result earlier none req log w e retry safe settled =
      next_round-RoundSafe k action p result earlier (placements log) _ w (settled, safe)
        (is_retryable-MayRetry result retry, e) (omega arith)
  cancel_then-RoundSafe k action p result earlier (some id) req log w e retry safe settled =
      unfold logged in
      note_ensures (RoundSafe {W = W} (placements log)) (cancelled id)
        (placed req (ok result) ∷ log) (a.cancel_order id symbol w) _
        (λ cancel w'.
          after_cancel-RoundSafe k action p result earlier cancel id (placements log)
            (placed req (ok result) ∷ log) w' (settled, safe)
            (is_retryable-MayRetry result retry, e) (omega arith))
        (λ x w'. ((settled, safe), omega arith))

  after_place-RoundSafe :
      (k : ℕ) (action : IntendedAction) (p : Q) (earlier : List (ApplyAttempt Q))
      (req : OrderRequest Q) (result : OrderResult Q) (log : Log Q) (w : W)
      → IsSafe log
      → IsSettled log
      → let t =
          after_place
            (logged a)
            symbol
            signal
            qty
            max_attempts
            k
            action
            p
            earlier
            (some result)
            (placed req (ok result) ∷ log, w) in
        RoundSafe {W = W} (placements log) t.0 t.1
  unfolding after_place
  after_place-RoundSafe k action p earlier req result log w safe settled =
      let Safe = λ (m : Act (Log Q × W) Exc (Pass Q)).
        RoundSafe {W = W} (placements log) (m (placed req (ok result) ∷ log, w)).0
          (m (placed req (ok result) ∷ log, w)).1 in
      if_ensures Safe result.success (λ done. ((settled, safe), omega arith))
        (λ failed.
          if_ensures Safe (is_retryable result)
            (λ retry.
              cancel_then-RoundSafe k action p result earlier (to_cancel result) req log w
                (to_cancel-ToCancel result) retry safe settled)
            (λ final. ((settled, safe), omega arith)))

  place-RoundSafe :
      (k : ℕ) (action : IntendedAction) (p : Q) (earlier : List (ApplyAttempt Q))
      (req : Option (OrderRequest Q)) (log : Log Q) (w : W)
      → IsSafe log
      → IsSettled log
      → let t = place (logged a) symbol signal qty max_attempts k action p earlier req (log, w) in
        RoundSafe {W = W} (placements log) t.0 t.1
  unfolding place logged
  place-RoundSafe k action p earlier none log w safe settled = (safe, omega arith)
  place-RoundSafe k action p earlier (some req) log w safe settled =
      note_ensures (RoundSafe {W = W} (placements log)) (placed req) log (a.place_order req w) _
        (λ result w'. after_place-RoundSafe k action p earlier req result log w' safe settled)
        (λ x w'. ((settled, safe), omega arith))

  attempt_once-RoundSafe :
      (k : ℕ) (earlier : List (ApplyAttempt Q)) (log : Log Q) (w : W)
      → IsSafe log
      → IsSettled log
      → let t = attempt_once (logged a) symbol signal qty max_attempts k earlier (log, w) in
        RoundSafe {W = W} (placements log) t.0 t.1
  unfolding attempt_once logged
  attempt_once-RoundSafe k earlier log w safe settled =
      note_ensures (RoundSafe {W = W} (placements log)) read log (a.get_position_qty symbol w) _
        (λ p w'.
          let action = intended_action signal p in
          place-RoundSafe k action p earlier (order_for symbol action qty p) (read (ok p) ∷ log) w'
            safe settled)
        (λ x w'. (safe, omega arith))

  abbrev LogSafe : ℕ → Log Q × W → Type 0
  LogSafe m (log, w) = IsSafe log × (placements log ≤ m)

  LogSafe-mono : {m m' : ℕ} (s : Log Q × W) → m ≤ m' → LogSafe m s → LogSafe m' s
  LogSafe-mono s h (safe, few) = (safe, omega arith)

  resume-LogSafe :
      (left m : ℕ) (rest : List (ApplyAttempt Q) → Act (Log Q × W) Exc (OrderRetryResult Q))
      (t : Outcome Exc (Pass Q) × (Log Q × W))
      → ((earlier : List (ApplyAttempt Q)) (log : Log Q) (w : W)
          → IsSafe log
          → IsSettled log
          → LogSafe (placements log + left) (rest earlier (log, w)).1)
      → RoundSafe {W = W} m t.0 t.1
      → LogSafe (m + suc left) (bind_result t (resume rest)).1
  resume-LogSafe left m rest (ok (return r), (log, w)) h (safe, few) = (safe, omega arith)
  resume-LogSafe left m rest (ok (again earlier), (log, w)) h (safe, settled, few) =
      LogSafe-mono (rest earlier (log, w)).1 (omega arith) (h earlier log w safe settled)
  resume-LogSafe left m rest (raised x, (log, w)) h (safe, few) = (safe, omega arith)

  execute_from-LogSafe :
      (left k : ℕ) (earlier : List (ApplyAttempt Q)) (log : Log Q) (w : W)
      → IsSafe log
      → IsSettled log
      → let t = execute_from (logged a) symbol signal qty max_attempts left k earlier (log, w) in
        LogSafe (placements log + left) t.1
  unfolding execute_from
  execute_from-LogSafe zero k earlier log w safe settled = (safe, omega arith)
  execute_from-LogSafe (suc left) k earlier log w safe settled =
      resume-LogSafe left (placements log)
        (execute_from (logged a) symbol signal qty max_attempts left (suc k))
        (attempt_once (logged a) symbol signal qty max_attempts k earlier (log, w))
        (execute_from-LogSafe left (suc k)) (attempt_once-RoundSafe k earlier log w safe settled)

  -- For every broker, at most `max_attempts` orders are placed, and no order after the first is
  -- placed unless the one before it failed without a typed reason, in a way that may be retried, and,
  -- if its fill was unconfirmed and it came with an order id, a cancel of that very id has succeeded
  -- in between. An unconfirmed fill without an id may be followed by another order at once. All this
  -- holds also if a broker call raises.
  pub execute-IsSafe :
      (w : W)
      → let log = (execute (logged a) symbol signal qty max_attempts ([], w)).1.0 in
        IsSafe log × (placements log ≤ max_attempts)
  unfolding execute
  execute-IsSafe w =
      let (safe, few) = execute_from-LogSafe max_attempts 1 [] [] w tt tt in (safe, omega arith)
