-- ===== src/OrderPolicy/Final.antt =====
-- The executor's loop always returns, with an account of its attempts that matches its result.
use mathlib.Core.Path.{subst, sym}
use quant_strategies.Prelude.{
  ℕ, zero, suc, ◌+◌, ◌≤◌, ◌<◌, ◌≡◌, ◌⊎◌, inl, inr, String, true, false, Option, none, some, List,
  [], ◌∷◌, ◌++◌, arith, if_ensures, length, length-append, last?, last?-append, leb, leb→le,
}
use quant_strategies.Prelude.Num.{Num}
use quant_strategies.Prelude.Effects.{Act, Outcome, ok, raised, bind_result, OnlyRaises, bind_only}
use quant_strategies.Order.{
  OrderRequest, OrderResult, IntendedAction, Exc, TradeAdapter, cancel_failed,
}
use quant_strategies.OrderPolicy.{
  ApplyAttempt, OrderRetryResult, is_retryable, outcome, Pass, return, again, order_for,
  intended_action,
}
use quant_strategies.OrderPolicy.Attempts.{
  tried, to_cancel, resume, next_round, after_cancel, cancel_then, after_place, place, attempt_once,
  execute_from, execute,
}

module _ {Q : Type 0} where
  -- Why the loop stopped at this result: no order was due, or it went through, or no retry may
  -- follow (a typed reject, a failed cancel, an unknown fault), or the attempts are spent.
  abbrev pub Stops : ℕ → ℕ → Option (OrderResult Q) → Type 0
  Stops max_attempts k none = Unit
  Stops max_attempts k (some r) =
      (r.success ≡ true) ⊎ ((r.success ≡ false) × ((is_retryable r ≡ false) ⊎ (max_attempts ≤ k)))

  -- The result is that of the last attempt, and attempts are at least one and at most the budget.
  pub record IsAccount (max_attempts : ℕ) (r : OrderRetryResult Q) : Type 0 where
    pub tried_once : 0 < length r.attempts
    pub within_budget : length r.attempts ≤ max_attempts
    pub last_is_result : last? r.attempts ≡ some (tried r.action r.position_qty r.result)
    pub stops : Stops max_attempts (length r.attempts) r.result

  -- What the loop may end with: an account, or an exception of the broker's.
  abbrev pub Returns : (Exc → Type 0) → ℕ → Outcome Exc (OrderRetryResult Q) → Type 0
  Returns P max_attempts (ok r) = IsAccount max_attempts r
  Returns P max_attempts (raised x) = P x

  -- What round `k` may end with.
  abbrev Rounds : (Exc → Type 0) → ℕ → ℕ → Outcome Exc (Pass Q) → Type 0
  Rounds P max_attempts k (ok (return r)) = IsAccount max_attempts r
  Rounds P max_attempts k (ok (again attempts)) = (length attempts ≡ k) × (suc k ≤ max_attempts)
  Rounds P max_attempts k (raised x) = P x

-- The broker's calls raise nothing but what `P` allows.
pub record RaisesOnly {Q W : Type 0} (P : Exc → Type 0) (a : TradeAdapter Q W) : Type 0 where
  pub position : (symbol : String) (w : W) → OnlyRaises P (a.get_position_qty symbol w).0
  pub place_ : (req : OrderRequest Q) (w : W) → OnlyRaises P (a.place_order req w).0
  pub cancel : (id symbol : String) (w : W) → OnlyRaises P (a.cancel_order id symbol w).0

module _ {Q W : Type 0} ⦃n : Num Q⦄ (P : Exc → Type 0) (a : TradeAdapter Q W)
    (only : RaisesOnly P a) (symbol : String) (signal qty : Q) (max_attempts : ℕ) where
  outcome-IsAccount :
      (action : IntendedAction) (p : Q) (result : Option (OrderResult Q))
      (earlier : List (ApplyAttempt Q))
      → suc (length earlier) ≤ max_attempts
      → Stops max_attempts (suc (length earlier)) result
      → IsAccount max_attempts
          (outcome max_attempts action p result (earlier ++ (tried action p result ∷ [])))
  unfolding outcome
  outcome-IsAccount action p result earlier room why =
      let attempts = earlier ++ (tried action p result ∷ []) in
      let len : length attempts ≡ suc (length earlier) =
        omega (arith, length-append earlier (tried action p result ∷ [])) in
      record {
        tried_once = omega arith;
        within_budget = omega arith;
        last_is_result = last?-append earlier (tried action p result);
        stops = rw len why;
      }

  next_round-Rounds :
      (action : IntendedAction) (p : Q) (result : OrderResult Q) (earlier : List (ApplyAttempt Q))
      (w : W)
      → suc (length earlier) ≤ max_attempts
      → result.success ≡ false
      → Rounds P max_attempts
          (suc (length earlier))
          (next_round a symbol signal qty max_attempts
            (suc (length earlier))
            action
            p
            result
            earlier
            w).0
  unfolding next_round
  next_round-Rounds action p result earlier w room failed =
      if_ensures (λ (m : Act W Exc (Pass Q)). Rounds P max_attempts (suc (length earlier)) (m w).0)
        (leb max_attempts (suc (length earlier)))
        (λ spent.
          outcome-IsAccount action p (some result) earlier room
            (inr (failed, inr (leb→le _ _ spent))))
        (λ left.
          (omega (arith, length-append earlier (tried action p (some result) ∷ [])), ground arith))

  after_cancel-Rounds :
      (action : IntendedAction) (p : Q) (result : OrderResult Q) (earlier : List (ApplyAttempt Q))
      (cancel : OrderResult Q) (w : W)
      → suc (length earlier) ≤ max_attempts
      → result.success ≡ false
      → Rounds P max_attempts
          (suc (length earlier))
          (after_cancel a symbol signal qty max_attempts
            (suc (length earlier))
            action
            p
            result
            earlier
            cancel
            w).0
  unfolding after_cancel is_retryable
  after_cancel-Rounds action p result earlier cancel w room failed =
      if_ensures (λ (m : Act W Exc (Pass Q)). Rounds P max_attempts (suc (length earlier)) (m w).0)
        cancel.success (λ gone. next_round-Rounds action p result earlier w room failed)
        (λ rests.
          outcome-IsAccount action p (some (record result { reason = some cancel_failed })) earlier
            room (inr (failed, inl (ground arith))))

  cancel_then-Rounds :
      (action : IntendedAction) (p : Q) (result : OrderResult Q) (earlier : List (ApplyAttempt Q))
      (id : Option String) (w : W)
      → suc (length earlier) ≤ max_attempts
      → result.success ≡ false
      → Rounds P max_attempts
          (suc (length earlier))
          (cancel_then a symbol signal qty max_attempts
            (suc (length earlier))
            action
            p
            result
            earlier
            id
            w).0
  unfolding cancel_then
  cancel_then-Rounds action p result earlier none w room failed =
      next_round-Rounds action p result earlier w room failed
  cancel_then-Rounds action p result earlier (some id) w room failed =
      bind_only P (Rounds P max_attempts (suc (length earlier))) (a.cancel_order id symbol w) _
        (only.cancel id symbol w)
        (λ cancel w'. after_cancel-Rounds action p result earlier cancel w' room failed) (λ x h. h)

  after_place-Rounds :
      (action : IntendedAction) (p : Q) (earlier : List (ApplyAttempt Q)) (result : OrderResult Q)
      (w : W)
      → suc (length earlier) ≤ max_attempts
      → Rounds P max_attempts
          (suc (length earlier))
          (after_place a symbol signal qty max_attempts
            (suc (length earlier))
            action
            p
            earlier
            (some result)
            w).0
  unfolding after_place
  after_place-Rounds action p earlier result w room =
      let Good = λ (m : Act W Exc (Pass Q)). Rounds P max_attempts (suc (length earlier)) (m w).0 in
      if_ensures Good result.success
        (λ done. outcome-IsAccount action p (some result) earlier room (inl done))
        (λ failed.
          if_ensures Good (is_retryable result)
            (λ retry. cancel_then-Rounds action p result earlier (to_cancel result) w room failed)
            (λ final.
              outcome-IsAccount action p (some result) earlier room (inr (failed, inl final))))

  place-Rounds :
      (action : IntendedAction) (p : Q) (earlier : List (ApplyAttempt Q))
      (req : Option (OrderRequest Q)) (w : W)
      → suc (length earlier) ≤ max_attempts
      → Rounds P max_attempts
          (suc (length earlier))
          (place a symbol signal qty max_attempts (suc (length earlier)) action p earlier req w).0
  unfolding place
  place-Rounds action p earlier none w room = outcome-IsAccount action p none earlier room tt
  place-Rounds action p earlier (some req) w room =
      bind_only P (Rounds P max_attempts (suc (length earlier))) (a.place_order req w) _
        (only.place_ req w) (λ result w'. after_place-Rounds action p earlier result w' room)
        (λ x h. h)

  attempt_once-Rounds :
      (earlier : List (ApplyAttempt Q)) (w : W)
      → suc (length earlier) ≤ max_attempts
      → Rounds P max_attempts
          (suc (length earlier))
          (attempt_once a symbol signal qty max_attempts (suc (length earlier)) earlier w).0
  unfolding attempt_once
  attempt_once-Rounds earlier w room =
      bind_only P (Rounds P max_attempts (suc (length earlier))) (a.get_position_qty symbol w) _
        (only.position symbol w)
        (λ p w'.
          let action = intended_action signal p in
          place-Rounds action p earlier (order_for symbol action qty p) w' room)
        (λ x h. h)

  resume-Returns :
      (k : ℕ) (rest : List (ApplyAttempt Q) → Act W Exc (OrderRetryResult Q))
      (t : Outcome Exc (Pass Q) × W)
      → ((earlier : List (ApplyAttempt Q)) (w : W)
          → length earlier ≡ k
          → suc k ≤ max_attempts
          → Returns P max_attempts (rest earlier w).0)
      → Rounds P max_attempts k t.0
      → Returns P max_attempts (bind_result t (resume rest)).0
  resume-Returns k rest (ok (return r), w) h account = account
  resume-Returns k rest (ok (again earlier), w) h (len, room) = h earlier w len room
  resume-Returns k rest (raised x, w) h allowed = allowed

  execute_from-Returns :
      (left k : ℕ) (earlier : List (ApplyAttempt Q)) (w : W)
      → k ≡ suc (length earlier)
      → length earlier + left ≡ max_attempts
      → 0 < left
      → Returns P max_attempts (execute_from a symbol signal qty max_attempts left k earlier w).0
  unfolding execute_from
  execute_from-Returns zero k earlier w at_k total some_left = absurd (omega arith)
  execute_from-Returns (suc left) k earlier w at_k total some_left =
      let round =
        subst
          (λ (j : ℕ).
            Rounds P max_attempts j (attempt_once a symbol signal qty max_attempts j earlier w).0)
          (sym at_k) (attempt_once-Rounds earlier w (omega arith)) in
      resume-Returns k (execute_from a symbol signal qty max_attempts left (suc k))
        (attempt_once a symbol signal qty max_attempts k earlier w)
        (λ earlier' w' len room.
          execute_from-Returns left (suc k) earlier' w' (omega arith) (omega arith) (omega arith))
        round

  -- With a budget of at least one attempt the loop ends: by an account of its attempts, or by an
  -- exception that a broker call raised. So the assertion after the loop is never reached, and a
  -- broker that never raises always gets an answer. The account's last attempt is the result that is
  -- returned, attempts are one at least and `max_attempts` at most, and a failed result is returned
  -- only if no retry may follow it or the attempts are spent.
  pub execute-Returns :
      (w : W)
      → 0 < max_attempts
      → Returns P max_attempts (execute a symbol signal qty max_attempts w).0
  unfolding execute
  execute-Returns w budget =
      execute_from-Returns max_attempts 1 [] w (omega arith) (omega arith) budget
