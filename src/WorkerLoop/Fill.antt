-- ===== src/WorkerLoop/Fill.antt =====
-- The claims of one tick: the loop ends within as many passes as there may be workers and one more,
-- as long as no claim hands out the job of a live worker.
use quant_strategies.Prelude.{
  ℕ, zero, suc, ◌+◌, ◌≡◌, ◌≢◌, ◌≤◌, ◌<◌, ◌⊎◌, inl, inr, refl, Bool, true, false, not, Option, none,
  some, [], ◌∷◌, length, is_some, ltb, ltb→lt, ◌==◌, if_ensures, Bool-cases, if◌then◌else◌,
}
use quant_strategies.Prelude.Effects.{Act, Outcome, ok, raised, pure, bind_result, ◌>>=◌, ◌>>◌}
use mathlib.Core.Path.{subst}
use mathlib.Core.Bool.{true≢false}
use native.Mathlib.Omega.{arith}
use quant_strategies.Queue.{QueueRow}
use quant_strategies.WorkerLoop.{
  Child, Active, LoopEnv, lift, read_active, change_active, child_of, store, claim, spawn_claimed,
  try_claim_and_spawn, fill,
}
use quant_strategies.WorkerLoop.Bounds.{claim-Kept}

module _ {P : Type 0} where
  new_length :
      (b : Bool) (k : ℕ) (child old : Child P) (rest stored : Active P) (o : Option (Child P))
      → is_some (if b then some old else o) ≡ false
      → (is_some o ≡ false → length stored ≡ suc (length rest))
      → length (if b then (k, child) ∷ rest else (k, old) ∷ stored) ≡ suc (suc (length rest))
  new_length true k child old rest stored o h ih = absurd (true≢false h)
  new_length false k child old rest stored o h ih = let longer = ih h in omega arith

  length-store_new :
      (qid : ℕ) (child : Child P) (a : Active P)
      → is_some (child_of qid a) ≡ false
      → length (store qid child a) ≡ suc (length a)
  unfolding store child_of
  length-store_new qid child [] h = omega arith
  length-store_new qid child ((k, old) ∷ rest) h =
      new_length (k == qid) k child old rest (store qid child rest) (child_of qid rest) h
        (length-store_new qid child rest)

module _ {P E W : Type 0} (env : LoopEnv P E W) where
  -- A claim that hands out a job whose id is a key of `_active`.
  abbrev pub LiveJob : Outcome E (Option QueueRow) × (Active P × W) → Type 0
  LiveJob (ok (some job), s) = is_some (child_of job.queue_id s.0) ≡ true
  LiveJob (_, s) = ⊥

  -- One of the next `n` claims does so.
  abbrev pub Reclaims : ℕ → Active P × W → Type 0
  Reclaims zero s = ⊥
  Reclaims (suc n) s =
      let s1 = (lift env.is_running s).1 in
      LiveJob (claim env s1) ⊎ Reclaims n (try_claim_and_spawn env s1).1

  abbrev Ends : Outcome E Bool → Type 0
  Ends r = r ≢ ok false

  -- The passes after a claim, with what is known of the state it leaves.
  abbrev passes : ℕ → Bool → Act (Active P × W) E Bool
  passes n spawned = if spawned then fill env n else pure true

  -- A spawn has added one worker.
  abbrev Adds : ℕ → Outcome E Bool → Active P × W → Type 0
  Adds n r s = r ≡ ok true → length s.0 ≡ suc n

  abbrev track : QueueRow → P → ℕ → Act (Active P × W) E Bool
  track job proc now =
      change_active (store job.queue_id (record { proc = proc; start = now; row = job }))
      >> pure true

  clock-Adds :
      (job : QueueRow) (proc : P) (a : Active P) (t : Outcome E ℕ × W)
      → is_some (child_of job.queue_id a) ≡ false
      → let t' : Outcome E Bool × (Active P × W) = bind_result (t.0, (a, t.1)) (track job proc) in
        Adds (length a) t'.0 t'.1
  clock-Adds job proc a (ok now, w) h e =
      length-store_new job.queue_id (record { proc = proc; start = now; row = job }) a h
  clock-Adds job proc a (raised x, w) h e = cc

  process-Adds :
      (job : QueueRow) (a : Active P) (t : Outcome E P × W)
      → is_some (child_of job.queue_id a) ≡ false
      → let t' : Outcome E Bool × (Active P × W) =
          bind_result (t.0, (a, t.1)) (λ proc. lift env.monotonic >>= track job proc) in
        Adds (length a) t'.0 t'.1
  process-Adds job a (ok proc, w) h = clock-Adds job proc a (env.monotonic w) h
  process-Adds job a (raised x, w) h = λ e. cc

  spawned-Adds :
      (job : QueueRow) (s : Active P × W)
      → is_some (child_of job.queue_id s.0) ≡ false
      → let t = spawn_claimed env (some job) s in Adds (length s.0) t.0 t.1
  unfolding spawn_claimed
  spawned-Adds job s h = process-Adds job s.0 (env.spawn job.queue_id s.1) h

  claimed-Adds :
      (n : ℕ) (t : Outcome E (Option QueueRow) × (Active P × W))
      → ¬ LiveJob t
      → length t.1.0 ≡ n
      → let t' = bind_result t (spawn_claimed env) in Adds n t'.0 t'.1
  unfolding spawn_claimed
  claimed-Adds n (ok none, s) fresh h = λ e. cc
  claimed-Adds n (ok (some job), s) fresh h =
      subst
        (λ (m : ℕ). Adds m (spawn_claimed env (some job) s).0 (spawn_claimed env (some job) s).1) h
        (spawned-Adds job s (elim (Bool-cases (is_some (child_of job.queue_id s.0))) [
          | inl live ↦ absurd (fresh live)
          | inr new ↦ new
        ]))
  claimed-Adds n (raised x, s) fresh h = λ e. cc

  rest-Ends :
      (n k : ℕ) (t : Outcome E Bool × (Active P × W))
      → Adds k t.0 t.1
      → ((s : Active P × W) → length s.0 ≡ suc k → ¬ Reclaims n s → Ends (fill env n s).0)
      → ¬ Reclaims n t.1
      → Ends (bind_result t (passes n)).0
  rest-Ends n k (ok true, s) adds ih fresh = ih s (adds refl) fresh
  rest-Ends n k (ok false, s) adds ih fresh = λ e. cc
  rest-Ends n k (raised x, s) adds ih fresh = λ e. cc

  claim-length : (s : Active P × W) → length (claim env s).1.0 ≡ length s.0
  claim-length s = claim-Kept env (λ (a : Active P). length a ≡ length s.0) s refl

  spawn-Ends :
      (n : ℕ) (s : Active P × W)
      → ((s' : Active P × W)
          → length s'.0 ≡ suc (length s.0)
          → ¬ Reclaims n s'
          → Ends (fill env n s').0)
      → ¬ LiveJob (claim env s)
      → ¬ Reclaims n (try_claim_and_spawn env s).1
      → Ends ((try_claim_and_spawn env >>= passes n) s).0
  unfolding try_claim_and_spawn
  spawn-Ends n s ih fresh later =
      rest-Ends n (length s.0) (bind_result (claim env s) (spawn_claimed env))
        (claimed-Adds (length s.0) (claim env s) fresh (claim-length s)) ih later

  checked-Ends :
      (k : ℕ) (t : Outcome E Bool × W) (a : Active P)
      → env.max_concurrent ≤ length a + k
      → ((s : Active P × W)
          → length a < env.max_concurrent
          → length s.0 ≡ suc (length a)
          → ¬ Reclaims k s
          → Ends (fill env k s).0)
      → ¬ (LiveJob (claim env (a, t.1)) ⊎ Reclaims k (try_claim_and_spawn env (a, t.1)).1)
      → Ends
          (bind_result
            (t.0, (a, t.1))
            (λ r. read_active >>= (λ active.
              if not r
              then pure true
              else if ltb (length active) env.max_concurrent
              then try_claim_and_spawn env >>= passes k
              else pure true))).0
  checked-Ends k (raised x, w) a room ih fresh = λ e. cc
  checked-Ends k (ok false, w) a room ih fresh = λ e. cc
  checked-Ends k (ok true, w) a room ih fresh =
      if_ensures (λ (m : Act (Active P × W) E Bool). Ends (m (a, w)).0)
        (ltb (length a) env.max_concurrent)
        (λ less.
          spawn-Ends k (a, w) (λ s'. ih s' (ltb→lt (length a) env.max_concurrent less))
            (λ live. fresh (inl live)) (λ l. fresh (inr l)))
        (λ _ e. cc)

  fill-Ends :
      (k : ℕ) (s : Active P × W)
      → env.max_concurrent ≤ length s.0 + k
      → ¬ Reclaims (suc k) s
      → Ends (fill env (suc k) s).0
  unfolding fill
  fill-Ends zero s room fresh =
      checked-Ends zero (env.is_running s.1) s.0 room (λ s' less longer. absurd (omega arith)) fresh
  fill-Ends (suc k) s room fresh =
      checked-Ends (suc k) (env.is_running s.1) s.0 room
        (λ s' less longer. fill-Ends k s' (omega arith)) fresh

  -- The loop of a tick ends, by its own conditions or by an exception, within `max_concurrent + 1`
  -- passes, from every state from which no claim hands out a job whose worker is still tracked.
  pub fill-Returns :
      (s : Active P × W)
      → ¬ Reclaims (suc env.max_concurrent) s
      → (fill env (suc env.max_concurrent) s).0 ≢ ok false
  fill-Returns s = fill-Ends env.max_concurrent s (omega arith)
