-- ===== src/WorkerLoop/Bounds.antt =====
-- The number of live workers that a tick leaves.
use quant_strategies.Prelude.{
  ℕ, zero, suc, ◌≤◌, Bool, not, Option, none, some, [], ◌∷◌, length, ltb, ltb→lt, ◌==◌, if_ensures,
}
use quant_strategies.Prelude.Effects.{Act, Outcome, ok, raised, bind_result}
use native.Mathlib.Omega.{arith}
use quant_strategies.Queue.{QueueRow}
use quant_strategies.WorkerLoop.{
  Child, Active, LoopEnv, lift, without, store, claim, rounds, run, blpop_timeout_s, drain_children,
  drain_child, recover_stale, each, spawn_claimed, try_claim_and_spawn, fill, tick,
  enforce_timeouts, enforce_cancels, reap_children,
}
use quant_strategies.WorkerLoop.Kept.{
  Kept, bind-Kept, reap_children-Kept, enforce_timeouts-Kept, enforce_cancels-Kept,
}

module _ {P : Type 0} where
  length-without : (qid : ℕ) (a : Active P) → length (without qid a) ≤ length a
  unfolding without
  length-without qid [] = omega arith
  length-without qid ((k, child) ∷ rest) =
      let shorter = length-without qid rest in
      if_ensures (λ (l : Active P). length l ≤ suc (length rest)) (k == qid) (λ _. omega arith)
        (λ _. omega arith)

  length-store :
      (qid : ℕ) (child : Child P) (a : Active P) → length (store qid child a) ≤ suc (length a)
  unfolding store
  length-store qid child [] = omega arith
  length-store qid child ((k, old) ∷ rest) =
      let longer = length-store qid child rest in
      if_ensures (λ (l : Active P). length l ≤ suc (suc (length rest))) (k == qid)
        (λ _. omega arith) (λ _. omega arith)

module _ {P E W A B : Type 0} (I J : Active P → Type 0) (weaker : (a : Active P) → J a → I a) where
  bind_weaker :
      (t : Outcome E A × (Active P × W)) (f : A → Act (Active P × W) E B)
      → J t.1.0
      → ((x : A) (s : Active P × W) → J s.0 → I (f x s).1.0)
      → I (bind_result t f).1.0
  bind_weaker (ok x, s) f h k = k x s h
  bind_weaker (raised e, s) f h k = weaker s.0 h

module _ {P E W : Type 0} (env : LoopEnv P E W) where
  abbrev Room : ℕ → Active P → Type 0
  Room N a = suc (length a) ≤ N

  abbrev Within : ℕ → Active P → Type 0
  Within N a = length a ≤ N

  Room-Within : (N : ℕ) (a : Active P) → Room N a → Within N a
  Room-Within N a h = omega arith

  without-Within : (N qid : ℕ) (a : Active P) → Within N a → Within N (without qid a)
  without-Within N qid a h = let shorter = length-without qid a in omega arith

  pub claim-Kept : (I : Active P → Type 0) → Kept I (claim env)
  unfolding claim
  claim-Kept I s h =
      bind-Kept I (lift (env.resolve_queue_status_id _) s) _ h
        (λ q s1 h1. bind-Kept I (lift (env.resolve_queue_status_id _) s1) _ h1 (λ r s2 h2. h2))

  spawned-Within :
      (N : ℕ) (job : Option QueueRow) (s : Active P × W)
      → Room N s.0
      → Within N (spawn_claimed env job s).1.0
  unfolding spawn_claimed
  spawned-Within N none s h = omega arith
  spawned-Within N (some job) s h =
      let weaker = Room-Within N in
      bind_weaker (Within N) (Room N) weaker (lift (env.spawn job.queue_id) s) _ h (λ proc s1 h1.
        bind_weaker (Within N) (Room N) weaker (lift env.monotonic s1) _ h1 (λ now s2 h2.
          let stored =
            length-store job.queue_id (record { proc = proc; start = now; row = job }) s2.0 in
          omega arith))

  spawn-Within : (N : ℕ) (s : Active P × W) → Room N s.0 → Within N (try_claim_and_spawn env s).1.0
  unfolding try_claim_and_spawn
  spawn-Within N s h =
      bind_weaker (Within N) (Room N) (Room-Within N) (claim env s) (spawn_claimed env)
        (claim-Kept (Room N) s h) (spawned-Within N)

  fill-Within : (n : ℕ) → Kept (Within env.max_concurrent) (fill env n)
  unfolding fill
  fill-Within zero s h = h
  fill-Within (suc n) s h =
      let I = Within env.max_concurrent in
      bind-Kept I (lift env.is_running s) _ h (λ r s1 h1.
        if_ensures (λ (m : Act (Active P × W) E Bool). I (m s1).1.0) (not r) (λ _. h1)
          (λ _.
            if_ensures (λ (m : Act (Active P × W) E Bool). I (m s1).1.0)
              (ltb (length s1.0) env.max_concurrent)
              (λ less.
                bind-Kept I (try_claim_and_spawn env s1) _
                  (spawn-Within env.max_concurrent s1
                    (ltb→lt (length s1.0) env.max_concurrent less))
                  (λ spawned. if_ensures (Kept I) spawned (λ _. fill-Within n) (λ _ s2 h2. h2)))
              (λ _. h1)))

  -- However its calls end, a tick that starts with at most `max_concurrent` live workers leaves at
  -- most that many, at every bound on the passes of its loop.
  pub tick-Bounded :
      (fuel : ℕ) (s : Active P × W)
      → length s.0 ≤ env.max_concurrent
      → length (tick env fuel s).1.0 ≤ env.max_concurrent
  unfolding tick
  tick-Bounded fuel s h =
      let I = Within env.max_concurrent in
      let removes = without-Within env.max_concurrent in
      bind-Kept I (reap_children env s) _ (reap_children-Kept I env removes s h) (λ _ s1 h1.
        bind-Kept I (enforce_cancels env s1) _ (enforce_cancels-Kept I env removes s1 h1)
          (λ _ s2 h2.
            bind-Kept I (enforce_timeouts env s2) _ (enforce_timeouts-Kept I env removes s2 h2)
              (λ _. fill-Within fuel)))

  rounds-Within : (n : ℕ) → Kept (Within env.max_concurrent) (rounds env n)
  unfolding rounds
  rounds-Within zero s h = h
  rounds-Within (suc n) s h =
      let I = Within env.max_concurrent in
      bind-Kept I (lift env.is_running s) _ h (λ r.
        if_ensures (Kept I) (not r) (λ _ s1 h1. h1)
          (λ _ s1 h1.
            bind-Kept I (tick env (suc env.max_concurrent) s1) _
              (tick-Bounded (suc env.max_concurrent) s1 h1)
              (λ _ s2 h2. bind-Kept I (lift env.is_running s2) _ h2 (λ still.
                if_ensures (Kept I) (not still) (λ _ s3 h3. h3)
                  (λ _ s3 h3.
                    bind-Kept I (lift (env.wait_for_wake blpop_timeout_s) s3) _ h3
                      (λ _. rounds-Within n))))))

  -- However long the loop has run since its start and however its calls ended, at most
  -- `max_concurrent` workers are live.
  pub run-Bounded : (n : ℕ) (w : W) → length (run env n ([], w)).1.0 ≤ env.max_concurrent
  unfolding run drain_children
  run-Bounded n w =
      let I = Within env.max_concurrent in
      bind-Kept I (lift env.start_running ([], w)) _ (omega arith) (λ _ s1 h1.
        bind-Kept I (lift (recover_stale env) s1) _ h1 (λ _ s2 h2.
          bind-Kept I (rounds env n s2) _ (rounds-Within n s2 h2) (λ stopped s3 h3.
            bind-Kept I (lift (each (drain_child env) s3.0) s3) _ h3 (λ _ s4 h4. h4))))
