-- ===== src/WorkerLoop/Kept.antt =====
-- Invariants of `_active` that a removal keeps are kept by reaping, by cancels and by timeouts, also
-- where one of them raises halfway.
use quant_strategies.Prelude.{
  ℕ, Option, none, some, List, [], ◌∷◌, map, if_ensures, is_some, ltb, ◌+◌, ◌*◌,
}
use quant_strategies.Prelude.Effects.{Act, Outcome, ok, raised, bind_result}
use quant_strategies.Queue.{QueueRow, list_by_status}
use quant_strategies.WorkerLoop.{
  Child, Active, LoopEnv, lift, child_of, without, is_crash, each, entry, finished_of, reap_one,
  reap_children, kill_late, expire, expire_if_late, expire_all, enforce_timeouts, cancel_one,
  cancel_rows, enforce_cancels,
}

module _ {P : Type 0} (I : Active P → Type 0) where
  abbrev pub Kept : {E W A : Type 0} → Act (Active P × W) E A → Type 0
  Kept {W = W} m = (s : Active P × W) → I s.0 → I (m s).1.0

  pub bind-Kept :
      {E W A B : Type 0} (t : Outcome E A × (Active P × W)) (f : A → Act (Active P × W) E B)
      → I t.1.0
      → ((a : A) → Kept (f a))
      → I (bind_result t f).1.0
  bind-Kept (ok a, s) f h k = k a s h
  bind-Kept (raised e, s) f h k = h

  each-Kept :
      {E W X : Type 0} (body : X → Act (Active P × W) E (Unit {0})) (xs : List X)
      → ((x : X) → Kept (body x))
      → Kept (each body xs)
  unfolding each
  each-Kept body [] k s h = h
  each-Kept body (x ∷ xs) k s h = bind-Kept (body x s) _ (k x s h) (λ _. each-Kept body xs k)

  module _ {E W : Type 0} (env : LoopEnv P E W)
      (removes : (qid : ℕ) (a : Active P) → I a → I (without qid a)) where
    entry-Kept : (qid : ℕ) (o : Option (Child P)) → Kept (entry env qid o)
    unfolding entry
    entry-Kept qid none s h = h
    entry-Kept qid (some child) s h = h

    finished_of-Kept : (a : Active P) → Kept (finished_of env a)
    unfolding finished_of
    finished_of-Kept [] s h = h
    finished_of-Kept (e ∷ rest) s h = bind-Kept (lift (env.poll e.1.proc) s) _ h (λ code s1 h1.
        bind-Kept (finished_of env rest s1) _ (finished_of-Kept rest s1 h1) (λ qids s2 h2. h2))

    reap_one-Kept : (qid : ℕ) → Kept (reap_one env qid)
    unfolding reap_one
    reap_one-Kept qid s h =
        bind-Kept (entry env qid (child_of qid s.0) s) _ (entry-Kept qid (child_of qid s.0) s h)
          (λ child s1 h1.
            bind-Kept (lift (env.returncode child.proc) (without qid s1.0, s1.1)) _
              (removes qid s1.0 h1)
              (λ code. if_ensures Kept (is_crash code) (λ _ s2 h2. h2) (λ _ s2 h2. h2)))

    pub reap_children-Kept : Kept (reap_children env)
    unfolding reap_children
    reap_children-Kept s h =
        bind-Kept (finished_of env s.0 s) _ (finished_of-Kept s.0 s h)
          (λ qids. each-Kept (reap_one env) qids reap_one-Kept)

    expire-Kept : (qid : ℕ) (child : Child P) (known : Option ℕ) → Kept (expire env qid child known)
    unfolding expire
    expire-Kept qid child known s h =
        bind-Kept (lift (kill_late env child known) s) _ h (λ failed_id s1 h1. removes qid s1.0 h1)

    expire_if_late-Kept : (now qid : ℕ) (known : Option ℕ) → Kept (expire_if_late env now qid known)
    unfolding expire_if_late
    expire_if_late-Kept now qid known s h =
        bind-Kept (entry env qid (child_of qid s.0) s) _ (entry-Kept qid (child_of qid s.0) s h)
          (λ child s1 h1. bind-Kept (lift (env.poll child.proc) s1) _ h1 (λ code.
            if_ensures Kept (is_some code) (λ _ s2 h2. h2)
              (λ _.
                if_ensures Kept (ltb now (child.start + env.job_timeout_s * 1000000))
                  (λ _ s2 h2. h2) (λ _. expire-Kept qid child known))))

    expire_all-Kept :
        (now : ℕ) (qids : List ℕ) (known : Option ℕ) → Kept (expire_all env now qids known)
    unfolding expire_all
    expire_all-Kept now [] known s h = h
    expire_all-Kept now (qid ∷ qids) known s h =
        bind-Kept (expire_if_late env now qid known s) _ (expire_if_late-Kept now qid known s h)
          (expire_all-Kept now qids)

    pub enforce_timeouts-Kept : Kept (enforce_timeouts env)
    unfolding enforce_timeouts
    enforce_timeouts-Kept s h =
        bind-Kept (lift env.monotonic s) _ h
          (λ now s1 h1. expire_all-Kept now (map (λ e. e.0) s1.0) none s1 h1)

    cancel_rows-Kept : (rows : List QueueRow) → Kept (cancel_rows env rows)
    unfolding cancel_rows cancel_one
    cancel_rows-Kept [] s h = h
    cancel_rows-Kept (row ∷ rows) s h =
        bind-Kept (lift (env.resolve_queue_status_id _) s) _ h
          (λ id. each-Kept (cancel_one env id) (row ∷ rows) (λ x s1 h1. removes x.queue_id s1.0 h1))

    pub enforce_cancels-Kept : Kept (enforce_cancels env)
    unfolding enforce_cancels
    enforce_cancels-Kept s h = bind-Kept (lift (env.resolve_queue_status_id _) s) _ h (λ id s1 h1.
        bind-Kept (lift (list_by_status env.procs id) s1) (cancel_rows env) h1 cancel_rows-Kept)
