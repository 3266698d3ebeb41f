-- ===== src/WorkerLoop.antt =====
-- quant/queue/worker_loop.py: the loop that claims queued jobs, spawns one subprocess for each and
-- ends the rows of those that crash, run too long or are cancelled.
use quant_strategies.Prelude.{
  ℕ, zero, suc, ◌+◌, ◌*◌, Bool, true, false, not, Option, none, some, List, [], ◌∷◌, map, length,
  head?, is_some, ltb, ◌==◌, if◌then◌else◌,
}
use quant_strategies.Prelude.Int.{ℤ, pos, negsuc}
use quant_strategies.Prelude.Effects.{Act, ok, pure, raise, ◌>>=◌, ◌>>◌}
use quant_strategies.Queue.{
  QueueRow, QueueProcs, restarted, crashed, exceeded, in_run_order, list_by_status, get_active,
  mark_terminal,
}
pub mod Kept
pub mod Bounds
pub mod Fill
pub mod Marks
mod Tests

-- The names that the loop looks up in REFDATA.QUEUE_STATUS.
pub data QueueStatus : Type 0 where
  queued running failed cancel_requested cancelled : QueueStatus

-- An entry of `_active`: the process, when it was started in microseconds of the monotonic clock,
-- and the claimed row.
pub record Child (P : Type 0) : Type 0 where
  pub proc : P
  pub start : ℕ
  pub row : QueueRow

abbrev pub Active : Type 0 → Type 0
Active P = List (ℕ × Child P)

-- What the loop calls: the procedures, REFDATA, `subprocess.Popen` (`wait` is false where it raises
-- `TimeoutExpired`), the clock, the wake channel, and the flag `_running`, which a signal handler
-- clears at any time.
pub record LoopEnv (P E W : Type 0) : Type 0 where
  pub procs : QueueProcs E W
  pub resolve_queue_status_id : QueueStatus → Act W E ℕ
  pub spawn : ℕ → Act W E P
  pub poll : P → Act W E (Option ℤ)
  pub returncode : P → Act W E (Option ℤ)
  pub terminate : P → Act W E (Unit {0})
  pub kill : P → Act W E (Unit {0})
  pub wait : P → ℕ → Act W E Bool
  pub monotonic : Act W E ℕ
  pub wait_for_wake : ℕ → Act W E (Unit {0})
  pub start_running : Act W E (Unit {0})
  pub is_running : Act W E Bool
  pub key_error : ℕ → E
  pub max_concurrent : ℕ
  pub job_timeout_s : ℕ

abbrev pub blpop_timeout_s : ℕ
blpop_timeout_s = 30

abbrev pub drain_timeout_s : ℕ
drain_timeout_s = 30

abbrev pub cancel_grace_s : ℕ
cancel_grace_s = 10

-- The dictionary `_active`, in insertion order.
module _ {P : Type 0} where
  unfoldable pub child_of : ℕ → Active P → Option (Child P)
  child_of qid [] = none
  child_of qid ((k, child) ∷ rest) =
      let later = child_of qid rest in if k == qid then some child else later

  unfoldable pub without : ℕ → Active P → Active P
  without qid [] = []
  without qid ((k, child) ∷ rest) =
      let kept = without qid rest in if k == qid then kept else (k, child) ∷ kept

  unfoldable pub store : ℕ → Child P → Active P → Active P
  store qid child [] = (qid, child) ∷ []
  store qid child ((k, old) ∷ rest) =
      let stored = store qid child rest in if k == qid then (k, child) ∷ rest else (k, old) ∷ stored

-- Whether a return code is neither `None` nor 0.
unfoldable pub is_crash : Option ℤ → Bool
is_crash none = false
is_crash (some (pos n)) = not (n == 0)
is_crash (some (negsuc _)) = true

-- `for x in xs: body(x)`, over a list that the body does not change.
unfoldable pub each : {E W X : Type 0} → (X → Act W E (Unit {0})) → List X → Act W E (Unit {0})
each body [] = pure tt
each body (x ∷ xs) = let rest = each body xs in body x >> rest

-- A call that leaves `_active` alone.
module _ {P E W : Type 0} where
  abbrev pub lift : {A : Type 0} → Act W E A → Act (Active P × W) E A
  lift m s = let t = m s.1 in (t.0, (s.0, t.1))

  abbrev pub read_active : Act (Active P × W) E (Active P)
  read_active s = (ok s.0, s)

  abbrev pub change_active : (Active P → Active P) → Act (Active P × W) E (Unit {0})
  change_active f s = (ok tt, (f s.0, s.1))

module _ {P E W : Type 0} (env : LoopEnv P E W) where
  -- WorkerLoopRepo.claim_next
  unfoldable pub claim_head : ℕ → Option QueueRow → Act W E (Option QueueRow)
  claim_head running_id none = pure none
  claim_head running_id (some row) = mark_terminal env.procs row running_id none >> pure (some row)

  unfoldable pub claim_next : ℕ → ℕ → Act W E (Option QueueRow)
  claim_next queued_id running_id =
      list_by_status env.procs queued_id
      >>= (λ rows. claim_head running_id (head? (in_run_order rows)))

  unfoldable pub recover_stale : Act W E ℕ
  recover_stale = env.resolve_queue_status_id running >>= (λ running_id.
      env.resolve_queue_status_id failed >>= (λ failed_id.
        list_by_status env.procs running_id >>= (λ rows.
          each (λ row. mark_terminal env.procs row failed_id (some restarted)) rows
          >> pure (length rows))))

  -- `_active[qid]`
  unfoldable pub entry : ℕ → Option (Child P) → Act (Active P × W) E (Child P)
  entry qid none = raise (env.key_error qid)
  entry qid (some child) = pure child

  unfoldable pub finished_of : Active P → Act (Active P × W) E (List ℕ)
  finished_of [] = pure []
  finished_of ((qid, child) ∷ rest) =
      let others = finished_of rest in
      lift (env.poll child.proc)
      >>= (λ code. others >>= (λ qids. pure (if is_some code then qid ∷ qids else qids)))

  unfoldable pub fail_if_running : Option QueueRow → ℕ → Option ℤ → Act W E (Unit {0})
  fail_if_running none running_id code = pure tt
  fail_if_running (some latest) running_id code =
      if latest.queue_status_id == running_id
      then env.resolve_queue_status_id failed
        >>= (λ failed_id. mark_terminal env.procs latest failed_id (some (crashed code)))
      else pure tt

  unfoldable pub reap_crashed : ℕ → Option ℤ → Act W E (Unit {0})
  reap_crashed qid code = get_active env.procs qid none >>= (λ latest.
      env.resolve_queue_status_id running
      >>= (λ running_id. fail_if_running latest running_id code))

  unfoldable pub reap_one : ℕ → Act (Active P × W) E (Unit {0})
  reap_one qid = read_active >>= (λ active. entry qid (child_of qid active) >>= (λ child.
      change_active (without qid)
      >> (lift (env.returncode child.proc)
          >>= (λ code. if is_crash code then lift (reap_crashed qid code) else pure tt))))

  unfoldable pub reap_children : Act (Active P × W) E (Unit {0})
  reap_children = read_active >>= (λ active. finished_of active >>= (λ qids. each reap_one qids))

  -- The lazily resolved `failed_id` of `_enforce_timeouts`.
  unfoldable pub failed_id_of : Option ℕ → Act W E ℕ
  failed_id_of none = env.resolve_queue_status_id failed
  failed_id_of (some id) = pure id

  unfoldable pub kill_late : Child P → Option ℕ → Act W E ℕ
  kill_late child known =
      env.kill child.proc
      >> (env.wait child.proc 5
          >> (failed_id_of known >>= (λ failed_id.
              mark_terminal env.procs child.row failed_id (some (exceeded env.job_timeout_s))
              >> pure failed_id)))

  unfoldable pub expire : ℕ → Child P → Option ℕ → Act (Active P × W) E (Option ℕ)
  expire qid child known =
      lift (kill_late child known)
      >>= (λ failed_id. change_active (without qid) >> pure (some failed_id))

  unfoldable pub expire_if_late : ℕ → ℕ → Option ℕ → Act (Active P × W) E (Option ℕ)
  expire_if_late now qid known = read_active >>= (λ active.
      entry qid (child_of qid active) >>= (λ child. lift (env.poll child.proc) >>= (λ code.
        if is_some code
        then pure known
        else if ltb now (child.start + env.job_timeout_s * 1000000)
        then pure known
        else expire qid child known)))

  unfoldable pub expire_all : ℕ → List ℕ → Option ℕ → Act (Active P × W) E (Unit {0})
  expire_all now [] known = pure tt
  expire_all now (qid ∷ qids) known = expire_if_late now qid known >>= expire_all now qids

  unfoldable pub enforce_timeouts : Act (Active P × W) E (Unit {0})
  enforce_timeouts =
      lift env.monotonic
      >>= (λ now. read_active >>= (λ active. expire_all now (map (λ e. e.0) active) none))

  unfoldable pub stop_child : P → Act W E (Unit {0})
  stop_child proc =
      env.terminate proc
      >> (env.wait proc cancel_grace_s
          >>= (λ exited. if exited then pure tt else env.kill proc >> (env.wait proc 5 >> pure tt)))

  unfoldable pub stop_if_live : Option (Child P) → Act W E (Unit {0})
  stop_if_live none = pure tt
  stop_if_live (some child) = stop_child child.proc

  unfoldable pub cancel_one : ℕ → QueueRow → Act (Active P × W) E (Unit {0})
  cancel_one cancelled_id row = read_active >>= (λ active.
      change_active (without row.queue_id)
      >> lift (
          stop_if_live (child_of row.queue_id active)
          >> mark_terminal env.procs row cancelled_id none))

  unfoldable pub cancel_rows : List QueueRow → Act (Active P × W) E (Unit {0})
  cancel_rows [] = pure tt
  cancel_rows rows =
      lift (env.resolve_queue_status_id cancelled)
      >>= (λ cancelled_id. each (cancel_one cancelled_id) rows)

  unfoldable pub enforce_cancels : Act (Active P × W) E (Unit {0})
  enforce_cancels =
      lift (env.resolve_queue_status_id cancel_requested)
      >>= (λ requested_id. lift (list_by_status env.procs requested_id) >>= cancel_rows)

  unfoldable pub spawn_claimed : Option QueueRow → Act (Active P × W) E Bool
  spawn_claimed none = pure false
  spawn_claimed (some job) = lift (env.spawn job.queue_id) >>= (λ proc.
      lift env.monotonic >>= (λ now.
        change_active (store job.queue_id (record { proc = proc; start = now; row = job }))
        >> pure true))

  unfoldable pub claim : Act (Active P × W) E (Option QueueRow)
  claim = lift (env.resolve_queue_status_id queued) >>= (λ queued_id.
      lift (env.resolve_queue_status_id running)
      >>= (λ running_id. lift (claim_next queued_id running_id)))

  unfoldable pub try_claim_and_spawn : Act (Active P × W) E Bool
  try_claim_and_spawn = claim >>= spawn_claimed

  -- The `while` of `tick`, on fuel: whether it ended.
  unfoldable pub fill : ℕ → Act (Active P × W) E Bool
  fill zero = pure false
  fill (suc n) =
      let rest = fill n in
      lift env.is_running >>= (λ r. read_active >>= (λ active.
        if not r
        then pure true
        else if ltb (length active) env.max_concurrent
        then try_claim_and_spawn >>= (λ spawned. if spawned then rest else pure true)
        else pure true))

  unfoldable pub tick : ℕ → Act (Active P × W) E Bool
  tick fuel = reap_children >> (enforce_cancels >> (enforce_timeouts >> fill fuel))

  -- `_drain`
  unfoldable pub drain_child : ℕ × Child P → Act W E (Unit {0})
  drain_child e =
      env.wait e.1.proc drain_timeout_s
      >>= (λ exited. if exited then pure tt else env.kill e.1.proc)

  unfoldable pub drain_children : Act (Active P × W) E (Unit {0})
  drain_children = read_active >>= (λ active. lift (each drain_child active))

  -- The loop of `run`, on fuel: whether it was stopped.
  unfoldable pub rounds : ℕ → Act (Active P × W) E Bool
  rounds zero = pure false
  rounds (suc n) =
      let later = rounds n in
      lift env.is_running >>= (λ r.
        if not r
        then pure true
        else tick (suc env.max_concurrent)
          >> (lift env.is_running >>= (λ still.
              if not still then pure true else lift (env.wait_for_wake blpop_timeout_s) >> later)))

  unfoldable pub run : ℕ → Act (Active P × W) E Bool
  run n =
      lift env.start_running
      >> (lift recover_stale >> (rounds n >>= (λ stopped. drain_children >> pure stopped)))
