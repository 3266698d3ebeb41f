-- ===== src/WorkerLoop/Tests.antt =====
-- A queue with three jobs and room for one worker, and the theorems on it.
use quant_strategies.Prelude.{
  ℕ, ◌≡◌, ◌≢◌, ◌≤◌, refl, inl, inr, String, Bool, true, false, ◌&&◌, Option, none, some, List, [],
  ◌∷◌, length, ◌==◌, if◌then◌else◌,
}
use mathlib.Core.Bool.{false≢true}
use quant_strategies.Prelude.Int.{ℤ, pos}
use quant_strategies.Prelude.Effects.{ok, pure}
use quant_strategies.Queue.{
  QueueRow, QueueFilter, QueueWrite, runs_before, insert_row, in_run_order, list_by_status,
  mark_terminal,
}
use quant_strategies.Queue.RunOrder.{IsSorted, keyed, in_run_order-IsRunOrder}
use quant_strategies.WorkerLoop.{
  QueueStatus, queued, running, failed, cancel_requested, cancelled, LoopEnv, fill, run, claim,
  claim_next, claim_head, spawn_claimed, try_claim_and_spawn, child_of, store,
}
use quant_strategies.WorkerLoop.Bounds.{run-Bounded}
use quant_strategies.WorkerLoop.Fill.{Reclaims, fill-Returns}

abbrev job : ℕ → ℕ → ℕ → QueueRow
job id priority ts = record {
  queue_id = id;
  strategy_id = id;
  strategy_vid = 1;
  queue_status_id = 0;
  priority = pos priority;
  transact_from_ts = ts;
  user_id = "ada";
}

abbrev jobs : List QueueRow
jobs = job 1 5 30 ∷ job 2 3 20 ∷ job 3 5 10 ∷ []

in_order : in_run_order jobs ≡ job 2 3 20 ∷ job 3 5 10 ∷ job 1 5 30 ∷ []
unfolding in_run_order insert_row runs_before
in_order = refl

in_run_order-IsRunOrder_example :
    IsSorted (in_run_order jobs)
    × ((p : ℤ) (ts : ℕ) → keyed p ts (in_run_order jobs) ≡ keyed p ts jobs)
in_run_order-IsRunOrder_example = in_run_order-IsRunOrder jobs

-- The table, one row for each job.
abbrev wanted : Option ℕ → ℕ → Bool
wanted none x = true
wanted (some y) x = x == y

abbrev listed : QueueFilter → List QueueRow → List QueueRow
listed f [] = []
listed f (row ∷ rows) =
    let rest = listed f rows in
    if wanted f.queue_id row.queue_id && wanted f.queue_status_id row.queue_status_id
    then row ∷ rest
    else rest

abbrev written : QueueWrite → List QueueRow → List QueueRow
written w [] = []
written w (row ∷ rows) =
    let rest = written w rows in
    if row.queue_id == w.queue_id
    then record row { queue_status_id = w.status_id } ∷ rest
    else row ∷ rest

abbrev status_id : QueueStatus → ℕ
status_id queued = 0
status_id running = 1
status_id failed = 2
status_id cancel_requested = 3
status_id cancelled = 4

abbrev table : LoopEnv ℕ String (List QueueRow)
table = record {
  procs = record {
    sp_get_queue = λ f rows. (ok (listed f rows), rows);
    sp_ins_queue = λ w rows. (ok tt, written w rows);
  };
  resolve_queue_status_id = λ name. pure (status_id name);
  spawn = λ qid. pure qid;
  poll = λ _. pure none;
  returncode = λ _. pure none;
  terminate = λ _. pure tt;
  kill = λ _. pure tt;
  wait = λ _ _. pure true;
  monotonic = pure 7;
  wait_for_wake = λ _. pure tt;
  start_running = pure tt;
  is_running = pure true;
  key_error = λ _. "KeyError";
  max_concurrent = 1;
  job_timeout_s = 6000;
}

run-Bounded_example : length (run table 2 ([], jobs)).1.0 ≤ 1
run-Bounded_example = run-Bounded table 2 jobs

not_reclaimed : ¬ Reclaims table 2 ([], jobs)
unfolding try_claim_and_spawn claim claim_next claim_head spawn_claimed list_by_status mark_terminal
    in_run_order insert_row runs_before child_of store
not_reclaimed r = elim r [
  | inl e ↦ absurd (false≢true e)
  | inr later ↦ elim later [ inl e ↦ absurd (false≢true e) | inr x ↦ x ]
]

fill-Returns_example : (fill table 2 ([], jobs)).0 ≢ ok false
fill-Returns_example = fill-Returns table ([], jobs) not_reclaimed
