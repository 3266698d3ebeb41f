-- ===== src/WorkerLoop/Marks.antt =====
-- What the loop does to the row of a worker that crashed: `logged` records the reads of the queue, the
-- status look-ups and the writes, newest first, around any environment.
use quant_strategies.Prelude.{ℕ, ◌≡◌, true, false, Option, none, some, List, [], ◌∷◌, last?, ◌==◌}
use quant_strategies.Prelude.Int.{ℤ}
use quant_strategies.Prelude.Effects.{Outcome, ok, raised}
use quant_strategies.Queue.{QueueRow, QueueWrite, crashed}
use quant_strategies.WorkerLoop.{QueueStatus, running, failed, LoopEnv}

pub data Event : Type 0 where
  read_rows : List QueueRow → Event
  found_status : QueueStatus → ℕ → Event
  wrote : QueueWrite → Event

module _ {E W : Type 0} where
  -- A call that is recorded if it answers.
  abbrev pub noted :
      {A : Type 0} → (A → Event) → List Event → Outcome E A × W → Outcome E A × (List Event × W)
  noted e log (ok a, w) = (ok a, (e a ∷ log, w))
  noted e log (raised x, w) = (raised x, (log, w))

  abbrev pub unseen : {A : Type 0} → List Event → Outcome E A × W → Outcome E A × (List Event × W)
  unseen log t = (t.0, (log, t.1))

module _ {P E W : Type 0} where
  unfoldable pub logged : LoopEnv P E W → LoopEnv P E (List Event × W)
  logged env = record {
    procs = record {
      sp_get_queue = λ f s. noted read_rows s.0 (env.procs.sp_get_queue f s.1);
      sp_ins_queue = λ w s. unseen (wrote w ∷ s.0) (env.procs.sp_ins_queue w s.1);
    };
    resolve_queue_status_id =
        λ name s. noted (found_status name) s.0 (env.resolve_queue_status_id name s.1);
    spawn = λ qid s. unseen s.0 (env.spawn qid s.1);
    poll = λ p s. unseen s.0 (env.poll p s.1);
    returncode = λ p s. unseen s.0 (env.returncode p s.1);
    terminate = λ p s. unseen s.0 (env.terminate p s.1);
    kill = λ p s. unseen s.0 (env.kill p s.1);
    wait = λ p seconds s. unseen s.0 (env.wait p seconds s.1);
    monotonic = λ s. unseen s.0 (env.monotonic s.1);
    wait_for_wake = λ seconds s. unseen s.0 (env.wait_for_wake seconds s.1);
    start_running = λ s. unseen s.0 (env.start_running s.1);
    is_running = λ s. unseen s.0 (env.is_running s.1);
    key_error = env.key_error;
    max_concurrent = env.max_concurrent;
    job_timeout_s = env.job_timeout_s;
  }

-- The newest row is gone or no longer running.
abbrev pub IsOver : ℕ → Option QueueRow → Type 0
IsOver running_id none = Unit
IsOver running_id (some row) = (row.queue_status_id == running_id) ≡ false

-- The write of the crash onto the newest row, which is still running.
abbrev pub IsCrashMark : Option ℤ → ℕ → ℕ → List QueueRow → QueueWrite → Type 0
IsCrashMark code failed_id running_id rows w =
    (row : QueueRow) × (last? rows ≡ some row)
    × ((row.queue_status_id == running_id) ≡ true)
    × (w.queue_id ≡ row.queue_id)
    × (w.status_id ≡ failed_id)
    × (w.error_text ≡ some (crashed code))

-- How the calls of `reap_crashed` may stand when it ends.
pub data Reaped (E : Type 0) (code : Option ℤ) : Outcome E (Unit {0}) → List Event → Type 0 where
  no_rows : (x : E) → Reaped E code (raised x) []
  no_running : (x : E) (rows : List QueueRow) → Reaped E code (raised x) (read_rows rows ∷ [])
  over :
      (rows : List QueueRow) (r : ℕ)
      → IsOver r (last? rows)
      → Reaped E code (ok tt) (found_status running r ∷ read_rows rows ∷ [])
  no_failed :
      (x : E) (rows : List QueueRow) (r : ℕ)
      → Reaped E code (raised x) (found_status running r ∷ read_rows rows ∷ [])
  marked :
      (o : Outcome E (Unit {0})) (rows : List QueueRow) (r f : ℕ) (w : QueueWrite)
      → IsCrashMark code f r rows w
      → Reaped E code o
          (wrote w ∷ found_status failed f ∷ found_status running r ∷ read_rows rows ∷ [])

module _ {P E W : Type 0} (env : LoopEnv P E W) (code : Option ℤ) where
  abbrev Ends : Outcome E (Unit {0}) × (List Event × W) → Type 0
  Ends t = Reaped E code t.0 t.1.0
