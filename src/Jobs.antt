-- ===== src/Jobs.antt =====
-- quant/api/services/jobs.py, with `get_active` of quant/queue/repo.py and `publish_wake` of
-- quant/queue/wake.py: submitting, cancelling and resubmitting a backtest job.
use quant_strategies.Prelude.{
  ℕ, suc, String, Bool, true, false, not, ◌&&◌, ◌||◌, Option, none, some, List, [], ◌∷◌, map, last?,
  ltb, leb, ◌==◌, if◌then◌else◌,
}
use text.Mathlib.Text.{◌==◌ as str_eq}
use quant_strategies.Prelude.Int.{ℤ}
use quant_strategies.Prelude.Text.{codes, starts_with}
use quant_strategies.Prelude.Effects.{Act, Outcome, ok, raised, pure, raise, attempt, ◌>>=◌, ◌>>◌}
use quant_strategies.Queue.{QueueRow, QueueFilter, QueueWrite, in_run_order, position_from}
pub mod Steps
pub mod Rules
mod Tests

-- A row of the queue with the name of its status.
pub record JobRow : Type 0 where
  pub row : QueueRow
  pub queue_vid : ℕ
  pub queue_status : String
  pub error_text : Option String

-- `config_json` is its `tm_interval_id` and the rest.
pub record EnqueueRequest (C : Type 0) : Type 0 where
  pub strategy_nm : String
  pub tm_interval_id : Option ℕ
  pub config : C
  pub priority : String

pub record EnqueueResponse : Type 0 where
  pub queue_id : ℕ
  pub queue_pos : ℕ

pub record StatusSnapshot : Type 0 where
  pub queue_id : ℕ
  pub queue_vid : ℕ
  pub queue_status : String
  pub queue_status_id : ℕ
  pub error_text : Option String

-- The service's exceptions, a `RuntimeError` with its text, a `RedisError`, and any other.
pub data JobsError (X : Type 0) : Type 0 where
  no_interval : JobsError X
  name_mismatch : String → JobsError X
  rate_limited : ℕ → JobsError X
  unknown_priority : String → JobsError X
  job_not_found : ℕ → JobsError X
  cancel_not_allowed : String → JobsError X
  reenqueue_not_allowed : String → JobsError X
  runtime_error : String → JobsError X
  redis_error : JobsError X
  other : X → JobsError X

-- The procedures, REFDATA, `uuid4` and the wake channel.
pub record JobsEnv (C X W : Type 0) : Type 0 where
  pub interval_name : ℕ → Act W (JobsError X) String
  pub max_queued_per_user : Act W (JobsError X) ℕ
  pub resolve_queue_status_id : String → Act W (JobsError X) ℕ
  pub resolve_queue_priority : String → Act W (JobsError X) ℤ
  pub sp_get_queued_count : String → ℕ → Act W (JobsError X) ℕ
  pub sp_ins_strategy : String → Option ℕ → C → String → Act W (JobsError X) (ℕ × ℕ)
  pub uuid4 : Act W (JobsError X) ℕ
  pub sp_get_queue : QueueFilter → Act W (JobsError X) (List JobRow)
  pub sp_ins_queue : QueueWrite → Act W (JobsError X) (Unit {0})
  pub lpush : Act W (JobsError X) (Unit {0})

-- `strategy_nm.split(" ← ", 1)[0]`.
unfoldable pub before : List ℕ → List ℕ → List ℕ
before sep [] = []
before sep (c ∷ s) = let rest = before sep s in if starts_with (c ∷ s) sep then [] else c ∷ rest

unfoldable pub same_codes : List ℕ → List ℕ → Bool
same_codes [] [] = true
same_codes (c ∷ s) (d ∷ t) = c == d && same_codes s t
same_codes _ _ = false

-- `s.endswith(t)`.
unfoldable pub ends_with : List ℕ → List ℕ → Bool
ends_with [] t = same_codes [] t
ends_with (c ∷ s) t = same_codes (c ∷ s) t || ends_with s t

abbrev pub names_cadence : String → String → Bool
names_cadence strategy_nm cadence =
    ends_with (before (codes " ← ") (codes strategy_nm)) (58 ∷ codes cadence)

-- `_CANCEL_TARGET.get`.
abbrev pub cancel_target : String → Option String
cancel_target status =
    if str_eq status "QUEUED"
    then some "CANCELLED"
    else if str_eq status "RUNNING"
    then some "CANCEL_REQUESTED"
    else none

abbrev pub may_reenqueue : String → Bool
may_reenqueue status = str_eq status "FAILED" || str_eq status "CANCELLED"

abbrev pub written : ℕ → ℕ → ℕ → ℕ → ℤ → String → QueueWrite
written queue_id strategy_id strategy_vid status_id priority user = record {
  queue_id = queue_id;
  strategy_id = strategy_id;
  strategy_vid = strategy_vid;
  status_id = status_id;
  priority = priority;
  user_id = user;
  error_text = none;
}

abbrev pub row_or : Option JobRow → JobRow → JobRow
row_or none row = row
row_or (some new) row = new

module _ {X : Type 0} where
  unfoldable pub is_redis_error : JobsError X → Bool
  is_redis_error redis_error = true
  is_redis_error _ = false

  -- `except RuntimeError as exc: raise UnknownPriority(str(exc))`.
  unfoldable pub priority_error : JobsError X → JobsError X
  priority_error (runtime_error text) = unknown_priority text
  priority_error e = e

module _ {C X W : Type 0} (env : JobsEnv C X W) where
  abbrev pub check_cadence : EnqueueRequest C → Option ℕ → Act W (JobsError X) (Unit {0})
  check_cadence req none = raise no_interval
  check_cadence req (some id) = env.interval_name id >>= (λ cadence.
      if names_cadence req.strategy_nm cadence then pure tt else raise (name_mismatch cadence))

  unfoldable pub assert_cadence_in_name : EnqueueRequest C → Act W (JobsError X) (Unit {0})
  assert_cadence_in_name req = check_cadence req req.tm_interval_id

  -- `publish_wake`.
  abbrev pub woken : Outcome (JobsError X) (Unit {0}) → Act W (JobsError X) (Unit {0})
  woken (ok _) = pure tt
  woken (raised e) = if is_redis_error e then pure tt else raise e

  unfoldable pub publish_wake : Act W (JobsError X) (Unit {0})
  publish_wake = attempt env.lpush >>= woken

  abbrev pub priority_or : Outcome (JobsError X) ℤ → Act W (JobsError X) ℤ
  priority_or (ok p) = pure p
  priority_or (raised e) = raise (priority_error e)

  -- The per-user limit, for a row that is to be queued under `queued_id`.
  unfoldable pub check_limit : String → ℕ → Act W (JobsError X) (Unit {0})
  check_limit user queued_id = env.max_queued_per_user >>= (λ max.
      env.sp_get_queued_count user queued_id
      >>= (λ count. if leb max count then raise (rate_limited max) else pure tt))

  -- The new row, its wake and its place in the queue.
  unfoldable pub submit : String → ℕ → ℕ → ℕ → ℤ → Act W (JobsError X) EnqueueResponse
  submit user queued_id strategy_id strategy_vid priority = env.uuid4 >>= (λ queue_id.
      env.sp_ins_queue (written queue_id strategy_id strategy_vid queued_id priority user)
      >> (publish_wake
          >> (env.sp_get_queue (record {
            queue_id = none;
            queue_status_id = some queued_id;
            user_id = none;
            limit = 500;
          })
              >>= (λ rows. pure (record {
                queue_id = queue_id;
                queue_pos = position_from queue_id 1 (in_run_order (map (λ j. j.row) rows));
              })))))

  unfoldable pub enqueue : String → EnqueueRequest C → Act W (JobsError X) EnqueueResponse
  enqueue user req =
      assert_cadence_in_name req
      >> (env.resolve_queue_status_id "QUEUED" >>= (λ queued_id.
          check_limit user queued_id
          >> ((attempt (env.resolve_queue_priority req.priority) >>= priority_or) >>= (λ priority.
              env.sp_ins_strategy req.strategy_nm req.tm_interval_id req.config user
              >>= (λ strategy. submit user queued_id strategy.0 strategy.1 priority)))))

  unfoldable pub get_active : ℕ → String → Act W (JobsError X) (Option JobRow)
  get_active queue_id user =
      env.sp_get_queue (record {
        queue_id = some queue_id;
        queue_status_id = none;
        user_id = some user;
        limit = 50;
      })
      >>= (λ rows. pure (last? rows))

  abbrev pub found_or : ℕ → Option JobRow → Act W (JobsError X) JobRow
  found_or queue_id none = raise (job_not_found queue_id)
  found_or queue_id (some job) = pure job

  abbrev pub mark : String → ℕ → JobRow → ℕ → Act W (JobsError X) JobRow
  mark user queue_id job target =
      env.sp_ins_queue
        (written queue_id job.row.strategy_id job.row.strategy_vid target job.row.priority user)
      >> (publish_wake >> (get_active queue_id user >>= (λ again. pure (row_or again job))))

  abbrev pub cancel_to : String → ℕ → JobRow → Option String → Act W (JobsError X) JobRow
  cancel_to user queue_id job none = raise (cancel_not_allowed job.queue_status)
  cancel_to user queue_id job (some name) =
      env.resolve_queue_status_id name >>= mark user queue_id job

  unfoldable pub cancel : String → ℕ → Act W (JobsError X) JobRow
  cancel user queue_id =
      (get_active queue_id user >>= found_or queue_id)
      >>= (λ job. cancel_to user queue_id job (cancel_target job.queue_status))

  unfoldable pub reenqueue : String → ℕ → Act W (JobsError X) EnqueueResponse
  reenqueue user queue_id = (get_active queue_id user >>= found_or queue_id) >>= (λ job.
      if may_reenqueue job.queue_status
      then env.resolve_queue_status_id "QUEUED" >>= (λ queued_id.
        check_limit user queued_id
        >> submit user queued_id job.row.strategy_id job.row.strategy_vid job.row.priority)
      else raise (reenqueue_not_allowed job.queue_status))

  abbrev pub snapshot_of : Option JobRow → Option StatusSnapshot
  snapshot_of none = none
  snapshot_of (some job) = some (record {
    queue_id = job.row.queue_id;
    queue_vid = job.queue_vid;
    queue_status = job.queue_status;
    queue_status_id = job.row.queue_status_id;
    error_text = job.error_text;
  })

  unfoldable pub snapshot_status : String → ℕ → Act W (JobsError X) (Option StatusSnapshot)
  snapshot_status user queue_id = get_active queue_id user >>= (λ found. pure (snapshot_of found))
