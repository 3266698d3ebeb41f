-- ===== src/Jobs/Rules.antt =====
-- The one row that each operation on a job may write, and what it was decided on.
use quant_strategies.Prelude.{
  ℕ, ◌≡◌, ◌<◌, refl, sym, String, true, Option, none, some, List, [], ◌∷◌, last?, leb, if_ensures,
  if◌then◌else◌,
}
use mathlib.Core.Path.{subst}
use text.Mathlib.Text.{◌==◌ as str_eq}
use text.Mathlib.TextEquality.{eq_iff}
use native.Mathlib.Omega.{arith}
use quant_strategies.Prelude.Int.{ℤ}
use quant_strategies.Prelude.Effects.{
  Act, Outcome, ok, raised, pure, raise, attempt, catch_result, bind_result, ◌>>=◌, ◌>>◌,
}
use quant_strategies.Queue.{QueueFilter, QueueWrite}
use quant_strategies.Jobs.{
  JobRow, EnqueueRequest, EnqueueResponse, JobsError, JobsEnv, names_cadence, cancel_target,
  may_reenqueue, written, rate_limited, name_mismatch, check_cadence, assert_cadence_in_name,
  priority_or, check_limit, submit, enqueue, get_active, found_or, cancel_to, cancel, reenqueue,
  row_or,
}
use quant_strategies.Jobs.Steps.{
  Event, named, limited, counted, resolved, saw, wrote, noted, seen, recorded, WritesOne, Writing,
  seen_then, wake_then, submit-Writing,
}

-- A row under the status QUEUED, where the count of the user's own queued rows is below the limit, on
-- what was looked up before that.
abbrev Queued : String → List Event → QueueWrite → List Event → Type 0
Queued user asked row log =
    (id count max : ℕ) × (log ≡ counted user id count ∷ limited max ∷ resolved "QUEUED" id ∷ asked)
    × (count < max)
    × (row.status_id ≡ id)

-- A new job: its name tells the cadence of its interval.
abbrev pub Submits : {C : Type 0} → String → EnqueueRequest C → QueueWrite → List Event → Type 0
Submits user req row log =
    (cadence : String) × Queued user (named cadence ∷ []) row log
    × (names_cadence req.strategy_nm cadence ≡ true)
    × (row.user_id ≡ user)

-- The read of one job of one user.
abbrev own : String → ℕ → QueueFilter
own user queue_id = record {
  queue_id = some queue_id;
  queue_status_id = none;
  user_id = some user;
  limit = 50;
}

-- A job anew: the row that was read for the user under this id had ended without a result, and its
-- version and priority are kept.
abbrev pub Resubmits : String → ℕ → QueueWrite → List Event → Type 0
Resubmits user queue_id row log =
    (job : JobRow) × Queued user (saw (own user queue_id) (some job) ∷ []) row log
    × (may_reenqueue job.queue_status ≡ true)
    × (row.strategy_id ≡ job.row.strategy_id)
    × (row.strategy_vid ≡ job.row.strategy_vid)
    × (row.priority ≡ job.row.priority)
    × (row.user_id ≡ user)

-- The steps that a cancel may take.
pub data CancelStep : String → String → Type 0 where
  of_queued : CancelStep "QUEUED" "CANCELLED"
  of_running : CancelStep "RUNNING" "CANCEL_REQUESTED"

-- A step of the row that was read for the user under this id.
abbrev pub Cancels : String → ℕ → QueueWrite → List Event → Type 0
Cancels user queue_id row log =
    (job : JobRow) × (name : String) × (id : ℕ) × (log
      ≡ resolved name id ∷ saw (own user queue_id) (some job) ∷ [])
    × CancelStep job.queue_status name
    × (row ≡ written queue_id job.row.strategy_id job.row.strategy_vid id job.row.priority user)

module _ {C X W : Type 0} (env : JobsEnv C X W) where
  -- The limit, then what follows if the user is below it.
  limit-Writing :
      {B : Type 0} (R : QueueWrite → List Event → Type 0) (user : String) (id : ℕ)
      (log : List Event) (w : W) (f : Unit {0} → Act (List Event × W) (JobsError X) B)
      → WritesOne R log
      → ((count max : ℕ) (v : W)
          → count < max
          → Writing R (f tt (counted user id count ∷ limited max ∷ log, v)))
      → Writing R (bind_result (check_limit (recorded env) user id (log, w)) f)
  unfolding check_limit
  limit-Writing {B} R user id log w f clean rest = limits (env.max_queued_per_user w)
    where
      counts :
          (max : ℕ) (t : Outcome (JobsError X) ℕ × W)
          → Writing R (
              bind_result
                (bind_result
                  (seen (noted (counted user id) (limited max ∷ log)) t)
                  (λ count. if leb max count then raise (rate_limited max) else pure tt))
                f)
      counts max (ok count, v) =
          if_ensures
            (λ (m : Act (List Event × W) (JobsError X) (Unit {0})).
              Writing R (bind_result (m (counted user id count ∷ limited max ∷ log, v)) f))
            (leb max count) (λ _. clean) (λ below. rest count max v (ground arith))
      counts max (raised e, v) = clean

      limits :
          (t : Outcome (JobsError X) ℕ × W)
          → Writing R (
              bind_result
                (bind_result (seen (noted limited log) t) (λ max.
                  (recorded env).sp_get_queued_count user id
                  >>= (λ count. if leb max count then raise (rate_limited max) else pure tt)))
                f)
      limits (ok max, v) = counts max (env.sp_get_queued_count user id v)
      limits (raised e, v) = clean

  -- What was read of the job, then what follows if there is one.
  found-Writing :
      {B : Type 0} (R : QueueWrite → List Event → Type 0) (user : String) (queue_id : ℕ) (w : W)
      (f : JobRow → Act (List Event × W) (JobsError X) B)
      → ((job : JobRow) (v : W) → Writing R (f job (saw (own user queue_id) (some job) ∷ [], v)))
      → Writing R (
          bind_result
            ((get_active (recorded env) queue_id user >>= found_or (recorded env) queue_id) ([], w))
            f)
  unfolding get_active
  found-Writing {B} R user queue_id w f rest = rows (env.sp_get_queue _ w)
    where
      job_or :
          (o : Option JobRow) (v : W)
          → Writing R (
              bind_result
                (found_or (recorded env) queue_id o (saw (own user queue_id) o ∷ [], v))
                f)
      job_or none v = tt
      job_or (some job) v = rest job v

      rows :
          (t : Outcome (JobsError X) (List JobRow) × W)
          → Writing R (
              bind_result
                (bind_result
                  (bind_result
                    (seen (noted (λ rows. saw (own user queue_id) (last? rows)) []) t)
                    (λ rows. pure (last? rows)))
                  (found_or (recorded env) queue_id))
                f)
      rows (ok found, v) = job_or (last? found) v
      rows (raised e, v) = tt

  mark-Writing :
      (user : String) (queue_id : ℕ) (job : JobRow) (name : String) (w : W)
      → CancelStep job.queue_status name
      → Writing (Cancels user queue_id) (
          cancel_to
            (recorded env)
            user
            queue_id
            job
            (some name)
            (saw (own user queue_id) (some job) ∷ [], w))
  unfolding get_active
  mark-Writing user queue_id job name w step =
      let R = Cancels user queue_id in
      let log = λ (id : ℕ). resolved name id ∷ saw (own user queue_id) (some job) ∷ [] in
      seen_then (Writing R) (noted (resolved name) (saw (own user queue_id) (some job) ∷ []))
        (env.resolve_queue_status_id name w) _
        (λ id v.
          let row =
            written queue_id job.row.strategy_id job.row.strategy_vid id job.row.priority user in
          let kept : WritesOne R (wrote row ∷ log id) = ((job, name, id, refl, step, refl), tt) in
          seen_then (Writing R) (λ _. wrote row ∷ log id) (env.sp_ins_queue row v) _
            (λ _ u.
              wake_then env (Writing R) (wrote row ∷ log id) u _
                (λ z. reread row (log id) kept (env.sp_get_queue _ z)) (λ e z. kept))
            (λ e u. kept))
        (λ e v. tt)
    where
      reread :
          (row : QueueWrite) (log : List Event)
          → WritesOne (Cancels user queue_id) (wrote row ∷ log)
          → (t : Outcome (JobsError X) (List JobRow) × W)
          → Writing (Cancels user queue_id) (
              bind_result
                (bind_result
                  (seen (noted (λ rows. saw (own user queue_id) (last? rows)) (wrote row ∷ log)) t)
                  (λ rows. pure (last? rows)))
                (λ again. pure (row_or again job)))
      reread row log kept (ok rows, v) = (kept, tt)
      reread row log kept (raised e, v) = kept

  -- A cancel writes at most one row, of the job that was read for this user under this id: a queued
  -- job becomes cancelled, and a running one is asked to stop. Where it returns it has written that row; a job in
  -- any other state keeps it.
  pub cancel-Writing :
      (user : String) (queue_id : ℕ) (w : W)
      → Writing (Cancels user queue_id) (cancel (recorded env) user queue_id ([], w))
  unfolding cancel
  cancel-Writing user queue_id w =
      found-Writing (Cancels user queue_id) user queue_id w
        (λ job. cancel_to (recorded env) user queue_id job (cancel_target job.queue_status))
        (λ job v.
          if_ensures
            (λ (o : Option String). Writing (Cancels user queue_id) (
              cancel_to (recorded env) user queue_id job o
                (saw (own user queue_id) (some job) ∷ [], v)))
            (str_eq job.queue_status "QUEUED")
            (λ e. mark-Writing user queue_id job "CANCELLED" v (
              subst (λ status. CancelStep status "CANCELLED")
                (sym ((eq_iff job.queue_status "QUEUED").0 e)) of_queued))
            (λ _.
              if_ensures
                (λ (o : Option String). Writing (Cancels user queue_id) (
                  cancel_to (recorded env) user queue_id job o
                    (saw (own user queue_id) (some job) ∷ [], v)))
                (str_eq job.queue_status "RUNNING")
                (λ e. mark-Writing user queue_id job "CANCEL_REQUESTED" v (
                  subst (λ status. CancelStep status "CANCEL_REQUESTED")
                    (sym ((eq_iff job.queue_status "RUNNING").0 e)) of_running))
                (λ _. tt)))

  -- A job is submitted anew at most once, only if the row that was read for this user under this id had
  -- failed or was cancelled and the user is below the limit; the new row keeps its version and priority. Where the
  -- operation returns it has written that row.
  pub reenqueue-Writing :
      (user : String) (queue_id : ℕ) (w : W)
      → Writing (Resubmits user queue_id) (reenqueue (recorded env) user queue_id ([], w))
  unfolding reenqueue
  reenqueue-Writing user queue_id w =
      let R = Resubmits user queue_id in
      found-Writing R user queue_id w _ (λ job v.
        if_ensures
          (λ (m : Act (List Event × W) (JobsError X) EnqueueResponse).
            Writing R (m (saw (own user queue_id) (some job) ∷ [], v)))
          (may_reenqueue job.queue_status)
          (λ may.
            seen_then (Writing R)
              (noted (resolved "QUEUED") (saw (own user queue_id) (some job) ∷ []))
              (env.resolve_queue_status_id "QUEUED" v) _
              (λ id u.
                limit-Writing R user id
                  (resolved "QUEUED" id ∷ saw (own user queue_id) (some job) ∷ []) u _ tt
                  (λ count max z below.
                    submit-Writing env R user id job.row.strategy_id job.row.strategy_vid
                      job.row.priority _ z
                      (λ new.
                        (job, (id, count, max, refl, below, refl), may, refl, refl, refl, refl))
                      tt tt))
              (λ e u. tt))
          (λ _. tt))

  named-Writing :
      (user : String) (req : EnqueueRequest C) (cadence : String) (w : W)
      → names_cadence req.strategy_nm cadence ≡ true
      → Writing (Submits user req) (
          ((recorded env).resolve_queue_status_id "QUEUED" >>= (λ queued_id.
              check_limit (recorded env) user queued_id
              >> ((attempt ((recorded env).resolve_queue_priority req.priority)
                    >>= priority_or (recorded env))
                  >>= (λ priority.
                      (recorded env).sp_ins_strategy req.strategy_nm req.tm_interval_id req.config
                        user
                      >>= (λ strategy.
                          submit (recorded env) user queued_id strategy.0 strategy.1 priority)))))
            (named cadence ∷ [], w))
  named-Writing user req cadence w names =
      let R = Submits user req in
      seen_then (Writing R) (noted (resolved "QUEUED") (named cadence ∷ []))
        (env.resolve_queue_status_id "QUEUED" w) _
        (λ id v.
          limit-Writing R user id (resolved "QUEUED" id ∷ named cadence ∷ []) v _ tt
            (λ count max u below.
              prioritised id count max below (env.resolve_queue_priority req.priority u)))
        (λ e v. tt)
    where
      prioritised :
          (id count max : ℕ)
          → count < max
          → (t : Outcome (JobsError X) ℤ × W)
          → let log =
              counted user id count ∷ limited max ∷ resolved "QUEUED" id ∷ named cadence ∷ [] in
            Writing (Submits user req) (
              bind_result
                (bind_result (catch_result (seen (λ _. log) t)) (priority_or (recorded env)))
                (λ priority.
                  (recorded env).sp_ins_strategy req.strategy_nm req.tm_interval_id req.config user
                  >>= (λ strategy. submit (recorded env) user id strategy.0 strategy.1 priority)))
      prioritised id count max below (ok priority, u) =
          let log =
            counted user id count ∷ limited max ∷ resolved "QUEUED" id ∷ named cadence ∷ [] in
          seen_then (Writing (Submits user req)) (λ _. log)
            (env.sp_ins_strategy req.strategy_nm req.tm_interval_id req.config user u) _
            (λ strategy z.
              submit-Writing env (Submits user req) user id strategy.0 strategy.1 priority log z
                (λ new. (cadence, (id, count, max, refl, below, refl), names, refl)) tt tt)
            (λ e z. tt)
      prioritised id count max below (raised e, u) = tt

  -- A job is submitted at most once, only if its name tells the cadence of its interval and the user is
  -- below the limit. Where the operation returns it has written that row.
  pub enqueue-Writing :
      (user : String) (req : EnqueueRequest C) (w : W)
      → Writing (Submits user req) (enqueue (recorded env) user req ([], w))
  unfolding enqueue assert_cadence_in_name
  enqueue-Writing user req w = cadence_or req.tm_interval_id
    where
      rest : Unit {0} → Act (List Event × W) (JobsError X) EnqueueResponse
      rest _ = (recorded env).resolve_queue_status_id "QUEUED" >>= (λ queued_id.
          check_limit (recorded env) user queued_id
          >> ((attempt ((recorded env).resolve_queue_priority req.priority)
                >>= priority_or (recorded env))
              >>= (λ priority.
                  (recorded env).sp_ins_strategy req.strategy_nm req.tm_interval_id req.config user
                  >>= (λ strategy.
                      submit (recorded env) user queued_id strategy.0 strategy.1 priority))))

      after_name :
          (t : Outcome (JobsError X) String × W)
          → Writing (Submits user req) (
              bind_result
                (bind_result (seen (noted named []) t) (λ cadence.
                  if names_cadence req.strategy_nm cadence
                  then pure tt
                  else raise (name_mismatch cadence)))
                rest)
      after_name (ok cadence, v) =
          if_ensures
            (λ (m : Act (List Event × W) (JobsError X) (Unit {0})).
              Writing (Submits user req) (bind_result (m (named cadence ∷ [], v)) rest))
            (names_cadence req.strategy_nm cadence)
            (λ names. named-Writing user req cadence v names) (λ _. tt)
      after_name (raised e, v) = tt

      cadence_or :
          (interval : Option ℕ)
          → Writing
              (Submits user req)
              (bind_result (check_cadence (recorded env) req interval ([], w)) rest)
      cadence_or none = tt
      cadence_or (some id) = after_name (env.interval_name id w)
