-- ===== src/Jobs/Steps.antt =====
-- What the operations on jobs write: `recorded` keeps what they look up, read and write, newest
-- first, around any environment.
use quant_strategies.Prelude.{ℕ, String, Option, List, [], ◌∷◌, last?, if_ensures}
use quant_strategies.Prelude.Int.{ℤ}
use quant_strategies.Prelude.Effects.{Act, Outcome, ok, raised, catch_result, bind_result}
use quant_strategies.Queue.{QueueFilter, QueueWrite}
use quant_strategies.Jobs.{
  JobRow, JobsError, JobsEnv, written, is_redis_error, woken, publish_wake, submit, none, some,
}

pub data Event : Type 0 where
  named : String → Event
  limited : ℕ → Event
  counted : String → ℕ → ℕ → Event
  resolved : String → ℕ → Event
  saw : QueueFilter → Option JobRow → Event
  wrote : QueueWrite → Event

module _ {E A : Type 0} where
  abbrev pub noted : (A → Event) → List Event → Outcome E A → List Event
  noted e log (ok a) = e a ∷ log
  noted e log (raised _) = log

module _ {E A W : Type 0} where
  abbrev pub seen : (Outcome E A → List Event) → Outcome E A × W → Outcome E A × (List Event × W)
  seen log t = (t.0, (log t.0, t.1))

module _ {C X W : Type 0} where
  abbrev pub recorded : JobsEnv C X W → JobsEnv C X (List Event × W)
  recorded env = record {
    interval_name = λ id s. seen (noted named s.0) (env.interval_name id s.1);
    max_queued_per_user = λ s. seen (noted limited s.0) (env.max_queued_per_user s.1);
    resolve_queue_status_id =
        λ name s. seen (noted (resolved name) s.0) (env.resolve_queue_status_id name s.1);
    resolve_queue_priority = λ name s. seen (λ _. s.0) (env.resolve_queue_priority name s.1);
    sp_get_queued_count =
        λ user id s. seen (noted (counted user id) s.0) (env.sp_get_queued_count user id s.1);
    sp_ins_strategy =
        λ name id config user s. seen (λ _. s.0) (env.sp_ins_strategy name id config user s.1);
    uuid4 = λ s. seen (λ _. s.0) (env.uuid4 s.1);
    sp_get_queue = λ f s. seen (noted (λ rows. saw f (last? rows)) s.0) (env.sp_get_queue f s.1);
    sp_ins_queue = λ w s. seen (λ _. wrote w ∷ s.0) (env.sp_ins_queue w s.1);
    lpush = λ s. seen (λ _. s.0) (env.lpush s.1);
  }

-- The read of the rows under one status, of every user.
abbrev listed : ℕ → QueueFilter
listed queued_id = record {
  queue_id = none;
  queue_status_id = some queued_id;
  user_id = none;
  limit = 500;
}

abbrev pub NoWrites : List Event → Type 0
NoWrites [] = Unit
NoWrites (wrote _ ∷ log) = ⊥
NoWrites (_ ∷ log) = NoWrites log

-- At most one write, and `R` holds of it and of what was looked up before.
abbrev pub WritesOne : (QueueWrite → List Event → Type 0) → List Event → Type 0
WritesOne R [] = Unit
WritesOne R (wrote w ∷ log) = R w log × NoWrites log
WritesOne R (_ ∷ log) = WritesOne R log

abbrev pub HasWrite : List Event → Type 0
HasWrite [] = ⊥
HasWrite (wrote _ ∷ log) = Unit
HasWrite (_ ∷ log) = HasWrite log

module _ {A X W : Type 0} (R : QueueWrite → List Event → Type 0) where
  -- At most one write, and one if the operation returns.
  abbrev pub Writing : Outcome (JobsError X) A × (List Event × W) → Type 0
  Writing (ok _, s) = WritesOne R s.0 × HasWrite s.0
  Writing (raised _, s) = WritesOne R s.0

module _ {A B X W : Type 0} where
  -- What holds after a recorded call and the rest.
  pub seen_then :
      (P : Outcome (JobsError X) B × (List Event × W) → Type 0)
      (log : Outcome (JobsError X) A → List Event) (t : Outcome (JobsError X) A × W)
      (f : A → Act (List Event × W) (JobsError X) B)
      → ((a : A) (w : W) → P (f a (log (ok a), w)))
      → ((e : JobsError X) (w : W) → P (raised e, (log (raised e), w)))
      → P (bind_result (seen log t) f)
  seen_then P log (ok a, w) f hok hraised = hok a w
  seen_then P log (raised e, w) f hok hraised = hraised e w

module _ {C X W : Type 0} (env : JobsEnv C X W) where
  pub wake_then :
      {B : Type 0} (P : Outcome (JobsError X) B × (List Event × W) → Type 0) (log : List Event)
      (w : W) (f : Unit {0} → Act (List Event × W) (JobsError X) B)
      → ((v : W) → P (f tt (log, v)))
      → ((e : JobsError X) (v : W) → P (raised e, (log, v)))
      → P (bind_result (publish_wake (recorded env) (log, w)) f)
  unfolding publish_wake
  wake_then {B} P log w f hok hraised = after (env.lpush w)
    where
      after :
          (t : Outcome (JobsError X) (Unit {0}) × W)
          → P (
              bind_result (bind_result (catch_result (seen (λ _. log) t)) (woken (recorded env))) f)
      after (ok _, v) = hok v
      after (raised e, v) =
          if_ensures
            (λ (m : Act (List Event × W) (JobsError X) (Unit {0})). P (bind_result (m (log, v)) f))
            (is_redis_error e) (λ _. hok v) (λ _. hraised e v)

  -- After checks that wrote nothing, the one row of `submit`.
  pub submit-Writing :
      (R : QueueWrite → List Event → Type 0) (user : String)
      (queued_id strategy_id strategy_vid : ℕ) (priority : ℤ) (log : List Event) (w : W)
      → ((id : ℕ) → R (written id strategy_id strategy_vid queued_id priority user) log)
      → NoWrites log
      → WritesOne R log
      → Writing R (submit (recorded env) user queued_id strategy_id strategy_vid priority (log, w))
  unfolding submit
  submit-Writing R user queued_id strategy_id strategy_vid priority log w allowed clean before =
      seen_then (Writing R) (λ _. log) (env.uuid4 w) _
        (λ id v.
          let row = written id strategy_id strategy_vid queued_id priority user in
          seen_then (Writing R) (λ _. wrote row ∷ log) (env.sp_ins_queue row v) _
            (λ _ u.
              wake_then (Writing R) (wrote row ∷ log) u _
                (λ z.
                  seen_then (Writing R)
                    (noted (λ rows. saw (listed queued_id) (last? rows)) (wrote row ∷ log))
                    (env.sp_get_queue _ z) _ (λ rows y. ((allowed id, clean), tt))
                    (λ e y. (allowed id, clean)))
                (λ e z. (allowed id, clean)))
            (λ e u. (allowed id, clean)))
        (λ e v. before)
