-- ===== src/Queue.antt =====
-- quant/queue/repo.py: the rows of BT.QUEUE, the order in which they run and the reads built on the
-- stored procedures, which the parameter `QueueProcs` stands for.
use quant_strategies.Prelude.{
  ℕ, suc, String, Bool, true, false, ◌&&◌, ◌||◌, Option, none, some, List, [], ◌∷◌, last?, ltb,
  ◌==◌, if◌then◌else◌,
}
use quant_strategies.Prelude.Int.{ℤ, ltb_ℤ, eqb_ℤ}
use quant_strategies.Prelude.Effects.{Act, pure, ◌>>=◌}
pub mod RunOrder

-- The columns that the code reads. Identifiers and instants are numbers.
pub record QueueRow : Type 0 where
  pub queue_id : ℕ
  pub strategy_id : ℕ
  pub strategy_vid : ℕ
  pub queue_status_id : ℕ
  pub priority : ℤ
  pub transact_from_ts : ℕ
  pub user_id : String

-- The order of the pairs `(priority, transact_from_ts)`.
unfoldable pub runs_before : QueueRow → QueueRow → Bool
runs_before a b =
    ltb_ℤ a.priority b.priority
    || (eqb_ℤ a.priority b.priority && ltb a.transact_from_ts b.transact_from_ts)

-- `sorted`, which is stable: a row goes in front of the rows it does not follow.
unfoldable pub insert_row : QueueRow → List QueueRow → List QueueRow
insert_row x [] = x ∷ []
insert_row x (y ∷ ys) =
    let rest = insert_row x ys in if runs_before y x then y ∷ rest else x ∷ y ∷ ys

unfoldable pub in_run_order : List QueueRow → List QueueRow
in_run_order [] = []
in_run_order (x ∷ xs) = insert_row x (in_run_order xs)

-- The arguments of `sp_get_queue` and of `sp_ins_queue`. The three formatted texts are constructors.
pub record QueueFilter : Type 0 where
  pub queue_id : Option ℕ
  pub queue_status_id : Option ℕ
  pub user_id : Option String
  pub limit : ℕ

pub data ErrorText : Type 0 where
  restarted : ErrorText
  crashed : Option ℤ → ErrorText
  exceeded : ℕ → ErrorText

pub record QueueWrite : Type 0 where
  pub queue_id : ℕ
  pub strategy_id : ℕ
  pub strategy_vid : ℕ
  pub status_id : ℕ
  pub priority : ℤ
  pub user_id : String
  pub error_text : Option ErrorText

pub record QueueProcs (E W : Type 0) : Type 0 where
  pub sp_get_queue : QueueFilter → Act W E (List QueueRow)
  pub sp_ins_queue : QueueWrite → Act W E (Unit {0})

-- The loop of `queued_position`: the first row with the id, counted from 1, or 0.
unfoldable pub position_from : ℕ → ℕ → List QueueRow → ℕ
position_from qid i [] = 0
position_from qid i (row ∷ rows) =
    let rest = position_from qid (suc i) rows in if row.queue_id == qid then i else rest

module _ {E W : Type 0} (procs : QueueProcs E W) where
  unfoldable pub list_by_status : ℕ → Act W E (List QueueRow)
  list_by_status status =
      procs.sp_get_queue
        (record { queue_id = none; queue_status_id = some status; user_id = none; limit = 1000 })

  unfoldable pub queued_position : ℕ → ℕ → Act W E ℕ
  queued_position qid queued =
      procs.sp_get_queue
        (record { queue_id = none; queue_status_id = some queued; user_id = none; limit = 500 })
      >>= (λ rows. pure (position_from qid 1 (in_run_order rows)))

  unfoldable pub get_active : ℕ → Option String → Act W E (Option QueueRow)
  get_active qid user =
      procs.sp_get_queue
        (record { queue_id = some qid; queue_status_id = none; user_id = user; limit = 50 })
      >>= (λ rows. pure (last? rows))

  unfoldable pub mark_terminal : QueueRow → ℕ → Option ErrorText → Act W E (Unit {0})
  mark_terminal row status text = procs.sp_ins_queue (record {
    queue_id = row.queue_id;
    strategy_id = row.strategy_id;
    strategy_vid = row.strategy_vid;
    status_id = status;
    priority = row.priority;
    user_id = row.user_id;
    error_text = text;
  })
