-- ===== src/Jobs/Tests.antt =====
-- A queue of one job and the operations on it.
use quant_strategies.Prelude.{ℕ, ◌≡◌, refl, String, Bool, true, Option, none, some, List, [], ◌∷◌}
use quant_strategies.Prelude.Int.{pos}
use quant_strategies.Prelude.Effects.{ok, pure, raise}
use quant_strategies.Jobs.{
  JobRow, EnqueueRequest, redis_error, JobsEnv, names_cadence, before, ends_with, same_codes,
  enqueue, cancel, reenqueue,
}
use quant_strategies.Jobs.Steps.{recorded, Writing}
use quant_strategies.Jobs.Rules.{
  Submits, Resubmits, Cancels, enqueue-Writing, cancel-Writing, reenqueue-Writing,
}

abbrev job : String → JobRow
job status = record {
  row = record {
    queue_id = 5;
    strategy_id = 2;
    strategy_vid = 3;
    queue_status_id = 1;
    priority = pos 1;
    transact_from_ts = 100;
    user_id = "ann";
  };
  queue_vid = 1;
  queue_status = status;
  error_text = none;
}

-- The one job of the table, with its status; the wake channel is out.
abbrev table : JobsEnv ℕ String String
table = record {
  interval_name = λ id. pure "DAILY";
  max_queued_per_user = pure 2;
  resolve_queue_status_id = λ name. pure 1;
  resolve_queue_priority = λ name. pure (pos 1);
  sp_get_queued_count = λ user id. pure 1;
  sp_ins_strategy = λ name id config user. pure (2, 4);
  uuid4 = pure 6;
  sp_get_queue = λ f w. (ok (job w ∷ []), w);
  sp_ins_queue = λ row. pure tt;
  lpush = raise redis_error;
}

abbrev request : EnqueueRequest ℕ
request = record {
  strategy_nm = "btcusdt.crypto@bybit:DAILY ← ethusdt.crypto";
  tm_interval_id = some 1;
  config = 0;
  priority = "normal";
}

enqueue-Writing_example :
    Writing (Submits "ann" request) (enqueue (recorded table) "ann" request ([], "QUEUED"))
enqueue-Writing_example = enqueue-Writing table "ann" request "QUEUED"

cancel-Writing_example : Writing (Cancels "ann" 5) (cancel (recorded table) "ann" 5 ([], "RUNNING"))
cancel-Writing_example = cancel-Writing table "ann" 5 "RUNNING"

reenqueue-Writing_example :
    Writing (Resubmits "ann" 5) (reenqueue (recorded table) "ann" 5 ([], "FAILED"))
reenqueue-Writing_example = reenqueue-Writing table "ann" 5 "FAILED"

names_daily : names_cadence "btcusdt.crypto@bybit:DAILY ← ethusdt.crypto" "DAILY" ≡ true
unfolding before ends_with same_codes quant_strategies.Prelude.Text.starts_with
names_daily = refl
