-- ===== src/Lib.antt =====
-- Verification library of quant_strategies: the decision and control code of the trading platform,
-- without its databases, brokers and numerical libraries.
--
-- The program backtests strategies in queued jobs, promotes the best version of each, and deploys
-- versions that a scheduler applies at the close of every bar:
--   a job that the jobs service submits waits in BT.QUEUE until the worker loop claims it and spawns a
--   process for it;
--   a finished job is compared with the best version so far and promoted, kept or demoted;
--   the scheduler finds the deployments that are due, applies each one with a few retries, and
--   advances its cursor to the next slot or pauses it;
--   a live apply brings the price bars up to date, reads the signal and the position, decides on an
--   action and places the order through a retry executor with a bounded number of attempts;
--   a market order is polled until its fill is known, or is handed back as unconfirmed.
--
-- The files, and the code that each is about:
--   Prelude          shared names, Boolean tests, lists and integers; Effects has the calls that may
--                    raise, over a state; Num the numbers that prices, quantities and metrics are.
--   Order            quant/trade/models/order.py, quant/trade/models/market.py and the calls of
--                    quant/trade/adapters/base.py. `Exc` is what a handler reads off an exception.
--   OrderPolicy      quant/trade/order_policy.py: `intended_action`, `order_for`, `is_retryable` and
--                    `outcome`; OrderPolicy.Attempts has `OrderRetryExecutor.execute`, its body split
--                    at its calls. Table and Converge are about the decision, Retry about the retry policy
--                    and Resting about orders to cancel, Trace, Safety, Final and Keeps about the loop.
--   LiveApply        quant/trade/live_apply.py with the series rule of quant/trade/bar_source.py;
--                    LiveApply.Cycle has the methods of `LiveApplyOrchestrator`. Records keeps their
--                    rows and the broker's calls, Accounts, Course, Ends and Steps follow the steps,
--                    Runs is about a whole cycle and Failures about writes that fail after the order. DryRun has
--                    quant/trade/dry_run.py, and Preview is about it.
--   Confirm          quant/trade/brokers/ccxt/confirm.py; Answers is about what the polling returns.
--   Scheduler.Tick   quant/trade/scheduler/tick.py: `run_interval` and `run_one` for `_run_one`, with
--                    `advance` and `auto_pause`. Calls records what a tick does, Rows and Passes
--                    are about one row and about all of them.
--   Scheduler.Sweep  quant/trade/scheduler/sweep.py and `SchedulePoller.drain` of
--                    quant/trade/scheduler/poller.py, over the sweep; Sweeps is about one sweep.
--   Promotion        quant/promotion/evaluate.py; Promotion.Flow has `run` and `_apply` of
--                    quant/promotion/repo.py. Groups, Ranking and Outcomes are about the decision,
--                    Writes about what is stored.
--   Queue            quant/queue/repo.py: `in_run_order` and the reads built on `sp_get_queue`.
--   Jobs             quant/api/services/jobs.py; Steps records what the operations look up and write,
--                    Rules is about the one row that each may write.
--   WorkerLoop       quant/queue/worker_loop.py: each method of `WorkerLoop` is the function of that
--                    name, over the dictionary `_active` and a world. Kept and Bounds are about the
--                    number of workers, Fill about the end of the claiming loop, Marks about crashes.
--   Deployment       quant/trade/service.py with quant/trade/schedule_align.py and
--                    quant/trade/schedule_policy.py; Deployment.Service has the methods. Writes
--                    records their calls, Checks and Steps follow them, Patches and Rules are about
--                    what they write and trade.
--   MarketData       quant/market_data/service.py; MarketData.Service has the methods of
--                    `PriceBarService`, and the parent the lists of timestamps they compute with. Plan
--                    is about staged backfills, Gaps about rejected fills, Window and Sync about the
--                    calls of these names, Store about what a repository holds afterwards.
--   Intervals        quant/shared/intervals.py. Slots, Sessions and Bars are about its functions.
--
-- Code outside the repository is a parameter: stored procedures, brokers, subprocesses, Redis, the
-- clock and the time-zone database are fields of an environment record (`TickEnv`, `PromotionEnv`,
-- `LoopEnv`, `ServiceEnv`, `LiveEnv`, `BarEnv`, `JobsEnv`, `ConfirmEnv`, `TradeAdapter`), each a call on
-- an abstract world that may raise. A `logged` or `recorded` environment keeps the calls around any
-- other, newest first. The price bars that a signal computation stores belong to that one call of
-- `LiveEnv`, and no record of the live apply or of the preview counts them. `IsStore` says of a repository that it keeps what it is given.
-- Floating-point numbers are an abstract ordered type `Num`, with what is used of it as `IsOrdered`;
-- Prelude.Nano gives exact numbers of billionths for concrete runs. Log lines are left out, and so is the
-- wait between two attempts of an order. Formatted
-- texts that no code reads again are data.
--
-- Loops over lists are structural. `execute` runs over `max_attempts`, which the `for` of the code
-- does too. The drain and the loop of a worker tick run on fuel: the number of passes of the code for
-- the drain, and `max_concurrent + 1` for the tick. The rounds of `WorkerLoop.run` are counted, since
-- it ends only when it is stopped. Bar starts are computed with one unit of fuel for every microsecond
-- up to the end, and a session is searched for ten days, as in the code.
--
-- An instant is a number of microseconds since the epoch, and one that would lie before it is the epoch.
--
-- Not modelled: the SQL of the database and the React client, which are not Python; the HTTP routers,
-- sign-in and configuration, which pass values on; the data sources and the subscriptions to them; the
-- numerical code on pandas and numpy; the broker gateways, of which the adapter interface is the
-- parameter here. Of the deployment service, the creation and the listings are left out, and the live
-- apply that it calls is a parameter; the text of an alert is not modelled.
pub mod Confirm
pub mod Deployment
pub mod Intervals
pub mod Jobs
pub mod LiveApply
pub mod MarketData
pub mod Order
pub mod OrderPolicy
pub mod Prelude
pub mod Promotion
pub mod Queue
pub mod Scheduler
pub mod WorkerLoop
