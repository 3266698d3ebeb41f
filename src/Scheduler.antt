-- ===== src/Scheduler.antt =====
-- quant/trade/scheduler: one tick over the deployments that are due on an interval (`Tick`), one pass
-- over every interval and the drain of a backlog (`Sweep`). The database and the apply are calls
-- that may raise, over a world.
pub mod Tick
pub mod Sweep
pub mod Calls
pub mod Rows
pub mod Passes
pub mod Sweeps
mod Tests
