-- ===== src/Scheduler.antt =====
-- copy2.cpp, the copy scheduler: it cuts each file into blocks and drives their requests.
pub mod Block
pub mod Loop
pub mod Tick
pub mod Schedule
pub mod Step
pub mod Rows
pub mod Slots
pub mod Transfer
pub mod Queued
pub mod Passes
mod Tests
pub mod Completions
