-- ===== src/Execution.antt =====
-- lipas/execution.py.
pub mod Model
pub mod Steps
pub mod Runs
pub mod Progress
pub mod Finish
pub mod Change
pub mod Inversion
pub mod Refinement
pub mod Command
pub mod Invariants
pub mod History
pub mod Fencing
pub mod Completion
pub mod Reopening
pub mod Scenario
mod Examples
