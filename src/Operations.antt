-- ===== src/Operations.antt =====
-- lipas/operations.py.
pub mod Model
pub mod Journal
pub mod Execute
pub mod Sweep
pub mod Moves
pub mod History
pub mod Submission
pub mod Identity
mod Examples
