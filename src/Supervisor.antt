-- ===== src/Supervisor.antt =====
-- lipas/supervisor.py.
pub mod Tick
pub mod Planning
pub mod Numbering
pub mod Recovery
mod Examples
