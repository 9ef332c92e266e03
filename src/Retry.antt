-- ===== src/Retry.antt =====
-- lipas/retry.py.
pub mod Loop
pub mod Attempts
mod Examples
