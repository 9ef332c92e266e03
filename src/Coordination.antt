-- ===== src/Coordination.antt =====
-- The shared budget of coordination handoffs, lipas/execution.py.
pub mod Budget
pub mod Mapping
pub mod Amounts
pub mod Funding
pub mod Reservations
pub mod Limits
pub mod Repeats
mod Examples
