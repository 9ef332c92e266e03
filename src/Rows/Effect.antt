-- ===== src/Rows/Effect.antt =====
-- lipas/rows/effect.py, the effect row.
pub mod Shapes
pub mod Checks
pub mod Invariants
pub mod Lineage
pub mod Growth
pub mod Session
mod Examples
