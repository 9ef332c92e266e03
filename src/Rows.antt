-- ===== src/Rows.antt =====
-- lipas/rows/: the row protocol and the composition of rows over one claim store.
pub mod Base
pub mod Float
pub mod SmallFloat
pub mod Capability
pub mod Effect
mod Examples
