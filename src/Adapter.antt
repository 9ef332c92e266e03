-- ===== src/Adapter.antt =====
-- lipas/adapter: the replies of providers and the classification of their errors.
pub mod Types
pub mod Errors
mod Tests
