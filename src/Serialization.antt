-- ===== src/Serialization.antt =====
-- lipas/serialization.
pub mod Value
pub mod Codec
pub mod RoundTrip
pub mod Agreement
mod Examples
