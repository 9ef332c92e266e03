-- ===== src/Calculus.antt =====
-- lipas/calculus.py: the claim calculus. `Context` has the belief context, `Strategies` the built-in
-- field strategies, `Claim` the claims with their merge, and `Defaults` the default registry.
pub mod Context
pub mod Strategies
pub mod Claim
pub mod Defaults
pub mod Semilattice
pub mod Sets
pub mod Assignments
pub mod Counters
pub mod Expectations
pub mod Lattice
pub mod Merge
mod Examples
