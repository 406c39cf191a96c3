-- ===== src/Contributor.antt =====
-- The package contributor: the domain types and the pure allocation engine.
pub mod Result
pub mod Month
pub mod Program
pub mod Award
pub mod Receipt
pub mod Participant
pub mod Obligation
pub mod Round
pub mod Engine
pub mod Clock
pub mod Compute
pub mod Verify
pub mod Store
pub mod Ledger
pub mod Admin
mod Examples
