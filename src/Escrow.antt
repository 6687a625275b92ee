-- ===== src/Escrow.antt =====
-- The escrow contract, contracts/waveflow-escrow/src.
pub mod Types
pub mod Host
pub mod Storage
pub mod Contract
pub mod Slug
pub mod Spec
pub mod Refine
pub mod Reach
pub mod Solvency
pub mod Once
pub mod Milestone
pub mod Access
pub mod Payment
pub mod Failure
pub mod Numbering
pub mod Permanent
pub mod Scenario
mod Tests
mod Witnesses
