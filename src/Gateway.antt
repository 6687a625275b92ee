-- ===== src/Gateway.antt =====
-- The gateway service, crates/gateway/src.
pub mod Webhook
pub mod Attestation
pub mod Routes
pub mod Probes
mod Startup
pub mod Invariants
pub mod Serving
pub mod Handling
pub mod Tracked
pub mod Consistent
pub mod Course
mod Reads
pub mod Honest
pub mod Backed
pub mod Bounds
mod QueryCost
pub mod Cost
pub mod Reliable
pub mod Paying
pub mod Eligibility
pub mod Due
pub mod Eligible
pub mod TrackedPayment
pub mod Repeated
pub mod Unsigned
pub mod Scenario
mod Tests
mod Witnesses
mod PaymentWitnesses
mod Signature
pub mod Keeping
