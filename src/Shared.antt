-- ===== src/Shared.antt =====
-- The crate that the gateway and the API share, crates/shared/src.
pub mod Error
pub mod Types
pub mod Config
mod Split
mod Addresses
mod Settings
mod Loading
mod Ports
mod Tests
mod Witnesses
