-- ===== src/Services.antt =====
-- The two services together: crates/gateway/src/routes.rs and crates/api/src/routes on one database.
pub mod Sound
pub mod Guarantee
pub mod Agreement
mod Witnesses
