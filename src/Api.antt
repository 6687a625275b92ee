-- ===== src/Api.antt =====
-- The API service, crates/api/src.
pub mod Middleware
pub mod Admin
pub mod Public
pub mod Registry
pub mod Requests
pub mod Order
pub mod Listing
pub mod Health
pub mod Service
pub mod Listings
pub mod Outside
pub mod Gate
mod Reading
mod Witnesses
mod Tests
