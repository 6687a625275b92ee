-- ===== src/Escrow/Solvency.antt =====
-- The escrow balances of contract.rs against the token's ledger.
pub mod Total
pub mod Invariant
pub mod Calls
pub mod History
