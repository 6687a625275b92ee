-- ===== src/Escrow/Refine.antt =====
-- The code of contract.rs against the specification of its calls.
pub mod Sound
pub mod Merge
pub mod Complete
pub mod Dispatch
