-- ===== src/Services/Agreement.antt =====
-- crates/gateway/src/routes.rs and contracts/waveflow-escrow/src/contract.rs: the amount that the gateway
-- stores and the amount that the contract pays.

