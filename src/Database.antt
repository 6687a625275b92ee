-- ===== src/Database.antt =====
-- The Postgres database that the services share: the tables of migrations/, and the statements that
-- they send.
pub mod Tables
pub mod Statements
pub mod Registration
pub mod Triples
pub mod Laws
pub mod Writes
pub mod Turns
