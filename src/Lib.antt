-- ===== src/Lib.antt =====
-- WaveFlow pays contributors of GitHub repositories for merged pull requests: a Soroban contract holds
-- the escrow of every program and pays from it, a gateway turns GitHub's webhooks into payouts, and an
-- API lets an operator register programs and contributors in the Postgres database that both services
-- share.
--
-- The files, and the code that each models:
--
-- - Escrow: contracts/waveflow-escrow/src. Types is types.rs, errors.rs and events.rs, Storage is
--   storage.rs, and Contract is contract.rs with one definition for each entry point under its own name;
--   record_merge is merge_terms (its tests), spend_cap (the milestone) and pay_merge (from the transfer
--   on), and withdraw_remaining ends in pay_out. Host is what the contract takes from Soroban: an Env
--   with a field for each constructor of DataKey, the events and the ledger of the tokens, calls that
--   end in a value, a contract error or a trap, and commit, which drops the writes of a call that did
--   not succeed. Call and invoke give one type and one function to all entry points that change
--   state. Spec says what each call does as a relation that does not mention the statements;
--   Refine, Reach, Solvency, Once, Milestone, Access, Payment, Failure, Numbering, Permanent and Slug
--   hold the proofs, each named for what it proves.
-- - Shared: crates/shared/src. Error, Types and Config are error.rs, types.rs and config.rs; Split,
--   Addresses, Settings, Ports and Loading hold the proofs on the validators and the configuration.
-- - Database: migrations/ and the SQL of the services. Tables has the rows, the tables and the server,
--   Statements the gateway's statements as functions of the tables and the sending of one, Registration
--   the API's statements. Writes says what one statement of any request can make of the tables, and
--   what many can. Triples, Laws and Turns hold the rules for a sequence of statements: what it
--   keeps, what a run that succeeds has done, and how many it sends.
-- - Gateway: crates/gateway/src. Webhook, Attestation, Routes and Startup are webhook.rs, attestation.rs,
--   routes.rs and startup.rs, with the two probes of routes.rs in Probes. github_webhook is divided
--   where it returns early: verified, accept, claimed, handle_payload, handle_event and conclude;
--   process_merge is divided into attest_merge and pay_merge. Invariants, Serving, Handling and Keeping
--   say what each of these keeps of the tables; Course is the specification of what a delivery
--   writes, Reads and Honest compare the handler with it, and Backed and Bounds draw from it.
--   Reliable, Paying, Eligibility, Due, Eligible, Repeated and TrackedPayment follow a delivery
--   whose statements are all carried out. Consistent, Tracked, Unsigned, QueryCost, Cost and Signature hold the other proofs.
-- - Api: crates/api/src. Middleware is middleware.rs, Admin is routes/admin.rs, and Public, Listing and
--   Health are routes/mod.rs and startup.rs; into_record of a row is program_record,
--   contributor_record and payout_record, and Order is ORDER BY. Service is the routing of main.rs, with the
--   answers. Requests gives one type to the five admin requests. Registry, Gate, Outside, Listings
--   and Reading hold the proofs.
-- - Services: the two services on one database. Guarantee has every request to either of them, and what
--   each promises to those that overlap with it; Sound is the invariant of all tables, and Agreement
--   compares the gateway's payout with the contract's.
-- - Common: integers, texts, tests and lists that the others share.
--
-- Numbers. Addresses and UUIDs are natural numbers. u32 and u64 values are natural numbers that are
-- not narrowed, since the code only compares them, multiplies them into an i128 or passes them on; the
-- one sum on them, the next program id, wraps at 2 ^ 64 or traps there, as the build is set to. i128
-- values are integers, with checked_add, checked_sub and checked_mul that fail outside of the
-- 128 bits, and BIGINT values integers with the bounds of 64 bits where the code or the database
-- tests them. There is no fuel: every loop of the code runs over a text or a list.
--
-- What is a parameter. The token contract is a record whose law is that a transfer which goes through
-- moves the amount and that no balance is negative. The crates hex, hmac and subtle are a record
-- with the laws that what is encoded decodes and that the comparison of two slices of one length is
-- equality; serde_json is a record without laws. The database server is four functions of the
-- number of a statement: whether it is carried out, lost before or lost after it was carried out,
-- the random identifier and the time that it gets, and what the statements of other requests have
-- made of the tables when it is its turn. A theorem on requests that overlap asks only that the
-- others write what a request can write.
--
-- What is not modelled. The expiry of storage, fees, and the serialisation of values on the host; the
-- counters and the log lines of the services; the HTTP framework, the reading of paths and bodies and
-- its limit of the body; the connecting, migrating and serving of the two main functions; the order
-- of listed rows that have one time, which the database is free to choose and the model takes from
-- the table. The sending of a transaction is not in the code: submit_attestation returns a text made
-- from the request, and so does the model.
pub mod Common
pub mod Shared
pub mod Escrow
pub mod Database
pub mod Gateway
pub mod Api
pub mod Services
