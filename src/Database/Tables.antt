-- ===== src/Database/Tables.antt =====
-- The tables of migrations/001 and 002, and the rows as crates/api/src/routes/mod.rs reads them.
use wave_flow.Shared.Types.{Uuid, DateTime}
use wave_flow.Common.{List, ℕ, Option}
use wave_flow.Shared.Error.{Message, message}
use wave_flow.Common.Int.{ℤ}
use wave_flow.Common.Text.{Text}

-- BIGINT and INTEGER columns are signed integers, UUID and TIMESTAMPTZ columns numbers.

pub record ProgramRow : Type 0 where
  pub id : Uuid
  pub on_chain_program_id : ℤ
  pub github_repo : Text
  pub maintainer_address : Text
  pub reward_per_point : ℤ
  pub escrow_balance : ℤ
  pub milestone_cap : Option ℤ
  pub milestone_spent : ℤ
  pub status : Text
  pub created_at : DateTime

pub record ContributorRow : Type 0 where
  pub program_id : Uuid
  pub github_username : Text
  pub stellar_address : Text
  pub registered_at : DateTime

pub record PayoutRow : Type 0 where
  pub id : Uuid
  pub program_id : Uuid
  pub pr_number : ℤ
  pub github_username : Text
  pub stellar_address : Text
  pub points : ℤ
  pub amount : ℤ
  pub tx_hash : Option Message
  pub created_at : DateTime

-- `J` is the type of JSON values.
pub record WebhookEvent (J : Type 0) : Type 0 where
  pub id : Uuid
  pub delivery_id : Option Text
  pub event_type : Text
  pub github_repo : Text
  pub pr_number : Option ℤ
  pub payload : J
  pub status : Text
  pub error_message : Option Message
  pub received_at : DateTime

pub record Db (J : Type 0) : Type 0 where
  pub programs : List ProgramRow
  pub contributors : List ContributorRow
  pub payouts : List PayoutRow
  pub webhook_events : List (WebhookEvent J)

-- An error that sqlx reports: a constraint that the database names, or any other.
pub data SqlError : Type 0 where
  violates : Message → SqlError
  other : Message → SqlError

-- What becomes of one statement: it is carried out, or the connection fails before or after the
-- database has carried it out.
pub data Fate : Type 0 where
  carried_out : Fate
  lost_before : Message → Fate
  lost_after : Message → Fate

-- What a request does not choose: the fate, the random identifier and the time of each of its statements,
-- and what the statements of all other requests have made of the tables when it is their turn.
pub record Server (J : Type 0) : Type 0 where
  pub fate : ℕ → Fate
  pub new_v4 : ℕ → Uuid
  pub now : ℕ → DateTime
  pub others : ℕ → Db J → Db J

-- The tables, and the number of statements that the request has sent.
pub record World (J : Type 0) : Type 0 where
  pub db : Db J
  pub turn : ℕ

-- The texts of the constraints.
abbrev pub violated : SqlError
violated = violates (message "constraint")
