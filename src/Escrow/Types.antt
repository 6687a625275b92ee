-- ===== src/Escrow/Types.antt =====
-- Domain structs, error codes, events: types.rs, errors.rs and events.rs of the contract. An
-- `Address` is opaque and only compared, so it is a number; a `Symbol` is the text of its bytes.
use wave_flow.Common.{ℕ, Option, Bool, true, false}
use wave_flow.Common.Int.{ℤ}
use wave_flow.Common.Text.{Text}

abbrev pub Address : Type 0
Address = ℕ

abbrev pub Symbol : Type 0
Symbol = Text

pub data ContractError : Type 0 where
  already_initialized not_initialized unauthorized invalid_repo program_not_found : ContractError
  contributor_not_found contributor_already_registered insufficient_escrow : ContractError
  program_paused pr_already_processed milestone_cap_exceeded insufficient_deposit : ContractError
  invalid_ratio overflow program_not_paused : ContractError

-- The `repr(u32)` codes.
pub error_code : ContractError → ℕ
error_code already_initialized = 1
error_code not_initialized = 2
error_code unauthorized = 3
error_code invalid_repo = 4
error_code program_not_found = 5
error_code contributor_not_found = 6
error_code contributor_already_registered = 7
error_code insufficient_escrow = 8
error_code program_paused = 9
error_code pr_already_processed = 10
error_code milestone_cap_exceeded = 11
error_code insufficient_deposit = 12
error_code invalid_ratio = 13
error_code overflow = 14
error_code program_not_paused = 15

pub data ProgramStatus : Type 0 where
  active paused : ProgramStatus

-- `status == ProgramStatus::Paused`
abbrev pub is_paused : ProgramStatus → Bool
is_paused active = false
is_paused paused = true

pub record Program : Type 0 where
  pub maintainer : Address
  pub github_repo : Symbol
  pub reward_per_point : ℤ
  pub escrow_balance : ℤ
  pub milestone_cap : Option ℤ
  pub milestone_spent : ℤ
  pub status : ProgramStatus

pub record Contributor : Type 0 where
  pub stellar_address : Address

pub record ProgramCreatedEvent : Type 0 where
  pub program_id : ℕ
  pub maintainer : Address
  pub github_repo : Symbol
  pub reward_per_point : ℤ

pub record FundedEvent : Type 0 where
  pub program_id : ℕ
  pub amount : ℤ
  pub new_balance : ℤ

pub record ContributorRegisteredEvent : Type 0 where
  pub program_id : ℕ
  pub github_username : Symbol
  pub stellar_address : Address

pub record MergeRecordedEvent : Type 0 where
  pub program_id : ℕ
  pub github_username : Symbol
  pub pr_number : ℕ
  pub points : ℕ
  pub payout_amount : ℤ

pub record ProgramPausedEvent : Type 0 where
  pub program_id : ℕ

pub record ProgramResumedEvent : Type 0 where
  pub program_id : ℕ

-- A published event, by the topic that it is published under.
pub data Event : Type 0 where
  prog_new : ProgramCreatedEvent → Event
  funded : FundedEvent → Event
  contrib : ContributorRegisteredEvent → Event
  merge : MergeRecordedEvent → Event
  program_paused : ProgramPausedEvent → Event
  program_resumed : ProgramResumedEvent → Event
