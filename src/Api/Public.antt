-- ===== src/Api/Public.antt =====
-- crates/api/src/routes/mod.rs: the rows as records, and the handlers that read one program.
use wave_flow.Database.Statements.{◌>>=◌, Query, query, select, find, database_error, lift}
use wave_flow.Common.Text.{Text, same, codes}
use wave_flow.Database.Tables.{ContributorRow, PayoutRow, ProgramRow, Server}
use wave_flow.Common.Int.{ℤ, as_u64, pos, negsuc}
use wave_flow.Shared.Types.{
  ContributorRecord, PayoutRecord, ProgramRecord, ProgramStatus, Uuid, paused, active,
}
use wave_flow.Common.{ℕ, if◌then◌else◌, ◌^◌, ◌-◌, suc, ◌==◌, ◌∷◌, []}
use wave_flow.Shared.Error.{ok_or, not_found, word, shown, ok}

-- `if self.status == "paused"`
unfoldable pub read_status : Text → ProgramStatus
read_status s = if same s (codes "paused") then paused else active

-- `ProgramRow::into_record`
unfoldable pub program_record : ProgramRow → ProgramRecord
program_record row = record {
  id = row.id;
  on_chain_program_id = as_u64 row.on_chain_program_id;
  github_repo = row.github_repo;
  maintainer_address = row.maintainer_address;
  reward_per_point = row.reward_per_point;
  escrow_balance = row.escrow_balance;
  milestone_cap = row.milestone_cap;
  milestone_spent = row.milestone_spent;
  status = read_status row.status;
  created_at = row.created_at;
}

-- `ContributorRow::into_record`
unfoldable pub contributor_record : ContributorRow → ContributorRecord
contributor_record row = record {
  program_id = row.program_id;
  github_username = row.github_username;
  stellar_address = row.stellar_address;
  registered_at = row.registered_at;
}

-- `a as u32` of an `i32`.
abbrev as_u32 : ℤ → ℕ
as_u32 (pos n) = n
as_u32 (negsuc n) = 2 ^ 32 - suc n

-- `PayoutRow::into_record`
unfoldable pub payout_record : PayoutRow → PayoutRecord
payout_record row = record {
  id = row.id;
  program_id = row.program_id;
  pr_number = as_u64 row.pr_number;
  github_username = row.github_username;
  stellar_address = row.stellar_address;
  points = as_u32 row.points;
  amount = row.amount;
  tx_hash = row.tx_hash;
  created_at = row.created_at;
}

module _ {J : Type 0} (server : Server J) where
  unfoldable pub get_program : Uuid → Query J ProgramRecord
  get_program id = do
    row ← query server (select (λ db. find (λ p. p.id == id) db.programs)) database_error
    program ← lift (
        ok_or row (not_found (word (codes "program ") ∷ shown id ∷ word (codes " not found") ∷ [])))
    lift (ok (program_record program))
