-- ===== src/Gateway/Bounds.antt =====
-- crates/gateway/src/attestation.rs: the columns of migrations/001 that a delivery writes.
use wave_flow.Gateway.Course.{Course}
use wave_flow.Common.Int.{ℤ, in_i64, leb_ℤ, negsuc, pos}
use wave_flow.Database.Tables.{Db, PayoutRow, ProgramRow}
use wave_flow.Common.{All, Bool, ◌≡◌, true, ◌^◌, ◌&&◌, ◌-◌}

abbrev pub in_i32 : ℤ → Bool
in_i32 a = leb_ℤ (negsuc (2 ^ 31 - 1)) a && leb_ℤ a (pos (2 ^ 31 - 1))

abbrev pub PayoutFits : PayoutRow → Type 0
PayoutFits p = (in_i64 p.amount ≡ true) × (in_i64 p.pr_number ≡ true) × (in_i32 p.points ≡ true)

abbrev pub CountersFit : ProgramRow → Type 0
CountersFit p = (in_i64 p.milestone_spent ≡ true) × (in_i64 p.escrow_balance ≡ true)

-- Every number of a payout is within its BIGINT or INTEGER column, and every counter of a program too.
pub record IsInColumns {J : Type 0} (db : Db J) : Type 0 where
  pub payouts : All PayoutFits db.payouts
  pub programs : All CountersFit db.programs
