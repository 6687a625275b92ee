-- ===== src/Gateway/Repeated.antt =====
-- crates/gateway/src/routes.rs: the run of a delivery whose merge has a payout.
use wave_flow.Common.{if◌then◌else◌, ◌==◌}
use wave_flow.Database.Tables.{ProgramRow}
use wave_flow.Common.Int.{ℤ}
use wave_flow.Common.Text.{Text}
use wave_flow.Database.Statements.{spend_row}
use wave_flow.Shared.Types.{Uuid}

-- A payout that is counted leaves the key and the status of a program.
abbrev counted_row : ℤ → Uuid → ProgramRow → ProgramRow
counted_row amount id p = if p.id == id then spend_row amount p else p
