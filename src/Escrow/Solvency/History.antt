-- ===== src/Escrow/Solvency/History.antt =====
-- Solvency over every history of contract.rs.
use mathlib.Core.Path.{◌≡◌}
use wave_flow.Escrow.Reach.{Reach}
use wave_flow.Common.{◌≡◌}
