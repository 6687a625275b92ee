-- ===== src/Gateway/Eligible.antt =====
-- crates/gateway/src/routes.rs: the run of a delivery whose merge is eligible.
use wave_flow.Common.{ℕ}
use wave_flow.Gateway.Attestation.{Json}
use wave_flow.Database.Tables.{Server, Db, ProgramRow, ContributorRow, PayoutRow}
use wave_flow.Gateway.Reliable.{IsReliable}
use wave_flow.Shared.Config.{AppConfig}
use wave_flow.Gateway.Webhook.{Primitives, MergeAttestation}
use wave_flow.Shared.Error.{Message}
use wave_flow.Gateway.Routes.{Delivery}
use wave_flow.Common.Int.{ℤ}
use wave_flow.Gateway.Paying.{with_event, with_spent, payout_row, processed_row, with_payout}
use wave_flow.Gateway.Eligibility.{IsEligible, later}

module _ {J : Type 0} (server : Server J) (reliable : IsReliable server) (json : Json J)
    (config : AppConfig) (k : Primitives) (request : Delivery) (db : Db J) (turn : ℕ)
    (merge : MergeAttestation) (program : ProgramRow) (contributor : ContributorRow)
    (pr_number amount : ℤ) (hash : Message)
    (eligible : IsEligible server json config k request db turn merge program contributor pr_number
      amount hash) where
  abbrev new : PayoutRow
  new =
      payout_row server (later 5 turn) program.id merge contributor.stellar_address pr_number amount
        hash

  abbrev spent : Db J
  spent = with_spent amount program.id (with_payout new db)

  abbrev settled : Db J
  settled = with_event (processed_row server (later 7 turn) merge eligible.attests.payload) spent
