-- ===== src/Api/Tests.antt =====
-- Runs of the API on a steady server, and its startup checks.
use wave_flow.Common.{ℕ, List, [], some, ◌∷◌, ◌≡◌, map, none, refl}
use wave_flow.Database.Tables.{Server, World, PayoutRow, lost_before}
use wave_flow.Shared.Error.{WaveFlowResult, ok, message, err, http_status_code, database, word}
use wave_flow.Api.Listing.{list_payouts, list_contributors}
use wave_flow.Api.Service.{
  ApiRequest, app, listen_port, public_router, admin_request, respond, into_response,
  public_request, list_contributors_request,
}
use wave_flow.Api.Health.{run_startup_checks}
use wave_flow.Database.Statements.{query, send, ◌>>=◌, lift, ◌>>◌}
use wave_flow.Api.Middleware.{require_admin_key}
use wave_flow.Shared.Config.{parse_u16}
use wave_flow.Gateway.Scenario.{settings_example, start, steady}
use wave_flow.Common.Int.{pos}
use wave_flow.Shared.Types.{PayoutRecord}
use wave_flow.Common.Text.{codes}
use wave_flow.Api.Requests.{pause_program_request}
use wave_flow.Api.Order.{order_by}
use wave_flow.Api.Public.{payout_record}

abbrev payout_at : ℕ → ℕ → PayoutRow
payout_at id time = record {
  id = id;
  program_id = 1000;
  pr_number = pos id;
  github_username = codes "alice";
  stellar_address = codes "GALICE";
  points = pos 1;
  amount = pos 50;
  tx_hash = none;
  created_at = time;
}

abbrev three_payouts : World (Unit {0})
three_payouts = record {
  db = record (start.db) { payouts = payout_at 1 20 ∷ payout_at 2 30 ∷ payout_at 3 10 ∷ [] };
  turn = 0;
}

abbrev ids_of : WaveFlowResult (List PayoutRecord) → List ℕ
ids_of (ok rows) = map (λ r. r.id) rows
ids_of (err _) = []

payouts_come_newest_first : ids_of ((list_payouts steady 1000 three_payouts).0) ≡ 2 ∷ 1 ∷ 3 ∷ []
unfolding list_payouts query send ◌>>=◌ lift order_by payout_record
payouts_come_newest_first = refl

abbrev status_of_answer : ApiRequest → ℕ
status_of_answer r = (app steady settings_example r start).0.status

contributors_of_no_program : status_of_answer (public_request (list_contributors_request 7)) ≡ 404
unfolding app public_router respond list_contributors into_response http_status_code query send
    ◌>>=◌ ◌>>◌ lift
contributors_of_no_program = refl

-- No admin key is configured.
admin_routes_are_closed :
    status_of_answer (admin_request (some (codes "key")) (pause_program_request 1000)) ≡ 500
unfolding app require_admin_key
admin_routes_are_closed = refl

port_of_the_platform : listen_port settings_example (some (codes "3000")) ≡ 3000
unfolding listen_port parse_u16
port_of_the_platform = refl

port_of_the_configuration : listen_port settings_example (some (codes "none")) ≡ 8081
unfolding listen_port parse_u16
port_of_the_configuration = refl

abbrev broken : Server (Unit {0})
broken = record steady { fate = λ _. lost_before (message "refused") }

unreachable_database :
    (run_startup_checks broken settings_example start).0
    ≡ err (database (word (codes "database unreachable: ") ∷ message "refused"))
unfolding run_startup_checks query send ◌>>=◌ ◌>>◌ lift
unreachable_database = refl
