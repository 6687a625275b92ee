-- ===== src/Services/Witnesses.antt =====
-- The theorems on the two services at concrete inputs.
use wave_flow.Escrow.Scenario.{program, simple_token, call, gateway, state, Holdings}
use wave_flow.Escrow.Contract.{record_merge}
use wave_flow.Gateway.Scenario.{steady, one_event, signed, start, settings_example, plain}
use wave_flow.Services.Sound.{IsSound}
use wave_flow.Database.Tables.{ContributorRow, Db, Server}
use wave_flow.Database.Writes.{IsPeaceful, Writes, written, unwritten, wrote_contributor}
use wave_flow.Services.Guarantee.{
  Extends, Request, serve, webhook_request, serve-Extends, serve-IsSound, serve-Writes,
}
use wave_flow.Common.Text.{codes}
use wave_flow.Common.{Bool-cases, if◌then◌else◌, ◌==◌, inl, none, ◌∷◌, inr, refl, arith}
use wave_flow.Database.Registration.{contributor_fits}
use wave_flow.Escrow.Types.{Program}
use wave_flow.Escrow.Host.{Env}
use wave_flow.Common.Int.{pos}

start-IsSound : IsSound start.db
start-IsSound = record {
  consistent = record { payouts_once = tt; deliveries_once = tt; payouts_positive = tt };
  registry = record {
    programs_once = (refl, tt);
    rows_valid = ((omega arith, inl refl), tt);
    contributors_once = (refl, tt);
  };
  payouts_owned = tt;
  contributors_owned = (refl, tt);
}

-- While a request runs, another one registers a contributor before its second statement.
abbrev late : ContributorRow
late = record {
  program_id = 1000;
  github_username = codes "bob";
  stellar_address = codes "GBOB";
  registered_at = 7;
}

abbrev joined : Db (Unit {0}) → Db (Unit {0})
joined db =
    if contributor_fits late db then record db { contributors = late ∷ db.contributors } else db

abbrev busy : Server (Unit {0})
busy = record steady { others = λ n db. if n == 1 then joined db else db }

joined-Writes : (db : Db (Unit {0})) → Writes db (joined db)
joined-Writes db = elim (Bool-cases (contributor_fits late db)) [
  | inl e ↦ rw e (written unwritten (wrote_contributor late e))
  | inr e ↦ rw e unwritten
]

busy-IsPeaceful : IsPeaceful busy
busy-IsPeaceful = record {
  peaceful = λ n db. elim (Bool-cases (n == 1)) [
    | inl e ↦ rw e (joined-Writes db)
    | inr e ↦ rw e unwritten
  ];
}

abbrev delivery_request : Request
delivery_request = webhook_request (signed none)

serve-Writes_example :
    Writes start.db ((serve busy one_event settings_example plain delivery_request start).db)
serve-Writes_example =
    serve-Writes busy one_event settings_example plain delivery_request start busy-IsPeaceful

serve-IsSound_example :
    IsSound ((serve busy one_event settings_example plain delivery_request start).db)
serve-IsSound_example =
    serve-IsSound busy one_event settings_example plain delivery_request start busy-IsPeaceful
      start-IsSound

serve-Extends_example :
    Extends start.db ((serve busy one_event settings_example plain delivery_request start).db)
serve-Extends_example =
    serve-Extends busy one_event settings_example plain delivery_request start busy-IsPeaceful

abbrev chain_program : Program
chain_program = record program { reward_per_point = pos 50 }

abbrev chain_state : Env Holdings
chain_state =
    (record_merge simple_token call gateway 1 (codes "alice") 101 1 (state chain_program)).1
