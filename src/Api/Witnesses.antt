-- ===== src/Api/Witnesses.antt =====
-- The theorems on the API at concrete inputs.
use wave_flow.Common.{any, refl, ℕ, [], ◌∷◌, some, ◌≡◌, suc, ◌==◌, false, ◌⊎◌, true}
use wave_flow.Database.Statements.{◌>>=◌, ◌>>◌, lift, this_turn, query, send, filter}
use wave_flow.Database.Tables.{World}
use wave_flow.Api.Admin.{CreateProgramRequest, create_program, store_program}
use wave_flow.Api.Registry.{IsRegistry}
use wave_flow.Api.Public.{get_program, program_record, payout_record, contributor_record}
use wave_flow.Common.Text.{Text, codes}
use wave_flow.Api.Gate.{Gate, require_admin_key-Gate}
use wave_flow.Api.Requests.{handle, create_program_request, handle-IsRegistry}
use wave_flow.Common.Int.{pos}
use wave_flow.Gateway.Scenario.{steady, steady-IsPeaceful, start}
use wave_flow.Api.Middleware.{Answer, require_admin_key}
use wave_flow.Shared.Error.{ok, err}
use wave_flow.Shared.Types.{active, validate_github_repo, validate_stellar_address}
use wave_flow.Api.Reading.{get_program-create_program}
use wave_flow.Database.Registration.{insert_program, program_fits}
use wave_flow.Api.Listings.{IsListing, no_such_program, listings_ordered}
use wave_flow.Api.Order.{descending, ascending}
use wave_flow.Api.Listing.{list_contributors, list_programs, list_payouts}

abbrev empty : World (Unit {0})
empty = record {
  db = record { programs = []; contributors = []; payouts = []; webhook_events = [] };
  turn = 0;
}

abbrev body : CreateProgramRequest
body = record {
  on_chain_program_id = 1;
  github_repo = codes "org/repo";
  maintainer_address = codes "GAAAAAAAAAAAAAAAAAAAAAAAAAAAAAAAAAAAAAAAAAAAAAAAAAAAAWHF";
  reward_per_point = pos 50;
  milestone_cap = some (pos 500);
}

empty-IsRegistry : IsRegistry empty.db
empty-IsRegistry = record { programs_once = tt; rows_valid = tt; contributors_once = tt }

handle-IsRegistry_example : IsRegistry ((handle steady (create_program_request body) empty).1.db)
handle-IsRegistry_example =
    handle-IsRegistry steady (create_program_request body) empty steady-IsPeaceful empty-IsRegistry

abbrev after_creation : World (Unit {0})
after_creation = record {
  db = record {
    programs =
        record {
          id = 0;
          on_chain_program_id = pos 1;
          github_repo = body.github_repo;
          maintainer_address = body.maintainer_address;
          reward_per_point = pos 50;
          escrow_balance = pos 0;
          milestone_cap = some (pos 500);
          milestone_spent = pos 0;
          status = codes "active";
          created_at = 0;
        }
        ∷ [];
    contributors = [];
    payouts = [];
    webhook_events = [];
  };
  turn = 1;
}

body_is_stored : create_program steady body empty ≡ (ok 0, after_creation)
unfolding create_program store_program ◌>>=◌ ◌>>◌ lift this_turn query send insert_program
    program_fits validate_github_repo validate_stellar_address
body_is_stored = refl

get_program-create_program_example :
    (get_program steady 0 after_creation).0
    ≡ ok (record {
      id = 0;
      on_chain_program_id = 1;
      github_repo = body.github_repo;
      maintainer_address = body.maintainer_address;
      reward_per_point = pos 50;
      escrow_balance = pos 0;
      milestone_cap = some (pos 500);
      milestone_spent = pos 0;
      status = active;
      created_at = 0;
    })
get_program-create_program_example =
    get_program-create_program steady body empty after_creation 0 body_is_stored refl refl

abbrev key : Text
key = codes "key-a"

abbrev count_up : ℕ → Answer (Unit {0}) × ℕ
count_up n = (record { status = 200; body = some tt }, suc n)

require_admin_key-Gate_example :
    Gate (key ∷ []) (some key) count_up 0 (require_admin_key (key ∷ []) (some key) count_up 0)
require_admin_key-Gate_example = require_admin_key-Gate (key ∷ []) (some key) count_up 0

listings_ordered_example :
    IsListing descending
      (λ p. p.created_at)
      program_record
      (steady.others start.turn start.db).programs
      (list_programs steady start).0
    × IsListing descending
        (λ p. p.created_at)
        payout_record
        (filter (λ p. p.program_id == 1000) (steady.others start.turn start.db).payouts)
        (list_payouts steady 1000 start).0
    × (((any (λ p. p.id == 1000) (steady.others start.turn start.db).programs ≡ false)
          × ((list_contributors steady 1000 start).0 ≡ err (no_such_program 1000)))
        ⊎ ((any (λ p. p.id == 1000) (steady.others start.turn start.db).programs ≡ true)
            × IsListing ascending
                (λ c. c.registered_at)
                contributor_record
                (filter
                  (λ c. c.program_id == 1000)
                  (steady.others (suc start.turn) (steady.others start.turn start.db)).contributors)
                (list_contributors steady 1000 start).0))
listings_ordered_example = listings_ordered steady 1000 start refl refl
