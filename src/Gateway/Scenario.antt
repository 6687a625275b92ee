-- ===== src/Gateway/Scenario.antt =====
-- A server and a database for the tests and the examples of the gateway.
use wave_flow.Common.{refl, Option, inr, some, ◌∷◌, [], none, true}
use wave_flow.Database.Tables.{ProgramRow, Server, World, carried_out, ContributorRow}
use wave_flow.Gateway.Webhook.{
  Primitives, MergeAttestation, verify_github_signature, strip_prefix, parse_merge_event,
}
use wave_flow.Shared.Types.{GitHubPullRequestEvent}
use wave_flow.Gateway.Attestation.{Json, submit_attestation, build_attestation, tx_text}
use wave_flow.Shared.Config.{AppConfig}
use wave_flow.Gateway.Routes.{Delivery, as_bytes}
use wave_flow.Common.Text.{Text, codes, same, same_iff}
use wave_flow.Common.Int.{pos, ◌*ℤ◌, ◌+ℤ◌, ◌-ℤ◌}
use wave_flow.Database.Writes.{IsPeaceful, unwritten}
use wave_flow.Gateway.Reliable.{IsReliable}
use wave_flow.Shared.Error.{Message}
use wave_flow.Database.Statements.{payout_fits, event_fits}
use wave_flow.Gateway.Course.{Attests}
use wave_flow.Gateway.Eligibility.{IsEligible, IsDue}

-- No statement fails, and there are no other requests. Identifiers and times are the numbers of the statements.
abbrev pub steady : Server (Unit {0})
steady = record { fate = λ _. carried_out; new_v4 = λ n. n; now = λ n. n; others = λ _ db. db }

-- Signatures that are the body itself.
abbrev pub plain : Primitives
plain = record {
  decode = λ s. some s;
  encode = λ s. s;
  mac = λ secret. some (λ body. body);
  ct_eq = same;
  decode-encode = λ s. refl;
  ct_eq_iff = λ a b _. same_iff a b;
}

abbrev pub event : GitHubPullRequestEvent
event = record {
  action = codes "closed";
  number = 101;
  pull_request = record {
    merged = true;
    user = record { login = codes "alice" };
    base = record { ref_name = codes "main" };
  };
  repository = record { full_name = codes "org/repo"; default_branch = codes "main" };
}

-- Every body is the event, which is the one value there is.
abbrev pub one_event : Json (Unit {0})
one_event = record {
  from_slice = λ _. inr tt;
  from_value = λ _. inr event;
  raw = λ _. tt;
  empty_object = tt;
  full_name = λ _. some (codes "org/repo");
  number = λ _. some 101;
}

abbrev pub settings_example : AppConfig
settings_example = record {
  database_url = codes "postgres://localhost/waveflow";
  github_webhook_secret = codes "secret";
  soroban_rpc_url = codes "http://localhost";
  network_passphrase = codes "Test";
  escrow_contract_id = none;
  gateway_secret_key = none;
  api_admin_keys = [];
  gateway_port = 8080;
  api_port = 8081;
}

abbrev pub program_row : ProgramRow
program_row = record {
  id = 1000;
  on_chain_program_id = pos 1;
  github_repo = codes "org/repo";
  maintainer_address = codes "G";
  reward_per_point = pos 50;
  escrow_balance = pos 500;
  milestone_cap = none;
  milestone_spent = pos 0;
  status = codes "active";
  created_at = 0;
}

abbrev pub start : World (Unit {0})
start = record {
  db = record {
    programs = program_row ∷ [];
    contributors =
        record {
          program_id = 1000;
          github_username = codes "alice";
          stellar_address = codes "GALICE";
          registered_at = 0;
        }
        ∷ [];
    payouts = [];
    webhook_events = [];
  };
  turn = 0;
}

-- A signed delivery, with an id or without.
abbrev pub signed : Option Text → Delivery
signed id = record {
  signature = some (codes "sha256=x");
  event = some (codes "pull_request");
  delivery = id;
  body = codes "x";
}

abbrev pub unsigned : Option Text → Delivery
unsigned id = record {
  signature = some (codes "sha256=y");
  event = some (codes "pull_request");
  delivery = id;
  body = codes "x";
}

pub steady-IsPeaceful : IsPeaceful steady
steady-IsPeaceful = record { peaceful = λ n db. unwritten }

pub steady-IsReliable : IsReliable steady
steady-IsReliable = record { carried = λ n. refl; alone = λ n db. refl }

abbrev pub alice_merge : MergeAttestation
alice_merge = record {
  github_repo = codes "org/repo";
  github_username = codes "alice";
  pr_number = 101;
  points = 1;
}

abbrev pub alice : ContributorRow
alice = record {
  program_id = 1000;
  github_username = codes "alice";
  stellar_address = codes "GALICE";
  registered_at = 0;
}

abbrev pub dry_hash : Message
dry_hash = tx_text (codes "dry-run-") (build_attestation 1 alice_merge)

pub start-Attests : Attests one_event settings_example plain (signed none) alice_merge
unfolding verify_github_signature strip_prefix as_bytes parse_merge_event same
start-Attests = record {
  payload = tt;
  event = event;
  accepted = refl;
  read = refl;
  made = refl;
  merged = refl;
}

start-IsDue :
    IsDue steady settings_example start.db 0 alice_merge program_row alice
      (pos 101)
      (pos 50)
      dry_hash
unfolding same submit_attestation build_attestation payout_fits event_fits ◌*ℤ◌ ◌+ℤ◌ ◌-ℤ◌
    start-Attests
start-IsDue = record {
  active = refl;
  once = refl;
  registered = refl;
  unpaid = refl;
  numbered = refl;
  total = refl;
  transaction = refl;
  payout_fresh = refl;
  counters_fit = refl;
}

pub start-IsEligible :
    IsEligible steady one_event settings_example plain
      (signed none)
      start.db
      0
      alice_merge
      program_row
      alice
      (pos 101)
      (pos 50)
      dry_hash
unfolding same submit_attestation build_attestation payout_fits event_fits ◌*ℤ◌ ◌+ℤ◌ ◌-ℤ◌
    start-Attests
start-IsEligible = record {
  attests = start-Attests;
  kind = refl;
  untracked = refl;
  due = start-IsDue;
  event_fresh = refl;
}
