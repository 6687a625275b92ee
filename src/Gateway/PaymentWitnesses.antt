-- ===== src/Gateway/PaymentWitnesses.antt =====
-- The theorems on what a delivery writes, at concrete inputs.
use wave_flow.Gateway.Routes.{github_webhook, Response, failure, as_bytes}
use wave_flow.Common.Text.{codes, Text, same}
use wave_flow.Gateway.Scenario.{
  plain, start, steady, one_event, settings_example, signed, program_row, alice_merge, alice,
  dry_hash, steady-IsReliable, event,
}
use wave_flow.Common.{◌≡◌, none, some, refl, [], map, if◌then◌else◌, ◌==◌, ◌∷◌, ◌≤◌, ◌+◌}
use wave_flow.Database.Tables.{World, WebhookEvent, violated}
use wave_flow.Gateway.Course.{Course, Attests}
use wave_flow.Gateway.Backed.{OnlyBacked, github_webhook-OnlyBacked}
use wave_flow.Gateway.Reliable.{at}
use wave_flow.Database.Statements.{spend_row, event_fits, database_error, payout_fits}
use wave_flow.Gateway.Eligibility.{IsDue}
use wave_flow.Common.Int.{pos, ◌*ℤ◌, ◌+ℤ◌, ◌-ℤ◌}
use wave_flow.Gateway.Paying.{payout_row, with_event}
use wave_flow.Gateway.Cost.{github_webhook-Within}
use wave_flow.Gateway.Webhook.{verify_github_signature, strip_prefix, parse_merge_event}
use wave_flow.Gateway.TrackedPayment.{claim_row, tracked_paid}
use wave_flow.Gateway.Attestation.{submit_attestation, build_attestation}
use wave_flow.Shared.Error.{to_string}

github_webhook-OnlyBacked_example :
    OnlyBacked one_event settings_example plain (signed none) start.db (
      (github_webhook steady one_event settings_example plain
        (signed none)
        (record { db = start.db; turn = 0 })).1.db)
github_webhook-OnlyBacked_example =
    github_webhook-OnlyBacked steady one_event settings_example plain (signed none) start.db 0
      (λ n db. refl)

abbrev first_run : Response × World (Unit {0})
first_run = github_webhook steady one_event settings_example plain (signed none) (at start.db 0)

github_webhook-Within_example :
    (github_webhook steady one_event settings_example plain (signed none) start).1.turn ≤ 0 + 11
github_webhook-Within_example =
    github_webhook-Within steady one_event settings_example plain (signed none) start

abbrev id_1 : Text
id_1 = codes "id-1"

abbrev claim_1 : WebhookEvent (Unit {0})
claim_1 = claim_row steady one_event id_1 (codes "pull_request") 1

tracked-Attests : Attests one_event settings_example plain (signed (some id_1)) alice_merge
unfolding verify_github_signature strip_prefix as_bytes parse_merge_event same
tracked-Attests = record {
  payload = tt;
  event = event;
  accepted = refl;
  read = refl;
  made = refl;
  merged = refl;
}

tracked-IsDue :
    IsDue steady settings_example
      (with_event claim_1 start.db)
      2
      alice_merge
      program_row
      alice
      (pos 101)
      (pos 50)
      dry_hash
unfolding same submit_attestation build_attestation payout_fits ◌*ℤ◌ ◌+ℤ◌ ◌-ℤ◌
tracked-IsDue = record {
  active = refl;
  once = refl;
  registered = refl;
  unpaid = refl;
  numbered = refl;
  total = refl;
  transaction = refl;
  payout_fresh = refl;
  counters_fit = refl;
}

tracked_paid_example :
    github_webhook steady one_event settings_example plain (signed (some id_1)) (at start.db 0) ≡ (
      record { status = 500; reply = failure (to_string (database_error violated)) },
      at
          (record (start.db) {
            programs =
                map (λ p. if p.id == 1000 then spend_row (pos 50) p else p) start.db.programs;
            payouts =
                payout_row steady 7 1000 alice_merge (codes "GALICE") (pos 101) (pos 50) dry_hash
                ∷ [];
            webhook_events = claim_1 ∷ [];
          })
          11,
    )
unfolding event_fits
tracked_paid_example =
    tracked_paid steady one_event settings_example plain (signed (some id_1)) start.db 0 id_1
      alice_merge program_row alice (pos 101) (pos 50) dry_hash steady-IsReliable tracked-Attests
      tracked-IsDue refl refl refl refl
