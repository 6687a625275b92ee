-- ===== src/Gateway/Tests.antt =====
-- Runs of the gateway on a steady server.
use wave_flow.Database.Statements.{
  ◌>>=◌, ◌>>◌, lift, query, event_fits, insert_payout, insert_webhook_event, payout_fits, send,
  update_spent,
}
use wave_flow.Gateway.Routes.{
  github_webhook, verified, already_processed, duplicate_delivery, processed, accept,
  handle_payload, handle_event, conclude, log_failure, process_merge, as_bytes, attest_merge,
  pay_merge, claimed, map_error, Delivery, Response,
}
use wave_flow.Shared.Error.{Message, http_status_code, to_string, ok}
use wave_flow.Common.{Option, none, some, ◌≡◌, length, [], refl, if◌then◌else◌, ◌∷◌, ◌==◌, map}
use wave_flow.Gateway.Scenario.{
  signed, unsigned, start, steady, one_event, settings_example, plain, program_row,
}
use wave_flow.Gateway.Attestation.{
  tx_text, resolve_program_id, load_program_status, payout_exists, fetch_payout_id,
  build_attestation, claim_delivery_id, delivery_id_seen, increment_milestone_spent,
  load_reward_per_point, persist_payout, persist_webhook_event, resolve_contributor_address,
  submit_attestation,
}
use wave_flow.Common.Text.{Text, codes, same}
use wave_flow.Gateway.Webhook.{verify_github_signature, strip_prefix, parse_merge_event}
use wave_flow.Common.Int.{◌-ℤ◌, ◌*ℤ◌, ◌+ℤ◌}
use wave_flow.Database.Tables.{World, Server, lost_before, carried_out, ProgramRow}
use wave_flow.Gateway.Startup.{validate_gateway_config, dry_run_warning, secret_warning}

unfoldable answer_on : Server (Unit {0}) → Delivery → World (Unit {0}) → Response × World (Unit {0})
unfolding github_webhook verified verify_github_signature strip_prefix same accept handle_payload
    handle_event conclude log_failure process_merge ◌>>=◌ lift parse_merge_event resolve_program_id
    query ◌>>◌ load_program_status payout_exists fetch_payout_id ◌*ℤ◌ ◌+ℤ◌ ◌-ℤ◌ event_fits
    insert_payout insert_webhook_event payout_fits send update_spent build_attestation
    claim_delivery_id delivery_id_seen increment_milestone_spent load_reward_per_point
    persist_payout persist_webhook_event resolve_contributor_address submit_attestation as_bytes
    attest_merge pay_merge claimed map_error http_status_code to_string
answer_on server request w = github_webhook server one_event settings_example plain request w

unfoldable answer_to : Delivery → World (Unit {0}) → Response × World (Unit {0})
unfolding answer_on
answer_to request w = answer_on steady request w

abbrev tx_hash : Message
tx_hash =
    tx_text (codes "dry-run-")
      (record { program_id = 1; github_username = codes "alice"; pr_number = 101; points = 1 })

abbrev id : Option Text
id = some (codes "id-1")

merge_is_paid : (answer_to (signed none) start).0.reply ≡ processed 5 tx_hash 1000
unfolding answer_to
merge_is_paid = refl

merge_is_paid_once :
    (answer_to (signed none) (answer_to (signed none) start).1).0.reply
    ≡ already_processed (some 5) 1000 101
unfolding answer_to
merge_is_paid_once = refl

-- With a delivery id the payout is stored, and the answer is 500.
tracked_merge_fails :
    ((answer_to (signed id) start).0.status ≡ 500)
    × (length ((answer_to (signed id) start).1.db.payouts) ≡ 1)
unfolding answer_to
tracked_merge_fails = (refl, refl)

tracked_merge_is_not_repeated :
    (answer_to (signed id) (answer_to (signed id) start).1).0.reply
    ≡ duplicate_delivery (codes "id-1")
unfolding answer_to
tracked_merge_is_not_repeated = refl

unsigned_is_rejected : (answer_to (unsigned none) start).0.status ≡ 401
unfolding answer_to
unsigned_is_rejected = refl

-- An unsigned delivery takes an id, and the genuine one with that id is not paid.
unsigned_takes_the_id :
    ((answer_to (signed id) (answer_to (unsigned id) start).1).0.reply
      ≡ duplicate_delivery (codes "id-1"))
    × (((answer_to (signed id) (answer_to (unsigned id) start).1).1).db.payouts ≡ [])
unfolding answer_to
unsigned_takes_the_id = (refl, refl)

-- The connection is lost at the update of the counters.
abbrev breaking : Server (Unit {0})
breaking = record steady { fate = λ n. if n == 6 then lost_before [] else carried_out }

-- The payout stays, it is not counted, the answer is 500, and a redelivery does not count it either.
payout_is_not_counted :
    (((answer_on breaking (signed none) start).0).status ≡ 500)
    × (length ((answer_on breaking (signed none) start).1.db.payouts) ≡ 1)
    × ((answer_to (signed none) (answer_on breaking (signed none) start).1).0.reply
        ≡ already_processed (some 5) 1000 101)
    × ((answer_to (signed none) (answer_on breaking (signed none) start).1).1.db.programs
        ≡ program_row ∷ [])
unfolding answer_to answer_on
payout_is_not_counted = (refl, refl, refl, refl)

-- Another request pauses the program after the status was read, and the merge is paid all the same.
abbrev pausing : Server (Unit {0})
pausing = record steady {
  others = λ n db.
      if n == 3
      then record db {
        programs = map {A = ProgramRow} (λ p. record p { status = codes "paused" }) db.programs;
      }
      else db;
}

paused_meanwhile_is_paid :
    (answer_on pausing (signed none) start).0.reply ≡ processed 5 tx_hash 1000
unfolding answer_on
paused_meanwhile_is_paid = refl

gateway_without_key :
    validate_gateway_config (record settings_example { escrow_contract_id = some (codes "C") })
    ≡ (dry_run_warning ∷ [], ok tt)
unfolding validate_gateway_config
gateway_without_key = refl

gateway_without_secret :
    validate_gateway_config (record settings_example { github_webhook_secret = [] })
    ≡ (secret_warning ∷ [], ok tt)
unfolding validate_gateway_config
gateway_without_secret = refl
