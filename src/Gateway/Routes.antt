-- ===== src/Gateway/Routes.antt =====
-- crates/gateway/src/routes.rs: the handlers of the gateway.
use wave_flow.Database.Statements.{◌>>=◌, ◌>>◌, Query, lift}
use wave_flow.Common.{
  Bool, Option, ℕ, if◌then◌else◌, true, not, false, unwrap_or, some, none, inl, ◌∷◌, ◌⊎◌, inr, ltb,
  [], ◌+◌, ◌/◌, ◌%◌,
}
use wave_flow.Shared.Error.{
  Message, http_status_code, to_string, WaveFlowError, WaveFlowResult, not_found, ok, err, fail_if,
  validation, message, webhook, word,
}
use wave_flow.Database.Tables.{Server, World}
use wave_flow.Gateway.Webhook.{
  MergeAttestation, Bytes, parse_merge_event, verify_github_signature, Primitives,
}
use wave_flow.Common.Text.{Text, codes, same}
use wave_flow.Shared.Config.{AppConfig}
use wave_flow.Shared.Types.{Uuid, GitHubPullRequestEvent}
use wave_flow.Gateway.Attestation.{
  Json, load_reward_per_point, persist_webhook_event, resolve_contributor_address,
  build_attestation, persist_payout, resolve_program_id, increment_milestone_spent,
  load_program_status, submit_attestation, payout_exists, fetch_payout_id, claim_delivery_id,
  delivery_id_seen, not_registered,
}
use wave_flow.Common.Int.{pos, ◌*ℤ◌}

-- `str::as_bytes`: the UTF-8 form.
unfoldable pub as_bytes : Text → Bytes
as_bytes [] = []
as_bytes (c ∷ s) =
    let rest = as_bytes s in
    if ltb c 128
    then c ∷ rest
    else (if ltb c 2048
        then (192 + c / 64) ∷ (128 + c % 64) ∷ rest
        else (if ltb c 65536
            then (224 + c / 4096) ∷ (128 + c / 64 % 64) ∷ (128 + c % 64) ∷ rest
            else (240 + c / 262144)
              ∷ (128 + c / 4096 % 64)
              ∷ (128 + c / 64 % 64)
              ∷ (128 + c % 64)
              ∷ rest))

-- The headers that the handler reads, each where it is present and visible ASCII, and the body.
pub record Delivery : Type 0 where
  pub signature : Option Text
  pub event : Option Text
  pub delivery : Option Text
  pub body : Bytes

-- The bodies of the answers.
pub data Reply : Type 0 where
  failure : Message → Reply
  duplicate_delivery : Text → Reply
  ignored : Option Message → Reply
  already_processed : Option Uuid → Uuid → ℕ → Reply
  processed : Uuid → Message → Uuid → Reply

pub record Response : Type 0 where
  pub status : ℕ
  pub reply : Reply

unfoldable pub map_error : WaveFlowError → Response
map_error e = record { status = http_status_code e; reply = failure (to_string e) }

abbrev pub ok_response : Reply → Response
ok_response r = record { status = 200; reply = r }

-- `Err(WaveFlowError::NotFound(_))` is given a message of its own, and other errors are passed on.
abbrev pub renamed_error : MergeAttestation → Uuid → WaveFlowError → WaveFlowError
renamed_error merge program_id (not_found _) = not_registered merge.github_username program_id
renamed_error merge program_id e = e

abbrev pub renamed : {J A : Type 0} → MergeAttestation → Uuid → Query J A → Query J A
renamed merge program_id m w =
    let (r, w') = m w in
    elim r [ ok a ↦ (ok a, w') | err e ↦ (err (renamed_error merge program_id e), w') ]

-- The parsed body, or the value made of it where it does not parse.
abbrev pub value_or_raw : {J : Type 0} → Message ⊎ J → J → J
value_or_raw (inl _) raw = raw
value_or_raw (inr v) raw = v

-- `.unwrap_or(false)`
abbrev pub seen_or_false : WaveFlowResult Bool → Bool
seen_or_false (ok b) = b
seen_or_false (err _) = false

-- `matches!(err, WaveFlowError::Validation(_))`
abbrev pub is_validation : WaveFlowError → Bool
is_validation (validation _) = true
is_validation _ = false

module _ {J : Type 0} (server : Server J) (json : Json J) (config : AppConfig) where
  -- `process_merge` from the payout on: the row, the counters of the program, and the audit row.
  unfoldable pub pay_merge :
      MergeAttestation → J → Option Text → Uuid → Text → Message → Query J Reply
  pay_merge merge raw_payload delivery_id program_id stellar_address tx_hash = do
    reward_per_point ← load_reward_per_point server program_id
    let amount = pos merge.points *ℤ reward_per_point
    payout_id ← persist_payout server program_id merge stellar_address amount tx_hash
    increment_milestone_spent server program_id amount
    persist_webhook_event server delivery_id (codes "pull_request") merge.github_repo
        (some merge.pr_number) raw_payload (codes "processed") none
    lift (ok (processed payout_id tx_hash program_id))

  -- `process_merge` where no payout exists.
  unfoldable pub attest_merge : MergeAttestation → J → Option Text → Uuid → ℕ → Query J Reply
  attest_merge merge raw_payload delivery_id program_id on_chain_program_id = do
    stellar_address ←
        renamed merge program_id
          (resolve_contributor_address server program_id merge.github_username)
    tx_hash ← lift (
        submit_attestation config.soroban_rpc_url config.escrow_contract_id
          config.gateway_secret_key (build_attestation on_chain_program_id merge))
    pay_merge merge raw_payload delivery_id program_id stellar_address tx_hash

  unfoldable pub process_merge : GitHubPullRequestEvent → J → Option Text → Query J Reply
  process_merge event raw_payload delivery_id = do
    merge ← lift (parse_merge_event event)
    (program_id, on_chain_program_id) ← resolve_program_id server merge.github_repo
    status ← load_program_status server program_id
    lift (fail_if (same status (codes "paused")) (validation (message "program is paused")))
    exists ← payout_exists server program_id merge.pr_number
    (if exists
        then (do
          existing ← fetch_payout_id server program_id merge.pr_number
          lift (ok (already_processed existing program_id merge.pr_number)))
        else attest_merge merge raw_payload delivery_id program_id on_chain_program_id)

  -- A query whose result is dropped: `let _ = ….await`.
  abbrev pub after : {A B : Type 0} → Query J A → B → World J → B × World J
  after m b w = let (_, w') = m w in (b, w')

  -- The audit row of a merge that failed.
  unfoldable pub log_failure : J → Option Text → Text → Text → WaveFlowError → Query J (Unit {0})
  log_failure payload delivery_id event_type status e =
      persist_webhook_event server delivery_id event_type
        (unwrap_or (codes "unknown") (json.full_name payload)) (json.number payload) payload status
        (some (to_string e))

  -- What the handler makes of the end of `process_merge`.
  unfoldable pub conclude :
      J → Option Text → Text → WaveFlowResult Reply → World J → Response × World J
  conclude payload delivery_id event_type (ok reply) w = (ok_response reply, w)
  conclude payload delivery_id event_type (err e) w =
      if is_validation e
      then after (log_failure payload delivery_id event_type (codes "ignored") e)
          (ok_response (ignored (some (to_string e)))) w
      else after (log_failure payload delivery_id event_type (codes "failed") e) (map_error e) w

  -- The handler from the reading of the event on.
  unfoldable pub handle_event :
      J → Text → Option Text → Message ⊎ GitHubPullRequestEvent → World J → Response × World J
  handle_event payload event_type delivery_id (inl e) w =
      (map_error (webhook (word (codes "invalid pull_request payload: ") ∷ e)), w)
  handle_event payload event_type delivery_id (inr event) w =
      let (r, w') = process_merge event payload delivery_id w in
      conclude payload delivery_id event_type r w'

  -- The handler from the reading of the body on.
  unfoldable pub handle_payload : Text → Option Text → Message ⊎ J → World J → Response × World J
  handle_payload event_type delivery_id (inl e) w =
      (map_error (webhook (word (codes "invalid JSON: ") ∷ e)), w)
  handle_payload event_type delivery_id (inr payload) w =
      if not (same event_type (codes "pull_request"))
      then after
          (persist_webhook_event server delivery_id event_type (codes "unknown") none payload
            (codes "ignored") (some (message "unsupported event type")))
          (ok_response (ignored none)) w
      else handle_event payload event_type delivery_id (json.from_value payload) w

  -- The handler after the claim of the delivery id.
  unfoldable pub claimed :
      Text → Text → Bytes → WaveFlowResult (Unit {0}) × World J → Response × World J
  claimed event_type delivery_id body (ok _, w) =
      handle_payload event_type (some delivery_id) (json.from_slice body) w
  claimed event_type delivery_id body (err e, w) = (map_error e, w)

  -- The handler from the signature on.
  unfoldable pub accept : Text → Option Text → Bytes → World J → Response × World J
  accept event_type none body w = handle_payload event_type none (json.from_slice body) w
  accept event_type (some delivery_id) body w =
      let (seen, w') = delivery_id_seen server delivery_id w in
      if seen_or_false seen
      then (ok_response (duplicate_delivery delivery_id), w')
      else claimed event_type delivery_id body
          (claim_delivery_id server json delivery_id event_type w')

  -- The handler after the check of the signature: a wrong one is refused, with an audit row.
  unfoldable pub verified : Delivery → WaveFlowResult (Unit {0}) → World J → Response × World J
  verified request (ok _) w =
      accept (unwrap_or (codes "unknown") request.event) request.delivery request.body w
  verified request (err e) w =
      after
        (persist_webhook_event server request.delivery (unwrap_or (codes "unknown") request.event)
          (codes "unknown") none
          (value_or_raw (json.from_slice request.body) (json.raw request.body)) (codes "rejected")
          (some (message "invalid webhook signature")))
        (map_error e) w

  unfoldable pub github_webhook : Primitives → Delivery → World J → Response × World J
  github_webhook k request w =
      verified request
        (verify_github_signature k (as_bytes config.github_webhook_secret) request.body
          (unwrap_or [] request.signature))
        w
