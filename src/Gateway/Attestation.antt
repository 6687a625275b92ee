-- ===== src/Gateway/Attestation.antt =====
-- crates/gateway/src/attestation.rs: the queries of a merge, and the submission to the chain.
use wave_flow.Database.Statements.{
  ◌>>=◌, ◌>>◌, Query, insert_payout, insert_webhook_event, update_spent, lift, query, select, find,
  conflict_error, same_delivery, database_error,
}
use wave_flow.Gateway.Webhook.{Bytes, MergeAttestation}
use wave_flow.Common.Text.{Text, codes, same}
use wave_flow.Shared.Types.{Uuid, AttestationRequest, GitHubPullRequestEvent}
use wave_flow.Database.Tables.{Server, ProgramRow}
use wave_flow.Common.{
  ℕ, Option, Bool, if◌then◌else◌, ◌⊎◌, ltb, some, ◌∷◌, none, ◌^◌, [], ◌==◌, ◌&&◌, is_some,
  map_option,
}
use wave_flow.Shared.Error.{
  Message, WaveFlowError, WaveFlowResult, not_found, word, ok, ok_or, shown, internal, message,
}
use wave_flow.Common.Int.{ℤ, i64_try_from, pos, as_u64, same_ℤ, clamp_i64}

-- What the handler takes from serde_json: reading a body, reading an event from a value, the value
-- stored for a body that is not JSON, `{}`, and the two lookups in a value.
pub record Json (J : Type 0) : Type 0 where
  pub from_slice : Bytes → Message ⊎ J
  pub from_value : J → Message ⊎ GitHubPullRequestEvent
  pub raw : Bytes → J
  pub empty_object : J
  pub full_name : J → Option Text
  pub number : J → Option ℕ

abbrev pub not_registered : Text → Uuid → WaveFlowError
not_registered username program_id = not_found (
    word (codes "contributor ")
    ∷ word username
    ∷ word (codes " not registered for program ")
    ∷ shown program_id
    ∷ [])

abbrev no_program : Uuid → WaveFlowError
no_program program_id =
    not_found (word (codes "program ") ∷ shown program_id ∷ word (codes " not found") ∷ [])

module _ {J : Type 0} (server : Server J) where
  unfoldable pub resolve_program_id : Text → Query J (Uuid × ℕ)
  resolve_program_id github_repo = do
    row ←
        query server
          (select (λ db.
            find (λ p. same p.github_repo github_repo && same p.status (codes "active"))
              db.programs))
          database_error
    program ←
        lift (
          ok_or row
            (not_found (word (codes "no active program for repo ") ∷ word github_repo ∷ [])))
    lift (ok (program.id, as_u64 program.on_chain_program_id))

  unfoldable pub resolve_contributor_address : Uuid → Text → Query J Text
  resolve_contributor_address program_id github_username = do
    row ←
        query server
          (select (λ db.
            find (λ c. c.program_id == program_id && same c.github_username github_username)
              db.contributors))
          database_error
    contributor ← lift (ok_or row (not_registered github_username program_id))
    lift (ok contributor.stellar_address)

  unfoldable pub fetch_payout_id : Uuid → ℕ → Query J (Option Uuid)
  fetch_payout_id program_id pr_number = do
    row ←
        query server
          (select (λ db.
            find (λ p. p.program_id == program_id && same_ℤ p.pr_number (clamp_i64 pr_number))
              db.payouts))
          database_error
    lift (ok (map_option (λ p. p.id) row))

  unfoldable pub payout_exists : Uuid → ℕ → Query J Bool
  payout_exists program_id pr_number = do
    id ← fetch_payout_id program_id pr_number
    lift (ok (is_some id))

  unfoldable pub delivery_id_seen : Text → Query J Bool
  delivery_id_seen delivery_id = do
    row ←
        query server
          (select
            (λ db. find (λ e. same_delivery e.delivery_id (some delivery_id)) db.webhook_events))
          database_error
    lift (ok (is_some row))

  abbrev find_program : Uuid → Query J (Option ProgramRow)
  find_program program_id =
      query server (select (λ db. find (λ p. p.id == program_id) db.programs)) database_error

  unfoldable pub load_program_status : Uuid → Query J Text
  load_program_status program_id = do
    row ← find_program program_id
    program ← lift (ok_or row (no_program program_id))
    lift (ok program.status)

  unfoldable pub load_reward_per_point : Uuid → Query J ℤ
  load_reward_per_point program_id = do
    row ← find_program program_id
    program ← lift (ok_or row (no_program program_id))
    lift (ok program.reward_per_point)

  unfoldable pub increment_milestone_spent : Uuid → ℤ → Query J (Unit {0})
  increment_milestone_spent program_id amount = do
    amount_i64 ← lift (ok_or (i64_try_from amount) (internal (message "amount overflow")))
    query server (update_spent amount_i64 program_id) database_error

unfoldable pub build_attestation : ℕ → MergeAttestation → AttestationRequest
build_attestation on_chain_program_id merge = record {
  program_id = on_chain_program_id;
  github_username = merge.github_username;
  pr_number = merge.pr_number;
  points = merge.points;
}

abbrev pub tx_text : Text → AttestationRequest → Message
tx_text kind a = word kind ∷ shown a.program_id ∷ word (codes "-") ∷ shown a.pr_number ∷ []

-- No transaction is sent: the hash is made up from the request.
unfoldable pub submit_attestation :
    Text → Option Text → Option Text → AttestationRequest → WaveFlowResult Message
submit_attestation rpc_url (some contract) (some key) attestation =
    ok (tx_text (codes "simulated-tx-") attestation)
submit_attestation rpc_url _ _ attestation = ok (tx_text (codes "dry-run-") attestation)

-- `i32::try_from(points).unwrap_or(1)` of a `u32`.
abbrev pub clamp_points : ℕ → ℤ
clamp_points points = if ltb points (2 ^ 31) then pos points else pos 1

module _ {J : Type 0} (server : Server J) where
  unfoldable pub persist_payout : Uuid → MergeAttestation → Text → ℤ → Message → Query J Uuid
  persist_payout program_id merge stellar_address amount tx_hash w =
      (do
        let payout_id = server.new_v4 w.turn
        amount_i64 ← lift (ok_or (i64_try_from amount) (internal (message "amount overflow")))
        pr_number ←
            lift
              (ok_or (i64_try_from (pos merge.pr_number)) (internal (message "pr_number overflow")))
        query server
            (insert_payout (record {
              id = payout_id;
              program_id = program_id;
              pr_number = pr_number;
              github_username = merge.github_username;
              stellar_address = stellar_address;
              points = clamp_points merge.points;
              amount = amount_i64;
              tx_hash = some tx_hash;
              created_at = server.now w.turn;
            }))
            (conflict_error (
              word (codes "PR ")
              ∷ shown merge.pr_number
              ∷ word (codes " already processed for program ")
              ∷ shown program_id
              ∷ []))
        lift (ok payout_id))
        w

  unfoldable pub claim_delivery_id : Json J → Text → Text → Query J (Unit {0})
  claim_delivery_id json delivery_id event_type w =
      query server
        (insert_webhook_event (record {
          id = server.new_v4 w.turn;
          delivery_id = some delivery_id;
          event_type = event_type;
          github_repo = codes "pending";
          pr_number = none;
          payload = json.empty_object;
          status = codes "processing";
          error_message = none;
          received_at = server.now w.turn;
        }))
        (conflict_error (word (codes "duplicate delivery ") ∷ word delivery_id ∷ [])) w

  unfoldable pub persist_webhook_event :
      Option Text → Text → Text → Option ℕ → J → Text → Option Message → Query J (Unit {0})
  persist_webhook_event delivery_id event_type github_repo pr_number payload status error w =
      query server
        (insert_webhook_event (record {
          id = server.new_v4 w.turn;
          delivery_id = delivery_id;
          event_type = event_type;
          github_repo = github_repo;
          pr_number = map_option clamp_i64 pr_number;
          payload = payload;
          status = status;
          error_message = error;
          received_at = server.now w.turn;
        }))
        database_error w
