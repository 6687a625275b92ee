-- ===== src/Gateway/TrackedPayment.antt =====
-- crates/gateway/src/routes.rs: what becomes of a merge that is due, where its delivery has an id.
use wave_flow.Database.Tables.{
  Server, WebhookEvent, Db, World, SqlError, violated, ProgramRow, ContributorRow,
}
use wave_flow.Database.Statements.{
  event_fits, insert_webhook_event, ◌>>=◌, ◌>>◌, Query, query, lift, send, Statement, find, failed,
  same_delivery, database_error, select, spend_row,
}
use wave_flow.Gateway.Attestation.{Json, claim_delivery_id, delivery_id_seen, persist_webhook_event}
use wave_flow.Gateway.Reliable.{IsReliable, at, query_runs}
use wave_flow.Common.Text.{Text, codes, same_refl, same}
use wave_flow.Common.{
  Option, ℕ, ◌≡◌, false, some, true, ap, none, suc, arith, refl, is_some, ◌∙◌, unwrap_or, map,
  if◌then◌else◌, ◌==◌, ◌∷◌,
}
use wave_flow.Shared.Error.{
  Message, WaveFlowError, err, ok, WaveFlowResult, http_status_code, to_string,
}
use wave_flow.Gateway.Paying.{
  with_event, insert_webhook_event_runs, with_spent, with_payout, payout_row,
}
use wave_flow.Database.Laws.{bind_value}
use wave_flow.Shared.Config.{AppConfig}
use wave_flow.Gateway.Webhook.{Primitives, MergeAttestation}
use wave_flow.Gateway.Routes.{
  Delivery, github_webhook, verified, accept, process_merge, claimed, handle_payload, handle_event,
  conclude, log_failure, map_error, failure,
}
use wave_flow.Common.Int.{ℤ}
use wave_flow.Gateway.Eligibility.{later, IsDue}
use wave_flow.Gateway.Course.{Attests}
use wave_flow.Gateway.Due.{process_merge_runs}

-- The row that `claim_delivery_id` stores.
abbrev pub claim_row : {J : Type 0} → Server J → Json J → Text → Text → ℕ → WebhookEvent J
claim_row server json d event_type turn = record {
  id = server.new_v4 turn;
  delivery_id = some d;
  event_type = event_type;
  github_repo = codes "pending";
  pr_number = none;
  payload = json.empty_object;
  status = codes "processing";
  error_message = none;
  received_at = server.now turn;
}

module _ {J : Type 0} where
  then_error :
      {A B : Type 0} (m : Query J A) (n : Query J B) (w v : World J) (e : WaveFlowError)
      → m w ≡ (err e, v)
      → (m >> n) w ≡ (err e, v)
  unfolding ◌>>=◌ ◌>>◌
  then_error {A} {B} m n w v e h =
      ap
        (λ (x : WaveFlowResult A × World J). elim (x.0) as (λ _. WaveFlowResult B × World J) [
          | ok a ↦ n x.1
          | err e ↦ (err e, x.1)
        ])
        h

  -- A delivery whose id has a row that was just claimed.
  taken_event :
      (new claim : WebhookEvent J) (d : Text) (db : Db J)
      → new.delivery_id ≡ some d
      → claim.delivery_id ≡ some d
      → event_fits new (with_event claim db) ≡ false
  unfolding event_fits
  taken_event new claim d db h g = let found = same_refl d in rw (h, g, found) (ground arith)

  insert_refused :
      (new : WebhookEvent J) (db : Db J)
      → event_fits new db ≡ false
      → insert_webhook_event new db ≡ failed violated
  unfolding insert_webhook_event
  insert_refused new db h = rw h refl

module _ {J : Type 0} (server : Server J) (reliable : IsReliable server) where
  query_fails :
      {A : Type 0} (s : Statement J A) (f : SqlError → WaveFlowError) (db : Db J) (turn : ℕ)
      (e : SqlError)
      → s db ≡ failed e
      → query server s f (at db turn) ≡ (err (f e), at db (suc turn))
  unfolding query send
  query_fails s f db turn e h = rw (reliable.carried turn, reliable.alone turn db, h) refl

  delivery_id_unseen :
      (d : Text) (db : Db J) (turn : ℕ)
      → find (λ e. same_delivery e.delivery_id (some d)) db.webhook_events ≡ none
      → delivery_id_seen server d (at db turn) ≡ (ok false, at db (suc turn))
  unfolding delivery_id_seen lift
  delivery_id_unseen d db turn h =
      let look : Db J → Option (WebhookEvent J) =
        λ db. find (λ e. same_delivery e.delivery_id (some d)) db.webhook_events in
      bind_value (query server (select look) database_error) (λ row. lift (ok (is_some row)))
        (at db turn) (at db (suc turn)) none
        (query_runs server reliable (select look) database_error db db turn none (rw h refl))

  claim_runs :
      (json : Json J) (d event_type : Text) (db : Db J) (turn : ℕ)
      → event_fits (claim_row server json d event_type turn) db ≡ true
      → claim_delivery_id server json d event_type (at db turn)
        ≡ (ok tt, at (with_event (claim_row server json d event_type turn) db) (suc turn))
  unfolding claim_delivery_id
  claim_runs json d event_type db turn fits =
      let new = claim_row server json d event_type turn in
      query_runs server reliable (insert_webhook_event new) _ db (with_event new db) turn tt
        (insert_webhook_event_runs server reliable new db fits)

  -- No further audit row of the delivery is stored.
  persist_refused :
      (claim : WebhookEvent J) (d event_type repo : Text) (n : Option ℕ) (payload : J)
      (status : Text) (error : Option Message) (db : Db J) (turn : ℕ)
      → claim.delivery_id ≡ some d
      → persist_webhook_event server
          (some d)
          event_type
          repo
          n
          payload
          status
          error
          (at (with_event claim db) turn)
        ≡ (err (database_error violated), at (with_event claim db) (suc turn))
  unfolding persist_webhook_event
  persist_refused claim d event_type repo n payload status error db turn h =
      query_fails (insert_webhook_event _) database_error (with_event claim db) turn violated
        (insert_refused _ (with_event claim db) (taken_event _ claim d db refl h))

module _ {J : Type 0} (server : Server J) (reliable : IsReliable server) (json : Json J)
    (config : AppConfig) (k : Primitives) (request : Delivery) (db : Db J) (turn : ℕ) (d : Text)
    (merge : MergeAttestation) (program : ProgramRow) (contributor : ContributorRow)
    (pr_number amount : ℤ) (hash : Message) where
  abbrev pub claim : WebhookEvent J
  claim = claim_row server json d (codes "pull_request") (later 1 turn)

  abbrev paid : Db J
  paid = with_spent amount program.id (
      with_payout
        (payout_row server (later 7 turn) program.id merge contributor.stellar_address pr_number
          amount hash)
        db)

  process_refused :
      (attests : Attests json config k request merge)
      → IsDue server config
          (with_event claim db)
          (later 2 turn)
          merge
          program
          contributor
          pr_number
          amount
          hash
      → process_merge server json config attests.event attests.payload
          (some d)
          (at (with_event claim db) (later 2 turn))
        ≡ (err (database_error violated), at (with_event claim paid) (later 10 turn))
  process_refused attests due =
      process_merge_runs server reliable json config (with_event claim db) (later 2 turn) merge
        program contributor pr_number amount hash due attests.event attests.merged attests.payload
        (some d)
      ∙ then_error
          (persist_webhook_event server (some d) (codes "pull_request") merge.github_repo
            (some merge.pr_number) attests.payload (codes "processed") none)
          _ (at (with_event claim paid) (later 9 turn)) (at (with_event claim paid) (later 10 turn))
          (database_error violated)
          (persist_refused server reliable claim d (codes "pull_request") merge.github_repo
            (some merge.pr_number) attests.payload (codes "processed") none paid (later 9 turn)
            refl)

  answered :
      (attests : Attests json config k request merge)
      → IsDue server config
          (with_event claim db)
          (later 2 turn)
          merge
          program
          contributor
          pr_number
          amount
          hash
      → request.event ≡ some (codes "pull_request")
      → request.delivery ≡ some d
      → find (λ e. same_delivery e.delivery_id (some d)) db.webhook_events ≡ none
      → event_fits claim db ≡ true
      → github_webhook server json config k request (at db turn) ≡ (
        record { status = 500; reply = failure (to_string (database_error violated)) },
        at (with_event claim paid) (later 11 turn),
      )
  unfolding github_webhook verified accept claimed handle_payload handle_event conclude log_failure
      map_error http_status_code same
  answered attests due kind tracked unseen fits =
      rw
        (
          attests.accepted,
          kind,
          tracked,
          delivery_id_unseen server reliable d db turn unseen,
          claim_runs server reliable json d (codes "pull_request") db (later 1 turn) fits,
          attests.read,
          attests.made,
          process_refused attests due,
        )
        (ap
          (λ (x : WaveFlowResult (Unit {0}) × World J). (map_error (database_error violated), x.1))
          (persist_refused server reliable claim d (codes "pull_request")
            (unwrap_or (codes "unknown") (json.full_name attests.payload))
            (json.number attests.payload) attests.payload (codes "failed")
            (some (to_string (database_error violated))) paid (later 10 turn) refl))

-- A delivery that carries a new id and attests a merge that is due is paid and answered with an error: on a
-- server that carries out every statement, and while no other request runs, the payout is stored and
-- counted in the program, the only audit row is the claim of the id, which stays in the status
-- `processing`, and the answer is 500 with a database error.
pub tracked_paid :
    {J : Type 0} (server : Server J) (json : Json J) (config : AppConfig) (k : Primitives)
    (request : Delivery) (db : Db J) (turn : ℕ) (d : Text) (merge : MergeAttestation)
    (program : ProgramRow) (contributor : ContributorRow) (pr_number amount : ℤ) (hash : Message)
    → IsReliable server
    → Attests json config k request merge
    → IsDue server config
        (with_event (claim_row server json d (codes "pull_request") (later 1 turn)) db)
        (later 2 turn)
        merge
        program
        contributor
        pr_number
        amount
        hash
    → request.event ≡ some (codes "pull_request")
    → request.delivery ≡ some d
    → find (λ e. same_delivery e.delivery_id (some d)) db.webhook_events ≡ none
    → event_fits (claim_row server json d (codes "pull_request") (later 1 turn)) db ≡ true
    → github_webhook server json config k request (at db turn) ≡ (
      record { status = 500; reply = failure (to_string (database_error violated)) },
      at
          (record db {
            programs = map (λ p. if p.id == program.id then spend_row amount p else p) db.programs;
            payouts =
                payout_row server
                  (later 7 turn)
                  program.id
                  merge
                  contributor.stellar_address
                  pr_number
                  amount
                  hash
                ∷ db.payouts;
            webhook_events =
                claim_row server json d (codes "pull_request") (later 1 turn) ∷ db.webhook_events;
          })
          (later 11 turn),
    )
tracked_paid server json config k request db turn d merge program contributor pr_number amount hash
      reliable attests due kind tracked unseen fits =
    answered server reliable json config k request db turn d merge program contributor pr_number
      amount hash attests due kind tracked unseen fits
