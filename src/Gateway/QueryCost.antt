-- ===== src/Gateway/QueryCost.antt =====
-- crates/gateway/src/attestation.rs: how many statements each query sends.
use wave_flow.Database.Tables.{Server, World}
use wave_flow.Gateway.Attestation.{
  Json, claim_delivery_id, delivery_id_seen, fetch_payout_id, increment_milestone_spent,
  load_program_status, load_reward_per_point, payout_exists, persist_payout, persist_webhook_event,
  resolve_contributor_address, resolve_program_id,
}
use wave_flow.Gateway.Webhook.{MergeAttestation}
use wave_flow.Common.Text.{Text}
use wave_flow.Shared.Types.{Uuid}
use wave_flow.Common.{Option, ℕ, ◌≤◌, ◌+◌}
use wave_flow.Database.Turns.{Sends, bind-Sends, query-Sends, lift-Sends, then-Sends}
use wave_flow.Common.Int.{ℤ}
use wave_flow.Gateway.Routes.{renamed, renamed_error}
use wave_flow.Shared.Error.{Message, WaveFlowResult, ok, err}
use wave_flow.Database.Statements.{Query, database_error}

module _ {J : Type 0} (server : Server J) where
  pub resolve_program_id-Sends : (repo : Text) → Sends 1 (resolve_program_id server repo)
  unfolding resolve_program_id
  resolve_program_id-Sends repo =
      bind-Sends 1 0 (query-Sends server _ database_error)
        (λ row. bind-Sends 0 0 (lift-Sends _) (λ p. lift-Sends _))

  pub resolve_contributor_address-Sends :
      (id : Uuid) (name : Text) → Sends 1 (resolve_contributor_address server id name)
  unfolding resolve_contributor_address
  resolve_contributor_address-Sends id name =
      bind-Sends 1 0 (query-Sends server _ database_error)
        (λ row. bind-Sends 0 0 (lift-Sends _) (λ c. lift-Sends _))

  pub fetch_payout_id-Sends : (id : Uuid) (n : ℕ) → Sends 1 (fetch_payout_id server id n)
  unfolding fetch_payout_id
  fetch_payout_id-Sends id n =
      bind-Sends 1 0 (query-Sends server _ database_error) (λ row. lift-Sends _)

  pub payout_exists-Sends : (id : Uuid) (n : ℕ) → Sends 1 (payout_exists server id n)
  unfolding payout_exists
  payout_exists-Sends id n = bind-Sends 1 0 (fetch_payout_id-Sends id n) (λ row. lift-Sends _)

  pub load_program_status-Sends : (id : Uuid) → Sends 1 (load_program_status server id)
  unfolding load_program_status
  load_program_status-Sends id =
      bind-Sends 1 0 (query-Sends server _ database_error)
        (λ row. bind-Sends 0 0 (lift-Sends _) (λ p. lift-Sends _))

  pub load_reward_per_point-Sends : (id : Uuid) → Sends 1 (load_reward_per_point server id)
  unfolding load_reward_per_point
  load_reward_per_point-Sends id =
      bind-Sends 1 0 (query-Sends server _ database_error)
        (λ row. bind-Sends 0 0 (lift-Sends _) (λ p. lift-Sends _))

  pub delivery_id_seen-Sends : (d : Text) → Sends 1 (delivery_id_seen server d)
  unfolding delivery_id_seen
  delivery_id_seen-Sends d =
      bind-Sends 1 0 (query-Sends server _ database_error) (λ row. lift-Sends _)

  pub increment_milestone_spent-Sends :
      (id : Uuid) (amount : ℤ) → Sends 1 (increment_milestone_spent server id amount)
  unfolding increment_milestone_spent
  increment_milestone_spent-Sends id amount =
      bind-Sends 0 1 (lift-Sends _) (λ a. query-Sends server _ database_error)

  pub persist_payout-Sends :
      (id : Uuid) (merge : MergeAttestation) (address : Text) (amount : ℤ) (hash : Message)
      → Sends 1 (persist_payout server id merge address amount hash)
  unfolding persist_payout
  persist_payout-Sends id merge address amount hash = record {
    sends = λ w.
        (bind-Sends 0 1 (lift-Sends _) (λ a.
            bind-Sends 0 1 (lift-Sends _)
              (λ n. then-Sends 1 0 (query-Sends server _ _) (lift-Sends _)))).sends
          w;
  }

  pub claim_delivery_id-Sends :
      (json : Json J) (d event_type : Text) → Sends 1 (claim_delivery_id server json d event_type)
  unfolding claim_delivery_id
  claim_delivery_id-Sends json d event_type = record {
    sends = λ w. (query-Sends server _ _).sends w;
  }

  pub persist_webhook_event-Sends :
      (d : Option Text) (event_type repo : Text) (n : Option ℕ) (payload : J) (status : Text)
      (error : Option Message)
      → Sends 1 (persist_webhook_event server d event_type repo n payload status error)
  unfolding persist_webhook_event
  persist_webhook_event-Sends d event_type repo n payload status error = record {
    sends = λ w. (query-Sends server _ _).sends w;
  }

  pub renamed-Sends :
      {A : Type 0} (merge : MergeAttestation) (id : Uuid) (n : ℕ) (m : Query J A)
      → Sends n m
      → Sends n (renamed merge id m)
  renamed-Sends {A} merge id n m h = record { sends = λ w. go w (m w) (h.sends w) }
    where
      go :
          (w : World J) (x : WaveFlowResult A × World J)
          → (x.1).turn ≤ w.turn + n
          → ((elim (x.0) as (λ _. WaveFlowResult A × World J) [
            | ok a ↦ (ok a, x.1)
            | err e ↦ (err (renamed_error merge id e), x.1)
          ]).1
            ).turn
            ≤ w.turn + n
      go w (ok a, v) h = h
      go w (err e, v) h = h
