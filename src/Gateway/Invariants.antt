-- ===== src/Gateway/Invariants.antt =====
-- crates/gateway/src/attestation.rs: what its queries keep true of the database. Every property that
-- the writes keep.
use wave_flow.Database.Tables.{Db, Server}
use wave_flow.Database.Statements.{
  insert_payout, update_spent, database_error, insert_webhook_event,
}
use wave_flow.Gateway.Attestation.{
  delivery_id_seen, fetch_payout_id, load_program_status, load_reward_per_point, payout_exists,
  resolve_contributor_address, resolve_program_id, claim_delivery_id, increment_milestone_spent,
  persist_payout, persist_webhook_event, Json,
}
use wave_flow.Common.{ℕ, Option}
use wave_flow.Common.Text.{Text}
use wave_flow.Shared.Types.{Uuid}
use wave_flow.Database.Triples.{
  Keeps, Any, bind-Keeps, lift-Keeps, select-Keeps, query-Keeps, then-Keeps, IsQuiet,
}
use wave_flow.Common.Int.{ℤ}
use wave_flow.Gateway.Webhook.{MergeAttestation}
use wave_flow.Shared.Error.{Message}
use wave_flow.Database.Writes.{
  IsStable, insert_payout-Write, insert_webhook_event-Write, update_spent-Write,
}

module _ {J : Type 0} {P : Db J → Type 0} (server : Server J) (quiet : IsQuiet server P) where
  pub resolve_program_id-Keeps : (repo : Text) → Keeps P (resolve_program_id server repo) Any
  unfolding resolve_program_id
  resolve_program_id-Keeps repo = bind-Keeps (select-Keeps server quiet _ database_error) (λ row _.
      bind-Keeps (lift-Keeps {R = Any} _ (λ _ _. tt)) (λ program _. lift-Keeps _ (λ _ _. tt)))

  pub resolve_contributor_address-Keeps :
      (id : Uuid) (name : Text) → Keeps P (resolve_contributor_address server id name) Any
  unfolding resolve_contributor_address
  resolve_contributor_address-Keeps id name =
      bind-Keeps (select-Keeps server quiet _ database_error)
        (λ row _. bind-Keeps (lift-Keeps {R = Any} _ (λ _ _. tt)) (λ c _. lift-Keeps _ (λ _ _. tt)))

  pub fetch_payout_id-Keeps : (id : Uuid) (n : ℕ) → Keeps P (fetch_payout_id server id n) Any
  unfolding fetch_payout_id
  fetch_payout_id-Keeps id n =
      bind-Keeps (select-Keeps server quiet _ database_error) (λ row _. lift-Keeps _ (λ _ _. tt))

  pub payout_exists-Keeps : (id : Uuid) (n : ℕ) → Keeps P (payout_exists server id n) Any
  unfolding payout_exists
  payout_exists-Keeps id n =
      bind-Keeps (fetch_payout_id-Keeps id n) (λ row _. lift-Keeps _ (λ _ _. tt))

  pub load_program_status-Keeps : (id : Uuid) → Keeps P (load_program_status server id) Any
  unfolding load_program_status
  load_program_status-Keeps id =
      bind-Keeps (select-Keeps server quiet _ database_error)
        (λ row _. bind-Keeps (lift-Keeps {R = Any} _ (λ _ _. tt)) (λ c _. lift-Keeps _ (λ _ _. tt)))

  pub load_reward_per_point-Keeps : (id : Uuid) → Keeps P (load_reward_per_point server id) Any
  unfolding load_reward_per_point
  load_reward_per_point-Keeps id =
      bind-Keeps (select-Keeps server quiet _ database_error)
        (λ row _. bind-Keeps (lift-Keeps {R = Any} _ (λ _ _. tt)) (λ c _. lift-Keeps _ (λ _ _. tt)))

  pub delivery_id_seen-Keeps : (d : Text) → Keeps P (delivery_id_seen server d) Any
  unfolding delivery_id_seen
  delivery_id_seen-Keeps d =
      bind-Keeps (select-Keeps server quiet _ database_error) (λ row _. lift-Keeps _ (λ _ _. tt))

module _ {J : Type 0} {P : Db J → Type 0} (stable : IsStable P) (server : Server J)
    (quiet : IsQuiet server P) where
  pub increment_milestone_spent-Keeps :
      (id : Uuid) (amount : ℤ) → Keeps P (increment_milestone_spent server id amount) Any
  unfolding increment_milestone_spent
  increment_milestone_spent-Keeps id amount =
      bind-Keeps (lift-Keeps {R = Any} _ (λ _ _. tt)) (λ a _.
        query-Keeps server quiet (update_spent a id) database_error
          (λ db x db' p e. (stable.kept db db' (update_spent-Write a id db db' e) p, tt)))

  pub persist_payout-Keeps :
      (id : Uuid) (merge : MergeAttestation) (address : Text) (amount : ℤ) (hash : Message)
      → Keeps P (persist_payout server id merge address amount hash) Any
  unfolding persist_payout
  persist_payout-Keeps id merge address amount hash = record {
    keeps = λ w p.
        (bind-Keeps (lift-Keeps {R = Any} _ (λ _ _. tt)) (λ a _.
            bind-Keeps (lift-Keeps {R = Any} _ (λ _ _. tt)) (λ n _.
              then-Keeps {Q = Any}
                (query-Keeps server quiet (insert_payout _) _
                  (λ db x db' p e. (stable.kept db db' (insert_payout-Write _ db db' e) p, tt)))
                (λ _ _. lift-Keeps _ (λ _ _. tt))))).keeps
          w p;
  }

  pub claim_delivery_id-Keeps :
      (json : Json J) (d event_type : Text)
      → Keeps P (claim_delivery_id server json d event_type) Any
  unfolding claim_delivery_id
  claim_delivery_id-Keeps json d event_type = record {
    keeps = λ w p.
        (query-Keeps server quiet (insert_webhook_event _) _ (λ db x db' p e.
            (stable.kept db db' (insert_webhook_event-Write _ db db' e) p, tt))).keeps
          w p;
  }

  pub persist_webhook_event-Keeps :
      (d : Option Text) (event_type repo : Text) (n : Option ℕ) (payload : J) (status : Text)
      (error : Option Message)
      → Keeps P (persist_webhook_event server d event_type repo n payload status error) Any
  unfolding persist_webhook_event
  persist_webhook_event-Keeps d event_type repo n payload status error = record {
    keeps = λ w p.
        (query-Keeps server quiet (insert_webhook_event _) _ (λ db x db' p e.
            (stable.kept db db' (insert_webhook_event-Write _ db db' e) p, tt))).keeps
          w p;
  }
