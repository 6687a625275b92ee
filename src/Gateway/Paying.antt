-- ===== src/Gateway/Paying.antt =====
-- crates/gateway/src/routes.rs: the statements that pay a merge, on a server that carries them out.
use wave_flow.Database.Tables.{PayoutRow, Server, WebhookEvent, Db}
use wave_flow.Common.Int.{ℤ, i64_try_from, clamp_i64, pos}
use wave_flow.Common.{
  ℕ, map, ◌∷◌, any, if◌then◌else◌, none, ◌==◌, ◌≡◌, some, true, ◌&&◌, not, refl, false, suc, ◌∙◌,
}
use wave_flow.Shared.Types.{Uuid}
use wave_flow.Gateway.Reliable.{IsReliable, at, query_runs}
use wave_flow.Gateway.Webhook.{MergeAttestation}
use wave_flow.Database.Statements.{
  insert_payout, insert_webhook_event, update_spent, event_fits, payout_fits, spend_row, done,
  spend_fits, database_error, query, lift,
}
use wave_flow.Gateway.Attestation.{
  increment_milestone_spent, persist_payout, persist_webhook_event, clamp_points,
}
use wave_flow.Common.Text.{Text, codes}
use wave_flow.Shared.Error.{Message, ok}
use wave_flow.Database.Laws.{lift_bind, then_value, lift_value}

module _ {J : Type 0} (server : Server J) where
  -- The row of a merge that is paid.
  abbrev pub payout_row : ℕ → Uuid → MergeAttestation → Text → ℤ → ℤ → Message → PayoutRow
  payout_row turn id merge address pr_number amount hash = record {
    id = server.new_v4 turn;
    program_id = id;
    pr_number = pr_number;
    github_username = merge.github_username;
    stellar_address = address;
    points = clamp_points merge.points;
    amount = amount;
    tx_hash = some hash;
    created_at = server.now turn;
  }

  -- The audit row of a merge that is paid, of a delivery without an id.
  abbrev pub processed_row : ℕ → MergeAttestation → J → WebhookEvent J
  processed_row turn merge payload = record {
    id = server.new_v4 turn;
    delivery_id = none;
    event_type = codes "pull_request";
    github_repo = merge.github_repo;
    pr_number = some (clamp_i64 merge.pr_number);
    payload = payload;
    status = codes "processed";
    error_message = none;
    received_at = server.now turn;
  }

abbrev pub with_payout : {J : Type 0} → PayoutRow → Db J → Db J
with_payout new db = record db { payouts = new ∷ db.payouts }

abbrev pub with_event : {J : Type 0} → WebhookEvent J → Db J → Db J
with_event new db = record db { webhook_events = new ∷ db.webhook_events }

abbrev pub with_spent : {J : Type 0} → ℤ → Uuid → Db J → Db J
with_spent amount id db = record db {
  programs = map (λ p. if p.id == id then spend_row amount p else p) db.programs;
}

module _ {J : Type 0} (server : Server J) (reliable : IsReliable server) where
  insert_payout_runs :
      (new : PayoutRow) (db : Db J)
      → payout_fits new db ≡ true
      → insert_payout new db ≡ done (tt, with_payout new db)
  unfolding insert_payout
  insert_payout_runs new db h = rw h refl

  pub insert_webhook_event_runs :
      (new : WebhookEvent J) (db : Db J)
      → event_fits new db ≡ true
      → insert_webhook_event new db ≡ done (tt, with_event new db)
  unfolding insert_webhook_event
  insert_webhook_event_runs new db h = rw h refl

  update_spent_runs :
      (amount : ℤ) (id : Uuid) (db : Db J)
      → any (λ p. p.id == id && not (spend_fits amount p)) db.programs ≡ false
      → update_spent amount id db ≡ done (tt, with_spent amount id db)
  unfolding update_spent
  update_spent_runs amount id db h = rw h refl

  pub persist_payout_runs :
      (id : Uuid) (merge : MergeAttestation) (address : Text) (total pr_number amount : ℤ)
      (hash : Message) (db : Db J) (turn : ℕ)
      → i64_try_from total ≡ some amount
      → i64_try_from (pos merge.pr_number) ≡ some pr_number
      → payout_fits (payout_row server turn id merge address pr_number amount hash) db ≡ true
      → persist_payout server id merge address total hash (at db turn) ≡ (
        ok (server.new_v4 turn),
        at
            (with_payout (payout_row server turn id merge address pr_number amount hash) db)
            (suc turn),
      )
  unfolding persist_payout
  persist_payout_runs id merge address total pr_number amount hash db turn whole number fits =
      let new = payout_row server turn id merge address pr_number amount hash in
      lift_bind _ _ (at db turn) amount (rw whole refl)
      ∙ lift_bind _ _ (at db turn) pr_number (rw number refl)
      ∙ then_value (query server (insert_payout new) _) (lift (ok (server.new_v4 turn)))
          (at db turn) (at (with_payout new db) (suc turn)) tt
          (query_runs server reliable (insert_payout new) _ db (with_payout new db) turn tt
            (insert_payout_runs new db fits))
      ∙ lift_value (ok (server.new_v4 turn)) _

  pub increment_runs :
      (id : Uuid) (total amount : ℤ) (db : Db J) (turn : ℕ)
      → i64_try_from total ≡ some amount
      → any (λ p. p.id == id && not (spend_fits amount p)) db.programs ≡ false
      → increment_milestone_spent server id total (at db turn)
        ≡ (ok tt, at (with_spent amount id db) (suc turn))
  unfolding increment_milestone_spent
  increment_runs id total amount db turn whole fits =
      lift_bind _ _ (at db turn) amount (rw whole refl)
      ∙ query_runs server reliable (update_spent amount id) database_error db
          (with_spent amount id db) turn tt (update_spent_runs amount id db fits)

  pub processed_runs :
      (merge : MergeAttestation) (payload : J) (db : Db J) (turn : ℕ)
      → event_fits (processed_row server turn merge payload) db ≡ true
      → persist_webhook_event server none
          (codes "pull_request")
          merge.github_repo
          (some merge.pr_number)
          payload
          (codes "processed")
          none
          (at db turn)
        ≡ (ok tt, at (with_event (processed_row server turn merge payload) db) (suc turn))
  unfolding persist_webhook_event
  processed_runs merge payload db turn fits =
      let new = processed_row server turn merge payload in
      query_runs server reliable (insert_webhook_event new) database_error db (with_event new db)
        turn tt (insert_webhook_event_runs new db fits)
