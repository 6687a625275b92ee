-- ===== src/Gateway/Due.antt =====
-- crates/gateway/src/routes.rs: the processing of a merge that is due, up to its audit row.
use wave_flow.Common.{◌≡◌, some, none, ℕ, refl, false, ◌∙◌, Option}
use wave_flow.Gateway.Attestation.{
  Json, load_reward_per_point, resolve_contributor_address, resolve_program_id, load_program_status,
  persist_payout, increment_milestone_spent, persist_webhook_event, payout_exists,
}
use wave_flow.Database.Tables.{Server, Db, ProgramRow, ContributorRow, PayoutRow}
use wave_flow.Common.Text.{same, codes, Text}
use wave_flow.Gateway.Reliable.{
  IsReliable, at, load_reward_per_point_runs, resolve_contributor_address_runs,
  resolve_program_id_runs, load_program_status_runs, payout_exists_runs,
}
use wave_flow.Database.Statements.{lift, Query, ◌>>◌}
use wave_flow.Shared.Config.{AppConfig}
use wave_flow.Gateway.Webhook.{MergeAttestation, parse_merge_event}
use wave_flow.Shared.Error.{Message, ok, fail_if}
use wave_flow.Gateway.Routes.{attest_merge, pay_merge, process_merge, processed, renamed, Reply}
use wave_flow.Common.Int.{ℤ, as_u64, pos, ◌*ℤ◌}
use wave_flow.Gateway.Paying.{
  with_spent, payout_row, with_payout, persist_payout_runs, increment_runs,
}
use wave_flow.Database.Laws.{bind_value, lift_bind, then_value, lift_value}
use wave_flow.Gateway.Eligibility.{later, active_status, renamed_value, IsDue}
use wave_flow.Shared.Types.{GitHubPullRequestEvent}

module _ {J : Type 0} (server : Server J) (reliable : IsReliable server) (json : Json J)
    (config : AppConfig) (db : Db J) (turn : ℕ) (merge : MergeAttestation) (program : ProgramRow)
    (contributor : ContributorRow) (pr_number amount : ℤ) (hash : Message)
    (due : IsDue server config db turn merge program contributor pr_number amount hash)
    (event : GitHubPullRequestEvent) (merged : parse_merge_event event ≡ ok merge) (payload : J)
    (d : Option Text) where
  abbrev new : PayoutRow
  new =
      payout_row server (later 5 turn) program.id merge contributor.stellar_address pr_number amount
        hash

  abbrev spent : Db J
  spent = with_spent amount program.id (with_payout new db)

  -- What is left of `process_merge` then.
  abbrev finish : Query J Reply
  finish =
      persist_webhook_event server d (codes "pull_request") merge.github_repo (some merge.pr_number)
        payload (codes "processed") none
      >> lift (ok (processed (server.new_v4 (later 5 turn)) hash program.id))

  pay_merge_runs :
      pay_merge server json config merge payload d program.id contributor.stellar_address hash
        (at db (later 4 turn))
      ≡ finish (at spent (later 7 turn))
  unfolding pay_merge
  pay_merge_runs =
      let total = pos merge.points *ℤ program.reward_per_point in
      bind_value (load_reward_per_point server program.id) _ (at db (later 4 turn))
        (at db (later 5 turn)) program.reward_per_point
        (load_reward_per_point_runs server reliable program.id db (later 4 turn) program due.once)
      ∙ bind_value (persist_payout server program.id merge contributor.stellar_address total hash) _
          (at db (later 5 turn)) (at (with_payout new db) (later 6 turn))
          (server.new_v4 (later 5 turn))
          (persist_payout_runs server reliable program.id merge contributor.stellar_address total
            pr_number amount hash db (later 5 turn) due.total due.numbered due.payout_fresh)
      ∙ then_value (increment_milestone_spent server program.id total) _
          (at (with_payout new db) (later 6 turn)) (at spent (later 7 turn)) tt
          (increment_runs server reliable program.id total amount (with_payout new db)
            (later 6 turn) due.total due.counters_fit)

  attest_merge_runs :
      attest_merge server json config merge payload d program.id
        (as_u64 program.on_chain_program_id)
        (at db (later 3 turn))
      ≡ finish (at spent (later 7 turn))
  unfolding attest_merge
  attest_merge_runs =
      bind_value
        (renamed merge program.id
          (resolve_contributor_address server program.id merge.github_username))
        _ (at db (later 3 turn)) (at db (later 4 turn)) contributor.stellar_address
        (renamed_value merge program.id
          (resolve_contributor_address server program.id merge.github_username)
          (at db (later 3 turn)) (at db (later 4 turn)) contributor.stellar_address
          (resolve_contributor_address_runs server reliable program.id merge.github_username db
            (later 3 turn) contributor due.registered))
      ∙ lift_bind _ _ (at db (later 4 turn)) hash due.transaction
      ∙ pay_merge_runs

  pub process_merge_runs :
      process_merge server json config event payload d (at db turn)
      ≡ finish (at spent (later 7 turn))
  unfolding process_merge
  process_merge_runs =
      lift_bind _ _ (at db turn) merge merged
      ∙ bind_value (resolve_program_id server merge.github_repo) _ (at db turn)
          (at db (later 1 turn)) (program.id, as_u64 program.on_chain_program_id)
          (resolve_program_id_runs server reliable merge.github_repo db turn program due.active)
      ∙ bind_value (load_program_status server program.id) _ (at db (later 1 turn))
          (at db (later 2 turn)) program.status
          (load_program_status_runs server reliable program.id db (later 1 turn) program due.once)
      ∙ then_value (lift (fail_if (same program.status (codes "paused")) _)) _
          (at db (later 2 turn)) (at db (later 2 turn)) tt
          (lift_value _ _ ∙ rw (active_status merge.github_repo db program due.active) refl)
      ∙ bind_value (payout_exists server program.id merge.pr_number) _ (at db (later 2 turn))
          (at db (later 3 turn)) false
          (payout_exists_runs server reliable program.id merge.pr_number db (later 2 turn) none
            due.unpaid)
      ∙ attest_merge_runs
