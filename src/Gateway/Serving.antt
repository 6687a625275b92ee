-- ===== src/Gateway/Serving.antt =====
-- crates/gateway/src/routes.rs: what the processing of a merge keeps true of the database, and the replies
-- it can give, whatever becomes of each statement.
use wave_flow.Gateway.Routes.{Reply, processed, attest_merge, pay_merge, process_merge}
use wave_flow.Database.Tables.{Db, Server}
use wave_flow.Gateway.Invariants.{
  load_reward_per_point-Keeps, resolve_contributor_address-Keeps, persist_payout-Keeps,
  resolve_program_id-Keeps, load_program_status-Keeps, increment_milestone_spent-Keeps,
  payout_exists-Keeps, fetch_payout_id-Keeps,
}
use wave_flow.Gateway.Attestation.{Json, persist_webhook_event}
use wave_flow.Shared.Config.{AppConfig}
use wave_flow.Common.{none, Option, ℕ, some}
use wave_flow.Common.Text.{Text, codes}
use wave_flow.Shared.Error.{Message}
use wave_flow.Database.Triples.{
  Keeps, Any, bind-Keeps, lift-Keeps, then-Keeps, return-Keeps, IsQuiet, if-Keeps,
}
use wave_flow.Shared.Types.{Uuid, GitHubPullRequestEvent}
use wave_flow.Gateway.Webhook.{MergeAttestation}
use wave_flow.Database.Writes.{IsStable}
use wave_flow.Gateway.Handling.{NotProcessed}
use wave_flow.Gateway.Reads.{renamed-Keeps}

module _ {J : Type 0} {P : Db J → Type 0} {R : Reply → Type 0} (stable : IsStable P)
    (server : Server J) (quiet : IsQuiet server P) (json : Json J) (config : AppConfig)
    (delivery : Option Text) (others : (r : Reply) → NotProcessed r → R r)
    (paid : (event_type repo : Text) (n : Option ℕ) (payload : J) (status : Text)
        (error : Option Message)
      → Keeps P
          (persist_webhook_event server delivery event_type repo n payload status error)
          (λ _. (o : Uuid) (m : Message) (id : Uuid) → R (processed o m id))) where
  pay_merge-Keeps :
      (merge : MergeAttestation) (payload : J) (id : Uuid) (address : Text) (hash : Message)
      → Keeps P (pay_merge server json config merge payload delivery id address hash) R
  unfolding pay_merge
  pay_merge-Keeps merge payload id address hash =
      bind-Keeps (load_reward_per_point-Keeps server quiet id) (λ r _.
        bind-Keeps (persist_payout-Keeps stable server quiet id merge address _ hash) (λ o _.
          then-Keeps (increment_milestone_spent-Keeps stable server quiet id _) (λ _ _.
            then-Keeps
              (paid (codes "pull_request") merge.github_repo (some merge.pr_number) payload
                (codes "processed") none)
              (λ _ h. return-Keeps _ (h o hash id)))))

  attest_merge-Keeps :
      (merge : MergeAttestation) (payload : J) (id : Uuid) (on_chain : ℕ)
      → Keeps P (attest_merge server json config merge payload delivery id on_chain) R
  unfolding attest_merge
  attest_merge-Keeps merge payload id on_chain =
      bind-Keeps
        (renamed-Keeps {P = P} {Q = Any} merge id _
          (resolve_contributor_address-Keeps server quiet id merge.github_username))
        (λ address _.
          bind-Keeps (lift-Keeps {R = Any} _ (λ _ _. tt))
            (λ hash _. pay_merge-Keeps merge payload id address hash))

  pub process_merge-Keeps :
      (event : GitHubPullRequestEvent) (payload : J)
      → Keeps P (process_merge server json config event payload delivery) R
  unfolding process_merge
  process_merge-Keeps event payload = bind-Keeps (lift-Keeps {R = Any} _ (λ _ _. tt)) (λ merge _.
      bind-Keeps (resolve_program_id-Keeps server quiet merge.github_repo) (λ found _.
        bind-Keeps (load_program_status-Keeps server quiet found.0) (λ status _.
          then-Keeps (lift-Keeps {R = Any} _ (λ _ _. tt)) (λ _ _.
            bind-Keeps (payout_exists-Keeps server quiet found.0 merge.pr_number) (λ exists _.
              if-Keeps exists
                (bind-Keeps (fetch_payout_id-Keeps server quiet found.0 merge.pr_number)
                  (λ o _. return-Keeps _ (others _ tt)))
                (attest_merge-Keeps merge payload found.0 found.1))))))
