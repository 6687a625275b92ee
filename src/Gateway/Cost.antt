-- ===== src/Gateway/Cost.antt =====
-- crates/gateway/src/routes.rs: how many statements a delivery can send.
use wave_flow.Database.Tables.{Server, World}
use wave_flow.Gateway.Attestation.{Json, claim_delivery_id, delivery_id_seen}
use wave_flow.Gateway.Webhook.{MergeAttestation, Bytes, Primitives}
use wave_flow.Common.Text.{Text, codes, same}
use wave_flow.Shared.Types.{Uuid, GitHubPullRequestEvent}
use wave_flow.Common.{Option, ℕ, arith, ◌≤◌, ◌⊎◌, inl, some, ◌+◌, Bool-cases, inr, unwrap_or, none}
use wave_flow.Shared.Config.{AppConfig}
use wave_flow.Database.Turns.{Sends, bind-Sends, lift-Sends, then-Sends, if-Sends, weaken-Sends}
use wave_flow.Gateway.Routes.{
  accept, attest_merge, claimed, conclude, github_webhook, handle_event, handle_payload, pay_merge,
  process_merge, verified, Delivery, log_failure, Response, Reply, is_validation, seen_or_false,
  value_or_raw,
}
use wave_flow.Shared.Error.{Message, WaveFlowResult, ok, err, message}
use wave_flow.Gateway.QueryCost.{
  delivery_id_seen-Sends, load_reward_per_point-Sends, persist_webhook_event-Sends, renamed-Sends,
  resolve_program_id-Sends, claim_delivery_id-Sends, load_program_status-Sends,
  persist_payout-Sends, resolve_contributor_address-Sends, increment_milestone_spent-Sends,
  payout_exists-Sends, fetch_payout_id-Sends,
}

module _ {J : Type 0} (server : Server J) (json : Json J) (config : AppConfig) where
  pay_merge-Sends :
      (merge : MergeAttestation) (payload : J) (d : Option Text) (id : Uuid) (address : Text)
      (hash : Message)
      → Sends 4 (pay_merge server json config merge payload d id address hash)
  unfolding pay_merge
  pay_merge-Sends merge payload d id address hash =
      bind-Sends 1 3 (load_reward_per_point-Sends server id) (λ r.
        bind-Sends 1 2 (persist_payout-Sends server id merge address _ hash) (λ o.
          then-Sends 1 1 (increment_milestone_spent-Sends server id _)
            (then-Sends 1 0 (persist_webhook_event-Sends server _ _ _ _ _ _ _) (lift-Sends _))))

  attest_merge-Sends :
      (merge : MergeAttestation) (payload : J) (d : Option Text) (id : Uuid) (on_chain : ℕ)
      → Sends 5 (attest_merge server json config merge payload d id on_chain)
  unfolding attest_merge
  attest_merge-Sends merge payload d id on_chain =
      bind-Sends 1 4
        (renamed-Sends server merge id 1 _
          (resolve_contributor_address-Sends server id merge.github_username))
        (λ address.
          bind-Sends 0 4 (lift-Sends _) (λ hash. pay_merge-Sends merge payload d id address hash))

  process_merge-Sends :
      (event : GitHubPullRequestEvent) (payload : J) (d : Option Text)
      → Sends 8 (process_merge server json config event payload d)
  unfolding process_merge
  process_merge-Sends event payload d = bind-Sends 0 8 (lift-Sends _) (λ merge.
      bind-Sends 1 7 (resolve_program_id-Sends server merge.github_repo) (λ found.
        bind-Sends 1 6 (load_program_status-Sends server found.0) (λ status.
          then-Sends 0 6 (lift-Sends _) (
            bind-Sends 1 5 (payout_exists-Sends server found.0 merge.pr_number) (λ exists.
              if-Sends exists 5
                (weaken-Sends 1 5 (omega arith) (
                  bind-Sends 1 0 (fetch_payout_id-Sends server found.0 merge.pr_number)
                    (λ o. lift-Sends _)))
                (attest_merge-Sends merge payload d found.0 found.1))))))

  -- The statements of a handler that has its answer.
  abbrev Within : ℕ → World J → Response × World J → Type 0
  Within n w r = (r.1).turn ≤ w.turn + n

  conclude-Within :
      (payload : J) (d : Option Text) (event_type : Text) (x : WaveFlowResult Reply) (v : World J)
      → Within 1 v (conclude server json config payload d event_type x v)
  unfolding conclude log_failure
  conclude-Within payload d event_type (ok r) v = omega arith
  conclude-Within payload d event_type (err e) v = elim (Bool-cases (is_validation e)) [
    | inl s ↦ rw s ((persist_webhook_event-Sends server _ _ _ _ _ _ _).sends v)
    | inr s ↦ rw s ((persist_webhook_event-Sends server _ _ _ _ _ _ _).sends v)
  ]

  handle_event-Within :
      (payload : J) (event_type : Text) (d : Option Text) (x : Message ⊎ GitHubPullRequestEvent)
      (w : World J)
      → Within 9 w (handle_event server json config payload event_type d x w)
  unfolding handle_event
  handle_event-Within payload event_type d (inl e) w = omega arith
  handle_event-Within payload event_type d (inr event) w =
      let worked = (process_merge-Sends event payload d).sends w in
      let answered =
        conclude-Within payload d event_type
          ((process_merge server json config event payload d w).0)
          ((process_merge server json config event payload d w).1) in
      omega (arith, worked, answered)

  handle_payload-Within :
      (event_type : Text) (d : Option Text) (x : Message ⊎ J) (w : World J)
      → Within 9 w (handle_payload server json config event_type d x w)
  unfolding handle_payload
  handle_payload-Within event_type d (inl e) w = omega arith
  handle_payload-Within event_type d (inr payload) w =
      elim (Bool-cases (same event_type (codes "pull_request"))) [
        | inl s ↦ rw s (handle_event-Within payload event_type d (json.from_value payload) w)
        | inr s ↦ rw s (
            let logged =
              (persist_webhook_event-Sends server d event_type (codes "unknown") none payload
                  (codes "ignored") (some (message "unsupported event type"))).sends
                w in
            omega (arith, logged))
      ]

  claimed-Within :
      (event_type d : Text) (body : Bytes) (x : WaveFlowResult (Unit {0})) (w : World J)
      → Within 9 w (claimed server json config event_type d body (x, w))
  unfolding claimed
  claimed-Within event_type d body (ok _) w =
      handle_payload-Within event_type (some d) (json.from_slice body) w
  claimed-Within event_type d body (err e) w = omega arith

  accept-Within :
      (event_type : Text) (d : Option Text) (body : Bytes) (w : World J)
      → Within 11 w (accept server json config event_type d body w)
  unfolding accept
  accept-Within event_type none body w =
      let h = handle_payload-Within event_type none (json.from_slice body) w in omega (arith, h)
  accept-Within event_type (some d) body w =
      let w' = (delivery_id_seen server d w).1 in
      let looked = (delivery_id_seen-Sends server d).sends w in
      let claim = claim_delivery_id server json d event_type w' in
      let taken = (claim_delivery_id-Sends server json d event_type).sends w' in
      let handled = claimed-Within event_type d body (claim.0) (claim.1) in
      elim (Bool-cases (seen_or_false ((delivery_id_seen server d w).0))) [
        | inl s ↦ rw s (omega (arith, looked))
        | inr s ↦ rw s (omega (arith, looked, taken, handled))
      ]

  verified-Within :
      (request : Delivery) (x : WaveFlowResult (Unit {0})) (w : World J)
      → Within 11 w (verified server json config request x w)
  unfolding verified
  verified-Within request (ok _) w =
      accept-Within (unwrap_or (codes "unknown") request.event) request.delivery request.body w
  verified-Within request (err e) w =
      let logged =
        (persist_webhook_event-Sends server request.delivery
            (unwrap_or (codes "unknown") request.event) (codes "unknown") none
            (value_or_raw (json.from_slice request.body) (json.raw request.body)) (codes "rejected")
            (some (message "invalid webhook signature"))).sends
          w in
      omega (arith, logged)

  -- A delivery sends eleven statements at most, whatever becomes of each of them and whatever the database
  -- holds.
  pub github_webhook-Within :
      (k : Primitives) (request : Delivery) (w : World J)
      → (github_webhook server json config k request w).1.turn ≤ w.turn + 11
  unfolding github_webhook
  github_webhook-Within k request w = verified-Within request _ w
