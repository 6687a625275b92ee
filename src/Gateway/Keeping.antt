-- ===== src/Gateway/Keeping.antt =====
-- crates/gateway/src/routes.rs: what the handler of deliveries keeps true of the database.
use wave_flow.Common.{[], Option, some, unwrap_or, Bool-cases, inl, inr, none, ℕ, ◌≡◌, refl}
use wave_flow.Database.Tables.{Db, Server, World}
use wave_flow.Gateway.Invariants.{
  delivery_id_seen-Keeps, persist_webhook_event-Keeps, claim_delivery_id-Keeps,
}
use wave_flow.Gateway.Attestation.{Json, delivery_id_seen, claim_delivery_id, persist_webhook_event}
use wave_flow.Shared.Config.{AppConfig}
use wave_flow.Common.Text.{Text, codes}
use wave_flow.Gateway.Routes.{
  accept, claimed, github_webhook, verified, Delivery, handle_payload, seen_or_false, as_bytes,
  process_merge,
}
use wave_flow.Gateway.Webhook.{Primitives, verify_github_signature}
use wave_flow.Shared.Error.{Message, WaveFlowResult, ok, err}
use wave_flow.Database.Triples.{Any, weaken-Keeps, IsQuiet, end-Keeps, Keeps}
use wave_flow.Gateway.Handling.{handle_payload-Served}
use wave_flow.Database.Writes.{IsStable}
use wave_flow.Gateway.Serving.{process_merge-Keeps}
use wave_flow.Shared.Types.{GitHubPullRequestEvent}

module _ {J : Type 0} {P : Db J → Type 0} (server : Server J) (quiet : IsQuiet server P)
    (json : Json J) (config : AppConfig)
    (logs : (delivery : Option Text) (event_type repo : Text) (n : Option ℕ) (payload : J)
        (status : Text) (error : Option Message)
      → Keeps P (persist_webhook_event server delivery event_type repo n payload status error) Any)
    (claims : (d event_type : Text) → Keeps P (claim_delivery_id server json d event_type) Any)
    (k : Primitives) (request : Delivery)
    (process : (payload : J) (event : GitHubPullRequestEvent) (delivery : Option Text)
      → verify_github_signature k
          (as_bytes config.github_webhook_secret)
          request.body
          (unwrap_or [] request.signature)
        ≡ ok tt
      → json.from_slice request.body ≡ inr payload
      → json.from_value payload ≡ inr event
      → Keeps P (process_merge server json config event payload delivery) Any) where
  -- The signature of the delivery has been accepted.
  abbrev IsAccepted : Type 0
  IsAccepted =
      verify_github_signature k (as_bytes config.github_webhook_secret) request.body
        (unwrap_or [] request.signature)
      ≡ ok tt

  handle_payload-kept :
      (event_type : Text) (delivery : Option Text) (w : World J)
      → IsAccepted
      → P w.db
      → P (
          (handle_payload server json config event_type delivery
            (json.from_slice request.body)
            w).1.db)
  handle_payload-kept event_type delivery w accepted p =
      (handle_payload-Served {R = Any} server json config delivery request.body (λ _ _. tt)
        (logs delivery) (λ payload event. process payload event delivery accepted) event_type
        (json.from_slice request.body) w refl p).0

  claimed-kept :
      (d event_type : Text) (x : WaveFlowResult (Unit {0}) × World J)
      → IsAccepted
      → P (x.1.db)
      → P ((claimed server json config event_type d request.body x).1.db)
  unfolding claimed
  claimed-kept d event_type (ok _, w) accepted p =
      handle_payload-kept event_type (some d) w accepted p
  claimed-kept d event_type (err e, w) accepted p = p

  accept-kept :
      (event_type : Text) (delivery : Option Text) (w : World J)
      → IsAccepted
      → P w.db
      → P ((accept server json config event_type delivery request.body w).1.db)
  unfolding accept
  accept-kept event_type none w accepted p = handle_payload-kept event_type none w accepted p
  accept-kept event_type (some d) w accepted p =
      let w' = (delivery_id_seen server d w).1 in
      let p' = end-Keeps (delivery_id_seen-Keeps server quiet d) w p in
      elim (Bool-cases (seen_or_false ((delivery_id_seen server d w).0))) [
        | inl s ↦ rw s p'
        | inr s ↦ rw s (
            claimed-kept d event_type (claim_delivery_id server json d event_type w') accepted
              (end-Keeps (claims d event_type) w' p'))
      ]

  -- A property that the audit rows, the claim of an id, the processing of a merge and the other
  -- requests keep.
  pub github_webhook-guarded :
      (w : World J) → P w.db → P ((github_webhook server json config k request w).1.db)
  unfolding github_webhook verified
  github_webhook-guarded w p = go _ refl
    where
      go :
          (x : WaveFlowResult (Unit {0}))
          → verify_github_signature k
              (as_bytes config.github_webhook_secret)
              request.body
              (unwrap_or [] request.signature)
            ≡ x
          → P ((verified server json config request x w).1.db)
      go (ok tt) e = accept-kept (unwrap_or (codes "unknown") request.event) request.delivery w e p
      go (err e) _ = end-Keeps (logs _ _ _ _ _ _ _) w p

module _ {J : Type 0} {P : Db J → Type 0} (stable : IsStable P) (server : Server J)
    (quiet : IsQuiet server P) (json : Json J) (config : AppConfig) where
  -- Every property that the writes and the other requests keep.
  pub github_webhook-kept :
      (k : Primitives) (request : Delivery) (w : World J)
      → P w.db
      → P ((github_webhook server json config k request w).1.db)
  github_webhook-kept k request w p =
      github_webhook-guarded server quiet json config
        (persist_webhook_event-Keeps stable server quiet)
        (claim_delivery_id-Keeps stable server quiet json) k request
        (λ payload event delivery _ _ _.
          process_merge-Keeps stable server quiet json config delivery (λ _ _. tt)
            (λ event repo n payload status error.
              weaken-Keeps
                (persist_webhook_event-Keeps stable server quiet delivery event repo n payload
                  status error)
                (λ _ _ _ _ _. tt))
            event payload)
        w p
