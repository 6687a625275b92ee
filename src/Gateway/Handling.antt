-- ===== src/Gateway/Handling.antt =====
-- crates/gateway/src/routes.rs: what the handler keeps from the reading of the body on, given what the
-- processing of a merge and the audit rows keep.
use wave_flow.Gateway.Routes.{
  Reply, processed, Response, process_merge, after, conclude, handle_payload, log_failure,
  map_error, is_validation, handle_event, ok_response, ignored,
}
use wave_flow.Database.Tables.{Db, Server, World}
use wave_flow.Gateway.Attestation.{Json, persist_webhook_event}
use wave_flow.Shared.Config.{AppConfig}
use wave_flow.Common.{none, Option, ℕ, some, Bool-cases, inl, inr, ◌⊎◌, ◌≡◌, refl}
use wave_flow.Common.Text.{Text, codes, same}
use wave_flow.Shared.Error.{Message, WaveFlowResult, ok, err, WaveFlowError, message, to_string}
use wave_flow.Database.Triples.{Keeps, Any, Safe, end-Keeps}
use wave_flow.Shared.Types.{GitHubPullRequestEvent}
use wave_flow.Gateway.Webhook.{Bytes}
use wave_flow.Database.Statements.{Query}

-- Every reply but the one to a merge that was paid now.
abbrev pub NotProcessed : Reply → Type 0
NotProcessed (processed _ _ _) = ⊥
NotProcessed _ = Unit

module _ {J : Type 0} {P : Db J → Type 0} {R : Reply → Type 0} (server : Server J) (json : Json J)
    (config : AppConfig) (delivery : Option Text) (body : Bytes)
    (others : (r : Reply) → NotProcessed r → R r)
    (logs : (event_type repo : Text) (n : Option ℕ) (payload : J) (status : Text)
        (error : Option Message)
      → Keeps P (persist_webhook_event server delivery event_type repo n payload status error) Any)
    (process : (payload : J) (event : GitHubPullRequestEvent)
      → json.from_slice body ≡ inr payload
      → json.from_value payload ≡ inr event
      → Keeps P (process_merge server json config event payload delivery) R) where
  -- What an answer of the handler satisfies.
  abbrev pub Served : Response × World J → Type 0
  Served (r, w) = P w.db × R r.reply

  after-Served :
      {A : Type 0} (m : Query J A) (r : Response) (w : World J)
      → Keeps P m Any
      → P w.db
      → R r.reply
      → Served (after server json config m r w)
  after-Served m r w h p q = (end-Keeps h w p, q)

  log_failure-Keeps :
      (payload : J) (event_type status : Text) (e : WaveFlowError)
      → Keeps P (log_failure server json config payload delivery event_type status e) Any
  unfolding log_failure
  log_failure-Keeps payload event_type status e = logs event_type _ _ payload status _

  conclude-Served :
      (payload : J) (event_type : Text) (x : WaveFlowResult Reply × World J)
      → Safe P R x
      → Served (conclude server json config payload delivery event_type x.0 x.1)
  unfolding conclude map_error
  conclude-Served payload event_type (ok r, w) h = h
  conclude-Served payload event_type (err e, w) p = elim (Bool-cases (is_validation e)) [
    | inl v ↦ rw v (
        after-Served
          (log_failure server json config payload delivery event_type (codes "ignored") e)
          (ok_response (ignored (some (to_string e)))) w
          (log_failure-Keeps payload event_type (codes "ignored") e) p (others _ tt))
    | inr v ↦ rw v (
        after-Served (log_failure server json config payload delivery event_type (codes "failed") e)
          (map_error e) w (log_failure-Keeps payload event_type (codes "failed") e) p (others _ tt))
  ]

  handle_event-Served :
      (payload : J) (event_type : Text) (x : Message ⊎ GitHubPullRequestEvent) (w : World J)
      → json.from_slice body ≡ inr payload
      → json.from_value payload ≡ x
      → P w.db
      → Served (handle_event server json config payload event_type delivery x w)
  unfolding handle_event map_error
  handle_event-Served payload event_type (inl e) w read made p = (p, others _ tt)
  handle_event-Served payload event_type (inr event) w read made p =
      conclude-Served payload event_type (process_merge server json config event payload delivery w)
        ((process payload event read made).keeps w p)

  pub handle_payload-Served :
      (event_type : Text) (x : Message ⊎ J) (w : World J)
      → json.from_slice body ≡ x
      → P w.db
      → Served (handle_payload server json config event_type delivery x w)
  unfolding handle_payload map_error
  handle_payload-Served event_type (inl e) w read p = (p, others _ tt)
  handle_payload-Served event_type (inr payload) w read p =
      elim (Bool-cases (same event_type (codes "pull_request"))) [
        | inl s ↦
            rw s (handle_event-Served payload event_type (json.from_value payload) w read refl p)
        | inr s ↦ rw s (
            after-Served
              (persist_webhook_event server delivery event_type (codes "unknown") none payload
                (codes "ignored") (some (message "unsupported event type")))
              (ok_response (ignored none)) w
              (logs event_type (codes "unknown") none payload (codes "ignored")
                (some (message "unsupported event type")))
              p (others _ tt))
      ]
