-- ===== src/Api/Outside.antt =====
-- crates/api/src/main.rs: what a request to the service can change, by its route and its key.
use wave_flow.Database.Tables.{Db, Server, World}
use wave_flow.Api.Service.{
  app, public_router, respond, ApiRequest, Body, admin_router, admin_request, public_request,
  id_body, PublicRequest, status_body, programs_body, into_response, get_program_request,
  ratio_body, program_body, list_payouts_request, payouts_body, registered_body,
  list_contributors_request, contributors_body, health_request, ready_request,
  list_programs_request,
}
use wave_flow.Database.Writes.{IsStable}
use wave_flow.Shared.Config.{AppConfig}
use wave_flow.Common.{ℕ, some}
use wave_flow.Api.Health.{health, ready}
use wave_flow.Database.Triples.{
  IsQuiet, Keeps, Any, bind-Keeps, end-Keeps, select-Keeps, lift-Keeps, then-Keeps,
}
use wave_flow.Common.Text.{Text, codes}
use wave_flow.Database.Statements.{Query, database_error}
use wave_flow.Gateway.Probes.{ping, ping-kept}
use wave_flow.Api.Public.{get_program}
use wave_flow.Api.Requests.{
  AdminRequest, create_program_request, create_program-Keeps, pause_program_request,
  pause_program-Keeps, resume_program_request, resume_program-Keeps, update_ratio_request,
  update_ratio-Keeps, register_contributor_request, register_contributor-Keeps,
}
use wave_flow.Api.Listing.{list_programs, list_payouts, list_contributors}
use wave_flow.Api.Gate.{require_admin_key-Gate, unconfigured, turned_away, let_through}
use wave_flow.Shared.Error.{WaveFlowResult, ok, err}
use wave_flow.Api.Middleware.{Answer}

module _ {J : Type 0} {P : Db J → Type 0} where
  respond-kept :
      {A : Type 0} (status : ℕ) (f : A → Body) (m : Query J A) (w : World J)
      → Keeps P m Any
      → P w.db
      → P ((respond status f m w).1.db)
  unfolding respond
  respond-kept {A} status f m w h p = go (m w) (end-Keeps h w p)
    where
      go :
          (x : WaveFlowResult A × World J)
          → P ((x.1).db)
          → P (
              (elim (x.0) as (λ _. Answer Body × World J) [
                | ok a ↦ (record { status = status; body = some (f a) }, x.1)
                | err e ↦ (into_response e, x.1)
              ]).1.db)
      go (ok a, w) q = q
      go (err e, w) q = q

module _ {J : Type 0} (server : Server J) where
  -- A property of the tables that the other requests keep, a request to a public route keeps too.
  public_router-kept :
      (P : Db J → Type 0) (cfg : AppConfig) (r : PublicRequest) (w : World J)
      → IsQuiet server P
      → P w.db
      → P ((public_router server cfg r w).1.db)
  unfolding public_router health ready ping get_program list_programs list_payouts list_contributors
  public_router-kept P cfg health_request w quiet p = ping-kept server P quiet w p
  public_router-kept P cfg ready_request w quiet p = ping-kept server P quiet w p
  public_router-kept P cfg list_programs_request w quiet p =
      respond-kept 200 programs_body _ w
        (bind-Keeps (select-Keeps server quiet _ database_error) (λ _ _. lift-Keeps _ (λ _ _. tt)))
        p
  public_router-kept P cfg (get_program_request id) w quiet p =
      respond-kept 200 program_body _ w
        (bind-Keeps (select-Keeps server quiet _ database_error) (λ _ _.
          bind-Keeps (lift-Keeps {R = Any} _ (λ _ _. tt)) (λ _ _. lift-Keeps _ (λ _ _. tt))))
        p
  public_router-kept P cfg (list_payouts_request id) w quiet p =
      respond-kept 200 payouts_body _ w
        (bind-Keeps (select-Keeps server quiet _ database_error) (λ _ _. lift-Keeps _ (λ _ _. tt)))
        p
  public_router-kept P cfg (list_contributors_request id) w quiet p =
      respond-kept 200 contributors_body _ w
        (bind-Keeps (select-Keeps server quiet _ database_error) (λ _ _.
          then-Keeps (lift-Keeps {R = Any} _ (λ _ _. tt)) (λ _ _.
            bind-Keeps (select-Keeps server quiet _ database_error)
              (λ _ _. lift-Keeps _ (λ _ _. tt)))))
        p

module _ {J : Type 0} {P : Db J → Type 0} (stable : IsStable P) (server : Server J)
    (quiet : IsQuiet server P) where
  admin_router-kept : (r : AdminRequest) (w : World J) → P w.db → P ((admin_router server r w).1.db)
  unfolding admin_router
  admin_router-kept (create_program_request body) w p =
      respond-kept 201 id_body _ w (create_program-Keeps stable server quiet body) p
  admin_router-kept (pause_program_request id) w p =
      respond-kept 200 (λ id. status_body id (codes "paused")) _ w
        (pause_program-Keeps stable server quiet id) p
  admin_router-kept (resume_program_request id) w p =
      respond-kept 200 (λ id. status_body id (codes "active")) _ w
        (resume_program-Keeps stable server quiet id) p
  admin_router-kept (update_ratio_request id ratio) w p =
      respond-kept 200 (λ r. ratio_body r.0 r.1) _ w
        (update_ratio-Keeps stable server quiet id ratio) p
  admin_router-kept (register_contributor_request body) w p =
      respond-kept 201 registered_body _ w (register_contributor-Keeps stable server quiet body) p

  pub app-kept :
      (cfg : AppConfig) (r : ApiRequest) (w : World J) → P w.db → P ((app server cfg r w).1.db)
  unfolding app
  app-kept cfg (public_request r) w p = public_router-kept server P cfg r w quiet p
  app-kept cfg (admin_request api_key r) w p =
      elim (require_admin_key-Gate cfg.api_admin_keys api_key (admin_router server r) w) [
        | unconfigured _ e ↦ rw e p
        | turned_away _ _ e ↦ rw e p
        | let_through _ _ _ e ↦ rw e (admin_router-kept r w p)
      ]
