-- ===== src/Api/Service.antt =====
-- crates/api/src/main.rs: the routes of the service, and the answers of crates/api/src/routes.
use wave_flow.Shared.Error.{Message, WaveFlowError, http_status_code, ok, err, to_string}
use wave_flow.Common.{Option, ℕ, List, some, unwrap_or, none}
use wave_flow.Api.Health.{Health, health, ready}
use wave_flow.Shared.Types.{Uuid, ProgramRecord, PayoutRecord, ContributorRecord}
use wave_flow.Database.Tables.{Server, World}
use wave_flow.Shared.Config.{AppConfig, parse_u16}
use wave_flow.Api.Middleware.{Answer, require_admin_key}
use wave_flow.Database.Statements.{Query}
use wave_flow.Common.Text.{Text, codes}
use wave_flow.Api.Requests.{
  AdminRequest, create_program_request, pause_program_request, resume_program_request,
  update_ratio_request, register_contributor_request,
}
use wave_flow.Api.Admin.{
  create_program, RegisterContributorResponse, pause_program, resume_program, update_ratio,
  register_contributor,
}
use wave_flow.Api.Listing.{list_programs, list_payouts, list_contributors}
use wave_flow.Common.Int.{ℤ}
use wave_flow.Api.Public.{get_program}

-- The bodies of the answers.
pub data Body : Type 0 where
  failure : Message → Body
  probe_body : Health → Body
  programs_body : List ProgramRecord → Body
  program_body : ProgramRecord → Body
  payouts_body : List PayoutRecord → Body
  contributors_body : List ContributorRecord → Body
  id_body : Uuid → Body
  status_body : Uuid → Text → Body
  ratio_body : Uuid → ℤ → Body
  registered_body : RegisterContributorResponse → Body

-- `ApiError::into_response`
unfoldable pub into_response : WaveFlowError → Answer Body
into_response e = record { status = http_status_code e; body = some (failure (to_string e)) }

-- What axum makes of the result of a handler.
unfoldable pub respond :
    {J A : Type 0} → ℕ → (A → Body) → Query J A → World J → Answer Body × World J
respond status f m w =
    let (r, w') = m w in
    elim r [
      | ok a ↦ (record { status = status; body = some (f a) }, w')
      | err e ↦ (into_response e, w')
    ]

abbrev probe_answer : {J : Type 0} → Health × World J → Answer Body × World J
probe_answer (h, w) = (record { status = h.status; body = some (probe_body h) }, w)

-- A request to one of the routes that need no key.
pub data PublicRequest : Type 0 where
  health_request : PublicRequest
  ready_request : PublicRequest
  list_programs_request : PublicRequest
  get_program_request : Uuid → PublicRequest
  list_payouts_request : Uuid → PublicRequest
  list_contributors_request : Uuid → PublicRequest

-- A request to the service. An admin request comes with its header x-api-key.
pub data ApiRequest : Type 0 where
  public_request : PublicRequest → ApiRequest
  admin_request : Option Text → AdminRequest → ApiRequest

module _ {J : Type 0} (server : Server J) where
  unfoldable pub public_router : AppConfig → PublicRequest → World J → Answer Body × World J
  public_router cfg health_request w = probe_answer (health server w)
  public_router cfg ready_request w = probe_answer (ready server cfg w)
  public_router cfg list_programs_request w = respond 200 programs_body (list_programs server) w
  public_router cfg (get_program_request id) w = respond 200 program_body (get_program server id) w
  public_router cfg (list_payouts_request id) w =
      respond 200 payouts_body (list_payouts server id) w
  public_router cfg (list_contributors_request id) w =
      respond 200 contributors_body (list_contributors server id) w

  unfoldable pub admin_router : AdminRequest → World J → Answer Body × World J
  admin_router (create_program_request body) w = respond 201 id_body (create_program server body) w
  admin_router (pause_program_request id) w =
      respond 200 (λ id. status_body id (codes "paused")) (pause_program server id) w
  admin_router (resume_program_request id) w =
      respond 200 (λ id. status_body id (codes "active")) (resume_program server id) w
  admin_router (update_ratio_request id ratio) w =
      respond 200 (λ r. ratio_body r.0 r.1) (update_ratio server id ratio) w
  admin_router (register_contributor_request body) w =
      respond 201 registered_body (register_contributor server body) w

  -- The routes of both routers, the admin routes behind the check of the key.
  unfoldable pub app : AppConfig → ApiRequest → World J → Answer Body × World J
  app cfg (public_request r) w = public_router cfg r w
  app cfg (admin_request api_key r) w =
      require_admin_key cfg.api_admin_keys api_key (admin_router r) w

-- `std::env::var("PORT").ok().and_then(|p| p.parse().ok()).unwrap_or(config.api_port)`
unfoldable pub listen_port : AppConfig → Option Text → ℕ
listen_port cfg none = cfg.api_port
listen_port cfg (some p) = unwrap_or cfg.api_port (parse_u16 p)
