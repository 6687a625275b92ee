-- ===== src/Services/Guarantee.antt =====
-- crates/gateway/src/routes.rs and crates/api/src/main.rs: every request to either service, and what each
use wave_flow.Gateway.Routes.{Delivery, github_webhook}
use wave_flow.Database.Tables.{
  Db, ProgramRow, Server, PayoutRow, World, WebhookEvent, ContributorRow,
}
use wave_flow.Api.Service.{ApiRequest, app}
use wave_flow.Gateway.Attestation.{Json}
use wave_flow.Database.Writes.{
  IsHarmless, IsStable, IsPeaceful, Write, wrote_payout, Writes, Writes-IsStable, wrote_event,
  stable-IsQuiet, unwritten, wrote_contributor, wrote_program, changed_programs,
}
use wave_flow.Common.{List, map, ◌≡◌, ◌++◌, ◌∷◌, [], ap, refl, ◌∙◌}
use wave_flow.Shared.Config.{AppConfig}
use wave_flow.Gateway.Webhook.{Primitives}
use wave_flow.Gateway.Probes.{health, ready, ping-kept}
use wave_flow.Services.Sound.{IsSound, IsSound-IsStable}
use wave_flow.Gateway.Keeping.{github_webhook-kept}
use wave_flow.Shared.Types.{Uuid}
use wave_flow.Api.Outside.{app-kept}

-- of them promises to the others that run at the same time.

pub data Request : Type 0 where
  webhook_request : Delivery → Request
  gateway_health_request : Request
  gateway_ready_request : Request
  api_request : ApiRequest → Request

module _ {J : Type 0} (server : Server J) (json : Json J) (cfg : AppConfig) (k : Primitives) where
  -- The tables and the turn after a request: `router` of the gateway, and the routes of the API. Both
  -- services have read one environment.
  unfoldable pub serve : Request → World J → World J
  serve (webhook_request d) w = (github_webhook server json cfg k d w).1
  serve gateway_health_request w = (health server w).1
  serve gateway_ready_request w = (ready server cfg w).1
  serve (api_request r) w = (app server cfg r w).1

module _ {J : Type 0} {P : Db J → Type 0} (stable : IsStable P) (server : Server J)
    (peace : IsPeaceful server) (json : Json J) (cfg : AppConfig) (k : Primitives) where
  serve-kept : (r : Request) (w : World J) → P w.db → P ((serve server json cfg k r w).db)
  unfolding serve health ready
  serve-kept (webhook_request d) w p =
      github_webhook-kept stable server (stable-IsQuiet stable peace) json cfg k d w p
  serve-kept gateway_health_request w p = ping-kept server P (stable-IsQuiet stable peace) w p
  serve-kept gateway_ready_request w p = ping-kept server P (stable-IsQuiet stable peace) w p
  serve-kept (api_request r) w p = app-kept stable server (stable-IsQuiet stable peace) cfg r w p

-- Whatever a request to either service does is a chain of writes, if what the other requests do between
-- its statements is: each request promises the others what it asks of them, so that no order in
-- which the statements of requests overlap leads out of the writes.
pub serve-Writes :
    {J : Type 0} (server : Server J) (json : Json J) (cfg : AppConfig) (k : Primitives)
    (r : Request) (w : World J)
    → IsPeaceful server
    → Writes w.db ((serve server json cfg k r w).db)
serve-Writes server json cfg k r w peace =
    serve-kept Writes-IsStable server peace json cfg k r w unwritten

-- Every request to either service keeps the tables sound, whatever becomes of each of its statements and
-- whatever writes of other requests fall between them: the payouts are consistent, the programs and
-- contributors are a registry, and every payout and every contributor belongs to a program that
-- there is.
pub serve-IsSound :
    {J : Type 0} (server : Server J) (json : Json J) (cfg : AppConfig) (k : Primitives)
    (r : Request) (w : World J)
    → IsPeaceful server
    → IsSound w.db
    → IsSound ((serve server json cfg k r w).db)
serve-IsSound server json cfg k r w peace p =
    serve-kept IsSound-IsStable server peace json cfg k r w p

-- Rows are only ever added, and the identifiers of the programs too.
pub record Extends {J : Type 0} (old new : Db J) : Type 0 where
  pub payouts : (added : List PayoutRow) × (new.payouts ≡ added ++ old.payouts)
  pub webhook_events :
      (added : List (WebhookEvent J)) × (new.webhook_events ≡ added ++ old.webhook_events)
  pub contributors : (added : List ContributorRow) × (new.contributors ≡ added ++ old.contributors)
  pub programs :
      (added : List Uuid) × (map (λ p. p.id) new.programs ≡ added ++ map (λ p. p.id) old.programs)

ids_changed :
    (change : ProgramRow → ProgramRow)
    → IsHarmless change
    → (rows : List ProgramRow) → map (λ p. p.id) (map change rows) ≡ map (λ p. p.id) rows
ids_changed change h [] = refl
ids_changed change h (p ∷ rows) = rw ((h p).0, ids_changed change h rows) refl

Extends-IsStable : {J : Type 0} {old : Db J} → IsStable (Extends old)
Extends-IsStable {J} {old} = record { kept = λ db db' write e. go db db' write e }
  where
    go : (db db' : Db J) → Write db db' → Extends old db → Extends old db'
    go db _ (wrote_payout new _) e = record {
      payouts = (new ∷ e.payouts.0, ap (λ ps. new ∷ ps) e.payouts.1);
      webhook_events = e.webhook_events;
      contributors = e.contributors;
      programs = e.programs;
    }
    go db _ (wrote_event new _) e = record {
      payouts = e.payouts;
      webhook_events = (new ∷ e.webhook_events.0, ap (λ es. new ∷ es) e.webhook_events.1);
      contributors = e.contributors;
      programs = e.programs;
    }
    go db _ (wrote_contributor new _) e = record {
      payouts = e.payouts;
      webhook_events = e.webhook_events;
      contributors = (new ∷ e.contributors.0, ap (λ cs. new ∷ cs) e.contributors.1);
      programs = e.programs;
    }
    go db _ (wrote_program new _ _) e = record {
      payouts = e.payouts;
      webhook_events = e.webhook_events;
      contributors = e.contributors;
      programs = (new.id ∷ e.programs.0, ap (λ ids. new.id ∷ ids) e.programs.1);
    }
    go db _ (changed_programs change h) e = record {
      payouts = e.payouts;
      webhook_events = e.webhook_events;
      contributors = e.contributors;
      programs = (e.programs.0, ids_changed change h db.programs ∙ e.programs.1);
    }

-- No request to either service takes back a payout, an audit row, a contributor or a program that was
-- stored before it, whatever becomes of each of its statements and whatever writes of other requests
-- fall between them.
pub serve-Extends :
    {J : Type 0} (server : Server J) (json : Json J) (cfg : AppConfig) (k : Primitives)
    (r : Request) (w : World J)
    → IsPeaceful server
    → Extends w.db ((serve server json cfg k r w).db)
serve-Extends server json cfg k r w peace =
    serve-kept Extends-IsStable server peace json cfg k r w (record {
      payouts = ([], refl);
      webhook_events = ([], refl);
      contributors = ([], refl);
      programs = ([], refl);
    })
