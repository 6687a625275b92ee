-- ===== src/Gateway/Course.antt =====
-- crates/gateway/src/routes.rs: the course that the tables take under one delivery, between the statements
use wave_flow.Common.Text.{Text, same, codes}
use wave_flow.Shared.Types.{Uuid, GitHubPullRequestEvent}
use wave_flow.Database.Tables.{PayoutRow, Server, Db, ProgramRow, ContributorRow, WebhookEvent}
use wave_flow.Gateway.Attestation.{Json, clamp_points}
use wave_flow.Gateway.Webhook.{
  MergeAttestation, Primitives, verify_github_signature, parse_merge_event,
}
use wave_flow.Shared.Config.{AppConfig}
use wave_flow.Common.{
  Option, ℕ, ◌==◌, ◌≡◌, some, ◌&&◌, ◌∷◌, map, unwrap_or, [], if◌then◌else◌, inr, any, not, false,
}
use wave_flow.Database.Statements.{find, spend_row, spend_fits}
use wave_flow.Gateway.Routes.{Delivery, as_bytes}
use wave_flow.Common.Int.{i64_try_from, pos, ◌*ℤ◌}
use wave_flow.Shared.Error.{ok}

-- of other requests.

-- `resolve_program_id`, `load_reward_per_point` and `resolve_contributor_address` select these rows.
abbrev pub active_program : {J : Type 0} → Text → Db J → Option ProgramRow
active_program repo db =
    find (λ p. same p.github_repo repo && same p.status (codes "active")) db.programs

abbrev pub program_of : {J : Type 0} → Uuid → Db J → Option ProgramRow
program_of id db = find (λ p. p.id == id) db.programs

abbrev pub contributor_of : {J : Type 0} → Uuid → Text → Db J → Option ContributorRow
contributor_of id name db =
    find (λ c. c.program_id == id && same c.github_username name) db.contributors

-- The row pays this merge to that contributor of that program, at the ratio of the program.
pub record Pays (new : PayoutRow) (merge : MergeAttestation) (program : ProgramRow)
    (contributor : ContributorRow) (rated : ProgramRow) : Type 0 where
  pub program_id : new.program_id ≡ program.id
  pub pr_number : some new.pr_number ≡ i64_try_from (pos merge.pr_number)
  pub github_username : new.github_username ≡ merge.github_username
  pub points : new.points ≡ clamp_points merge.points
  pub stellar_address : new.stellar_address ≡ contributor.stellar_address
  pub amount : some new.amount ≡ i64_try_from (pos merge.points *ℤ rated.reward_per_point)

-- The delivery has an accepted signature and its body is an event that gives this merge.
pub record Attests {J : Type 0} (json : Json J) (config : AppConfig) (k : Primitives)
    (request : Delivery) (merge : MergeAttestation) : Type 0 where
  pub payload : J
  pub event : GitHubPullRequestEvent
  pub accepted :
      verify_github_signature k
        (as_bytes config.github_webhook_secret)
        request.body
        (unwrap_or [] request.signature)
      ≡ ok tt
  pub read : json.from_slice request.body ≡ inr payload
  pub made : json.from_value payload ≡ inr event
  pub merged : parse_merge_event event ≡ ok merge

module _ {J : Type 0} (server : Server J) (json : Json J) (config : AppConfig) (k : Primitives)
    (request : Delivery) (start : Db J) where
  -- The delivery writes audit rows, payouts that are earned, and the counters of a payout it has
  -- stored.
  pub data Course : Db J → Type 0 where
    begun : Course start
    others_wrote : {db : Db J} (n : ℕ) → Course db → Course (server.others n db)
    logged :
        {db : Db J} (new : WebhookEvent J)
        → Course db
        → Course (record db { webhook_events = new ∷ db.webhook_events })
    paid :
        {db db₁ db₂ db₃ : Db J} {merge : MergeAttestation} {program rated : ProgramRow}
        {contributor : ContributorRow} (new : PayoutRow)
        → Course db
        → Attests json config k request merge
        → Course db₁
        → active_program merge.github_repo db₁ ≡ some program
        → Course db₂
        → contributor_of program.id merge.github_username db₂ ≡ some contributor
        → Course db₃
        → program_of program.id db₃ ≡ some rated
        → Pays new merge program contributor rated
        → Course (record db { payouts = new ∷ db.payouts })
    counted :
        {db db₁ : Db J} (new : PayoutRow)
        → Course db
        → Course (record db₁ { payouts = new ∷ db₁.payouts })
        → any (λ p. p.id == new.program_id && not (spend_fits new.amount p)) db.programs ≡ false
        → Course (record db {
          programs =
              map (λ p. if p.id == new.program_id then spend_row new.amount p else p) db.programs;
        })
