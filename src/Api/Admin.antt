-- ===== src/Api/Admin.antt =====
-- crates/api/src/routes/admin.rs: the handlers of the admin routes.
use wave_flow.Database.Statements.{
  ◌>>=◌, ◌>>◌, Query, lift, query, database_error, select, find, conflict_error, this_turn,
}
use wave_flow.Common.{ℕ, Option, ◌==◌, not, ◌&&◌, ◌||◌, is_some, ◌∷◌, []}
use wave_flow.Shared.Types.{Uuid, is_empty, validate_github_repo, validate_stellar_address}
use wave_flow.Database.Tables.{Server}
use wave_flow.Common.Text.{Text, same, codes}
use wave_flow.Common.Int.{ℤ, leb_ℤ, pos, clamp_i64}
use wave_flow.Database.Registration.{update_programs, insert_program, insert_contributor}
use wave_flow.Shared.Error.{fail_if, validation, message, ok, word, WaveFlowError, not_found, shown}

pub record CreateProgramRequest : Type 0 where
  pub on_chain_program_id : ℕ
  pub github_repo : Text
  pub maintainer_address : Text
  pub reward_per_point : ℤ
  pub milestone_cap : Option ℤ

pub record RegisterContributorRequest : Type 0 where
  pub program_id : Uuid
  pub github_username : Text
  pub stellar_address : Text

pub record RegisterContributorResponse : Type 0 where
  pub program_id : Uuid
  pub github_username : Text

abbrev no_row : Text → Uuid → WaveFlowError
no_row kind id = not_found (word kind ∷ shown id ∷ word (codes " not found") ∷ [])

module _ {J : Type 0} (server : Server J) where
  -- `create_program` from the new identifier on.
  unfoldable pub store_program : CreateProgramRequest → Query J Uuid
  store_program body = do
    turn ← this_turn
    query server
        (insert_program (record {
          id = server.new_v4 turn;
          on_chain_program_id = clamp_i64 body.on_chain_program_id;
          github_repo = body.github_repo;
          maintainer_address = body.maintainer_address;
          reward_per_point = body.reward_per_point;
          escrow_balance = pos 0;
          milestone_cap = body.milestone_cap;
          milestone_spent = pos 0;
          status = codes "active";
          created_at = server.now turn;
        }))
        (conflict_error
          (word (codes "program already exists for repo ") ∷ word body.github_repo ∷ []))
    lift (ok (server.new_v4 turn))

  unfoldable pub create_program : CreateProgramRequest → Query J Uuid
  create_program body = do
    lift (
        fail_if (not (validate_github_repo body.github_repo))
          (validation (message "invalid github_repo slug")))
    lift (
        fail_if (leb_ℤ body.reward_per_point (pos 0))
          (validation (message "reward_per_point must be positive")))
    lift (
        fail_if (not (validate_stellar_address body.maintainer_address))
          (validation (message "invalid maintainer stellar address")))
    store_program body

  unfoldable pub pause_program : Uuid → Query J Uuid
  pause_program id = do
    updated ←
        query server
          (update_programs (λ p. p.id == id && same p.status (codes "active"))
            (λ p. record p { status = codes "paused" }))
          database_error
    lift (fail_if (updated == 0) (no_row (codes "active program ") id))
    lift (ok id)

  unfoldable pub resume_program : Uuid → Query J Uuid
  resume_program id = do
    updated ←
        query server
          (update_programs (λ p. p.id == id && same p.status (codes "paused"))
            (λ p. record p { status = codes "active" }))
          database_error
    lift (fail_if (updated == 0) (no_row (codes "paused program ") id))
    lift (ok id)

  unfoldable pub update_ratio : Uuid → ℤ → Query J (Uuid × ℤ)
  update_ratio id reward_per_point = do
    lift (
        fail_if (leb_ℤ reward_per_point (pos 0))
          (validation (message "reward_per_point must be positive")))
    updated ←
        query server
          (update_programs (λ p. p.id == id)
            (λ p. record p { reward_per_point = reward_per_point }))
          database_error
    lift (fail_if (updated == 0) (no_row (codes "program ") id))
    lift (ok (id, reward_per_point))

  unfoldable pub register_contributor :
      RegisterContributorRequest → Query J RegisterContributorResponse
  register_contributor body = do
    lift (
        fail_if (is_empty body.github_username || is_empty body.stellar_address)
          (validation (message "username and address required")))
    lift (
        fail_if (not (validate_stellar_address body.stellar_address))
          (validation (message "invalid stellar public key")))
    program ←
        query server (select (λ db. find (λ p. p.id == body.program_id) db.programs)) database_error
    lift (fail_if (not (is_some program)) (no_row (codes "program ") body.program_id))
    turn ← this_turn
    query server
        (insert_contributor (record {
          program_id = body.program_id;
          github_username = body.github_username;
          stellar_address = body.stellar_address;
          registered_at = server.now turn;
        }))
        (conflict_error (message "contributor already registered"))
    lift (ok (record { program_id = body.program_id; github_username = body.github_username }))
