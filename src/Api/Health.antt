-- ===== src/Api/Health.antt =====
-- crates/api/src/routes/mod.rs: the probes; crates/api/src/startup.rs.
use wave_flow.Database.Statements.{◌>>◌, Query, lift, query, select}
use wave_flow.Gateway.Probes.{ping, probe_status}
use wave_flow.Shared.Error.{WaveFlowError, database, word, fail_if, config, message}
use wave_flow.Common.{ℕ, Bool, Option, none, not, ◌&&◌, some, ◌∷◌}
use wave_flow.Database.Tables.{Server, SqlError, World, violates, other}
use wave_flow.Shared.Config.{AppConfig}
use wave_flow.Shared.Types.{is_empty}
use wave_flow.Common.Text.{codes}

-- The answer of a probe. `health` does not report on the keys.
pub record Health : Type 0 where
  pub status : ℕ
  pub database : Bool
  pub ready : Option Bool
  pub admin_key_configured : Option Bool

module _ {J : Type 0} (server : Server J) where
  unfoldable pub health : World J → Health × World J
  health w =
      let (db_ok, w') = ping server w in
      (
        record {
          status = probe_status db_ok;
          database = db_ok;
          ready = none;
          admin_key_configured = none;
        },
        w',
      )

  unfoldable pub ready : AppConfig → World J → Health × World J
  ready cfg w =
      let (db_ok, w') = ping server w in
      let configured = not (is_empty cfg.api_admin_keys) in
      (
        record {
          status = probe_status (db_ok && configured);
          database = db_ok;
          ready = some (db_ok && configured);
          admin_key_configured = some configured;
        },
        w',
      )

-- The closure that names the failure of the first query.
abbrev unreachable : SqlError → WaveFlowError
unreachable (violates m) = database (word (codes "database unreachable: ") ∷ m)
unreachable (other m) = database (word (codes "database unreachable: ") ∷ m)

unfoldable pub run_startup_checks : {J : Type 0} → Server J → AppConfig → Query J (Unit {0})
run_startup_checks server cfg = do
  lift (fail_if (is_empty cfg.database_url) (config (message "DATABASE_URL missing")))
  query server (select (λ db. tt)) unreachable
