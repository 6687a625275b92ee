-- ===== src/Gateway/Probes.antt =====
-- crates/gateway/src/routes.rs: the two probes.
use wave_flow.Common.{
  refl, Bool, ℕ, Option, if◌then◌else◌, none, not, true, ◌≡◌, false, ◌&&◌, ◌↔◌, some, ◌≢◌, [], suc,
  arith, ◌∷◌,
}
use wave_flow.Database.Statements.{SqlResult, done, send, failed, select, meet}
use wave_flow.Database.Tables.{Server, World, carried_out, Fate, lost_before, lost_after, Db}
use wave_flow.Shared.Config.{AppConfig}
use wave_flow.Shared.Types.{is_empty}
use wave_flow.Common.Text.{Text}
use wave_flow.Database.Triples.{IsQuiet}

-- The answer of a probe. `health` does not report on the configuration.
pub record Probe : Type 0 where
  pub status : ℕ
  pub ready : Bool
  pub database : Bool
  pub configured : Option Bool

abbrev pub probe_status : Bool → ℕ
probe_status b = if b then 200 else 503

abbrev is_ok : {A : Type 0} → SqlResult A → Bool
is_ok (done _) = true
is_ok (failed _) = false

module _ {J : Type 0} (server : Server J) where
  -- `SELECT 1`
  unfoldable pub ping : World J → Bool × World J
  ping w = let (r, w') = send server (select (λ db. tt)) w in (is_ok r, w')

  unfoldable pub health : World J → Probe × World J
  health w =
      let (db_ok, w') = ping w in
      (
        record { status = probe_status db_ok; ready = db_ok; database = db_ok; configured = none },
        w',
      )

  unfoldable pub ready : AppConfig → World J → Probe × World J
  ready config w =
      let (db_ok, w') = ping w in
      let config_ok = not (is_empty config.github_webhook_secret) in
      (
        record {
          status = probe_status (db_ok && config_ok);
          ready = db_ok && config_ok;
          database = db_ok;
          configured = some config_ok;
        },
        w',
      )

module _ {J : Type 0} (server : Server J) (config : AppConfig) where
  -- The gateway is ready exactly where the database carries out a statement and a webhook secret is
  -- set. The probe leaves the database as its statement finds it.
  pub ready_iff :
      (w : World J)
      → (((ready server config w).0.status ≡ 200)
          ↔ ((server.fate w.turn ≡ carried_out) × (config.github_webhook_secret ≢ [])))
        × ((ready server config w).1.db ≡ server.others w.turn w.db)
  unfolding ready ping send
  ready_iff w = go (server.fate w.turn) config.github_webhook_secret
    where
      go :
          (x : Fate) (secret : Text)
          → ((probe_status (
                  is_ok (
                    (meet x
                      (select (λ db. tt))
                      (record { db = server.others w.turn w.db; turn = suc w.turn })).0)
                  && not (is_empty secret))
                ≡ 200)
              ↔ ((x ≡ carried_out) × (secret ≢ [])))
            × ((meet x
                  (select (λ db. tt))
                  (record { db = server.others w.turn w.db; turn = suc w.turn })).1.db
                ≡ server.others w.turn w.db)
      go carried_out [] = (((λ h. absurd (ground arith)), λ h. absurd (h.1 refl)), refl)
      go carried_out (c ∷ s) = (((λ h. (refl, λ e. ground arith)), λ h. refl), refl)
      go (lost_before m) s =
          (((λ h. absurd (ground arith)), λ h. absurd (let q = h.0 in ground arith)), refl)
      go (lost_after m) s =
          (((λ h. absurd (ground arith)), λ h. absurd (let q = h.0 in ground arith)), refl)

pub ping-kept :
    {J : Type 0} (server : Server J) (P : Db J → Type 0)
    → IsQuiet server P
    → (w : World J) → P w.db
    → P ((ping server w).1.db)
unfolding ping send
ping-kept {J} server P quiet w p = go (server.fate w.turn)
  where
    go :
        (x : Fate)
        → P (
            (meet x
              (select (λ db. tt))
              (record { db = server.others w.turn w.db; turn = suc w.turn })).1.db)
    go carried_out = quiet w.turn w.db p
    go (lost_before m) = quiet w.turn w.db p
    go (lost_after m) = quiet w.turn w.db p
