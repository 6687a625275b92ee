-- ===== src/Shared/Loading.antt =====
-- `AppConfig::from_env` of config.rs: when it fails, and what the configuration satisfies.
use wave_flow.Shared.Config.{
  from_env, parse_digits, parse_u16, AppConfig, parse_unsigned, port_of, settings, or_else,
}
use wave_flow.Common.{
  unwrap_or, Option, ℕ, Option-cases, ◌<◌, ◌≡◌, inl, none, some, ◌^◌, All, arith, inr, ◌∷◌,
  Bool-cases, [], leb, ◌==◌, refl, ◌&&◌, ltb, ◌*◌, ◌+◌, ◌-◌,
}
use wave_flow.Common.Text.{Text, codes}
use wave_flow.Shared.Error.{WaveFlowResult, err, config, message, ok}
use wave_flow.Shared.Settings.{IsKey, admin_keys-IsKey}

parse_digits_bound : (n m : ℕ) (s : Text) → n < 2 ^ 16 → parse_digits n s ≡ some m → m < 2 ^ 16
unfolding parse_digits
parse_digits_bound n m [] small h = ground arith
parse_digits_bound n m (c ∷ s) small h =
    elim (Bool-cases (leb b'0' c && leb c b'9' && ltb (n * 10 + (c - b'0')) (2 ^ 16))) [
      | inl e ↦ parse_digits_bound (n * 10 + (c - b'0')) m s (ground arith) (rw e at h)
      | inr e ↦ absurd (let h' : none ≡ some m = rw e at h in ground arith)
    ]

parse_unsigned_bound : (m : ℕ) (s : Text) → parse_unsigned s ≡ some m → m < 2 ^ 16
parse_unsigned_bound m [] h = absurd (ground arith)
parse_unsigned_bound m (c ∷ s) h = parse_digits_bound 0 m (c ∷ s) (omega arith) h

parse_u16_bound : (m : ℕ) (s : Text) → parse_u16 s ≡ some m → m < 2 ^ 16
unfolding parse_u16
parse_u16_bound m [] h = absurd (ground arith)
parse_u16_bound m (c ∷ s) h = elim (Bool-cases (c == b'+')) [
  | inl e ↦ parse_unsigned_bound m s (rw e at h)
  | inr e ↦ parse_unsigned_bound m (c ∷ s) (rw e at h)
]

port_of_bound : (o : Option Text) (default : ℕ) → default < 2 ^ 16 → port_of o default < 2 ^ 16
port_of_bound none default small = small
port_of_bound (some s) default small = elim (Option-cases (parse_u16 s)) [
  | inl e ↦ rw e small
  | inr (m, e) ↦ rw e (parse_u16_bound m s e)
]

abbrev pub database_var : Text
database_var = codes "DATABASE_URL"

abbrev pub secret_var : Text
secret_var = codes "GITHUB_WEBHOOK_SECRET"

-- A configuration that fits the environment.
pub record IsConfigured (var : Text → Option Text) (c : AppConfig) : Type 0 where
  pub database : var database_var ≡ some c.database_url
  pub secret : var secret_var ≡ some c.github_webhook_secret
  pub keys : All IsKey c.api_admin_keys
  pub gateway_port_fits : c.gateway_port < 2 ^ 16
  pub api_port_fits : c.api_port < 2 ^ 16

settings-IsConfigured :
    (var : Text → Option Text) (url secret : Text)
    → var database_var ≡ some url
    → var secret_var ≡ some secret
    → IsConfigured var (settings var url secret)
unfolding settings
settings-IsConfigured var url secret has_url has_secret = record {
  database = has_url;
  secret = has_secret;
  keys = admin_keys-IsKey (unwrap_or [] (var (codes "API_ADMIN_KEYS")));
  gateway_port_fits =
      port_of_bound (or_else (var (codes "GATEWAY_PORT")) (var (codes "PORT"))) 8080 (omega arith);
  api_port_fits = port_of_bound (var (codes "API_PORT")) 8081 (omega arith);
}

-- What `from_env` makes of the environment.
pub data IsLoaded (var : Text → Option Text) (r : WaveFlowResult AppConfig) : Type 0 where
  without_database :
      var database_var ≡ none
      → r ≡ err (config (message "DATABASE_URL is required"))
      → IsLoaded var r
  without_secret :
      var secret_var ≡ none
      → r ≡ err (config (message "GITHUB_WEBHOOK_SECRET is required"))
      → IsLoaded var r
  loaded : (c : AppConfig) → r ≡ ok c → IsConfigured var c → IsLoaded var r

-- `from_env` fails with a configuration error where `DATABASE_URL` or `GITHUB_WEBHOOK_SECRET` is
-- missing. Otherwise it returns a configuration with the two values, ports of 16 bits, and admin keys
-- that are not empty, hold no comma, and neither start nor end with white space.
pub from_env-IsLoaded : (var : Text → Option Text) → IsLoaded var (from_env var)
unfolding from_env
from_env-IsLoaded var = elim (Option-cases (var database_var)) [
  | inl no_database ↦ without_database no_database (rw no_database refl)
  | inr (url, has_url) ↦ elim (Option-cases (var secret_var)) [
    | inl no_secret ↦ without_secret no_secret (rw (has_url, no_secret) refl)
    | inr (secret, has_secret) ↦
        loaded (settings var url secret) (rw (has_url, has_secret) refl)
          (settings-IsConfigured var url secret has_url has_secret)
  ]
]
