-- ===== src/Shared/Config.antt =====
-- config.rs: the configuration read from the environment.
use wave_flow.Shared.Error.{◌>>=◌, WaveFlowResult, ok_or, config, message, ok}
use wave_flow.Common.Text.{Text, codes}
use wave_flow.Common.{
  unwrap_or, List, Option, ℕ, Bool, none, some, ◌∷◌, if◌then◌else◌, leb, ◌*◌, ◌&&◌, ◌+◌, ◌==◌, [],
  ◌-◌, ◌||◌, ltb, ◌^◌,
}
use wave_flow.Shared.Types.{split, is_empty}

pub record AppConfig : Type 0 where
  pub database_url : Text
  pub github_webhook_secret : Text
  pub soroban_rpc_url : Text
  pub network_passphrase : Text
  pub escrow_contract_id : Option Text
  pub gateway_secret_key : Option Text
  pub api_admin_keys : List Text
  pub gateway_port : ℕ
  pub api_port : ℕ

-- `char::is_whitespace`: the characters with the Unicode property White_Space.
unfoldable pub is_whitespace : ℕ → Bool
is_whitespace c =
    leb 9 c && leb c 13
    || c == 32
    || c == 133
    || c == 160
    || c == 5760
    || leb 8192 c && leb c 8202
    || c == 8232
    || c == 8233
    || c == 8239
    || c == 8287
    || c == 12288

-- `str::trim`
unfoldable pub trim_start : Text → Text
unfolding is_whitespace
trim_start [] = []
trim_start (c ∷ s) = let rest = trim_start s in if is_whitespace c then rest else c ∷ s

unfoldable pub trim_end : Text → Text
unfolding is_whitespace
trim_end [] = []
trim_end (c ∷ s) =
    let rest = trim_end s in if is_empty rest && is_whitespace c then [] else c ∷ rest

abbrev pub trim : Text → Text
trim s = trim_end (trim_start s)

-- The keys of a comma-separated list.
unfoldable pub keep_keys : List Text → List Text
unfolding trim_start trim_end
keep_keys [] = []
keep_keys (part ∷ parts) =
    let rest = keep_keys parts in let key = trim part in if is_empty key then rest else key ∷ rest

unfoldable pub admin_keys : Text → List Text
unfolding split keep_keys
admin_keys s = keep_keys (split b',' s)

-- `str::parse::<u16>`: an optional sign, one digit at least, and a value below 2 ^ 16. The digits from
-- the left, each step checked against the bound.
unfoldable pub parse_digits : ℕ → Text → Option ℕ
parse_digits n [] = some n
parse_digits n (c ∷ s) =
    let m = n * 10 + (c - b'0') in
    let rest = parse_digits m s in if leb b'0' c && leb c b'9' && ltb m (2 ^ 16) then rest else none

abbrev pub parse_unsigned : Text → Option ℕ
parse_unsigned [] = none
parse_unsigned (c ∷ s) = parse_digits 0 (c ∷ s)

unfoldable pub parse_u16 : Text → Option ℕ
unfolding parse_digits
parse_u16 [] = none
parse_u16 (c ∷ s) = if c == b'+' then parse_unsigned s else parse_unsigned (c ∷ s)

abbrev pub or_else : Option Text → Option Text → Option Text
or_else none o = o
or_else (some s) _ = some s

abbrev pub port_of : Option Text → ℕ → ℕ
port_of none default = default
port_of (some s) default = unwrap_or default (parse_u16 s)

-- The configuration with its optional settings and their defaults.
unfoldable pub settings : (Text → Option Text) → Text → Text → AppConfig
unfolding admin_keys parse_u16
settings var database_url secret = record {
  database_url = database_url;
  github_webhook_secret = secret;
  soroban_rpc_url =
      unwrap_or (codes "https://soroban-testnet.stellar.org") (var (codes "SOROBAN_RPC_URL"));
  network_passphrase =
      unwrap_or (codes "Test SDF Network ; September 2015") (var (codes "NETWORK_PASSPHRASE"));
  escrow_contract_id = var (codes "ESCROW_CONTRACT_ID");
  gateway_secret_key = var (codes "GATEWAY_SECRET_KEY");
  api_admin_keys = admin_keys (unwrap_or [] (var (codes "API_ADMIN_KEYS")));
  gateway_port = port_of (or_else (var (codes "GATEWAY_PORT")) (var (codes "PORT"))) 8080;
  api_port = port_of (var (codes "API_PORT")) 8081;
}

-- The environment gives the value of a variable that is set to valid Unicode.
unfoldable pub from_env : (Text → Option Text) → WaveFlowResult AppConfig
from_env var = do
  url ← ok_or (var (codes "DATABASE_URL")) (config (message "DATABASE_URL is required"))
  secret ←
      ok_or (var (codes "GITHUB_WEBHOOK_SECRET"))
        (config (message "GITHUB_WEBHOOK_SECRET is required"))
  ok (settings var url secret)
