-- ===== src/Gateway/Startup.antt =====
-- crates/gateway/src/startup.rs.
use wave_flow.Shared.Error.{Message, message, WaveFlowResult, ok}
use wave_flow.Shared.Config.{AppConfig}
use wave_flow.Common.{List, is_some, ◌&&◌, not, if◌then◌else◌, ◌∷◌, []}
use wave_flow.Shared.Types.{is_empty}

abbrev pub secret_warning : Message
secret_warning =
    message
      "GITHUB_WEBHOOK_SECRET is empty; webhook signature verification will reject all deliveries"

abbrev pub dry_run_warning : Message
dry_run_warning =
    message
      "ESCROW_CONTRACT_ID is set but GATEWAY_SECRET_KEY is missing; chain submission stays in dry-run mode"

-- The warnings in the order of the log, and the result.
unfoldable pub validate_gateway_config : AppConfig → List Message × WaveFlowResult (Unit {0})
validate_gateway_config cfg =
    let keyless = is_some cfg.escrow_contract_id && not (is_some cfg.gateway_secret_key) in
    let chain = if keyless then dry_run_warning ∷ [] else [] in
    (if is_empty cfg.github_webhook_secret then secret_warning ∷ chain else chain, ok tt)
