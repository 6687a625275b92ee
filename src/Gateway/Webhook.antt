-- ===== src/Gateway/Webhook.antt =====
-- crates/gateway/src/webhook.rs: the check of a delivery's signature, and the reading of a merge event.
use wave_flow.Common.{
  List, Option, ℕ, if◌then◌else◌, some, ◌∷◌, none, [], ◌==◌, Bool, not, ◌≡◌, length, true, ◌||◌,
  ◌↔◌,
}
use wave_flow.Common.Text.{Text, codes, same}
use wave_flow.Shared.Types.{GitHubPullRequestEvent}
use wave_flow.Shared.Error.{
  ◌>>=◌, ◌>>◌, WaveFlowResult, fail_if, ok_or, webhook, message, validation, ok, unauthorized,
}

-- Bytes, each below 256. A header's text is given by its bytes, which `to_str` lets through where
-- they are visible ASCII.
abbrev pub Bytes : Type 0
Bytes = List ℕ

-- What the handler takes from the crates hex, hmac and subtle. `mac` is HMAC-SHA256: a key that it
-- takes gives a function of the message. `ct_eq` compares two slices of one length. The two laws are
-- documented behaviour: what is encoded decodes, and the comparison is equality.
pub record Primitives : Type 0 where
  pub decode : Text → Option Bytes
  pub encode : Bytes → Text
  pub mac : Bytes → Option (Bytes → Bytes)
  pub ct_eq : Bytes → Bytes → Bool
  pub decode-encode : (b : Bytes) → decode (encode b) ≡ some b
  pub ct_eq_iff : (a b : Bytes) → length a ≡ length b → (ct_eq a b ≡ true) ↔ (a ≡ b)

abbrev pub signature_prefix : Text
signature_prefix = codes "sha256="

-- The rest of a text after a prefix that it starts with.
unfoldable pub strip_prefix : Text → Text → Option Text
strip_prefix [] s = some s
strip_prefix (_ ∷ _) [] = none
strip_prefix (p ∷ ps) (c ∷ s) = let rest = strip_prefix ps s in if p == c then rest else none

-- `verify_github_signature`, which reads the header's text after the seven bytes of the prefix.
unfoldable pub verify_github_signature :
    Primitives → Bytes → Bytes → Text → WaveFlowResult (Unit {0})
unfolding strip_prefix
verify_github_signature k secret body signature_header = do
  provided_hex ←
      ok_or (strip_prefix signature_prefix signature_header)
        (webhook (message "missing sha256 prefix"))
  provided ← ok_or (k.decode provided_hex) (webhook (message "invalid signature hex"))
  mac ← ok_or (k.mac secret) (webhook (message "invalid webhook secret"))
  let expected = mac body
  fail_if (not (length provided == length expected) || not (k.ct_eq provided expected))
      (unauthorized (message "invalid webhook signature"))

pub record MergeAttestation : Type 0 where
  pub github_repo : Text
  pub github_username : Text
  pub pr_number : ℕ
  pub points : ℕ

unfoldable pub parse_merge_event : GitHubPullRequestEvent → WaveFlowResult MergeAttestation
parse_merge_event payload = do
  fail_if (not (same payload.action (codes "closed")))
      (validation (message "ignored non-closed action"))
  fail_if (not payload.pull_request.merged) (validation (message "PR not merged"))
  fail_if (not (same payload.pull_request.base.ref_name payload.repository.default_branch))
      (validation (message "PR not merged to default branch"))
  ok (record {
    github_repo = payload.repository.full_name;
    github_username = payload.pull_request.user.login;
    pr_number = payload.number;
    points = 1;
  })
