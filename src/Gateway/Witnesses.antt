-- ===== src/Gateway/Witnesses.antt =====
-- The theorems on the gateway at concrete inputs.
use wave_flow.Gateway.Webhook.{Bytes, parse_merge_event, verify_github_signature, signature_prefix}
use wave_flow.Gateway.Signature.{IsDefaultMerge, Verdict, verify-Verdict, parse_merge_event_lem}
use wave_flow.Gateway.Consistent.{IsConsistent, github_webhook-IsConsistent}
use wave_flow.Gateway.Handling.{NotProcessed}
use wave_flow.Gateway.Unsigned.{IsSigned, SameAccounts, unsigned_refused}
use wave_flow.Gateway.Routes.{github_webhook, as_bytes}
use wave_flow.Common.Text.{codes}
use wave_flow.Gateway.Scenario.{
  event, plain, start, steady, one_event, settings_example, signed, unsigned, steady-IsPeaceful,
}
use wave_flow.Common.{
  ◌≡◌, none, some, ◌⊎◌, refl, ap, unwrap_or, [], ◌∙◌, ◌++◌, sym, arith, ◌↔◌, ◌≢◌,
}
use wave_flow.Shared.Error.{ok, Message, err, validation}
use wave_flow.Gateway.Tracked.{tracked-NotProcessed}
use wave_flow.Gateway.Probes.{ready, ready_iff}
use wave_flow.Database.Tables.{carried_out}

abbrev secret : Bytes
secret = codes "secret"

verify-Verdict_example :
    Verdict plain secret
      (codes "x")
      (codes "sha256=x")
      (verify_github_signature plain secret (codes "x") (codes "sha256=x"))
verify-Verdict_example = verify-Verdict plain secret (codes "x") (codes "sha256=x")

parse_merge_event_lem_example :
    (IsDefaultMerge event
      × (parse_merge_event event
          ≡ ok (record {
            github_repo = event.repository.full_name;
            github_username = event.pull_request.user.login;
            pr_number = event.number;
            points = 1;
          })))
    ⊎ ((IsDefaultMerge event → ⊥) × (m : Message) × (parse_merge_event event ≡ err (validation m)))
parse_merge_event_lem_example = parse_merge_event_lem event

start-IsConsistent : IsConsistent start.db
start-IsConsistent = record { payouts_once = tt; deliveries_once = tt; payouts_positive = tt }

github_webhook-IsConsistent_example :
    IsConsistent ((github_webhook steady one_event settings_example plain (signed none) start).1.db)
github_webhook-IsConsistent_example =
    github_webhook-IsConsistent steady one_event settings_example plain (signed none) start
      steady-IsPeaceful start-IsConsistent

tracked-NotProcessed_example : NotProcessed (
    (github_webhook steady one_event settings_example plain
      (signed (some (codes "id-1")))
      start).0.reply)
tracked-NotProcessed_example =
    tracked-NotProcessed steady one_event settings_example plain (signed (some (codes "id-1")))
      (codes "id-1") start steady-IsPeaceful refl

y-unsigned :
    IsSigned plain (as_bytes settings_example.github_webhook_secret) (codes "x") (codes "sha256=y")
    → ⊥
y-unsigned h =
    let keyed : codes "x" ≡ h.mac (codes "x") =
      ap (λ o. unwrap_or {A = Bytes → Bytes} (λ b. b) o (codes "x")) h.keyed in
    let decoded : h.hex ≡ h.mac (codes "x") = ap (λ o. unwrap_or [] o) h.decodes in
    let header : codes "sha256=y" ≡ codes "sha256=x" =
      h.prefixed ∙ ap (λ s. signature_prefix ++ s) (decoded ∙ sym keyed) in
    ground arith

unsigned_refused_example :
    (((github_webhook steady one_event settings_example plain (unsigned none) start).0.status ≡ 400)
      ⊎ ((github_webhook steady one_event settings_example plain (unsigned none) start).0.status
          ≡ 401))
    × SameAccounts start.db
        ((github_webhook steady one_event settings_example plain (unsigned none) start).1.db)
unsigned_refused_example =
    unsigned_refused steady one_event settings_example plain (unsigned none) start y-unsigned

ready_iff_example :
    (((ready steady settings_example start).0.status ≡ 200)
      ↔ ((steady.fate start.turn ≡ carried_out) × (settings_example.github_webhook_secret ≢ [])))
    × ((ready steady settings_example start).1.db ≡ start.db)
ready_iff_example = ready_iff steady settings_example start
