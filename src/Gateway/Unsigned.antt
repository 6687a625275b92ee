-- ===== src/Gateway/Unsigned.antt =====
-- crates/gateway/src/routes.rs: what a delivery without a genuine signature can do.
use wave_flow.Common.{refl, ◌≡◌, Option, ◌++◌, some, ℕ, unwrap_or, [], ◌⊎◌, inr, inl}
use mathlib.Core.Path.{subst}
use wave_flow.Gateway.Webhook.{Primitives, Bytes, signature_prefix}
use wave_flow.Database.Tables.{Db, Server, World}
use wave_flow.Gateway.Attestation.{Json, persist_webhook_event}
use wave_flow.Common.Text.{Text}
use wave_flow.Shared.Config.{AppConfig}
use wave_flow.Gateway.Routes.{github_webhook, verified, Delivery, map_error, as_bytes}
use wave_flow.Shared.Error.{http_status_code, WaveFlowError, Message, err}
use wave_flow.Database.Triples.{Any, Safe-db, query_at}
use wave_flow.Database.Statements.{insert_webhook_event}
use wave_flow.Gateway.Signature.{
  verify-Verdict, genuine, forged, refused_secret, not_hex, unprefixed,
}
use wave_flow.Database.Laws.{insert_webhook_event_done}

-- The header is the prefix and a text that decodes to the HMAC of the body under the secret.
pub record IsSigned (k : Primitives) (secret body : Bytes) (header : Text) : Type 0 where
  pub hex : Text
  pub mac : Bytes → Bytes
  pub prefixed : header ≡ signature_prefix ++ hex
  pub keyed : k.mac secret ≡ some mac
  pub decodes : k.decode hex ≡ some (mac body)

-- The tables that a payout and its program stand in are the same.
pub record SameAccounts {J : Type 0} (old new : Db J) : Type 0 where
  pub programs : old.programs ≡ new.programs
  pub contributors : old.contributors ≡ new.contributors
  pub payouts : old.payouts ≡ new.payouts

module _ {J : Type 0} (server : Server J) (json : Json J) (config : AppConfig) where
  -- The tables that the audit row of a refusal meets.
  abbrev pub met : World J → Db J
  met w = server.others w.turn w.db

  persist-SameAccounts :
      (w : World J) (d : Option Text) (event_type repo : Text) (n : Option ℕ) (payload : J)
      (status : Text) (error : Option Message)
      → SameAccounts
          (met w)
          ((persist_webhook_event server d event_type repo n payload status error w).1.db)
  unfolding persist_webhook_event
  persist-SameAccounts w d event_type repo n payload status error =
      Safe-db (SameAccounts (met w)) Any _ (
        query_at server (insert_webhook_event _) _ w
          (record { programs = refl; contributors = refl; payouts = refl })
          (λ a db' e. (
            subst (SameAccounts (met w)) (insert_webhook_event_done _ (met w) db' e).1
                (record { programs = refl; contributors = refl; payouts = refl }),
            tt,
          )))

  refused :
      (request : Delivery) (e : WaveFlowError) (w : World J)
      → SameAccounts (met w) ((verified server json config request (err e) w).1.db)
  unfolding verified
  refused request e w = persist-SameAccounts w _ _ _ _ _ _ _

  status_of :
      (request : Delivery) (e : WaveFlowError) (w : World J)
      → (verified server json config request (err e) w).0.status ≡ http_status_code e
  unfolding verified map_error
  status_of request e w = refl

  -- A delivery whose header is not a genuine signature of its body is answered with 400 or 401, and the
  -- programs, the contributors and the payouts stay as its one statement finds them.
  pub unsigned_refused :
      (k : Primitives) (request : Delivery) (w : World J)
      → (IsSigned k
            (as_bytes config.github_webhook_secret)
            request.body
            (unwrap_or [] request.signature)
          → ⊥)
      → (((github_webhook server json config k request w).0.status ≡ 400)
          ⊎ ((github_webhook server json config k request w).0.status ≡ 401))
        × SameAccounts
            (server.others w.turn w.db)
            ((github_webhook server json config k request w).1.db)
  unfolding github_webhook http_status_code
  unsigned_refused k request w unsigned =
      elim (verify-Verdict k (as_bytes config.github_webhook_secret) request.body
        (unwrap_or [] request.signature)) [
          | genuine hex mac p m d r ↦
              absurd
                (unsigned (record { hex = hex; mac = mac; prefixed = p; keyed = m; decodes = d }))
          | forged _ _ _ _ _ _ _ r ↦ rw r (inr (status_of request _ w), refused request _ w)
          | refused_secret _ r ↦ rw r (inl (status_of request _ w), refused request _ w)
          | not_hex _ _ _ r ↦ rw r (inl (status_of request _ w), refused request _ w)
          | unprefixed _ r ↦ rw r (inl (status_of request _ w), refused request _ w)
        ]
