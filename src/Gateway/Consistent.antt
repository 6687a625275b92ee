-- ===== src/Gateway/Consistent.antt =====
-- crates/gateway/src/routes.rs: the invariant of payouts and audit rows.
use wave_flow.Common.{refl, Bool, List, ◌≡◌, All, any, true, ◌∷◌, arith, false, ◌==◌, [], ◌||◌}
use wave_flow.Database.Tables.{Db, PayoutRow, WebhookEvent, Server, World}
use wave_flow.Database.Statements.{event_fits, payout_fits, same_delivery, same_program}
use wave_flow.Common.Int.{pos, ◌<ℤ◌}
use wave_flow.Gateway.Attestation.{Json}
use wave_flow.Shared.Config.{AppConfig}
use wave_flow.Gateway.Routes.{github_webhook, Delivery}
use wave_flow.Gateway.Webhook.{Primitives}
use wave_flow.Database.Writes.{
  IsPeaceful, IsStable, Write, stable-IsQuiet, wrote_payout, wrote_event, wrote_program,
  wrote_contributor, changed_programs,
}
use wave_flow.Gateway.Keeping.{github_webhook-kept}

-- No two members of the list are related.
abbrev pub Distinct : {A : Type 0} → (A → A → Bool) → List A → Type 0
Distinct r [] = Unit
Distinct r (x ∷ xs) = (any (r x) xs ≡ false) × Distinct r xs

abbrev pub same_event : {J : Type 0} → WebhookEvent J → WebhookEvent J → Bool
same_event new row = same_delivery row.delivery_id new.delivery_id

pub record IsConsistent {J : Type 0} (db : Db J) : Type 0 where
  pub payouts_once : Distinct same_program db.payouts
  pub deliveries_once : Distinct same_event db.webhook_events
  pub payouts_positive : All (λ p. (pos 0 <ℤ p.amount) × (pos 0 <ℤ p.points)) db.payouts

free_program :
    (new : PayoutRow) (rows : List PayoutRow)
    → any (λ row. row.id == new.id || same_program new row) rows ≡ false
    → any (same_program new) rows ≡ false
free_program new [] h = refl
free_program new (row ∷ rows) h = ground (arith, free_program new rows)

module _ {J : Type 0} where
  free_delivery :
      (new : WebhookEvent J) (rows : List (WebhookEvent J))
      → any (λ row. row.id == new.id || same_delivery row.delivery_id new.delivery_id) rows ≡ false
      → any (same_event new) rows ≡ false
  free_delivery new [] h = refl
  free_delivery new (row ∷ rows) h = ground (arith, free_delivery new rows)

  payout-IsConsistent :
      (new : PayoutRow) (db : Db J)
      → IsConsistent db
      → payout_fits new db ≡ true
      → IsConsistent (record db { payouts = new ∷ db.payouts })
  unfolding payout_fits
  payout-IsConsistent new db p fits = record {
    payouts_once = (free_program new db.payouts (ground arith), p.payouts_once);
    deliveries_once = p.deliveries_once;
    payouts_positive = ((ground arith, ground arith), p.payouts_positive);
  }

  event-IsConsistent :
      (new : WebhookEvent J) (db : Db J)
      → IsConsistent db
      → event_fits new db ≡ true
      → IsConsistent (record db { webhook_events = new ∷ db.webhook_events })
  unfolding event_fits
  event-IsConsistent new db p fits = record {
    payouts_once = p.payouts_once;
    deliveries_once = (free_delivery new db.webhook_events (ground arith), p.deliveries_once);
    payouts_positive = p.payouts_positive;
  }

  pub IsConsistent-IsStable : IsStable (IsConsistent {J = J})
  IsConsistent-IsStable = record { kept = λ db db' write p. go db db' write p }
    where
      go : (db db' : Db J) → Write db db' → IsConsistent db → IsConsistent db'
      go db _ (wrote_payout new fits) p = payout-IsConsistent new db p fits
      go db _ (wrote_event new fits) p = event-IsConsistent new db p fits
      go db _ (wrote_program new _ _) p = record {
        payouts_once = p.payouts_once;
        deliveries_once = p.deliveries_once;
        payouts_positive = p.payouts_positive;
      }
      go db _ (wrote_contributor new _) p = record {
        payouts_once = p.payouts_once;
        deliveries_once = p.deliveries_once;
        payouts_positive = p.payouts_positive;
      }
      go db _ (changed_programs change _) p = record {
        payouts_once = p.payouts_once;
        deliveries_once = p.deliveries_once;
        payouts_positive = p.payouts_positive;
      }

-- A delivery, signed or not, keeps the tables consistent, whatever becomes of each of its statements and
-- whatever writes of other requests fall between them: no two payouts are for one pull request of
-- one program, every payout is of a positive amount, and no two audit rows have one delivery id.
pub github_webhook-IsConsistent :
    {J : Type 0} (server : Server J) (json : Json J) (config : AppConfig) (k : Primitives)
    (request : Delivery) (w : World J)
    → IsPeaceful server
    → IsConsistent w.db
    → IsConsistent ((github_webhook server json config k request w).1.db)
github_webhook-IsConsistent server json config k request w peace p =
    github_webhook-kept IsConsistent-IsStable server (stable-IsQuiet IsConsistent-IsStable peace)
      json config k request w p
