-- ===== src/Gateway/Tracked.antt =====
-- crates/gateway/src/routes.rs: what becomes of a delivery that has an id.
use wave_flow.Common.{
  refl, List, any, Option, some, ℕ, ◌≡◌, true, ◌==◌, arith, ◌||◌, ◌∷◌, [], unwrap_or, Bool-cases,
  inl, inr,
}
use mathlib.Core.Path.{subst}
use wave_flow.Common.Text.{Text, same_refl, codes}
use wave_flow.Database.Tables.{Db, Server, WebhookEvent, World}
use wave_flow.Shared.Types.{Uuid}
use wave_flow.Gateway.Attestation.{claim_delivery_id, persist_webhook_event, Json, delivery_id_seen}
use wave_flow.Database.Laws.{insert_webhook_event_done, query_ok}
use wave_flow.Database.Statements.{event_fits, same_delivery, insert_webhook_event}
use wave_flow.Shared.Error.{Message, ok, WaveFlowResult, err}
use wave_flow.Database.Triples.{Keeps, query-Keeps, IsQuiet}
use wave_flow.Shared.Config.{AppConfig}
use wave_flow.Gateway.Routes.{
  accept, claimed, github_webhook, verified, map_error, Delivery, seen_or_false,
}
use wave_flow.Gateway.Webhook.{Bytes, Primitives}
use wave_flow.Gateway.Handling.{NotProcessed, handle_payload-Served}
use wave_flow.Database.Writes.{
  IsPeaceful, IsStable, Write, stable-IsQuiet, wrote_event, wrote_payout, wrote_program,
  wrote_contributor, changed_programs,
}
use wave_flow.Gateway.Serving.{process_merge-Keeps}

module _ {J : Type 0} (d : Text) where
  abbrev pub HasDelivery : Db J → Type 0
  HasDelivery db = any (λ e. same_delivery e.delivery_id (some d)) db.webhook_events ≡ true

  HasDelivery-IsStable : IsStable HasDelivery
  HasDelivery-IsStable = record { kept = λ db db' write p. go db db' write p }
    where
      go : (db db' : Db J) → Write db db' → HasDelivery db → HasDelivery db'
      go db _ (wrote_event new _) p = ground arith
      go db _ (wrote_payout _ _) p = p
      go db _ (wrote_program _ _ _) p = p
      go db _ (wrote_contributor _ _) p = p
      go db _ (changed_programs _ _) p = p

  any_weaken :
      (id : Uuid) (es : List (WebhookEvent J))
      → any (λ e. same_delivery e.delivery_id (some d)) es ≡ true
      → any (λ row. row.id == id || same_delivery row.delivery_id (some d)) es ≡ true
  any_weaken id [] h = h
  any_weaken id (e ∷ es) h = ground (arith, any_weaken id es)

  -- With a row for the id in the table no other row with it can be inserted.
  persist_fails :
      {R : Unit {0} → Type 0} (server : Server J)
      → IsQuiet server HasDelivery
      → (event_type repo : Text) (n : Option ℕ) (payload : J) (status : Text)
        (error : Option Message)
      → Keeps HasDelivery
          (persist_webhook_event server (some d) event_type repo n payload status error)
          R
  unfolding persist_webhook_event event_fits
  persist_fails server quiet event_type repo n payload status error = record {
    keeps = λ w p.
        (query-Keeps server quiet (insert_webhook_event _) _ (λ db x db' q e. absurd (
            let fits = (insert_webhook_event_done _ db db' e).0 in
            let taken = any_weaken (server.new_v4 w.turn) db.webhook_events q in
            ground arith))).keeps
          w p;
  }

  claim-HasDelivery :
      (server : Server J) (json : Json J) (event_type : Text) (w w' : World J)
      → claim_delivery_id server json d event_type w ≡ (ok tt, w')
      → HasDelivery w'.db
  unfolding claim_delivery_id
  claim-HasDelivery server json event_type w w' h =
      let inserted =
        (insert_webhook_event_done _ (server.others w.turn w.db) w'.db
          (query_ok server (insert_webhook_event _) _ w w' tt h)).1 in
      let found = same_refl d in subst HasDelivery inserted (ground arith)

module _ {J : Type 0} (server : Server J) (peace : IsPeaceful server) (json : Json J)
    (config : AppConfig) where
  claimed_reply :
      (d event_type : Text) (body : Bytes) (x : WaveFlowResult (Unit {0}) × World J)
      → ((w' : World J) → x ≡ (ok tt, w') → HasDelivery d w'.db)
      → NotProcessed ((claimed server json config event_type d body x).0.reply)
  unfolding claimed map_error
  claimed_reply d event_type body (err e, w') h = tt
  claimed_reply d event_type body (ok _, w') h =
      let quiet = stable-IsQuiet (HasDelivery-IsStable d) peace in
      (handle_payload-Served server json config (some d) body (λ r n. n)
        (λ event repo n payload status error.
          persist_fails d server quiet event repo n payload status error)
        (λ payload event _ _.
          process_merge-Keeps (HasDelivery-IsStable d) server quiet json config (some d) (λ r n. n)
            (λ event repo n payload status error.
              persist_fails d server quiet event repo n payload status error)
            event payload)
        event_type (json.from_slice body) w' refl (h w' refl)).1

  accept_reply :
      (d event_type : Text) (body : Bytes) (w : World J)
      → NotProcessed ((accept server json config event_type (some d) body w).0.reply)
  unfolding accept
  accept_reply d event_type body w =
      let w' = (delivery_id_seen server d w).1 in
      elim (Bool-cases (seen_or_false ((delivery_id_seen server d w).0))) [
        | inl s ↦ rw s tt
        | inr s ↦ rw s (
            claimed_reply d event_type body (claim_delivery_id server json d event_type w')
              (λ w'' e. claim-HasDelivery d server json event_type w' w'' e))
      ]

  verified_reply :
      (d : Text) (request : Delivery) (x : WaveFlowResult (Unit {0})) (w : World J)
      → request.delivery ≡ some d
      → NotProcessed ((verified server json config request x w).0.reply)
  unfolding verified map_error
  verified_reply d request (ok _) w h =
      let id = h in rw h (accept_reply d (unwrap_or (codes "unknown") request.event) request.body w)
  verified_reply d request (err e) w h = tt

  tracked_reply :
      (k : Primitives) (request : Delivery) (d : Text) (w : World J)
      → request.delivery ≡ some d
      → NotProcessed ((github_webhook server json config k request w).0.reply)
  unfolding github_webhook
  tracked_reply k request d w h = verified_reply d request _ w h

-- A delivery that carries an id is never answered with `processed`, whatever the database holds, whatever
-- becomes of each statement and whatever writes of other requests fall between them: the audit row
-- of a paid merge has the id that the claim has stored already, and the unique index refuses it.
pub tracked-NotProcessed :
    {J : Type 0} (server : Server J) (json : Json J) (config : AppConfig) (k : Primitives)
    (request : Delivery) (d : Text) (w : World J)
    → IsPeaceful server
    → request.delivery ≡ some d
    → NotProcessed ((github_webhook server json config k request w).0.reply)
tracked-NotProcessed server json config k request d w peace h =
    tracked_reply server peace json config k request d w h
