-- ===== src/Gateway/Honest.antt =====
-- crates/gateway/src/routes.rs: the handler of deliveries against the course in
-- Gateway/Course.antt.
use wave_flow.Database.Tables.{Server, Db, PayoutRow, ProgramRow, ContributorRow}
use wave_flow.Gateway.Attestation.{
  Json, claim_delivery_id, increment_milestone_spent, persist_payout, persist_webhook_event,
}
use wave_flow.Shared.Config.{AppConfig}
use wave_flow.Gateway.Webhook.{
  Primitives, MergeAttestation, verify_github_signature, parse_merge_event,
}
use wave_flow.Gateway.Routes.{
  Delivery, attest_merge, github_webhook, pay_merge, process_merge, as_bytes,
}
use wave_flow.Gateway.Course.{
  Course, others_wrote, Attests, active_program, contributor_of, logged, program_of, paid, counted,
  begun,
}
use wave_flow.Database.Triples.{
  IsQuiet, Keeps, Any, bind-Keeps, query-Keeps, lift-Keeps, then-Keeps, return-Keeps, if-Keeps,
}
use wave_flow.Shared.Types.{Uuid, GitHubPullRequestEvent}
use wave_flow.Common.{Option, ℕ, ◌∷◌, ◌≡◌, some, ◌∙◌, unwrap_or, refl, [], inr}
use wave_flow.Common.Text.{Text}
use wave_flow.Common.Int.{ℤ, i64_try_from, pos, ◌*ℤ◌}
use wave_flow.Shared.Error.{Message, ok}
use wave_flow.Database.Statements.{
  insert_webhook_event, update_spent, database_error, insert_payout,
}
use wave_flow.Gateway.Reads.{
  Found, ok_or-some, load_reward_per_point-Found, renamed-Keeps, resolve_contributor_address-Found,
  resolve_program_id-Found,
}
use mathlib.Core.Path.{subst, sym, ap}
use wave_flow.Database.Laws.{insert_webhook_event_done, insert_payout_done, update_spent_done}
use wave_flow.Gateway.Keeping.{github_webhook-guarded}
use wave_flow.Gateway.Invariants.{
  load_program_status-Keeps, payout_exists-Keeps, fetch_payout_id-Keeps,
}

module _ {J : Type 0} (server : Server J) (json : Json J) (config : AppConfig) (k : Primitives)
    (request : Delivery) (start : Db J) where
  abbrev OnCourse : Db J → Type 0
  OnCourse db = Course server json config k request start db

  quiet : IsQuiet server OnCourse
  quiet n db c = others_wrote n c

  logs-OnCourse :
      (delivery : Option Text) (event_type repo : Text) (n : Option ℕ) (payload : J) (status : Text)
      (error : Option Message)
      → Keeps OnCourse
          (persist_webhook_event server delivery event_type repo n payload status error)
          Any
  unfolding persist_webhook_event
  logs-OnCourse delivery event_type repo n payload status error = record {
    keeps = λ w c.
        (query-Keeps server quiet (insert_webhook_event _) _ (λ db x db' c e.
            (subst OnCourse (insert_webhook_event_done _ db db' e).1 (logged _ c), tt))).keeps
          w c;
  }

  claims-OnCourse :
      (d event_type : Text) → Keeps OnCourse (claim_delivery_id server json d event_type) Any
  unfolding claim_delivery_id
  claims-OnCourse d event_type = record {
    keeps = λ w c.
        (query-Keeps server quiet (insert_webhook_event _) _ (λ db x db' c e.
            (subst OnCourse (insert_webhook_event_done _ db db' e).1 (logged _ c), tt))).keeps
          w c;
  }

  -- A row of this program and amount has been stored.
  abbrev Stored : Uuid → ℤ → Type 0
  Stored id amount =
      (new : PayoutRow) × (db : Db J) × OnCourse (record db { payouts = new ∷ db.payouts })
      × (new.program_id ≡ id)
      × (some new.amount ≡ i64_try_from amount)

  persist_payout-Stored :
      (merge : MergeAttestation) (program rated : ProgramRow) (contributor : ContributorRow)
      (hash : Message)
      → Attests json config k request merge
      → Found OnCourse (active_program merge.github_repo) program
      → Found OnCourse (contributor_of program.id merge.github_username) contributor
      → Found OnCourse (program_of program.id) rated
      → Keeps OnCourse
          (persist_payout server program.id merge contributor.stellar_address
            (pos merge.points *ℤ rated.reward_per_point)
            hash)
          (λ _. Stored program.id (pos merge.points *ℤ rated.reward_per_point))
  unfolding persist_payout
  persist_payout-Stored merge program rated contributor hash attests active registered rate =
      record {
        keeps = λ w c.
            (bind-Keeps
                (lift-Keeps
                  {R = λ a. some a ≡ i64_try_from (pos merge.points *ℤ rated.reward_per_point)} _
                  (λ a h. sym (ok_or-some _ _ a h)))
                (λ amount amounts.
                  bind-Keeps
                    (lift-Keeps {R = λ n. some n ≡ i64_try_from (pos merge.pr_number)} _
                      (λ n h. sym (ok_or-some _ _ n h)))
                    (λ n numbered.
                      then-Keeps
                        {Q = λ _. Stored program.id (pos merge.points *ℤ rated.reward_per_point)}
                        (query-Keeps server quiet (insert_payout _) _ (λ db x db' c e.
                          let same = (insert_payout_done _ db db' e).1 in
                          let earned =
                            paid _ c attests active.1 active.2 registered.1 registered.2 rate.1
                              rate.2
                              (record {
                                program_id = refl;
                                pr_number = numbered;
                                github_username = refl;
                                points = refl;
                                stellar_address = refl;
                                amount = amounts;
                              }) in
                          (subst OnCourse same earned, (_, db, earned, refl, amounts))))
                        (λ _ stored. lift-Keeps _ (λ _ _. stored))))).keeps
              w c;
      }

  increment-OnCourse :
      (id : Uuid) (amount : ℤ)
      → Stored id amount
      → Keeps OnCourse (increment_milestone_spent server id amount) Any
  unfolding increment_milestone_spent
  increment-OnCourse id amount (new, stored, course, owner, amounts) =
      bind-Keeps
        (lift-Keeps {R = λ a. some new.amount ≡ some a} _
          (λ a h. amounts ∙ ok_or-some (i64_try_from amount) _ a h))
        (λ a same. query-Keeps server quiet (update_spent a id) database_error (λ db x db' c e.
          let amount_is : new.amount ≡ a = ap (λ o. unwrap_or a o) same in
          let (fits, changed) = update_spent_done a id db db' e in
          (
            subst OnCourse (rw (owner, amount_is) refl ∙ changed)
                (counted new c course (rw (owner, amount_is) fits)),
            tt,
          )))

  pay_merge-OnCourse :
      (merge : MergeAttestation) (program : ProgramRow) (contributor : ContributorRow) (payload : J)
      (delivery : Option Text) (hash : Message)
      → Attests json config k request merge
      → Found OnCourse (active_program merge.github_repo) program
      → Found OnCourse (contributor_of program.id merge.github_username) contributor
      → Keeps OnCourse
          (pay_merge server json config merge payload delivery program.id
            contributor.stellar_address hash)
          Any
  unfolding pay_merge
  pay_merge-OnCourse merge program contributor payload delivery hash attests active registered =
      bind-Keeps (load_reward_per_point-Found server quiet program.id) (λ r (rated, rate, same).
        rw same (
          bind-Keeps
            (persist_payout-Stored merge program rated contributor hash attests active registered
              rate)
            (λ o stored.
              then-Keeps
                (increment-OnCourse program.id (pos merge.points *ℤ rated.reward_per_point) stored)
                (λ _ _.
                  then-Keeps (logs-OnCourse _ _ _ _ _ _ _) (λ _ _. return-Keeps {R = Any} _ tt)))))

  attest_merge-OnCourse :
      (merge : MergeAttestation) (program : ProgramRow) (payload : J) (delivery : Option Text)
      (on_chain : ℕ)
      → Attests json config k request merge
      → Found OnCourse (active_program merge.github_repo) program
      → Keeps OnCourse
          (attest_merge server json config merge payload delivery program.id on_chain)
          Any
  unfolding attest_merge
  attest_merge-OnCourse merge program payload delivery on_chain attests active =
      bind-Keeps
        (renamed-Keeps merge program.id _
          (resolve_contributor_address-Found server quiet program.id merge.github_username))
        (λ address (contributor, registered, same). rw same (
          bind-Keeps (lift-Keeps {R = Any} _ (λ _ _. tt)) (λ hash _.
            pay_merge-OnCourse merge program contributor payload delivery hash attests active
              registered)))

  process_merge-OnCourse :
      (payload : J) (event : GitHubPullRequestEvent) (delivery : Option Text)
      → verify_github_signature k
          (as_bytes config.github_webhook_secret)
          request.body
          (unwrap_or [] request.signature)
        ≡ ok tt
      → json.from_slice request.body ≡ inr payload
      → json.from_value payload ≡ inr event
      → Keeps OnCourse (process_merge server json config event payload delivery) Any
  unfolding process_merge
  process_merge-OnCourse payload event delivery accepted read made =
      bind-Keeps (lift-Keeps {R = λ merge. parse_merge_event event ≡ ok merge} _ (λ merge h. h))
        (λ merge merged.
          let attests : Attests json config k request merge = record {
            payload = payload;
            event = event;
            accepted = accepted;
            read = read;
            made = made;
            merged = merged;
          } in
          bind-Keeps (resolve_program_id-Found server quiet merge.github_repo)
            (λ found (program, active, same). rw same (
              bind-Keeps (load_program_status-Keeps server quiet program.id) (λ status _.
                then-Keeps (lift-Keeps {R = Any} _ (λ _ _. tt)) (λ _ _.
                  bind-Keeps (payout_exists-Keeps server quiet program.id merge.pr_number)
                    (λ exists _.
                      if-Keeps exists
                        (bind-Keeps (fetch_payout_id-Keeps server quiet program.id merge.pr_number)
                          (λ o _. return-Keeps {R = Any} _ tt))
                        (attest_merge-OnCourse merge program payload delivery _ attests
                          active)))))))

  pub github_webhook-Course :
      (turn : ℕ)
      → Course server json config k request start
          ((github_webhook server json config k request (record { db = start; turn = turn })).1.db)
  github_webhook-Course turn =
      github_webhook-guarded server quiet json config logs-OnCourse claims-OnCourse k request
        process_merge-OnCourse (record { db = start; turn = turn }) begun
