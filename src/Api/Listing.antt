-- ===== src/Api/Listing.antt =====
-- crates/api/src/routes/mod.rs: the handlers that list rows.
use wave_flow.Database.Statements.{
  ◌>>=◌, ◌>>◌, Query, lift, query, select, find, database_error, filter,
}
use wave_flow.Api.Order.{order_by, descending, ascending}
use wave_flow.Database.Tables.{Server}
use wave_flow.Shared.Types.{Uuid, ContributorRecord, PayoutRecord, ProgramRecord}
use wave_flow.Common.{List, ◌==◌, map, not, is_some, ◌∷◌, []}
use wave_flow.Shared.Error.{ok, fail_if, not_found, word, shown}
use wave_flow.Api.Public.{payout_record, program_record, contributor_record}
use wave_flow.Common.Text.{codes}

module _ {J : Type 0} (server : Server J) where
  unfoldable pub list_programs : Query J (List ProgramRecord)
  list_programs = do
    rows ←
        query server (select (λ db. order_by descending (λ p. p.created_at) db.programs))
          database_error
    lift (ok (map program_record rows))

  unfoldable pub list_payouts : Uuid → Query J (List PayoutRecord)
  list_payouts id = do
    rows ←
        query server
          (select (λ db.
            order_by descending (λ p. p.created_at) (filter (λ p. p.program_id == id) db.payouts)))
          database_error
    lift (ok (map payout_record rows))

  unfoldable pub list_contributors : Uuid → Query J (List ContributorRecord)
  list_contributors id = do
    exists ← query server (select (λ db. find (λ p. p.id == id) db.programs)) database_error
    lift (
        fail_if (not (is_some exists))
          (not_found (word (codes "program ") ∷ shown id ∷ word (codes " not found") ∷ [])))
    rows ←
        query server
          (select (λ db.
            order_by ascending (λ c. c.registered_at)
              (filter (λ c. c.program_id == id) db.contributors)))
          database_error
    lift (ok (map contributor_record rows))
