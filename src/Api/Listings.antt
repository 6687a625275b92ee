-- ===== src/Api/Listings.antt =====
-- crates/api/src/routes/mod.rs: what the handlers that list rows answer.
use mathlib.Core.List.{Perm, []}
use wave_flow.Common.{
  any, List, ◌≡◌, map, ◌==◌, suc, ap, ◌∙◌, none, false, ◌∷◌, ◌⊎◌, some, true, inl, Bool-cases,
  Option, inr, not, is_some, refl,
}
use wave_flow.Api.Order.{
  Direction, descending, order_by, order_by-perm, order_by-IsOrdered, IsOrdered, ascending,
}
use wave_flow.Database.Tables.{Server, Db, World, carried_out, ProgramRow}
use wave_flow.Shared.Types.{DateTime, Uuid, ContributorRecord}
use wave_flow.Api.Listing.{list_programs, list_payouts, list_contributors}
use wave_flow.Shared.Error.{WaveFlowResult, ok, WaveFlowError, not_found, word, err, shown, fail_if}
use wave_flow.Database.Statements.{
  query, select, database_error, filter, ◌>>=◌, lift, find, ◌>>◌, Query,
}
use wave_flow.Api.Public.{program_record, payout_record, contributor_record}
use wave_flow.Database.Laws.{select_carried_out, bind_value, lift_value}
use wave_flow.Common.Text.{codes}

-- The records of exactly these rows, in the order of their times.
abbrev pub IsListing :
    {R A : Type 0}
    → Direction
    → (R → DateTime)
    → (R → A)
    → List R
    → WaveFlowResult (List A)
    → Type 0
IsListing {R} direction time record_of rows answer =
    (listed : List R) × (answer ≡ ok (map record_of listed))
    × Perm listed rows
    × IsOrdered direction time listed

abbrev pub no_such_program : Uuid → WaveFlowError
no_such_program id = not_found (word (codes "program ") ∷ shown id ∷ word (codes " not found") ∷ [])

module _ {J : Type 0} (server : Server J) where
  ordered_read :
      {R A : Type 0} (direction : Direction) (time : R → DateTime) (record_of : R → A)
      (table : Db J → List R) (w : World J)
      → server.fate w.turn ≡ carried_out
      → IsListing direction time record_of
          (table (server.others w.turn w.db))
          ((query server (select (λ db. order_by direction time (table db))) database_error
              >>= λ rows. lift (ok (map record_of rows)))
            w).0
  ordered_read {R} {A} direction time record_of table w carried =
      let read : Db J → List R = λ db. order_by direction time (table db) in
      let rows = read (server.others w.turn w.db) in
      let after : World J = record { db = server.others w.turn w.db; turn = suc w.turn } in
      let sent : query server (select read) database_error w ≡ (ok rows, after) =
        select_carried_out server read database_error w carried in
      (
        rows,
        ap (λ x. x.0)
            (bind_value (query server (select read) database_error)
                (λ rows. lift {J = J} (ok (map record_of rows))) w after rows sent
              ∙ lift_value (ok (map record_of rows)) after),
        order_by-perm direction time _,
        order_by-IsOrdered direction time _,
      )

  newest_first :
      (id : Uuid) (w : World J)
      → server.fate w.turn ≡ carried_out
      → IsListing descending
          (λ p. p.created_at)
          program_record
          (server.others w.turn w.db).programs
          (list_programs server w).0
        × IsListing descending
            (λ p. p.created_at)
            payout_record
            (filter (λ p. p.program_id == id) (server.others w.turn w.db).payouts)
            (list_payouts server id w).0
  unfolding list_programs list_payouts
  newest_first id w carried = (
    ordered_read descending (λ p. p.created_at) program_record (λ db. db.programs) w carried,
    ordered_read descending (λ p. p.created_at) payout_record
        (λ db. filter (λ p. p.program_id == id) db.payouts) w carried,
  )

  find_cases :
      (id : Uuid) (rows : List ProgramRow)
      → (find (λ p. p.id == id) rows ≡ none) × (any (λ p. p.id == id) rows ≡ false)
        ⊎ ((row : ProgramRow) × (find (λ p. p.id == id) rows ≡ some row)
            × (any (λ p. p.id == id) rows ≡ true))
  find_cases id [] = inl (refl, refl)
  find_cases id (p ∷ rows) = elim (Bool-cases (p.id == id)) [
    | inl e ↦ rw e (inr (p, refl, refl))
    | inr e ↦ rw e (find_cases id rows)
  ]

  abbrev registered : Uuid → Query J (List ContributorRecord)
  registered id =
      query server
        (select (λ db.
          order_by ascending (λ c. c.registered_at)
            (filter (λ c. c.program_id == id) db.contributors)))
        database_error
      >>= λ rows. lift (ok (map contributor_record rows))

  looked :
      (id : Uuid) (w : World J) (o : Option ProgramRow)
      → server.fate w.turn ≡ carried_out
      → find (λ p. p.id == id) (server.others w.turn w.db).programs ≡ o
      → list_contributors server id w
        ≡ (lift (fail_if (not (is_some o)) (no_such_program id)) >> registered id)
            (record { db = server.others w.turn w.db; turn = suc w.turn })
  unfolding list_contributors
  looked id w o carried e =
      let after : World J = record { db = server.others w.turn w.db; turn = suc w.turn } in
      let look : Db J → Option ProgramRow = λ db. find (λ p. p.id == id) db.programs in
      let sent : query server (select look) database_error w ≡ (ok o, after) =
        select_carried_out server look database_error w carried ∙ ap (λ o. (ok o, after)) e in
      bind_value (query server (select look) database_error)
        (λ o. lift (fail_if (not (is_some o)) (no_such_program id)) >> registered id) w after o sent

  first_registered_first :
      (id : Uuid) (w : World J)
      → server.fate w.turn ≡ carried_out
      → server.fate (suc w.turn) ≡ carried_out
      → ((any (λ p. p.id == id) (server.others w.turn w.db).programs ≡ false)
          × ((list_contributors server id w).0 ≡ err (no_such_program id)))
        ⊎ ((any (λ p. p.id == id) (server.others w.turn w.db).programs ≡ true)
            × IsListing ascending
                (λ c. c.registered_at)
                contributor_record
                (filter
                  (λ c. c.program_id == id)
                  (server.others (suc w.turn) (server.others w.turn w.db)).contributors)
                (list_contributors server id w).0)
  unfolding ◌>>=◌ ◌>>◌ lift
  first_registered_first id w first second =
      let after : World J = record { db = server.others w.turn w.db; turn = suc w.turn } in
      elim (find_cases id (server.others w.turn w.db).programs) [
        | inl gone ↦ inl (gone.1, ap (λ x. x.0) (looked id w none first gone.0))
        | inr here ↦ inr (
          here.2,
          rw (looked id w (some here.0) first here.1) (
              ordered_read ascending (λ c. c.registered_at) contributor_record
                (λ db. filter (λ c. c.program_id == id) db.contributors) after second),
        )
      ]

  -- Where their statements are carried out, the list of programs holds every program once, and the list
  -- of payouts every payout of the program once, the newest first; the list of contributors of a
  -- program that there is holds every one of them once, the first to be registered first, and of any
  -- other program it is an error of the status 404.
  pub listings_ordered :
      (id : Uuid) (w : World J)
      → server.fate w.turn ≡ carried_out
      → server.fate (suc w.turn) ≡ carried_out
      → IsListing descending
          (λ p. p.created_at)
          program_record
          (server.others w.turn w.db).programs
          (list_programs server w).0
        × IsListing descending
            (λ p. p.created_at)
            payout_record
            (filter (λ p. p.program_id == id) (server.others w.turn w.db).payouts)
            (list_payouts server id w).0
        × (((any (λ p. p.id == id) (server.others w.turn w.db).programs ≡ false)
              × ((list_contributors server id w).0 ≡ err (no_such_program id)))
            ⊎ ((any (λ p. p.id == id) (server.others w.turn w.db).programs ≡ true)
                × IsListing ascending
                    (λ c. c.registered_at)
                    contributor_record
                    (filter
                      (λ c. c.program_id == id)
                      (server.others (suc w.turn) (server.others w.turn w.db)).contributors)
                    (list_contributors server id w).0))
  listings_ordered id w first second =
      let (programs, payouts) = newest_first id w first in
      (programs, payouts, first_registered_first id w first second)
