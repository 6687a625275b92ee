-- ===== src/Services/Sound.antt =====
-- The invariant of all tables under the requests to crates/gateway/src and crates/api/src.
use wave_flow.Common.{◌≡◌, List, All, any, map, true, ◌∷◌, arith, ◌==◌, ◌∙◌, [], refl}
use wave_flow.Database.Tables.{Db, ProgramRow, ContributorRow, PayoutRow}
use wave_flow.Database.Statements.{payout_fits}
use wave_flow.Database.Registration.{contributor_fits}
use wave_flow.Database.Writes.{
  IsStable, IsHarmless, Write, wrote_payout, wrote_event, wrote_program, wrote_contributor,
  changed_programs,
}
use wave_flow.Shared.Types.{Uuid}
use wave_flow.Gateway.Consistent.{IsConsistent, IsConsistent-IsStable}
use wave_flow.Api.Registry.{IsRegistry, IsRegistry-IsStable}

-- Every row refers to a program that there is.
abbrev pub AreOwned : List ProgramRow → List Uuid → Type 0
AreOwned programs ids = All (λ id. any (λ p. p.id == id) programs ≡ true) ids

pub record IsSound {J : Type 0} (db : Db J) : Type 0 where
  pub consistent : IsConsistent db
  pub registry : IsRegistry db
  pub payouts_owned : AreOwned db.programs (map (λ p. p.program_id) db.payouts)
  pub contributors_owned : AreOwned db.programs (map (λ c. c.program_id) db.contributors)

owned_new :
    (new : ProgramRow) (programs : List ProgramRow) (ids : List Uuid)
    → AreOwned programs ids
    → AreOwned (new ∷ programs) ids
owned_new new programs [] h = tt
owned_new new programs (id ∷ ids) h = (ground arith, owned_new new programs ids h.1)

any_id :
    (change : ProgramRow → ProgramRow)
    → IsHarmless change
    → (id : Uuid) (rows : List ProgramRow)
    → any (λ p. p.id == id) (map change rows) ≡ any (λ p. p.id == id) rows
any_id change h id [] = refl
any_id change h id (p ∷ rows) = rw ((h p).0, any_id change h id rows) refl

owned_changed :
    (change : ProgramRow → ProgramRow)
    → IsHarmless change
    → (rows : List ProgramRow) (ids : List Uuid) → AreOwned rows ids
    → AreOwned (map change rows) ids
owned_changed change h rows [] o = tt
owned_changed change h rows (id ∷ ids) o =
    (any_id change h id rows ∙ o.0, owned_changed change h rows ids o.1)

module _ {J : Type 0} where
  payout_owned :
      (new : PayoutRow) (db : Db J)
      → payout_fits new db ≡ true
      → any (λ p. p.id == new.program_id) db.programs ≡ true
  unfolding payout_fits
  payout_owned new db h = ground arith

  contributor_owned :
      (new : ContributorRow) (db : Db J)
      → contributor_fits new db ≡ true
      → any (λ p. p.id == new.program_id) db.programs ≡ true
  unfolding contributor_fits
  contributor_owned new db h = ground arith

  pub IsSound-IsStable : IsStable (IsSound {J = J})
  IsSound-IsStable = record { kept = λ db db' write p. go db db' write p }
    where
      owned :
          (db db' : Db J)
          → Write db db'
          → IsSound db
          → AreOwned db'.programs (map (λ p. p.program_id) db'.payouts)
            × AreOwned db'.programs (map (λ c. c.program_id) db'.contributors)
      owned db _ (wrote_payout new fits) p =
          ((payout_owned new db fits, p.payouts_owned), p.contributors_owned)
      owned db _ (wrote_event new fits) p = (p.payouts_owned, p.contributors_owned)
      owned db _ (wrote_program new _ _) p = (
        owned_new new db.programs _ p.payouts_owned,
        owned_new new db.programs _ p.contributors_owned,
      )
      owned db _ (wrote_contributor new fits) p =
          (p.payouts_owned, (contributor_owned new db fits, p.contributors_owned))
      owned db _ (changed_programs change h) p = (
        owned_changed change h db.programs _ p.payouts_owned,
        owned_changed change h db.programs _ p.contributors_owned,
      )

      go : (db db' : Db J) → Write db db' → IsSound db → IsSound db'
      go db db' write p =
          let o = owned db db' write p in
          record {
            consistent = IsConsistent-IsStable.kept db db' write p.consistent;
            registry = IsRegistry-IsStable.kept db db' write p.registry;
            payouts_owned = o.0;
            contributors_owned = o.1;
          }
