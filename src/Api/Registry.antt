-- ===== src/Api/Registry.antt =====
-- crates/api/src/routes/admin.rs: the invariant of programs and contributors.
use wave_flow.Common.{refl, List, ◌≡◌, All, any, map, inl, ◌∷◌, [], ◌∙◌, true, arith}
use wave_flow.Database.Tables.{Db, ProgramRow, ContributorRow}
use wave_flow.Database.Registration.{
  same_registration, same_contributor, contributor_fits, program_fits,
}
use wave_flow.Gateway.Consistent.{Distinct}
use wave_flow.Common.Text.{codes}
use wave_flow.Database.Writes.{
  IsHarmless, IsRowValid, IsStable, Write, wrote_program, wrote_contributor, changed_programs,
  wrote_payout, wrote_event,
}

-- No two programs share an id, a number on the chain or a repository, every ratio is positive and every
-- status one of two, and no contributor is registered twice with a program.
pub record IsRegistry {J : Type 0} (db : Db J) : Type 0 where
  pub programs_once : Distinct same_registration db.programs
  pub rows_valid : All IsRowValid db.programs
  pub contributors_once : Distinct same_contributor db.contributors

any_harmless :
    (change : ProgramRow → ProgramRow)
    → IsHarmless change
    → (new : ProgramRow) (rows : List ProgramRow)
    → any (same_registration (change new)) (map change rows) ≡ any (same_registration new) rows
any_harmless change h new [] = refl
any_harmless change h new (p ∷ rows) =
    rw (any_harmless change h new rows, (h new).0, (h new).1, (h new).2, (h p).0, (h p).1, (h p).2)
      refl

Distinct-map :
    (change : ProgramRow → ProgramRow)
    → IsHarmless change
    → (rows : List ProgramRow) → Distinct same_registration rows
    → Distinct same_registration (map change rows)
Distinct-map change h [] d = tt
Distinct-map change h (p ∷ rows) d =
    (any_harmless change h p rows ∙ d.0, Distinct-map change h rows d.1)

All-map :
    (change : ProgramRow → ProgramRow)
    → IsHarmless change
    → (rows : List ProgramRow) → All IsRowValid rows
    → All IsRowValid (map change rows)
All-map change h [] v = tt
All-map change h (p ∷ rows) v = ((h p).3 v.0, All-map change h rows v.1)

module _ {J : Type 0} where
  program-IsRegistry :
      (new : ProgramRow) (db : Db J)
      → new.status ≡ codes "active"
      → IsRegistry db
      → program_fits new db ≡ true
      → IsRegistry (record db { programs = new ∷ db.programs })
  unfolding program_fits
  program-IsRegistry new db active p fits = record {
    programs_once = (ground arith, p.programs_once);
    rows_valid = ((ground arith, inl active), p.rows_valid);
    contributors_once = p.contributors_once;
  }

  contributor-IsRegistry :
      (new : ContributorRow) (db : Db J)
      → IsRegistry db
      → contributor_fits new db ≡ true
      → IsRegistry (record db { contributors = new ∷ db.contributors })
  unfolding contributor_fits
  contributor-IsRegistry new db p fits = record {
    programs_once = p.programs_once;
    rows_valid = p.rows_valid;
    contributors_once = (ground arith, p.contributors_once);
  }

  pub IsRegistry-IsStable : IsStable (IsRegistry {J = J})
  IsRegistry-IsStable = record { kept = λ db db' write p. go db db' write p }
    where
      go : (db db' : Db J) → Write db db' → IsRegistry db → IsRegistry db'
      go db _ (wrote_program new active fits) p = program-IsRegistry new db active p fits
      go db _ (wrote_contributor new fits) p = contributor-IsRegistry new db p fits
      go db _ (changed_programs change h) p = record {
        programs_once = Distinct-map change h db.programs p.programs_once;
        rows_valid = All-map change h db.programs p.rows_valid;
        contributors_once = p.contributors_once;
      }
      go db _ (wrote_payout _ _) p = record {
        programs_once = p.programs_once;
        rows_valid = p.rows_valid;
        contributors_once = p.contributors_once;
      }
      go db _ (wrote_event _ _) p = record {
        programs_once = p.programs_once;
        rows_valid = p.rows_valid;
        contributors_once = p.contributors_once;
      }
