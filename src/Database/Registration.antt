-- ===== src/Database/Registration.antt =====
-- The statements on programs and contributors that crates/api/src sends.
use wave_flow.Database.Tables.{ContributorRow, ProgramRow, Db, violated}
use wave_flow.Common.{Bool, any, if◌then◌else◌, ℕ, ◌==◌, ◌&&◌, ◌||◌, not, ◌∷◌, List, map, suc, []}
use wave_flow.Database.Statements.{Statement, done, failed}
use wave_flow.Common.Int.{ltb_ℤ, pos, same_ℤ}
use wave_flow.Common.Text.{same}

-- The PRIMARY KEY, UNIQUE and CHECK constraints of `programs`.
abbrev pub same_registration : ProgramRow → ProgramRow → Bool
same_registration new row =
    row.id == new.id
    || same_ℤ row.on_chain_program_id new.on_chain_program_id
    || same row.github_repo new.github_repo

abbrev pub same_contributor : ContributorRow → ContributorRow → Bool
same_contributor new row =
    row.program_id == new.program_id && same row.github_username new.github_username

abbrev pub count {ℓ} : {A : Type ℓ} → (A → Bool) → List A → ℕ
count p [] = 0
count p (x ∷ xs) = let rest = count p xs in if p x then suc rest else rest

module _ {J : Type 0} where
  unfoldable pub program_fits : ProgramRow → Db J → Bool
  program_fits new db =
      ltb_ℤ (pos 0) new.reward_per_point && not (any (same_registration new) db.programs)

  unfoldable pub insert_program : ProgramRow → Statement J (Unit {0})
  insert_program new db =
      if program_fits new db
      then done (tt, record db { programs = new ∷ db.programs })
      else failed violated

  -- The FOREIGN KEY and the PRIMARY KEY of `contributors`.
  unfoldable pub contributor_fits : ContributorRow → Db J → Bool
  contributor_fits new db =
      any (λ p. p.id == new.program_id) db.programs
      && not (any (same_contributor new) db.contributors)

  unfoldable pub insert_contributor : ContributorRow → Statement J (Unit {0})
  insert_contributor new db =
      if contributor_fits new db
      then done (tt, record db { contributors = new ∷ db.contributors })
      else failed violated

  -- `UPDATE programs SET … WHERE …`: the number of rows that the condition selects.
  unfoldable pub update_programs : (ProgramRow → Bool) → (ProgramRow → ProgramRow) → Statement J ℕ
  update_programs which change db = done (
    count which db.programs,
    record db { programs = map (λ p. if which p then change p else p) db.programs },
  )
