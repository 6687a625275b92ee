-- ===== src/Database/Writes.antt =====
-- What one statement of the two services can make of the tables of migrations/001 and 002, and what the
use mathlib.Core.Path.{subst}
use wave_flow.Database.Tables.{ContributorRow, Db, PayoutRow, ProgramRow, Server, WebhookEvent}
use wave_flow.Common.Int.{ℤ, pos, ◌<ℤ◌}
use wave_flow.Common.{
  Bool, ℕ, ◌≡◌, if◌then◌else◌, true, Bool-cases, ◌∷◌, ◌⊎◌, inl, inr, refl, map, ◌==◌,
}
use wave_flow.Database.Statements.{
  insert_payout, insert_webhook_event, payout_fits, done, update_spent, event_fits, spend_row,
}
use wave_flow.Database.Triples.{IsQuiet}
use wave_flow.Shared.Types.{Uuid}
use wave_flow.Database.Registration.{
  insert_contributor, update_programs, insert_program, program_fits, contributor_fits,
}
use wave_flow.Common.Text.{codes}
use wave_flow.Database.Laws.{
  insert_contributor_done, insert_payout_done, insert_webhook_event_done, insert_program_done,
  update_programs_done, update_spent_done,
}

-- statements of many requests can make of them together.

-- A row of `programs` that the admin routes can have left.
abbrev pub IsRowValid : ProgramRow → Type 0
IsRowValid p =
    (pos 0 <ℤ p.reward_per_point) × ((p.status ≡ codes "active") ⊎ (p.status ≡ codes "paused"))

-- An update keeps the keys of a row and its validity.
abbrev pub IsHarmless : (ProgramRow → ProgramRow) → Type 0
IsHarmless change =
    (p : ProgramRow)
    → ((change p).id ≡ p.id)
      × ((change p).on_chain_program_id ≡ p.on_chain_program_id)
      × ((change p).github_repo ≡ p.github_repo)
      × (IsRowValid p → IsRowValid (change p))

pub data Write {J : Type 0} (db : Db J) : Db J → Type 0 where
  wrote_payout :
      (new : PayoutRow)
      → payout_fits new db ≡ true
      → Write db (record db { payouts = new ∷ db.payouts })
  wrote_event :
      (new : WebhookEvent J)
      → event_fits new db ≡ true
      → Write db (record db { webhook_events = new ∷ db.webhook_events })
  wrote_program :
      (new : ProgramRow)
      → new.status ≡ codes "active"
      → program_fits new db ≡ true
      → Write db (record db { programs = new ∷ db.programs })
  wrote_contributor :
      (new : ContributorRow)
      → contributor_fits new db ≡ true
      → Write db (record db { contributors = new ∷ db.contributors })
  changed_programs :
      (change : ProgramRow → ProgramRow)
      → IsHarmless change
      → Write db (record db { programs = map change db.programs })

-- Any number of writes.
pub data Writes {J : Type 0} (db : Db J) : Db J → Type 0 where
  unwritten : Writes db db
  written : {db₁ db₂ : Db J} → Writes db db₁ → Write db₁ db₂ → Writes db db₂

-- A property that every write keeps.
pub record IsStable {J : Type 0} (P : Db J → Type 0) : Type 0 where
  pub kept : (db db' : Db J) → Write db db' → P db → P db'

-- What other requests make of the tables between two statements of a request is a chain of writes.
pub record IsPeaceful {J : Type 0} (server : Server J) : Type 0 where
  pub peaceful : (n : ℕ) (db : Db J) → Writes db (server.others n db)

module _ {J : Type 0} {P : Db J → Type 0} where
  Writes-kept : IsStable P → {db db' : Db J} → Writes db db' → P db → P db'
  Writes-kept stable unwritten p = p
  Writes-kept stable (written ws w) p = stable.kept _ _ w (Writes-kept stable ws p)

  pub stable-IsQuiet : {server : Server J} → IsStable P → IsPeaceful server → IsQuiet server P
  stable-IsQuiet stable peace = λ n db p. Writes-kept stable (peace.peaceful n db) p

pub Writes-IsStable : {J : Type 0} {db : Db J} → IsStable (Writes db)
Writes-IsStable = record { kept = λ db db' w ws. written ws w }

if_IsHarmless :
    (which : ProgramRow → Bool) (change : ProgramRow → ProgramRow)
    → IsHarmless change
    → IsHarmless (λ p. if which p then change p else p)
if_IsHarmless which change h p = elim (Bool-cases (which p)) [
  | inl e ↦ rw e (h p)
  | inr e ↦ rw e (refl, refl, refl, λ v. v)
]

-- The statements that are carried out are writes.
module _ {J : Type 0} where
  pub insert_payout-Write :
      (new : PayoutRow) (db db' : Db J) → insert_payout new db ≡ done (tt, db') → Write db db'
  insert_payout-Write new db db' h =
      let (fits, same) = insert_payout_done new db db' h in
      subst (Write db) same (wrote_payout new fits)

  pub insert_webhook_event-Write :
      (new : WebhookEvent J) (db db' : Db J)
      → insert_webhook_event new db ≡ done (tt, db')
      → Write db db'
  insert_webhook_event-Write new db db' h =
      let (fits, same) = insert_webhook_event_done new db db' h in
      subst (Write db) same (wrote_event new fits)

  pub update_spent-Write :
      (amount : ℤ) (id : Uuid) (db db' : Db J)
      → update_spent amount id db ≡ done (tt, db')
      → Write db db'
  update_spent-Write amount id db db' h =
      subst (Write db) (update_spent_done amount id db db' h).1 (
        changed_programs _
          (if_IsHarmless (λ p. p.id == id) (spend_row amount) (λ p. (refl, refl, refl, λ v. v))))

  pub insert_program-Write :
      (new : ProgramRow) (db db' : Db J)
      → new.status ≡ codes "active"
      → insert_program new db ≡ done (tt, db')
      → Write db db'
  insert_program-Write new db db' active h =
      let (fits, same) = insert_program_done new db db' h in
      subst (Write db) same (wrote_program new active fits)

  pub insert_contributor-Write :
      (new : ContributorRow) (db db' : Db J)
      → insert_contributor new db ≡ done (tt, db')
      → Write db db'
  insert_contributor-Write new db db' h =
      let (fits, same) = insert_contributor_done new db db' h in
      subst (Write db) same (wrote_contributor new fits)

  pub update_programs-Write :
      (which : ProgramRow → Bool) (change : ProgramRow → ProgramRow) (n : ℕ) (db db' : Db J)
      → IsHarmless change
      → update_programs which change db ≡ done (n, db')
      → Write db db'
  update_programs-Write which change n db db' harmless h =
      subst (Write db) (update_programs_done which change n db db' h)
        (changed_programs _ (if_IsHarmless which change harmless))
