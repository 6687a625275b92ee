-- ===== src/Gateway/Backed.antt =====
-- crates/gateway/src/routes.rs: the payouts of a delivery that no other request overlaps.
use wave_flow.Database.Tables.{ProgramRow, Server, Db, PayoutRow, ContributorRow}
use wave_flow.Common.{
  Option, Bool, map_option, List, ◌≡◌, map, some, arith, if◌then◌else◌, sym, ◌∷◌, Bool-cases, ap, ℕ,
  ◌==◌, ◌∙◌, inl, unwrap_or, ◌++◌, All, [], inr, none, refl, ◌&&◌,
}
use wave_flow.Common.Int.{ℤ, pos}
use wave_flow.Gateway.Attestation.{Json}
use wave_flow.Shared.Types.{Uuid}
use wave_flow.Shared.Config.{AppConfig}
use wave_flow.Gateway.Webhook.{Primitives, MergeAttestation}
use wave_flow.Database.Statements.{find, spend_row}
use wave_flow.Gateway.Routes.{Delivery, github_webhook}
use wave_flow.Gateway.Course.{
  begun, Course, Attests, active_program, others_wrote, contributor_of, program_of, Pays, logged,
  counted, paid,
}
use wave_flow.Gateway.Honest.{github_webhook-Course}
use mathlib.Core.Path.{subst}
use wave_flow.Common.Text.{same, codes}
use wave_flow.Database.Laws.{find-map}

-- A program without its counters.
abbrev core : ProgramRow → ProgramRow
core p = record p { milestone_spent = pos 0; escrow_balance = pos 0 }

some-core :
    (o : Option ProgramRow) (p : ProgramRow)
    → map_option core o ≡ some (core p)
    → (p' : ProgramRow) × (o ≡ some p') × (core p' ≡ core p)
some-core none p h = absurd (ground arith)
some-core (some p') p h = (p', refl, ap (λ o. unwrap_or (core p) o) h)

found_there :
    (q : ProgramRow → Bool) (rows rows' : List ProgramRow) (p : ProgramRow)
    → ((p : ProgramRow) → q (core p) ≡ q p)
    → map core rows ≡ map core rows'
    → find q rows ≡ some p
    → (p' : ProgramRow) × (find q rows' ≡ some p') × (core p' ≡ core p)
found_there q rows rows' p h same found = some-core (find q rows') p (
    sym (find-map q core h rows')
    ∙ ap (find q) (sym same)
    ∙ find-map q core h rows
    ∙ ap (map_option core) found)

core_spent :
    (amount : ℤ) (id : Uuid) (rows : List ProgramRow)
    → map core (map (λ p. if p.id == id then spend_row amount p else p) rows) ≡ map core rows
core_spent amount id [] = refl
core_spent amount id (p ∷ rows) = elim (Bool-cases (p.id == id)) [
  | inl e ↦ rw (e, core_spent amount id rows) refl
  | inr e ↦ rw (e, core_spent amount id rows) refl
]

module _ {J : Type 0} (json : Json J) (config : AppConfig) (k : Primitives) (request : Delivery)
    (start : Db J) where
  -- The payout is for the merge that the signed body tells of, to the contributor registered with the
  -- active program of the repository, at the ratio of the program.
  pub record IsBacked (new : PayoutRow) : Type 0 where
    pub merge : MergeAttestation
    pub program : ProgramRow
    pub rated : ProgramRow
    pub contributor : ContributorRow
    pub attests : Attests json config k request merge
    pub active : active_program merge.github_repo start ≡ some program
    pub rate : program_of program.id start ≡ some rated
    pub registered : contributor_of program.id merge.github_username start ≡ some contributor
    pub pays : Pays new merge program contributor rated

  pub record OnlyBacked (db : Db J) : Type 0 where
    pub same_programs : map core db.programs ≡ map core start.programs
    pub same_contributors : db.contributors ≡ start.contributors
    pub added : List PayoutRow
    pub after : db.payouts ≡ added ++ start.payouts
    pub backed : All IsBacked added

  attested-IsBacked :
      {db₁ db₂ db₃ : Db J} {merge : MergeAttestation} {program rated : ProgramRow}
      {contributor : ContributorRow} (new : PayoutRow)
      → Attests json config k request merge
      → OnlyBacked db₁
      → active_program merge.github_repo db₁ ≡ some program
      → OnlyBacked db₂
      → contributor_of program.id merge.github_username db₂ ≡ some contributor
      → OnlyBacked db₃
      → program_of program.id db₃ ≡ some rated
      → Pays new merge program contributor rated
      → IsBacked new
  attested-IsBacked {db₁} {db₂} {db₃} {merge} {program} {rated} {contributor} new attests o₁ active
        o₂ registered o₃ rate pays =
      let (program', active', equal) =
        found_there (λ p. same p.github_repo merge.github_repo && same p.status (codes "active"))
          db₁.programs start.programs program (λ p. refl) o₁.same_programs active in
      let (rated', rate', alike) =
        found_there (λ p. p.id == program.id) db₃.programs start.programs rated (λ p. refl)
          o₃.same_programs rate in
      let ids : program'.id ≡ program.id = ap (λ p. p.id) equal in
      let ratios : rated'.reward_per_point ≡ rated.reward_per_point =
        ap (λ p. p.reward_per_point) alike in
      record {
        merge = merge;
        program = program';
        rated = rated';
        contributor = contributor;
        attests = attests;
        active = active';
        rate = rw ids rate';
        registered = rw (ids, sym o₂.same_contributors) registered;
        pays = record {
          program_id = pays.program_id ∙ sym ids;
          pr_number = pays.pr_number;
          github_username = pays.github_username;
          points = pays.points;
          stellar_address = pays.stellar_address;
          amount = rw ratios pays.amount;
        };
      }

module _ {J : Type 0} (server : Server J) (json : Json J) (config : AppConfig) (k : Primitives)
    (request : Delivery) (start : Db J) where
  course-OnlyBacked :
      ((n : ℕ) (db : Db J) → server.others n db ≡ db)
      → {db : Db J} → Course server json config k request start db
      → OnlyBacked json config k request start db
  course-OnlyBacked alone begun = record {
    same_programs = refl;
    same_contributors = refl;
    added = [];
    after = refl;
    backed = tt;
  }
  course-OnlyBacked alone (others_wrote {db} n c) =
      subst (OnlyBacked json config k request start) (sym (alone n db)) (course-OnlyBacked alone c)
  course-OnlyBacked alone (logged new c) =
      let o = course-OnlyBacked alone c in
      record {
        same_programs = o.same_programs;
        same_contributors = o.same_contributors;
        added = o.added;
        after = o.after;
        backed = o.backed;
      }
  course-OnlyBacked alone (counted {db} new c stored _) =
      let o = course-OnlyBacked alone c in
      record {
        same_programs = core_spent new.amount new.program_id db.programs ∙ o.same_programs;
        same_contributors = o.same_contributors;
        added = o.added;
        after = o.after;
        backed = o.backed;
      }
  course-OnlyBacked alone (paid new c attests c₁ active c₂ registered c₃ rate pays) =
      let o = course-OnlyBacked alone c in
      record {
        same_programs = o.same_programs;
        same_contributors = o.same_contributors;
        added = new ∷ o.added;
        after = ap (λ ps. new ∷ ps) o.after;
        backed = (
          attested-IsBacked json config k request start new attests (course-OnlyBacked alone c₁)
              active (course-OnlyBacked alone c₂) registered (course-OnlyBacked alone c₃) rate pays,
          o.backed,
        );
      }

-- A delivery that no other request overlaps adds payouts only that are backed by the tables as it finds
-- them, whatever becomes of each statement: its signature is accepted, its body is a merge to the
-- default branch, the repository has an active program, the author is registered with it, and the
-- amount is the points times the ratio of the program. The contributors stay as they are, and the
-- programs but for their counters.
pub github_webhook-OnlyBacked :
    {J : Type 0} (server : Server J) (json : Json J) (config : AppConfig) (k : Primitives)
    (request : Delivery) (start : Db J) (turn : ℕ)
    → ((n : ℕ) (db : Db J) → server.others n db ≡ db)
    → OnlyBacked json config k request start
        ((github_webhook server json config k request (record { db = start; turn = turn })).1.db)
github_webhook-OnlyBacked server json config k request start turn alone =
    course-OnlyBacked server json config k request start alone
      (github_webhook-Course server json config k request start turn)
