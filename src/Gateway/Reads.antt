-- ===== src/Gateway/Reads.antt =====
-- crates/gateway/src/attestation.rs: what the values that its queries read say of the tables.
use wave_flow.Common.{refl, Option, ◌≡◌, some, arith, none, ◌∙◌}
use wave_flow.Database.Tables.{Db, Server, ContributorRow, ProgramRow, World}
use wave_flow.Shared.Error.{WaveFlowError, ok_or, ok, WaveFlowResult, err}
use wave_flow.Database.Triples.{
  IsQuiet, Keeps, bind-Keeps, select-Seen, lift-Keeps, return-Keeps, Safe,
}
use wave_flow.Gateway.Attestation.{
  load_reward_per_point, resolve_contributor_address, resolve_program_id,
}
use wave_flow.Database.Statements.{query, select, database_error, ◌>>=◌, lift, Query}
use wave_flow.Common.Text.{Text}
use wave_flow.Shared.Types.{Uuid}
use wave_flow.Gateway.Course.{active_program, contributor_of, program_of}
use wave_flow.Common.Int.{as_u64}
use wave_flow.Gateway.Webhook.{MergeAttestation}
use wave_flow.Gateway.Routes.{renamed, renamed_error}

pub ok_or-some :
    {A : Type 0} (o : Option A) (e : WaveFlowError) (a : A) → ok_or o e ≡ ok a → o ≡ some a
ok_or-some none e a h = absurd (ground arith)
ok_or-some (some b) e a h = ground arith

module _ {J : Type 0} (P : Db J → Type 0) where
  -- A row that was found at a moment when `P` held.
  abbrev pub Found : {A : Type 0} → (Db J → Option A) → A → Type 0
  Found look row = (db : Db J) × P db × (look db ≡ some row)

module _ {J : Type 0} {P : Db J → Type 0} (server : Server J) (quiet : IsQuiet server P) where
  read-Found :
      {A B : Type 0} (look : Db J → Option A) (e : WaveFlowError) (value_of : A → B)
      → Keeps P
          (query server (select look) database_error >>= λ row.
            lift (ok_or row e) >>= λ a. lift (ok (value_of a)))
          (λ b. (a : A) × Found P look a × (b ≡ value_of a))
  read-Found {A} {B} look e value_of =
      bind-Keeps (select-Seen server quiet look database_error) (λ row seen.
        bind-Keeps
          (lift-Keeps {R = Found P look} (ok_or row e)
            (λ a h. (seen.0, seen.1, seen.2 ∙ ok_or-some row e a h)))
          (λ a found. return-Keeps (value_of a) (a, found, refl)))

  pub resolve_program_id-Found :
      (repo : Text)
      → Keeps P (resolve_program_id server repo) (λ r.
        (program : ProgramRow) × Found P (active_program repo) program
        × (r ≡ (program.id, as_u64 program.on_chain_program_id)))
  unfolding resolve_program_id
  resolve_program_id-Found repo =
      read-Found (active_program repo) _ (λ p. (p.id, as_u64 p.on_chain_program_id))

  pub load_reward_per_point-Found :
      (id : Uuid)
      → Keeps P (load_reward_per_point server id) (λ r.
        (program : ProgramRow) × Found P (program_of id) program × (r ≡ program.reward_per_point))
  unfolding load_reward_per_point
  load_reward_per_point-Found id = read-Found (program_of id) _ (λ p. p.reward_per_point)

  pub resolve_contributor_address-Found :
      (id : Uuid) (name : Text)
      → Keeps P
          (resolve_contributor_address server id name)
          (λ r. (c : ContributorRow) × Found P (contributor_of id name) c × (r ≡ c.stellar_address))
  unfolding resolve_contributor_address
  resolve_contributor_address-Found id name =
      read-Found (contributor_of id name) _ (λ c. c.stellar_address)

-- The change of an error's message keeps what a query keeps.
pub renamed-Keeps :
    {J A : Type 0} {P : Db J → Type 0} {Q : A → Type 0} (merge : MergeAttestation) (id : Uuid)
    (m : Query J A)
    → Keeps P m Q
    → Keeps P (renamed merge id m) Q
renamed-Keeps {J} {A} {P} {Q} merge id m h = record { keeps = λ w p. go (m w) (h.keeps w p) }
  where
    go :
        (x : WaveFlowResult A × World J)
        → Safe {A = A} P Q x
        → Safe {A = A} P Q (elim (x.0) as (λ _. WaveFlowResult A × World J) [
          | ok a ↦ (ok a, x.1)
          | err e ↦ (err (renamed_error merge id e), x.1)
        ])
    go (ok a, w) p = p
    go (err e, w) p = p
