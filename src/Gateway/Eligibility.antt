-- ===== src/Gateway/Eligibility.antt =====
-- crates/gateway/src/routes.rs: when a merge is eligible for a payout.
use wave_flow.Common.{
  Bool, List, ◌≡◌, some, true, arith, none, ℕ, refl, ◌∷◌, Bool-cases, inl, ap, unwrap_or, inr, [],
  false, ◌&&◌, any, ◌==◌, not, suc, zero,
}
use wave_flow.Gateway.Attestation.{submit_attestation, Json, build_attestation}
use wave_flow.Database.Tables.{Server, Db, ProgramRow, ContributorRow, World}
use wave_flow.Common.Text.{Text, same, codes, same_iff}
use wave_flow.Gateway.Reliable.{payout_of}
use wave_flow.Database.Statements.{find, event_fits, payout_fits, spend_fits, Query}
use wave_flow.Shared.Config.{AppConfig}
use wave_flow.Shared.Types.{Uuid}
use wave_flow.Gateway.Webhook.{Primitives, MergeAttestation}
use wave_flow.Shared.Error.{Message, ok, WaveFlowResult, err}
use wave_flow.Gateway.Routes.{Delivery, renamed, renamed_error}
use wave_flow.Common.Int.{ℤ, as_u64, pos, ◌*ℤ◌, i64_try_from}
use wave_flow.Gateway.Course.{Attests, active_program, program_of, contributor_of}
use wave_flow.Gateway.Paying.{payout_row, processed_row}

-- The number of a statement that comes so many statements later.
abbrev pub later : ℕ → ℕ → ℕ
later zero turn = turn
later (suc n) turn = suc (later n turn)

pub renamed_value :
    {J A : Type 0} (merge : MergeAttestation) (id : Uuid) (m : Query J A) (w v : World J) (a : A)
    → m w ≡ (ok a, v)
    → renamed merge id m w ≡ (ok a, v)
renamed_value {J} {A} merge id m w v a h =
    ap
      (λ (x : WaveFlowResult A × World J). elim (x.0) as (λ _. WaveFlowResult A × World J) [
        | ok a ↦ (ok a, x.1)
        | err e ↦ (err (renamed_error merge id e), x.1)
      ])
      h

find-some : {A : Type 0} (q : A → Bool) (rows : List A) (a : A) → find q rows ≡ some a → q a ≡ true
find-some q [] a h = absurd (ground arith)
find-some q (x ∷ rows) a h = elim (Bool-cases (q x)) [
  | inl e ↦ let same : x ≡ a = ap (λ o. unwrap_or a o) (rw e at h) in rw same at e
  | inr e ↦ find-some q rows a (rw e at h)
]

pub active_status :
    {J : Type 0} (repo : Text) (db : Db J) (program : ProgramRow)
    → active_program repo db ≡ some program
    → same program.status (codes "paused") ≡ false
unfolding same
active_status repo db program h =
    let found =
      find-some (λ p. same p.github_repo repo && same p.status (codes "active")) db.programs program
        h in
    let is_active : program.status ≡ codes "active" =
      (same_iff program.status (codes "active")).0 (ground arith) in
    rw is_active refl

-- Nothing stands against the payout of a merge: its program and its contributor are there, it has no
-- payout, its numbers fit the columns, and the row has a fresh identifier.
module _ {J : Type 0} (server : Server J) (config : AppConfig) (db : Db J) (turn : ℕ) where
  pub record IsDue (merge : MergeAttestation) (program : ProgramRow) (contributor : ContributorRow)
      (pr_number amount : ℤ) (hash : Message) : Type 0 where
    pub active : active_program merge.github_repo db ≡ some program
    pub once : program_of program.id db ≡ some program
    pub registered : contributor_of program.id merge.github_username db ≡ some contributor
    pub unpaid : payout_of program.id merge.pr_number db ≡ none
    pub numbered : i64_try_from (pos merge.pr_number) ≡ some pr_number
    pub total : i64_try_from (pos merge.points *ℤ program.reward_per_point) ≡ some amount
    pub transaction :
        submit_attestation config.soroban_rpc_url config.escrow_contract_id
          config.gateway_secret_key
          (build_attestation (as_u64 program.on_chain_program_id) merge)
        ≡ ok hash
    pub payout_fresh :
        payout_fits
          (payout_row server
            (later 5 turn)
            program.id
            merge
            contributor.stellar_address
            pr_number
            amount
            hash)
          db
        ≡ true
    pub counters_fit :
        any (λ p. p.id == program.id && not (spend_fits amount p)) db.programs ≡ false

module _ {J : Type 0} (server : Server J) (json : Json J) (config : AppConfig) (k : Primitives)
    (request : Delivery) (db : Db J) (turn : ℕ) where
  -- The delivery has no id and attests a merge that is due, and its audit row has a fresh identifier.
  pub record IsEligible (merge : MergeAttestation) (program : ProgramRow)
      (contributor : ContributorRow) (pr_number amount : ℤ) (hash : Message) : Type 0 where
    pub attests : Attests json config k request merge
    pub kind : request.event ≡ some (codes "pull_request")
    pub untracked : request.delivery ≡ none
    pub due : IsDue server config db turn merge program contributor pr_number amount hash
    pub event_fresh :
        event_fits (processed_row server (later 7 turn) merge attests.payload) db ≡ true
