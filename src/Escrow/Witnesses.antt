-- ===== src/Escrow/Witnesses.antt =====
-- The theorems on the contract at concrete states and calls.
use wave_flow.Common.{ℕ, ◌≡◌, ◌≢◌, refl, ◌⊎◌, ◌↔◌, true, false, some, none, arith, Option, ◌≤◌}
use wave_flow.Common.Int.{ℤ, pos, ◌+ℤ◌, ◌-ℤ◌, ◌*ℤ◌, ◌≤ℤ◌}
use wave_flow.Common.Text.{codes, same}
use wave_flow.Escrow.Types.{Address, Program, Contributor, Symbol, paused, active}
use wave_flow.Escrow.Host.{Env, ok, Invocation}
use wave_flow.Escrow.Contract.{
  Call, Reply, unit, amount, id, initialize, create_program, pause_call, record_merge_call,
  fund_call, create_program_call, merge_terms, pay_merge, spend_cap, record_merge,
  withdraw_remaining, pay_out, run, invoke,
}
use wave_flow.Escrow.Reach.{deployed, here}
use wave_flow.Escrow.Scenario.{
  Holdings, simple_token, self, admin, gateway, maintainer, token, call, minted, after, alice, repo,
  merging, after-Reach, program, holds, state,
}
use wave_flow.Escrow.Slug.{IsSlug, repo_refused_iff}
use wave_flow.Escrow.Storage.{repo_refused}
use wave_flow.Escrow.Spec.{Effect}
use wave_flow.Escrow.Refine.Dispatch.{run_iff}
use wave_flow.Escrow.Solvency.Total.{escrow_of}
use wave_flow.Escrow.Once.{merges, merge_once}
use wave_flow.Escrow.Milestone.{IsWithin, paid_since, Reach-IsLimited}
use wave_flow.Escrow.Access.{Authority, change_authorized}
use wave_flow.Escrow.Permanent.{Persists, Reach-Persists}
use wave_flow.Escrow.Numbering.{IsNumbered, ids_fresh}
use wave_flow.Escrow.Failure.{LeftAlone, run-LeftAlone}
use wave_flow.Escrow.Payment.{merge_pays, withdraw_pays, symbol_create_fails}

abbrev start : Env Holdings
start = deployed minted

abbrev merged : Env Holdings
merged = after merging start

run_iff_example :
    (run simple_token call (pause_call 1 maintainer) (state program) ≡ (ok unit, state program))
    ↔ Effect simple_token call (pause_call 1 maintainer) unit (state program) (state program)
run_iff_example =
    run_iff simple_token call (pause_call 1 maintainer) unit (state program) (state program)

merge_once_example :
    (merges 1 42 merged.events ≤ 1)
    × (merges 1 42 merged.events ≡ 1
        → (c : Invocation) (g : Address) (u : Symbol) (q : ℕ) (x : ℤ) (e' : Env Holdings)
        → record_merge simple_token c g 1 u 42 q merged ≢ (ok x, e'))
merge_once_example =
    merge_once simple_token 1 42 self minted merged (after-Reach merging start start here)

abbrev capped : Program
capped = record program { escrow_balance = pos 4_900; milestone_spent = pos 100 }

Reach-IsLimited_example : IsWithin capped (paid_since 1 merged.events)
unfolding invoke run initialize create_program wave_flow.Escrow.Contract.fund
    wave_flow.Escrow.Contract.register_contributor record_merge merge_terms pay_merge spend_cap ◌+ℤ◌
    ◌-ℤ◌ ◌*ℤ◌ same
Reach-IsLimited_example =
    Reach-IsLimited simple_token 1 self minted merged (after-Reach merging start start here) capped
      refl

change_authorized_example :
    ((invoke simple_token call (pause_call 1 maintainer) (state program)).1.programs 1
      ≡ some program)
    ⊎ Authority call (pause_call 1 maintainer) (state program) program
change_authorized_example =
    change_authorized simple_token call 1 program (pause_call 1 maintainer) (state program) refl

Reach-Persists_example : Persists start merged
Reach-Persists_example =
    Reach-Persists simple_token self start merged (after-Reach merging start start here)

state-IsNumbered : IsNumbered (state program)
state-IsNumbered = record {
  counter = 1;
  counted = refl;
  in_u64 = omega arith;
  started = λ h. cc;
  above = λ i h. ground arith;
}

ids_fresh_example :
    IsNumbered
      (invoke simple_token call
        (create_program_call maintainer repo (pos 1) none)
        (state program)).1
    × ((m : Address) (slug : Symbol) (q : ℤ) (limit : Option ℤ) (p : ℕ) (e' : Env Holdings)
        → create_program call m slug q limit (state program) ≡ (ok p, e')
        → (state program).programs p ≡ none)
ids_fresh_example =
    ids_fresh simple_token call refl (create_program_call maintainer repo (pos 1) none)
      (state program) state-IsNumbered

-- A program that was created, and whose contributor was registered, before `initialize`.
abbrev early : Env Holdings
early = record (state (record program { escrow_balance = pos 0 })) {
  admin = none;
  gateway = none;
  token = none;
}

abbrev initialized : Env Holdings
initialized = record early {
  admin = some admin;
  gateway = some gateway;
  token = some token;
  program_counter = some 0;
}

abbrev overwritten : Env Holdings
overwritten = (create_program call 6 repo (pos 7) none initialized).1

run-LeftAlone_example :
    LeftAlone
      (run simple_token call (fund_call 1 maintainer (pos 9_000)) (state program))
      (state program)
run-LeftAlone_example =
    run-LeftAlone simple_token call (state program) (fund_call 1 maintainer (pos 9_000))

abbrev paid : Env Holdings
paid = (record_merge simple_token call gateway 1 alice 42 1 (state program)).1

merge_pays_example :
    (v : Program) × (contributor : Contributor) × (t : Address) × ((state program).programs 1
      ≡ some v)
    × (v.status ≡ active)
    × (pos 100 ≡ pos 1 *ℤ v.reward_per_point)
    × (pos 100 ≤ℤ v.escrow_balance)
    × ((state program).contributors 1 alice ≡ some contributor)
    × ((state program).token ≡ some t)
    × (contributor.stellar_address ≢ self
        → (pos (paid.ledger t contributor.stellar_address)
            ≡ pos (holds t contributor.stellar_address) +ℤ pos 100)
          × (pos (paid.ledger t self) ≡ pos (holds t self) -ℤ pos 100))
    × (escrow_of (paid.programs 1) ≡ v.escrow_balance -ℤ pos 100)
    × (paid.processed 1 42 ≡ some true)
unfolding record_merge merge_terms pay_merge spend_cap ◌+ℤ◌ ◌-ℤ◌ ◌*ℤ◌ same
merge_pays_example =
    merge_pays simple_token call gateway 1 alice 42 1 (pos 100) (state program) paid refl

abbrev stopped : Program
stopped = record program { status = paused }

abbrev withdrawn : Env Holdings
withdrawn = (withdraw_remaining simple_token call 1 maintainer (state stopped)).1

withdraw_pays_example :
    (v : Program) × ((state stopped).programs 1 ≡ some v)
    × (v.status ≡ paused)
    × (v.maintainer ≡ maintainer)
    × (call.authorized maintainer ≡ true)
    × (((v.escrow_balance ≤ℤ pos 0) × (pos 5_000 ≡ pos 0) × (withdrawn ≡ state stopped))
        ⊎ ((pos 5_000 ≡ v.escrow_balance)
            × (escrow_of (withdrawn.programs 1) ≡ pos 0)
            × ((t : Address)
                → (state stopped).token ≡ some t
                → maintainer ≢ self
                → (pos (withdrawn.ledger t maintainer) ≡ pos (holds t maintainer) +ℤ pos 5_000)
                  × (pos (withdrawn.ledger t self) ≡ pos (holds t self) -ℤ pos 5_000))))
unfolding withdraw_remaining pay_out ◌+ℤ◌ ◌-ℤ◌
withdraw_pays_example =
    withdraw_pays simple_token call 1 maintainer (pos 5_000) (state stopped) withdrawn refl

symbol_create_fails_example :
    create_program call maintainer (codes "WaveFlow_2") (pos 1) none start ≢ (ok 1, start)
symbol_create_fails_example =
    symbol_create_fails call maintainer (codes "WaveFlow_2") (pos 1) none 1 start start
      (omega arith)

repo_refused_iff_example : (repo_refused repo ≡ false) ↔ IsSlug repo
repo_refused_iff_example = repo_refused_iff repo
