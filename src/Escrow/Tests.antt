-- ===== src/Escrow/Tests.antt =====
-- The scenarios of test.rs as tests, and the theorems on the contract at concrete states.
use wave_flow.Common.{◌≡◌, refl, none, [], ◌∷◌, ◌++◌, List}
use wave_flow.Common.Int.{pos, ◌+ℤ◌, ◌-ℤ◌, ◌*ℤ◌}
use wave_flow.Common.Text.{codes, same}
use wave_flow.Escrow.Types.{pr_already_processed, milestone_cap_exceeded, invalid_repo}
use wave_flow.Escrow.Host.{ok, err, Outcome}
use wave_flow.Escrow.Contract.{
  Call, amount, initialize, create_program, fund, register_contributor, pause, merge_terms,
  pay_merge, spend_cap, record_merge, withdraw_remaining, pay_out, invoke, initialize_call,
  pause_call, record_merge_call, create_program_call, withdraw_remaining_call, Reply,
}
use wave_flow.Escrow.Reach.{deployed}
use wave_flow.Escrow.Scenario.{
  simple_token, admin, gateway, maintainer, token, call, minted, after, alice, funding, merging,
}

-- The reply to a call after the given ones.
abbrev reply_after : List Call → Call → Outcome Reply
reply_after ops op = (invoke simple_token call op (after ops (deployed minted))).0

record_merge_pays_contributor :
    reply_after funding (record_merge_call gateway 1 alice 42 1) ≡ ok (amount (pos 100))
unfolding invoke initialize create_program fund register_contributor record_merge merge_terms
    pay_merge spend_cap ◌+ℤ◌ ◌-ℤ◌ ◌*ℤ◌ same
record_merge_pays_contributor = refl

duplicate_pr_is_rejected :
    reply_after merging (record_merge_call gateway 1 alice 42 1) ≡ err pr_already_processed
unfolding invoke initialize create_program fund register_contributor record_merge merge_terms
    pay_merge spend_cap ◌+ℤ◌ ◌-ℤ◌ ◌*ℤ◌ same
duplicate_pr_is_rejected = refl

milestone_cap_blocks_excess_payout :
    reply_after merging (record_merge_call gateway 1 alice 43 1) ≡ err milestone_cap_exceeded
unfolding invoke initialize create_program fund register_contributor record_merge merge_terms
    pay_merge spend_cap ◌+ℤ◌ ◌-ℤ◌ ◌*ℤ◌ same
milestone_cap_blocks_excess_payout = refl

withdraw_remaining_returns_escrow_to_maintainer :
    reply_after (merging ++ pause_call 1 maintainer ∷ []) (withdraw_remaining_call 1 maintainer)
    ≡ ok (amount (pos 4_900))
unfolding invoke initialize create_program fund register_contributor record_merge merge_terms
    pay_merge spend_cap pause withdraw_remaining pay_out ◌+ℤ◌ ◌-ℤ◌ ◌*ℤ◌ same
withdraw_remaining_returns_escrow_to_maintainer = refl

invalid_repo_is_rejected :
    reply_after
      (initialize_call admin gateway token ∷ [])
      (create_program_call maintainer (codes "invalid") (pos 10) none)
    ≡ err invalid_repo
unfolding invoke initialize create_program
invalid_repo_is_rejected = refl
