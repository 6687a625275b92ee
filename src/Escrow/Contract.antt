-- ===== src/Escrow/Contract.antt =====
-- contract.rs: the entry points of `WaveFlowEscrow`, statement by statement.
use wave_flow.Common.{ℕ, Bool, true, false, not, Option, none, some, ◌==◌, if◌then◌else◌}
use wave_flow.Common.Int.{ℤ, pos, ltb_ℤ, leb_ℤ, checked_add, checked_sub, checked_mul}
use wave_flow.Escrow.Types.{
  Address, Symbol, already_initialized, unauthorized, insufficient_escrow, pr_already_processed,
  milestone_cap_exceeded, insufficient_deposit, invalid_ratio, overflow,
  contributor_already_registered, program_not_paused, active, paused, is_paused, Program, prog_new,
  funded, contrib, merge, program_paused, program_resumed,
}
use wave_flow.Escrow.Host.{
  Token, Invocation, Env, Outcome, Action, pure, ok_or, reads, writes, fail_if, require_auth,
  publish, transfer, commit, ◌>>=◌, ◌>>◌,
}
use wave_flow.Escrow.Storage.{
  read_admin, read_gateway, read_token, read_program, write_program, next_program_id,
  is_pr_processed, mark_pr_processed, read_contributor, write_contributor, require_active,
  validate_repo,
}
use wave_flow.Escrow.Types.{Contributor}

-- `MIN_DEPOSIT`
abbrev pub min_deposit : ℤ
min_deposit = pos 1

-- `storage().has(&key)`
abbrev pub has {ℓ} : {A : Type ℓ} → Option A → Bool
has none = false
has (some _) = true

-- The entry points that move no tokens.
module _ {L : Type 0} (c : Invocation) where
  unfoldable pub initialize : Address → Address → Address → Action L (Unit {0})
  initialize admin gateway token = do
    fail_if (← reads (λ e. has e.admin)) already_initialized
    require_auth c admin
    writes λ e. record e { admin = some admin }
    writes λ e. record e { gateway = some gateway }
    writes λ e. record e { token = some token }
    writes λ e. record e { program_counter = some 0 }

  unfoldable pub create_program : Address → Symbol → ℤ → Option ℤ → Action L ℕ
  unfolding validate_repo next_program_id write_program
  create_program maintainer github_repo reward_per_point milestone_cap = do
    require_auth c maintainer
    fail_if (leb_ℤ reward_per_point (pos 0)) invalid_ratio
    validate_repo github_repo
    program_id ← next_program_id c
    let program : Program = record {
      maintainer = maintainer;
      github_repo = github_repo;
      reward_per_point = reward_per_point;
      escrow_balance = pos 0;
      milestone_cap = milestone_cap;
      milestone_spent = pos 0;
      status = active;
    }
    write_program program_id program
    publish (
        prog_new (record {
          program_id = program_id;
          maintainer = maintainer;
          github_repo = github_repo;
          reward_per_point = reward_per_point;
        }))
    pure program_id

  unfoldable pub register_contributor : ℕ → Address → Symbol → Address → Action L (Unit {0})
  unfolding read_program write_contributor
  register_contributor program_id caller github_username stellar_address = do
    require_auth c caller
    program ← read_program program_id
    fail_if (not (program.maintainer == caller)) unauthorized
    fail_if (← reads (λ e. has (e.contributors program_id github_username)))
        contributor_already_registered
    write_contributor program_id github_username (record { stellar_address = stellar_address })
    publish (
        contrib (record {
          program_id = program_id;
          github_username = github_username;
          stellar_address = stellar_address;
        }))

  unfoldable pub pause : ℕ → Address → Action L (Unit {0})
  unfolding read_program write_program
  pause program_id maintainer = do
    require_auth c maintainer
    program ← read_program program_id
    fail_if (not (program.maintainer == maintainer)) unauthorized
    write_program program_id (record program { status = paused })
    publish (program_paused (record { program_id = program_id }))

  unfoldable pub resume : ℕ → Address → Action L (Unit {0})
  unfolding read_program write_program
  resume program_id maintainer = do
    require_auth c maintainer
    program ← read_program program_id
    fail_if (not (program.maintainer == maintainer)) unauthorized
    write_program program_id (record program { status = active })
    publish (program_resumed (record { program_id = program_id }))

  unfoldable pub set_ratio : ℕ → Address → ℤ → Action L (Unit {0})
  unfolding read_program write_program
  set_ratio program_id maintainer reward_per_point = do
    require_auth c maintainer
    fail_if (leb_ℤ reward_per_point (pos 0)) invalid_ratio
    program ← read_program program_id
    fail_if (not (program.maintainer == maintainer)) unauthorized
    write_program program_id (record program { reward_per_point = reward_per_point })

-- The milestone test of `record_merge`: the program with the payout counted against its limit.
unfoldable pub spend_cap : {L : Type 0} → Program → ℤ → Option ℤ → Action L Program
spend_cap program payout none = pure program
spend_cap program payout (some limit) = do
  new_spent ← ok_or (checked_add program.milestone_spent payout) overflow
  fail_if (ltb_ℤ limit new_spent) milestone_cap_exceeded
  pure (record program { milestone_spent = new_spent })

-- What `record_merge` has worked out when its tests have passed.
pub record MergeTerms : Type 0 where
  pub contributor : Contributor
  pub payout : ℤ
  pub counted : Program

-- `record_merge` up to the transfer.
unfoldable pub merge_terms :
    {L : Type 0} → Invocation → Address → ℕ → Symbol → ℕ → ℕ → Action L MergeTerms
unfolding read_gateway is_pr_processed read_program require_active read_contributor
merge_terms c gateway program_id github_username pr_number points = do
  require_auth c gateway
  stored ← read_gateway
  fail_if (not (stored == gateway)) unauthorized
  fail_if (points == 0) invalid_ratio
  fail_if (← is_pr_processed program_id pr_number) pr_already_processed
  program ← read_program program_id
  require_active program
  contributor ← read_contributor program_id github_username
  payout ← ok_or (checked_mul (pos points) program.reward_per_point) overflow
  fail_if (ltb_ℤ program.escrow_balance payout) insufficient_escrow
  counted ← spend_cap program payout program.milestone_cap
  pure (record { contributor = contributor; payout = payout; counted = counted })

-- The entry points that move tokens.
module _ {L : Type 0} (k : Token L) (c : Invocation) where
  unfoldable pub fund : ℕ → Address → ℤ → Action L (Unit {0})
  unfolding read_program read_token write_program
  fund program_id from amount = do
    require_auth c from
    fail_if (ltb_ℤ amount min_deposit) insufficient_deposit
    program ← read_program program_id
    fail_if (not (program.maintainer == from)) unauthorized
    token ← read_token
    transfer k token from c.contract amount
    new_balance ← ok_or (checked_add program.escrow_balance amount) overflow
    write_program program_id (record program { escrow_balance = new_balance })
    publish
        (funded (record { program_id = program_id; amount = amount; new_balance = new_balance }))

  -- `record_merge` from the transfer on.
  unfoldable pub pay_merge : ℕ → Symbol → ℕ → ℕ → MergeTerms → Action L ℤ
  unfolding read_token write_program mark_pr_processed
  pay_merge program_id github_username pr_number points terms = do
    token ← read_token
    transfer k token c.contract terms.contributor.stellar_address terms.payout
    new_balance ← ok_or (checked_sub terms.counted.escrow_balance terms.payout) overflow
    write_program program_id (record (terms.counted) { escrow_balance = new_balance })
    mark_pr_processed program_id pr_number
    publish (
        merge (record {
          program_id = program_id;
          github_username = github_username;
          pr_number = pr_number;
          points = points;
          payout_amount = terms.payout;
        }))
    pure terms.payout

  unfoldable pub record_merge : Address → ℕ → Symbol → ℕ → ℕ → Action L ℤ
  record_merge gateway program_id github_username pr_number points = do
    terms ← merge_terms c gateway program_id github_username pr_number points
    pay_merge program_id github_username pr_number points terms

  -- The transfer and the reset, after the test for a positive balance.
  unfoldable pub pay_out : ℕ → Address → Program → Action L ℤ
  unfolding read_token write_program
  pay_out program_id maintainer program = do
    let amount = program.escrow_balance
    token ← read_token
    transfer k token c.contract maintainer amount
    write_program program_id (record program { escrow_balance = pos 0 })
    pure amount

  unfoldable pub withdraw_remaining : ℕ → Address → Action L ℤ
  unfolding read_program
  withdraw_remaining program_id maintainer = do
    require_auth c maintainer
    program ← read_program program_id
    fail_if (not (program.maintainer == maintainer)) unauthorized
    fail_if (not (is_paused program.status)) program_not_paused
    (if leb_ℤ program.escrow_balance (pos 0)
        then pure (pos 0)
        else pay_out program_id maintainer program)

-- Read-only accessors.
module _ {L : Type 0} where
  unfoldable pub get_program : ℕ → Action L Program
  unfolding read_program
  get_program program_id = read_program program_id

  unfoldable pub get_escrow_balance : ℕ → Action L ℤ
  unfolding read_program
  get_escrow_balance program_id = do pure (← read_program program_id).escrow_balance

  unfoldable pub is_processed : ℕ → ℕ → Action L Bool
  unfolding is_pr_processed
  is_processed program_id pr_number = is_pr_processed program_id pr_number

  unfoldable pub admin : Action L Address
  unfolding read_admin
  admin = read_admin

-- A call of an entry point that may change state, with its arguments.
pub data Call : Type 0 where
  initialize_call : Address → Address → Address → Call
  create_program_call : Address → Symbol → ℤ → Option ℤ → Call
  fund_call : ℕ → Address → ℤ → Call
  register_contributor_call : ℕ → Address → Symbol → Address → Call
  record_merge_call : Address → ℕ → Symbol → ℕ → ℕ → Call
  pause_call resume_call : ℕ → Address → Call
  set_ratio_call : ℕ → Address → ℤ → Call
  withdraw_remaining_call : ℕ → Address → Call

-- What a call returns.
pub data Reply : Type 0 where
  unit : Reply
  id : ℕ → Reply
  amount : ℤ → Reply

module _ {L : Type 0} (k : Token L) (c : Invocation) where
  -- The contract's dispatch, as `contractimpl` generates it.
  unfoldable pub run : Call → Action L Reply
  run (initialize_call a g t) = initialize c a g t >> pure unit
  run (create_program_call m r q limit) = do pure (id (← create_program c m r q limit))
  run (fund_call p f x) = fund k c p f x >> pure unit
  run (register_contributor_call p m u a) = register_contributor c p m u a >> pure unit
  run (record_merge_call g p u n q) = do pure (amount (← record_merge k c g p u n q))
  run (pause_call p m) = pause c p m >> pure unit
  run (resume_call p m) = resume c p m >> pure unit
  run (set_ratio_call p m q) = set_ratio c p m q >> pure unit
  run (withdraw_remaining_call p m) = do pure (amount (← withdraw_remaining k c p m))

  -- An invocation by the host: the effects of a failed call are rolled back.
  unfoldable pub invoke : Call → Env L → Outcome Reply × Env L
  unfolding run
  invoke op e = commit e (run op e)
