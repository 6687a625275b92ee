-- ===== src/Escrow/Spec.antt =====
-- The abstract specification of the entry points of contract.rs: for each, what a call that
-- succeeds has checked, and the state that it leaves. No order of statements, no partial effect.
use wave_flow.Common.{ℕ, ◌+◌, ◌%◌, ◌^◌, ◌≡◌, ◌≢◌, ◌⊎◌, true, false, Option, none, some, ◌∷◌}
use wave_flow.Common.Int.{ℤ, pos, ◌+ℤ◌, ◌-ℤ◌, ◌*ℤ◌, ◌≤ℤ◌, ◌<ℤ◌, in_i128}
use wave_flow.Escrow.Types.{
  Address, Symbol, active, paused, Program, prog_new, funded, contrib, merge, program_paused,
  program_resumed,
}
use wave_flow.Escrow.Host.{Token, Invocation, Env}
use wave_flow.Escrow.Storage.{put, put_symbol, put_pair, or_default}
use wave_flow.Escrow.Slug.{IsSlug}
use wave_flow.Escrow.Contract.{
  MergeTerms, Call, initialize_call, create_program_call, fund_call, register_contributor_call,
  record_merge_call, pause_call, resume_call, set_ratio_call, withdraw_remaining_call, Reply, unit,
  id, amount,
}

-- The program that a successful `create_program` stores.
abbrev pub new_program : Address → Symbol → ℤ → Option ℤ → Program
new_program m repo q limit = record {
  maintainer = m;
  github_repo = repo;
  reward_per_point = q;
  escrow_balance = pos 0;
  milestone_cap = limit;
  milestone_spent = pos 0;
  status = active;
}

-- A payout is counted against the limit, where there is one, and stays within it.
abbrev pub Spends : Program → ℤ → Option ℤ → Program → Type 0
Spends program payout none counted = counted ≡ program
Spends program payout (some limit) counted =
    (in_i128 (program.milestone_spent +ℤ payout) ≡ true)
    × (program.milestone_spent +ℤ payout ≤ℤ limit)
    × (counted ≡ record program { milestone_spent = program.milestone_spent +ℤ payout })

module _ {L : Type 0} (c : Invocation) where
  pub record Initialized (a g t : Address) (e e' : Env L) : Type 0 where
    pub fresh : e.admin ≡ none
    pub authorized : c.authorized a ≡ true
    pub result :
        e' ≡ record e { admin = some a; gateway = some g; token = some t; program_counter = some 0 }

  pub record Created (m : Address) (repo : Symbol) (q : ℤ) (limit : Option ℤ) (p : ℕ) (e e' : Env L)
      : Type 0 where
    pub authorized : c.authorized m ≡ true
    pub positive : pos 0 <ℤ q
    pub slug : IsSlug repo
    pub no_trap : (c.overflow_checks ≡ false) ⊎ (or_default 0 e.program_counter + 1 ≢ 2 ^ 64)
    pub next : p ≡ (or_default 0 e.program_counter + 1) % 2 ^ 64
    pub result : e' ≡ record e {
      program_counter = some p;
      programs = put p (new_program m repo q limit) e.programs;
      events =
          prog_new
            (record { program_id = p; maintainer = m; github_repo = repo; reward_per_point = q })
          ∷ e.events;
    }

  pub record Registered (p : ℕ) (m : Address) (u : Symbol) (a : Address) (e e' : Env L)
      : Type 0 where
    pub authorized : c.authorized m ≡ true
    pub program : Program
    pub found : e.programs p ≡ some program
    pub owner : program.maintainer ≡ m
    pub fresh : e.contributors p u ≡ none
    pub result : e' ≡ record e {
      contributors = put_symbol p u (record { stellar_address = a }) e.contributors;
      events =
          contrib (record { program_id = p; github_username = u; stellar_address = a }) ∷ e.events;
    }

  pub record Paused (p : ℕ) (m : Address) (e e' : Env L) : Type 0 where
    pub authorized : c.authorized m ≡ true
    pub program : Program
    pub found : e.programs p ≡ some program
    pub owner : program.maintainer ≡ m
    pub result : e' ≡ record e {
      programs = put p (record program { status = paused }) e.programs;
      events = program_paused (record { program_id = p }) ∷ e.events;
    }

  pub record Resumed (p : ℕ) (m : Address) (e e' : Env L) : Type 0 where
    pub authorized : c.authorized m ≡ true
    pub program : Program
    pub found : e.programs p ≡ some program
    pub owner : program.maintainer ≡ m
    pub result : e' ≡ record e {
      programs = put p (record program { status = active }) e.programs;
      events = program_resumed (record { program_id = p }) ∷ e.events;
    }

  pub record RatioSet (p : ℕ) (m : Address) (q : ℤ) (e e' : Env L) : Type 0 where
    pub authorized : c.authorized m ≡ true
    pub positive : pos 0 <ℤ q
    pub program : Program
    pub found : e.programs p ≡ some program
    pub owner : program.maintainer ≡ m
    pub result :
        e' ≡ record e { programs = put p (record program { reward_per_point = q }) e.programs }

  -- A merge is to be paid on these terms.
  pub record Due (g : Address) (p : ℕ) (u : Symbol) (n q : ℕ) (terms : MergeTerms) (e : Env L)
      : Type 0 where
    pub authorized : c.authorized g ≡ true
    pub gateway : e.gateway ≡ some g
    pub points : q ≢ 0
    pub unprocessed : or_default false (e.processed p n) ≡ false
    pub program : Program
    pub found : e.programs p ≡ some program
    pub running : program.status ≡ active
    pub registered : e.contributors p u ≡ some terms.contributor
    pub payout : terms.payout ≡ pos q *ℤ program.reward_per_point
    pub payout_fits : in_i128 terms.payout ≡ true
    pub covered : terms.payout ≤ℤ program.escrow_balance
    pub spends : Spends program terms.payout program.milestone_cap terms.counted

module _ {L : Type 0} (k : Token L) (c : Invocation) where
  pub record Funded (p : ℕ) (m : Address) (x : ℤ) (e e' : Env L) : Type 0 where
    pub authorized : c.authorized m ≡ true
    pub minimum : pos 1 ≤ℤ x
    pub program : Program
    pub found : e.programs p ≡ some program
    pub owner : program.maintainer ≡ m
    pub token : Address
    pub token_set : e.token ≡ some token
    pub ledger : L
    pub transferred : k.transfer token m c.contract x e.ledger ≡ some ledger
    pub fits : in_i128 (program.escrow_balance +ℤ x) ≡ true
    pub result : e' ≡ record e {
      programs = put p (record program { escrow_balance = program.escrow_balance +ℤ x }) e.programs;
      events =
          funded (record { program_id = p; amount = x; new_balance = program.escrow_balance +ℤ x })
          ∷ e.events;
      ledger = ledger;
    }

  -- The payment of a merge whose tests have passed.
  pub record Paid (p : ℕ) (u : Symbol) (n q : ℕ) (terms : MergeTerms) (e e' : Env L) : Type 0 where
    pub token : Address
    pub token_set : e.token ≡ some token
    pub ledger : L
    pub transferred :
        k.transfer token c.contract terms.contributor.stellar_address terms.payout e.ledger
        ≡ some ledger
    pub rest_fits : in_i128 (terms.counted.escrow_balance -ℤ terms.payout) ≡ true
    pub result : e' ≡ record e {
      programs =
          put p
            (record (terms.counted) {
              escrow_balance = terms.counted.escrow_balance -ℤ terms.payout;
            })
            e.programs;
      processed = put_pair p n true e.processed;
      events =
          merge (record {
            program_id = p;
            github_username = u;
            pr_number = n;
            points = q;
            payout_amount = terms.payout;
          })
          ∷ e.events;
      ledger = ledger;
    }

  pub record Merged (g : Address) (p : ℕ) (u : Symbol) (n q : ℕ) (x : ℤ) (e e' : Env L)
      : Type 0 where
    pub terms : MergeTerms
    pub due : Due c g p u n q terms e
    pub amount : x ≡ terms.payout
    pub paid : Paid p u n q terms e e'

  -- The part of `withdraw_remaining` that moves tokens.
  pub record Drained (p : ℕ) (m : Address) (program : Program) (e e' : Env L) : Type 0 where
    pub positive : pos 0 <ℤ program.escrow_balance
    pub token : Address
    pub token_set : e.token ≡ some token
    pub ledger : L
    pub transferred : k.transfer token c.contract m program.escrow_balance e.ledger ≡ some ledger
    pub result : e' ≡ record e {
      programs = put p (record program { escrow_balance = pos 0 }) e.programs;
      ledger = ledger;
    }

  pub record Withdrawn (p : ℕ) (m : Address) (x : ℤ) (e e' : Env L) : Type 0 where
    pub authorized : c.authorized m ≡ true
    pub program : Program
    pub found : e.programs p ≡ some program
    pub owner : program.maintainer ≡ m
    pub stopped : program.status ≡ paused
    pub outcome :
        ((program.escrow_balance ≤ℤ pos 0) × (x ≡ pos 0) × (e' ≡ e))
        ⊎ ((x ≡ program.escrow_balance) × Drained p m program e e')

  -- What a call that returns `r` has checked and done.
  abbrev pub Effect : Call → Reply → Env L → Env L → Type 0
  Effect (initialize_call a g t) r e e' = (r ≡ unit) × Initialized c a g t e e'
  Effect (create_program_call m repo q limit) r e e' =
      (p : ℕ) × (r ≡ id p) × Created c m repo q limit p e e'
  Effect (fund_call p m x) r e e' = (r ≡ unit) × Funded p m x e e'
  Effect (register_contributor_call p m u a) r e e' = (r ≡ unit) × Registered c p m u a e e'
  Effect (record_merge_call g p u n q) r e e' = (x : ℤ) × (r ≡ amount x) × Merged g p u n q x e e'
  Effect (pause_call p m) r e e' = (r ≡ unit) × Paused c p m e e'
  Effect (resume_call p m) r e e' = (r ≡ unit) × Resumed c p m e e'
  Effect (set_ratio_call p m q) r e e' = (r ≡ unit) × RatioSet c p m q e e'
  Effect (withdraw_remaining_call p m) r e e' = (x : ℤ) × (r ≡ amount x) × Withdrawn p m x e e'
