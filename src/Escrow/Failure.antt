-- ===== src/Escrow/Failure.antt =====
-- Calls of contract.rs that fail: what they leave behind before the host rolls them back, and a call
-- that cannot succeed.
use mathlib.Core.Path.{subst}
use wave_flow.Common.{ℕ, ◌≡◌, refl, sym, inl, inr, ◌⊎◌, Option, none, some, arith, Option-cases}
use wave_flow.Escrow.Types.{overflow, Address, Symbol, Program}
use wave_flow.Escrow.Host.{Token, Invocation, Env, Outcome, Action, ok, err, trapped, pure, ◌>>=◌}
use wave_flow.Escrow.Contract.{
  Call, Reply, unit, id, amount, initialize_call, create_program_call, fund_call,
  register_contributor_call, record_merge_call, pause_call, resume_call, set_ratio_call,
  withdraw_remaining_call, run, fund, initialize, create_program, register_contributor,
  record_merge, pause, resume, set_ratio, withdraw_remaining, pay_merge, merge_terms, pay_out,
  MergeTerms, spend_cap,
}
use wave_flow.Common.Int.{ℤ, pos, ◌*ℤ◌}

-- A call that failed left the state alone; or it failed by overflow, and all that it had changed is
-- the token's ledger.
abbrev pub LeftAlone : {L A : Type 0} → Outcome A × Env L → Env L → Type 0
LeftAlone (ok _, e') e = Unit
LeftAlone (err x, e') e = (e' ≡ e) ⊎ ((x ≡ overflow) × (e' ≡ record e { ledger = e'.ledger }))
LeftAlone (trapped, e') e = e' ≡ e

module _ {L : Type 0} (c : Invocation) (e : Env L) where
  initialize-LeftAlone : (a g t : Address) → LeftAlone (initialize c a g t e) e
  unfolding initialize
  initialize-LeftAlone a g t = ground arith

  create_program-LeftAlone :
      (m : Address) (repo : Symbol) (q : ℤ) (limit : Option ℤ)
      → LeftAlone (create_program c m repo q limit e) e
  unfolding create_program
  create_program-LeftAlone m repo q limit = ground arith

  pause-LeftAlone : (p : ℕ) (m : Address) → LeftAlone (pause c p m e) e
  unfolding pause
  pause-LeftAlone p m = ground arith

  register_contributor-LeftAlone :
      (p : ℕ) (m : Address) (u : Symbol) (a : Address)
      → LeftAlone (register_contributor c p m u a e) e
  unfolding register_contributor
  register_contributor-LeftAlone p m u a = ground arith

  resume-LeftAlone : (p : ℕ) (m : Address) → LeftAlone (resume c p m e) e
  unfolding resume
  resume-LeftAlone p m = ground arith

  set_ratio-LeftAlone : (p : ℕ) (m : Address) (q : ℤ) → LeftAlone (set_ratio c p m q e) e
  unfolding set_ratio
  set_ratio-LeftAlone p m q = ground arith

-- An action that writes nothing, however it ends.
abbrev ReadsOnly : {L A : Type 0} → Action L A → Type 0
ReadsOnly {L} m = (e : Env L) → (m e).1 ≡ e

spend_cap-ReadsOnly :
    {L : Type 0} (program : Program) (x : ℤ) (limit : Option ℤ)
    → ReadsOnly {L = L} (spend_cap program x limit)
unfolding spend_cap
spend_cap-ReadsOnly program x none e = refl
spend_cap-ReadsOnly program x (some limit) e = ground arith

-- The tests of `record_merge` write nothing.
merge_terms-ReadsOnly :
    {L : Type 0} (c : Invocation) (g : Address) (p : ℕ) (u : Symbol) (n q : ℕ)
    → ReadsOnly {L = L} (merge_terms c g p u n q)
unfolding merge_terms
merge_terms-ReadsOnly c g p u n q e = elim (Option-cases (e.programs p)) [
  | inl missing ↦ ground arith
  | inr (program, found) ↦
      let counted =
        spend_cap-ReadsOnly program (pos q *ℤ program.reward_per_point) program.milestone_cap e in
      ground arith
]

module _ {L : Type 0} (k : Token L) (c : Invocation) (e : Env L) where
  fund-LeftAlone : (p : ℕ) (m : Address) (x : ℤ) → LeftAlone (fund k c p m x e) e
  unfolding fund
  fund-LeftAlone p m x = ground arith

  pay_merge-LeftAlone :
      (p : ℕ) (u : Symbol) (n q : ℕ) (terms : MergeTerms)
      → LeftAlone (pay_merge k c p u n q terms e) e
  unfolding pay_merge
  pay_merge-LeftAlone p u n q terms = ground arith

  record_merge-LeftAlone :
      (g : Address) (p : ℕ) (u : Symbol) (n q : ℕ) → LeftAlone (record_merge k c g p u n q e) e
  unfolding record_merge
  record_merge-LeftAlone g p u n q =
      go (merge_terms c g p u n q e) (merge_terms-ReadsOnly c g p u n q e)
    where
      go :
          (o : Outcome MergeTerms × Env L)
          → o.1 ≡ e
          → let rest : Outcome ℤ × Env L = elim (o.0) [
            | ok a ↦ pay_merge k c p u n q a o.1
            | err x ↦ (err x, o.1)
            | trapped ↦ (trapped, o.1)
          ] in
            LeftAlone rest e
      go (ok terms, e') same =
          subst (λ s. LeftAlone (pay_merge k c p u n q terms s) e) (sym same)
            (pay_merge-LeftAlone p u n q terms)
      go (err x, e') same = inl same
      go (trapped, e') same = same

  pay_out-LeftAlone :
      (p : ℕ) (m : Address) (program : Program) → LeftAlone (pay_out k c p m program e) e
  unfolding pay_out
  pay_out-LeftAlone p m program = ground arith

  withdraw_remaining-LeftAlone : (p : ℕ) (m : Address) → LeftAlone (withdraw_remaining k c p m e) e
  unfolding withdraw_remaining
  withdraw_remaining-LeftAlone p m = elim (Option-cases (e.programs p)) [
    | inl missing ↦ ground arith
    | inr (program, found) ↦ let paid = pay_out-LeftAlone p m program in ground arith
  ]

  -- The reply that is added to a value changes nothing of this.
  reply-LeftAlone :
      {A : Type 0} (m : Action L A) (wrap : A → Reply)
      → LeftAlone (m e) e
      → LeftAlone ((m >>= λ a. pure (wrap a)) e) e
  reply-LeftAlone {A} m wrap h = go (m e) h
    where
      go :
          (o : Outcome A × Env L)
          → LeftAlone o e
          → let rest : Outcome Reply × Env L = elim (o.0) [
            | ok a ↦ (ok (wrap a), o.1)
            | err x ↦ (err x, o.1)
            | trapped ↦ (trapped, o.1)
          ] in
            LeftAlone rest e
      go (ok a, e') h = tt
      go (err x, e') h = h
      go (trapped, e') h = h

  -- A call that panics has changed nothing, and one that returns a contract error has changed nothing
  -- either, but for the overflow error after a transfer, where the token's ledger alone has changed:
  -- only this case needs the host's rollback.
  pub run-LeftAlone : (op : Call) → LeftAlone (run k c op e) e
  unfolding run
  run-LeftAlone (initialize_call a g t) =
      reply-LeftAlone (initialize c a g t) (λ _. unit) (initialize-LeftAlone c e a g t)
  run-LeftAlone (create_program_call m repo q limit) =
      reply-LeftAlone (create_program c m repo q limit) id
        (create_program-LeftAlone c e m repo q limit)
  run-LeftAlone (fund_call p m x) =
      reply-LeftAlone (fund k c p m x) (λ _. unit) (fund-LeftAlone p m x)
  run-LeftAlone (register_contributor_call p m u a) =
      reply-LeftAlone (register_contributor c p m u a) (λ _. unit)
        (register_contributor-LeftAlone c e p m u a)
  run-LeftAlone (record_merge_call g p u n q) =
      reply-LeftAlone (record_merge k c g p u n q) amount (record_merge-LeftAlone g p u n q)
  run-LeftAlone (pause_call p m) =
      reply-LeftAlone (pause c p m) (λ _. unit) (pause-LeftAlone c e p m)
  run-LeftAlone (resume_call p m) =
      reply-LeftAlone (resume c p m) (λ _. unit) (resume-LeftAlone c e p m)
  run-LeftAlone (set_ratio_call p m q) =
      reply-LeftAlone (set_ratio c p m q) (λ _. unit) (set_ratio-LeftAlone c e p m q)
  run-LeftAlone (withdraw_remaining_call p m) =
      reply-LeftAlone (withdraw_remaining k c p m) amount (withdraw_remaining-LeftAlone p m)
