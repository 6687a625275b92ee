-- ===== src/Escrow/Refine/Complete.antt =====
-- The calls of contract.rs that the specification lets succeed.
use wave_flow.Common.{ℕ, ◌≡◌, inl, inr, Option, none, some, arith}
use wave_flow.Common.Int.{ℤ}
use wave_flow.Escrow.Types.{Address, Symbol, Program}
use wave_flow.Escrow.Host.{Token, Invocation, Env, ok}
use wave_flow.Escrow.Slug.{repo_refused_iff}
use wave_flow.Escrow.Contract.{
  MergeTerms, initialize, create_program, register_contributor, pause, resume, set_ratio, fund,
  merge_terms, pay_merge, record_merge, withdraw_remaining, spend_cap, pay_out,
}
use wave_flow.Escrow.Spec.{
  Initialized, Created, Registered, Paused, Resumed, RatioSet, Funded, Due, Paid, Merged, Drained,
  Withdrawn, Spends,
}

module _ {L : Type 0} (c : Invocation) where
  pub initialize_complete :
      (a g t : Address) (e e' : Env L)
      → Initialized c a g t e e'
      → initialize c a g t e ≡ (ok tt, e')
  unfolding initialize
  initialize_complete a g t e e' s = ground arith

  pub create_program_of_Created :
      (m : Address) (repo : Symbol) (q : ℤ) (limit : Option ℤ) (p : ℕ) (e e' : Env L)
      → Created c m repo q limit p e e'
      → create_program c m repo q limit e ≡ (ok p, e')
  unfolding create_program
  create_program_of_Created m repo q limit p e e' s =
      let accepted = (repo_refused_iff repo).1 s.slug in ground arith

  pub register_contributor_of_Registered :
      (p : ℕ) (m : Address) (u : Symbol) (a : Address) (e e' : Env L)
      → Registered c p m u a e e'
      → register_contributor c p m u a e ≡ (ok tt, e')
  unfolding register_contributor
  register_contributor_of_Registered p m u a e e' s = ground arith

  pub pause_of_Paused :
      (p : ℕ) (m : Address) (e e' : Env L) → Paused c p m e e' → pause c p m e ≡ (ok tt, e')
  unfolding pause
  pause_of_Paused p m e e' s = ground arith

  pub resume_of_Resumed :
      (p : ℕ) (m : Address) (e e' : Env L) → Resumed c p m e e' → resume c p m e ≡ (ok tt, e')
  unfolding resume
  resume_of_Resumed p m e e' s = ground arith

  pub set_ratio_of_RatioSet :
      (p : ℕ) (m : Address) (q : ℤ) (e e' : Env L)
      → RatioSet c p m q e e'
      → set_ratio c p m q e ≡ (ok tt, e')
  unfolding set_ratio
  set_ratio_of_RatioSet p m q e e' s = ground arith

  spend_cap_complete :
      (program : Program) (x : ℤ) (limit : Option ℤ) (counted : Program) (e : Env L)
      → Spends program x limit counted
      → spend_cap program x limit e ≡ (ok counted, e)
  unfolding spend_cap
  spend_cap_complete program x none counted e s = ground arith
  spend_cap_complete program x (some limit) counted e s = ground arith

  merge_terms_complete :
      (g : Address) (p : ℕ) (u : Symbol) (n q : ℕ) (terms : MergeTerms) (e : Env L)
      → Due c g p u n q terms e
      → merge_terms c g p u n q e ≡ (ok terms, e)
  unfolding merge_terms
  merge_terms_complete g p u n q terms e s = ground (
    arith,
    spend_cap_complete s.program terms.payout s.program.milestone_cap terms.counted e s.spends,
  )

module _ {L : Type 0} (k : Token L) (c : Invocation) where
  pub fund_of_Funded :
      (p : ℕ) (m : Address) (x : ℤ) (e e' : Env L)
      → Funded k c p m x e e'
      → fund k c p m x e ≡ (ok tt, e')
  unfolding fund
  fund_of_Funded p m x e e' s = ground arith

  pay_merge_complete :
      (p : ℕ) (u : Symbol) (n q : ℕ) (terms : MergeTerms) (e e' : Env L)
      → Paid k c p u n q terms e e'
      → pay_merge k c p u n q terms e ≡ (ok (terms.payout), e')
  unfolding pay_merge
  pay_merge_complete p u n q terms e e' s = ground arith

  pub record_merge_of_Merged :
      (g : Address) (p : ℕ) (u : Symbol) (n q : ℕ) (x : ℤ) (e e' : Env L)
      → Merged k c g p u n q x e e'
      → record_merge k c g p u n q e ≡ (ok x, e')
  unfolding record_merge
  record_merge_of_Merged g p u n q x e e' s = ground (
    arith,
    merge_terms_complete c g p u n q s.terms e s.due,
    pay_merge_complete p u n q s.terms e e' s.paid,
  )

  pay_out_complete :
      (p : ℕ) (m : Address) (program : Program) (e e' : Env L)
      → Drained k c p m program e e'
      → pay_out k c p m program e ≡ (ok (program.escrow_balance), e')
  unfolding pay_out
  pay_out_complete p m program e e' s = ground arith

  pub withdraw_remaining_of_Withdrawn :
      (p : ℕ) (m : Address) (x : ℤ) (e e' : Env L)
      → Withdrawn k c p m x e e'
      → withdraw_remaining k c p m e ≡ (ok x, e')
  unfolding withdraw_remaining
  withdraw_remaining_of_Withdrawn p m x e e' s = elim (s.outcome) [
    | inl empty ↦ ground arith
    | inr (same, drained) ↦
        ground (arith, pay_out_complete p m s.program e e' drained, drained.positive)
  ]
