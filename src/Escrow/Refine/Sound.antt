-- ===== src/Escrow/Refine/Sound.antt =====
-- The calls of contract.rs that succeed, against the specification.
use wave_flow.Common.{ℕ, ◌≡◌, inl, inr, Option, arith, Option-cases}
use wave_flow.Common.Int.{ℤ}
use wave_flow.Escrow.Types.{Address, Symbol}
use wave_flow.Escrow.Host.{Token, Invocation, Env, ok}
use wave_flow.Escrow.Slug.{repo_refused_iff}
use wave_flow.Escrow.Contract.{
  initialize, create_program, register_contributor, pause, resume, set_ratio, fund,
}
use wave_flow.Escrow.Spec.{Initialized, Created, Registered, Paused, Resumed, RatioSet, Funded}

module _ {L : Type 0} (c : Invocation) where
  pub initialize-Initialized :
      (a g t : Address) (e e' : Env L)
      → initialize c a g t e ≡ (ok tt, e')
      → Initialized c a g t e e'
  unfolding initialize
  initialize-Initialized a g t e e' h = record {
    fresh = ground arith;
    authorized = ground arith;
    result = ground arith;
  }

  pub create_program-Created :
      (m : Address) (repo : Symbol) (q : ℤ) (limit : Option ℤ) (p : ℕ) (e e' : Env L)
      → create_program c m repo q limit e ≡ (ok p, e')
      → Created c m repo q limit p e e'
  unfolding create_program
  create_program-Created m repo q limit p e e' h = record {
    authorized = ground arith;
    positive = ground arith;
    slug = (repo_refused_iff repo).0 (ground arith);
    no_trap = ground arith;
    next = ground arith;
    result = ground arith;
  }

  pub register_contributor-Registered :
      (p : ℕ) (m : Address) (u : Symbol) (a : Address) (e e' : Env L)
      → register_contributor c p m u a e ≡ (ok tt, e')
      → Registered c p m u a e e'
  unfolding register_contributor
  register_contributor-Registered p m u a e e' h = elim (Option-cases (e.programs p)) [
    | inl missing ↦ ground arith
    | inr (program, found) ↦ record {
      authorized = ground arith;
      program = program;
      found = found;
      owner = ground arith;
      fresh = ground arith;
      result = ground arith;
    }
  ]

  pub pause-Paused :
      (p : ℕ) (m : Address) (e e' : Env L) → pause c p m e ≡ (ok tt, e') → Paused c p m e e'
  unfolding pause
  pause-Paused p m e e' h = elim (Option-cases (e.programs p)) [
    | inl missing ↦ ground arith
    | inr (program, found) ↦ record {
      authorized = ground arith;
      program = program;
      found = found;
      owner = ground arith;
      result = ground arith;
    }
  ]

  pub resume-Resumed :
      (p : ℕ) (m : Address) (e e' : Env L) → resume c p m e ≡ (ok tt, e') → Resumed c p m e e'
  unfolding resume
  resume-Resumed p m e e' h = elim (Option-cases (e.programs p)) [
    | inl missing ↦ ground arith
    | inr (program, found) ↦ record {
      authorized = ground arith;
      program = program;
      found = found;
      owner = ground arith;
      result = ground arith;
    }
  ]

  pub set_ratio-RatioSet :
      (p : ℕ) (m : Address) (q : ℤ) (e e' : Env L)
      → set_ratio c p m q e ≡ (ok tt, e')
      → RatioSet c p m q e e'
  unfolding set_ratio
  set_ratio-RatioSet p m q e e' h = elim (Option-cases (e.programs p)) [
    | inl missing ↦ ground arith
    | inr (program, found) ↦ record {
      authorized = ground arith;
      positive = ground arith;
      program = program;
      found = found;
      owner = ground arith;
      result = ground arith;
    }
  ]

module _ {L : Type 0} (k : Token L) (c : Invocation) where
  pub fund-Funded :
      (p : ℕ) (m : Address) (x : ℤ) (e e' : Env L)
      → fund k c p m x e ≡ (ok tt, e')
      → Funded k c p m x e e'
  unfolding fund
  fund-Funded p m x e e' h = elim (Option-cases (e.programs p)) [
    | inl missing ↦ ground arith
    | inr (program, found) ↦ elim (Option-cases e.token) [
      | inl unset ↦ ground arith
      | inr (token, token_set) ↦ elim (Option-cases (k.transfer token m c.contract x e.ledger)) [
        | inl refused ↦ ground arith
        | inr (ledger, transferred) ↦ record {
          authorized = ground arith;
          minimum = ground arith;
          program = program;
          found = found;
          owner = ground arith;
          token = token;
          token_set = token_set;
          ledger = ledger;
          transferred = transferred;
          fits = ground arith;
          result = ground arith;
        }
      ]
    ]
  ]
