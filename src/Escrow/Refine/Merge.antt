-- ===== src/Escrow/Refine/Merge.antt =====
-- `record_merge` and `withdraw_remaining` of contract.rs where they succeed, against the
-- specification.
use wave_flow.Common.{
  ℕ, ◌≡◌, refl, sym, ◌⊎◌, inl, inr, Option, none, some, arith, Option-cases, Bool-cases,
}
use mathlib.Core.Path.{subst, subst₂}
use wave_flow.Common.Int.{ℤ, pos, ◌+ℤ◌, ◌*ℤ◌, ◌<ℤ◌, leb_ℤ, ltb_ℤ, in_i128}
use wave_flow.Escrow.Types.{
  Address, Symbol, Program, ContractError, overflow, milestone_cap_exceeded,
}
use wave_flow.Escrow.Host.{Token, Invocation, Env, ok, err, >>=-eq-ok}
use wave_flow.Escrow.Contract.{
  MergeTerms, merge_terms, pay_merge, record_merge, withdraw_remaining, spend_cap, pay_out,
}
use wave_flow.Escrow.Spec.{Merged, Drained, Withdrawn, Spends, Due, Paid}

-- A program that is counted against its milestone limit is otherwise the same.
pub Spends-same :
    (program : Program) (x : ℤ) (limit : Option ℤ) (counted : Program)
    → Spends program x limit counted
    → (counted.escrow_balance ≡ program.escrow_balance)
      × (counted.reward_per_point ≡ program.reward_per_point)
Spends-same program x none counted h = ground arith
Spends-same program x (some limit) counted h = ground arith

-- The milestone test passes with a program that the specification allows, or fails.
pub spend_cap-cases :
    {L : Type 0} (program : Program) (x : ℤ) (limit : Option ℤ) (e : Env L)
    → ((counted : Program) × (spend_cap program x limit e ≡ (ok counted, e))
        × Spends program x limit counted)
      ⊎ ((y : ContractError) × (spend_cap program x limit e ≡ (err y, e)))
unfolding spend_cap
spend_cap-cases program x none e = inl (program, refl, refl)
spend_cap-cases program x (some limit) e =
    elim (Bool-cases (in_i128 (program.milestone_spent +ℤ x))) [
      | inl fits ↦ elim (Bool-cases (ltb_ℤ limit (program.milestone_spent +ℤ x))) [
        | inl above ↦ inr (milestone_cap_exceeded, ground arith)
        | inr within ↦ inl (
          record program { milestone_spent = program.milestone_spent +ℤ x },
          ground arith,
          (fits, ground arith, refl),
        )
      ]
      | inr large ↦ inr (overflow, ground arith)
    ]

module _ {L : Type 0} (c : Invocation) where
  merge_terms-Due :
      (g : Address) (p : ℕ) (u : Symbol) (n q : ℕ) (terms : MergeTerms) (e e' : Env L)
      → merge_terms c g p u n q e ≡ (ok terms, e')
      → (e' ≡ e) × Due c g p u n q terms e
  unfolding merge_terms
  merge_terms-Due g p u n q terms e e' h = elim (Option-cases (e.programs p)) [
    | inl missing ↦ ground arith
    | inr (program, found) ↦
        elim (spend_cap-cases program (pos q *ℤ program.reward_per_point) program.milestone_cap e) [
          | inl (counted, spent, spends) ↦
              let paid : terms.payout ≡ pos q *ℤ program.reward_per_point = ground arith in
              let same : terms.counted ≡ counted = ground arith in
              (
                ground arith,
                record {
                  authorized = ground arith;
                  gateway = ground arith;
                  points = ground arith;
                  unprocessed = ground arith;
                  program = program;
                  found = found;
                  running = ground arith;
                  registered = ground arith;
                  payout = ground arith;
                  payout_fits = ground arith;
                  covered = ground arith;
                  spends =
                      subst₂ (λ x counted. Spends program x program.milestone_cap counted)
                        (sym paid) (sym same) spends;
                },
              )
          | inr (y, failed) ↦ ground arith
        ]
  ]

module _ {L : Type 0} (k : Token L) (c : Invocation) where
  pay_merge-Paid :
      (p : ℕ) (u : Symbol) (n q : ℕ) (terms : MergeTerms) (x : ℤ) (e e' : Env L)
      → pay_merge k c p u n q terms e ≡ (ok x, e')
      → (x ≡ terms.payout) × Paid k c p u n q terms e e'
  unfolding pay_merge
  pay_merge-Paid p u n q terms x e e' h = elim (Option-cases e.token) [
    | inl unset ↦ ground arith
    | inr (token, token_set) ↦
        elim (Option-cases
          (k.transfer token c.contract terms.contributor.stellar_address terms.payout e.ledger)) [
            | inl refused ↦ ground arith
            | inr (ledger, transferred) ↦ (
              ground arith,
              record {
                token = token;
                token_set = token_set;
                ledger = ledger;
                transferred = transferred;
                rest_fits = ground arith;
                result = ground arith;
              },
            )
          ]
  ]

  pay_out-Drained :
      (p : ℕ) (m : Address) (program : Program) (x : ℤ) (e e' : Env L)
      → pay_out k c p m program e ≡ (ok x, e')
      → pos 0 <ℤ program.escrow_balance
      → (x ≡ program.escrow_balance) × Drained k c p m program e e'
  unfolding pay_out
  pay_out-Drained p m program x e e' h positive = elim (Option-cases e.token) [
    | inl unset ↦ ground arith
    | inr (token, token_set) ↦
        elim (Option-cases (k.transfer token c.contract m program.escrow_balance e.ledger)) [
          | inl refused ↦ ground arith
          | inr (ledger, transferred) ↦ (
            ground arith,
            record {
              positive = positive;
              token = token;
              token_set = token_set;
              ledger = ledger;
              transferred = transferred;
              result = ground arith;
            },
          )
        ]
  ]

  pub withdraw_remaining-Withdrawn :
      (p : ℕ) (m : Address) (x : ℤ) (e e' : Env L)
      → withdraw_remaining k c p m e ≡ (ok x, e')
      → Withdrawn k c p m x e e'
  unfolding withdraw_remaining
  withdraw_remaining-Withdrawn p m x e e' h = elim (Option-cases (e.programs p)) [
    | inl missing ↦ ground arith
    | inr (program, found) ↦ record {
      authorized = ground arith;
      program = program;
      found = found;
      owner = ground arith;
      stopped = ground arith;
      outcome = elim (Bool-cases (leb_ℤ program.escrow_balance (pos 0))) [
        | inl empty ↦ inl (ground arith, ground arith, ground arith)
        | inr held ↦ inr (pay_out-Drained p m program x e e' (ground arith) (ground arith))
      ];
    }
  ]

  pub record_merge-Merged :
      (g : Address) (p : ℕ) (u : Symbol) (n q : ℕ) (x : ℤ) (e e' : Env L)
      → record_merge k c g p u n q e ≡ (ok x, e')
      → Merged k c g p u n q x e e'
  unfolding record_merge
  record_merge-Merged g p u n q x e e' h =
      let (terms, e₁, tested, rest) =
        >>=-eq-ok (merge_terms c g p u n q) (pay_merge k c p u n q) e e' h in
      let (same, due) = merge_terms-Due c g p u n q terms e e₁ tested in
      let (amount, paid) =
        pay_merge-Paid p u n q terms x e e'
          (subst (λ s. pay_merge k c p u n q terms s ≡ (ok x, e')) same rest) in
      record { terms = terms; due = due; amount = amount; paid = paid }
