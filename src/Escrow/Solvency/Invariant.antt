-- ===== src/Escrow/Solvency/Invariant.antt =====
-- The solvency invariant of contract.rs, and the writes that keep it.
use wave_flow.Common.{ℕ, ◌≡◌, sym, none, some, arith}
use mathlib.Core.Path.{subst}
use wave_flow.Common.Int.{pos, ◌+ℤ◌, ◌≤ℤ◌, ◌<ℤ◌}
use wave_flow.Escrow.Types.{Address, Program}
use wave_flow.Escrow.Host.{Token, Env}
use wave_flow.Escrow.Storage.{put}
use wave_flow.Escrow.Solvency.Total.{escrow_of, escrow_total, HasNoDebt, put_covered, put-HasNoDebt}

module _ {L : Type 0} (k : Token L) (self : Address) where
  -- No escrow balance is negative and every ratio is positive; before the token is set nothing is
  -- held in escrow; from then on the contract's tokens cover the escrow of all programs.
  pub record IsSolvent (e : Env L) : Type 0 where
    pub no_debt : HasNoDebt e.programs
    pub ratios : (i : ℕ) (p : Program) → e.programs i ≡ some p → pos 0 <ℤ p.reward_per_point
    pub unset : e.admin ≡ none → e.token ≡ none
    pub unfunded : e.token ≡ none → (i : ℕ) → escrow_of (e.programs i) ≡ pos 0
    pub covered :
        (t : Address)
        → e.token ≡ some t
        → (n : ℕ) → escrow_total n e.programs ≤ℤ k.balance t self e.ledger

  -- A write of one program and a new ledger keep it, where the escrow grows by no more than the
  -- contract's holdings do.
  module _ (e e' : Env L) (s : IsSolvent e) (p : ℕ) (v : Program) (same_admin : e'.admin ≡ e.admin)
      (same_token : e'.token ≡ e.token) (written : e'.programs ≡ put p v e.programs)
      (positive : pos 0 ≤ℤ v.escrow_balance) (ratio : pos 0 <ℤ v.reward_per_point) where
    ratios_written :
        (i : ℕ) (q : Program) → put p v e.programs i ≡ some q → pos 0 <ℤ q.reward_per_point
    ratios_written i q h = ground (arith, s.ratios i q)

    unfunded_written :
        (e.token ≡ none → v.escrow_balance ≡ pos 0)
        → e.token ≡ none
        → (i : ℕ) → escrow_of (put p v e.programs i) ≡ pos 0
    unfunded_written empty unset i = ground (arith, s.unfunded unset i, empty unset)

    pub write-IsSolvent :
        (e.token ≡ none → v.escrow_balance ≡ pos 0)
        → ((t : Address)
            → e.token ≡ some t
            → v.escrow_balance +ℤ k.balance t self e.ledger
              ≤ℤ escrow_of (e.programs p) +ℤ k.balance t self e'.ledger)
        → IsSolvent e'
    write-IsSolvent empty grows = record {
      no_debt = subst HasNoDebt (sym written) (put-HasNoDebt p v e.programs s.no_debt positive);
      ratios = λ i q h. ratios_written i q (rw written at h);
      unset = λ h. rw same_token (s.unset (rw same_admin at h));
      unfunded = λ h i. rw written (unfunded_written empty (rw same_token at h) i);
      covered = λ t h n.
          let h' : e.token ≡ some t = rw same_token at h in
          rw written
            (put_covered p v e.programs _ _ s.no_debt positive (grows t h') (s.covered t h') n);
    }

  -- A change that touches neither the programs nor the token, with holdings that do not shrink.
  pub keep-IsSolvent :
      (e e' : Env L)
      → IsSolvent e
      → e'.admin ≡ e.admin
      → e'.token ≡ e.token
      → e'.programs ≡ e.programs
      → ((t : Address) → k.balance t self e.ledger ≤ℤ k.balance t self e'.ledger)
      → IsSolvent e'
  keep-IsSolvent e e' s same_admin same_token same grows = record {
    no_debt = subst HasNoDebt (sym same) s.no_debt;
    ratios = λ i q h. s.ratios i q (rw same at h);
    unset = λ h. rw same_token (s.unset (rw same_admin at h));
    unfunded = λ h i. rw same (s.unfunded (rw same_token at h) i);
    covered = λ t h n.
        let before = s.covered t (rw same_token at h) n in
        let more = grows t in rw same (omega arith);
  }
