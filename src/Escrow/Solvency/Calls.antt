-- ===== src/Escrow/Solvency/Calls.antt =====
-- The calls of contract.rs, one by one, against the solvency invariant.
use wave_flow.Common.{
  ℕ, ◌≡◌, ◌≢◌, refl, sym, inl, inr, Option, true, false, none, some, arith, ap, ◌∙◌,
}
use mathlib.Core.Path.{subst}
use wave_flow.Common.Int.{ℤ, pos, ◌+ℤ◌, ◌≤ℤ◌, ◌<ℤ◌, int_laws, parts_of_eq, *ℤ_pos}
use wave_flow.Escrow.Types.{Address, Symbol, Program}
use wave_flow.Escrow.Host.{Token, Invocation, Env}
use wave_flow.Escrow.Contract.{
  MergeTerms, Call, Reply, initialize_call, create_program_call, fund_call,
  register_contributor_call, record_merge_call, pause_call, resume_call, set_ratio_call,
  withdraw_remaining_call,
}
use wave_flow.Escrow.Spec.{
  Initialized, Created, Registered, Paused, Resumed, RatioSet, Funded, Paid, Merged, Withdrawn,
  new_program, Effect,
}
use wave_flow.Escrow.Solvency.Total.{escrow_of, escrow_total-zero}
use wave_flow.Escrow.Solvency.Invariant.{IsSolvent, write-IsSolvent, keep-IsSolvent}
use wave_flow.Escrow.Storage.{put}
use wave_flow.Escrow.Refine.Merge.{Spends-same}

module _ {L : Type 0} (k : Token L) (c : Invocation)
    (no_self : c.authorized c.contract ≡ false) where
  abbrev self : Address
  self = c.contract

  -- The contract's holdings after a transfer from or to it.
  received :
      (t m : Address) (x : ℤ) (l l' : L)
      → c.authorized m ≡ true
      → k.transfer t m self x l ≡ some l'
      → k.balance t self l' ≡ k.balance t self l +ℤ x
  received t m x l l' auth h =
      let other : m ≢ self = λ e. ground (arith, ap c.authorized e) in
      rw (k.transfer_moves t m self x l l' h self) (grind (int_laws, other))

  paid_out :
      (t a : Address) (x : ℤ) (l l' : L)
      → pos 0 ≤ℤ x
      → k.transfer t self a x l ≡ some l'
      → k.balance t self l ≤ℤ k.balance t self l' +ℤ x
  paid_out t a x l l' positive h = rw (k.transfer_moves t self a x l l' h self) (grind int_laws)

  Initialized-IsSolvent :
      (a g t : Address) (e e' : Env L)
      → IsSolvent k self e
      → Initialized c a g t e e'
      → IsSolvent k self e'
  Initialized-IsSolvent a g t e e' s i = subst (IsSolvent k self) (sym i.result) (record {
    no_debt = s.no_debt;
    ratios = s.ratios;
    unset = λ h. ground arith;
    unfunded = λ h. ground arith;
    covered = λ u _ n.
        rw (escrow_total-zero n e.programs (s.unfunded (s.unset i.fresh)))
          (k.balance_nonneg u self e.ledger);
  })

  Created-IsSolvent :
      (m : Address) (repo : Symbol) (q : ℤ) (limit : Option ℤ) (p : ℕ) (e e' : Env L)
      → IsSolvent k self e
      → Created c m repo q limit p e e'
      → IsSolvent k self e'
  Created-IsSolvent m repo q limit p e e' s i = subst (IsSolvent k self) (sym i.result) (
      write-IsSolvent k self e _ s p (new_program m repo q limit) refl refl refl (omega arith)
        i.positive (λ _. refl) (λ t _. let debt = s.no_debt p in omega int_laws))

  -- A program that is found, and is written with the same escrow and another positive ratio.
  module _ (e : Env L) (s : IsSolvent k self e) (p : ℕ) (program : Program)
      (found : e.programs p ≡ some program) where
    held : escrow_of (e.programs p) ≡ program.escrow_balance
    held = ap escrow_of found

    held_nonneg : pos 0 ≤ℤ program.escrow_balance
    held_nonneg = let debt = s.no_debt p in subst (λ x. pos 0 ≤ℤ x) held debt

    held_unfunded : e.token ≡ none → program.escrow_balance ≡ pos 0
    held_unfunded unset = sym held ∙ s.unfunded unset p

    rewrite-IsSolvent :
        (e' : Env L) (v : Program)
        → e'.admin ≡ e.admin
        → e'.token ≡ e.token
        → e'.programs ≡ put p v e.programs
        → e'.ledger ≡ e.ledger
        → v.escrow_balance ≡ program.escrow_balance
        → pos 0 <ℤ v.reward_per_point
        → IsSolvent k self e'
    rewrite-IsSolvent e' v same_admin same_token written same_ledger same ratio =
        write-IsSolvent k self e e' s p v same_admin same_token written (rw same held_nonneg) ratio
          (λ unset. same ∙ held_unfunded unset) (λ t _. rw (same, held, same_ledger) (omega arith))

    -- The program is written with escrow `y`, where at least the difference was received.
    settled-IsSolvent :
        (e' : Env L) (v : Program) (t : Address)
        → e'.admin ≡ e.admin
        → e'.token ≡ e.token
        → e'.programs ≡ put p v e.programs
        → e.token ≡ some t
        → pos 0 ≤ℤ v.escrow_balance
        → v.reward_per_point ≡ program.reward_per_point
        → v.escrow_balance +ℤ k.balance t self e.ledger
          ≤ℤ program.escrow_balance +ℤ k.balance t self e'.ledger
        → IsSolvent k self e'
    settled-IsSolvent e' v t same_admin same_token written token_set positive same grows =
        write-IsSolvent k self e e' s p v same_admin same_token written positive
          (rw same (s.ratios p program found)) (λ unset. ground arith)
          (λ u h.
            let t≡u : t ≡ u = ground arith in
            subst
              (λ u.
                v.escrow_balance +ℤ k.balance u self e.ledger
                ≤ℤ escrow_of (e.programs p) +ℤ k.balance u self e'.ledger)
              t≡u (rw held grows))

  Paused-IsSolvent :
      (p : ℕ) (m : Address) (e e' : Env L)
      → IsSolvent k self e
      → Paused c p m e e'
      → IsSolvent k self e'
  Paused-IsSolvent p m e e' s i = subst (IsSolvent k self) (sym i.result) (
      rewrite-IsSolvent e s p i.program i.found _ _ refl refl refl refl refl
        (s.ratios p i.program i.found))

  Resumed-IsSolvent :
      (p : ℕ) (m : Address) (e e' : Env L)
      → IsSolvent k self e
      → Resumed c p m e e'
      → IsSolvent k self e'
  Resumed-IsSolvent p m e e' s i = subst (IsSolvent k self) (sym i.result) (
      rewrite-IsSolvent e s p i.program i.found _ _ refl refl refl refl refl
        (s.ratios p i.program i.found))

  RatioSet-IsSolvent :
      (p : ℕ) (m : Address) (q : ℤ) (e e' : Env L)
      → IsSolvent k self e
      → RatioSet c p m q e e'
      → IsSolvent k self e'
  RatioSet-IsSolvent p m q e e' s i =
      subst (IsSolvent k self) (sym i.result)
        (rewrite-IsSolvent e s p i.program i.found _ _ refl refl refl refl refl i.positive)

  Registered-IsSolvent :
      (p : ℕ) (m : Address) (u : Symbol) (a : Address) (e e' : Env L)
      → IsSolvent k self e
      → Registered c p m u a e e'
      → IsSolvent k self e'
  Registered-IsSolvent p m u a e e' s i =
      subst (IsSolvent k self) (sym i.result)
        (keep-IsSolvent k self e _ s refl refl refl (λ t. omega arith))

  Funded-IsSolvent :
      (p : ℕ) (m : Address) (x : ℤ) (e e' : Env L)
      → IsSolvent k self e
      → Funded k c p m x e e'
      → IsSolvent k self e'
  Funded-IsSolvent p m x e e' s i =
      let held = held_nonneg e s p i.program i.found in
      let minimum = i.minimum in
      let moved =
        parts_of_eq _ _ (received i.token m x e.ledger i.ledger i.authorized i.transferred) in
      subst (IsSolvent k self) (sym i.result) (
        settled-IsSolvent e s p i.program i.found _ _ i.token refl refl refl i.token_set
          (omega int_laws) refl (omega int_laws))

  Paid-IsSolvent :
      (p : ℕ) (u : Symbol) (n q : ℕ) (terms : MergeTerms) (program : Program) (e e' : Env L)
      → IsSolvent k self e
      → e.programs p ≡ some program
      → terms.counted.escrow_balance ≡ program.escrow_balance
      → terms.counted.reward_per_point ≡ program.reward_per_point
      → pos 0 ≤ℤ terms.payout
      → terms.payout ≤ℤ program.escrow_balance
      → Paid k c p u n q terms e e'
      → IsSolvent k self e'
  Paid-IsSolvent p u n q terms program e e' s found same same_ratio positive within i =
      let moved =
        paid_out i.token terms.contributor.stellar_address terms.payout e.ledger i.ledger positive
          i.transferred in
      subst (IsSolvent k self) (sym i.result) (
        settled-IsSolvent e s p program found _ _ i.token refl refl refl i.token_set
          (rw same (omega int_laws)) same_ratio (rw same (omega int_laws)))

  Merged-IsSolvent :
      (g : Address) (p : ℕ) (u : Symbol) (n q : ℕ) (x : ℤ) (e e' : Env L)
      → IsSolvent k self e
      → Merged k c g p u n q x e e'
      → IsSolvent k self e'
  Merged-IsSolvent g p u n q x e e' s i =
      let due = i.due in
      let points : pos 0 <ℤ pos q = grind (arith, due.points) in
      let positive =
        *ℤ_pos (pos q) due.program.reward_per_point points (s.ratios p due.program due.found) in
      let (same, same_ratio) =
        Spends-same due.program i.terms.payout due.program.milestone_cap i.terms.counted
          due.spends in
      Paid-IsSolvent p u n q i.terms due.program e e' s due.found same same_ratio
        (rw due.payout (omega arith)) due.covered i.paid

  Withdrawn-IsSolvent :
      (p : ℕ) (m : Address) (x : ℤ) (e e' : Env L)
      → IsSolvent k self e
      → Withdrawn k c p m x e e'
      → IsSolvent k self e'
  Withdrawn-IsSolvent p m x e e' s i = elim (i.outcome) [
    | inl (_, _, same) ↦ subst (IsSolvent k self) (sym same) s
    | inr (_, d) ↦
        let positive = d.positive in
        let moved =
          paid_out d.token m i.program.escrow_balance e.ledger d.ledger (omega arith)
            d.transferred in
        subst (IsSolvent k self) (sym d.result) (
          settled-IsSolvent e s p i.program i.found _ _ d.token refl refl refl d.token_set
            (omega int_laws) refl (omega int_laws))
  ]

  pub Effect-IsSolvent :
      (op : Call) (r : Reply) (e e' : Env L)
      → IsSolvent k self e
      → Effect k c op r e e'
      → IsSolvent k self e'
  Effect-IsSolvent (initialize_call a g t) r e e' s i = Initialized-IsSolvent a g t e e' s i.1
  Effect-IsSolvent (create_program_call m repo q limit) r e e' s i =
      Created-IsSolvent m repo q limit i.0 e e' s i.2
  Effect-IsSolvent (fund_call p m x) r e e' s i = Funded-IsSolvent p m x e e' s i.1
  Effect-IsSolvent (register_contributor_call p m u a) r e e' s i =
      Registered-IsSolvent p m u a e e' s i.1
  Effect-IsSolvent (record_merge_call g p u n q) r e e' s i =
      Merged-IsSolvent g p u n q i.0 e e' s i.2
  Effect-IsSolvent (pause_call p m) r e e' s i = Paused-IsSolvent p m e e' s i.1
  Effect-IsSolvent (resume_call p m) r e e' s i = Resumed-IsSolvent p m e e' s i.1
  Effect-IsSolvent (set_ratio_call p m q) r e e' s i = RatioSet-IsSolvent p m q e e' s i.1
  Effect-IsSolvent (withdraw_remaining_call p m) r e e' s i = Withdrawn-IsSolvent p m i.0 e e' s i.2
