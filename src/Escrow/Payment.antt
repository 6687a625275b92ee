-- ===== src/Escrow/Payment.antt =====
-- The money that `record_merge` and `withdraw_remaining` of contract.rs move, and when.
use mathlib.Core.Path.{subst}
use wave_flow.Common.{ℕ, ◌≡◌, ◌≢◌, inl, inr, ◌⊎◌, Option, some, arith, true, ap, ◌∙◌}
use wave_flow.Common.Int.{ℤ, pos, ◌+ℤ◌, ◌-ℤ◌, ◌*ℤ◌, ◌≤ℤ◌, int_laws}
use wave_flow.Escrow.Host.{Token, Invocation, Env, ok}
use wave_flow.Escrow.Types.{Address, Symbol, Program, Contributor, active, paused}
use wave_flow.Escrow.Contract.{record_merge, withdraw_remaining, create_program}
use wave_flow.Escrow.Slug.{IsSymbol, repo_refused_iff, repo_refused-IsSymbol}
use wave_flow.Escrow.Solvency.Total.{escrow_of}
use wave_flow.Escrow.Refine.Sound.{create_program-Created}
use wave_flow.Escrow.Refine.Merge.{record_merge-Merged, withdraw_remaining-Withdrawn, Spends-same}
use wave_flow.Escrow.Storage.{put}

module _ {L : Type 0} (k : Token L) (c : Invocation) where
  -- A transfer from the contract to another address, as the two balances see it.
  transfer_out :
      (t a : Address) (x : ℤ) (l l' : L)
      → a ≢ c.contract
      → k.transfer t c.contract a x l ≡ some l'
      → (k.balance t a l' ≡ k.balance t a l +ℤ x)
        × (k.balance t c.contract l' ≡ k.balance t c.contract l -ℤ x)
  transfer_out t a x l l' other h = (
    rw (k.transfer_moves t c.contract a x l l' h a) (grind (int_laws, other)),
    rw (k.transfer_moves t c.contract a x l l' h c.contract) (grind (int_laws, other)),
  )

  -- A `record_merge` that succeeds returns the points times the program's ratio; the program is active
  -- and holds at least that much; the registered address receives it from the contract (where that is
  -- another address), the program's escrow falls by it, and the pull request counts as processed.
  pub merge_pays :
      (g : Address) (p : ℕ) (u : Symbol) (n q : ℕ) (x : ℤ) (e e' : Env L)
      → record_merge k c g p u n q e ≡ (ok x, e')
      → (program : Program) × (contributor : Contributor) × (token : Address) × (e.programs p
          ≡ some program)
        × (program.status ≡ active)
        × (x ≡ pos q *ℤ program.reward_per_point)
        × (x ≤ℤ program.escrow_balance)
        × (e.contributors p u ≡ some contributor)
        × (e.token ≡ some token)
        × (contributor.stellar_address ≢ c.contract
            → (k.balance token contributor.stellar_address e'.ledger
                ≡ k.balance token contributor.stellar_address e.ledger +ℤ x)
              × (k.balance token c.contract e'.ledger ≡ k.balance token c.contract e.ledger -ℤ x))
        × (escrow_of (e'.programs p) ≡ program.escrow_balance -ℤ x)
        × (e'.processed p n ≡ some true)
  merge_pays g p u n q x e e' h =
      let s = record_merge-Merged k c g p u n q x e e' h in
      let due = s.due in
      let (same, _) =
        Spends-same due.program s.terms.payout due.program.milestone_cap s.terms.counted
          due.spends in
      let ledger = ap (λ a. a.ledger) s.paid.result in
      let amount = s.amount in
      let rest : escrow_of (
            put p
              (record (s.terms.counted) {
                escrow_balance = s.terms.counted.escrow_balance -ℤ s.terms.payout;
              })
              e.programs p)
          ≡ due.program.escrow_balance -ℤ x =
        ground arith in
      (
        due.program,
        s.terms.contributor,
        s.paid.token,
        due.found,
        due.running,
        s.amount ∙ due.payout,
        rw s.amount due.covered,
        due.registered,
        s.paid.token_set,
        λ other.
            rw (ledger, s.amount)
              (transfer_out s.paid.token s.terms.contributor.stellar_address s.terms.payout e.ledger
                s.paid.ledger other s.paid.transferred),
        ap (λ a. escrow_of (a.programs p)) s.paid.result ∙ rest,
        ap (λ a. a.processed p n) s.paid.result ∙ ground arith,
      )

  -- A `withdraw_remaining` that succeeds is authorised by the maintainer of a paused program, and
  -- returns its whole escrow (0 where there is none). The maintainer, where that is another address,
  -- receives it from the contract, and the escrow is zero then.
  pub withdraw_pays :
      (p : ℕ) (m : Address) (x : ℤ) (e e' : Env L)
      → withdraw_remaining k c p m e ≡ (ok x, e')
      → (program : Program) × (e.programs p ≡ some program)
        × (program.status ≡ paused)
        × (program.maintainer ≡ m)
        × (c.authorized m ≡ true)
        × (((program.escrow_balance ≤ℤ pos 0) × (x ≡ pos 0) × (e' ≡ e))
            ⊎ ((x ≡ program.escrow_balance)
                × (escrow_of (e'.programs p) ≡ pos 0)
                × ((token : Address)
                    → e.token ≡ some token
                    → m ≢ c.contract
                    → (k.balance token m e'.ledger ≡ k.balance token m e.ledger +ℤ x)
                      × (k.balance token c.contract e'.ledger
                          ≡ k.balance token c.contract e.ledger -ℤ x))))
  withdraw_pays p m x e e' h =
      let s = withdraw_remaining-Withdrawn k c p m x e e' h in
      (
        s.program,
        s.found,
        s.stopped,
        s.owner,
        s.authorized,
        elim (s.outcome) [
          | inl empty ↦ inl empty
          | inr (same, d) ↦ inr (
            same,
            ap (λ a. escrow_of (a.programs p)) d.result ∙ ground arith,
            λ token set other.
                let token_there = d.token_set in
                let token_same : d.token ≡ token = ground arith in
                let ledger = ap (λ a. a.ledger) d.result in
                subst
                  (λ t.
                    (k.balance t m e'.ledger ≡ k.balance t m e.ledger +ℤ x)
                    × (k.balance t c.contract e'.ledger ≡ k.balance t c.contract e.ledger -ℤ x))
                  token_same
                  (rw (ledger, same)
                    (transfer_out d.token m s.program.escrow_balance e.ledger d.ledger other
                      d.transferred)),
          )
        ],
      )

-- No text over the alphabet of a Soroban `Symbol` is a repository slug, so that no `create_program`
-- succeeds with one.
pub symbol_create_fails :
    {L : Type 0} (c : Invocation) (m : Address) (repo : Symbol) (q : ℤ) (limit : Option ℤ) (p : ℕ)
    (e e' : Env L)
    → IsSymbol repo
    → create_program c m repo q limit e ≢ (ok p, e')
symbol_create_fails c m repo q limit p e e' legal h =
    let made = create_program-Created c m repo q limit p e e' h in
    let accepted = (repo_refused_iff repo).1 made.slug in
    let refused = repo_refused-IsSymbol repo legal in cc
