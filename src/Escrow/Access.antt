-- ===== src/Escrow/Access.antt =====
-- Who may change what in contract.rs.
use wave_flow.Common.{ℕ, ◌≡◌, refl, inl, inr, ◌⊎◌, Option, some, arith, true, ◌==◌, Bool-cases}
use wave_flow.Common.Int.{ℤ}
use wave_flow.Escrow.Contract.{
  Call, Reply, initialize_call, create_program_call, fund_call, register_contributor_call,
  record_merge_call, pause_call, resume_call, set_ratio_call, withdraw_remaining_call, invoke,
}
use mathlib.Core.Path.{ap}
use wave_flow.Escrow.Host.{Invocation, Token, Env}
use wave_flow.Escrow.Types.{Program, Address, Symbol}
use wave_flow.Escrow.Spec.{Effect}
use wave_flow.Escrow.Storage.{put}
use wave_flow.Escrow.Refine.Dispatch.{invoke-cases}

-- On whose authority a call changes a program.
pub data Authority {L : Type 0} (c : Invocation) (op : Call) (e : Env L) (program : Program)
    : Type 0 where
  maintainer : c.authorized program.maintainer ≡ true → Authority c op e program
  gateway : (g : Address) → e.gateway ≡ some g → c.authorized g ≡ true → Authority c op e program
  creation :
      (m : Address) (repo : Symbol) (q : ℤ) (limit : Option ℤ)
      → op ≡ create_program_call m repo q limit
      → c.authorized m ≡ true
      → Authority c op e program

module _ {L : Type 0} (c : Invocation) (op : Call) (e e' : Env L) (p : ℕ) (program : Program)
    (found : e.programs p ≡ some program) where
  -- A call that writes program `i`, on the authority of its maintainer.
  owner_writes :
      (i : ℕ) (old v : Program) (m : Address)
      → e.programs i ≡ some old
      → old.maintainer ≡ m
      → c.authorized m ≡ true
      → e'.programs ≡ put i v e.programs
      → (e'.programs p ≡ some program) ⊎ Authority c op e program
  owner_writes i old v m found_i owner auth written = elim (Bool-cases (p == i)) [
    | inl same ↦
        let p_same : p ≡ i = ground arith in
        let same_program : program ≡ old = ground arith in
        inr (maintainer (rw (same_program, owner) auth))
    | inr other ↦ inl (rw written (ground arith))
  ]

  keeps : e'.programs ≡ e.programs → (e'.programs p ≡ some program) ⊎ Authority c op e program
  keeps same = inl (rw same found)

module _ {L : Type 0} (k : Token L) (c : Invocation) (p : ℕ) (program : Program) where
  Effect-Authority :
      (op : Call) (r : Reply) (e e' : Env L)
      → e.programs p ≡ some program
      → Effect k c op r e e'
      → (e'.programs p ≡ some program) ⊎ Authority c op e program
  Effect-Authority (initialize_call a g t) r e e' found i =
      keeps c _ e e' p program found (ap (λ a. a.programs) i.1.result)
  Effect-Authority (create_program_call m repo q limit) r e e' found i =
      inr (creation m repo q limit refl i.2.authorized)
  Effect-Authority (fund_call _ m x) r e e' found i =
      owner_writes c _ e e' p program found _ _ _ m i.1.found i.1.owner i.1.authorized
        (ap (λ a. a.programs) i.1.result)
  Effect-Authority (register_contributor_call _ m u a) r e e' found i =
      keeps c _ e e' p program found (ap (λ a. a.programs) i.1.result)
  Effect-Authority (record_merge_call g i u n q) r e e' found m =
      inr (gateway g m.2.due.gateway m.2.due.authorized)
  Effect-Authority (pause_call _ m) r e e' found i =
      owner_writes c _ e e' p program found _ _ _ m i.1.found i.1.owner i.1.authorized
        (ap (λ a. a.programs) i.1.result)
  Effect-Authority (resume_call _ m) r e e' found i =
      owner_writes c _ e e' p program found _ _ _ m i.1.found i.1.owner i.1.authorized
        (ap (λ a. a.programs) i.1.result)
  Effect-Authority (set_ratio_call _ m q) r e e' found i =
      owner_writes c _ e e' p program found _ _ _ m i.1.found i.1.owner i.1.authorized
        (ap (λ a. a.programs) i.1.result)
  Effect-Authority (withdraw_remaining_call _ m) r e e' found i = elim (i.2.outcome) [
    | inl (_, _, same) ↦ keeps c _ e e' p program found (ap (λ a. a.programs) same)
    | inr (_, d) ↦
        owner_writes c _ e e' p program found _ _ _ m i.2.found i.2.owner i.2.authorized
          (ap (λ a. a.programs) d.result)
  ]

  -- A call that changes a stored program is authorised by the program's maintainer or by the stored
  -- gateway, or it is a `create_program` that its caller authorised.
  pub change_authorized :
      (op : Call) (e : Env L)
      → e.programs p ≡ some program
      → ((invoke k c op e).1.programs p ≡ some program) ⊎ Authority c op e program
  change_authorized op e found = elim (invoke-cases k c op e) [
    | inl (r, effect) ↦ Effect-Authority op r e _ found effect
    | inr same ↦ inl (rw same found)
  ]
