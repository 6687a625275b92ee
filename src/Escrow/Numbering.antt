-- ===== src/Escrow/Numbering.antt =====
-- The program ids that contract.rs gives, over every history.
use wave_flow.Common.{
  ℕ, ◌+◌, ◌<◌, ◌^◌, ◌≡◌, ◌≢◌, refl, sym, inl, inr, Option, none, some, arith, true, ◌==◌,
  Bool-cases, ◌∙◌, ◌%◌,
}
use wave_flow.Escrow.Contract.{
  Call, Reply, initialize_call, create_program_call, fund_call, register_contributor_call,
  record_merge_call, pause_call, resume_call, set_ratio_call, withdraw_remaining_call, invoke,
  create_program,
}
use mathlib.Core.Path.{subst}
use wave_flow.Escrow.Host.{Env, Token, Invocation, ok}
use wave_flow.Escrow.Types.{Program, Address, Symbol}
use wave_flow.Escrow.Storage.{put, or_default}
use wave_flow.Common.Int.{ℤ}
use wave_flow.Escrow.Spec.{Created, Effect}
use wave_flow.Escrow.Refine.Dispatch.{invoke-cases}
use wave_flow.Escrow.Refine.Sound.{create_program-Created}

-- The contract has an admin, and no program is stored above the counter.
pub record IsNumbered {L : Type 0} (e : Env L) : Type 0 where
  pub counter : ℕ
  pub counted : e.program_counter ≡ some counter
  pub in_u64 : counter < 2 ^ 64
  pub started : e.admin ≢ none
  pub above : (i : ℕ) → counter < i → e.programs i ≡ none

module _ {L : Type 0} where
  -- A stored program is written, or none.
  write-IsNumbered :
      (e e' : Env L) (s : IsNumbered e) (i : ℕ) (old v : Program)
      → e.programs i ≡ some old
      → e'.programs ≡ put i v e.programs
      → e'.program_counter ≡ e.program_counter
      → e'.admin ≡ e.admin
      → IsNumbered e'
  write-IsNumbered e e' s i old v found written same_counter same_admin = record {
    counter = s.counter;
    counted = same_counter ∙ s.counted;
    in_u64 = s.in_u64;
    started = λ h. s.started (sym same_admin ∙ h);
    above = λ j h. rw written (elim (Bool-cases (j == i)) [
      | inl same ↦
          let j_same : j ≡ i = ground arith in
          let there = s.above j h in
          let here : e.programs j ≡ some old = rw j_same found in ground arith
      | inr other ↦ let there = s.above j h in ground arith
    ]);
  }

  keep-IsNumbered :
      (e e' : Env L)
      → IsNumbered e
      → e'.programs ≡ e.programs
      → e'.program_counter ≡ e.program_counter
      → e'.admin ≡ e.admin
      → IsNumbered e'
  keep-IsNumbered e e' s same same_counter same_admin = record {
    counter = s.counter;
    counted = same_counter ∙ s.counted;
    in_u64 = s.in_u64;
    started = λ h. s.started (sym same_admin ∙ h);
    above = λ j h. rw same (s.above j h);
  }

module _ {L : Type 0} (k : Token L) (c : Invocation) (traps : c.overflow_checks ≡ true) where
  Created-next :
      (m : Address) (repo : Symbol) (q : ℤ) (limit : Option ℤ) (p : ℕ) (e e' : Env L)
      (s : IsNumbered e)
      → Created c m repo q limit p e e'
      → (p ≡ s.counter + 1) × (p < 2 ^ 64)
  Created-next m repo q limit p e e' s i =
      let counted = s.counted in
      let in_u64 = s.in_u64 in
      let current : or_default 0 e.program_counter ≡ s.counter = ground arith in
      let no_trap : or_default 0 e.program_counter + 1 ≢ 2 ^ 64 = ground arith in
      let next : p ≡ (s.counter + 1) % 2 ^ 64 = rw current at i.next in
      let room : s.counter + 1 ≢ 2 ^ 64 = rw current at no_trap in (omega arith, omega arith)

  Created-IsNumbered :
      (m : Address) (repo : Symbol) (q : ℤ) (limit : Option ℤ) (p : ℕ) (e e' : Env L)
      → IsNumbered e
      → Created c m repo q limit p e e'
      → IsNumbered e' × (e.programs p ≡ none)
  Created-IsNumbered m repo q limit p e e' s i =
      let (next, fits) = Created-next m repo q limit p e e' s i in
      (
        subst IsNumbered (sym i.result) (record {
          counter = p;
          counted = refl;
          in_u64 = fits;
          started = s.started;
          above = λ j h. let there = s.above j (omega arith) in ground arith;
        }),
        s.above p (omega arith),
      )

  Effect-IsNumbered :
      (op : Call) (r : Reply) (e e' : Env L) → IsNumbered e → Effect k c op r e e' → IsNumbered e'
  Effect-IsNumbered (initialize_call a g t) r e e' s i = absurd (s.started i.1.fresh)
  Effect-IsNumbered (create_program_call m repo q limit) r e e' s i =
      (Created-IsNumbered m repo q limit i.0 e e' s i.2).0
  Effect-IsNumbered (fund_call p m x) r e e' s i =
      subst IsNumbered (sym i.1.result)
        (write-IsNumbered e _ s p i.1.program _ i.1.found refl refl refl)
  Effect-IsNumbered (register_contributor_call p m u a) r e e' s i =
      subst IsNumbered (sym i.1.result) (keep-IsNumbered e _ s refl refl refl)
  Effect-IsNumbered (record_merge_call g p u n q) r e e' s m =
      subst IsNumbered (sym m.2.paid.result)
        (write-IsNumbered e _ s p m.2.due.program _ m.2.due.found refl refl refl)
  Effect-IsNumbered (pause_call p m) r e e' s i =
      subst IsNumbered (sym i.1.result)
        (write-IsNumbered e _ s p i.1.program _ i.1.found refl refl refl)
  Effect-IsNumbered (resume_call p m) r e e' s i =
      subst IsNumbered (sym i.1.result)
        (write-IsNumbered e _ s p i.1.program _ i.1.found refl refl refl)
  Effect-IsNumbered (set_ratio_call p m q) r e e' s i =
      subst IsNumbered (sym i.1.result)
        (write-IsNumbered e _ s p i.1.program _ i.1.found refl refl refl)
  Effect-IsNumbered (withdraw_remaining_call p m) r e e' s i = elim (i.2.outcome) [
    | inl (_, _, same) ↦ subst IsNumbered (sym same) s
    | inr (_, d) ↦
        subst IsNumbered (sym d.result)
          (write-IsNumbered e _ s p i.2.program _ i.2.found refl refl refl)
  ]

  -- In a build that traps on overflow: once the contract has an admin and no program is stored above
  -- the counter, every invocation keeps it so, and a `create_program` that succeeds returns an id
  -- under which no program was stored.
  pub ids_fresh :
      (op : Call) (e : Env L)
      → IsNumbered e
      → IsNumbered (invoke k c op e).1
        × ((m : Address) (repo : Symbol) (q : ℤ) (limit : Option ℤ) (p : ℕ) (e' : Env L)
            → create_program c m repo q limit e ≡ (ok p, e')
            → e.programs p ≡ none)
  ids_fresh op e s = (
    elim (invoke-cases k c op e) [
      | inl (r, effect) ↦ Effect-IsNumbered op r e _ s effect
      | inr same ↦ subst IsNumbered (sym same) s
    ],
    λ m repo q limit p e' h.
        (Created-IsNumbered m repo q limit p e e' s
          (create_program-Created c m repo q limit p e e' h)).1,
  )
