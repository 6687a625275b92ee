-- ===== src/Escrow/Milestone.antt =====
-- The milestone limit of contract.rs over every history.
use wave_flow.Common.{
  ℕ, ◌≡◌, refl, sym, inl, inr, ◌⊎◌, Option, none, some, arith, true, false, List, [], ◌∷◌, ◌==◌,
  if◌then◌else◌, ◌∙◌, ◌≢◌,
}
use mathlib.Core.Path.{subst, ap}
use wave_flow.Common.Int.{ℤ, pos, ◌+ℤ◌, ◌≤ℤ◌}
use wave_flow.Escrow.Types.{
  Address, Program, Event, prog_new, funded, contrib, merge, program_paused, program_resumed,
  Symbol,
}
use wave_flow.Escrow.Host.{Token, Invocation, Env}
use wave_flow.Escrow.Contract.{
  Call, Reply, initialize_call, create_program_call, fund_call, register_contributor_call,
  record_merge_call, pause_call, resume_call, set_ratio_call, withdraw_remaining_call,
}
use wave_flow.Escrow.Spec.{Effect, Spends, new_program, Merged}
use wave_flow.Escrow.Storage.{put, put-eq-some}
use wave_flow.Escrow.Reach.{Step, called, elsewhere, Reach, here, next, deployed}
use wave_flow.Escrow.Refine.Dispatch.{invoke-cases}

-- What was paid for merges of program `p` since the program of that id was last created; the latest
-- event stands first.
unfoldable pub paid_since : ℕ → List Event → ℤ
paid_since p [] = pos 0
paid_since p (merge m ∷ events) =
    let rest = paid_since p events in if m.program_id == p then rest +ℤ m.payout_amount else rest
paid_since p (prog_new n ∷ events) =
    let rest = paid_since p events in if n.program_id == p then pos 0 else rest
paid_since p (funded _ ∷ events) = paid_since p events
paid_since p (contrib _ ∷ events) = paid_since p events
paid_since p (program_paused _ ∷ events) = paid_since p events
paid_since p (program_resumed _ ∷ events) = paid_since p events

-- The amount counted for a program with a limit is what was paid, and lies within the limit.
abbrev pub IsWithin : Program → ℤ → Type 0
IsWithin v paid =
    (limit : ℤ)
    → v.milestone_cap ≡ some limit
    → (v.milestone_spent ≡ paid) × ((paid ≤ℤ limit) ⊎ (paid ≡ pos 0))

-- A payment of program `p` is counted.
spend-IsWithin :
    (program : Program) (x paid : ℤ) (counted : Program)
    → IsWithin program paid
    → Spends program x program.milestone_cap counted
    → counted.milestone_cap ≡ program.milestone_cap
    → IsWithin counted (paid +ℤ x)
spend-IsWithin program x paid counted w spends same limit has =
    let limited : program.milestone_cap ≡ some limit = sym same ∙ has in
    let (fits, within, result) = subst (λ o. Spends program x o counted) limited spends in
    let before = (w limit limited).0 in
    (ap (λ q. q.milestone_spent) result ∙ ap (λ y. y +ℤ x) before, inl (rw (← before) within))

module _ {L : Type 0} (p : ℕ) where
  abbrev IsLimited : Env L → Type 0
  IsLimited e = (v : Program) → e.programs p ≡ some v → IsWithin v (paid_since p e.events)

  -- A program is written: of id `p` within its limit, of another id with no payment to `p`.
  write-IsLimited :
      (e e' : Env L) (i : ℕ) (v : Program)
      → IsLimited e
      → e'.programs ≡ put i v e.programs
      → (p ≡ i → IsWithin v (paid_since p e'.events))
      → (p ≢ i → paid_since p e'.events ≡ paid_since p e.events)
      → IsLimited e'
  write-IsLimited e e' i v s written own quiet w h =
      elim (put-eq-some i v e.programs p w (rw written at h)) [
        | inl (mine, same) ↦ rw same (own mine)
        | inr (there, before) ↦ rw (quiet there) (s w before)
      ]

  -- A program is written with the same limit and count, and nothing is paid.
  rewrite-IsLimited :
      (e e' : Env L) (i : ℕ) (old v : Program)
      → IsLimited e
      → e.programs i ≡ some old
      → e'.programs ≡ put i v e.programs
      → paid_since p e'.events ≡ paid_since p e.events
      → v.milestone_cap ≡ old.milestone_cap
      → v.milestone_spent ≡ old.milestone_spent
      → IsLimited e'
  rewrite-IsLimited e e' i old v s found written quiet same_limit same_spent =
      write-IsLimited e e' i v s written
        (λ mine limit has.
          let before : e.programs p ≡ some old = rw mine found in
          rw (quiet, same_spent) (s old before limit (sym same_limit ∙ has)))
        (λ _. quiet)

Spends-limit :
    (program : Program) (x : ℤ) (limit : Option ℤ) (counted : Program)
    → Spends program x limit counted
    → counted.milestone_cap ≡ program.milestone_cap
Spends-limit program x none counted h = ground arith
Spends-limit program x (some limit) counted h = ground arith

module _ {L : Type 0} (k : Token L) (p : ℕ) where
  Merged-IsLimited :
      (c : Invocation) (g : Address) (i : ℕ) (u : Symbol) (n q : ℕ) (x : ℤ) (e e' : Env L)
      → IsLimited p e
      → Merged k c g i u n q x e e'
      → IsLimited p e'
  unfolding paid_since
  Merged-IsLimited c g i u n q x e e' s m =
      let due = m.due in
      let same =
        Spends-limit due.program m.terms.payout due.program.milestone_cap m.terms.counted
          due.spends in
      let written = ap (λ a. a.programs) m.paid.result in
      let paid = ap (λ a. paid_since p a.events) m.paid.result in
      write-IsLimited p e e' i _ s written
        (λ mine.
          let within = s due.program (rw mine due.found) in
          let counted =
            spend-IsWithin due.program m.terms.payout _ m.terms.counted within due.spends same in
          let tested : (i == p) ≡ true = ground arith in rw (paid, tested) counted)
        (λ other. let tested : (i == p) ≡ false = ground arith in rw (paid, tested))

  Effect-IsLimited :
      (c : Invocation) (op : Call) (r : Reply) (e e' : Env L)
      → IsLimited p e
      → Effect k c op r e e'
      → IsLimited p e'
  unfolding paid_since
  Effect-IsLimited c (initialize_call a g t) r e e' s i = subst (IsLimited p) (sym i.1.result) s
  Effect-IsLimited c (create_program_call m repo q limit) r e e' s i =
      let id = i.0 in
      let written = ap (λ a. a.programs) i.2.result in
      let reset = ap (λ a. paid_since p a.events) i.2.result in
      write-IsLimited p e e' id (new_program m repo q limit) s written
        (λ mine _ _.
          let tested : (id == p) ≡ true = ground arith in rw (reset, tested) (refl, inr refl))
        (λ other. let tested : (id == p) ≡ false = ground arith in rw (reset, tested))
  Effect-IsLimited c (fund_call _ m x) r e e' s i =
      rewrite-IsLimited p e e' _ _ _ s i.1.found (ap (λ a. a.programs) i.1.result)
        (ap (λ a. paid_since p a.events) i.1.result) refl refl
  Effect-IsLimited c (register_contributor_call _ m u a) r e e' s i =
      subst (IsLimited p) (sym i.1.result) s
  Effect-IsLimited c (record_merge_call g i u n q) r e e' s m =
      Merged-IsLimited c g i u n q m.0 e e' s m.2
  Effect-IsLimited c (pause_call _ m) r e e' s i =
      rewrite-IsLimited p e e' _ _ _ s i.1.found (ap (λ a. a.programs) i.1.result)
        (ap (λ a. paid_since p a.events) i.1.result) refl refl
  Effect-IsLimited c (resume_call _ m) r e e' s i =
      rewrite-IsLimited p e e' _ _ _ s i.1.found (ap (λ a. a.programs) i.1.result)
        (ap (λ a. paid_since p a.events) i.1.result) refl refl
  Effect-IsLimited c (set_ratio_call _ m q) r e e' s i =
      rewrite-IsLimited p e e' _ _ _ s i.1.found (ap (λ a. a.programs) i.1.result)
        (ap (λ a. paid_since p a.events) i.1.result) refl refl
  Effect-IsLimited c (withdraw_remaining_call _ m) r e e' s i = elim (i.2.outcome) [
    | inl (_, _, same) ↦ rw same s
    | inr (_, d) ↦
        rewrite-IsLimited p e e' _ _ _ s i.2.found (ap (λ a. a.programs) d.result)
          (ap (λ a. paid_since p a.events) d.result) refl refl
  ]

  Step-IsLimited :
      (self : Address) (e e' : Env L) → IsLimited p e → Step k self e e' → IsLimited p e'
  Step-IsLimited self e e' s (called c op _ _ result) = elim (invoke-cases k c op e) [
    | inl (r, effect) ↦ rw result (Effect-IsLimited c op r e _ s effect)
    | inr same ↦ rw (result, same) s
  ]
  Step-IsLimited self e e' s (elsewhere l _ result) = subst (IsLimited p) (sym result) s

  -- In every history, for a program with a milestone limit: the stored count is what was paid for its
  -- merges since a program of its id was last created, and that is within the limit, or nothing was
  -- paid.
  pub Reach-IsLimited :
      (self : Address) (l : L) (e : Env L)
      → Reach k self (deployed l) e
      → (v : Program) → e.programs p ≡ some v
      → IsWithin v (paid_since p e.events)
  unfolding paid_since
  Reach-IsLimited self l e here = λ v h. ground arith
  Reach-IsLimited self l e (next r st) = Step-IsLimited self _ e (Reach-IsLimited self l _ r) st
