-- ===== src/Escrow/Once.antt =====
-- `ProcessedPr` and the merge events of contract.rs, over every history.
use wave_flow.Common.{
  ℕ, suc, ◌≤◌, ◌≡◌, refl, sym, inl, inr, arith, false, List, [], ◌∷◌, ◌==◌, ◌&&◌, if◌then◌else◌,
  ◌≢◌, Bool-cases,
}
use mathlib.Core.Path.{subst, subst₂}
use wave_flow.Escrow.Types.{
  Address, Symbol, Event, prog_new, funded, contrib, merge, program_paused, program_resumed,
}
use wave_flow.Escrow.Host.{Token, Invocation, Env, ok}
use wave_flow.Escrow.Storage.{or_default}
use wave_flow.Escrow.Contract.{
  Call, Reply, initialize_call, create_program_call, fund_call, register_contributor_call,
  record_merge_call, pause_call, resume_call, set_ratio_call, withdraw_remaining_call, record_merge,
}
use wave_flow.Escrow.Spec.{Effect}
use wave_flow.Escrow.Reach.{Step, called, elsewhere, Reach, here, next, deployed}
use wave_flow.Escrow.Refine.Dispatch.{invoke-cases}
use wave_flow.Common.Int.{ℤ}
use wave_flow.Escrow.Refine.Merge.{record_merge-Merged}

-- The merges recorded for a pull request of a program.
unfoldable pub merges : ℕ → ℕ → List Event → ℕ
merges p n [] = 0
merges p n (merge m ∷ events) =
    let rest = merges p n events in
    if (m.program_id == p) && (m.pr_number == n) then suc rest else rest
merges p n (prog_new _ ∷ events) = merges p n events
merges p n (funded _ ∷ events) = merges p n events
merges p n (contrib _ ∷ events) = merges p n events
merges p n (program_paused _ ∷ events) = merges p n events
merges p n (program_resumed _ ∷ events) = merges p n events

-- One merge at most, and none unless the pull request is marked.
abbrev IsOnce : {L : Type 0} → ℕ → ℕ → Env L → Type 0
IsOnce p n e =
    (merges p n e.events ≤ 1)
    × (or_default false (e.processed p n) ≡ false → merges p n e.events ≡ 0)

module _ {L : Type 0} (k : Token L) (p n : ℕ) where
  Effect-IsOnce :
      (c : Invocation) (op : Call) (r : Reply) (e e' : Env L)
      → IsOnce p n e
      → Effect k c op r e e'
      → IsOnce p n e'
  unfolding merges
  Effect-IsOnce c (initialize_call a g t) r e e' s i = subst (IsOnce p n) (sym i.1.result) s
  Effect-IsOnce c (create_program_call m repo q limit) r e e' s i =
      subst (IsOnce p n) (sym i.2.result) s
  Effect-IsOnce c (fund_call _ m x) r e e' s i = subst (IsOnce p n) (sym i.1.result) s
  Effect-IsOnce c (register_contributor_call _ m u a) r e e' s i =
      subst (IsOnce p n) (sym i.1.result) s
  Effect-IsOnce c (record_merge_call g p' u n' q) r e e' s i =
      subst (IsOnce p n) (sym i.2.paid.result) (elim (Bool-cases ((p' == p) && (n' == n))) [
        | inl same ↦
            let p_same : p' ≡ p = ground arith in
            let n_same : n' ≡ n = ground arith in
            let none_yet : merges p n e.events ≡ 0 = s.1 (
              subst₂ (λ a b. or_default false (e.processed a b) ≡ false) p_same n_same
                i.2.due.unprocessed) in
            (ground arith, λ h. ground arith)
        | inr other ↦ (ground arith, λ h. ground (arith, s.1))
      ])
  Effect-IsOnce c (pause_call _ m) r e e' s i = subst (IsOnce p n) (sym i.1.result) s
  Effect-IsOnce c (resume_call _ m) r e e' s i = subst (IsOnce p n) (sym i.1.result) s
  Effect-IsOnce c (set_ratio_call _ m q) r e e' s i = subst (IsOnce p n) (sym i.1.result) s
  Effect-IsOnce c (withdraw_remaining_call _ m) r e e' s i = elim (i.2.outcome) [
    | inl (_, _, same) ↦ rw same s
    | inr (_, d) ↦ subst (IsOnce p n) (sym d.result) s
  ]

  Step-IsOnce : (self : Address) (e e' : Env L) → IsOnce p n e → Step k self e e' → IsOnce p n e'
  Step-IsOnce self e e' s (called c op _ _ result) = elim (invoke-cases k c op e) [
    | inl (r, effect) ↦ rw result (Effect-IsOnce c op r e _ s effect)
    | inr same ↦ rw (result, same) s
  ]
  Step-IsOnce self e e' s (elsewhere l _ result) = subst (IsOnce p n) (sym result) s

  Reach-IsOnce : (self : Address) (l : L) (e : Env L) → Reach k self (deployed l) e → IsOnce p n e
  unfolding merges
  Reach-IsOnce self l e here = (omega arith, λ _. refl)
  Reach-IsOnce self l e (next r st) = Step-IsOnce self _ e (Reach-IsOnce self l _ r) st

  -- In every history at most one merge is recorded for a pull request of a program, and once one is
  -- recorded each further `record_merge` for it fails, whoever calls and with whatever arguments.
  pub merge_once :
      (self : Address) (l : L) (e : Env L)
      → Reach k self (deployed l) e
      → (merges p n e.events ≤ 1)
        × (merges p n e.events ≡ 1
            → (c : Invocation) (g : Address) (u : Symbol) (q : ℕ) (x : ℤ) (e' : Env L)
            → record_merge k c g p u n q e ≢ (ok x, e'))
  merge_once self l e r =
      let (most, unmarked) = Reach-IsOnce self l e r in
      (
        most,
        λ one c g u q x e' h.
            let zero = unmarked (record_merge-Merged k c g p u n q x e e' h).due.unprocessed in
            absurd (omega arith),
      )
