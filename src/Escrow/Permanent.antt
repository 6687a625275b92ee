-- ===== src/Escrow/Permanent.antt =====
-- The roles, the contributors' addresses and the marks of paid requests of contract.rs, over every
-- history.
use wave_flow.Common.{
  ℕ, ◌≡◌, refl, sym, inl, inr, Option, none, some, arith, true, ◌==◌, Bool-cases, ◌∙◌, ◌&&◌,
}
use wave_flow.Escrow.Contract.{
  Call, Reply, initialize_call, create_program_call, fund_call, register_contributor_call,
  record_merge_call, pause_call, resume_call, set_ratio_call, withdraw_remaining_call,
}
use wave_flow.Escrow.Reach.{Step, called, elsewhere, Reach, here, next}
use mathlib.Core.Path.{subst, subst₂}
use wave_flow.Escrow.Host.{Env, Token, Invocation}
use wave_flow.Escrow.Types.{Symbol, Address, Contributor}
use wave_flow.Escrow.Storage.{put_symbol}
use wave_flow.Escrow.Spec.{Effect}
use wave_flow.Escrow.Refine.Dispatch.{invoke-cases}
use wave_flow.Common.Text.{same, eq_of_same}

-- What `e` has settled stands in `e'` too.
pub record Persists {L : Type 0} (e e' : Env L) : Type 0 where
  pub admin :
      (a : Address)
      → e.admin ≡ some a
      → (e'.admin ≡ some a) × (e'.gateway ≡ e.gateway) × (e'.token ≡ e.token)
  pub contributor :
      (p : ℕ) (u : Symbol) (x : Contributor)
      → e.contributors p u ≡ some x
      → e'.contributors p u ≡ some x
  pub marked : (p n : ℕ) → e.processed p n ≡ some true → e'.processed p n ≡ some true

-- An address is registered where none was.
register_keeps :
    (i : ℕ) (w : Symbol) (v : Contributor) (m : ℕ → Symbol → Option Contributor)
    → m i w ≡ none
    → (p : ℕ) (u : Symbol) (x : Contributor) → m p u ≡ some x
    → put_symbol i w v m p u ≡ some x
register_keeps i w v m fresh p u x h = elim (Bool-cases ((p == i) && same u w)) [
  | inl taken ↦
      let p_same : p ≡ i = ground arith in
      let u_same : u ≡ w = eq_of_same u w (ground arith) in
      let there : m i w ≡ some x = subst₂ (λ a b. m a b ≡ some x) p_same u_same h in ground arith
  | inr free ↦ ground arith
]

module _ {L : Type 0} where
  Persists-refl : (e : Env L) → Persists e e
  Persists-refl e = record {
    admin = λ a h. (h, refl, refl);
    contributor = λ p u x h. h;
    marked = λ p n h. h;
  }

  Persists-trans : (e₁ e₂ e₃ : Env L) → Persists e₁ e₂ → Persists e₂ e₃ → Persists e₁ e₃
  Persists-trans e₁ e₂ e₃ s t = record {
    admin = λ a h.
        let (set, gateway, token) = s.admin a h in
        let (set', gateway', token') = t.admin a set in (set', gateway' ∙ gateway, token' ∙ token);
    contributor = λ p u x h. t.contributor p u x (s.contributor p u x h);
    marked = λ p n h. t.marked p n (s.marked p n h);
  }

  -- A call that writes programs, events and the ledger only.
  keeps :
      (e e' : Env L)
      → e'.admin ≡ e.admin
      → e'.gateway ≡ e.gateway
      → e'.token ≡ e.token
      → e'.contributors ≡ e.contributors
      → e'.processed ≡ e.processed
      → Persists e e'
  keeps e e' same_admin same_gateway same_token same_contributors same_processed = record {
    admin = λ a h. (rw same_admin h, same_gateway, same_token);
    contributor = λ p u x h. rw same_contributors h;
    marked = λ p n h. rw same_processed h;
  }

module _ {L : Type 0} (k : Token L) where
  Effect-Persists :
      (c : Invocation) (op : Call) (r : Reply) (e e' : Env L) → Effect k c op r e e' → Persists e e'
  Effect-Persists c (initialize_call a g t) r e e' i = subst (Persists e) (sym i.1.result) (record {
    admin = λ b h. let fresh = i.1.fresh in ground arith;
    contributor = λ p u x h. h;
    marked = λ p n h. h;
  })
  Effect-Persists c (create_program_call m repo q limit) r e e' i =
      subst (Persists e) (sym i.2.result) (keeps e _ refl refl refl refl refl)
  Effect-Persists c (fund_call _ m x) r e e' i =
      subst (Persists e) (sym i.1.result) (keeps e _ refl refl refl refl refl)
  Effect-Persists c (register_contributor_call i w m a) r e e' s =
      subst (Persists e) (sym s.1.result) (record {
        admin = λ b h. (h, refl, refl);
        contributor = register_keeps _ _ _ e.contributors s.1.fresh;
        marked = λ p n h. h;
      })
  Effect-Persists c (record_merge_call g i u n' q) r e e' m =
      subst (Persists e) (sym m.2.paid.result) (record {
        admin = λ b h. (h, refl, refl);
        contributor = λ p u x h. h;
        marked = λ p n h. ground arith;
      })
  Effect-Persists c (pause_call _ m) r e e' i =
      subst (Persists e) (sym i.1.result) (keeps e _ refl refl refl refl refl)
  Effect-Persists c (resume_call _ m) r e e' i =
      subst (Persists e) (sym i.1.result) (keeps e _ refl refl refl refl refl)
  Effect-Persists c (set_ratio_call _ m q) r e e' i =
      subst (Persists e) (sym i.1.result) (keeps e _ refl refl refl refl refl)
  Effect-Persists c (withdraw_remaining_call _ m) r e e' i = elim (i.2.outcome) [
    | inl (_, _, same) ↦ subst (Persists e) (sym same) (Persists-refl e)
    | inr (_, d) ↦ subst (Persists e) (sym d.result) (keeps e _ refl refl refl refl refl)
  ]

  Step-Persists : (self : Address) (e e' : Env L) → Step k self e e' → Persists e e'
  Step-Persists self e e' (called c op _ _ result) = elim (invoke-cases k c op e) [
    | inl (r, effect) ↦ subst (Persists e) (sym result) (Effect-Persists c op r e _ effect)
    | inr same ↦ subst (Persists e) (sym (result ∙ same)) (Persists-refl e)
  ]
  Step-Persists self e e' (elsewhere l _ result) =
      subst (Persists e) (sym result) (keeps e _ refl refl refl refl refl)

  -- In every history, from any state: once an admin is set it stays, with the gateway and the token
  -- of that time; a contributor's registered address never changes; and the mark of a processed pull
  -- request is never lost.
  pub Reach-Persists : (self : Address) (e e' : Env L) → Reach k self e e' → Persists e e'
  Reach-Persists self e e' here = Persists-refl e
  Reach-Persists self e e' (next r st) =
      Persists-trans e _ e' (Reach-Persists self e _ r) (Step-Persists self _ e' st)
