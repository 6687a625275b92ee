-- ===== src/Escrow/Refine/Dispatch.antt =====
-- The dispatch of contract.rs against the specification of each call.
use wave_flow.Common.{◌≡◌, refl, ◌↔◌, ◌⊎◌, inl, inr, arith}
use wave_flow.Escrow.Host.{
  Token, Invocation, Env, Outcome, ok, err, trapped, Action, pure, >>=-eq-ok, ◌>>=◌, commit,
}
use wave_flow.Escrow.Contract.{
  Call, initialize_call, create_program_call, fund_call, register_contributor_call,
  record_merge_call, pause_call, resume_call, set_ratio_call, withdraw_remaining_call, Reply, unit,
  id, amount, initialize, create_program, register_contributor, pause, resume, set_ratio, fund,
  record_merge, withdraw_remaining, run, invoke,
}
use wave_flow.Escrow.Spec.{Effect}
use wave_flow.Escrow.Refine.Sound.{
  initialize-Initialized, create_program-Created, register_contributor-Registered, pause-Paused,
  resume-Resumed, set_ratio-RatioSet, fund-Funded,
}
use wave_flow.Escrow.Refine.Merge.{record_merge-Merged, withdraw_remaining-Withdrawn}
use wave_flow.Escrow.Refine.Complete.{
  initialize_complete, create_program_of_Created, register_contributor_of_Registered,
  pause_of_Paused, resume_of_Resumed, set_ratio_of_RatioSet, fund_of_Funded, record_merge_of_Merged,
  withdraw_remaining_of_Withdrawn,
}

-- A call whose value is wrapped in a reply.
module _ {L A : Type 0} (m : Action L A) (wrap : A → Reply) (e e' : Env L) (r : Reply) where
  wrap_inv : (m >>= λ a. pure (wrap a)) e ≡ (ok r, e') → (a : A) × (r ≡ wrap a) × (m e ≡ (ok a, e'))
  wrap_inv h =
      let (a, e₁, called, rest) = >>=-eq-ok m (λ a. pure (wrap a)) e e' h in
      let same : e₁ ≡ e' = ground arith in (a, ground arith, ground arith)

  wrap_lem : (a : A) → r ≡ wrap a → m e ≡ (ok a, e') → (m >>= λ a. pure (wrap a)) e ≡ (ok r, e')
  wrap_lem a reply called = ground arith

module _ {L : Type 0} (k : Token L) (c : Invocation) where
  run-Effect :
      (op : Call) (r : Reply) (e e' : Env L) → run k c op e ≡ (ok r, e') → Effect k c op r e e'
  unfolding run
  run-Effect (initialize_call a g t) r e e' h =
      let (_, reply, called) = wrap_inv (initialize c a g t) (λ _. unit) e e' r h in
      (reply, initialize-Initialized c a g t e e' called)
  run-Effect (create_program_call m repo q limit) r e e' h =
      let (p, reply, called) = wrap_inv (create_program c m repo q limit) id e e' r h in
      (p, reply, create_program-Created c m repo q limit p e e' called)
  run-Effect (fund_call p m x) r e e' h =
      let (_, reply, called) = wrap_inv (fund k c p m x) (λ _. unit) e e' r h in
      (reply, fund-Funded k c p m x e e' called)
  run-Effect (register_contributor_call p m u a) r e e' h =
      let (_, reply, called) = wrap_inv (register_contributor c p m u a) (λ _. unit) e e' r h in
      (reply, register_contributor-Registered c p m u a e e' called)
  run-Effect (record_merge_call g p u n q) r e e' h =
      let (x, reply, called) = wrap_inv (record_merge k c g p u n q) amount e e' r h in
      (x, reply, record_merge-Merged k c g p u n q x e e' called)
  run-Effect (pause_call p m) r e e' h =
      let (_, reply, called) = wrap_inv (pause c p m) (λ _. unit) e e' r h in
      (reply, pause-Paused c p m e e' called)
  run-Effect (resume_call p m) r e e' h =
      let (_, reply, called) = wrap_inv (resume c p m) (λ _. unit) e e' r h in
      (reply, resume-Resumed c p m e e' called)
  run-Effect (set_ratio_call p m q) r e e' h =
      let (_, reply, called) = wrap_inv (set_ratio c p m q) (λ _. unit) e e' r h in
      (reply, set_ratio-RatioSet c p m q e e' called)
  run-Effect (withdraw_remaining_call p m) r e e' h =
      let (x, reply, called) = wrap_inv (withdraw_remaining k c p m) amount e e' r h in
      (x, reply, withdraw_remaining-Withdrawn k c p m x e e' called)

  run_complete :
      (op : Call) (r : Reply) (e e' : Env L) → Effect k c op r e e' → run k c op e ≡ (ok r, e')
  unfolding run
  run_complete (initialize_call a g t) r e e' (reply, s) =
      wrap_lem (initialize c a g t) (λ _. unit) e e' r tt reply (initialize_complete c a g t e e' s)
  run_complete (create_program_call m repo q limit) r e e' (p, reply, s) =
      wrap_lem (create_program c m repo q limit) id e e' r p reply
        (create_program_of_Created c m repo q limit p e e' s)
  run_complete (fund_call p m x) r e e' (reply, s) =
      wrap_lem (fund k c p m x) (λ _. unit) e e' r tt reply (fund_of_Funded k c p m x e e' s)
  run_complete (register_contributor_call p m u a) r e e' (reply, s) =
      wrap_lem (register_contributor c p m u a) (λ _. unit) e e' r tt reply
        (register_contributor_of_Registered c p m u a e e' s)
  run_complete (record_merge_call g p u n q) r e e' (x, reply, s) =
      wrap_lem (record_merge k c g p u n q) amount e e' r x reply
        (record_merge_of_Merged k c g p u n q x e e' s)
  run_complete (pause_call p m) r e e' (reply, s) =
      wrap_lem (pause c p m) (λ _. unit) e e' r tt reply (pause_of_Paused c p m e e' s)
  run_complete (resume_call p m) r e e' (reply, s) =
      wrap_lem (resume c p m) (λ _. unit) e e' r tt reply (resume_of_Resumed c p m e e' s)
  run_complete (set_ratio_call p m q) r e e' (reply, s) =
      wrap_lem (set_ratio c p m q) (λ _. unit) e e' r tt reply
        (set_ratio_of_RatioSet c p m q e e' s)
  run_complete (withdraw_remaining_call p m) r e e' (x, reply, s) =
      wrap_lem (withdraw_remaining k c p m) amount e e' r x reply
        (withdraw_remaining_of_Withdrawn k c p m x e e' s)

  -- A call succeeds with a reply and a state exactly where the specification allows this reply and
  -- this state: the code checks all that is specified, does all of it, and nothing more.
  pub run_iff :
      (op : Call) (r : Reply) (e e' : Env L) → (run k c op e ≡ (ok r, e')) ↔ Effect k c op r e e'
  run_iff op r e e' = (run-Effect op r e e', run_complete op r e e')

  -- An invocation has a specified effect, or leaves the state as it was.
  pub invoke-cases :
      (op : Call) (e : Env L)
      → ((r : Reply) × Effect k c op r e (invoke k c op e).1) ⊎ ((invoke k c op e).1 ≡ e)
  unfolding invoke
  invoke-cases op e = go (run k c op e) refl
    where
      go :
          (o : Outcome Reply × Env L)
          → run k c op e ≡ o
          → ((r : Reply) × Effect k c op r e (commit e o).1) ⊎ ((commit e o).1 ≡ e)
      go (ok r, e') h = inl (r, run-Effect op r e e' h)
      go (err x, e') h = inr refl
      go (trapped, e') h = inr refl
