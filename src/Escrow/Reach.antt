-- ===== src/Escrow/Reach.antt =====
-- Histories of the contract: invocations of contract.rs in any order, by anybody, with what others do
-- with the token in between.
use wave_flow.Common.{◌≡◌, false, none, []}
use wave_flow.Common.Int.{◌≤ℤ◌}
use wave_flow.Escrow.Types.{Address}
use wave_flow.Escrow.Host.{Token, Invocation, Env}
use wave_flow.Escrow.Contract.{Call, invoke}

-- The state of a contract that has just been deployed.
abbrev pub deployed : {L : Type 0} → L → Env L
deployed l = record {
  admin = none;
  gateway = none;
  token = none;
  program_counter = none;
  programs = λ _. none;
  contributors = λ _ _. none;
  processed = λ _ _. none;
  events = [];
  ledger = l;
}

module _ {L : Type 0} (k : Token L) (self : Address) where
  -- The host calls the contract on behalf of others only: nobody can authorise as the contract
  -- itself. Others move tokens between two calls, but none out of the contract's holdings.
  pub data Step (e e' : Env L) : Type 0 where
    called :
        (c : Invocation) (op : Call)
        → c.contract ≡ self
        → c.authorized self ≡ false
        → e' ≡ (invoke k c op e).1
        → Step e e'
    elsewhere :
        (l : L)
        → ((t : Address) → k.balance t self e.ledger ≤ℤ k.balance t self l)
        → e' ≡ record e { ledger = l }
        → Step e e'

  pub data Reach (e : Env L) : Env L → Type 0 where
    here : Reach e e
    next : {e₁ e₂ : Env L} → Reach e e₁ → Step e₁ e₂ → Reach e e₂
