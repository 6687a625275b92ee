-- ===== src/Escrow/Host.antt =====
-- What the contract takes from the Soroban host: storage, events, authorisation, the token
-- contract, and how an invocation ends. The token is a parameter with its documented law.
use wave_flow.Common.{ℕ, ◌≡◌, Bool, Option, none, some, List, ◌∷◌, ◌==◌, if◌then◌else◌}
use wave_flow.Common.Int.{ℤ, pos, ◌+ℤ◌, ◌-ℤ◌, ◌≤ℤ◌}
use wave_flow.Escrow.Types.{Address, Symbol, ContractError, Program, Contributor, Event}
use wave_flow.Common.{arith, refl}

-- The ledger of a token (the first address names the token contract). A transfer that the token
-- refuses traps; one that goes through moves the amount, and both ends may be one address. No balance is negative.
pub record Token (L : Type 0) : Type 0 where
  pub balance : Address → Address → L → ℤ
  pub transfer : Address → Address → Address → ℤ → L → Option L
  pub balance_nonneg : (t a : Address) (l : L) → pos 0 ≤ℤ balance t a l
  pub transfer_moves :
      (t from to : Address) (amount : ℤ) (l l' : L)
      → transfer t from to amount l ≡ some l'
      → (a : Address)
      → balance t a l'
        ≡ balance t a l
          -ℤ (if a == from then amount else pos 0)
          +ℤ (if a == to then amount else pos 0)

-- One invocation: the contract's own address, the addresses that authorised the call, and whether
-- the build traps on overflow of plain arithmetic.
pub record Invocation : Type 0 where
  pub contract : Address
  pub authorized : Address → Bool
  pub overflow_checks : Bool

-- The instance and persistent storage with a field for each constructor of `DataKey`, the published
-- events (latest first), and the token's ledger.
pub record Env (L : Type 0) : Type 0 where
  pub admin : Option Address
  pub gateway : Option Address
  pub token : Option Address
  pub program_counter : Option ℕ
  pub programs : ℕ → Option Program
  pub contributors : ℕ → Symbol → Option Contributor
  pub processed : ℕ → ℕ → Option Bool
  pub events : List Event
  pub ledger : L

-- How a contract function ends: a value, a contract error, or a panic.
pub data Outcome (A : Type 0) : Type 0 where
  ok : A → Outcome A
  err : ContractError → Outcome A
  trapped : Outcome A

-- What was written stays written until the host rolls it back.
abbrev pub Action : Type 0 → Type 0 → Type 0
Action L A = Env L → Outcome A × Env L

module _ {L A : Type 0} where
  abbrev pub pure : A → Action L A
  pure a e = (ok a, e)

  abbrev pub fail : ContractError → Action L A
  fail x e = (err x, e)

  abbrev pub reads : (Env L → A) → Action L A
  reads f e = (ok (f e), e)

  -- `ok_or`
  abbrev pub ok_or : Option A → ContractError → Action L A
  ok_or none x e = (err x, e)
  ok_or (some a) x e = (ok a, e)

infixl 5 ◌>>=◌ ◌>>◌
abbrev pub ◌>>=◌ : {L A B : Type 0} → Action L A → (A → Action L B) → Action L B
◌>>=◌ m f e =
    let (r, e') = m e in elim r [ ok a ↦ f a e' | err x ↦ (err x, e') | trapped ↦ (trapped, e') ]

abbrev pub ◌>>◌ : {L A B : Type 0} → Action L A → Action L B → Action L B
m >> k = m >>= λ _. k

module _ {L : Type 0} where
  abbrev pub writes : (Env L → Env L) → Action L (Unit {0})
  writes f e = (ok tt, f e)

  -- `if c { return Err(x); }`
  abbrev pub fail_if : Bool → ContractError → Action L (Unit {0})
  fail_if c x e = (if c then err x else ok tt, e)

  abbrev pub trap_if : Bool → Action L (Unit {0})
  trap_if c e = (if c then trapped else ok tt, e)

  abbrev pub require_auth : Invocation → Address → Action L (Unit {0})
  require_auth c a e = (if c.authorized a then ok tt else trapped, e)

  abbrev pub publish : Event → Action L (Unit {0})
  publish x e = (ok tt, record e { events = x ∷ e.events })

  abbrev settle : Env L → Option L → Outcome (Unit {0}) × Env L
  settle e none = (trapped, e)
  settle e (some l) = (ok tt, record e { ledger = l })

  -- `TokenClient::transfer`
  abbrev pub transfer : Token L → Address → Address → Address → ℤ → Action L (Unit {0})
  transfer k t from to amount e = settle e (k.transfer t from to amount e.ledger)

-- Inversion of a chain that succeeds.
pub >>=-eq-ok :
    {L A B : Type 0} (m : Action L A) (f : A → Action L B) (e e' : Env L) {b : B}
    → (m >>= f) e ≡ (ok b, e')
    → (a : A) × (e₁ : Env L) × (m e ≡ (ok a, e₁)) × (f a e₁ ≡ (ok b, e'))
>>=-eq-ok {L} {A} {B} m f e e' {b} h = go (m e) h
  where
    go :
        (r : Outcome A × Env L)
        → (elim (r.0) [ ok a ↦ f a r.1 | err x ↦ (err x, r.1) | trapped ↦ (trapped, r.1) ])
          ≡ (ok b, e')
        → (a : A) × (e₁ : Env L) × (r ≡ (ok a, e₁)) × (f a e₁ ≡ (ok b, e'))
    go (ok a, e₁) h = (a, e₁, refl, h)
    go (err x, e₁) h = ground arith
    go (trapped, e₁) h = ground arith

-- The host keeps the effects of a call that succeeds, and rolls back all others.
abbrev pub commit : {L A : Type 0} → Env L → Outcome A × Env L → Outcome A × Env L
commit e (ok a, e') = (ok a, e')
commit e (err x, e') = (err x, e)
commit e (trapped, e') = (trapped, e)
