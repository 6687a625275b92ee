-- ===== src/Escrow/Scenario.antt =====
-- A simple token, and the states and calls of the scenarios of test.rs.
use mathlib.Core.Path.{subst}
use wave_flow.Common.{
  ℕ, ◌+◌, ◌-◌, ◌≡◌, refl, inl, inr, true, ◌&&◌, ◌||◌, Option, none, some, List, [], ◌∷◌, arith,
  ◌==◌, if◌then◌else◌, ltb, Bool-cases, not, ◌++◌,
}
use wave_flow.Common.Int.{ℤ, pos, pos_part, ◌+ℤ◌, ◌-ℤ◌, ltb_ℤ, negsuc}
use wave_flow.Common.Text.{codes}
use wave_flow.Escrow.Types.{Address, Program, Symbol, active}
use wave_flow.Escrow.Host.{Token, Invocation, Env}
use wave_flow.Escrow.Contract.{
  Call, initialize_call, create_program_call, fund_call, register_contributor_call,
  record_merge_call, invoke,
}
use wave_flow.Escrow.Reach.{Reach, next, called}
use wave_flow.Escrow.Storage.{put, put_symbol}

-- Holdings by token contract and holder.
abbrev pub Holdings : Type 0
Holdings = Address → Address → ℕ

abbrev pub moved : Address → Address → Address → ℕ → Holdings → Holdings
moved t from to x l u a =
    if u == t then l u a - (if a == from then x else 0) + (if a == to then x else 0) else l u a

abbrev pub simple_transfer : Address → Address → Address → ℤ → Holdings → Option Holdings
simple_transfer t from to x l =
    if ltb_ℤ x (pos 0) || ltb (l t from) (pos_part x)
    then none
    else some (moved t from to (pos_part x) l)

pub simple_transfer_moves :
    (t from to : Address) (x : ℤ) (l l' : Holdings)
    → simple_transfer t from to x l ≡ some l'
    → (a : Address)
    → pos (l' t a)
      ≡ pos (l t a) -ℤ (if a == from then x else pos 0) +ℤ (if a == to then x else pos 0)
unfolding ◌+ℤ◌ ◌-ℤ◌
simple_transfer_moves t from to (pos x) l l' h a = elim (Bool-cases (ltb (l t from) x)) [
  | inl short ↦ ground arith
  | inr covered ↦
      let same : moved t from to x l ≡ l' = ground arith in
      subst
        (λ m.
          pos (m t a)
          ≡ pos (l t a)
            -ℤ (if a == from then pos x else pos 0)
            +ℤ (if a == to then pos x else pos 0))
        same (ground arith)
]
simple_transfer_moves t from to (negsuc x) l l' h a = ground arith

abbrev pub simple_token : Token Holdings
simple_token = record {
  balance = λ t a l. pos (l t a);
  transfer = simple_transfer;
  balance_nonneg = λ t a l. omega arith;
  transfer_moves = simple_transfer_moves;
}

-- The addresses of test.rs: the contract, the admin, the gateway, the maintainer, a wallet, the token.
abbrev pub self : Address
self = 10

abbrev pub admin : Address
admin = 1

abbrev pub gateway : Address
gateway = 2

abbrev pub maintainer : Address
maintainer = 3

abbrev pub wallet : Address
wallet = 4

abbrev pub token : Address
token = 5

-- `mock_all_auths`, for everybody but the contract.
abbrev pub call : Invocation
call = record { contract = self; authorized = λ a. not (a == self); overflow_checks = true }

abbrev pub minted : Holdings
minted t a = if (t == token) && (a == maintainer) then 10_000 else 0

-- The calls of a scenario, one after the other.
abbrev pub after : List Call → Env Holdings → Env Holdings
after [] e = e
after (op ∷ ops) e = after ops (invoke simple_token call op e).1

abbrev pub alice : Symbol
alice = codes "alice"

abbrev pub repo : Symbol
repo = codes "org/repo"

abbrev pub funding : List Call
funding =
    initialize_call admin gateway token
    ∷ create_program_call maintainer repo (pos 100) (some (pos 150))
    ∷ fund_call 1 maintainer (pos 5_000)
    ∷ register_contributor_call 1 maintainer alice wallet
    ∷ []

abbrev pub merging : List Call
merging = funding ++ record_merge_call gateway 1 alice 42 1 ∷ []

-- Such calls make a history.
pub after-Reach :
    (ops : List Call) (e₀ e : Env Holdings)
    → Reach simple_token self e₀ e
    → Reach simple_token self e₀ (after ops e)
after-Reach [] e₀ e r = r
after-Reach (op ∷ ops) e₀ e r = after-Reach ops e₀ _ (next r (called call op refl refl refl))

-- A program as it stands after the funding, and a state that holds it.
abbrev pub program : Program
program = record {
  maintainer = maintainer;
  github_repo = repo;
  reward_per_point = pos 100;
  escrow_balance = pos 5_000;
  milestone_cap = some (pos 150);
  milestone_spent = pos 0;
  status = active;
}

abbrev pub holds : Holdings
holds t a =
    if t == token then (if a == self then 5_000 else if a == maintainer then 5_000 else 0) else 0

abbrev pub state : Program → Env Holdings
state v = record {
  admin = some admin;
  gateway = some gateway;
  token = some token;
  program_counter = some 1;
  programs = put 1 v (λ _. none);
  contributors = put_symbol 1 alice (record { stellar_address = wallet }) (λ _ _. none);
  processed = λ _ _. none;
  events = [];
  ledger = holds;
}
