-- ===== src/Escrow/Storage.antt =====
-- storage.rs: typed accessors of the contract's storage, and the two checks that stand there.
use wave_flow.Common.{
  ℕ, ◌+◌, ◌%◌, ◌^◌, Bool, true, false, ◌&&◌, ◌||◌, not, Option, none, some, [], ◌∷◌, ◌==◌,
  if◌then◌else◌, suc, ◌≡◌, ◌⊎◌, ◌≢◌, Bool-cases, inl, arith, inr,
}
use wave_flow.Common.Text.{same}
use wave_flow.Escrow.Types.{
  Address, Symbol, not_initialized, program_not_found, contributor_not_found, invalid_repo,
  ContractError, Program, Contributor, is_paused,
}
use wave_flow.Escrow.Host.{
  Invocation, Action, ok_or, reads, pure, fail_if, trap_if, writes, ◌>>=◌, ◌>>◌,
}

-- A map with one key written.
abbrev pub put {ℓ} : {V : Type ℓ} → ℕ → V → (ℕ → Option V) → ℕ → Option V
put k v m j = if j == k then some v else m j

-- What is found after a write is what was written, or was there before.
pub put-eq-some {ℓ} :
    {V : Type ℓ} (i : ℕ) (v : V) (m : ℕ → Option V) (j : ℕ) (w : V)
    → put i v m j ≡ some w
    → ((j ≡ i) × (w ≡ v)) ⊎ ((j ≢ i) × (m j ≡ some w))
put-eq-some i v m j w h = elim (Bool-cases (j == i)) [
  | inl same ↦ inl (ground arith, ground arith)
  | inr other ↦ inr (ground arith, ground arith)
]

abbrev pub put_symbol {ℓ} :
    {V : Type ℓ} → ℕ → Symbol → V → (ℕ → Symbol → Option V) → ℕ → Symbol → Option V
put_symbol k s v m j t = if (j == k) && same t s then some v else m j t

abbrev pub put_pair {ℓ} : {V : Type ℓ} → ℕ → ℕ → V → (ℕ → ℕ → Option V) → ℕ → ℕ → Option V
put_pair k n v m j i = if (j == k) && (i == n) then some v else m j i

abbrev pub or_default {ℓ} : {A : Type ℓ} → A → Option A → A
or_default d none = d
or_default d (some a) = a

module _ {L : Type 0} where
  unfoldable pub read_admin : Action L Address
  read_admin = do ok_or (← reads (λ e. e.admin)) not_initialized

  unfoldable pub read_gateway : Action L Address
  read_gateway = do ok_or (← reads (λ e. e.gateway)) not_initialized

  unfoldable pub read_token : Action L Address
  read_token = do ok_or (← reads (λ e. e.token)) not_initialized

  unfoldable pub read_program : ℕ → Action L Program
  read_program program_id = do ok_or (← reads (λ e. e.programs program_id)) program_not_found

  unfoldable pub write_program : ℕ → Program → Action L (Unit {0})
  write_program program_id program =
      writes λ e. record e { programs = put program_id program e.programs }

  -- `current + 1` traps or wraps at the end of `u64`, as the build says.
  unfoldable pub next_program_id : Invocation → Action L ℕ
  next_program_id c = do
    current ← reads (λ e. or_default 0 e.program_counter)
    trap_if (c.overflow_checks && (current + 1 == 2 ^ 64))
    let next = (current + 1) % 2 ^ 64
    writes λ e. record e { program_counter = some next }
    pure next

  unfoldable pub is_pr_processed : ℕ → ℕ → Action L Bool
  is_pr_processed program_id pr_number =
      reads λ e. or_default false (e.processed program_id pr_number)

  unfoldable pub mark_pr_processed : ℕ → ℕ → Action L (Unit {0})
  mark_pr_processed program_id pr_number =
      writes λ e. record e { processed = put_pair program_id pr_number true e.processed }

  unfoldable pub read_contributor : ℕ → Symbol → Action L Contributor
  read_contributor program_id github_username = do
    ok_or (← reads (λ e. e.contributors program_id github_username)) contributor_not_found

  unfoldable pub write_contributor : ℕ → Symbol → Contributor → Action L (Unit {0})
  write_contributor program_id github_username contributor = writes λ e. record e {
    contributors = put_symbol program_id github_username contributor e.contributors;
  }

  unfoldable pub require_active : Program → Action L (Unit {0})
  require_active program = fail_if (is_paused program.status) ContractError.program_paused

-- `bytes.iter().filter(|&&b| b == b'/').count()`
unfoldable pub slash_count : Symbol → ℕ
slash_count [] = 0
slash_count (b ∷ bytes) = let rest = slash_count bytes in if b == b'/' then suc rest else rest

abbrev is_empty : Symbol → Bool
is_empty [] = true
is_empty (_ ∷ _) = false

-- `bytes[0] == b'/'` and `bytes[bytes.len() - 1] == b'/'`, which are read of a non-empty text only.
abbrev first_is_slash : Symbol → Bool
first_is_slash [] = false
first_is_slash (b ∷ _) = b == b'/'

unfoldable pub last_is_slash : Symbol → Bool
last_is_slash [] = false
last_is_slash (b ∷ []) = b == b'/'
last_is_slash (_ ∷ b ∷ bytes) = last_is_slash (b ∷ bytes)

unfoldable pub repo_refused : Symbol → Bool
unfolding slash_count last_is_slash
repo_refused bytes =
    not (slash_count bytes == 1) || is_empty bytes || first_is_slash bytes || last_is_slash bytes

unfoldable pub validate_repo : {L : Type 0} → Symbol → Action L (Unit {0})
unfolding repo_refused
validate_repo repo = fail_if (repo_refused repo) invalid_repo
