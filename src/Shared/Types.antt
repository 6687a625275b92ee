-- ===== src/Shared/Types.antt =====
-- types.rs: the domain types, and the two validators of requests. A string that `format!` makes is a
-- `Message`.
use wave_flow.Shared.Error.{Message}
use wave_flow.Common.{
  Bool, ℕ, List, any, false, if◌then◌else◌, leb, length, not, true, ◌==◌, ◌∷◌, Option, [], ltb,
  ◌&&◌, ◌+◌, all, ◌||◌,
}
use wave_flow.Common.Text.{Text}
use wave_flow.Common.Int.{ℤ}

-- A `Uuid` is a number of 128 bits, and a `DateTime<Utc>` a number of the database's clock.
abbrev pub Uuid : Type 0
Uuid = ℕ

abbrev pub DateTime : Type 0
DateTime = ℕ

pub data ProgramStatus : Type 0 where
  active : ProgramStatus
  paused : ProgramStatus

pub record ProgramRecord : Type 0 where
  pub id : Uuid
  pub on_chain_program_id : ℕ
  pub github_repo : Text
  pub maintainer_address : Text
  pub reward_per_point : ℤ
  pub escrow_balance : ℤ
  pub milestone_cap : Option ℤ
  pub milestone_spent : ℤ
  pub status : ProgramStatus
  pub created_at : DateTime

pub record ContributorRecord : Type 0 where
  pub program_id : Uuid
  pub github_username : Text
  pub stellar_address : Text
  pub registered_at : DateTime

pub record PayoutRecord : Type 0 where
  pub id : Uuid
  pub program_id : Uuid
  pub pr_number : ℕ
  pub github_username : Text
  pub stellar_address : Text
  pub points : ℕ
  pub amount : ℤ
  pub tx_hash : Option Message
  pub created_at : DateTime

pub record AttestationRequest : Type 0 where
  pub program_id : ℕ
  pub github_username : Text
  pub pr_number : ℕ
  pub points : ℕ

pub record GitHubRef : Type 0 where
  pub ref_name : Text

pub record GitHubUser : Type 0 where
  pub login : Text

pub record GitHubPullRequest : Type 0 where
  pub merged : Bool
  pub user : GitHubUser
  pub base : GitHubRef

pub record GitHubRepository : Type 0 where
  pub full_name : Text
  pub default_branch : Text

pub record GitHubPullRequestEvent : Type 0 where
  pub action : Text
  pub number : ℕ
  pub pull_request : GitHubPullRequest
  pub repository : GitHubRepository

pub record MergeIdempotencyKey : Type 0 where
  pub program_id : Uuid
  pub pr_number : ℕ

abbrev pub prepend : ℕ → List Text → List Text
prepend b [] = (b ∷ []) ∷ []
prepend b (part ∷ parts) = (b ∷ part) ∷ parts

-- `str::split` at a character: the parts between its occurrences, the empty ones too.
unfoldable pub split : ℕ → Text → List Text
split sep [] = [] ∷ []
split sep (b ∷ s) = let rest = split sep s in if b == sep then [] ∷ rest else prepend b rest

abbrev pub is_empty {ℓ} : {A : Type ℓ} → List A → Bool
is_empty [] = true
is_empty (_ ∷ _) = false

-- `str::contains` of a character.
abbrev pub contains : ℕ → Text → Bool
contains c s = any (λ b. b == c) s

-- `str::len` counts the bytes of the UTF-8 form.
abbrev pub utf8_width : ℕ → ℕ
utf8_width b = if ltb b 128 then 1 else (if ltb b 2048 then 2 else (if ltb b 65536 then 3 else 4))

unfoldable pub len : Text → ℕ
len [] = 0
len (b ∷ s) = utf8_width b + len s

abbrev pub starts_with_char : ℕ → Text → Bool
starts_with_char c [] = false
starts_with_char c (b ∷ _) = b == c

abbrev pub part_is_name : Text → Bool
part_is_name p = not (is_empty p) && not (contains b' ' p)

unfoldable pub validate_github_repo : Text → Bool
unfolding split
validate_github_repo repo =
    let parts = split b'/' repo in length parts == 2 && all part_is_name parts

-- `matches!(c, 'A'..='Z' | '2'..='7')`
abbrev pub is_base32 : ℕ → Bool
is_base32 c = leb b'A' c && leb c b'Z' || leb b'2' c && leb c b'7'

unfoldable pub validate_stellar_address : Text → Bool
unfolding len
validate_stellar_address address =
    len address == 56 && starts_with_char b'G' address && all is_base32 address
