-- ===== src/Escrow/Slug.antt =====
-- `validate_repo` of storage.rs against the form `owner/name`, and against the alphabet of a `Symbol`.
use wave_flow.Common.{
  ℕ, ◌≤◌, ◌≡◌, refl, ap, ◌≢◌, ◌↔◌, ◌⊎◌, inl, inr, true, false, [], ◌∷◌, ◌++◌, arith, ◌==◌, All,
  Bool-cases,
}
use wave_flow.Common.Text.{Text}
use wave_flow.Escrow.Types.{Symbol}
use wave_flow.Escrow.Storage.{slash_count, last_is_slash, repo_refused}

abbrev pub NoSlash : Text → Type 0
NoSlash s = All (λ b. b ≢ b'/') s

-- The form `owner/name`: both parts are non-empty and free of slashes.
pub record IsSlug (s : Text) : Type 0 where
  pub owner : Text
  pub name : Text
  pub joined : s ≡ owner ++ b'/' ∷ name
  pub owner_nonempty : owner ≢ []
  pub name_nonempty : name ≢ []
  pub owner_clean : NoSlash owner
  pub name_clean : NoSlash name

slash_count-NoSlash : (s : Text) → slash_count s ≡ 0 → NoSlash s
unfolding slash_count
slash_count-NoSlash [] h = tt
slash_count-NoSlash (b ∷ s) h = ground (arith, slash_count-NoSlash s)

slash_count_zero : (s : Text) → NoSlash s → slash_count s ≡ 0
unfolding slash_count
slash_count_zero [] h = refl
slash_count_zero (b ∷ s) h = ground (arith, slash_count_zero s h.1)

slash_count-append : (s t : Text) → NoSlash s → slash_count (s ++ t) ≡ slash_count t
unfolding slash_count
slash_count-append [] t h = refl
slash_count-append (b ∷ s) t h = ground (arith, slash_count-append s t h.1)

last_is_slash-append :
    (s : Text) (b : ℕ) (t : Text) → last_is_slash (s ++ b ∷ t) ≡ last_is_slash (b ∷ t)
unfolding last_is_slash
last_is_slash-append [] b t = refl
last_is_slash-append (a ∷ []) b t = refl
last_is_slash-append (a ∷ a' ∷ s) b t = last_is_slash-append (a' ∷ s) b t

last_is_slash-NoSlash : (s : Text) → NoSlash s → last_is_slash s ≡ false
unfolding last_is_slash
last_is_slash-NoSlash [] h = refl
last_is_slash-NoSlash (a ∷ []) h = ground arith
last_is_slash-NoSlash (a ∷ b ∷ s) h = last_is_slash-NoSlash (b ∷ s) h.1

-- A text with one slash splits there.
split_at_slash :
    (s : Text)
    → slash_count s ≡ 1
    → (owner name : Text) × (s ≡ owner ++ b'/' ∷ name) × NoSlash owner × NoSlash name
unfolding slash_count
split_at_slash [] h = absurd (omega arith)
split_at_slash (b ∷ s) h = elim (Bool-cases (b == b'/')) [
  | inl here ↦ ([], s, ground arith, tt, slash_count-NoSlash s (ground arith))
  | inr later ↦
      let (owner, name, joined, clean, rest) = split_at_slash s (ground arith) in
      (b ∷ owner, name, ap (λ t. b ∷ t) joined, (ground arith, clean), rest)
]

slash_count_joined :
    (owner name : Text) → NoSlash owner → NoSlash name → slash_count (owner ++ b'/' ∷ name) ≡ 1
unfolding slash_count
slash_count_joined owner name clean rest =
    rw (slash_count-append owner (b'/' ∷ name) clean, slash_count_zero name rest) refl

-- A text `owner/name` is refused exactly where a part is empty.
refused_joined :
    (owner name : Text)
    → NoSlash owner
    → NoSlash name
    → (repo_refused (owner ++ b'/' ∷ name) ≡ false) ↔ ((owner ≢ []) × (name ≢ []))
unfolding repo_refused
refused_joined [] name clean rest = ground (arith, slash_count_joined [] name clean rest)
refused_joined (a ∷ owner) [] clean rest =
    ground (
      arith,
      slash_count_joined (a ∷ owner) [] clean rest,
      last_is_slash-append (a ∷ owner) b'/' [],
    )
refused_joined (a ∷ owner) (b ∷ name) clean rest = ground (
  arith,
  slash_count_joined (a ∷ owner) (b ∷ name) clean rest,
  last_is_slash-append (a ∷ owner) b'/' (b ∷ name),
  last_is_slash-NoSlash (b ∷ name) rest,
)

repo_refused-IsSlug : (s : Symbol) → repo_refused s ≡ false → IsSlug s
unfolding repo_refused
repo_refused-IsSlug s h =
    let (owner, name, joined, clean, rest) = split_at_slash s (ground arith) in
    let parts = (refused_joined owner name clean rest).0 (rw joined at h) in
    record {
      owner = owner;
      name = name;
      joined = joined;
      owner_nonempty = parts.0;
      name_nonempty = parts.1;
      owner_clean = clean;
      name_clean = rest;
    }

-- `validate_repo` accepts exactly the texts of the form `owner/name`, with both parts non-empty and
-- free of slashes.
pub repo_refused_iff : (s : Symbol) → (repo_refused s ≡ false) ↔ IsSlug s
repo_refused_iff s = (
  repo_refused-IsSlug s,
  λ slug. rw (slug.joined) (
      (refused_joined slug.owner slug.name slug.owner_clean slug.name_clean).1
        (slug.owner_nonempty, slug.name_nonempty)),
)

-- The characters that a Soroban `Symbol` may hold: letters, digits and the underscore.
abbrev pub IsSymbolChar : ℕ → Type 0
IsSymbolChar b =
    ((b'a' ≤ b) × (b ≤ b'z'))
    ⊎ (((b'A' ≤ b) × (b ≤ b'Z')) ⊎ (((b'0' ≤ b) × (b ≤ b'9')) ⊎ (b ≡ b'_')))

abbrev pub IsSymbol : Text → Type 0
IsSymbol s = All IsSymbolChar s

IsSymbol-NoSlash : (s : Text) → IsSymbol s → NoSlash s
IsSymbol-NoSlash [] h = tt
IsSymbol-NoSlash (b ∷ s) h = (omega arith, IsSymbol-NoSlash s h.1)

pub repo_refused-IsSymbol : (s : Symbol) → IsSymbol s → repo_refused s ≡ true
unfolding repo_refused
repo_refused-IsSymbol s h = ground (arith, slash_count_zero s (IsSymbol-NoSlash s h))
