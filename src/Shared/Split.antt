-- ===== src/Shared/Split.antt =====
-- `validate_github_repo` of types.rs, against the form `owner/name` and the contract's `validate_repo`.
use wave_flow.Common.{
  refl, ℕ, List, All, ◌++◌, ◌∷◌, ◌≡◌, ◌≢◌, [], arith, ◌∙◌, Bool-cases, ap, ◌==◌, inl, inr, length,
  false, true, ◌||◌, sym, ◌↔◌, ◌&&◌, Bool, all,
}
use wave_flow.Shared.Types.{split, prepend, contains, validate_github_repo, part_is_name, is_empty}
use wave_flow.Common.Text.{Text}
use wave_flow.Escrow.Slug.{NoSlash, IsSlug, repo_refused_iff}
use wave_flow.Escrow.Storage.{repo_refused}

abbrev pub Excludes : ℕ → Text → Type 0
Excludes c s = All (λ b. b ≢ c) s

-- A text that does not contain the separator is one part.
split_single : (sep : ℕ) (s : Text) → Excludes sep s → split sep s ≡ s ∷ []
unfolding split
split_single sep [] h = refl
split_single sep (b ∷ s) h = ground (arith, split_single sep s h.1)

-- The first separator ends the first part.
pub split-append :
    (sep : ℕ) (p s : Text) → Excludes sep p → split sep (p ++ sep ∷ s) ≡ p ∷ split sep s
unfolding split
split-append sep [] s h = ground arith
split-append sep (b ∷ p) s h = ground (arith, split-append sep p s h.1)

abbrev pub join : ℕ → List Text → Text
join sep [] = []
join sep (p ∷ []) = p
join sep (p ∷ q ∷ ps) = p ++ sep ∷ join sep (q ∷ ps)

-- Joining parts that do not contain the separator and splitting again gives them back.
pub split-join :
    (sep : ℕ) (p : Text) (ps : List Text)
    → All (Excludes sep) (p ∷ ps)
    → split sep (join sep (p ∷ ps)) ≡ p ∷ ps
split-join sep p [] h = split_single sep p h.0
split-join sep p (q ∷ ps) h =
    split-append sep p (join sep (q ∷ ps)) h.0 ∙ ap (λ r. p ∷ r) (split-join sep q ps h.1)

join-prepend :
    (sep b : ℕ) (s : Text) (parts : List Text)
    → join sep parts ≡ s
    → parts ≢ []
    → join sep (prepend b parts) ≡ b ∷ s
join-prepend sep b s [] h nonempty = absurd (nonempty refl)
join-prepend sep b s (p ∷ []) h nonempty = ap (λ r. b ∷ r) h
join-prepend sep b s (p ∷ q ∷ ps) h nonempty = ap (λ r. b ∷ r) h

join_empty :
    (sep : ℕ) (s : Text) (parts : List Text)
    → join sep parts ≡ s
    → parts ≢ []
    → join sep ([] ∷ parts) ≡ sep ∷ s
join_empty sep s [] h nonempty = absurd (nonempty refl)
join_empty sep s (p ∷ ps) h nonempty = ap (λ r. sep ∷ r) h

Excludes-prepend :
    (sep b : ℕ) (parts : List Text)
    → b ≢ sep
    → All (Excludes sep) parts
    → All (Excludes sep) (prepend b parts)
Excludes-prepend sep b [] h all = ((h, tt), tt)
Excludes-prepend sep b (p ∷ ps) h all = ((h, all.0), all.1)

prepend_nonempty : (b : ℕ) (parts : List Text) → prepend b parts ≢ []
prepend_nonempty b [] h = ground arith
prepend_nonempty b (p ∷ ps) h = ground arith

split_nonempty : (sep : ℕ) (s : Text) → split sep s ≢ []
unfolding split
split_nonempty sep [] h = ground arith
split_nonempty sep (b ∷ s) h = elim (Bool-cases (b == sep)) [
  | inl e ↦ ground arith
  | inr e ↦ ground (arith, prepend_nonempty b (split sep s))
]

-- The parts joined by the separator are the text.
pub join-split : (sep : ℕ) (s : Text) → join sep (split sep s) ≡ s
unfolding split
join-split sep [] = refl
join-split sep (b ∷ s) = elim (Bool-cases (b == sep)) [
  | inl e ↦ ground (arith, join_empty sep s (split sep s) (join-split sep s) (split_nonempty sep s))
  | inr e ↦
      ground (arith, join-prepend sep b s (split sep s) (join-split sep s) (split_nonempty sep s))
]

-- No part contains the separator.
pub split-Excludes : (sep : ℕ) (s : Text) → All (Excludes sep) (split sep s)
unfolding split
split-Excludes sep [] = (tt, tt)
split-Excludes sep (b ∷ s) = elim (Bool-cases (b == sep)) [
  | inl e ↦ rw e (tt, split-Excludes sep s)
  | inr e ↦ rw e (Excludes-prepend sep b (split sep s) (ground arith) (split-Excludes sep s))
]

contains-Excludes : (c : ℕ) (s : Text) → contains c s ≡ false → Excludes c s
contains-Excludes c [] h = tt
contains-Excludes c (b ∷ s) h = (ground arith, contains-Excludes c s (ground arith))

contains_none : (c : ℕ) (s : Text) → Excludes c s → contains c s ≡ false
contains_none c [] h = refl
contains_none c (b ∷ s) h = ground (arith, contains_none c s h.1)

contains-append : (c : ℕ) (s t : Text) → contains c (s ++ t) ≡ (contains c s || contains c t)
contains-append c [] t = refl
contains-append c (b ∷ s) t = ground (arith, contains-append c s t)

-- What the validator says of a text with one slash.
valid_joined :
    (owner name : Text)
    → NoSlash owner
    → NoSlash name
    → validate_github_repo (owner ++ b'/' ∷ name)
      ≡ (part_is_name owner && (part_is_name name && true))
unfolding validate_github_repo
valid_joined owner name clean rest =
    rw (split-append b'/' owner name clean, split_single b'/' name rest) refl

-- A text with two parts is `owner/name`.
two_parts :
    (s : Text) (parts : List Text)
    → join b'/' parts ≡ s
    → All (Excludes b'/') parts
    → (length parts == 2) ≡ true
    → (owner name : Text) × (s ≡ owner ++ b'/' ∷ name) × NoSlash owner × NoSlash name
two_parts s (p ∷ q ∷ []) h clean two = (p, q, sym h, clean.0, clean.1.0)
two_parts s [] h clean two = absurd (ground arith)
two_parts s (p ∷ []) h clean two = absurd (ground arith)
two_parts s (p ∷ q ∷ r ∷ ps) h clean two = absurd (ground arith)

and_left : (a b : Bool) → (a && b) ≡ true → a ≡ true
and_left true b h = refl
and_left false b h = absurd (ground arith)

pub is_empty-false : (p : Text) → p ≢ [] → is_empty p ≡ false
is_empty-false [] h = absurd (h refl)
is_empty-false (b ∷ p) h = refl

pub nonempty : (p : Text) → is_empty p ≡ false → p ≢ []
nonempty [] h e = ground arith
nonempty (b ∷ p) h e = ground arith

contains_joined :
    (owner name : Text)
    → contains b' ' (owner ++ b'/' ∷ name) ≡ (contains b' ' owner || contains b' ' name)
contains_joined owner name = contains-append b' ' owner (b'/' ∷ name)

accepted_valid : (s : Text) → IsSlug s → contains b' ' s ≡ false → validate_github_repo s ≡ true
accepted_valid s slug h =
    let valid = valid_joined slug.owner slug.name slug.owner_clean slug.name_clean in
    let spaces = contains_joined slug.owner slug.name in
    let first = is_empty-false slug.owner slug.owner_nonempty in
    let second = is_empty-false slug.name slug.name_nonempty in
    let joined = slug.joined in rw joined (let h' = rw joined at h in ground arith)

valid_repo-accepted :
    (s : Text)
    → validate_github_repo s ≡ true
    → (repo_refused s ≡ false) × (contains b' ' s ≡ false)
unfolding validate_github_repo
valid_repo-accepted s h =
    let two = and_left (length (split b'/' s) == 2) (all part_is_name (split b'/' s)) h in
    let (owner, name, joined, clean, rest) =
      two_parts s (split b'/' s) (join-split b'/' s) (split-Excludes b'/' s) two in
    let valid = valid_joined owner name clean rest in
    let spaces = contains_joined owner name in
    let h' = rw joined at h in
    (
      (repo_refused_iff s).1 (record {
        owner = owner;
        name = name;
        joined = joined;
        owner_nonempty = nonempty owner (ground arith);
        name_nonempty = nonempty name (ground arith);
        owner_clean = clean;
        name_clean = rest;
      }),
      rw joined (ground arith),
    )

-- `validate_github_repo` accepts exactly the texts that the contract's `validate_repo` accepts and
-- that hold no space.
pub valid_repo_iff :
    (s : Text)
    → (validate_github_repo s ≡ true) ↔ ((repo_refused s ≡ false) × (contains b' ' s ≡ false))
valid_repo_iff s = (valid_repo-accepted s, λ h. accepted_valid s ((repo_refused_iff s).0 h.0) h.1)
