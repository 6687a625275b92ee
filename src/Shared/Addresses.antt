-- ===== src/Shared/Addresses.antt =====
-- `validate_stellar_address` of types.rs, against the form it is documented with.
use wave_flow.Common.{refl, ℕ, All, all, ◌≡◌, ◌≤◌, length, true, ◌∷◌, ◌⊎◌, arith, ◌↔◌, ap, []}
use wave_flow.Common.Text.{Text}
use wave_flow.Shared.Types.{len, validate_stellar_address, is_base32}

abbrev pub IsBase32 : ℕ → Type 0
IsBase32 c = ((b'A' ≤ c) × (c ≤ b'Z')) ⊎ ((b'2' ≤ c) × (c ≤ b'7'))

-- A `G` and 55 characters of the base-32 alphabet.
pub record IsAccount (s : Text) : Type 0 where
  pub rest : Text
  pub prefix : s ≡ b'G' ∷ rest
  pub count : length rest ≡ 55
  pub alphabet : All IsBase32 rest

all-IsBase32 : (s : Text) → all is_base32 s ≡ true → All IsBase32 s
all-IsBase32 [] h = tt
all-IsBase32 (c ∷ s) h = (ground arith, all-IsBase32 s (ground arith))

all_base32 : (s : Text) → All IsBase32 s → all is_base32 s ≡ true
all_base32 [] h = refl
all_base32 (c ∷ s) (h, hs) = ground (arith, all_base32 s hs)

-- In the alphabet a character is a byte.
len_base32 : (s : Text) → All IsBase32 s → len s ≡ length s
unfolding len
len_base32 [] h = refl
len_base32 (c ∷ s) (h, hs) = ground (arith, len_base32 s hs)

valid-IsAccount : (s : Text) → validate_stellar_address s ≡ true → IsAccount s
unfolding validate_stellar_address len
valid-IsAccount [] h = absurd (ground arith)
valid-IsAccount (c ∷ s) h =
    let clean = all-IsBase32 s (ground arith) in
    let bytes = len_base32 s clean in
    let first : c ≡ b'G' = ground arith in
    record { rest = s; prefix = ap (λ b. b ∷ s) first; count = ground arith; alphabet = clean }

account_valid : (s : Text) → IsAccount s → validate_stellar_address s ≡ true
unfolding validate_stellar_address len
account_valid s h =
    let rest = h.rest in
    let count = h.count in
    let bytes = len_base32 rest h.alphabet in
    let clean = all_base32 rest h.alphabet in rw (h.prefix) (ground arith)

-- `validate_stellar_address`, which counts bytes, accepts exactly the texts of a `G` followed by 55
-- characters from A to Z and 2 to 7.
pub valid_address_iff : (s : Text) → (validate_stellar_address s ≡ true) ↔ IsAccount s
valid_address_iff s = (valid-IsAccount s, account_valid s)
