-- ===== src/Shared/Ports.antt =====
-- config.rs and the API's main.rs: the numbers that are read as ports.
use wave_flow.Common.{
  ℕ, All, ◌<◌, ◌∷◌, ◌≡◌, ◌≢◌, ◌≤◌, [], arith, some, ◌*◌, ◌^◌, Bool-cases, ◌+◌, ◌↔◌, leb, ◌-◌, ◌∙◌,
  ◌⊎◌, ap, refl, ◌&&◌, ltb, inl, inr, none, ◌==◌, false, Option-cases,
}
use wave_flow.Shared.Config.{parse_digits, parse_u16, parse_unsigned, port_of}
use wave_flow.Common.Text.{Text}

-- A digit from 0 to 9.
abbrev IsDigit : ℕ → Type 0
IsDigit c = (48 ≤ c) × (c ≤ 57)

-- The number that digits stand for, after a number that stands before them.
abbrev value : ℕ → Text → ℕ
value n [] = n
value n (c ∷ s) = value (n * 10 + (c - 48)) s

value_grows : (n : ℕ) (s : Text) → n ≤ value n s
value_grows n [] = omega arith
value_grows n (c ∷ s) = omega (arith, value_grows (n * 10 + (c - 48)) s)

parse_digits_sound :
    (n m : ℕ) (s : Text)
    → n < 2 ^ 16
    → parse_digits n s ≡ some m
    → All IsDigit s × (value n s ≡ m) × (m < 2 ^ 16)
unfolding parse_digits
parse_digits_sound n m [] small h = (tt, ground arith, ground arith)
parse_digits_sound n m (c ∷ s) small h =
    elim (Bool-cases (leb b'0' c && leb c b'9' && ltb (n * 10 + (c - b'0')) (2 ^ 16))) [
      | inl e ↦
          let (digits, same, bound) =
            parse_digits_sound (n * 10 + (c - b'0')) m s (ground arith) (rw e at h) in
          (((ground arith, ground arith), digits), same, bound)
      | inr e ↦ absurd (let h' : none ≡ some m = rw e at h in ground arith)
    ]

parse_digits_complete :
    (n : ℕ) (s : Text) → All IsDigit s → value n s < 2 ^ 16 → parse_digits n s ≡ some (value n s)
unfolding parse_digits
parse_digits_complete n [] d small = refl
parse_digits_complete n (c ∷ s) d small =
    let grown = value_grows (n * 10 + (c - 48)) s in
    let rest = parse_digits_complete (n * 10 + (c - 48)) s d.1 small in
    let low = d.0 in ground arith

-- One digit or more, and the number that they stand for.
pub record IsDecimal (s : Text) (n : ℕ) : Type 0 where
  pub present : s ≢ []
  pub digits : All IsDigit s
  pub stands_for : value 0 s ≡ n

parse_unsigned_iff :
    (s : Text) (n : ℕ) → (parse_unsigned s ≡ some n) ↔ (IsDecimal s n × (n < 2 ^ 16))
parse_unsigned_iff [] n = ((λ h. absurd (ground arith)), λ d. absurd (d.0.present refl))
parse_unsigned_iff (c ∷ s) n = (
  λ h.
      let (digits, same, bound) = parse_digits_sound 0 n (c ∷ s) (omega arith) h in
      (record { present = λ e. ground arith; digits = digits; stands_for = same }, bound),
  λ d.
      let same = d.0.stands_for in
      let bound = d.1 in
      parse_digits_complete 0 (c ∷ s) d.0.digits (omega arith) ∙ ap (λ n. some n) same,
)

unsigned_read : (s : Text) → s ≢ [] → All IsDigit s → parse_u16 s ≡ parse_unsigned s
unfolding parse_u16
unsigned_read [] present d = absurd (present refl)
unsigned_read (c ∷ s) present d =
    let low = d.0.0 in let other : (c == b'+') ≡ false = ground arith in rw other refl

-- The digits of a text that may start with a plus sign.
abbrev pub IsPort : Text → ℕ → Type 0
IsPort s n =
    (digits : Text) × ((s ≡ digits) ⊎ (s ≡ b'+' ∷ digits)) × IsDecimal digits n × (n < 2 ^ 16)

read-IsPort : (s : Text) (n : ℕ) → parse_u16 s ≡ some n → IsPort s n
unfolding parse_u16
read-IsPort [] n h = absurd (ground arith)
read-IsPort (c ∷ s) n h = elim (Bool-cases (c == b'+')) [
  | inl e ↦
      let plus : c ≡ b'+' = ground arith in
      let d = (parse_unsigned_iff s n).0 (rw e at h) in (s, inr (rw plus refl), d.0, d.1)
  | inr e ↦ let d = (parse_unsigned_iff (c ∷ s) n).0 (rw e at h) in (c ∷ s, inl refl, d.0, d.1)
]

IsPort-read : (s : Text) (n : ℕ) → IsPort s n → parse_u16 s ≡ some n
unfolding parse_u16
IsPort-read s n (digits, inl e, d, small) =
    rw e (unsigned_read digits d.present d.digits ∙ (parse_unsigned_iff digits n).1 (d, small))
IsPort-read s n (digits, inr e, d, small) = rw e ((parse_unsigned_iff digits n).1 (d, small))

-- A port that is set is the number that its digits stand for, after one plus sign or none, where that
-- number is below 2 ^ 16. Any other text gives the default.
pub port_of_lem :
    (s : Text) (default : ℕ)
    → ((n : ℕ) × IsPort s n × (port_of (some s) default ≡ n))
      ⊎ (((n : ℕ) → IsPort s n → ⊥) × (port_of (some s) default ≡ default))
port_of_lem s default = elim (Option-cases (parse_u16 s)) [
  | inl e ↦ inr (λ n p. let h = e in let h' = IsPort-read s n p in ground arith, rw e refl)
  | inr (n, e) ↦ let p = read-IsPort s n e in inl (n, p, rw e refl)
]
