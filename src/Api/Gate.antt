-- ===== src/Api/Gate.antt =====
-- What `require_admin_key` of crates/api/src/middleware.rs lets through.
use mathlib.Core.Path.{subst}
use wave_flow.Common.{
  ap, sym, unwrap_or, refl, List, Option, any, ◌∷◌, ◌≡◌, [], arith, false, true, ◌⊎◌, Bool-cases,
  inl, none, some, inr, ◌≢◌,
}
use wave_flow.Common.Text.{Text, same, same_iff}
use wave_flow.Api.Middleware.{require_admin_key, Answer}

abbrev pub Listed : Text → List Text → Type 0
Listed key [] = ⊥
Listed key (k ∷ keys) = (k ≡ key) ⊎ Listed key keys

any-Listed : (key : Text) (keys : List Text) → any (λ k. same k key) keys ≡ true → Listed key keys
any-Listed key [] h = absurd (ground arith)
any-Listed key (k ∷ keys) h = elim (Bool-cases (same k key)) [
  | inl e ↦ inl ((same_iff k key).0 e)
  | inr e ↦ inr (any-Listed key keys (ground arith))
]

unlisted :
    (key : Text) (keys : List Text) → any (λ k. same k key) keys ≡ false → Listed key keys → ⊥
unlisted key [] h l = l
unlisted key (k ∷ keys) h (inl e) = let s = (same_iff k key).1 e in ground arith
unlisted key (k ∷ keys) h (inr l) = unlisted key keys (ground arith) l

-- How a request to an admin route ends.
pub data Gate {S A : Type 0} (keys : List Text) (api_key : Option Text) (next : S → Answer A × S)
    (s : S) (r : Answer A × S) : Type 0 where
  unconfigured :
      keys ≡ [] → r ≡ (record { status = 500; body = none }, s) → Gate keys api_key next s r
  turned_away :
      keys ≢ []
      → ((key : Text) → api_key ≡ some key → Listed key keys → ⊥)
      → r ≡ (record { status = 401; body = none }, s)
      → Gate keys api_key next s r
  let_through :
      (key : Text) → api_key ≡ some key → Listed key keys → r ≡ next s → Gate keys api_key next s r

-- The handler of an admin route runs exactly where the request carries one of the configured keys.
-- Otherwise nothing changes, and the answer is 401, or 500 where no key is configured.
pub require_admin_key-Gate :
    {S A : Type 0} (keys : List Text) (api_key : Option Text) (next : S → Answer A × S) (s : S)
    → Gate keys api_key next s (require_admin_key keys api_key next s)
unfolding require_admin_key
require_admin_key-Gate [] api_key next s = unconfigured refl refl
require_admin_key-Gate (k ∷ keys) none next s =
    turned_away (λ e. ground arith) (λ key e l. absurd (ground arith)) refl
require_admin_key-Gate (k ∷ keys) (some key) next s =
    elim (Bool-cases (any (λ k. same k key) (k ∷ keys))) [
      | inl e ↦ let_through key refl (any-Listed key (k ∷ keys) e) (rw e refl)
      | inr e ↦
          turned_away (λ h. ground arith)
            (λ key' h l.
              unlisted key (k ∷ keys) e
                (subst (λ x. Listed x (k ∷ keys)) (sym (ap (unwrap_or key) h)) l))
            (rw e refl)
    ]
