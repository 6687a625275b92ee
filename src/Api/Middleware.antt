-- ===== src/Api/Middleware.antt =====
-- crates/api/src/middleware.rs: the check of the admin key.
use wave_flow.Common.{List, ℕ, Option, none, ◌∷◌, some, if◌then◌else◌, any, []}
use wave_flow.Common.Text.{Text, same}

-- The answer of a request: a status, and the handler's value where it ran.
pub record Answer (A : Type 0) : Type 0 where
  pub status : ℕ
  pub body : Option A

-- `api_key` is the header x-api-key where it is present and visible ASCII, and `next` the handler.
unfoldable pub require_admin_key :
    {S A : Type 0} → List Text → Option Text → (S → Answer A × S) → S → Answer A × S
require_admin_key [] api_key next s = (record { status = 500; body = none }, s)
require_admin_key (k ∷ keys) none next s = (record { status = 401; body = none }, s)
require_admin_key (k ∷ keys) (some key) next s =
    if any (λ k. same k key) (k ∷ keys) then next s else (record { status = 401; body = none }, s)
