-- ===== src/Shared/Error.antt =====
-- error.rs: the errors of the gateway and the API, and the status codes they answer with.
use Prim.Native.String.{String}
use wave_flow.Common.Text.{Text, codes}
use wave_flow.Common.{[], none, Bool, List, Option, ℕ, if◌then◌else◌, some, ◌∷◌}

-- What `format!` puts together: fixed text, a displayed number or identifier, and the text of an error
-- that a library reports.
pub data Part : Type 0 where
  word : Text → Part
  shown : ℕ → Part

abbrev pub Message : Type 0
Message = List Part

abbrev pub message : String → Message
message s = word (codes s) ∷ []

pub data WaveFlowError : Type 0 where
  config : Message → WaveFlowError
  unauthorized : Message → WaveFlowError
  validation : Message → WaveFlowError
  not_found : Message → WaveFlowError
  conflict : Message → WaveFlowError
  database : Message → WaveFlowError
  webhook : Message → WaveFlowError
  chain : Message → WaveFlowError
  internal : Message → WaveFlowError

-- `Result<T, WaveFlowError>`
pub data WaveFlowResult {ℓ} (A : Type ℓ) : Type ℓ where
  ok : A → WaveFlowResult A
  err : WaveFlowError → WaveFlowResult A

infixl 5 ◌>>=◌ ◌>>◌
abbrev pub ◌>>=◌ {ℓ κ} :
    {A : Type ℓ} {B : Type κ} → WaveFlowResult A → (A → WaveFlowResult B) → WaveFlowResult B
ok a >>= f = f a
err e >>= f = err e

abbrev pub ◌>>◌ {ℓ κ} :
    {A : Type ℓ} {B : Type κ} → WaveFlowResult A → WaveFlowResult B → WaveFlowResult B
m >> k = m >>= λ _. k

module _ {ℓ} {A : Type ℓ} where
  -- `ok_or`
  abbrev pub ok_or : Option A → WaveFlowError → WaveFlowResult A
  ok_or none e = err e
  ok_or (some a) e = ok a

-- `if c { return Err(e); }`
abbrev pub fail_if : Bool → WaveFlowError → WaveFlowResult (Unit {0})
fail_if c e = if c then err e else ok tt

unfoldable pub http_status_code : WaveFlowError → ℕ
http_status_code (unauthorized _) = 401
http_status_code (validation _) = 400
http_status_code (webhook _) = 400
http_status_code (not_found _) = 404
http_status_code (conflict _) = 409
http_status_code (config _) = 500
http_status_code (database _) = 500
http_status_code (chain _) = 500
http_status_code (internal _) = 500

-- The `Display` text of an error.
unfoldable pub to_string : WaveFlowError → Message
to_string (config m) = word (codes "configuration error: ") ∷ m
to_string (unauthorized m) = word (codes "unauthorized: ") ∷ m
to_string (validation m) = word (codes "validation error: ") ∷ m
to_string (not_found m) = word (codes "not found: ") ∷ m
to_string (conflict m) = word (codes "conflict: ") ∷ m
to_string (database m) = word (codes "database error: ") ∷ m
to_string (webhook m) = word (codes "webhook error: ") ∷ m
to_string (chain m) = word (codes "chain error: ") ∷ m
to_string (internal m) = word (codes "internal error: ") ∷ m
