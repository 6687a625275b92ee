-- ===== src/Shared/Witnesses.antt =====
-- The theorems on the shared crate at concrete inputs.
use wave_flow.Common.Text.{Text, codes}
use wave_flow.Shared.Types.{validate_github_repo, validate_stellar_address, contains}
use wave_flow.Shared.Config.{admin_keys, is_whitespace, from_env, port_of}
use wave_flow.Shared.Loading.{IsLoaded, from_env-IsLoaded}
use wave_flow.Common.{Option, ◌≡◌, arith, some, true, ◌∷◌, [], refl, ◌↔◌, false, ℕ, ◌⊎◌}
use wave_flow.Shared.Settings.{IsKey, admin_keys-join}
use wave_flow.Shared.Split.{join, valid_repo_iff}
use wave_flow.Escrow.Storage.{repo_refused}
use wave_flow.Shared.Addresses.{IsAccount, valid_address_iff}
use wave_flow.Shared.Ports.{IsPort, port_of_lem}

abbrev slug : Text
slug = codes "org/repo"

valid_repo_iff_example :
    (validate_github_repo slug ≡ true)
    ↔ ((repo_refused slug ≡ false) × (contains b' ' slug ≡ false))
valid_repo_iff_example = valid_repo_iff slug

abbrev account : Text
account = codes "GAAAAAAAAAAAAAAAAAAAAAAAAAAAAAAAAAAAAAAAAAAAAAAAAAAAAWHF"

valid_address_iff_example : (validate_stellar_address account ≡ true) ↔ IsAccount account
valid_address_iff_example = valid_address_iff account

abbrev key_a : Text
key_a = codes "key-a"

abbrev key_b : Text
key_b = codes "key b"

key_a-IsKey : IsKey key_a
unfolding is_whitespace
key_a-IsKey = record {
  nonempty = λ e. ground arith;
  no_comma = ground arith;
  starts = refl;
  ends = refl;
}

key_b-IsKey : IsKey key_b
unfolding is_whitespace
key_b-IsKey = record {
  nonempty = λ e. ground arith;
  no_comma = ground arith;
  starts = refl;
  ends = refl;
}

admin_keys-join_example : admin_keys (join b',' (key_a ∷ key_b ∷ [])) ≡ key_a ∷ key_b ∷ []
admin_keys-join_example = admin_keys-join key_a (key_b ∷ []) (key_a-IsKey, (key_b-IsKey, tt))

-- Every variable set to one text.
abbrev same_everywhere : Text → Option Text
same_everywhere _ = some (codes "8000")

from_env-IsLoaded_example : IsLoaded same_everywhere (from_env same_everywhere)
from_env-IsLoaded_example = from_env-IsLoaded same_everywhere

port_of_lem_example :
    ((n : ℕ) × IsPort (codes "+80") n × (port_of (some (codes "+80")) 8081 ≡ n))
    ⊎ (((n : ℕ) → IsPort (codes "+80") n → ⊥) × (port_of (some (codes "+80")) 8081 ≡ 8081))
port_of_lem_example = port_of_lem (codes "+80") 8081
