-- ===== src/Shared/Tests.antt =====
-- The tests of types.rs and config.rs.
use wave_flow.Shared.Types.{validate_github_repo, validate_stellar_address}
use wave_flow.Shared.Config.{admin_keys, parse_u16}
use wave_flow.Common.Text.{codes}
use wave_flow.Common.{◌≡◌, false, none, some, true, ◌∷◌, [], refl}

validates_repo_slug : validate_github_repo (codes "StellarRoute/WaveFlow") ≡ true
unfolding validate_github_repo
validates_repo_slug = refl

rejects_one_part : validate_github_repo (codes "invalid") ≡ false
unfolding validate_github_repo
rejects_one_part = refl

rejects_empty_name : validate_github_repo (codes "owner/") ≡ false
unfolding validate_github_repo
rejects_empty_name = refl

validates_stellar_public_key :
    validate_stellar_address (codes "GAAAAAAAAAAAAAAAAAAAAAAAAAAAAAAAAAAAAAAAAAAAAAAAAAAAAWHF")
    ≡ true
unfolding validate_stellar_address
validates_stellar_public_key = refl

rejects_other_text : validate_stellar_address (codes "not-an-address") ≡ false
unfolding validate_stellar_address
rejects_other_text = refl

parses_admin_keys_from_comma_list :
    admin_keys (codes "key-a, key-b") ≡ codes "key-a" ∷ codes "key-b" ∷ []
unfolding admin_keys
parses_admin_keys_from_comma_list = refl

parses_a_port : parse_u16 (codes "+8080") ≡ some 8080
unfolding parse_u16
parses_a_port = refl

rejects_a_large_port : parse_u16 (codes "65536") ≡ none
unfolding parse_u16
rejects_a_large_port = refl
