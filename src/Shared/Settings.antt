-- ===== src/Shared/Settings.antt =====
-- `AppConfig::from_env` of config.rs: what a configuration that it returns satisfies.
use wave_flow.Common.{
  refl, List, ℕ, All, if◌then◌else◌, ◌∷◌, ◌≡◌, ◌≢◌, Bool-cases, [], ap, false, inl, ◌&&◌, inr, ◌∙◌,
}
use wave_flow.Common.Text.{Text}
use wave_flow.Shared.Config.{admin_keys, keep_keys, trim_end, trim_start, trim, is_whitespace}
use wave_flow.Shared.Split.{Excludes, is_empty-false, join, split-Excludes, nonempty, split-join}
use wave_flow.Shared.Types.{is_empty, split}

abbrev pub StartsClean : Text → Type 0
StartsClean [] = Unit
StartsClean (c ∷ _) = is_whitespace c ≡ false

abbrev pub EndsClean : Text → Type 0
EndsClean [] = Unit
EndsClean (c ∷ []) = is_whitespace c ≡ false
EndsClean (_ ∷ c ∷ s) = EndsClean (c ∷ s)

-- A key is not empty, holds no comma, and neither starts nor ends with white space.
pub record IsKey (s : Text) : Type 0 where
  pub nonempty : s ≢ []
  pub no_comma : Excludes b',' s
  pub starts : StartsClean s
  pub ends : EndsClean s

trim_start-StartsClean : (s : Text) → StartsClean (trim_start s)
unfolding trim_start
trim_start-StartsClean [] = tt
trim_start-StartsClean (c ∷ s) = elim (Bool-cases (is_whitespace c)) [
  | inl e ↦ rw e (trim_start-StartsClean s)
  | inr e ↦ rw e e
]

trim_start-Excludes : (b : ℕ) (s : Text) → Excludes b s → Excludes b (trim_start s)
unfolding trim_start
trim_start-Excludes b [] h = tt
trim_start-Excludes b (c ∷ s) h = elim (Bool-cases (is_whitespace c)) [
  | inl e ↦ rw e (trim_start-Excludes b s h.1)
  | inr e ↦ rw e h
]

trim_start_id : (s : Text) → StartsClean s → trim_start s ≡ s
unfolding trim_start
trim_start_id [] h = refl
trim_start_id (c ∷ s) h = rw h refl

trim_end_id : (s : Text) → EndsClean s → trim_end s ≡ s
unfolding trim_end
trim_end_id [] h = refl
trim_end_id (c ∷ []) h = rw h refl
trim_end_id (c ∷ d ∷ s) h = rw (trim_end_id (d ∷ s) h) refl

EndsClean-∷ :
    (c : ℕ) (r : Text)
    → EndsClean r
    → EndsClean (if is_empty r && is_whitespace c then [] else c ∷ r)
EndsClean-∷ c [] h = elim (Bool-cases (is_whitespace c)) [ inl e ↦ rw e tt | inr e ↦ rw e e ]
EndsClean-∷ c (d ∷ r) h = h

trim_end-EndsClean : (s : Text) → EndsClean (trim_end s)
unfolding trim_end
trim_end-EndsClean [] = tt
trim_end-EndsClean (c ∷ s) = EndsClean-∷ c (trim_end s) (trim_end-EndsClean s)

trim_end-StartsClean : (s : Text) → StartsClean s → StartsClean (trim_end s)
unfolding trim_end
trim_end-StartsClean [] h = tt
trim_end-StartsClean (c ∷ s) h = elim (Bool-cases (is_empty (trim_end s) && is_whitespace c)) [
  | inl e ↦ rw e tt
  | inr e ↦ rw e h
]

trim_end-Excludes : (b : ℕ) (s : Text) → Excludes b s → Excludes b (trim_end s)
unfolding trim_end
trim_end-Excludes b [] h = tt
trim_end-Excludes b (c ∷ s) h = elim (Bool-cases (is_empty (trim_end s) && is_whitespace c)) [
  | inl e ↦ rw e tt
  | inr e ↦ rw e (h.0, trim_end-Excludes b s h.1)
]

trim_id : (s : Text) → IsKey s → trim s ≡ s
trim_id s h = rw (trim_start_id s h.starts) (trim_end_id s h.ends)

trim-IsKey : (s : Text) → Excludes b',' s → is_empty (trim s) ≡ false → IsKey (trim s)
trim-IsKey s h filled = record {
  nonempty = nonempty (trim s) filled;
  no_comma = trim_end-Excludes b',' (trim_start s) (trim_start-Excludes b',' s h);
  starts = trim_end-StartsClean (trim_start s) (trim_start-StartsClean s);
  ends = trim_end-EndsClean (trim_start s);
}

keep_keys-IsKey : (parts : List Text) → All (Excludes b',') parts → All IsKey (keep_keys parts)
unfolding keep_keys
keep_keys-IsKey [] h = tt
keep_keys-IsKey (p ∷ ps) h = elim (Bool-cases (is_empty (trim p))) [
  | inl e ↦ rw e (keep_keys-IsKey ps h.1)
  | inr e ↦ rw e (trim-IsKey p h.0 e, keep_keys-IsKey ps h.1)
]

pub admin_keys-IsKey : (s : Text) → All IsKey (admin_keys s)
unfolding admin_keys
admin_keys-IsKey s = keep_keys-IsKey (split b',' s) (split-Excludes b',' s)

keep_keys_id : (ks : List Text) → All IsKey ks → keep_keys ks ≡ ks
unfolding keep_keys
keep_keys_id [] h = refl
keep_keys_id (k ∷ ks) h =
    rw (trim_id k h.0, is_empty-false k h.0.nonempty, keep_keys_id ks h.1) refl

Excludes-keys : (ks : List Text) → All IsKey ks → All (Excludes b',') ks
Excludes-keys [] h = tt
Excludes-keys (k ∷ ks) h = (h.0.no_comma, Excludes-keys ks h.1)

-- A list of keys, not empty, written with commas between them is read back from `API_ADMIN_KEYS`.
pub admin_keys-join :
    (k : Text) (ks : List Text) → All IsKey (k ∷ ks) → admin_keys (join b',' (k ∷ ks)) ≡ k ∷ ks
unfolding admin_keys
admin_keys-join k ks h =
    ap keep_keys (split-join b',' k ks (Excludes-keys (k ∷ ks) h)) ∙ keep_keys_id (k ∷ ks) h
