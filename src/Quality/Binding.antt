-- ===== src/Quality/Binding.antt =====
-- src/sddiar/calibration.py: the verified binding and its comparison with the runtime evidence.
use Prim.Native.String.{String}
use text.Mathlib.Text.{◌==◌ as str_eq}
use sddiar.Base.{
  Bool, true, false, not, ◌&&◌, ◌||◌, Option, none, some, List, [], ◌∷◌, ◌++◌, if◌then◌else◌, any,
  map,
}
use sddiar.Base.Int.{ℤ, leb_ℤ}

-- The values that `_read_diagnostic` finds under the names of each kind. The inner `none` is a
-- value of another type than the code asks for.
pub record Evidence : Type 0 where
  pub profile_id : Option String
  pub model_hashes : Option (Option (List (String × String)))
  pub source_sample_rate : Option (Option ℤ)
  pub config_hash : Option (Option String)

-- `valid` stands for the comparison with the verifier's token.
pub record VerifiedCalibrationBinding : Type 0 where
  pub profile_id : String
  pub model_hashes : List (String × String)
  pub source_sample_rate : ℤ
  pub config_hash : String
  pub valid : Bool
  pub trust_level : String

-- `release_authorized`
abbrev pub release_authorized : VerifiedCalibrationBinding → Bool
release_authorized b = b.valid && str_eq b.trust_level "RELEASE"

abbrev pub is_none {ℓ} : {A : Type ℓ} → Option A → Bool
is_none none = true
is_none (some x) = false

abbrev pub holds_entry : List (String × String) → String × String → Bool
holds_entry entries (key, value) = any (λ e. str_eq e.0 key && str_eq e.1 value) entries

-- Equality of two dicts, as lists of entries with distinct keys.
abbrev pub same_dict : List (String × String) → List (String × String) → Bool
same_dict xs ys =
    not (any (λ e. not (holds_entry ys e)) xs) && not (any (λ e. not (holds_entry xs e)) ys)

abbrev pub code_when : Bool → String → List String
code_when test code = if test then code ∷ [] else []

-- `str.lower` is a parameter.
module _ (lower : String → String) where
  abbrev pub wrong_profile : VerifiedCalibrationBinding → Option String → Bool
  wrong_profile b none = false
  wrong_profile b (some id) = not (str_eq id b.profile_id)

  abbrev pub wrong_hashes :
      VerifiedCalibrationBinding → Option (Option (List (String × String))) → Bool
  wrong_hashes b none = false
  wrong_hashes b (some none) = true
  wrong_hashes b (some (some hashes)) =
      not (same_dict (map (λ e. (e.0, lower e.1)) hashes) b.model_hashes)

  abbrev pub wrong_rate : VerifiedCalibrationBinding → Option (Option ℤ) → Bool
  wrong_rate b none = false
  wrong_rate b (some none) = true
  wrong_rate b (some (some rate)) =
      not (leb_ℤ rate b.source_sample_rate && leb_ℤ b.source_sample_rate rate)

  abbrev pub wrong_config : VerifiedCalibrationBinding → Option (Option String) → Bool
  wrong_config b none = false
  wrong_config b (some none) = true
  wrong_config b (some (some hash)) = not (str_eq (lower hash) b.config_hash)

  unfoldable pub mismatch_reason_codes : VerifiedCalibrationBinding → Evidence → List String
  mismatch_reason_codes b e =
      code_when
        (is_none e.profile_id
          || (is_none e.model_hashes || (is_none e.source_sample_rate || is_none e.config_hash)))
        "Q_CALIBRATION_UNBOUND"
      ++ (code_when (wrong_profile b e.profile_id) "Q_CALIBRATION_PROFILE_MISMATCH"
          ++ (code_when (wrong_hashes b e.model_hashes) "Q_CALIBRATION_MODEL_HASH_MISMATCH"
              ++ (code_when (wrong_rate b e.source_sample_rate) "Q_CALIBRATION_SOURCE_RATE_MISMATCH"
                  ++ code_when (wrong_config b e.config_hash)
                      "Q_CALIBRATION_CONFIG_HASH_MISMATCH")))
