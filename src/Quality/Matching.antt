-- ===== src/Quality/Matching.antt =====
-- When the evidence of a run matches a verified binding.
use Prim.Native.String.{String}
use text.Mathlib.Text.{◌==◌ as str_eq}
use sddiar.Base.{
  ◌≡◌, refl, ◌∙◌, Bool, true, false, not, ◌&&◌, ◌||◌, Option, none, some, List, ◌++◌, arith, map,
}
use sddiar.Base.Int.{ℤ, leb_ℤ}
use sddiar.Quality.Binding.{
  Evidence, VerifiedCalibrationBinding, mismatch_reason_codes, same_dict, is_none, code_when,
  wrong_profile, wrong_hashes, wrong_rate, wrong_config,
}
use sddiar.Quality.Report.{is_empty}

abbrev pub names {ℓ} : {A : Type ℓ} → (A → Bool) → Option A → Bool
names test none = false
names test (some x) = test x

module _ (lower : String → String) where
  -- All four kinds of evidence are present and are those of the binding.
  abbrev pub matches : VerifiedCalibrationBinding → Evidence → Bool
  matches b e =
      names (λ id. str_eq id b.profile_id) e.profile_id
      && (names (names (λ h. same_dict (map (λ x. (x.0, lower x.1)) h) b.model_hashes))
            e.model_hashes
          && (names (names (λ r. leb_ℤ r b.source_sample_rate && leb_ℤ b.source_sample_rate r))
                e.source_sample_rate
              && names (names (λ h. str_eq (lower h) b.config_hash)) e.config_hash))

not-not : (b : Bool) → not (not b) ≡ b
not-not true = refl
not-not false = refl

code_when-nil :
    (b : Bool) (code : String) (rest : List String)
    → is_empty (code_when b code ++ rest) ≡ (not b && is_empty rest)
code_when-nil true code rest = refl
code_when-nil false code rest = refl

code_when-last : (b : Bool) (code : String) → is_empty (code_when b code) ≡ not b
code_when-last true code = refl
code_when-last false code = refl

codes-nil :
    (u w1 w2 w3 w4 : Bool) (c0 c1 c2 c3 c4 : String)
    → is_empty (
        code_when u c0
        ++ (code_when w1 c1 ++ (code_when w2 c2 ++ (code_when w3 c3 ++ code_when w4 c4))))
      ≡ (not u && (not w1 && (not w2 && (not w3 && not w4))))
codes-nil u w1 w2 w3 w4 c0 c1 c2 c3 c4 =
    rw
      (
        code_when-nil u c0
            (code_when w1 c1 ++ (code_when w2 c2 ++ (code_when w3 c3 ++ code_when w4 c4))),
        code_when-nil w1 c1 (code_when w2 c2 ++ (code_when w3 c3 ++ code_when w4 c4)),
        code_when-nil w2 c2 (code_when w3 c3 ++ code_when w4 c4),
        code_when-nil w3 c3 (code_when w4 c4),
        code_when-last w4 c4,
      )
      refl

and_cong : {a b c d : Bool} → a ≡ b → c ≡ d → (a && c) ≡ (b && d)
and_cong e f = rw (e, f) refl

-- A kind of evidence is right if it is present and not wrong.
right_profile :
    (lower : String → String) (b : VerifiedCalibrationBinding) (x : Option String)
    → (not (is_none x) && not (wrong_profile lower b x)) ≡ names (λ id. str_eq id b.profile_id) x
right_profile lower b none = refl
right_profile lower b (some id) = ground arith

right_hashes :
    (lower : String → String) (b : VerifiedCalibrationBinding)
    (x : Option (Option (List (String × String))))
    → (not (is_none x) && not (wrong_hashes lower b x))
      ≡ names (names (λ h. same_dict (map (λ x. (x.0, lower x.1)) h) b.model_hashes)) x
right_hashes lower b none = refl
right_hashes lower b (some none) = refl
right_hashes lower b (some (some h)) =
    not-not (same_dict (map (λ x. (x.0, lower x.1)) h) b.model_hashes)

right_rate :
    (lower : String → String) (b : VerifiedCalibrationBinding) (x : Option (Option ℤ))
    → (not (is_none x) && not (wrong_rate lower b x))
      ≡ names (names (λ r. leb_ℤ r b.source_sample_rate && leb_ℤ b.source_sample_rate r)) x
right_rate lower b none = refl
right_rate lower b (some none) = refl
right_rate lower b (some (some r)) =
    not-not (leb_ℤ r b.source_sample_rate && leb_ℤ b.source_sample_rate r)

right_config :
    (lower : String → String) (b : VerifiedCalibrationBinding) (x : Option (Option String))
    → (not (is_none x) && not (wrong_config lower b x))
      ≡ names (names (λ h. str_eq (lower h) b.config_hash)) x
right_config lower b none = refl
right_config lower b (some none) = refl
right_config lower b (some (some h)) = not-not (str_eq (lower h) b.config_hash)

regroup :
    (n1 n2 n3 n4 w1 w2 w3 w4 : Bool)
    → (not (n1 || (n2 || (n3 || n4))) && (not w1 && (not w2 && (not w3 && not w4))))
      ≡ ((not n1 && not w1) && ((not n2 && not w2) && ((not n3 && not w3) && (not n4 && not w4))))
regroup n1 n2 n3 n4 w1 w2 w3 w4 = ground arith

-- There is no reason code exactly if all evidence is present and matches the binding.
pub mismatch_reason_codes-matches :
    (lower : String → String) (b : VerifiedCalibrationBinding) (e : Evidence)
    → is_empty (mismatch_reason_codes lower b e) ≡ matches lower b e
unfolding mismatch_reason_codes
mismatch_reason_codes-matches lower b e =
    let n1 = is_none e.profile_id in
    let n2 = is_none e.model_hashes in
    let n3 = is_none e.source_sample_rate in
    let n4 = is_none e.config_hash in
    let w1 = wrong_profile lower b e.profile_id in
    let w2 = wrong_hashes lower b e.model_hashes in
    let w3 = wrong_rate lower b e.source_sample_rate in
    let w4 = wrong_config lower b e.config_hash in
    codes-nil (n1 || (n2 || (n3 || n4))) w1 w2 w3 w4 _ _ _ _ _
    ∙ regroup n1 n2 n3 n4 w1 w2 w3 w4
    ∙ and_cong (right_profile lower b e.profile_id) (
        and_cong (right_hashes lower b e.model_hashes)
          (and_cong (right_rate lower b e.source_sample_rate) (right_config lower b e.config_hash)))
