-- ===== src/Quality/Report.antt =====
-- `FileQualityReport` of src/sddiar/contracts.py, and `_report` of src/sddiar/quality.py.
use Prim.Native.String.{String}
use text.Mathlib.Text.{◌==◌ as str_eq}
use sddiar.Base.{
  Bool, true, false, not, ◌&&◌, Option, none, some, List, [], ◌∷◌, Result, ok, contract_validation,
  ◌>>◌, raise_if, if◌then◌else◌, any, keep_if,
}
use sddiar.Base.Int.{ℤ}

-- A float is written as its exact multiple of the smallest positive double.
pub data Number : Type 0 where
  finite : ℤ → Number
  infinity negative_infinity nan : Number

-- `other` is a value that is not a number.
pub data Metric : Type 0 where
  number : Number → Metric
  other : Metric

-- `isinstance(v, float) and not math.isfinite(v)`
abbrev pub is_infinite : Metric → Bool
is_infinite (number (finite x)) = false
is_infinite (number x) = true
is_infinite other = false

-- What `_finite` accepts.
abbrev pub is_finite : Metric → Bool
is_finite (number (finite x)) = true
is_finite _ = false

pub data Status : Type 0 where
  pass_high pass_standard pass_with_unattributed review_required unsupported : Status

pub data SummaryMode : Type 0 where
  speaker_aware speaker_neutral manual_review : SummaryMode

-- `status.startswith("PASS")`
abbrev pub is_pass : Status → Bool
is_pass review_required = false
is_pass unsupported = false
is_pass _ = true

pub record FileQualityReport : Type 0 where
  pub status : Status
  pub speaker_count_status : String
  pub summary_mode : SummaryMode
  pub reason_codes : List String
  pub metrics : List (String × Metric)
  pub threshold_relations : List (String × String)
  pub calibration_profile_id : Option String

abbrev pub is_empty {ℓ} : {A : Type ℓ} → List A → Bool
is_empty [] = true
is_empty (x ∷ xs) = false

abbrev pub lookup : String → List (String × Metric) → Option Metric
lookup key [] = none
lookup key ((name, value) ∷ entries) =
    let rest = lookup key entries in if str_eq name key then some value else rest

-- `not calibration_profile_id`
abbrev pub is_unnamed : Option String → Bool
is_unnamed none = true
is_unnamed (some id) = str_eq id ""

-- `tuple(dict.fromkeys(reasons))`
unfoldable pub from_keys : List String → List String
from_keys [] = []
from_keys (x ∷ xs) = x ∷ keep_if (λ y. not (str_eq x y)) (from_keys xs)

-- `_report(...)` with `FileQualityReport.__post_init__`
unfoldable pub report :
    Status
    → String
    → SummaryMode
    → List String
    → List (String × Metric)
    → List (String × String)
    → Option String
    → Result FileQualityReport
report status count mode reasons metrics relations profile = do
  raise_if (is_pass status && is_unnamed profile) contract_validation
  raise_if (any (λ m. not (is_finite m.1)) metrics) contract_validation
  ok (record {
    status = status;
    speaker_count_status = count;
    summary_mode = mode;
    reason_codes = from_keys reasons;
    metrics = metrics;
    threshold_relations = relations;
    calibration_profile_id = profile;
  })
