-- ===== src/Hypotheses.antt =====
-- src/sddiar/contracts.py and src/sddiar/diarization.py: the hypotheses of one or two speakers, and
-- the decision between them.
pub mod Anchors
pub mod Fit
pub mod Seeds
pub mod Evidence
pub mod Decide
pub mod Fits
pub mod Evaluated
pub mod Decided
pub mod Laws
pub mod Tests
use Prim.Native.String.{String, compare as compare_str}
use text.Mathlib.Text.{◌==◌ as str_eq, is_le}
use sddiar.Base.{
  ℕ, Bool, true, false, not, ◌&&◌, ◌||◌, Option, none, some, List, [], ◌∷◌, if◌then◌else◌, any,
}

pub record AnchorEvidence (F : Type 0) : Type 0 where
  pub tracklet_id : String
  pub vector : List F
  pub weight : F
  pub clean_speech_us : ℕ
  pub independent_block_id : String
  pub continuity_group_id : String
  pub start_us : ℕ
  pub end_us : ℕ
  pub scd_evidence_before : Option F

-- `cost_components`, which only reports read, is left out.
pub record SpeakerHypothesis (F : Type 0) : Type 0 where
  pub k : ℕ
  pub centers : List (List F)
  pub anchor_labels : List (String × Option ℕ)
  pub is_valid : Bool
  pub valid_constraints : Bool
  pub robust_cost : F
  pub total_cost : F
  pub outlier_ratio : F
  pub cluster_dispersion : List F
  pub clean_duration_us : List ℕ
  pub independent_anchor_count : List ℕ
  pub cluster_support_ok : Bool
  pub dispersion_ok : Bool
  pub outlier_ratio_ok : Bool
  pub third_speaker_risk : Bool
  pub separation : Option F
  pub label_stability : Option F
  pub centroid_stability : Option F
  pub temporal_interleaving : Option Bool
  pub continuous_speech_conflict : Option Bool
  pub reason_codes : List String

pub data HypothesisState : Type 0 where
  h1_confirmed h2_confirmed uncertain_1_or_2 : HypothesisState

pub record HypothesisDecision (F : Type 0) : Type 0 where
  pub state : HypothesisState
  pub hypothesis : Option (SpeakerHypothesis F)
  pub reason_codes : List String

-- `decision.state in {"H1_CONFIRMED", "H2_CONFIRMED"}`
abbrev pub is_confirmed : HypothesisState → Bool
is_confirmed uncertain_1_or_2 = false
is_confirmed _ = true

-- `decision.hypothesis and decision.hypothesis.third_speaker_risk`
abbrev pub has_third_risk : {F : Type 0} → HypothesisDecision F → Bool
has_third_risk decision = elim decision.hypothesis [
  | none ↦ false
  | some hypothesis ↦ hypothesis.third_speaker_risk
]

-- A value of a dictionary, where a later key replaces an earlier one.
abbrev pub last_value : {A : Type 0} → String → A → List (String × A) → A
last_value id found [] = found
last_value id found ((key, value) ∷ rest) =
    last_value id (if str_eq key id then value else found) rest

abbrev pub str_le : String → String → Bool
str_le a b = is_le (compare_str a b)

abbrev pub holds_string : String → List String → Bool
holds_string x xs = any (λ y. str_eq y x) xs

-- `tuple(dict.fromkeys(xs))`
unfoldable pub distinct_after : List String → List String → List String
distinct_after seen [] = []
distinct_after seen (x ∷ xs) =
    let rest = distinct_after (x ∷ seen) xs in if holds_string x seen then rest else x ∷ rest

abbrev pub distinct : List String → List String
distinct xs = distinct_after [] xs
