-- ===== src/Summary.antt =====
-- `SummaryPolicyAdapter` of src/sddiar/service.py: which kind of summary a quality result allows.
pub mod Policy
mod Tests
use Prim.Native.String.{String, ◌++◌ as ◌<>◌}
use text.Mathlib.Text.{◌==◌ as str_eq}
use sddiar.Base.{
  Bool, true, false, ◌&&◌, ◌||◌, Option, none, some, List, [], ◌∷◌, Result, ok, err, summary_policy,
  ◌>>=◌, ◌>>◌, raise_if, if◌then◌else◌,
}
use sddiar.Quality.Report.{
  Status, pass_high, pass_standard, pass_with_unattributed, review_required, unsupported,
  SummaryMode, speaker_aware, speaker_neutral, manual_review,
}

-- `requested_mode.upper()`: `invalid` is a text outside the set that `decide` accepts.
pub data Request : Type 0 where
  auto : Request
  mode : SummaryMode → Request
  invalid : Request

-- A declared mode may be any text of the quality mapping.
pub data DeclaredMode : Type 0 where
  known : SummaryMode → DeclaredMode
  other : String → DeclaredMode

pub record SummaryPolicyDecision : Type 0 where
  pub mode : DeclaredMode
  pub allowed : Bool
  pub reason_codes : List String

-- `status in SUMMARY_BLOCKED`
abbrev pub is_blocked : Status → Bool
is_blocked review_required = true
is_blocked unsupported = true
is_blocked pass_with_unattributed = true
is_blocked _ = false

abbrev pub status_name : Status → String
status_name pass_high = "PASS_HIGH"
status_name pass_standard = "PASS_STANDARD"
status_name pass_with_unattributed = "PASS_WITH_UNATTRIBUTED"
status_name review_required = "REVIEW_REQUIRED"
status_name unsupported = "UNSUPPORTED"

abbrev pub is_speaker_aware : SummaryMode → Bool
is_speaker_aware speaker_aware = true
is_speaker_aware _ = false

abbrev pub asks_aware : Request → Bool
asks_aware (mode m) = is_speaker_aware m
asks_aware _ = false

abbrev pub declares_aware : Option DeclaredMode → Bool
declares_aware (some (known m)) = is_speaker_aware m
declares_aware _ = false

-- The mode of a blocked status for `AUTO`.
abbrev pub safe_mode : Status → SummaryMode
safe_mode review_required = manual_review
safe_mode _ = speaker_neutral

-- `mode if requested == "AUTO" else requested`
abbrev pub chosen : Request → SummaryMode → SummaryMode
chosen (mode m) default = m
chosen _ default = default

-- The branch of the blocked statuses.
unfoldable pub decide_blocked :
    Status → Option DeclaredMode → Request → Result SummaryPolicyDecision
decide_blocked status declared requested = do
  raise_if (asks_aware requested || declares_aware declared) summary_policy
  ok (record {
    mode = known (chosen requested (safe_mode status));
    allowed = true;
    reason_codes = ("SUMMARY_" <> status_name status) ∷ [];
  })

-- `declared or "SPEAKER_AWARE"`, unless a mode is requested.
abbrev pub free_mode : Option DeclaredMode → Request → DeclaredMode
free_mode declared (mode m) = known m
free_mode none _ = known speaker_aware
free_mode (some (known m)) _ = known m
free_mode (some (other text)) _ = if str_eq text "" then known speaker_aware else other text

abbrev pub is_known : DeclaredMode → Bool
is_known (known m) = true
is_known (other text) = false

unfoldable pub decide_free : Option DeclaredMode → Request → Result SummaryPolicyDecision
decide_free declared requested =
    let m = free_mode declared requested in
    ok (record { mode = m; allowed = is_known m; reason_codes = [] })

abbrev pub is_invalid : Request → Bool
is_invalid invalid = true
is_invalid _ = false

-- `status` and `declared` are read from the quality result; an unknown status is `none`.
unfoldable pub decide : Option Status → Option DeclaredMode → Request → Result SummaryPolicyDecision
decide status declared requested = do
  raise_if (is_invalid requested) summary_policy
  elim status [
    | none ↦ decide_free declared requested
    | some s ↦
        if is_blocked s then decide_blocked s declared requested else decide_free declared requested
  ]

-- `authorize`
unfoldable pub authorize : Option Status → Option DeclaredMode → Request → Result DeclaredMode
authorize status declared requested = decide status declared requested >>= (λ d. ok d.mode)
