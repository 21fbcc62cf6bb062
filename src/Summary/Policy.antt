-- ===== src/Summary/Policy.antt =====
-- When a speaker-aware summary is allowed.
use Prim.Native.String.{String}
use sddiar.Base.{
  ◌≡◌, refl, sym, subst, inl, inr, Bool, true, false, not, ◌&&◌, ◌||◌, Option, none, some, Result,
  ok, err, arith, if◌then◌else◌, any, Bool-cases,
}
use sddiar.Quality.Report.{
  Status, pass_high, pass_standard, pass_with_unattributed, review_required, unsupported,
  speaker_aware, FileQualityReport, is_pass, is_unnamed, is_finite,
}
use sddiar.Quality.{Diagnostics, QualityConfig, Calibration, evaluate_file_quality}
use sddiar.Quality.Gate.{authorizes, mode_for, evaluate_file_quality-IsSound}
use sddiar.Summary.{
  Request, auto, mode, invalid, DeclaredMode, known, other, SummaryPolicyDecision, is_blocked,
  is_known, is_speaker_aware, asks_aware, declares_aware, chosen, safe_mode, decide_blocked,
  decide_free, decide,
}

abbrev pub is_aware : DeclaredMode → Bool
is_aware (known m) = is_speaker_aware m
is_aware (other text) = false

abbrev pub blocks : Option Status → Bool
blocks none = false
blocks (some s) = is_blocked s

-- What holds of a decision that is taken.
abbrev IsSafe : Bool → Result SummaryPolicyDecision → Type 0
IsSafe blocked (ok d) = ((is_aware d.mode && blocked) ≡ false) × (d.allowed ≡ is_known d.mode)
IsSafe blocked (err e) = Unit

chosen-neutral :
    (s : Status) (r : Request)
    → asks_aware r ≡ false
    → is_speaker_aware (chosen r (safe_mode s)) ≡ false
chosen-neutral s r h = ground arith

decide_blocked-IsSafe :
    (s : Status) (declared : Option DeclaredMode) (r : Request)
    → IsSafe true (decide_blocked s declared r)
unfolding decide_blocked
decide_blocked-IsSafe s declared r = elim (Bool-cases (asks_aware r || declares_aware declared)) [
  | inl refused ↦ rw refused tt
  | inr quiet ↦ let neutral = chosen-neutral s r (ground arith) in rw quiet (ground arith, refl)
]

decide_free-IsSafe :
    (declared : Option DeclaredMode) (r : Request) → IsSafe false (decide_free declared r)
unfolding decide_free
decide_free-IsSafe declared r = (ground arith, refl)

branch-IsSafe :
    (s : Status) (declared : Option DeclaredMode) (r : Request)
    → IsSafe
        (is_blocked s)
        (if is_blocked s then decide_blocked s declared r else decide_free declared r)
branch-IsSafe pass_high declared r = decide_free-IsSafe declared r
branch-IsSafe pass_standard declared r = decide_free-IsSafe declared r
branch-IsSafe pass_with_unattributed declared r =
    decide_blocked-IsSafe pass_with_unattributed declared r
branch-IsSafe review_required declared r = decide_blocked-IsSafe review_required declared r
branch-IsSafe unsupported declared r = decide_blocked-IsSafe unsupported declared r

decide-IsSafe :
    (status : Option Status) (declared : Option DeclaredMode) (r : Request)
    → IsSafe (blocks status) (decide status declared r)
unfolding decide
decide-IsSafe none declared invalid = tt
decide-IsSafe (some s) declared invalid = tt
decide-IsSafe none declared auto = decide_free-IsSafe declared auto
decide-IsSafe none declared (mode m) = decide_free-IsSafe declared (mode m)
decide-IsSafe (some s) declared auto = branch-IsSafe s declared auto
decide-IsSafe (some s) declared (mode m) = branch-IsSafe s declared (mode m)

-- A decision that is taken is never speaker-aware for a status that blocks it, whatever mode is
-- requested or declared, and it is allowed exactly if its mode is one of the three modes.
pub decide_safe :
    (status : Option Status) (declared : Option DeclaredMode) (r : Request)
    (d : SummaryPolicyDecision)
    → decide status declared r ≡ ok d
    → ((is_aware d.mode && blocks status) ≡ false) × (d.allowed ≡ is_known d.mode)
decide_safe status declared r d e =
    subst (λ x. IsSafe (blocks status) x) e (decide-IsSafe status declared r)

-- The report's own mode is what the policy decides for `AUTO`.
decide-auto :
    (s : Status)
    → (d : SummaryPolicyDecision) × (decide (some s) (some (known (mode_for s))) auto ≡ ok d)
      × (d.mode ≡ known (mode_for s))
      × (d.allowed ≡ true)
unfolding decide decide_free decide_blocked
decide-auto pass_high = (_, refl, refl, refl)
decide-auto pass_standard = (_, refl, refl, refl)
decide-auto pass_with_unattributed = (_, refl, refl, refl)
decide-auto review_required = (_, refl, refl, refl)
decide-auto unsupported = (_, refl, refl, refl)

-- For every report of the quality rules, the policy takes a decision on `AUTO`: it is allowed,
-- and its mode is the summary mode that the report declares.
pub decide-report :
    (lower : String → String) (d : Diagnostics) (calibration : Calibration) (cfg : QualityConfig)
    (r : FileQualityReport)
    → evaluate_file_quality lower d calibration cfg ≡ ok r
    → (x : SummaryPolicyDecision) × (decide (some r.status) (some (known r.summary_mode)) auto
        ≡ ok x)
      × (x.mode ≡ known r.summary_mode)
      × (x.allowed ≡ true)
decide-report lower d calibration cfg r e =
    let (shown, _, _) = evaluate_file_quality-IsSound lower d calibration cfg r e in
    subst
      (λ m.
        (x : SummaryPolicyDecision) × (decide (some r.status) (some (known m)) auto ≡ ok x)
        × (x.mode ≡ known m)
        × (x.allowed ≡ true))
      (sym shown) (decide-auto r.status)

granted :
    (pass unnamed authority : Bool)
    → pass ≡ true
    → (pass && (unnamed || not authority)) ≡ false
    → authority ≡ true
granted pass unnamed authority h k = ground arith

is_pass-blocked : (s : Status) → is_blocked s ≡ false → is_pass s ≡ true
is_pass-blocked pass_high h = refl
is_pass-blocked pass_standard h = refl
is_pass-blocked pass_with_unattributed h = refl
is_pass-blocked review_required h = ground arith
is_pass-blocked unsupported h = ground arith

-- If the policy decides for a speaker-aware summary of a report of the quality rules, whatever
-- mode is requested, then the calibration is a verified release binding that all the evidence
-- in the diagnostics matches, and every metric is finite.
pub decide-authorizes :
    (lower : String → String) (d : Diagnostics) (calibration : Calibration) (cfg : QualityConfig)
    (r : FileQualityReport) (request : Request) (x : SummaryPolicyDecision)
    → evaluate_file_quality lower d calibration cfg ≡ ok r
    → decide (some r.status) (some (known r.summary_mode)) request ≡ ok x
    → x.mode ≡ known speaker_aware
    → (authorizes lower calibration d ≡ true) × (any (λ m. not (is_finite m.1)) d.metrics ≡ false)
decide-authorizes lower d calibration cfg r request x e f aware =
    let (_, clean, pass) = evaluate_file_quality-IsSound lower d calibration cfg r e in
    let (safe, _) = decide_safe (some r.status) (some (known r.summary_mode)) request x f in
    let open_status : is_blocked r.status ≡ false =
      subst (λ m. (is_aware m && is_blocked r.status) ≡ false) aware safe in
    let passed = is_pass-blocked r.status open_status in
    (
      granted (is_pass r.status) (is_unnamed r.calibration_profile_id)
          (authorizes lower calibration d) passed pass,
      clean,
    )
