-- ===== src/Attribution.antt =====
-- src/sddiar/attribution.py: the speaker of a word, from the spans that share time with it.
pub mod Coverage
pub mod Verdict
pub mod Words
pub mod Assigned
mod Tests
use Prim.Native.String.{String}
use text.Mathlib.Text.{◌==◌ as str_eq}
use sddiar.Base.{
  ℕ, suc, ◌+◌, ◌-◌, min, max, Bool, true, false, not, ◌&&◌, ◌||◌, Option, none, some, List, [], ◌∷◌,
  ◌++◌, map, Result, ok, err, contract_validation, protected_overlap, ◌>>=◌, ◌>>◌, raise_if, ltb,
  leb, ◌==◌, if◌then◌else◌, keep_if, length,
}
use sddiar.Base.Int.{pos}
use sddiar.Contracts.{range}
use sddiar.Spans.{
  Speaker, speaker_00, speaker_01, unknown, overlap, other, non_speech, is_supported, same_speaker,
  DiarizationSpan,
}

pub record Word : Type 0 where
  pub word_id : String
  pub start_us : ℕ
  pub end_us : ℕ
  pub text : String

-- The floats are written as their multiples of the smallest positive double.
pub record WordMappingConfig : Type 0 where
  pub word_material_speaker_coverage : ℕ
  pub word_min_dominant_coverage : ℕ
  pub word_max_unknown_coverage : ℕ

-- The texts of `attribution_status`, each of which is the only reason code too.
pub data WordStatus : Type 0 where
  timewarp_boundary overlap_unattributed boundary assigned other_speaker : WordStatus
  insufficient_evidence : WordStatus

pub record AttributedWord : Type 0 where
  pub word : Word
  pub speaker_id : Speaker
  pub attribution_status : WordStatus
  pub supporting_span_ids : List String
  pub speaker_coverage_ratio : Option ℕ
  pub competing_speaker_coverage_ratio : Option ℕ

-- What `map_word` decides of a word.
pub record Decision : Type 0 where
  pub speaker : Speaker
  pub status : WordStatus
  pub coverage : Option ℕ
  pub competing : Option ℕ

abbrev pub is_unattributed : WordStatus → Bool
is_unattributed overlap_unattributed = true
is_unattributed _ = false

-- `_build_attributed` with `AttributedWord.__post_init__`; the checks of the text and of the
-- confidence repeat those of the given word.
unfoldable pub build_attributed : Word → List DiarizationSpan → Decision → Result AttributedWord
build_attributed w evidence d = do
  (s, e) ← range (pos w.start_us) (pos w.end_us)
  raise_if (not (is_supported d.speaker)) contract_validation
  raise_if (same_speaker d.speaker overlap && not (is_unattributed d.status)) protected_overlap
  ok (record {
    word = w;
    speaker_id = d.speaker;
    attribution_status = d.status;
    supporting_span_ids = map (λ (s : DiarizationSpan). s.span_id) evidence;
    speaker_coverage_ratio = d.coverage;
    competing_speaker_coverage_ratio = d.competing;
  })

-- `_overlap`, whose `max` with 0 is the subtraction on natural numbers
abbrev pub overlap_of : Word → DiarizationSpan → ℕ
overlap_of w s = min w.end_us s.end_us - max w.start_us s.start_us

abbrev pub touches : Word → DiarizationSpan → Bool
touches w s = ltb 0 (overlap_of w s)

abbrev pub is_protected : DiarizationSpan → Bool
is_protected s =
    same_speaker s.speaker_id overlap
    || (str_eq s.attribution_status "OVERLAP" || str_eq s.attribution_status "OVERLAP_UNATTRIBUTED")

-- The loop that computes `overlap_us`
unfoldable pub overlap_loop : Word → ℕ → List DiarizationSpan → ℕ
overlap_loop w longest [] = longest
overlap_loop w longest (s ∷ evidence) =
    overlap_loop w (if is_protected s then max longest (overlap_of w s) else longest) evidence

-- The dict `coverage` as a function: `none` is a missing label.
abbrev pub Labelled : Type 0
Labelled = Speaker → Option ℕ

abbrev pub or_zero : Option ℕ → ℕ
or_zero none = 0
or_zero (some n) = n

abbrev pub add_coverage : Word → Labelled → DiarizationSpan → Labelled
add_coverage w found s label =
    if same_speaker s.speaker_id label
    then some (or_zero (found label) + overlap_of w s)
    else found label

unfoldable pub coverage_loop : Word → Labelled → List DiarizationSpan → Labelled
coverage_loop w found [] label = found label
coverage_loop w found (s ∷ evidence) label = coverage_loop w (add_coverage w found s) evidence label

-- `divide` is the division of two integers into a float.
module _ (divide : ℕ → ℕ → ℕ) where
  abbrev pub quotient_of : ℕ → Option ℕ → Option ℕ
  quotient_of duration none = none
  quotient_of duration (some n) = some (divide n duration)

abbrev pub entry : Speaker → Option ℕ → List (Speaker × ℕ)
entry label none = []
entry label (some r) = (label, r) ∷ []

-- The dict `speakers`. Its order is that of the labels: no value below depends on it.
abbrev pub speakers_of : Option ℕ → Option ℕ → List (Speaker × ℕ)
speakers_of first second = entry speaker_00 first ++ entry speaker_01 second

-- Whether the key `(ratio, label == "SPEAKER_00")` of the second is greater.
abbrev pub is_better : Speaker × ℕ → Speaker × ℕ → Bool
is_better (k, r) (l, q) =
    ltb r q || (r == q && (not (same_speaker k speaker_00) && same_speaker l speaker_00))

unfoldable pub best_of : Speaker × ℕ → List (Speaker × ℕ) → Speaker × ℕ
best_of best [] = best
best_of best (x ∷ rest) = best_of (if is_better best x then x else best) rest

-- `max(..., default=0.0)` of the ratios, and `min` of ratios none of which is above `low`
unfoldable pub highest : ℕ → List (Speaker × ℕ) → ℕ
highest high [] = high
highest high (x ∷ rest) = highest (max high x.1) rest

unfoldable pub lowest : ℕ → List (Speaker × ℕ) → ℕ
lowest low [] = low
lowest low (x ∷ rest) = lowest (min low x.1) rest

abbrev pub material_of : WordMappingConfig → List (Speaker × ℕ) → List (Speaker × ℕ)
material_of cfg speakers = keep_if (λ x. leb cfg.word_material_speaker_coverage x.1) speakers

-- The branch of two material speakers, whose dict is not empty.
abbrev pub boundary_decision : List (Speaker × ℕ) → Decision
boundary_decision speakers = record {
  speaker = unknown;
  status = boundary;
  coverage = some (highest 0 speakers);
  competing = some (lowest (highest 0 speakers) speakers);
}

-- The last two branches.
abbrev pub rest_decision : List (Speaker × ℕ) → Option ℕ → Decision
rest_decision [] (some (suc r)) = record {
  speaker = other;
  status = other_speaker;
  coverage = some (suc r);
  competing = none;
}
rest_decision speakers others = record {
  speaker = unknown;
  status = insufficient_evidence;
  coverage = some (highest 0 speakers);
  competing = none;
}

abbrev pub others_than : Speaker → List (Speaker × ℕ) → List (Speaker × ℕ)
others_than label speakers = keep_if (λ x. not (same_speaker x.0 label)) speakers

-- The branch of a dict that is not empty, given its best entry.
abbrev pub best_decision :
    WordMappingConfig → List (Speaker × ℕ) → ℕ → Option ℕ → Speaker × ℕ → Decision
best_decision cfg speakers unknown_ratio others (label, ratio) =
    if leb cfg.word_min_dominant_coverage ratio && leb unknown_ratio cfg.word_max_unknown_coverage
    then record {
      speaker = label;
      status = assigned;
      coverage = some ratio;
      competing = some (highest 0 (others_than label speakers));
    }
    else rest_decision speakers others

abbrev pub dominant_decision : WordMappingConfig → List (Speaker × ℕ) → ℕ → Option ℕ → Decision
dominant_decision cfg [] unknown_ratio others = rest_decision [] others
dominant_decision cfg (x ∷ rest) unknown_ratio others =
    best_decision cfg (x ∷ rest) unknown_ratio others (best_of x rest)

-- The decision from the ratios.
unfoldable pub decide_speakers : WordMappingConfig → List (Speaker × ℕ) → ℕ → Option ℕ → Decision
decide_speakers cfg speakers unknown_ratio others =
    if leb 2 (length (material_of cfg speakers))
    then boundary_decision speakers
    else dominant_decision cfg speakers unknown_ratio others

abbrev pub timewarp_decision : Decision
timewarp_decision = record {
  speaker = unknown;
  status = timewarp_boundary;
  coverage = none;
  competing = none;
}

abbrev pub overlap_decision : Decision
overlap_decision = record {
  speaker = overlap;
  status = overlap_unattributed;
  coverage = none;
  competing = none;
}

-- `malformed`, for a word whose times are integers
abbrev pub malformed : Word → Bool
malformed w = leb w.end_us w.start_us

abbrev pub evidence_of : Word → List DiarizationSpan → List DiarizationSpan
evidence_of w spans = if malformed w then [] else keep_if (touches w) spans

-- `plus` is the addition of two floats.
module _ (divide plus : ℕ → ℕ → ℕ) where
  unfoldable pub decide_covered : WordMappingConfig → Word → List DiarizationSpan → Decision
  decide_covered cfg w evidence =
      let found = coverage_loop w (λ label. none) evidence in
      let ratio = λ (label : Speaker). quotient_of divide (w.end_us - w.start_us) (found label) in
      decide_speakers cfg (speakers_of (ratio speaker_00) (ratio speaker_01))
        (plus (or_zero (ratio unknown)) (or_zero (ratio non_speech))) (ratio other)

  unfoldable pub decide_word : WordMappingConfig → Word → List DiarizationSpan → Bool → Decision
  decide_word cfg w evidence crosses =
      if malformed w || crosses
      then timewarp_decision
      else if ltb 0 (overlap_loop w 0 evidence)
      then overlap_decision
      else decide_covered cfg w evidence

  -- `map_word`; `crosses` is the provenance's `crosses_timewarp_boundary`.
  unfoldable pub map_word :
      WordMappingConfig → Word → List DiarizationSpan → Bool → Result AttributedWord
  map_word cfg w spans crosses =
      build_attributed w (evidence_of w spans) (decide_word cfg w (evidence_of w spans) crosses)

  -- `map_words`; `provenance` is the lookup of a word's flag.
  unfoldable pub map_words :
      WordMappingConfig
      → (String → Bool)
      → List DiarizationSpan
      → List Word
      → Result (List AttributedWord)
  map_words cfg provenance spans [] = ok []
  map_words cfg provenance spans (w ∷ words) = do
    first ← map_word cfg w spans (provenance w.word_id)
    later ← map_words cfg provenance spans words
    ok (first ∷ later)
