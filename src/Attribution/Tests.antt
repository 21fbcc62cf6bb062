-- ===== src/Attribution/Tests.antt =====
-- Runs of the word mapping, and instances of its theorems.
use Prim.Native.String.{String}
use sddiar.Base.{
  ℕ, ◌+◌, ◌*◌, ◌/◌, ◌≡◌, refl, Bool, true, false, not, ◌&&◌, Option, none, some, List, [], ◌∷◌, ok,
  err, arith, contract_validation,
}
use sddiar.Spans.{
  Speaker, speaker_00, speaker_01, unknown, overlap, other, same_speaker, DiarizationSpan,
}
use sddiar.Attribution.{
  Word, WordMappingConfig, AttributedWord, WordStatus, assigned, boundary, overlap_unattributed,
  timewarp_boundary, other_speaker, insufficient_evidence, is_unattributed, map_word, map_words,
  decide_word, decide_covered, decide_speakers, build_attributed, overlap_loop, coverage_loop,
  best_of, highest, lowest,
}
use sddiar.Attribution.Coverage.{meets_protected}
use sddiar.Attribution.Words.{map_word_malformed, map_word_total}
use sddiar.Attribution.Assigned.{IsAssigned, map_word-IsAssigned}

-- Ratios in percent.
abbrev percent : ℕ → ℕ → ℕ
percent a b = (100 * a) / b

abbrev sum : ℕ → ℕ → ℕ
sum a b = a + b

abbrev config : WordMappingConfig
config = record {
  word_material_speaker_coverage = 20;
  word_min_dominant_coverage = 80;
  word_max_unknown_coverage = 20;
}

abbrev word : Word
word = record { word_id = "w"; start_us = 100; end_us = 200; text = "yes" }

abbrev span : String → ℕ → ℕ → Speaker → DiarizationSpan
span id a b speaker = record {
  span_id = id;
  start_us = a;
  end_us = b;
  speaker_id = speaker;
  attribution_status = "ASSIGNED";
  evidence_ids = [];
  reason_codes = [];
}

abbrev result : Speaker → WordStatus → List String → Option ℕ → Option ℕ → AttributedWord
result speaker status ids coverage competing = record {
  word = word;
  speaker_id = speaker;
  attribution_status = status;
  supporting_span_ids = ids;
  speaker_coverage_ratio = coverage;
  competing_speaker_coverage_ratio = competing;
}

-- Two spans of one speaker, and a little of the other.
abbrev mostly : List DiarizationSpan
mostly =
    span "a" 0 150 speaker_00
    ∷ span "b" 150 185 speaker_00
    ∷ span "c" 185 300 speaker_01
    ∷ span "d" 300 400 speaker_01
    ∷ []

assigned_word :
    map_word percent sum config word mostly false
    ≡ ok (result speaker_00 assigned ("a" ∷ "b" ∷ "c" ∷ []) (some 85) (some 15))
unfolding map_words map_word decide_word decide_covered decide_speakers build_attributed
    overlap_loop coverage_loop best_of highest lowest sddiar.Base.keep_if sddiar.Contracts.range
assigned_word = refl

boundary_word :
    map_word percent sum config word
      (span "a" 0 150 speaker_01 ∷ span "b" 150 300 speaker_00 ∷ [])
      false
    ≡ ok (result unknown boundary ("a" ∷ "b" ∷ []) (some 50) (some 50))
unfolding map_words map_word decide_word decide_covered decide_speakers build_attributed
    overlap_loop coverage_loop best_of highest lowest sddiar.Base.keep_if sddiar.Contracts.range
boundary_word = refl

-- One microsecond of protected overlap is enough.
overlap_word :
    map_word percent sum config word (span "o" 199 300 overlap ∷ mostly) false
    ≡ ok (result overlap overlap_unattributed ("o" ∷ "a" ∷ "b" ∷ "c" ∷ []) none none)
unfolding map_words map_word decide_word decide_covered decide_speakers build_attributed
    overlap_loop coverage_loop best_of highest lowest sddiar.Base.keep_if sddiar.Contracts.range
overlap_word = refl

crossing_word :
    map_word percent sum config word (span "o" 199 300 overlap ∷ []) true
    ≡ ok (result unknown timewarp_boundary ("o" ∷ []) none none)
unfolding map_words map_word decide_word decide_covered decide_speakers build_attributed
    overlap_loop coverage_loop best_of highest lowest sddiar.Base.keep_if sddiar.Contracts.range
crossing_word = refl

other_word :
    map_word percent sum config word (span "x" 0 300 other ∷ []) false
    ≡ ok (result other other_speaker ("x" ∷ []) (some 100) none)
unfolding map_words map_word decide_word decide_covered decide_speakers build_attributed
    overlap_loop coverage_loop best_of highest lowest sddiar.Base.keep_if sddiar.Contracts.range
other_word = refl

lonely_words :
    map_words percent sum config (λ id. false) [] (word ∷ [])
    ≡ ok (result unknown insufficient_evidence [] (some 0) none ∷ [])
unfolding map_words map_word decide_word decide_covered decide_speakers build_attributed
    overlap_loop coverage_loop best_of highest lowest sddiar.Base.keep_if sddiar.Contracts.range
lonely_words = refl

empty_word :
    map_word percent sum config (record word { end_us = 100 }) mostly false
    ≡ err contract_validation
unfolding map_words map_word decide_word decide_covered decide_speakers build_attributed
    overlap_loop coverage_loop best_of highest lowest sddiar.Base.keep_if sddiar.Contracts.range
empty_word = refl

map_word_total_example :
    (out : AttributedWord) × (map_word percent sum config word mostly false ≡ ok out)
    × (is_unattributed out.attribution_status ≡ (not false && meets_protected word mostly))
    × (same_speaker out.speaker_id overlap ≡ (not false && meets_protected word mostly))
map_word_total_example =
    map_word_total percent sum config word mostly false (omega arith) (omega arith)

map_word-IsAssigned_example :
    (false ≡ false)
    × (meets_protected word mostly ≡ false)
    × IsAssigned percent sum config word mostly
        (result speaker_00 assigned ("a" ∷ "b" ∷ "c" ∷ []) (some 85) (some 15))
map_word-IsAssigned_example =
    map_word-IsAssigned percent sum config word mostly false
      (result speaker_00 assigned ("a" ∷ "b" ∷ "c" ∷ []) (some 85) (some 15)) (omega arith)
      (omega arith) assigned_word refl

map_word_malformed_example :
    ((decide_word percent sum config (record word { end_us = 100 }) [] false).status
      ≡ timewarp_boundary)
    × (map_word percent sum config (record word { end_us = 100 }) mostly false
        ≡ err contract_validation)
map_word_malformed_example =
    map_word_malformed percent sum config (record word { end_us = 100 }) mostly false (omega arith)
