-- ===== src/Attribution/Coverage.antt =====
-- The loops over the evidence, as sums over all spans.
use sddiar.Base.{
  ℕ, ◌+◌, max, ◌≡◌, refl, ◌∙◌, Bool, ◌&&◌, ◌||◌, none, List, [], ◌∷◌, arith, ltb, if◌then◌else◌,
  any, sum_of, keep_if,
}
use sddiar.Spans.{Speaker, same_speaker, DiarizationSpan}
use sddiar.Attribution.{
  Word, overlap_of, touches, is_protected, overlap_loop, Labelled, or_zero, add_coverage,
  coverage_loop,
}

-- The microseconds of a word that spans with a label hold.
abbrev pub held : Speaker → Word → DiarizationSpan → ℕ
held label w s = if same_speaker s.speaker_id label then overlap_of w s else 0

abbrev pub spoken : Speaker → Word → List DiarizationSpan → ℕ
spoken label w spans = sum_of (λ s. held label w s) spans

or_zero-coverage_loop :
    (w : Word) (label : Speaker) (found : Labelled) (evidence : List DiarizationSpan)
    → or_zero (coverage_loop w found evidence label)
      ≡ or_zero (found label) + spoken label w evidence
unfolding coverage_loop
or_zero-coverage_loop w label found [] = omega arith
or_zero-coverage_loop w label found (s ∷ evidence) =
    ground (arith, or_zero-coverage_loop w label (add_coverage w found s) evidence)

spoken-keep_if :
    (label : Speaker) (w : Word) (spans : List DiarizationSpan)
    → spoken label w (keep_if (touches w) spans) ≡ spoken label w spans
unfolding keep_if
spoken-keep_if label w [] = refl
spoken-keep_if label w (s ∷ spans) = ground (arith, spoken-keep_if label w spans)

-- The coverage of a label is the time that its spans share with the word.
pub coverage-spoken :
    (w : Word) (label : Speaker) (spans : List DiarizationSpan)
    → or_zero (coverage_loop w (λ l. none) (keep_if (touches w) spans) label) ≡ spoken label w spans
coverage-spoken w label spans = omega (
  arith,
  or_zero-coverage_loop w label (λ l. none) (keep_if (touches w) spans),
  spoken-keep_if label w spans,
)

-- Whether a protected span shares time with the word.
abbrev pub meets_protected : Word → List DiarizationSpan → Bool
meets_protected w spans = any (λ s. touches w s && is_protected s) spans

overlap_loop-any :
    (w : Word) (n : ℕ) (evidence : List DiarizationSpan)
    → ltb 0 (overlap_loop w n evidence) ≡ (ltb 0 n || meets_protected w evidence)
unfolding overlap_loop
overlap_loop-any w n [] = ground arith
overlap_loop-any w n (s ∷ evidence) =
    ground
      (arith, overlap_loop-any w (if is_protected s then max n (overlap_of w s) else n) evidence)

any-keep_if :
    (w : Word) (spans : List DiarizationSpan)
    → meets_protected w (keep_if (touches w) spans) ≡ meets_protected w spans
unfolding keep_if
any-keep_if w [] = refl
any-keep_if w (s ∷ spans) = ground (arith, any-keep_if w spans)

pub overlap_loop-meets :
    (w : Word) (spans : List DiarizationSpan)
    → ltb 0 (overlap_loop w 0 (keep_if (touches w) spans)) ≡ meets_protected w spans
overlap_loop-meets w spans = overlap_loop-any w 0 (keep_if (touches w) spans) ∙ any-keep_if w spans
