-- ===== src/DiarizationError.antt =====
-- src/sddiar/evaluation.py: the diarization error of the cells of a timeline, in speaker
-- microseconds, and the mapping of the speaker labels.
pub mod Accounting
pub mod Mapping
pub mod OneToOne
pub mod Speakers
pub mod Scored
mod Tests
use Prim.Native.String.{String, compare as compare_str}
use text.Mathlib.Text.{◌==◌ as str_eq, is_le}
use sddiar.Base.{
  ℕ, ◌+◌, ◌-◌, ◌*◌, min, Bool, true, false, not, ◌&&◌, ◌||◌, Option, none, some, List, [], ◌∷◌,
  ◌++◌, map, length, sum_of, any, keep_if, Result, ok, err, evaluation, ◌>>=◌, ◌>>◌, raise_if, ltb,
  leb, ◌==◌, if◌then◌else◌, zero, suc,
}
use sddiar.Base.Sort.{sort}

-- `_Cell`; the labels of a set are distinct.
pub record TimelineCell : Type 0 where
  pub start_us : ℕ
  pub end_us : ℕ
  pub reference_speakers : List String
  pub hypothesis_speakers : List String
  pub reference_overlap_label : Bool
  pub hypothesis_overlap_label : Bool

abbrev pub duration_of : TimelineCell → ℕ
duration_of c = c.end_us - c.start_us

abbrev pub label_in : String → List String → Bool
label_in label labels = any (λ l. str_eq l label) labels

-- `mapping.get(label)`
abbrev pub mapped_to : List (String × String) → String → Option String
mapped_to [] label = none
mapped_to ((key, value) ∷ mapping) label =
    if str_eq key label then some value else mapped_to mapping label

-- `value in refs`, where `None` is in no set
abbrev pub some_in : Option String → List String → Bool
some_in none labels = false
some_in (some label) labels = label_in label labels

abbrev pub count_if : (String → Bool) → List String → ℕ
count_if test labels = sum_of (λ l. if test l then 1 else 0) labels

-- `correct`
abbrev pub correct_of : List (String × String) → TimelineCell → ℕ
correct_of mapping c =
    count_if (λ h. some_in (mapped_to mapping h) c.reference_speakers) c.hypothesis_speakers

-- The integers of `ErrorComponents`.
pub record ErrorSums : Type 0 where
  pub scored_uem_us : ℕ
  pub reference_speaker_us : ℕ
  pub miss_us : ℕ
  pub false_alarm_us : ℕ
  pub confusion_us : ℕ

-- `if nonoverlap_only and len(refs) > 1: continue`
abbrev pub is_skipped : Bool → TimelineCell → Bool
is_skipped nonoverlap_only c = nonoverlap_only && ltb 1 (length c.reference_speakers)

abbrev pub add_counted : List (String × String) → TimelineCell → ErrorSums → ErrorSums
add_counted mapping c sums =
    let references = length c.reference_speakers in
    let hypotheses = length c.hypothesis_speakers in
    record {
      scored_uem_us = sums.scored_uem_us + duration_of c;
      reference_speaker_us = sums.reference_speaker_us + references * duration_of c;
      miss_us = sums.miss_us + (references - hypotheses) * duration_of c;
      false_alarm_us = sums.false_alarm_us + (hypotheses - references) * duration_of c;
      confusion_us =
          sums.confusion_us + (min references hypotheses - correct_of mapping c) * duration_of c;
    }

-- The loop of `_error_components`, with the sums so far. `min - correct` is not negative for a
-- mapping that is one to one on the labels of each cell.
unfoldable pub error_loop :
    List (String × String) → Bool → ErrorSums → List TimelineCell → ErrorSums
error_loop mapping nonoverlap_only sums [] = sums
error_loop mapping nonoverlap_only sums (c ∷ cells) =
    error_loop mapping nonoverlap_only
      (if is_skipped nonoverlap_only c then sums else add_counted mapping c sums) cells

abbrev pub no_sums : ErrorSums
no_sums = record {
  scored_uem_us = 0;
  reference_speaker_us = 0;
  miss_us = 0;
  false_alarm_us = 0;
  confusion_us = 0;
}

-- `_error_components`, with `errors` and its ratio; `quotient` is the division of integers to a
-- float.
pub record ErrorComponents (F : Type 0) : Type 0 where
  pub sums : ErrorSums
  pub der : F

-- `_ratio`
abbrev pub ratio {ℓ} : {F : Type ℓ} → (ℕ → ℕ → F) → F → ℕ → ℕ → F
ratio quotient zero_ratio numerator denominator =
    if denominator == 0 then zero_ratio else quotient numerator denominator

unfoldable pub error_components :
    {F : Type 0}
    → (ℕ → ℕ → F)
    → F
    → List TimelineCell
    → List (String × String)
    → Bool
    → ErrorComponents F
error_components quotient zero_ratio cells mapping nonoverlap_only =
    let sums = error_loop mapping nonoverlap_only no_sums cells in
    let errors = sums.miss_us + sums.false_alarm_us + sums.confusion_us in
    record { sums = sums; der = ratio quotient zero_ratio errors sums.reference_speaker_us }

-- `sorted({...})` of the labels of all cells
unfoldable pub distinct_labels : List String → List String → List String
distinct_labels seen [] = []
distinct_labels seen (l ∷ labels) =
    let rest = distinct_labels (l ∷ seen) labels in if label_in l seen then rest else l ∷ rest

abbrev pub str_le : String → String → Bool
str_le a b = is_le (compare_str a b)

abbrev pub labels_of : (TimelineCell → List String) → List TimelineCell → List String
labels_of side [] = []
labels_of side (c ∷ cells) = side c ++ labels_of side cells

abbrev pub speakers_on : (TimelineCell → List String) → List TimelineCell → List String
speakers_on side cells = sort str_le (distinct_labels [] (labels_of side cells))

-- `cooccurrence[(hyp, ref)]`
unfoldable pub cooccurrence : List TimelineCell → String × String → ℕ
cooccurrence cells (hyp, ref) =
    sum_of
      (λ c.
        if label_in hyp c.hypothesis_speakers && label_in ref c.reference_speakers
        then duration_of c
        else 0)
      cells

module _ {A : Type 0} where
  -- An element and the others, for each element.
  unfoldable pub picks : List A → List (A × List A)
  picks [] = []
  picks (x ∷ xs) = (x, xs) ∷ map (λ p. (p.0, x ∷ p.1)) (picks xs)

  abbrev pub prefixed : A → List (List A) → List (List A)
  prefixed x lists = map (λ xs. x ∷ xs) lists

  abbrev pub each_pick : (List A → List (List A)) → List (A × List A) → List (List A)
  each_pick rest [] = []
  each_pick rest ((x, others) ∷ others_picks) =
      prefixed x (rest others) ++ each_pick rest others_picks

  -- `permutations(xs, n)`
  unfoldable pub permutations : ℕ → List A → List (List A)
  unfolding picks
  permutations zero xs = [] ∷ []
  permutations (suc n) xs = each_pick (permutations n) (picks xs)

  -- `zip(xs, ys)`
  abbrev pub pairs_of : List A → List A → List (A × A)
  pairs_of (x ∷ xs) (y ∷ ys) = (x, y) ∷ pairs_of xs ys
  pairs_of _ _ = []

abbrev pub total_of : List TimelineCell → List (String × String) → ℕ
total_of cells pairs = sum_of (cooccurrence cells) pairs

abbrev pub lt_string : String → String → Bool
lt_string a b = not (str_le b a)

abbrev pub lt_pair : String × String → String × String → Bool
lt_pair x y = lt_string x.0 y.0 || (not (lt_string y.0 x.0) && lt_string x.1 y.1)

abbrev pub lt_pairs : List (String × String) → List (String × String) → Bool
lt_pairs xs [] = false
lt_pairs [] (y ∷ ys) = true
lt_pairs (x ∷ xs) (y ∷ ys) = lt_pair x y || (not (lt_pair y x) && lt_pairs xs ys)

-- The key `(-total, pairs)`
abbrev pub is_better_pairing :
    List TimelineCell → List (String × String) → List (String × String) → Bool
is_better_pairing cells x y =
    ltb (total_of cells y) (total_of cells x)
    || (total_of cells x == total_of cells y && lt_pairs x y)

unfoldable pub best_pairing :
    List TimelineCell
    → List (String × String)
    → List (List (String × String))
    → List (String × String)
best_pairing cells best [] = best
best_pairing cells best (x ∷ candidates) =
    best_pairing cells (if is_better_pairing cells x best then x else best) candidates

-- `min(candidates, key=...)`, where there are candidates
unfoldable pub choose_pairing :
    List TimelineCell → List (List (String × String)) → List (String × String)
choose_pairing cells [] = []
choose_pairing cells (x ∷ candidates) = best_pairing cells x candidates

unfoldable pub candidate_pairings : List String → List String → List (List (String × String))
candidate_pairings hyps refs =
    if leb (length hyps) (length refs)
    then map (λ chosen. pairs_of hyps chosen) (permutations (length hyps) refs)
    else map (λ chosen. sort (λ x y. not (lt_pair y x)) (pairs_of chosen refs))
        (permutations (length refs) hyps)

abbrev pub or_no_pairs : List String → List (String × String) → List (String × String)
or_no_pairs [] pairs = []
or_no_pairs (l ∷ labels) pairs = pairs

-- A pair with its cooccurrence is a `SpeakerMapping`.
unfoldable pub mapping_from_cells : List TimelineCell → Result (List ((String × String) × ℕ))
mapping_from_cells cells = do
  let refs = speakers_on (λ c. c.reference_speakers) cells
  let hyps = speakers_on (λ c. c.hypothesis_speakers) cells
  raise_if (ltb 2 (length refs) || ltb 2 (length hyps)) evaluation
  let best = choose_pairing cells (candidate_pairings hyps refs)
  ok (map (λ p. (p, cooccurrence cells p)) (or_no_pairs refs (or_no_pairs hyps best)))
