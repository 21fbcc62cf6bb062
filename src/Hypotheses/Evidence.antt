-- ===== src/Hypotheses/Evidence.antt =====
-- The evidence for and against two speakers: stability, interleaving and a third speaker.
use Prim.Native.String.{String}
use text.Mathlib.Text.{◌==◌ as str_eq}
use sddiar.Base.{
  ℕ, ◌-◌, ◌/◌, ◌%◌, Bool, true, false, not, ◌&&◌, ◌||◌, Option, none, some, List, [], ◌∷◌, ◌++◌,
  map, keep_if, length, any, Result, ok, ◌>>=◌, map_each, if◌then◌else◌, ltb, ◌==◌,
}
use sddiar.Base.Sort.{sort}
use sddiar.Floats.{Floats, min_float}
use sddiar.Tracklets.{DiarizationConfig}
use sddiar.Assignment.Vectors.{cosine_distance, weighted_centroid}
use sddiar.Hypotheses.{AnchorEvidence, SpeakerHypothesis, last_value, distinct, str_le}
use sddiar.Hypotheses.Fit.{elem_at, weights_of, weighted, nearest_center, dispersion_of}
use sddiar.Hypotheses.Seeds.{take_first, fit_h2_once}

-- `hypothesis.anchor_labels.get(anchor.tracklet_id)`
abbrev pub label_of : {F : Type 0} → SpeakerHypothesis F → AnchorEvidence F → Option ℕ
label_of h a = last_value a.tracklet_id none h.anchor_labels

abbrev pub same_label : Option ℕ → Option ℕ → Bool
same_label none none = true
same_label (some a) (some b) = a == b
same_label _ _ = false

abbrev pub is_labelled : Option ℕ → Bool
is_labelled none = false
is_labelled (some label) = true

-- `mapping[label]` for the mapping `(0, 1)` or `(1, 0)`
abbrev pub mapped : Bool → ℕ → ℕ
mapped swapped label = if swapped then 1 - label else label

abbrev pub mapped_label : Bool → Option ℕ → Option ℕ
mapped_label swapped none = none
mapped_label swapped (some label) = some (mapped swapped label)

module _ {F : Type 0} (floats : Floats F) where
  abbrev pub center_distance : SpeakerHypothesis F → ℕ → SpeakerHypothesis F → ℕ → Result F
  center_distance x i y j = do
    left ← elem_at x.centers i
    right ← elem_at y.centers j
    cosine_distance floats left right

  -- `_permutation`: whether the clusters are swapped
  unfoldable pub is_swapped : SpeakerHypothesis F → SpeakerHypothesis F → Result Bool
  is_swapped base candidate = do
    zero_zero ← center_distance base 0 candidate 0
    one_one ← center_distance base 1 candidate 1
    zero_one ← center_distance base 0 candidate 1
    one_zero ← center_distance base 1 candidate 0
    ok (not (floats.leb (floats.add zero_zero one_one) (floats.add zero_one one_zero)))

  -- `statistics.median(xs) if xs else 0.0`
  abbrev pub le_float : F → F → Bool
  le_float x y = not (floats.lt y x)

  unfoldable pub median_or_zero : List F → Result F
  median_or_zero [] = ok floats.zero
  median_or_zero (x ∷ xs) =
      let sorted = sort le_float (x ∷ xs) in
      let count = length sorted in
      if count % 2 == 1 then elem_at sorted (count / 2) else (do
        low ← elem_at sorted (count / 2 - 1)
        high ← elem_at sorted (count / 2)
        ok (floats.div (floats.add low high) (floats.of_int 2)))

  abbrev pub agreement :
      SpeakerHypothesis F → SpeakerHypothesis F → Bool → List (AnchorEvidence F) → F
  agreement base refit swapped [] = floats.zero
  agreement base refit swapped (a ∷ common) =
      let matched =
        keep_if (λ b. same_label (label_of base b) (mapped_label swapped (label_of refit b)))
          (a ∷ common) in
      floats.div (weights_of floats matched) (weights_of floats (a ∷ common))

  -- The agreement and the similarity without one block.
  unfoldable pub compare_refit :
      SpeakerHypothesis F → List (AnchorEvidence F) → SpeakerHypothesis F → Result (F × F)
  compare_refit base subset refit =
      if not refit.is_valid then ok (floats.zero, floats.zero) else (do
        swapped ← is_swapped base refit
        let common =
            keep_if (λ a. is_labelled (label_of base a) && is_labelled (label_of refit a)) subset
        first ← center_distance base 0 refit (mapped swapped 0)
        second ← center_distance base 1 refit (mapped swapped 1)
        ok (
          agreement base refit swapped common,
          min_float floats (floats.sub floats.one first) (floats.sub floats.one second),
        ))

  unfoldable pub without_blocks :
      SpeakerHypothesis F
      → List (AnchorEvidence F)
      → DiarizationConfig F
      → List String
      → Result (List (F × F))
  without_blocks base anchors cfg [] = ok []
  without_blocks base anchors cfg (block ∷ blocks) = do
    let subset = keep_if (λ a. not (str_eq a.independent_block_id block)) anchors
    own ←
        (if ltb (length subset) 2 then ok [] else (do
          refit ← fit_h2_once floats subset cfg
          compared ← compare_refit base subset refit
          ok (compared ∷ [])))
    later ← without_blocks base anchors cfg blocks
    ok (own ++ later)

  -- `_stability`
  unfoldable pub stability :
      SpeakerHypothesis F → List (AnchorEvidence F) → DiarizationConfig F → Result (F × F)
  stability base anchors cfg = do
    let blocks = sort str_le (distinct (map (λ a. a.independent_block_id) anchors))
    compared ← without_blocks base anchors cfg (take_first cfg.max_stability_blocks blocks)
    labels ← median_or_zero (map (λ c. c.0) compared)
    centers ← median_or_zero (map (λ c. c.1) compared)
    ok (labels, centers)

  -- `left == a and right == b` for some neighbours
  abbrev pub has_switch : ℕ → ℕ → List (Option ℕ) → Bool
  has_switch a b (left ∷ right ∷ labels) =
      (same_label left (some a) && same_label right (some b)) || has_switch a b (right ∷ labels)
  has_switch a b _ = false

  abbrev pub or_zero_evidence : Option F → F
  or_zero_evidence none = floats.zero
  or_zero_evidence (some x) = x

  abbrev pub has_conflict :
      SpeakerHypothesis F → DiarizationConfig F → List (AnchorEvidence F) → Bool
  has_conflict base cfg (left ∷ right ∷ anchors) =
      (str_eq left.continuity_group_id right.continuity_group_id
        && (not (same_label (label_of base left) (label_of base right))
            && floats.lt (or_zero_evidence right.scd_evidence_before) cfg.scd_support_min))
      || has_conflict base cfg (right ∷ anchors)
  has_conflict base cfg _ = false

  abbrev pub le_anchor : AnchorEvidence F → AnchorEvidence F → Bool
  le_anchor x y =
      ltb x.start_us y.start_us
      || (x.start_us == y.start_us
          && (ltb x.end_us y.end_us
              || (x.end_us == y.end_us && str_le x.tracklet_id y.tracklet_id)))

  -- `_temporal_evidence`
  unfoldable pub temporal_evidence :
      SpeakerHypothesis F → List (AnchorEvidence F) → DiarizationConfig F → Bool × Bool
  temporal_evidence base anchors cfg =
      let ordered = sort le_anchor (keep_if (λ a. is_labelled (label_of base a)) anchors) in
      let labels = map (label_of base) ordered in
      (has_switch 0 1 labels && has_switch 1 0 labels, has_conflict base cfg ordered)

  abbrev pub min_of : List F → Result F
  min_of values = nearest_center floats values >>= (λ best. ok best.1)

  unfoldable pub residuals_of :
      SpeakerHypothesis F
      → DiarizationConfig F
      → List (AnchorEvidence F)
      → Result (List (AnchorEvidence F))
  residuals_of base cfg [] = ok []
  residuals_of base cfg (a ∷ anchors) = do
    distances ← map_each (λ center. cosine_distance floats a.vector center) base.centers
    nearest_distance ← min_of distances
    later ← residuals_of base cfg anchors
    ok (
        if floats.lt cfg.third_risk_residual_distance_min nearest_distance
        then a ∷ later
        else later)

  -- `_third_speaker_risk`
  unfoldable pub third_risk_of :
      SpeakerHypothesis F → List (AnchorEvidence F) → DiarizationConfig F → Result Bool
  third_risk_of base anchors cfg = do
    residuals ← residuals_of base cfg anchors
    if ltb (length (distinct (map (λ a. a.independent_block_id) residuals))) 2
        then ok false
        else (do
          center ← weighted_centroid floats (map (weighted floats) residuals)
          dispersion ← dispersion_of floats center residuals
          separations ← map_each (cosine_distance floats center) base.centers
          ok (
              floats.leb dispersion cfg.third_risk_max_dispersion
              && not (any (λ s. not (floats.leb cfg.third_risk_min_separation s)) separations)))
