-- ===== src/Hypotheses/Fit.antt =====
-- `robust_spherical_fit` of src/sddiar/diarization.py: clusters around one or two centers.
use Prim.Native.String.{String}
use sddiar.Base.{
  ℕ, zero, suc, ◌+◌, Bool, true, false, not, ◌&&◌, ◌||◌, Option, none, some, List, [], ◌∷◌, map,
  keep_if, length, sum_of, any, Result, ok, err, contract_validation, index_error, value_error,
  ◌>>=◌, ◌>>◌, raise_if, map_each, if◌then◌else◌, leb, ltb, ◌==◌,
}
use sddiar.Floats.{Floats, min_float}
use sddiar.Tracklets.{DiarizationConfig}
use sddiar.Assignment.Vectors.{unit_vector, cosine_distance, weighted_centroid, check_unit_vector}
use sddiar.Hypotheses.{AnchorEvidence, SpeakerHypothesis, distinct}

-- An anchor with its nearest center and the distance to it.
pub record Placed (F : Type 0) : Type 0 where
  pub anchor : AnchorEvidence F
  pub label : ℕ
  pub distance : F

module _ {ℓ} {A : Type ℓ} where
  -- `xs[index]`
  unfoldable pub elem_at : List A → ℕ → Result A
  elem_at [] index = err index_error
  elem_at (x ∷ xs) zero = ok x
  elem_at (x ∷ xs) (suc index) = elem_at xs index

  -- `range(len(xs))`, from an index on
  abbrev pub indices_from : ℕ → List A → List ℕ
  indices_from index [] = []
  indices_from index (x ∷ xs) = index ∷ indices_from (index + 1) xs

abbrev pub is_empty_group : {A : Type 0} → List A → Bool
is_empty_group [] = true
is_empty_group (x ∷ xs) = false

module _ {F : Type 0} (floats : Floats F) where
  -- `sum(...)`
  unfoldable pub sum_floats : F → List F → F
  sum_floats total [] = total
  sum_floats total (x ∷ xs) = sum_floats (floats.add total x) xs

  -- `min(range(len(values)), key=lambda index: (values[index], index))`, with its value
  abbrev pub nearest_from : ℕ → F → ℕ → List F → ℕ × F
  nearest_from label distance index [] = (label, distance)
  nearest_from label distance index (value ∷ values) =
      if floats.lt value distance
      then nearest_from index value (index + 1) values
      else nearest_from label distance (index + 1) values

  unfoldable pub nearest_center : List F → Result (ℕ × F)
  nearest_center [] = err value_error
  nearest_center (value ∷ values) = ok (nearest_from 0 value 1 values)

  abbrev pub place : List (List F) → AnchorEvidence F → Result (Placed F)
  place centers a = do
    distances ← map_each (λ center. cosine_distance floats a.vector center) centers
    (label, distance) ← nearest_center distances
    ok (record { anchor = a; label = label; distance = distance })

  -- `groups[label]`
  abbrev pub group_of : List (Placed F) → ℕ → List (AnchorEvidence F)
  group_of placed label = map (λ p. p.anchor) (keep_if (λ p. p.label == label) placed)

  abbrev pub weighted : AnchorEvidence F → List F × F
  weighted a = (a.vector, a.weight)

  -- `all(cosine_distance(old, new) <= limit for old, new in zip(...))`
  unfoldable pub has_converged : F → List (List F) → List (List F) → Result Bool
  has_converged limit (old ∷ olds) (new ∷ news) = do
    distance ← cosine_distance floats old new
    rest ← has_converged limit olds news
    ok (floats.leb distance limit && rest)
  has_converged limit _ _ = ok true

  -- The rounds of the loop: `none` for a cluster that has become empty.
  unfoldable pub fit_loop :
      ℕ
      → List (AnchorEvidence F)
      → DiarizationConfig F
      → List (List F)
      → Result (Option (List (List F)))
  fit_loop zero anchors cfg centers = ok (some centers)
  fit_loop (suc rounds) anchors cfg centers = do
    placed ← map_each (place centers) anchors
    let groups = map (group_of placed) (indices_from 0 centers)
    if any is_empty_group groups then ok none else (do
      updated ← map_each (λ group. weighted_centroid floats (map weighted group)) groups
      converged ← has_converged cfg.centroid_convergence centers updated
      let next = fit_loop rounds anchors cfg updated
      if converged then ok (some updated) else next)

  -- `SpeakerHypothesis(...)` with `__post_init__`
  unfoldable pub check_centers : SpeakerHypothesis F → Result (Unit {0})
  check_centers h = do
    raise_if (not (length h.centers == h.k)) contract_validation
    map_each (check_unit_vector floats) h.centers >>= (λ done. ok tt)

  unfoldable pub checked_hypothesis : SpeakerHypothesis F → Result (SpeakerHypothesis F)
  checked_hypothesis h = do
    raise_if (not (h.k == 1 || h.k == 2)) contract_validation
    (if h.is_valid then check_centers h else ok tt)
    raise_if (not (floats.finite h.robust_cost)) contract_validation
    raise_if (not (floats.finite h.total_cost)) contract_validation
    raise_if (not (floats.finite h.outlier_ratio)) contract_validation
    ok h

  -- `_invalid_hypothesis`
  unfoldable pub invalid_hypothesis : ℕ → String → Result (SpeakerHypothesis F)
  invalid_hypothesis k reason = checked_hypothesis (record {
    k = k;
    centers = [];
    anchor_labels = [];
    is_valid = false;
    valid_constraints = false;
    robust_cost = floats.huge;
    total_cost = floats.huge;
    outlier_ratio = floats.zero;
    cluster_dispersion = [];
    clean_duration_us = [];
    independent_anchor_count = [];
    cluster_support_ok = false;
    dispersion_ok = false;
    outlier_ratio_ok = false;
    third_speaker_risk = false;
    separation = none;
    label_stability = none;
    centroid_stability = none;
    temporal_interleaving = none;
    continuous_speech_conflict = none;
    reason_codes = reason ∷ [];
  })

  -- `_assign`: the inliers of a cluster, and the labels
  abbrev pub is_inlier : DiarizationConfig F → Placed F → Bool
  is_inlier cfg p = floats.leb p.distance cfg.anchor_outlier_distance_max

  abbrev pub label_entry : DiarizationConfig F → Placed F → String × Option ℕ
  label_entry cfg p = (p.anchor.tracklet_id, if is_inlier cfg p then some p.label else none)

  abbrev pub weights_of : List (AnchorEvidence F) → F
  weights_of anchors = sum_floats floats.zero (map (λ a. a.weight) anchors)

  -- The mean distance of a group to its center.
  abbrev pub dispersion_of : List F → List (AnchorEvidence F) → Result F
  dispersion_of center group = do
    parts ←
        map_each (λ a. cosine_distance floats a.vector center >>= (λ d. ok (floats.mul a.weight d)))
          group
    ok (floats.div (sum_floats floats.zero parts) (weights_of group))

  abbrev pub dispersions_of : List (List F) → List (List (AnchorEvidence F)) → Result (List F)
  dispersions_of (center ∷ centers) (group ∷ groups) = do
    dispersion ← dispersion_of center group
    later ← dispersions_of centers groups
    ok (dispersion ∷ later)
  dispersions_of _ _ = ok []

  abbrev pub separation_of : ℕ → List (List F) → Result (Option F)
  separation_of k centers =
      if k == 2
      then (do
        first ← elem_at centers 0
        second ← elem_at centers 1
        distance ← cosine_distance floats first second
        ok (some distance))
      else ok none

  -- `zip(independent_count, duration)`, all large enough
  abbrev pub has_support : DiarizationConfig F → List ℕ → List ℕ → Bool
  has_support cfg (count ∷ counts) (speech ∷ durations) =
      (leb cfg.h2_min_independent_anchor_count count && leb cfg.h2_min_clean_anchor_us speech)
      && has_support cfg counts durations
  has_support cfg _ _ = true

  -- `any(x > limit for x in xs)`
  abbrev pub some_above : F → List F → Bool
  some_above limit xs = any (λ x. not (floats.leb x limit)) xs

  unfoldable pub measured :
      List (AnchorEvidence F)
      → ℕ
      → DiarizationConfig F
      → List (List F)
      → List (Placed F)
      → List (List (AnchorEvidence F))
      → Result (SpeakerHypothesis F)
  measured anchors k cfg centers placed inliers = do
    let total = weights_of anchors
    let costs =
        map
          (λ p.
            floats.mul p.anchor.weight
              (min_float floats p.distance cfg.anchor_outlier_distance_max))
          placed
    let outside =
        map (λ p. p.anchor.weight)
          (keep_if (λ p. floats.lt cfg.anchor_outlier_distance_max p.distance) placed)
    let robust = floats.div (sum_floats floats.zero costs) total
    let outliers = floats.div (sum_floats floats.zero outside) total
    dispersion ← dispersions_of centers inliers
    let durations = map (sum_of (λ a. a.clean_speech_us)) inliers
    let counts = map (λ group. length (distinct (map (λ a. a.independent_block_id) group))) inliers
    separation ← separation_of k centers
    let support_ok = (k == 1) || has_support cfg counts durations
    let dispersion_limit = if k == 1 then cfg.h1_max_dispersion else cfg.h2_max_cluster_dispersion
    let outlier_limit = if k == 1 then cfg.h1_max_outlier_ratio else cfg.h2_max_outlier_ratio
    let dispersed_ok = not (some_above dispersion_limit dispersion)
    let outliers_ok = floats.leb outliers outlier_limit
    checked_hypothesis (record {
      k = k;
      centers = centers;
      anchor_labels = map (label_entry cfg) placed;
      is_valid = true;
      valid_constraints = support_ok && (dispersed_ok && outliers_ok);
      robust_cost = robust;
      total_cost = robust;
      outlier_ratio = outliers;
      cluster_dispersion = dispersion;
      clean_duration_us = durations;
      independent_anchor_count = counts;
      cluster_support_ok = support_ok;
      dispersion_ok = dispersed_ok;
      outlier_ratio_ok = outliers_ok;
      third_speaker_risk = false;
      separation = separation;
      label_stability = none;
      centroid_stability = none;
      temporal_interleaving = none;
      continuous_speech_conflict = none;
      reason_codes = [];
    })

  unfoldable pub fit_found :
      List (AnchorEvidence F)
      → ℕ
      → DiarizationConfig F
      → Option (List (List F))
      → Result (SpeakerHypothesis F)
  fit_found anchors k cfg none = invalid_hypothesis k "EMPTY_INLIER_CLUSTER"
  fit_found anchors k cfg (some centers) = do
    placed ← map_each (place centers) anchors
    let inliers = map (group_of (keep_if (is_inlier cfg) placed)) (indices_from 0 centers)
    if any is_empty_group inliers
        then invalid_hypothesis k "EMPTY_INLIER_CLUSTER"
        else measured anchors k cfg centers placed inliers

  unfoldable pub fit_seeded :
      List (AnchorEvidence F)
      → ℕ
      → List (List F)
      → DiarizationConfig F
      → Result (SpeakerHypothesis F)
  fit_seeded anchors k seeds cfg = do
    centers ← map_each (unit_vector floats) seeds
    fitted ← fit_loop cfg.cluster_max_iter anchors cfg centers
    fit_found anchors k cfg fitted

  unfoldable pub robust_spherical_fit :
      List (AnchorEvidence F)
      → ℕ
      → List (List F)
      → DiarizationConfig F
      → Result (SpeakerHypothesis F)
  robust_spherical_fit anchors k seeds cfg =
      let refused = not (k == 1 || k == 2) || (not (length seeds == k) || ltb (length anchors) k) in
      if refused
      then invalid_hypothesis k "INSUFFICIENT_ANCHORS"
      else fit_seeded anchors k seeds cfg
