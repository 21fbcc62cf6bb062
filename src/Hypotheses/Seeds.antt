-- ===== src/Hypotheses/Seeds.antt =====
-- `fit_h2_once` of src/sddiar/diarization.py: fits of two clusters from a few pairs of anchors.
use Prim.Native.String.{String}
use text.Mathlib.Text.{◌==◌ as str_eq}
use sddiar.Base.{
  ℕ, zero, suc, ◌*◌, ◌/◌, Bool, true, false, not, ◌&&◌, ◌||◌, List, [], ◌∷◌, map, keep_if, length,
  any, Result, ok, err, value_error, ◌>>=◌, map_each, if◌then◌else◌, ltb, ◌==◌,
}
use sddiar.Base.Sort.{sort}
use sddiar.Floats.{Floats}
use sddiar.Tracklets.{DiarizationConfig}
use sddiar.Assignment.Vectors.{cosine_distance, weighted_centroid}
use sddiar.Hypotheses.{AnchorEvidence, SpeakerHypothesis, str_le}
use sddiar.Hypotheses.Fit.{elem_at, weighted, invalid_hypothesis, robust_spherical_fit}

abbrev pub take_first {ℓ} : {A : Type ℓ} → ℕ → List A → List A
take_first zero xs = []
take_first (suc n) [] = []
take_first (suc n) (x ∷ xs) = x ∷ take_first n xs

-- Python's `<` on tuples.
abbrev pub lt_tuple {ℓ} : {A : Type ℓ} → (A → A → Bool) → List A → List A → Bool
lt_tuple lt xs [] = false
lt_tuple lt [] (y ∷ ys) = true
lt_tuple lt (x ∷ xs) (y ∷ ys) = lt x y || (not (lt y x) && lt_tuple lt xs ys)

-- The first greatest element by a strict order on the keys.
abbrev pub greatest {ℓ} : {A : Type ℓ} → (A → A → Bool) → A → List A → A
greatest lt best [] = best
greatest lt best (x ∷ xs) = greatest lt (if lt best x then x else best) xs

unfoldable pub max_by {ℓ} : {A : Type ℓ} → (A → A → Bool) → List A → Result A
max_by lt [] = err value_error
max_by lt (x ∷ xs) = ok (greatest lt x xs)

abbrev pub str_lt : String → String → Bool
str_lt a b = not (str_le b a)

-- `tuple(sorted((a, b)))`
abbrev pub sorted_pair : String → String → String × String
sorted_pair a b = if str_lt b a then (b, a) else (a, b)

abbrev pub same_pair : String × String → String × String → Bool
same_pair x y = str_eq x.0 y.0 && str_eq x.1 y.1

module _ {F : Type 0} (floats : Floats F) where
  -- The key of a float and the name.
  abbrev pub lt_keyed : F × AnchorEvidence F → F × AnchorEvidence F → Bool
  lt_keyed x y =
      floats.lt x.0 y.0 || (not (floats.lt y.0 x.0) && str_lt x.1.tracklet_id y.1.tracklet_id)

  abbrev pub with_distance :
      (AnchorEvidence F → Result F) → AnchorEvidence F → Result (F × AnchorEvidence F)
  with_distance distance a = distance a >>= (λ d. ok (d, a))

  abbrev pub max_keyed :
      (AnchorEvidence F → Result F) → List (AnchorEvidence F) → Result (AnchorEvidence F)
  max_keyed distance anchors = do
    keyed ← map_each (with_distance distance) anchors
    best ← max_by lt_keyed keyed
    ok best.1

  -- `_farthest`
  unfoldable pub farthest : AnchorEvidence F → List (AnchorEvidence F) → Result (AnchorEvidence F)
  farthest a anchors = max_keyed (λ b. cosine_distance floats a.vector b.vector) anchors

  abbrev pub le_start : AnchorEvidence F → AnchorEvidence F → Bool
  le_start x y =
      ltb x.start_us y.start_us || (x.start_us == y.start_us && str_le x.tracklet_id y.tracklet_id)

  unfoldable pub starters_of :
      List (AnchorEvidence F) → SpeakerHypothesis F → Result (List (AnchorEvidence F))
  starters_of anchors h1 = do
    heaviest ← max_keyed (λ a. ok a.weight) anchors
    center ← elem_at h1.centers 0
    residual ← max_keyed (λ a. cosine_distance floats a.vector center) anchors
    let ordered = sort le_start anchors
    let count = length ordered
    first ← elem_at ordered 0
    second ← elem_at ordered (count / 4)
    third ← elem_at ordered (count / 2)
    fourth ← elem_at ordered ((3 * count) / 4)
    ok (heaviest ∷ residual ∷ first ∷ second ∷ third ∷ fourth ∷ [])

  -- The loop over the pairs.
  unfoldable pub fit_pairs :
      List (AnchorEvidence F)
      → DiarizationConfig F
      → List (String × String)
      → List (AnchorEvidence F × AnchorEvidence F)
      → Result (List (SpeakerHypothesis F))
  fit_pairs anchors cfg seen [] = ok []
  fit_pairs anchors cfg seen ((first, second) ∷ pairs) =
      let key = sorted_pair first.tracklet_id second.tracklet_id in
      let skip = str_eq first.tracklet_id second.tracklet_id || any (same_pair key) seen in
      let rest = fit_pairs anchors cfg (if skip then seen else key ∷ seen) pairs in
      if skip then rest else (do
        fit ← robust_spherical_fit floats anchors 2 (first.vector ∷ second.vector ∷ []) cfg
        later ← rest
        ok (fit ∷ later))

  -- The key `(fit.robust_cost, fit.centers)`, for the least
  abbrev pub gt_fit : SpeakerHypothesis F → SpeakerHypothesis F → Bool
  gt_fit x y =
      floats.lt y.robust_cost x.robust_cost
      || (not (floats.lt x.robust_cost y.robust_cost)
          && lt_tuple (lt_tuple floats.lt) y.centers x.centers)

  abbrev pub best_fit : List (SpeakerHypothesis F) → Result (SpeakerHypothesis F)
  best_fit [] = invalid_hypothesis floats 2 "EMPTY_INLIER_CLUSTER"
  best_fit (fit ∷ fits) = ok (greatest gt_fit fit fits)

  -- `structurally_valid or valid`
  abbrev pub or_valid :
      List (SpeakerHypothesis F) → List (SpeakerHypothesis F) → List (SpeakerHypothesis F)
  or_valid [] valid = valid
  or_valid (fit ∷ fits) valid = fit ∷ fits

  abbrev pub fit_from :
      List (AnchorEvidence F)
      → DiarizationConfig F
      → SpeakerHypothesis F
      → Result (SpeakerHypothesis F)
  fit_from anchors cfg h1 =
      if not h1.is_valid then invalid_hypothesis floats 2 "H1_SEED_FAILURE" else (do
        starters ← starters_of anchors h1
        pairs ← map_each (λ a. farthest a anchors >>= (λ b. ok (a, b))) starters
        fits ← fit_pairs anchors cfg [] (take_first cfg.bounded_seed_count pairs)
        let valid = keep_if (λ f. f.is_valid) fits
        best_fit (or_valid (keep_if (λ f. f.valid_constraints) valid) valid))

  unfoldable pub fit_h2_once :
      List (AnchorEvidence F) → DiarizationConfig F → Result (SpeakerHypothesis F)
  fit_h2_once anchors cfg =
      if ltb (length anchors) 2 then invalid_hypothesis floats 2 "INSUFFICIENT_ANCHORS" else (do
        seed ← weighted_centroid floats (map (weighted floats) anchors)
        h1 ← robust_spherical_fit floats anchors 1 (seed ∷ []) cfg
        fit_from anchors cfg h1)
