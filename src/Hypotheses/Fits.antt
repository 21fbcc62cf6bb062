-- ===== src/Hypotheses/Fits.antt =====
-- src/sddiar/diarization.py: what the fits of one and two clusters say of their measures.
use Prim.Native.String.{String}
use sddiar.Base.{
  ℕ, All, Bool-cases, ◌>>=◌, ◌≡◌, refl, subst, ◌⊎◌, inl, inr, Bool, true, false, not, ◌&&◌, ◌||◌,
  Option, none, some, List, [], ◌∷◌, map, any, keep_if, Result, ok, ok-inj, bind_ok, raise_if,
  then_ok, map_each, contract_validation, ◌>>◌, if◌then◌else◌, length, ltb, ◌==◌,
}
use sddiar.Assignment.Vectors.{unit_vector, weighted_centroid}
use sddiar.Floats.{Floats}
use sddiar.Tracklets.{DiarizationConfig}
use sddiar.Hypotheses.{AnchorEvidence, SpeakerHypothesis}
use sddiar.Hypotheses.Fit.{
  Placed, place, fit_loop, checked_hypothesis, check_centers, invalid_hypothesis, measured,
  fit_found, fit_seeded, robust_spherical_fit, weighted, dispersions_of, separation_of, is_inlier,
  is_empty_group, group_of, indices_from, has_support, some_above,
}
use text.Mathlib.Text.{◌==◌ as str_eq}
use sddiar.Hypotheses.Seeds.{
  greatest, sorted_pair, same_pair, take_first, farthest, starters_of, fit_pairs, gt_fit, best_fit,
  or_valid, fit_from, fit_h2_once,
}

module _ {F : Type 0} (floats : Floats F) where
  pub checked_hypothesis-eq :
      (h g : SpeakerHypothesis F) → checked_hypothesis floats h ≡ ok g → h ≡ g
  unfolding checked_hypothesis
  checked_hypothesis-eq h g e =
      let outlier = raise_if (not (floats.finite h.outlier_ratio)) contract_validation >> ok h in
      let total = raise_if (not (floats.finite h.total_cost)) contract_validation >> outlier in
      let robust = raise_if (not (floats.finite h.robust_cost)) contract_validation >> total in
      let centers = if h.is_valid then check_centers floats h else ok tt in
      let e1 = then_ok _ (centers >> robust) g e in
      let e2 = then_ok centers robust g e1 in
      ok-inj (then_ok _ (ok h) g (then_ok _ outlier g (then_ok _ total g e2)))

  abbrev pub dispersion_limit : DiarizationConfig F → ℕ → F
  dispersion_limit cfg k = if k == 1 then cfg.h1_max_dispersion else cfg.h2_max_cluster_dispersion

  abbrev pub outlier_limit : DiarizationConfig F → ℕ → F
  outlier_limit cfg k = if k == 1 then cfg.h1_max_outlier_ratio else cfg.h2_max_outlier_ratio

  -- The flags of a fit are the tests of its measures.
  abbrev pub IsMeasured : DiarizationConfig F → ℕ → SpeakerHypothesis F → Type 0
  IsMeasured cfg k h =
      (h.valid_constraints ≡ (h.cluster_support_ok && (h.dispersion_ok && h.outlier_ratio_ok)))
      × (h.cluster_support_ok
          ≡ ((k == 1) || has_support floats cfg h.independent_anchor_count h.clean_duration_us))
      × (h.dispersion_ok ≡ not (some_above floats (dispersion_limit cfg k) h.cluster_dispersion))
      × (h.outlier_ratio_ok ≡ floats.leb h.outlier_ratio (outlier_limit cfg k))

  -- A fit does not judge a third speaker. It is invalid, or its flags are measured and it has no
  -- reason codes.
  abbrev pub IsFit : DiarizationConfig F → ℕ → SpeakerHypothesis F → Type 0
  IsFit cfg k h =
      (h.third_speaker_risk ≡ false)
      × ((h.is_valid ≡ false) ⊎ ((h.reason_codes ≡ []) × IsMeasured cfg k h))

  pub invalid_hypothesis-IsFit :
      (cfg : DiarizationConfig F) (k : ℕ) (reason : String) (h : SpeakerHypothesis F)
      → invalid_hypothesis floats k reason ≡ ok h
      → IsFit cfg k h
  unfolding invalid_hypothesis
  invalid_hypothesis-IsFit cfg k reason h e =
      subst (IsFit cfg k) (checked_hypothesis-eq _ h e) (refl, inl refl)

  measured-IsFit :
      (anchors : List (AnchorEvidence F)) (k : ℕ) (cfg : DiarizationConfig F)
      (centers : List (List F)) (placed : List (Placed F))
      (inliers : List (List (AnchorEvidence F))) (h : SpeakerHypothesis F)
      → measured floats anchors k cfg centers placed inliers ≡ ok h
      → IsFit cfg k h
  unfolding measured
  measured-IsFit anchors k cfg centers placed inliers h e =
      let (dispersion, e1, h1) = bind_ok (dispersions_of floats centers inliers) _ h e in
      let (separation, e2, h2) = bind_ok (separation_of floats k centers) _ h h1 in
      subst (IsFit cfg k) (checked_hypothesis-eq _ h h2)
        (refl, inr (refl, (refl, refl, refl, refl)))

  either-IsFit :
      (cfg : DiarizationConfig F) (k : ℕ) (test : Bool) (x y : Result (SpeakerHypothesis F))
      → ((h : SpeakerHypothesis F) → x ≡ ok h → IsFit cfg k h)
      → ((h : SpeakerHypothesis F) → y ≡ ok h → IsFit cfg k h)
      → (h : SpeakerHypothesis F) → (if test then x else y) ≡ ok h
      → IsFit cfg k h
  either-IsFit cfg k true x y on_x on_y h e = on_x h e
  either-IsFit cfg k false x y on_x on_y h e = on_y h e

  fit_found-IsFit :
      (anchors : List (AnchorEvidence F)) (k : ℕ) (cfg : DiarizationConfig F)
      (found : Option (List (List F))) (h : SpeakerHypothesis F)
      → fit_found floats anchors k cfg found ≡ ok h
      → IsFit cfg k h
  unfolding fit_found
  fit_found-IsFit anchors k cfg none h e = invalid_hypothesis-IsFit cfg k _ h e
  fit_found-IsFit anchors k cfg (some centers) h e =
      let (placed, e1, h1) = bind_ok (map_each (place floats centers) anchors) _ h e in
      let inliers =
        map (group_of floats (keep_if (is_inlier floats cfg) placed)) (indices_from 0 centers) in
      either-IsFit cfg k (any is_empty_group inliers)
        (invalid_hypothesis floats k "EMPTY_INLIER_CLUSTER")
        (measured floats anchors k cfg centers placed inliers)
        (invalid_hypothesis-IsFit cfg k "EMPTY_INLIER_CLUSTER")
        (measured-IsFit anchors k cfg centers placed inliers) h h1

  fit_seeded-IsFit :
      (anchors : List (AnchorEvidence F)) (k : ℕ) (seeds : List (List F))
      (cfg : DiarizationConfig F) (h : SpeakerHypothesis F)
      → fit_seeded floats anchors k seeds cfg ≡ ok h
      → IsFit cfg k h
  unfolding fit_seeded
  fit_seeded-IsFit anchors k seeds cfg h e =
      let (centers, e1, h1) = bind_ok (map_each (unit_vector floats) seeds) _ h e in
      let (found, e2, h2) =
        bind_ok (fit_loop floats cfg.cluster_max_iter anchors cfg centers) _ h h1 in
      fit_found-IsFit anchors k cfg found h h2

  pub robust_spherical_fit-IsFit :
      (anchors : List (AnchorEvidence F)) (k : ℕ) (seeds : List (List F))
      (cfg : DiarizationConfig F) (h : SpeakerHypothesis F)
      → robust_spherical_fit floats anchors k seeds cfg ≡ ok h
      → IsFit cfg k h
  unfolding robust_spherical_fit
  robust_spherical_fit-IsFit anchors k seeds cfg h e =
      either-IsFit cfg k
        (not (k == 1 || k == 2) || (not (length seeds == k) || ltb (length anchors) k))
        (invalid_hypothesis floats k "INSUFFICIENT_ANCHORS") (fit_seeded floats anchors k seeds cfg)
        (invalid_hypothesis-IsFit cfg k "INSUFFICIENT_ANCHORS")
        (fit_seeded-IsFit anchors k seeds cfg) h e

  -- The fits of two clusters.
  abbrev AreFits : DiarizationConfig F → List (SpeakerHypothesis F) → Type 0
  AreFits cfg fits = All (IsFit cfg 2) fits

  fit_pairs-AreFits :
      (anchors : List (AnchorEvidence F)) (cfg : DiarizationConfig F)
      (pairs : List (AnchorEvidence F × AnchorEvidence F)) (seen : List (String × String))
      (fits : List (SpeakerHypothesis F))
      → fit_pairs floats anchors cfg seen pairs ≡ ok fits
      → AreFits cfg fits
  unfolding fit_pairs
  fit_pairs-AreFits anchors cfg [] seen fits h = subst (AreFits cfg) (ok-inj h) tt
  fit_pairs-AreFits anchors cfg ((first, second) ∷ pairs) seen fits h =
      let key = sorted_pair first.tracklet_id second.tracklet_id in
      elim (Bool-cases (str_eq first.tracklet_id second.tracklet_id || any (same_pair key) seen)) [
        | inl skipped ↦ fit_pairs-AreFits anchors cfg pairs seen fits (rw skipped at h)
        | inr new ↦
            let seeds = first.vector ∷ second.vector ∷ [] in
            let (fit, e1, h1) =
              bind_ok (robust_spherical_fit floats anchors 2 seeds cfg) _ fits (rw new at h) in
            let (later, e2, h2) =
              bind_ok (fit_pairs floats anchors cfg (key ∷ seen) pairs) _ fits h1 in
            subst (AreFits cfg) (ok-inj h2) (
              robust_spherical_fit-IsFit anchors 2 seeds cfg fit e1,
              fit_pairs-AreFits anchors cfg pairs (key ∷ seen) later e2,
            )
      ]

  keep_if-AreFits :
      (cfg : DiarizationConfig F) (test : SpeakerHypothesis F → Bool)
      (fits : List (SpeakerHypothesis F))
      → AreFits cfg fits
      → AreFits cfg (keep_if test fits)
  unfolding keep_if
  keep_if-AreFits cfg test [] h = tt
  keep_if-AreFits cfg test (fit ∷ fits) (first, h) = elim (Bool-cases (test fit)) [
    | inl kept ↦ rw kept (first, keep_if-AreFits cfg test fits h)
    | inr left ↦ rw left (keep_if-AreFits cfg test fits h)
  ]

  greatest-IsFit :
      (cfg : DiarizationConfig F) (best : SpeakerHypothesis F) (fits : List (SpeakerHypothesis F))
      → IsFit cfg 2 best
      → AreFits cfg fits
      → IsFit cfg 2 (greatest (gt_fit floats) best fits)
  greatest-IsFit cfg best [] is h = is
  greatest-IsFit cfg best (fit ∷ fits) is (first, h) = elim (Bool-cases (gt_fit floats best fit)) [
    | inl better ↦ rw (better, greatest) (greatest-IsFit cfg fit fits first h)
    | inr worse ↦ rw (worse, greatest) (greatest-IsFit cfg best fits is h)
  ]

  best_fit-IsFit :
      (cfg : DiarizationConfig F) (fits : List (SpeakerHypothesis F)) (h : SpeakerHypothesis F)
      → AreFits cfg fits
      → best_fit floats fits ≡ ok h
      → IsFit cfg 2 h
  best_fit-IsFit cfg [] h are e = invalid_hypothesis-IsFit cfg 2 "EMPTY_INLIER_CLUSTER" h e
  best_fit-IsFit cfg (fit ∷ fits) h are e =
      subst (IsFit cfg 2) (ok-inj e) (greatest-IsFit cfg fit fits are.0 are.1)

  or_valid-AreFits :
      (cfg : DiarizationConfig F) (fits valid : List (SpeakerHypothesis F))
      → AreFits cfg fits
      → AreFits cfg valid
      → AreFits cfg (or_valid floats fits valid)
  or_valid-AreFits cfg [] valid h k = k
  or_valid-AreFits cfg (fit ∷ fits) valid h k = h

  abbrev fit_starters :
      List (AnchorEvidence F)
      → DiarizationConfig F
      → SpeakerHypothesis F
      → Result (SpeakerHypothesis F)
  fit_starters anchors cfg h1 = do
    starters ← starters_of floats anchors h1
    pairs ← map_each (λ a. farthest floats a anchors >>= (λ b. ok (a, b))) starters
    fits ← fit_pairs floats anchors cfg [] (take_first cfg.bounded_seed_count pairs)
    let valid = keep_if (λ (f : SpeakerHypothesis F). f.is_valid) fits
    best_fit floats (or_valid floats (keep_if (λ f. f.valid_constraints) valid) valid)

  fit_starters-IsFit :
      (anchors : List (AnchorEvidence F)) (cfg : DiarizationConfig F) (h1 h : SpeakerHypothesis F)
      → fit_starters anchors cfg h1 ≡ ok h
      → IsFit cfg 2 h
  fit_starters-IsFit anchors cfg h1 h e =
      let (starters, e1, k1) = bind_ok (starters_of floats anchors h1) _ h e in
      let (pairs, e2, k2) =
        bind_ok (map_each (λ a. farthest floats a anchors >>= (λ b. ok (a, b))) starters) _ h k1 in
      let (fits, e3, k3) =
        bind_ok (fit_pairs floats anchors cfg [] (take_first cfg.bounded_seed_count pairs)) _ h
          k2 in
      let are =
        fit_pairs-AreFits anchors cfg (take_first cfg.bounded_seed_count pairs) [] fits e3 in
      let valid = keep_if (λ (f : SpeakerHypothesis F). f.is_valid) fits in
      let are_valid = keep_if-AreFits cfg (λ f. f.is_valid) fits are in
      best_fit-IsFit cfg _ h
        (or_valid-AreFits cfg (keep_if (λ f. f.valid_constraints) valid) valid
          (keep_if-AreFits cfg (λ f. f.valid_constraints) valid are_valid) are_valid)
        k3

  fit_from-IsFit :
      (anchors : List (AnchorEvidence F)) (cfg : DiarizationConfig F) (h1 h : SpeakerHypothesis F)
      → fit_from floats anchors cfg h1 ≡ ok h
      → IsFit cfg 2 h
  fit_from-IsFit anchors cfg h1 h e =
      either-IsFit cfg 2 (not h1.is_valid) (invalid_hypothesis floats 2 "H1_SEED_FAILURE") _
        (invalid_hypothesis-IsFit cfg 2 "H1_SEED_FAILURE") (fit_starters-IsFit anchors cfg h1) h e

  pub fit_h2_once-IsFit :
      (anchors : List (AnchorEvidence F)) (cfg : DiarizationConfig F) (h : SpeakerHypothesis F)
      → fit_h2_once floats anchors cfg ≡ ok h
      → IsFit cfg 2 h
  unfolding fit_h2_once
  fit_h2_once-IsFit anchors cfg h e = elim (Bool-cases (ltb (length anchors) 2)) [
    | inl few ↦ invalid_hypothesis-IsFit cfg 2 "INSUFFICIENT_ANCHORS" h (rw few at e)
    | inr enough ↦
        let (seed, e1, k1) =
          bind_ok (weighted_centroid floats (map (weighted floats) anchors)) _ h (rw enough at e) in
        let (h1, e2, k2) = bind_ok (robust_spherical_fit floats anchors 1 (seed ∷ []) cfg) _ h k1 in
        fit_from-IsFit anchors cfg h1 h k2
  ]
