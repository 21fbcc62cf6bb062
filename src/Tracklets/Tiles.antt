-- ===== src/Tracklets/Tiles.antt =====
-- The tracklets of the speech regions tile them.
use Prim.Native.String.{String}
use sddiar.Base.{
  ℕ, ◌+◌, ◌-◌, ◌≡◌, refl, ap, subst, ◌∙◌, inl, inr, Bool, true, false, ◌&&◌, ◌||◌, List, [], ◌∷◌,
  ◌++◌, All, All-append, any, any-append, ok, ok-inj, bind_ok, raise_if, raise_if_then,
  contract_validation, protected_overlap, ◌>>◌, Bool-cases, arith, if◌then◌else◌, leb, ltb,
}
use sddiar.Base.Int.{pos}
use sddiar.Base.Sort.{any-sort, All-sort}
use sddiar.Contracts.{range}
use sddiar.Intervals.{Interval, within, covers}
use sddiar.Spans.{Part}
use sddiar.Tracklets.{Tracklet, DiarizationConfig, le_tracklet}
use sddiar.Tracklets.Build.{
  SpeechRegion, TrackletBuildResult, is_anchor, duration_class, checked_tracklet, tracklets_of,
  region_tracklets, all_tracklets, build_tracklets,
}
use sddiar.Tracklets.Cuts.{IsPiece, region_cuts-Tiles}

module _ {F : Type 0} where
  abbrev pub in_tracklet : ℕ → Tracklet F → Bool
  in_tracklet t x = within t (x.start_us, x.end_us)

  -- A tracklet of clean speech, no longer than the maximum, of the kind of its duration.
  abbrev pub IsBuilt : DiarizationConfig F → Tracklet F → Type 0
  IsBuilt cfg x =
      IsPiece cfg.max_tracklet_us (x.start_us, x.end_us)
      × (x.clean_speech_us ≡ x.end_us - x.start_us)
      × (x.kind ≡ duration_class (x.end_us - x.start_us) cfg)
      × (x.protected_overlap ≡ false)

  checked_tracklet-eq : (x y : Tracklet F) → checked_tracklet x ≡ ok y → x ≡ y
  unfolding checked_tracklet range
  checked_tracklet-eq x y h =
      let (times, e1, h1) = bind_ok (range (pos x.start_us) (pos x.end_us)) _ y h in
      let tested = x.protected_overlap && is_anchor x.kind in
      let rest = raise_if tested protected_overlap >> ok x in
      let h2 =
        raise_if_then (ltb (times.1 - times.0) x.clean_speech_us) contract_validation rest y h1 in
      let h3 = raise_if_then tested protected_overlap (ok x) y h2 in ok-inj h3

  module _ (stable_id : String → List Part → String) (cfg : DiarizationConfig F) (audio_id : String)
      (t : ℕ) where
    -- The tracklets hold the instant as the test says.
    abbrev pub Holds : Bool → List (Tracklet F) → Type 0
    Holds held tracklets = (any (in_tracklet t) tracklets ≡ held) × All (IsBuilt cfg) tracklets

    tracklets_of-Holds :
        (region group : String) (ordinal : ℕ) (cuts : List Interval) (tracklets : List (Tracklet F))
        → All (IsPiece cfg.max_tracklet_us) cuts
        → tracklets_of stable_id cfg audio_id region group ordinal cuts ≡ ok tracklets
        → Holds (covers t cuts) tracklets
    unfolding tracklets_of
    tracklets_of-Holds region group ordinal [] tracklets short h =
        subst (Holds false) (ok-inj h) (refl, tt)
    tracklets_of-Holds region group ordinal (cut ∷ cuts) tracklets short h =
        let (x, made, h1) = bind_ok _ _ tracklets h in
        let (later, rest, h2) = bind_ok _ _ tracklets h1 in
        let (held, built) = tracklets_of-Holds region group (ordinal + 1) cuts later short.1 rest in
        subst (Holds (within t cut || covers t cuts)) (ok-inj h2) (
          subst (λ y. Holds (within t cut || covers t cuts) (y ∷ later))
            (checked_tracklet-eq _ x made)
            (ap (λ b. within t cut || b) held, ((short.0, refl, refl, refl), built)))

    -- Whether a region that is not empty holds the instant.
    abbrev pub in_region : SpeechRegion → Bool
    in_region region = within t (region.start_us, region.end_us)

    empty-Holds : (a b : ℕ) → leb b a ≡ true → Holds (within t (a, b)) []
    empty-Holds a b empty = (ground arith, tt)

    region_tracklets-Holds :
        (index : ℕ) (region : SpeechRegion) (tracklets : List (Tracklet F))
        → (if leb region.end_us region.start_us
            then ok []
            else region_tracklets stable_id cfg audio_id index region)
          ≡ ok tracklets
        → Holds (in_region region) tracklets
    region_tracklets-Holds index region tracklets h =
        elim (Bool-cases (leb region.end_us region.start_us)) [
          | inl empty ↦
              subst (Holds (in_region region)) (ok-inj (rw empty at h))
                (empty-Holds region.start_us region.end_us empty)
          | inr full ↦
              let (tiled, short) =
                region_cuts-Tiles cfg region.start_us region.end_us t (ground arith) in
              let own = tracklets_of-Holds _ _ 0 _ tracklets short (rw full at h) in
              subst (λ held. Holds held tracklets) tiled own
        ]

    Holds-append :
        (a b : Bool) (xs ys : List (Tracklet F))
        → Holds a xs
        → Holds b ys
        → Holds (a || b) (xs ++ ys)
    Holds-append a b xs ys (h, built) (k, built_too) = (
      any-append (in_tracklet t) xs ys ∙ rw (h, k) refl,
      All-append (IsBuilt cfg) xs ys built built_too,
    )

    all_tracklets-Holds :
        (index : ℕ) (regions : List SpeechRegion) (tracklets : List (Tracklet F))
        → all_tracklets stable_id cfg audio_id index regions ≡ ok tracklets
        → Holds (any in_region regions) tracklets
    unfolding all_tracklets
    all_tracklets-Holds index [] tracklets h = subst (Holds false) (ok-inj h) (refl, tt)
    all_tracklets-Holds index (region ∷ regions) tracklets h =
        let (own, made, h1) = bind_ok _ _ tracklets h in
        let (later, rest, h2) = bind_ok _ _ tracklets h1 in
        subst (Holds (any in_region (region ∷ regions))) (ok-inj h2) (
          Holds-append _ _ own later (region_tracklets-Holds index region own made)
            (all_tracklets-Holds (index + 1) regions later rest))

    -- A build that succeeds has an instant in a tracklet exactly if it is in a region. Every
    -- tracklet is not empty and no longer than a positive maximum, is clean speech throughout, has
    -- the kind of its duration, and is not protected.
    pub build_tracklets-Holds :
        {Evidence : Type 0} (regions : List SpeechRegion) (scd overlaps : List Evidence)
        (result : TrackletBuildResult F)
        → build_tracklets stable_id cfg audio_id regions scd overlaps ≡ ok result
        → Holds (any in_region regions) result.tracklets
    unfolding build_tracklets
    build_tracklets-Holds regions [] [] result h =
        let (tracklets, made, h1) = bind_ok _ _ result h in
        let (held, built) = all_tracklets-Holds 0 regions tracklets made in
        subst (λ (r : TrackletBuildResult F). Holds (any in_region regions) r.tracklets) (ok-inj h1)
          (
            any-sort le_tracklet (in_tracklet t) tracklets ∙ held,
            All-sort le_tracklet (IsBuilt cfg) tracklets built,
          )
    build_tracklets-Holds regions (e ∷ scd) overlaps result h = cc
    build_tracklets-Holds regions [] (e ∷ overlaps) result h = cc
