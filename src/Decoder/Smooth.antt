-- ===== src/Decoder/Smooth.antt =====
-- What the loop over isolated runs may change.
use sddiar.Base.{
  ◌≤◌, ◌≡◌, refl, ◌⊎◌, inl, inr, Bool, true, false, List, [], ◌∷◌, arith, if◌then◌else◌, ◌-◌,
}
use sddiar.Spans.{Speaker, unknown, is_session_speaker}
use sddiar.Tracklets.{Tracklet, DiarizationConfig}
use sddiar.Decoder.{is_isolated, smooth, smooth_all}

module _ {F : Type 0} (cfg : DiarizationConfig F) where
  -- One label is kept, or a short tracklet's session speaker becomes UNKNOWN.
  abbrev pub KeepsOrDrops : Speaker → Speaker → Tracklet F → Type 0
  KeepsOrDrops before after t =
      (after ≡ before)
      ⊎ ((is_session_speaker before ≡ true)
          × (after ≡ unknown)
          × (t.end_us - t.start_us ≤ cfg.isolated_run_max_us))

  -- The same for all labels of a sequence.
  abbrev pub IsSmoothed : List Speaker → List Speaker → List (Tracklet F) → Type 0
  IsSmoothed [] [] tracklets = Unit
  IsSmoothed (b ∷ before) (a ∷ after) (t ∷ tracklets) =
      KeepsOrDrops b a t × IsSmoothed before after tracklets
  IsSmoothed before after [] = before ≡ after
  IsSmoothed _ _ (t ∷ tracklets) = ⊥

  IsSmoothed-refl :
      (labels : List Speaker) (tracklets : List (Tracklet F)) → IsSmoothed labels labels tracklets
  IsSmoothed-refl [] tracklets = tt
  IsSmoothed-refl (l ∷ labels) [] = refl
  IsSmoothed-refl (l ∷ labels) (t ∷ tracklets) = (inl refl, IsSmoothed-refl labels tracklets)

  relabel_KeepsOrDrops :
      (isolated : Bool) (current : Speaker) (t : Tracklet F)
      → (isolated ≡ true
          → (is_session_speaker current ≡ true) × (t.end_us - t.start_us ≤ cfg.isolated_run_max_us))
      → KeepsOrDrops current (if isolated then unknown else current) t
  relabel_KeepsOrDrops true current t h = inr ((h refl).0, refl, (h refl).1)
  relabel_KeepsOrDrops false current t h = inl refl

  smooth-IsSmoothed :
      (labels : List Speaker) (before : Speaker) (tracklets : List (Tracklet F))
      → IsSmoothed labels (smooth cfg before labels tracklets) tracklets
  unfolding smooth
  smooth-IsSmoothed [] before tracklets = tt
  smooth-IsSmoothed (current ∷ []) before tracklets = IsSmoothed-refl (current ∷ []) tracklets
  smooth-IsSmoothed (current ∷ after ∷ labels) before [] = refl
  smooth-IsSmoothed (current ∷ after ∷ labels) before (t ∷ tracklets) = (
    relabel_KeepsOrDrops (is_isolated before current after t cfg) current t
        (λ e. (ground arith, ground arith)),
    smooth-IsSmoothed (after ∷ labels) _ tracklets,
  )

  -- The smoothing keeps every label, or turns the session speaker of a tracklet that is short
  -- enough into UNKNOWN.
  pub smooth_all-IsSmoothed :
      (labels : List Speaker) (tracklets : List (Tracklet F))
      → IsSmoothed labels (smooth_all cfg labels tracklets) tracklets
  unfolding smooth_all
  smooth_all-IsSmoothed [] tracklets = tt
  smooth_all-IsSmoothed (l ∷ labels) [] = refl
  smooth_all-IsSmoothed (l ∷ labels) (t ∷ tracklets) =
      (inl refl, smooth-IsSmoothed labels l tracklets)
