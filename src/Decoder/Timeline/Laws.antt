-- ===== src/Decoder/Timeline/Laws.antt =====
-- The spans of a decoded sequence: in order, without overlap, with the labels of the decoder.
use Prim.Native.String.{String}
use sddiar.Base.{
  ℕ, ◌+◌, ◌≤◌, ◌<◌, ◌≡◌, refl, sym, Bool, false, ◌&&◌, ◌||◌, List, [], ◌∷◌, ok, ok-inj, bind_ok,
  arith, any, All,
}
use sddiar.Intervals.{within}
use sddiar.Contracts.{range}
use sddiar.Spans.{Speaker, overlap, DiarizationSpan, diarization_span}
use sddiar.Spans.Labels.{holds_at, says}
use sddiar.Tracklets.{Tracklet, ProtectedOverlapSpan}
use sddiar.Spans.{Part}
use sddiar.Decoder.Timeline.{has_overlap, label_spans, overlap_spans}

-- The times and the label of an accepted span are those given.
unfoldable pub IsSpan : ℕ → ℕ → Speaker → DiarizationSpan → Type 0
IsSpan start end who span =
    (start < end) × (span.start_us ≡ start) × (span.end_us ≡ end) × (span.speaker_id ≡ who)

pub diarization_span-IsSpan :
    (id : String) (a b : ℕ) (who : Speaker) (status : String) (evidence reasons : List String)
    (span : DiarizationSpan)
    → diarization_span id a b who status evidence reasons ≡ ok span
    → IsSpan a b who span
unfolding diarization_span range IsSpan
diarization_span-IsSpan id a b who status evidence reasons span h = ground arith

abbrev pub IsLong : DiarizationSpan → Type 0
IsLong s = s.start_us < s.end_us

-- In order and without overlap, from an instant on.
abbrev pub After : ℕ → List DiarizationSpan → Type 0
After bound [] = Unit
After bound (s ∷ spans) = (bound ≤ s.start_us) × (s.start_us < s.end_us) × After s.end_us spans

pub says-one :
    (who : Speaker → Bool) (t a b : ℕ) (l : Speaker) (span : DiarizationSpan)
    → IsSpan a b l span
    → ((holds_at t span && who span.speaker_id) ≡ (within t (a, b) && who l)) × IsLong span
unfolding IsSpan
says-one who t a b l span (lt, first, last, same) = rw (first, last, same) (refl, lt)

module _ {F : Type 0} where
  -- Whether the decoder gives the instant a wanted label.
  abbrev pub labels_say : (Speaker → Bool) → ℕ → List Speaker → List (Tracklet F) → Bool
  labels_say who t (l ∷ labels) (x ∷ tracklets) =
      (within t (x.start_us, x.end_us) && who l) || labels_say who t labels tracklets
  labels_say who t _ _ = false

  -- Whether the instant is protected.
  abbrev pub protects : ℕ → List (ProtectedOverlapSpan F) → Bool
  protects t overlaps = any (λ o. within t (o.start_us, o.end_us)) overlaps

module _ (stable_id : String → List Part → String) (who : Speaker → Bool) (t : ℕ) where
  module _ {F : Type 0} where
    pub says-label_spans :
        (n : ℕ) (labels : List Speaker) (tracklets : List (Tracklet F))
        (spans : List DiarizationSpan)
        → label_spans stable_id n labels tracklets ≡ ok spans
        → (says who t spans ≡ labels_say who t labels tracklets) × All IsLong spans
    unfolding label_spans
    says-label_spans n [] tracklets spans h = rw (sym (ok-inj h)) (refl, tt)
    says-label_spans n (l ∷ labels) [] spans h = rw (sym (ok-inj h)) (refl, tt)
    says-label_spans n (l ∷ labels) (x ∷ tracklets) spans h =
        let (span, made, h1) = bind_ok _ _ spans h in
        let (rest, later, h2) = bind_ok _ _ spans h1 in
        let (one, long) =
          says-one who t _ _ l span (diarization_span-IsSpan _ _ _ _ _ _ _ span made) in
        let (ih, all_long) = says-label_spans (n + 1) labels tracklets rest later in
        rw (sym (ok-inj h2)) (rw (one, ih) refl, (long, all_long))

    pub says-overlap_spans :
        (n : ℕ) (overlaps : List (ProtectedOverlapSpan F)) (spans : List DiarizationSpan)
        → overlap_spans stable_id n overlaps ≡ ok spans
        → (says who t spans ≡ (protects t overlaps && who overlap)) × All IsLong spans
    unfolding overlap_spans
    says-overlap_spans n [] spans h = rw (sym (ok-inj h)) (refl, tt)
    says-overlap_spans n (o ∷ overlaps) spans h =
        let (span, made, h1) = bind_ok _ _ spans h in
        let (rest, later, h2) = bind_ok _ _ spans h1 in
        let (one, long) =
          says-one who t _ _ overlap span (diarization_span-IsSpan _ _ _ _ _ _ _ span made) in
        let (ih, all_long) = says-overlap_spans (n + 1) overlaps rest later in
        rw (sym (ok-inj h2)) (rw (one, ih) (ground arith), (long, all_long))

has_overlap-After :
    (bound : ℕ) (s : DiarizationSpan) (spans : List DiarizationSpan)
    → bound ≤ s.start_us
    → All IsLong (s ∷ spans)
    → has_overlap (s ∷ spans) ≡ false
    → After bound (s ∷ spans)
unfolding has_overlap
has_overlap-After bound s [] le long h = (le, long.0, tt)
has_overlap-After bound s (next ∷ spans) le long h =
    (le, long.0, has_overlap-After s.end_us next spans (ground arith) long.1 (ground arith))

pub After-first :
    (spans : List DiarizationSpan) → All IsLong spans → has_overlap spans ≡ false → After 0 spans
After-first [] long h = tt
After-first (s ∷ spans) long h = has_overlap-After 0 s spans (omega arith) long h
