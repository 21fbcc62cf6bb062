-- ===== src/Decoder/Timeline/Whole.antt =====
-- What the decoded spans say of every instant.
use Prim.Native.String.{String}
use sddiar.Base.{
  ℕ, ◌<◌, ◌≡◌, refl, subst, ◌∙◌, Bool, true, false, ◌&&◌, ◌||◌, List, [], ◌++◌, reverse_onto, ok,
  ok-inj, Error, bind_ok, raise_if, if◌then◌else◌, arith, any-append, All-append,
}
use sddiar.Base.Sort.{sort, any-sort, All-sort}
use sddiar.Spans.{Speaker, overlap, non_speech, DiarizationSpan}
use sddiar.Spans.Labels.{holds_at, says}
use sddiar.Tracklets.{Tracklet, DiarizationConfig, ProtectedOverlapSpan}
use sddiar.Spans.{Part}
use sddiar.Decoder.Timeline.{
  le_decoded, has_overlap, join_loop, label_spans, overlap_spans, fill_gaps, materialize,
}
use sddiar.Decoder.Timeline.Laws.{
  IsLong, After, labels_say, protects, says-label_spans, says-overlap_spans, After-first,
}
use sddiar.Decoder.Timeline.Gaps.{fill_gaps-After, any_label, fill_gaps-covers}
use sddiar.Decoder.Timeline.Joins.{Refines, join_loop-Refines}

raise_if_ok : (test : Bool) (e : Error) (done : Unit {0}) → raise_if test e ≡ ok done → test ≡ false
raise_if_ok test e done h = ground arith

module _ {F : Type 0} (stable_id : String → List Part → String) (cfg : DiarizationConfig F) where
  filled_After :
      (include : Bool) (duration : ℕ) (spans filled : List DiarizationSpan) (who : Speaker → Bool)
      (t : ℕ)
      → who non_speech ≡ false
      → After 0 spans
      → (if include then fill_gaps stable_id duration 0 spans else ok spans) ≡ ok filled
      → After 0 filled × (says who t filled ≡ says who t spans)
  filled_After true duration spans filled who t quiet after h =
      fill_gaps-After stable_id who t quiet duration 0 spans filled after h
  filled_After false duration spans filled who t quiet after h =
      subst (λ l. After 0 l × (says who t l ≡ says who t spans)) (ok-inj h) (after, refl)

  -- The spans that are given the gaps, and those with them.
  materialize_parts :
      (labels : List Speaker) (tracklets : List (Tracklet F))
      (overlaps : List (ProtectedOverlapSpan F)) (duration : ℕ) (out : List DiarizationSpan)
      → materialize stable_id labels tracklets overlaps duration cfg ≡ ok out
      → (labelled : List DiarizationSpan) × (protected : List DiarizationSpan) × (filled : List
          DiarizationSpan)
        × (label_spans stable_id 0 labels tracklets ≡ ok labelled)
        × (overlap_spans stable_id 0 overlaps ≡ ok protected)
        × (has_overlap (sort le_decoded (labelled ++ protected)) ≡ false)
        × ((if cfg.include_non_speech
              then fill_gaps stable_id duration 0 (sort le_decoded (labelled ++ protected))
              else ok (sort le_decoded (labelled ++ protected)))
            ≡ ok filled)
        × (join_loop [] filled ≡ ok out)
  unfolding materialize
  materialize_parts labels tracklets overlaps duration out h =
      let (labelled, e1, h1) = bind_ok _ _ out h in
      let (protected, e2, h2) = bind_ok _ _ out h1 in
      let (done, e3, h3) = bind_ok _ _ out h2 in
      let (filled, e4, h4) = bind_ok _ _ out h3 in
      (labelled, protected, filled, e1, e2, raise_if_ok _ _ done e3, e4, h4)

  -- The spans of an accepted sequence are in order and without overlap. They give an instant a
  -- wanted label, other than NON_SPEECH, exactly if the decoder's label of a tracklet there is
  -- wanted, or the instant is protected and OVERLAP is wanted.
  pub materialize-says :
      (labels : List Speaker) (tracklets : List (Tracklet F))
      (overlaps : List (ProtectedOverlapSpan F)) (duration : ℕ) (out : List DiarizationSpan)
      (who : Speaker → Bool) (t : ℕ)
      → materialize stable_id labels tracklets overlaps duration cfg ≡ ok out
      → who non_speech ≡ false
      → After 0 out
        × (says who t out
            ≡ (labels_say who t labels tracklets || (protects t overlaps && who overlap)))
  unfolding Refines reverse_onto
  materialize-says labels tracklets overlaps duration out who t h quiet =
      let (labelled, protected, filled, e1, e2, apart, e3, e4) =
        materialize_parts labels tracklets overlaps duration out h in
      let (said1, long1) = says-label_spans stable_id who t 0 labels tracklets labelled e1 in
      let (said2, long2) = says-overlap_spans stable_id who t 0 overlaps protected e2 in
      let spans = sort le_decoded (labelled ++ protected) in
      let long =
        All-sort le_decoded IsLong (labelled ++ protected)
          (All-append IsLong labelled protected long1 long2) in
      let said =
        any-sort le_decoded (λ s. holds_at t s && who s.speaker_id) (labelled ++ protected)
        ∙ any-append _ labelled protected in
      let (ordered, same) =
        filled_After cfg.include_non_speech duration spans filled who t quiet
          (After-first spans long apart) e3 in
      let (final, kept) = join_loop-Refines who t filled [] out e4 0 ordered in
      (final, kept ∙ same ∙ said ∙ rw (said1, said2) refl)

  -- With NON_SPEECH included, every instant before the end of the recording has a label.
  pub materialize_covers :
      (labels : List Speaker) (tracklets : List (Tracklet F))
      (overlaps : List (ProtectedOverlapSpan F)) (duration : ℕ) (out : List DiarizationSpan) (t : ℕ)
      → materialize stable_id labels tracklets overlaps duration cfg ≡ ok out
      → cfg.include_non_speech ≡ true
      → t < duration
      → says any_label t out ≡ true
  unfolding Refines reverse_onto
  materialize_covers labels tracklets overlaps duration out t h included lt =
      let (labelled, protected, filled, e1, e2, apart, e3, e4) =
        materialize_parts labels tracklets overlaps duration out h in
      let spans = sort le_decoded (labelled ++ protected) in
      let long = All-sort le_decoded IsLong (labelled ++ protected) (
        All-append IsLong labelled protected
          (says-label_spans stable_id any_label t 0 labels tracklets labelled e1).1
          (says-overlap_spans stable_id any_label t 0 overlaps protected e2).1) in
      let (ordered, same) =
        filled_After cfg.include_non_speech duration spans filled (λ l. false) t refl
          (After-first spans long apart) e3 in
      let (final, kept) = join_loop-Refines any_label t filled [] out e4 0 ordered in
      kept
      ∙ fill_gaps-covers stable_id t duration 0 spans filled (rw included at e3) (omega arith) lt
