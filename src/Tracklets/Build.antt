-- ===== src/Tracklets/Build.antt =====
-- `build_tracklets` of src/sddiar/diarization.py. It refuses all boundary evidence, so that the
-- loops over it have nothing to do in what follows.
use Prim.Native.String.{String}
use sddiar.Base.{
  ℕ, ◌+◌, ◌-◌, Bool, true, false, ◌&&◌, Option, none, some, List, [], ◌∷◌, ◌++◌, Result, ok, err,
  contract_validation, protected_overlap, ◌>>=◌, ◌>>◌, raise_if, if◌then◌else◌, leb, ltb, zero, suc,
}
use sddiar.Base.Int.{pos}
use sddiar.Base.Sort.{sort}
use sddiar.Contracts.{range}
use sddiar.Intervals.{Interval}
use sddiar.Scoring.{sorted_set}
use sddiar.Spans.{Part, number, word}
use sddiar.Tracklets.{
  Kind, anchor, support, micro, Tracklet, DiarizationConfig, ProtectedOverlapSpan, le_tracklet,
}

-- A region of speech, with its own name if it has one.
pub record SpeechRegion : Type 0 where
  pub start_us : ℕ
  pub end_us : ℕ
  pub region_id : Option String

pub record TrackletBuildResult (F : Type 0) : Type 0 where
  pub tracklets : List (Tracklet F)
  pub protected_overlap_spans : List (ProtectedOverlapSpan F)
  pub boundary_evidence_ids : List String

abbrev pub name_or : Option String → String → String
name_or none name = name
name_or (some name) other_name = name

-- The `while` loop over `artificial`, in at most `fuel` rounds.
unfoldable pub artificial_cuts : ℕ → ℕ → ℕ → ℕ → List ℕ
artificial_cuts zero step end artificial = []
artificial_cuts (suc fuel) step end artificial =
    let rest = artificial_cuts fuel step end (artificial + step) in
    if ltb artificial end then artificial ∷ rest else []

-- `zip(sorted_cuts, sorted_cuts[1:])`
unfoldable pub pieces : List ℕ → List Interval
pieces [] = []
pieces (a ∷ []) = []
pieces (a ∷ b ∷ cuts) = (a, b) ∷ pieces (b ∷ cuts)

abbrev pub is_anchor : Kind → Bool
is_anchor anchor = true
is_anchor _ = false

module _ {F : Type 0} where
  -- `_duration_class`
  unfoldable pub duration_class : ℕ → DiarizationConfig F → Kind
  duration_class clean cfg =
      if leb cfg.anchor_min_clean_us clean
      then anchor
      else if leb cfg.support_min_clean_us clean
      then support
      else micro

  -- `sorted_cuts` of a region that is not empty.
  unfoldable pub region_cuts : DiarizationConfig F → ℕ → ℕ → List ℕ
  region_cuts cfg start end = sorted_set (
      start
      ∷ end
      ∷ (if ltb 0 cfg.max_tracklet_us
          then artificial_cuts (end - start) cfg.max_tracklet_us end (start + cfg.max_tracklet_us)
          else []))

  -- `Tracklet(...)` with `__post_init__`
  unfoldable pub checked_tracklet : Tracklet F → Result (Tracklet F)
  checked_tracklet t = do
    (start, end) ← range (pos t.start_us) (pos t.end_us)
    raise_if (ltb (end - start) t.clean_speech_us) contract_validation
    raise_if (t.protected_overlap && is_anchor t.kind) protected_overlap
    ok t

  module _ (stable_id : String → List Part → String) (cfg : DiarizationConfig F)
      (audio_id : String) where
    abbrev pub tracklet_of : String → String → ℕ → Interval → Tracklet F
    tracklet_of region_id group ordinal (start, end) = record {
      tracklet_id =
          stable_id "tracklet" (word audio_id ∷ number start ∷ number end ∷ number ordinal ∷ []);
      speech_region_id = region_id;
      continuity_group_id = group;
      start_us = start;
      end_us = end;
      clean_speech_us = end - start;
      kind = duration_class (end - start) cfg;
      boundary_evidence_ids = [];
      scd_evidence_before = none;
      scd_evidence_after = none;
      protected_overlap = false;
      mixed_tracklet_suspect = false;
    }

    unfoldable pub tracklets_of : String → String → ℕ → List Interval → Result (List (Tracklet F))
    tracklets_of region_id group ordinal [] = ok []
    tracklets_of region_id group ordinal ((start, end) ∷ cuts) = do
      t ← checked_tracklet (tracklet_of region_id group ordinal (start, end))
      later ← tracklets_of region_id group (ordinal + 1) cuts
      ok (t ∷ later)

    -- One round of the loop over the regions that are not empty.
    abbrev pub region_tracklets : ℕ → SpeechRegion → Result (List (Tracklet F))
    region_tracklets index region =
        let own =
          stable_id "speech-region"
            (word audio_id ∷ number index ∷ number region.start_us ∷ number region.end_us ∷ []) in
        tracklets_of (name_or region.region_id own)
          (stable_id "continuity"
            (word audio_id ∷ number region.start_us ∷ number region.end_us ∷ []))
          0 (pieces (region_cuts cfg region.start_us region.end_us))

    unfoldable pub all_tracklets : ℕ → List SpeechRegion → Result (List (Tracklet F))
    all_tracklets index [] = ok []
    all_tracklets index (region ∷ regions) = do
      own ← (if leb region.end_us region.start_us then ok [] else region_tracklets index region)
      later ← all_tracklets (index + 1) regions
      ok (own ++ later)

    -- `scd_events` and `overlap_regions` stand for tuples of any evidence.
    unfoldable pub build_tracklets :
        {Evidence : Type 0}
        → List SpeechRegion
        → List Evidence
        → List Evidence
        → Result (TrackletBuildResult F)
    build_tracklets regions [] [] = do
      tracklets ← all_tracklets 0 regions
      ok (record {
        tracklets = sort le_tracklet tracklets;
        protected_overlap_spans = [];
        boundary_evidence_ids = [];
      })
    build_tracklets regions scd_events overlap_regions = err contract_validation
