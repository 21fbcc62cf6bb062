-- ===== src/Hypotheses/Anchors.antt =====
-- `select_anchor_evidence` of src/sddiar/diarization.py, which sorts the tracklets out.
use Prim.Native.String.{String}
use sddiar.Base.{
  min, Bool, true, false, not, ◌&&◌, ◌||◌, Option, none, some, List, [], ◌∷◌, Result, ok,
  contract_validation, ◌>>=◌, ◌>>◌, raise_if, if◌then◌else◌,
}
use sddiar.Base.Int.{pos}
use sddiar.Contracts.{range}
use sddiar.Floats.{Floats, max_float}
use sddiar.Tracklets.{Kind, support, Tracklet, DiarizationConfig}
use sddiar.Tracklets.Build.{is_anchor}
use sddiar.Assignment.{EmbeddingResult, embedding_of}
use sddiar.Assignment.Vectors.{check_unit_vector}
use sddiar.Hypotheses.{AnchorEvidence}
use text.Mathlib.Text.{◌==◌ as str_eq}

abbrev is_support : Kind → Bool
is_support support = true
is_support _ = false

-- What a tracklet is sorted into.
pub record Selection (F : Type 0) : Type 0 where
  pub anchors : List (AnchorEvidence F)
  pub support_list : List (Tracklet F × EmbeddingResult F)
  pub deferred : List (Tracklet F × String)

module _ {F : Type 0} (floats : Floats F) where
  abbrev pub is_bad_evidence : Option F → Bool
  is_bad_evidence none = false
  is_bad_evidence (some x) = not (floats.finite x)

  -- `AnchorEvidence(...)` with `__post_init__`
  unfoldable pub checked_anchor : AnchorEvidence F → Result (AnchorEvidence F)
  checked_anchor a = do
    check_unit_vector floats a.vector
    raise_if (not (floats.finite a.weight)) contract_validation
    raise_if (floats.leb a.weight floats.zero) contract_validation
    range (pos a.start_us) (pos a.end_us) >>= (λ times.
        raise_if (str_eq a.independent_block_id "" || str_eq a.continuity_group_id "")
          contract_validation)
    raise_if (is_bad_evidence a.scd_evidence_before) contract_validation
    ok a

  abbrev pub is_eligible : Tracklet F → EmbeddingResult F → DiarizationConfig F → Bool
  is_eligible t e cfg =
      is_anchor t.kind
      && (not t.protected_overlap
          && (not t.mixed_tracklet_suspect
              && (floats.leb cfg.anchor_quality_min e.quality
                  && floats.leb cfg.anchor_consistency_min e.intra_window_consistency)))

  unfoldable pub anchor_of :
      Tracklet F → EmbeddingResult F → List F → DiarizationConfig F → Result (AnchorEvidence F)
  anchor_of t e vector cfg = checked_anchor (record {
    tracklet_id = t.tracklet_id;
    vector = vector;
    weight =
        floats.mul (max_float floats floats.small e.quality)
          (floats.of_int (min t.clean_speech_us cfg.anchor_weight_cap_us));
    clean_speech_us = t.clean_speech_us;
    independent_block_id = t.continuity_group_id;
    continuity_group_id = t.continuity_group_id;
    start_us = t.start_us;
    end_us = t.end_us;
    scd_evidence_before = t.scd_evidence_before;
  })

  abbrev pub add_deferred : Tracklet F → String → Selection F → Selection F
  add_deferred t reason s = record s { deferred = (t, reason) ∷ s.deferred }

  -- One round of the loop, before what the later ones select.
  abbrev pub select_vector :
      Tracklet F
      → EmbeddingResult F
      → DiarizationConfig F
      → Selection F
      → Option (List F)
      → Result (Selection F)
  select_vector t e cfg later none = ok (add_deferred t "INVALID_EMBEDDING" later)
  select_vector t e cfg later (some vector) =
      if not e.is_valid
      then ok (add_deferred t "INVALID_EMBEDDING" later)
      else if is_eligible t e cfg
      then (anchor_of t e vector cfg >>= (λ a. ok (record later { anchors = a ∷ later.anchors })))
      else if is_support t.kind && (not t.protected_overlap && not t.mixed_tracklet_suspect)
      then ok (record later { support_list = (t, e) ∷ later.support_list })
      else ok (add_deferred t "DEFERRED_MICRO_OR_LOW_QUALITY" later)

  abbrev pub select_one :
      Tracklet F
      → DiarizationConfig F
      → Selection F
      → Option (EmbeddingResult F)
      → Result (Selection F)
  select_one t cfg later none = ok (add_deferred t "INVALID_EMBEDDING" later)
  select_one t cfg later (some e) = select_vector t e cfg later e.vector

  unfoldable pub select_anchor_evidence :
      List (Tracklet F) → List (EmbeddingResult F) → DiarizationConfig F → Result (Selection F)
  select_anchor_evidence [] embeddings cfg =
      ok (record { anchors = []; support_list = []; deferred = [] })
  select_anchor_evidence (t ∷ tracklets) embeddings cfg = do
    later ← select_anchor_evidence tracklets embeddings cfg
    select_one t cfg later (embedding_of t.tracklet_id embeddings)
