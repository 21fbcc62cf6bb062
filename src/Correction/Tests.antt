-- ===== src/Correction/Tests.antt =====
-- Runs of the session corrections, and instances of their theorems.
use sddiar.Base.{
  ◌≡◌, refl, inl, inr, true, ◌⊎◌, none, some, List, [], ◌∷◌, ok, err, correction_conflict, arith, ℕ,
  All, ◌++◌,
}
use sddiar.Base.Int.{pos}
use sddiar.Base.Sort.{sort}
use Prim.Native.String.{String}
use sddiar.Spans.{
  Speaker, speaker_00, speaker_01, unknown, overlap, unsupported, same_speaker, DiarizationSpan,
}
use sddiar.Spans.Labels.{says, IsTimed}
use sddiar.Correction.{
  replace_all, replace_span, pieces_of, before_piece, human_piece, after_piece, apply_one,
  apply_all, reevaluate, check_reevaluated, HumanSpeakerCorrection, apply_session_corrections,
  le_correction,
}
use sddiar.Correction.Relabel.{Relabels, apply_session_corrections-Relabels}
use sddiar.Correction.Fixed.{fixed, apply_session_corrections_kept}

abbrev span : ℕ → ℕ → Speaker → DiarizationSpan
span a b speaker = record {
  span_id = "s";
  start_us = a;
  end_us = b;
  speaker_id = speaker;
  attribution_status = "UNKNOWN";
  evidence_ids = [];
  reason_codes = [];
}

-- Given out of order.
abbrev session : List DiarizationSpan
session = span 40 60 unknown ∷ span 0 10 speaker_00 ∷ span 10 40 unknown ∷ []

abbrev corrections : List HumanSpeakerCorrection
corrections =
    record {
      correction_id = "c2";
      source_start_us = pos 30;
      source_end_us = pos 90;
      confirmed_speaker_id = speaker_01;
      reviewer_evidence_id = "r2";
    }
    ∷ record {
      correction_id = "c1";
      source_start_us = pos 12;
      source_end_us = pos 20;
      confirmed_speaker_id = speaker_00;
      reviewer_evidence_id = "r1";
    }
    ∷ []

abbrev piece : String → ℕ → ℕ → Speaker → String → List String → List String → DiarizationSpan
piece id a b speaker status evidence reasons = record {
  span_id = id;
  start_us = a;
  end_us = b;
  speaker_id = speaker;
  attribution_status = status;
  evidence_ids = evidence;
  reason_codes = reasons;
}

abbrev confirmed : List String
confirmed = "HUMAN_CONFIRMED_SEGMENT" ∷ []

abbrev corrected : List DiarizationSpan
corrected =
    span 0 10 speaker_00
    ∷ piece "s:before" 10 12 unknown "UNKNOWN" [] []
    ∷ piece "s:human:c1" 12 20 speaker_00 "HUMAN_CONFIRMED" ("r1" ∷ []) confirmed
    ∷ piece "s:after:before" 20 30 unknown "UNKNOWN" [] []
    ∷ piece "s:after:human:c2" 30 40 speaker_01 "HUMAN_CONFIRMED" ("r2" ∷ []) confirmed
    ∷ piece "s:human:c2" 40 60 speaker_01 "HUMAN_CONFIRMED" ("r2" ∷ []) confirmed
    ∷ []

run_none : apply_session_corrections session corrections none ≡ ok corrected
unfolding apply_session_corrections apply_all apply_one replace_all replace_span pieces_of
    before_piece human_piece after_piece sddiar.Spans.diarization_span sddiar.Contracts.range
    reevaluate check_reevaluated sort
run_none = refl

-- A callback that drops a fixed span, and one that invents a label.
run_dropped :
    apply_session_corrections session corrections (some (λ s. [])) ≡ err correction_conflict
unfolding apply_session_corrections apply_all apply_one replace_all replace_span pieces_of
    before_piece human_piece after_piece sddiar.Spans.diarization_span sddiar.Contracts.range
    reevaluate check_reevaluated sort
run_dropped = refl

run_invented :
    apply_session_corrections session corrections (some (λ s. span 70 80 unsupported ∷ s))
    ≡ err correction_conflict
unfolding apply_session_corrections apply_all apply_one replace_all replace_span pieces_of
    before_piece human_piece after_piece sddiar.Spans.diarization_span sddiar.Contracts.range
    reevaluate check_reevaluated sort
run_invented = refl

-- The first correction already attributed these instants.
run_twice :
    apply_session_corrections (span 0 50 unknown ∷ []) (corrections ++ corrections) none
    ≡ err correction_conflict
unfolding apply_session_corrections apply_all apply_one replace_all replace_span pieces_of
    before_piece human_piece after_piece sddiar.Spans.diarization_span sddiar.Contracts.range
    reevaluate check_reevaluated sort
run_twice = refl

run_missed :
    apply_session_corrections (span 0 10 unknown ∷ []) corrections none ≡ err correction_conflict
unfolding apply_session_corrections apply_all apply_one replace_all replace_span pieces_of
    before_piece human_piece after_piece sddiar.Spans.diarization_span sddiar.Contracts.range
    reevaluate check_reevaluated sort
run_missed = refl

run_same : apply_session_corrections session corrections (some (λ s. s)) ≡ ok corrected
unfolding apply_session_corrections apply_all apply_one replace_all replace_span pieces_of
    before_piece human_piece after_piece sddiar.Spans.diarization_span sddiar.Contracts.range
    reevaluate check_reevaluated sort
run_same = refl

session-IsTimed : All IsTimed session
session-IsTimed = ground arith

apply_session_corrections-Relabels_example :
    ((out : List DiarizationSpan) × (apply_session_corrections session corrections none ≡ ok out)
      × Relabels (sort le_correction corrections) session out)
    ⊎ (apply_session_corrections session corrections none ≡ err correction_conflict)
apply_session_corrections-Relabels_example =
    apply_session_corrections-Relabels session corrections (inr refl, (inl refl, tt))
      session-IsTimed

apply_session_corrections_kept_example : says (fixed (same_speaker speaker_00)) 5 corrected ≡ true
apply_session_corrections_kept_example =
    apply_session_corrections_kept (same_speaker speaker_00) 5 session corrections (some (λ s. s))
      corrected (inr refl, (inl refl, tt)) session-IsTimed run_same refl
