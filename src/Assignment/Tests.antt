-- ===== src/Assignment/Tests.antt =====
-- Tests of the local assignment.
use Prim.Native.String.{String}
use sddiar.Base.{ℕ, ◌≡◌, refl, Bool, true, false, none, some, List, [], ◌∷◌, ok}
use sddiar.Floats.Tests.{naturals, naturals-IsOrdered}
use sddiar.Spans.{Speaker, speaker_00, speaker_01}
use sddiar.Hypotheses.{HypothesisDecision, h2_confirmed}
use sddiar.Tracklets.{Tracklet, anchor}
use sddiar.Tracklets.Tests.{test_cfg, piece}
use sddiar.Assignment.{
  SpeakerState, SpeakerStates, EmbeddingResult, SpeakerAssignment, local_assignment,
}
use sddiar.Assignment.Gate.{IsGated, local_assignment-IsGated}

abbrev pub state_at : Speaker → List ℕ → SpeakerState ℕ
state_at speaker center = record {
  speaker_id = speaker;
  stable_anchor_centroid = center;
  stable_anchor_ids = [];
  stable_dispersion = 0;
  recent_centroid = none;
  recent_mass = 0;
  recent_last_us = none;
  recent_frozen = false;
  drift_flags = [];
}

abbrev pub two_states : SpeakerStates ℕ
two_states =
    (speaker_00, state_at speaker_00 (1 ∷ 0 ∷ []))
    ∷ (speaker_01, state_at speaker_01 (0 ∷ 1 ∷ []))
    ∷ []

abbrev pub embedded : String → List ℕ → EmbeddingResult ℕ
embedded id vector = record {
  tracklet_id = id;
  is_valid = true;
  vector = some vector;
  intra_window_consistency = 1;
  quality = 1;
}

abbrev pub confirmed : HypothesisDecision ℕ
confirmed = record { state = h2_confirmed; hypothesis = none; reason_codes = [] }

abbrev long_piece : Tracklet ℕ
long_piece = piece "a" 0 2000 anchor

abbrev second_speaker : SpeakerAssignment ℕ
second_speaker = record {
  tracklet_id = "a";
  speaker_id = speaker_01;
  attribution_status = "LOCAL_CANDIDATE";
  stable_distance = some 0;
  effective_distance = some 0;
  margin = some 1;
  evidence_ids = [];
  reason_codes = [];
}

second_test :
    local_assignment naturals long_piece
      (some (embedded "a" (0 ∷ 1 ∷ [])))
      two_states
      confirmed
      test_cfg
    ≡ ok second_speaker
unfolding local_assignment sddiar.Assignment.assign_scored sddiar.Assignment.scores_of
    sddiar.Base.Sort.sort sddiar.Assignment.state_distances
    sddiar.Assignment.Vectors.cosine_distance sddiar.Assignment.assign_best
    sddiar.Assignment.Vectors.sum_products sddiar.Assignment.assignment
second_test = refl

local_assignment-IsGated_example :
    IsGated naturals naturals-IsOrdered long_piece
      (some (embedded "a" (0 ∷ 1 ∷ [])))
      two_states
      confirmed
      test_cfg
      second_speaker
local_assignment-IsGated_example =
    local_assignment-IsGated naturals naturals-IsOrdered long_piece
      (some (embedded "a" (0 ∷ 1 ∷ []))) two_states confirmed test_cfg second_speaker second_test
      refl
