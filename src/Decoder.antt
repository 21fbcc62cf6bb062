-- ===== src/Decoder.antt =====
-- src/sddiar/diarization.py: the sequence decoder, which labels the tracklets by a Viterbi search
-- over the speakers and UNKNOWN, OVERLAP and OTHER, and then drops isolated short runs.
pub mod Viterbi
pub mod Smooth
pub mod Timeline
pub mod Sequence
pub mod Decoded
mod Tests
use Prim.Native.String.{String}
use text.Mathlib.Text.{◌==◌ as str_eq}
use sddiar.Base.{
  ℕ, Bool, true, false, not, ◌&&◌, ◌||◌, Option, none, some, List, [], ◌∷◌, ◌++◌, map, reverse_onto,
  Result, ok, ◌>>=◌, if◌then◌else◌, ltb, leb, ◌==◌, ◌-◌, max,
}
use sddiar.Base.Sort.{sort}
use sddiar.Floats.{Floats, min_float, max_float}
use sddiar.Spans.{
  Speaker, speaker_00, speaker_01, unknown, overlap, other, non_speech, unsupported, same_speaker,
  is_session_speaker,
}
use sddiar.Tracklets.{Kind, anchor, support, micro, Tracklet, DiarizationConfig}
use sddiar.Hypotheses.{HypothesisDecision, is_confirmed, has_third_risk, last_value}
use sddiar.Assignment.{
  SpeakerState, SpeakerStates, EmbeddingResult, SpeakerAssignment, usable, embedding_of, le_state,
  role_thresholds, state_distances, local_assignment, re_evaluate_micro,
}

-- A tracklet with what `decode_sequence` looks up for it; `soft` is empty without soft emissions.
pub record Step (F : Type 0) : Type 0 where
  pub tracklet : Tracklet F
  pub local : SpeakerAssignment F
  pub soft : List (Speaker × F)

-- A candidate with its entries `dp[index][candidate]` and `back[index][candidate]`.
pub record Entry (F : Type 0) : Type 0 where
  pub candidate : Speaker
  pub cost : F
  pub pointer : Option Speaker

-- The steps so far with their rows, newest first.
abbrev pub Table : Type 0 → Type 0
Table F = List (Step F × List (Entry F))

-- The key that prefers UNKNOWN and then the name.
abbrev pub name_rank : Speaker → ℕ
name_rank unknown = 0
name_rank non_speech = 1
name_rank other = 2
name_rank overlap = 3
name_rank speaker_00 = 4
name_rank speaker_01 = 5
name_rank unsupported = 6

abbrev pub or_unknown : Option Speaker → Speaker
or_unknown none = unknown
or_unknown (some speaker) = speaker

module _ {F : Type 0} where
  abbrev pub value_at : Speaker → List (Speaker × F) → Option F
  value_at speaker [] = none
  value_at speaker ((k, value) ∷ rest) =
      if same_speaker k speaker then some value else value_at speaker rest

  -- `back[index][candidate]`
  unfoldable pub pointer_of : Speaker → List (Entry F) → Option Speaker
  pointer_of speaker [] = none
  pointer_of speaker (e ∷ row) =
      if same_speaker e.candidate speaker then e.pointer else pointer_of speaker row

  -- The loop that appends to `labels`, from the last label back.
  unfoldable pub backtrack : Table F → Speaker → List Speaker
  backtrack [] last = []
  backtrack ((step, row) ∷ table) last = last ∷ backtrack table (or_unknown (pointer_of last row))

  -- Whether the loop over isolated runs relabels `current`.
  abbrev pub is_isolated : Speaker → Speaker → Speaker → Tracklet F → DiarizationConfig F → Bool
  is_isolated before current after t cfg =
      is_session_speaker current
      && (same_speaker before after
          && (not (same_speaker current before)
              && leb (t.end_us - t.start_us) cfg.isolated_run_max_us))

  -- The loop over isolated runs after the label `before`, which may be a new one.
  unfoldable pub smooth :
      DiarizationConfig F → Speaker → List Speaker → List (Tracklet F) → List Speaker
  smooth cfg before (current ∷ after ∷ labels) (t ∷ tracklets) =
      let new = if is_isolated before current after t cfg then unknown else current in
      new ∷ smooth cfg new (after ∷ labels) tracklets
  smooth cfg before labels tracklets = labels

  unfoldable pub smooth_all : DiarizationConfig F → List Speaker → List (Tracklet F) → List Speaker
  smooth_all cfg (first ∷ labels) (t ∷ tracklets) = first ∷ smooth cfg first labels tracklets
  smooth_all cfg labels tracklets = labels

module _ {F : Type 0} (floats : Floats F) where
  -- `dp[index][candidate]`
  unfoldable pub cost_of : Speaker → List (Entry F) → F
  cost_of speaker [] = floats.infinity
  cost_of speaker (e ∷ row) =
      if same_speaker e.candidate speaker then e.cost else cost_of speaker row

  abbrev pub or_infinite : Option F → F
  or_infinite none = floats.infinity
  or_infinite (some d) = d

  abbrev pub unknown_emission : Kind → DiarizationConfig F → F
  unknown_emission micro cfg = cfg.unknown_micro_cost
  unknown_emission _ cfg = cfg.unknown_cost

  abbrev pub own_emission : Speaker → SpeakerAssignment F → F
  own_emission candidate a =
      if same_speaker a.speaker_id candidate
      then or_infinite a.effective_distance
      else floats.infinity

  -- `_emission`
  unfoldable pub emission :
      Tracklet F → Speaker → SpeakerAssignment F → HypothesisDecision F → DiarizationConfig F → F
  emission t speaker_00 a decision cfg = own_emission speaker_00 a
  emission t speaker_01 a decision cfg = own_emission speaker_01 a
  emission t unknown a decision cfg = unknown_emission t.kind cfg
  emission t overlap a decision cfg = if t.protected_overlap then floats.zero else floats.infinity
  emission t other a decision cfg =
      if has_third_risk decision then cfg.other_cost else floats.infinity
  emission t _ a decision cfg = floats.infinity

  abbrev pub found_or_emission :
      Step F → Speaker → HypothesisDecision F → DiarizationConfig F → Option F → F
  found_or_emission step candidate decision cfg (some value) = value
  found_or_emission step candidate decision cfg none =
      emission step.tracklet candidate step.local decision cfg

  -- The emission that the search uses.
  unfoldable pub step_emission : HypothesisDecision F → DiarizationConfig F → Step F → Speaker → F
  step_emission decision cfg step candidate =
      found_or_emission step candidate decision cfg (value_at candidate step.soft)

  abbrev pub evidence_or_zero : Option F → F
  evidence_or_zero none = floats.zero
  evidence_or_zero (some value) = value

  -- The cost of a change of speaker.
  abbrev pub switch_cost : ℕ → Tracklet F → DiarizationConfig F → F
  switch_cost gap t cfg =
      let share = floats.div (floats.of_int gap) (floats.of_int (max 1 cfg.long_gap_reset_us)) in
      let relief =
        floats.add (floats.mul cfg.scd_relief (evidence_or_zero t.scd_evidence_before))
          (floats.mul cfg.gap_relief (min_float floats floats.one share)) in
      max_float floats floats.zero (floats.sub cfg.switch_base relief)

  -- `_transition`, with the gap that is no less than 0
  unfoldable pub transition : Speaker → Speaker → Tracklet F → Tracklet F → DiarizationConfig F → F
  transition before current before_tracklet t cfg =
      let gap = t.start_us - before_tracklet.end_us in
      if leb cfg.long_gap_reset_us gap
      then floats.zero
      else if same_speaker before current
      then floats.zero
      else if is_session_speaker before && is_session_speaker current
      then switch_cost gap t cfg
      else cfg.uncertainty_transition

  -- The key `(cost, 0 if UNKNOWN else 1, name)`
  abbrev pub is_before : F × Speaker → F × Speaker → Bool
  is_before x y =
      floats.lt x.0 y.0 || (not (floats.lt y.0 x.0) && ltb (name_rank x.1) (name_rank y.1))

  -- `min(options, key=...)`, which keeps the first of its least elements
  unfoldable pub least : F × Speaker → List (F × Speaker) → F × Speaker
  least best [] = best
  least best (x ∷ options) = least (if is_before x best then x else best) options

  -- The candidates are never empty.
  unfoldable pub choose : List (F × Speaker) → F × Speaker
  choose [] = (floats.infinity, unknown)
  choose (x ∷ options) = least x options

  module _ (decision : HypothesisDecision F) (cfg : DiarizationConfig F)
      (candidates : List Speaker) where
    -- The cost of coming from `before`.
    abbrev pub option_from : Step F → List (Entry F) → Step F → Speaker → Speaker → F × Speaker
    option_from before_step row step candidate before = (
      floats.add
          (floats.add (cost_of before row)
            (transition before candidate before_step.tracklet step.tracklet cfg))
          (step_emission decision cfg step candidate),
      before,
    )

    abbrev pub first_entry : Step F → Speaker → Entry F
    first_entry step candidate = record {
      candidate = candidate;
      cost = step_emission decision cfg step candidate;
      pointer = none;
    }

    abbrev pub next_entry : Step F → List (Entry F) → Step F → Speaker → Entry F
    next_entry before_step row step candidate =
        let best = choose (map (option_from before_step row step candidate) candidates) in
        record { candidate = candidate; cost = best.0; pointer = some best.1 }

    -- One round of the loop over the tracklets.
    unfoldable pub extend : Table F → Step F → Table F
    extend [] step = (step, map (first_entry step) candidates) ∷ []
    extend ((before_step, row) ∷ table) step =
        (step, map (next_entry before_step row step) candidates) ∷ (before_step, row) ∷ table

    unfoldable pub search_rows : Table F → List (Step F) → Table F
    search_rows table [] = table
    search_rows table (step ∷ steps) = search_rows (extend table step) steps

    abbrev pub last_option : List (Entry F) → Speaker → F × Speaker
    last_option row candidate = (cost_of candidate row, candidate)

    -- `last` and the labels before the reversal.
    unfoldable pub labels_back : Table F → List Speaker
    labels_back [] = []
    labels_back ((step, row) ∷ table) =
        backtrack ((step, row) ∷ table) (choose (map (last_option row) candidates)).1

    unfoldable pub search_labels : List (Step F) → List Speaker
    search_labels steps = reverse_onto (labels_back (search_rows [] steps)) []

  abbrev pub infinite_all : SpeakerStates F → List (Speaker × F)
  infinite_all [] = []
  infinite_all ((speaker, state) ∷ states) = (speaker, floats.infinity) ∷ infinite_all states

  unfoldable pub bounded_all :
      Kind → List F → DiarizationConfig F → SpeakerStates F → Result (List (Speaker × F))
  bounded_all kind vector cfg [] = ok []
  bounded_all kind vector cfg ((speaker, state) ∷ states) = do
    let (ceiling, limit, least_margin) = role_thresholds floats kind cfg
    (stable, effective) ← state_distances floats vector state cfg
    later ← bounded_all kind vector cfg states
    ok (
        (
          speaker,
          if floats.leb stable ceiling && floats.leb effective limit
              then effective
              else floats.infinity,
        )
        ∷ later)

  abbrev pub soft_of :
      Tracklet F
      → DiarizationConfig F
      → SpeakerStates F
      → Option (List F)
      → Result (List (Speaker × F))
  soft_of t cfg states none = ok (infinite_all states)
  soft_of t cfg states (some vector) = bounded_all t.kind vector cfg (sort le_state states)

  -- `_soft_speaker_emissions`
  unfoldable pub soft_speaker_emissions :
      Tracklet F
      → Option (EmbeddingResult F)
      → SpeakerStates F
      → HypothesisDecision F
      → DiarizationConfig F
      → Result (List (Speaker × F))
  soft_speaker_emissions t embedding states decision cfg =
      if t.protected_overlap || (t.mixed_tracklet_suspect || not (is_confirmed decision.state))
      then ok (infinite_all states)
      else soft_of t cfg states (usable embedding)
