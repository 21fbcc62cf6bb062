-- ===== src/TimelineCells.antt =====
-- src/sddiar/evaluation.py: the cells of the timeline of a recording, in which the speakers do not
-- change, and `optimal_speaker_mapping` on them.
pub mod Tiling
pub mod Distinct
pub mod Labels
pub mod Activity
pub mod Steps
pub mod Says
pub mod Whole
pub mod Lengths
mod Tests
use Prim.Native.String.{String}
use text.Mathlib.Text.{◌==◌ as str_eq}
use sddiar.Base.{
  ℕ, ◌+◌, ◌-◌, max, min, Bool, true, false, not, ◌&&◌, ◌||◌, List, [], ◌∷◌, ◌++◌, map, length, any,
  keep_if, Result, ok, evaluation, ◌>>=◌, ◌>>◌, raise_if, map_each, ltb, leb, ◌==◌, if◌then◌else◌,
}
use sddiar.Base.Sort.{sort}
use sddiar.Intervals.{Interval}
use sddiar.Scoring.{sorted_set, merge_intervals}
use sddiar.DiarizationError.{TimelineCell, label_in, distinct_labels, str_le, mapping_from_cells}
use sddiar.WordScores.{is_reference_speaker, is_hypothesis_speaker}

-- `UEMInterval` and `RTTMRecord`, which have passed their checks
pub record UemInterval : Type 0 where
  pub file_id : String
  pub start_us : ℕ
  pub end_us : ℕ
  pub channel : String

pub record RttmRecord : Type 0 where
  pub file_id : String
  pub speaker_id : String
  pub start_us : ℕ
  pub end_us : ℕ
  pub channel : String

pub data Side : Type 0 where
  on_reference on_hypothesis : Side

-- An entry of `events`, with its time; `enters` is the delta 1, and otherwise it is -1.
pub record Event : Type 0 where
  pub time_us : ℕ
  pub side : Side
  pub label : String
  pub enters : Bool

-- A `Counter`: a label that is not in the list has the count 0.
abbrev pub LabelCounts : Type 0
LabelCounts = List (String × ℕ)

abbrev pub count_up : String → LabelCounts → LabelCounts
count_up label [] = (label, 1) ∷ []
count_up label ((key, n) ∷ counts) =
    if str_eq key label then (key, n + 1) ∷ counts else (key, n) ∷ count_up label counts

-- A count that is not positive any more is deleted.
abbrev pub count_down : String → LabelCounts → LabelCounts
count_down label [] = []
count_down label ((key, n) ∷ counts) =
    if str_eq key label
    then (if leb n 1 then counts else (key, n - 1) ∷ counts)
    else (key, n) ∷ count_down label counts

pub record Active : Type 0 where
  pub active_reference : LabelCounts
  pub active_hypothesis : LabelCounts

abbrev pub count_event : Bool → String → LabelCounts → LabelCounts
count_event enters label counts = if enters then count_up label counts else count_down label counts

abbrev pub apply_event : Side → Bool → String → Active → Active
apply_event on_reference enters label active = record active {
  active_reference = count_event enters label active.active_reference;
}
apply_event on_hypothesis enters label active = record active {
  active_hypothesis = count_event enters label active.active_hypothesis;
}

-- The events of `events[left]`, in the order in which they were appended.
abbrev pub apply_at : ℕ → List Event → Active → Active
apply_at left [] active = active
apply_at left (e ∷ events) active =
    apply_at left events
      (if e.time_us == left then apply_event e.side e.enters e.label active else active)

abbrev pub events_of : Side → ℕ → ℕ → List RttmRecord → List Event
events_of side score_start score_end [] = []
events_of side score_start score_end (r ∷ records) =
    let rest = events_of side score_start score_end records in
    let left = max score_start r.start_us in
    let right = min score_end r.end_us in
    if ltb left right
    then record { time_us = left; side = side; label = r.speaker_id; enters = true }
      ∷ record { time_us = right; side = side; label = r.speaker_id; enters = false }
      ∷ rest
    else rest

abbrev pub interval_events : List RttmRecord → List RttmRecord → Interval → List Event
interval_events refs hyps (score_start, score_end) =
    events_of on_reference score_start score_end refs
    ++ events_of on_hypothesis score_start score_end hyps

abbrev pub on_channel : String → List RttmRecord → List RttmRecord
on_channel channel records = keep_if (λ (r : RttmRecord). str_eq r.channel channel) records

-- `upper` is `str.upper`.
module _ (upper : String → String) where
  abbrev pub cell_at : ℕ → ℕ → Active → TimelineCell
  cell_at left right active =
      let reference_labels = map (λ (p : String × ℕ). p.0) active.active_reference in
      let hypothesis_labels = map (λ (p : String × ℕ). p.0) active.active_hypothesis in
      record {
        start_us = left;
        end_us = right;
        reference_speakers = keep_if (is_reference_speaker upper) reference_labels;
        hypothesis_speakers = keep_if (is_hypothesis_speaker upper) hypothesis_labels;
        reference_overlap_label = any (λ l. str_eq (upper l) "OVERLAP") reference_labels;
        hypothesis_overlap_label = any (λ l. str_eq (upper l) "OVERLAP") hypothesis_labels;
      }

  -- The loop over `ordered`, with what is active before its first time
  unfoldable pub cells_from : List Event → Active → List ℕ → List TimelineCell
  cells_from events active [] = []
  cells_from events active (left ∷ []) = []
  cells_from events active (left ∷ right ∷ ordered) =
      let now = apply_at left events active in
      let others = cells_from events now (right ∷ ordered) in
      if leb right left then others else cell_at left right now ∷ others

  unfoldable pub interval_cells : List RttmRecord → List RttmRecord → Interval → List TimelineCell
  interval_cells refs hyps (score_start, score_end) =
      let events = interval_events refs hyps (score_start, score_end) in
      cells_from events record { active_reference = []; active_hypothesis = [] }
        (sorted_set (score_start ∷ score_end ∷ map (λ (e : Event). e.time_us) events))

  abbrev pub all_intervals_cells :
      List RttmRecord → List RttmRecord → List Interval → List TimelineCell
  all_intervals_cells refs hyps [] = []
  all_intervals_cells refs hyps (x ∷ intervals) =
      interval_cells refs hyps x ++ all_intervals_cells refs hyps intervals

  abbrev pub channel_cells :
      List RttmRecord → List RttmRecord → List (String × List Interval) → List TimelineCell
  channel_cells reference hypothesis [] = []
  channel_cells reference hypothesis ((channel, intervals) ∷ channels) =
      all_intervals_cells (on_channel channel reference) (on_channel channel hypothesis) intervals
      ++ channel_cells reference hypothesis channels

  -- `_timeline_cells`; the channels of a dictionary are distinct.
  unfoldable pub timeline_cells :
      List RttmRecord → List RttmRecord → List (String × List Interval) → List TimelineCell
  timeline_cells reference hypothesis scoring_intervals =
      channel_cells reference hypothesis
        (sort (λ (x y : String × List Interval). str_le x.0 y.0) scoring_intervals)

abbrev pub channels_of : List UemInterval → List String
channels_of uem = distinct_labels [] (map (λ (i : UemInterval). i.channel) uem)

abbrev pub intervals_on : String → List UemInterval → List Interval
intervals_on channel uem =
    map (λ (i : UemInterval). (i.start_us, i.end_us))
      (keep_if (λ (i : UemInterval). str_eq i.channel channel) uem)

-- `_uem_by_channel`
unfoldable pub uem_by_channel : List UemInterval → Result (List (String × List Interval))
uem_by_channel uem = do
  raise_if (length uem == 0) evaluation
  map_each
      (λ channel.
        merge_intervals (intervals_on channel uem) >>= λ intervals. ok (channel, intervals))
      (sort str_le (channels_of uem))

abbrev pub file_ids : List RttmRecord → List RttmRecord → List UemInterval → List String
file_ids reference hypothesis uem =
    map (λ (r : RttmRecord). r.file_id) reference
    ++ map (λ (r : RttmRecord). r.file_id) hypothesis
    ++ map (λ (i : UemInterval). i.file_id) uem

-- `_validate_recording_ids`
unfoldable pub validate_recording_ids :
    String → List RttmRecord → List RttmRecord → List UemInterval → Result (Unit {0})
validate_recording_ids recording_id reference hypothesis uem = do
  let ids = file_ids reference hypothesis uem
  raise_if (length ids == 0 || any (λ id. not (str_eq id recording_id)) ids) evaluation
  raise_if (not (length (channels_of uem) == 1)) evaluation
  raise_if
      (any (λ (r : RttmRecord). not (label_in r.channel (channels_of uem)))
        (reference ++ hypothesis))
      evaluation

abbrev pub first_of : List String → String
first_of [] = ""
first_of (id ∷ ids) = id

-- Its last part is that of `_mapping_from_cells`.
unfoldable pub optimal_speaker_mapping :
    (String → String)
    → List RttmRecord
    → List RttmRecord
    → List UemInterval
    → Result (List ((String × String) × ℕ))
optimal_speaker_mapping upper reference hypothesis uem = do
  raise_if (length uem == 0) evaluation
  let ids = distinct_labels [] (file_ids reference hypothesis uem)
  raise_if (not (length ids == 1)) evaluation
  validate_recording_ids (first_of ids) reference hypothesis uem
  uem_by_channel uem >>= λ scoring_intervals.
      mapping_from_cells (timeline_cells upper reference hypothesis scoring_intervals)
