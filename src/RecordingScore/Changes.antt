-- ===== src/RecordingScore/Changes.antt =====
-- src/sddiar/evaluation.py: `_derive_change_boundaries`, the speaker changes that the records of a
-- channel show.
use Prim.Native.String.{String}
use text.Mathlib.Text.{◌==◌ as str_eq}
use sddiar.Base.{
  ℕ, Bool, true, false, not, ◌&&◌, ◌||◌, List, [], ◌∷◌, ◌++◌, map, any, keep_if, ltb, leb, ◌==◌,
  if◌then◌else◌,
}
use sddiar.Base.Sort.{sort, insert_sorted}
use sddiar.Intervals.{Interval}
use sddiar.Scoring.{sorted_set}
use sddiar.DiarizationError.{label_in, distinct_labels, str_le}
use sddiar.TimelineCells.{RttmRecord, LabelCounts, count_up, count_down}
use sddiar.RecordingScore.{Channels, inside_uem}

-- `(record.end_us, record.speaker_id)`, ordered as a tuple
abbrev pub HeapEntry : Type 0
HeapEntry = ℕ × String

abbrev pub le_entry : HeapEntry → HeapEntry → Bool
le_entry x y = ltb x.0 y.0 || (x.0 == y.0 && str_le x.1 y.1)

-- The key `(start_us, end_us, speaker_id)`
abbrev pub le_record : RttmRecord → RttmRecord → Bool
le_record x y =
    ltb x.start_us y.start_us
    || (x.start_us == y.start_us && le_entry (x.end_us, x.speaker_id) (y.end_us, y.speaker_id))

-- What the loop keeps: the ends that are to come with their speakers, in order; the speakers of the
-- latest end; the counter of the active speakers, and the heap, as an ordered list.
pub record Sweep : Type 0 where
  pub ordered_ends : List (ℕ × List String)
  pub latest_end_speakers : List String
  pub active : LabelCounts
  pub active_heap : List HeapEntry

-- `ends[end]`, a set
abbrev pub speakers_ending : ℕ → List RttmRecord → List String
speakers_ending end records =
    distinct_labels [] (
      map (λ (r : RttmRecord). r.speaker_id)
        (keep_if (λ (r : RttmRecord). r.end_us == end) records))

abbrev pub ends_of : List RttmRecord → List (ℕ × List String)
ends_of records =
    map (λ end. (end, speakers_ending end records))
      (sorted_set (map (λ (r : RttmRecord). r.end_us) records))

-- The loop that takes from the heap what ends before `point`
abbrev pub leave_heap : ℕ → LabelCounts → List HeapEntry → LabelCounts × List HeapEntry
leave_heap point active [] = (active, [])
leave_heap point active ((end, speaker) ∷ heap) =
    let popped = leave_heap point (count_down speaker active) heap in
    if ltb end point then popped else (active, (end, speaker) ∷ heap)

-- The loop over `ordered_ends` up to `point`
abbrev pub pass_ends :
    ℕ → List String → List (ℕ × List String) → List String × List (ℕ × List String)
pass_ends point latest [] = (latest, [])
pass_ends point latest ((end, speakers) ∷ ends) =
    let passed = pass_ends point speakers ends in
    if leb end point then passed else (latest, (end, speakers) ∷ ends)

abbrev pub enter : List RttmRecord → LabelCounts → List HeapEntry → LabelCounts × List HeapEntry
enter [] active heap = (active, heap)
enter (r ∷ starting) active heap =
    enter starting (count_up r.speaker_id active)
      (insert_sorted le_entry (r.end_us, r.speaker_id) heap)

abbrev pub or_latest : List String → List String → List String
or_latest [] latest = latest
or_latest (l ∷ labels) latest = l ∷ labels

abbrev pub has_any : List String → Bool
has_any [] = false
has_any (l ∷ labels) = true

-- What has left before `point`, and the ends that it has passed
abbrev pub advance : ℕ → Sweep → Sweep
advance point s =
    let (active, heap) = leave_heap point s.active s.active_heap in
    let (latest, ends) = pass_ends point s.latest_end_speakers s.ordered_ends in
    record {
      ordered_ends = ends;
      latest_end_speakers = latest;
      active = active;
      active_heap = heap;
    }

-- `prior`
abbrev pub prior_of : Sweep → List String
prior_of s = or_latest (map (λ (p : String × ℕ). p.0) s.active) s.latest_end_speakers

abbrev pub starting_at : ℕ → List RttmRecord → List RttmRecord
starting_at point records = keep_if (λ (r : RttmRecord). r.start_us == point) records

-- A speaker starts that has not been there before, although another has.
abbrev pub is_change : List RttmRecord → List String → Bool
is_change starting prior =
    has_any prior && any (λ (r : RttmRecord). not (label_in r.speaker_id prior)) starting

abbrev pub started : List RttmRecord → Sweep → Sweep
started starting s =
    let (active, heap) = enter starting s.active s.active_heap in
    record s { active = active; active_heap = heap }

-- The loop over the points, which are the distinct starts
unfoldable pub sweep_points : Channels → List RttmRecord → Sweep → List ℕ → List ℕ
sweep_points uem records s [] = []
sweep_points uem records s (point ∷ points) =
    let now = advance point s in
    let starting = starting_at point records in
    let rest = sweep_points uem records (started starting now) points in
    if is_change starting (prior_of now) && inside_uem point uem then point ∷ rest else rest

module _ (is_speaker : String → Bool) (records : List RttmRecord) where
  -- `ordered`
  abbrev pub speakers_of_channel : String → List RttmRecord
  speakers_of_channel channel =
      sort le_record
        (keep_if (λ (r : RttmRecord). str_eq r.channel channel && is_speaker r.speaker_id) records)

  unfoldable pub channel_changes : String × List Interval → List ℕ
  channel_changes c =
      let ordered = speakers_of_channel c.0 in
      sweep_points (c ∷ []) ordered
        record {
          ordered_ends = ends_of ordered;
          latest_end_speakers = [];
          active = [];
          active_heap = [];
        }
        (sorted_set (map (λ (r : RttmRecord). r.start_us) ordered))

  abbrev pub all_changes : Channels → List ℕ
  all_changes [] = []
  all_changes (c ∷ channels) = channel_changes c ++ all_changes channels

  -- `_derive_change_boundaries`; `is_speaker` is that of the side.
  unfoldable pub derive_change_boundaries : Channels → List ℕ
  derive_change_boundaries uem =
      sorted_set (all_changes (sort (λ (x y : String × List Interval). str_le x.0 y.0) uem))
