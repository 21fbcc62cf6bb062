-- ===== src/SpeechMask.antt =====
-- src/sddiar/segmentation.py: `clip_and_coalesce_speech_mask` with its reader `_interval`.
-- A mask item is any Python value; what the code can tell of one is written as `MaskItem`.
pub mod Laws
mod Tests
use sddiar.Base.{
  ℕ, Option, none, some, List, [], ◌∷◌, Result, ok, err, value_error, ◌>>=◌, ◌>>◌, raise_if, ltb,
  if◌then◌else◌, length,
}
use sddiar.Base.Int.{ℤ, pos, pos_part, ltb_ℤ, max_ℤ, min_ℤ}
use sddiar.Base.Sort.{sort}
use sddiar.Intervals.{Interval, le_pair, coalesce}

-- `other` is any value whose type is not exactly `int`, a `bool` or `None` included.
pub data Scalar : Type 0 where
  int : ℤ → Scalar
  other : Scalar

-- A tuple or list, or a dict or object with what it has under the four names that are read.
pub data MaskItem : Type 0 where
  sequence : List Scalar → MaskItem
  fields : Option Scalar → Option Scalar → Option Scalar → Option Scalar → MaskItem

-- `value.get(name, value.get(short))`
abbrev pub first_of_names : Option Scalar → Option Scalar → Scalar
first_of_names (some v) short = v
first_of_names none (some v) = v
first_of_names none none = other

-- The two `type(...) is not int` tests.
abbrev pub both_int : Scalar → Scalar → Option (ℤ × ℤ)
both_int (int start) (int end) = some (start, end)
both_int (int start) other = none
both_int other end = none

-- `_interval`; `fields start_us start end_us end`
pub interval : MaskItem → Option (ℤ × ℤ)
interval (sequence []) = none
interval (sequence (a ∷ [])) = none
interval (sequence (a ∷ b ∷ rest)) = both_int a b
interval (fields start_us start end_us end) =
    both_int (first_of_names start_us start) (first_of_names end_us end)

-- One item of the loop that fills `clipped`, for an interval that could be read.
abbrev pub clip : ℕ → ℤ × ℤ → Option Interval
clip duration (start, end) =
    if ltb_ℤ (max_ℤ (pos 0) start) (min_ℤ (pos duration) end)
    then some (pos_part (max_ℤ (pos 0) start), pos_part (min_ℤ (pos duration) end))
    else none

abbrev pub keep_clipped : Option Interval → List Interval → List Interval
keep_clipped none rest = rest
keep_clipped (some x) rest = x ∷ rest

abbrev pub read_item : ℕ → Option (ℤ × ℤ) → List Interval → List Interval
read_item duration none rest = rest
read_item duration (some raw) rest = keep_clipped (clip duration raw) rest

pub clip_all : ℕ → List MaskItem → List Interval
unfolding interval
clip_all duration [] = []
clip_all duration (raw ∷ mask) = read_item duration (interval raw) (clip_all duration mask)

abbrev pub max_mask_items : ℕ
max_mask_items = 1000000

pub clip_and_coalesce_speech_mask : ℤ → List MaskItem → ℤ → Result (List Interval)
clip_and_coalesce_speech_mask source_duration_us speech_mask merge_gap_us = do
  raise_if (ltb_ℤ source_duration_us (pos 0)) value_error
  raise_if (ltb_ℤ merge_gap_us (pos 0)) value_error
  raise_if (ltb max_mask_items (length speech_mask)) value_error
  ok (
      coalesce (pos_part merge_gap_us) []
        (sort le_pair (clip_all (pos_part source_duration_us) speech_mask)))
