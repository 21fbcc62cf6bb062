-- ===== src/SpeechMask/Laws.antt =====
-- The coalesced speech mask against the set of instants that the raw items name.
use sddiar.Base.{
  ℕ, ◌≤◌, ◌<◌, Bool, true, false, ◌&&◌, ◌||◌, ◌≡◌, Option, none, some, List, [], ◌∷◌, ok, ltb, All,
  any, arith, Option-cases, inl, inr, length,
}
use sddiar.Base.Int.{ℤ, pos, negsuc, ltb_ℤ, leb_ℤ}
use sddiar.Base.Sort.{sort}
use sddiar.Intervals.{Interval, covers, le_pair, coalesce, Separated}
use sddiar.Intervals.Coverage.{IsNonempty, covers-coalesce-sort, covers-coalesce-sort-le}
use sddiar.Intervals.Gaps.{coalesce-sort-Separated}
use sddiar.SpeechMask.{
  MaskItem, interval, read_item, clip_all, max_mask_items, clip_and_coalesce_speech_mask,
}

-- Whether a raw item names the instant `t`, on the signed integers and before any clipping.
abbrev pub named : ℕ → Option (ℤ × ℤ) → Bool
named t none = false
named t (some (start, end)) = leb_ℤ start (pos t) && ltb_ℤ (pos t) end

abbrev pub names : ℕ → List MaskItem → Bool
names t mask = any (λ raw. named t (interval raw)) mask

-- Clipping keeps exactly the named instants before the end of the source.
covers-read_item :
    (t duration : ℕ) (raw : ℤ × ℤ) (rest : List Interval)
    → covers t (read_item duration (some raw) rest)
      ≡ ((ltb t duration && named t (some raw)) || covers t rest)
covers-read_item t duration (pos a, pos b) rest = ground arith
covers-read_item t duration (pos a, negsuc b) rest = ground arith
covers-read_item t duration (negsuc a, pos b) rest = ground arith
covers-read_item t duration (negsuc a, negsuc b) rest = ground arith

covers-clip_all :
    (t duration : ℕ) (mask : List MaskItem)
    → covers t (clip_all duration mask) ≡ (ltb t duration && names t mask)
unfolding clip_all
covers-clip_all t duration [] = ground arith
covers-clip_all t duration (raw ∷ mask) = elim (Option-cases (interval raw)) [
  | inl unread ↦ rw unread (covers-clip_all t duration mask)
  | inr (x, read) ↦ rw read (
      ground (
        arith,
        covers-read_item t duration x (clip_all duration mask),
        covers-clip_all t duration mask,
      ))
]

-- What clipping keeps is non-empty and ends by the end of the source.
abbrev pub Fits : ℕ → Interval → Type 0
Fits duration (start, end) = (start < end) × (end ≤ duration)

read_item-Fits :
    (duration : ℕ) (read : Option (ℤ × ℤ)) (rest : List Interval)
    → All (Fits duration) rest
    → All (Fits duration) (read_item duration read rest)
read_item-Fits duration none rest h = h
read_item-Fits duration (some (pos a, pos b)) rest h = ground arith
read_item-Fits duration (some (pos a, negsuc b)) rest h = ground arith
read_item-Fits duration (some (negsuc a, pos b)) rest h = ground arith
read_item-Fits duration (some (negsuc a, negsuc b)) rest h = ground arith

clip_all-Fits : (duration : ℕ) (mask : List MaskItem) → All (Fits duration) (clip_all duration mask)
unfolding clip_all
clip_all-Fits duration [] = tt
clip_all-Fits duration (raw ∷ mask) =
    read_item-Fits duration (interval raw) (clip_all duration mask) (clip_all-Fits duration mask)

Fits-IsNonempty : (duration : ℕ) (xs : List Interval) → All (Fits duration) xs → All IsNonempty xs
Fits-IsNonempty duration [] h = tt
Fits-IsNonempty duration (x ∷ xs) h = (h.0.0, Fits-IsNonempty duration xs h.1)

-- A mask of at most a million items is always accepted, and the result is ascending, with
-- non-empty intervals and every gap longer than the merge gap.
pub clip_and_coalesce_total :
    (duration gap : ℕ) (mask : List MaskItem)
    → length mask ≤ max_mask_items
    → (out : List Interval) × (clip_and_coalesce_speech_mask (pos duration) mask (pos gap) ≡ ok out)
      × Separated gap out
unfolding clip_and_coalesce_speech_mask
clip_and_coalesce_total duration gap mask small = (
  coalesce gap [] (sort le_pair (clip_all duration mask)),
  ground arith,
  coalesce-sort-Separated gap (clip_all duration mask)
      (Fits-IsNonempty duration (clip_all duration mask) (clip_all-Fits duration mask)),
)

-- With no gap to bridge, the result covers exactly the instants of the source that some
-- readable item of the mask names; items of other shapes, empty and negative parts count for
-- nothing.
pub covers-clip_and_coalesce :
    (duration : ℕ) (mask : List MaskItem) (t : ℕ) (out : List Interval)
    → clip_and_coalesce_speech_mask (pos duration) mask (pos 0) ≡ ok out
    → covers t out ≡ (ltb t duration && names t mask)
unfolding clip_and_coalesce_speech_mask
covers-clip_and_coalesce duration mask t out e =
    ground (arith, covers-coalesce-sort t (clip_all duration mask), covers-clip_all t duration mask)

-- Whatever the merge gap, no named instant of the source is lost.
pub covers-clip_and_coalesce-le :
    (duration gap : ℕ) (mask : List MaskItem) (t : ℕ) (out : List Interval)
    → clip_and_coalesce_speech_mask (pos duration) mask (pos gap) ≡ ok out
    → t < duration
    → names t mask ≡ true
    → covers t out ≡ true
unfolding clip_and_coalesce_speech_mask
covers-clip_and_coalesce-le duration gap mask t out e lt named_t =
    ground (
      arith,
      covers-coalesce-sort-le t gap (clip_all duration mask),
      covers-clip_all t duration mask,
    )
