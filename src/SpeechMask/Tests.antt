-- ===== src/SpeechMask/Tests.antt =====
-- Runs of the speech mask helper, and instances of its theorems.
use sddiar.Base.{
  ℕ, ◌≤◌, ◌≡◌, refl, true, ◌&&◌, none, some, List, [], ◌∷◌, ok, err, value_error, arith, ltb,
  length,
}
use sddiar.Base.Int.{pos, negsuc}
use sddiar.Intervals.{Interval, covers, Separated}
use sddiar.SpeechMask.{
  MaskItem, int, other, sequence, fields, clip_all, clip_and_coalesce_speech_mask,
}
use sddiar.SpeechMask.Laws.{names, clip_and_coalesce_total, covers-clip_and_coalesce}

-- Out of order, with a negative start, a dict that uses the short names, and two unreadable items.
abbrev mask : List MaskItem
mask =
    sequence (int (pos 30) ∷ int (pos 90) ∷ [])
    ∷ sequence (int (negsuc 4) ∷ int (pos 10) ∷ other ∷ [])
    ∷ fields none (some (int (pos 12))) none (some (int (pos 20)))
    ∷ sequence (int (pos 3) ∷ [])
    ∷ fields (some other) (some (int (pos 1))) none (some (int (pos 40)))
    ∷ []

mask_gapless :
    clip_and_coalesce_speech_mask (pos 50) mask (pos 0) ≡ ok ((0, 10) ∷ (12, 20) ∷ (30, 50) ∷ [])
unfolding clip_and_coalesce_speech_mask clip_all sddiar.Base.Sort.sort sddiar.Intervals.coalesce
mask_gapless = refl

mask_bridged : clip_and_coalesce_speech_mask (pos 50) mask (pos 2) ≡ ok ((0, 20) ∷ (30, 50) ∷ [])
unfolding clip_and_coalesce_speech_mask clip_all sddiar.Base.Sort.sort sddiar.Intervals.coalesce
mask_bridged = refl

mask_negative : clip_and_coalesce_speech_mask (negsuc 0) mask (pos 2) ≡ err value_error
unfolding clip_and_coalesce_speech_mask
mask_negative = refl

clip_and_coalesce_total_example :
    (out : List Interval) × (clip_and_coalesce_speech_mask (pos 50) mask (pos 2) ≡ ok out)
    × Separated 2 out
clip_and_coalesce_total_example = clip_and_coalesce_total 50 2 mask (omega arith)

covers-clip_and_coalesce_example :
    covers 35 ((0, 10) ∷ (12, 20) ∷ (30, 50) ∷ []) ≡ (ltb 35 50 && names 35 mask)
covers-clip_and_coalesce_example =
    covers-clip_and_coalesce 50 mask 35 ((0, 10) ∷ (12, 20) ∷ (30, 50) ∷ []) mask_gapless
