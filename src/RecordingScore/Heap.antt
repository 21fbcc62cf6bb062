-- ===== src/RecordingScore/Heap.antt =====
-- src/sddiar/evaluation.py: the heap of `_derive_change_boundaries` holds the records that are not
-- over, and the counter counts their speakers.
use Prim.Native.String.{String}
use text.Mathlib.Text.{◌==◌ as str_eq}
use sddiar.Base.{
  ℕ, ◌+◌, ◌≤◌, ◌≡◌, refl, inl, inr, true, false, List, [], ◌∷◌, sum_of, All, Bool-cases, ltb,
  if◌then◌else◌, arith,
}
use sddiar.Base.Sort.{insert_sorted, sum_of-insert_sorted, All-insert_sorted}
use sddiar.TimelineCells.{RttmRecord, LabelCounts, count_up, count_down}
use sddiar.TimelineCells.Labels.{
  one_for, number_of, ArePositive, number_of-count_up, number_of-count_down, ArePositive-count_up,
  ArePositive-count_down,
}
use sddiar.RecordingScore.Changes.{HeapEntry, le_entry, leave_heap, enter}

abbrev pub entry_of : RttmRecord → HeapEntry
entry_of r = (r.end_us, r.speaker_id)

abbrev pub EndsAscend : List HeapEntry → Type 0
EndsAscend [] = Unit
EndsAscend (x ∷ heap) = All (λ (y : HeapEntry). x.0 ≤ y.0) heap × EndsAscend heap

-- What is not over before the point
abbrev pub if_left : ℕ → (HeapEntry → ℕ) → HeapEntry → ℕ
if_left point size e = if ltb e.0 point then 0 else size e

all_left :
    (point end : ℕ) (size : HeapEntry → ℕ) (heap : List HeapEntry)
    → point ≤ end
    → All (λ (y : HeapEntry). end ≤ y.0) heap
    → sum_of size heap ≡ sum_of (if_left point size) heap
all_left point end size [] le h = refl
all_left point end size (e ∷ heap) le (first, h) =
    ground (arith, all_left point end size heap le h, first)

pub sum_of-leave_heap :
    (point : ℕ) (size : HeapEntry → ℕ) (active : LabelCounts) (heap : List HeapEntry)
    → EndsAscend heap
    → sum_of size (leave_heap point active heap).1 ≡ sum_of (if_left point size) heap
sum_of-leave_heap point size active [] h = refl
sum_of-leave_heap point size active ((end, speaker) ∷ heap) (first, h) =
    elim (Bool-cases (ltb end point)) [
      | inl over ↦
          let rest = sum_of-leave_heap point size (count_down speaker active) heap h in
          rw over (omega (arith, rest))
      | inr left ↦
          let rest = all_left point end size heap (ground (arith, left)) first in
          rw left (omega (arith, rest))
    ]

-- The counter counts the speakers of the heap.
abbrev pub AreCounted : LabelCounts → List HeapEntry → Type 0
AreCounted active heap =
    ArePositive active
    × ((l : String) → number_of l active ≡ sum_of (λ (e : HeapEntry). one_for (str_eq e.1 l)) heap)

pub leave_heap-AreCounted :
    (point : ℕ) (active : LabelCounts) (heap : List HeapEntry)
    → EndsAscend heap
    → AreCounted active heap
    → AreCounted (leave_heap point active heap).0 (leave_heap point active heap).1
      × EndsAscend (leave_heap point active heap).1
leave_heap-AreCounted point active [] ends counted = (counted, ends)
leave_heap-AreCounted point active ((end, speaker) ∷ heap) (first, ends) (positive, counts) =
    elim (Bool-cases (ltb end point)) [
      | inl over ↦ rw over (
          leave_heap-AreCounted point (count_down speaker active) heap ends (
            ArePositive-count_down speaker active positive,
            λ l.
                let all = counts l in
                let down =
                  number_of-count_down l speaker active positive
                    (λ same. ground (arith, all, same)) in
                omega (arith, all, down),
          ))
      | inr left ↦ rw left ((positive, counts), (first, ends))
    ]

All-later :
    (a b : ℕ) (heap : List HeapEntry)
    → a ≤ b
    → All (λ (y : HeapEntry). b ≤ y.0) heap
    → All (λ (y : HeapEntry). a ≤ y.0) heap
All-later a b [] le h = tt
All-later a b (y ∷ heap) le (first, h) = (omega (arith, first), All-later a b heap le h)

le_entry-ends :
    (x y : HeapEntry) → (le_entry x y ≡ true → x.0 ≤ y.0) × (le_entry x y ≡ false → y.0 ≤ x.0)
le_entry-ends x y = (λ h. ground (arith, h), λ h. ground (arith, h))

insert_sorted-EndsAscend :
    (e : HeapEntry) (heap : List HeapEntry)
    → EndsAscend heap
    → EndsAscend (insert_sorted le_entry e heap)
unfolding insert_sorted
insert_sorted-EndsAscend e [] h = (tt, tt)
insert_sorted-EndsAscend e (x ∷ heap) (first, h) = elim (Bool-cases (le_entry e x)) [
  | inl before ↦
      let le = (le_entry-ends e x).0 before in
      rw before ((le, All-later e.0 x.0 heap le first), (first, h))
  | inr after ↦
      let le = (le_entry-ends e x).1 after in
      rw after (
        All-insert_sorted le_entry (λ (y : HeapEntry). x.0 ≤ y.0) e heap le first,
        insert_sorted-EndsAscend e heap h,
      )
]

pub sum_of-enter :
    (size : HeapEntry → ℕ) (starting : List RttmRecord) (active : LabelCounts)
    (heap : List HeapEntry)
    → sum_of size (enter starting active heap).1
      ≡ sum_of (λ r. size (entry_of r)) starting + sum_of size heap
sum_of-enter size [] active heap = omega arith
sum_of-enter size (r ∷ starting) active heap = omega (
  arith,
  sum_of-enter size starting (count_up r.speaker_id active)
      (insert_sorted le_entry (entry_of r) heap),
  sum_of-insert_sorted le_entry size (entry_of r) heap,
)

pub enter-AreCounted :
    (starting : List RttmRecord) (active : LabelCounts) (heap : List HeapEntry)
    → EndsAscend heap
    → AreCounted active heap
    → AreCounted (enter starting active heap).0 (enter starting active heap).1
      × EndsAscend (enter starting active heap).1
enter-AreCounted [] active heap ends counted = (counted, ends)
enter-AreCounted (r ∷ starting) active heap ends (positive, counts) =
    enter-AreCounted starting (count_up r.speaker_id active)
      (insert_sorted le_entry (entry_of r) heap) (insert_sorted-EndsAscend (entry_of r) heap ends)
      (
        ArePositive-count_up r.speaker_id active positive,
        λ l.
            let all = counts l in
            let up = number_of-count_up l r.speaker_id active in
            let more =
              sum_of-insert_sorted le_entry (λ (e : HeapEntry). one_for (str_eq e.1 l)) (entry_of r)
                heap in
            omega (arith, all, up, more),
      )
