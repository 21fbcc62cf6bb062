-- ===== src/RecordingScore/Prior.antt =====
-- src/sddiar/evaluation.py: the speakers `prior` of `_derive_change_boundaries` at a point are those
-- of the records that speak up to it, else those of the latest end.
use Prim.Native.String.{String}
use text.Mathlib.Text.{◌==◌ as str_eq}
use text.Mathlib.TextEquality.{eq_iff}
use sddiar.Base.{
  ℕ, ◌+◌, ◌<◌, ◌≡◌, refl, sym, ap, subst, ◌∙◌, inl, inr, Bool, true, false, ◌&&◌, ◌||◌, Option,
  none, some, List, [], ◌∷◌, map, any, sum_of, All, Bool-cases, ltb, leb, ◌==◌, if◌then◌else◌,
  arith,
}
use sddiar.DiarizationError.{label_in}
use sddiar.WordScores.Counts.{sum_of-keep_if}
use sddiar.TimelineCells.{RttmRecord, LabelCounts}
use sddiar.TimelineCells.Labels.{one_for}
use sddiar.TimelineCells.Says.{label_in-number_of}
use sddiar.RecordingScore.Changes.{
  HeapEntry, Sweep, advance, prior_of, or_latest, started, starting_at, leave_heap, pass_ends,
}
use sddiar.RecordingScore.Heap.{
  entry_of, EndsAscend, if_left, AreCounted, sum_of-leave_heap, leave_heap-AreCounted, sum_of-enter,
  enter-AreCounted,
}
use sddiar.RecordingScore.Latest.{
  with_speakers, latest_speakers, IsUpTo, AreEnds, pass_ends-AreEnds, IsLatest, AreEnds-IsLatest,
}

-- A record that has started before the point and is not over before it
abbrev pub speaks_up_to : ℕ → RttmRecord → Bool
speaks_up_to point r = ltb r.start_us point && leb point r.end_us

abbrev pub spoken_by : ℕ → String → RttmRecord → Bool
spoken_by point l r = speaks_up_to point r && str_eq r.speaker_id l

-- The speakers before a point: those that speak up to it, or if there are none those whose records
-- have the latest end.
pub data IsPrior (records : List RttmRecord) (point : ℕ) : List String → Type 0 where
  speaking :
      (prior : List String)
      → any (speaks_up_to point) records ≡ true
      → ((l : String) → label_in l prior ≡ any (spoken_by point l) records)
      → IsPrior records point prior
  silent :
      (now : Option ℕ)
      → any (speaks_up_to point) records ≡ false
      → IsLatest records point now
      → IsPrior records point (latest_speakers records now)

-- What a record adds to the size of the heap
abbrev pub held : ℕ → (HeapEntry → ℕ) → RttmRecord → ℕ
held point size r = if speaks_up_to point r then size (entry_of r) else 0

abbrev of_label : String → HeapEntry → ℕ
of_label l e = one_for (str_eq e.1 l)

any-held :
    (point : ℕ) (l : String) (records : List RttmRecord)
    → ltb 0 (sum_of (held point (of_label l)) records) ≡ any (spoken_by point l) records
any-held point l [] = refl
any-held point l (r ∷ records) = elim (Bool-cases (spoken_by point l r)) [
  | inl spoken ↦ ground (arith, any-held point l records, spoken)
  | inr other ↦ ground (arith, any-held point l records, other)
]

none_held :
    (point : ℕ) (records : List RttmRecord)
    → ((l : String) → sum_of (held point (of_label l)) records ≡ 0)
    → any (speaks_up_to point) records ≡ false
none_held point [] h = refl
none_held point (r ∷ records) h =
    let own = h r.speaker_id in
    let same = (eq_iff r.speaker_id r.speaker_id).1 refl in
    let here : speaks_up_to point r ≡ false = ground (arith, own, same) in
    let rest = none_held point records (λ l. let all = h l in ground (arith, all, here)) in
    ground (arith, here, rest)

spoken_by-any :
    (point : ℕ) (l : String) (records : List RttmRecord)
    → any (spoken_by point l) records ≡ true
    → any (speaks_up_to point) records ≡ true
spoken_by-any point l [] h = h
spoken_by-any point l (r ∷ records) h = ground (arith, spoken_by-any point l records, h)

IsUpTo-le : (point next : ℕ) (now : Option ℕ) → point < next → IsUpTo point now → IsUpTo next now
IsUpTo-le point next none lt h = tt
IsUpTo-le point next (some end) lt h = omega (arith, lt, h)

module _ (records : List RttmRecord) where
  or_latest-IsPrior :
      (point : ℕ) (active : LabelCounts) (heap : List HeapEntry) (now : Option ℕ)
      → AreCounted active heap
      → ((size : HeapEntry → ℕ) → sum_of size heap ≡ sum_of (held point size) records)
      → IsLatest records point now
      → IsPrior records point
          (or_latest (map (λ (p : String × ℕ). p.0) active) (latest_speakers records now))
  or_latest-IsPrior point [] heap now (positive, counts) sums latest =
      silent now
        (none_held point records (λ l. let all = counts l in omega (arith, all, sums (of_label l))))
        latest
  or_latest-IsPrior point ((key, n) ∷ active) heap now (positive, counts) sums latest =
      let says = λ (l : String).
        label_in-number_of l ((key, n) ∷ active) positive
        ∙ ap (ltb 0) (counts l ∙ sums (of_label l))
        ∙ any-held point l records in
      let labels = map (λ (p : String × ℕ). p.0) active in
      let own : label_in key (key ∷ labels) ≡ true =
        ap (λ (b : Bool). b || label_in key labels) ((eq_iff key key).1 refl) in
      speaking (key ∷ labels) (spoken_by-any point key records (sym (says key) ∙ own)) says

  -- What the sweep keeps before a point: the heap, the counter and the ends
  abbrev pub IsReady : ℕ → Sweep → Type 0
  IsReady point s =
      EndsAscend s.active_heap
      × AreCounted s.active s.active_heap
      × ((size : HeapEntry → ℕ)
          → sum_of (if_left point size) s.active_heap ≡ sum_of (held point size) records)
      × (latest : Option ℕ) × (ends : List ℕ) × (s.latest_end_speakers
          ≡ latest_speakers records latest)
      × (s.ordered_ends ≡ map (with_speakers records) ends)
      × IsUpTo point latest
      × AreEnds records latest ends

  -- One step of the heap: what is over leaves, what starts enters.
  held_next :
      (point next : ℕ) (size : HeapEntry → ℕ) (r : RttmRecord)
      → point < next
      → (leb r.start_us point || leb next r.start_us) ≡ true
      → (if r.start_us == point then if_left next size (entry_of r) else 0)
          + held point (if_left next size) r
        ≡ held next size r
  held_next point next size r lt h = ground (arith, lt, h)

  sum_of-held_next :
      (point next : ℕ) (size : HeapEntry → ℕ) (some_records : List RttmRecord)
      → point < next
      → All (λ (r : RttmRecord). (leb r.start_us point || leb next r.start_us) ≡ true) some_records
      → sum_of
            (λ (r : RttmRecord). if r.start_us == point then if_left next size (entry_of r) else 0)
            some_records
          + sum_of (held point (if_left next size)) some_records
        ≡ sum_of (held next size) some_records
  sum_of-held_next point next size [] lt h = omega arith
  sum_of-held_next point next size (r ∷ some_records) lt (first, h) = omega (
    arith,
    held_next point next size r lt first,
    sum_of-held_next point next size some_records lt h,
  )

  left_sums :
      (point : ℕ) (s : Sweep) (size : HeapEntry → ℕ)
      → IsReady point s
      → sum_of size (leave_heap point s.active s.active_heap).1 ≡ sum_of (held point size) records
  left_sums point s size ready =
      sum_of-leave_heap point size s.active s.active_heap ready.0 ∙ ready.2 size

  passed_ends :
      (point : ℕ) (s : Sweep)
      → IsReady point s
      → (now : Option ℕ) × (left : List ℕ) × (pass_ends point s.latest_end_speakers s.ordered_ends
          ≡ (latest_speakers records now, map (with_speakers records) left))
        × IsUpTo point now
        × AreEnds records now left
        × IsLatest records point now
  passed_ends point s (ascend, counted, sums, latest, ends, same, same_ends, up, known) =
      let (now, left, passed, up_now, known_now, after) =
        pass_ends-AreEnds records point latest ends up known in
      (
        now,
        left,
        ap (λ labels. pass_ends point labels s.ordered_ends) same
            ∙ ap (pass_ends point (latest_speakers records latest)) same_ends
            ∙ passed,
        up_now,
        known_now,
        AreEnds-IsLatest records point now left up_now known_now after,
      )

  pub advance-IsPrior :
      (point : ℕ) (s : Sweep) → IsReady point s → IsPrior records point (prior_of (advance point s))
  advance-IsPrior point s ready =
      let (now, left, passed, up_now, known_now, latest) = passed_ends point s ready in
      let (counted, ascend) = leave_heap-AreCounted point s.active s.active_heap ready.0 ready.1 in
      let now_left = leave_heap point s.active s.active_heap in
      subst
        (λ (labels : List String). IsPrior records point (
          or_latest (map (λ (p : String × ℕ). p.0) (leave_heap point s.active s.active_heap).0)
            labels))
        (sym (ap (λ (p : List String × List (ℕ × List String)). p.0) passed))
        (or_latest-IsPrior point now_left.0 now_left.1 now counted
          (λ size. left_sums point s size ready) latest)

  pub started-IsReady :
      (point next : ℕ) (s : Sweep)
      → point < next
      → All (λ (r : RttmRecord). (leb r.start_us point || leb next r.start_us) ≡ true) records
      → IsReady point s
      → IsReady next (started (starting_at point records) (advance point s))
  started-IsReady point next s lt between ready =
      let (now, left, passed, up_now, known_now, latest) = passed_ends point s ready in
      let (counted, ascend) = leave_heap-AreCounted point s.active s.active_heap ready.0 ready.1 in
      let now_left = leave_heap point s.active s.active_heap in
      let starting = starting_at point records in
      let (counted_next, ascend_next) =
        enter-AreCounted starting now_left.0 now_left.1 ascend counted in
      (
        ascend_next,
        counted_next,
        λ size.
            sum_of-enter (if_left next size) starting now_left.0 now_left.1
            ∙ omega (
              arith,
              sum_of-keep_if (λ (r : RttmRecord). r.start_us == point)
                  (λ r. if_left next size (entry_of r)) records,
              left_sums point s (if_left next size) ready,
              sum_of-held_next point next size records lt between,
            ),
        now,
        left,
        ap (λ (p : List String × List (ℕ × List String)). p.0) passed,
        ap (λ (p : List String × List (ℕ × List String)). p.1) passed,
        IsUpTo-le point next now lt up_now,
        known_now,
      )
