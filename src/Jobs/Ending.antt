-- ===== src/Jobs/Ending.antt =====
-- Repeated runs of a job end it.
use Prim.Native.String.{String}
use sddiar.Base.{
  ℕ, suc, ◌+◌, ◌≤◌, ◌≡◌, refl, ap, ◌∙◌, inl, inr, Bool, true, false, ◌||◌, Option, none, some, List,
  [], ◌∷◌, arith, ltb, leb, length,
}
use sddiar.Jobs.{LocalJob, JobFiles, Raised, get, Answer, run}
use sddiar.Jobs.Attempts.{is_ended, IsBounded, run-IsRun}

absurd_status {ℓ} : {B : Type ℓ} (b : Bool) → b ≡ true → b ≡ false → B
absurd_status b h k = ground arith

or_left : (b c : Bool) → b ≡ true → (b || c) ≡ true
or_left b c h = rw h refl

next_or :
    (b : Bool) (old new left last : ℕ)
    → new ≡ old + 1
    → (b || leb (new + left) last) ≡ true
    → (b || leb (old + suc left) last) ≡ true
next_or b old new left last e h = ground arith

over-or :
    (b : Bool) (old left last most : ℕ)
    → last ≤ most
    → (b || ltb last most) ≡ true
    → (b || leb (old + left) last) ≡ true
    → most ≤ left
    → b ≡ true
over-or b old left last most le h k enough = ground arith

module _ {ℓ} {A : Type ℓ} (most : ℕ) (results : String) (publish : String → A → Option Raised) where
  abbrev files_after : JobFiles → Option (LocalJob × JobFiles) → JobFiles
  files_after files none = files
  files_after files (some (done, after)) = after

  -- The files after a job was run once for each handler.
  pub runs : String → String → String → List (LocalJob → Answer A) → JobFiles → JobFiles
  runs began ended id [] files = files
  runs began ended id (handler ∷ handlers) files =
      runs began ended id handlers
        (files_after files (run most results publish began ended handler id files))

  -- An ended job stays what it is.
  runs_fixed :
      (began ended id : String) (handlers : List (LocalJob → Answer A)) (job : LocalJob)
      (files : JobFiles)
      → get id files ≡ some job
      → IsBounded most job
      → is_ended job.status ≡ true
      → get id (runs began ended id handlers files) ≡ some job
  unfolding runs
  runs_fixed began ended id [] job files found good over = found
  runs_fixed began ended id (handler ∷ handlers) job files found good over =
      let (next, after, ran, has, bounded, step) =
        run-IsRun most results publish began ended id handler job files found good in
      rw ran (elim step [
        | inl (_, same) ↦
            runs_fixed began ended id handlers job after (has ∙ ap some same) good over
        | inr (left, _) ↦ absurd_status (is_ended job.status) over left
      ])

  runs-IsBounded :
      (began ended id : String) (handlers : List (LocalJob → Answer A)) (job : LocalJob)
      (files : JobFiles)
      → get id files ≡ some job
      → IsBounded most job
      → (done : LocalJob) × (get id (runs began ended id handlers files) ≡ some done)
        × IsBounded most done
        × ((is_ended done.status || leb (job.attempts + length handlers) done.attempts) ≡ true)
  unfolding runs
  runs-IsBounded began ended id [] job files found good = (job, found, good, ground arith)
  runs-IsBounded began ended id (handler ∷ handlers) job files found good =
      let (next, after, ran, has, bounded, step) =
        run-IsRun most results publish began ended id handler job files found good in
      rw ran (elim step [
        | inl (over, same) ↦ (
          job,
          runs_fixed began ended id handlers job after (has ∙ ap some same) good over,
          good,
          or_left _ _ over,
        )
        | inr (_, count) ↦
            let (done, last, fine, enough) =
              runs-IsBounded began ended id handlers next after has bounded in
            (
              done,
              last,
              fine,
              next_or (is_ended done.status) job.attempts next.attempts (length handlers)
                  done.attempts count enough,
            )
      ])

  -- A job that the store has and whose attempts are bounded is ended after it was run as often
  -- as the maximum, whatever the handlers do; and its attempts are within the maximum.
  pub runs_ended :
      (began ended id : String) (handlers : List (LocalJob → Answer A)) (job : LocalJob)
      (files : JobFiles)
      → get id files ≡ some job
      → IsBounded most job
      → most ≤ length handlers
      → (done : LocalJob) × (get id (runs began ended id handlers files) ≡ some done)
        × (is_ended done.status ≡ true)
        × (done.attempts ≤ most)
  runs_ended began ended id handlers job files found good enough =
      let (done, last, (le, left), spent) =
        runs-IsBounded began ended id handlers job files found good in
      (
        done,
        last,
        over-or (is_ended done.status) job.attempts (length handlers) done.attempts most le left
            spent enough,
        le,
      )
