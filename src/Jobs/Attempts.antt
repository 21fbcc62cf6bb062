-- ===== src/Jobs/Attempts.antt =====
-- One run of a job, whose attempts are bounded.
use Prim.Native.String.{String}
use sddiar.Base.{
  ℕ, ◌+◌, ◌≤◌, ◌≡◌, refl, ap, ◌∙◌, ◌⊎◌, inl, inr, Bool, true, false, ◌&&◌, ◌||◌, Option, none, some,
  arith, ltb, if◌then◌else◌, Bool-cases,
}
use sddiar.Jobs.{
  JobStatus, received, running, succeeded, failed_retryable, failed_terminal, LocalJob, JobFiles,
  Raised, ExceptionClass, classify_retry, get, Answer, returned, raised, start, fail, succeed,
  finish, finish_published, run_open, run_job, run, output_of,
}
use sddiar.Jobs.Store.{get-save_at, get-named}

abbrev pub is_ended : JobStatus → Bool
is_ended succeeded = true
is_ended failed_terminal = true
is_ended _ = false

-- A job that is not ended has an attempt left, and no job has more attempts than the maximum.
abbrev pub IsBounded : ℕ → LocalJob → Type 0
IsBounded most job = (job.attempts ≤ most) × ((is_ended job.status || ltb job.attempts most) ≡ true)

left_IsBounded :
    (most : ℕ) (job : LocalJob)
    → is_ended job.status ≡ false
    → IsBounded most job
    → job.attempts + 1 ≤ most
left_IsBounded most job h (le, left) = ground arith

module _ {ℓ} {A : Type ℓ} (most : ℕ) (results : String) (publish : String → A → Option Raised) where
  failed-IsBounded :
      (attempts : ℕ) (class : ExceptionClass)
      → attempts ≤ most
      → (is_ended (
            if classify_retry class && ltb attempts most then failed_retryable else failed_terminal)
          || ltb attempts most)
        ≡ true
  failed-IsBounded attempts class le =
      elim (Bool-cases (classify_retry class && ltb attempts most)) [
        | inl again ↦ rw again (ground arith)
        | inr over ↦ rw over refl
      ]

  -- What an attempt makes of a started job.
  fail-IsBounded :
      (now : String) (job : LocalJob) (e : Raised)
      → job.attempts ≤ most
      → IsBounded most (fail most results publish now job e)
  unfolding fail
  fail-IsBounded now job e le = (le, failed-IsBounded job.attempts e.class le)

  -- What holds of a job after an attempt.
  abbrev IsNext : LocalJob → LocalJob → Type 0
  IsNext job done =
      IsBounded most done × (done.attempts ≡ job.attempts) × (done.job_id ≡ job.job_id)

  finish_published-IsNext :
      (now : String) (job : LocalJob) (problem : Option Raised)
      → job.attempts ≤ most
      → IsNext job (finish_published most results publish now job problem)
  unfolding succeed fail
  finish_published-IsNext now job none le = ((le, refl), refl, refl)
  finish_published-IsNext now job (some e) le = (fail-IsBounded now job e le, refl, refl)

  finish-IsNext :
      (now : String) (job : LocalJob) (answer : Answer A)
      → job.attempts ≤ most
      → IsNext job (finish most results publish now job answer)
  unfolding fail
  finish-IsNext now job (raised e) le = (fail-IsBounded now job e le, refl, refl)
  finish-IsNext now job (returned value) le =
      finish_published-IsNext now job (publish (output_of most results publish job) value) le

  -- One run of a job that the store has: either it had ended and nothing changes, or it takes one
  -- more attempt. The store then has the returned job.
  abbrev pub IsRun : String → LocalJob → Option (LocalJob × JobFiles) → Type 0
  IsRun id job ran =
      (done : LocalJob) × (after : JobFiles) × (ran ≡ some (done, after))
      × (get id after ≡ some done)
      × IsBounded most done
      × (((is_ended job.status ≡ true) × (done ≡ job))
          ⊎ ((is_ended job.status ≡ false) × (done.attempts ≡ job.attempts + 1)))

  run_open-IsRun :
      (began ended id : String) (handler : LocalJob → Answer A) (job : LocalJob) (files : JobFiles)
      → job.job_id ≡ id
      → is_ended job.status ≡ false
      → IsBounded most job
      → IsRun id job (some (run_open most results publish began ended handler job files))
  unfolding run_open start
  run_open-IsRun began ended id handler job files named open_status good =
      let started = start most results publish began job in
      let (bounded, count, same) =
        finish-IsNext ended started (handler started) (left_IsBounded most job open_status good) in
      (_, _, refl, get-save_at id _ _ (same ∙ named), bounded, inr (open_status, count))

  run_job-IsRun :
      (began ended id : String) (handler : LocalJob → Answer A) (job : LocalJob) (files : JobFiles)
      (s : JobStatus)
      → job.status ≡ s
      → get id files ≡ some job
      → IsBounded most job
      → IsRun id job (some (run_job most results publish began ended handler job files s))
  run_job-IsRun began ended id handler job files succeeded e found good =
      (job, files, refl, found, good, inl (ap is_ended e, refl))
  run_job-IsRun began ended id handler job files failed_terminal e found good =
      (job, files, refl, found, good, inl (ap is_ended e, refl))
  run_job-IsRun began ended id handler job files received e found good =
      run_open-IsRun began ended id handler job files (get-named id files job found) (ap is_ended e)
        good
  run_job-IsRun began ended id handler job files running e found good =
      run_open-IsRun began ended id handler job files (get-named id files job found) (ap is_ended e)
        good
  run_job-IsRun began ended id handler job files failed_retryable e found good =
      run_open-IsRun began ended id handler job files (get-named id files job found) (ap is_ended e)
        good

  -- For a job that the store has and whose attempts are bounded, a run with any handler returns
  -- a job that the store then has and whose attempts are bounded: the job itself if it had
  -- ended, and otherwise a job with one attempt more.
  pub run-IsRun :
      (began ended id : String) (handler : LocalJob → Answer A) (job : LocalJob) (files : JobFiles)
      → get id files ≡ some job
      → IsBounded most job
      → IsRun id job (run most results publish began ended handler id files)
  unfolding run
  run-IsRun began ended id handler job files found good =
      rw found (run_job-IsRun began ended id handler job files job.status refl found good)
