-- ===== src/Jobs/Tests.antt =====
-- Runs of the worker, and instances of its theorems.
use Prim.Native.String.{String, ◌++◌ as ◌<>◌}
use sddiar.Base.{ℕ, ◌≤◌, ◌≡◌, refl, true, Option, none, some, [], ◌∷◌, ok, err, value_error, arith}
use sddiar.Base.Int.{pos}
use sddiar.Jobs.{
  JobStatus, received, succeeded, failed_retryable, failed_terminal, LocalJob, Raised,
  timeout_error, key_error, Submission, Answer, returned, raised, local_worker, key_of, new_job,
  submit, save, get, find_among, find_idempotency, start, fail, succeed, run_open, run,
}
use sddiar.Jobs.Submit.{submit_again}
use sddiar.Jobs.Attempts.{is_ended, IsBounded, IsRun, run-IsRun}
use sddiar.Jobs.Ending.{runs, runs_ended}

abbrev keep : String → String
keep text = text

-- A digest that tells the versions apart.
abbrev join : String → String → String → String → String → String → String → String
join sha profile pipeline pack calibration stt options =
    sha <> (profile <> (pipeline <> (pack <> (calibration <> (stt <> options)))))

abbrev sha : String
sha = "0123456789abcdef0123456789abcdef0123456789abcdef0123456789abcdef"

abbrev request : String → Submission
request source = record {
  source_ref = source;
  source_sha256 = sha;
  profile_id = "p";
  options = "{}";
  pipeline_version = "1";
  model_pack_id = "m";
  calibration_profile_id = "c";
  stt_backend_version = "s";
}

abbrev first_job : LocalJob
first_job = record {
  job_id = "j1";
  idempotency_key = sha <> "p1mcs{}";
  source_ref = "a.wav";
  profile_id = "p";
  options = "{}";
  pipeline_version = "1";
  model_pack_id = "m";
  calibration_profile_id = "c";
  stt_backend_version = "s";
  status = received;
  attempts = 0;
  result_path = none;
  error_code = none;
  error_message = none;
  created_at = "t0";
  updated_at = "t0";
}

submitted : submit keep join "t0" "j1" (request "a.wav") [] ≡ ok (first_job, first_job ∷ [])
unfolding submit key_of new_job save find_idempotency find_among get
submitted = refl

-- The same audio under another reference and job id.
submitted_twice :
    submit keep join "t1" "j2" (request "b.wav") (first_job ∷ []) ≡ ok (first_job, first_job ∷ [])
unfolding submit key_of find_idempotency find_among get
submitted_twice = refl

-- A job with the empty id is not found again: an equal submission makes a second job.
abbrev nameless : LocalJob
nameless = record first_job { job_id = "" }

found_no_more :
    submit keep join "t0" "j1" (request "a.wav") (nameless ∷ [])
    ≡ ok (first_job, nameless ∷ first_job ∷ [])
unfolding submit key_of new_job save find_idempotency find_among get
found_no_more = refl

-- Nor is a job in a directory.
abbrev in_directory : LocalJob
in_directory = record first_job { job_id = "a/b" }

found_no_more_below :
    submit keep join "t0" "j1" (request "a.wav") (in_directory ∷ [])
    ≡ ok (first_job, in_directory ∷ first_job ∷ [])
unfolding submit key_of new_job save find_idempotency find_among get
found_no_more_below = refl

short_hash :
    submit keep join "t0" "j1" (record (request "a.wav") { source_sha256 = "12" }) []
    ≡ err value_error
unfolding submit key_of
short_hash = refl

no_attempts : local_worker (pos 0) ≡ err value_error
unfolding local_worker
no_attempts = refl

three_attempts : local_worker (pos 3) ≡ ok 3
unfolding local_worker
three_attempts = refl

abbrev publish : String → ℕ → Option Raised
publish path value = none

abbrev times_out : LocalJob → Answer ℕ
times_out job = raised (record { class = timeout_error; code = "T"; message = "slow" })

abbrev lacks_key : LocalJob → Answer ℕ
lacks_key job = raised (record { class = key_error; code = "KeyError"; message = "x" })

abbrev answers : LocalJob → Answer ℕ
answers job = returned 7

abbrev after : ℕ → JobStatus → LocalJob
after attempts status = record first_job {
  status = status;
  attempts = attempts;
  error_code = some "T";
  error_message = some "slow";
  updated_at = "t2";
}

retried :
    run 2 "results" publish "t1" "t2" times_out "j1" (first_job ∷ [])
    ≡ some (after 1 failed_retryable, after 1 failed_retryable ∷ [])
unfolding run run_open start fail save get
retried = refl

given_up :
    run 2 "results" publish "t1" "t2" times_out "j1" (after 1 failed_retryable ∷ [])
    ≡ some (after 2 failed_terminal, after 2 failed_terminal ∷ [])
unfolding run run_open start fail save get
given_up = refl

refused :
    run 2 "results" publish "t1" "t2" answers "j1" (after 2 failed_terminal ∷ [])
    ≡ some (after 2 failed_terminal, after 2 failed_terminal ∷ [])
unfolding run get
refused = refl

not_transient :
    (job : LocalJob) × (run 2 "results" publish "t1" "t2" lacks_key "j1" (first_job ∷ [])
      ≡ some (job, job ∷ []))
    × (job.status ≡ failed_terminal)
unfolding run run_open start fail save get
not_transient = (_, refl, refl)

published :
    (job : LocalJob) × (run 2 "results" publish "t1" "t2" answers "j1" (first_job ∷ [])
      ≡ some (job, job ∷ []))
    × (job.status ≡ succeeded)
    × (job.result_path ≡ some "results/j1.json")
unfolding run run_open start succeed save get
published = (_, refl, refl, refl)

unknown_job : run 2 "results" publish "t1" "t2" answers "j9" (first_job ∷ []) ≡ none
unfolding run get
unknown_job = refl

first_got : get "j1" (first_job ∷ []) ≡ some first_job
unfolding get
first_got = refl

first_job-IsBounded : IsBounded 2 first_job
first_job-IsBounded = ground arith

same_key : key_of keep join (request "b.wav") ≡ key_of keep join (request "a.wav")
unfolding key_of
same_key = refl

submit_again_example :
    (key_of keep join (request "a.wav") ≡ ok first_job.idempotency_key)
    × (submit keep join "t1" "j2" (request "b.wav") (first_job ∷ [])
        ≡ ok (first_job, first_job ∷ []))
submit_again_example =
    submit_again keep join "t0" "t1" "j1" "j2" (request "a.wav") (request "b.wav") []
      (first_job ∷ []) first_job refl submitted same_key

run-IsRun_example :
    IsRun 2 "results" publish "j1" first_job
      (run 2 "results" publish "t1" "t2" times_out "j1" (first_job ∷ []))
run-IsRun_example =
    run-IsRun 2 "results" publish "t1" "t2" "j1" times_out first_job (first_job ∷ []) first_got
      first_job-IsBounded

runs_ended_example :
    (done : LocalJob) × (get "j1"
        (runs 2 "results" publish "t1" "t2" "j1" (times_out ∷ times_out ∷ []) (first_job ∷ []))
      ≡ some done)
    × (is_ended done.status ≡ true)
    × (done.attempts ≤ 2)
runs_ended_example =
    runs_ended 2 "results" publish "t1" "t2" "j1" (times_out ∷ times_out ∷ []) first_job
      (first_job ∷ []) first_got first_job-IsBounded (omega arith)
