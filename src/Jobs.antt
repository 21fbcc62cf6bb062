-- ===== src/Jobs.antt =====
-- src/sddiar/worker.py, with `idempotency_key` of src/sddiar/service.py: local jobs, the store that
-- keeps one file for each job, and the worker that submits and runs them.
pub mod Store
pub mod Submit
pub mod Attempts
pub mod Ending
mod Tests
use Prim.Native.String.{String, count, len, find, ◌++◌ as ◌<>◌}
use text.Mathlib.Text.{◌==◌ as str_eq}
use sddiar.Base.{
  ℕ, ◌+◌, Bool, true, false, not, ◌&&◌, Option, none, some, List, [], ◌∷◌, Result, ok, err,
  value_error, ◌>>=◌, ltb, leb, ◌==◌, if◌then◌else◌,
}
use sddiar.Base.Int.{ℤ, pos, pos_part, ltb_ℤ}

pub data JobStatus : Type 0 where
  received running succeeded failed_retryable failed_terminal : JobStatus

-- `options` is the JSON text of the mapping.
pub record LocalJob : Type 0 where
  pub job_id : String
  pub idempotency_key : String
  pub source_ref : String
  pub profile_id : String
  pub options : String
  pub pipeline_version : String
  pub model_pack_id : String
  pub calibration_profile_id : String
  pub stt_backend_version : String
  pub status : JobStatus
  pub attempts : ℕ
  pub result_path : Option String
  pub error_code : Option String
  pub error_message : Option String
  pub created_at : String
  pub updated_at : String

-- The classes that `classify_retry` tells apart; `unlisted` is any other.
pub data ExceptionClass : Type 0 where
  contract_error model_pack_error offline_policy_violation : ExceptionClass
  python_value_error python_type_error key_error : ExceptionClass
  timeout_error connection_error os_error unlisted : ExceptionClass

-- An exception: its class, its `code` or class name, and its text.
pub record Raised : Type 0 where
  pub class : ExceptionClass
  pub code : String
  pub message : String

abbrev pub classify_retry : ExceptionClass → Bool
classify_retry timeout_error = true
classify_retry connection_error = true
classify_retry os_error = true
classify_retry _ = false

-- The files of the store, each named by a `job_id`, in the order in which `glob` gives those that it
-- gives. Ids that name one file by different paths, such as `a` and `./a`, are left out.
abbrev pub JobFiles : Type 0
JobFiles = List LocalJob

unfoldable pub save : LocalJob → JobFiles → JobFiles
save job [] = job ∷ []
save job (file ∷ files) =
    let rest = save job files in if str_eq file.job_id job.job_id then job ∷ files else file ∷ rest

-- `none` is the exception for a missing file.
unfoldable pub get : String → JobFiles → Option LocalJob
get job_id [] = none
get job_id (file ∷ files) =
    let rest = get job_id files in if str_eq file.job_id job_id then some file else rest

-- Whether `glob("*.json")`, which does not look into directories, gives the file of a job.
abbrev pub is_listed : String → Bool
is_listed job_id = leb (len job_id) (find job_id "/")

-- `path.stem` of the file of a job: the name `.json`, of the empty id, has no suffix.
abbrev pub stem_of : String → String
stem_of job_id = if str_eq job_id "" then ".json" else job_id

-- One round of the loop of `find_idempotency`; a file that is not there is passed over.
abbrev pub found_or : String → Bool → Option LocalJob → Option LocalJob → Option LocalJob
found_or key listed none rest = rest
found_or key listed (some job) rest =
    if listed && str_eq job.idempotency_key key then some job else rest

-- The loop, over the files that are left; `store` holds them all.
unfoldable pub find_among : String → JobFiles → JobFiles → Option LocalJob
find_among key store [] = none
find_among key store (file ∷ files) =
    found_or key (is_listed file.job_id) (get (stem_of file.job_id) store)
      (find_among key store files)

unfoldable pub find_idempotency : String → JobFiles → Option LocalJob
find_idempotency key files = find_among key files files

-- `LocalWorker(...)`, which keeps `max_attempts`
unfoldable pub local_worker : ℤ → Result ℕ
local_worker max_attempts =
    if ltb_ℤ max_attempts (pos 1) then err value_error else ok (pos_part max_attempts)

-- The arguments of `submit` but `job_id`.
pub record Submission : Type 0 where
  pub source_ref : String
  pub source_sha256 : String
  pub profile_id : String
  pub options : String
  pub pipeline_version : String
  pub model_pack_id : String
  pub calibration_profile_id : String
  pub stt_backend_version : String

-- `digest` is the hash of the JSON text of these values, the source hash first, which libraries
-- compute; `lower` is `str.lower`.
module _ (lower : String → String)
    (digest : String → String → String → String → String → String → String → String) where
  unfoldable pub key_of : Submission → Result String
  key_of s =
      if count s.source_sha256 == 64
      then ok (
          digest (lower s.source_sha256) s.profile_id s.pipeline_version s.model_pack_id
            s.calibration_profile_id s.stt_backend_version s.options)
      else err value_error

  -- The job that `submit` saves.
  unfoldable pub new_job : String → String → String → Submission → LocalJob
  new_job now job_id key s = record {
    job_id = job_id;
    idempotency_key = key;
    source_ref = s.source_ref;
    profile_id = s.profile_id;
    options = s.options;
    pipeline_version = s.pipeline_version;
    model_pack_id = s.model_pack_id;
    calibration_profile_id = s.calibration_profile_id;
    stt_backend_version = s.stt_backend_version;
    status = received;
    attempts = 0;
    result_path = none;
    error_code = none;
    error_message = none;
    created_at = now;
    updated_at = now;
  }

  abbrev pub submit_new :
      String → String → String → Submission → JobFiles → Option LocalJob → LocalJob × JobFiles
  submit_new now job_id key s files none =
      let job = new_job now job_id key s in (job, save job files)
  submit_new now job_id key s files (some existing) = (existing, files)

  -- `submit`: the job that it returns, and the files after it. `now` is the clock.
  unfoldable pub submit : String → String → Submission → JobFiles → Result (LocalJob × JobFiles)
  submit now job_id s files = do
    key ← key_of s
    ok (submit_new now job_id key s files (find_idempotency key files))

-- What a handler does: it returns a value, or raises.
pub data Answer {ℓ} (A : Type ℓ) : Type ℓ where
  returned : A → Answer A
  raised : Raised → Answer A

-- `publish` is the attempt to write a result to its file; `results` names the directory.
module _ {ℓ} {A : Type ℓ} (max_attempts : ℕ) (results : String)
    (publish : String → A → Option Raised) where
  abbrev pub output_of : LocalJob → String
  output_of job = results <> ("/" <> (job.job_id <> ".json"))

  unfoldable pub start : String → LocalJob → LocalJob
  start now job = record job { status = running; attempts = job.attempts + 1; updated_at = now }

  abbrev pub failed_status : LocalJob → ExceptionClass → JobStatus
  failed_status job class =
      if classify_retry class && ltb job.attempts max_attempts
      then failed_retryable
      else failed_terminal

  unfoldable pub fail : String → LocalJob → Raised → LocalJob
  fail now job e = record job {
    status = failed_status job e.class;
    error_code = some e.code;
    error_message = some e.message;
    updated_at = now;
  }

  unfoldable pub succeed : String → LocalJob → LocalJob
  succeed now job = record job {
    status = succeeded;
    result_path = some (output_of job);
    error_code = none;
    error_message = none;
    updated_at = now;
  }

  -- The `try` statement.
  abbrev pub finish_published : String → LocalJob → Option Raised → LocalJob
  finish_published now job none = succeed now job
  finish_published now job (some e) = fail now job e

  abbrev pub finish : String → LocalJob → Answer A → LocalJob
  finish now job (returned value) = finish_published now job (publish (output_of job) value)
  finish now job (raised e) = fail now job e

  -- Two saves: the file says RUNNING while the handler works.
  unfoldable pub run_open :
      String → String → (LocalJob → Answer A) → LocalJob → JobFiles → LocalJob × JobFiles
  run_open began ended handler job files =
      let started = start began job in
      let done = finish ended started (handler started) in (done, save done (save started files))

  abbrev pub run_job :
      String
      → String
      → (LocalJob → Answer A)
      → LocalJob
      → JobFiles
      → JobStatus
      → LocalJob × JobFiles
  run_job began ended handler job files succeeded = (job, files)
  run_job began ended handler job files failed_terminal = (job, files)
  run_job began ended handler job files _ = run_open began ended handler job files

  abbrev pub run_found :
      String
      → String
      → (LocalJob → Answer A)
      → JobFiles
      → Option LocalJob
      → Option (LocalJob × JobFiles)
  run_found began ended handler files none = none
  run_found began ended handler files (some job) =
      some (run_job began ended handler job files job.status)

  -- `run`, with the two readings of the clock.
  unfoldable pub run :
      String → String → (LocalJob → Answer A) → String → JobFiles → Option (LocalJob × JobFiles)
  run began ended handler job_id files = run_found began ended handler files (get job_id files)
