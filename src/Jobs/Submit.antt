-- ===== src/Jobs/Submit.antt =====
-- A repeated submission finds the job of the first one.
use Prim.Native.String.{String}
use sddiar.Base.{
  ◌≡◌, refl, sym, ap, subst, ◌∙◌, inl, inr, some, ok, arith, true, ◌>>=◌, Option-cases,
  Result-cases, ok-inj,
}
use sddiar.Jobs.{
  LocalJob, JobFiles, Submission, key_of, new_job, submit, submit_new, find_idempotency,
}
use sddiar.Jobs.Store.{is_file_name, find_idempotency-save, find_idempotency-key}

module _ (lower : String → String)
    (digest : String → String → String → String → String → String → String → String) where
  -- The files after a submission have the returned job under the key.
  submit_new-found :
      (now id key : String) (s : Submission) (files : JobFiles)
      → is_file_name id ≡ true
      → (find_idempotency key
            (submit_new lower digest now id key s files (find_idempotency key files)).1
          ≡ some (submit_new lower digest now id key s files (find_idempotency key files)).0)
        × ((submit_new lower digest now id key s files
              (find_idempotency key files)).0.idempotency_key
            ≡ key)
  unfolding new_job
  submit_new-found now id key s files name = elim (Option-cases (find_idempotency key files)) [
    | inl missing ↦
        rw missing
          (find_idempotency-save (new_job lower digest now id key s) files name missing, refl)
    | inr (job, found) ↦ rw found (found, find_idempotency-key key files job found)
  ]

  -- After a submission that is accepted under an id that names a file of the directory itself (no
  -- directory in it, and not empty), the returned job carries the submission's key, and every
  -- submission with an equal key, under any job id and at any time, returns that job and leaves
  -- the files as they are.
  pub submit_again :
      (now later id other_id : String) (s t : Submission) (files after : JobFiles) (job : LocalJob)
      → is_file_name id ≡ true
      → submit lower digest now id s files ≡ ok (job, after)
      → key_of lower digest t ≡ key_of lower digest s
      → (key_of lower digest s ≡ ok job.idempotency_key)
        × (submit lower digest later other_id t after ≡ ok (job, after))
  unfolding submit
  submit_again now later id other_id s t files after job name h same =
      let rest = λ (key : String).
        ok (submit_new lower digest now id key s files (find_idempotency key files)) in
      elim (Result-cases (key_of lower digest s)) [
        | inr (raised, e) ↦ let absurd = sym (ap (λ r. r >>= rest) e) ∙ h in ground arith
        | inl (key, e) ↦
            let pair = ok-inj (sym (ap (λ r. r >>= rest) e) ∙ h) in
            let (found, named) =
              subst
                (λ (p : LocalJob × JobFiles).
                  (find_idempotency key p.1 ≡ some p.0) × (p.0.idempotency_key ≡ key))
                pair (submit_new-found now id key s files name) in
            (e ∙ ap ok (sym named), rw (same ∙ e, found) refl)
      ]
