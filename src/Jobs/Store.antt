-- ===== src/Jobs/Store.antt =====
-- What is read after a save.
use Prim.Native.String.{String}
use text.Mathlib.Text.{◌==◌ as str_eq}
use text.Mathlib.TextEquality.{eq_iff}
use text.Mathlib.TextPositions.{eq_refl}
use sddiar.Base.{
  ◌≡◌, refl, sym, ap, subst, ◌∙◌, inl, inr, Bool, true, false, not, ◌&&◌, ◌⊎◌, Option, none, some,
  [], ◌∷◌, arith, if◌then◌else◌, Bool-cases,
}
use sddiar.Jobs.{
  LocalJob, JobFiles, save, get, is_listed, stem_of, found_or, find_among, find_idempotency,
}

or_default {ℓ} : {A : Type ℓ} → A → Option A → A
or_default x none = x
or_default x (some y) = y

pub some-inj {ℓ} : {A : Type ℓ} {x y : A} → some x ≡ some y → x ≡ y
unfolding or_default
some-inj {x} h = ap (or_default x) h

-- The two ways to a file in a search.
if-some :
    (test : Bool) (x y : LocalJob) (rest : Option LocalJob)
    → (if test then some x else rest) ≡ some y
    → ((test ≡ true) × (x ≡ y)) ⊎ ((test ≡ false) × (rest ≡ some y))
if-some true x y rest h = inl (refl, some-inj h)
if-some false x y rest h = inr (refl, h)

if-none :
    (test : Bool) (x : LocalJob) (rest : Option LocalJob)
    → (if test then some x else rest) ≡ none
    → (test ≡ false) × (rest ≡ none)
if-none true x rest h = ground arith
if-none false x rest h = (refl, h)

pub get-save : (job : LocalJob) (files : JobFiles) → get job.job_id (save job files) ≡ some job
unfolding get save
get-save job [] = rw (eq_refl job.job_id) refl
get-save job (file ∷ files) = elim (Bool-cases (str_eq file.job_id job.job_id)) [
  | inl same ↦ rw (same, eq_refl job.job_id) refl
  | inr differs ↦ rw (differs, differs) (get-save job files)
]

pub get-save_at :
    (id : String) (job : LocalJob) (files : JobFiles)
    → job.job_id ≡ id
    → get id (save job files) ≡ some job
get-save_at id job files named =
    subst (λ i. get i (save job files) ≡ some job) named (get-save job files)

-- A found file is the file of the name asked for.
pub get-named :
    (id : String) (files : JobFiles) (job : LocalJob) → get id files ≡ some job → job.job_id ≡ id
unfolding get
get-named id [] job h = ground arith
get-named id (file ∷ files) job h =
    elim (if-some (str_eq file.job_id id) file job (get id files) h) [
      | inl (same, e) ↦ ap (λ (j : LocalJob). j.job_id) (sym e) ∙ (eq_iff file.job_id id).0 same
      | inr (_, later) ↦ get-named id files job later
    ]

-- What a save changes.
get-saved :
    (id : String) (job : LocalJob) (files : JobFiles)
    → get id (save job files) ≡ (if str_eq job.job_id id then some job else get id files)
unfolding get save
get-saved id job [] = refl
get-saved id job (file ∷ files) = ground (
  arith,
  eq_iff job.job_id id,
  eq_iff file.job_id job.job_id,
  eq_iff file.job_id id,
  get-saved id job files,
)

-- An id that names a file of the directory itself: `glob` lists it, and its stem is the id.
abbrev pub is_file_name : String → Bool
is_file_name job_id = is_listed job_id && not (str_eq job_id "")

found_or-none :
    (key : String) (listed : Bool) (found rest : Option LocalJob)
    → found_or key listed found rest ≡ none
    → rest ≡ none
found_or-none key listed none rest h = h
found_or-none key listed (some job) rest h =
    (if-none (listed && str_eq job.idempotency_key key) job rest h).1

-- A round that found nothing finds at most the saved job.
found_or-saved :
    (test listed : Bool) (job : LocalJob) (found rest later : Option LocalJob)
    → found_or job.idempotency_key listed found rest ≡ none
    → later ≡ some job
    → found_or job.idempotency_key listed (if test then some job else found) later ≡ some job
found_or-saved true listed job found rest later h k =
    elim (Bool-cases (listed && str_eq job.idempotency_key job.idempotency_key)) [
      | inl hit ↦ rw hit refl
      | inr missed ↦ rw missed k
    ]
found_or-saved false listed job none rest later h k = k
found_or-saved false listed job (some other) rest later h k =
    rw (if-none (listed && str_eq other.idempotency_key job.idempotency_key) other rest h).0 k

found_or-own :
    (job : LocalJob) (rest : Option LocalJob)
    → found_or job.idempotency_key true (some job) rest ≡ some job
found_or-own job rest = rw (eq_refl job.idempotency_key) refl

module _ (job : LocalJob) (store : JobFiles) (named : is_file_name job.job_id ≡ true) where
  own_round :
      (rest : Option LocalJob)
      → found_or job.idempotency_key
          (is_listed job.job_id)
          (get (stem_of job.job_id) (save job store))
          rest
        ≡ some job
  own_round rest =
      let listed : is_listed job.job_id ≡ true = ground (arith, named) in
      let no_stem : str_eq job.job_id "" ≡ false = ground (arith, named) in
      rw (no_stem, get-save job store, listed) (found_or-own job rest)

  find_among-save :
      (files : JobFiles)
      → find_among job.idempotency_key store files ≡ none
      → find_among job.idempotency_key (save job store) (save job files) ≡ some job
  unfolding find_among save
  find_among-save [] h = own_round none
  find_among-save (file ∷ files) h = elim (Bool-cases (str_eq file.job_id job.job_id)) [
    | inl same ↦ rw same (own_round _)
    | inr differs ↦
        let rest = find_among-save files (
          found_or-none job.idempotency_key (is_listed file.job_id)
            (get (stem_of file.job_id) store) (find_among job.idempotency_key store files) h) in
        rw (differs, get-saved (stem_of file.job_id) job store)
          (found_or-saved (str_eq job.job_id (stem_of file.job_id)) (is_listed file.job_id) job
            (get (stem_of file.job_id) store) _ _ h rest)
  ]

  -- A key that no file has is found in the saved job only.
  pub find_idempotency-save :
      find_idempotency job.idempotency_key store ≡ none
      → find_idempotency job.idempotency_key (save job store) ≡ some job
  unfolding find_idempotency
  find_idempotency-save h = find_among-save store h

found_or-key :
    (key : String) (listed : Bool) (found rest : Option LocalJob) (job : LocalJob)
    → found_or key listed found rest ≡ some job
    → (rest ≡ some job → job.idempotency_key ≡ key)
    → job.idempotency_key ≡ key
found_or-key key listed none rest job h later = later h
found_or-key key listed (some file) rest job h later =
    elim (if-some (listed && str_eq file.idempotency_key key) file job rest h) [
      | inl (hit, e) ↦
          let same : str_eq file.idempotency_key key ≡ true = ground (arith, hit) in
          ap (λ (j : LocalJob). j.idempotency_key) (sym e)
          ∙ (eq_iff file.idempotency_key key).0 same
      | inr (_, k) ↦ later k
    ]

find_among-key :
    (key : String) (store files : JobFiles) (job : LocalJob)
    → find_among key store files ≡ some job
    → job.idempotency_key ≡ key
unfolding find_among
find_among-key key store [] job h = ground arith
find_among-key key store (file ∷ files) job h =
    found_or-key key (is_listed file.job_id) (get (stem_of file.job_id) store) _ job h
      (find_among-key key store files job)

pub find_idempotency-key :
    (key : String) (files : JobFiles) (job : LocalJob)
    → find_idempotency key files ≡ some job
    → job.idempotency_key ≡ key
unfolding find_idempotency
find_idempotency-key key files job h = find_among-key key files files job h
