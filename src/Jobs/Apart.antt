-- ===== src/Jobs/Apart.antt =====
-- The loops of shell_2/jobs.c at a job that is apart from those before it.
use c_course_projects.Common.{
  ◌≡◌, ◌≢◌, refl, Bool, true, false, some, List, [], ◌∷◌, ◌++◌, arith, All, ◌==◌, ==_iff, ◌<◌,
}
use c_course_projects.Common.Bytes.{Bytes}
use c_course_projects.Jobs.{
  Job, address_of, unlink_job, update_elements, find_job, from_address, is_current,
}

-- Two jobs that differ in process id and in address.
abbrev pub Apart : Job → Job → Type 0
Apart j i = (i.pid ≢ j.pid) × (i.address ≢ j.address)

abbrev pub AllApart : List Job → Type 0
AllApart [] = Unit
AllApart (j ∷ js) = All (λ i. Apart i j) js × (0 < j.pid) × AllApart js

module _ (j : Job) where
  abbrev pub is_it : Job → Bool
  is_it i = i.pid == j.pid

  hit : is_it j ≡ true
  hit = (==_iff j.pid j.pid).1 refl

  miss : (i : Job) → Apart j i → is_it i ≡ false
  miss i h = ground (arith, h.0)

  pub find_job-front :
      (front js : List Job) → All (Apart j) front → find_job is_it (front ++ (j ∷ js)) ≡ some j
  unfolding find_job
  find_job-front [] js h = rw hit refl
  find_job-front (i ∷ front) js h = rw (miss i h.0) (find_job-front front js h.1)

  pub update_elements-front :
      (s : Bytes) (front js : List Job)
      → All (Apart j) front
      → update_elements is_it s (front ++ (j ∷ js)) ≡ some (front ++ (record j { state = s } ∷ js))
  unfolding update_elements
  update_elements-front s [] js h = rw hit refl
  update_elements-front s (i ∷ front) js h =
      rw (miss i h.0, update_elements-front s front js h.1) refl

  pub unlink_job-front :
      (front js : List Job)
      → All (Apart j) front
      → unlink_job is_it (front ++ (j ∷ js)) ≡ some (j, js, front ++ js)
  unfolding unlink_job
  unlink_job-front [] js h = rw hit refl
  unlink_job-front (i ∷ front) js h = rw (miss i h.0, unlink_job-front front js h.1) refl

  pub from_address-front :
      (front js : List Job)
      → All (Apart j) front
      → from_address j.address (front ++ (j ∷ js)) ≡ j ∷ js
  unfolding from_address
  from_address-front [] js h = rw ((==_iff j.address j.address).1 refl) refl
  from_address-front (i ∷ front) js h =
      let ne : (i.address == j.address) ≡ false = ground (arith, h.0.1) in
      rw ne (from_address-front front js h.1)

  pub not_next :
      (js : List Job) → All (λ i. Apart i j) js → is_current (address_of js) j.address ≡ false
  not_next [] h = refl
  not_next (i ∷ js) h = ground (arith, h.0.1)
