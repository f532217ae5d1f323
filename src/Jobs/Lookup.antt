-- ===== src/Jobs/Lookup.antt =====
-- `get_job_pid` and `get_job_jid` after `add_job`.
use c_course_projects.Common.{
  ℕ, ◌≡◌, ◌≢◌, refl, ap, Bool, true, false, some, List, [], ◌∷◌, arith, All, All-imp, List-cases,
  inl, inr, ◌==◌, ==_iff, ◌∙◌,
}
use c_course_projects.Common.Bytes.{Bytes}
use c_course_projects.Common.Int.{pos}
use c_course_projects.Jobs.{
  Job, JobList, new_job, append_job, add_job, find_job, get_job_pid, get_job_jid,
}

find_job-append :
    (test : Job → Bool) (js : List Job) (new : Job)
    → All (λ j. test j ≡ false) js
    → test new ≡ true
    → find_job test (append_job js new) ≡ some new
unfolding find_job append_job
find_job-append test [] new h hit = rw hit refl
find_job-append test (j ∷ js) new h hit = rw h.0 (find_job-append test js new h.1 hit)

add_job-elements :
    (address : ℕ) (l : JobList) (jid pid : ℕ) (state command : Bytes)
    → (add_job address l jid pid (some state) (some command)).1.elements
      ≡ append_job l.elements (new_job address jid pid state command)
unfolding add_job append_job
add_job-elements address l jid pid state command = elim (List-cases l.elements) [
  | inl e ↦ rw (e, add_job) refl
  | inr (j, js, e) ↦ rw (e, add_job) refl
]

-- A job whose number and process id no job of the list has is found after it is added: by its
-- number, with its process id, and by its process id, with its number.
pub add_job-get :
    (address : ℕ) (l : JobList) (jid pid : ℕ) (state command : Bytes)
    → All (λ j. j.jid ≢ jid) l.elements
    → All (λ j. j.pid ≢ pid) l.elements
    → (get_job_pid (add_job address l jid pid (some state) (some command)).1 jid ≡ pos pid)
      × (get_job_jid (add_job address l jid pid (some state) (some command)).1 pid ≡ pos jid)
unfolding get_job_pid get_job_jid
add_job-get address l jid pid state command hj hp =
    let new = new_job address jid pid state command in
    let elements = add_job-elements address l jid pid state command in
    let by_jid =
      find_job-append (λ j. j.jid == jid) l.elements new
        (All-imp (λ j n. ground arith) l.elements hj) ((==_iff jid jid).1 refl) in
    let by_pid =
      find_job-append (λ j. j.pid == pid) l.elements new
        (All-imp (λ j n. ground arith) l.elements hp) ((==_iff pid pid).1 refl) in
    (
      rw (ap (find_job (λ j. j.jid == jid)) elements ∙ by_jid, get_job_pid) refl,
      rw (ap (find_job (λ j. j.pid == pid)) elements ∙ by_pid, get_job_jid) refl,
    )
