-- ===== src/Jobs/Tests.antt =====
-- Concrete runs of the job list.
use c_course_projects.Common.{
  ◌-◌, if◌then◌else◌, ℕ, ◌≡◌, refl, true, some, [], ◌∷◌, ◌==◌, arith, inl,
}
use c_course_projects.Common.Bytes.{Bytes, codes}
use c_course_projects.Common.Int.{ℤ, pos}
use c_course_projects.Jobs.{JobList, new_job, remove_job_jid, remove_job_pid, minus_one}
use c_course_projects.Jobs.Valid.{IsValid}
use c_course_projects.Jobs.Remove.{Removal, removes-Removal}
use c_course_projects.Jobs.Reap.{Wait, changed, unchanged, exited, reap}
use c_course_projects.Jobs.Reaped.{Reaps, reaped, reap-Reaps}
use c_course_projects.Jobs.Resume.{bg}
use c_course_projects.Jobs.Resumed.{Resumes, bg-Resumes}
use c_course_projects.Jobs.Iterate.{poll, poll_round}

abbrev two_jobs : JobList
two_jobs = record {
  elements =
      new_job 16 1 301 (codes "Running") (codes "sleep")
      ∷ new_job 48 2 305 (codes "Stopped") (codes "cat")
      ∷ [];
  current = some 16;
}

two_jobs-IsValid : IsValid two_jobs
two_jobs-IsValid = record { distinct = ground arith; current = inl refl }

removes-Removal_example :
    (Removal (λ j. j.jid == 1) two_jobs (remove_job_jid two_jobs 1)
      × IsValid (remove_job_jid two_jobs 1).1)
    × (Removal (λ j. j.pid == 1) two_jobs (remove_job_pid two_jobs 1)
        × IsValid (remove_job_pid two_jobs 1).1)
removes-Removal_example = removes-Removal two_jobs 1 two_jobs-IsValid

poll_round_example : poll 3 two_jobs ≡ some (pos 301 ∷ pos 305 ∷ minus_one ∷ [], two_jobs)
poll_round_example = poll_round two_jobs two_jobs-IsValid refl

-- The first process has exited, and nothing is known of the second.
abbrev first_exited : ℕ → Wait
first_exited pid = if pid == 301 then changed (exited 0) else unchanged

reap-Reaps_example : Reaps (reaped first_exited two_jobs.elements) (reap first_exited 3 two_jobs)
reap-Reaps_example = reap-Reaps first_exited two_jobs (ground arith) refl

-- `atoi` of a text that starts with one digit.
abbrev one_digit : Bytes → ℤ
one_digit [] = pos 0
one_digit (c ∷ word) = pos (c - 48)

-- `bg %2` where every signal is sent: the job with the process id 305 goes on.
bg-Resumes_example :
    Resumes one_digit
      (λ pid. true)
      two_jobs
      (codes "bg" ∷ codes "%2" ∷ [])
      (bg one_digit (λ pid. true) two_jobs (codes "bg" ∷ codes "%2" ∷ []))
bg-Resumes_example = bg-Resumes one_digit (λ pid. true) two_jobs (codes "bg" ∷ codes "%2" ∷ [])
