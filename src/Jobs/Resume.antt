-- ===== src/Jobs/Resume.antt =====
-- shell_2/executes.c: `bg` and `fg`, which let a stopped job go on.
--
-- The list of words is the command with its arguments, `buf` at the indices of `argc`. `atoi`, `killpg`
-- with SIGCONT, `tcsetpgrp` and `waitpid` are parameters.
use c_course_projects.Common.{ℕ, zero, suc, Bool, false, List, [], ◌∷◌, if◌then◌else◌, ◌==◌}
use c_course_projects.Common.Bytes.{Bytes}
use c_course_projects.Common.Int.{ℤ, pos, negsuc, ltb_ℤ}
use c_course_projects.Jobs.{JobList, minus_one, get_job_pid, get_job_jid, update_job_pid}
use c_course_projects.Jobs.Reap.{Wait, Message, state_running, wait_child}

-- How the commands end: with an error that is written, or with the job going on.
pub data Ending : Type 0 where
  syntax_error no_percent no_such_job not_continued no_terminal : Ending
  reads_unset : Ending
  update_failed : ℤ → ℕ → Ending
  continued : ℕ → List Message → Ending

-- `get_job_pid(aloj, atoi(...))`. No job has a negative number.
abbrev pub pid_of : JobList → ℤ → ℤ
pid_of l (pos jid) = get_job_pid l jid
pid_of l (negsuc n) = minus_one

-- The test for the percent sign, and what follows it.
abbrev pub percent : Bytes → Bool
percent [] = false
percent (c ∷ word) = c == 37

abbrev pub after_percent : Bytes → Bytes
after_percent [] = []
after_percent (c ∷ word) = word

module _ (atoi : Bytes → ℤ) (killpg : ℕ → Bool) where
  -- From the call of `killpg` to the update of the list; `next` is what follows.
  abbrev pub continue_job : (ℕ → JobList → Ending × JobList) → ℕ → JobList → Ending × JobList
  continue_job next pid l =
      let (result, l') = update_job_pid l pid state_running in
      if killpg pid
      then if ltb_ℤ result (pos 0)
        then (update_failed (get_job_jid l' pid) pid, l')
        else next pid l'
      else (not_continued, l)

  -- The test of `bg` is `p <= 0`.
  abbrev pub bg_job : ℤ → JobList → Ending × JobList
  bg_job (pos (suc pid)) l = continue_job (λ p l'. (continued p [], l')) (suc pid) l
  bg_job (pos zero) l = (no_such_job, l)
  bg_job (negsuc n) l = (no_such_job, l)

  unfoldable pub bg : JobList → List Bytes → Ending × JobList
  unfolding get_job_pid get_job_jid update_job_pid
  bg l (command ∷ word ∷ []) =
      if percent word then bg_job (pid_of l (atoi (after_percent word))) l else (no_percent, l)
  bg l words = (syntax_error, l)

  module _ (tcsetpgrp : ℕ → Bool) (waitpid : ℕ → Wait) where
    abbrev wait_for : ℕ → JobList → Ending × JobList
    wait_for pid l =
        let (l', messages) = wait_child waitpid pid l in
        if tcsetpgrp pid then (continued pid messages, l') else (no_terminal, l)

    -- The test of `fg` is `p < 0`.
    abbrev fg_job : ℤ → JobList → Ending × JobList
    fg_job (pos pid) l = continue_job wait_for pid l
    fg_job (negsuc n) l = (no_such_job, l)

    -- A wrong number of arguments is reported, but the function goes on: with none it reads an entry
    -- of `argc` that was never set.
    unfoldable pub fg : JobList → List Bytes → Ending × JobList
    unfolding get_job_pid get_job_jid update_job_pid wait_child
    fg l (command ∷ word ∷ words) =
        if percent word then fg_job (pid_of l (atoi (after_percent word))) l else (no_percent, l)
    fg l words = (reads_unset, l)
