-- ===== src/Jobs/Reap.antt =====
-- shell_2/reap.c: what the shell learns of its processes, and how the list of jobs follows.
--
-- `waitpid` is a parameter: what it reports for a process id. The messages are values that stand for
-- the texts written. Setting the terminal's process group at the end of `wait_child` is left out.
use c_course_projects.Common.{ℕ, zero, suc, Option, none, some, List, [], ◌∷◌, ◌++◌, if◌then◌else◌}
use c_course_projects.Common.Bytes.{Bytes, codes}
use c_course_projects.Common.Int.{ℤ, pos, negsuc, ltb_ℤ}
use c_course_projects.Jobs.{JobList, remove_job_pid, update_job_pid, get_job_jid, get_next_pid}

-- The status that `waitpid` stores, by the macro that holds of it: WIFSTOPPED with the signal,
-- WIFSIGNALED with the signal, WIFEXITED with the exit status, WIFCONTINUED, or none of them.
pub data Status : Type 0 where
  stopped : ℕ → Status
  signaled : ℕ → Status
  exited : ℕ → Status
  continued : Status
  unknown : Status

-- The result of `waitpid`: negative, 0, or positive with a status.
pub data Wait : Type 0 where
  failed : Wait
  unchanged : Wait
  changed : Status → Wait

pub data Message : Type 0 where
  no_jid : ℤ → Message
  suspended : ℤ → ℕ → ℕ → Message
  terminated : ℤ → ℕ → ℕ → Message
  exit_status : ℤ → ℕ → ℕ → Message
  resumed : ℤ → ℕ → Message
  not_updated : ℤ → ℕ → Message
  not_removed : ℤ → ℕ → Message
  unknown_pid : ℕ → Message

-- `_STATE_STOPPED` and `_STATE_RUNNING`
abbrev pub state_stopped : Bytes
state_stopped = codes "Stopped"

abbrev pub state_running : Bytes
state_running = codes "Running"

-- The message for a result below 0.
abbrev pub complaint : ℤ → Message → List Message
complaint result m = if ltb_ℤ result (pos 0) then m ∷ [] else []

-- What `reap_help` does with a status.
unfoldable pub apply_status : Status → ℤ → ℕ → JobList → JobList × List Message
apply_status (stopped sig) jid pid l =
    let (result, l') = update_job_pid l pid state_stopped in
    (l', complaint result (not_updated jid pid) ++ (suspended jid pid sig ∷ []))
apply_status (signaled sig) jid pid l =
    let (result, l') = remove_job_pid l pid in
    (l', terminated jid pid sig ∷ complaint result (not_removed jid pid))
apply_status (exited code) jid pid l =
    let (result, l') = remove_job_pid l pid in
    (l', exit_status jid pid code ∷ complaint result (not_removed jid pid))
apply_status continued jid pid l =
    let (result, l') = update_job_pid l pid state_running in
    (l', resumed jid pid ∷ complaint result (not_updated jid pid))
apply_status unknown jid pid l = (l, unknown_pid pid ∷ [])

abbrev pub with_wait : Wait → ℤ → ℕ → JobList → JobList × List Message
with_wait failed jid pid l = (l, [])
with_wait unchanged jid pid l = (l, [])
with_wait (changed status) jid pid l = apply_status status jid pid l

module _ (waitpid : ℕ → Wait) where
  unfoldable pub reap_help : ℕ → JobList → JobList × List Message
  unfolding apply_status
  reap_help pid l =
      let jid = get_job_jid l pid in
      if ltb_ℤ jid (pos 0) then (l, no_jid jid ∷ []) else with_wait (waitpid pid) jid pid l

  -- `reap`: the loop from a call of `get_next_pid` on. `none` is a dangling pointer or too little
  -- fuel.
  unfoldable pub reap : ℕ → JobList → Option (JobList × List Message)
  unfolding reap_help
  reap zero l = none
  reap (suc fuel) l = elim (get_next_pid l) [
    | none ↦ none
    | some (pos (suc pid), l') ↦
        let (l'', messages) = reap_help (suc pid) l' in
        elim (reap fuel l'') [ none ↦ none | some (l3, more) ↦ some (l3, messages ++ more) ]
    | some (pos zero, l') ↦ some (l', [])
    | some (negsuc n, l') ↦ some (l', [])
  ]

  -- `wait_child`, which tests the status by the same macros, and prints nothing on an exit.
  unfoldable pub wait_child : ℕ → JobList → JobList × List Message
  wait_child pid l =
      let jid = get_job_jid l pid in
      elim (waitpid pid) [
        | changed (exited code) ↦
            let (result, l') = remove_job_pid l pid in (l', complaint result (not_removed jid code))
        | changed (signaled sig) ↦
            let (result, l') = remove_job_pid l pid in
            (l', terminated jid pid sig ∷ complaint result (not_removed jid pid))
        | changed (stopped sig) ↦
            let (result, l') = update_job_pid l pid state_stopped in
            (l', suspended jid pid sig ∷ complaint result (not_updated jid pid))
        | changed continued ↦ (l, [])
        | changed unknown ↦ (l, [])
        | unchanged ↦ (l, [])
        | failed ↦ (l, [])
      ]
