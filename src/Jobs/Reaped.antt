-- ===== src/Jobs/Reaped.antt =====
-- One round of `reap` against what the processes report.
use c_course_projects.Common.{
  ℕ, zero, suc, ◌≡◌, refl, sym, ap, subst, inl, inr, false, Option, none, some, List, [], ◌∷◌, ◌++◌,
  arith, All, All-append, Option-cases, append_assoc, length, ◌<◌,
}
use c_course_projects.Common.Bytes.{Bytes}
use c_course_projects.Common.Int.{pos, ltb_ℤ}
use c_course_projects.Jobs.{
  Job, JobList, address_of, remove_job, remove_job_pid, update_job, update_job_pid, get_job_jid,
  get_next_pid,
}
use c_course_projects.Jobs.Reap.{
  stopped, signaled, exited, continued, unknown, Wait, failed, unchanged, changed, Message,
  apply_status, with_wait, reap_help, reap, state_stopped, state_running,
}
use c_course_projects.Jobs.Apart.{
  Apart, AllApart, find_job-front, update_elements-front, unlink_job-front, from_address-front,
  not_next,
}

-- What a report leaves of a job: nothing, or the job with its new state.
abbrev pub after_wait : Wait → Job → List Job
after_wait failed j = j ∷ []
after_wait unchanged j = j ∷ []
after_wait (changed (stopped sig)) j = record j { state = state_stopped } ∷ []
after_wait (changed (signaled sig)) j = []
after_wait (changed (exited code)) j = []
after_wait (changed continued) j = record j { state = state_running } ∷ []
after_wait (changed unknown) j = j ∷ []

abbrev pub reaped : (ℕ → Wait) → List Job → List Job
reaped waitpid [] = []
reaped waitpid (j ∷ js) = after_wait (waitpid j.pid) j ++ reaped waitpid js

abbrev here : List Job → List Job → JobList
here front js = record { elements = front ++ js; current = address_of js }

module _ (front : List Job) (j : Job) (js : List Job) (hf : All (Apart j) front)
    (hl : All (λ i. Apart i j) js) where
  abbrev beside : JobList
  beside = record { elements = front ++ (j ∷ js); current = address_of js }

  beside-kept : beside ≡ here (front ++ (j ∷ [])) js
  beside-kept =
      ap (λ t. record { elements = t; current = address_of js })
        (sym (append_assoc front (j ∷ []) js))

  beside-removed : (remove_job_pid beside j.pid).1 ≡ here (front ++ []) js
  unfolding remove_job_pid remove_job
  beside-removed =
      rw (unlink_job-front j front js hf, not_next j js hl, remove_job_pid, remove_job)
        (simp append_assoc)

  beside-updated :
      (s : Bytes)
      → (update_job_pid beside j.pid s).1 ≡ here (front ++ (record j { state = s } ∷ [])) js
  unfolding update_job_pid update_job
  beside-updated s =
      rw (update_elements-front j s front js hf, update_job_pid, update_job) (simp append_assoc)

  with_wait-after :
      (w : Wait) → (with_wait w (pos j.jid) j.pid beside).0 ≡ here (front ++ after_wait w j) js
  unfolding apply_status
  with_wait-after failed = beside-kept
  with_wait-after unchanged = beside-kept
  with_wait-after (changed (stopped sig)) = beside-updated state_stopped
  with_wait-after (changed (signaled sig)) = beside-removed
  with_wait-after (changed (exited code)) = beside-removed
  with_wait-after (changed continued) = beside-updated state_running
  with_wait-after (changed unknown) = beside-kept

  -- The list after the job `j` behind `front` is visited.
  reap_help-after :
      (waitpid : ℕ → Wait)
      → (reap_help waitpid j.pid beside).0 ≡ here (front ++ after_wait (waitpid j.pid) j) js
  unfolding reap_help get_job_jid
  reap_help-after waitpid =
      let nonneg : ltb_ℤ (pos j.jid) (pos 0) ≡ false = ground arith in
      rw (find_job-front j front js hf, reap_help, get_job_jid, nonneg)
        (with_wait-after (waitpid j.pid))

-- The later jobs are apart from what a visited job becomes.
after_wait-Apart : (w : Wait) (j i : Job) → Apart j i → All (λ k. Apart i k) (after_wait w j)
after_wait-Apart failed j i h = ((λ e. h.0 (sym e), λ e. h.1 (sym e)), tt)
after_wait-Apart unchanged j i h = ((λ e. h.0 (sym e), λ e. h.1 (sym e)), tt)
after_wait-Apart (changed (stopped sig)) j i h = ((λ e. h.0 (sym e), λ e. h.1 (sym e)), tt)
after_wait-Apart (changed (signaled sig)) j i h = tt
after_wait-Apart (changed (exited code)) j i h = tt
after_wait-Apart (changed continued) j i h = ((λ e. h.0 (sym e), λ e. h.1 (sym e)), tt)
after_wait-Apart (changed unknown) j i h = ((λ e. h.0 (sym e), λ e. h.1 (sym e)), tt)

-- Every job of the second list is apart from those of the first.
abbrev Later : List Job → List Job → Type 0
Later front [] = Unit
Later front (j ∷ js) = All (λ i. Apart j i) front × Later front js

Later-after :
    (w : Wait) (front : List Job) (j : Job) (js : List Job)
    → Later front js
    → All (λ i. Apart i j) js
    → Later (front ++ after_wait w j) js
Later-after w front j [] h k = tt
Later-after w front j (i ∷ js) h k = (
  All-append (λ x. Apart i x) front (after_wait w j) h.0
      (after_wait-Apart w j i (λ e. k.0.0 (sym e), λ e. k.0.1 (sym e))),
  Later-after w front j js h.1 k.1,
)

-- How a round ends: with the list that it leaves, from the first element on.
abbrev pub Reaps : List Job → Option (JobList × List Message) → Type 0
Reaps js none = ⊥
Reaps js (some (l, _)) = l ≡ record { elements = js; current = address_of js }

-- A call of `get_next_pid` that gives a process, the visit of its job, and the rest of the round.
reap-next :
    (waitpid : ℕ → Wait) (fuel : ℕ) (l l' l'' : JobList) (pid : ℕ) (js : List Job)
    → 0 < pid
    → get_next_pid l ≡ some (pos pid, l')
    → (reap_help waitpid pid l').0 ≡ l''
    → Reaps js (reap waitpid fuel l'')
    → Reaps js (reap waitpid (suc fuel) l)
unfolding reap
reap-next waitpid fuel l l' l'' zero js lt e h r = absurd (omega arith)
reap-next waitpid fuel l l' l'' (suc pid) js lt e h r =
    let r' = subst (λ k. Reaps js (reap waitpid fuel k)) (sym h) r in
    elim (Option-cases (reap waitpid fuel (reap_help waitpid (suc pid) l').0)) [
      | inl n ↦ absurd (subst (Reaps js) n r')
      | inr ((l3, more), n) ↦ rw (e, n, reap) (subst (Reaps js) n r')
    ]

get_next_pid-here :
    (front : List Job) (j : Job) (js : List Job)
    → All (Apart j) front
    → get_next_pid (here front (j ∷ js))
      ≡ some (pos j.pid, record { elements = front ++ (j ∷ js); current = address_of js })
unfolding get_next_pid
get_next_pid-here front j js h = rw (from_address-front j front js h, get_next_pid) refl

reap-from :
    (waitpid : ℕ → Wait) (front js : List Job)
    → Later front js
    → AllApart js
    → Reaps (front ++ reaped waitpid js) (reap waitpid (suc (length js)) (here front js))
unfolding reap get_next_pid
reap-from waitpid front [] h a = refl
reap-from waitpid front (j ∷ js) h a =
    let w = waitpid j.pid in
    reap-next waitpid (suc (length js)) (here front (j ∷ js)) _ _ j.pid _ a.1
      (get_next_pid-here front j js h.0) (reap_help-after front j js h.0 a.0 waitpid)
      (subst (λ t. Reaps t (reap waitpid (suc (length js)) (here (front ++ after_wait w j) js)))
        (append_assoc front (after_wait w j) (reaped waitpid js))
        (reap-from waitpid (front ++ after_wait w j) js (Later-after w front j js h.1 a.0) a.2))

-- If the jobs differ in their process ids and addresses and no process id is 0, a round of `reap`
-- from the head takes one call of `get_next_pid` for each job and one more. It leaves the list
-- without the jobs whose process exited or was killed, in order, with the new state of those that
-- stopped or continued, at its head.
pub reap-Reaps :
    (waitpid : ℕ → Wait) (l : JobList)
    → AllApart l.elements
    → l.current ≡ address_of l.elements
    → Reaps (reaped waitpid l.elements) (reap waitpid (suc (length l.elements)) l)
reap-Reaps waitpid l a e =
    subst
      (λ c.
        Reaps (reaped waitpid l.elements)
          (reap waitpid (suc (length l.elements)) (record { elements = l.elements; current = c })))
      (sym e) (reap-from waitpid [] l.elements (nothing_before l.elements) a)
  where
    nothing_before : (js : List Job) → Later [] js
    nothing_before [] = tt
    nothing_before (j ∷ js) = (tt, nothing_before js)
