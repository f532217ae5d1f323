-- ===== src/Jobs/Resumed.antt =====
-- What `bg` does to the list of jobs.
use c_course_projects.Common.{
  ℕ, zero, suc, ◌<◌, arith, ◌≡◌, ◌≢◌, refl, subst, ap, sym, length, ◌∙◌, Bool, true, false, Option,
  some, none, List, [], ◌∷◌, ◌==◌, ==_iff, Bool-cases, inl, inr,
}
use c_course_projects.Common.Bytes.{Bytes}
use c_course_projects.Common.Int.{ℤ, pos, negsuc}
use c_course_projects.Jobs.{
  Job, JobList, minus_one, find_job, get_job_pid, update_elements, update_job_pid, update_job,
}
use c_course_projects.Jobs.Reap.{state_running}
use c_course_projects.Jobs.Resume.{
  Ending, syntax_error, no_percent, no_such_job, not_continued, no_terminal, reads_unset,
  update_failed, continued, pid_of, percent, after_percent, bg_job, bg,
}

some-eq : {A : Type 0} {a b : A} → some a ≡ some b → a ≡ b
some-eq e = cc

true-not_false : true ≢ false
true-not_false e = cc

negsuc-not_pos : {n a : ℕ} → negsuc n ≢ pos a
negsuc-not_pos e = cc

-- The second of two words.
second-eq : {a b c d : Bytes} → a ∷ b ∷ [] ≡ c ∷ d ∷ [] → b ≡ d
second-eq e = cc

words-eq : {a b c d : Bytes} → a ∷ (37 ∷ b) ∷ [] ≡ c ∷ (37 ∷ d) ∷ [] → b ≡ d
words-eq e = cc

minus_one-not_pos : {a : ℕ} → minus_one ≢ pos a
minus_one-not_pos e = cc

pos-eq : {a b : ℕ} → pos a ≡ pos b → a ≡ b
pos-eq e = cc

-- A job that was found is also found by its process id.
find_job-update_elements :
    (test : Job → Bool) (js : List Job) (j : Job) (state : Bytes)
    → find_job test js ≡ some j
    → (js' : List Job) × (update_elements (λ k. k.pid == j.pid) state js ≡ some js')
unfolding find_job update_elements
find_job-update_elements test [] j state h = cc
find_job-update_elements test (i ∷ js) j state h = elim (Bool-cases (i.pid == j.pid)) [
  | inl e ↦ (record i { state = state } ∷ js, rw e refl)
  | inr e ↦ elim (Bool-cases (test i)) [
    | inl t ↦
        let same : i ≡ j = some-eq (rw t at h) in
        let hit : (i.pid == j.pid) ≡ true = (==_iff i.pid j.pid).1 (ap (λ k. k.pid) same) in
        absurd (true-not_false (sym hit ∙ e))
    | inr t ↦
        let (js', eq) = find_job-update_elements test js j state (rw t at h) in
        (i ∷ js', rw (e, eq) refl)
  ]
]

get_job_pid-update :
    (l : JobList) (jid pid : ℕ)
    → get_job_pid l jid ≡ pos pid
    → (l' : JobList) × (update_job_pid l pid state_running ≡ (pos 0, l'))
unfolding get_job_pid update_job_pid update_job
get_job_pid-update l jid pid h = from_found (find_job (λ j. j.jid == jid) l.elements) refl h
  where
    from_found :
        (o : Option Job)
        → find_job (λ j. j.jid == jid) l.elements ≡ o
        → (elim o [ none ↦ minus_one | some j ↦ pos j.pid ]) ≡ pos pid
        → (l' : JobList) × (update_job_pid l pid state_running ≡ (pos 0, l'))
    from_found none e h' = absurd (minus_one-not_pos h')
    from_found (some j) e h' =
        let (js', eq) = find_job-update_elements (λ i. i.jid == jid) l.elements j state_running e in
        let updated : update_job_pid l j.pid state_running ≡ (pos 0, record l { elements = js' }) =
          rw (eq, update_job_pid, update_job) refl in
        subst (λ p. (l' : JobList) × (update_job_pid l p state_running ≡ (pos 0, l'))) (pos-eq h')
          (record l { elements = js' }, updated)

module _ (atoi : Bytes → ℤ) (killpg : ℕ → Bool) (l : JobList) where
  -- The job that `bg %...` names: its number is what follows the percent sign, and the list has it
  -- with a process id above 0.
  abbrev pub Names : List Bytes → ℕ → Type 0
  Names words pid =
      (command digits : Bytes) × (jid : ℕ) × (words ≡ command ∷ (37 ∷ digits) ∷ [])
      × (atoi digits ≡ pos jid)
      × (get_job_pid l jid ≡ pos pid)
      × (0 < pid)

  -- How `bg` ends for the words, and with which list.
  abbrev pub Resumes : List Bytes → Ending × JobList → Type 0
  Resumes words (syntax_error, l') = (length words ≢ 2) × (l' ≡ l)
  Resumes words (no_percent, l') =
      ((command digits : Bytes) → words ≢ command ∷ (37 ∷ digits) ∷ []) × (l' ≡ l)
  Resumes words (no_such_job, l') = ((pid : ℕ) → ¬ Names words pid) × (l' ≡ l)
  Resumes words (not_continued, l') =
      ((pid : ℕ) × Names words pid × (killpg pid ≡ false)) × (l' ≡ l)
  Resumes words (no_terminal, l') = ⊥
  Resumes words (reads_unset, l') = ⊥
  Resumes words (update_failed jid pid, l') = ⊥
  Resumes words (continued pid messages, l') =
      Names words pid × (killpg pid ≡ true) × (update_job_pid l pid state_running ≡ (pos 0, l'))

  -- A word with a percent sign in front.
  percent-eq : (word : Bytes) → percent word ≡ true → word ≡ 37 ∷ after_percent word
  percent-eq [] h = cc
  percent-eq (c ∷ word) h = ap (λ x. x ∷ word) ((==_iff c 37).0 h)

  -- What the words name is what `pid_of` finds.
  Names-pid_of :
      (command digits : Bytes) (pid : ℕ)
      → Names (command ∷ (37 ∷ digits) ∷ []) pid
      → (pid_of l (atoi digits) ≡ pos pid) × (0 < pid)
  Names-pid_of command digits pid (command', digits', jid, e, n, got, positive) =
      let same : digits ≡ digits' = words-eq e in
      (ap (λ d. pid_of l (atoi d)) same ∙ ap (pid_of l) n ∙ got, positive)

  bg_job-Resumes :
      (command digits : Bytes) (a z : ℤ)
      → atoi digits ≡ a
      → pid_of l a ≡ z
      → Resumes (command ∷ (37 ∷ digits) ∷ []) (bg_job atoi killpg z l)
  bg_job-Resumes command digits a (negsuc n) e h = (
    λ pid names.
        negsuc-not_pos (sym h ∙ ap (pid_of l) (sym e) ∙ (Names-pid_of command digits pid names).0),
    refl,
  )
  bg_job-Resumes command digits a (pos zero) e h = (
    λ pid names.
        let (got, positive) = Names-pid_of command digits pid names in
        let none : 0 ≡ pid = pos-eq (sym h ∙ ap (pid_of l) (sym e) ∙ got) in omega arith,
    refl,
  )
  bg_job-Resumes command digits (negsuc n) (pos (suc pid)) e h = absurd (minus_one-not_pos h)
  bg_job-Resumes command digits (pos jid) (pos (suc pid)) e h =
      let (l', u) = get_job_pid-update l jid (suc pid) h in
      let names : Names (command ∷ (37 ∷ digits) ∷ []) (suc pid) =
        (command, digits, jid, refl, e, h, omega arith) in
      elim (Bool-cases (killpg (suc pid))) [
        | inr k ↦ rw k ((suc pid, names, k), refl)
        | inl k ↦ rw (k, u) (names, k, u)
      ]

  -- `bg` carries on the job that is looked up to the number which `atoi` reads behind the
  -- percent sign of its second word. It ends as carried on exactly with that process id, after
  -- the signal was sent, and the list is then the one with that process id's state updated to
  -- running; the update never fails. Each error is told only where it applies: not two words, no
  -- percent sign, no job with that number, a signal that cannot be sent; the list is then as
  -- before.
  pub bg-Resumes : (words : List Bytes) → Resumes words (bg atoi killpg l words)
  unfolding bg
  bg-Resumes [] = (λ e. cc, refl)
  bg-Resumes (command ∷ []) = (λ e. cc, refl)
  bg-Resumes (command ∷ word ∷ []) = elim (Bool-cases (percent word)) [
    | inr p ↦
        rw (p, bg) (λ command' digits e. true-not_false (ap percent (sym (second-eq e)) ∙ p), refl)
    | inl p ↦
        rw (p, bg)
          (subst
            (λ w.
              Resumes (command ∷ w ∷ [])
                (bg_job atoi killpg (pid_of l (atoi (after_percent word))) l))
            (sym (percent-eq word p))
            (bg_job-Resumes command (after_percent word) (atoi (after_percent word))
              (pid_of l (atoi (after_percent word))) refl refl))
  ]
  bg-Resumes (command ∷ word ∷ more ∷ words) = (λ e. cc, refl)
