-- ===== src/Jobs/Remove.antt =====
-- Removing a job, and where `current` goes.
use c_course_projects.Common.{
  ℕ, ◌≡◌, ◌≢◌, refl, sym, subst, inl, inr, ◌⊎◌, Bool, false, Option, none, some, List, [], ◌∷◌,
  ◌++◌, All, Bool-cases, Option-cases, if◌then◌else◌, ◌==◌, ==_iff,
}
use c_course_projects.Common.Int.{ℤ, pos}
use c_course_projects.Jobs.{
  Job, JobList, address_of, unlink_job, remove_job, remove_job_jid, remove_job_pid, is_current,
  minus_one,
}
use c_course_projects.Jobs.Valid.{
  Fresh, Distinct, Lies, IsValid, Unlinks, UnlinkResult, unlink_job-Unlinks,
}

pub Fresh-drop :
    (a : ℕ) (front : List Job) (j : Job) (js : List Job)
    → Fresh a (front ++ (j ∷ js))
    → (j.address ≢ a) × Fresh a (front ++ js)
Fresh-drop a [] j js f = (f.0, f.1)
Fresh-drop a (i ∷ front) j js f = let (ne, rest) = Fresh-drop a front j js f.1 in (ne, (f.0, rest))

pub Distinct-drop :
    (front : List Job) (j : Job) (js : List Job)
    → Distinct (front ++ (j ∷ js))
    → Distinct (front ++ js)
Distinct-drop [] j js d = d.1
Distinct-drop (i ∷ front) j js d =
    ((Fresh-drop i.address front j js d.0).1, Distinct-drop front j js d.1)

Lies-drop :
    (a : ℕ) (front : List Job) (j : Job) (js : List Job)
    → j.address ≢ a
    → Lies (some a) (front ++ (j ∷ js))
    → Lies (some a) (front ++ js)
Lies-drop a [] j js ne (inl e) = absurd (ne e)
Lies-drop a [] j js ne (inr h) = h
Lies-drop a (i ∷ front) j js ne (inl e) = inl e
Lies-drop a (i ∷ front) j js ne (inr h) = inr (Lies-drop a front j js ne h)

-- The address of what follows lies in the list.
pub Lies-after : (front after : List Job) → Lies (address_of after) (front ++ after)
Lies-after [] [] = tt
Lies-after [] (j ∷ js) = inl refl
Lies-after (i ∷ front) [] = tt
Lies-after (i ∷ front) (j ∷ js) = inr (Lies-after front (j ∷ js))

moved :
    (c : Option ℕ) (front : List Job) (j : Job) (after : List Job)
    → Lies c (front ++ (j ∷ after))
    → Lies (if is_current c j.address then address_of after else c) (front ++ after)
moved none front j after h = tt
moved (some a) front j after h = elim (Bool-cases (a == j.address)) [
  | inl e ↦ rw e (Lies-after front after)
  | inr e ↦ rw e (Lies-drop a front j after (λ q. cc ((==_iff a j.address).1 (sym q))) h)
]

-- What removing the first job that passes a test does: nothing and -1 if there is none; otherwise 0,
-- the others stay in order, and `current` moves on only if it stood at the removed job.
abbrev pub Removal : (Job → Bool) → JobList → ℤ × JobList → Type 0
Removal test l (r, l') =
    ((r ≡ minus_one) × (l' ≡ l) × All (λ j. test j ≡ false) l.elements)
    ⊎ ((r ≡ pos 0)
        × ((found : Job) × (after : List Job) × Unlinks test l.elements found after l'.elements
            × (l'.current
                ≡ (if is_current l.current found.address then address_of after else l.current))))

remove_job-Removal : (test : Job → Bool) (l : JobList) → Removal test l (remove_job test l)
unfolding remove_job
remove_job-Removal test l =
    let unlinks = unlink_job-Unlinks test l.elements in
    elim (Option-cases (unlink_job test l.elements)) [
      | inl e ↦
          rw (e, remove_job) (inl (refl, refl, subst (UnlinkResult test l.elements) e unlinks))
      | inr ((found, after, left), e) ↦
          rw (e, remove_job)
            (inr (refl, (found, after, subst (UnlinkResult test l.elements) e unlinks, refl)))
    ]

Removal-IsValid :
    (test : Job → Bool) (l : JobList) (r : ℤ) (l' : JobList)
    → Removal test l (r, l')
    → IsValid l
    → IsValid l'
Removal-IsValid test l r l' (inl (_, same, _)) v = rw same v
Removal-IsValid test l r l' (inr (_, (found, after, u, current))) v = record {
  distinct = rw u.left_eq (Distinct-drop u.front found after (rw u.before_eq at v.distinct));
  current =
      rw (u.left_eq, current) (moved l.current u.front found after (rw u.before_eq at v.current));
}

-- On a valid list both removals take out the first job with the number, tell whether there was one,
-- move `current` only off the removed job, and keep the list valid.
pub removes-Removal :
    (l : JobList) (n : ℕ)
    → IsValid l
    → (Removal (λ j. j.jid == n) l (remove_job_jid l n) × IsValid (remove_job_jid l n).1)
      × (Removal (λ j. j.pid == n) l (remove_job_pid l n) × IsValid (remove_job_pid l n).1)
unfolding remove_job_jid remove_job_pid
removes-Removal l n v =
    let by_jid = remove_job-Removal (λ j. j.jid == n) l in
    let by_pid = remove_job-Removal (λ j. j.pid == n) l in
    ((by_jid, Removal-IsValid _ l _ _ by_jid v), (by_pid, Removal-IsValid _ l _ _ by_pid v))
