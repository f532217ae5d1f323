-- ===== src/Jobs/Valid.antt =====
-- The invariant of the job list, and that every operation keeps it.
use c_course_projects.Common.{
  ℕ, ◌≡◌, ◌≢◌, refl, sym, ap, subst, inl, inr, ◌⊎◌, Bool, true, false, Option, none, some, List, [],
  ◌∷◌, ◌++◌, All, Bool-cases, Option-cases,
}
use c_course_projects.Common.Bytes.{Bytes}
use c_course_projects.Jobs.{Job, JobList, init_job_list, new_job, append_job, add_job, unlink_job}

-- No element lies at the address.
abbrev pub Fresh : ℕ → List Job → Type 0
Fresh a = All (λ j. j.address ≢ a)

abbrev pub Distinct : List Job → Type 0
Distinct [] = Unit
Distinct (j ∷ js) = Fresh j.address js × Distinct js

-- An element lies at the address, or the pointer is NULL.
abbrev pub Lies : Option ℕ → List Job → Type 0
Lies none js = Unit
Lies (some a) [] = ⊥
Lies (some a) (j ∷ js) = (j.address ≡ a) ⊎ Lies (some a) js

-- The addresses differ, and `current` is NULL or one of them.
pub record IsValid (l : JobList) : Type 0 where
  pub distinct : Distinct l.elements
  pub current : Lies l.current l.elements

pub init_job_list-IsValid : IsValid init_job_list
unfolding init_job_list
init_job_list-IsValid = record { distinct = tt; current = tt }

Fresh-append :
    (a : ℕ) (js : List Job) (new : Job) → new.address ≢ a → Fresh a js → Fresh a (append_job js new)
unfolding append_job
Fresh-append a [] new h f = (h, tt)
Fresh-append a (j ∷ js) new h f = (f.0, Fresh-append a js new h f.1)

Distinct-append :
    (js : List Job) (new : Job) → Fresh new.address js → Distinct js → Distinct (append_job js new)
unfolding append_job
Distinct-append [] new f d = (tt, tt)
Distinct-append (j ∷ js) new f d =
    (Fresh-append j.address js new (λ e. f.0 (sym e)) d.0, Distinct-append js new f.1 d.1)

Lies-append : (c : Option ℕ) (js : List Job) (new : Job) → Lies c js → Lies c (append_job js new)
unfolding append_job
Lies-append none js new h = tt
Lies-append (some a) [] new h = absurd h
Lies-append (some a) (j ∷ js) new (inl e) = inl e
Lies-append (some a) (j ∷ js) new (inr h) = inr (Lies-append (some a) js new h)

add_elements-IsValid :
    (address : ℕ) (l : JobList) (jid pid : ℕ) (state command : Bytes) (elements : List Job)
    → l.elements ≡ elements
    → IsValid l
    → Fresh address l.elements
    → IsValid (add_job address l jid pid (some state) (some command)).1
unfolding add_job
add_elements-IsValid address l jid pid state command [] e v f =
    rw (e, add_job) (record { distinct = (tt, tt); current = inl refl })
add_elements-IsValid address l jid pid state command (j ∷ js) e v f =
    let new = new_job address jid pid state command in
    rw (e, add_job)
      (record {
        distinct = Distinct-append (j ∷ js) new (rw e at f) (rw e at v.distinct);
        current = Lies-append l.current (j ∷ js) new (rw e at v.current);
      })

-- `add_job` at an address where no element lies keeps the list valid.
pub add_job-IsValid :
    (address : ℕ) (l : JobList) (jid pid : ℕ) (state command : Option Bytes)
    → IsValid l
    → Fresh address l.elements
    → IsValid (add_job address l jid pid state command).1
unfolding add_job
add_job-IsValid address l jid pid none command v f = v
add_job-IsValid address l jid pid (some state) none v f = v
add_job-IsValid address l jid pid (some state) (some command) v f =
    add_elements-IsValid address l jid pid state command l.elements refl v f

-- How `unlink_job` takes a list apart.
pub record Unlinks (test : Job → Bool) (js : List Job) (found : Job) (after left : List Job)
    : Type 0 where
  pub front : List Job
  pub before_eq : js ≡ front ++ (found ∷ after)
  pub left_eq : left ≡ front ++ after
  pub first : All (λ j. test j ≡ false) front
  pub hit : test found ≡ true

abbrev pub UnlinkResult : (Job → Bool) → List Job → Option (Job × List Job × List Job) → Type 0
UnlinkResult test js none = All (λ j. test j ≡ false) js
UnlinkResult test js (some (found, after, left)) = Unlinks test js found after left

-- `unlink_job` takes out the first element that passes the test.
pub unlink_job-Unlinks :
    (test : Job → Bool) (js : List Job) → UnlinkResult test js (unlink_job test js)
unfolding unlink_job
unlink_job-Unlinks test [] = tt
unlink_job-Unlinks test (j ∷ js) = elim (Bool-cases (test j)) [
  | inl hit ↦
      rw (hit, unlink_job)
        (record { front = []; before_eq = refl; left_eq = refl; first = tt; hit = hit })
  | inr miss ↦
      let ih = unlink_job-Unlinks test js in
      elim (Option-cases (unlink_job test js)) [
        | inl e ↦ rw (miss, e, unlink_job) (miss, subst (UnlinkResult test js) e ih)
        | inr ((found, after, left), e) ↦
            let u = subst (UnlinkResult test js) e ih in
            rw (miss, e, unlink_job)
              (record {
                front = j ∷ u.front;
                before_eq = ap (λ t. j ∷ t) u.before_eq;
                left_eq = ap (λ t. j ∷ t) u.left_eq;
                first = (miss, u.first);
                hit = u.hit;
              })
      ]
]
