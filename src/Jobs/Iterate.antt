-- ===== src/Jobs/Iterate.antt =====
-- `get_next_pid` as an iterator: one round lists every process, then -1, and starts again.
use c_course_projects.Common.{
  ℕ, zero, suc, ◌≡◌, ◌≢◌, refl, sym, subst, false, Option, none, some, List, [], ◌∷◌, ◌++◌, map,
  arith, ◌==◌, ==_iff, append_assoc, length,
}
use c_course_projects.Common.Int.{ℤ, pos}
use c_course_projects.Jobs.{Job, JobList, address_of, from_address, get_next_pid, minus_one}
use c_course_projects.Jobs.Valid.{Fresh, Distinct, IsValid}

-- `n` calls in turn, with the results; `none` if a call reads through a dangling pointer.
pub poll : ℕ → JobList → Option (List ℤ × JobList)
poll zero l = some ([], l)
poll (suc n) l = elim (get_next_pid l) [
  | none ↦ none
  | some (pid, l') ↦ elim (poll n l') [ none ↦ none | some (pids, l'') ↦ some (pid ∷ pids, l'') ]
]

from_address-suffix :
    (front : List Job) (j : Job) (js : List Job)
    → Distinct (front ++ (j ∷ js))
    → from_address j.address (front ++ (j ∷ js)) ≡ j ∷ js
unfolding from_address
from_address-suffix [] j js d = rw ((==_iff j.address j.address).1 refl)
from_address-suffix (i ∷ front) j js d =
    let ne : (i.address == j.address) ≡ false = ground (arith, not_first front d.0) in
    rw ne (from_address-suffix front j js d.1)
  where
    not_first : (front : List Job) → Fresh i.address (front ++ (j ∷ js)) → i.address ≢ j.address
    not_first [] f = λ e. f.0 (sym e)
    not_first (k ∷ front) f = not_first front f.1

poll_suffix :
    (front js : List Job)
    → Distinct (front ++ js)
    → poll (suc (length js)) (record { elements = front ++ js; current = address_of js })
      ≡ some (
        map (λ j. pos j.pid) js ++ (minus_one ∷ []),
        record { elements = front ++ js; current = address_of (front ++ js) },
      )
unfolding poll get_next_pid
poll_suffix front [] d = refl
poll_suffix front (j ∷ js) d =
    let reassoc : front ++ (j ∷ js) ≡ (front ++ (j ∷ [])) ++ js =
      sym (append_assoc front (j ∷ []) js) in
    let ih = poll_suffix (front ++ (j ∷ [])) js (rw reassoc at d) in
    rw (from_address-suffix front j js d, get_next_pid, poll) (rw (rw (← reassoc) at ih))

-- From the head of a valid list, one call for each job and one more return the process ids of all
-- jobs in order and then -1, and leave the list as it was, at its head.
pub poll_round :
    (l : JobList)
    → IsValid l
    → l.current ≡ address_of l.elements
    → poll (suc (length l.elements)) l
      ≡ some (map (λ j. pos j.pid) l.elements ++ (minus_one ∷ []), l)
poll_round l v e =
    subst
      (λ c.
        poll (suc (length l.elements)) (record { elements = l.elements; current = c })
        ≡ some (
          map (λ j. pos j.pid) l.elements ++ (minus_one ∷ []),
          record { elements = l.elements; current = c },
        ))
      (sym e) (poll_suffix [] l.elements v.distinct)
