-- ===== src/Jobs.antt =====
-- shell_2/jobs.c: the shell's list of jobs, a singly linked list with a pointer for iteration.
--
-- The list is modelled by its nodes in order, each with its address; the `next` fields are the
-- order. `head` is the address of the first node, and `current` is an address or NULL. Addresses are
-- what `malloc` returns, so a new node's address is an argument.
pub mod Valid
pub mod Remove
pub mod Iterate
pub mod Lookup
pub mod Reap
pub mod Apart
pub mod Reaped
pub mod Resume
pub mod Resumed
mod Tests
use c_course_projects.Common.{
  ℕ, zero, suc, ◌≡◌, Bool, true, false, Option, none, some, List, [], ◌∷◌, ◌++◌, if◌then◌else◌,
  ◌==◌,
}
use c_course_projects.Common.Bytes.{Bytes}
use c_course_projects.Common.Int.{ℤ, pos, negsuc}

-- `job_element_t` and its address. Process ids are what `fork` returns in the parent.
pub record Job : Type 0 where
  pub address : ℕ
  pub jid : ℕ
  pub pid : ℕ
  pub state : Bytes
  pub command : Bytes

-- `job_list_t`; `none` is NULL.
pub record JobList : Type 0 where
  pub elements : List Job
  pub current : Option ℕ

abbrev pub minus_one : ℤ
minus_one = negsuc 0

unfoldable pub init_job_list : JobList
init_job_list = record { elements = []; current = none }

abbrev pub address_of : List Job → Option ℕ
address_of [] = none
address_of (j ∷ js) = some j.address

-- The element that a job is stored in. The strings are copied.
abbrev pub new_job : ℕ → ℕ → ℕ → Bytes → Bytes → Job
new_job address jid pid state command = record {
  address = address;
  jid = jid;
  pid = pid;
  state = state;
  command = command;
}

-- The walk to the tail and the link to the new element.
unfoldable pub append_job : List Job → Job → List Job
append_job [] new = new ∷ []
append_job (j ∷ js) new = j ∷ append_job js new

-- `state` or `command` may be NULL; the list itself is not.
unfoldable pub add_job : ℕ → JobList → ℕ → ℕ → Option Bytes → Option Bytes → ℤ × JobList
unfolding append_job
add_job address l jid pid none command = (minus_one, l)
add_job address l jid pid (some state) none = (minus_one, l)
add_job address l jid pid (some state) (some command) =
    let new = new_job address jid pid state command in
    elim l.elements [
      | [] ↦ (pos 0, record { elements = new ∷ []; current = some address })
      | j ∷ js ↦ (pos 0, record l { elements = append_job (j ∷ js) new })
    ]

-- The loop of `remove_job_jid` and of `remove_job_pid`, which differ in the field that they compare.
-- The result is the element that is unlinked, what follows it, and the list without it.
unfoldable pub unlink_job : (Job → Bool) → List Job → Option (Job × List Job × List Job)
unlink_job test [] = none
unlink_job test (j ∷ js) =
    let later : Option (Job × List Job × List Job) = elim (unlink_job test js) [
      | none ↦ none
      | some (found, after, left) ↦ some (found, after, j ∷ left)
    ] in
    if test j then some (j, js, js) else later

abbrev is_current : Option ℕ → ℕ → Bool
is_current none a = false
is_current (some c) a = c == a

unfoldable pub remove_job : (Job → Bool) → JobList → ℤ × JobList
unfolding unlink_job
remove_job test l = elim (unlink_job test l.elements) [
  | none ↦ (minus_one, l)
  | some (found, after, left) ↦ (
    pos 0,
    record {
      elements = left;
      current = if is_current l.current found.address then address_of after else l.current;
    },
  )
]

unfoldable pub remove_job_jid : JobList → ℕ → ℤ × JobList
unfolding remove_job
remove_job_jid l jid = remove_job (λ j. j.jid == jid) l

unfoldable pub remove_job_pid : JobList → ℕ → ℤ × JobList
unfolding remove_job
remove_job_pid l pid = remove_job (λ j. j.pid == pid) l

-- The loop of `update_job_jid` and of `update_job_pid`.
unfoldable pub update_elements : (Job → Bool) → Bytes → List Job → Option (List Job)
update_elements test state [] = none
update_elements test state (j ∷ js) =
    let later : Option (List Job) = elim (update_elements test state js) [
      | none ↦ none
      | some js' ↦ some (j ∷ js')
    ] in
    if test j then some (record j { state = state } ∷ js) else later

unfoldable pub update_job : (Job → Bool) → JobList → Bytes → ℤ × JobList
unfolding update_elements
update_job test l state = elim (update_elements test state l.elements) [
  | none ↦ (minus_one, l)
  | some elements ↦ (pos 0, record l { elements = elements })
]

unfoldable pub update_job_jid : JobList → ℕ → Bytes → ℤ × JobList
unfolding update_job
update_job_jid l jid state = update_job (λ j. j.jid == jid) l state

unfoldable pub update_job_pid : JobList → ℕ → Bytes → ℤ × JobList
unfolding update_job
update_job_pid l pid state = update_job (λ j. j.pid == pid) l state

-- The loop of `get_job_pid` and of `get_job_jid`.
unfoldable pub find_job : (Job → Bool) → List Job → Option Job
find_job test [] = none
find_job test (j ∷ js) = if test j then some j else find_job test js

unfoldable pub get_job_pid : JobList → ℕ → ℤ
unfolding find_job
get_job_pid l jid = elim (find_job (λ j. j.jid == jid) l.elements) [
  | none ↦ minus_one
  | some j ↦ pos j.pid
]

unfoldable pub get_job_jid : JobList → ℕ → ℤ
unfolding find_job
get_job_jid l pid = elim (find_job (λ j. j.pid == pid) l.elements) [
  | none ↦ minus_one
  | some j ↦ pos j.jid
]

-- The elements from an address on; none of them if no element has the address.
unfoldable pub from_address : ℕ → List Job → List Job
from_address a [] = []
from_address a (j ∷ js) = if j.address == a then j ∷ js else from_address a js

-- `get_next_pid`. The outer `none` is a read through `current` where no element lies.
unfoldable pub get_next_pid : JobList → Option (ℤ × JobList)
unfolding from_address
get_next_pid l = elim l.current [
  | none ↦ some (minus_one, record l { current = address_of l.elements })
  | some a ↦ elim (from_address a l.elements) [
    | [] ↦ none
    | j ∷ js ↦ some (pos j.pid, record l { current = address_of js })
  ]
]

-- What `cleanup_job_list` does: the processes that are killed, in order, each with its group.
unfoldable pub cleanup_job_list : List Job → List ℕ
cleanup_job_list [] = []
cleanup_job_list (j ∷ js) = j.pid ∷ cleanup_job_list js
