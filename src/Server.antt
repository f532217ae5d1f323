-- ===== src/Server.antt =====
-- database/server.c: the clients of the server, the threads that serve them, and how they are stopped,
-- let go and ended.
--
-- A client is the address of its `client_t`. What stands between the locking and the unlocking of a
-- mutex is one step. The stream of a client, which comm.c reads and writes, and the address that
-- `malloc` returns are arguments.
pub mod Threads
pub mod Input
pub mod Chain
pub mod Linking
pub mod Serving
pub mod Kept
pub mod Ending
pub mod Lost
mod Tests
use c_course_projects.Common.{
  ℕ, zero, suc, ◌-◌, Bool, true, false, ◌&&◌, not, Option, none, some, List, [], ◌∷◌, if◌then◌else◌,
  ◌==◌,
}
use c_course_projects.Common.Int.{ℤ, pos, negsuc}

abbrev pub null : ℕ
null = 0

-- The links of the clients by their addresses, `thread_list_head`, `num_client_threads`, and
-- `stopped` of the client control.
pub record Server : Type 0 where
  pub prev : ℕ → ℕ
  pub next : ℕ → ℕ
  pub thread_list_head : ℕ
  pub num_client_threads : ℤ
  pub stopped : Bool

abbrev pub update : (ℕ → ℕ) → ℕ → ℕ → ℕ → ℕ
update f a v b = if b == a then v else f b

-- `n++` and `n--`
abbrev pub increment : ℤ → ℤ
increment (pos n) = pos (suc n)
increment (negsuc zero) = pos 0
increment (negsuc (suc n)) = negsuc n

abbrev pub decrement : ℤ → ℤ
decrement (pos zero) = negsuc 0
decrement (pos (suc n)) = pos n
decrement (negsuc n) = negsuc (suc n)

-- The fields that `client_constructor` sets; its result of `malloc` is not tested, so that NULL is a
-- fault.
unfoldable pub client_constructor : Option ℕ → Server → Option Server
client_constructor none s = none
client_constructor (some new) s =
    some (record s { prev = update s.prev new null; next = update s.next new null })

-- The first section of `run_client`: the thread is counted.
unfoldable pub count_client : Server → Server
count_client s = record s { num_client_threads = increment s.num_client_threads }

-- The second section of `run_client`: the client becomes the head of the list.
unfoldable pub link_client : ℕ → Server → Server
link_client new s =
    if s.thread_list_head == null
    then record s { thread_list_head = new; next = update s.next new null }
    else record s {
      next = update s.next new s.thread_list_head;
      prev = update (update s.prev new null) s.thread_list_head new;
      thread_list_head = new;
    }

-- The section of `thread_cleanup`.
unfoldable pub thread_cleanup : ℕ → Server → Server
thread_cleanup temp s =
    let prev = not (s.prev temp == null) in
    let next = not (s.next temp == null) in
    if prev && next
    then record s {
      next = update s.next (s.prev temp) (s.next temp);
      prev = update s.prev (s.next temp) (s.prev temp);
    }
    else if next
    then record s { prev = update s.prev (s.next temp) null; thread_list_head = s.next temp }
    else if prev
    then record s { next = update s.next (s.prev temp) null }
    else record s { thread_list_head = null }

-- The section of `client_destructor`.
unfoldable pub client_destructor : Server → Server
client_destructor s = record s { num_client_threads = decrement s.num_client_threads }

-- The loop of `delete_all` from a client on: the clients whose threads are cancelled, in order.
-- `none` is too little fuel.
unfoldable pub cancel_from : ℕ → ℕ → Server → Option (List ℕ)
cancel_from zero temp s = if temp == null then some [] else none
cancel_from (suc fuel) temp s =
    let rest : Option (List ℕ) = elim (cancel_from fuel (s.next temp) s) [
      | none ↦ none
      | some clients ↦ some (temp ∷ clients)
    ] in
    if temp == null then some [] else rest

-- The first section of `delete_all`.
unfoldable pub cancel_all : ℕ → Server → Option (List ℕ × Server)
cancel_all fuel s = elim (cancel_from fuel s.thread_list_head s) [
  | none ↦ none
  | some cancelled ↦ some (cancelled, record s { thread_list_head = null })
]

-- The second section of `delete_all`.
unfoldable pub reset_count : Server → Server
reset_count s = record s { num_client_threads = pos 0 }

unfoldable pub client_control_stop : Server → Server
client_control_stop s = record s { stopped = true }

unfoldable pub client_control_release : Server → Server
client_control_release s = record s { stopped = false }

-- The test of the loop in `client_control_wait`: whether the thread waits on.
unfoldable pub client_control_wait : Server → Bool
client_control_wait s = s.stopped

-- The test of the loop at the end of `main`: whether the main thread waits on.
unfoldable pub main_waits : Server → Bool
main_waits s = elim s.num_client_threads [ pos zero ↦ false | pos (suc n) ↦ true | negsuc n ↦ true ]
