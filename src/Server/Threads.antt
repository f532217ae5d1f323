-- ===== src/Server/Threads.antt =====
-- The threads of database/server.c as a step relation: the listener, the client threads, the thread of
-- the signals and the main thread take turns in any order, one section of a mutex at a time.
--
-- A thread that is cancelled, or whose client has gone, leaves at a cancellation point. The main thread
-- cancels the listener and the thread of the signals, but does not wait for them: the listener takes
-- no further connection then, but may still make the client of the one that it has taken, and the
-- thread of the signals may still carry out the `delete_all` for the signal that it has taken.
use c_course_projects.Common.{
  arith, ℕ, ◌+◌, ◌≡◌, ◌≢◌, Bool, true, false, ◌||◌, List, [], ◌∷◌, ◌++◌, some, All, leb, count,
}
use c_course_projects.Server.{
  Server, null, client_constructor, count_client, link_client, thread_cleanup, client_destructor,
  cancel_all, reset_count, client_control_stop, client_control_release, client_control_wait,
  main_waits,
}

-- How far a client thread is: its client is made; it is counted; it is in the list and serves; it is
-- in `client_control_wait`; it is out of the list again, but still counted. After that it is gone.
pub data Phase : Type 0 where
  created : Phase
  counted : Phase
  running : Phase
  waiting : Phase
  unlinked : Phase

pub record Thread : Type 0 where
  pub client : ℕ
  pub phase : Phase
  pub cancelled : Bool

abbrev pub thread : ℕ → Phase → Bool → Thread
thread a p c = record { client = a; phase = p; cancelled = c }

-- The main thread: in its loop; it has cancelled the other two threads; `delete_all` is half done; it is
-- done, and the main thread waits for the client threads; the database is freed.
pub data MainPhase : Type 0 where
  reading : MainPhase
  closed : MainPhase
  emptied : MainPhase
  awaiting : MainPhase
  finished : MainPhase

-- `accepting` from the return of `accept` to the end of `client_constructor`; `deleting` from the
-- return of `sigwait` to the end of `delete_all` for it, and `emptying` in its second half.
pub record System : Type 0 where
  pub server : Server
  pub threads : List Thread
  pub main : MainPhase
  pub accepting : Bool
  pub deleting : Bool
  pub emptying : Bool

-- `pthread_cancel` for the threads of the clients.
abbrev pub mark_cancelled : List ℕ → List Thread → List Thread
mark_cancelled cs [] = []
mark_cancelled cs (t ∷ ts) =
    record t { cancelled = leb 1 (count t.client cs) || t.cancelled } ∷ mark_cancelled cs ts

-- The thread of client `a` goes from one phase to the next, and the shared variables change.
pub record Turn (s t : System) (a : ℕ) (p q : Phase) (v : Server) : Type 0 where
  pub xs : List Thread
  pub ys : List Thread
  pub cancelled : Bool
  pub before : s.threads ≡ xs ++ thread a p cancelled ∷ ys
  pub after : t ≡ record s { server = v; threads = xs ++ thread a q cancelled ∷ ys }

-- A step while clients are served. The address of a new client is not in use.
pub data Step (s t : System) : Type 0 where
  accept : s.main ≡ reading → s.accepting ≡ false → t ≡ record s { accepting = true } → Step s t
  make :
      (a : ℕ) (v : Server)
      → s.accepting ≡ true
      → a ≢ null
      → All (λ u. u.client ≢ a) s.threads
      → client_constructor (some a) s.server ≡ some v
      → t ≡ record s { server = v; threads = thread a created false ∷ s.threads; accepting = false }
      → Step s t
  begin : (a : ℕ) → Turn s t a created counted (count_client s.server) → Step s t
  link : (a : ℕ) → Turn s t a counted running (link_client a s.server) → Step s t
  serve : (a : ℕ) → Turn s t a running waiting s.server → Step s t
  pass :
      (a : ℕ)
      → client_control_wait s.server ≡ false
      → Turn s t a waiting running s.server
      → Step s t
  leave : (a : ℕ) → Turn s t a running unlinked (thread_cleanup a s.server) → Step s t
  leave_waiting :
      (a : ℕ) (u : Turn s t a waiting unlinked (thread_cleanup a s.server))
      → u.cancelled ≡ true
      → Step s t
  finish :
      (xs : List Thread) (a : ℕ) (c : Bool) (ys : List Thread)
      → s.threads ≡ xs ++ thread a unlinked c ∷ ys
      → t ≡ record s { server = client_destructor s.server; threads = xs ++ ys }
      → Step s t
  stop : s.main ≡ reading → t ≡ record s { server = client_control_stop s.server } → Step s t
  release : s.main ≡ reading → t ≡ record s { server = client_control_release s.server } → Step s t

-- A step towards the end of the clients, on a signal or on the end of the input.
pub data Delete (s t : System) : Type 0 where
  interrupt :
      s.main ≡ reading
      → s.deleting ≡ false
      → t ≡ record s { deleting = true; emptying = false }
      → Delete s t
  interrupt_given_up :
      s.main ≢ reading → s.emptying ≡ false → t ≡ record s { deleting = false } → Delete s t
  interrupt_empty :
      (fuel : ℕ) (cs : List ℕ) (v : Server)
      → s.deleting ≡ true
      → s.emptying ≡ false
      → cancel_all fuel s.server ≡ some (cs, v)
      → t ≡ record s { server = v; threads = mark_cancelled cs s.threads; emptying = true }
      → Delete s t
  interrupt_reset :
      s.deleting ≡ true
      → s.emptying ≡ true
      → t ≡ record s { server = reset_count s.server; deleting = false }
      → Delete s t
  close : s.main ≡ reading → t ≡ record s { main = closed } → Delete s t
  empty :
      (fuel : ℕ) (cs : List ℕ) (v : Server)
      → s.main ≡ closed
      → cancel_all fuel s.server ≡ some (cs, v)
      → t ≡ record s { server = v; threads = mark_cancelled cs s.threads; main = emptied }
      → Delete s t
  reset :
      s.main ≡ emptied
      → t ≡ record s { server = reset_count s.server; main = awaiting }
      → Delete s t
  end :
      s.main ≡ awaiting
      → main_waits s.server ≡ false
      → t ≡ record s { main = finished }
      → Delete s t

-- Any number of steps while clients are served.
pub data Serves (s : System) : System → Type 0 where
  here : Serves s s
  next : {t u : System} → Serves s t → Step t u → Serves s u

-- Any number of steps.
pub data Reach (s : System) : System → Type 0 where
  here : Reach s s
  step : {t u : System} → Reach s t → Step t u → Reach s u
  delete : {t u : System} → Reach s t → Delete t u → Reach s u

-- A sum over the threads.
abbrev pub total : (Thread → ℕ) → List Thread → ℕ
total f [] = 0
total f (t ∷ ts) = f t + total f ts

-- A thread has been counted, and has not given its count back.
abbrev pub is_live : Phase → ℕ
is_live created = 0
is_live _ = 1

abbrev pub live : List Thread → ℕ
live = total (λ t. is_live t.phase)

abbrev pub is_created : Phase → ℕ
is_created created = 1
is_created _ = 0

-- The client that the listener has still to make.
abbrev pub pending : Bool → ℕ
pending true = 1
pending false = 0

-- The threads that have still to be counted.
abbrev pub not_counted : List Thread → ℕ
not_counted = total (λ t. is_created t.phase)

pub total-append :
    (f : Thread → ℕ) (xs ys : List Thread) → total f (xs ++ ys) ≡ total f xs + total f ys
total-append f [] ys = omega arith
total-append f (x ∷ xs) ys = omega (arith, total-append f xs ys)
