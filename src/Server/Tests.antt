-- ===== src/Server/Tests.antt =====
-- Concrete servers: two clients are served, at 8 and 16, and one at 24 is new.
use c_course_projects.Common.{
  ℕ, ◌≡◌, ◌↔◌, ◌==◌, if◌then◌else◌, true, false, none, some, List, [], ◌∷◌, refl, arith,
}
use c_course_projects.Common.Bytes.{codes}
use c_course_projects.Common.Int.{pos, negsuc}
use c_course_projects.Server.{
  Server, null, count_client, link_client, thread_cleanup, client_destructor, cancel_all,
  main_waits,
}
use c_course_projects.Server.Input.{main_loop}
use c_course_projects.Server.Chain.{IsClientList}
use c_course_projects.Server.Linking.{Unlinks, thread_cleanup-Unlinks}
use c_course_projects.Server.Threads.{
  thread, System, Step, here, next, step, reading, awaiting, begin, finish, created, counted,
  running, unlinked, live,
}
use c_course_projects.Server.Serving.{IsServing}
use c_course_projects.Server.Kept.{Serves-IsServing}
use c_course_projects.Server.Ending.{main_waits-live, main-Hangs}
use c_course_projects.Server.Lost.{cancel_all-Cancels, delete_all-Loses}

abbrev two_clients : Server
two_clients = record {
  prev = λ x. if x == 16 then 8 else 0;
  next = λ x. if x == 8 then 16 else 0;
  thread_list_head = 8;
  num_client_threads = pos 2;
  stopped = false;
}

-- The lines "s", "p tree", "p" and "g" that are typed at the server.
abbrev four_lines : List (List ℕ)
four_lines =
    (b's' ∷ 10 ∷ []) ∷ (b'p' ∷ b' ' ∷ b't' ∷ 10 ∷ []) ∷ (b'p' ∷ 10 ∷ []) ∷ (b'g' ∷ 10 ∷ []) ∷ []

main_loop_run :
    main_loop four_lines (0 ∷ 0 ∷ 0 ∷ 0 ∷ 0 ∷ []) two_clients
    ≡ some (some (codes "t") ∷ none ∷ [], two_clients)
unfolding main_loop
main_loop_run = refl

two_clients-IsClientList : IsClientList two_clients (8 ∷ 16 ∷ [])
two_clients-IsClientList = record {
  head = refl;
  chain = (refl, refl, (refl, refl, tt));
  not_null = (omega arith, (omega arith, tt));
  distinct = ((omega arith, tt), (tt, tt));
}

thread_cleanup-Unlinks_example : Unlinks two_clients (8 ∷ []) (thread_cleanup 16 two_clients)
thread_cleanup-Unlinks_example =
    thread_cleanup-Unlinks two_clients (8 ∷ []) 16 [] two_clients-IsClientList

cancel_all-Cancels_example :
    cancel_all 2 two_clients ≡ some (8 ∷ 16 ∷ [], record two_clients { thread_list_head = null })
cancel_all-Cancels_example =
    cancel_all-Cancels 2 two_clients (8 ∷ 16 ∷ []) two_clients-IsClientList (omega arith)

delete_all-Loses_example :
    (s' : Server) × (s'' : Server) × (cancel_all 2 two_clients ≡ some (8 ∷ 16 ∷ [], s'))
    × (cancel_all 2 (thread_cleanup 8 (link_client 24 s')) ≡ some (16 ∷ [], s''))
delete_all-Loses_example =
    delete_all-Loses 2 two_clients 8 (16 ∷ []) 24 two_clients-IsClientList (omega arith)
      (omega arith) (omega arith, (omega arith, tt)) refl

abbrev three_threads : System
three_threads = record {
  server = two_clients;
  threads = thread 24 created false ∷ thread 8 running false ∷ thread 16 running false ∷ [];
  main = reading;
  accepting = false;
  deleting = false;
  emptying = false;
}

three_threads-IsServing : IsServing three_threads
three_threads-IsServing = record {
  main = refl;
  clients = 8 ∷ 16 ∷ [];
  list = two_clients-IsClientList;
  served = λ x. ground arith;
  not_null = refl;
  once = λ x. ground arith;
  unlinked_new = λ x h. ground arith;
  counts = refl;
}

abbrev after_begin : System
after_begin = record three_threads {
  server = record two_clients { num_client_threads = pos 3 };
  threads = thread 24 counted false ∷ thread 8 running false ∷ thread 16 running false ∷ [];
}

begin_step : Step three_threads after_begin
unfolding count_client
begin_step = begin 24 (record {
  xs = [];
  ys = thread 8 running false ∷ thread 16 running false ∷ [];
  cancelled = false;
  before = refl;
  after = refl;
})

Serves-IsServing_example : IsServing after_begin
Serves-IsServing_example =
    Serves-IsServing three_threads after_begin three_threads-IsServing (next here begin_step)

-- `delete_all` is over; one thread serves on, and one has left the list.
abbrev two_ending : System
two_ending = record {
  server = record two_clients { thread_list_head = 0; num_client_threads = pos 0 };
  threads = thread 8 running true ∷ thread 16 unlinked true ∷ [];
  main = awaiting;
  accepting = false;
  deleting = false;
  emptying = false;
}

abbrev one_ending : System
one_ending = record two_ending {
  server = record two_clients { thread_list_head = 0; num_client_threads = negsuc 0 };
  threads = thread 8 running true ∷ [];
}

finish_step : Step two_ending one_ending
unfolding client_destructor
finish_step = finish (thread 8 running true ∷ []) 16 true [] refl refl

main_waits-live_example :
    (main_waits one_ending.server ≡ false)
    ↔ (◌≡◌ {A = ℕ} (live one_ending.threads) (live two_ending.threads))
main_waits-live_example =
    main_waits-live two_ending one_ending refl refl refl (step here finish_step)

main-Hangs_example : one_ending.main ≡ awaiting
main-Hangs_example =
    main-Hangs two_ending one_ending one_ending refl refl refl (step here finish_step) refl
      (omega arith) here
