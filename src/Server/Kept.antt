-- ===== src/Server/Kept.antt =====
-- Every step of the threads keeps the server serving.
use c_course_projects.Common.{
  ℕ, suc, ◌+◌, ◌≤◌, ◌<◌, ◌≡◌, ◌≢◌, ◌==◌, Bool, true, false, if◌then◌else◌, inl, inr, List, [], ◌∷◌,
  ◌++◌, refl, ap, sym, ◌∙◌, subst, arith, All, All-imp, All-append, All-append_left,
  All-append_right, some, count, count-append, take_out, Bool-cases,
}
use c_course_projects.Common.Int.{pos}
use c_course_projects.Server.{
  Server, null, update, client_constructor, count_client, link_client, thread_cleanup,
  client_destructor, client_control_stop, client_control_release, increment, decrement,
}
use c_course_projects.Server.Chain.{IsClientList, Chain-frame}
use c_course_projects.Server.Linking.{
  link_client-Links, thread_cleanup-Unlinks, link-num, cleanup-num,
}
use c_course_projects.Server.Threads.{
  Phase, Thread, thread, System, Turn, Step, Serves, here, next, accept, make, begin, link, serve,
  pass, leave, leave_waiting, finish, stop, release, total, total-append, is_live, live, created,
  counted, running, waiting, unlinked,
}
use c_course_projects.Server.Serving.{
  IsServing, at, linked_at, new_at, is_linked, is_new, linked_or_new, not-counted-ne, cut_total,
  Turn-IsServing, sole, new-unlisted, new-ne-null,
}

module _ (s t : System) (a : ℕ) (p q : Phase) (v : Server) (u : Turn s t a p q v) where
  -- A client that is new after the turn was new before it.
  new-before :
      is_new q ≤ is_new p
      → (x : ℕ) → 0 < total (new_at x) (u.xs ++ thread a q u.cancelled ∷ u.ys)
      → 0 < total (new_at x) s.threads
  new-before le x new =
      let k = cut_total (new_at x) s.threads u.xs _ u.ys u.before in
      let m = cut_total (new_at x) _ u.xs (thread a q u.cancelled) u.ys refl in
      let one : new_at x (thread a q u.cancelled) ≤ new_at x (thread a p u.cancelled) =
        ground arith in
      omega arith

  -- The client of a thread that is no longer new is not among the new ones.
  not-new :
      IsServing s
      → is_new q ≡ 0
      → (x : ℕ) → 0 < total (new_at x) (u.xs ++ thread a q u.cancelled ∷ u.ys)
      → a ≢ x
  not-new is old x new e =
      let self = sole s is a p u.cancelled u.xs u.ys u.before in
      let new' =
        subst (λ y. 0 < total (new_at y) (u.xs ++ thread a q u.cancelled ∷ u.ys)) (sym e) new in
      let m = cut_total (new_at a) _ u.xs (thread a q u.cancelled) u.ys refl in
      let one : new_at a (thread a q u.cancelled) ≡ 0 = ground arith in
      let l = self.left_new in let r = self.right_new in absurd (omega arith)

  live-after :
      (n : ℕ)
      → n + is_live p ≡ live s.threads + is_live q
      → n ≡ live (u.xs ++ thread a q u.cancelled ∷ u.ys)
  live-after n e =
      let k = cut_total (λ t. is_live t.phase) s.threads u.xs _ u.ys u.before in
      let m = cut_total (λ t. is_live t.phase) _ u.xs (thread a q u.cancelled) u.ys refl in
      omega arith

begin-IsServing :
    (s t : System) (is : IsServing s) (a : ℕ)
    → Turn s t a created counted (count_client s.server)
    → IsServing t
unfolding count_client
begin-IsServing s t is a u =
    Turn-IsServing s t is a created counted (count_client s.server) u is.clients
      (record {
        head = is.list.head;
        chain = is.list.chain;
        not_null = is.list.not_null;
        distinct = is.list.distinct;
      })
      (λ x. ground arith)
      (λ x new. is.unlinked_new x (new-before s t a _ _ _ u (omega arith) x new))
      (ap increment is.counts
        ∙ ap pos (live-after s t a _ _ _ u (suc (live s.threads)) (omega arith)))

link-IsServing :
    (s t : System) (is : IsServing s) (a : ℕ)
    → Turn s t a counted running (link_client a s.server)
    → IsServing t
link-IsServing s t is a u =
    let self = sole s is a counted u.cancelled u.xs u.ys u.before in
    let new : 0 < total (new_at a) s.threads =
      let k = cut_total (new_at a) s.threads u.xs _ u.ys u.before in
      let one : new_at a (thread a counted u.cancelled) ≡ 1 = ground arith in omega arith in
    let off = new-unlisted s is a new in
    let (list, same) =
      link_client-Links s.server a is.clients is.list self.not_null off (is.unlinked_new a new) in
    Turn-IsServing s t is a counted running (link_client a s.server) u (a ∷ is.clients) list
      (λ x. ground arith)
      (λ x n.
        let n' = new-before s t a _ _ _ u (omega arith) x n in
        (same x (not-new s t a _ _ _ u is refl x n, new-unlisted s is x n')).0
        ∙ is.unlinked_new x n')
      (link-num a s.server
        ∙ is.counts
        ∙ ap pos (live-after s t a _ _ _ u (live s.threads) (omega arith)))

-- `client_control_wait` and the serving of a command leave the list alone.
stay-IsServing :
    (s t : System) (is : IsServing s) (a : ℕ) (p q : Phase)
    → is_linked p ≡ 1
    → is_linked q ≡ 1
    → is_live p ≡ is_live q
    → is_new q ≤ is_new p
    → Turn s t a p q s.server
    → IsServing t
stay-IsServing s t is a p q lp lq same old u =
    Turn-IsServing s t is a p q s.server u is.clients is.list (λ x. ground arith)
      (λ x new. is.unlinked_new x (new-before s t a _ _ _ u old x new))
      (is.counts ∙ ap pos (live-after s t a _ _ _ u (live s.threads) (omega arith)))

leave-IsServing :
    (s t : System) (is : IsServing s) (a : ℕ) (p : Phase)
    → is_linked p ≡ 1
    → is_live p ≡ 1
    → Turn s t a p unlinked (thread_cleanup a s.server)
    → IsServing t
leave-IsServing s t is a p linked alive u =
    let k = cut_total (linked_at a) s.threads u.xs _ u.ys u.before in
    let one : linked_at a (thread a p u.cancelled) ≡ 1 = ground arith in
    let (us, zs, e) = take_out a is.clients (omega (arith, is.served a)) in
    let (list, same) =
      thread_cleanup-Unlinks s.server us a zs (subst (IsClientList s.server) e is.list) in
    Turn-IsServing s t is a p unlinked (thread_cleanup a s.server) u (us ++ zs) list
      (λ x.
        let c = ap (count x) e in
        let c1 = count-append x us (a ∷ zs) in
        let c2 = count-append x us zs in
        let one : linked_at x (thread a p u.cancelled) ≡ (if a == x then 1 else 0) = ground arith in
        let none : linked_at x (thread a unlinked u.cancelled) ≡ 0 = ground arith in omega arith)
      (λ x n.
        let n' = new-before s t a _ _ _ u (omega arith) x n in
        let off = subst (All (λ y. y ≢ x)) e (new-unlisted s is x n') in
        (same x (new-ne-null s is x n') (
          All-append _ us zs (All-append_left _ us (a ∷ zs) off)
            (All-append_right _ us (a ∷ zs) off).1)).0
        ∙ is.unlinked_new x n')
      (cleanup-num a s.server
        ∙ is.counts
        ∙ ap pos (live-after s t a _ _ _ u (live s.threads) (omega arith)))

finish-IsServing :
    (s t : System) (xs : List Thread) (a : ℕ) (k : Bool) (ys : List Thread)
    → IsServing s
    → s.threads ≡ xs ++ thread a unlinked k ∷ ys
    → t ≡ record s { server = client_destructor s.server; threads = xs ++ ys }
    → IsServing t
unfolding client_destructor
finish-IsServing s t xs a k ys is before after = subst IsServing (sym after) (record {
  main = is.main;
  clients = is.clients;
  list = record {
    head = is.list.head;
    chain = is.list.chain;
    not_null = is.list.not_null;
    distinct = is.list.distinct;
  };
  served = λ x.
      let one : linked_at x (thread a unlinked k) ≡ 0 = ground arith in
      omega (arith, is.served x, was (linked_at x), total-append (linked_at x) xs ys);
  not_null = omega (arith, is.not_null, was (at null), total-append (at null) xs ys);
  once = λ x. omega (arith, is.once x, was (at x), total-append (at x) xs ys);
  unlinked_new = λ x new.
      is.unlinked_new x (omega (arith, was (new_at x), total-append (new_at x) xs ys, new));
  counts =
      ap decrement is.counts
      ∙ ap (λ n. decrement (pos n)) (was (λ t. is_live t.phase) ∙ middle _ _)
      ∙ ap pos (sym (total-append (λ t. is_live t.phase) xs ys));
})
  where
    was : (f : Thread → ℕ) → total f s.threads ≡ total f xs + (f (thread a unlinked k) + total f ys)
    was f = cut_total f s.threads xs (thread a unlinked k) ys before

    middle : (m n : ℕ) → m + (1 + n) ≡ suc (m + n)
    middle m n = omega arith

total-unused : (a : ℕ) (ts : List Thread) → All (λ u. u.client ≢ a) ts → total (at a) ts ≡ 0
total-unused a [] off = refl
total-unused a (t ∷ ts) off = ground (arith, total-unused a ts off.1)

make-IsServing :
    (s t : System) (a : ℕ) (v : Server)
    → IsServing s
    → a ≢ null
    → All (λ u. u.client ≢ a) s.threads
    → client_constructor (some a) s.server ≡ some v
    → t ≡ record s { server = v; threads = thread a created false ∷ s.threads; accepting = false }
    → IsServing t
unfolding client_constructor
make-IsServing s t a v is n off made after =
    let unused = total-unused a s.threads off in
    let unlisted : All (λ y. y ≢ a) is.clients =
      not-counted-ne a is.clients (omega (arith, is.served a, linked_or_new a s.threads, unused)) in
    let w = record s.server {
      prev = update s.server.prev a null;
      next = update s.server.next a null;
    } in
    subst IsServing
      (sym (
        after
        ∙ ap
            (λ x. record s {
              server = x;
              threads = thread a created false ∷ s.threads;
              accepting = false;
            })
            (sym (the_server made))))
      (record {
        main = is.main;
        clients = is.clients;
        list = record {
          head = is.list.head;
          chain =
              Chain-frame s.server.prev s.server.next w.prev w.next null is.clients
                (All-imp (λ x d. (ground arith, ground arith)) is.clients unlisted) is.list.chain;
          not_null = is.list.not_null;
          distinct = is.list.distinct;
        };
        served = λ x.
            let one : linked_at x (thread a created false) ≡ 0 = ground arith in
            omega (arith, is.served x);
        not_null = ground (arith, is.not_null);
        once = λ x. elim (Bool-cases (a == x)) [
          | inl e ↦
              let same : a ≡ x = ground arith in
              subst (λ y. total (at y) (thread a created false ∷ s.threads) ≤ 1) same (ground arith)
          | inr e ↦ rw e (omega (arith, is.once x))
        ];
        unlinked_new = λ x new. elim (Bool-cases (a == x)) [
          | inl e ↦ ground arith
          | inr e ↦ ground (arith, is.unlinked_new x)
        ];
        counts = is.counts ∙ ap pos (omega arith);
      })
  where
    the_server :
        some (record s.server {
          prev = update s.server.prev a null;
          next = update s.server.next a null;
        })
          ≡ some v
        → record s.server { prev = update s.server.prev a null; next = update s.server.next a null }
          ≡ v
    the_server e = cc

accept-IsServing : (s : System) → IsServing s → IsServing (record s { accepting = true })
accept-IsServing s is = record {
  main = is.main;
  clients = is.clients;
  list = record {
    head = is.list.head;
    chain = is.list.chain;
    not_null = is.list.not_null;
    distinct = is.list.distinct;
  };
  served = is.served;
  not_null = is.not_null;
  once = is.once;
  unlinked_new = is.unlinked_new;
  counts = is.counts;
}

control-IsServing :
    (s : System) (halted : Bool)
    → IsServing s
    → IsServing (record s { server = record s.server { stopped = halted } })
control-IsServing s halted is = record {
  main = is.main;
  clients = is.clients;
  list = record {
    head = is.list.head;
    chain = is.list.chain;
    not_null = is.list.not_null;
    distinct = is.list.distinct;
  };
  served = is.served;
  not_null = is.not_null;
  once = is.once;
  unlinked_new = is.unlinked_new;
  counts = is.counts;
}

Step-IsServing : (s t : System) → IsServing s → Step s t → IsServing t
unfolding client_control_stop client_control_release
Step-IsServing s t is (accept r q after) = subst IsServing (sym after) (accept-IsServing s is)
Step-IsServing s t is (make a v q n off made after) = make-IsServing s t a v is n off made after
Step-IsServing s t is (begin a u) = begin-IsServing s t is a u
Step-IsServing s t is (link a u) = link-IsServing s t is a u
Step-IsServing s t is (serve a u) =
    stay-IsServing s t is a running waiting refl refl refl (omega arith) u
Step-IsServing s t is (pass a go u) =
    stay-IsServing s t is a waiting running refl refl refl (omega arith) u
Step-IsServing s t is (leave a u) = leave-IsServing s t is a running refl refl u
Step-IsServing s t is (leave_waiting a u k) = leave-IsServing s t is a waiting refl refl u
Step-IsServing s t is (finish xs a k ys before after) =
    finish-IsServing s t xs a k ys is before after
Step-IsServing s t is (stop r after) = subst IsServing (sym after) (control-IsServing s true is)
Step-IsServing s t is (release r after) = subst IsServing (sym after) (control-IsServing s false is)

-- From a state that is serving, whatever steps the threads make while no clients are deleted:
-- the list holds exactly the clients whose threads serve them, linked both ways,
-- `num_client_threads` is the number of the threads that are counted and not gone, and no client
-- has two threads.
pub Serves-IsServing : (s t : System) → IsServing s → Serves s t → IsServing t
Serves-IsServing s _ is here = is
Serves-IsServing s u is (next {t} r st) = Step-IsServing t u (Serves-IsServing s t is r) st
