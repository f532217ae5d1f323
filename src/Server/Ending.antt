-- ===== src/Server/Ending.antt =====
-- How the server ends: `main` waits for the count that `delete_all` has set to 0 while the threads of
-- the clients were still counted.
use c_course_projects.Common.{
  ℕ, ◌+◌, ◌≤◌, ◌<◌, ◌≡◌, ◌≢◌, ◌↔◌, ◌⊎◌, inl, inr, Bool, true, false, some, List, ◌∷◌, ◌++◌, refl,
  ap, sym, ◌∙◌, subst, arith,
}
use c_course_projects.Common.Int.{ℤ, pos, pos_part, neg_part}
use c_course_projects.Server.{
  Server, client_constructor, count_client, client_destructor, link_client, thread_cleanup,
  increment, decrement, main_waits,
}
use c_course_projects.Server.Linking.{link-num, cleanup-num}
use c_course_projects.Server.Threads.{
  total-append, Phase, Thread, thread, System, Turn, Step, Delete, Reach, here, step, delete,
  reading, awaiting, finished, accept, make, begin, link, serve, pass, leave, leave_waiting, finish,
  stop, release, interrupt, interrupt_given_up, interrupt_empty, interrupt_reset, close, empty,
  reset, end, is_live, live, is_created, not_counted, pending, created, counted, running, waiting,
  unlinked,
}

-- The final `delete_all` is over, and no other one is under way.
pub record IsClosing (s : System) : Type 0 where
  pub main : (s.main ≡ awaiting) ⊎ (s.main ≡ finished)
  pub deleting : s.deleting ≡ false

-- The count and the number of live threads change alike, and no more threads can come.
record Balanced (s t : System) : Type 0 where
  closing : IsClosing t
  count :
      pos_part t.server.num_client_threads + neg_part s.server.num_client_threads + live s.threads
      ≡ pos_part s.server.num_client_threads + neg_part t.server.num_client_threads + live t.threads
  fewer :
      live t.threads + not_counted t.threads + pending t.accepting
      ≤ live s.threads + not_counted s.threads + pending s.accepting

some-eq : {A : Type 0} {a b : A} → some a ≡ some b → a ≡ b
some-eq e = cc

-- `n` is `m` with `up` added and `down` taken off.
abbrev Moved : ℤ → ℤ → ℕ → ℕ → Type 0
Moved m n up down = pos_part n + neg_part m + down ≡ pos_part m + neg_part n + up

incremented : (n : ℤ) → Moved n (increment n) 1 0
incremented n = ground arith

decremented : (n : ℤ) → Moved n (decrement n) 0 1
decremented n = ground arith

begin-Moved : (s : Server) → Moved s.num_client_threads (count_client s).num_client_threads 1 0
unfolding count_client
begin-Moved s = incremented s.num_client_threads

cleaned-Moved :
    (a : ℕ) (s : Server) → Moved s.num_client_threads (thread_cleanup a s).num_client_threads 1 1
cleaned-Moved a s =
    ap (λ n. pos_part n + neg_part s.num_client_threads + 1) (cleanup-num a s)
    ∙ ap (λ n. pos_part s.num_client_threads + neg_part n + 1) (sym (cleanup-num a s))

linked-Moved :
    (a : ℕ) (s : Server) → Moved s.num_client_threads (link_client a s).num_client_threads 1 1
linked-Moved a s =
    ap (λ n. pos_part n + neg_part s.num_client_threads + 1) (link-num a s)
    ∙ ap (λ n. pos_part s.num_client_threads + neg_part n + 1) (sym (link-num a s))

Turn-Balanced :
    (s t : System) (a : ℕ) (p q : Phase) (v : Server)
    → IsClosing s
    → Turn s t a p q v
    → Moved s.server.num_client_threads v.num_client_threads (is_live q) (is_live p)
    → is_live q + is_created q ≤ is_live p + is_created p
    → Balanced s t
Turn-Balanced s t a p q v c u moved le =
    let e = total-append (λ t. is_live t.phase) u.xs (thread a p u.cancelled ∷ u.ys) in
    let e' = total-append (λ t. is_live t.phase) u.xs (thread a q u.cancelled ∷ u.ys) in
    let f = total-append (λ t. is_created t.phase) u.xs (thread a p u.cancelled ∷ u.ys) in
    let f' = total-append (λ t. is_created t.phase) u.xs (thread a q u.cancelled ∷ u.ys) in
    let l = ap live u.before ∙ e in
    let n = ap not_counted u.before ∙ f in
    subst (Balanced s) (sym u.after) (record {
      closing = record { main = c.main; deleting = c.deleting };
      count = omega arith;
      fewer = omega arith;
    })

not-reading : (s : System) → IsClosing s → s.main ≢ reading
not-reading s c e = ground (arith, c.main)

finish-Moved :
    (s : Server) → Moved s.num_client_threads (client_destructor s).num_client_threads 0 1
unfolding client_destructor
finish-Moved s = decremented s.num_client_threads

finish-Balanced :
    (s t : System) (xs : List Thread) (a : ℕ) (k : Bool) (ys : List Thread)
    → IsClosing s
    → s.threads ≡ xs ++ thread a unlinked k ∷ ys
    → t ≡ record s { server = client_destructor s.server; threads = xs ++ ys }
    → Balanced s t
finish-Balanced s t xs a k ys c before after =
    let e = total-append (λ t. is_live t.phase) xs (thread a unlinked k ∷ ys) in
    let e' = total-append (λ t. is_live t.phase) xs ys in
    let f = total-append (λ t. is_created t.phase) xs (thread a unlinked k ∷ ys) in
    let f' = total-append (λ t. is_created t.phase) xs ys in
    let l = ap live before ∙ e in
    let n = ap not_counted before ∙ f in
    let moved = finish-Moved s.server in
    subst (Balanced s) (sym after) (record {
      closing = record { main = c.main; deleting = c.deleting };
      count = omega arith;
      fewer = omega arith;
    })

made-num :
    (a : ℕ) (s v : Server)
    → client_constructor (some a) s ≡ some v
    → v.num_client_threads ≡ s.num_client_threads
unfolding client_constructor
made-num a s v e = sym (ap (λ x. x.num_client_threads) (some-eq e))

-- The client that the listener had still to make.
made-Balanced :
    (s t : System) (a : ℕ) (v : Server)
    → IsClosing s
    → s.accepting ≡ true
    → client_constructor (some a) s.server ≡ some v
    → t ≡ record s { server = v; threads = thread a created false ∷ s.threads; accepting = false }
    → Balanced s t
made-Balanced s t a v c q e after =
    let n = made-num a s.server v e in
    let was : pending s.accepting ≡ 1 = ap pending q in
    subst (Balanced s) (sym after) (record {
      closing = record { main = c.main; deleting = c.deleting };
      count =
          ap (λ k. pos_part k + neg_part s.server.num_client_threads + live s.threads) n
          ∙ ap (λ k. pos_part s.server.num_client_threads + neg_part k + live s.threads) (sym n)
          ∙ omega arith;
      fewer = omega arith;
    })

Step-Balanced : (s t : System) → IsClosing s → Step s t → Balanced s t
Step-Balanced s t c (accept r q after) = absurd (not-reading s c r)
Step-Balanced s t c (make a v q n off e after) = made-Balanced s t a v c q e after
Step-Balanced s t c (begin a u) =
    Turn-Balanced s t a created counted (count_client s.server) c u (begin-Moved s.server)
      (omega arith)
Step-Balanced s t c (link a u) =
    Turn-Balanced s t a counted running (link_client a s.server) c u (linked-Moved a s.server)
      (omega arith)
Step-Balanced s t c (serve a u) =
    Turn-Balanced s t a running waiting s.server c u refl (omega arith)
Step-Balanced s t c (pass a go u) =
    Turn-Balanced s t a waiting running s.server c u refl (omega arith)
Step-Balanced s t c (leave a u) =
    Turn-Balanced s t a running unlinked (thread_cleanup a s.server) c u (cleaned-Moved a s.server)
      (omega arith)
Step-Balanced s t c (leave_waiting a u k) =
    Turn-Balanced s t a waiting unlinked (thread_cleanup a s.server) c u (cleaned-Moved a s.server)
      (omega arith)
Step-Balanced s t c (finish xs a k ys e after) = finish-Balanced s t xs a k ys c e after
Step-Balanced s t c (stop r after) = absurd (not-reading s c r)
Step-Balanced s t c (release r after) = absurd (not-reading s c r)

-- Within the wait only its end is left.
Delete-Balanced : (s t : System) → IsClosing s → Delete s t → Balanced s t
Delete-Balanced s t c (interrupt r d after) = absurd (not-reading s c r)
Delete-Balanced s t c (interrupt_given_up r m after) = subst (Balanced s) (sym after) (record {
  closing = record { main = c.main; deleting = refl };
  count = refl;
  fewer = omega arith;
})
Delete-Balanced s t c (interrupt_empty fuel cs v d m e after) = ground (arith, c.deleting)
Delete-Balanced s t c (interrupt_reset d m after) = ground (arith, c.deleting)
Delete-Balanced s t c (close r after) = absurd (not-reading s c r)
Delete-Balanced s t c (empty fuel cs v r e after) = ground (arith, c.main)
Delete-Balanced s t c (reset r after) = ground (arith, c.main)
Delete-Balanced s t c (end r w after) = subst (Balanced s) (sym after) (record {
  closing = record { main = inr refl; deleting = c.deleting };
  count = refl;
  fewer = omega arith;
})

Reach-Balanced : (s t : System) → IsClosing s → Reach s t → Balanced s t
Reach-Balanced s _ c here = record { closing = c; count = refl; fewer = omega arith }
Reach-Balanced s u c (step {t} r st) =
    let b = Reach-Balanced s t c r in
    let b' = Step-Balanced t u b.closing st in
    let e = b.count in
    let e' = b'.count in
    let l = b.fewer in
    let l' = b'.fewer in record { closing = b'.closing; count = omega arith; fewer = omega arith }
Reach-Balanced s u c (delete {t} r st) =
    let b = Reach-Balanced s t c r in
    let b' = Delete-Balanced t u b.closing st in
    let e = b.count in
    let e' = b'.count in
    let l = b.fewer in
    let l' = b'.fewer in record { closing = b'.closing; count = omega arith; fewer = omega arith }

main_waits_iff : (s : Server) → (main_waits s ≡ false) ↔ (s.num_client_threads ≡ pos 0)
unfolding main_waits
main_waits_iff s = (ground arith, ground arith)

-- The final `delete_all` has set the count to 0, and no other one is under way. From then on,
-- whatever steps are made, the wait of `main` lets it free the database exactly when as many
-- client threads are counted and not gone as there were at that moment.
pub main_waits-live :
    (s t : System)
    → s.main ≡ awaiting
    → s.deleting ≡ false
    → s.server.num_client_threads ≡ pos 0
    → Reach s t
    → (main_waits t.server ≡ false) ↔ (live t.threads ≡ live s.threads)
main_waits-live s t main deleting zeroed r =
    let b = Reach-Balanced s t (record { main = inl main; deleting = deleting }) r in
    let e = b.count in
    let z = main_waits_iff t.server in
    let p : pos_part s.server.num_client_threads ≡ 0 = ap pos_part zeroed in
    let n : neg_part s.server.num_client_threads ≡ 0 = ap neg_part zeroed in
    (
      λ w.
          let p' : pos_part t.server.num_client_threads ≡ 0 = ap pos_part (z.0 w) in
          let n' : neg_part t.server.num_client_threads ≡ 0 = ap neg_part (z.0 w) in omega arith,
      λ l. z.1 (ground arith),
    )

-- More threads have gone than are left to be counted: the count stays below 0.
record IsStuck (s : System) : Type 0 where
  main : s.main ≡ awaiting
  deleting : s.deleting ≡ false
  below :
      pos_part s.server.num_client_threads + not_counted s.threads + pending s.accepting
      < neg_part s.server.num_client_threads

Turn-main : (s t : System) (a : ℕ) (p q : Phase) (v : Server) → Turn s t a p q v → t.main ≡ s.main
Turn-main s t a p q v u = ap (λ x. x.main) u.after

Step-main : (s t : System) → Step s t → t.main ≡ s.main
Step-main s t (accept r q after) = ap (λ x. x.main) after
Step-main s t (make a v q n off e after) = ap (λ x. x.main) after
Step-main s t (begin a u) = Turn-main s t a _ _ _ u
Step-main s t (link a u) = Turn-main s t a _ _ _ u
Step-main s t (serve a u) = Turn-main s t a _ _ _ u
Step-main s t (pass a go u) = Turn-main s t a _ _ _ u
Step-main s t (leave a u) = Turn-main s t a _ _ _ u
Step-main s t (leave_waiting a u k) = Turn-main s t a _ _ _ u
Step-main s t (finish xs a k ys e after) = ap (λ x. x.main) after
Step-main s t (stop r after) = ap (λ x. x.main) after
Step-main s t (release r after) = ap (λ x. x.main) after

Step-IsStuck : (s t : System) → IsStuck s → Step s t → IsStuck t
Step-IsStuck s t k st =
    let b = Step-Balanced s t (record { main = inl k.main; deleting = k.deleting }) st in
    let e = b.count in
    let l = b.fewer in
    let below = k.below in
    record { main = Step-main s t st ∙ k.main; deleting = b.closing.deleting; below = omega arith }

Delete-IsStuck : (s t : System) → IsStuck s → Delete s t → IsStuck t
Delete-IsStuck s t k (interrupt r d after) = ground (arith, k.main)
Delete-IsStuck s t k (interrupt_given_up r m after) =
    subst IsStuck (sym after) (record { main = k.main; deleting = refl; below = k.below })
Delete-IsStuck s t k (interrupt_empty fuel cs v d m e after) = ground (arith, k.deleting)
Delete-IsStuck s t k (interrupt_reset d m after) = ground (arith, k.deleting)
Delete-IsStuck s t k (close r after) = ground (arith, k.main)
Delete-IsStuck s t k (empty fuel cs v r e after) = ground (arith, k.main)
Delete-IsStuck s t k (reset r after) = ground (arith, k.main)
Delete-IsStuck s t k (end r w after) =
    let n : neg_part s.server.num_client_threads ≡ 0 =
      ap neg_part ((main_waits_iff s.server).0 w) in
    let below = k.below in absurd (omega arith)

Reach-IsStuck : (s t : System) → IsStuck s → Reach s t → IsStuck t
Reach-IsStuck s _ k here = k
Reach-IsStuck s u k (step {t} r st) = Step-IsStuck t u (Reach-IsStuck s t k r) st
Reach-IsStuck s u k (delete {t} r d) = Delete-IsStuck t u (Reach-IsStuck s t k r) d

-- The final `delete_all` has set the count to 0, and no other one is under way. If some steps
-- later `main` still waits, and fewer threads are there than were counted at that moment, where
-- those that are still to be counted and the client that the listener may still be making are
-- included, then `main` waits forever, whatever steps are made.
pub main-Hangs :
    (s t u : System)
    → s.main ≡ awaiting
    → s.deleting ≡ false
    → s.server.num_client_threads ≡ pos 0
    → Reach s t
    → t.main ≡ awaiting
    → live t.threads + not_counted t.threads + pending t.accepting < live s.threads
    → Reach t u
    → u.main ≡ awaiting
main-Hangs s t u main deleting zeroed r main' gone r' =
    let b = Reach-Balanced s t (record { main = inl main; deleting = deleting }) r in
    let e = b.count in
    let p : pos_part s.server.num_client_threads ≡ 0 = ap pos_part zeroed in
    let n : neg_part s.server.num_client_threads ≡ 0 = ap neg_part zeroed in
    (Reach-IsStuck t u (record { main = main'; deleting = b.closing.deleting; below = omega arith })
      r').main
