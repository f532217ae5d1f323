-- ===== src/Server/Serving.antt =====
-- While clients are served the list holds exactly the clients that are served, and the count is right.
use c_course_projects.Common.{
  ℕ, ◌+◌, ◌≤◌, ◌<◌, ◌≡◌, ◌≢◌, ◌==◌, Bool, if◌then◌else◌, List, [], ◌∷◌, ◌++◌, refl, ap, sym, ◌∙◌,
  subst, arith, All, count,
}
use c_course_projects.Common.Int.{pos}
use c_course_projects.Server.{Server, null}
use c_course_projects.Server.Chain.{IsClientList}
use c_course_projects.Server.Threads.{
  Phase, Thread, thread, System, Turn, reading, total, total-append, live, created, counted,
  running, waiting, unlinked,
}

-- 1 for a thread of the client, for one that serves it, and for one that has not yet linked it.
abbrev pub at : ℕ → Thread → ℕ
at x t = if t.client == x then 1 else 0

abbrev pub is_linked : Phase → ℕ
is_linked running = 1
is_linked waiting = 1
is_linked _ = 0

abbrev pub is_new : Phase → ℕ
is_new created = 1
is_new counted = 1
is_new _ = 0

abbrev pub linked_at : ℕ → Thread → ℕ
linked_at x t = if t.client == x then is_linked t.phase else 0

abbrev pub new_at : ℕ → Thread → ℕ
new_at x t = if t.client == x then is_new t.phase else 0

-- The clients are not NULL and have one thread each; the list holds those that are served; a client
-- that is not yet linked has no previous one; the count is that of the live threads.
pub record IsServing (s : System) : Type 0 where
  pub main : s.main ≡ reading
  pub clients : List ℕ
  pub list : IsClientList s.server clients
  pub served : (x : ℕ) → count x clients ≡ total (linked_at x) s.threads
  pub not_null : total (at null) s.threads ≡ 0
  pub once : (x : ℕ) → total (at x) s.threads ≤ 1
  pub unlinked_new : (x : ℕ) → 0 < total (new_at x) s.threads → s.server.prev x ≡ null
  pub counts : s.server.num_client_threads ≡ pos (live s.threads)

-- A thread is either served or new, but not both.
pub linked_or_new :
    (x : ℕ) (ts : List Thread) → total (linked_at x) ts + total (new_at x) ts ≤ total (at x) ts
linked_or_new x [] = omega arith
linked_or_new x (t ∷ ts) = let ih = linked_or_new x ts in omega (arith, one t.phase)
  where
    one :
        (p : Phase)
        → (if t.client == x then is_linked p else 0) + (if t.client == x then is_new p else 0)
          ≤ (if t.client == x then 1 else 0)
    one created = ground arith
    one counted = ground arith
    one running = ground arith
    one waiting = ground arith
    one unlinked = ground arith

pub not-counted-ne : (x : ℕ) (xs : List ℕ) → count x xs ≡ 0 → All (λ y. y ≢ x) xs
not-counted-ne x [] e = tt
not-counted-ne x (y ∷ ys) e = (ground arith, not-counted-ne x ys (ground arith))

pub cut_total :
    (f : Thread → ℕ) (ts xs : List Thread) (t : Thread) (ys : List Thread)
    → ts ≡ xs ++ t ∷ ys
    → total f ts ≡ total f xs + (f t + total f ys)
cut_total f ts xs t ys e = ap (total f) e ∙ total-append f xs (t ∷ ys)

-- A turn of one thread, by what it changes.
pub Turn-IsServing :
    (s t : System) (is : IsServing s) (a : ℕ) (p q : Phase) (v : Server) (u : Turn s t a p q v)
    (clients : List ℕ)
    → IsClientList v clients
    → ((x : ℕ)
        → count x clients + linked_at x (thread a p u.cancelled)
          ≡ count x is.clients + linked_at x (thread a q u.cancelled))
    → ((x : ℕ) → 0 < total (new_at x) (u.xs ++ thread a q u.cancelled ∷ u.ys) → v.prev x ≡ null)
    → v.num_client_threads ≡ pos (live (u.xs ++ thread a q u.cancelled ∷ u.ys))
    → IsServing t
Turn-IsServing s t is a p q v u clients list served prevs num =
    subst IsServing (sym u.after) (record {
      main = is.main;
      clients = clients;
      list = list;
      served = λ x.
          let k = before (linked_at x) in
          let m = now (linked_at x) in omega (arith, served x, is.served x);
      not_null = let k = before (at null) in let m = now (at null) in omega (arith, is.not_null);
      once = λ x. let k = before (at x) in let m = now (at x) in omega (arith, is.once x);
      unlinked_new = prevs;
      counts = num;
    })
  where
    before :
        (f : Thread → ℕ)
        → total f s.threads ≡ total f u.xs + (f (thread a p u.cancelled) + total f u.ys)
    before f = cut_total f s.threads u.xs (thread a p u.cancelled) u.ys u.before

    now :
        (f : Thread → ℕ)
        → total f (u.xs ++ thread a q u.cancelled ∷ u.ys)
          ≡ total f u.xs + (f (thread a q u.cancelled) + total f u.ys)
    now f = cut_total f _ u.xs (thread a q u.cancelled) u.ys refl

-- The thread that takes its turn is the only one of its client.
pub record Sole (s : System) (a : ℕ) (p : Phase) (xs ys : List Thread) : Type 0 where
  pub not_null : a ≢ null
  pub left_served : total (linked_at a) xs ≡ 0
  pub right_served : total (linked_at a) ys ≡ 0
  pub left_new : total (new_at a) xs ≡ 0
  pub right_new : total (new_at a) ys ≡ 0

pub sole :
    (s : System) (is : IsServing s) (a : ℕ) (p : Phase) (c : Bool) (xs ys : List Thread)
    → s.threads ≡ xs ++ thread a p c ∷ ys
    → Sole s a p xs ys
sole s is a p c xs ys e =
    let nulls = cut_total (at null) s.threads xs (thread a p c) ys e in
    let k = cut_total (at a) s.threads xs (thread a p c) ys e in
    let l = linked_or_new a xs in
    let r = linked_or_new a ys in
    let once = is.once a in
    let self : at a (thread a p c) ≡ 1 = ground arith in
    record {
      not_null = λ z. ground (arith, is.not_null);
      left_served = omega arith;
      right_served = omega arith;
      left_new = omega arith;
      right_new = omega arith;
    }

-- A client that is new is not in the list.
pub new-unlisted :
    (s : System) (is : IsServing s) (x : ℕ)
    → 0 < total (new_at x) s.threads
    → All (λ y. y ≢ x) is.clients
new-unlisted s is x new =
    not-counted-ne x is.clients (omega (arith, is.served x, linked_or_new x s.threads, is.once x))

pub new-ne-null :
    (s : System) (is : IsServing s) (x : ℕ) → 0 < total (new_at x) s.threads → x ≢ null
new-ne-null s is x new e =
    let n = subst (λ y. 0 < total (new_at y) s.threads) e new in
    let l = linked_or_new null s.threads in absurd (omega (arith, is.not_null))
