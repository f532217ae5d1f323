-- ===== src/Database/Releases.antt =====
-- Each operation of the database gives back every lock that it takes.
use c_course_projects.Common.{
  ℕ, ◌≡◌, ◌≢◌, refl, ◌∙◌, inl, inr, true, false, Option, none, some, List, [], ◌∷◌, ◌++◌, arith,
  Option-cases, All-imp, subst,
}
use c_course_projects.Common.Bytes.{Bytes}
use c_course_projects.Database.Tree.{
  Buffer, Tree, leaf, node, Node, Dir, left, right, Context, place, Place, l_read, l_write, Event,
  lock, unlock,
}
use c_course_projects.Database.Search.{Found, found, missing, null_parent}
use c_course_projects.Database.Update.{
  Memory, Outcome, done, null_pointer, overflow, overwrite, node_constructor, query_found, db_query,
  add_found, db_add, unlink_least, remove_node, remove_found, db_remove,
}
use c_course_projects.Database.Locks.{
  run, run-append, place_eq_refl, holds-Above, Above, kept, search_from-kept,
}

-- No held lock is taken again, no lock is given back that is not held, and none is held at the end.
abbrev pub Releases : {A : Type 0} → Outcome A → Type 0
Releases (done _ _ es) = run es [] ≡ some []
Releases null_pointer = Unit
Releases overflow = Unit

query_found-Releases :
    (len : ℕ) (head : Tree) (r : Found × List Event)
    → run r.1 ([] ∷ []) ≡ some (kept false r.0)
    → Releases (query_found len head r)
unfolding query_found run
query_found-Releases len head (found c p d t, es) h =
    run-append es (unlock (d ∷ place c) ∷ []) ([] ∷ [])
    ∙ rw h (rw (place_eq_refl (d ∷ place c), run))
query_found-Releases len head (missing c p, es) h = h
query_found-Releases len head (null_parent, es) h = tt

add_found-Releases :
    (mem : Memory) (name value : Bytes) (head : Tree) (r : Found × List Event)
    → run r.1 ([] ∷ []) ≡ some (kept true r.0)
    → Releases (add_found mem name value head r)
unfolding add_found run
add_found-Releases mem name value head (found c p d t, es) h =
    run-append es (unlock (d ∷ place c) ∷ unlock (place c) ∷ []) ([] ∷ [])
    ∙ rw h (rw (place_eq_refl (d ∷ place c), run, place_eq_refl (place c)))
add_found-Releases mem name value head (missing c p, es) h =
    elim (Option-cases (node_constructor mem name value leaf leaf)) [
      | inl e ↦ rw (e, add_found) tt
      | inr (new, e) ↦
          rw (e, add_found)
            (run-append es (unlock (place c) ∷ []) ([] ∷ [])
              ∙ rw h (rw (place_eq_refl (place c), run)))
    ]
add_found-Releases mem name value head (null_parent, es) h = tt

-- The walk down the `lchild` chain holds one more lock at a time.
unlink_least-run :
    (p : Place) (n v : Buffer) (l r : Tree) (held : List Place)
    → Above (left ∷ p) held
    → run (unlink_least p n v l r).3 held ≡ some held
unfolding unlink_least run
unlink_least-run p n v leaf r held h = refl
unlink_least-run p n v (node ln lv ll lr) r held h =
    rw (holds-Above (left ∷ p) held h, run, place_eq_refl (left ∷ p))
      (unlink_least-run (left ∷ p) ln lv ll lr held (All-imp (λ q lt. omega arith) held h))

abbrev Unlocks : Dir → Context → Option (Node × List Event) → Type 0
Unlocks d c none = Unit
Unlocks d c (some (_, es)) = run es ((d ∷ place c) ∷ place c ∷ []) ≡ some (place c ∷ [])

unlock-child :
    (d : Dir) (c : Context)
    → run (unlock (d ∷ place c) ∷ []) ((d ∷ place c) ∷ place c ∷ []) ≡ some (place c ∷ [])
unfolding run
unlock-child d c = rw (place_eq_refl (d ∷ place c), run)

chain-run :
    (d : Dir) (c : Context) (n v : Buffer) (l r : Tree)
    → run
        (lock l_write (right ∷ d ∷ place c)
          ∷ ((unlink_least (right ∷ d ∷ place c) n v l r).3
              ++ (unlock (right ∷ d ∷ place c) ∷ unlock (d ∷ place c) ∷ [])))
        ((d ∷ place c) ∷ place c ∷ [])
      ≡ some (place c ∷ [])
unfolding run
chain-run d c n v l r =
    let p = right ∷ d ∷ place c in
    let held = (d ∷ place c) ∷ place c ∷ [] in
    rw (holds-Above p held (omega arith), run)
      (run-append (unlink_least p n v l r).3 (unlock p ∷ unlock (d ∷ place c) ∷ []) (p ∷ held)
        ∙ rw (unlink_least-run p n v l r (p ∷ held) (omega arith))
            (rw (place_eq_refl p, run, place_eq_refl (d ∷ place c))))

remove_node-Unlocks :
    (c : Context) (parent : Node) (d : Dir) (n v : Buffer) (l r : Tree)
    → Unlocks d c (remove_node (d ∷ place c) parent d n v l r)
unfolding remove_node
remove_node-Unlocks c parent d n v l leaf = unlock-child d c
remove_node-Unlocks c parent d n v leaf (node rn rv rl rr) = unlock-child d c
remove_node-Unlocks c parent d n v (node ln lv ll lr) (node rn rv rl rr) =
    let (least, value, rest, es) = unlink_least (right ∷ d ∷ place c) rn rv rl rr in
    elim (Option-cases (overwrite n least.text)) [
      | inl e ↦ rw (e, remove_node) tt
      | inr (n', e) ↦ elim (Option-cases (overwrite v value.text)) [
        | inl e' ↦ rw (e, e', remove_node) tt
        | inr (v', e') ↦ rw (e, e', remove_node) (chain-run d c rn rv rl rr)
      ]
    ]

remove_found-Releases :
    (head : Tree) (r : Found × List Event)
    → run r.1 ([] ∷ []) ≡ some (kept true r.0)
    → Releases (remove_found head r)
unfolding remove_found run
remove_found-Releases head (found c p d t, es) h =
    let unlocks = remove_node-Unlocks c p d t.name t.value t.lchild t.rchild in
    elim (Option-cases (remove_node (d ∷ place c) p d t.name t.value t.lchild t.rchild)) [
      | inl e ↦ rw (e, remove_found) tt
      | inr ((parent', more), e) ↦
          rw (e, remove_found)
            (run-append es (more ++ (unlock (place c) ∷ [])) ([] ∷ [])
              ∙ rw h (
                  run-append more (unlock (place c) ∷ []) ((d ∷ place c) ∷ place c ∷ [])
                  ∙ rw (subst (Unlocks d c) e unlocks) (rw (place_eq_refl (place c), run))))
    ]
remove_found-Releases head (missing c p, es) h =
    run-append es (unlock (place c) ∷ []) ([] ∷ []) ∙ rw h (rw (place_eq_refl (place c), run))
remove_found-Releases head (null_parent, es) h = tt

module _ (head : Tree) (h : head ≢ leaf) where
  -- When a query, an addition or a removal on a tree with a head ends, it has given back every lock
  -- that it took, and it never took a lock that it held nor gave back one that it did not hold.
  pub operations-Releases :
      (name value : Bytes) (len : ℕ) (mem : Memory)
      → Releases (db_query name len head)
        × Releases (db_add mem name value head)
        × Releases (db_remove name head)
  unfolding db_query db_add db_remove place
  operations-Releases name value len mem = (
    query_found-Releases len head _ (search_from-kept name l_read false [] head h),
    add_found-Releases mem name value head _ (search_from-kept name l_write true [] head h),
    remove_found-Releases head _ (search_from-kept name l_write true [] head h),
  )
