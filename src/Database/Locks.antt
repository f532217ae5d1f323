-- ===== src/Database/Locks.antt =====
-- The locks that one operation of the database holds, event by event.
use c_course_projects.Common.{
  ◌<◌, ◌≡◌, refl, Bool, true, false, ◌&&◌, ◌||◌, Option, none, some, List, [], ◌∷◌, ◌++◌, arith,
  All, length, if◌then◌else◌, ◌≢◌, Bool-cases, Option-cases, inl, inr, ◌⊎◌,
}
use c_course_projects.Common.Bytes.{Bytes, strcmp, is_eq}
use c_course_projects.Database.Tree.{
  Tree, leaf, node, Node, Dir, left, right, Context, frame, place, Place, LockType, Event, lock,
  unlock,
}
use c_course_projects.Database.Search.{
  Found, found, missing, null_parent, side, leave, visit, search_from,
}

abbrev dir_eq : Dir → Dir → Bool
dir_eq left left = true
dir_eq right right = true
dir_eq _ _ = false

abbrev place_eq : Place → Place → Bool
place_eq [] [] = true
place_eq (d ∷ p) (e ∷ q) = dir_eq d e && place_eq p q
place_eq _ _ = false

abbrev holds : Place → List Place → Bool
holds p [] = false
holds p (q ∷ qs) = place_eq p q || holds p qs

abbrev release : Place → List Place → Option (List Place)
release p [] = none
release p (q ∷ qs) =
    if place_eq p q then some qs else elim (release p qs) [ none ↦ none | some rs ↦ some (q ∷ rs) ]

-- The locks held after the events: `none` if a held lock is taken again, or one that is not held is
-- given back.
unfoldable pub run : List Event → List Place → Option (List Place)
run [] held = some held
run (lock mode p ∷ es) held = if holds p held then none else run es (p ∷ held)
run (unlock p ∷ es) held = elim (release p held) [ none ↦ none | some rest ↦ run es rest ]

abbrev and_run : List Event → Option (List Place) → Option (List Place)
and_run es none = none
and_run es (some held) = run es held

pub run-append :
    (xs ys : List Event) (held : List Place) → run (xs ++ ys) held ≡ and_run ys (run xs held)
unfolding run
run-append [] ys held = refl
run-append (lock mode p ∷ xs) ys held = ground (arith, run-append xs ys (p ∷ held))
run-append (unlock p ∷ xs) ys held = elim (Option-cases (release p held)) [
  | inl e ↦ rw (e, run)
  | inr (rest, e) ↦ rw (e, run) (run-append xs ys rest)
]

pub place_eq_refl : (p : Place) → place_eq p p ≡ true
place_eq_refl [] = refl
place_eq_refl (left ∷ p) = place_eq_refl p
place_eq_refl (right ∷ p) = place_eq_refl p

-- A longer path is another place.
place_ne : (p q : Place) → length q < length p → place_eq p q ≡ false
place_ne [] q h = absurd (omega arith)
place_ne (d ∷ p) [] h = refl
place_ne (left ∷ p) (left ∷ q) h = place_ne p q (omega arith)
place_ne (left ∷ p) (right ∷ q) h = refl
place_ne (right ∷ p) (left ∷ q) h = refl
place_ne (right ∷ p) (right ∷ q) h = place_ne p q (omega arith)

abbrev pub Above : Place → List Place → Type 0
Above p = All (λ q. length q < length p)

pub holds-Above : (p : Place) (held : List Place) → Above p held → holds p held ≡ false
holds-Above p [] h = refl
holds-Above p (q ∷ held) h = rw (place_ne p q h.0) (holds-Above p held h.1)

pub child_ne : (d : Dir) (p : Place) → place_eq (d ∷ p) p ≡ false
child_ne d p = place_ne (d ∷ p) p (omega arith)

-- A parent is not its child.
pub parent_ne : (d : Dir) (p : Place) → place_eq p (d ∷ p) ≡ false
parent_ne d [] = refl
parent_ne left (left ∷ p) = parent_ne left p
parent_ne left (right ∷ p) = refl
parent_ne right (left ∷ p) = refl
parent_ne right (right ∷ p) = parent_ne right p

Dir-cases : (d : Dir) → (d ≡ left) ⊎ (d ≡ right)
Dir-cases left = inl refl
Dir-cases right = inr refl

-- The locks that `search` returns with.
abbrev pub kept : Bool → Found → List Place
kept keep (found c p d t) = (d ∷ place c) ∷ (if keep then place c ∷ [] else [])
kept keep (missing c p) = if keep then place c ∷ [] else []
kept keep null_parent = []

leave-kept :
    (keep : Bool) (c : Context) (d : Dir)
    → run (leave keep c) ((d ∷ place c) ∷ place c ∷ [])
      ≡ some ((d ∷ place c) ∷ (if keep then place c ∷ [] else []))
unfolding leave run
leave-kept true c d = refl
leave-kept false c d = rw (parent_ne d (place c), place_eq_refl (place c), run)

visit-kept :
    (name : Bytes) (mode : LockType) (keep : Bool) (c : Context) (p : Node) (d : Dir) (next : Tree)
    (rest : Found × List Event)
    → (next ≢ leaf → run rest.1 ((d ∷ place c) ∷ []) ≡ some (kept keep rest.0))
    → run (visit name mode keep c p d next rest).1 (place c ∷ [])
      ≡ some (kept keep (visit name mode keep c p d next rest).0)
unfolding visit run leave
visit-kept name mode true c p d leaf rest ih = refl
visit-kept name mode false c p d leaf rest ih = rw (place_eq_refl (place c), run)
visit-kept name mode keep c p d (node n v l r) rest ih =
    elim (Bool-cases (is_eq (strcmp name n.text))) [
      | inl e ↦ rw (e, visit, child_ne d (place c), run) (leave-kept keep c d)
      | inr e ↦
          rw (e, visit, child_ne d (place c), run, parent_ne d (place c), place_eq_refl (place c))
            (ih (λ q. cc))
    ]

-- `search` takes the locks hand over hand: from the parent's it comes to those that it leaves.
pub search_from-kept :
    (name : Bytes) (mode : LockType) (keep : Bool) (c : Context) (t : Tree)
    → t ≢ leaf
    → run (search_from name mode keep c t).1 (place c ∷ [])
      ≡ some (kept keep (search_from name mode keep c t).0)
unfolding search_from place
search_from-kept name mode keep c leaf h = absurd (h refl)
search_from-kept name mode keep c (node n v l r) h =
    let p : Node = record { name = n; value = v; lchild = l; rchild = r } in
    elim (Dir-cases (side name n.text)) [
      | inl e ↦
          rw (e, search_from)
            (visit-kept name mode keep c p left l _
              (search_from-kept name mode keep (frame left p ∷ c) l))
      | inr e ↦
          rw (e, search_from)
            (visit-kept name mode keep c p right r _
              (search_from-kept name mode keep (frame right p ∷ c) r))
    ]
