-- ===== src/Database/Finds.antt =====
-- Where `search` stops: the place of the name in the tree, between the entries before it and the
-- entries after it.
use c_course_projects.Common.{
  ◌≡◌, refl, sym, Bool, false, List, [], ◌∷◌, ◌++◌, append_assoc, append-nil, arith, All-append,
  inl, inr, Bool-cases,
}
use c_course_projects.Common.Bytes.{
  Bytes, strcmp, is_eq, ◌≺◌, eq_of_strcmp, lt_of_gt, Ordering-cases,
}
use c_course_projects.Database.Tree.{
  Buffer, Tree, leaf, node, Node, tree_of, Dir, left, right, Context, Frame, frame, fill, plug,
  LockType, Event, Entry, entries,
}
use c_course_projects.Database.Search.{Found, found, missing, null_parent, side, visit, search_from}
use c_course_projects.Database.Sorted.{
  Before, After, IsSorted, IsSorted-split, After-trans, Before-trans,
}

abbrev frame_before : Frame → List Entry
frame_before f = elim f.dir [
  | left ↦ []
  | right ↦ entries f.other ++ ((f.name.text, f.value.text) ∷ [])
]

abbrev frame_after : Frame → List Entry
frame_after f = elim f.dir [ left ↦ (f.name.text, f.value.text) ∷ entries f.other | right ↦ [] ]

-- The entries to the left and to the right of a place.
abbrev pub before : Context → List Entry
before [] = []
before (f ∷ c) = before c ++ frame_before f

abbrev pub after : Context → List Entry
after [] = []
after (f ∷ c) = frame_after f ++ after c

entries-fill :
    (f : Frame) (t : Tree) → entries (fill f t) ≡ frame_before f ++ (entries t ++ frame_after f)
unfolding entries
entries-fill f t = go f.dir f.name f.value f.other
  where
    go :
        (d : Dir) (n v : Buffer) (o : Tree)
        → entries (fill (record { dir = d; name = n; value = v; other = o }) t)
          ≡ frame_before (record { dir = d; name = n; value = v; other = o })
            ++ (entries t ++ frame_after (record { dir = d; name = n; value = v; other = o }))
    go left n v o = refl
    go right n v o = simp (append_assoc, append-nil)

pub entries-plug :
    (c : Context) (t : Tree) → entries (plug c t) ≡ before c ++ (entries t ++ after c)
unfolding plug
entries-plug [] t = simp append-nil
entries-plug (f ∷ c) t = simp (entries-plug c (fill f t), entries-fill, append_assoc)

-- The name belongs at the place.
pub record Fits (name : Bytes) (c : Context) : Type 0 where
  pub low : Before name (before c)
  pub high : After name (after c)

-- The whole tree is the place with `t` in it, and the name belongs there, on the side that a
-- comparison with the parent gives.
pub record At (name : Bytes) (whole : Tree) (c : Context) (p : Node) (d : Dir) (t : Tree)
    : Type 0 where
  pub whole_eq : plug (frame d p ∷ c) t ≡ whole
  pub fits : Fits name (frame d p ∷ c)
  pub side_eq : side name p.name.text ≡ d

abbrev pub Finds : Bytes → Tree → Found → Type 0
Finds name whole (found c p d t) = At name whole c p d (tree_of t) × (t.name.text ≡ name)
Finds name whole (missing c p) = At name whole c p (side name p.name.text) leaf
Finds name whole null_parent = ⊥

abbrev pub Misses : Bytes → Tree → Type 0
Misses name leaf = ⊥
Misses name (node n v l r) = is_eq (strcmp name n.text) ≡ false

visit-Finds :
    (name : Bytes) (mode : LockType) (keep : Bool) (c : Context) (p : Node) (d : Dir)
    (next whole : Tree) (rest : Found × List Event)
    → At name whole c p d next
    → (Misses name next → Finds name whole rest.0)
    → Finds name whole (visit name mode keep c p d next rest).0
unfolding visit
visit-Finds name mode keep c p d leaf whole rest at_place ih = rw at_place.side_eq at_place
visit-Finds name mode keep c p d (node n v l r) whole rest at_place ih =
    elim (Bool-cases (is_eq (strcmp name n.text))) [
      | inl e ↦ rw (e, visit) (at_place, sym (eq_of_strcmp name n.text (ground arith)))
      | inr e ↦ rw (e, visit) (ih e)
    ]

module _ (name : Bytes) (c : Context) (n v : Buffer) (l r : Tree) (f : Fits name c) where
  abbrev here : Node
  here = record { name = n; value = v; lchild = l; rchild = r }

  Fits-left : name ≺ n.text → After n.text (entries r) → Fits name (frame left here ∷ c)
  Fits-left h high = record {
    low = All-append (λ e. e.0 ≺ name) (before c) [] f.low tt;
    high =
        All-append (λ e. name ≺ e.0) ((n.text, v.text) ∷ entries r) (after c)
          (h, After-trans name n.text (entries r) h high) f.high;
  }

  Fits-right : n.text ≺ name → Before n.text (entries l) → Fits name (frame right here ∷ c)
  Fits-right h low = record {
    low =
        All-append (λ e. e.0 ≺ name) (before c) (entries l ++ ((n.text, v.text) ∷ [])) f.low
          (All-append (λ e. e.0 ≺ name) (entries l) ((n.text, v.text) ∷ [])
            (Before-trans name n.text (entries l) h low) (h, tt));
    high = f.high;
  }

-- `search` from a node whose name is another: it ends at the name's place in the whole tree.
pub search_from-Finds :
    (name : Bytes) (mode : LockType) (keep : Bool) (c : Context) (t : Tree)
    → Misses name t
    → Fits name c
    → IsSorted (entries t)
    → Finds name (plug c t) (search_from name mode keep c t).0
unfolding search_from entries plug side
search_from-Finds name mode keep c leaf m f s = absurd m
search_from-Finds name mode keep c (node n v l r) m f s =
    let p : Node = record { name = n; value = v; lchild = l; rchild = r } in
    let (low, high, sl, sr) = IsSorted-split n.text v.text (entries l) (entries r) s in
    elim (Ordering-cases (strcmp name n.text)) [
      | inl less ↦
          let fits = Fits-left name c n v l r f less high in
          rw (less, search_from, side)
            (visit-Finds name mode keep c p left l (plug c (node n v l r)) _
              (record { whole_eq = refl; fits = fits; side_eq = rw (less, side) })
              (λ miss. search_from-Finds name mode keep (frame left p ∷ c) l miss fits sl))
      | inr (inl same) ↦ cc same
      | inr (inr more) ↦
          let fits = Fits-right name c n v l r f (lt_of_gt name n.text more) low in
          rw (more, search_from, side)
            (visit-Finds name mode keep c p right r (plug c (node n v l r)) _
              (record { whole_eq = refl; fits = fits; side_eq = rw (more, side) })
              (λ miss. search_from-Finds name mode keep (frame right p ∷ c) r miss fits sr))
    ]
