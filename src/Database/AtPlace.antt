-- ===== src/Database/AtPlace.antt =====
-- The sorted entries around the place where `search` stops.
use Prim.Native.Nat.Ordering.{gt}
use c_course_projects.Common.{
  ◌≡◌, ◌≢◌, refl, sym, ap, ◌∙◌, subst, none, some, [], ◌∷◌, ◌++◌, append_assoc, arith, Bool,
}
use c_course_projects.Common.Bytes.{Bytes, strcmp, gt_of_lt, nil-≺}
use c_course_projects.Database.Tree.{
  Tree, leaf, node, Node, tree_of, Dir, left, right, set_child, Context, frame, plug, LockType,
  entries,
}
use c_course_projects.Database.Search.{search_from}
use c_course_projects.Database.Sorted.{
  Before, IsSorted, lookup, lookup-Before, lookup-After, lookup_here, IsSorted-split,
}
use c_course_projects.Database.Finds.{before, after, entries-plug, At, Finds, search_from-Finds}
use c_course_projects.Database.Valid.{IsValid}

-- In a valid tree `search` from the head, for a non-empty name, ends at the place where the name
-- belongs: with the node there if it has the name, and with NULL and the parent if nothing hangs there.
pub search-Finds :
    (name : Bytes) (mode : LockType) (keep : Bool) (head : Tree)
    → IsValid head
    → name ≢ []
    → Finds name head (search_from name mode keep [] head).0
unfolding plug
search-Finds name mode keep leaf v ne = cc (v.root)
search-Finds name mode keep (node n w l r) v ne =
    let above : strcmp name [] ≡ gt = gt_of_lt [] name (nil-≺ name ne) in
    search_from-Finds name mode keep [] (node n w l r) (ground (arith, v.root))
      (record { low = tt; high = tt }) v.sorted

-- `parent->lchild = t` at a place is the place with `t` in it.
pub plug-set_child :
    (d : Dir) (p : Node) (c : Context) (t : Tree)
    → plug c (tree_of (set_child d p t)) ≡ plug (frame d p ∷ c) t
unfolding plug
plug-set_child left p c t = refl
plug-set_child right p c t = refl

module _ {name : Bytes} {head : Tree} {c : Context} {p : Node} {d : Dir} {t : Tree}
    (at_place : At name head c p d t) where
  pub entries-At : entries head ≡ before (frame d p ∷ c) ++ (entries t ++ after (frame d p ∷ c))
  entries-At = ap entries (sym at_place.whole_eq) ∙ entries-plug (frame d p ∷ c) t

-- Nothing hangs at the place: the name is not among the entries.
pub lookup-At_leaf :
    {name : Bytes} {head : Tree} {c : Context} {p : Node} {d : Dir}
    → At name head c p d leaf
    → lookup name (entries head) ≡ none
unfolding entries
lookup-At_leaf {name} {c} {p} {d} h = rw (entries-At h) (
    lookup-Before name (before (frame d p ∷ c)) (after (frame d p ∷ c)) h.fits.low
    ∙ lookup-After name (after (frame d p ∷ c)) h.fits.high)

-- The entries before the place together with those of the target's left subtree, and likewise after.
pub split-At :
    {name : Bytes} {head : Tree} {c : Context} {p : Node} {d : Dir} (n : Node)
    → IsValid head
    → At name head c p d (tree_of n)
    → entries head
      ≡ (before (frame d p ∷ c) ++ entries n.lchild)
        ++ ((n.name.text, n.value.text) ∷ (entries n.rchild ++ after (frame d p ∷ c)))
unfolding entries
split-At n v h = entries-At h ∙ simp append_assoc

pub before-At :
    {name : Bytes} {head : Tree} {c : Context} {p : Node} {d : Dir} (n : Node)
    → IsValid head
    → At name head c p d (tree_of n)
    → Before n.name.text (before (frame d p ∷ c) ++ entries n.lchild)
before-At {c} {p} {d} n v h =
    (IsSorted-split n.name.text n.value.text (before (frame d p ∷ c) ++ entries n.lchild)
      (entries n.rchild ++ after (frame d p ∷ c)) (subst IsSorted (split-At n v h) v.sorted)).0

pub lookup-At_node :
    {name : Bytes} {head : Tree} {c : Context} {p : Node} {d : Dir} (n : Node)
    → IsValid head
    → At name head c p d (tree_of n)
    → lookup n.name.text (entries head) ≡ some n.value.text
lookup-At_node {c} {p} {d} n v h = rw (split-At n v h) (
    lookup_here n.name.text n.value.text (before (frame d p ∷ c) ++ entries n.lchild)
      (entries n.rchild ++ after (frame d p ∷ c)) (before-At n v h))

pub lookup-At_found :
    {name : Bytes} {head : Tree} {c : Context} {p : Node} {d : Dir} (n : Node)
    → IsValid head
    → At name head c p d (tree_of n)
    → n.name.text ≡ name
    → lookup name (entries head) ≡ some n.value.text
lookup-At_found {head} n v h e =
    subst (λ k. lookup k (entries head) ≡ some n.value.text) e (lookup-At_node n v h)
