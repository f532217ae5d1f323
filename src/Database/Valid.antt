-- ===== src/Database/Valid.antt =====
-- The invariant of the tree, and how it passes between a whole tree and a place in it.
use c_course_projects.Common.{◌≡◌, ◌<◌, ◌≤◌, refl, Option, none, some, [], ◌∷◌, length}
use c_course_projects.Common.Bytes.{Bytes}
use c_course_projects.Database.Tree.{
  Buffer, Tree, leaf, node, Node, Dir, left, right, Context, frame, fill, plug, entries,
}
use c_course_projects.Database.Sorted.{IsSorted}

-- The text and its terminator are within the buffer, and the text is within `MAXLEN`.
pub record Holds (b : Buffer) : Type 0 where
  pub room : length b.text < b.size
  pub short : length b.text ≤ 255

abbrev pub AllHold : Tree → Type 0
AllHold leaf = Unit
AllHold (node n v l r) = Holds n × Holds v × AllHold l × AllHold r

abbrev pub ContextHolds : Context → Type 0
ContextHolds [] = Unit
ContextHolds (f ∷ c) = Holds f.name × Holds f.value × AllHold f.other × ContextHolds c

abbrev pub root_name : Tree → Option Bytes
root_name leaf = none
root_name (node n v l r) = some n.text

-- The head has the empty name, the names increase from left to right, and the buffers hold.
pub record IsValid (head : Tree) : Type 0 where
  pub root : root_name head ≡ some []
  pub sorted : IsSorted (entries head)
  pub hold : AllHold head

AllHold-unfill :
    (d : Dir) (n v : Buffer) (o t : Tree)
    → AllHold (fill (record { dir = d; name = n; value = v; other = o }) t)
    → Holds n × Holds v × AllHold o × AllHold t
AllHold-unfill left n v o t h = (h.0, h.1, h.3, h.2)
AllHold-unfill right n v o t h = h

AllHold-fill :
    (d : Dir) (n v : Buffer) (o t : Tree)
    → Holds n × Holds v × AllHold o × AllHold t
    → AllHold (fill (record { dir = d; name = n; value = v; other = o }) t)
AllHold-fill left n v o t h = (h.0, h.1, h.3, h.2)
AllHold-fill right n v o t h = h

pub AllHold-unplug : (c : Context) (t : Tree) → AllHold (plug c t) → ContextHolds c × AllHold t
unfolding plug
AllHold-unplug [] t h = (tt, h)
AllHold-unplug (f ∷ c) t h =
    let (outer, inner) = AllHold-unplug c (fill f t) h in
    let (hn, hv, ho, ht) = AllHold-unfill f.dir f.name f.value f.other t inner in
    ((hn, hv, ho, outer), ht)

pub AllHold-plug : (c : Context) (t : Tree) → ContextHolds c → AllHold t → AllHold (plug c t)
unfolding plug
AllHold-plug [] t hc ht = ht
AllHold-plug (f ∷ c) t hc ht =
    AllHold-plug c (fill f t) hc.3
      (AllHold-fill f.dir f.name f.value f.other t (hc.0, hc.1, hc.2, ht))

root_name-plug :
    (c : Context) (t u : Tree)
    → root_name t ≡ root_name u
    → root_name (plug c t) ≡ root_name (plug c u)
unfolding plug
root_name-plug [] t u h = h
root_name-plug (f ∷ c) t u h =
    root_name-plug c (fill f t) (fill f u) (go f.dir f.name f.value f.other)
  where
    go :
        (d : Dir) (n v : Buffer) (o : Tree)
        → root_name (fill (record { dir = d; name = n; value = v; other = o }) t)
          ≡ root_name (fill (record { dir = d; name = n; value = v; other = o }) u)
    go left n v o = refl
    go right n v o = refl

-- Below a frame the root does not depend on what is put there.
pub root_name-plug-frame :
    (d : Dir) (p : Node) (c : Context) (t u : Tree)
    → root_name (plug (frame d p ∷ c) t) ≡ root_name (plug (frame d p ∷ c) u)
unfolding plug
root_name-plug-frame left p c t u = root_name-plug c _ _ refl
root_name-plug-frame right p c t u = root_name-plug c _ _ refl
