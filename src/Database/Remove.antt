-- ===== src/Database/Remove.antt =====
-- `db_remove` against the sorted list of entries, its three cases, and the buffers it writes to.
use c_course_projects.Common.{
  ℕ, ◌+◌, ◌<◌, ◌≤◌, ◌≡◌, ◌≢◌, refl, sym, ap, ◌∙◌, subst, ◌⊎◌, inl, inr, true, Option, none, some,
  List, [], ◌∷◌, ◌++◌, append_assoc, append-nil, arith, length, take-eq_of_le, ltb, Bool-cases,
  Option-cases,
}
use c_course_projects.Common.Bytes.{Bytes}
use c_course_projects.Database.Tree.{
  Buffer, Tree, leaf, node, Node, tree_of, Dir, left, right, set_child, Context, frame, plug, place,
  Place, l_write, Event, Entry, entries,
}
use c_course_projects.Database.Search.{Found, found, missing, null_parent, side}
use c_course_projects.Database.Update.{
  Outcome, done, null_pointer, overflow, overwrite, unlink_least, remove_node, remove_found,
  db_remove,
}
use c_course_projects.Database.Sorted.{lookup, erase, erase_here, erase-IsSorted, erase_unknown}
use c_course_projects.Database.Finds.{before, after, entries-plug, At, Finds}
use c_course_projects.Database.Valid.{
  IsValid, Holds, AllHold, AllHold-plug, AllHold-unplug, root_name, root_name-plug-frame,
}
use c_course_projects.Database.AtPlace.{
  search-Finds, plug-set_child, split-At, before-At, lookup-At_leaf, lookup-At_found,
}

-- The node that replaces the removed one is the first of the right subtree.
unlink_least-entries :
    (p : Place) (n v : Buffer) (l r : Tree)
    → let (least, value, rest, _) = unlink_least p n v l r in
      entries (node n v l r) ≡ (least.text, value.text) ∷ entries rest
unfolding unlink_least entries
unlink_least-entries p n v leaf r = refl
unlink_least-entries p n v (node ln lv ll lr) r =
    ap (λ es. es ++ ((n.text, v.text) ∷ entries r)) (unlink_least-entries (left ∷ p) ln lv ll lr)

unlink_least-AllHold :
    (p : Place) (n v : Buffer) (l r : Tree)
    → AllHold (node n v l r)
    → let (least, value, rest, _) = unlink_least p n v l r in
      Holds least × Holds value × AllHold rest
unfolding unlink_least
unlink_least-AllHold p n v leaf r h = (h.0, h.1, h.3)
unlink_least-AllHold p n v (node ln lv ll lr) r h =
    let (hl, hv, rest) = unlink_least-AllHold (left ∷ p) ln lv ll lr h.2 in
    (hl, hv, (h.0, h.1, rest, h.3))

-- A text that is within `MAXLEN` is copied whole, if it fits the buffer.
overwrite_cases :
    (b : Buffer) (s : Bytes)
    → Holds b
    → length s ≤ 255
    → ((overwrite b s ≡ some (record b { text = s })) × Holds (record b { text = s }))
      ⊎ ((overwrite b s ≡ none) × (length b.text < length s))
unfolding overwrite
overwrite_cases b s h k = elim (Bool-cases (ltb (length s) b.size)) [
  | inl fits ↦ inl (rw (take-eq_of_le 255 s k, fits), ground arith)
  | inr long ↦ inr (rw (take-eq_of_le 255 s k, long), ground (arith, h.room))
]

-- A change at the child: its entries are those of the two subtrees of the removed node. Without
-- one, the first entry of the right subtree has a longer name or value than the removed node.
abbrev Removed : Node → Dir → Buffer → Buffer → Tree → Tree → Option (Node × List Event) → Type 0
Removed parent d n v l r none =
    (u w : Bytes) × (zs : List Entry) × (entries r ≡ (u, w) ∷ zs)
    × ((length n.text < length u) ⊎ (length v.text < length w))
Removed parent d n v l r (some (parent', _)) =
    (x : Tree) × (parent' ≡ set_child d parent x) × (entries x ≡ entries l ++ entries r) × AllHold x

remove_node-Removed :
    (p : Place) (parent : Node) (d : Dir) (n v : Buffer) (l r : Tree)
    → side n.text parent.name.text ≡ d
    → AllHold (node n v l r)
    → Removed parent d n v l r (remove_node p parent d n v l r)
unfolding remove_node entries
remove_node-Removed p parent d n v l leaf sd h =
    (l, ap (λ k. set_child k parent l) sd, sym (append-nil _), h.2)
remove_node-Removed p parent d n v leaf (node rn rv rl rr) sd h =
    (node rn rv rl rr, ap (λ k. set_child k parent (node rn rv rl rr)) sd, refl, h.3)
remove_node-Removed p parent d n v (node ln lv ll lr) (node rn rv rl rr) sd h =
    let (least, value, rest, events) = unlink_least (right ∷ p) rn rv rl rr in
    let (hl, hv, hr) = unlink_least-AllHold (right ∷ p) rn rv rl rr h.3 in
    let es = unlink_least-entries (right ∷ p) rn rv rl rr in
    elim (overwrite_cases n least.text h.0 hl.short) [
      | inr (bad, long) ↦ rw (bad, remove_node) (least.text, value.text, entries rest, es, inl long)
      | inl (ok, hn') ↦ elim (overwrite_cases v value.text h.1 hv.short) [
        | inr (bad, long) ↦
            rw (ok, bad, remove_node) (least.text, value.text, entries rest, es, inr long)
        | inl (ok', hv') ↦
            rw (ok, ok', remove_node)
              (
                node (record n { text = least.text }) (record v { text = value.text })
                    (node ln lv ll lr) rest,
                refl,
                ap (λ zs. entries (node ln lv ll lr) ++ zs) (sym es),
                (hn', hv', h.2, hr),
              )
      ]
    ]

-- The buffer that `node_constructor` allocates for a text.
abbrev pub literal : Bytes → Buffer
literal s = record { size = length s + 1; text = s }

-- 1 if the name was there, 0 if not.
abbrev pub removed : Option Bytes → ℕ
removed none = 0
removed (some _) = 1

-- The entry for the name is followed by one with a longer name or value.
abbrev pub LongerNext : Bytes → List Entry → Type 0
LongerNext name es =
    (xs zs : List Entry) × (v u w : Bytes) × (es ≡ xs ++ ((name, v) ∷ (u, w) ∷ zs))
    × ((length name < length u) ⊎ (length v < length w))

abbrev pub Removes : Bytes → Tree → Outcome ℕ → Type 0
Removes name head (done k t _) =
    (k ≡ removed (lookup name (entries head))) × (entries t ≡ erase name (entries head)) × IsValid t
Removes name head null_pointer = ⊥
Removes name head overflow = LongerNext name (entries head)

module _ {head : Tree} {c : Context} {p : Node} {d : Dir} (t : Node) (v : IsValid head)
    (h : At t.name.text head c p d (tree_of t)) where
  erase-At :
      (x : Tree)
      → entries x ≡ entries t.lchild ++ entries t.rchild
      → entries (plug (frame d p ∷ c) x) ≡ erase t.name.text (entries head)
  erase-At x e =
      entries-plug (frame d p ∷ c) x
      ∙ simp (e, append_assoc)
          (sym (
            rw (split-At t v h) (
              erase_here t.name.text t.value.text (before (frame d p ∷ c) ++ entries t.lchild)
                (entries t.rchild ++ after (frame d p ∷ c)) (before-At t v h)
              ∙ simp append_assoc)))

  AllHold-At : AllHold (plug (frame d p ∷ c) (tree_of t))
  AllHold-At = rw h.whole_eq v.hold

  erase-IsValid :
      (x : Tree)
      → entries x ≡ entries t.lchild ++ entries t.rchild
      → AllHold x
      → IsValid (plug (frame d p ∷ c) x)
  erase-IsValid x e hx = record {
    root = root_name-plug-frame d p c x (tree_of t) ∙ ap root_name h.whole_eq ∙ v.root;
    sorted = rw (erase-At x e) (erase-IsSorted t.name.text (entries head) v.sorted);
    hold = AllHold-plug (frame d p ∷ c) x ((AllHold-unplug (frame d p ∷ c) _ AllHold-At).0) hx;
  }

  place_eq :
      (x : Tree) (parent' : Node)
      → parent' ≡ set_child d p x
      → plug c (tree_of parent') ≡ plug (frame d p ∷ c) x
  place_eq x parent' e = ap (λ q. plug c (tree_of q)) e ∙ plug-set_child d p c x

  longer-At :
      (u w : Bytes) (zs : List Entry)
      → entries t.rchild ≡ (u, w) ∷ zs
      → (length t.name.text < length u) ⊎ (length t.value.text < length w)
      → LongerNext t.name.text (entries head)
  longer-At u w zs e long = (
    before (frame d p ∷ c) ++ entries t.lchild,
    zs ++ after (frame d p ∷ c),
    t.value.text,
    u,
    w,
    split-At t v h ∙ rw e,
    long,
  )

  node-Removed :
      (events : List Event) → Removes t.name.text head (remove_found head (found c p d t, events))
  unfolding remove_found
  node-Removed events =
      let outcome = remove_node (d ∷ place c) p d t.name t.value t.lchild t.rchild in
      let changed =
        remove_node-Removed (d ∷ place c) p d t.name t.value t.lchild t.rchild h.side_eq
          ((AllHold-unplug (frame d p ∷ c) _ AllHold-At).1) in
      elim (Option-cases outcome) [
        | inl e ↦
            let (u, w, zs, es, long) =
              subst (Removed p d t.name t.value t.lchild t.rchild) e changed in
            rw (e, remove_found) (longer-At u w zs es long)
        | inr ((parent', more), e) ↦
            let (x, eq, es, hx) = subst (Removed p d t.name t.value t.lchild t.rchild) e changed in
            rw (e, remove_found)
              (
                ap removed (sym (lookup-At_found t v h refl)),
                ap entries (place_eq x parent' eq) ∙ erase-At x es,
                rw (place_eq x parent' eq) (erase-IsValid x es hx),
              )
      ]

-- A name that is not there is not erased.
remove_found-Removes :
    (name : Bytes) (head : Tree) (r : Found) (events : List Event)
    → IsValid head
    → Finds name head r
    → Removes name head (remove_found head (r, events))
unfolding remove_found
remove_found-Removes name head (found c p d t) events v (h, e) =
    subst (λ k. Removes k head (remove_found head (found c p d t, events))) e
      (node-Removed t v (subst (λ k. At k head c p d (tree_of t)) (sym e) h) events)
remove_found-Removes name head (missing c p) events v h =
    let absent = lookup-At_leaf h in
    (ap removed (sym absent), sym (erase_unknown name (entries head) absent), v)
remove_found-Removes name head null_parent events v h = h

-- Removing a non-empty name from a valid tree: the result is 1 exactly if the name was there, the
-- entries are those of the reference removal, and the tree stays valid; unless the entry that
-- follows the name has a longer name or value, where the copy into the old buffer may overflow it.
pub db_remove-Removes :
    (name : Bytes) (head : Tree)
    → IsValid head
    → name ≢ []
    → Removes name head (db_remove name head)
unfolding db_remove
db_remove-Removes name head v ne =
    remove_found-Removes name head _ _ v (search-Finds name l_write true head v ne)
