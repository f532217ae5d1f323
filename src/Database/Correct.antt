-- ===== src/Database/Correct.antt =====
-- `db_query` and `db_add` against the sorted list of entries.
use c_course_projects.Common.{
  ℕ, ◌+◌, ◌≤◌, ◌≡◌, ◌≢◌, refl, sym, ap, ◌∙◌, true, false, Option, none, some, List, [], ◌∷◌, arith,
  length, take-eq_of_le,
}
use c_course_projects.Common.Bytes.{Bytes, codes}
use c_course_projects.Database.Tree.{
  Tree, leaf, Node, tree_of, Dir, Context, frame, plug, l_read, l_write, Event, entries,
}
use c_course_projects.Database.Search.{Found, found, missing, null_parent, side}
use c_course_projects.Database.Update.{
  Memory, Outcome, done, null_pointer, overflow, snprintf, node_constructor, query_found, db_query,
  add_found, db_add,
}
use c_course_projects.Database.Sorted.{lookup, insert, insert_here, insert-IsSorted, insert_known}
use c_course_projects.Database.Finds.{before, after, entries-plug, At, Finds}
use c_course_projects.Database.Valid.{
  IsValid, AllHold, AllHold-plug, AllHold-unplug, root_name, root_name-plug-frame,
}
use c_course_projects.Database.AtPlace.{
  search-Finds, plug-set_child, entries-At, lookup-At_leaf, lookup-At_found,
}

-- The answer to a query for a name, from the entries.
abbrev pub answer : ℕ → Option Bytes → Bytes
answer len none = snprintf len (codes "not found")
answer len (some v) = snprintf len v

abbrev pub Answers : Bytes → ℕ → Tree → Outcome Bytes → Type 0
Answers name len head (done out t _) = (out ≡ answer len (lookup name (entries head))) × (t ≡ head)
Answers name len head null_pointer = ⊥
Answers name len head overflow = ⊥

query_found-Answers :
    (name : Bytes) (len : ℕ) (head : Tree) (r : Found) (events : List Event)
    → IsValid head
    → Finds name head r
    → Answers name len head (query_found len head (r, events))
unfolding query_found
query_found-Answers name len head (found c p d t) events v (h, e) =
    (ap (answer len) (sym (lookup-At_found t v h e)), refl)
query_found-Answers name len head (missing c p) events v h =
    (ap (answer len) (sym (lookup-At_leaf h)), refl)
query_found-Answers name len head null_parent events v h = h

-- A query for a non-empty name in a valid tree ends without a fault, changes nothing, and answers
-- with the value that the entries hold for the name, or with "not found", each cut to the length.
pub db_query-Answers :
    (name : Bytes) (len : ℕ) (head : Tree)
    → IsValid head
    → name ≢ []
    → Answers name len head (db_query name len head)
unfolding db_query
db_query-Answers name len head v ne =
    query_found-Answers name len head _ _ v (search-Finds name l_read false head v ne)

-- 0 if the name was there, 1 if it was added.
abbrev pub added : Option Bytes → ℕ
added none = 1
added (some _) = 0

abbrev pub Adds : Bytes → Bytes → Tree → Outcome ℕ → Type 0
Adds name value head (done k t _) =
    (k ≡ added (lookup name (entries head)))
    × (entries t ≡ insert name value (entries head))
    × IsValid t
Adds name value head null_pointer = ⊥
Adds name value head overflow = ⊥

abbrev pub all_ok : Memory
all_ok = record { node_ok = true; name_ok = true; value_ok = true }

-- The node that `node_constructor` makes of short texts.
abbrev made : Bytes → Bytes → Node
made name value = record {
  name = record { size = length name + 1; text = name };
  value = record { size = length value + 1; text = value };
  lchild = leaf;
  rchild = leaf;
}

node_constructor-made :
    (name value : Bytes)
    → length name ≤ 255
    → length value ≤ 255
    → node_constructor all_ok name value leaf leaf ≡ some (made name value)
unfolding node_constructor
node_constructor-made name value h k =
    ground (arith, take-eq_of_le 255 name h, take-eq_of_le 255 value k)

made-AllHold :
    (name value : Bytes)
    → length name ≤ 255
    → length value ≤ 255
    → AllHold (tree_of (made name value))
made-AllHold name value h k = (omega arith, omega arith, tt, tt)

insert-At :
    {name : Bytes} {head : Tree} {c : Context} {p : Node} {d : Dir} (value : Bytes)
    → At name head c p d leaf
    → entries (plug (frame d p ∷ c) (tree_of (made name value))) ≡ insert name value (entries head)
unfolding entries
insert-At {name} {c} {p} {d} value h =
    entries-plug (frame d p ∷ c) (tree_of (made name value))
    ∙ sym (
        rw (entries-At h) (
          insert_here name value (before (frame d p ∷ c)) (after (frame d p ∷ c)) h.fits.low
            h.fits.high))

insert-IsValid :
    {name : Bytes} {head : Tree} {c : Context} {p : Node} {d : Dir} (value : Bytes)
    → length name ≤ 255
    → length value ≤ 255
    → IsValid head
    → At name head c p d leaf
    → IsValid (plug (frame d p ∷ c) (tree_of (made name value)))
insert-IsValid {name} {head} {c} {p} {d} value hn hv v h = record {
  root =
      root_name-plug-frame d p c (tree_of (made name value)) leaf
      ∙ ap root_name h.whole_eq
      ∙ v.root;
  sorted = rw (insert-At value h) (insert-IsSorted name value (entries head) v.sorted);
  hold =
      AllHold-plug (frame d p ∷ c) (tree_of (made name value))
        ((AllHold-unplug (frame d p ∷ c) leaf (rw h.whole_eq v.hold)).0)
        (made-AllHold name value hn hv);
}

add_found-Adds :
    (name value : Bytes) (head : Tree) (r : Found) (events : List Event)
    → length name ≤ 255
    → length value ≤ 255
    → IsValid head
    → Finds name head r
    → Adds name value head (add_found all_ok name value head (r, events))
unfolding add_found
add_found-Adds name value head (found c p d t) events hn hv v (h, e) =
    let known = lookup-At_found t v h e in
    (
      ap added (sym known),
      sym (insert_known name value t.value.text (entries head) known v.sorted),
      v,
    )
add_found-Adds name value head (missing c p) events hn hv v h =
    rw
      (
        node_constructor-made name value hn hv,
        add_found,
        plug-set_child (side name p.name.text) p c,
      )
      (ap added (sym (lookup-At_leaf h)), insert-At value h, insert-IsValid value hn hv v h)
add_found-Adds name value head null_parent events hn hv v h = h

-- Adding a non-empty name and a value of at most 255 bytes each, with memory at hand: the result is
-- 1 exactly if the name was not there, the entries are those of the reference insertion, and the
-- tree stays valid.
pub db_add-Adds :
    (name value : Bytes) (head : Tree)
    → IsValid head
    → name ≢ []
    → length name ≤ 255
    → length value ≤ 255
    → Adds name value head (db_add all_ok name value head)
unfolding db_add
db_add-Adds name value head v ne hn hv =
    add_found-Adds name value head _ _ hn hv v (search-Finds name l_write true head v ne)
