-- ===== src/Database/Update.antt =====
-- `node_constructor`, `db_query`, `db_add` and `db_remove` of database/db.c.
use c_course_projects.Common.{
  ℕ, ◌+◌, ◌-◌, Bool, true, false, ◌||◌, Option, none, some, List, [], ◌∷◌, ◌++◌, if◌then◌else◌, ltb,
  length, take,
}
use c_course_projects.Common.Bytes.{Bytes, codes}
use c_course_projects.Database.Tree.{
  Buffer, Tree, leaf, node, Node, tree_of, Dir, left, right, set_child, plug, place, Place, l_read,
  l_write, Event, lock, unlock,
}
use c_course_projects.Database.Search.{Found, found, missing, null_parent, side, search_from}

-- `MAXLEN`
abbrev pub max_len : ℕ
max_len = 256

-- The text that `snprintf(_, n, "%s", s)` leaves.
unfoldable pub snprintf : ℕ → Bytes → Bytes
snprintf n s = take (n - 1) s

-- Which of the three `malloc` calls of `node_constructor` succeed.
pub record Memory : Type 0 where
  pub node_ok : Bool
  pub name_ok : Bool
  pub value_ok : Bool

-- `none` is the NULL result.
unfoldable pub node_constructor : Memory → Bytes → Bytes → Tree → Tree → Option Node
unfolding snprintf
node_constructor mem arg_name arg_value arg_left arg_right =
    if ltb max_len (length arg_name) || ltb max_len (length arg_value)
    then none
    else if mem.node_ok
    then if mem.name_ok
      then if mem.value_ok
        then some (record {
          name = record { size = length arg_name + 1; text = snprintf max_len arg_name };
          value = record { size = length arg_value + 1; text = snprintf max_len arg_value };
          lchild = arg_left;
          rchild = arg_right;
        })
        else none
      else none
    else none

-- How an operation ends: with its result and the tree; by a NULL pointer that it dereferences; or
-- by a write past the end of a buffer.
pub data Outcome (A : Type 0) : Type 0 where
  done : A → Tree → List Event → Outcome A
  null_pointer : Outcome A
  overflow : Outcome A

-- The rest of `db_query` after `search`, whose locking events come with its result.
unfoldable pub query_found : ℕ → Tree → Found × List Event → Outcome Bytes
unfolding snprintf
query_found len head (found c parent d t, events) =
    done (snprintf len t.value.text) head (lock l_read [] ∷ (events ++ (unlock (d ∷ place c) ∷ [])))
query_found len head (missing c parent, events) =
    done (snprintf len (codes "not found")) head (lock l_read [] ∷ events)
query_found len head (null_parent, events) = null_pointer

-- `db_query(name, result, len)`; the result is the text that `snprintf` leaves.
unfoldable pub db_query : Bytes → ℕ → Tree → Outcome Bytes
unfolding query_found
db_query name len head = query_found len head (search_from name l_read false [] head)

-- The rest of `db_add` after `search`. The new node's lock is initialised through a NULL pointer if
-- the constructor fails.
unfoldable pub add_found : Memory → Bytes → Bytes → Tree → Found × List Event → Outcome ℕ
add_found mem name value head (found c parent d t, events) =
    done 0 head (lock l_write [] ∷ (events ++ (unlock (d ∷ place c) ∷ unlock (place c) ∷ [])))
add_found mem name value head (missing c parent, events) =
    elim (node_constructor mem name value leaf leaf) [
      | none ↦ null_pointer
      | some new ↦
          done 1 (plug c (tree_of (set_child (side name parent.name.text) parent (tree_of new))))
            (lock l_write [] ∷ (events ++ (unlock (place c) ∷ [])))
    ]
add_found mem name value head (null_parent, events) = null_pointer

unfoldable pub db_add : Memory → Bytes → Bytes → Tree → Outcome ℕ
unfolding add_found
db_add mem name value head = add_found mem name value head (search_from name l_write true [] head)

-- `snprintf(buf, MAXLEN, "%s", s)` into a buffer that `malloc` gave; `none` is a write past its end.
unfoldable pub overwrite : Buffer → Bytes → Option Buffer
unfolding snprintf
overwrite b s =
    let text = snprintf max_len s in
    if ltb (length text) b.size then some (record b { text = text }) else none

-- The loop down the `lchild` chain from `next`, at place `p`, with the write `*pnext = next->rchild`:
-- the last node's name and value, what is left of the subtree, and the locking events.
unfoldable pub unlink_least :
    Place → (n v : Buffer) → (l r : Tree) → Buffer × Buffer × Tree × List Event
unlink_least p n v leaf r = (n, v, r, [])
unlink_least p n v (node ln lv ll lr) r =
    let (least, value, rest, events) = unlink_least (left ∷ p) ln lv ll lr in
    (least, value, node n v rest r, lock l_write (left ∷ p) ∷ unlock (left ∷ p) ∷ events)

-- The three cases of `db_remove` once `dnode` is found, at place `p`: the parent with the change
-- made. `none` is an overflow.
unfoldable pub remove_node :
    Place → Node → Dir → (n v : Buffer) → (l r : Tree) → Option (Node × List Event)
unfolding unlink_least overwrite side
remove_node p parent d n v l leaf =
    some (set_child (side n.text parent.name.text) parent l, unlock p ∷ [])
remove_node p parent d n v leaf (node rn rv rl rr) =
    some (set_child (side n.text parent.name.text) parent (node rn rv rl rr), unlock p ∷ [])
remove_node p parent d n v (node ln lv ll lr) (node rn rv rl rr) =
    let (least, value, rest, events) = unlink_least (right ∷ p) rn rv rl rr in
    elim (overwrite n least.text) [
      | none ↦ none
      | some n' ↦ elim (overwrite v value.text) [
        | none ↦ none
        | some v' ↦ some (
          set_child d parent (node n' v' (node ln lv ll lr) rest),
          lock l_write (right ∷ p) ∷ (events ++ (unlock (right ∷ p) ∷ unlock p ∷ [])),
        )
      ]
    ]

-- The rest of `db_remove` after `search`.
unfoldable pub remove_found : Tree → Found × List Event → Outcome ℕ
unfolding remove_node
remove_found head (found c parent d t, events) =
    elim (remove_node (d ∷ place c) parent d t.name t.value t.lchild t.rchild) [
      | none ↦ overflow
      | some (parent', more) ↦
          done 1 (plug c (tree_of parent'))
            (lock l_write [] ∷ (events ++ (more ++ (unlock (place c) ∷ []))))
    ]
remove_found head (missing c parent, events) =
    done 0 head (lock l_write [] ∷ (events ++ (unlock (place c) ∷ [])))
remove_found head (null_parent, events) = null_pointer

unfoldable pub db_remove : Bytes → Tree → Outcome ℕ
unfolding remove_found
db_remove name head = remove_found head (search_from name l_write true [] head)
