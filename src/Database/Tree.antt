-- ===== src/Database/Tree.antt =====
-- The data of database/db.h and of the file-level definitions of database/db.c: the nodes of the
-- binary tree, the places of the tree that a `node_t *` names, and the locking events.
--
-- A `node_t *` into the tree is a zipper: the frames from the node up to the root, innermost first,
-- and the node itself. A write through the pointer is the same place with another node, and `plug`
-- puts the place back into the whole tree. The directions of the frames name the node in the
-- locking events.
use c_course_projects.Common.{ℕ, List, [], ◌∷◌, ◌++◌}
use c_course_projects.Common.Bytes.{Bytes}

-- A `char *` from `malloc`: the size that was asked for, and the text that it holds.
pub record Buffer : Type 0 where
  pub size : ℕ
  pub text : Bytes

-- `node_t *`: `leaf` is NULL. The lock of a node is in the events, not in the node.
pub data Tree : Type 0 where
  leaf : Tree
  node : (name value : Buffer) → (lchild rchild : Tree) → Tree

-- `node_t`
pub record Node : Type 0 where
  pub name : Buffer
  pub value : Buffer
  pub lchild : Tree
  pub rchild : Tree

abbrev pub tree_of : Node → Tree
tree_of n = node n.name n.value n.lchild n.rchild

pub data Dir : Type 0 where
  left right : Dir

abbrev pub child : Dir → Node → Tree
child left n = n.lchild
child right n = n.rchild

-- `parent->lchild = t` and `parent->rchild = t`
abbrev pub set_child : Dir → Node → Tree → Node
set_child left n t = record n { lchild = t }
set_child right n t = record n { rchild = t }

-- A node above a place: the side on which the place hangs, and the node's other child.
pub record Frame : Type 0 where
  pub dir : Dir
  pub name : Buffer
  pub value : Buffer
  pub other : Tree

abbrev pub Context : Type 0
Context = List Frame

-- The frame that `n` is for its child on side `d`.
abbrev pub frame : Dir → Node → Frame
frame left n = record { dir = left; name = n.name; value = n.value; other = n.rchild }
frame right n = record { dir = right; name = n.name; value = n.value; other = n.lchild }

abbrev pub fill : Frame → Tree → Tree
fill f t = elim f.dir [
  | left ↦ node f.name f.value t f.other
  | right ↦ node f.name f.value f.other t
]

unfoldable pub plug : Context → Tree → Tree
plug [] t = t
plug (f ∷ c) t = plug c (fill f t)

-- A node by the turns that lead to it from the root, the last one first.
abbrev pub Place : Type 0
Place = List Dir

unfoldable pub place : Context → Place
place [] = []
place (f ∷ c) = f.dir ∷ place c

-- `enum locktype`
pub data LockType : Type 0 where
  l_read l_write : LockType

-- `lock(lt, lk)` and `unlock(lk)` at the node of a place
pub data Event : Type 0 where
  lock : LockType → Place → Event
  unlock : Place → Event

-- The names and values in the order of a walk from left to right.
abbrev pub Entry : Type 0
Entry = Bytes × Bytes

unfoldable pub entries : Tree → List Entry
entries leaf = []
entries (node n v l r) = entries l ++ ((n.text, v.text) ∷ entries r)
