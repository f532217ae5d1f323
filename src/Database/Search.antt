-- ===== src/Database/Search.antt =====
-- `search` of database/db.c.
use c_course_projects.Common.{Bool, true, false, List, [], ◌∷◌, if◌then◌else◌}
use c_course_projects.Common.Bytes.{Bytes, strcmp, is_lt, is_eq}
use c_course_projects.Database.Tree.{
  Tree, leaf, node, Node, Dir, left, right, Context, frame, place, LockType, Event, lock, unlock,
}

-- What `search` finds: the parent with its context, the side that was taken, and the target.
-- `missing` is a NULL result; the parent then is the one that the name would hang under.
-- `null_parent` is a call with a NULL parent, which C would dereference.
pub data Found : Type 0 where
  found : Context → Node → Dir → Node → Found
  missing : Context → Node → Found
  null_parent : Found

-- `strcmp(name, parent->name) < 0` chooses the side.
unfoldable pub side : Bytes → Bytes → Dir
side name parent_name = if is_lt (strcmp name parent_name) then left else right

-- The end of `search`: the parent is stored for the caller, or it is unlocked.
unfoldable pub leave : Bool → Context → List Event
leave true c = []
leave false c = unlock (place c) ∷ []

-- One call at `parent`, whose child on side `d` is `next`; `rest` is the call at `next`.
-- `keep` says that `parentpp` is not NULL.
unfoldable pub visit :
    Bytes → LockType → Bool → Context → Node → Dir → Tree → Found × List Event → Found × List Event
unfolding leave
visit name lt keep c parent d leaf rest = (missing c parent, leave keep c)
visit name lt keep c parent d (node n v l r) rest =
    if is_eq (strcmp name n.text)
    then (
      found c parent d (record { name = n; value = v; lchild = l; rchild = r }),
      lock lt (d ∷ place c) ∷ leave keep c,
    )
    else (rest.0, lock lt (d ∷ place c) ∷ unlock (place c) ∷ rest.1)

-- `search(name, parent, parentpp, lt)` with the locking events that it makes, in order.
unfoldable pub search_from : Bytes → LockType → Bool → Context → Tree → Found × List Event
unfolding visit side
search_from name lt keep c leaf = (null_parent, [])
search_from name lt keep c (node n v l r) =
    let parent : Node = record { name = n; value = v; lchild = l; rchild = r } in
    let in_left =
      visit name lt keep c parent left l (search_from name lt keep (frame left parent ∷ c) l) in
    let in_right =
      visit name lt keep c parent right r (search_from name lt keep (frame right parent ∷ c) r) in
    elim (side name n.text) [ left ↦ in_left | right ↦ in_right ]
