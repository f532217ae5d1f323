-- ===== src/Database/Print.antt =====
-- `print_spaces`, `db_print_recurs`, `db_print` and the traversal of `db_cleanup` of database/db.c.
use c_course_projects.Common.{
  ℕ, ◌+◌, Bool, true, false, Option, none, some, List, [], ◌∷◌, ◌++◌, if◌then◌else◌, replicate,
}
use c_course_projects.Common.Bytes.{Bytes, codes}
use c_course_projects.Database.Tree.{Tree, leaf, node, Place, left, right}
use c_course_projects.Database.Command.{skip_spaces}

-- What `print_spaces` writes.
unfoldable pub print_spaces : ℕ → Bytes
print_spaces lvl = replicate lvl b' '

-- What `db_print_recurs(node, lvl, out)` writes; the flag is `node == &head`.
unfoldable pub db_print_recurs : Bool → Tree → ℕ → Bytes
unfolding print_spaces
db_print_recurs is_head leaf lvl = print_spaces lvl ++ codes "(null)\n"
db_print_recurs is_head (node n v l r) lvl =
    print_spaces lvl
    ++ ((elim is_head [ true ↦ codes "(root)\n" | false ↦ n.text ++ (32 ∷ (v.text ++ (10 ∷ []))) ])
        ++ (db_print_recurs false l (lvl + 1) ++ db_print_recurs false r (lvl + 1)))

-- The nodes that `db_cleanup_recurs` hands to `node_destructor`, in order, by their places.
unfoldable pub db_cleanup_recurs : Place → Tree → List Place
db_cleanup_recurs p leaf = []
db_cleanup_recurs p (node n v l r) =
    db_cleanup_recurs (left ∷ p) l ++ (db_cleanup_recurs (right ∷ p) r ++ (p ∷ []))

-- `db_cleanup` starts at the children of the head, which is not freed.
unfoldable pub db_cleanup : Tree → List Place
unfolding db_cleanup_recurs
db_cleanup leaf = []
db_cleanup (node n v l r) = db_cleanup_recurs (left ∷ []) l ++ db_cleanup_recurs (right ∷ []) r

-- Where `db_print` writes: to the standard output, or to the file of a name; `not_opened` is the
-- result -1.
pub data Printed : Type 0 where
  to_stdout : Bytes → Printed
  to_file : Bytes → Bytes → Printed
  not_opened : Printed

-- `db_print(filename)`, where `none` is NULL, and the flag says that the file of a name opens.
unfoldable pub db_print : (Bytes → Bool) → Option Bytes → Tree → Printed
unfolding db_print_recurs skip_spaces
db_print opens none head = to_stdout (db_print_recurs true head 0)
db_print opens (some filename) head = elim (skip_spaces filename) [
  | [] ↦ to_stdout (db_print_recurs true head 0)
  | c ∷ name ↦
      if opens (c ∷ name) then to_file (c ∷ name) (db_print_recurs true head 0) else not_opened
]
