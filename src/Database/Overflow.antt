-- ===== src/Database/Overflow.antt =====
-- `db_remove` copies the successor's name into the buffer that was allocated for the removed name.
use c_course_projects.Common.{◌+◌, ◌<◌, ◌≤◌, ◌≡◌, ◌≢◌, false, [], arith, length, take-eq_of_le, ltb}
use c_course_projects.Common.Bytes.{Bytes, nil-≺, gt_of_lt, strcmp_refl}
use c_course_projects.Database.Tree.{leaf, node}
use c_course_projects.Database.Search.{search_from}
use c_course_projects.Database.Update.{
  overflow, snprintf, overwrite, remove_node, remove_found, db_remove,
}
use c_course_projects.Database.Remove.{literal}

-- A node with a non-empty name hangs under the head and has two children without children. If the
-- name of its right child is longer, and at most 255 bytes long, then removing the node copies that
-- name past the end of the buffer that was allocated for its own.
pub db_remove-overflow :
    (a b c x y z : Bytes)
    → b ≢ []
    → length b < length c
    → length c ≤ 255
    → db_remove b (
        node (literal []) (literal []) leaf (
          node
            (literal b)
            (literal y)
            (node (literal a) (literal x) leaf leaf)
            (node (literal c) (literal z) leaf leaf)))
      ≡ overflow
unfolding db_remove search_from
db_remove-overflow a b c x y z ne h k =
    let long : ltb (length c) (length b + 1) ≡ false = ground arith in
    rw (gt_of_lt [] b (nil-≺ b ne), search_from, strcmp_refl b)
      (rw (take-eq_of_le 255 c k, remove_found, remove_node, overwrite, snprintf, long))
