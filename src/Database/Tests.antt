-- ===== src/Database/Tests.antt =====
-- Concrete runs of the database: a tree of three names under the head.
use Prim.Native.String.{String}
use c_course_projects.Common.{◌≡◌, refl, none, arith}
use c_course_projects.Common.Bytes.{codes, strcmp}
use c_course_projects.Database.Tree.{Buffer, Tree, leaf, node, entries}
use c_course_projects.Database.Update.{overflow, db_query, db_add, db_remove}
use c_course_projects.Database.Valid.{IsValid}
use c_course_projects.Database.Correct.{Answers, db_query-Answers, Adds, db_add-Adds, all_ok}
use c_course_projects.Database.Remove.{literal, Removes, db_remove-Removes}
use c_course_projects.Database.Overflow.{db_remove-overflow}
use c_course_projects.Database.Releases.{Releases, operations-Releases}
use c_course_projects.Database.Command.{FileSystem}
use c_course_projects.Database.Executes.{Executes}

abbrev text : String → Buffer
text s = literal (codes s)

abbrev three : Tree
three = node (text "") (text "") leaf (
    node (text "m") (text "one") (node (text "b") (text "two") leaf leaf)
      (node (text "t") (text "four") leaf leaf))

three-IsValid : IsValid three
unfolding entries strcmp
three-IsValid = record {
  root = refl;
  sorted = ((refl, (refl, (refl, tt))), ((refl, (refl, tt)), ((refl, tt), (tt, tt))));
  hold = ground arith;
}

db_query-Answers_example : Answers (codes "b") 20 three (db_query (codes "b") 20 three)
db_query-Answers_example = db_query-Answers (codes "b") 20 three three-IsValid (λ e. cc)

db_add-Adds_example :
    Adds (codes "k") (codes "five") three (db_add all_ok (codes "k") (codes "five") three)
db_add-Adds_example =
    db_add-Adds (codes "k") (codes "five") three three-IsValid (λ e. cc) (omega arith) (omega arith)

db_remove-Removes_example : Removes (codes "m") three (db_remove (codes "m") three)
db_remove-Removes_example = db_remove-Removes (codes "m") three three-IsValid (λ e. cc)

db_remove-overflow_example :
    db_remove (codes "b") (
      node (text "") (text "") leaf (
        node
          (text "b")
          (text "y")
          (node (text "a") (text "x") leaf leaf)
          (node (text "cd") (text "z") leaf leaf)))
    ≡ overflow
db_remove-overflow_example =
    db_remove-overflow (codes "a") (codes "b") (codes "cd") (codes "x") (codes "y") (codes "z")
      (λ e. cc) (omega arith) (omega arith)

operations-Releases_example :
    Releases (db_query (codes "b") 9 three)
    × Releases (db_add all_ok (codes "b") (codes "v") three)
    × Releases (db_remove (codes "b") three)
operations-Releases_example = operations-Releases three (λ e. cc) (codes "b") (codes "v") 9 all_ok

abbrev no_files : FileSystem
no_files name = none
