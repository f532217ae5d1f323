-- ===== src/Database/CommandSafe.antt =====
-- Every command of `interpret_command` ends as its letter says.
use c_course_projects.Common.{ℕ, List}
use c_course_projects.Common.Bytes.{Bytes}
use c_course_projects.Database.Tree.{Tree}
use c_course_projects.Database.Valid.{IsValid}
use c_course_projects.Database.Command.{
  Run, responds, null_fault, overflow_fault, out_of_fuel, FileSystem, run_lines,
}
use c_course_projects.Database.Executes.{Goes, Executes}

module _ (files : FileSystem) (len : ℕ) where
  abbrev StepGoes : (Bytes → Tree → Bytes → Run) → Type 0
  StepGoes step =
      (line : Bytes) (head : Tree) (response : Bytes)
      → IsValid head
      → Goes head (step line head response)

  abbrev go_on : (Bytes → Tree → Bytes → Run) → List Bytes → Run → Run
  go_on step lines r = elim r [
    | responds head' response' ↦ run_lines step lines head' response'
    | null_fault ↦ null_fault
    | overflow_fault ↦ overflow_fault
    | out_of_fuel ↦ out_of_fuel
  ]
