-- ===== src/Allocator/Check.antt =====
-- `mm_check_heap` of malloc/mm.c. The lines that are printed are values; the loops take fuel, one
-- unit for each block and for each free block.
use c_course_projects.Common.{
  ℕ, zero, suc, Bool, true, false, none, some, if◌then◌else◌, ◌==◌, List, [], ◌∷◌, ◌++◌,
}
use c_course_projects.Common.Int.{ℤ, pos, negsuc}
use c_course_projects.Allocator.{M, pure, ◌>>=◌, get_first, get_prologue}
use c_course_projects.Allocator.Sbrk.{to_int}
use c_course_projects.Allocator.Block.{block_allocated, block_size, block_next, block_next_free}

-- A line on a block: whether it is allocated, its address and size, and those of the next block.
-- The sizes are printed as `int`.
pub data Report : Type 0 where
  allocated_block : ℕ → ℤ → ℕ → ℤ → Report
  free_block : ℕ → ℤ → ℕ → ℤ → Report
  bad_free_list : Report

unfoldable pub report_block : ℕ → M Report
report_block current = do
  allocated ← block_allocated current
  size ← block_size current
  next ← block_next current
  size' ← block_size next
  pure (
      if allocated == 1
      then allocated_block current (to_int size) next (to_int size')
      else free_block current (to_int size) next (to_int size'))

unfoldable pub report_blocks : ℕ → ℕ → M (List Report)
report_blocks zero current h = none
report_blocks (suc fuel) current h =
    let step : M (List Report) = do
      r ← report_block current
      next ← block_next current
      rs ← report_blocks fuel next
      pure (r ∷ rs)
    in if current == h.epilogue then some ([], h) else step h

-- The second loop: whether every block up to the first one is free.
unfoldable pub all_free : ℕ → ℕ → M Bool
all_free zero ncurr h = none
all_free (suc fuel) ncurr h =
    let step : M Bool = do
      allocated ← block_allocated ncurr
      let go_on : M Bool = do next ← block_next_free ncurr; all_free fuel next
      if allocated == 1 then pure false else go_on
    in if ncurr == h.flist_first then some (true, h) else step h

unfoldable pub mm_check_heap : ℕ → ℕ → M (ℤ × List Report)
mm_check_heap blocks free = do
  prologue ← get_prologue
  current ← block_next prologue
  reports ← report_blocks blocks current
  ncurr ← get_first
  allocated ← block_allocated ncurr
  let bad : M (ℤ × List Report) = pure (negsuc 0, reports ++ (bad_free_list ∷ []))
  let go_on : M (ℤ × List Report) = do
    next ← block_next_free ncurr
    good ← all_free free next
    if good then pure (pos 0, reports) else bad
  if allocated == 1 then bad else go_on
