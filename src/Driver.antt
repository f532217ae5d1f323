-- ===== src/Driver.antt =====
-- malloc/mdriver.c: the list of payload ranges with which the driver checks an allocator.
--
-- An address is a number. The size is an `int` that the assertion requires to be positive; a negative
-- one fails it as 0 does. The first and the last address of the heap are arguments.
pub mod Overlap
mod Tests
use c_course_projects.Common.{
  ℕ, ◌+◌, ◌-◌, ◌%◌, Bool, true, false, not, ◌&&◌, ◌||◌, List, [], ◌∷◌, if◌then◌else◌, ltb, leb,
  ◌==◌,
}

-- `range_t` without the pointer to the next one.
pub record Range : Type 0 where
  pub lo : ℕ
  pub hi : ℕ

-- How `add_range` ends: with an error that is reported, with the end of the program, or with the
-- new list.
pub data Added : Type 0 where
  assertion_failed not_aligned outside overlapping no_memory : Added
  added : List Range → Added

-- Whether one of the two addresses lies in the range.
unfoldable pub in_range : (lo hi : ℕ) → Range → Bool
in_range lo hi p = (leb p.lo lo && leb lo p.hi) || (leb p.lo hi && leb hi p.hi)

-- The loop over the ranges.
unfoldable pub overlaps : (lo hi : ℕ) → List Range → Bool
unfolding in_range
overlaps lo hi [] = false
overlaps lo hi (p ∷ ranges) = if in_range lo hi p then true else overlaps lo hi ranges

module _ (heap_lo heap_hi : ℕ) (memory : Bool) where
  -- `memory` says whether `malloc` of the record succeeds.
  unfoldable pub add_range : List Range → (lo size : ℕ) → Added
  unfolding overlaps
  add_range ranges lo size =
      let hi = lo + size - 1 in
      if size == 0
      then assertion_failed
      else if not ((lo % 8) == 0)
      then not_aligned
      else if ltb lo heap_lo || (ltb heap_hi lo || (ltb hi heap_lo || ltb heap_hi hi))
      then outside
      else if overlaps lo hi ranges
      then overlapping
      else if memory
      then added (record { lo = lo; hi = hi } ∷ ranges)
      else no_memory

-- `remove_range`: the first range that starts at the address is taken out.
unfoldable pub remove_range : List Range → ℕ → List Range
remove_range [] lo = []
remove_range (p ∷ ranges) lo =
    let rest = remove_range ranges lo in if p.lo == lo then ranges else p ∷ rest
