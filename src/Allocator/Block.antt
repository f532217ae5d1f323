-- ===== src/Allocator/Block.antt =====
-- malloc/mminline.h: a block is the address of its first tag. A tag holds the size, a multiple of 8,
-- and 1 more for an allocated block; the end tag is a copy in the block's last word. A free block
-- holds the addresses of the next and the previous free block behind its first tag.
use c_course_projects.Common.{ℕ, ◌+◌, ◌-◌, ◌%◌, ◌/◌, ◌*◌, if◌then◌else◌, leb, ◌==◌}
use c_course_projects.Allocator.{
  M, null, add_word, pure, ◌>>=◌, ◌>>◌, assert, load, store, get_first, set_first,
}

-- `w & 1`
abbrev pub flag_of : ℕ → ℕ
flag_of w = w % 2

-- `w & -2`
abbrev pub size_of : ℕ → ℕ
size_of w = w / 2 * 2

-- `w | 1`
abbrev pub or_one : ℕ → ℕ
or_one w = w / 2 * 2 + 1

-- `&b->payload[i]`
abbrev pub payload : ℕ → ℕ → ℕ
payload b i = b + 8 + 8 * i

unfoldable pub block_end_tag : ℕ → M ℕ
unfolding load
block_end_tag b = do size ← load b; assert (leb 16 size); pure (payload b (size / 8 - 2))

unfoldable pub block_allocated : ℕ → M ℕ
unfolding load
block_allocated b = do w ← load b; pure (flag_of w)

unfoldable pub block_end_allocated : ℕ → M ℕ
unfolding block_end_tag load
block_end_allocated b = do e ← block_end_tag b; w ← load e; pure (flag_of w)

unfoldable pub block_size : ℕ → M ℕ
unfolding load
block_size b = do w ← load b; pure (size_of w)

unfoldable pub block_end_size : ℕ → M ℕ
unfolding block_end_tag load
block_end_size b = do e ← block_end_tag b; w ← load e; pure (size_of w)

-- The assertion makes the size even, so that `size |= allocated` adds.
unfoldable pub block_set_size : ℕ → ℕ → M (Unit {0})
unfolding block_allocated block_end_tag store
block_set_size b size = do
  assert (size % 8 == 0)
  allocated ← block_allocated b
  store b (size + allocated)
  e ← block_end_tag b
  store e (size + allocated)

-- The change of one tag by `block_set_allocated`.
abbrev pub with_flag : ℕ → ℕ → ℕ
with_flag allocated w = if allocated == 0 then size_of w else or_one w

unfoldable pub block_set_allocated : ℕ → ℕ → M (Unit {0})
unfolding block_end_tag load store
block_set_allocated b allocated = do
  assert (leb allocated 1)
  w ← load b
  store b (with_flag allocated w)
  e ← block_end_tag b
  v ← load e
  store e (with_flag allocated v)

unfoldable pub block_set_size_and_allocated : ℕ → ℕ → ℕ → M (Unit {0})
block_set_size_and_allocated b size allocated = do
  block_set_size b size
  block_set_allocated b allocated

unfoldable pub block_prev_allocated : ℕ → M ℕ
unfolding load
block_prev_allocated b = do w ← load (b - 8); pure (flag_of w)

unfoldable pub block_prev_size : ℕ → M ℕ
unfolding load
block_prev_size b = do w ← load (b - 8); pure (size_of w)

unfoldable pub block_prev : ℕ → M ℕ
block_prev b = do size ← block_prev_size b; pure (b - size)

-- A size that is read where there is no tag may wrap around.
unfoldable pub block_next : ℕ → M ℕ
block_next b = do size ← block_size b; pure (add_word b size)

unfoldable pub block_next_allocated : ℕ → M ℕ
block_next_allocated b = do next ← block_next b; block_allocated next

unfoldable pub block_next_size : ℕ → M ℕ
block_next_size b = do next ← block_next b; block_size next

abbrev pub payload_to_block : ℕ → ℕ
payload_to_block p = p - 8

-- `assert(!block_allocated(b))`
unfoldable pub assert_free : ℕ → M (Unit {0})
unfolding block_allocated
assert_free b = do allocated ← block_allocated b; assert (allocated == 0)

unfoldable pub block_next_free : ℕ → M ℕ
unfolding assert_free load
block_next_free b = do assert_free b; load (payload b 0)

unfoldable pub block_set_next_free : ℕ → ℕ → M (Unit {0})
unfolding assert_free store
block_set_next_free b next = do assert_free b; assert_free next; store (payload b 0) next

unfoldable pub block_prev_free : ℕ → M ℕ
unfolding assert_free load
block_prev_free b = do assert_free b; load (payload b 1)

unfoldable pub block_set_prev_free : ℕ → ℕ → M (Unit {0})
unfolding assert_free store
block_set_prev_free b prev = do assert_free b; assert_free prev; store (payload b 1) prev

-- The two links past a block.
unfoldable pub unlink_free : ℕ → M (Unit {0})
unlink_free fb = do
  prev ← block_prev_free fb
  next ← block_next_free fb
  block_set_next_free prev next
  next' ← block_next_free fb
  prev' ← block_prev_free fb
  block_set_prev_free next' prev'

-- The first block is pulled: the next one becomes the first, or the list is empty.
unfoldable pub pull_first : ℕ → M (Unit {0})
pull_first fb = do
  next ← block_next_free fb
  set_first next
  if next == fb then set_first null else unlink_free fb

unfoldable pub pull_free_block : ℕ → M (Unit {0})
pull_free_block fb = do
  assert_free fb
  first ← get_first
  if first == fb then pull_first fb else unlink_free fb

-- The list was empty.
unfoldable pub insert_only : ℕ → M (Unit {0})
insert_only fb = do block_set_next_free fb fb; block_set_prev_free fb fb

-- The block is put between `first` and the last block.
unfoldable pub insert_before : ℕ → ℕ → M (Unit {0})
insert_before first fb = do
  last ← block_prev_free first
  block_set_next_free fb first
  block_set_prev_free fb last
  block_set_next_free last fb
  block_set_prev_free first fb

unfoldable pub insert_free_block : ℕ → M (Unit {0})
insert_free_block fb = do
  assert_free fb
  first ← get_first
  if first == null then insert_only fb else insert_before first fb
  set_first fb
