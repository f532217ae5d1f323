-- ===== src/Allocator/Access.antt =====
-- What the accesses to free blocks do, where the blocks lie in the area of the heap.
use c_course_projects.Common.{ℕ, ◌<◌, ◌+◌, ◌%◌, ◌≤◌, ◌≡◌, some, arith}
use c_course_projects.Allocator.{Heap, update}
use c_course_projects.Allocator.Block.{
  payload, assert_free, block_next_free, block_prev_free, block_set_next_free, block_set_prev_free,
}

-- The block is not NULL, its tag and its two links lie in the area, and the tag says that it is free.
pub record IsFree (h : Heap) (b : ℕ) : Type 0 where
  pub not_null : 0 < b
  pub low : h.mem_start_brk ≤ b
  pub high : b + 24 ≤ h.mem_max_addr
  pub free : h.memory b % 2 ≡ 0

abbrev pub write : ℕ → ℕ → Heap → Heap
write a v h = record h { memory = update h.memory a v }

-- The cells of the two links.
abbrev pub next_at : ℕ → ℕ
next_at b = payload b 0

abbrev pub prev_at : ℕ → ℕ
prev_at b = payload b 1

module _ {h : Heap} {b : ℕ} (f : IsFree h b) where
  pub assert_free-ok : assert_free b h ≡ some (tt, h)
  unfolding assert_free
  assert_free-ok = ground arith

  pub next_free-ok : block_next_free b h ≡ some (h.memory (next_at b), h)
  unfolding block_next_free
  next_free-ok = ground arith

  pub prev_free-ok : block_prev_free b h ≡ some (h.memory (prev_at b), h)
  unfolding block_prev_free
  prev_free-ok = ground arith

  pub set_next_free-ok :
      {c : ℕ} → IsFree h c → block_set_next_free b c h ≡ some (tt, write (next_at b) c h)
  unfolding block_set_next_free
  set_next_free-ok g = ground arith

  pub set_prev_free-ok :
      {c : ℕ} → IsFree h c → block_set_prev_free b c h ≡ some (tt, write (prev_at b) c h)
  unfolding block_set_prev_free
  set_prev_free-ok g = ground arith
