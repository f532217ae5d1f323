-- ===== src/Allocator/Tags.antt =====
-- `block_set_size_and_allocated` writes both tags of a block, whatever they held.
use c_course_projects.Common.{ℕ, ◌+◌, ◌-◌, ◌%◌, ◌≤◌, ◌≡◌, ◌≢◌, Option, some, arith, ◌∙◌}
use c_course_projects.Allocator.{Heap, update}
use c_course_projects.Allocator.Block.{
  block_size, block_allocated, block_set_size, block_set_allocated, block_set_size_and_allocated,
}

-- The run succeeds, both tags of the block hold the word, and the rest of the memory is left alone.
abbrev pub TagsSet : Heap → ℕ → ℕ → ℕ → Option (Unit {0} × Heap) → Type 0
TagsSet h b size word r =
    (m : ℕ → ℕ) × (r ≡ some (tt, record h { memory = m }))
    × (m b ≡ word)
    × (m (b + size - 8) ≡ word)
    × ((c : ℕ) → c ≢ b → c ≢ b + size - 8 → m c ≡ h.memory c)

-- A block of a size that the allocator uses, which lies in the area of the heap.
pub record Fits (h : Heap) (b size : ℕ) : Type 0 where
  pub big : 32 ≤ size
  pub aligned : size % 8 ≡ 0
  pub low : h.mem_start_brk ≤ b
  pub high : b + size ≤ h.mem_max_addr

set_size-TagsSet :
    (h : Heap) (b size : ℕ)
    → Fits h b size
    → TagsSet h b size (size + h.memory b % 2) (block_set_size b size h)
unfolding block_set_size
set_size-TagsSet h b size f =
    let v = size + h.memory b % 2 in
    (
      update (update h.memory b v) (b + size - 8) v,
      ground arith,
      ground arith,
      ground arith,
      λ c p q. ground arith,
    )

-- `word` is the size with the flag that it is given.
set_allocated-TagsSet :
    (h : Heap) (b size old flag : ℕ)
    → Fits h b size
    → flag ≤ 1
    → old ≤ 1
    → h.memory b ≡ size + old
    → h.memory (b + size - 8) ≡ size + old
    → TagsSet h b size (size + flag) (block_set_allocated b flag h)
unfolding block_set_allocated
set_allocated-TagsSet h b size old flag f one bit front back =
    let v = size + flag in
    (
      update (update h.memory b v) (b + size - 8) v,
      ground arith,
      ground arith,
      ground arith,
      λ c p q. ground arith,
    )

pub set_size_and_allocated-TagsSet :
    (h : Heap) (b size flag : ℕ)
    → Fits h b size
    → flag ≤ 1
    → TagsSet h b size (size + flag) (block_set_size_and_allocated b size flag h)
unfolding block_set_size_and_allocated
set_size_and_allocated-TagsSet h b size flag f one =
    let (m, ran, front, back, same) = set_size-TagsSet h b size f in
    let h1 = record h { memory = m } in
    let fits : Fits h1 b size = record {
      big = f.big;
      aligned = f.aligned;
      low = f.low;
      high = f.high;
    } in
    let (m', ran', front', back', same') =
      set_allocated-TagsSet h1 b size (h.memory b % 2) flag fits one (omega arith) front back in
    (m', rw ran ran', front', back', λ c p q. same' c p q ∙ same c p q)

pub size-ok :
    (h : Heap) (b size flag : ℕ)
    → Fits h b size
    → flag ≤ 1
    → h.memory b ≡ size + flag
    → block_size b h ≡ some (size, h)
unfolding block_size
size-ok h b size flag f one e = ground arith

pub allocated-ok :
    (h : Heap) (b size flag : ℕ)
    → Fits h b size
    → flag ≤ 1
    → h.memory b ≡ size + flag
    → block_allocated b h ≡ some (flag, h)
unfolding block_allocated
allocated-ok h b size flag f one e = ground arith
