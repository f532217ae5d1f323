-- ===== src/Allocator/Operations.antt =====
-- malloc/mm.c: the operations of the allocator. A loop over the free list takes fuel; one unit for
-- each free block is enough. `none` as an inner result is NULL.
use c_course_projects.Common.{
  ℕ, zero, suc, ◌-◌, ◌%◌, ◌/◌, ◌*◌, Bool, true, false, ◌&&◌, Option, none, some, if◌then◌else◌, ltb,
  leb, ◌==◌,
}
use c_course_projects.Common.Int.{ℤ, pos, negsuc}
use c_course_projects.Allocator.{
  Heap, M, null, word_mod, add_word, sub_word, max, pure, ◌>>=◌, ◌>>◌, get_first, set_first,
  get_epilogue, set_epilogue, set_prologue,
}
use c_course_projects.Allocator.Sbrk.{to_int, mem_sbrk}
use c_course_projects.Allocator.Block.{
  block_allocated, block_size, block_set_size_and_allocated, block_prev, block_next,
  payload_to_block, block_next_free, pull_free_block, insert_free_block, payload,
}

-- `MINBLOCKSIZE`
abbrev pub min_block_size : ℕ
min_block_size = 32

-- `TAGS_SIZE`
abbrev pub tags_size : ℕ
tags_size = 16

-- `(size + 7) & ~7`
unfoldable pub align : ℕ → ℕ
align size = add_word size 7 / 8 * 8

-- The size of the block that is made for a payload.
unfoldable pub padded : ℕ → ℕ
padded size = max (add_word (align size) tags_size) min_block_size

-- `mem_sbrk` of the size of a smallest block, and the tags of the block; 1 if there was room.
unfoldable pub sbrk_block : ℕ → M (Option ℕ)
sbrk_block allocated = do
  area ← mem_sbrk (pos min_block_size)
  elim area [
    | none ↦ pure none
    | some b ↦ do block_set_size_and_allocated b min_block_size allocated; pure (some b)
  ]

-- The value that a global is given by `mem_sbrk`, `(void *) -1` included.
abbrev pub pointer : Option ℕ → ℕ
pointer none = word_mod - 1
pointer (some b) = b

unfoldable pub mm_init : M ℤ
mm_init = do
  set_first null
  first ← sbrk_block 1
  set_prologue (pointer first)
  elim first [
    | none ↦ pure (negsuc 0)
    | some _ ↦ do
      spot ← sbrk_block 0
      elim spot [
        | none ↦ pure (negsuc 0)
        | some free_spot ↦ do
          insert_free_block free_spot
          last ← sbrk_block 1
          set_epilogue (pointer last)
          elim last [ none ↦ pure (negsuc 0) | some _ ↦ pure (pos 0) ]
      ]
  ]

-- The loop of `coalesce_helper` from a block on.
unfoldable pub in_free_list : ℕ → ℕ → ℕ → M Bool
in_free_list zero ptr block h = none
in_free_list (suc fuel) ptr block h =
    let rest : Option (Bool × Heap) = elim (block_next_free block h) [
      | none ↦ none
      | some (n, h') ↦ in_free_list fuel ptr n h'
    ] in
    if h.flist_first == block
    then some (false, h)
    else if block == ptr
    then some (true, h)
    else rest

unfoldable pub coalesce_helper : ℕ → ℕ → M Bool
coalesce_helper fuel ptr = do
  first ← get_first
  let go_on : M Bool = do block ← block_next_free first; in_free_list fuel ptr block
  if first == ptr then pure true else go_on

-- The four cases of `coalesce`, by the flags of the previous and the next block.
unfoldable pub join_blocks : Bool → Bool → ℕ → ℕ → ℕ → ℕ → M (Option ℕ)
join_blocks false true ptr prev next csize = do
  pull_free_block ptr
  size ← block_size prev
  block_set_size_and_allocated prev (add_word csize size) 0
  pure (some prev)
join_blocks true false ptr prev next csize = do
  pull_free_block next
  size ← block_size next
  block_set_size_and_allocated ptr (add_word csize size) 0
  pure (some ptr)
join_blocks false false ptr prev next csize = do
  pull_free_block ptr
  pull_free_block next
  size ← block_size prev
  size' ← block_size next
  block_set_size_and_allocated prev (add_word (add_word csize size) size') 0
  pure (some prev)
join_blocks true true ptr prev next csize = pure (some ptr)

-- `coalesce` past its guard. Each path reads the flags of both neighbors.
unfoldable pub join_free : ℕ → M (Option ℕ)
join_free ptr = do
  prev ← block_prev ptr
  next ← block_next ptr
  csize ← block_size ptr
  before ← block_allocated prev
  after ← block_allocated next
  join_blocks (before == 1) (after == 1) ptr prev next csize

unfoldable pub coalesce : ℕ → ℕ → M (Option ℕ)
coalesce fuel ptr = do free ← coalesce_helper fuel ptr; if free then join_free ptr else pure none

-- The block is cut: its rest becomes free.
unfoldable pub split_off : ℕ → ℕ → ℕ → M ℕ
split_off ptr nsize diff = do
  block_set_size_and_allocated ptr nsize 1
  next ← block_next ptr
  block_set_size_and_allocated next diff 0
  next' ← block_next ptr
  insert_free_block next'
  pure ptr

unfoldable pub split : ℕ → ℕ → M ℕ
split ptr nsize = do
  size ← block_size ptr
  let diff = sub_word size nsize
  if leb ((2 * nsize) % word_mod) diff && leb min_block_size diff
      then split_off ptr nsize diff
      else pure ptr

unfoldable pub extend_heap : ℕ → M (Option ℕ)
extend_heap nsize = do
  area ← mem_sbrk (to_int nsize)
  elim area [
    | none ↦ pure none
    | some _ ↦ do
      old ← get_epilogue
      block_set_size_and_allocated old nsize 1
      new_epilogue ← block_next old
      block_set_size_and_allocated new_epilogue min_block_size 1
      ptr ← split old nsize
      set_epilogue new_epilogue
      pure (some (payload ptr 0))
  ]

-- `smallest` with fuel: each call halves `diff`, so that `diff` itself is enough.
unfoldable pub halve_while : ℕ → ℕ → ℕ → ℕ
halve_while zero nsize diff = diff
halve_while (suc fuel) nsize diff =
    let rest = halve_while fuel nsize (diff / 2) in if ltb nsize (diff / 2) then rest else diff

unfoldable pub smallest : ℕ → ℕ → ℕ → ℕ
unfolding halve_while
smallest nsize csize diff = halve_while diff nsize diff

-- `min` and `best` of the loop in `mm_malloc`.
pub record Search : Type 0 where
  pub min : ℕ
  pub best : Option ℕ

-- The body of the loop: `d` is an `int`, so that 32 bits of the difference are kept.
unfoldable pub consider : ℕ → ℕ → ℕ → Search → Search
consider nsize current csize s =
    let d = sub_word csize nsize % 4294967296 in
    let diff = smallest csize nsize d in
    if ltb d 2147483648
    then if ltb diff s.min then record { min = diff; best = some current } else s
    else s

-- The loop from a block on.
unfoldable pub find_best : ℕ → ℕ → ℕ → Search → M (Option ℕ)
find_best zero nsize current s = λ h. none
find_best (suc fuel) nsize current s = do
  csize ← block_size current
  next ← block_next_free current
  first ← get_first
  let s' = consider nsize current csize s
  let rest = find_best fuel nsize next s'
  if next == first then pure s'.best else rest

-- `UINT_MAX` and NULL
abbrev pub no_best : Search
no_best = record { min = 4294967295; best = none }

-- What `mm_malloc` does with the block that is found.
unfoldable pub take_block : ℕ → Option ℕ → M (Option ℕ)
take_block nsize none = extend_heap nsize
take_block nsize (some best) = do
  pull_free_block best
  size ← block_size best
  block_set_size_and_allocated best size 1
  b ← split best nsize
  pure (some (payload b 0))

unfoldable pub mm_malloc : ℕ → ℕ → M (Option ℕ)
mm_malloc fuel size =
    let nsize = padded size in
    if size == 0 then pure none else do
      first ← get_first
      let searched : M (Option ℕ) = do
        best ← find_best fuel nsize first no_best
        take_block nsize best
      if first == null then extend_heap nsize else searched

unfoldable pub mm_free : ℕ → ℕ → M (Unit {0})
mm_free fuel ptr = if ptr == null then pure tt else do
  let block = payload_to_block ptr
  size ← block_size block
  block_set_size_and_allocated block size 0
  insert_free_block block
  _ ← coalesce fuel block
  pure tt
