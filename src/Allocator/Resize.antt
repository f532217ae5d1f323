-- ===== src/Allocator/Resize.antt =====
-- malloc/mm.c: `mm_realloc`. `memmove` is that of the C library on whole words.
use c_course_projects.Common.{
  ℕ, zero, suc, ◌+◌, ◌/◌, Option, none, some, if◌then◌else◌, leb, ◌==◌, List, [], ◌∷◌,
}
use c_course_projects.Allocator.{M, null, add_word, pure, ◌>>=◌, ◌>>◌, load, store}
use c_course_projects.Allocator.Block.{
  block_size, block_set_size_and_allocated, block_next, block_next_size, payload_to_block,
  pull_free_block,
}
use c_course_projects.Allocator.Operations.{padded, split, mm_malloc, mm_free}

-- `memmove` of whole words: what is read before anything is written.
unfoldable pub read_words : ℕ → ℕ → M (List ℕ)
unfolding load
read_words zero from = pure []
read_words (suc n) from = do w ← load from; ws ← read_words n (from + 8); pure (w ∷ ws)

unfoldable pub write_words : ℕ → List ℕ → M (Unit {0})
unfolding store
write_words to [] = pure tt
write_words to (w ∷ ws) = do store to w; write_words (to + 8) ws

unfoldable pub memmove : ℕ → ℕ → ℕ → M (Unit {0})
memmove to from n = do ws ← read_words (n / 8) from; write_words to ws

-- The call of `mm_malloc` at the end of `mm_realloc`.
unfoldable pub move_block : ℕ → ℕ → ℕ → ℕ → M (Option ℕ)
move_block fuel ptr csize size = do
  found ← mm_malloc fuel size
  elim found [
    | none ↦ pure none
    | some nptr ↦ do memmove nptr ptr csize; mm_free fuel ptr; pure (some nptr)
  ]

-- The branch of `mm_realloc` that takes the next block.
unfoldable pub take_next : ℕ → ℕ → ℕ → M (Option ℕ)
take_next ptr csize nsize = do
  next ← block_next ptr
  pull_free_block next
  more ← block_size next
  block_set_size_and_allocated ptr (add_word csize more) 1
  _ ← split ptr nsize
  pure (some ptr)

-- The test and the branch for room behind the block, which are given `ptr` and not the block.
unfoldable pub grow_block : ℕ → ℕ → ℕ → ℕ → ℕ → M (Option ℕ)
grow_block fuel ptr csize nsize size = do
  room ← block_next_size ptr
  if leb nsize (add_word csize room)
      then take_next ptr csize nsize
      else move_block fuel ptr csize size

unfoldable pub mm_realloc : ℕ → ℕ → ℕ → M (Option ℕ)
mm_realloc fuel ptr size =
    let nsize = padded size in
    if size == 0
    then mm_free fuel ptr >> pure none
    else if ptr == null
    then mm_malloc fuel size
    else do
      csize ← block_size (payload_to_block ptr)
      if leb nsize csize then pure (some ptr) else grow_block fuel ptr csize nsize size
