-- ===== src/Allocator/Realloc.antt =====
-- `mm_realloc` to a larger size: the test for room behind the block is given the address of the payload
-- and reads the contents of the block as a tag.
use c_course_projects.Common.{
  ℕ, ◌+◌, ◌-◌, ◌<◌, ◌≡◌, ◌==◌, false, none, some, List, ◌∷◌, ◌++◌, [], sym, ap, ◌≤◌, ◌∙◌, subst,
  arith, leb, append_assoc,
}
use c_course_projects.Allocator.{Heap, null, inside, word_mod, add_word}
use c_course_projects.Allocator.Block.{size_of, block_size, block_next, block_next_size}
use c_course_projects.Allocator.Operations.{padded}
use c_course_projects.Allocator.Resize.{grow_block, mm_realloc}
use c_course_projects.Allocator.Tiles.{Tile, after}
use c_course_projects.Allocator.Tags.{size-ok}
use c_course_projects.Allocator.State.{State}
use c_course_projects.Allocator.Heaps.{place, after-append}
use c_course_projects.Allocator.Coalesce.{next-ok}
use c_course_projects.Allocator.Extend.{epilogue_tile, IsAllocator}

room-fault :
    (ptr : ℕ) (h : Heap)
    → inside h (add_word ptr (size_of (h.memory ptr))) ≡ false
    → block_next_size ptr h ≡ none
unfolding block_next_size block_next block_size
room-fault ptr h out = ground arith

-- A word that leads past the area without wrapping around.
past-area :
    (ptr c : ℕ) (h : Heap)
    → h.mem_max_addr < ptr + c
    → ptr + c < word_mod
    → inside h (add_word ptr (size_of c)) ≡ false
past-area ptr c h beyond word =
    let even : c ≤ size_of c + 1 = omega arith in
    let less : size_of c ≤ c = omega arith in
    let same : add_word ptr (size_of c) ≡ ptr + size_of c = omega arith in ground arith

next_size-ok :
    (a b size : ℕ) (h : Heap)
    → block_next a h ≡ some (b, h)
    → block_size b h ≡ some (size, h)
    → block_next_size a h ≡ some (size, h)
unfolding block_next_size
next_size-ok a b size h e e' = rw (e, e')

grow-fault :
    (fuel ptr csize nsize size : ℕ) (h : Heap)
    → block_next_size ptr h ≡ none
    → grow_block fuel ptr csize nsize size h ≡ none
unfolding grow_block
grow-fault fuel ptr csize nsize size h e = rw e

mm_realloc-grow :
    (fuel a size csize : ℕ) (h : Heap)
    → (size == 0) ≡ false
    → block_size a h ≡ some (csize, h)
    → leb (padded size) csize ≡ false
    → mm_realloc fuel (a + 8) size h ≡ grow_block fuel (a + 8) csize (padded size) size h
unfolding mm_realloc
mm_realloc-grow fuel a size csize h s e larger =
    let there : (a + 8 == null) ≡ false = ground arith in
    let back : a + 8 - 8 ≡ a = omega arith in rw (s, there, back, e, larger)

-- Behind a block of the heap there is always one whose size can be read.
size_behind :
    (h : Heap) (us : List Tile) (t n : Tile) (zs : List Tile) (fl : List ℕ) (a : ℕ)
    → State h (us ++ t ∷ n ∷ zs) fl
    → after h.prologue us ≡ a
    → block_next_size a h ≡ some (n.size, h)
size_behind h us t n zs fl a s start =
    let at = place h us t (n ∷ zs) fl a s start in
    let behind =
      place h (us ++ t ∷ []) n zs fl (a + t.size)
        (subst (λ l. State h l fl) (sym (append_assoc us (t ∷ []) (n ∷ zs))) s)
        (after-append h.prologue us (t ∷ []) ∙ ap (λ b. b + t.size) start) in
    next_size-ok a (a + t.size) n.size h (next-ok h a t at.fits at.is_tile s.word)
      (size-ok h (a + t.size) n.size n.flag behind.fits behind.is_tile.bit behind.is_tile.front)

-- In a heap that the allocator keeps, a request of at least one byte needs a larger block than
-- the given one. The first word of that block's contents, taken for a size, leads past the
-- heap's area and not around the 64-bit address space. Then the call faults, although the size
-- of the block behind can be read.
pub mm_realloc-reads-contents :
    (fuel size : ℕ) (h : Heap) (us : List Tile) (t n : Tile) (zs : List Tile) (fl : List ℕ)
    (a c : ℕ)
    → IsAllocator h (us ++ t ∷ n ∷ zs) fl
    → after h.prologue us ≡ a
    → 0 < size
    → t.size < padded size
    → h.memory (a + 8) ≡ c
    → h.mem_max_addr < a + 8 + c
    → a + 8 + c < word_mod
    → (mm_realloc fuel (a + 8) size h ≡ none) × (block_next_size a h ≡ some (n.size, h))
mm_realloc-reads-contents fuel size h us t n zs fl a c is start pos larger e beyond word =
    let s =
      subst (λ l. State h l fl) (append_assoc us (t ∷ n ∷ zs) (epilogue_tile ∷ [])) is.heap.state in
    let at = place h us t (n ∷ (zs ++ epilogue_tile ∷ [])) fl a s start in
    (
      mm_realloc-grow fuel a size t.size h (ground arith)
            (size-ok h a t.size t.flag at.fits at.is_tile.bit at.is_tile.front) (ground arith)
          ∙ grow-fault fuel (a + 8) t.size (padded size) size h
              (room-fault (a + 8) h (rw e (past-area (a + 8) c h beyond word))),
      size_behind h us t n (zs ++ epilogue_tile ∷ []) fl a s start,
    )
