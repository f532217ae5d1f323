-- ===== src/Allocator/Passes.antt =====
-- `mm_check_heap` on a heap that the allocator keeps.
use c_course_projects.Common.{
  ℕ, zero, suc, ◌+◌, ◌≤◌, ◌<◌, ◌≡◌, ◌≢◌, ◌==◌, true, false, none, some, List, [], ◌∷◌, ◌++◌, refl,
  sym, subst, arith, All, All-imp, length, if◌then◌else◌,
}
use c_course_projects.Common.Int.{pos}
use c_course_projects.Allocator.{Heap, null, word_mod}
use c_course_projects.Allocator.Access.{IsFree, next_at, next_free-ok}
use c_course_projects.Allocator.Sbrk.{to_int}
use c_course_projects.Allocator.Block.{block_allocated, block_next}
use c_course_projects.Allocator.Check.{
  Report, allocated_block, free_block, report_block, report_blocks, all_free, mm_check_heap,
}
use c_course_projects.Allocator.Ring.{Seg}
use c_course_projects.Allocator.Tiles.{Tile, IsTile, Tiles, after, Tiles-le}
use c_course_projects.Allocator.Tags.{Fits, size-ok, allocated-ok}
use c_course_projects.Allocator.Heaps.{place}
use c_course_projects.Allocator.Coalesce.{next-ok}
use c_course_projects.Allocator.Join.{ne_of_Apart}
use c_course_projects.Allocator.Extend.{epilogue_tile, IsAllocator}

-- The line for a block at `a` before the block `n`.
abbrev pub line : ℕ → Tile → Tile → Report
line a t n =
    if t.flag == 1
    then allocated_block a (to_int t.size) (a + t.size) (to_int n.size)
    else free_block a (to_int t.size) (a + t.size) (to_int n.size)

-- The lines for blocks from address `a` on, but for the last one.
abbrev pub lines : ℕ → List Tile → List Report
lines a [] = []
lines a (t ∷ []) = []
lines a (t ∷ n ∷ ts) = line a t n ∷ lines (a + t.size) (n ∷ ts)

after-le : (a : ℕ) (ts : List Tile) → a ≤ after a ts
after-le a [] = omega arith
after-le a (t ∷ ts) = omega (arith, after-le (a + t.size) ts)

report_block-line :
    (h : Heap) (a : ℕ) (t n : Tile)
    → IsTile h.memory a t
    → IsTile h.memory (a + t.size) n
    → h.mem_start_brk ≤ a
    → a + t.size + n.size ≤ h.mem_max_addr
    → h.mem_max_addr < word_mod
    → report_block a h ≡ some (line a t n, h)
unfolding report_block
report_block-line h a t n is is' low high word =
    let big' = is'.big in
    let f : Fits h a t.size = record {
      big = is.big;
      aligned = is.aligned;
      low = low;
      high = omega arith;
    } in
    let g : Fits h (a + t.size) n.size = record {
      big = is'.big;
      aligned = is'.aligned;
      low = omega arith;
      high = high;
    } in
    rw
      (
        allocated-ok h a t.size t.flag f is.bit is.front,
        size-ok h a t.size t.flag f is.bit is.front,
        next-ok h a t f is word,
        size-ok h (a + t.size) n.size n.flag g is'.bit is'.front,
      )
      refl

report_blocks-step :
    (fuel : ℕ) (h : Heap) (a : ℕ) (t n : Tile) (rs : List Report)
    → IsTile h.memory a t
    → IsTile h.memory (a + t.size) n
    → h.mem_start_brk ≤ a
    → a + t.size + n.size ≤ h.mem_max_addr
    → h.mem_max_addr < word_mod
    → (a == h.epilogue) ≡ false
    → report_blocks fuel (a + t.size) h ≡ some (rs, h)
    → report_blocks (suc fuel) a h ≡ some (line a t n ∷ rs, h)
unfolding report_blocks
report_blocks-step fuel h a t n rs is is' low high word more rest =
    let big' = is'.big in
    let f : Fits h a t.size = record {
      big = is.big;
      aligned = is.aligned;
      low = low;
      high = omega arith;
    } in
    rw (more, report_block-line h a t n is is' low high word, next-ok h a t f is word, rest) refl

-- The first loop reports every block from one on.
report_blocks-lines :
    (fuel : ℕ) (h : Heap) (a : ℕ) (ts : List Tile)
    → Tiles h.memory a (ts ++ epilogue_tile ∷ []) h.mem_brk
    → h.mem_start_brk ≤ a
    → h.mem_brk ≤ h.mem_max_addr
    → h.mem_max_addr < word_mod
    → after a ts ≡ h.epilogue
    → length ts < fuel
    → report_blocks fuel a h ≡ some (lines a (ts ++ epilogue_tile ∷ []), h)
unfolding report_blocks
report_blocks-lines zero h a ts tl low high word e le = absurd (omega arith)
report_blocks-lines (suc fuel) h a [] tl low high word e le =
    let stop : (a == h.epilogue) ≡ true = ground arith in rw stop refl
report_blocks-lines (suc fuel) h a (t ∷ []) tl low high word e le =
    let big = tl.0.big in
    report_blocks-step fuel h a t epilogue_tile [] tl.0 tl.1.0 low (omega (arith, tl.1.1)) word
      (ground arith)
      (report_blocks-lines fuel h (a + t.size) [] tl.1 (omega arith) high word e (omega arith))
report_blocks-lines (suc fuel) h a (t ∷ n ∷ ts) tl low high word e le =
    let big = tl.0.big in
    let rest = tl.1.1 in
    let below = Tiles-le h.memory (a + t.size + n.size) (ts ++ epilogue_tile ∷ []) h.mem_brk rest in
    report_blocks-step fuel h a t n (lines (a + t.size) ((n ∷ ts) ++ epilogue_tile ∷ [])) tl.0
      tl.1.0 low (omega arith) word (ground (arith, after-le (a + t.size + n.size) ts))
      (report_blocks-lines fuel h (a + t.size) (n ∷ ts) tl.1 (omega arith) high word e
        (omega arith))

free-allocated : (h : Heap) (b : ℕ) → IsFree h b → block_allocated b h ≡ some (0, h)
unfolding block_allocated
free-allocated h b f = ground arith

-- The second loop runs through the circle.
all_free-circle :
    (fuel : ℕ) (h : Heap) (b : ℕ) (ys : List ℕ)
    → length ys < fuel
    → Seg h.memory b ys h.flist_first
    → All (IsFree h) ys
    → All (λ y. y ≢ h.flist_first) ys
    → all_free fuel (h.memory (next_at b)) h ≡ some (true, h)
unfolding all_free
all_free-circle zero h b ys le seg free ne = absurd (omega arith)
all_free-circle (suc fuel) h b [] le seg free ne =
    let stop : (h.memory (next_at b) == h.flist_first) ≡ true = ground (arith, seg.0) in
    rw stop refl
all_free-circle (suc fuel) h b (y ∷ ys) le seg free ne =
    let more : (y == h.flist_first) ≡ false = ground arith in
    rw (seg.0.0, more, free-allocated h y free.0, next_free-ok free.0)
      (all_free-circle fuel h y ys (omega arith) seg.1 free.1 ne.1)

mm_check_heap-run :
    (blocks free : ℕ) (h : Heap) (a x : ℕ) (rs : List Report)
    → block_next h.prologue h ≡ some (a, h)
    → report_blocks blocks a h ≡ some (rs, h)
    → h.flist_first ≡ x
    → IsFree h x
    → all_free free (h.memory (next_at x)) h ≡ some (true, h)
    → mm_check_heap blocks free h ≡ some ((pos 0, rs), h)
unfolding mm_check_heap
mm_check_heap-run blocks free h a x rs e1 e2 e3 f e4 =
    simp (e1, e2, e3, free-allocated h x f, next_free-ok f, e4)

module _ (blocks : ℕ) (h : Heap) (p : Tile) (ts : List Tile) (fl : List ℕ)
    (is : IsAllocator h (p ∷ ts) fl) (enough : length ts < blocks) where
  first-next : block_next h.prologue h ≡ some (h.prologue + p.size, h)
  first-next =
      let at = place h [] p (ts ++ epilogue_tile ∷ []) fl h.prologue is.heap.state refl in
      next-ok h h.prologue p at.fits at.is_tile is.heap.state.word

  all-reported :
      report_blocks blocks (h.prologue + p.size) h
      ≡ some (lines (h.prologue + p.size) (ts ++ epilogue_tile ∷ []), h)
  all-reported =
      let low = is.heap.state.low in
      report_blocks-lines blocks h (h.prologue + p.size) ts is.heap.state.tiles.1 (omega arith)
        is.heap.state.high is.heap.state.word is.epilogue enough

-- In a heap that the allocator keeps, with a block that is free and one unit of fuel for each block
-- behind the first one, and for each free block, the check ends, returns 0 and changes nothing. It
-- prints one line for each block between the first one and the epilogue, in order.
pub mm_check_heap-Passes :
    (blocks free : ℕ) (h : Heap) (p : Tile) (ts : List Tile) (x : ℕ) (xs : List ℕ)
    → IsAllocator h (p ∷ ts) (x ∷ xs)
    → length ts < blocks
    → length xs < free
    → mm_check_heap blocks free h
      ≡ some ((pos 0, lines (h.prologue + p.size) (ts ++ epilogue_tile ∷ [])), h)
mm_check_heap-Passes blocks free h p ts x xs is enough enough' =
    let list = is.heap.state.list in
    mm_check_heap-run blocks free h (h.prologue + p.size) x _
      (first-next blocks h p ts (x ∷ xs) is enough) (all-reported blocks h p ts (x ∷ xs) is enough)
      list.first list.free.0
      (all_free-circle free h x xs enough'
        (subst (λ f. Seg h.memory x xs f) (sym list.first) list.circular) list.free.1
        (subst (λ f. All (λ y. y ≢ f) xs) (sym list.first)
          (All-imp (ne_of_Apart x) xs list.scattered.0)))

null-unread : (h : Heap) → 0 < h.mem_start_brk → block_allocated null h ≡ none
unfolding block_allocated
null-unread h low = ground arith

check-fault :
    (blocks free : ℕ) (h : Heap) (a : ℕ) (rs : List Report)
    → block_next h.prologue h ≡ some (a, h)
    → report_blocks blocks a h ≡ some (rs, h)
    → h.flist_first ≡ null
    → block_allocated null h ≡ none
    → mm_check_heap blocks free h ≡ none
unfolding mm_check_heap
check-fault blocks free h a rs e1 e2 e3 e4 = simp (e1, e2, e3, e4)

-- In a heap that the allocator keeps, above address 0, where no block is free, the check reads through
-- NULL, although nothing is wrong with the heap; the fuel for the blocks suffices.
pub mm_check_heap-reads-null :
    (blocks free : ℕ) (h : Heap) (p : Tile) (ts : List Tile)
    → IsAllocator h (p ∷ ts) []
    → 0 < h.mem_start_brk
    → length ts < blocks
    → mm_check_heap blocks free h ≡ none
mm_check_heap-reads-null blocks free h p ts is low enough =
    check-fault blocks free h (h.prologue + p.size) _ (first-next blocks h p ts [] is enough)
      (all-reported blocks h p ts [] is enough) is.heap.state.list.first (null-unread h low)
