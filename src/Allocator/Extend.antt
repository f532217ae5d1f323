-- ===== src/Allocator/Extend.antt =====
-- `extend_heap`: the last block of the heap, the epilogue, becomes the new block.
use c_course_projects.Common.{
  count, ℕ, ◌+◌, ◌%◌, ◌≤◌, ◌<◌, ◌≡◌, ◌==◌, inl, inr, true, false, none, some, List, [], ◌∷◌, ◌++◌,
  subst, arith, All, All-imp, ltb, Bool-cases,
}
use c_course_projects.Allocator.{Heap}
use c_course_projects.Allocator.Sbrk.{max_heap, to_int, mem_sbrk}
use c_course_projects.Allocator.Block.{block_next, block_set_size_and_allocated, payload}
use c_course_projects.Allocator.Operations.{min_block_size, split, extend_heap}
use c_course_projects.Allocator.Tiles.{Tile, tile, Tiles, after, free_at, Tiles-le}
use c_course_projects.Allocator.State.{State}
use c_course_projects.Allocator.Heaps.{IsHeap}

abbrev pub epilogue_tile : Tile
epilogue_tile = tile 32 1

-- The blocks end with the epilogue, and the area has the size that it is given.
pub record IsAllocator (h : Heap) (ts : List Tile) (fl : List ℕ) : Type 0 where
  pub heap : IsHeap h (ts ++ epilogue_tile ∷ []) fl
  pub epilogue : after h.prologue ts ≡ h.epilogue
  pub area : h.mem_max_addr ≤ h.mem_start_brk + max_heap

count-All {κ} : (P : ℕ → Type κ) (x : ℕ) (xs : List ℕ) → All P xs → 0 < count x xs → P x
count-All P x [] all h = absurd (omega arith)
count-All P x (y ∷ ys) all h = elim (Bool-cases (y == x)) [
  | inl e ↦ let same : y ≡ x = ground arith in subst P same all.0
  | inr n ↦ count-All P x ys all.1 (ground arith)
]

pub All-count {κ} : (P : ℕ → Type κ) (xs : List ℕ) → ((x : ℕ) → 0 < count x xs → P x) → All P xs
All-count P [] f = tt
All-count P (y ∷ ys) f = (f y (ground arith), All-count P ys (λ x p. f x (omega arith)))

free_at-below :
    (m : ℕ → ℕ) (a : ℕ) (ts : List Tile) (e : ℕ)
    → Tiles m a ts e
    → All (λ x. x + 32 ≤ e) (free_at a ts)
free_at-below m a [] e t = tt
free_at-below m a (y ∷ ts) e t = elim (Bool-cases (y.flag == 0)) [
  | inl f ↦ rw f (
    let le = Tiles-le m (a + y.size) ts e t.1 in let big = t.0.big in omega arith,
    free_at-below m (a + y.size) ts e t.1,
  )
  | inr n ↦ rw n (free_at-below m (a + y.size) ts e t.1)
]

pub listed_below :
    (h : Heap) (ts : List Tile) (fl : List ℕ) → IsHeap h ts fl → All (λ x. x + 32 ≤ h.mem_brk) fl
listed_below h ts fl is =
    All-count (λ x. x + 32 ≤ h.mem_brk) fl
      (λ x p.
        count-All (λ y. y + 32 ≤ h.mem_brk) x (free_at h.prologue ts)
          (free_at-below h.memory h.prologue ts h.mem_brk is.state.tiles)
          (omega (arith, is.frees x)))

pub moved_epilogue :
    (h : Heap) (ts : List Tile) (fl : List ℕ) (e : ℕ)
    → State h ts fl
    → State (record h { epilogue = e }) ts fl
moved_epilogue h ts fl e s = record {
  tiles = s.tiles;
  list = record {
    first = s.list.first;
    circular = s.list.circular;
    free =
        All-imp (λ x f. record { not_null = f.not_null; low = f.low; high = f.high; free = f.free })
          fl s.list.free;
    scattered = s.list.scattered;
  };
  clear = s.clear;
  low = s.low;
  positive = s.positive;
  high = s.high;
  word = s.word;
}

pub extend_heap-run :
    (h h0 h1 h2 : Heap) (e n nsize brk : ℕ)
    → mem_sbrk (to_int nsize) h ≡ some (some brk, h0)
    → h0.epilogue ≡ e
    → block_set_size_and_allocated e nsize 1 h0 ≡ some (tt, h1)
    → block_next e h1 ≡ some (n, h1)
    → block_set_size_and_allocated n min_block_size 1 h1 ≡ some (tt, h2)
    → split e nsize h2 ≡ some (e, h2)
    → extend_heap nsize h ≡ some (some (payload e 0), record h2 { epilogue = n })
unfolding extend_heap
extend_heap-run h h0 h1 h2 e n nsize brk e1 e2 e3 e4 e5 e6 = simp (e1, e2, e3, e4, e5, e6)

pub extend_heap-refused :
    (h : Heap) (nsize : ℕ)
    → nsize ≤ 2147483647
    → h.mem_max_addr < h.mem_brk + nsize
    → extend_heap nsize h ≡ some (none, h)
unfolding extend_heap mem_sbrk to_int
extend_heap-refused h nsize small full =
    let low : nsize % 4294967296 ≡ nsize = omega arith in
    let positive : ltb nsize 2147483648 ≡ true = ground arith in
    let over : ltb h.mem_max_addr (h.mem_brk + nsize) ≡ true = ground arith in
    rw (low, positive, over)

pub sbrk-grows :
    (h : Heap) (nsize : ℕ)
    → nsize ≤ 2147483647
    → h.mem_brk + nsize ≤ h.mem_max_addr
    → mem_sbrk (to_int nsize) h ≡ some (some h.mem_brk, record h { mem_brk = h.mem_brk + nsize })
unfolding mem_sbrk to_int
sbrk-grows h nsize small room =
    let low : nsize % 4294967296 ≡ nsize = omega arith in
    let positive : ltb nsize 2147483648 ≡ true = ground arith in
    let over : ltb h.mem_max_addr (h.mem_brk + nsize) ≡ false = ground arith in
    rw (low, positive, over)
