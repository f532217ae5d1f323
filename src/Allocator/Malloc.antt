-- ===== src/Allocator/Malloc.antt =====
-- `mm_malloc` for a size of at most 2 ^ 30: it takes the best free block, or the heap grows, or there is
-- no room.
use c_course_projects.Common.{
  count, ℕ, ◌+◌, ◌*◌, ◌%◌, ◌/◌, ◌≤◌, ◌<◌, ◌≡◌, ◌≢◌, ◌==◌, ◌⊎◌, inl, inr, true, false, Option, none,
  some, List, [], ◌∷◌, ◌++◌, refl, ap, sym, ◌∙◌, subst, arith, All, All-imp, ltb, Bool-cases,
  append_assoc, length,
}
use c_course_projects.Allocator.{Heap, word_mod, null, add_word}
use c_course_projects.Allocator.Block.{payload, size_of}
use c_course_projects.Allocator.Operations.{
  align, padded, no_best, find_best, take_block, extend_heap, mm_malloc,
}
use c_course_projects.Allocator.Ring.{Seg}
use c_course_projects.Allocator.Tiles.{Tile, tile, free_at}
use c_course_projects.Allocator.State.{State}
use c_course_projects.Allocator.Heaps.{place, count-free_at-append, after-append}
use c_course_projects.Allocator.Join.{ne_of_Apart}
use c_course_projects.Allocator.Extend.{epilogue_tile, IsAllocator, All-count, extend_heap-refused}
use c_course_projects.Allocator.Grow.{grown, extend_heap-grows}
use c_course_projects.Allocator.BestFit.{int_max, Chosen, scan, scan-Chosen, find_best-scan}
use c_course_projects.Allocator.Found.{Found, find_tile, take_block-Found}

-- For a request that stays below the word size when 24 is added: the size of the block is a multiple
-- of 8, at least 32, and has room for the request and both tags, at most 32 bytes more than the request.
pub padded_bounds :
    (size : ℕ)
    → size + 24 < word_mod
    → (padded size % 8 ≡ 0)
      × (32 ≤ padded size)
      × (size + 16 ≤ padded size)
      × (padded size ≤ size + 32)
unfolding padded align
padded_bounds size h =
    let a : add_word size 7 ≡ size + 7 = omega arith in
    let b : add_word ((size + 7) / 8 * 8) 16 ≡ (size + 7) / 8 * 8 + 16 = omega arith in
    rw (a, b) (ground arith, ground arith, ground arith, ground arith)

-- The heap has grown, and no free block was large enough.
pub record Grown (h : Heap) (ts : List Tile) (fl : List ℕ) (nsize : ℕ)
    (r : Option (Option ℕ × Heap)) : Type 0 where
  pub m : ℕ → ℕ
  pub none_fits : All (λ x. size_of (h.memory x) < nsize) fl
  pub ran : r ≡ some (some (payload h.epilogue 0), grown h m nsize)
  pub allocator : IsAllocator (grown h m nsize) (ts ++ tile nsize 1 ∷ []) fl

-- NULL: no free block was large enough, and the area has no room.
pub record Refused (h : Heap) (fl : List ℕ) (nsize : ℕ) (r : Option (Option ℕ × Heap))
    : Type 0 where
  pub none_fits : All (λ x. size_of (h.memory x) < nsize) fl
  pub full : h.mem_max_addr < h.mem_brk + nsize
  pub ran : r ≡ some (none, h)

abbrev pub Served : Heap → List Tile → List ℕ → ℕ → Option (Option ℕ × Heap) → Type 0
Served h ts fl nsize r = Found h ts fl nsize r ⊎ Grown h ts fl nsize r ⊎ Refused h fl nsize r

module _ (h : Heap) (ts : List Tile) (fl : List ℕ) (nsize : ℕ) (is : IsAllocator h ts fl)
    (big : 32 ≤ nsize) (aligned : nsize % 8 ≡ 0) (small : nsize ≤ 2147483647) where
  extend_heap-Served :
      All (λ x. size_of (h.memory x) < nsize) fl → Served h ts fl nsize (extend_heap nsize h)
  extend_heap-Served none_fits = elim (Bool-cases (ltb h.mem_max_addr (h.mem_brk + nsize))) [
    | inl t ↦
        let full : h.mem_max_addr < h.mem_brk + nsize = ground arith in
        inr (
          inr (record {
            none_fits = none_fits;
            full = full;
            ran = extend_heap-refused h nsize small full;
          }))
    | inr t ↦
        let (m, ran, s) = extend_heap-grows h ts fl nsize is big aligned small (ground arith) in
        let h' = grown h m nsize in
        inr (
          inl (record {
            m = m;
            none_fits = none_fits;
            ran = ran;
            allocator = record {
              heap = record {
                state =
                    subst (λ l. State h' l fl)
                      (sym (append_assoc ts (tile nsize 1 ∷ []) (epilogue_tile ∷ []))) s;
                frees = λ x.
                    is.heap.frees x
                    ∙ count-free_at-append x h.prologue ts (epilogue_tile ∷ [])
                    ∙ sym (count-free_at-append x h.prologue ts (tile nsize 1 ∷ epilogue_tile ∷ []))
                    ∙ ap (λ l. count x (free_at h.prologue l))
                        (sym (append_assoc ts (tile nsize 1 ∷ []) (epilogue_tile ∷ [])));
              };
              epilogue =
                  after-append h.prologue ts (tile nsize 1 ∷ []) ∙ ap (λ b. b + nsize) is.epilogue;
              area = is.area;
            };
          }))
  ]

  -- The sizes are far below the greatest `int`.
  sizes_small : All (λ x. size_of (h.memory x) < int_max) fl
  sizes_small = All-count (λ x. size_of (h.memory x) < int_max) fl go
    where
      go : (x : ℕ) → 0 < count x fl → size_of (h.memory x) < int_max
      go x p =
          let full = ts ++ epilogue_tile ∷ [] in
          let (xs, t, ys, e, free, start) =
            find_tile h.prologue full x (omega (arith, is.heap.frees x)) in
          let at = place h xs t ys fl x (subst (λ l. State h l fl) e is.heap.state) start in
          let front = at.is_tile.front in
          let tag_aligned = at.is_tile.aligned in
          let below = at.below in
          let inside = at.inside in
          let low = is.heap.state.low in
          let high = is.heap.state.high in let area = is.area in omega arith

  -- The search runs, and the block that it chooses is taken.
  search-Served :
      (x : ℕ) (xs : List ℕ) (o : Option ℕ)
      → fl ≡ x ∷ xs
      → Chosen h.memory nsize fl o
      → Served h ts fl nsize (take_block nsize o h)
  unfolding take_block
  search-Served x xs none e c = extend_heap-Served c
  search-Served x xs (some b) e (us, zs, cut, enough, best) = inl (
      subst (λ l. Found h ts l nsize (take_block nsize (some b) h)) (sym cut)
        (take_block-Found h ts us b zs nsize (subst (IsAllocator h ts) cut is) big aligned small
          enough
          (subst
            (All (λ y. nsize ≤ size_of (h.memory y) → size_of (h.memory b) ≤ size_of (h.memory y)))
            cut best)))

mm_malloc-empty :
    (fuel size : ℕ) (h : Heap)
    → (size == 0) ≡ false
    → h.flist_first ≡ null
    → mm_malloc fuel size h ≡ extend_heap (padded size) h
unfolding mm_malloc
mm_malloc-empty fuel size h s e = let t : (h.flist_first == null) ≡ true = ground arith in rw (s, t)

mm_malloc-search :
    (fuel size x : ℕ) (h : Heap) (o : Option ℕ)
    → (size == 0) ≡ false
    → h.flist_first ≡ x
    → 0 < x
    → find_best fuel (padded size) x no_best h ≡ some (o, h)
    → mm_malloc fuel size h ≡ take_block (padded size) o h
unfolding mm_malloc
mm_malloc-search fuel size x h o s e p ran =
    let t : (h.flist_first == null) ≡ false = ground arith in
    let ran' : find_best fuel (padded size) h.flist_first no_best h ≡ some (o, h) =
      ap (λ b. find_best fuel (padded size) b no_best h) e ∙ ran in
    rw (s, t, ran')

-- A request of 1 to 2 ^ 30 bytes in a heap that the allocator keeps, with fuel for the free list,
-- ends. Either a smallest free block that fits is taken, and split where the rest is large, or
-- none fits and the heap grows by the block, or none fits, there is no room, and NULL is returned
-- with nothing changed. The heap stays one that the allocator keeps.
pub mm_malloc-Served :
    (fuel size : ℕ) (h : Heap) (ts : List Tile) (fl : List ℕ)
    → IsAllocator h ts fl
    → 0 < size
    → size ≤ 1073741824
    → length fl ≤ fuel
    → Served h ts fl (padded size) (mm_malloc fuel size h)
mm_malloc-Served fuel size h ts [] is pos small enough =
    let b = padded_bounds size (omega arith) in
    rw (mm_malloc-empty fuel size h (ground arith) is.heap.state.list.first)
      (extend_heap-Served h ts [] (padded size) is b.1 b.0 (omega arith) tt)
mm_malloc-Served fuel size h ts (x ∷ xs) is pos small enough =
    let b = padded_bounds size (omega arith) in
    let nsize = padded size in
    let list = is.heap.state.list in
    let found = (scan h.memory nsize (x ∷ xs) no_best).best in
    let others : All (λ y. y ≢ h.flist_first) xs =
      subst (λ f. All (λ y. y ≢ f) xs) (sym list.first)
        (All-imp (ne_of_Apart x) xs list.scattered.0) in
    let circle = subst (λ f. Seg h.memory x xs f) (sym list.first) list.circular in
    rw
      (mm_malloc-search fuel size x h found (ground arith) list.first list.free.0.not_null
        (find_best-scan fuel nsize x xs no_best h enough circle list.free others))
      (search-Served h ts (x ∷ xs) nsize is b.1 b.0 (omega arith) x xs found refl (
        scan-Chosen h.memory nsize (omega arith) (x ∷ xs)
          (sizes_small h ts (x ∷ xs) nsize is b.1 b.0 (omega arith))))
